-- ===== src/Gdb/Reply.antt =====
-- comms/gdb.py: the messages that the debugger sends, and `to_binary` of each class.
pub mod Registers
use armv.Common.{
  ℕ, zero, suc, ◌+◌, ◌-◌, ◌/◌, ◌%◌, ◌^◌, List, [], ◌∷◌, ◌++◌, Result, ok, raised, attribute_error,
  struct_error, ltb, if◌then◌else◌, ◌>>=◌, length,
}
use armv.Common.Bytes.{Bytes, be32}
use armv.Common.Text.{codes}
use armv.Common.Int.{ℤ, pos, negsuc}
use armv.Gdb.Hex.{hex, hex_pad}
use armv.Gdb.Packet.{byte_swap, escape, format_gdb_message}

pub data Reply : Type 0 where
  ok_reply empty_reply swbreak_reply : Reply
  stop_reply : (signal : ℕ) → Reply
  -- r0 to r14, the pc and the mode of RegisterValues
  register_values : (regs : List ℕ) (pc mode : ℕ) → Reply
  register_value : (register : ℕ) → Reply
  memory : (values : Bytes) → Reply
  file_response : (result : ℤ) → Reply
  fstat_response : (len : ℕ) → Reply
  pread_response : (chunk : Bytes) → Reply

-- "%d": as many digits as `n` has.
unfoldable pub decimal_digits : ℕ → ℕ → Bytes
decimal_digits zero n = (b'0' + n % 10) ∷ []
decimal_digits (suc fuel) n =
    let front = decimal_digits fuel (n / 10) in
    if ltb n 10 then (b'0' + n) ∷ [] else front ++ ((b'0' + n % 10) ∷ [])

unfoldable pub decimal : ℤ → Bytes
unfolding decimal_digits
decimal (pos n) = decimal_digits n n
decimal (negsuc n) = b'-' ∷ decimal_digits (suc n) (suc n)

-- "".join(f"{byte_swap(reg):08x}" for reg in regs)
unfoldable pub words_text : List ℕ → Bytes
unfolding hex_pad byte_swap
words_text [] = []
words_text (w ∷ ws) = hex_pad 8 (byte_swap w) ++ words_text ws

-- The same with "024x", for the eight floating point registers.
unfoldable pub wide_text : List ℕ → Bytes
unfolding hex_pad byte_swap
wide_text [] = []
wide_text (w ∷ ws) = hex_pad 24 (byte_swap w) ++ wide_text ws

abbrev pub fp_regs : List ℕ
fp_regs = 0 ∷ 0 ∷ 0 ∷ 0 ∷ 0 ∷ 0 ∷ 0 ∷ 0 ∷ []

unfoldable pub registers_text : List ℕ → ℕ → ℕ → Bytes
registers_text regs pc mode =
    words_text (regs ++ (pc ∷ [])) ++ (wide_text fp_regs ++ words_text (0 ∷ mode ∷ []))

-- "".join(f"{byte:02x}" for byte in data)
unfoldable pub memory_text : Bytes → Bytes
unfolding hex_pad
memory_text [] = []
memory_text (b ∷ bs) = hex_pad 2 b ++ memory_text bs

-- struct.pack(">Q", n)
unfoldable pub pack_u64 : ℕ → Result Bytes
pack_u64 n =
    if ltb n (2 ^ 64) then ok (be32 (n / 2 ^ 32) ++ be32 (n % 2 ^ 32)) else raised struct_error

unfoldable pub stat_format : ℕ → Result Bytes
unfolding pack_u64
stat_format len = do
  size ← pack_u64 len
  one ← pack_u64 1
  ok (
      be32 0
      ++ (be32 0
          ++ (be32 0xE0
              ++ (be32 0
                  ++ (be32 0
                      ++ (be32 0
                          ++ (be32 0
                              ++ (size ++ (one ++ (size ++ (be32 0 ++ (be32 0 ++ be32 0))))))))))))

-- b"F%x;" % len(data) + escape(data)
unfoldable pub attachment : Bytes → Bytes
unfolding hex escape
attachment bytes = b'F' ∷ (hex (length bytes) ++ (b';' ∷ escape bytes))

-- A RegisterValue has no attribute `regs`, which the inherited to_binary reads.
unfoldable pub to_binary : Reply → Result Bytes
unfolding hex_pad registers_text memory_text decimal stat_format attachment
to_binary ok_reply = ok (format_gdb_message (codes "OK"))
to_binary empty_reply = ok (format_gdb_message [])
to_binary swbreak_reply = ok (format_gdb_message (b'T' ∷ (hex_pad 2 5 ++ codes " swbreak:;")))
to_binary (stop_reply signal) = ok (format_gdb_message (b'S' ∷ hex_pad 2 signal))
to_binary (register_values regs pc mode) = ok (format_gdb_message (registers_text regs pc mode))
to_binary (register_value register) = raised attribute_error
to_binary (memory values) = ok (format_gdb_message (memory_text values))
to_binary (file_response result) = ok (format_gdb_message (b'F' ∷ decimal result))
to_binary (fstat_response len) =
    stat_format len >>= λ stat. ok (format_gdb_message (attachment stat))
to_binary (pread_response chunk) = ok (format_gdb_message (attachment chunk))
