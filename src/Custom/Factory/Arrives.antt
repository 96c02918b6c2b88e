-- ===== src/Custom/Factory/Arrives.antt =====
-- comms/custom.py: the messages that fit the format, and the first of those that arrive as sent.
use armv.Common.{
  ℕ, ◌+◌, ◌*◌, ◌/◌, ◌%◌, ◌^◌, ◌<◌, ◌≡◌, ◌≢◌, refl, Bool, true, false, List, [], ◌∷◌, ◌++◌, Option,
  none, some, ok, arith, length, All, All-weaken, take-append_length, drop-append_length,
  drop-append_eq, drop_add, slice_add, ==_self, lt→ltb, if◌then◌else◌, get_elem?-append,
}
use armv.Common.Bytes.{
  Bytes, IsU32, IsAscii, be32, be32s, pack_u32_lem, pack_u32s_lem, unpack_u32s-be32s, length-be32s,
  ascii_lem, from_be32-be32,
}
use armv.Common.Text.{Text, join, Lacks, split-join}
use armv.Custom.Message.{
  Message, handshake, machine_state, mem_view, tapes_view, tape_reply, mem_view_reply,
  disassembly_view, disassembly_view_reply, symbols, set_breakpoint, unset_breakpoint,
  tape_load_message, plain_disconnect, pack_u16, encode_all, to_binary,
}
use armv.Custom.Factory.{unpack_u16, decode_all, words, byte_at, message_factory}

-- An ASCII name without a NUL, as the wire format separates names.
abbrev pub IsName : Text → Type 0
IsName t = All IsAscii t × Lacks 0 t

abbrev pub IsLine : Text → Type 0
IsLine t = All IsAscii t × Lacks b'\n' t

abbrev pub IsSymbol : ℕ × Text → Type 0
IsSymbol s = IsU32 s.0 × IsName s.1

-- The fields fit their places in the message: words of 32 bits, ASCII texts without their
-- separator, sixteen registers, a tape at least, and a line for each word of memory.
abbrev pub IsSendable : Message → Type 0
IsSendable (handshake host port) = (port < 2 ^ 16) × All IsAscii host
IsSendable (machine_state registers mode pc is_waiting) =
    (length registers ≡ 16) × All IsU32 registers × IsU32 mode × IsU32 pc
IsSendable (mem_view id start size watch_start watch_size) =
    IsU32 id × IsU32 start × IsU32 size × IsU32 watch_start × IsU32 watch_size
IsSendable (tapes_view start size) = IsU32 start × IsU32 size
IsSendable (tape_reply start tapes max) =
    IsU32 start × IsU32 (length tapes) × IsU32 max × (tapes ≢ []) × All IsName tapes
IsSendable (mem_view_reply id start memory) = IsU32 id × IsU32 start × IsU32 (length memory)
IsSendable (disassembly_view start size) = IsU32 start × IsU32 size
IsSendable (disassembly_view_reply start memory lines) =
    IsU32 start
    × IsU32 (length memory)
    × (length lines ≡ length memory / 4)
    × (lines ≢ [])
    × All IsLine lines
IsSendable (symbols symbols_list) = All IsSymbol symbols_list
IsSendable (set_breakpoint addr) = IsU32 addr
IsSendable (unset_breakpoint addr) = IsU32 addr
IsSendable (tape_load_message num) = IsU32 num
IsSendable _ = Unit

-- What arrives: `is_waiting` is lost, and the type of Disconnect has no class.
abbrev pub received : Message → Option Message
received (machine_state registers mode pc is_waiting) = some (machine_state registers mode pc false)
received plain_disconnect = none
received m = some m

-- The statement for one message.
abbrev pub Arrives : Message → Type 0
Arrives m = (bytes : Bytes) × (to_binary m ≡ ok bytes) × (message_factory bytes ≡ ok (received m))

pack_u16_lem : (n : ℕ) → n < 2 ^ 16 → pack_u16 n ≡ ok ((n / 2 ^ 8 % 256) ∷ (n % 256) ∷ [])
unfolding pack_u16
pack_u16_lem n h = rw (lt→ltb n (2 ^ 16) h)

from_u16 : (n : ℕ) → n < 2 ^ 16 → n / 2 ^ 8 % 256 * 256 + n % 256 ≡ n
from_u16 n h = omega arith

pub handshake-Arrives :
    (host : Text) (port : ℕ) → IsSendable (handshake host port) → Arrives (handshake host port)
handshake-Arrives host port (hp, hh) = (
  be32 18 ++ ((port / 2 ^ 8 % 256) ∷ (port % 256) ∷ host),
  unfold to_binary in rw (pack_u16_lem port hp, ascii_lem host hh),
  unfold message_factory unpack_u16 in rw (from_u16 port hp, ascii_lem host hh),
)

pub mem_view-Arrives :
    (id start size ws wn : ℕ)
    → IsSendable (mem_view id start size ws wn)
    → Arrives (mem_view id start size ws wn)
mem_view-Arrives id start size ws wn h =
    let ns = id ∷ start ∷ size ∷ ws ∷ wn ∷ [] in
    (
      be32 7 ++ be32s ns,
      unfold to_binary in rw (pack_u32s_lem ns (omega arith)),
      unfold message_factory in rw (unpack_u32s-be32s ns (omega arith)),
    )

encode_all_lem : (ts : List Text) → All (All IsAscii) ts → encode_all ts ≡ ok ts
unfolding encode_all
encode_all_lem [] h = refl
encode_all_lem (t ∷ ts) h = rw (ascii_lem t h.0, encode_all_lem ts h.1)

decode_all_lem : (ts : List Text) → All (All IsAscii) ts → decode_all ts ≡ ok ts
unfolding decode_all
decode_all_lem [] h = refl
decode_all_lem (t ∷ ts) h = rw (ascii_lem t h.0, decode_all_lem ts h.1)

words-be32s :
    (ns : List ℕ) (rest : Bytes) → All IsU32 ns → words (length ns) (be32s ns ++ rest) ≡ ok ns
unfolding words
words-be32s [] rest h = refl
words-be32s (n ∷ ns) rest h = rw (from_be32-be32 n h.0, words-be32s ns rest h.1)

pub tapes_view-Arrives :
    (start size : ℕ) → IsSendable (tapes_view start size) → Arrives (tapes_view start size)
tapes_view-Arrives start size h =
    let ns = 2 ∷ start ∷ size ∷ [] in
    (
      be32 12 ++ be32s ns,
      unfold to_binary in rw (pack_u32s_lem ns (omega arith)),
      unfold message_factory in rw (unpack_u32s-be32s ns (omega arith)),
    )

pub disassembly_view-Arrives :
    (start size : ℕ)
    → IsSendable (disassembly_view start size)
    → Arrives (disassembly_view start size)
disassembly_view-Arrives start size h =
    let ns = 1 ∷ start ∷ size ∷ 0 ∷ 0 ∷ [] in
    (
      be32 10 ++ be32s ns,
      unfold to_binary in rw (pack_u32s_lem ns (omega arith)),
      unfold message_factory in rw (unpack_u32s-be32s ns (omega arith)),
    )

pub mem_view_reply-Arrives :
    (id start : ℕ) (memory : Bytes)
    → IsSendable (mem_view_reply id start memory)
    → Arrives (mem_view_reply id start memory)
mem_view_reply-Arrives id start memory h =
    let ns = id ∷ start ∷ length memory ∷ [] in
    (
      be32 6 ++ (be32s ns ++ memory),
      unfold to_binary in rw (pack_u32s_lem ns (omega arith)),
      unfold message_factory in rw (unpack_u32s-be32s ns (omega arith), ==_self (length memory)),
    )

pub tape_reply-Arrives :
    (start : ℕ) (t : Text) (ts : List Text) (max : ℕ)
    → IsSendable (tape_reply start (t ∷ ts) max)
    → Arrives (tape_reply start (t ∷ ts) max)
tape_reply-Arrives start t ts max h =
    let ns = 2 ∷ start ∷ length (t ∷ ts) ∷ [] in
    let ms = 2 ∷ start ∷ length (t ∷ ts) ∷ max ∷ [] in
    let plain = All-weaken IsName (All IsAscii) (λ x n. n.0) (t ∷ ts) h.4 in
    let apart = All-weaken IsName (Lacks 0) (λ x n. n.1) (t ∷ ts) h.4 in
    (
      be32 13 ++ (be32s ns ++ (be32 max ++ join 0 (t ∷ ts))),
      unfold to_binary in
          rw (pack_u32s_lem ns (omega arith), pack_u32_lem max h.2, encode_all_lem (t ∷ ts) plain),
      unfold message_factory in
          rw (
            unpack_u32s-be32s ms (omega arith),
            split-join 0 t ts apart,
            decode_all_lem (t ∷ ts) plain,
            ==_self (length (t ∷ ts)),
          ),
    )

-- The last byte of a MachineState.
flag :
    (w : Bool) (front : Bytes) (mode pc : ℕ)
    → length front ≡ 64
    → byte_at (front ++ (be32 mode ++ (be32 pc ++ (if w then b'1' ∷ [] else 0 ∷ [])))) 72
      ≡ ok (if w then b'1' else 0)
unfolding byte_at
flag true front mode pc e =
    rw (get_elem?-append front (be32 mode ++ (be32 pc ++ (b'1' ∷ []))) 8 72 (omega arith), byte_at)
flag false front mode pc e =
    rw (get_elem?-append front (be32 mode ++ (be32 pc ++ (0 ∷ []))) 8 72 (omega arith), byte_at)

pub machine_state-Arrives :
    (registers : List ℕ) (mode pc : ℕ) (w : Bool)
    → IsSendable (machine_state registers mode pc w)
    → Arrives (machine_state registers mode pc w)
machine_state-Arrives registers mode pc w h =
    let long : length (be32s registers) ≡ 64 = omega (arith, length-be32s registers, h.0) in
    let tail : Bytes = be32 mode ++ (be32 pc ++ (if w then b'1' ∷ [] else 0 ∷ [])) in
    let first_words : words 16 (be32s registers ++ tail) ≡ ok registers =
      rw h.0 at (words-be32s registers tail h.1) in
    (
      be32 9 ++ (be32s registers ++ tail),
      unfold to_binary in
          rw (pack_u32s_lem registers h.1, pack_u32_lem mode h.2, pack_u32_lem pc h.3),
      unfold message_factory in
          rw
            (
              first_words,
              drop-append_eq 64 (be32s registers) tail long,
              unpack_u32s-be32s (mode ∷ pc ∷ []) (omega arith),
            )
            (rw (flag w (be32s registers) mode pc long)),
    )

-- The slice of the memory and the rest behind it.
pub disassembly_view_reply-Arrives :
    (start : ℕ) (memory : Bytes) (l : Text) (ls : List Text)
    → IsSendable (disassembly_view_reply start memory (l ∷ ls))
    → Arrives (disassembly_view_reply start memory (l ∷ ls))
disassembly_view_reply-Arrives start memory l ls h =
    let plain = All-weaken IsLine (All IsAscii) (λ x n. n.0) (l ∷ ls) h.4 in
    let apart = All-weaken IsLine (Lacks b'\n') (λ x n. n.1) (l ∷ ls) h.4 in
    let ns = start ∷ length memory ∷ [] in
    let text = join b'\n' (l ∷ ls) in
    (
      be32 11 ++ (be32 start ++ (be32 (length memory) ++ (memory ++ text))),
      unfold to_binary in
          rw (
            pack_u32_lem start h.0,
            pack_u32_lem (length memory) h.1,
            encode_all_lem (l ∷ ls) plain,
          ),
      unfold message_factory in
          rw
            (
              unpack_u32s-be32s ns (omega arith),
              slice_add 8 (length memory) (be32s ns ++ (memory ++ text)),
              drop_add 8 (length memory) (be32s ns ++ (memory ++ text)),
              take-append_length memory text,
              drop-append_length memory text,
              ==_self (length memory),
              split-join b'\n' l ls apart,
              decode_all_lem (l ∷ ls) plain,
              h.2,
              ==_self (length memory / 4),
            )
            refl,
    )
