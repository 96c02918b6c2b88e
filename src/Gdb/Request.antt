-- ===== src/Gdb/Request.antt =====
-- comms/gdb.py: the messages that gdb sends, and the constructor of each class on its payload.
use armv.Common.{
  ℕ, zero, suc, Bool, true, false, List, [], ◌∷◌, map, Option, none, some, Result, ok, raised,
  index_error, value_error, name_error, no_fuel, ◌>>=◌, ◌==◌, if◌then◌else◌, take, drop, get_elem?,
  length,
}
use armv.Common.Bytes.{Bytes}
use armv.Common.Text.{split}
use armv.Common.Int.{ℤ, pos}
use armv.Gdb.Hex.{int_of}
use armv.Gdb.Packet.{low32, byte_swap, unescape}

pub data Watch : Type 0 where
  write read access : Watch

-- One constructor for each class that a handler instantiates, with the attributes it sets. A write
-- of memory in either form has the same type and attributes.
pub data Request : Type 0 where
  stop detach get_registers open_file : Request
  set_registers : (regs : List ℕ) (pc fps cpsr : ℕ) → Request
  get_register : (register : ℤ) → Request
  set_register : (register : ℤ) (value : ℕ) → Request
  step continue_at : (addr : Option ℤ) → Request
  continue_signal : (signal : ℤ) (addr : Option ℤ) → Request
  read_memory : (start len : ℤ) → Request
  write_memory : (start len : ℤ) (values : List ℤ) → Request
  close_file fstat_file : (fd : ℤ) → Request
  pread_file : (fd count offset : ℤ) → Request
  set_breakpoint unset_breakpoint : (addr : ℤ) → Request
  set_watchpoint unset_watchpoint : (kind : Watch) (addr : ℤ) → Request

-- a, b = parts, where any other number of parts is a ValueError.
abbrev pub two : List Bytes → Result (Bytes × Bytes)
two (a ∷ b ∷ []) = ok (a, b)
two _ = raised value_error

abbrev pub three : List Bytes → Result (Bytes × Bytes × Bytes)
three (a ∷ b ∷ c ∷ []) = ok (a, b, c)
three _ = raised value_error

-- start, length = (int(v, 16) for v in text.split(b","))
unfoldable pub range_of : Bytes → Result (ℤ × ℤ)
range_of text = do
  (a, b) ← two (split b',' text)
  start ← int_of 16 a
  len ← int_of 16 b
  ok (start, len)

-- try: int(text, 16) except ValueError: None
unfoldable pub addr_of : Result ℤ → Option ℤ
addr_of (ok n) = some n
addr_of (raised e) = none

-- The chunks of `k` bytes of a text, as `int(text[i : i + k], 16)`. The length is enough fuel.
unfoldable pub numbers : ℕ → ℕ → Bytes → Result (List ℤ)
numbers fuel k [] = ok []
numbers zero k (c ∷ text) = raised no_fuel
numbers (suc fuel) k (c ∷ text) = do
  n ← int_of 16 (take k (c ∷ text))
  ns ← numbers fuel k (drop k (c ∷ text))
  ok (n ∷ ns)

-- byte_swap(int(...)): the masks keep the low word of any integer.
abbrev pub swapped : List ℤ → List ℕ
swapped [] = []
swapped (n ∷ ns) = byte_swap (low32 n) ∷ swapped ns

abbrev pub item : List ℕ → ℕ → Result ℕ
item ns i = elim (get_elem? ns i) [ none ↦ raised index_error | some n ↦ ok n ]

unfoldable pub set_registers_from : Bytes → Result Request
unfolding numbers
set_registers_from payload = do
  ns ← numbers (length payload) 8 (drop 1 payload)
  let words = swapped ns
  pc ← item words 15
  fps ← item words 24
  cpsr ← item words 25
  ok (set_registers (take 15 words) pc fps cpsr)

unfoldable pub get_register_from : Bytes → Result Request
get_register_from payload = do n ← int_of 16 (drop 1 payload); ok (get_register n)

unfoldable pub set_register_from : Bytes → Result Request
set_register_from payload = do
  (reg, value) ← two (split b'=' (drop 1 payload))
  r ← int_of 16 reg
  v ← int_of 16 value
  ok (set_register r (byte_swap (low32 v)))

unfoldable pub step_from : Bytes → Result Request
unfolding addr_of
step_from payload = ok (step (addr_of (int_of 16 (drop 1 payload))))

unfoldable pub continue_from : Bytes → Result Request
unfolding addr_of
continue_from payload = ok (continue_at (addr_of (int_of 16 (drop 1 payload))))

abbrev pub contains : ℕ → Bytes → Bool
contains c [] = false
contains c (b ∷ bs) = if b == c then true else contains c bs

-- Without a `;` the local name `signal` is unbound.
unfoldable pub continue_signal_from : Bytes → Result Request
continue_signal_from payload =
    if contains b';' (drop 1 payload)
    then (two (split b';' (drop 1 payload)) >>= λ parts. int_of 16 parts.0 >>= λ signal.
        int_of 16 parts.1 >>= λ addr. ok (continue_signal signal (some addr)))
    else raised name_error

unfoldable pub read_memory_from : Bytes → Result Request
unfolding range_of
read_memory_from payload = do (start, len) ← range_of (drop 1 payload); ok (read_memory start len)

unfoldable pub write_memory_from : Bytes → Result Request
unfolding range_of numbers
write_memory_from payload = do
  (params, text) ← two (split b':' (drop 1 payload))
  (start, len) ← range_of params
  values ← numbers (length text) 2 text
  ok (write_memory start len values)

unfoldable pub write_memory_binary_from : Bytes → Result Request
unfolding range_of
write_memory_binary_from payload = do
  (params, binary) ← two (split b':' (drop 1 payload))
  (start, len) ← range_of params
  ok (write_memory start len (map pos (unescape binary)))

abbrev pub first : List Bytes → Bytes
first [] = []
first (a ∷ rest) = a

-- SetBreakpoint.__init__ and UnsetBreakpoint.__init__; the kind is not read.
unfoldable pub breakpoint_addr : Bytes → Result ℤ
breakpoint_addr payload = do
  (addr, kind) ← two (split b',' (first (split b';' (drop 3 payload))))
  int_of 16 addr

unfoldable pub pread_file_from : Bytes → Result Request
pread_file_from text = do
  (a, b, c) ← three (split b',' text)
  fd ← int_of 16 a
  count ← int_of 16 b
  offset ← int_of 16 c
  ok (pread_file fd count offset)
