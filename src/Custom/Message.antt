-- ===== src/Custom/Message.antt =====
-- comms/custom.py: the messages of the debugger's own protocol and `to_binary` of each class.
-- Numbers are the Python integers from 0 on; `struct.pack` refuses those that do not fit.
use armv.Common.{
  ℕ, ◌^◌, Bool, List, [], ◌∷◌, ◌++◌, Result, ok, raised, struct_error, ◌>>=◌, ltb, if◌then◌else◌,
  length, ◌/◌, ◌%◌,
}
use armv.Common.Bytes.{Bytes, be32, pack_u32, pack_u32s, ascii}
use armv.Common.Text.{Text, join}

-- The values of `Types` that have a message class.
pub data Types : Type 0 where
  stop resume restart step setbkpt unsetbkpt memdata memwatch state disassembly : Types
  disassemblydata taperequest tape_list tape_load tape_unload symbol_data next connect : Types
  disconnect : Types

abbrev pub value : Types → ℕ
value stop = 0
value resume = 1
value step = 2
value restart = 3
value setbkpt = 4
value unsetbkpt = 5
value memdata = 6
value memwatch = 7
value state = 9
value disassembly = 10
value disassemblydata = 11
value taperequest = 12
value tape_list = 13
value tape_load = 14
value tape_unload = 15
value symbol_data = 16
value next = 17
value connect = 18
value disconnect = 19

-- The class attributes MemView.Types.
abbrev pub memdump_id : ℕ
memdump_id = 0

abbrev pub disassembly_id : ℕ
disassembly_id = 1

abbrev pub tapes_id : ℕ
tapes_id = 2

-- One constructor for each class, with the attributes that its constructor sets from arguments.
-- A tape of a TapeReply counts by its name.
pub data Message : Type 0 where
  handshake : (host : Text) (port : ℕ) → Message
  machine_state : (registers : List ℕ) (mode pc : ℕ) (is_waiting : Bool) → Message
  mem_view : (id start size watch_start watch_size : ℕ) → Message
  tapes_view : (start size : ℕ) → Message
  tape_reply : (start : ℕ) (tapes : List Text) (max : ℕ) → Message
  mem_view_reply : (id start : ℕ) (memory : Bytes) → Message
  disassembly_view : (start size : ℕ) → Message
  disassembly_view_reply : (start : ℕ) (memory : Bytes) (lines : List Text) → Message
  symbols : (symbols_list : List (ℕ × Text)) → Message
  set_breakpoint : (addr : ℕ) → Message
  unset_breakpoint : (addr : ℕ) → Message
  tape_load_message : (num : ℕ) → Message
  plain_stop plain_resume plain_restart plain_step plain_next : Message
  plain_tape_unload plain_disconnect : Message

-- MemdumpView(start, size, watch_start, watch_size): a MemView by another constructor.
abbrev pub memdump_view : ℕ → ℕ → ℕ → ℕ → Message
memdump_view start size watch_start watch_size =
    mem_view memdump_id start size watch_start watch_size

abbrev pub type_of : Message → Types
type_of (handshake host port) = connect
type_of (machine_state registers mode pc is_waiting) = state
type_of (mem_view id start size watch_start watch_size) = memwatch
type_of (tapes_view start size) = taperequest
type_of (tape_reply start tapes max) = tape_list
type_of (mem_view_reply id start memory) = memdata
type_of (disassembly_view start size) = disassembly
type_of (disassembly_view_reply start memory lines) = disassemblydata
type_of (symbols symbols_list) = symbol_data
type_of (set_breakpoint addr) = setbkpt
type_of (unset_breakpoint addr) = unsetbkpt
type_of (tape_load_message num) = tape_load
type_of plain_stop = stop
type_of plain_resume = resume
type_of plain_restart = restart
type_of plain_step = step
type_of plain_next = next
type_of plain_tape_unload = tape_unload
type_of plain_disconnect = disconnect

-- struct.pack(">H", n)
unfoldable pub pack_u16 : ℕ → Result Bytes
pack_u16 n = if ltb n (2 ^ 16) then ok ((n / 2 ^ 8 % 256) ∷ (n % 256) ∷ []) else raised struct_error

unfoldable pub encode_all : List Text → Result (List Bytes)
unfolding ascii
encode_all [] = ok []
encode_all (t ∷ ts) = let rest = encode_all ts in do w ← ascii t; ws ← rest; ok (w ∷ ws)

unfoldable pub encode_symbols : List (ℕ × Text) → Result Bytes
unfolding pack_u32 ascii
encode_symbols [] = ok []
encode_symbols ((addr, name) ∷ rest) =
    let others = encode_symbols rest in
    do a ← pack_u32 addr; n ← ascii name; bytes ← others; ok (a ++ (n ++ (0 ∷ bytes)))

-- What each class appends to the type word in `to_binary`.
handshake_body : Text → ℕ → Result Bytes
handshake_body host port = do p ← pack_u16 port; h ← ascii host; ok (p ++ h)

machine_state_body : List ℕ → ℕ → ℕ → Bool → Result Bytes
machine_state_body registers mode pc is_waiting = do
  regs ← pack_u32s registers
  mode' ← pack_u32 mode
  pc' ← pack_u32 pc
  ok (regs ++ (mode' ++ (pc' ++ (if is_waiting then b'1' ∷ [] else 0 ∷ []))))

mem_view_body : ℕ → ℕ → ℕ → ℕ → ℕ → Result Bytes
mem_view_body id start size watch_start watch_size =
    pack_u32s (id ∷ start ∷ size ∷ watch_start ∷ watch_size ∷ [])

-- TapesView, and the first part of a TapeReply.
tapes_view_body : ℕ → ℕ → Result Bytes
tapes_view_body start size = pack_u32s (tapes_id ∷ start ∷ size ∷ [])

tape_reply_body : ℕ → List Text → ℕ → Result Bytes
unfolding tapes_view_body
tape_reply_body start tapes max = do
  first ← tapes_view_body start (length tapes)
  max' ← pack_u32 max
  names ← encode_all tapes
  ok (first ++ (max' ++ join 0 names))

mem_view_reply_body : ℕ → ℕ → Bytes → Result Bytes
mem_view_reply_body id start memory = do
  first ← pack_u32s (id ∷ start ∷ length memory ∷ [])
  ok (first ++ memory)

disassembly_view_reply_body : ℕ → Bytes → List Text → Result Bytes
disassembly_view_reply_body start memory lines = do
  start' ← pack_u32 start
  len ← pack_u32 (length memory)
  lines' ← encode_all lines
  ok (start' ++ (len ++ (memory ++ join b'\n' lines')))

unfoldable pub body : Message → Result Bytes
unfolding handshake_body machine_state_body mem_view_body tapes_view_body tape_reply_body
    mem_view_reply_body disassembly_view_reply_body
body (handshake host port) = handshake_body host port
body (machine_state registers mode pc is_waiting) = machine_state_body registers mode pc is_waiting
body (mem_view id start size watch_start watch_size) =
    mem_view_body id start size watch_start watch_size
body (tapes_view start size) = tapes_view_body start size
body (tape_reply start tapes max) = tape_reply_body start tapes max
body (mem_view_reply id start memory) = mem_view_reply_body id start memory
body (disassembly_view start size) = mem_view_body disassembly_id start size 0 0
body (disassembly_view_reply start memory lines) = disassembly_view_reply_body start memory lines
body (symbols symbols_list) = encode_symbols symbols_list
body (set_breakpoint addr) = pack_u32 addr
body (unset_breakpoint addr) = pack_u32 addr
body (tape_load_message num) = pack_u32 num
body _ = ok []

-- Message.to_binary is the type word; each class appends its fields.
unfoldable pub to_binary : Message → Result Bytes
unfolding body
to_binary m = do rest ← body m; ok (be32 (value (type_of m)) ++ rest)
