-- ===== src/Custom/Factory.antt =====
-- comms/custom.py: `from_binary` of each class, and BaseHandler.message_factory.
pub mod Arrives
pub mod RoundTrip
pub mod Parses
pub mod Errors
use armv.Common.{
  ℕ, zero, suc, ◌+◌, ◌*◌, ◌/◌, ◌-◌, Bool, true, false, List, [], ◌∷◌, ◌++◌, Option, none, some,
  Result, ok, raised, Exn, struct_error, index_error, key_error, value_error, comms_error, no_fuel,
  ◌>>=◌, ◌==◌, if◌then◌else◌, length, take, drop, slice, get_elem?,
}
use armv.Common.Bytes.{Bytes, unpack_u32, unpack_u32s, ascii}
use armv.Common.Text.{Text, split, split_once}
use armv.Custom.Message.{
  Types, value, stop, resume, restart, step, setbkpt, unsetbkpt, memdata, memwatch, state,
  disassembly, disassemblydata, taperequest, tape_list, tape_load, tape_unload, symbol_data, next,
  connect, Message, handshake, machine_state, mem_view, tapes_view, tape_reply, mem_view_reply,
  disassembly_view, disassembly_view_reply, symbols, set_breakpoint, unset_breakpoint,
  tape_load_message, plain_stop, plain_resume, plain_restart, plain_step, plain_next,
  plain_tape_unload,
}

-- The keys of messages_by_type.
unfoldable pub messages_by_type : ℕ → Option Types
messages_by_type n =
    if n == 18
    then some connect
    else if n == 9
    then some state
    else if n == 7
    then some memwatch
    else if n == 6
    then some memdata
    else if n == 4
    then some setbkpt
    else if n == 5
    then some unsetbkpt
    else if n == 10
    then some disassembly
    else if n == 11
    then some disassemblydata
    else if n == 0
    then some stop
    else if n == 1
    then some resume
    else if n == 3
    then some restart
    else if n == 2
    then some step
    else if n == 12
    then some taperequest
    else if n == 13
    then some tape_list
    else if n == 14
    then some tape_load
    else if n == 15
    then some tape_unload
    else if n == 16
    then some symbol_data
    else if n == 17
    then some next
    else none

-- struct.unpack(">H", bytes)[0]
unfoldable pub unpack_u16 : Bytes → Result ℕ
unpack_u16 (a ∷ b ∷ []) = ok (a * 256 + b)
unpack_u16 _ = raised struct_error

unfoldable pub decode_all : List Bytes → Result (List Text)
unfolding ascii
decode_all [] = ok []
decode_all (w ∷ ws) = let rest = decode_all ws in do t ← ascii w; ts ← rest; ok (t ∷ ts)

-- [struct.unpack(">I", data[i * 4 : (i + 1) * 4])[0] for i in range(k)]
unfoldable pub words : ℕ → Bytes → Result (List ℕ)
unfolding unpack_u32
words zero bytes = ok []
words (suc k) bytes =
    let rest = words k (drop 4 bytes) in do w ← unpack_u32 (take 4 bytes); ws ← rest; ok (w ∷ ws)

-- Python's `==` between a byte of `bytes` (an int) and a `str`.
abbrev pub int_eq_str : ℕ → Text → Bool
int_eq_str n s = false

-- data[i] of a byte string
unfoldable pub byte_at : Bytes → ℕ → Result ℕ
byte_at bytes i = elim (get_elem? bytes i) [ none ↦ raised index_error | some b ↦ ok b ]

handshake_from : Bytes → Result (Option Message)
handshake_from bytes = do
  port ← unpack_u16 (take 2 bytes)
  host ← ascii (drop 2 bytes)
  ok (some (handshake host port))

mode_pc : List ℕ → List ℕ → Bool → Result (Option Message)
mode_pc regs (mode ∷ pc ∷ []) waiting = ok (some (machine_state regs mode pc waiting))
mode_pc regs _ waiting = raised struct_error

machine_state_from : Bytes → Result (Option Message)
unfolding mode_pc
machine_state_from bytes = do
  regs ← words 16 bytes
  ns ← unpack_u32s 2 (slice 64 72 bytes)
  b ← byte_at bytes 72
  mode_pc regs ns (int_eq_str b (b'1' ∷ []))

mem_view_of : List ℕ → Result (Option Message)
mem_view_of (id ∷ start ∷ size ∷ watch_start ∷ watch_size ∷ []) =
    ok (some (mem_view id start size watch_start watch_size))
mem_view_of _ = raised struct_error

mem_view_from : Bytes → Result (Option Message)
unfolding mem_view_of
mem_view_from bytes = do ns ← unpack_u32s 5 bytes; mem_view_of ns

tapes_view_of : List ℕ → Result (Option Message)
tapes_view_of (id ∷ start ∷ size ∷ []) = ok (some (tapes_view start size))
tapes_view_of _ = raised struct_error

tapes_view_from : Bytes → Result (Option Message)
unfolding tapes_view_of
tapes_view_from bytes = do ns ← unpack_u32s 3 bytes; tapes_view_of ns

tape_reply_of : List ℕ → List Text → Result (Option Message)
tape_reply_of (id ∷ start ∷ size ∷ num_tapes ∷ []) tapes =
    if length tapes == size then ok (some (tape_reply start tapes num_tapes)) else ok none
tape_reply_of _ tapes = raised struct_error

tape_reply_from : Bytes → Result (Option Message)
unfolding tape_reply_of
tape_reply_from bytes = do
  ns ← unpack_u32s 4 (take 16 bytes)
  tapes ← decode_all (split 0 (drop 16 bytes))
  tape_reply_of ns tapes

mem_view_reply_of : List ℕ → Bytes → Result (Option Message)
mem_view_reply_of (id ∷ start ∷ size ∷ []) bytes =
    if length bytes == size then ok (some (mem_view_reply id start bytes)) else ok none
mem_view_reply_of _ bytes = raised struct_error

mem_view_reply_from : Bytes → Result (Option Message)
unfolding mem_view_reply_of
mem_view_reply_from bytes = do
  ns ← unpack_u32s 3 (take 12 bytes)
  mem_view_reply_of ns (drop 12 bytes)

disassembly_view_of : List ℕ → Result (Option Message)
disassembly_view_of (id ∷ start ∷ size ∷ watch_start ∷ watch_size ∷ []) =
    ok (some (disassembly_view start size))
disassembly_view_of _ = raised struct_error

disassembly_view_from : Bytes → Result (Option Message)
unfolding disassembly_view_of
disassembly_view_from bytes = do ns ← unpack_u32s 5 bytes; disassembly_view_of ns

-- A wrong length of the memory or a wrong number of lines raises comms/custom.py's Error.
disassembly_of : List ℕ → Bytes → Result (Option Message)
disassembly_of (start ∷ mem_length ∷ []) bytes =
    let mem = slice 8 (8 + mem_length) bytes in
    if mem_length == length mem
    then (decode_all (split b'\n' (drop (8 + mem_length) bytes)) >>= λ lines.
        if length lines == mem_length / 4
        then ok (some (disassembly_view_reply start mem lines))
        else raised comms_error)
    else raised comms_error
disassembly_of _ bytes = raised struct_error

disassembly_view_reply_from : Bytes → Result (Option Message)
unfolding disassembly_of
disassembly_view_reply_from bytes = do ns ← unpack_u32s 2 (take 8 bytes); disassembly_of ns bytes

-- Symbols.from_binary: `while data:`, a word and a NUL-terminated name at a time.
unfoldable pub symbols_loop : ℕ → Bytes → Result (List (ℕ × Text))
unfolding unpack_u32 split_once ascii
symbols_loop fuel [] = ok []
symbols_loop zero (b ∷ bytes) = raised no_fuel
symbols_loop (suc fuel) (b ∷ bytes) = do
  addr ← unpack_u32 (take 4 (b ∷ bytes))
  elim (split_once 0 (drop 4 (b ∷ bytes))) [
    | none ↦ raised value_error
    | some (name, rest) ↦
        (ascii name >>= λ n. symbols_loop fuel rest >>= λ others. ok ((addr, n) ∷ others))
  ]

symbols_from : Bytes → Result (Option Message)
symbols_from bytes = do list ← symbols_loop (length bytes) bytes; ok (some (symbols list))

from_word : (ℕ → Message) → Bytes → Result (Option Message)
from_word make bytes = do n ← unpack_u32 (take 4 bytes); ok (some (make n))

-- messages_by_type[type].from_binary(bytes); the last clause is a KeyError.
unfoldable pub from_binary : Option Types → Bytes → Result (Option Message)
unfolding handshake_from machine_state_from mem_view_from tapes_view_from tape_reply_from
    mem_view_reply_from disassembly_view_from disassembly_view_reply_from symbols_from from_word
from_binary (some connect) bytes = handshake_from bytes
from_binary (some state) bytes = machine_state_from bytes
from_binary (some memwatch) bytes = mem_view_from bytes
from_binary (some memdata) bytes = mem_view_reply_from bytes
from_binary (some setbkpt) bytes = from_word set_breakpoint bytes
from_binary (some unsetbkpt) bytes = from_word unset_breakpoint bytes
from_binary (some disassembly) bytes = disassembly_view_from bytes
from_binary (some disassemblydata) bytes = disassembly_view_reply_from bytes
from_binary (some stop) bytes = ok (some plain_stop)
from_binary (some resume) bytes = ok (some plain_resume)
from_binary (some restart) bytes = ok (some plain_restart)
from_binary (some step) bytes = ok (some plain_step)
from_binary (some taperequest) bytes = tapes_view_from bytes
from_binary (some tape_list) bytes = tape_reply_from bytes
from_binary (some tape_load) bytes = from_word tape_load_message bytes
from_binary (some tape_unload) bytes = ok (some plain_tape_unload)
from_binary (some symbol_data) bytes = symbols_from bytes
from_binary (some next) bytes = ok (some plain_next)
from_binary _ bytes = raised key_error

-- `except KeyError` and `except Error` print and return None; any other exception passes.
abbrev pub caught : Result (Option Message) → Result (Option Message)
caught (ok m) = ok m
caught (raised key_error) = ok none
caught (raised comms_error) = ok none
caught (raised e) = raised e

unfoldable pub message_factory : Bytes → Result (Option Message)
unfolding from_binary messages_by_type unpack_u32
message_factory bytes = do
  type ← unpack_u32 (take 4 bytes)
  caught (from_binary (messages_by_type type) (drop 4 bytes))
