-- ===== src/Gdb/Session.antt =====
-- comms/gdb.py, class BaseHandler: message_factory with its handlers.
pub mod Loop
pub mod Laws
use armv.Common.{
  ℕ, zero, suc, ◌+◌, ◌-◌, Bool, true, false, ◌&&◌, ◌||◌, not, List, [], ◌∷◌, ◌++◌, Option, none,
  some, Result, ok, raised, Exn, index_error, value_error, type_error, ◌>>=◌, ◌==◌, if◌then◌else◌,
  take, drop, get_elem?, length,
}
use armv.Common.Bytes.{Bytes}
use armv.Common.Text.{Text, codes, split, join, starts_with, until_sub, rstrip}
use armv.Common.Int.{ℤ, pos, negsuc}
use armv.Gdb.Hex.{int_of}
use armv.Gdb.Packet.{checksum, format_gdb_message}
use armv.Gdb.Reader.{Buffer, bytearray, int_list, content, is_empty, cut}
use armv.Gdb.Request.{
  Watch, write, read, access, Request, stop, detach, get_registers, open_file, close_file,
  fstat_file, set_breakpoint, unset_breakpoint, set_watchpoint, unset_watchpoint,
  set_registers_from, get_register_from, set_register_from, step_from, continue_from,
  continue_signal_from, read_memory_from, write_memory_from, write_memory_binary_from,
  breakpoint_addr, pread_file_from,
}

-- What a handler does: the replies that it sends itself, the message that it returns, and whether
-- it sets `self.done`.
pub record Reaction : Type 0 where
  pub replies : List Bytes
  pub request : Option Request
  pub done : Bool

abbrev pub answers : Bytes → Result Reaction
answers text = ok (record { replies = format_gdb_message text ∷ []; request = none; done = false })

abbrev pub returns : Result Request → Result Reaction
returns r = r >>= λ q. ok (record { replies = []; request = some q; done = false })

abbrev pub word_eq : Text → Text → Bool
word_eq [] [] = true
word_eq (a ∷ v) (b ∷ w) = if a == b then word_eq v w else false
word_eq _ _ = false

-- feature in [b"swbreak", b"hwbreak", b"vContSupported"]
abbrev pub is_supported : Text → Bool
is_supported f =
    word_eq f (codes "swbreak")
    || (word_eq f (codes "hwbreak") || word_eq f (codes "vContSupported"))

abbrev pub reply_features : List Text → List Text
reply_features [] = []
reply_features (f ∷ fs) =
    let name = rstrip b'+' f in
    (name ++ (if is_supported name then b'+' ∷ [] else b'-' ∷ [])) ∷ reply_features fs

handle_query : Bytes → Result Reaction
unfolding starts_with until_sub rstrip split
handle_query payload =
    if starts_with (codes "qSupported:") payload
    then answers (
        codes "qSupported:"
        ++ (join b';'
              (reply_features (split b';' (until_sub (codes "qSupported:") (drop 11 payload))))
            ++ codes ";PacketSize=1000"))
    else if word_eq payload (codes "qC")
    then answers (codes "QC1")
    else if word_eq payload (codes "qfThreadInfo")
    then answers (codes "m1")
    else if word_eq payload (codes "qsThreadInfo")
    then answers (codes "l")
    else if word_eq payload (codes "qAttached")
    then answers (codes "1")
    else if word_eq payload (codes "qSymbol::")
    then answers (codes "OK")
    else answers []

handle_file : Bytes → Result Reaction
unfolding starts_with pread_file_from
handle_file text =
    if starts_with (codes "setfs") text
    then answers (codes "F0")
    else if starts_with (codes "open:") text
    then returns (ok open_file)
    else if starts_with (codes "close:") text
    then returns (int_of 10 (drop 6 text) >>= λ fd. ok (close_file fd))
    else if starts_with (codes "fstat:") text
    then returns (int_of 10 (drop 6 text) >>= λ fd. ok (fstat_file fd))
    else if starts_with (codes "pread:") text
    then returns (pread_file_from (drop 6 text))
    else answers []

handle_extended : Bytes → Result Reaction
unfolding handle_file starts_with
handle_extended payload =
    if starts_with (codes "vCont?") payload
    then answers []
    else if starts_with (codes "vFile:") payload
    then handle_file (drop 6 payload)
    else answers []

-- A class of bp_messages, or the reply for a missing key.
bp_message : Option ℕ → (ℤ → Request) → (Watch → ℤ → Request) → Bytes → Result Reaction
unfolding breakpoint_addr
bp_message none plain watch payload = raised index_error
bp_message (some k) plain watch payload =
    let with_addr =
      λ (make : ℤ → Request). returns (breakpoint_addr payload >>= λ a. ok (make a)) in
    if k == b'0' || k == b'1'
    then with_addr plain
    else if k == b'2'
    then with_addr (watch write)
    else if k == b'3'
    then with_addr (watch read)
    else if k == b'4'
    then with_addr (watch access)
    else answers []

handle_set_breakpoints : Bytes → Result Reaction
unfolding bp_message
handle_set_breakpoints payload =
    bp_message (get_elem? payload 1) set_breakpoint set_watchpoint payload

handle_unset_breakpoints : Bytes → Result Reaction
unfolding bp_message
handle_unset_breakpoints payload =
    bp_message (get_elem? payload 1) unset_breakpoint unset_watchpoint payload

detaches : Result Reaction
detaches = ok (record { replies = []; request = some detach; done = true })

handle_ignored : Result Reaction
handle_ignored = answers (codes "OK")

-- self.handlers[data[0]](data); a missing handler is no message.
unfoldable pub handlers : Bytes → Result Reaction
unfolding handle_query handle_extended handle_set_breakpoints handle_unset_breakpoints detaches
    handle_ignored set_registers_from get_register_from set_register_from step_from continue_from
    continue_signal_from read_memory_from write_memory_from write_memory_binary_from
handlers [] = raised index_error
handlers (c ∷ rest) =
    let payload = c ∷ rest in
    if c == b'q'
    then handle_query payload
    else if c == b'g'
    then returns (ok get_registers)
    else if c == b'G'
    then returns (set_registers_from payload)
    else if c == b'm'
    then returns (read_memory_from payload)
    else if c == b'M'
    then returns (write_memory_from payload)
    else if c == b'X'
    then returns (write_memory_binary_from payload)
    else if c == b'p'
    then returns (get_register_from payload)
    else if c == b'P'
    then returns (set_register_from payload)
    else if c == b'v'
    then handle_extended payload
    else if c == b's'
    then returns (step_from payload)
    else if c == b'D'
    then detaches
    else if c == b'c'
    then returns (continue_from payload)
    else if c == b'C'
    then returns (continue_signal_from payload)
    else if c == b'z'
    then handle_unset_breakpoints payload
    else if c == b'Z'
    then handle_set_breakpoints payload
    else if c == b'?'
    then returns (ok stop)
    else if c == b'H'
    then handle_ignored
    else ok (record { replies = []; request = none; done = false })

abbrev pub eq_ℤ : ℕ → ℤ → Bool
eq_ℤ n (pos m) = n == m
eq_ℤ n (negsuc m) = false

abbrev pub begins : ℕ → Bytes → Bool
begins c [] = false
begins c (b ∷ bs) = b == c

-- data[1:-3] and data[-2:]
abbrev pub payload_of : Bytes → Bytes
payload_of text = take (length text - 4) (drop 1 text)

abbrev pub checksum_of : Bytes → Bytes
checksum_of text = drop (length text - 2) text

abbrev pub is_control_c : Bytes → Bool
is_control_c (c ∷ []) = c == 3
is_control_c _ = false

-- A list of ints fails at `int(data[-2:], 16)`.
unfoldable pub message_factory : Buffer → Result Reaction
unfolding handlers
message_factory (int_list ns) = raised type_error
message_factory (bytearray text) =
    if is_control_c text
    then returns (ok stop)
    else (int_of 16 (checksum_of text) >>= λ sum.
        if begins b'$' text && eq_ℤ (checksum (payload_of text)) sum
        then handlers (payload_of text)
        else ok (record { replies = (b'-' ∷ []) ∷ []; request = none; done = false }))
