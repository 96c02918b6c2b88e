-- ===== src/Gdb/Session/Laws.antt =====
-- comms/gdb.py: process_data on a packet with the right checksum, with a wrong one, and on two
-- packets in one read.
use armv.Common.{
  ℕ, ◌+◌, ◌-◌, ◌/◌, ◌%◌, ◌<◌, ◌≡◌, ◌≢◌, refl, sym, ap, ◌∙◌, Bool, true, false, List, [], ◌∷◌, ◌++◌,
  append-nil, append_assoc, none, some, Result, ok, raised, type_error, ◌>>=◌, arith, All, ==_self,
  ne→==, if◌then◌else◌, drop, length, length-append, take-append_eq, drop-append_eq, lt→ltb,
}
use armv.Common.Bytes.{Bytes}
use armv.Common.Int.{ℤ, pos, negsuc}
use armv.Gdb.Hex.{int_of, hex_fixed, hex_pad, hex_digit}
use armv.Gdb.Hex.Laws.{int_of-hex_fixed}
use armv.Gdb.Packet.{checksum_loop, checksum, format_gdb_message}
use armv.Gdb.Packet.Escapes.{IsPayload}
use armv.Gdb.Reader.{bytearray, is_empty}
use armv.Gdb.Reader.Scan.{IsAck, packet, cut-packet, cut_two-packet}
use armv.Gdb.Session.{
  Reaction, handlers, eq_ℤ, payload_of, checksum_of, is_control_c, message_factory,
}
use armv.Gdb.Session.Loop.{
  Outcome, Event, sent, reacts, then_rest, or_later, acknowledged, dispatch, process_data,
}

checksum_loop-lt : (acc : ℕ) (bs : Bytes) → acc < 256 → checksum_loop acc bs < 256
unfolding checksum_loop
checksum_loop-lt acc [] h = h
checksum_loop-lt acc (b ∷ bs) h = checksum_loop-lt ((acc + b) % 256) bs (omega arith)

pub checksum-lt : (bs : Bytes) → checksum bs < 256
unfolding checksum
checksum-lt bs = checksum_loop-lt 0 bs (omega arith)

-- A formatted message is a packet whose checksum is the two digits.
format-packet :
    (p : Bytes)
    → format_gdb_message p
      ≡ packet p (hex_digit (checksum p / 16 % 16)) (hex_digit (checksum p % 16)) []
unfolding format_gdb_message hex_pad hex_fixed
format-packet p = rw (lt→ltb (checksum p) 256 (checksum-lt p))

payload_of-packet : (p : Bytes) (c d : ℕ) → payload_of (packet p c d []) ≡ p
payload_of-packet p c d =
    take-append_eq (length (packet p c d []) - 4) p (b'#' ∷ c ∷ d ∷ [])
      (omega (arith, length-append p (b'#' ∷ c ∷ d ∷ [])))

checksum_of-packet : (p : Bytes) (c d : ℕ) → checksum_of (packet p c d []) ≡ c ∷ d ∷ []
checksum_of-packet p c d =
    ap (drop (length (packet p c d []) - 2))
      (sym (append_assoc (b'$' ∷ p) (b'#' ∷ []) (c ∷ d ∷ [])))
    ∙ drop-append_eq (length (packet p c d []) - 2) ((b'$' ∷ p) ++ (b'#' ∷ [])) (c ∷ d ∷ [])
        (omega (arith, length-append (b'$' ∷ p) (b'#' ∷ []), length-append p (b'#' ∷ c ∷ d ∷ [])))

not_control_c : (p : Bytes) (c d : ℕ) → is_control_c (packet p c d []) ≡ false
not_control_c [] c d = refl
not_control_c (b ∷ p) c d = refl

message_factory-packet :
    (p : Bytes) (c d : ℕ)
    → message_factory (bytearray (packet p c d [])) ≡ (
        int_of 16 (c ∷ d ∷ []) >>= λ sum.
        if eq_ℤ (checksum p) sum
        then handlers p
        else ok (record { replies = (b'-' ∷ []) ∷ []; request = none; done = false }))
unfolding message_factory
message_factory-packet p c d =
    rw (not_control_c p c d, payload_of-packet p c d, checksum_of-packet p c d)

is_packet_empty : (p : Bytes) (c d : ℕ) → is_empty (bytearray (packet p c d [])) ≡ false
is_packet_empty p c d = ground arith

alone : (r : Result Reaction) → then_rest (reacts r).error (reacts r) (dispatch []) ≡ reacts r
unfolding dispatch
alone (ok r) = outcome_path (append-nil _) (or_later_false r.done)
  where
    or_later_false : (b : Bool) → or_later b false ≡ b
    or_later_false true = refl
    or_later_false false = refl

    outcome_path :
        {es fs : List Event} {d e : Bool}
        → es ≡ fs
        → d ≡ e
        → ◌≡◌ {A = Outcome}
            (record { events = es; done = d; error = none })
            (record { events = fs; done = e; error = none })
    outcome_path p q = cc
alone (raised e) = refl

dispatch-packet :
    (p : Bytes) (c d : ℕ)
    → dispatch (bytearray (packet p c d []) ∷ [])
      ≡ acknowledged (reacts (message_factory (bytearray (packet p c d []))))
unfolding dispatch
dispatch-packet p c d =
    rw (is_packet_empty p c d)
      (ap acknowledged (alone (message_factory (bytearray (packet p c d [])))))

process_data-packet :
    (acks p : Bytes) (c d : ℕ)
    → All IsAck acks
    → IsPayload p
    → process_data [] (acks ++ packet p c d [])
      ≡ acknowledged (reacts (message_factory (bytearray (packet p c d []))))
unfolding process_data
process_data-packet acks p c d ha hp = rw (cut-packet acks p c d ha hp) (dispatch-packet p c d)

-- A read that holds acknowledgements and then one formatted message, whose payload has no raw `#`
-- or `$` and does not end in the escape byte, is acknowledged once, and then the payload itself goes
-- to its handler: the events, `self.done` and the exception of the call are the handler's.
pub process_data-format_gdb_message :
    (acks p : Bytes)
    → All IsAck acks
    → IsPayload p
    → process_data [] (acks ++ format_gdb_message p) ≡ acknowledged (reacts (handlers p))
process_data-format_gdb_message acks p ha hp =
    let c = hex_digit (checksum p / 16 % 16) in
    let d = hex_digit (checksum p % 16) in
    rw (
      format-packet p,
      process_data-packet acks p c d ha hp,
      message_factory-packet p c d,
      digits_read,
      ==_self (checksum p),
    )
  where
    digits_read :
        int_of 16 (hex_digit (checksum p / 16 % 16) ∷ hex_digit (checksum p % 16) ∷ [])
        ≡ ok (pos (checksum p))
    digits_read = unfold hex_fixed in int_of-hex_fixed 1 (checksum p) (checksum-lt p)

-- A packet whose two checksum digits are a number other than the checksum of its payload reaches no
-- handler; it is answered by an acknowledgement and then by a refusal.
pub process_data_bad_checksum :
    (acks p : Bytes) (c d : ℕ) (sum : ℤ)
    → All IsAck acks
    → IsPayload p
    → int_of 16 (c ∷ d ∷ []) ≡ ok sum
    → sum ≢ pos (checksum p)
    → process_data [] (acks ++ packet p c d [])
      ≡ record { events = sent (b'+' ∷ []) ∷ sent (b'-' ∷ []) ∷ []; done = false; error = none }
process_data_bad_checksum acks p c d sum ha hp e ne =
    rw (process_data-packet acks p c d ha hp, message_factory-packet p c d, e, differs sum ne)
  where
    differs : (sum : ℤ) → sum ≢ pos (checksum p) → eq_ℤ (checksum p) sum ≡ false
    differs (pos n) h = ne→== (checksum p) n (λ q. h (ap pos (sym q)))
    differs (negsuc n) h = refl

-- A read that holds a second packet behind the first, with or without acknowledgements between
-- them, raises TypeError before anything is answered or handled, whatever follows.
pub process_data_two-packet :
    (acks p between q : Bytes) (c d e f : ℕ) (tail : Bytes)
    → All IsAck acks
    → IsPayload p
    → All IsAck between
    → IsPayload q
    → process_data [] (acks ++ packet p c d (between ++ packet q e f tail))
      ≡ record { events = []; done = false; error = some type_error }
unfolding process_data
process_data_two-packet acks p between q c d e f tail ha hp hb hq =
    rw (cut_two-packet acks p between q c d e f tail ha hp hb hq)
