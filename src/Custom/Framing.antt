-- ===== src/Custom/Framing.antt =====
-- comms/custom.py, class BaseHandler: length-prefixed frames out of a byte stream.
-- `message_factory` is an argument here; `None` is `none`, and an exception ends the handler.
pub mod Outcomes
pub mod Chunks
pub mod Streams
use armv.Common.{
  ℕ, zero, suc, ◌+◌, Bool, List, [], ◌∷◌, ◌++◌, Option, none, some, Result, ok, raised, Exn, ltb,
  leb, if◌then◌else◌, length, take, drop,
}
use armv.Common.Bytes.{Bytes, unpack_u32}

pub record Handler : Type 0 where
  pub buffer : Bytes
  pub needed : Option ℕ

-- The messages given to `comms.handle`, in order, and how the call ended. `out_of_fuel` is no
-- Python outcome.
pub data Outcome (M : Type 0) : Type 0 where
  finished : Handler → List M → Outcome M
  failed : Exn → List M → Outcome M
  out_of_fuel : Outcome M

abbrev pub start : Handler
start = record { buffer = []; needed = none }

-- struct.unpack(">I", ...) of the four bytes that set_needed has tested for.
unfoldable pub header : Result ℕ → Option ℕ
header (ok n) = some n
header (raised e) = none

unfoldable pub set_needed : Bytes → Handler
unfolding header unpack_u32
set_needed bytes =
    if ltb 4 (length bytes)
    then record { buffer = drop 4 bytes; needed = header (unpack_u32 (take 4 bytes)) }
    else record { buffer = bytes; needed = none }

-- b"".join(chunks)
abbrev pub joined : List Bytes → Bytes
joined [] = []
joined (c ∷ cs) = c ++ joined cs

-- `if self.needed == None: self.set_needed()`
unfoldable pub with_needed : Bytes → Option ℕ → Handler
unfolding set_needed
with_needed bytes none = set_needed bytes
with_needed bytes (some n) = record { buffer = bytes; needed = some n }

module _ {M : Type 0} where
  -- `if message: handle(message)`, in front of what the later rounds deliver.
  abbrev pub deliver : Option M → List M → List M
  deliver none ms = ms
  deliver (some m) ms = m ∷ ms

  abbrev pub before : Option M → Outcome M → Outcome M
  before m (finished h ms) = finished h (deliver m ms)
  before m (failed e ms) = failed e (deliver m ms)
  before m out_of_fuel = out_of_fuel

  abbrev pub on_message : Result (Option M) → Outcome M → Outcome M
  on_message (raised e) rest = failed e []
  on_message (ok m) rest = before m rest

  -- A further call on the handler that the first one left.
  abbrev pub then_with : List M → Outcome M → Outcome M
  then_with [] o = o
  then_with (m ∷ ms) o = before (some m) (then_with ms o)

  abbrev pub and_then : Outcome M → (Handler → Outcome M) → Outcome M
  and_then (finished h ms) k = then_with ms (k h)
  and_then (failed e ms) k = failed e ms
  and_then out_of_fuel k = out_of_fuel

  module _ (message_factory : Bytes → Result (Option M)) where
    -- The `while` loop of process_data, on `self.data` and `self.needed`.
    unfoldable pub drain : ℕ → Bytes → Option ℕ → Outcome M
    unfolding set_needed
    drain fuel bytes none = finished (record { buffer = bytes; needed = none }) []
    drain zero bytes (some n) =
        if leb n (length bytes)
        then out_of_fuel
        else finished (record { buffer = bytes; needed = some n }) []
    drain (suc fuel) bytes (some n) =
        let next = set_needed (drop n bytes) in
        let rest = drain fuel next.buffer next.needed in
        if leb n (length bytes)
        then on_message (message_factory (take n bytes)) rest
        else finished (record { buffer = bytes; needed = some n }) []

    -- Each round takes the four bytes of a header, so the length bounds the rounds.
    unfoldable pub drain_all : Handler → Outcome M
    unfolding drain
    drain_all h = drain (suc (length h.buffer)) h.buffer h.needed

    unfoldable pub process_data : Handler → Bytes → Outcome M
    unfolding drain_all with_needed
    process_data h chunk = drain_all (with_needed (h.buffer ++ chunk) h.needed)

    -- The calls of process_data for the chunks that `recv` returned, up to one that raises.
    unfoldable pub feed : Handler → List Bytes → Outcome M
    unfolding process_data
    feed h [] = finished h []
    feed h (c ∷ cs) = and_then (process_data h c) (λ h'. feed h' cs)
