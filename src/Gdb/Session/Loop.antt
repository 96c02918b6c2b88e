-- ===== src/Gdb/Session/Loop.antt =====
-- comms/gdb.py, class BaseHandler: process_data.
use armv.Common.{
  Bool, true, false, List, [], ◌∷◌, ◌++◌, Option, none, some, Result, ok, raised, Exn,
  if◌then◌else◌,
}
use armv.Common.Bytes.{Bytes}
use armv.Gdb.Reader.{Buffer, is_empty, cut}
use armv.Gdb.Request.{Request}
use armv.Gdb.Session.{Reaction, message_factory}

-- What is sent to gdb and what is handed to `comms.handle`, in order.
pub data Event : Type 0 where
  sent : Bytes → Event
  handled : Request → Event

-- How a call of process_data goes: its events, `self.done`, and the exception that ended it.
pub record Outcome : Type 0 where
  pub events : List Event
  pub done : Bool
  pub error : Option Exn

abbrev pub sends : List Bytes → List Event
sends [] = []
sends (r ∷ rs) = sent r ∷ sends rs

abbrev pub handles : Option Request → List Event
handles none = []
handles (some q) = handled q ∷ []

abbrev pub reacts : Result Reaction → Outcome
reacts (ok r) = record {
  events = sends r.replies ++ handles r.request;
  done = r.done;
  error = none;
}
reacts (raised e) = record { events = []; done = false; error = some e }

abbrev pub or_later : Bool → Bool → Bool
or_later true b = true
or_later false b = b

-- The loop goes on after a message unless it raised.
abbrev pub then_rest : Option Exn → Outcome → Outcome → Outcome
then_rest (some e) o rest = o
then_rest none o rest = record {
  events = o.events ++ rest.events;
  done = or_later o.done rest.done;
  error = rest.error;
}

abbrev pub acknowledged : Outcome → Outcome
acknowledged o = record o { events = sent (b'+' ∷ []) ∷ o.events }

-- for message in messages: the acknowledgement, then the message if it is not empty.
unfoldable pub dispatch : List Buffer → Outcome
unfolding message_factory
dispatch [] = record { events = []; done = false; error = none }
dispatch (m ∷ ms) =
    let rest = dispatch ms in
    let o =
      if is_empty m
      then record { events = []; done = false; error = none }
      else reacts (message_factory m) in
    acknowledged (then_rest o.error o rest)

abbrev pub cut_outcome : Result (List Buffer) → Outcome
cut_outcome (ok ms) = dispatch ms
cut_outcome (raised e) = record { events = []; done = false; error = some e }

-- process_data with `held` as self.data. The loop runs to the end of the data, so that nothing of it
-- is held for the next call: `self.data[pos:]` is empty.
unfoldable pub process_data : Bytes → Bytes → Outcome
unfolding cut dispatch
process_data held bytes = cut_outcome (cut (held ++ bytes))
