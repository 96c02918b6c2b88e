-- ===== src/Comms/Handler/Escaping.antt =====
-- comms/custom.py, BaseHandler.handle with its own message_factory: every way in which it can end.
use armv.Common.{
  ℕ, zero, suc, ◌+◌, ◌≤◌, ◌<◌, ◌≡◌, ◌⊎◌, inl, inr, refl, ◌∙◌, true, false, Bool-cases, List, [],
  ◌∷◌, ◌++◌, Option, none, some, Result, ok, raised, arith, leb, length, length-drop, take, drop,
}
use armv.Common.Bytes.{Bytes}
use armv.Custom.Message.{Message}
use armv.Custom.Factory.{message_factory}
use armv.Custom.Factory.Errors.{Escapes, message_factory-Escapes}
use armv.Custom.Framing.{
  Handler, Outcome, finished, failed, out_of_fuel, set_needed, before, on_message, drain, drain_all,
  with_needed, process_data, start,
}
use armv.Custom.Framing.Outcomes.{set_needed_shrinks}
use armv.Comms.Transport.{Comms, set_connected, disconnect}
use armv.Comms.Handler.{
  Read, silent, received, broken, Ending, returned, left_by, handle_all, after_read, read_loop,
  handle_connection,
}
use armv.Comms.Handler.Endings.{handle_all-IsHandled}

module _ {M : Type 0} (factory : Bytes → Result (Option M)) where
  -- A call of process_data ends, and an exception is one of the factory's.
  abbrev IsEnd : Outcome M → Type 0
  IsEnd (finished h ms) = Unit {0}
  IsEnd (failed e ms) = (bytes : Bytes) × (factory bytes ≡ raised e)
  IsEnd out_of_fuel = ⊥

  before-IsEnd : (m : Option M) (o : Outcome M) → IsEnd o → IsEnd (before m o)
  before-IsEnd m (finished h ms) k = tt
  before-IsEnd m (failed e ms) k = k
  before-IsEnd m out_of_fuel k = k

  on_message-IsEnd :
      (bytes : Bytes) (r : Result (Option M)) (o : Outcome M)
      → factory bytes ≡ r
      → IsEnd o
      → IsEnd (on_message r o)
  on_message-IsEnd bytes (raised e) o p k = (bytes, p)
  on_message-IsEnd bytes (ok m) o p k = before-IsEnd m o k

  abbrev IsFuelled : ℕ → Handler → Type 0
  IsFuelled fuel h = (h.needed ≡ none) ⊎ (length h.buffer < fuel)

  drain-IsEnd :
      (fuel : ℕ) (bytes : Bytes) (needed : Option ℕ)
      → (needed ≡ none) ⊎ (length bytes < fuel)
      → IsEnd (drain factory fuel bytes needed)
  unfolding drain
  drain-IsEnd zero bytes none h = tt
  drain-IsEnd (suc fuel) bytes none h = tt
  drain-IsEnd zero bytes (some n) (inl e) = cc e
  drain-IsEnd zero bytes (some n) (inr lt) = absurd (omega arith)
  drain-IsEnd (suc fuel) bytes (some n) (inl e) = cc e
  drain-IsEnd (suc fuel) bytes (some n) (inr lt) =
      let next = set_needed (drop n bytes) in
      let rest =
        drain-IsEnd fuel next.buffer next.needed (shorter (set_needed_shrinks (drop n bytes))) in
      elim (Bool-cases (leb n (length bytes))) [
        | inl e ↦ rw e (on_message-IsEnd (take n bytes) (factory (take n bytes)) _ refl rest)
        | inr e ↦ rw e tt
      ]
    where
      shorter :
          ((set_needed (drop n bytes)).needed ≡ none)
            ⊎ (length (set_needed (drop n bytes)).buffer + 4 ≤ length (drop n bytes))
          → ((set_needed (drop n bytes)).needed ≡ none)
            ⊎ (length (set_needed (drop n bytes)).buffer < fuel)
      shorter (inl e) = inl e
      shorter (inr le) = inr (omega (arith, length-drop n bytes))

  process_data-IsEnd : (h : Handler) (bytes : Bytes) → IsEnd (process_data factory h bytes)
  unfolding process_data drain_all
  process_data-IsEnd h bytes =
      let w = with_needed (h.buffer ++ bytes) h.needed in
      drain-IsEnd (suc (length w.buffer)) w.buffer w.needed (inr (omega arith))

  -- The connection is closed, or the program is done; or an exception of the factory leaves a
  -- connection that still counts as connected.
  abbrev pub IsEnding : Ending × Comms M → Type 0
  IsEnding (returned, d) = (d.done ≡ true) ⊎ ((d.connected ≡ false) × (d.has_socket ≡ false))
  IsEnding (left_by e, d) =
      ((bytes : Bytes) × (factory bytes ≡ raised e)) × (d.connected ≡ true) × (d.has_socket ≡ true)

  after_read-IsEnding :
      (later : Handler → Comms M → Ending × Comms M) (o : Outcome M) (c : Comms M)
      → IsEnd o
      → c.connected ≡ true
      → c.has_socket ≡ true
      → ((h : Handler) (d : Comms M)
          → d.connected ≡ true
          → d.has_socket ≡ true
          → IsEnding (later h d))
      → IsEnding (after_read factory later o c)
  after_read-IsEnding later (finished h ms) c k connected socket ih =
      let (events, same, still, done) = handle_all-IsHandled factory ms c in
      ih h (handle_all factory ms c) (same ∙ connected) (still ∙ socket)
  after_read-IsEnding later (failed e ms) c k connected socket ih =
      let (events, same, still, done) = handle_all-IsHandled factory ms c in
      (k, same ∙ connected, still ∙ socket)
  after_read-IsEnding later out_of_fuel c k connected socket ih = absurd k

  read_loop-IsEnding :
      (reads : List Read) (h : Handler) (c : Comms M)
      → c.connected ≡ true
      → c.has_socket ≡ true
      → IsEnding (read_loop factory reads h c)
  unfolding read_loop disconnect
  read_loop-IsEnding [] h c connected socket = inl refl
  read_loop-IsEnding (silent ∷ reads) h c connected socket =
      read_loop-IsEnding reads h c connected socket
  read_loop-IsEnding (received bytes ∷ reads) h c connected socket =
      after_read-IsEnding (read_loop factory reads) (process_data factory h bytes) c
        (process_data-IsEnd h bytes) connected socket
        (λ h' d connected' socket'. read_loop-IsEnding reads h' d connected' socket')
  read_loop-IsEnding (broken ∷ reads) h c connected socket = rw socket (inr (refl, refl))

-- What handle of comms/custom.py leaves behind.
abbrev pub Ends : Ending × Comms Message → Type 0
Ends (returned, d) = (d.done ≡ true) ⊎ ((d.connected ≡ false) × (d.has_socket ≡ false))
Ends (left_by e, d) = Escapes e × (d.connected ≡ true) × (d.has_socket ≡ true)

IsEnding-Ends : (r : Ending × Comms Message) → IsEnding message_factory r → Ends r
IsEnding-Ends (returned, d) h = h
IsEnding-Ends (left_by e, d) ((bytes, p), connected, socket) =
    (message_factory-Escapes bytes e p, connected, socket)

-- Whatever is read, handle ends: by the program's end; by closing a connection that breaks off; or
-- by one of struct.error, IndexError, ValueError and UnicodeDecodeError, which leaves the connection
-- open and marked as connected.
pub handle_connection-Ends :
    (reads : List Read) (c : Comms Message) → Ends (handle_connection message_factory reads c)
unfolding handle_connection
handle_connection-Ends reads c =
    IsEnding-Ends (handle_connection message_factory reads c)
      (read_loop-IsEnding message_factory reads start (set_connected c) refl refl)
