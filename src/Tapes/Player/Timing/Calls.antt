-- ===== src/Tapes/Player/Timing/Calls.antt =====
-- tapes.py, class ProgramTape: a tape from its rewinding on, through any calls of its methods.
use armv.Common.{ℕ, ◌<◌, ◌≤◌, ◌≡◌, Bool, some, Exn, ok, raised, index_error, length}
use armv.Tapes.Player.{Cursor, rewind, get_byte}
use armv.Tapes.Player.Timing.{Numbers, Recording, byte_ready, update, fast_forward}
use armv.Tapes.Player.Timing.Steady.{IsRecorded, IsAt, rewind-IsAt, byte_ready-Answers}
use armv.Tapes.Player.Timing.Moves.{get_byte-IsAt, get_byte-some, update-IsFine, fast_forward-IsAt}

module _ {Time : Type 0} (num : Numbers Time) (r : Recording Time) where
  -- One call of a method, whatever it returns or raises.
  pub data Call : Cursor Time → Cursor Time → Type 0 where
    rewound : (c : Cursor Time) → Call c (rewind r.tape c)
    wound : (c : Cursor Time) → Call c (fast_forward num r c).1
    got : (c : Cursor Time) → Call c (get_byte r.tape c).1
    asked : (c : Cursor Time) → Call c (byte_ready num r c).1
    updated :
        (c : Cursor Time) (elapsed : Time) (paused : Bool) (num_required : ℕ)
        → Call c (update num r elapsed paused num_required c).1

  pub data Calls (c : Cursor Time) : Cursor Time → Type 0 where
    none_yet : Calls c c
    then_call : (d e : Cursor Time) → Calls c d → Call d e → Calls c e

  -- What each method does from a cursor.
  pub record IsSteady (c : Cursor Time) : Type 0 where
    pub answers : (b : Bool) × ((byte_ready num r c).0 ≡ ok b)
    pub has_byte :
        c.current_block < length r.tape.blocks → (b : ℕ) × ((get_byte r.tape c).0 ≡ some b)
    pub ends :
        (elapsed : Time) (paused : Bool) (num_required : ℕ) (e : Exn)
        → (update num r elapsed paused num_required c).0 ≡ raised e
        → (e ≡ index_error)
          × (length r.tape.blocks ≤ (update num r elapsed paused num_required c).1.current_block)

  module _ (h : IsRecorded r) (some_block : 0 < length r.tape.blocks) where
    Call-IsAt : {c d : Cursor Time} → Call c d → IsAt num r h c → IsAt num r h d
    Call-IsAt (Call.rewound c) at = rewind-IsAt num r h c
    Call-IsAt (Call.wound c) at = (fast_forward-IsAt num r h c some_block).1
    Call-IsAt (Call.got c) at = get_byte-IsAt num r h c at
    Call-IsAt (Call.asked c) at = (byte_ready-Answers num r h c at).1
    Call-IsAt (Call.updated c elapsed paused n) at = (update-IsFine num r h elapsed paused n c at).0

    Calls-IsAt : {c d : Cursor Time} → Calls c d → IsAt num r h c → IsAt num r h d
    Calls-IsAt Calls.none_yet at = at
    Calls-IsAt (Calls.then_call d e before last) at = Call-IsAt last (Calls-IsAt before at)

    -- After any calls of its methods from a rewinding on, a tape that has a block and is recorded as
    -- build_samples does it answers byte_ready without an exception, has a byte for get_byte unless
    -- the cursor is behind the last block, and update raises nothing but an IndexError, and that
    -- only when it leaves the cursor behind the last block.
    pub Calls-IsSteady : (c d : Cursor Time) → Calls (rewind r.tape c) d → IsSteady d
    Calls-IsSteady c d calls =
        let at : IsAt num r h d = Calls-IsAt calls (rewind-IsAt num r h c) in
        record {
          answers = (byte_ready-Answers num r h d at).0;
          has_byte = get_byte-some num r h d at;
          ends = λ elapsed paused n. (update-IsFine num r h elapsed paused n d at).1;
        }
