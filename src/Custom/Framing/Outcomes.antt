-- ===== src/Custom/Framing/Outcomes.antt =====
-- comms/custom.py, class BaseHandler: outcomes one after another, and headers in longer buffers.
use armv.Common.{
  ℕ, ◌+◌, ◌≤◌, ◌<◌, ◌≡◌, refl, ap, ◌∙◌, List, [], ◌∷◌, ◌++◌, Option, none, some, Result, ok, raised,
  arith, length, length-drop, ◌⊎◌, inl, inr, lt→ltb, le→ltb,
}
use armv.Common.Bytes.{Bytes, from_be32}
use armv.Custom.Framing.{
  Handler, Outcome, finished, failed, out_of_fuel, set_needed, deliver, before, on_message,
  then_with, and_then,
}
use native.Mathlib.Decide.{dec_lt}

-- The header of at least five bytes is read, and does not depend on what follows.
pub set_needed-append :
    (bs more : Bytes)
    → 4 < length bs
    → set_needed (bs ++ more)
      ≡ record { buffer = (set_needed bs).buffer ++ more; needed = (set_needed bs).needed }
unfolding set_needed
set_needed-append (a ∷ b ∷ c ∷ d ∷ e ∷ bs) more h =
    rw
      (
        lt→ltb 4 (length (a ∷ b ∷ c ∷ d ∷ e ∷ bs)) (omega arith),
        lt→ltb 4 (length (a ∷ b ∷ c ∷ d ∷ e ∷ bs ++ more)) (omega arith),
      )
      refl
set_needed-append [] more h = absurd (omega arith)
set_needed-append (a ∷ []) more h = absurd (omega arith)
set_needed-append (a ∷ b ∷ []) more h = absurd (omega arith)
set_needed-append (a ∷ b ∷ c ∷ []) more h = absurd (omega arith)
set_needed-append (a ∷ b ∷ c ∷ d ∷ []) more h = absurd (omega arith)

pub set_needed_short :
    (bs : Bytes) → length bs ≤ 4 → set_needed bs ≡ record { buffer = bs; needed = none }
unfolding set_needed
set_needed_short bs h = rw (le→ltb 4 (length bs) h)

pub set_needed_long : (bs : Bytes) → 4 < length bs → (n : ℕ) × ((set_needed bs).needed ≡ some n)
unfolding set_needed
set_needed_long (a ∷ b ∷ c ∷ d ∷ e ∷ bs) h =
    (from_be32 a b c d, rw (lt→ltb 4 (length (a ∷ b ∷ c ∷ d ∷ e ∷ bs)) (omega arith)) refl)
set_needed_long [] h = absurd (omega arith)
set_needed_long (a ∷ []) h = absurd (omega arith)
set_needed_long (a ∷ b ∷ []) h = absurd (omega arith)
set_needed_long (a ∷ b ∷ c ∷ []) h = absurd (omega arith)
set_needed_long (a ∷ b ∷ c ∷ d ∷ []) h = absurd (omega arith)

-- What a header leaves is shorter, or nothing is needed.
pub set_needed_shrinks :
    (bs : Bytes) → ((set_needed bs).needed ≡ none) ⊎ (length (set_needed bs).buffer + 4 ≤ length bs)
set_needed_shrinks bs = elim (dec_lt 4 (length bs)) [
  | yes p ↦ inr (unfold set_needed in rw (lt→ltb 4 (length bs) p) (omega (arith, length-drop 4 bs)))
  | no p ↦ inl (ap (λ (h : Handler). h.needed) (set_needed_short bs (omega arith)))
]

module _ {M : Type 0} where
  then_with-deliver :
      (m : Option M) (ms : List M) (o : Outcome M)
      → then_with (deliver m ms) o ≡ before m (then_with ms o)
  then_with-deliver none ms o = before_none (then_with ms o)
    where
      before_none : (o : Outcome M) → o ≡ before none o
      before_none (finished h ms) = refl
      before_none (failed e ms) = refl
      before_none out_of_fuel = refl
  then_with-deliver (some m) ms o = refl

  and_then-before :
      (m : Option M) (o : Outcome M) (k : Handler → Outcome M)
      → and_then (before m o) k ≡ before m (and_then o k)
  and_then-before m (finished h ms) k = then_with-deliver m ms (k h)
  and_then-before m (failed e ms) k = refl
  and_then-before m out_of_fuel k = refl

  pub and_then-on_message :
      (r : Result (Option M)) (o : Outcome M) (k : Handler → Outcome M)
      → and_then (on_message r o) k ≡ on_message r (and_then o k)
  and_then-on_message (ok m) o k = and_then-before m o k
  and_then-on_message (raised e) o k = refl

  pub and_then-finished : (o : Outcome M) → and_then o (λ h. finished h []) ≡ o
  and_then-finished (finished h ms) = go ms
    where
      go : (ms : List M) → then_with ms (finished h []) ≡ finished h ms
      go [] = refl
      go (m ∷ ms) = ap (before (some m)) (go ms)
  and_then-finished (failed e ms) = refl
  and_then-finished out_of_fuel = refl

  and_then_assoc :
      (o : Outcome M) (k j : Handler → Outcome M)
      → and_then (and_then o k) j ≡ and_then o (λ h. and_then (k h) j)
  and_then_assoc (finished h ms) k j = go ms
    where
      go : (ms : List M) → and_then (then_with ms (k h)) j ≡ then_with ms (and_then (k h) j)
      go [] = refl
      go (m ∷ ms) = and_then-before (some m) (then_with ms (k h)) j ∙ ap (before (some m)) (go ms)
  and_then_assoc (failed e ms) k j = refl
  and_then_assoc out_of_fuel k j = refl
