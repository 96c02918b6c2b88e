-- ===== src/Machine/Thread/Race.antt =====
-- hardware.py, class Machine: a request in front of the thread's first test.
use armv.Common.{ℕ, ◌<◌, ◌≡◌, refl, sym, ap, ◌∙◌, arith, true, false, none}
use mathlib.Core.Path.{subst}
use armv.Machine.Thread.{
  Core, Machine, is_waiting_status, waits, wait_result, step, Position, lock_free, Turn, Reach,
}

-- Another thread has no turn while the test holds the lock.
held : (p : Position) → lock_free p ≡ true → p ≡ Position.testing → ⊥
held p f e = cc (sym f ∙ ap lock_free e)

module _ {C : Type 0} (core : Core C) where
  -- Steps are left to run at the test, and the processor does not wait for an interrupt.
  pub record IsStuck (m : Machine C) : Type 0 where
    runs : m.running ≡ true
    left : 0 < m.steps_to_run
    busy : is_waiting_status m.status ≡ false

  stuck-waits : (m : Machine C) → IsStuck m → waits core m ≡ false
  unfolding waits
  stuck-waits m h = ground (arith, h.runs, h.left, h.busy)

  stuck_turn :
      {m n : Machine C} {p q : Position}
      → Turn core m p n q
      → IsStuck m
      → p ≡ Position.testing
      → (n ≡ m) × (q ≡ Position.testing)
  stuck_turn (Turn.acquire m) h e = cc
  stuck_turn (Turn.rest m w) h e = cc (stuck-waits m h)
  stuck_turn (Turn.again m w r) h e = (refl, refl)
  stuck_turn (Turn.leave m r) h e = cc h.runs
  stuck_turn (Turn.wake m) h e = cc
  stuck_turn (Turn.asked m p num f) h e = absurd (held p f e)
  stuck_turn (Turn.interrupted m after p hw_id code f i) h e = absurd (held p f e)
  stuck_turn (Turn.deleted m p f) h e = absurd (held p f e)

  stuck_reach :
      {m : Machine C} {p : Position} {n : Machine C} {q : Position}
      → Reach core m p n q
      → IsStuck m
      → p ≡ Position.testing
      → (n ≡ m) × (q ≡ Position.testing)
  stuck_reach Reach.here h e = (refl, e)
  stuck_reach (Reach.next n q o r before t) h e =
      let (same, at) = stuck_reach before h e in
      let (still, there) = stuck_turn t (subst IsStuck (sym same) h) at in (still ∙ same, there)

  stuck-wait_result : (m : Machine C) → IsStuck m → wait_result m ≡ none
  unfolding wait_result
  stuck-wait_result m h = ground (arith, h.runs, h.left, h.busy)

  -- If another thread asks for steps before the stepping thread first has its lock, and the processor
  -- does not wait for an interrupt, the thread then tests its loop for ever: whatever happens the
  -- machine stays as it is, the lock is never freed, and step_and_wait gets no result.
  pub early_step-Stuck :
      (m : Machine C) (num : ℕ)
      → m.running ≡ true
      → 0 < num
      → is_waiting_status m.status ≡ false
      → Reach core m Position.starting (step num m) Position.testing
        × ((n : Machine C) (q : Position)
            → Reach core (step num m) Position.testing n q
            → (n ≡ step num m) × (q ≡ Position.testing) × (wait_result n ≡ none))
  early_step-Stuck m num r l b = (
    Reach.next (step num m) Position.starting (step num m) Position.testing
        (Reach.next m Position.starting (step num m) Position.starting Reach.here
          (Turn.asked m Position.starting num refl))
        (Turn.acquire (step num m)),
    λ n q t.
        let stuck : IsStuck (step num m) = record { runs = r; left = l; busy = b } in
        let (same, at) = stuck_reach t stuck refl in
        (same, at, ap wait_result same ∙ stuck-wait_result (step num m) stuck),
  )
