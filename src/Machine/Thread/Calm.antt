-- ===== src/Machine/Thread/Calm.antt =====
-- hardware.py, class Machine: the stepping thread always comes back to its wait.
use armv.Common.{◌≡◌, arith, true}
use armv.Machine.Thread.{
  Core, Machine, waits, run_steps, step, delete, Position, lock_free, Turn, Reach,
}

module _ {C : Type 0} (core : Core C) where
  -- The thread has waited once, and tests its loop with no steps left to run.
  abbrev pub IsCalm : Machine C → Position → Type 0
  IsCalm m Position.starting = ⊥
  IsCalm m Position.testing = m.steps_to_run ≡ 0
  IsCalm m Position.waiting = Unit
  IsCalm m Position.ended = Unit

  run_steps-none_left : (m : Machine C) → (run_steps core m).steps_to_run ≡ 0
  unfolding run_steps
  run_steps-none_left m = ground arith

  free-IsCalm : (m n : Machine C) (p : Position) → lock_free p ≡ true → IsCalm m p → IsCalm n p
  free-IsCalm m n Position.starting f h = h
  free-IsCalm m n Position.testing f h = cc
  free-IsCalm m n Position.waiting f h = tt
  free-IsCalm m n Position.ended f h = tt

  Turn-IsCalm : {m n : Machine C} {p q : Position} → Turn core m p n q → IsCalm m p → IsCalm n q
  Turn-IsCalm (Turn.acquire m) h = absurd h
  Turn-IsCalm (Turn.rest m w) h = tt
  Turn-IsCalm (Turn.again m w r) h = h
  Turn-IsCalm (Turn.leave m r) h = tt
  Turn-IsCalm (Turn.wake m) h = run_steps-none_left m
  Turn-IsCalm (Turn.asked m p num f) h = free-IsCalm m (step num m) p f h
  Turn-IsCalm (Turn.interrupted m after p hw_id code f e) h = free-IsCalm m after p f h
  Turn-IsCalm (Turn.deleted m p f) h = free-IsCalm m (delete m) p f h

  pub Reach-IsCalm :
      {m : Machine C} {p : Position} {n : Machine C} {q : Position}
      → Reach core m p n q
      → IsCalm m p
      → IsCalm n q
  Reach-IsCalm Reach.here h = h
  Reach-IsCalm (Reach.next n q o r before t) h = Turn-IsCalm t (Reach-IsCalm before h)

  none_left-waits : (m : Machine C) → m.steps_to_run ≡ 0 → m.running ≡ true → waits core m ≡ true
  unfolding waits
  none_left-waits m e r = ground arith

  -- After the thread has waited once, whatever other threads ask for: whenever it tests its loop and
  -- the machine runs, no steps are left and it goes on to wait, which frees the lock.
  pub Reach-waits :
      (m n : Machine C)
      → Reach core m Position.waiting n Position.testing
      → n.running ≡ true
      → (n.steps_to_run ≡ 0) × (waits core n ≡ true)
  Reach-waits m n t r = let calm = Reach-IsCalm t tt in (calm, none_left-waits n calm r)
