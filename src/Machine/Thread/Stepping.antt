-- ===== src/Machine/Thread/Stepping.antt =====
-- hardware.py, class Machine: a request for steps is served by one call of the core.
use armv.Common.{ℕ, ◌<◌, ◌≡◌, ◌⊎◌, inl, inr, refl, sym, ap, ◌∙◌, arith, true, false, none, some, ok}
use armv.Machine.Thread.{
  Core, Machine, is_waiting_status, run_steps, wait_result, step, Position, Turn, Reach,
}

module _ {C : Type 0} (core : Core C) where
  -- What the core's step of `num` instructions leaves, as the machine of a client.
  abbrev pub stepped : ℕ → Machine C → Machine C
  stepped num m = record m {
    status = (core.step num m.cpu).0;
    cpu = (core.step num m.cpu).1;
    steps_to_run = 0;
  }

  run_steps-step : (num : ℕ) (m : Machine C) → 0 < num → run_steps core (step num m) ≡ stepped num m
  unfolding run_steps
  run_steps-step num m l = ground arith

  still_waits :
      (num : ℕ) (m : Machine C)
      → 0 < num
      → m.running ≡ true
      → is_waiting_status m.status ≡ false
      → wait_result (step num m) ≡ none
  unfolding wait_result
  still_waits num m l r b = ground arith

  comes_back :
      (num : ℕ) (m : Machine C)
      → m.running ≡ true
      → wait_result (stepped num m) ≡ some (ok (core.step num m.cpu).0)
  unfolding wait_result
  comes_back num m r = ground arith

  -- The turns of the stepping thread itself.
  abbrev pub IsOwn : {m n : Machine C} {p q : Position} → Turn core m p n q → Type 0
  IsOwn (Turn.acquire m) = Unit {0}
  IsOwn (Turn.rest m w) = Unit {0}
  IsOwn (Turn.again m w r) = Unit {0}
  IsOwn (Turn.leave m r) = Unit {0}
  IsOwn (Turn.wake m) = Unit {0}
  IsOwn (Turn.asked m p num f) = ⊥
  IsOwn (Turn.interrupted m after p hw_id code f e) = ⊥
  IsOwn (Turn.deleted m p f) = ⊥

  abbrev pub AreOwn :
      {m : Machine C} {p : Position} {n : Machine C} {q : Position} → Reach core m p n q → Type 0
  AreOwn Reach.here = Unit {0}
  AreOwn (Reach.next n q o r before turn) = AreOwn before × IsOwn turn

  -- Where a request for `num` steps stands: not yet seen, and step_and_wait waits; or served by one
  -- call of the core's step with `num`, whose status step_and_wait returns.
  abbrev pub IsAsked : ℕ → Machine C → Machine C → Position → Type 0
  IsAsked num m n q = (n ≡ step num m) × (q ≡ Position.waiting) × (wait_result n ≡ none)

  abbrev pub IsServed : ℕ → Machine C → Machine C → Position → Type 0
  IsServed num m n q =
      (n ≡ stepped num m)
      × ((q ≡ Position.testing) ⊎ (q ≡ Position.waiting))
      × (wait_result n ≡ some (ok (core.step num m.cpu).0))

  module _ (num : ℕ) (m : Machine C) (some_steps : 0 < num) (runs : m.running ≡ true) where
    served :
        (n : Machine C) (q : Position)
        → n ≡ stepped num m
        → (q ≡ Position.testing) ⊎ (q ≡ Position.waiting)
        → IsServed num m n q
    served n q e at = (e, at, ap wait_result e ∙ comes_back num m runs)

    -- A thread that wakes without a request runs nothing.
    run_steps-stepped : run_steps core (stepped num m) ≡ stepped num m
    unfolding run_steps
    run_steps-stepped = refl

    own_turn :
        {n o : Machine C} {q r : Position} (t : Turn core n q o r)
        → IsOwn t
        → IsAsked num m n q ⊎ IsServed num m n q
        → IsAsked num m o r ⊎ IsServed num m o r
    own_turn (Turn.acquire n) own (inl (e, at, w)) = cc at
    own_turn (Turn.acquire n) own (inr (e, at, w)) = inr (served n _ e (inl refl))
    own_turn (Turn.rest n c) own (inl (e, at, w)) = cc at
    own_turn (Turn.rest n c) own (inr (e, at, w)) = inr (served n _ e (inr refl))
    own_turn (Turn.again n c r) own (inl (e, at, w)) = cc at
    own_turn (Turn.again n c r) own (inr (e, at, w)) = inr (served n _ e (inl refl))
    own_turn (Turn.leave n r) own (inl (e, at, w)) = cc at
    own_turn (Turn.leave n r) own (inr (e, at, w)) =
        cc (sym r ∙ (ap (λ (k : Machine C). k.running) e ∙ runs))
    own_turn (Turn.wake n) own (inl (e, at, w)) = inr (
        served (run_steps core n) _ (ap (run_steps core) e ∙ run_steps-step num m some_steps)
          (inl refl))
    own_turn (Turn.wake n) own (inr (e, at, w)) =
        inr (served (run_steps core n) _ (ap (run_steps core) e ∙ run_steps-stepped) (inl refl))
    own_turn (Turn.asked n p k f) own h = absurd own
    own_turn (Turn.interrupted n after p hw_id code f e) own h = absurd own
    own_turn (Turn.deleted n p f) own h = absurd own

    own_turns :
        {n : Machine C} {q : Position} (r : Reach core (step num m) Position.waiting n q)
        → AreOwn r
        → IsAsked num m (step num m) Position.waiting
        → IsAsked num m n q ⊎ IsServed num m n q
    own_turns Reach.here own h = inl h
    own_turns (Reach.next n q o r before turn) own h =
        own_turn turn own.1 (own_turns before own.0 h)

  -- If the stepping thread waits, the machine runs and the processor does not wait for an interrupt,
  -- then behind a call of step, as long as no other thread asks, interrupts or deletes: either the
  -- request is not yet seen, and step_and_wait gets no result, or the core's step was called once,
  -- with the number asked for, none are left to run, and step_and_wait gets its status, however often
  -- the thread has woken. How many instructions that one call ran is the core's matter. Waking serves
  -- the request.
  pub step_and_wait_lem :
      (num : ℕ) (m n : Machine C) (q : Position)
      → 0 < num
      → m.running ≡ true
      → is_waiting_status m.status ≡ false
      → (r : Reach core (step num m) Position.waiting n q) → AreOwn r
      → (IsAsked num m n q ⊎ IsServed num m n q)
        × IsServed num m (run_steps core n) Position.testing
  step_and_wait_lem num m n q l runs busy r own =
      let where_it_stands =
        own_turns num m l runs r own (refl, refl, still_waits num m l runs busy) in
      (where_it_stands, woken where_it_stands)
    where
      woken :
          IsAsked num m n q ⊎ IsServed num m n q
          → IsServed num m (run_steps core n) Position.testing
      woken (inl (e, at, w)) =
          served num m l runs (run_steps core n) _ (ap (run_steps core) e ∙ run_steps-step num m l)
            (inl refl)
      woken (inr (e, at, w)) =
          served num m l runs (run_steps core n) _
            (ap (run_steps core) e ∙ run_steps-stepped num m l runs) (inl refl)
