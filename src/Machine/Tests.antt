-- ===== src/Machine/Tests.antt =====
-- The stepping thread at a concrete processor, which counts its instructions.
use armv.Common.{ℕ, ◌+◌, ◌≡◌, ◌⊎◌, refl, arith, true, false, none, ok}
use armv.Machine.Thread.{
  Core, Machine, Status, run_steps, interrupt, step, wait_result, waits, Position, Turn, Reach,
}
use armv.Machine.Thread.Calm.{Reach-waits}
use armv.Machine.Thread.Stepping.{stepped, IsAsked, IsServed, step_and_wait_lem}
use armv.Machine.Thread.Race.{early_step-Stuck}

abbrev counting : Core ℕ
counting = record {
  step = λ num c. (Status.no_error, c + num);
  interrupt = λ hw_id code c. ok c;
  interrupt_pin = λ c. false;
}

abbrev at_rest : Machine ℕ
at_rest = record { running = true; steps_to_run = 0; status = Status.no_error; cpu = 10 }

after_five : run_steps counting (step 5 at_rest) ≡ record at_rest { cpu = 15 }
unfolding run_steps
after_five = refl

-- A request for steps that is not yet served is replaced by the next.
last_request : run_steps counting (step 5 (step 3 at_rest)) ≡ record at_rest { cpu = 15 }
unfolding run_steps
last_request = refl

-- An interrupt at rest asks for one step.
interrupt_steps : interrupt counting 1 2 at_rest ≡ ok (step 1 at_rest)
unfolding interrupt
interrupt_steps = refl

Reach-waits_example :
    ((run_steps counting at_rest).steps_to_run ≡ 0)
    × (waits counting (run_steps counting at_rest) ≡ true)
unfolding run_steps
Reach-waits_example =
    Reach-waits counting at_rest (run_steps counting at_rest)
      (Reach.next at_rest Position.waiting (run_steps counting at_rest) Position.testing Reach.here
        (Turn.wake at_rest))
      refl

after_three : run_steps counting (step 3 at_rest) ≡ stepped counting 3 at_rest
unfolding run_steps
after_three = refl

step_and_wait_lem_example :
    (IsAsked counting 3 at_rest (run_steps counting (step 3 at_rest)) Position.testing
      ⊎ IsServed counting 3 at_rest (run_steps counting (step 3 at_rest)) Position.testing)
    × IsServed counting 3 at_rest
        (run_steps counting (run_steps counting (step 3 at_rest)))
        Position.testing
step_and_wait_lem_example =
    step_and_wait_lem counting 3 at_rest (run_steps counting (step 3 at_rest)) Position.testing
      (omega arith) refl refl
      (Reach.next (step 3 at_rest) Position.waiting (run_steps counting (step 3 at_rest))
        Position.testing Reach.here (Turn.wake (step 3 at_rest)))
      (tt, tt)

early_step-Stuck_example :
    Reach counting at_rest Position.starting (step 5 at_rest) Position.testing
    × ((n : Machine ℕ) (q : Position)
        → Reach counting (step 5 at_rest) Position.testing n q
        → (n ≡ step 5 at_rest) × (q ≡ Position.testing) × (wait_result n ≡ none))
early_step-Stuck_example = early_step-Stuck counting at_rest 5 refl (omega arith) refl
