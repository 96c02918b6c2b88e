-- ===== src/Machine/Thread.antt =====
-- hardware.py, class Machine: the stepping thread and what other threads do under its lock. The
-- lock is held from one wait of the condition to the next, so a thread's turn is the code between
-- two waits. A wait ends at a notification or at its timeout: a waiting thread may always wake.
-- The processor core is an argument.
pub mod Calm
pub mod Stepping
pub mod Race
use armv.Common.{
  ℕ, Bool, true, false, not, ◌&&◌, ◌||◌, ◌≡◌, Option, none, some, Result, ok, raised, runtime_error,
  ltb, ◌==◌, if◌then◌else◌, ◌>>=◌,
}

-- The values of armv2.Status that the machine tells apart.
pub data Status : Type 0 where
  no_error at_breakpoint wait_for_interrupt : Status

abbrev pub is_waiting_status : Status → Bool
is_waiting_status no_error = false
is_waiting_status at_breakpoint = false
is_waiting_status wait_for_interrupt = true

-- The processor: step, which runs a number of instructions, the interrupt, and its interrupt pin.
pub record Core (C : Type 0) : Type 0 where
  pub step : ℕ → C → Status × C
  pub interrupt : (hw_id code : ℕ) → C → Result C
  pub interrupt_pin : C → Bool

pub record Machine (C : Type 0) : Type 0 where
  pub running : Bool
  pub steps_to_run : ℕ
  pub status : Status
  pub cpu : C

module _ {C : Type 0} (core : Core C) where
  -- The test of the loop in thread_main_loop.
  unfoldable pub waits : Machine C → Bool
  waits m =
      m.running
      && (m.steps_to_run == 0 || (is_waiting_status m.status && not (core.interrupt_pin m.cpu)))

  -- The loop's body behind the wait.
  unfoldable pub run_steps : Machine C → Machine C
  run_steps m =
      if ltb 0 m.steps_to_run
      then (let (status, cpu) = core.step m.steps_to_run m.cpu in
          record m { status = status; cpu = cpu; steps_to_run = 0 })
      else record m { steps_to_run = 0 }

  unfoldable pub interrupt : (hw_id code : ℕ) → Machine C → Result (Machine C)
  interrupt hw_id code m = core.interrupt hw_id code m.cpu >>= λ cpu.
      ok (record m { cpu = cpu; steps_to_run = if m.steps_to_run == 0 then 1 else m.steps_to_run })

module _ {C : Type 0} where
  abbrev pub step : ℕ → Machine C → Machine C
  step num m = record m { steps_to_run = num }

  -- What delete does under the lock.
  abbrev pub delete : Machine C → Machine C
  delete m = record m { running = false }

  unfoldable pub is_waiting : Machine C → Bool
  is_waiting m = is_waiting_status m.status

  -- step_and_wait when it has the lock, behind its call of step: none while it goes on to wait.
  unfoldable pub wait_result : Machine C → Option (Result Status)
  wait_result m =
      if m.running
      then (if not (m.steps_to_run == 0) && not (is_waiting_status m.status)
          then none
          else some (ok m.status))
      else some (raised runtime_error)

-- Where the stepping thread is: not yet at its lock, at the test of its loop with the lock, in the
-- wait without it, or at its end.
pub data Position : Type 0 where
  starting testing waiting ended : Position

abbrev pub lock_free : Position → Bool
lock_free starting = true
lock_free testing = false
lock_free waiting = true
lock_free ended = true

module _ {C : Type 0} (core : Core C) where
  -- thread_main and thread_main_loop, and the calls of other threads, one turn at a time.
  pub data Turn : Machine C → Position → Machine C → Position → Type 0 where
    acquire : (m : Machine C) → Turn m starting m testing
    rest : (m : Machine C) → waits core m ≡ true → Turn m testing m waiting
    again : (m : Machine C) → waits core m ≡ false → m.running ≡ true → Turn m testing m testing
    leave : (m : Machine C) → m.running ≡ false → Turn m testing m ended
    wake : (m : Machine C) → Turn m waiting (run_steps core m) testing
    asked : (m : Machine C) (p : Position) (num : ℕ) → lock_free p ≡ true → Turn m p (step num m) p
    interrupted :
        (m after : Machine C) (p : Position) (hw_id code : ℕ)
        → lock_free p ≡ true
        → interrupt core hw_id code m ≡ ok after
        → Turn m p after p
    deleted : (m : Machine C) (p : Position) → lock_free p ≡ true → Turn m p (delete m) p

  pub data Reach (m : Machine C) (p : Position) : Machine C → Position → Type 0 where
    here : Reach m p m p
    next :
        (n : Machine C) (q : Position) (o : Machine C) (r : Position)
        → Reach m p n q
        → Turn n q o r
        → Reach m p o r
