-- ===== src/Debugger/Breakpoints.antt =====
-- debugger.py, class Debugger: breakpoints, stopping, stepping and continuing.
-- The machine is an argument: its operations go to the processor core, which is other code.
-- Addresses are numbers from 0 on, and a connection is there for every reply.
pub mod Tracking
pub mod Secret
use armv.Common.{
  ℕ, zero, suc, ◌+◌, ◌%◌, Bool, true, false, List, [], ◌∷◌, ◌++◌, Option, none, some, Result, ok,
  raised, value_error, key_error, name_error, ◌>>=◌, ◌==◌, if◌then◌else◌,
}
use armv.Common.Int.{ℤ, pos, negsuc, sub_ℕ}
use armv.Gdb.Reply.{Reply, ok_reply, swbreak_reply, stop_reply}

pub data Status : Type 0 where
  breakpoint_status other_status : Status

-- The operations of hardware.py's Machine that the debugger calls, and whether a breakpoint is set.
pub record Machine (M : Type 0) : Type 0 where
  pub set_breakpoint : ℕ → M → M
  pub unset_breakpoint : ℕ → M → M
  pub reset_breakpoints : M → M
  pub reset_watchpoints : M → M
  pub step_and_wait : ℕ → M → Result (Status × M)
  pub is_set : ℕ → M → Bool

pub record Debugger (M : Type 0) : Type 0 where
  pub machine : M
  -- the keys of self.breakpoints
  pub breakpoints : List ℕ
  pub next_breakpoint : Option ℕ
  pub stopped : Bool
  pub num_to_step : ℤ

-- The messages of gdb.py that this part handles.
pub data Command : Type 0 where
  stop_command step_command continue_command detach_command disconnect_command : Command
  set_breakpoint_command unset_breakpoint_command : (addr : ℕ) → Command

abbrev pub contains : List ℕ → ℕ → Bool
contains [] addr = false
contains (b ∷ bs) addr = if addr == b then true else contains bs addr

-- del self.breakpoints[addr]
abbrev pub without : List ℕ → ℕ → List ℕ
without [] addr = []
without (b ∷ bs) addr = let rest = without bs addr in if addr == b then rest else b ∷ rest

-- self.num_to_step - num
abbrev pub minus : ℤ → ℕ → ℤ
minus (pos n) num = sub_ℕ n num
minus (negsuc n) num = negsuc (n + num)

module _ {M : Type 0} (machine : Machine M) where
  -- What a handler does: the replies in order, and the debugger after it.
  abbrev pub Reaction : Type 0
  Reaction = Result (List Reply × Debugger M)

  unfoldable pub add_breakpoint : ℕ → Debugger M → Result (Debugger M)
  add_breakpoint addr d =
      if addr % 4 == 0
      then (if contains d.breakpoints addr
          then ok d
          else ok (record d {
            breakpoints = d.breakpoints ++ (addr ∷ []);
            machine = machine.set_breakpoint addr d.machine;
          }))
      else raised value_error

  unfoldable pub remove_breakpoint : ℕ → Debugger M → Result (Debugger M)
  remove_breakpoint addr d =
      if contains d.breakpoints addr
      then ok (record d {
        breakpoints = without d.breakpoints addr;
        machine = machine.unset_breakpoint addr d.machine;
      })
      else raised key_error

  unfoldable pub reset_debugging : Debugger M → Debugger M
  reset_debugging d = record d {
    stopped = false;
    machine = machine.reset_watchpoints (machine.reset_breakpoints d.machine);
    breakpoints = [];
  }

  abbrev pub unset_next : Option ℕ → Debugger M → Debugger M
  unset_next none d = d
  unset_next (some addr) d = record d {
    machine = machine.unset_breakpoint addr d.machine;
    next_breakpoint = none;
  }

  unfoldable pub stop : Debugger M → Debugger M
  stop d = unset_next d.next_breakpoint (record d { stopped = true })

  -- With a number of steps below 0 the local `status` is unbound. The symbols that a step may load
  -- are left out.
  unfoldable pub step_num_internal : ℤ → Debugger M → Result (Option Status × Debugger M)
  step_num_internal (pos zero) d = ok (none, d)
  step_num_internal (pos (suc n)) d = machine.step_and_wait (suc n) d.machine >>= λ stepped.
      ok (
        some stepped.0,
        record d { num_to_step = minus d.num_to_step (suc n); machine = stepped.1 },
      )
  step_num_internal (negsuc n) d = raised name_error

  abbrev pub at_status : Option Status → Debugger M → List Reply × Debugger M
  at_status (some breakpoint_status) d = (swbreak_reply ∷ [], stop d)
  at_status _ d = ([], d)

  unfoldable pub resume : Debugger M → Reaction
  unfolding step_num_internal stop
  resume d =
      step_num_internal d.num_to_step (record d { stopped = false }) >>= λ r. ok (at_status r.0 r.1)

  unfoldable pub step : Debugger M → Reaction
  unfolding step_num_internal
  step d = step_num_internal (pos 1) d >>= λ r. ok ([], r.1)

  -- `sets_lr` is disassemble.sets_lr of the word at `pc`.
  unfoldable pub next : (sets_lr : Bool) (pc : ℕ) → Debugger M → Reaction
  unfolding step resume
  next sets_lr pc d =
      let next_instruction = pc + 4 in
      let secret = record d {
        next_breakpoint = some next_instruction;
        machine = machine.set_breakpoint next_instruction d.machine;
      } in
      if sets_lr
      then (if contains d.breakpoints next_instruction then resume d else resume secret)
      else step d

  abbrev pub set_all : List ℕ → M → M
  set_all [] m = m
  set_all (b ∷ bs) m = set_all bs (machine.set_breakpoint b m)

  -- The name that it resets is next_instruction, so that next_breakpoint stays.
  unfoldable pub new_machine : M → Debugger M → Debugger M
  new_machine m d = record d { machine = set_all d.breakpoints m }

  -- SIGINT is 2 and SIGTRAP is 5.
  unfoldable pub handle_message : Command → Debugger M → Reaction
  unfolding add_breakpoint remove_breakpoint reset_debugging stop step_num_internal resume
  handle_message stop_command d = ok (stop_reply 2 ∷ [], stop d)
  handle_message step_command d = step_num_internal (pos 1) d >>= λ r. ok (stop_reply 5 ∷ [], r.1)
  handle_message continue_command d = resume d
  handle_message detach_command d = ok (ok_reply ∷ [], reset_debugging d)
  handle_message disconnect_command d = ok ([], reset_debugging d)
  handle_message (set_breakpoint_command addr) d =
      add_breakpoint addr d >>= λ later. ok (ok_reply ∷ [], later)
  handle_message (unset_breakpoint_command addr) d =
      remove_breakpoint addr d >>= λ later. ok (ok_reply ∷ [], later)
