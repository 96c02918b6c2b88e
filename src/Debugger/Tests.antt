-- ===== src/Debugger/Tests.antt =====
-- debugger.py on concrete requests, and the theorems at concrete inputs.
use armv.Common.{
  ℕ, zero, suc, ◌/◌, ◌≤◌, ◌≡◌, refl, ap, sym, ◌∙◌, inl, inr, Bool-cases, ==_iff, ==_self, ne→==,
  Bool, true, false, [], ◌∷◌, none, some, Result, ok, raised, name_error, ◌==◌, if◌then◌else◌,
  arith,
}
use armv.Common.Bytes.{Bytes}
use armv.Common.Int.{pos, negsuc}
use armv.Gdb.Reply.{ok_reply, empty_reply, file_response}
use armv.Debugger.Files.{Fds, handle_file_open, handle_file_close}
use armv.Debugger.Files.Laws.{Serves, IsLowest, handle_file_open_lem}
use armv.Debugger.Breakpoints.{
  Status, breakpoint_status, Machine, Debugger, set_breakpoint_command, continue_command,
  handle_message, next,
}
use armv.Debugger.Breakpoints.Secret.{Stoppable, next-Stoppable}
use armv.Debugger.Breakpoints.Tracking.{
  OnOk, IsWord, IsMachine, IsTracked, at_first, after_message, reached-IsTracked,
}

abbrev elf : Bytes
elf = 0x7f ∷ b'E' ∷ b'L' ∷ b'F' ∷ []

-- The numbers 0 and 2 are taken.
abbrev two_open : Fds
two_open zero = some []
two_open (suc zero) = none
two_open (suc (suc zero)) = some elf
two_open (suc (suc (suc n))) = none

handle_file_open_lem_example : (fd : ℕ) × (fd ≤ 5) × IsLowest two_open 0 fd × Serves elf two_open fd
handle_file_open_lem_example = handle_file_open_lem elf two_open 5 (omega arith) refl

abbrev all_open : Fds
all_open n = some elf

none_free : (handle_file_open elf all_open).0 ≡ empty_reply
unfolding handle_file_open
none_free = refl

closed_twice : (handle_file_close (pos 1) two_open).0 ≡ file_response (negsuc 0)
unfolding handle_file_close
closed_twice = refl

-- A machine that is its breakpoints, one for each word, and stops at once.
abbrev Core : Type 0
Core = ℕ → Bool

abbrev core : Machine Core
core = record {
  set_breakpoint = λ a m w. if w == a / 4 then true else m w;
  unset_breakpoint = λ a m w. if w == a / 4 then false else m w;
  reset_breakpoints = λ m w. false;
  reset_watchpoints = λ m. m;
  step_and_wait = λ n m. ok (breakpoint_status, m);
  is_set = λ b m. m (b / 4);
}

abbrev core_after : Core → Result (Status × Core) → Core
core_after m (ok (s, later)) = later
core_after m (raised e) = m

same_word : (a b : ℕ) → IsWord a → IsWord b → (b / 4 == a / 4) ≡ (b == a)
same_word a b v w = elim (Bool-cases (b == a)) [
  | inl e ↦ rw ((==_iff b a).0 e) (==_self (a / 4) ∙ sym (==_self a))
  | inr e ↦
      ne→== (b / 4) (a / 4) (λ f. cc (sym e ∙ (==_iff b a).1 (omega (arith, v.0, w.0)))) ∙ sym e
]

core-IsMachine : IsMachine core
core-IsMachine = record {
  is_set-set = λ a b m v w. ap (λ p. if p then true else m (b / 4)) (same_word a b v w);
  is_set-unset = λ a b m v w. ap (λ p. if p then false else m (b / 4)) (same_word a b v w);
  is_set-reset = λ b m w. refl;
  is_set-watchpoints = λ b m w. refl;
  is_set-step = λ n b m later s w e. ap (λ r. core_after m r (b / 4)) (sym e);
}

abbrev fresh_debugger : Debugger Core
fresh_debugger = record {
  machine = λ b. false;
  breakpoints = [];
  next_breakpoint = none;
  stopped = false;
  num_to_step = pos 0;
}

abbrev with_breakpoint : Debugger Core
with_breakpoint = record fresh_debugger {
  machine = λ w. if w == 0x40 then true else false;
  breakpoints = 0x100 ∷ [];
}

breakpoint-handled :
    handle_message core (set_breakpoint_command 0x100) fresh_debugger
    ≡ ok (ok_reply ∷ [], with_breakpoint)
unfolding handle_message
breakpoint-handled = refl

fresh-IsTracked : IsTracked core core-IsMachine fresh_debugger
fresh-IsTracked = record { unset = refl; words = λ b e. cc e; same = λ b w. refl }

-- 0x100 and 0x101 are one breakpoint of this core.
one_for_word : core.is_set 0x101 with_breakpoint.machine ≡ true
one_for_word = refl

reached-IsTracked_again : IsTracked core core-IsMachine with_breakpoint
reached-IsTracked_again =
    reached-IsTracked core core-IsMachine fresh_debugger with_breakpoint fresh-IsTracked (
      after_message (set_breakpoint_command 0x100) fresh_debugger with_breakpoint (ok_reply ∷ [])
        at_first (omega arith) breakpoint-handled)

reached-IsTracked_example : IsTracked core core-IsMachine with_breakpoint
reached-IsTracked_example =
    reached-IsTracked core core-IsMachine fresh_debugger with_breakpoint fresh-IsTracked (
      after_message (set_breakpoint_command 0x100) fresh_debugger with_breakpoint (ok_reply ∷ [])
        at_first (omega arith) breakpoint-handled)

-- A step in front of a frame leaves -1 steps to run, and a continue then fails.
abbrev stepped : Debugger Core
stepped = record fresh_debugger { num_to_step = negsuc 0 }

continue_behind_step : handle_message core continue_command stepped ≡ raised name_error
unfolding handle_message
continue_behind_step = refl

next-Stoppable_example :
    OnOk core core-IsMachine (Stoppable core core-IsMachine) (next core true 0x200 with_breakpoint)
next-Stoppable_example =
    next-Stoppable core core-IsMachine true 0x200 with_breakpoint (omega arith, omega arith)
      reached-IsTracked_again
