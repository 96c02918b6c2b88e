-- ===== src/Debugger/Handlers.antt =====
-- debugger.py, class Debugger: the messages that read and write registers and memory and set
-- watchpoints. With them the properties pc_value and cpsr of hardware.py's Machine; its `mem` passes
-- every call on to the processor's, under the lock. Registers and addresses are numbers from 0 on,
-- and a handler that does not ask for a connection is called with one.
pub mod ReadBack
use armv.Common.{
  ℕ, ◌+◌, ◌*◌, ◌/◌, ◌%◌, ◌^◌, bit_or, Bool, true, false, List, [], ◌∷◌, Result, ok, raised,
  type_error, ltb, ◌==◌, if◌then◌else◌, ◌>>=◌,
}
use armv.Binding.Words.{Cpu}
use armv.Binding.Bytes.{get_slice, set_slice}
use armv.Binding.Registers.{Registers, getregs, setregs, get_registers}
use armv.Gdb.Request.{Watch}
use armv.Gdb.Reply.{Reply, ok_reply, register_values, register_value, memory}

-- The registers and the memory of the machine, and whether a client is connected.
pub record Target (D : Type 0) : Type 0 where
  pub regs : Registers
  pub cpu : Cpu D
  pub connected : Bool

abbrev pub Answer : Type 0 → Type 0
Answer D = Result (List Reply) × Target D

-- Machine.pc_value, of the processor's `pc`, which is four ahead of the core's
abbrev pub pc_value : Registers → ℕ
pc_value regs = (regs.pc + 4) % 2 ^ 26 / 4 * 4

-- Machine.cpsr: mode | (regs[15] & 0xfc000000)
unfoldable pub cpsr : Registers → Result ℕ
unfolding getregs
cpsr regs = getregs 15 regs >>= λ r. ok (bit_or (r % 4) (r / 2 ^ 26 * 2 ^ 26))

-- value | (regs[15] & 0xfc000003) and value | (regs[15] & 0x03ffffff)
abbrev pub with_flags : ℕ → ℕ → ℕ
with_flags value r = bit_or value (r / 2 ^ 26 * 2 ^ 26 + r % 4)

abbrev pub with_address : ℕ → ℕ → ℕ
with_address value r = bit_or value (r % 2 ^ 26)

module _ {D : Type 0} where
  abbrev pub replying : Reply → Target D → Answer D
  replying reply t = if t.connected then (ok (reply ∷ []), t) else (ok [], t)

  abbrev pub show_registers : Result (List ℕ) → Result ℕ → Target D → Answer D
  show_registers (ok regs) (ok mode) t = (ok (register_values regs (pc_value t.regs) mode ∷ []), t)
  show_registers (raised e) mode t = (raised e, t)
  show_registers (ok regs) (raised e) t = (raised e, t)

  -- RegisterValues takes the first fifteen registers.
  unfoldable pub handle_get_regs : Target D → Answer D
  unfolding get_registers cpsr
  handle_get_regs t =
      if t.connected then show_registers (get_registers 0 15 t.regs) (cpsr t.regs) t else (ok [], t)

  abbrev pub with_registers : Result Registers → Target D → Answer D
  with_registers (ok regs) t = (ok (ok_reply ∷ []), record t { regs = regs })
  with_registers (raised e) t = (raised e, t)

  -- A number cannot be unpacked into `i, reg`.
  unfoldable pub handle_set_regs : (regs : List ℕ) (pc flags : ℕ) → Target D → Answer D
  unfolding setregs
  handle_set_regs [] pc flags t = with_registers (setregs 15 (bit_or pc flags) t.regs) t
  handle_set_regs (r ∷ rs) pc flags t = (raised type_error, t)

  unfoldable pub handle_set_reg : (register value : ℕ) → Target D → Answer D
  unfolding setregs getregs
  handle_set_reg register value t =
      if ltb register 15
      then with_registers (setregs register value t.regs) t
      else if register == 15
      then with_registers (getregs 15 t.regs >>= λ r. setregs 15 (with_flags value r) t.regs) t
      else if register == 25
      then with_registers (getregs 15 t.regs >>= λ r. setregs 25 (with_address value r) t.regs) t
      else (ok (ok_reply ∷ []), t)

  abbrev pub show_register : Result ℕ → Target D → Answer D
  show_register (ok value) t = (ok (register_value value ∷ []), t)
  show_register (raised e) t = (raised e, t)

  unfoldable pub handle_get_reg : (register : ℕ) → Target D → Answer D
  unfolding getregs cpsr
  handle_get_reg register t =
      if t.connected
      then show_register
          (if ltb register 15
            then getregs register t.regs
            else if register == 15
            then ok (pc_value t.regs)
            else if register == 24
            then ok 0
            else if register == 25
            then cpsr t.regs
            else ok 0)
          t
      else (ok [], t)

  unfoldable pub handle_read_mem : (start end : ℕ) → Target D → Answer D
  unfolding get_slice
  handle_read_mem start end t =
      if t.connected
      then (let (values, cpu) = get_slice start end t.cpu in
          (ok (memory values ∷ []), record t { cpu = cpu }))
      else (ok [], t)

  abbrev pub written : Result (Unit {0}) × Cpu D → Target D → Answer D
  written (ok done, cpu) t = replying ok_reply (record t { cpu = cpu })
  written (raised e, cpu) t = (raised e, record t { cpu = cpu })

  unfoldable pub handle_write_mem : (start end : ℕ) → List ℕ → Target D → Answer D
  unfolding set_slice
  handle_write_mem start end values t = written (set_slice start end values t.cpu) t

-- The core's functions are arguments.
module _ {D : Type 0} (set_watchpoint unset_watchpoint : Watch → ℕ → Cpu D → Cpu D) where
  unfoldable pub handle_set_watchpoint : Watch → ℕ → Target D → Answer D
  handle_set_watchpoint kind addr t =
      (ok (ok_reply ∷ []), record t { cpu = set_watchpoint kind addr t.cpu })

  unfoldable pub handle_unset_watchpoint : Watch → ℕ → Target D → Answer D
  handle_unset_watchpoint kind addr t =
      (ok (ok_reply ∷ []), record t { cpu = unset_watchpoint kind addr t.cpu })
