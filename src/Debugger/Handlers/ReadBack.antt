-- ===== src/Debugger/Handlers/ReadBack.antt =====
-- debugger.py: memory that a client writes is what it reads.
use armv.Common.{ℕ, ◌+◌, ◌^◌, ◌<◌, ◌≤◌, ◌≡◌, ◌⊎◌, refl, true, List, [], ◌∷◌, ok, length, All}
use armv.Common.Bytes.{IsByte}
use armv.Binding.Ram.{byte_at}
use armv.Binding.ReadBack.{HasWords}
use armv.Binding.Slices.{AllRam, get_slice-set_slice}
use armv.Gdb.Reply.{ok_reply, memory}
use armv.Debugger.Handlers.{Target, handle_read_mem, handle_write_mem}

module _ {D : Type 0} where
  -- A write to plain memory is acknowledged; a read of the same stretch is then answered by the bytes
  -- that were written, the registers are as before, and so is every other byte of the memory.
  pub handle_read_mem-handle_write_mem :
      (values : List ℕ) (start : ℕ) (t : Target D)
      → t.connected ≡ true
      → All IsByte values
      → HasWords t.cpu
      → start + length values ≤ 2 ^ 26
      → AllRam t.cpu start (length values)
      → (after : Target D) × (handle_write_mem start (start + length values) values t
          ≡ (ok (ok_reply ∷ []), after))
        × (handle_read_mem start (start + length values) after ≡ (ok (memory values ∷ []), after))
        × (after.regs ≡ t.regs)
        × ((a : ℕ)
            → (a < start) ⊎ (start + length values ≤ a)
            → byte_at after.cpu a ≡ byte_at t.cpu a)
  unfolding handle_read_mem handle_write_mem
  handle_read_mem-handle_write_mem values start t c small words l ram =
      let (cpu, e, f, others) = get_slice-set_slice values start t.cpu small words l ram in
      (record t { cpu = cpu }, rw (e, c) refl, rw (c, f) refl, refl, others)
