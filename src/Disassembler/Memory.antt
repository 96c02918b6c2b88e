-- ===== src/Disassembler/Memory.antt =====
-- disassemble.py, Disassemble: the instructions of a stretch of memory, as `list` takes them.
use armv.Common.{
  ℕ, zero, suc, ◌+◌, ◌-◌, ◌/◌, ◌%◌, ◌≡◌, refl, arith, List, [], ◌∷◌, Option, none, some, Result, ok,
  raised, type_error, ◌==◌, if◌then◌else◌, ◌>>=◌, ==_iff,
}
use armv.Common.Text.{Text}
use armv.Common.Int.{ℤ, pos}
use armv.Disassembler.Instructions.{Instruction}
use armv.Disassembler.Branches.{branch_instruction}
use armv.Disassembler.Factory.{Class, class_of, instruction_of, instruction_factory}

-- breakpoints[addr], if it is there
abbrev pub saved_word : List (ℕ × ℕ) → ℕ → Option ℕ
saved_word [] addr = none
saved_word ((b, word) ∷ rest) addr =
    let further = saved_word rest addr in if addr == b then some word else further

module _ (memw : ℤ → Result ℕ) (symbols : Option (List (ℕ × Text)))
    (breakpoints : List (ℕ × ℕ)) where
  -- A byte of `mem` is a number, which `ord` refuses.
  abbrev pub word_or_memory : Option ℕ → ℕ → Result ℕ
  word_or_memory (some word) addr = ok word
  word_or_memory none addr = if addr % 4 == 0 then memw (pos addr) else raised type_error

  unfoldable pub word_at : ℕ → Result ℕ
  word_at addr = word_or_memory (saved_word breakpoints addr) addr

  -- The rounds of the loop from `addr` on.
  unfoldable pub disassemble_loop : ℕ → ℕ → Result (List Instruction)
  unfolding word_at instruction_factory
  disassemble_loop zero addr = ok []
  disassemble_loop (suc rounds) addr =
      let rest = disassemble_loop rounds (addr + 4) in
      do word ← word_at addr; i ← instruction_factory memw symbols addr word; is ← rest; ok (i ∷ is)

  -- range(start, end, 4)
  unfoldable pub disassemble : (start end : ℕ) → Result (List Instruction)
  unfolding disassemble_loop
  disassemble start end = disassemble_loop ((end - start + 3) / 4) start

instruction_of-ok :
    (memw : ℤ → Result ℕ) (addr word : ℕ) (c : Class)
    → (i : Instruction) × (instruction_of memw none addr word c ≡ ok i)
unfolding branch_instruction
instruction_of-ok memw addr word Class.multiply = (_, refl)
instruction_of-ok memw addr word Class.swap = (_, refl)
instruction_of-ok memw addr word Class.alu = (_, refl)
instruction_of-ok memw addr word Class.single_data_transfer = (_, refl)
instruction_of-ok memw addr word Class.branch = (_, refl)
instruction_of-ok memw addr word Class.multi_data_transfer = (_, refl)
instruction_of-ok memw addr word Class.software_interrupt = (_, refl)
instruction_of-ok memw addr word Class.coprocessor_data_transfer = (_, refl)
instruction_of-ok memw addr word Class.coprocessor_register_transfer = (_, refl)
instruction_of-ok memw addr word Class.coprocessor_data_operation = (_, refl)

-- The instructions of `rounds` words from `addr` on.
abbrev pub Shows : (ℤ → Result ℕ) → (ℕ → ℕ) → ℕ → ℕ → List Instruction → Type 0
Shows memw words zero addr is = is ≡ []
Shows memw words (suc rounds) addr [] = ⊥
Shows memw words (suc rounds) addr (i ∷ is) =
    (instruction_factory memw none addr (words addr) ≡ ok i) × Shows memw words rounds (addr + 4) is

module _ (words : ℕ → ℕ) (memw : ℤ → Result ℕ)
    (reads : (addr : ℕ) → memw (pos addr) ≡ ok (words addr)) where
  disassemble_loop_lem :
      (rounds addr : ℕ)
      → addr % 4 ≡ 0
      → (is : List Instruction) × (disassemble_loop memw none [] rounds addr ≡ ok is)
        × Shows memw words rounds addr is
  unfolding disassemble_loop word_at instruction_factory
  disassemble_loop_lem zero addr h = ([], refl, refl)
  disassemble_loop_lem (suc rounds) addr h =
      let (is, e, shows) = disassemble_loop_lem rounds (addr + 4) (omega arith) in
      let (i, f) = instruction_of-ok memw addr (words addr) (class_of (words addr)) in
      (i ∷ is, rw ((==_iff (addr % 4) 0).1 h, reads addr, f, e) refl, (f, shows))

  -- From an aligned address, without breakpoints and symbols, every word of the stretch is shown as
  -- the factory's instruction for it, in order, and no exception is raised.
  pub disassemble_lem :
      (start end : ℕ)
      → start % 4 ≡ 0
      → (is : List Instruction) × (disassemble memw none [] start end ≡ ok is)
        × Shows memw words ((end - start + 3) / 4) start is
  unfolding disassemble
  disassemble_lem start end h = disassemble_loop_lem ((end - start + 3) / 4) start h
