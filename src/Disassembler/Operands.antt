-- ===== src/Disassembler/Operands.antt =====
-- disassemble.py: OperandShift, RegisterList and the immediate operand of ALUInstruction.
use armv.Common.{
  ℕ, zero, suc, ◌*◌, ◌-◌, ◌/◌, ◌%◌, ◌^◌, bit_or, Bool, true, false, ◌&&◌, List, [], ◌∷◌, ◌++◌, map,
  Option, none, some, leb, ◌==◌, if◌then◌else◌,
}
use armv.Common.Count.{range}
use armv.Common.Text.{Text, codes, join}
use armv.Disassembler.Fields.{field, flag, register_names, shift_types, name_of, decimal}

-- With `by_register` (type_flag) the amount of the shift is a register.
unfoldable pub operand_shift : ℕ → (by_register : Bool) → List Text
unfolding decimal
operand_shift bits true =
    name_of register_names (field bits 0 4)
    ∷ (name_of shift_types (field bits 5 2) ++ (b' ' ∷ name_of register_names (field bits 8 4)))
    ∷ []
operand_shift bits false =
    let rm = name_of register_names (field bits 0 4) in
    let shift_type = field bits 5 2 in
    let shift_val = field bits 7 5 in
    if shift_type == 3 && shift_val == 0
    then rm ∷ codes "RRX" ∷ []
    else if shift_val == 0
    then rm ∷ []
    else rm ∷ (name_of shift_types shift_type ++ (codes " #" ++ decimal shift_val)) ∷ []

-- The loop of RegisterList at `i`: the start of the run that is open, and the runs before it.
abbrev pub Runs : Type 0
Runs = Option ℕ × List (ℕ × ℕ)

unfoldable pub scan_bit : ℕ → ℕ → Runs → Runs
scan_bit bits i (none, runs) = if flag bits i then (some i, runs) else (none, runs)
scan_bit bits i (some on, runs) =
    if flag bits i then (some on, runs) else (none, runs ++ ((on, i) ∷ []))

-- for i in range(count)
unfoldable pub scan : ℕ → ℕ → Runs
unfolding scan_bit
scan bits zero = (none, [])
scan bits (suc i) = scan_bit bits i (scan bits i)

-- `if on:` holds for neither None nor 0.
unfoldable pub close_run : Runs → List (ℕ × ℕ)
close_run (none, runs) = runs
close_run (some zero, runs) = runs
close_run (some (suc on), runs) = runs ++ ((suc on, 16) ∷ [])

unfoldable pub register_runs : ℕ → List (ℕ × ℕ)
unfolding scan close_run
register_runs bits = close_run (scan bits 16)

unfoldable pub run_text : List (ℕ × ℕ) → List Text
unfolding range
run_text [] = []
run_text ((start, end) ∷ runs) =
    (if leb (end - start) 2
      then map (name_of register_names) (range start (end - start))
      else (name_of register_names start ++ codes " - " ++ name_of register_names (end - 1)) ∷ [])
    ++ run_text runs

unfoldable pub register_list : ℕ → List Text
unfolding register_runs run_text
register_list bits = (b'{' ∷ (join b',' (run_text (register_runs bits)) ++ codes "}")) ∷ []

-- The value of an immediate operand: right_rotate is (word >> 7) & 0x1e, an even number.
unfoldable pub immediate_value : ℕ → ℕ
immediate_value word =
    let right_rotate = 2 * field word 8 4 in
    let low = field word 0 8 in
    if right_rotate == 0
    then low
    else bit_or (low * 2 ^ (32 - right_rotate)) (low / 2 ^ right_rotate) % 2 ^ 32
