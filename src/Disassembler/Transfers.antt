-- ===== src/Disassembler/Transfers.antt =====
-- disassemble.py: SingleDataTransferInstruction and MultiDataTransferInstruction.
use armv.Common.{
  ℕ, ◌+◌, Bool, true, false, not, ◌&&◌, List, [], ◌∷◌, ◌++◌, Result, ok, raised, ◌==◌,
  if◌then◌else◌,
}
use armv.Common.Text.{Text, codes}
use armv.Common.Int.{ℤ, pos, negsuc, sub_ℕ}
use armv.Gdb.Hex.{hex, negated}
use armv.Disassembler.Fields.{field, flag, hex_int}
use armv.Disassembler.Operands.{operand_shift, register_list}
use armv.Disassembler.Instructions.{Instruction, instruction, register}

-- The items of the list with a text before the first, and with one behind the last.
abbrev pub before_first : Text → List Text → List Text
before_first t [] = []
before_first t (w ∷ ws) = (t ++ w) ∷ ws

abbrev pub behind_first : Text → List Text → List Text
behind_first t [] = []
behind_first t (w ∷ ws) = (w ++ t) ∷ ws

abbrev pub behind_last : Text → List Text → List Text
behind_last t [] = []
behind_last t (w ∷ []) = (w ++ t) ∷ []
behind_last t (w ∷ v ∷ ws) = w ∷ behind_last t (v ∷ ws)

-- addr + 8 + offset
abbrev pub add_offset : ℕ → ℤ → ℤ
add_offset addr (pos n) = pos (addr + n)
add_offset addr (negsuc n) = sub_ℕ addr (n + 1)

-- `except: val = 0`
abbrev pub or_zero : Result ℕ → ℕ
or_zero (ok val) = val
or_zero (raised e) = 0

-- `memw` reads a word from the memory of the processor, and raises where there is no processor.
unfoldable pub single_data_transfer_instruction : (ℤ → Result ℕ) → ℕ → ℕ → Instruction
unfolding operand_shift hex_int hex
single_data_transfer_instruction memw addr word =
    let offset = (if flag word 23 then pos (field word 0 12) else negated (field word 0 12)) in
    let op2 =
      (if flag word 25
        then operand_shift (field word 0 12) false
        else (codes "#0x" ++ hex_int offset) ∷ []) in
    let mneumonic =
      (if flag word 20 then codes "LDR" else codes "STR")
      ++ (if flag word 22 then codes "B" else []) in
    let rd = register word 12 ++ (if flag word 21 then codes "!" else []) in
    let with_base = before_first (codes "[") (register word 16 ∷ op2) in
    instruction word mneumonic (
      if field word 16 4 == 15 && not (flag word 25)
      then rd ∷ (codes "=0x" ++ hex (or_zero (memw (add_offset (addr + 8) offset)))) ∷ []
      else rd
        ∷ (if flag word 24
            then behind_last (codes "]") with_base
            else behind_first (codes "]") with_base))

abbrev pub is_text : Text → Text → Bool
is_text [] [] = true
is_text (c ∷ cs) (d ∷ ds) = c == d && is_text cs ds
is_text _ _ = false

-- The conditional expression takes in the whole sum: without write-back `rn` is empty.
unfoldable pub multi_data_transfer_instruction : ℕ → Instruction
unfolding register_list
multi_data_transfer_instruction word =
    let mneumonic =
      (if flag word 20 then codes "LDM" else codes "STM")
      ++ (if flag word 23 then codes "I" else codes "D")
      ++ (if flag word 24 then codes "B" else codes "A") in
    let rn = (if flag word 21 then register word 16 ++ codes "!" else []) in
    let list = register_list (field word 0 16) in
    if is_text rn (codes "sp!") && is_text mneumonic (codes "LDMIA")
    then instruction word (codes "POP") list
    else if is_text rn (codes "sp!") && is_text mneumonic (codes "STMDB")
    then instruction word (codes "PUSH") list
    else instruction word mneumonic (rn ∷ list)
