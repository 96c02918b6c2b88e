-- ===== src/Disassembler/Instructions.antt =====
-- disassemble.py: class Instruction, and the classes of instructions without a memory operand.
use armv.Common.{ℕ, Bool, false, ◌&&◌, ◌||◌, List, [], ◌∷◌, ◌++◌, leb, ◌==◌, if◌then◌else◌}
use armv.Common.Text.{Text, codes}
use armv.Gdb.Hex.{hex}
use armv.Disassembler.Fields.{
  field, flag, register_names, conditions, opcodes, name_of, decimal, ljust, comma_join,
}
use armv.Disassembler.Operands.{operand_shift, immediate_value}

pub record Instruction : Type 0 where
  pub word : ℕ
  pub mneumonic : Text
  pub args : List Text
  pub sets_lr : Bool

abbrev pub instruction : ℕ → Text → List Text → Instruction
instruction word mneumonic args = record {
  word = word;
  mneumonic = mneumonic;
  args = args;
  sets_lr = false;
}

unfoldable pub to_string : Instruction → Text
unfolding ljust comma_join
to_string i =
    ljust 4 (i.mneumonic ++ name_of conditions (field i.word 28 4)) ++ (b' ' ∷ comma_join i.args)

abbrev pub register : ℕ → ℕ → Text
register word low = name_of register_names (field word low 4)

unfoldable pub alu_instruction : ℕ → Instruction
unfolding immediate_value operand_shift hex
alu_instruction word =
    let opcode = field word 21 4 in
    let rd = register word 12 in
    let op1 = register word 16 in
    let op2 =
      (if flag word 25
        then (codes "#0x" ++ hex (immediate_value word)) ∷ []
        else operand_shift (field word 0 12) (flag word 4)) in
    instruction word (name_of opcodes opcode) (
      if opcode == 13 || opcode == 15
      then rd ∷ op2
      else if leb 8 opcode && leb opcode 11
      then op1 ∷ op2
      else rd ∷ op1 ∷ op2)

unfoldable pub multiply_instruction : ℕ → Instruction
multiply_instruction word =
    let args = register word 16 ∷ register word 0 ∷ register word 8 ∷ [] in
    if flag word 21
    then instruction word (codes "MLA") (args ++ (register word 12 ∷ []))
    else instruction word (codes "MUL") args

unfoldable pub swap_instruction : ℕ → Instruction
swap_instruction word =
    instruction word (if flag word 22 then codes "SWPB" else codes "SWP")
      (register word 12 ∷ register word 0 ∷ (b'[' ∷ (register word 16 ++ codes "]")) ∷ [])

unfoldable pub software_interrupt_instruction : ℕ → Instruction
unfolding hex
software_interrupt_instruction word =
    instruction word (codes "SWI") ((codes "#0x" ++ hex (field word 0 24)) ∷ [])

unfoldable pub coprocessor_data_transfer_instruction : ℕ → Instruction
coprocessor_data_transfer_instruction word = instruction word (codes "UNK") []

abbrev pub coprocessor_args : ℕ → List Text
coprocessor_args word = hex (field word 8 4) ∷ (b'#' ∷ hex (field word 20 4)) ∷ []

abbrev pub coprocessor_register : ℕ → ℕ → Text
coprocessor_register word low = codes "CR" ++ decimal (field word low 4)

unfoldable pub coprocessor_register_transfer_instruction : ℕ → Instruction
unfolding hex decimal
coprocessor_register_transfer_instruction word =
    instruction word (if flag word 20 then codes "MRC" else codes "MCR") (
      coprocessor_args word
      ++ ((b'R' ∷ decimal (field word 12 4))
          ∷ coprocessor_register word 16
          ∷ coprocessor_register word 0
          ∷ []))

unfoldable pub coprocessor_data_operation_instruction : ℕ → Instruction
unfolding hex decimal
coprocessor_data_operation_instruction word = instruction word (codes "CDP") (
    coprocessor_args word
    ++ (coprocessor_register word 12
        ∷ coprocessor_register word 16
        ∷ coprocessor_register word 0
        ∷ []))
