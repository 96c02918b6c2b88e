-- ===== src/Disassembler/Factory.antt =====
-- disassemble.py: InstructionFactory and sets_lr.
use armv.Common.{
  ℕ, bit_and, Bool, List, Option, none, Result, ok, raised, attribute_error, ◌==◌, if◌then◌else◌,
  ◌>>=◌,
}
use armv.Common.Text.{Text}
use armv.Common.Int.{ℤ}
use armv.Disassembler.Fields.{field, flag}
use armv.Disassembler.Instructions.{
  Instruction, alu_instruction, multiply_instruction, swap_instruction,
  software_interrupt_instruction, coprocessor_data_transfer_instruction,
  coprocessor_register_transfer_instruction, coprocessor_data_operation_instruction,
}
use armv.Disassembler.Transfers.{single_data_transfer_instruction, multi_data_transfer_instruction}
use armv.Disassembler.Branches.{branch_instruction}

pub data Class : Type 0 where
  multiply swap alu single_data_transfer branch multi_data_transfer software_interrupt
        coprocessor_data_transfer coprocessor_register_transfer coprocessor_data_operation :
      Class

-- The tests of InstructionFactory.
unfoldable pub class_of : ℕ → Class
class_of word =
    let tag = field word 26 2 in
    if tag == 0
    then if bit_and word 0x0fc000f0 == 0x90
      then multiply
      else if bit_and word 0x0fb00ff0 == 0x01000090
      then swap
      else alu
    else if tag == 1
    then single_data_transfer
    else if tag == 2
    then if flag word 25 then branch else multi_data_transfer
    else if field word 24 4 == 15
    then software_interrupt
    else if flag word 25
    then if flag word 4 then coprocessor_register_transfer else coprocessor_data_operation
    else coprocessor_data_transfer

abbrev pub instruction_of :
    (ℤ → Result ℕ) → Option (List (ℕ × Text)) → ℕ → ℕ → Class → Result Instruction
instruction_of memw symbols addr word multiply = ok (multiply_instruction word)
instruction_of memw symbols addr word swap = ok (swap_instruction word)
instruction_of memw symbols addr word alu = ok (alu_instruction word)
instruction_of memw symbols addr word single_data_transfer =
    ok (single_data_transfer_instruction memw addr word)
instruction_of memw symbols addr word branch = branch_instruction symbols addr word
instruction_of memw symbols addr word multi_data_transfer =
    ok (multi_data_transfer_instruction word)
instruction_of memw symbols addr word software_interrupt = ok (software_interrupt_instruction word)
instruction_of memw symbols addr word coprocessor_data_transfer =
    ok (coprocessor_data_transfer_instruction word)
instruction_of memw symbols addr word coprocessor_register_transfer =
    ok (coprocessor_register_transfer_instruction word)
instruction_of memw symbols addr word coprocessor_data_operation =
    ok (coprocessor_data_operation_instruction word)

unfoldable pub instruction_factory :
    (ℤ → Result ℕ) → Option (List (ℕ × Text)) → ℕ → ℕ → Result Instruction
unfolding class_of
instruction_factory memw symbols addr word = instruction_of memw symbols addr word (class_of word)

-- Without a processor and symbols.
unfoldable pub sets_lr : ℕ → Result Bool
unfolding instruction_factory
sets_lr word =
    instruction_factory (λ addr. raised attribute_error) none 0 word >>= λ i. ok i.sets_lr
