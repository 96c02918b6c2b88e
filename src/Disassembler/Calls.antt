-- ===== src/Disassembler/Calls.antt =====
-- disassemble.py: which words set the link register.
use armv.Common.{
  ℕ, bit_and, ◌≡◌, refl, ap, ◌∙◌, arith, Bool, true, false, not, ◌&&◌, none, Result, ok, ◌==◌,
  if◌then◌else◌, ◌>>=◌,
}
use armv.Common.Int.{ℤ}
use armv.Disassembler.Fields.{field, flag}
use armv.Disassembler.Instructions.{
  alu_instruction, multiply_instruction, swap_instruction, software_interrupt_instruction,
  coprocessor_data_transfer_instruction, coprocessor_register_transfer_instruction,
  coprocessor_data_operation_instruction,
}
use armv.Disassembler.Transfers.{single_data_transfer_instruction, multi_data_transfer_instruction}
use armv.Disassembler.Branches.{branch_instruction}
use armv.Disassembler.Factory.{Class, class_of, instruction_of, instruction_factory, sets_lr}

abbrev is_branch : Class → Bool
is_branch Class.branch = true
is_branch _ = false

instruction_of-sets_lr :
    (memw : ℤ → Result ℕ) (addr word : ℕ) (c : Class)
    → (instruction_of memw none addr word c >>= λ i. ok i.sets_lr)
      ≡ ok (is_branch c && flag word 24)
unfolding alu_instruction multiply_instruction swap_instruction software_interrupt_instruction
    coprocessor_data_transfer_instruction coprocessor_register_transfer_instruction
    coprocessor_data_operation_instruction single_data_transfer_instruction
    multi_data_transfer_instruction branch_instruction
instruction_of-sets_lr memw addr word Class.multiply = ground arith
instruction_of-sets_lr memw addr word Class.swap = refl
instruction_of-sets_lr memw addr word Class.alu = refl
instruction_of-sets_lr memw addr word Class.single_data_transfer = refl
instruction_of-sets_lr memw addr word Class.branch = refl
instruction_of-sets_lr memw addr word Class.multi_data_transfer = ground arith
instruction_of-sets_lr memw addr word Class.software_interrupt = refl
instruction_of-sets_lr memw addr word Class.coprocessor_data_transfer = refl
instruction_of-sets_lr memw addr word Class.coprocessor_register_transfer = refl
instruction_of-sets_lr memw addr word Class.coprocessor_data_operation = refl

abbrev tests : (t0 m w t1 t2 b s r o : Bool) → Class
tests t0 m w t1 t2 b s r o =
    if t0
    then if m then Class.multiply else if w then Class.swap else Class.alu
    else if t1
    then Class.single_data_transfer
    else if t2
    then if b then Class.branch else Class.multi_data_transfer
    else if s
    then Class.software_interrupt
    else if r
    then if o then Class.coprocessor_register_transfer else Class.coprocessor_data_operation
    else Class.coprocessor_data_transfer

tests-is_branch :
    (t0 m w t1 t2 b s r o : Bool)
    → is_branch (tests t0 m w t1 t2 b s r o) ≡ (not t0 && (not t1 && (t2 && b)))
tests-is_branch true true w t1 t2 b s r o = refl
tests-is_branch true false true t1 t2 b s r o = refl
tests-is_branch true false false t1 t2 b s r o = refl
tests-is_branch false m w true t2 b s r o = refl
tests-is_branch false m w false true true s r o = refl
tests-is_branch false m w false true false s r o = refl
tests-is_branch false m w false false b true r o = refl
tests-is_branch false m w false false b false true true = refl
tests-is_branch false m w false false b false true false = refl
tests-is_branch false m w false false b false false o = refl

class_of-is_branch :
    (word : ℕ)
    → is_branch (class_of word) ≡ (
        not (field word 26 2 == 0)
        && (not (field word 26 2 == 1) && (field word 26 2 == 2 && flag word 25)))
unfolding class_of
class_of-is_branch word =
    tests-is_branch (field word 26 2 == 0) (bit_and word 0x0fc000f0 == 0x90)
      (bit_and word 0x0fb00ff0 == 0x01000090) (field word 26 2 == 1) (field word 26 2 == 2)
      (flag word 25) (field word 24 4 == 15) (flag word 25) (flag word 4)

call_bits :
    (word : ℕ)
    → ((not (field word 26 2 == 0)
          && (not (field word 26 2 == 1) && (field word 26 2 == 2 && flag word 25)))
        && flag word 24)
      ≡ (field word 24 4 == 11)
call_bits word = ground arith

-- Exactly the words whose bits 27 to 24 are 1011, those of BL, set the link register, and no word
-- raises an exception.
pub sets_lr_lem : (word : ℕ) → sets_lr word ≡ ok (field word 24 4 == 11)
unfolding sets_lr instruction_factory
sets_lr_lem word =
    instruction_of-sets_lr _ 0 word (class_of word)
    ∙ ap ok (ap (λ b. b && flag word 24) (class_of-is_branch word) ∙ call_bits word)
