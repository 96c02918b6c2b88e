-- ===== src/Disassembler/Tests.antt =====
-- Tests of the model of disassemble.py, and the properties at concrete inputs.
use armv.Common.{
  ℕ, ◌≡◌, ◌/◌, ◌+◌, ◌-◌, refl, arith, List, [], ◌∷◌, none, some, Result, ok, raised,
  attribute_error, type_error, ◌>>=◌,
}
use armv.Common.Int.{ℤ}
use armv.Common.Text.{Text, codes}
use armv.Disassembler.Instructions.{Instruction, to_string, alu_instruction}
use armv.Disassembler.Transfers.{single_data_transfer_instruction, multi_data_transfer_instruction}
use armv.Disassembler.Branches.{branch_instruction, branch_target, jump}
use armv.Disassembler.Operands.{register_list, register_runs}
use armv.Disassembler.Factory.{instruction_factory, class_of}
use armv.Disassembler.Classes.{class_of-decode, decode, encodings}
use armv.Disassembler.Registers.{register_runs-members, members, set_bits}
use armv.Disassembler.Memory.{disassemble, disassemble_lem, Shows, word_at}

abbrev nothing : ℤ → Result ℕ
nothing addr = raised attribute_error

abbrev shown_at : ℕ → ℕ → Result Text
shown_at addr word = instruction_factory nothing none addr word >>= λ i. ok (to_string i)

mov_text : shown_at 0 0xe3a00401 ≡ ok (codes "MOV  r0, #0x1000000")
unfolding instruction_factory to_string alu_instruction
mov_text = refl

add_text : shown_at 0 0xe0812103 ≡ ok (codes "ADD  r2, r1, r3, LSL #2")
unfolding instruction_factory to_string alu_instruction
add_text = refl

call_text : shown_at 0x100 0xeb000002 ≡ ok (codes "BL   #0x110")
unfolding instruction_factory to_string branch_instruction
call_text = refl

push_text : shown_at 0 0xe92d401f ≡ ok (codes "PUSH {r0 - r4,lr}")
unfolding instruction_factory to_string multi_data_transfer_instruction
push_text = refl

load_text : shown_at 0 0xe5912004 ≡ ok (codes "LDR  r2, [r1, #0x4]")
unfolding instruction_factory to_string single_data_transfer_instruction
load_text = refl

-- A load below its base, with write-back.
load_below_text : shown_at 0 0xe5312004 ≡ ok (codes "LDR  r2!, [r1, #0x-4]")
unfolding instruction_factory to_string single_data_transfer_instruction
load_below_text = refl

-- Without write-back the base of a block transfer is missing.
block_text : shown_at 0 0xe8910006 ≡ ok (codes "LDMIA , {r1,r2}")
unfolding instruction_factory to_string multi_data_transfer_instruction
block_text = refl

-- All registers are shown as none.
all_registers : register_list 0xffff ≡ codes "{}" ∷ []
unfolding register_list
all_registers = refl

class_of-decode_example : decode 0xe0010392 encodings ≡ some (class_of 0xe0010392)
class_of-decode_example = class_of-decode 0xe0010392

register_runs-members_example : members (register_runs 0x401f) ≡ set_bits 0x401f 16
register_runs-members_example = register_runs-members 0x401f 5 (omega arith) refl

-- A branch to itself.
branch_back : branch_target 0x8000 0xeafffffe ≡ jump 0x8000 0xeafffffe
unfolding branch_target
branch_back = refl

abbrev zero_words : ℤ → Result ℕ
zero_words addr = ok 0

disassemble_lem_example :
    (is : List Instruction) × (disassemble zero_words none [] 0x100 0x110 ≡ ok is)
    × Shows zero_words (λ addr. 0) ((0x110 - 0x100 + 3) / 4) 0x100 is
disassemble_lem_example = disassemble_lem (λ addr. 0) zero_words (λ addr. refl) 0x100 0x110 refl

-- From an address that is not aligned the listing raises an exception.
unaligned_start : disassemble zero_words none [] 0x101 0x110 ≡ raised type_error
unfolding disassemble
unaligned_start = refl

-- At a breakpoint the debugger's True is shown as the word 1.
breakpoint_word : word_at zero_words none ((0x100, 1) ∷ []) 0x100 ≡ ok 1
unfolding word_at
breakpoint_word = refl
