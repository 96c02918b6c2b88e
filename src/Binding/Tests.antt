-- ===== src/Binding/Tests.antt =====
-- Tests of the model of armv2.pyx, and the properties at concrete inputs.
use armv.Common.{
  ℕ, ◌+◌, ◌<◌, ◌≤◌, ◌≡◌, ◌⊎◌, refl, arith, List, [], ◌∷◌, none, some, ok, raised, type_error,
  access_error, index_error, length,
}
use armv.Binding.Words.{Page, Cpu, setword}
use armv.Binding.Bytes.{get_slice, set_slice, setbyte}
use armv.Binding.Registers.{core_pc, set_registers}
use armv.Binding.Ram.{byte_at}
use armv.Binding.Slices.{get_slice-set_slice}

abbrev blank_page : Page ℕ
blank_page = record {
  read_callback = none;
  write_callback = none;
  mapped_start = none;
  memory = some (λ i. 0);
}

-- A processor whose pages are all plain memory, and one without pages.
abbrev blank_cpu : Cpu ℕ
blank_cpu = record { page_tables = λ p. some blank_page; devices = 0 }

abbrev empty_cpu : Cpu ℕ
empty_cpu = record { page_tables = λ p. none; devices = 0 }

abbrev three_bytes : List ℕ
three_bytes = 1 ∷ 255 ∷ 3 ∷ []

get_slice-set_slice_example :
    (after : Cpu ℕ) × (set_slice 0xffe (0xffe + length three_bytes) three_bytes blank_cpu
      ≡ (ok tt, after))
    × (get_slice 0xffe (0xffe + length three_bytes) after ≡ (three_bytes, after))
    × ((a : ℕ)
        → (a < 0xffe) ⊎ (0xffe + length three_bytes ≤ a)
        → byte_at after a ≡ byte_at blank_cpu a)
get_slice-set_slice_example =
    get_slice-set_slice three_bytes 0xffe blank_cpu (omega arith) (λ a. omega arith) (omega arith)
      (λ a l m. (omega arith, refl))

-- A slice that is longer than its values is written as far as they go.
too_few : (set_slice 4 8 three_bytes blank_cpu).0 ≡ raised type_error
unfolding set_slice setbyte
too_few = refl

no_page : (setword 4 1 empty_cpu).0 ≡ raised access_error
unfolding setword
no_page = refl

-- The flags of a value for pc reach the core's program counter.
flags_in_pc : core_pc 0x0c008000 ≡ 0x0c007ffc
flags_in_pc = refl

-- A slice of registers is assigned the values of their own numbers.
later_registers :
    (set_registers 1 3 (10 ∷ 11 ∷ []) (record { effective = λ i. 0; pc = 0 })) ≡ raised index_error
unfolding set_registers
later_registers = refl
