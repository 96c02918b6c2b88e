-- ===== src/Linker/Tests.antt =====
-- create.py on a small program, and the theorems at concrete inputs.
use armv.Common.{
  ℕ, ◌+◌, ◌-◌, ◌≡◌, ◌↔◌, ◌⊎◌, ◌%◌, inl, refl, true, false, List, [], ◌∷◌, ◌++◌, ok, raised,
  struct_error, type_error, arith, get_or, All,
}
use mathlib.Core.List.{Perm}
use armv.Common.Bytes.{Bytes, be32}
use armv.Common.Text.{codes}
use armv.Custom.Symbols.{get_symbol_and_offset}
use armv.Custom.Symbols.Lookup.{Precedes, Finds}
use armv.Debugger.Symbols.{symbols_addr, symbol_bytes, load_symbols}
use armv.Debugger.Symbols.Loaded.{Holds, wire}
use armv.Disassembler.Operands.{immediate_value}
use armv.Linker.Relocation.{
  Segment, Symbol, addr_to_offset, absolute_value, slot_value, process_relocation, relocation_loop,
  relocate, relocate_absolute, le32, unpack_le, pack_le,
}
use armv.Linker.Relocation.Fixes.{Fix, rel_bytes, IsResolved}
use armv.Linker.Relocation.Resolved.{IsLinked, process_relocation-IsLinked}
use armv.Linker.Names.{decode_immediate, plt_symbols}
use armv.Linker.Names.Immediates.{decode_immediate-immediate_value}
use armv.Linker.Image.{sort_symbols, without_bx}
use armv.Linker.Image.Sorting.{get_symbol_and_offset-sort_symbols}

-- A file with two words, of which a section behind them patches the first by a symbol's value and
-- fills the second with the address of a function of the system.
abbrev text_segment : List Segment
text_segment = record { is_load = true; p_offset = 0; p_vaddr = 0x1000; p_filesz = 8 } ∷ []

abbrev program_symbols : List Symbol
program_symbols = (0x1004, codes "main") ∷ (0, codes "puts") ∷ []

abbrev os_symbols : List Symbol
os_symbols = (0x20, codes "puts") ∷ []

abbrev two_fixes : List Fix
two_fixes =
    record { addr = 0x1000; info = 2; offset = 0; symbol_value = 0x1004; adds = true }
    ∷ record { addr = 0x1004; info = 256 + 0x16; offset = 4; symbol_value = 0x20; adds = false }
    ∷ []

abbrev program_bytes : Bytes
program_bytes = 8 ∷ 0 ∷ 0 ∷ 0 ∷ 0 ∷ 0 ∷ 0 ∷ 0 ∷ rel_bytes two_fixes

two_fixes-IsResolved :
    All (IsResolved text_segment program_symbols os_symbols program_bytes) two_fixes
unfolding addr_to_offset absolute_value slot_value
two_fixes-IsResolved = (
  record {
    fits = (omega arith, omega arith);
    placed = refl;
    inside = omega arith;
    kind = (refl, ((0x1004, codes "main"), refl, refl));
    holds = omega arith;
  },
  (
    record {
      fits = (omega arith, omega arith);
      placed = refl;
      inside = omega arith;
      kind = (refl, ((0, codes "puts"), refl, refl), λ e. omega arith);
      holds = omega arith;
    },
    tt,
  ),
)

process_relocation-IsLinked_example :
    (out : Bytes) × (process_relocation text_segment program_symbols os_symbols 8 16 program_bytes
      ≡ ok out)
    × IsLinked text_segment program_symbols os_symbols program_bytes two_fixes out
process_relocation-IsLinked_example =
    process_relocation-IsLinked text_segment program_symbols os_symbols 8 program_bytes two_fixes
      refl two_fixes-IsResolved ((inl (omega arith), tt), (tt, tt))

-- A negative number that is added to a symbol's value overflows the word.
overflow :
    process_relocation text_segment program_symbols os_symbols 4 8 (
      le32 0xFFFFFFFC
      ++ rel_bytes
          (record { addr = 0x1000; info = 2; offset = 0; symbol_value = 0; adds = true } ∷ []))
    ≡ raised struct_error
unfolding process_relocation relocation_loop relocate relocate_absolute addr_to_offset
    absolute_value unpack_le pack_le
overflow = refl

-- An address that no segment holds.
nowhere :
    process_relocation [] program_symbols os_symbols 0 8 (
      rel_bytes
        (record { addr = 0x1000; info = 2; offset = 0; symbol_value = 0; adds = true } ∷ []))
    ≡ raised type_error
unfolding process_relocation relocation_loop relocate relocate_absolute addr_to_offset
    absolute_value unpack_le
nowhere = refl

decode_immediate-immediate_value_example :
    (decode_immediate 0xA10 ≡ immediate_value 0xA10) ↔ (0xA10 % 256 ≡ 0)
decode_immediate-immediate_value_example = decode_immediate-immediate_value 0xA10 (omega arith)

-- ADD R12, PC, #0; LDR PC, [R12, #0x10]: the function behind the pointer at the sum.
plt_of_puts :
    plt_symbols 0x8000 (0xE28FC600 ∷ 0xE5BCF010 ∷ []) ((0x8018, codes "puts") ∷ [])
    ≡ ok ((0x8000, codes "puts") ∷ [])
unfolding plt_symbols
plt_of_puts = refl

return_replaced :
    without_bx (0x1E ∷ 0xFF ∷ 0x2F ∷ 0xE1 ∷ 7 ∷ []) ≡ 0x0E ∷ 0xF0 ∷ 0xA0 ∷ 0xE1 ∷ 7 ∷ []
unfolding without_bx
return_replaced = refl

abbrev unsorted : List Symbol
unsorted = (0x9000, codes "b") ∷ (0x8000, codes "a") ∷ []

unsorted-sorted : sort_symbols unsorted ≡ (0x8000, codes "a") ∷ (0x9000, codes "b") ∷ []
unfolding sort_symbols
unsorted-sorted = refl

abbrev loaded_memory : ℕ → ℕ
loaded_memory a =
    get_or (wire ((0x8000, codes "a") ∷ (0x9000, codes "b") ∷ [])) (a - symbols_addr) 0

loaded_memory-Holds : Holds loaded_memory symbols_addr (wire (sort_symbols unsorted) ++ be32 0)
loaded_memory-Holds = rw unsorted-sorted (omega arith)

get_symbol_and_offset-sort_symbols_example :
    (symbol_bytes (sort_symbols unsorted) ≡ ok (wire (sort_symbols unsorted)))
    × ((list : List Symbol) × (load_symbols loaded_memory ≡ ok list)
        × Perm list unsorted
        × (Precedes list 0x8004 (get_symbol_and_offset list 0x8004)
            ⊎ Finds list 0x8004 (get_symbol_and_offset list 0x8004)))
get_symbol_and_offset-sort_symbols_example =
    get_symbol_and_offset-sort_symbols loaded_memory (0x9000, codes "b") ((0x8000, codes "a") ∷ [])
      0x8004 (omega arith) loaded_memory-Holds
