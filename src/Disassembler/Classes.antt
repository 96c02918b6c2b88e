-- ===== src/Disassembler/Classes.antt =====
-- disassemble.py, InstructionFactory: the tests decode the words as the processor's table of
-- encodings does.
use armv.Common.{
  ℕ, ◌+◌, ◌*◌, ◌/◌, ◌^◌, bit_and, ◌≡◌, ◌∙◌, arith, Bool, true, false, ◌&&◌, List, [], ◌∷◌, Option,
  none, some, ◌==◌, if◌then◌else◌, Bool-cases, inl, inr,
}
use armv.Common.Bits.{bit_and-add, bit_and_ones}
use armv.Disassembler.Fields.{field}
use armv.Disassembler.Factory.{Class, class_of}

-- A field of a word: its lowest bit, its width and its value.
abbrev Fixed : Type 0
Fixed = ℕ × ℕ × ℕ

abbrev fits : ℕ → List Fixed → Bool
fits word [] = true
fits word ((low, width, value) ∷ rest) = field word low width == value && fits word rest

-- The encodings of the processor by the bits that they fix; multiplications and swaps lie in the
-- space of data processing.
abbrev pub encodings : List (Class × List Fixed)
encodings =
    (Class.multiply, (22, 6, 0) ∷ (4, 4, 9) ∷ [])
    ∷ (Class.swap, (23, 5, 2) ∷ (20, 2, 0) ∷ (4, 8, 9) ∷ [])
    ∷ (Class.alu, (26, 2, 0) ∷ [])
    ∷ (Class.single_data_transfer, (26, 2, 1) ∷ [])
    ∷ (Class.multi_data_transfer, (25, 3, 4) ∷ [])
    ∷ (Class.branch, (25, 3, 5) ∷ [])
    ∷ (Class.coprocessor_data_transfer, (25, 3, 6) ∷ [])
    ∷ (Class.coprocessor_data_operation, (24, 4, 14) ∷ (4, 1, 0) ∷ [])
    ∷ (Class.coprocessor_register_transfer, (24, 4, 14) ∷ (4, 1, 1) ∷ [])
    ∷ (Class.software_interrupt, (24, 4, 15) ∷ [])
    ∷ []

abbrev pub decode : ℕ → List (Class × List Fixed) → Option Class
decode word [] = none
decode word ((c, fixed) ∷ rest) = if fits word fixed then some c else decode word rest

multiply_mask :
    (word : ℕ)
    → bit_and word 0x0fc000f0 ≡ field word 22 6 * 2 ^ 22 + field word 4 4 * 2 ^ 4 + bit_and word 0
multiply_mask word = omega (
  arith,
  bit_and-add 22 word 63 0xf0 (omega arith),
  bit_and_ones 6 (word / 2 ^ 22),
  bit_and-add 4 word 15 0 (omega arith),
  bit_and_ones 4 (word / 2 ^ 4),
)

swap_mask :
    (word : ℕ)
    → bit_and word 0x0fb00ff0
      ≡ field word 23 5 * 2 ^ 23
        + field word 20 2 * 2 ^ 20
        + field word 4 8 * 2 ^ 4
        + bit_and word 0
swap_mask word = omega (
  arith,
  bit_and-add 23 word 31 0x300ff0 (omega arith),
  bit_and_ones 5 (word / 2 ^ 23),
  bit_and-add 20 word 3 0xff0 (omega arith),
  bit_and_ones 2 (word / 2 ^ 20),
  bit_and-add 4 word 255 0 (omega arith),
  bit_and_ones 8 (word / 2 ^ 4),
)

no_mask : (word : ℕ) → bit_and word 0 ≡ 0
no_mask word = bit_and_ones 0 word ∙ omega arith

multiply_test :
    (word : ℕ) → (bit_and word 0x0fc000f0 == 0x90) ≡ fits word ((22, 6, 0) ∷ (4, 4, 9) ∷ [])
multiply_test word = ground (arith, multiply_mask word, no_mask word)

swap_test :
    (word : ℕ)
    → (bit_and word 0x0fb00ff0 == 0x01000090) ≡ fits word ((23, 5, 2) ∷ (20, 2, 0) ∷ (4, 8, 9) ∷ [])
swap_test word = ground (arith, swap_mask word, no_mask word)

-- A word that is none of data processing has no bits 27 and 26 of 0.
high :
    (word : ℕ)
    → (field word 26 2 == 0) ≡ false
    → ((field word 22 6 == 0) ≡ false) × ((field word 23 5 == 2) ≡ false)
high word e = (ground arith, ground arith)

-- Every word is decoded as the first encoding of the processor's table that it fits.
pub class_of-decode : (word : ℕ) → decode word encodings ≡ some (class_of word)
unfolding class_of
class_of-decode word =
    rw (multiply_test word, swap_test word)
      (elim (Bool-cases (field word 26 2 == 0)) [
        | inl e ↦ ground arith
        | inr e ↦
            rw (e, (high word e).0, (high word e).1)
              (elim (Bool-cases (field word 26 2 == 1)) [
                | inl f ↦ ground arith
                | inr f ↦ elim (Bool-cases (field word 26 2 == 2)) [
                  | inl g ↦ ground arith
                  | inr g ↦ ground arith
                ]
              ])
      ])
