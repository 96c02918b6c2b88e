-- ===== src/Disassembler/Rotation.antt =====
-- disassemble.py, ALUInstruction: the immediate operand is the rotated byte.
use armv.Common.{
  ℕ, ◌+◌, ◌*◌, ◌-◌, ◌/◌, ◌%◌, ◌^◌, ◌<◌, ◌≡◌, refl, arith, Bool, true, ◌&&◌, ltb, ltb→lt, ◌==◌,
  ==_iff,
}
use armv.Common.Bits.{all_below, all_below_sound}
use armv.Disassembler.Fields.{field}
use armv.Disassembler.Operands.{immediate_value}

-- A byte as a word, rotated to the right by `places`.
abbrev pub rotate_right : ℕ → ℕ → ℕ
rotate_right byte places = byte / 2 ^ places + byte % 2 ^ places * 2 ^ (32 - places)

is_rotated : ℕ → Bool
unfolding immediate_value
is_rotated k =
    (immediate_value k == rotate_right (k % 256) (2 * (k / 256)))
    && ltb (immediate_value k) (2 ^ 32)

rotations : all_below 4096 is_rotated ≡ true
unfolding all_below is_rotated
rotations = refl

-- Only the lowest twelve bits count.
immediate_value-mod : (word : ℕ) → immediate_value (word % 4096) ≡ immediate_value word
unfolding immediate_value
immediate_value-mod word = rw (places, byte)
  where
    places : field (word % 4096) 8 4 ≡ field word 8 4
    places = omega arith

    byte : field (word % 4096) 0 8 ≡ field word 0 8
    byte = omega arith

and_both : {a b : Bool} → (a && b) ≡ true → (a ≡ true) × (b ≡ true)
and_both {a} {b} h = ground arith

rotated :
    (k : ℕ)
    → k < 4096
    → (immediate_value k ≡ rotate_right (k % 256) (2 * (k / 256))) × (immediate_value k < 2 ^ 32)
unfolding is_rotated
rotated k l =
    let (same, small) = and_both (all_below_sound 4096 k is_rotated rotations l) in
    ((==_iff _ _).0 same, ltb→lt _ _ small)

-- The immediate operand that is shown is the lowest byte of the word, rotated to the right in 32 bits
-- by twice the four bits above it.
pub immediate_value-rotate_right :
    (word : ℕ)
    → (immediate_value word ≡ rotate_right (field word 0 8) (2 * field word 8 4))
      × (immediate_value word < 2 ^ 32)
immediate_value-rotate_right word =
    rw (← immediate_value-mod word) (rw (byte, places) (rotated (word % 4096) (omega arith)))
  where
    byte : field word 0 8 ≡ word % 4096 % 256
    byte = omega arith

    places : field word 8 4 ≡ word % 4096 / 256
    places = omega arith
