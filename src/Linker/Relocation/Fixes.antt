-- ===== src/Linker/Relocation/Fixes.antt =====
-- create.py: one entry that can be resolved, and the word that process_relocation writes for it.
use armv.Common.{
  ℕ, ◌+◌, ◌/◌, ◌%◌, ◌^◌, ◌≤◌, ◌<◌, ◌≡◌, ◌≢◌, ◌⊎◌, refl, Bool, true, false, List, [], ◌∷◌, ◌++◌,
  some, ok, All, ne→==, if◌then◌else◌, length,
}
use armv.Common.Bytes.{Bytes}
use armv.Linker.Relocation.{
  Segment, addr_to_offset, le32, put_word, Symbol, symbol_at, absolute_value, slot_value,
  r_arm_abs32, r_arm_jump_slot, relocate_absolute, relocate_slot, relocate,
}
use armv.Linker.Relocation.Words.{stored_word, unpack_le-slice, pack_le_lem, IsApart}

-- An entry, the offset that it patches, and the value of its symbol, which an absolute one adds to
-- the word that is there.
pub record Fix : Type 0 where
  pub addr : ℕ
  pub info : ℕ
  pub offset : ℕ
  pub symbol_value : ℕ
  pub adds : Bool

abbrev pub new_word : Bytes → Fix → ℕ
new_word bytes f = if f.adds then f.symbol_value + stored_word bytes f.offset else f.symbol_value

-- The entries as the section holds them.
abbrev pub rel_bytes : List Fix → Bytes
rel_bytes [] = []
rel_bytes (f ∷ fixes) = le32 f.addr ++ (le32 f.info ++ rel_bytes fixes)

abbrev pub AreApart : Fix → List Fix → Type 0
AreApart f fixes = All (λ (g : Fix). IsApart f.offset g.offset) fixes

-- No two entries patch overlapping words.
abbrev pub AllApart : List Fix → Type 0
AllApart [] = Unit {0}
AllApart (f ∷ fixes) = AreApart f fixes × AllApart fixes

abbrev pub IsOutside : ℕ → Fix → Type 0
IsOutside x f = (x < f.offset) ⊎ (f.offset + 4 ≤ x)

abbrev pub patched : Bytes → Fix → Bytes
patched bytes f = put_word f.offset (le32 (new_word bytes f)) bytes

module _ (segments : List Segment) (symbols os_symbols : List Symbol) where
  abbrev pub IsKind : Bool → Fix → Type 0
  IsKind true f =
      (f.info % 256 ≡ r_arm_abs32)
      × ((s : Symbol) × (symbol_at symbols (f.info / 256) ≡ ok s)
          × (absolute_value segments symbols os_symbols s ≡ ok f.symbol_value))
  IsKind false f =
      (f.info % 256 ≡ r_arm_jump_slot)
      × ((s : Symbol) × (symbol_at symbols (f.info / 256) ≡ ok s)
          × (slot_value segments symbols os_symbols s ≡ ok f.symbol_value))
      × (f.symbol_value ≢ 0)

  -- The entry's symbol and address are known, and its word lies in the file and holds the sum.
  pub record IsResolved (bytes : Bytes) (f : Fix) : Type 0 where
    pub fits : (f.addr < 2 ^ 32) × (f.info < 2 ^ 32)
    pub placed : addr_to_offset segments f.addr ≡ some f.offset
    pub inside : f.offset + 4 ≤ length bytes
    pub kind : IsKind f.adds f
    pub holds : new_word bytes f < 2 ^ 32

  pub relocate-patched :
      (bytes : Bytes) (f : Fix)
      → IsResolved bytes f
      → relocate segments symbols os_symbols f.addr f.info (bytes, false)
        ≡ ok (patched bytes f, false)
  unfolding relocate relocate_absolute relocate_slot
  relocate-patched bytes f h = go f.adds h.kind h.holds
    where
      go :
          (adds : Bool)
          → IsKind adds f
          → (if adds then f.symbol_value + stored_word bytes f.offset else f.symbol_value) < 2 ^ 32
          → relocate segments symbols os_symbols f.addr f.info (bytes, false)
            ≡ ok (
              put_word f.offset
                  (le32
                    (if adds then f.symbol_value + stored_word bytes f.offset else f.symbol_value))
                  bytes,
              false,
            )
      go true (abs, (s, at, value)) lt =
          rw
            (
              h.placed,
              abs,
              at,
              value,
              unpack_le-slice f.offset bytes h.inside,
              pack_le_lem (f.symbol_value + stored_word bytes f.offset) lt,
            )
            refl
      go false (slot, (s, at, value), defined) lt =
          rw
            (
              h.placed,
              slot,
              at,
              value,
              ne→== f.symbol_value 0 defined,
              pack_le_lem f.symbol_value lt,
            )
            refl
