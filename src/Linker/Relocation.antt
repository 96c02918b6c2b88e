-- ===== src/Linker/Relocation.antt =====
-- create.py: addr_to_offset and process_relocation. What the ELF library reads, the segments, the
-- symbols and the place of a section in the file, are arguments.
pub mod Words
pub mod Fixes
pub mod Resolved
use armv.Common.{
  ℕ, zero, suc, ◌+◌, ◌-◌, ◌*◌, ◌/◌, ◌%◌, ◌^◌, Bool, true, false, ◌&&◌, ◌||◌, List, [], ◌∷◌, ◌++◌,
  Option, none, some, Result, ok, raised, index_error, key_error, struct_error, type_error,
  exception, ◌>>=◌, leb, ltb, ◌==◌, if◌then◌else◌, length, take, drop, slice,
}
use armv.Common.Bytes.{Bytes}
use armv.Common.Text.{Text, same_text}

-- The fields of a program header that are read.
pub record Segment : Type 0 where
  pub is_load : Bool
  pub p_offset : ℕ
  pub p_vaddr : ℕ
  pub p_filesz : ℕ

-- None at an address that no segment holds.
unfoldable pub addr_to_offset : List Segment → ℕ → Option ℕ
addr_to_offset [] addr = none
addr_to_offset (s ∷ segments) addr =
    let further = addr_to_offset segments addr in
    if s.is_load && (leb s.p_vaddr addr && ltb addr (s.p_vaddr + s.p_filesz))
    then some (s.p_offset + (addr - s.p_vaddr))
    else further

-- struct.pack("<I", n) and struct.unpack("<I", bytes)[0], for n ≥ 0
abbrev pub le32 : ℕ → Bytes
le32 n = (n % 256) ∷ (n / 2 ^ 8 % 256) ∷ (n / 2 ^ 16 % 256) ∷ (n / 2 ^ 24 % 256) ∷ []

unfoldable pub pack_le : ℕ → Result Bytes
pack_le n = if ltb n (2 ^ 32) then ok (le32 n) else raised struct_error

unfoldable pub unpack_le : Bytes → Result ℕ
unpack_le (a ∷ b ∷ c ∷ d ∷ []) = ok (a + 2 ^ 8 * b + 2 ^ 16 * c + 2 ^ 24 * d)
unpack_le _ = raised struct_error

-- bytes[offset : offset + 4] = word, which is appended at an offset behind the end
unfoldable pub put_word : ℕ → Bytes → Bytes → Bytes
put_word offset word bytes = take offset bytes ++ (word ++ drop (offset + 4) bytes)

-- A symbol's value and name.
abbrev pub Symbol : Type 0
Symbol = ℕ × Text

-- {name: value for (value, name) in symbols}[name], if there: the last symbol of a name counts.
abbrev pub or_value : Option ℕ → Bool → ℕ → Option ℕ
or_value (some v) is_name value = some v
or_value none is_name value = if is_name then some value else none

unfoldable pub value_of : List Symbol → Text → Option ℕ
value_of [] name = none
value_of ((value, other) ∷ symbols) name =
    or_value (value_of symbols name) (same_text other name) value

abbrev pub symbol_at : List Symbol → ℕ → Result Symbol
symbol_at [] i = raised index_error
symbol_at (s ∷ symbols) zero = ok s
symbol_at (s ∷ symbols) (suc i) = symbol_at symbols i

abbrev pub found : Option ℕ → Result ℕ
found none = raised key_error
found (some v) = ok v

-- The offset None, from addr_to_offset, cannot be added to.
abbrev pub known : Option ℕ → Result ℕ
known none = raised type_error
known (some offset) = ok offset

-- RelTypes
abbrev pub r_arm_abs32 : ℕ
r_arm_abs32 = 2

abbrev pub r_arm_jump_slot : ℕ
r_arm_jump_slot = 0x16

-- The data so far, and whether a symbol was undefined.
abbrev pub State : Type 0
State = Bytes × Bool

module _ (segments : List Segment) (symbols os_symbols : List Symbol) where
  -- A value of 0 in the symbols is looked up in those of the system.
  unfoldable pub absolute_value : Symbol → Result ℕ
  unfolding value_of
  absolute_value (value, name) = if value == 0 then found (value_of os_symbols name) else ok value

  -- The system's symbols go first.
  abbrev pub slot_or : Option ℕ → Option ℕ → Result ℕ
  slot_or (some v) own = ok v
  slot_or none own = found own

  unfoldable pub slot_value : Symbol → Result ℕ
  unfolding value_of
  slot_value (value, name) = slot_or (value_of os_symbols name) (value_of symbols name)

  unfoldable pub relocate_absolute : ℕ → Option ℕ → State → Result State
  unfolding absolute_value unpack_le pack_le put_word
  relocate_absolute sym place (bytes, undefined) = do
    symbol ← symbol_at symbols sym
    sym_val ← absolute_value symbol
    offset ← known place
    current ← unpack_le (slice offset (offset + 4) bytes)
    word ← pack_le (sym_val + current)
    ok (put_word offset word bytes, undefined)

  unfoldable pub relocate_slot : ℕ → Option ℕ → State → Result State
  unfolding slot_value pack_le put_word
  relocate_slot sym place (bytes, undefined) = do
    symbol ← symbol_at symbols sym
    val ← slot_value symbol
    offset ← known place
    word ← pack_le (if val == 0 then 0xFFFFFFFF else val)
    ok (put_word offset word bytes, undefined || val == 0)

  -- One entry of the section: an address, and a symbol with a type.
  unfoldable pub relocate : ℕ → ℕ → State → Result State
  unfolding relocate_absolute relocate_slot addr_to_offset
  relocate addr info linked =
      let place = addr_to_offset segments addr in
      if info % 256 == r_arm_abs32
      then relocate_absolute (info / 256) place linked
      else if info % 256 == r_arm_jump_slot
      then relocate_slot (info / 256) place linked
      else ok linked

  -- for pos in range(0, end - start, 8), on what is left of rel_data with `left` bytes to go
  unfoldable pub relocation_loop : (rounds : ℕ) → Bytes → State → Result State
  relocation_loop zero rel_data linked = ok linked
  relocation_loop (suc rounds) rel_data linked =
      let rest : State → Result State = λ l. relocation_loop rounds (drop 8 rel_data) l in
      do
        addr ← unpack_le (take 4 (take 8 rel_data))
        info ← unpack_le (drop 4 (take 8 rel_data))
        later ← relocate addr info linked
        rest later

  abbrev pub all_defined : State → Result Bytes
  all_defined (bytes, undefined) = if undefined then raised exception else ok bytes

  -- The entries are a copy of the section, whose last one may be cut.
  unfoldable pub process_relocation : (sh_offset sh_size : ℕ) → Bytes → Result Bytes
  unfolding relocation_loop
  process_relocation sh_offset sh_size bytes =
      relocation_loop ((sh_size + 7) / 8) (slice sh_offset (sh_offset + sh_size) bytes)
        (bytes, false)
      >>= all_defined
