-- ===== src/Binding/Bytes.antt =====
-- armv2.pyx: getbyte and setbyte, and the slices of ByteMemory and WordMemory.
use armv.Common.{
  ℕ, zero, suc, ◌+◌, ◌-◌, ◌*◌, ◌/◌, ◌%◌, ◌^◌, min, List, [], ◌∷◌, ok, raised, type_error,
}
use armv.Binding.Words.{Cpu, Outcome, max_26_bit, getword, setword}

-- addr & 0xfffffffc
abbrev pub aligned : ℕ → ℕ
aligned addr = addr % 2 ^ 32 / 4 * 4

-- (addr & 3) << 3
abbrev pub shift_of : ℕ → ℕ
shift_of addr = addr % 4 * 8

-- (word & ~(0xff << b)) | ((value & 0xff) << b): the digits above, those of the byte, those below
abbrev pub with_byte : (word b value : ℕ) → ℕ
with_byte word b value = word / 2 ^ (b + 8) * 2 ^ (b + 8) + value % 256 * 2 ^ b + word % 2 ^ b

-- How many indices slice(start, stop).indices(MAX_26BIT) has, from `start` on.
abbrev pub indices : (start stop : ℕ) → ℕ
indices start stop = min stop max_26_bit - min start max_26_bit

module _ {D : Type 0} where
  unfoldable pub getbyte : ℕ → Cpu D → ℕ × Cpu D
  unfolding getword
  getbyte addr cpu =
      let (word, after) = getword (aligned addr) cpu in (word / 2 ^ shift_of addr % 256, after)

  unfoldable pub setbyte : ℕ → ℕ → Cpu D → Outcome D
  unfolding getword setword
  setbyte addr value cpu =
      let (word, after) = getword (aligned addr) cpu in
      setword (aligned addr) (with_byte word (shift_of addr) value) after

  -- What comes after an outcome, if it is not an exception.
  abbrev pub then_do : Outcome D → (Cpu D → Outcome D) → Outcome D
  then_do (ok done, cpu) further = further cpu
  then_do (raised e, cpu) further = (raised e, cpu)

  -- bytearray(self.getter(index) for index in indices)
  unfoldable pub get_bytes : ℕ → ℕ → Cpu D → List ℕ × Cpu D
  get_bytes zero addr cpu = ([], cpu)
  get_bytes (suc n) addr cpu =
      let (b, after) = getbyte addr cpu in
      let (bs, last) = get_bytes n (addr + 1) after in (b ∷ bs, last)

  -- zip_longest: where the lengths differ, the setter gets a None, in place of the address or of the
  -- value, which it reads the word for.
  unfoldable pub set_bytes : ℕ → ℕ → List ℕ → Cpu D → Outcome D
  set_bytes zero addr [] cpu = (ok tt, cpu)
  set_bytes zero addr (v ∷ vs) cpu = (raised type_error, cpu)
  set_bytes (suc n) addr [] cpu = (raised type_error, (getword (aligned addr) cpu).1)
  set_bytes (suc n) addr (v ∷ vs) cpu =
      then_do (setbyte addr v cpu) (λ after. set_bytes n (addr + 1) vs after)

  -- mem[start:stop] and mem[start:stop] = values
  unfoldable pub get_slice : (start stop : ℕ) → Cpu D → List ℕ × Cpu D
  unfolding get_bytes
  get_slice start stop cpu = get_bytes (indices start stop) (min start max_26_bit) cpu

  unfoldable pub set_slice : (start stop : ℕ) → List ℕ → Cpu D → Outcome D
  unfolding set_bytes
  set_slice start stop values cpu = set_bytes (indices start stop) (min start max_26_bit) values cpu
