-- ===== src/Binding/ReadBack.antt =====
-- armv2.pyx: bytes that are written to plain memory are read back.
use armv.Common.{
  ℕ, zero, suc, ◌*◌, ◌/◌, ◌%◌, ◌^◌, ◌<◌, ◌≡◌, refl, sym, ap, ◌∙◌, arith, ok, ◌==◌, if◌then◌else◌,
  Bool-cases, inl, inr, ==_iff, true, false,
}
use armv.Binding.Words.{Cpu}
use armv.Binding.Bytes.{aligned, shift_of, with_byte, getbyte, setbyte}
use armv.Binding.Ram.{
  IsRam, stored, byte_at, poke, getword-ram, setword-ram, stored-poke, poke-IsRam, stored-eq,
  IsRam-eq,
}

one_of_four {ℓ} : (P : ℕ → Type ℓ) → P 0 → P 1 → P 2 → P 3 → (k : ℕ) → k < 4 → P k
one_of_four P a b c d zero h = a
one_of_four P a b c d (suc zero) h = b
one_of_four P a b c d (suc (suc zero)) h = c
one_of_four P a b c d (suc (suc (suc zero))) h = d
one_of_four P a b c d (suc (suc (suc (suc k)))) h = absurd (omega arith)

abbrev Replaced : ℕ → ℕ → ℕ → ℕ → Type 0
Replaced word v k j =
    with_byte word (k * 8) v / 2 ^ (j * 8) % 256
    ≡ (if j == k then v % 256 else word / 2 ^ (j * 8) % 256)

-- Only the byte `k` of the word is replaced.
with_byte_lem : (word v k j : ℕ) → k < 4 → j < 4 → Replaced word v k j
with_byte_lem word v k j hk hj =
    one_of_four (λ k. Replaced word v k j)
      (one_of_four (Replaced word v 0) (omega arith) (omega arith) (omega arith) (omega arith) j hj)
      (one_of_four (Replaced word v 1) (omega arith) (omega arith) (omega arith) (omega arith) j hj)
      (one_of_four (Replaced word v 2) (omega arith) (omega arith) (omega arith) (omega arith) j hj)
      (one_of_four (Replaced word v 3) (omega arith) (omega arith) (omega arith) (omega arith) j hj)
      k hk

with_byte-lt : (word v k : ℕ) → k < 4 → word < 2 ^ 32 → with_byte word (k * 8) v < 2 ^ 32
with_byte-lt word v k hk hw =
    one_of_four (λ k. with_byte word (k * 8) v < 2 ^ 32) (omega arith) (omega arith) (omega arith)
      (omega arith) k hk

same_place : (a b : ℕ) → (a / 4 == b / 4) ≡ true → (a % 4 == b % 4) ≡ (a == b)
same_place a b h = ground arith

other_place : (a b : ℕ) → (a / 4 == b / 4) ≡ false → (a == b) ≡ false
other_place a b h = ground arith

module _ {D : Type 0} where
  -- The words of the memory have 32 bits.
  abbrev pub HasWords : Cpu D → Type 0
  HasWords cpu = (a : ℕ) → stored cpu a < 2 ^ 32

  aligned-IsRam : (addr : ℕ) (cpu : Cpu D) → IsRam cpu addr → IsRam cpu (aligned addr)
  aligned-IsRam addr cpu h = IsRam-eq cpu addr (aligned addr) (omega (arith, h.0)) h

  aligned-stored :
      (addr : ℕ) (cpu : Cpu D) → addr < 2 ^ 26 → stored cpu (aligned addr) ≡ stored cpu addr
  aligned-stored addr cpu h = stored-eq cpu (aligned addr) addr (omega arith)

  pub getbyte-ram :
      (addr : ℕ) (cpu : Cpu D) → IsRam cpu addr → getbyte addr cpu ≡ (byte_at cpu addr, cpu)
  unfolding getbyte
  getbyte-ram addr cpu h =
      rw (getword-ram (aligned addr) cpu (aligned-IsRam addr cpu h), aligned-stored addr cpu h.0)
        refl

  abbrev pub new_word : ℕ → ℕ → Cpu D → ℕ
  new_word addr v cpu = with_byte (stored cpu addr) (shift_of addr) v

  pub poke_byte : ℕ → ℕ → Cpu D → Cpu D
  poke_byte addr v cpu = poke (aligned addr) (new_word addr v cpu) cpu

  pub setbyte-ram :
      (addr v : ℕ) (cpu : Cpu D)
      → HasWords cpu
      → IsRam cpu addr
      → setbyte addr v cpu ≡ (ok tt, poke_byte addr v cpu)
  unfolding setbyte poke_byte
  setbyte-ram addr v cpu words h =
      rw (getword-ram (aligned addr) cpu (aligned-IsRam addr cpu h), aligned-stored addr cpu h.0)
        (setword-ram (aligned addr) (new_word addr v cpu) cpu
          (with_byte-lt (stored cpu addr) v (addr % 4) (omega arith) (words addr))
          (aligned-IsRam addr cpu h))

  stored-poke_byte :
      (addr v : ℕ) (cpu : Cpu D) (a : ℕ)
      → IsRam cpu addr
      → stored (poke_byte addr v cpu) a
        ≡ (if a / 4 == addr / 4 then new_word addr v cpu else stored cpu a)
  unfolding poke_byte
  stored-poke_byte addr v cpu a h =
      stored-poke (aligned addr) (new_word addr v cpu) cpu a (aligned-IsRam addr cpu h)
      ∙ ap (λ w. if a / 4 == w then new_word addr v cpu else stored cpu a) one_word
    where
      one_word : aligned addr / 4 ≡ addr / 4
      one_word = omega (arith, h.0)

  pub byte_at-poke_byte :
      (addr v : ℕ) (cpu : Cpu D) (a : ℕ)
      → IsRam cpu addr
      → byte_at (poke_byte addr v cpu) a ≡ (if a == addr then v % 256 else byte_at cpu a)
  byte_at-poke_byte addr v cpu a h = elim (Bool-cases (a / 4 == addr / 4)) [
    | inl q ↦
        ap (λ w. w / 2 ^ shift_of a % 256)
          (stored-poke_byte addr v cpu a h
            ∙ ap (λ b. if b then new_word addr v cpu else stored cpu a) q)
        ∙ with_byte_lem (stored cpu addr) v (addr % 4) (a % 4) (omega arith) (omega arith)
        ∙ ap (λ w. if a % 4 == addr % 4 then v % 256 else w / 2 ^ shift_of a % 256)
            (stored-eq cpu addr a (sym ((==_iff (a / 4) (addr / 4)).0 q)))
        ∙ ap (λ b. if b then v % 256 else byte_at cpu a) (same_place a addr q)
    | inr q ↦
        ap (λ w. w / 2 ^ shift_of a % 256)
          (stored-poke_byte addr v cpu a h
            ∙ ap (λ b. if b then new_word addr v cpu else stored cpu a) q)
        ∙ ap (λ b. if b then v % 256 else byte_at cpu a) (sym (other_place a addr q))
  ]

  pub poke_byte-HasWords :
      (addr v : ℕ) (cpu : Cpu D) → IsRam cpu addr → HasWords cpu → HasWords (poke_byte addr v cpu)
  poke_byte-HasWords addr v cpu h words a =
      rw (stored-poke_byte addr v cpu a h) (elim (Bool-cases (a / 4 == addr / 4)) [
        | inl q ↦ rw q (with_byte-lt (stored cpu addr) v (addr % 4) (omega arith) (words addr))
        | inr q ↦ rw q (words a)
      ])

  pub poke_byte-IsRam :
      (addr v : ℕ) (cpu : Cpu D) (a : ℕ)
      → IsRam cpu addr
      → IsRam cpu a
      → IsRam (poke_byte addr v cpu) a
  unfolding poke_byte
  poke_byte-IsRam addr v cpu a h k =
      poke-IsRam (aligned addr) (new_word addr v cpu) cpu a (aligned-IsRam addr cpu h) k
