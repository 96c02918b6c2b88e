-- ===== src/Binding/Slices.antt =====
-- armv2.pyx, class ByteMemory: a slice of plain memory that is written is read back.
use armv.Common.{
  ℕ, zero, suc, ◌+◌, ◌-◌, ◌%◌, ◌^◌, ◌<◌, ◌≤◌, ◌≡◌, ◌⊎◌, refl, ap, ◌∙◌, arith, List, [], ◌∷◌, ok,
  min, length, get_or, All, ltb, leb, ◌==◌, ◌&&◌, if◌then◌else◌, Bool-cases, inl, inr, ==_iff, true,
  false,
}
use armv.Common.Bytes.{IsByte}
use armv.Binding.Words.{Cpu, max_26_bit}
use armv.Binding.Bytes.{get_bytes, set_bytes, get_slice, set_slice, indices}
use armv.Binding.Ram.{IsRam, byte_at}
use armv.Binding.ReadBack.{
  HasWords, getbyte-ram, setbyte-ram, poke_byte, byte_at-poke_byte, poke_byte-HasWords,
  poke_byte-IsRam,
}

-- The byte at `a`, of a memory in which `values` stand from `addr` on.
abbrev pub laid : List ℕ → ℕ → ℕ → ℕ → ℕ
laid values addr a old =
    if leb addr a && ltb a (addr + length values) then get_or values (a - addr) 0 else old

get_or_first : (v : ℕ) (vs : List ℕ) (k : ℕ) → k ≡ 0 → get_or (v ∷ vs) k 0 ≡ v
get_or_first v vs zero h = refl
get_or_first v vs (suc k) h = absurd (omega arith)

get_or_rest : (v : ℕ) (vs : List ℕ) (k j : ℕ) → k ≡ j + 1 → get_or (v ∷ vs) k 0 ≡ get_or vs j 0
get_or_rest v vs zero j h = absurd (omega arith)
get_or_rest v vs (suc k) j h = ap (λ n. get_or vs n 0) k_eq
  where
    k_eq : k ≡ j
    k_eq = omega arith

laid_cons :
    (v : ℕ) (vs : List ℕ) (addr a old : ℕ)
    → laid vs (addr + 1) a (if a == addr then v else old) ≡ laid (v ∷ vs) addr a old
laid_cons v vs addr a old = elim (Bool-cases (a == addr)) [
  | inl q ↦
      let same = (==_iff a addr).0 q in
      ground (arith, same, get_or_first v vs (a - addr) (omega arith))
  | inr q ↦ elim (Bool-cases (leb addr a)) [
    | inl l ↦ ground (arith, get_or_rest v vs (a - addr) (a - (addr + 1)) (ground arith))
    | inr l ↦ ground arith
  ]
]

laid_inside :
    (values : List ℕ) (addr k old : ℕ)
    → k < length values
    → laid values addr (addr + k) old ≡ get_or values k 0
laid_inside values addr k old h = rw (inside) (ap (λ n. get_or values n 0) (omega arith))
  where
    inside : (leb addr (addr + k) && ltb (addr + k) (addr + length values)) ≡ true
    inside = ground arith

laid_outside :
    (values : List ℕ) (addr a old : ℕ)
    → (a < addr) ⊎ (addr + length values ≤ a)
    → laid values addr a old ≡ old
laid_outside values addr a old h = rw (outside h)
  where
    outside :
        (a < addr) ⊎ (addr + length values ≤ a)
        → (leb addr a && ltb a (addr + length values)) ≡ false
    outside (inl l) = ground arith
    outside (inr l) = ground arith

module _ {D : Type 0} where
  -- Every address of a stretch is plain memory.
  abbrev pub AllRam : Cpu D → ℕ → ℕ → Type 0
  AllRam cpu addr n = (a : ℕ) → addr ≤ a → a < addr + n → IsRam cpu a

  -- What a write of `values` at `addr` leaves.
  record IsWritten (values : List ℕ) (addr : ℕ) (cpu after : Cpu D) : Type 0 where
    words : HasWords after
    ram : (a : ℕ) → IsRam cpu a → IsRam after a
    bytes : (a : ℕ) → byte_at after a ≡ laid values addr a (byte_at cpu a)

  set_bytes-IsWritten :
      (values : List ℕ) (addr : ℕ) (cpu : Cpu D)
      → All IsByte values
      → HasWords cpu
      → AllRam cpu addr (length values)
      → (after : Cpu D) × (set_bytes (length values) addr values cpu ≡ (ok tt, after))
        × IsWritten values addr cpu after
  unfolding set_bytes
  set_bytes-IsWritten [] addr cpu small words ram =
      (cpu, refl, record { words = words; ram = λ a h. h; bytes = λ a. ground arith })
  set_bytes-IsWritten (v ∷ vs) addr cpu small words ram =
      let here = ram addr (omega arith) (omega arith) in
      let next = poke_byte addr v cpu in
      let (after, e, w) =
        set_bytes-IsWritten vs (addr + 1) next small.1 (poke_byte-HasWords addr v cpu here words)
          (λ a l m. poke_byte-IsRam addr v cpu a here (ram a (omega arith) (omega arith))) in
      (
        after,
        rw (setbyte-ram addr v cpu words here) e,
        record {
          words = w.words;
          ram = λ a h. w.ram a (poke_byte-IsRam addr v cpu a here h);
          bytes = λ a.
              w.bytes a
              ∙ ap (laid vs (addr + 1) a) (
                  byte_at-poke_byte addr v cpu a here
                  ∙ ap (λ b. if a == addr then b else byte_at cpu a) (small_mod v small.0))
              ∙ laid_cons v vs addr a (byte_at cpu a);
        },
      )
    where
      small_mod : (v : ℕ) → v < 256 → v % 256 ≡ v
      small_mod v h = omega arith

  get_bytes-laid :
      (values : List ℕ) (addr : ℕ) (cpu : Cpu D)
      → AllRam cpu addr (length values)
      → ((k : ℕ) → k < length values → byte_at cpu (addr + k) ≡ get_or values k 0)
      → get_bytes (length values) addr cpu ≡ (values, cpu)
  unfolding get_bytes
  get_bytes-laid [] addr cpu ram h = refl
  get_bytes-laid (v ∷ vs) addr cpu ram h =
      rw
        (
          getbyte-ram addr cpu (ram addr (omega arith) (omega arith)),
          first,
          get_bytes-laid vs (addr + 1) cpu (λ a l m. ram a (omega arith) (omega arith))
              (λ k l. ap (byte_at cpu) (further k) ∙ h (suc k) (omega arith)),
        )
        refl
    where
      first : byte_at cpu addr ≡ v
      first = ap (byte_at cpu) none_more ∙ h 0 (omega arith)
        where
          none_more : addr ≡ addr + 0
          none_more = omega arith

      further : (k : ℕ) → addr + 1 + k ≡ addr + suc k
      further k = omega arith

  -- Bytes that are assigned to a slice of plain memory are read from it again, and every other byte
  -- of the memory stays as it was.
  pub get_slice-set_slice :
      (values : List ℕ) (start : ℕ) (cpu : Cpu D)
      → All IsByte values
      → HasWords cpu
      → start + length values ≤ 2 ^ 26
      → AllRam cpu start (length values)
      → (after : Cpu D) × (set_slice start (start + length values) values cpu ≡ (ok tt, after))
        × (get_slice start (start + length values) after ≡ (values, after))
        × ((a : ℕ) → (a < start) ⊎ (start + length values ≤ a) → byte_at after a ≡ byte_at cpu a)
  unfolding set_slice get_slice
  get_slice-set_slice values start cpu small words l ram =
      let (after, e, w) = set_bytes-IsWritten values start cpu small words ram in
      (
        after,
        rw (count, from) e,
        rw (count, from)
            (get_bytes-laid values start after (λ a l m. w.ram a (ram a l m))
              (λ k m.
                w.bytes (start + k) ∙ laid_inside values start k (byte_at cpu (start + k)) m)),
        λ a out. w.bytes a ∙ laid_outside values start a (byte_at cpu a) out,
      )
    where
      from : min start max_26_bit ≡ start
      from = omega arith

      count : indices start (start + length values) ≡ length values
      count = omega arith
