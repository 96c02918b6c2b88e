-- ===== src/Debugger/Symbols/Ends.antt =====
-- debugger.py, load_symbols: it ends on every memory.
use armv.Common.{
  ℕ, zero, suc, ◌+◌, ◌^◌, ◌<◌, ◌≤◌, ◌≡◌, ◌⊎◌, refl, arith, [], ◌∷◌, Result, ok, raised,
  struct_error, leb, ◌==◌, leb→le, Bool-cases, inl, inr, false,
}
use armv.Common.Bytes.{from_be32, unpack_u32}
use armv.Common.Text.{Text}
use armv.Binding.Bytes.{indices}
use armv.Debugger.Symbols.{
  read, bytes_from, read_word, name_loop, load_loop, load_symbols, symbols_addr,
}

module _ (mem : ℕ → ℕ) where
  -- A list, or the exception for a word that the end of the memory cuts.
  abbrev pub Ends : {A : Type 0} → Result A → Type 0
  Ends {A} r = ((a : A) × (r ≡ ok a)) ⊎ (r ≡ raised struct_error)

  name_loop-ok :
      (fuel pos : ℕ)
      → pos ≤ 2 ^ 26
      → 2 ^ 26 < pos + fuel
      → (r : Text × ℕ) × (name_loop fuel mem pos ≡ ok r) × (pos ≤ r.1) × (r.1 ≤ 2 ^ 26)
  unfolding name_loop
  name_loop-ok zero pos p f = absurd (omega arith)
  name_loop-ok (suc fuel) pos p f = elim (Bool-cases (read mem pos == 0)) [
    | inl e ↦ (([], pos), rw e refl, omega arith, p)
    | inr e ↦
        (let (r, q, l, m) = name_loop-ok fuel (pos + 1) (inside e) (omega arith) in
          ((read mem pos ∷ r.0, r.1), rw (e, q) refl, omega arith, m))
  ]
    where
      inside : (read mem pos == 0) ≡ false → pos + 1 ≤ 2 ^ 26
      inside e = ground arith

  unpack_short : (n pos : ℕ) → n < 4 → unpack_u32 (bytes_from mem n pos) ≡ raised struct_error
  unfolding unpack_u32 bytes_from
  unpack_short zero pos h = refl
  unpack_short (suc zero) pos h = refl
  unpack_short (suc (suc zero)) pos h = refl
  unpack_short (suc (suc (suc zero))) pos h = refl
  unpack_short (suc (suc (suc (suc n)))) pos h = absurd (omega arith)

  whole_word : (pos : ℕ) → pos + 4 ≤ 2 ^ 26 → (v : ℕ) × (read_word mem pos ≡ ok v)
  unfolding read_word bytes_from unpack_u32
  whole_word pos h = (
    from_be32 (mem pos) (mem (pos + 1)) (mem (pos + 1 + 1)) (mem (pos + 1 + 1 + 1)),
    rw (four) refl,
  )
    where
      four : indices pos (pos + 4) ≡ 4
      four = omega arith

  cut_word : (pos : ℕ) → 2 ^ 26 < pos + 4 → read_word mem pos ≡ raised struct_error
  unfolding read_word
  cut_word pos h = unpack_short (indices pos (pos + 4)) pos (omega arith)

  load_loop-Ends :
      (fuel pos : ℕ) → pos ≤ 2 ^ 26 + 1 → 2 ^ 26 + 2 ≤ pos + fuel → Ends (load_loop fuel mem pos)
  unfolding load_loop
  load_loop-Ends zero pos p f = absurd (omega arith)
  load_loop-Ends (suc fuel) pos p f = elim (Bool-cases (leb (pos + 4) (2 ^ 26))) [
    | inl l ↦
        (let (v, e) = whole_word pos (leb→le (pos + 4) (2 ^ 26) l) in
          elim (Bool-cases (v == 0)) [
            | inl z ↦ inl ([], rw (e, z) refl)
            | inr z ↦
                (let (r, q, m, n) =
                    name_loop-ok fuel (pos + 4) (leb→le (pos + 4) (2 ^ 26) l) (omega arith) in
                  elim (load_loop-Ends fuel (r.1 + 1) (omega arith) (omega arith)) [
                    | inl (rest, s) ↦ inl ((v, r.0) ∷ rest, rw (e, z, q, s) refl)
                    | inr s ↦ inr (rw (e, z, q, s) refl)
                  ])
          ])
    | inr l ↦ inr (rw (cut_word pos (ground arith)) refl)
  ]

  -- On every memory load_symbols ends, with a list of symbols or with the struct.error of a word that
  -- the end of the memory cuts.
  pub load_symbols-Ends : Ends (load_symbols mem)
  unfolding load_symbols
  load_symbols-Ends = load_loop-Ends (2 ^ 26 + 2) symbols_addr (omega arith) (omega arith)
