-- ===== src/Custom/Symbols/Lookup.antt =====
-- comms/custom.py, Symbols.get_symbol_and_offset on a list in the order of addresses.
use armv.Common.{
  ℕ, zero, suc, ◌+◌, ◌-◌, ◌/◌, ◌≤◌, ◌<◌, ◌≡◌, refl, ap, ◌∙◌, ◌⊎◌, inl, inr, List, [], ◌∷◌, none,
  some, Result, ok, length, get_elem?, get_or, arith, lt→ltb, le→ltb, ne→==, ==_iff,
}
use armv.Common.Text.{Text}
use armv.Common.Int.{pos, sub_ℕ, sub_ℕ-pos}
use armv.Custom.Symbols.{
  bisect_loop, bisect_left, addrs, last, Place, from_symbol, at_index, get_symbol_and_offset,
}
use native.Mathlib.Decide.{dec_lt, ℕ_discrete}

abbrev pub IsSorted : List ℕ → Type 0
IsSorted a = (i j : ℕ) → i ≤ j → j < length a → get_or a i 0 ≤ get_or a j 0

-- Below `r` the elements are less than `x`, from `r` on they are not.
abbrev Low : List ℕ → ℕ → ℕ → Type 0
Low a x lo = (i : ℕ) → i < lo → get_or a i 0 < x

abbrev High : List ℕ → ℕ → ℕ → Type 0
High a x hi = (i : ℕ) → hi ≤ i → i < length a → x ≤ get_or a i 0

abbrev Splits : List ℕ → ℕ → ℕ → Type 0
Splits a x r = (r ≤ length a) × Low a x r × High a x r

module _ (a : List ℕ) (x : ℕ) (sorted : IsSorted a) where
  bisect_loop-Splits :
      (fuel lo hi : ℕ)
      → lo ≤ hi
      → hi ≤ length a
      → hi - lo < fuel
      → Low a x lo
      → High a x hi
      → Splits a x (bisect_loop fuel a x lo hi)
  unfolding bisect_loop
  bisect_loop-Splits zero lo hi h k f low high = absurd (omega arith)
  bisect_loop-Splits (suc fuel) lo hi h k f low high = elim (dec_lt lo hi) [
    | no p ↦ rw (le→ltb lo hi (omega arith)) (omega arith, low, λ i q r. high i (omega arith) r)
    | yes p ↦ elim (dec_lt (get_or a ((lo + hi) / 2) 0) x) [
      | yes q ↦
          rw (lt→ltb lo hi p, lt→ltb (get_or a ((lo + hi) / 2) 0) x q)
            (bisect_loop-Splits fuel ((lo + hi) / 2 + 1) hi (omega arith) k (omega arith)
              (λ i r. omega (arith, sorted i ((lo + hi) / 2) (omega arith) (omega arith))) high)
      | no q ↦
          rw (lt→ltb lo hi p, le→ltb (get_or a ((lo + hi) / 2) 0) x (omega arith))
            (bisect_loop-Splits fuel lo ((lo + hi) / 2) (omega arith) (omega arith) (omega arith)
              low (λ i r s. omega (arith, sorted ((lo + hi) / 2) i (omega arith) s)))
    ]
  ]

  -- On a sorted list bisect_left is the number of elements below `x`, a place where `x` fits.
  pub bisect_left-Splits : Splits a x (bisect_left a x)
  unfolding bisect_left
  bisect_left-Splits =
      bisect_loop-Splits (suc (length a)) 0 (length a) (omega arith) (omega arith) (omega arith)
        (λ i h. absurd (omega arith)) (λ i h k. absurd (omega arith))

-- An entry of the list, by its index.
abbrev pub At : List (ℕ × Text) → ℕ → ℕ → Text → Type 0
At list i a n = get_elem? list i ≡ some (a, n)

At-addrs :
    (list : List (ℕ × Text)) (i a : ℕ) (n : Text)
    → At list i a n
    → (get_or (addrs list) i 0 ≡ a) × (i < length (addrs list))
At-addrs [] i a n e = cc
At-addrs ((b, m) ∷ list) zero a n e = ground arith
At-addrs ((b, m) ∷ list) (suc i) a n e = omega (arith, At-addrs list i a n e)

addrs-At :
    (list : List (ℕ × Text)) (i : ℕ)
    → i < length (addrs list)
    → (n : Text) × At list i (get_or (addrs list) i 0) n
addrs-At [] i h = absurd (omega arith)
addrs-At ((b, m) ∷ list) zero h = (m, refl)
addrs-At ((b, m) ∷ list) (suc i) h = addrs-At list i (omega arith)

last-get_elem? :
    (list : List (ℕ × Text)) (k : ℕ) → length (addrs list) ≡ suc k → last list ≡ get_elem? list k
unfolding last
last-get_elem? [] k e = absurd (omega arith)
last-get_elem? (s ∷ []) zero e = refl
last-get_elem? ((a, m) ∷ []) (suc k) e = absurd (omega arith)
last-get_elem? ((a, m) ∷ (b, n) ∷ list) zero e = absurd (omega arith)
last-get_elem? ((a, m) ∷ (b, n) ∷ list) (suc k) e = last-get_elem? ((b, n) ∷ list) k (omega arith)

get_elem?_past :
    (list : List (ℕ × Text)) (i : ℕ) → length (addrs list) ≤ i → get_elem? list i ≡ none
get_elem?_past [] i h = refl
get_elem?_past ((b, m) ∷ list) zero h = absurd (omega arith)
get_elem?_past ((b, m) ∷ list) (suc i) h = get_elem?_past list i (omega arith)

module _ (list : List (ℕ × Text)) (addr : ℕ) where
  -- The answer for an address in front of all symbols.
  abbrev pub Precedes : Result Place → Type 0
  Precedes r = (r ≡ ok (none, pos addr)) × ((j b : ℕ) (m : Text) → At list j b m → addr < b)

  -- The answer by the greatest symbol that is not above the address.
  abbrev pub Finds : Result Place → Type 0
  Finds r =
      (i : ℕ) × (a : ℕ) × (n : Text) × At list i a n
      × (a ≤ addr)
      × ((j b : ℕ) (m : Text) → At list j b m → b ≤ addr → b ≤ a)
      × (r ≡ ok (some n, pos (addr - a)))

  module _ (sorted : IsSorted (addrs list)) where
    -- The entry at `i` answers, if all entries behind it are above the address.
    found :
        (i : ℕ) (n : Text) (r : Result Place)
        → At list i (get_or (addrs list) i 0) n
        → get_or (addrs list) i 0 ≤ addr
        → ((j : ℕ)
            → i < j
            → j < length (addrs list)
            → get_or (addrs list) j 0 ≤ addr
            → get_or (addrs list) j 0 ≤ get_or (addrs list) i 0)
        → r ≡ ok (some n, sub_ℕ addr (get_or (addrs list) i 0))
        → Finds r
    found i n r at le above e = (
      i,
      get_or (addrs list) i 0,
      n,
      at,
      le,
      greatest,
      e ∙ ap (λ z. ok (some n, z)) (sub_ℕ-pos addr (get_or (addrs list) i 0) le),
    )
      where
        greatest : (j b : ℕ) (m : Text) → At list j b m → b ≤ addr → b ≤ get_or (addrs list) i 0
        greatest j b m bt ble =
            let (eb, jl) = At-addrs list j b m bt in
            let (ei, il) = At-addrs list i (get_or (addrs list) i 0) n at in
            elim (dec_lt i j) [
              | yes p ↦ omega (arith, above j p jl (omega arith))
              | no p ↦ omega (arith, sorted j i (omega arith) il)
            ]

    -- An entry above the address, all entries in front of it below.
    before_entry :
        (r : ℕ) (n : Text)
        → Low (addrs list) addr r
        → High (addrs list) addr r
        → r < length (addrs list)
        → addr < get_or (addrs list) r 0
        → Precedes (at_index list r addr (some (get_or (addrs list) r 0, n)))
          ⊎ Finds (at_index list r addr (some (get_or (addrs list) r 0, n)))
    unfolding at_index
    before_entry zero n low high p lt = inl (
      rw (ne→== addr (get_or (addrs list) 0 0) (omega arith)) refl,
      λ j b m at.
          let (eb, jl) = At-addrs list j b m at in omega (arith, sorted 0 j (omega arith) jl),
    )
    before_entry (suc k) n low high p lt =
        let (m, at) = addrs-At list k (omega arith) in
        inr (
          found k m _ at (omega (arith, low k (omega arith)))
            (λ j q l h. absurd (omega (arith, sorted (suc k) j (omega arith) l)))
            (rw (
              ne→== addr (get_or (addrs list) (suc k) 0) (omega arith),
              lt→ltb 0 (suc k) (omega arith),
              sub-one,
              at,
            )))
      where
        sub-one : suc k - 1 ≡ k
        sub-one = omega arith

    -- The answer at the index that the search gives, where it is the index of an entry.
    inside :
        (r : ℕ) (n : Text)
        → Splits (addrs list) addr r
        → r < length (addrs list)
        → At list r (get_or (addrs list) r 0) n
        → Precedes (at_index list r addr (some (get_or (addrs list) r 0, n)))
          ⊎ Finds (at_index list r addr (some (get_or (addrs list) r 0, n)))
    unfolding at_index
    inside r n (hr, low, high) p at = elim (ℕ_discrete addr (get_or (addrs list) r 0)) [
      | yes e ↦ inr (
          found r n _ at (omega arith) (λ j q k l. omega arith)
            (rw
              (
                (==_iff addr (get_or (addrs list) r 0)).1 e,
                sub_ℕ-pos addr (get_or (addrs list) r 0) (omega arith),
              )
              (ap (λ d. ok (some n, pos d)) (omega arith))))
      | no e ↦ before_entry r n low high p (omega (arith, high r (omega arith) p))
    ]

    -- Behind the last entry.
    past :
        (r : ℕ)
        → Splits (addrs list) addr r
        → length (addrs list) ≤ r
        → 0 < length (addrs list)
        → Finds (at_index list r addr none)
    unfolding at_index
    past zero s h nonempty = absurd (omega arith)
    past (suc k) (hr, low, high) h nonempty =
        let (n, at) = addrs-At list k (omega arith) in
        found k n (from_symbol (last list) addr) at (omega (arith, low k (omega arith)))
          (λ j q l m. absurd (omega arith)) (rw (last-get_elem? list k (omega arith), at))

    at-Splits :
        (r : ℕ)
        → Splits (addrs list) addr r
        → 0 < length (addrs list)
        → Precedes (at_index list r addr (get_elem? list r))
          ⊎ Finds (at_index list r addr (get_elem? list r))
    at-Splits r s nonempty = elim (dec_lt r (length (addrs list))) [
      | yes p ↦ let (n, at) = addrs-At list r p in rw at (inside r n s p at)
      | no p ↦ rw (get_elem?_past list r (omega arith)) (inr (past r s (omega arith) nonempty))
    ]

-- For a list in the order of addresses with an entry at least, an address in front of all symbols
-- has no name and its own value as the offset; any other has the name of a symbol with the greatest
-- address that is not above it, and the distance from that symbol. No exception is raised.
pub get_symbol_and_offset_lem :
    (list : List (ℕ × Text)) (addr : ℕ)
    → IsSorted (addrs list)
    → 0 < length (addrs list)
    → Precedes list addr (get_symbol_and_offset list addr)
      ⊎ Finds list addr (get_symbol_and_offset list addr)
unfolding get_symbol_and_offset
get_symbol_and_offset_lem list addr sorted nonempty =
    at-Splits list addr sorted (bisect_left (addrs list) addr)
      (bisect_left-Splits (addrs list) addr sorted) nonempty
