-- ===== src/Tapes/Samples/Loops.antt =====
-- popcnt.pyx: a rule for its loops, and the pair of samples that the innermost one writes.
use armv.Common.{
  ℕ, zero, suc, ◌+◌, ◌*◌, ◌≤◌, ◌<◌, ◌≡◌, refl, arith, Option, some, lt→ltb, ◌==◌, if◌then◌else◌,
}
use armv.Common.Int.{ℤ}
use mathlib.Core.Path.{subst}
use armv.Tapes.Samples.{Array, store, for_range, sample_pair, low_sample, high_sample}

-- A loop whose body keeps an invariant at each round runs to its end, with the invariant.
pub for_range_inv {κ} :
    {S : Type 0} (P : ℕ → S → Type κ) (body : ℕ → S → Option S) (i n : ℕ)
    → ((j : ℕ) → i ≤ j → j < i + n → (s : S) → P j s → (t : S) × (body j s ≡ some t) × P (suc j) t)
    → (s : S) → P i s
    → (t : S) × (for_range body i n s ≡ some t) × P (i + n) t
unfolding for_range
for_range_inv P body i zero keep s h = (s, refl, subst (λ k. P k s) (omega arith) h)
for_range_inv P body i (suc n) keep s h =
    let (u, e, hu) = keep i (omega arith) (omega arith) s h in
    let (t, f, ht) =
      for_range_inv P body (suc i) n (λ j lo hi. keep j (omega arith) (omega arith)) u hu in
    (t, rw e f, subst (λ k. P k t) (omega arith) ht)

module _ {A : Type 0} where
  pub store_lem :
      (i : ℕ) (v : A) (a : Array A)
      → i < a.size
      → store i v a ≡ some (record a { cells = λ j. if j == i then v else a.cells j })
  store_lem i v a h = rw (lt→ltb i a.size h)

-- The cells below the start are as before, and the first `l` pairs stand.
pub record IsPaired (before : Array ℤ) (start steps l : ℕ) (a : Array ℤ) : Type 0 where
  pub size : a.size ≡ before.size
  pub kept : (x : ℕ) → x < start → a.cells x ≡ before.cells x
  pub lows : (m : ℕ) → m < l → a.cells (start + m) ≡ low_sample
  pub highs : (m : ℕ) → m < l → a.cells (start + steps + m) ≡ high_sample

module _ (before : Array ℤ) (start steps : ℕ) (room : start + 2 * steps ≤ before.size) where
  sample_pair-IsPaired :
      (l : ℕ) (a : Array ℤ)
      → l < steps
      → IsPaired before start steps l a
      → (b : Array ℤ) × (sample_pair start steps l a ≡ some b)
        × IsPaired before start steps (suc l) b
  sample_pair-IsPaired l a below h =
      let first : Array ℤ = record a {
        cells = λ j. if j == start + l then low_sample else a.cells j;
      } in
      let second : Array ℤ = record first {
        cells = λ j. if j == start + steps + l then high_sample else first.cells j;
      } in
      (
        second,
        rw (store_lem (start + l) low_sample a (omega (arith, h.size)))
            (store_lem (start + steps + l) high_sample first (omega (arith, h.size))),
        record {
          size = h.size;
          kept = λ x lt. ground (arith, h.kept x lt);
          lows = λ m lt. ground (arith, h.lows m);
          highs = λ m lt. ground (arith, h.highs m);
        },
      )

  -- The innermost loop.
  pub pairs-IsPaired :
      (a : Array ℤ) × (for_range (sample_pair start steps) 0 steps before ≡ some a)
      × IsPaired before start steps steps a
  pairs-IsPaired =
      let (a, e, h) =
        for_range_inv (λ l a. IsPaired before start steps l a) (sample_pair start steps) 0 steps
          (λ l lo hi a h. sample_pair-IsPaired l a (omega arith) h) before
          (record {
            size = refl;
            kept = λ x lt. refl;
            lows = λ m lt. absurd (omega arith);
            highs = λ m lt. absurd (omega arith);
          }) in
      (a, e, subst (λ l. IsPaired before start steps l a) (omega arith) h)
