-- ===== src/Tapes/Samples/Widths.antt =====
-- popcnt.pyx: the place of every bit in the samples, and the size that count_array gives.
use armv.Common.{
  ℕ, zero, suc, ◌+◌, ◌-◌, ◌*◌, ◌/◌, ◌%◌, ◌^◌, ◌≤◌, ◌<◌, ◌≡◌, refl, ◌∙◌, List, [], ◌∷◌, arith,
  length, get_or,
}
use mathlib.Core.Path.{subst}
use armv.Tapes.Samples.{
  bit, popcount_from, popcount, count_from, count_array, steps_of, block_samples,
}

-- The bits of a block in the order in which they are written.
abbrev pub bit_at : List ℕ → ℕ → ℕ
bit_at ws t = bit (t % 32) (get_or ws (t / 32) 0)

one_more :
    (s o t b set_length clr_length : ℕ)
    → b < 2
    → o ≤ t
    → s ≡ 2 * (o * set_length + (t - o) * clr_length)
    → s + 2 * steps_of clr_length set_length b
      ≡ 2 * ((o + b) * set_length + (suc t - (o + b)) * clr_length)
one_more s o t zero set_length clr_length h le e =
    let f : suc t - (o + 0) ≡ suc (t - o) = omega arith in
    let g : o + 0 ≡ o = omega arith in rw (f, g) (grind arith)
one_more s o t (suc zero) set_length clr_length h le e =
    let f : suc t - (o + 1) ≡ t - o = omega arith in rw f (grind arith)
one_more s o t (suc (suc b)) set_length clr_length h le e = absurd (omega arith)

module _ (ws : List ℕ) (clr_length set_length : ℕ) where
  -- The first sample of bit `t`: two halves for each bit in front of it.
  unfoldable pub start_at : ℕ → ℕ
  start_at zero = 0
  start_at (suc t) = start_at t + 2 * steps_of clr_length set_length (bit_at ws t)

  pub start_at_mono : (t k : ℕ) → start_at t ≤ start_at (t + k)
  unfolding start_at
  start_at_mono t zero =
      let e : t ≡ t + 0 = omega arith in subst (λ u. start_at t ≤ start_at u) e (omega arith)
  start_at_mono t (suc k) =
      let e : suc (t + k) ≡ t + suc k = omega arith in
      subst (λ u. start_at t ≤ start_at u) e (omega (arith, start_at_mono t k))

  -- How many of the first `t` bits are set.
  ones : ℕ → ℕ
  ones zero = 0
  ones (suc t) = ones t + bit_at ws t

  ones_le : (t : ℕ) → ones t ≤ t
  unfolding ones
  ones_le zero = omega arith
  ones_le (suc t) = omega (arith, ones_le t)

  start_at-ones : (t : ℕ) → start_at t ≡ 2 * (ones t * set_length + (t - ones t) * clr_length)
  unfolding start_at ones
  start_at-ones zero = omega arith
  start_at-ones (suc t) =
      one_more (start_at t) (ones t) t (bit_at ws t) set_length clr_length (omega arith) (ones_le t)
        (start_at-ones t)

  popcount_from-ones :
      (i k : ℕ) → k ≤ 32 → ones (32 * i + k) ≡ ones (32 * i) + popcount_from k (get_or ws i 0)
  unfolding popcount_from ones
  popcount_from-ones i zero h = let e : 32 * i + 0 ≡ 32 * i = omega arith in rw e (omega arith)
  popcount_from-ones i (suc k) h =
      let e : 32 * i + suc k ≡ suc (32 * i + k) = omega arith in
      let d : (32 * i + k) / 32 ≡ i = omega arith in
      let m : (32 * i + k) % 32 ≡ k = omega arith in
      rw (e, ones, d, m) (omega (arith, popcount_from-ones i k (omega arith)))

-- The bits of the first `n` words that are set, and of all words.
sum_to : List ℕ → ℕ → ℕ
sum_to ws zero = 0
sum_to ws (suc n) = sum_to ws n + popcount (get_or ws n 0)

total : List ℕ → ℕ
total [] = 0
total (w ∷ ws) = popcount w + total ws

sum_to_cons : (w : ℕ) (ws : List ℕ) (n : ℕ) → sum_to (w ∷ ws) (suc n) ≡ popcount w + sum_to ws n
unfolding sum_to
sum_to_cons w ws zero = omega arith
sum_to_cons w ws (suc n) = omega (arith, sum_to_cons w ws n)

sum_to-total : (ws : List ℕ) → sum_to ws (length ws) ≡ total ws
unfolding total
sum_to-total [] = unfold sum_to in refl
sum_to-total (w ∷ ws) = omega (arith, sum_to_cons w ws (length ws), sum_to-total ws)

popcount_from_le : (k w : ℕ) → popcount_from k w ≤ k
unfolding popcount_from
popcount_from_le zero w = omega arith
popcount_from_le (suc k) w = omega (arith, popcount_from_le k w)

total_le : (ws : List ℕ) → total ws ≤ 32 * length ws
unfolding total
total_le [] = omega arith
total_le (w ∷ ws) = omega (arith, total_le ws, popcount_from_le 32 w)

count_from-total :
    (n : ℕ) (ws : List ℕ) → n + 32 * length ws < 2 ^ 32 → count_from n ws ≡ n + total ws
unfolding count_from total
count_from-total n [] h = omega arith
count_from-total n (w ∷ ws) h =
    let e : (n + popcount w) % 2 ^ 32 ≡ n + popcount w = omega (arith, popcount_from_le 32 w) in
    rw e
      (omega (arith, count_from-total (n + popcount w) ws (omega (arith, popcount_from_le 32 w))))

module _ (ws : List ℕ) (clr_length set_length : ℕ) where
  ones-sum_to : (n : ℕ) → ones ws clr_length set_length (32 * n) ≡ sum_to ws n
  unfolding sum_to
  ones-sum_to zero = unfold ones in refl
  ones-sum_to (suc n) =
      let e : 32 * suc n ≡ 32 * n + 32 = omega arith in
      rw e (
        omega
          (arith, ones-sum_to n, popcount_from-ones ws clr_length set_length n 32 (omega arith)))

  -- count_array sizes the samples as the bits fill them.
  pub start_at-block_samples :
      32 * length ws < 2 ^ 32
      → start_at ws clr_length set_length (32 * length ws) ≡ block_samples ws clr_length set_length
  start_at-block_samples h =
      let o : ones ws clr_length set_length (32 * length ws) ≡ count_array ws =
        omega
          (arith, ones-sum_to (length ws), sum_to-total ws, count_from-total 0 ws (omega arith)) in
      let e : 32 * length ws ≡ length ws * 32 = omega arith in
      start_at-ones ws clr_length set_length (32 * length ws) ∙ rw (o, e) refl
