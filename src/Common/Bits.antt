-- ===== src/Common/Bits.antt =====
-- `bit_and` with a mask, as the fields of digits that the mask keeps.
use Prim.Native.Nat.{
  ℕ, zero, suc, ◌+◌, ◌-◌, ◌*◌, ◌/◌, ◌%◌, ◌^◌, ◌≤◌, ◌<◌, min, bit_and, digits, bit_and-bitwise,
}
use mathlib.Core.Path.{◌≡◌, refl, sym, ap, ◌∙◌}
use mathlib.Core.Bool.{Bool, true, ◌&&◌}
use native.Mathlib.Omega.{arith}
use native.Mathlib.Nat.{
  pow-succ', one-le-pow, div-div-eq-div-mul, mul_assoc, pow-suc, mod-eq-sub-div-mul,
  div-mul-le_self,
}

abbrev digits_and : ℕ → ℕ → ℕ → ℕ
digits_and fuel a b = digits (λ b. zero) min fuel a b

more_fuel : (n m a b : ℕ) → a ≤ n → a ≤ m → digits_and n a b ≡ digits_and m a b
more_fuel n m zero b p q = no_digit n ∙ sym (no_digit m)
  where
    no_digit : (k : ℕ) → digits_and k zero b ≡ zero
    no_digit zero = refl
    no_digit (suc k) = refl
more_fuel zero m (suc a) b p q = absurd (omega arith)
more_fuel (suc n) zero (suc a) b p q = absurd (omega arith)
more_fuel (suc n) (suc m) (suc a) b p q =
    omega (arith, more_fuel n m (suc a / 2) (b / 2) (omega arith) (omega arith))

-- The lowest digit, and the others.
pub bit_and_digit : (a b : ℕ) → bit_and a b ≡ bit_and (a / 2) (b / 2) * 2 + min (a % 2) (b % 2)
bit_and_digit zero b = omega (arith, bit_and-bitwise 0 b, bit_and-bitwise 0 (b / 2))
bit_and_digit (suc a) b = omega (
  arith,
  bit_and-bitwise (suc a) b,
  bit_and-bitwise (suc a / 2) (b / 2),
  more_fuel a (suc a / 2) (suc a / 2) (b / 2) (omega arith) (omega arith),
)

half_twice : (a k : ℕ) → a / 2 / 2 ^ k ≡ a / 2 ^ suc k
half_twice a k = div-div-eq-div-mul a 2 (2 ^ k) ∙ ap (λ m. a / m) (sym (pow-succ' 2 k))

times_double : (high k : ℕ) → high * 2 ^ suc k ≡ high * 2 ^ k * 2
times_double high k = ap (λ m. high * m) (pow-suc 2 k) ∙ sym (mul_assoc high (2 ^ k) 2)

bit_and_zero : (n a : ℕ) → a ≤ n → bit_and a 0 ≡ 0
bit_and_zero n zero h = omega (arith, bit_and-bitwise 0 0)
bit_and_zero zero (suc a) h = absurd (omega arith)
bit_and_zero (suc n) (suc a) h =
    omega (arith, bit_and_digit (suc a) 0, bit_and_zero n (suc a / 2) (omega arith))

-- A mask of `k` digits and the digits above them.
pub bit_and-add :
    (k a high low : ℕ)
    → low < 2 ^ k
    → bit_and a (high * 2 ^ k + low) ≡ bit_and (a / 2 ^ k) high * 2 ^ k + bit_and a low
bit_and-add zero a high low h = omega (
  arith,
  ap (λ m. bit_and a m) (one_high),
  ap (λ m. bit_and m high) (one_a),
  ap (λ m. bit_and a m) (no_low),
  bit_and_zero a a (omega arith),
)
  where
    one_high : high * 1 + low ≡ high
    one_high = omega arith

    one_a : a / 1 ≡ a
    one_a = omega arith

    no_low : low ≡ 0
    no_low = omega arith
bit_and-add (suc k) a high low h = omega (
  arith,
  bit_and_digit a (high * 2 ^ suc k + low),
  bit_and_digit a low,
  ap (bit_and (a / 2)) upper,
  bit_and-add k (a / 2) high (low / 2) (omega (arith, pow-succ' 2 k)),
  ap (λ m. bit_and m high) (half_twice a k),
  times_double high k,
  times_double (bit_and (a / 2 ^ suc k) high) k,
  ap (λ m. m * 2 ^ k) (ap (λ m. bit_and m high) (half_twice a k)),
)
  where
    upper : (high * 2 ^ suc k + low) / 2 ≡ high * 2 ^ k + low / 2
    upper = omega (arith, times_double high k)

-- A mask of `k` ones.
pub bit_and_ones : (k a : ℕ) → bit_and a (2 ^ k - 1) ≡ a % 2 ^ k
bit_and_ones zero a = omega (arith, bit_and_zero a a (omega arith))
bit_and_ones (suc k) a = omega (
  arith,
  bit_and_digit a (2 ^ suc k - 1),
  ap (bit_and (a / 2)) upper,
  bit_and_ones k (a / 2),
  pow-succ' 2 k,
  one-le-pow k 2 (omega arith),
  lowest,
)
  where
    upper : (2 ^ suc k - 1) / 2 ≡ 2 ^ k - 1
    upper = omega (arith, pow-succ' 2 k)

    lowest : a % 2 ^ suc k ≡ a / 2 % 2 ^ k * 2 + a % 2
    lowest = omega (
      arith,
      mod-eq-sub-div-mul a (2 ^ suc k),
      mod-eq-sub-div-mul (a / 2) (2 ^ k),
      div-mul-le_self (a / 2) (2 ^ k),
      ap (λ m. m * 2 ^ k) (half_twice a k),
      times_double (a / 2 ^ suc k) k,
    )

-- A test that holds of every number below `n`.
unfoldable pub all_below : ℕ → (ℕ → Bool) → Bool
all_below zero p = true
all_below (suc n) p = p n && all_below n p

pub all_below_sound : (n k : ℕ) (p : ℕ → Bool) → all_below n p ≡ true → k < n → p k ≡ true
unfolding all_below
all_below_sound zero k p h lt = absurd (omega arith)
all_below_sound (suc n) k p h lt = ground (arith, all_below_sound n k p)
