-- ===== src/Common/Count.antt =====
-- How often an item stands in a list of numbers, and a list without one item.
use armv.Common.Tests.{◌==◌, if◌then◌else◌, ltb, leb, ==_self, ==_iff, ne→==, Bool-cases}
use armv.Common.Lists.{length, get_elem?}
use Prim.Native.Nat.{ℕ, zero, suc, ◌+◌, ◌-◌, ◌<◌}
use mathlib.Core.Path.{◌≡◌, refl, ap}
use mathlib.Core.Logic.{◌≢◌, inl, inr}
use mathlib.Core.Option.{some}
use mathlib.Core.List.{List, [], ◌∷◌}
use native.Mathlib.Omega.{arith}

unfoldable pub count : ℕ → List ℕ → ℕ
count a [] = 0
count a (x ∷ xs) = (if x == a then 1 else 0) + count a xs

-- The list without the first `a` in it.
unfoldable pub without_one : ℕ → List ℕ → List ℕ
without_one a [] = []
without_one a (x ∷ xs) = if x == a then xs else x ∷ without_one a xs

pub count_cons_self : (a : ℕ) (xs : List ℕ) → count a (a ∷ xs) ≡ 1 + count a xs
unfolding count
count_cons_self a xs = rw (==_self a)

pub count_cons_ne : (a x : ℕ) (xs : List ℕ) → x ≢ a → count a (x ∷ xs) ≡ count a xs
unfolding count
count_cons_ne a x xs h = ground (arith, ne→== x a h)

pub count_nil : (a : ℕ) → count a [] ≡ 0
unfolding count
count_nil a = refl

pub count-without_one :
    (a b : ℕ) (xs : List ℕ)
    → count b (without_one a xs) ≡ (if a == b then count b xs - 1 else count b xs)
unfolding count without_one
count-without_one a b [] = ground arith
count-without_one a b (x ∷ xs) = ground (arith, count-without_one a b xs)

pub length-without_one :
    (a : ℕ) (xs : List ℕ) → 0 < count a xs → 1 + length (without_one a xs) ≡ length xs
unfolding count without_one
length-without_one a [] h = absurd (omega arith)
length-without_one a (x ∷ xs) h = ground (arith, length-without_one a xs)

pub count-get_elem? : (xs : List ℕ) (i a : ℕ) → get_elem? xs i ≡ some a → 0 < count a xs
unfolding count
count-get_elem? [] i a e = cc
count-get_elem? (x ∷ xs) zero a e = ground (arith, some_eq e)
  where
    some_eq : some x ≡ some a → x ≡ a
    some_eq e = cc
count-get_elem? (x ∷ xs) (suc i) a e = ground (arith, count-get_elem? xs i a e)

pub count_cons : (a x : ℕ) (xs : List ℕ) → count a (x ∷ xs) ≡ (if x == a then 1 else 0) + count a xs
unfolding count
count_cons a x xs = refl

-- An item of a list, moved to the front of another, is held as often as before.
pub count_moved :
    (a i : ℕ) (xs ys : List ℕ)
    → 0 < count a ys
    → count i (a ∷ xs) + count i (without_one a ys) ≡ count i xs + count i ys
count_moved a i xs ys h = elim (Bool-cases (a == i)) [
  | inl e ↦ omega (
    arith,
    count_cons i a xs,
    count-without_one a i ys,
    ap {B = ℕ} (λ t. if t then 1 else 0) e,
    ap (λ t. if t then count i ys - 1 else count i ys) e,
    ap (λ n. count n ys) ((==_iff a i).0 e),
  )
  | inr e ↦ omega (
    arith,
    count_cons i a xs,
    count-without_one a i ys,
    ap {B = ℕ} (λ t. if t then 1 else 0) e,
    ap (λ t. if t then count i ys - 1 else count i ys) e,
  )
]

-- list(range(start, start + n))
unfoldable pub range : ℕ → ℕ → List ℕ
range start zero = []
range start (suc n) = start ∷ range (start + 1) n

pub count-range :
    (start n i : ℕ)
    → count i (range start n) ≡ (if leb start i then if ltb i (start + n) then 1 else 0 else 0)
unfolding range count
count-range start zero i = ground arith
count-range start (suc n) i = ground (arith, count-range (start + 1) n i)
