-- ===== src/Drawing/Shapes/Live.antt =====
-- drawing/quads.py, class ShapeBuffer: the shapes that are in use, over any calls of a client that
-- deletes only shapes it holds.
use armv.Common.{
  ℕ, ◌+◌, ◌-◌, ◌*◌, ◌<◌, ◌≤◌, ◌≡◌, ◌≢◌, inl, inr, refl, sym, ap, ◌∙◌, arith, List, [], ◌∷◌, false,
  ◌==◌, if◌then◌else◌, Bool-cases, ==_iff,
}
use armv.Common.Count.{count, without_one, count_cons_ne, count-without_one}
use armv.Drawing.Shapes.{ShapeBuffer, new_buffer, filled}
use armv.Drawing.Shapes.Apart.{IsApart, filled_above, filled_apart}
use mathlib.Core.Path.{subst}

-- How often each shape is held or vacant, in an array of `size` shapes used up to `current`: every
-- shape lies in the array and in front of `current`, no two overlap, and none is there twice.
pub record IsLayout (points size current : ℕ) (held : ℕ → ℕ) : Type 0 where
  pub inside : (i : ℕ) → 0 < held i → i + points ≤ current
  pub stored : (i : ℕ) → 0 < held i → i + points ≤ size * points
  pub apart : (i j : ℕ) → 0 < held i → 0 < held j → i ≢ j → IsApart points i j
  pub once : (i : ℕ) → held i ≤ 1

pub same-IsLayout :
    {points size current : ℕ} {held later : ℕ → ℕ}
    → ((i : ℕ) → later i ≡ held i)
    → IsLayout points size current held
    → IsLayout points size current later
same-IsLayout {points} {size} {current} same h =
    subst (IsLayout points size current) (λ t i. sym (same i) t) h

module _ {F : Type 0} (zero_f one_f : F) where
  abbrev pub held : List ℕ → ShapeBuffer F → ℕ → ℕ
  held live b i = count i live + count i b.vacant

  -- `live` are the shapes that clients hold. Each index of a held shape is its own point, each
  -- of a vacant one is 0, and behind the used part or the array every index is its own.
  pub record IsSound (live : List ℕ) (b : ShapeBuffer F) : Type 0 where
    pub points : 0 < b.num_points
    pub layout : IsLayout b.num_points b.size b.current_size (held live b)
    pub drawn : (i k : ℕ) → 0 < count i live → k < b.num_points → b.indices (i + k) ≡ i + k
    pub hidden : (i k : ℕ) → 0 < count i b.vacant → k < b.num_points → b.indices (i + k) ≡ 0
    pub untouched : (j : ℕ) → b.current_size ≤ j → b.indices j ≡ j
    pub beyond : (j : ℕ) → b.size * b.num_points ≤ j → b.indices j ≡ j

  pub new_buffer-IsSound :
      (num_points size : ℕ) → 0 < num_points → IsSound [] (new_buffer zero_f one_f num_points size)
  unfolding new_buffer count
  new_buffer-IsSound num_points size h = record {
    points = h;
    layout = record {
      inside = λ i k. absurd (omega arith);
      stored = λ i k. absurd (omega arith);
      apart = λ i j k l ne. absurd (omega arith);
      once = λ i. omega arith;
    };
    drawn = λ i k l m. refl;
    hidden = λ i k l m. absurd (omega arith);
    untouched = λ j h. refl;
    beyond = λ j h. refl;
  }

  vacant_count :
      (live : List ℕ) (b : ShapeBuffer F) (i : ℕ) → 0 < count i b.vacant → 0 < held live b i
  vacant_count live b i h = omega arith

  module _ (live : List ℕ) (b : ShapeBuffer F) (h : IsSound live b) (out : ℕ) (values : ℕ → ℕ) where
    -- Filling the indices of one shape leaves those of another, and what lies behind.
    pub kept :
        (i k : ℕ)
        → 0 < held live b out
        → 0 < held live b i
        → out ≢ i
        → k < b.num_points
        → filled out b.num_points values b.indices (i + k) ≡ b.indices (i + k)
    kept i k ho hi ne hk =
        filled_apart out b.num_points values b.indices i k (h.layout.apart out i ho hi ne) hk

    pub kept_behind :
        (j : ℕ)
        → 0 < held live b out
        → b.current_size ≤ j
        → filled out b.num_points values b.indices j ≡ j
    kept_behind j ho hj =
        filled_above out b.num_points values b.indices j (omega (arith, h.layout.inside out ho))
        ∙ h.untouched j hj

    pub kept_beyond :
        (j : ℕ)
        → 0 < held live b out
        → b.size * b.num_points ≤ j
        → filled out b.num_points values b.indices j ≡ j
    kept_beyond j ho hj =
        filled_above out b.num_points values b.indices j (omega (arith, h.layout.stored out ho))
        ∙ h.beyond j hj

  pub unequal : (a b : ℕ) → (a == b) ≡ false → a ≢ b
  unequal a b e same = cc ((==_iff a b).1 same)

  pub count_other : (a i : ℕ) (xs : List ℕ) → 0 < count i (a ∷ xs) → a ≢ i → 0 < count i xs
  count_other a i xs h ne = omega (arith, h, count_cons_ne i a xs ne)

  -- What is left of an item that is there once is another item.
  pub count_left :
      (a i : ℕ) (xs : List ℕ)
      → count a xs ≤ 1
      → 0 < count i (without_one a xs)
      → (a ≢ i) × (0 < count i xs)
  count_left a i xs once h = elim (Bool-cases (a == i)) [
    | inl e ↦ absurd (
        omega (
          arith,
          count-without_one a i xs,
          ap (λ t. if t then count i xs - 1 else count i xs) e,
          ap (λ n. count n xs) ((==_iff a i).0 e),
          h,
        ))
    | inr e ↦ (
      unequal a i e,
      omega (
        arith,
        count-without_one a i xs,
        ap (λ t. if t then count i xs - 1 else count i xs) e,
        h,
      ),
    )
  ]
