-- ===== src/Drawing/Shapes/Apart.antt =====
-- drawing/quads.py, class ShapeBuffer: filling the points of one shape, and shapes that do not overlap.
use armv.Common.{
  ℕ, ◌+◌, ◌<◌, ◌≤◌, ◌≡◌, ◌⊎◌, inl, inr, refl, arith, leb, le→leb, lt→leb, lt→ltb, le→ltb, ◌&&◌,
  Bool, true, false,
}
use armv.Drawing.Shapes.{filled}

-- The points of two shapes at `i` and `j` do not overlap.
abbrev pub IsApart : ℕ → ℕ → ℕ → Type 0
IsApart points i j = (i + points ≤ j) ⊎ (j + points ≤ i)

pub IsApart-sym : (points i j : ℕ) → IsApart points i j → IsApart points j i
IsApart-sym points i j (inl h) = inr h
IsApart-sym points i j (inr h) = inl h

and_false : (b : Bool) → (b && false) ≡ false
and_false true = refl
and_false false = refl

module _ {ℓ} {A : Type ℓ} (start points : ℕ) (values cells : ℕ → A) where
  pub filled_in :
      (k : ℕ) → k < points → filled start points values cells (start + k) ≡ values (start + k)
  filled_in k h =
      rw (le→leb start (start + k) (omega arith), lt→ltb (start + k) (start + points) (omega arith))

  pub filled_below : (j : ℕ) → j < start → filled start points values cells j ≡ cells j
  filled_below j h = rw (lt→leb start j h)

  pub filled_above : (j : ℕ) → start + points ≤ j → filled start points values cells j ≡ cells j
  filled_above j h = rw (le→ltb j (start + points) h, and_false (leb start j))

  pub filled_apart :
      (i k : ℕ)
      → IsApart points start i
      → k < points
      → filled start points values cells (i + k) ≡ cells (i + k)
  filled_apart i k (inl h) hk = filled_above (i + k) (omega arith)
  filled_apart i k (inr h) hk = filled_below (i + k) (omega arith)
