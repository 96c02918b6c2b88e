-- ===== src/Drawing/Shapes/Removed.antt =====
-- drawing/quads.py, class ShapeBuffer: remove_shape and truncate keep the buffer sound.
use armv.Common.{
  ℕ, ◌+◌, ◌*◌, ◌<◌, ◌≤◌, ◌≡◌, inl, inr, sym, ap, ◌∙◌, arith, List, [], ◌∷◌, leb, ltb, ◌==◌,
  if◌then◌else◌, Bool-cases, ltb→lt, ltb→le, leb→le, ==_iff,
}
use armv.Common.Count.{count, without_one, count_moved, count_nil}
use armv.Drawing.Shapes.{ShapeBuffer, add, filled, truncate, remove_shape}
use armv.Drawing.Shapes.Apart.{filled_in, filled_above}
use mathlib.Core.Path.{subst}
use armv.Drawing.Shapes.Live.{
  same-IsLayout, IsSound, kept, kept_behind, kept_beyond, count_other, count_left, unequal,
}

module _ {F : Type 0} (zero_f one_f : F) where
  add_new :
      (index : ℕ) (vacant : List ℕ) → count index vacant ≡ 0 → add index vacant ≡ index ∷ vacant
  unfolding add
  add_new index vacant h = rw h

  pub remove_shape-IsSound :
      (live : List ℕ) (b : ShapeBuffer F) (index : ℕ)
      → 0 < count index live
      → IsSound zero_f one_f live b
      → IsSound zero_f one_f (without_one index live) (remove_shape zero_f one_f index b)
  unfolding remove_shape
  remove_shape-IsSound live b index l h =
      rw (add_new index b.vacant (omega (arith, h.layout.once index))) (record {
        points = h.points;
        layout = same-IsLayout (λ i. omega (arith, count_moved index i b.vacant live l)) h.layout;
        drawn = λ i k m n.
            let (ne, li) =
              count_left zero_f one_f index i live (omega (arith, h.layout.once index)) m in
            kept zero_f one_f live b h index (λ j. 0) i k (omega arith) (omega (arith, li)) ne n
            ∙ h.drawn i k li n;
        hidden = λ i k m n. elim (Bool-cases (index == i)) [
          | inl e ↦
              rw (sym ((==_iff index i).0 e)) (filled_in index b.num_points (λ j. 0) b.indices k n)
          | inr e ↦
              (let ne = unequal zero_f one_f index i e in
                kept zero_f one_f live b h index (λ j. 0) i k (omega arith)
                  (omega (arith, count_other zero_f one_f index i b.vacant m ne)) ne n
                ∙ h.hidden i k (count_other zero_f one_f index i b.vacant m ne) n)
        ];
        untouched = λ j m. kept_behind zero_f one_f live b h index (λ j. 0) j (omega arith) m;
        beyond = λ j m. kept_beyond zero_f one_f live b h index (λ j. 0) j (omega arith) m;
      })

  -- The shapes that end at `n` or in front of it.
  unfoldable pub shapes_below : (points n : ℕ) → List ℕ → List ℕ
  shapes_below points n [] = []
  shapes_below points n (i ∷ live) =
      let rest = shapes_below points n live in if leb (i + points) n then i ∷ rest else rest

  count-shapes_below :
      (points n i : ℕ) (live : List ℕ)
      → count i (shapes_below points n live) ≡ (if leb (i + points) n then count i live else 0)
  unfolding shapes_below count
  count-shapes_below points n i [] = ground arith
  count-shapes_below points n i (x ∷ live) = ground (arith, count-shapes_below points n i live)

  pub truncate-IsSound :
      (live : List ℕ) (b : ShapeBuffer F) (n : ℕ)
      → IsSound zero_f one_f live b
      → IsSound zero_f one_f (shapes_below b.num_points n live) (truncate zero_f one_f n b)
  unfolding truncate
  truncate-IsSound live b n h = record {
    points = h.points;
    layout = record {
      inside = λ i k. (left i k).0;
      stored = λ i k. h.layout.stored i (omega (arith, (left i k).1));
      apart = λ i j k l ne.
          h.layout.apart i j (omega (arith, (left i k).1)) (omega (arith, (left j l).1)) ne;
      once = λ i. elim (Bool-cases (leb (i + b.num_points) n)) [
        | inl e ↦ omega (
          arith,
          count-shapes_below b.num_points n i live,
          ap (λ t. if t then count i live else 0) e,
          count_nil i,
          h.layout.once i,
        )
        | inr e ↦ omega (
          arith,
          count-shapes_below b.num_points n i live,
          ap (λ t. if t then count i live else 0) e,
          count_nil i,
        )
      ];
    };
    drawn = λ i k l m. own (i + k);
    hidden = λ i k l m. absurd (omega (arith, count_nil i, l));
    untouched = λ j m. own j;
    beyond = λ j m. own j;
  }
    where
      zero_plus : (j : ℕ) → 0 + j ≡ j
      zero_plus j = omega arith

      left :
          (i : ℕ)
          → 0 < count i (shapes_below b.num_points n live) + count i []
          → (i + b.num_points ≤ n) × (0 < count i live)
      left i k = elim (Bool-cases (leb (i + b.num_points) n)) [
        | inl e ↦ (
          leb→le (i + b.num_points) n e,
          omega (
            arith,
            count-shapes_below b.num_points n i live,
            ap (λ t. if t then count i live else 0) e,
            count_nil i,
          ),
        )
        | inr e ↦ absurd (
            omega (
              arith,
              count-shapes_below b.num_points n i live,
              ap (λ t. if t then count i live else 0) e,
              count_nil i,
            ))
      ]

      own : (j : ℕ) → filled 0 (b.size * b.num_points) (λ i. i) b.indices j ≡ j
      own j = elim (Bool-cases (ltb j (b.size * b.num_points))) [
        | inl e ↦
            subst (λ t. filled 0 (b.size * b.num_points) (λ i. i) b.indices t ≡ t) (zero_plus j)
              (filled_in 0 (b.size * b.num_points) (λ i. i) b.indices j (ltb→lt j _ e))
        | inr e ↦
            filled_above 0 (b.size * b.num_points) (λ i. i) b.indices j
              (omega (arith, ltb→le j (b.size * b.num_points) e))
            ∙ h.beyond j (ltb→le j _ e)
      ]
