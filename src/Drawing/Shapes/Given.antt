-- ===== src/Drawing/Shapes/Given.antt =====
-- drawing/quads.py, class ShapeBuffer: `next` keeps the buffer sound.
use armv.Common.{
  ℕ, ◌+◌, ◌*◌, ◌<◌, ◌≤◌, ◌≡◌, ◌⊎◌, inl, inr, sym, ap, ◌∙◌, arith, List, ◌∷◌, ltb, ◌==◌,
  if◌then◌else◌, Bool-cases, ltb→lt, ltb→le, ==_iff,
}
use armv.Common.Count.{count, count_cons, count_moved}
use armv.Drawing.Shapes.{ShapeBuffer, reset}
use armv.Drawing.Shapes.Apart.{filled_in}
use armv.Drawing.Shapes.Live.{
  same-IsLayout, held, IsSound, kept, kept_behind, kept_beyond, count_other, count_left, unequal,
}

module _ {F : Type 0} (zero_f one_f : F) where
  -- A vacant shape is given out again.
  pub reset-IsSound :
      (live : List ℕ) (b : ShapeBuffer F) (out : ℕ)
      → 0 < count out b.vacant
      → IsSound zero_f one_f live b
      → IsSound zero_f one_f (out ∷ live) (reset zero_f one_f out b)
  reset-IsSound live b out v h = record {
    points = h.points;
    layout = same-IsLayout (λ i. count_moved out i live b.vacant v) h.layout;
    drawn = λ i k l m. elim (Bool-cases (out == i)) [
      | inl e ↦ rw (sym ((==_iff out i).0 e)) (filled_in out b.num_points (λ j. j) b.indices k m)
      | inr e ↦
          (let ne = unequal zero_f one_f out i e in
            kept zero_f one_f live b h out (λ j. j) i k (omega arith)
              (omega (arith, count_other zero_f one_f out i live l ne)) ne m
            ∙ h.drawn i k (count_other zero_f one_f out i live l ne) m)
    ];
    hidden = λ i k l m.
        let (ne, vi) =
          count_left zero_f one_f out i b.vacant (omega (arith, h.layout.once out)) l in
        kept zero_f one_f live b h out (λ j. j) i k (omega arith) (omega (arith, vi)) ne m
        ∙ h.hidden i k vi m;
    untouched = λ j m. kept_behind zero_f one_f live b h out (λ j. j) j (omega arith) m;
    beyond = λ j m. kept_beyond zero_f one_f live b h out (λ j. j) j (omega arith) m;
  }

  -- A shape is added at the end, where there is room for it.
  pub extended-IsSound :
      (live : List ℕ) (b : ShapeBuffer F)
      → b.current_size + b.num_points ≤ b.size * b.num_points
      → IsSound zero_f one_f live b
      → IsSound zero_f one_f
          (b.current_size ∷ live)
          (record b { current_size = b.current_size + b.num_points })
  extended-IsSound live b room h = record {
    points = h.points;
    layout = record {
      inside = λ i k. elim (split i k) [
        | inl e ↦ omega (arith, e)
        | inr l ↦ omega (arith, h.layout.inside i l)
      ];
      stored =
          λ i k. elim (split i k) [ inl e ↦ omega (arith, e, room) | inr l ↦ h.layout.stored i l ];
      apart = λ i j k l ne. elim (split i k) [
        | inl e ↦ elim (split j l) [
          | inl f ↦ absurd (ne (sym e ∙ f))
          | inr m ↦ inr (omega (arith, e, h.layout.inside j m))
        ]
        | inr m ↦ elim (split j l) [
          | inl f ↦ inl (omega (arith, f, h.layout.inside i m))
          | inr n ↦ h.layout.apart i j m n ne
        ]
      ];
      once = λ i. elim (Bool-cases (b.current_size == i)) [
        | inl e ↦ omega (
          arith,
          count_cons i b.current_size live,
          ap {B = ℕ} (λ t. if t then 1 else 0) e,
          new_here i ((==_iff b.current_size i).0 e),
        )
        | inr e ↦ omega (
          arith,
          count_cons i b.current_size live,
          ap {B = ℕ} (λ t. if t then 1 else 0) e,
          h.layout.once i,
        )
      ];
    };
    drawn = λ i k l m. elim (Bool-cases (b.current_size == i)) [
      | inl e ↦ h.untouched (i + k) (omega (arith, (==_iff b.current_size i).0 e))
      | inr e ↦
          h.drawn i k
            (omega
              (arith, count_cons i b.current_size live, ap {B = ℕ} (λ t. if t then 1 else 0) e, l))
            m
    ];
    hidden = h.hidden;
    untouched = λ j m. h.untouched j (omega arith);
    beyond = h.beyond;
  }
    where
      split :
          (i : ℕ)
          → 0 < count i (b.current_size ∷ live) + count i b.vacant
          → (b.current_size ≡ i) ⊎ (0 < held zero_f one_f live b i)
      split i k = elim (Bool-cases (b.current_size == i)) [
        | inl e ↦ inl ((==_iff b.current_size i).0 e)
        | inr e ↦ inr (
            omega
              (arith, count_cons i b.current_size live, ap {B = ℕ} (λ t. if t then 1 else 0) e, k))
      ]

      -- Nothing is held at the end.
      new_here : (i : ℕ) → b.current_size ≡ i → held zero_f one_f live b i ≡ 0
      new_here i e = elim (Bool-cases (ltb 0 (held zero_f one_f live b i))) [
        | inl l ↦ absurd (
            omega (arith, h.layout.inside i (ltb→lt 0 (held zero_f one_f live b i) l), h.points, e))
        | inr l ↦ omega (arith, ltb→le 0 (held zero_f one_f live b i) l)
      ]

  -- A buffer without room only moves its size on.
  pub refused-IsSound :
      (live : List ℕ) (b : ShapeBuffer F)
      → IsSound zero_f one_f live b
      → IsSound zero_f one_f live (record b { current_size = b.current_size + b.num_points })
  refused-IsSound live b h = record {
    points = h.points;
    layout = record {
      inside = λ i k. omega (arith, h.layout.inside i k);
      stored = h.layout.stored;
      apart = h.layout.apart;
      once = h.layout.once;
    };
    drawn = h.drawn;
    hidden = h.hidden;
    untouched = λ j m. h.untouched j (omega arith);
    beyond = h.beyond;
  }
