-- ===== src/Drawing/Shapes/Traces.antt =====
-- drawing/quads.py, class ShapeBuffer: what holds after any calls of its clients.
use armv.Common.{
  ℕ, ◌+◌, ◌*◌, ◌<◌, ◌≡◌, inl, inr, refl, List, [], ◌∷◌, Option, none, some, Exn, Result, ok, raised,
  get_elem?, ltb, ltb→le, Bool-cases, Option-cases, arith, some_eq, sym, ap, ◌∙◌,
}
use mathlib.Core.Path.{subst}
use armv.Common.Count.{count, without_one, count-get_elem?, count_cons_self}
use armv.Drawing.Shapes.{
  ShapeBuffer, new_buffer, popped, or_first, next_shape, truncate, remove_shape,
}
use armv.Drawing.Shapes.Live.{IsSound, new_buffer-IsSound}
use armv.Drawing.Shapes.Given.{reset-IsSound, extended-IsSound, refused-IsSound}
use armv.Drawing.Shapes.Removed.{shapes_below, remove_shape-IsSound, truncate-IsSound}

module _ {F : Type 0} (zero_f one_f : F) where
  abbrev Sound : List ℕ → ShapeBuffer F → Type 0
  Sound = IsSound zero_f one_f

  -- The shapes that clients hold and the buffer after some calls: clients delete shapes that they
  -- hold, and a truncation takes the shapes behind it away.
  pub data Trace : List ℕ → ShapeBuffer F → Type 0 where
    created :
        (num_points size : ℕ) → 0 < num_points → Trace [] (new_buffer zero_f one_f num_points size)
    given :
        (live : List ℕ) (choice out : ℕ) (b : ShapeBuffer F)
        → Trace live b
        → (next_shape zero_f one_f choice b).0 ≡ ok out
        → Trace (out ∷ live) (next_shape zero_f one_f choice b).1
    refused :
        (live : List ℕ) (choice : ℕ) (e : Exn) (b : ShapeBuffer F)
        → Trace live b
        → (next_shape zero_f one_f choice b).0 ≡ raised e
        → Trace live (next_shape zero_f one_f choice b).1
    removed :
        (live : List ℕ) (index : ℕ) (b : ShapeBuffer F)
        → Trace live b
        → 0 < count index live
        → Trace (without_one index live) (remove_shape zero_f one_f index b)
    truncated :
        (live : List ℕ) (n : ℕ) (b : ShapeBuffer F)
        → Trace live b
        → Trace (shapes_below zero_f one_f b.num_points n live) (truncate zero_f one_f n b)

  -- What `next` gives out is added to the shapes that are held, and an exception adds none.
  abbrev taken : Result ℕ → List ℕ → List ℕ
  taken (ok out) live = out ∷ live
  taken (raised e) live = live

  or_first-count :
      (vacant : List ℕ) (choice out : ℕ)
      → or_first zero_f one_f vacant (get_elem? vacant choice) ≡ some out
      → 0 < count out vacant
  or_first-count [] choice out e = cc
  or_first-count (x ∷ xs) choice out e = elim (Option-cases (get_elem? (x ∷ xs) choice)) [
    | inl n ↦ omega (
      arith,
      count_cons_self x xs,
      ap (λ t. count t (x ∷ xs)) (some_eq (sym (ap (or_first zero_f one_f (x ∷ xs)) n) ∙ e)),
    )
    | inr (y, s) ↦
        count-get_elem? (x ∷ xs) choice out (s ∙ (sym (ap (or_first zero_f one_f (x ∷ xs)) s) ∙ e))
  ]

  popped-IsSound :
      (live : List ℕ) (b : ShapeBuffer F) (o : Option ℕ)
      → ((out : ℕ) → o ≡ some out → 0 < count out b.vacant)
      → Sound live b
      → Sound (taken (popped zero_f one_f o b).0 live) (popped zero_f one_f o b).1
  popped-IsSound live b (some out) v h = reset-IsSound zero_f one_f live b out (v out refl) h
  popped-IsSound live b none v h =
      elim (Bool-cases (ltb (b.size * b.num_points) (b.current_size + b.num_points))) [
        | inl e ↦ rw e (refused-IsSound zero_f one_f live b h)
        | inr e ↦ rw e (extended-IsSound zero_f one_f live b (ltb→le _ _ e) h)
      ]

  next_shape-IsSound :
      (live : List ℕ) (b : ShapeBuffer F) (choice : ℕ)
      → Sound live b
      → Sound (taken (next_shape zero_f one_f choice b).0 live) (next_shape zero_f one_f choice b).1
  unfolding next_shape
  next_shape-IsSound live b choice h =
      popped-IsSound live b (or_first zero_f one_f b.vacant (get_elem? b.vacant choice))
        (λ out e. or_first-count b.vacant choice out e) h

  after_next :
      {r : Result ℕ} (live : List ℕ) (b : ShapeBuffer F) (choice : ℕ)
      → (next_shape zero_f one_f choice b).0 ≡ r
      → Sound live b
      → Sound (taken r live) (next_shape zero_f one_f choice b).1
  after_next live b choice e h =
      subst (λ r. Sound (taken r live) (next_shape zero_f one_f choice b).1) e
        (next_shape-IsSound live b choice h)

  -- After any calls, no two shapes that clients hold share a point, each lies in the array and in
  -- front of current_size, no shape is held twice or held and vacant, each index of a
  -- held shape is its own point, and each index of a vacant one is 0.
  pub Trace-IsSound : (live : List ℕ) (b : ShapeBuffer F) → Trace live b → Sound live b
  Trace-IsSound live b (created num_points size h) =
      new_buffer-IsSound zero_f one_f num_points size h
  Trace-IsSound live b (given l choice out before t e) =
      after_next l before choice e (Trace-IsSound l before t)
  Trace-IsSound live b (refused l choice x before t e) =
      after_next l before choice e (Trace-IsSound l before t)
  Trace-IsSound live b (removed l index before t h) =
      remove_shape-IsSound zero_f one_f l before index h (Trace-IsSound l before t)
  Trace-IsSound live b (truncated l n before t) =
      truncate-IsSound zero_f one_f l before n (Trace-IsSound l before t)
