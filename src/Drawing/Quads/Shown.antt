-- ===== src/Drawing/Quads/Shown.antt =====
-- drawing/quads.py, class Shape: what is drawn of a shape that is enabled and disabled, against a
-- shape that only has its points and a switch.
use armv.Common.{
  ℕ, ◌+◌, ◌<◌, ◌≡◌, refl, sym, ap, ◌∙◌, arith, Bool, true, false, List, [], ◌∷◌, Option, none, some,
  ltb, leb, ◌&&◌, if◌then◌else◌,
}
use mathlib.Core.Path.{subst}
use armv.Drawing.Shapes.{filled}
use armv.Drawing.Quads.{
  Kind, num_points_of, Point, Corner, Shape, set_corners, origin, hidden, hide_unless, hide_if,
  disable, restored, enable, set_vertices,
}

module _ (F : Type 0) where
  -- The abstract shape.
  pub record Figure : Type 0 where
    pub shown : Bool
    pub points : ℕ → Corner F

  pub data Change : Type 0 where
    disabled enabled_again : Change
    placed : (bl tr : Point F) (z : F) → Change

-- What the points are set to does not depend on what they were.
set_corners_all :
    {F : Type 0} (kind : Kind) (bl tr : Point F) (z : F) (old other : ℕ → Corner F) (i : ℕ)
    → i < num_points_of kind
    → set_corners kind bl tr z old i ≡ set_corners kind bl tr z other i
set_corners_all Kind.quad bl tr z old other i h = ground arith
set_corners_all Kind.line bl tr z old other i h = ground arith
set_corners_all Kind.vertex bl tr z old other i h = ground arith

module _ {F : Type 0} (zero_f : F) (kind : Kind) where
  abbrev pub changed : Change F → Shape F → Shape F
  changed Change.disabled s = disable zero_f kind s
  changed Change.enabled_again s = enable zero_f kind s
  changed (Change.placed bl tr z) s = set_vertices zero_f kind bl tr z s

  abbrev pub figure_changed : Change F → Figure F → Figure F
  figure_changed Change.disabled f = record f { shown = false }
  figure_changed Change.enabled_again f = record f { shown = true }
  figure_changed (Change.placed bl tr z) f = record f { points = set_corners kind bl tr z f.points }

  -- The kept points are those of a figure that is not shown.
  abbrev pub Keeps : Option (ℕ → Corner F) → Figure F → Type 0
  Keeps none f = f.shown ≡ true
  Keeps (some old) f = (f.shown ≡ false) × ((i : ℕ) → i < num_points_of kind → old i ≡ f.points i)

  -- The shape draws the figure: its points where it is shown, and else one point.
  pub record Draws (s : Shape F) (f : Figure F) : Type 0 where
    pub alive : s.deleted ≡ false
    pub switch : s.enabled ≡ f.shown
    pub drawn :
        (i : ℕ)
        → i < num_points_of kind
        → s.corners i ≡ (if f.shown then f.points i else origin zero_f kind i)
    pub keeps : Keeps s.old_vertices f

  filled_all :
      (values old : ℕ → Corner F) (i : ℕ)
      → i < num_points_of kind
      → filled 0 (num_points_of kind) values old i ≡ values i
  filled_all values old i h = rw (inside) refl
    where
      inside : (leb 0 i && ltb i (0 + num_points_of kind)) ≡ true
      inside = ground arith

  hidden-Draws :
      (s : Shape F) (points : ℕ → Corner F)
      → s.deleted ≡ false
      → s.enabled ≡ false
      → ((i : ℕ) → i < num_points_of kind → s.corners i ≡ points i)
      → Draws (hidden zero_f kind s) (record { shown = false; points = points })
  hidden-Draws s points a e same = record {
    alive = a;
    switch = e;
    drawn = λ i l. filled_all (origin zero_f kind) s.corners i l;
    keeps = (refl, same);
  }

  disable-Draws :
      (old : Option (ℕ → Corner F)) (s : Shape F) (f : Figure F)
      → s.old_vertices ≡ old
      → Keeps old f
      → Draws s f
      → Draws
          (hide_unless zero_f kind old (record s { enabled = false }))
          (record f { shown = false })
  disable-Draws none s f e k h =
      hidden-Draws (record s { enabled = false }) f.points h.alive refl
        (λ i l. h.drawn i l ∙ ap (λ b. if b then f.points i else origin zero_f kind i) k)
  disable-Draws (some old) s f e k h = record {
    alive = h.alive;
    switch = refl;
    drawn = λ i l. h.drawn i l ∙ ap (λ b. if b then f.points i else origin zero_f kind i) k.0;
    keeps = subst (λ o. Keeps o (record f { shown = false })) (sym e) (refl, k.1);
  }

  enable-Draws :
      (old : Option (ℕ → Corner F)) (s : Shape F) (f : Figure F)
      → s.old_vertices ≡ old
      → Keeps old f
      → Draws s f
      → Draws (restored zero_f kind old (record s { enabled = true })) (record f { shown = true })
  enable-Draws none s f e k h = record {
    alive = h.alive;
    switch = refl;
    drawn = λ i l. h.drawn i l ∙ ap (λ b. if b then f.points i else origin zero_f kind i) k;
    keeps = subst (λ o. Keeps o (record f { shown = true })) (sym e) refl;
  }
  enable-Draws (some old) s f e k h = record {
    alive = h.alive;
    switch = refl;
    drawn = λ i l. filled_all old s.corners i l ∙ k.1 i l;
    keeps = refl;
  }

  place-Draws :
      (old : Option (ℕ → Corner F)) (bl tr : Point F) (z : F) (s : Shape F) (f : Figure F)
      → s.old_vertices ≡ old
      → Keeps old f
      → Draws s f
      → Draws
          (hide_if zero_f kind old (record s { corners = set_corners kind bl tr z s.corners }))
          (record f { points = set_corners kind bl tr z f.points })
  place-Draws none bl tr z s f e k h = record {
    alive = h.alive;
    switch = h.switch;
    drawn = λ i l.
        set_corners_all kind bl tr z s.corners f.points i l
        ∙ ap (λ b. if b then set_corners kind bl tr z f.points i else origin zero_f kind i) (sym k);
    keeps =
        subst (λ o. Keeps o (record f { points = set_corners kind bl tr z f.points })) (sym e) k;
  }
  place-Draws (some old) bl tr z s f e k h = record {
    alive = h.alive;
    switch = h.switch;
    drawn = λ i l.
        filled_all (origin zero_f kind) (set_corners kind bl tr z s.corners) i l
        ∙ ap (λ b. if b then set_corners kind bl tr z f.points i else origin zero_f kind i)
            (sym k.0);
    keeps = (k.0, λ i l. set_corners_all kind bl tr z s.corners f.points i l);
  }

  if_alive :
      (s other : Shape F) (f : Figure F)
      → s.deleted ≡ false
      → Draws other f
      → Draws (if s.deleted then s else other) f
  if_alive s other f e h = subst (λ b. Draws (if b then s else other) f) (sym e) h

  changed-Draws :
      (c : Change F) (s : Shape F) (f : Figure F)
      → Draws s f
      → Draws (changed c s) (figure_changed c f)
  unfolding disable enable set_vertices
  changed-Draws Change.disabled s f h =
      if_alive s _ _ h.alive (disable-Draws s.old_vertices s f refl h.keeps h)
  changed-Draws Change.enabled_again s f h =
      if_alive s _ _ h.alive (enable-Draws s.old_vertices s f refl h.keeps h)
  changed-Draws (Change.placed bl tr z) s f h =
      if_alive s _ _ h.alive (place-Draws s.old_vertices bl tr z s f refl h.keeps h)

  abbrev pub run : List (Change F) → Shape F → Shape F
  run [] s = s
  run (c ∷ cs) s = run cs (changed c s)

  abbrev pub figure_run : List (Change F) → Figure F → Figure F
  figure_run [] f = f
  figure_run (c ∷ cs) f = figure_run cs (figure_changed c f)

  -- Through any calls of disable, enable and set_vertices on a shape that is not deleted, it draws
  -- the points that were set last while it is enabled, and all its points in the corner while it is
  -- disabled, also if the points are set meanwhile.
  pub run-Draws :
      (changes : List (Change F)) (s : Shape F) (f : Figure F)
      → Draws s f
      → Draws (run changes s) (figure_run changes f)
  run-Draws [] s f h = h
  run-Draws (c ∷ cs) s f h = run-Draws cs (changed c s) (figure_changed c f) (changed-Draws c s f h)
