-- ===== src/Drawing/QuadTests.antt =====
-- Shapes of drawing/quads.py on concrete calls, and their property at a concrete input.
use armv.Common.{ℕ, ◌≡◌, refl, true, false, List, [], ◌∷◌, none}
use armv.Drawing.Quads.{Kind, Shape, set_all_vertices, enable, disable, set_vertices}
use armv.Drawing.Quads.Shown.{Figure, Change, Draws, run, figure_run, run-Draws}

abbrev blank : Shape ℕ
blank = record {
  corners = λ i. (0, 0, 0);
  colour = λ i. (1, 1, 1, 1);
  back_colour = λ i. (1, 1, 1, 1);
  old_vertices = none;
  deleted = false;
  enabled = true;
}

abbrev blank_figure : Figure ℕ
blank_figure = record { shown = true; points = λ i. (0, 0, 0) }

-- Set while it is disabled, and shown again.
abbrev changes : List (Change ℕ)
changes =
    Change.disabled
    ∷ Change.placed (record { x = 1; y = 2 }) (record { x = 5; y = 7 }) 9
    ∷ Change.enabled_again
    ∷ []

run-Draws_example :
    Draws 0 Kind.quad (run 0 Kind.quad changes blank) (figure_run 0 Kind.quad changes blank_figure)
run-Draws_example =
    run-Draws 0 Kind.quad changes blank blank_figure
      (record { alive = refl; switch = refl; drawn = λ i l. refl; keeps = refl })

third_corner : (run 0 Kind.quad changes blank).corners 2 ≡ (5, 7, 9)
unfolding disable enable set_vertices
third_corner = refl

-- The last two corners that set_all_vertices leaves out are lost while a quad is disabled.
abbrev placed_quad : Shape ℕ
placed_quad = record blank { corners = λ i. (3, 3, 3) }

lost_corner :
    (enable 0 Kind.quad (
        set_all_vertices 0 Kind.quad
          (record { x = 1; y = 2 } ∷ [])
          9
          (disable 0 Kind.quad placed_quad))).corners
      2
    ≡ (0, 0, 0)
unfolding disable enable set_all_vertices
lost_corner = refl
