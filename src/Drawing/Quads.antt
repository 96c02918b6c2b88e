-- ===== src/Drawing/Quads.antt =====
-- drawing/quads.py, class Shape and its subclasses: the points and colours of one shape, seen from
-- its index on, as ShapeVertex gives them. A component is of a type F with a 0.
pub mod Shown
use armv.Common.{
  ℕ, zero, suc, ◌+◌, ◌-◌, ◌<◌, Bool, true, false, List, [], ◌∷◌, Option, none, some, ltb, ◌==◌,
  if◌then◌else◌,
}
use armv.Drawing.Shapes.{filled}

pub data Kind : Type 0 where
  quad line vertex : Kind

abbrev pub num_points_of : Kind → ℕ
num_points_of quad = 4
num_points_of line = 2
num_points_of vertex = 1

module _ (F : Type 0) where
  pub record Point : Type 0 where
    pub x : F
    pub y : F

  abbrev pub Corner : Type 0
  Corner = F × F × F

  abbrev pub Colour : Type 0
  Colour = F × F × F × F

  pub record Shape : Type 0 where
    pub corners : ℕ → Corner
    pub colour : ℕ → Colour
    pub back_colour : ℕ → Colour
    pub old_vertices : Option (ℕ → Corner)
    pub deleted : Bool
    pub enabled : Bool

module _ {F : Type 0} where
  -- setverticesquad, setverticesline and setverticesvertex
  abbrev pub set_corners : Kind → Point F → Point F → F → (ℕ → Corner F) → ℕ → Corner F
  set_corners quad bl tr z old i =
      if i == 0
      then (bl.x, bl.y, z)
      else if i == 1
      then (bl.x, tr.y, z)
      else if i == 2
      then (tr.x, tr.y, z)
      else if i == 3
      then (tr.x, bl.y, z)
      else old i
  set_corners line start end z old i =
      if i == 0 then (start.x, start.y, z) else if i == 1 then (end.x, end.y, z) else old i
  set_corners vertex start end z old i = if i == 0 then (start.x, start.y, z) else old i

  -- setallvertices, from the point `k` on
  abbrev pub set_all : ℕ → List (Point F) → F → (ℕ → Corner F) → ℕ → Corner F
  set_all k [] z old = old
  set_all k (v ∷ vs) z old = set_all (k + 1) vs z (λ i. if i == k then (v.x, v.y, z) else old i)

module _ {F : Type 0} (zero_f : F) (kind : Kind) where
  abbrev pub origin : ℕ → Corner F
  origin i = (zero_f, zero_f, zero_f)

  -- The points are kept, and put into the corner.
  abbrev pub hidden : Shape F → Shape F
  hidden s = record s {
    old_vertices = some s.corners;
    corners = filled 0 (num_points_of kind) origin s.corners;
  }

  abbrev pub hide_unless : Option (ℕ → Corner F) → Shape F → Shape F
  hide_unless none s = hidden s
  hide_unless (some old) s = s

  abbrev pub hide_if : Option (ℕ → Corner F) → Shape F → Shape F
  hide_if none s = s
  hide_if (some old) s = hidden s

  unfoldable pub disable : Shape F → Shape F
  disable s = if s.deleted then s else hide_unless s.old_vertices (record s { enabled = false })

  abbrev pub restored : Option (ℕ → Corner F) → Shape F → Shape F
  restored none s = s
  restored (some old) s = record s {
    corners = filled 0 (num_points_of kind) old s.corners;
    old_vertices = none;
  }

  unfoldable pub enable : Shape F → Shape F
  enable s = if s.deleted then s else restored s.old_vertices (record s { enabled = true })

  unfoldable pub set_vertices : Point F → Point F → F → Shape F → Shape F
  set_vertices bl tr z s =
      if s.deleted
      then s
      else hide_if s.old_vertices (record s { corners = set_corners kind bl tr z s.corners })

  unfoldable pub set_all_vertices : List (Point F) → F → Shape F → Shape F
  set_all_vertices vertices z s =
      if s.deleted
      then s
      else hide_if s.old_vertices (record s { corners = set_all 0 vertices z s.corners })

  unfoldable pub set_colour : Colour F → Shape F → Shape F
  set_colour colour s =
      if s.deleted
      then s
      else record s { colour = filled 0 (num_points_of kind) (λ i. colour) s.colour }

  unfoldable pub set_back_colour : Colour F → Shape F → Shape F
  set_back_colour colour s =
      if s.deleted
      then s
      else record s { back_colour = filled 0 (num_points_of kind) (λ i. colour) s.back_colour }
