-- ===== src/Drawing/Screens.antt =====
-- drawing/opengl.py, class CrtBuffer: the grid of screens in one texture, of which clients take and
-- return single ones. The frame buffer itself belongs to the graphics library.
pub mod Shared
use armv.Common.{
  ℕ, ◌+◌, ◌-◌, ◌*◌, ◌/◌, ◌%◌, List, [], ◌∷◌, Option, none, some, Result, ok, raised, value_error,
  ltb, if◌then◌else◌,
}
use armv.Common.Count.{range}

pub record Point : Type 0 where
  pub x : ℕ
  pub y : ℕ

abbrev pub grid_num : ℕ
grid_num = 5

pub record CrtBuffer : Type 0 where
  pub num_screens_x : ℕ
  pub max : ℕ
  pub available : List ℕ

unfoldable pub new_crt_buffer : CrtBuffer
unfolding range
new_crt_buffer = record {
  num_screens_x = grid_num;
  max = grid_num * grid_num - 1;
  available = range 0 (grid_num * grid_num - 1);
}

abbrev pub popped_front : List ℕ → CrtBuffer → Option Point × CrtBuffer
popped_front [] b = (none, b)
popped_front (index ∷ rest) b = (
  some (record { x = index % b.num_screens_x; y = index / b.num_screens_x }),
  record b { available = rest },
)

unfoldable pub get : CrtBuffer → Option Point × CrtBuffer
get b = popped_front b.available b

abbrev pub index_of : Point → CrtBuffer → ℕ
index_of point b = point.x + point.y * b.num_screens_x

unfoldable pub put : Point → CrtBuffer → Result CrtBuffer
put point b =
    let index = index_of point b in
    if ltb b.max index
    then raised value_error
    else ok (record b { available = index ∷ b.available })
