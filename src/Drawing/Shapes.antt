-- ===== src/Drawing/Shapes.antt =====
-- drawing/quads.py, class ShapeBuffer: the shapes of one array, with the holes that deleted ones
-- leave. The texture coordinates and the back colours are not touched by it.
-- A component of a vertex or a colour is of a type F, of which only 0 and 1 are named. An index of a
-- shape is one that the buffer gave out, so every point lies in the array.
pub mod Apart
pub mod Live
pub mod Given
pub mod Removed
pub mod Traces
use armv.Common.{
  ℕ, zero, suc, ◌+◌, ◌*◌, ◌-◌, ◌<◌, ◌≤◌, Bool, ◌&&◌, List, [], ◌∷◌, Option, none, some, Result, ok,
  raised, type_error, ltb, leb, ◌==◌, if◌then◌else◌, get_elem?,
}
use armv.Common.Count.{count, without_one}

-- for i in range(num_points): array[start + i] = values(start + i)
abbrev pub filled {ℓ} : {A : Type ℓ} → (start points : ℕ) → (ℕ → A) → (ℕ → A) → ℕ → A
filled start points values cells j =
    if leb start j && ltb j (start + points) then values j else cells j

-- The set of removed shapes is a list without repetitions.
unfoldable pub add : ℕ → List ℕ → List ℕ
unfolding count
add index vacant = if ltb 0 (count index vacant) then vacant else index ∷ vacant

module _ (F : Type 0) where
  -- `indices` are the indices that are drawn; a vertex has three components, a colour four.
  pub record ShapeBuffer : Type 0 where
    pub num_points : ℕ
    pub size : ℕ
    pub current_size : ℕ
    pub vacant : List ℕ
    pub indices : ℕ → ℕ
    pub vertex_data : ℕ → ℕ → F
    pub colour_data : ℕ → ℕ → F

module _ {F : Type 0} (zero_f one_f : F) where
  abbrev pub max_size : ShapeBuffer F → ℕ
  max_size b = b.size * b.num_points

  -- ShapeBuffer.__init__ for the num_points of a class
  unfoldable pub new_buffer : (num_points size : ℕ) → ShapeBuffer F
  new_buffer num_points size = record {
    num_points = num_points;
    size = size;
    current_size = 0;
    vacant = [];
    indices = λ i. i;
    vertex_data = λ i j. zero_f;
    colour_data = λ i j. one_f;
  }

  abbrev pub reset : ℕ → ShapeBuffer F → ShapeBuffer F
  reset out b = record b {
    vacant = without_one out b.vacant;
    indices = filled out b.num_points (λ j. j) b.indices;
    colour_data = filled out b.num_points (λ j k. one_f) b.colour_data;
  }

  abbrev pub extended : ShapeBuffer F → Result ℕ × ShapeBuffer F
  extended b =
      let out = b.current_size in
      let b' = record b { current_size = out + b.num_points } in
      if ltb (max_size b) (out + b.num_points) then (raised type_error, b') else (ok out, b')

  abbrev pub popped : Option ℕ → ShapeBuffer F → Result ℕ × ShapeBuffer F
  popped none b = extended b
  popped (some out) b = (ok out, reset out b)

  abbrev pub or_first : List ℕ → Option ℕ → Option ℕ
  or_first [] found = none
  or_first (x ∷ xs) none = some x
  or_first (x ∷ xs) (some found) = some found

  -- `set.pop` gives any item: the one at the place `choice` of the list, or the first. A full buffer
  -- raises TypeError, since `NotImplemented` is no exception, with its size already moved on.
  unfoldable pub next_shape : ℕ → ShapeBuffer F → Result ℕ × ShapeBuffer F
  unfolding without_one
  next_shape choice b = popped (or_first b.vacant (get_elem? b.vacant choice)) b

  unfoldable pub truncate : ℕ → ShapeBuffer F → ShapeBuffer F
  truncate n b = record b {
    current_size = n;
    vacant = [];
    indices = filled 0 (b.size * b.num_points) (λ i. i) b.indices;
    colour_data = λ i j. one_f;
  }

  unfoldable pub remove_shape : ℕ → ShapeBuffer F → ShapeBuffer F
  unfolding add
  remove_shape index b = record b {
    vacant = add index b.vacant;
    indices = filled index b.num_points (λ j. 0) b.indices;
    vertex_data =
        filled index b.num_points (λ j k. if ltb k 3 then zero_f else b.vertex_data j k)
          b.vertex_data;
  }
