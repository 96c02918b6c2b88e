-- ===== src/Drawing/Tests.antt =====
-- Tests of the models of drawing/, and the properties at concrete inputs.
use armv.Common.{ℕ, ◌≡◌, ok, raised, type_error, [], ◌∷◌, some, refl, arith}
use armv.Common.Count.{without_one, count_cons_self}
use armv.Drawing.Shapes.{ShapeBuffer, new_buffer, next_shape, remove_shape}
use armv.Drawing.Shapes.Live.{IsSound}
use armv.Drawing.Shapes.Traces.{Trace, Trace-IsSound}
use armv.Drawing.Screens
use armv.Drawing.Screens.{Point, get, put, new_crt_buffer, index_of}
use armv.Drawing.Screens.Shared.{IsShared, Trace-IsShared, get-Free}

-- A buffer of two quads, where the first is given out, deleted and given out again.
abbrev quads : ShapeBuffer ℕ
quads = new_buffer 0 1 4 2

abbrev one_quad : ShapeBuffer ℕ
one_quad = (next_shape 0 1 0 quads).1

abbrev no_quad : ShapeBuffer ℕ
no_quad = remove_shape 0 1 0 one_quad

quads_trace : Trace 0 1 (0 ∷ []) one_quad
unfolding next_shape new_buffer
quads_trace = Trace.given [] 0 0 quads (Trace.created 4 2 (omega arith)) refl

Trace-IsSound_example : IsSound 0 1 (without_one 0 (0 ∷ [])) no_quad
Trace-IsSound_example =
    Trace-IsSound 0 1 (without_one 0 (0 ∷ [])) no_quad
      (Trace.removed (0 ∷ []) 0 one_quad quads_trace (omega (arith, count_cons_self 0 [])))

-- The third quad of a buffer for two raises an exception with the size moved on.
third_quad :
    (next_shape 0 1 0 (next_shape 0 1 0 (next_shape 0 1 0 quads).1).1).0 ≡ raised type_error
unfolding next_shape new_buffer
third_quad = refl

first_screen : (get new_crt_buffer).0 ≡ some (record { x = 0; y = 0 })
unfolding get new_crt_buffer
first_screen = refl

-- A twenty-fifth screen can be returned though it was never given out.
last_screen :
    put (record { x = 4; y = 4 }) (record new_crt_buffer { available = [] })
    ≡ ok (record new_crt_buffer { available = 24 ∷ [] })
unfolding put new_crt_buffer
last_screen = refl

taken_once : Screens.Shared.Trace (0 ∷ []) (get new_crt_buffer).1
unfolding get new_crt_buffer
taken_once =
    Screens.Shared.Trace.taken [] (record { x = 0; y = 0 }) new_crt_buffer
      Screens.Shared.Trace.created refl
