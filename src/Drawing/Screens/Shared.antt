-- ===== src/Drawing/Screens/Shared.antt =====
-- drawing/opengl.py, class CrtBuffer: what holds after any calls of clients that return only screens
-- they hold.
use armv.Common.{
  ℕ, ◌+◌, ◌*◌, ◌/◌, ◌%◌, ◌<◌, ◌≡◌, refl, sym, ap, ◌∙◌, arith, List, [], ◌∷◌, none, some, ok, ltb,
  if◌then◌else◌, some_eq, lt→ltb,
}
use mathlib.Core.Path.{subst}
use armv.Common.Count.{
  count, without_one, count_cons, count_moved, count-range, count_nil, count_cons_self,
}
use armv.Drawing.Screens.{Point, CrtBuffer, new_crt_buffer, popped_front, get, index_of, put}

-- The screens that clients hold, by their indices, and the buffer after some calls.
pub data Trace : List ℕ → CrtBuffer → Type 0 where
  created : Trace [] new_crt_buffer
  taken :
      (live : List ℕ) (p : Point) (b : CrtBuffer)
      → Trace live b
      → (get b).0 ≡ some p
      → Trace (index_of p b ∷ live) (get b).1
  exhausted :
      (live : List ℕ) (b : CrtBuffer) → Trace live b → (get b).0 ≡ none → Trace live (get b).1
  returned :
      (live : List ℕ) (p : Point) (b after : CrtBuffer)
      → Trace live b
      → 0 < count (index_of p b) live
      → put p b ≡ ok after
      → Trace (without_one (index_of p b) live) after

pub record IsShared (live : List ℕ) (b : CrtBuffer) : Type 0 where
  pub across : b.num_screens_x ≡ 5
  pub last : b.max ≡ 24
  pub once : (i : ℕ) → count i live + count i b.available ≡ (if ltb i 24 then 1 else 0)

created-IsShared : IsShared [] new_crt_buffer
unfolding new_crt_buffer
created-IsShared = record {
  across = refl;
  last = refl;
  once = λ i. ground (arith, count-range 0 24 i, count_nil i);
}

popped_front-index :
    (b : CrtBuffer) (p : Point) (index : ℕ) (rest : List ℕ)
    → b.num_screens_x ≡ 5
    → (popped_front (index ∷ rest) b).0 ≡ some p
    → index_of p b ≡ index
popped_front-index b p index rest across e = omega (
  arith,
  ap (λ (q : Point). q.x) same,
  ap (λ (q : Point). q.y) same,
  ap (λ n. p.y * n) across,
  ap (λ n. index % n) across,
  ap (λ n. index / n) across,
)
  where
    same : record { x = index % b.num_screens_x; y = index / b.num_screens_x } ≡ p
    same = some_eq e

popped_front-IsShared :
    (live : List ℕ) (b : CrtBuffer) (p : Point) (available : List ℕ)
    → b.available ≡ available
    → IsShared live b
    → (popped_front available b).0 ≡ some p
    → IsShared (index_of p b ∷ live) (popped_front available b).1
popped_front-IsShared live b p [] here h e = cc
popped_front-IsShared live b p (index ∷ rest) here h e = record {
  across = h.across;
  last = h.last;
  once = λ i. rw (popped_front-index b p index rest h.across e) (
      omega (arith, count_cons i index live, count_cons i index rest, ap (count i) here, h.once i));
}

get-IsShared :
    (live : List ℕ) (b : CrtBuffer) (p : Point)
    → IsShared live b
    → (get b).0 ≡ some p
    → IsShared (index_of p b ∷ live) (get b).1
unfolding get
get-IsShared live b p h e = popped_front-IsShared live b p b.available refl h e

none_left-IsShared :
    (live : List ℕ) (b : CrtBuffer) (available : List ℕ)
    → IsShared live b
    → (popped_front available b).0 ≡ none
    → IsShared live (popped_front available b).1
none_left-IsShared live b [] h e = h
none_left-IsShared live b (index ∷ rest) h e = cc

get-none-IsShared :
    (live : List ℕ) (b : CrtBuffer) → IsShared live b → (get b).0 ≡ none → IsShared live (get b).1
unfolding get
get-none-IsShared live b h e = none_left-IsShared live b b.available h e

-- A screen that is held is one of the grid.
held-lt : (live : List ℕ) (b : CrtBuffer) (i : ℕ) → IsShared live b → 0 < count i live → i < 24
held-lt live b i h l = ground (arith, h.once i)

available-lt :
    (live : List ℕ) (b : CrtBuffer) (i : ℕ) → IsShared live b → 0 < count i b.available → i < 24
available-lt live b i h l = ground (arith, h.once i)

-- It can always be returned.
put_held :
    (live : List ℕ) (b : CrtBuffer) (p : Point)
    → IsShared live b
    → 0 < count (index_of p b) live
    → put p b ≡ ok (record b { available = index_of p b ∷ b.available })
unfolding put
put_held live b p h l = ground (arith, held-lt live b (index_of p b) h l, h.last)

put-IsShared :
    (live : List ℕ) (b : CrtBuffer) (p : Point)
    → IsShared live b
    → 0 < count (index_of p b) live
    → IsShared
        (without_one (index_of p b) live)
        (record b { available = index_of p b ∷ b.available })
put-IsShared live b p h l = record {
  across = h.across;
  last = h.last;
  once = λ i. omega (arith, count_moved (index_of p b) i b.available live l, h.once i);
}

ok_eq : {A : Type 0} {a b : A} → ok a ≡ ok b → a ≡ b
ok_eq e = cc

-- After any calls of clients that return only screens they hold, each of the 24 screens is held by
-- one client or available once, never both, and no other screen is.
pub Trace-IsShared : (live : List ℕ) (b : CrtBuffer) → Trace live b → IsShared live b
Trace-IsShared live b created = created-IsShared
Trace-IsShared live b (taken l p before t e) = get-IsShared l before p (Trace-IsShared l before t) e
Trace-IsShared live b (exhausted l before t e) =
    get-none-IsShared l before (Trace-IsShared l before t) e
Trace-IsShared live b (returned l p before after t held e) =
    let h = Trace-IsShared l before t in
    subst (IsShared (without_one (index_of p before) l))
      (ok_eq (sym (put_held l before p h held) ∙ e)) (put-IsShared l before p h held)

given-Free :
    (live : List ℕ) (b : CrtBuffer) (available : List ℕ) (i : ℕ)
    → b.available ≡ available
    → IsShared live b
    → i < 24
    → count i live ≡ 0
    → (p : Point) × ((popped_front available b).0 ≡ some p)
      × (p.x < 5)
      × (p.y < 5)
      × (count (index_of p b) live ≡ 0)
given-Free live b [] i here h l e =
    absurd (ground (arith, h.once i, ap (count i) here, count_nil i))
given-Free live b (index ∷ rest) i here h l e =
    let p : Point = record { x = index % b.num_screens_x; y = index / b.num_screens_x } in
    let one = count_cons_self index rest in
    let small = available-lt live b index h (omega (arith, ap (count index) here, one)) in
    let free : count index live ≡ 0 = omega (
      arith,
      ap (count index) here,
      one,
      ap {B = ℕ} (λ t. if t then 1 else 0) (lt→ltb index 24 small),
      h.once index,
    ) in
    (
      p,
      refl,
      omega (arith, ap (λ n. index % n) h.across),
      omega (arith, small, ap (λ n. index / n) h.across),
      rw (popped_front-index b p index rest h.across refl) free,
    )

-- While one of the 24 screens is free a client gets a point of the grid whose screen nobody holds.
pub get-Free :
    (live : List ℕ) (b : CrtBuffer) (i : ℕ)
    → Trace live b
    → i < 24
    → count i live ≡ 0
    → (p : Point) × ((get b).0 ≡ some p) × (p.x < 5) × (p.y < 5) × (count (index_of p b) live ≡ 0)
unfolding get
get-Free live b i t l e = given-Free live b b.available i refl (Trace-IsShared live b t) l e
