-- ===== src/Tapes/Player/Timing/Moves.antt =====
-- tapes.py, class ProgramTape: get_byte, update and fast_forward keep the cursor on a byte, and
-- update raises behind the last block only.
use armv.Common.{
  ℕ, zero, suc, ◌-◌, ◌<◌, ◌≤◌, ◌≡◌, inl, inr, refl, Bool, true, false, Bool-cases, List, [], ◌∷◌,
  none, some, Exn, Result, ok, raised, index_error, leb, arith, length, get_elem?, Option-cases,
  if◌then◌else◌,
}
use armv.Common.Bytes.{Bytes}
use armv.Tapes.Player.{Cursor, advance_block, taken, get_byte}
use armv.Tapes.Player.Timing.{
  Numbers, Recording, get, look, TapeStage, shown_bits, show_from, show, behind_bits, show_block,
  moved, update, fast_forward,
}
use armv.Tapes.Player.Timing.Steady.{
  get-cases, get_below, All-get, HasSizes-at, IsRecorded, IsAt, advance_block-IsAt, samples_below,
}

get-elem : {A : Type 0} (xs : List A) (k : ℕ) (a : A) → get xs k ≡ ok a → get_elem? xs k ≡ some a
get-elem [] k a e = cc
get-elem (x ∷ xs) zero a e = cc e
get-elem (x ∷ xs) (suc k) a e = get-elem xs k a e

elem_below :
    {A : Type 0} (xs : List A) (k : ℕ) → k < length xs → (a : A) × (get_elem? xs k ≡ some a)
elem_below [] k h = absurd (omega arith)
elem_below (x ∷ xs) zero h = (x, refl)
elem_below (x ∷ xs) (suc k) h = elem_below xs k (omega arith)

module _ {Time : Type 0} (num : Numbers Time) (r : Recording Time) (h : IsRecorded r) where
  taken-IsAt :
      (block : Bytes) (c : Cursor Time)
      → IsAt num r h c
      → get_elem? r.tape.blocks c.current_block ≡ some block
      → IsAt num r h (taken r.tape block c)
  taken-IsAt block c at found = elim (Bool-cases (leb (length block) (suc c.block_pos))) [
    | inl e ↦ rw e (advance_block-IsAt num r h (record c { block_pos = suc c.block_pos }))
    | inr e ↦ rw e (λ s here. ground (
      arith,
      HasSizes-at r.tape.blocks r.byte_samples c.current_block block s h.sizes found here,
    ))
  ]

  pub get_byte-IsAt : (c : Cursor Time) → IsAt num r h c → IsAt num r h (get_byte r.tape c).1
  unfolding get_byte
  get_byte-IsAt c at = elim (Option-cases (get_elem? r.tape.blocks c.current_block)) [
    | inl e ↦ rw e at
    | inr (block, e) ↦ elim (Option-cases (get_elem? block c.block_pos)) [
      | inl f ↦ rw (e, f) at
      | inr (b, f) ↦ rw (e, f) (taken-IsAt block c at e)
    ]
  ]

  -- In front of the end of the last block there is a byte.
  pub get_byte-some :
      (c : Cursor Time)
      → IsAt num r h c
      → c.current_block < length r.tape.blocks
      → (b : ℕ) × ((get_byte r.tape c).0 ≡ some b)
  unfolding get_byte
  get_byte-some c at below =
      let (block, e) = elem_below r.tape.blocks c.current_block below in
      let (s, found) = samples_below num r h c below in
      let (b, f) = elem_below block c.block_pos (
        omega (
          arith,
          at s found,
          HasSizes-at r.tape.blocks r.byte_samples c.current_block block s h.sizes e found,
        )) in
      (b, rw (e, f))

  -- The place is on a byte, and an exception is an IndexError behind the last block.
  abbrev pub IsFine : {A : Type 0} → Result A × Cursor Time → Type 0
  IsFine o =
      IsAt num r h o.1
      × ((e : Exn)
          → o.0 ≡ raised e
          → (e ≡ index_error) × (length r.tape.blocks ≤ o.1.current_block))

  shown_bits-IsFine :
      (n : ℕ) (times bits : List ℕ) (c : Cursor Time)
      → IsAt num r h c
      → IsFine (shown_bits num r n times bits c)
  shown_bits-IsFine n times bits c at = (at, λ e raises. cc)

  show_from-IsFine :
      (paused : Bool) (n : ℕ) (start : Time) (c : Cursor Time)
      → IsAt num r h c
      → c.current_block < length r.tape.blocks
      → IsFine (show_from num r paused n start c)
  show_from-IsFine paused n start c at below =
      let (times, e) = get_below r.bit_times c.current_block (omega (arith, h.times)) in
      let (bits, f) = get_below r.bits c.current_block (omega (arith, h.rows)) in
      elim (Bool-cases (num.lt c.position start)) [
        | inl g ↦ rw g (at, λ x raises. cc)
        | inr g ↦ elim (Bool-cases paused) [
          | inl q ↦ rw (g, q) (at, λ x raises. cc)
          | inr q ↦ rw (g, q, e, f) (shown_bits-IsFine n times bits c at)
        ]
      ]

  show-IsFine :
      (paused : Bool) (n : ℕ) (c : Cursor Time) → IsAt num r h c → IsFine (show num r paused n c)
  show-IsFine paused n c at = elim (Bool-cases (num.lt c.position r.noise_len)) [
    | inl g ↦ rw g (at, λ x raises. cc)
    | inr g ↦ elim (get-cases r.tape.start_time c.current_block) [
      | inl (start, e, below) ↦
          rw (g, e) (show_from-IsFine paused n start c at (omega (arith, h.starts)))
      | inr (e, above) ↦ rw (g, e) (at, λ x raises. (cc, omega (arith, h.starts)))
    ]
  ]

  behind_bits-IsFine :
      (paused : Bool) (n : ℕ) (times : List ℕ) (c : Cursor Time)
      → IsAt num r h c
      → 0 < length times
      → IsFine (behind_bits num r paused n times c)
  behind_bits-IsFine paused n times c at filled =
      let (t, e) = get_below times (length times - 1) (omega arith) in
      let diff = num.sub (num.sub c.position c.block_start) (num.from t) in
      elim (Bool-cases (num.lt (num.from 100) diff)) [
        | inl g ↦
            rw (e, g) (show-IsFine paused n (advance_block r.tape c) (advance_block-IsAt num r h c))
        | inr g ↦ rw (e, g) (at, λ x raises. cc)
      ]

  show_block-IsFine :
      (paused : Bool) (n : ℕ) (times : List ℕ) (c : Cursor Time)
      → IsAt num r h c
      → 0 < length times
      → IsFine (show_block num r paused n times c)
  show_block-IsFine paused n times c at filled =
      elim (Bool-cases (leb (length times) c.current_bit)) [
        | inl g ↦ rw g (behind_bits-IsFine paused n times c at filled)
        | inr g ↦ rw g (show-IsFine paused n c at)
      ]

  moved-IsAt :
      (elapsed : Time) (paused : Bool) (c : Cursor Time)
      → IsAt num r h c
      → IsAt num r h (moved num r elapsed paused c)
  moved-IsAt elapsed true c at = at
  moved-IsAt elapsed false c at = at

  update_at :
      (later : Cursor Time) (paused : Bool) (n : ℕ)
      → IsAt num r h later
      → IsFine (
          if leb (length r.tape.blocks) later.current_block
          then (ok (none, TapeStage.no_data), later)
          else look (get r.bit_times later.current_block) (show_block num r paused n) later)
  update_at later paused n at = elim (Bool-cases (leb (length r.tape.blocks) later.current_block)) [
    | inl g ↦ rw g (at, λ x raises. cc)
    | inr g ↦ elim (get-cases r.bit_times later.current_block) [
      | inl (times, e, below) ↦
          rw (g, e)
            (show_block-IsFine paused n times later at
              (All-get r.bit_times later.current_block times h.timed e))
      | inr (e, above) ↦ rw (g, e) (at, λ x raises. (cc, omega (arith, h.times)))
    ]
  ]

  pub update-IsFine :
      (elapsed : Time) (paused : Bool) (n : ℕ) (c : Cursor Time)
      → IsAt num r h c
      → IsFine (update num r elapsed paused n c)
  unfolding update
  update-IsFine elapsed paused n c at =
      update_at (moved num r elapsed paused c) paused n (moved-IsAt elapsed paused c at)

  pub fast_forward-IsAt :
      (c : Cursor Time)
      → 0 < length r.tape.blocks
      → ((fast_forward num r c).0 ≡ ok tt) × IsAt num r h (fast_forward num r c).1
  unfolding fast_forward
  fast_forward-IsAt c some_block =
      let k = length r.tape.blocks - 1 in
      let (times, e) = get_below r.bit_times k (omega (arith, h.times)) in
      let (block, f) = get_below r.tape.blocks k (omega arith) in
      rw (e, f)
        (
          refl,
          λ s found. omega (
            arith,
            All-get r.byte_samples k s h.filled found,
            HasSizes-at r.tape.blocks r.byte_samples k block s h.sizes
                (get-elem r.tape.blocks k block f) found,
          ),
        )
