-- ===== src/Tapes/Player/Timing/Steady.antt =====
-- tapes.py, class ProgramTape: however a tape is played, its cursor stays on a byte.
use armv.Common.{
  ℕ, zero, suc, ◌+◌, ◌<◌, ◌≤◌, ◌≡◌, ◌⊎◌, inl, inr, refl, sym, ap, ◌∙◌, Bool, true, false,
  Bool-cases, List, [], ◌∷◌, none, some, Result, ok, raised, index_error, leb, arith, All, length,
  get_elem?, drop, length-drop, Option,
}
use armv.Common.Bytes.{Bytes}
use armv.Tapes.Player.{Cursor, rewind, advance_block}
use armv.Tapes.Player.Timing.{
  Numbers, Recording, get, trim_loop, trim_cache, reached, started, byte_ready,
}

module _ {A : Type 0} where
  pub get-cases :
      (xs : List A) (k : ℕ)
      → ((a : A) × (get xs k ≡ ok a) × (k < length xs))
        ⊎ ((get xs k ≡ raised index_error) × (length xs ≤ k))
  get-cases [] k = inr (refl, omega arith)
  get-cases (x ∷ xs) zero = inl (x, refl, omega arith)
  get-cases (x ∷ xs) (suc k) = elim (get-cases xs k) [
    | inl (a, e, h) ↦ inl (a, e, omega arith)
    | inr (e, h) ↦ inr (e, omega arith)
  ]

  pub get_below : (xs : List A) (k : ℕ) → k < length xs → (a : A) × (get xs k ≡ ok a)
  get_below xs k h = elim (get-cases xs k) [
    | inl (a, e, below) ↦ (a, e)
    | inr (e, above) ↦ absurd (omega arith)
  ]

abbrev pub HasSizes : List Bytes → List (List ℕ) → Type 0
HasSizes [] [] = Unit {0}
HasSizes [] (s ∷ ss) = ⊥
HasSizes (b ∷ bs) [] = ⊥
HasSizes (b ∷ bs) (s ∷ ss) = (length s ≡ length b) × HasSizes bs ss

same_size : (b x : Bytes) → some b ≡ some x → length b ≡ length x
same_size b x e = ap (λ (o : Option Bytes). elim o [ none ↦ 0 | some c ↦ length c ]) e

ok_size : (s x : List ℕ) → ok s ≡ ok x → length s ≡ length x
ok_size s x e = ap (λ (o : Result (List ℕ)). elim o [ ok c ↦ length c | raised e ↦ 0 ]) e

pub HasSizes-at :
    (bs : List Bytes) (ss : List (List ℕ)) (k : ℕ) (b : Bytes) (s : List ℕ)
    → HasSizes bs ss
    → get_elem? bs k ≡ some b
    → get ss k ≡ ok s
    → length s ≡ length b
HasSizes-at [] ss k b s h e f = cc
HasSizes-at (c ∷ bs) [] k b s h e f = cc
HasSizes-at (c ∷ bs) (t ∷ ss) zero b s h e f = omega (arith, h.0, same_size c b e, ok_size t s f)
HasSizes-at (c ∷ bs) (t ∷ ss) (suc k) b s h e f = HasSizes-at bs ss k b s h.1 e f

HasSizes-length : (bs : List Bytes) (ss : List (List ℕ)) → HasSizes bs ss → length ss ≡ length bs
HasSizes-length [] [] h = refl
HasSizes-length [] (s ∷ ss) h = absurd h
HasSizes-length (b ∷ bs) [] h = absurd h
HasSizes-length (b ∷ bs) (s ∷ ss) h = omega (arith, HasSizes-length bs ss h.1)

abbrev pub IsFilled : List ℕ → Type 0
IsFilled xs = 0 < length xs

pub All-get :
    (xs : List (List ℕ)) (k : ℕ) (a : List ℕ) → All IsFilled xs → get xs k ≡ ok a → IsFilled a
All-get [] k a h e = cc
All-get (x ∷ xs) zero a h e = omega (arith, h.0, ok_size x a e)
All-get (x ∷ xs) (suc k) a h e = All-get xs k a h.1 e

-- What build_samples makes of the blocks of a tape that loads: a sample for each byte, no block
-- without bits, and a start.
pub record IsRecorded {Time : Type 0} (r : Recording Time) : Type 0 where
  pub sizes : HasSizes r.tape.blocks r.byte_samples
  pub filled : All IsFilled r.byte_samples
  pub timed : All IsFilled r.bit_times
  pub times : length r.bit_times ≡ length r.tape.blocks
  pub rows : length r.bits ≡ length r.tape.blocks
  pub starts : length r.tape.start_time ≡ length r.tape.blocks

module _ {Time : Type 0} (num : Numbers Time) (r : Recording Time) (h : IsRecorded r) where
  -- The place is one of the samples of its block, unless it is behind the last block.
  abbrev pub IsAt : Cursor Time → Type 0
  IsAt c = (s : List ℕ) → get r.byte_samples c.current_block ≡ ok s → c.block_pos < length s

  pub IsAt-start : (c : Cursor Time) → c.block_pos ≡ 0 → IsAt c
  IsAt-start c e s found = omega (arith, e, All-get r.byte_samples c.current_block s h.filled found)

  pub advance_block-IsAt : (c : Cursor Time) → IsAt (advance_block r.tape c)
  unfolding advance_block
  advance_block-IsAt c = IsAt-start (advance_block r.tape c) refl

  pub rewind-IsAt : (c : Cursor Time) → IsAt (rewind r.tape c)
  unfolding rewind
  rewind-IsAt c = IsAt-start (rewind r.tape c) refl

  trim_loop-IsAt :
      (pos_sample : Time) (samples left : List ℕ) (c : Cursor Time)
      → get r.byte_samples c.current_block ≡ ok samples
      → c.block_pos + length left ≡ length samples
      → 0 < length left
      → IsAt (trim_loop num r pos_sample left c)
  trim_loop-IsAt pos_sample samples [] c found size some_left = absurd (omega arith)
  trim_loop-IsAt pos_sample samples (b ∷ []) c found size some_left =
      elim (Bool-cases (num.lt (num.from (b + r.cache_samples)) pos_sample)) [
        | inl e ↦ rw e (advance_block-IsAt (record c { block_pos = suc c.block_pos }))
        | inr e ↦ rw e (λ s found'. omega (arith, size, ok_size samples s (sym found ∙ found')))
      ]
  trim_loop-IsAt pos_sample samples (b ∷ d ∷ bs) c found size some_left =
      elim (Bool-cases (num.lt (num.from (b + r.cache_samples)) pos_sample)) [
        | inl e ↦ rw e (
            trim_loop-IsAt pos_sample samples (d ∷ bs) (record c { block_pos = suc c.block_pos })
              found (omega (arith, size)) (omega arith))
        | inr e ↦ rw e (λ s found'. omega (arith, size, ok_size samples s (sym found ∙ found')))
      ]

  trim_cache-IsAt :
      (pos : Time) (samples : List ℕ) (c : Cursor Time)
      → get r.byte_samples c.current_block ≡ ok samples
      → c.block_pos < length samples
      → IsAt (trim_cache num r pos samples c)
  unfolding trim_cache
  trim_cache-IsAt pos samples c found below =
      trim_loop-IsAt (num.mul pos r.sample_rate) samples (drop c.block_pos samples) c found
        (omega (arith, length-drop c.block_pos samples))
        (omega (arith, length-drop c.block_pos samples))

  -- A result, and a place on a byte.
  abbrev pub Answers : Result Bool × Cursor Time → Type 0
  Answers o = ((b : Bool) × (o.0 ≡ ok b)) × IsAt o.1

  reached-Answers :
      (samples : List ℕ) (target : ℕ) (c : Cursor Time)
      → IsAt c
      → get r.byte_samples c.current_block ≡ ok samples
      → Answers (reached num r samples target c)
  reached-Answers samples target c at found =
      let pos = num.sub c.position c.block_start in
      (
        (num.lt (num.from target) (num.mul pos r.sample_rate), refl),
        elim (Bool-cases
            (num.lt (num.from (target + r.cache_samples)) (num.mul pos r.sample_rate))) [
              | inl e ↦ rw e (trim_cache-IsAt pos samples c found (at samples found))
              | inr e ↦ rw e at
            ],
      )

  pub samples_below :
      (c : Cursor Time)
      → c.current_block < length r.tape.blocks
      → (s : List ℕ) × (get r.byte_samples c.current_block ≡ ok s)
  samples_below c below =
      get_below r.byte_samples c.current_block
        (omega (arith, HasSizes-length r.tape.blocks r.byte_samples h.sizes))

  started-Answers :
      (start : Time) (c : Cursor Time)
      → IsAt c
      → c.current_block < length r.tape.blocks
      → Answers (started num r start c)
  started-Answers start c at below =
      let (s, found) = samples_below c below in
      let (target, here) = get_below s c.block_pos (at s found) in
      elim (Bool-cases (num.lt c.position start)) [
        | inl e ↦ rw e ((false, refl), at)
        | inr e ↦ rw (e, found, here) (reached-Answers s target c at found)
      ]

  pub byte_ready-Answers : (c : Cursor Time) → IsAt c → Answers (byte_ready num r c)
  unfolding byte_ready
  byte_ready-Answers c at = elim (Bool-cases (leb (length r.tape.blocks) c.current_block)) [
    | inl e ↦ rw e ((true, refl), at)
    | inr e ↦
        let below : c.current_block < length r.tape.blocks = ground (arith, e) in
        let (start, found) =
          get_below r.tape.start_time c.current_block (omega (arith, h.starts)) in
        rw (e, found) (started-Answers start c at below)
  ]
