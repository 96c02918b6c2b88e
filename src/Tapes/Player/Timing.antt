-- ===== src/Tapes/Player/Timing.antt =====
-- tapes.py, class ProgramTape: what byte_ready, trim_cache, update and fast_forward do as time passes.
-- Positions are floats: their type and its operations are an argument.
pub mod Steady
pub mod Moves
pub mod Calls
use armv.Common.{
  ℕ, zero, suc, ◌+◌, ◌-◌, Bool, true, false, List, [], ◌∷◌, Option, none, some, Result, ok, raised,
  index_error, leb, if◌then◌else◌, length, slice, drop, replicate,
}
use armv.Common.Bytes.{Bytes}
use armv.Tapes.Player.{Tape, Cursor, advance_block}

-- Python's numbers as the positions use them; `from` is the float of an integer.
pub record Numbers (Time : Type 0) : Type 0 where
  pub from : ℕ → Time
  pub add : Time → Time → Time
  pub sub : Time → Time → Time
  pub mul : Time → Time → Time
  -- a < b
  pub lt : Time → Time → Bool

-- class TapeStage
pub data TapeStage : Type 0 where
  no_data no_tone tone bits_data : TapeStage

-- What build_samples adds to a tape, for each block: the samples at which its bytes end, the
-- milliseconds at which its bits start, and the bits.
pub record Recording (Time : Type 0) : Type 0 where
  pub tape : Tape Time
  pub byte_samples : List (List ℕ)
  pub bit_times : List (List ℕ)
  pub bits : List (List ℕ)
  pub noise_len : Time
  pub end_time : Time
  pub sample_rate : Time
  pub cache_samples : ℕ

-- a[i] of a list, and a[-1].
abbrev pub get {ℓ} : {A : Type ℓ} → List A → ℕ → Result A
get [] i = raised index_error
get (x ∷ xs) zero = ok x
get (x ∷ xs) (suc i) = get xs i

abbrev pub last {ℓ} : {A : Type ℓ} → List A → Result A
last xs = get xs (length xs - 1)

-- A method returns its result or its exception, with the cursor that it leaves in either case.
abbrev pub Step : Type 0 → Type 0 → Type 0
Step Time A = Cursor Time → Result A × Cursor Time

abbrev pub look {ℓ} : {Time A : Type 0} {B : Type ℓ} → Result B → (B → Step Time A) → Step Time A
look (ok b) k cursor = k b cursor
look (raised e) k cursor = (raised e, cursor)

module _ {Time : Type 0} (num : Numbers Time) (r : Recording Time) where
  -- while pos_sample > byte_samples[block_pos] + cache_samples, on what is left of the samples
  abbrev pub trim_loop : Time → List ℕ → Cursor Time → Cursor Time
  trim_loop pos_sample [] cursor = cursor
  trim_loop pos_sample (b ∷ []) cursor =
      if num.lt (num.from (b + r.cache_samples)) pos_sample
      then advance_block r.tape (record cursor { block_pos = suc cursor.block_pos })
      else cursor
  trim_loop pos_sample (b ∷ c ∷ bs) cursor =
      let later =
        trim_loop pos_sample (c ∷ bs) (record cursor { block_pos = suc cursor.block_pos }) in
      if num.lt (num.from (b + r.cache_samples)) pos_sample then later else cursor

  unfoldable pub trim_cache : Time → List ℕ → Cursor Time → Cursor Time
  trim_cache pos samples cursor =
      trim_loop (num.mul pos r.sample_rate) (drop cursor.block_pos samples) cursor

  -- byte_ready behind its two tests
  abbrev pub reached : List ℕ → ℕ → Step Time Bool
  reached samples target cursor =
      let pos = num.sub cursor.position cursor.block_start in
      let pos_sample = num.mul pos r.sample_rate in
      let trimmed = trim_cache pos samples cursor in
      (
        ok (num.lt (num.from target) pos_sample),
        if num.lt (num.from (target + r.cache_samples)) pos_sample then trimmed else cursor,
      )

  abbrev pub started : Time → Step Time Bool
  started start cursor =
      let asked : Result Bool × Cursor Time =
        look (get r.byte_samples cursor.current_block)
          (λ samples. look (get samples cursor.block_pos) (reached samples)) cursor in
      if num.lt cursor.position start then (ok false, cursor) else asked

  unfoldable pub byte_ready : Step Time Bool
  unfolding trim_cache
  byte_ready cursor =
      let asked : Result Bool × Cursor Time =
        look (get r.tape.start_time cursor.current_block) started cursor in
      if leb (length r.tape.blocks) cursor.current_block then (ok true, cursor) else asked

  -- while bit_times[current_bit] <= pos, on the times that are left; the end of the times is caught
  abbrev pub bits_loop : Time → (end : ℕ) → List ℕ → ℕ → ℕ
  bits_loop pos end [] bit = end
  bits_loop pos end (t ∷ ts) bit =
      if num.lt pos (num.from t) then bit else bits_loop pos end ts (suc bit)

  abbrev pub Shown : Type 0
  Shown = Option (List ℕ) × TapeStage

  abbrev pub shown_bits : ℕ → List ℕ → List ℕ → Step Time Shown
  shown_bits num_required times bits cursor =
      let pos = num.sub cursor.position cursor.block_start in
      let bit = bits_loop pos (length times) (drop cursor.current_bit times) cursor.current_bit in
      (
        ok (some (slice bit (bit + num_required) bits), bits_data),
        record cursor { current_bit = bit },
      )

  -- The last part of update, with the start of the current block. `pause_bits` are 1024 zeros.
  abbrev pub show_from : Bool → ℕ → Time → Step Time Shown
  show_from paused num_required start cursor =
      let bits_here : Result Shown × Cursor Time =
        look (get r.bit_times cursor.current_block)
          (λ times. look (get r.bits cursor.current_block) (shown_bits num_required times))
          cursor in
      let pause_bits = slice 0 num_required (replicate 1024 0) in
      if num.lt cursor.position start
      then (ok (none, tone), cursor)
      else if paused
      then (ok (some pause_bits, bits_data), cursor)
      else bits_here

  abbrev pub show : Bool → ℕ → Step Time Shown
  show paused num_required cursor =
      let rest : Result Shown × Cursor Time =
        look (get r.tape.start_time cursor.current_block) (show_from paused num_required) cursor in
      if num.lt cursor.position r.noise_len then (ok (none, no_tone), cursor) else rest

  -- All bits of the block were shown: 100 ms later the next block is current.
  abbrev pub behind_bits : Bool → ℕ → List ℕ → Step Time Shown
  behind_bits paused num_required times = look (last times) (λ t cursor.
      let diff = num.sub (num.sub cursor.position cursor.block_start) (num.from t) in
      let on = show paused num_required (advance_block r.tape cursor) in
      if num.lt (num.from 100) diff then on else (ok (none, no_data), cursor))

  abbrev pub show_block : Bool → ℕ → List ℕ → Step Time Shown
  show_block paused num_required times cursor =
      let behind = behind_bits paused num_required times cursor in
      let here = show paused num_required cursor in
      if leb (length times) cursor.current_bit then behind else here

  abbrev pub moved : Time → Bool → Cursor Time → Cursor Time
  moved elapsed paused cursor =
      if paused then cursor else record cursor { position = num.add cursor.position elapsed }

  unfoldable pub update : Time → Bool → ℕ → Step Time Shown
  update elapsed paused num_required cursor =
      let later = moved elapsed paused cursor in
      let shown : Result Shown × Cursor Time =
        look (get r.bit_times later.current_block) (show_block paused num_required) later in
      if leb (length r.tape.blocks) later.current_block then (ok (none, no_data), later) else shown

  -- Without a block the last one is asked for in vain; Python's current_block is then -1, which is
  -- no number here and is left as it was.
  unfoldable pub fast_forward : Step Time (Unit {0})
  fast_forward cursor =
      look (get r.bit_times (length r.tape.blocks - 1))
        (λ times. look (last r.tape.blocks) (λ block c. (
          ok tt,
          record c {
            current_block = length r.tape.blocks - 1;
            current_bit = length times - 1;
            block_pos = length block - 1;
            block_start = r.end_time;
          },
        )))
        (record cursor { position = r.end_time })
