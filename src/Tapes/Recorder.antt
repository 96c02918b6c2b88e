-- ===== src/Tapes/Recorder.antt =====
-- tapes.py: build_samples, from the padded blocks of a tape to what its player reads, without the
-- sound. The lengths of the tones, int(p * sample_len) and the lengths of the noise come
-- from the mixer and are arguments; numpy.frombuffer reads words least significant byte first.
pub mod Complete
use armv.Common.{
  ℕ, zero, suc, ◌+◌, ◌*◌, List, [], ◌∷◌, Option, none, some, Result, ok, raised, ◌>>=◌, length, map,
}
use armv.Common.Bytes.{Bytes}
use armv.Tapes.Player.{Tape}
use armv.Tapes.Player.Timing.{Numbers, Recording, last}
use armv.Tapes.Samples.{Array, Wave, create_samples, block_arrays}

-- numpy.frombuffer(block, dtype="uint32") of a padded block
unfoldable pub words_of : Bytes → List ℕ
words_of (a ∷ b ∷ c ∷ d ∷ rest) = (a + 256 * b + 65536 * c + 16777216 * d) ∷ words_of rest
words_of _ = []

-- The elements of an array, from place `i` on.
abbrev pub cells_from : {A : Type 0} → (ℕ → A) → (i size : ℕ) → List A
cells_from cells i zero = []
cells_from cells i (suc n) = cells i ∷ cells_from cells (suc i) n

abbrev pub elements : {A : Type 0} → Array A → List A
elements a = cells_from a.cells 0 a.size

-- What is appended to byte_samples, bit_times and bits for a block.
pub record Row : Type 0 where
  pub byte_samples : List ℕ
  pub bit_times : List ℕ
  pub bits : List ℕ

abbrev pub row_of : Wave → Row
row_of s = record {
  byte_samples = elements s.byte_samples;
  bit_times = elements s.bit_times;
  bits = elements s.bits;
}

-- pilot_length * 1000
abbrev pub pilot_ms : ℕ
pilot_ms = 2000

pub record Settings (Time : Type 0) : Type 0 where
  pub clr_length : ℕ
  pub set_length : ℕ
  pub sample_time : ℕ → ℕ
  pub noise_len : Time
  pub preamble_len : Time
  pub sample_rate : Time
  pub cache_samples : ℕ
  pub zero_position : Time

abbrev pub with_row : Option Wave → Option (List Row) → Option (List Row)
with_row none rows = none
with_row (some s) none = none
with_row (some s) (some rows) = some (row_of s ∷ rows)

module _ {Time : Type 0} (num : Numbers Time) (set : Settings Time) where
  unfoldable pub build_row : Bytes → Option Wave
  unfolding create_samples words_of
  build_row block =
      let data_words = words_of block in
      create_samples data_words set.clr_length set.set_length set.sample_time
        (block_arrays data_words set.clr_length set.set_length)

  -- for block in self.data_blocks; none stands for a write out of bounds.
  unfoldable pub build_rows : List Bytes → Option (List Row)
  unfolding build_row
  build_rows [] = some []
  build_rows (block ∷ blocks) = with_row (build_row block) (build_rows blocks)

  -- The start of each block, and the end of the last.
  unfoldable pub start_times : Time → List (List ℕ) → Result (List Time × Time)
  start_times last_end [] = ok ([], last_end)
  start_times last_end (times ∷ rest) = last times >>= λ t.
      start_times (num.add last_end (num.from (t + pilot_ms))) rest >>= λ (starts, end).
      ok (last_end ∷ starts, end)

  abbrev pub recording : List Bytes → List Row → List Time × Time → Recording Time
  recording blocks rows (starts, end) = record {
    tape = record {
      blocks = blocks;
      start_time = starts;
      preamble_len = set.preamble_len;
      origin = set.zero_position;
    };
    byte_samples = map (λ (row : Row). row.byte_samples) rows;
    bit_times = map (λ (row : Row). row.bit_times) rows;
    bits = map (λ (row : Row). row.bits) rows;
    noise_len = set.noise_len;
    end_time = end;
    sample_rate = set.sample_rate;
    cache_samples = set.cache_samples;
  }

  abbrev pub with_starts : List Bytes → Option (List Row) → Option (Result (Recording Time))
  with_starts blocks none = none
  with_starts blocks (some rows) = some (
      start_times set.preamble_len (map (λ (row : Row). row.bit_times) rows) >>= λ starts.
      ok (recording blocks rows starts))

  unfoldable pub build_samples : List Bytes → Option (Result (Recording Time))
  unfolding build_rows start_times
  build_samples blocks = with_starts blocks (build_rows blocks)
