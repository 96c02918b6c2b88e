-- ===== src/Tapes/Samples.antt =====
-- popcnt.pyx, and how build_samples of tapes.py calls it: the samples, bits and times of a block.
-- The arrays are written without a test of the bounds, and `int` is 32 bits wide: none stands for a
-- write out of bounds and for a sum that `int` does not hold. __builtin_popcount is the number of
-- the bits that are set.
pub mod Loops
pub mod Widths
pub mod Progress
pub mod Written
use armv.Common.{
  ℕ, zero, suc, ◌+◌, ◌-◌, ◌*◌, ◌/◌, ◌%◌, ◌^◌, List, [], ◌∷◌, Option, none, some, ltb, ◌==◌,
  if◌then◌else◌, length, get_or,
}
use armv.Common.Int.{ℤ, pos, negsuc}

infixl 5 ◌>>=◌
abbrev pub ◌>>=◌ : {A B : Type 0} → Option A → (A → Option B) → Option B
none >>= f = none
some a >>= f = f a

-- A fixed-size array behind a memory view.
pub record Array (A : Type 0) : Type 0 where
  pub size : ℕ
  pub cells : ℕ → A

abbrev pub store : {A : Type 0} → ℕ → A → Array A → Option (Array A)
store i v a =
    if ltb i a.size then some (record a { cells = λ j. if j == i then v else a.cells j }) else none

-- A sum that `int` holds.
abbrev pub as_int : ℕ → Option ℕ
as_int n = if ltb n (2 ^ 31) then some n else none

-- for i in xrange(n), from `i` on with `n` rounds left
unfoldable pub for_range : {S : Type 0} → (ℕ → S → Option S) → (i n : ℕ) → S → Option S
for_range body i zero s = some s
for_range body i (suc n) s = body i s >>= for_range body (suc i) n

-- Bit `k` of a word, as (word >> k) & 1.
abbrev pub bit : ℕ → ℕ → ℕ
bit k word = word / 2 ^ k % 2

unfoldable pub popcount_from : ℕ → ℕ → ℕ
popcount_from zero word = 0
popcount_from (suc k) word = popcount_from k word + bit k word

abbrev pub popcount : ℕ → ℕ
popcount = popcount_from 32

-- count_array: the total is an uint32_t.
unfoldable pub count_from : ℕ → List ℕ → ℕ
unfolding popcount_from
count_from total [] = total
count_from total (w ∷ ws) = count_from ((total + popcount w) % 2 ^ 32) ws

abbrev pub count_array : List ℕ → ℕ
count_array = count_from 0

-- The arguments of _create_samples that it changes, and its variable p.
pub record Wave : Type 0 where
  pub samples : Array ℤ
  pub byte_samples : Array ℕ
  pub bit_times : Array ℕ
  pub bits : Array ℕ
  pub p : ℕ

-- One half of a bit's samples is low, the other high.
abbrev pub low_sample : ℤ
low_sample = negsuc 9999

abbrev pub high_sample : ℤ
high_sample = pos 10000

-- The body of the loop over l
abbrev pub sample_pair : (start steps : ℕ) → ℕ → Array ℤ → Option (Array ℤ)
sample_pair start steps l samples =
    store (start + l) low_sample samples >>= store (start + steps + l) high_sample

abbrev pub data_bit : List ℕ → (i j k : ℕ) → ℕ
data_bit data_words i j k = bit (j * 8 + k) (get_or data_words i 0)

abbrev pub steps_of : (clr_length set_length : ℕ) → ℕ → ℕ
steps_of clr_length set_length b = if b == 0 then clr_length else set_length

abbrev pub zeros : {A : Type 0} → A → ℕ → Array A
zeros zero_value size = record { size = size; cells = λ j. zero_value }

module _ (data_words : List ℕ) (clr_length set_length : ℕ) where
  -- What build_samples allocates for a block of 32-bit words.
  abbrev pub block_samples : ℕ
  block_samples =
      let set_bits = count_array data_words in
      let clr_bits = length data_words * 32 - set_bits in
      2 * (set_bits * set_length + clr_bits * clr_length)

  abbrev pub block_arrays : Wave
  block_arrays = record {
    samples = zeros (pos 0) block_samples;
    byte_samples = zeros 0 (length data_words * 4);
    bit_times = zeros 0 (length data_words * 4 * 8);
    bits = zeros 0 (length data_words * 4 * 9);
    p = 0;
  }

-- `time` is int(p * sample_len), from the number of a sample to a time.
module _ (data_words : List ℕ) (clr_length set_length : ℕ) (time : ℕ → ℕ) where
  -- The body of the loop over k
  unfoldable pub create_bit : (i j k : ℕ) → Wave → Option Wave
  unfolding for_range
  create_bit i j k s = do
    let b = data_bit data_words i j k
    let steps = steps_of clr_length set_length b
    let place = i * 32 + j * 8 + k
    samples ← for_range (sample_pair s.p steps) 0 steps s.samples
    bit_times ← store place (time s.p) s.bit_times
    bits ← store place b s.bits
    p ← as_int (s.p + 2 * steps)
    some (record s { samples = samples; bit_times = bit_times; bits = bits; p = p })

  -- The body of the loop over j, and that of the loop over i
  unfoldable pub create_byte : (i j : ℕ) → Wave → Option Wave
  unfolding create_bit
  create_byte i j s = do
    later ← for_range (create_bit i j) 0 8 s
    byte_samples ← store (i * 4 + j) later.p later.byte_samples
    some (record later { byte_samples = byte_samples })

  unfoldable pub create_word : ℕ → Wave → Option Wave
  unfolding create_byte
  create_word i s = for_range (create_byte i) 0 4 s

  unfoldable pub create_samples : Wave → Option Wave
  unfolding create_word
  create_samples s = for_range create_word 0 (length data_words) s
