-- ===== src/Tapes/PlayTests.antt =====
-- popcnt.pyx and the playing of tapes on concrete blocks, and the theorems at concrete inputs.
use armv.Common.{
  ℕ, ◌+◌, ◌*◌, ◌-◌, ◌≡◌, refl, arith, false, List, [], ◌∷◌, some, ok, ltb, raised, index_error,
}
use armv.Common.Bytes.{Bytes}
use armv.Tapes.Player.{Cursor, rewind, get_byte, advance_block}
use armv.Tapes.Player.Timing.{Numbers, Recording, TapeStage, byte_ready, update, trim_cache}
use armv.Tapes.Player.Timing.Steady.{IsRecorded}
use armv.Tapes.Player.Timing.Calls.{Call, Calls, IsSteady, Calls-IsSteady}
use armv.Tapes.Samples.{
  Wave, create_samples, block_arrays, block_samples, count_from, popcount_from,
}
use armv.Tapes.Samples.Progress.{IsWritten}
use armv.Tapes.Samples.Written.{create_samples-IsWritten}
use armv.Tapes.Recorder.{Settings, build_samples, words_of}
use armv.Tapes.Recorder.Complete.{build_samples-IsRecorded}

-- Whole milliseconds, a sample each, without the negative ones.
abbrev naturals : Numbers ℕ
naturals = record {
  from = λ n. n;
  add = λ a b. a + b;
  sub = λ a b. a - b;
  mul = λ a b. a * b;
  lt = ltb;
}

abbrev two_blocks : Recording ℕ
two_blocks = record {
  tape = record {
    blocks = (1 ∷ 2 ∷ []) ∷ (3 ∷ []) ∷ [];
    start_time = 5000 ∷ 9000 ∷ [];
    preamble_len = 5000;
    origin = 0;
  };
  byte_samples = (50 ∷ 120 ∷ []) ∷ (60 ∷ []) ∷ [];
  bit_times = (0 ∷ 10 ∷ 90 ∷ []) ∷ (0 ∷ 30 ∷ []) ∷ [];
  bits = (1 ∷ 0 ∷ 1 ∷ 0 ∷ []) ∷ (1 ∷ 1 ∷ 0 ∷ []) ∷ [];
  noise_len = 3000;
  end_time = 9300;
  sample_rate = 1;
  cache_samples = 40;
}

abbrev unwound : Cursor ℕ
unwound = record {
  position = 0;
  current_block = 0;
  current_bit = 0;
  block_pos = 0;
  block_start = 5000;
}

two_blocks-IsRecorded : IsRecorded two_blocks
two_blocks-IsRecorded = record {
  sizes = (refl, (refl, tt));
  filled = omega arith;
  timed = omega arith;
  times = refl;
  rows = refl;
  starts = refl;
}

-- The block starts, and a while later its second bit is the first to show.
in_the_block :
    (update naturals two_blocks 5010 false 2 unwound).0
    ≡ ok (some (1 ∷ 0 ∷ []), TapeStage.bits_data)
unfolding update
in_the_block = refl

-- A late request skips bytes that the cache of samples no longer holds.
late :
    (byte_ready naturals two_blocks (record unwound { position = 5095 })).1
    ≡ record unwound { position = 5095; block_pos = 1 }
unfolding byte_ready trim_cache
late = refl

-- Long behind the last bits of the last block update raises.
behind_the_end :
    (update naturals two_blocks 900 false 2 (record unwound {
      position = 9000;
      current_block = 1;
      current_bit = 2;
      block_start = 9000;
    })).0
    ≡ raised index_error
unfolding update advance_block
behind_the_end = refl

Calls-IsSteady_example :
    IsSteady naturals two_blocks (get_byte two_blocks.tape (rewind two_blocks.tape unwound)).1
Calls-IsSteady_example =
    Calls-IsSteady naturals two_blocks two_blocks-IsRecorded (omega arith) unwound
      (get_byte two_blocks.tape (rewind two_blocks.tape unwound)).1
      (Calls.then_call (rewind two_blocks.tape unwound)
        (get_byte two_blocks.tape (rewind two_blocks.tape unwound)).1 Calls.none_yet
        (Call.got (rewind two_blocks.tape unwound)))

abbrev one_word : List ℕ
one_word = 0x80000001 ∷ []

one_word_size : block_samples one_word 1 2 ≡ 68
unfolding count_from popcount_from
one_word_size = refl

create_samples-IsWritten_example :
    (s : Wave) × (create_samples one_word 1 2 (λ t. 2 * t) (block_arrays one_word 1 2) ≡ some s)
    × IsWritten one_word 1 2 (λ t. 2 * t) 32 4 s
    × (s.p ≡ s.samples.size)
create_samples-IsWritten_example =
    create_samples-IsWritten one_word 1 2 (λ t. 2 * t) (omega (arith, one_word_size)) (omega arith)

abbrev settings : Settings ℕ
settings = record {
  clr_length = 1;
  set_length = 2;
  sample_time = λ t. 2 * t;
  noise_len = 3000;
  preamble_len = 5000;
  sample_rate = 1;
  cache_samples = 40;
  zero_position = 0;
}

abbrev one_block : List Bytes
one_block = (1 ∷ 0 ∷ 0 ∷ 128 ∷ []) ∷ []

one_block_size : block_samples (words_of (1 ∷ 0 ∷ 0 ∷ 128 ∷ [])) 1 2 ≡ 68
unfolding count_from popcount_from words_of
one_block_size = refl

build_samples-IsRecorded_example :
    (r : Recording ℕ) × (build_samples naturals settings one_block ≡ some (ok r))
    × (r.tape.blocks ≡ one_block)
    × IsRecorded r
build_samples-IsRecorded_example =
    build_samples-IsRecorded naturals settings one_block
      ((omega arith, refl, omega arith, omega (arith, one_block_size)), tt)
