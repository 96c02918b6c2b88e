-- ===== src/Devices/FrameTests.antt =====
-- hardware.py, class TapeDrive with a ProgramTape: frames on concrete tapes, and the theorems at
-- concrete inputs.
use armv.Common.{
  ℕ, ◌+◌, ◌-◌, ◌*◌, ◌≡◌, refl, arith, true, false, List, [], ◌∷◌, none, some, Result, ok, raised,
  index_error, ltb, length,
}
use armv.Tapes.Player.{Cursor, get_byte}
use armv.Tapes.Player.Timing.{Numbers, Recording, update, byte_ready, fast_forward}
use armv.Tapes.Player.Timing.Steady.{IsRecorded, IsAt-start}
use armv.Devices.TapeDrive.{
  not_ready, Drive, no_winding, fast_forwarding, start_playing, pause, pause_time, unpause,
  skip_loading, write_byte_callback,
}
use armv.Devices.TapeDrive.Frames.{StripeColour, blue, yellow, red, Frame, bit_rows}
use armv.Devices.TapeDrive.Frames as Frames
use armv.Devices.TapeDrive.Frames.Uses.{Use, Uses}
use armv.Devices.TapeDrive.Program.{OnByte, program_tape, update_program, Uses-Returns}

abbrev naturals : Numbers ℕ
naturals = record {
  from = λ n. n;
  add = λ a b. a + b;
  sub = λ a b. a - b;
  mul = λ a b. a * b;
  lt = ltb;
}

abbrev short_tape : Recording ℕ
short_tape = record {
  tape = record { blocks = (7 ∷ []) ∷ []; start_time = 100 ∷ []; preamble_len = 100; origin = 0 };
  byte_samples = (5 ∷ []) ∷ [];
  bit_times = (0 ∷ 10 ∷ 30 ∷ []) ∷ [];
  bits = (1 ∷ 0 ∷ 1 ∷ 0 ∷ 0 ∷ []) ∷ [];
  noise_len = 50;
  end_time = 130;
  sample_rate = 1;
  cache_samples = 40;
}

-- Loaded and at rest, with a request that waits.
abbrev at_rest : Drive (Cursor ℕ)
at_rest = record {
  status = not_ready;
  data_byte = 0;
  tape = some (record {
    position = 0;
    current_block = 0;
    current_bit = 0;
    block_pos = 0;
    block_start = 100;
  });
  entered_pilot = false;
  entered_first_pilot = true;
  playing = false;
  loading = true;
  skipped = false;
  drive_open = false;
  paused = false;
  start_time = none;
  last_time = none;
  pause_start = 0;
  winding = no_winding;
  wind_time = 0;
  calls = 0;
  interrupts = [];
}

abbrev played : Drive (Cursor ℕ)
played = start_playing (program_tape naturals short_tape) 1000 at_rest

abbrev colours_of : Result (Frame (Cursor ℕ)) → List StripeColour
colours_of (ok f) = f.stripes
colours_of _ = []

-- 115 ms after the start the third bit is the next to show.
three_rows :
    colours_of (
      Frames.update
        (program_tape naturals short_tape)
        (update_program naturals short_tape)
        1115
        played
        (red ∷ red ∷ red ∷ []))
    ≡ yellow ∷ blue ∷ blue ∷ []
unfolding Frames.update start_playing update bit_rows byte_ready get_byte
three_rows = refl

short-IsRecorded : IsRecorded short_tape
short-IsRecorded = record {
  sizes = (refl, tt);
  filled = (omega arith, tt);
  timed = (omega arith, tt);
  times = refl;
  rows = refl;
  starts = refl;
}

abbrev ShortOnByte : Cursor ℕ → Type 0
ShortOnByte = OnByte naturals short_tape (omega arith, tt) short-IsRecorded (omega arith)

abbrev at_the_start : Cursor ℕ
at_the_start = record {
  position = 0;
  current_block = 0;
  current_bit = 0;
  block_pos = 0;
  block_start = 100;
}

start-OnByte : ShortOnByte at_the_start
start-OnByte = IsAt-start naturals short_tape short-IsRecorded at_the_start refl

Uses-Returns_example :
    ((x : Drive (Cursor ℕ)) × (pause (program_tape naturals short_tape) 1115 played ≡ ok x))
    × ((x : Drive (Cursor ℕ)) × (unpause (program_tape naturals short_tape) 1115 played ≡ ok x))
    × ((x : Drive (Cursor ℕ)) × (skip_loading (program_tape naturals short_tape) played ≡ ok x))
    × ((x : Drive (Cursor ℕ)) × (write_byte_callback (program_tape naturals short_tape) 1 0 played
          ≡ ok x))
    × ((f : Frame (Cursor ℕ)) × (Frames.update
            (program_tape naturals short_tape)
            (update_program naturals short_tape)
            1115
            played
            (red ∷ red ∷ red ∷ [])
          ≡ ok f)
        × (length f.stripes ≡ 3))
Uses-Returns_example =
    Uses-Returns naturals short_tape (omega arith, tt) short-IsRecorded (omega arith) at_rest played
      1115 1 0 (red ∷ red ∷ red ∷ []) (tt, start-OnByte)
      (Uses.then_use at_rest played Uses.unused (Use.started 1000 at_rest))

-- A tape without blocks.
abbrev no_tape : Recording ℕ
no_tape = record {
  tape = record { blocks = []; start_time = []; preamble_len = 100; origin = 0 };
  byte_samples = [];
  bit_times = [];
  bits = [];
  noise_len = 50;
  end_time = 100;
  sample_rate = 1;
  cache_samples = 40;
}

-- Winding it to its end raises an exception when the winding is over.
winding_no_blocks :
    Frames.update
      (program_tape naturals no_tape)
      (update_program naturals no_tape)
      2000
      (record at_rest { winding = fast_forwarding; wind_time = 1500 })
      []
    ≡ raised index_error
unfolding Frames.update fast_forward pause_time
winding_no_blocks = refl
