-- ===== src/Devices/DriveTests.antt =====
-- hardware.py, class TapeDrive on a short tape, and the theorems at concrete inputs.
use armv.Common.{
  ℕ, ◌≡◌, refl, true, false, List, [], ◌∷◌, Option, none, some, Result, ok, raised, ◌>>=◌,
}
use armv.Devices.TapeDrive.{
  Code, next_byte, not_ready, end_of_tape, ready, code_value, Player, Drive, no_winding,
  write_byte_callback,
}
use armv.Devices.TapeDrive.Protocol.{IsReply, write_byte_callback-IsReply}

-- A tape that is the list of its bytes, each ready at once.
abbrev take_first : List ℕ → Option ℕ × List ℕ
take_first [] = (none, [])
take_first (c ∷ cs) = (some c, cs)

abbrev list_tape : Player (List ℕ)
list_tape = record {
  get_byte = take_first;
  byte_ready = λ t. (ok true, t);
  rewind = λ t. t;
  fast_forward = λ t. (ok tt, []);
}

abbrev playing_drive : Drive (List ℕ)
playing_drive = record {
  status = not_ready;
  data_byte = 0;
  tape = some (7 ∷ []);
  entered_pilot = false;
  entered_first_pilot = true;
  playing = true;
  loading = true;
  skipped = false;
  drive_open = false;
  paused = false;
  start_time = some 0;
  last_time = some 0;
  pause_start = 0;
  winding = no_winding;
  wind_time = 0;
  calls = 0;
  interrupts = [];
}

write_byte_callback-IsReply_example :
    IsReply list_tape playing_drive
      (write_byte_callback list_tape 1 (code_value next_byte) playing_drive)
write_byte_callback-IsReply_example = write_byte_callback-IsReply list_tape playing_drive

abbrev asked_twice : Result (Drive (List ℕ))
asked_twice =
    write_byte_callback list_tape 1 0 playing_drive >>= λ d. write_byte_callback list_tape 1 0 d

abbrev shown_by : Result (Drive (List ℕ)) → ℕ × List Code
shown_by (ok d) = (d.data_byte, d.interrupts)
shown_by (raised e) = (0, [])

one_byte : shown_by (write_byte_callback list_tape 1 0 playing_drive) ≡ (7, ready ∷ [])
unfolding write_byte_callback
one_byte = refl

then_the_end : shown_by asked_twice ≡ (0, end_of_tape ∷ ready ∷ [])
unfolding write_byte_callback
then_the_end = refl
