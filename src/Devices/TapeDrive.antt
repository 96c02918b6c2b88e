-- ===== src/Devices/TapeDrive.antt =====
-- hardware.py, class TapeDrive: the control bytes, the feeding of bytes, winding and loading a tape.
-- The tape is an argument with the operations of tapes.py that the drive calls; what it plays as
-- sound is left out, and an end callback is registered. `globals.t` is the argument `now`, in
-- milliseconds.
pub mod Protocol
pub mod Sound
pub mod Frames
pub mod Program
use armv.Common.{
  ℕ, ◌+◌, ◌-◌, Bool, true, false, ◌&&◌, ◌||◌, not, List, [], ◌∷◌, ◌++◌, Option, none, some, ◌==◌,
  Result, ok, raised, attribute_error, ◌>>=◌, if◌then◌else◌,
}

-- TapeDrive.Codes
pub data Code : Type 0 where
  next_byte not_ready end_of_tape drive_empty ready : Code

abbrev pub code_value : Code → ℕ
code_value next_byte = 0
code_value not_ready = 1
code_value end_of_tape = 2
code_value drive_empty = 3
code_value ready = 4

-- The operations of a tape: get_byte gives none where it has no byte, and byte_ready and fast_forward
-- may raise an exception.
pub record Player (T : Type 0) : Type 0 where
  pub get_byte : T → Option ℕ × T
  pub byte_ready : T → Result Bool × T
  pub rewind : T → T
  pub fast_forward : T → Result (Unit {0}) × T

-- Which way the tape is wound.
pub data Winding : Type 0 where
  no_winding rewinding fast_forwarding : Winding

-- `calls` counts the calls of end_callback and of the callbacks of winding, and `interrupts` are the
-- codes of the interrupts raised so far, the last one first.
pub record Drive (T : Type 0) : Type 0 where
  pub status : Code
  pub data_byte : ℕ
  pub tape : Option T
  pub entered_pilot : Bool
  pub entered_first_pilot : Bool
  pub playing : Bool
  pub loading : Bool
  pub skipped : Bool
  pub drive_open : Bool
  pub paused : Bool
  pub start_time : Option ℕ
  pub last_time : Option ℕ
  pub pause_start : ℕ
  pub winding : Winding
  pub wind_time : ℕ
  pub calls : ℕ
  pub interrupts : List Code

module _ {T : Type 0} (player : Player T) where
  abbrev pub is_loaded : Option T → Bool
  is_loaded none = false
  is_loaded (some t) = true

  unfoldable pub start_playing : ℕ → Drive T → Drive T
  start_playing now d =
      if is_loaded d.tape
      then record d { skipped = false; playing = true; start_time = some now; last_time = some now }
      else d

  unfoldable pub stop_playing : Drive T → Drive T
  stop_playing d =
      if is_loaded d.tape
      then record d { playing = false; start_time = none; last_time = none }
      else d

  -- `self.tape` is asked for its sound while the drive plays.
  abbrev pub with_sound : Drive T → Result (Drive T)
  with_sound d =
      if d.playing then (if is_loaded d.tape then ok d else raised attribute_error) else ok d

  unfoldable pub pause : ℕ → Drive T → Result (Drive T)
  pause now d = with_sound (record d { paused = true; pause_start = now })

  unfoldable pub pause_time : ℕ → Drive T → ℕ
  pause_time now d = if d.paused then now - d.pause_start else 0

  abbrev pub is_winding : Winding → Bool
  is_winding no_winding = false
  is_winding _ = true

  unfoldable pub unpause : ℕ → Drive T → Result (Drive T)
  unfolding pause_time
  unpause now d =
      let moved = record d { wind_time = d.wind_time + pause_time now d } in
      let resumed = if is_winding d.winding then moved else d in
      with_sound (record resumed { paused = false; pause_start = 0 })

  -- rewind and fast_forward of the drive; without a tape the callback is called at once.
  unfoldable pub wind : Winding → ℕ → Drive T → Drive T
  wind way now d =
      if is_loaded d.tape
      then record d { wind_time = now + 1000; winding = way }
      else record d { calls = d.calls + 1 }

  unfoldable pub stop_winding : Drive T → Drive T
  stop_winding d = record d { winding = no_winding; wind_time = 0 }

  -- The tape is gone before stop_playing asks for it.
  unfoldable pub unload_tape : Drive T → Drive T
  unfolding stop_playing
  unload_tape d = if is_loaded d.tape then stop_playing (record d { tape = none }) else d

  unfoldable pub load_tape : T → Drive T → Drive T
  unfolding unload_tape
  load_tape t d = record (unload_tape d) { tape = some t }

  unfoldable pub power_down : Drive T → Drive T
  unfolding stop_playing
  power_down d = record (stop_playing d) {
    loading = false;
    entered_pilot = false;
    entered_first_pilot = false;
    calls = d.calls + 1;
  }

  unfoldable pub skip_loading : Drive T → Result (Drive T)
  skip_loading d =
      with_sound d >>= λ asked. ok (if d.playing then record asked { skipped = true } else asked)

  abbrev pub ready_of : Option T → Drive T → Result Bool × Drive T
  ready_of none d = (ok false, d)
  ready_of (some t) d =
      let (r, t') = player.byte_ready t in
      let asked : Result Bool × Drive T = (r, record d { tape = some t' }) in
      let skips : Result Bool × Drive T = (ok true, d) in
      if d.playing then (if d.skipped then skips else asked) else (ok false, d)

  unfoldable pub is_byte_ready : Drive T → Result Bool × Drive T
  is_byte_ready d = ready_of d.tape d

  abbrev pub interrupted : Drive T → Drive T
  interrupted d = record d { interrupts = d.status ∷ d.interrupts }

  abbrev pub fed : Option ℕ → Drive T → Drive T
  fed (some c) d = interrupted (record d { data_byte = c; status = ready })
  fed none d = interrupted (
      stop_playing (record d {
        data_byte = 0;
        status = if d.paused then not_ready else end_of_tape;
        loading = false;
      }))

  abbrev pub take_byte : Option T → Bool → Drive T → Option ℕ × Drive T
  take_byte none is_open d = (none, d)
  take_byte (some t) true d = (none, d)
  take_byte (some t) false d = let (c, t') = player.get_byte t in (c, record d { tape = some t' })

  unfoldable pub feed_byte : Drive T → Drive T
  unfolding stop_playing
  feed_byte d = let (c, taken) = take_byte d.tape d.drive_open d in fed c taken

  -- A write of NEXT_BYTE to the control byte, with a tape and without.
  abbrev pub wants_byte : Option T → Drive T → Result (Drive T)
  wants_byte none d = ok (interrupted (record d { data_byte = 0; status = drive_empty }))
  wants_byte (some t) d =
      let (r, asked) = is_byte_ready (record d { loading = true }) in
      let fed_one = feed_byte asked in
      r >>= λ is_ready.
      ok (if is_ready then fed_one else record asked { data_byte = 0; status = not_ready })

  unfoldable pub write_byte_callback : ℕ → ℕ → Drive T → Result (Drive T)
  unfolding is_byte_ready feed_byte power_down
  write_byte_callback addr value d =
      if addr == 1
      then (if value == code_value next_byte
          then wants_byte d.tape d
          else if value == code_value ready
          then ok (power_down d)
          else ok d)
      else ok d

  -- None at an address behind the three bytes.
  unfoldable pub read_byte_callback : ℕ → Drive T → Option ℕ
  read_byte_callback addr d =
      if addr == 0
      then some (code_value d.status)
      else if addr == 1
      then some 0
      else if addr == 2
      then some d.data_byte
      else none
