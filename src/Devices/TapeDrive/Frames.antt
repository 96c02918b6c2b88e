-- ===== src/Devices/TapeDrive/Frames.antt =====
-- hardware.py, class TapeDrive: update, which is called for each frame, with the colours of the
-- stripes, and copy_from. A row of stripes has one colour. Floats are exact here: where the source
-- divides a time by 20 and compares, both sides are multiplied by 20.
pub mod Steady
pub mod Uses
use armv.Common.{
  ℕ, zero, suc, ◌+◌, ◌-◌, ◌*◌, ◌%◌, Bool, true, false, ◌&&◌, ◌||◌, not, List, [], ◌∷◌, Option, none,
  some, leb, ltb, Result, Exn, ok, raised, index_error, type_error, attribute_error, ◌>>=◌,
  if◌then◌else◌, length,
}
use armv.Tapes.Player.Timing.{TapeStage}
use armv.Devices.TapeDrive.{
  Code, not_ready, Player, Winding, Drive, power_down, pause_time, is_byte_ready, feed_byte,
}

-- The colours of Display.Colours that stripes have.
pub data StripeColour : Type 0 where
  blue yellow red med_grey : StripeColour

-- `drawn` says whether the call draws the stripes.
pub record Frame (T : Type 0) : Type 0 where
  pub drive : Drive T
  pub stripes : List StripeColour
  pub drawn : Bool

abbrev pub is_not_ready : Code → Bool
is_not_ready Code.next_byte = false
is_not_ready Code.not_ready = true
is_not_ready Code.end_of_tape = false
is_not_ready Code.drive_empty = false
is_not_ready Code.ready = false

abbrev pub is_tone : TapeStage → Bool
is_tone TapeStage.no_data = false
is_tone TapeStage.no_tone = false
is_tone TapeStage.tone = true
is_tone TapeStage.bits_data = false

-- [BLUE, YELLOW][bit]
abbrev pub bit_colour : ℕ → Result StripeColour
bit_colour zero = ok blue
bit_colour (suc zero) = ok yellow
bit_colour (suc (suc n)) = raised index_error

-- A stripe for each bit, and 0 behind the last bit.
unfoldable pub bit_rows : List StripeColour → List ℕ → Result (List StripeColour)
bit_rows [] bits = ok []
bit_rows (c ∷ rows) [] = bit_rows rows [] >>= λ rest. ok (blue ∷ rest)
bit_rows (c ∷ rows) (b ∷ bits) =
    let rest = bit_rows rows bits in
    bit_colour b >>= λ colour. rest >>= λ later. ok (colour ∷ later)

-- ((i + 8 - elapsed / 20) % 12) >= 4
abbrev pub is_bar : (elapsed i : ℕ) → Bool
is_bar elapsed i = leb 80 ((20 * (i + 8) + 239 * elapsed) % 240)

unfoldable pub bar_rows :
    StripeColour → StripeColour → (elapsed i : ℕ) → List StripeColour → List StripeColour
bar_rows first second elapsed i [] = []
bar_rows first second elapsed i (c ∷ rows) =
    (if is_bar elapsed i then first else second) ∷ bar_rows first second elapsed (suc i) rows

module _ {T : Type 0} where
  unfoldable pub copy_from : Drive T → Drive T → Drive T
  copy_from d other = record d {
    status = other.status;
    tape = other.tape;
    entered_pilot = other.entered_pilot;
    entered_first_pilot = other.entered_first_pilot;
    playing = other.playing;
    loading = other.loading;
    skipped = other.skipped;
    drive_open = other.drive_open;
    paused = other.paused;
    start_time = other.start_time;
    last_time = other.last_time;
    pause_start = other.pause_start;
    winding = other.winding;
    wind_time = other.wind_time;
  }

abbrev pub Shown : Type 0
Shown = Option (List ℕ) × TapeStage

module _ {T : Type 0} (player : Player T) (update_tape : ℕ → Bool → ℕ → T → Result Shown × T) where
  abbrev pub wound_tape : (T → Result (Unit {0}) × T) → Option T → Result (Option T)
  wound_tape wind none = ok none
  wound_tape wind (some t) = let (r, t') = wind t in r >>= λ u. ok (some t')

  -- The winding is over: its callback is called, and the tape is wound. `later` is its wind_time.
  abbrev pub wound : (T → Result (Unit {0}) × T) → (later now : ℕ) → Drive T → Result (Drive T)
  wound wind later now d =
      if leb (d.wind_time + pause_time player now d) now
      then (wound_tape wind d.tape >>= λ o. ok (record d {
        winding = Winding.no_winding;
        wind_time = later;
        calls = d.calls + 1;
        tape = o;
      }))
      else ok d

  abbrev pub rewinds : T → Result (Unit {0}) × T
  rewinds t = (ok tt, player.rewind t)

  -- What the tape has for this frame, or that it has ended.
  pub data Played : Type 0 where
    shown : Drive T → Shown → Played
    at_end : Drive T → Played

  abbrev pub is_index_error : Exn → Bool
  is_index_error Exn.index_error = true
  is_index_error _ = false

  abbrev pub caught_end : Result Shown → Drive T → Result Played
  caught_end (ok s) d = ok (shown d s)
  caught_end (raised e) d = if is_index_error e then ok (at_end (power_down player d)) else raised e

  abbrev pub play_tape : (elapsed rows : ℕ) → Option T → Drive T → Result Played
  play_tape elapsed rows none d = raised attribute_error
  play_tape elapsed rows (some t) d =
      let (result, t') = update_tape elapsed d.paused rows t in
      caught_end result (record d { tape = some t' })

  abbrev pub play_from : (now rows : ℕ) → Option ℕ → Drive T → Result Played
  play_from now rows none d = raised type_error
  play_from now rows (some last) d =
      play_tape (now - last) rows d.tape (record d { last_time = some now })

  abbrev pub play : (now rows : ℕ) → Drive T → Result Played
  play now rows d =
      if d.playing then play_from now rows d.last_time d else ok (shown d (none, TapeStage.no_data))

  -- A request that waits is answered if a byte is ready by now.
  unfoldable pub answer : Drive T → Result (Drive T)
  unfolding is_byte_ready feed_byte
  answer d =
      let (r, asked) = is_byte_ready player d in
      let fed_one = feed_byte player asked in
      let answered = r >>= λ is_ready. ok (if is_ready then fed_one else asked) in
      if d.entered_first_pilot && is_not_ready d.status then answered else ok d

  abbrev pub moving_bars : ℕ → Option ℕ → Drive T → List StripeColour → Result (Frame T)
  moving_bars now none d stripes = raised type_error
  moving_bars now (some start) d stripes =
      ok (record {
        drive = d;
        stripes = bar_rows med_grey red (now - start) 0 stripes;
        drawn = true;
      })

  abbrev pub bars : ℕ → TapeStage → Drive T → List StripeColour → Result (Frame T)
  bars now stage d stripes =
      if d.playing && (not d.paused && is_tone stage)
      then moving_bars now d.start_time d stripes
      else ok (record { drive = d; stripes = bar_rows red red 0 0 stripes; drawn = true })

  abbrev pub data_rows : List ℕ → Drive T → List StripeColour → Result (Frame T)
  data_rows [] d stripes = ok (record { drive = d; stripes = stripes; drawn = false })
  data_rows (b ∷ bits) d stripes = bit_rows stripes (b ∷ bits) >>= λ rows.
      ok (record { drive = d; stripes = rows; drawn = true })

  -- The first tone tells the callback that a pilot is entered.
  abbrev pub pilot : TapeStage → Drive T → Drive T
  pilot stage d =
      if not d.entered_pilot && is_tone stage
      then record d { calls = d.calls + 1; entered_pilot = true; entered_first_pilot = true }
      else d

  abbrev pub paint : ℕ → Shown → Drive T → List StripeColour → Result (Frame T)
  paint now (none, stage) d stripes = bars now stage (pilot stage d) stripes
  paint now (some bits, stage) d stripes =
      if d.entered_first_pilot
      then data_rows bits (record d { entered_pilot = false }) stripes
      else bars now stage d stripes

  abbrev pub undrawn : Drive T → List StripeColour → Frame T
  undrawn d stripes = record { drive = d; stripes = stripes; drawn = false }

  unfoldable pub finish : ℕ → List StripeColour → Played → Result (Frame T)
  unfolding answer bit_rows bar_rows
  finish now stripes (at_end d) = ok (undrawn d stripes)
  finish now stripes (shown d s) =
      if d.loading
      then (answer d >>= λ answered. paint now s answered stripes)
      else ok (undrawn d stripes)

  abbrev pub by_winding : Winding → ℕ → Drive T → List StripeColour → Result (Frame T)
  by_winding Winding.rewinding now d stripes = wound rewinds 0 now d >>= λ e. ok (undrawn e stripes)
  by_winding Winding.fast_forwarding now d stripes =
      wound player.fast_forward d.wind_time now d >>= λ e. ok (undrawn e stripes)
  by_winding Winding.no_winding now d stripes = play now (length stripes) d >>= finish now stripes

  unfoldable pub update : ℕ → Drive T → List StripeColour → Result (Frame T)
  unfolding finish
  update now d stripes = by_winding d.winding now d stripes
