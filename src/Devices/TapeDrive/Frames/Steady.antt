-- ===== src/Devices/TapeDrive/Frames/Steady.antt =====
-- hardware.py, class TapeDrive: a frame of a sound drive.
use armv.Common.{
  ℕ, zero, suc, ◌+◌, ◌-◌, ◌<◌, ◌≡◌, inl, inr, refl, sym, ap, Bool, true, false, Bool-cases, ◌&&◌,
  not, List, [], ◌∷◌, Option, none, some, All, leb, Result, ok, raised, index_error, arith, ◌>>=◌,
  if◌then◌else◌, length,
}
use mathlib.Core.Path.{subst}
use armv.Tapes.Player.Timing.{TapeStage}
use armv.Devices.TapeDrive.{
  Player, Winding, Drive, power_down, pause_time, is_byte_ready, feed_byte,
}
use armv.Devices.TapeDrive.Sound.{
  SoundOf, SoundOf-tape, Holds, IsSound, if-IsSound, Returned, if-Returned, IsTape,
  power_down-IsSound, is_byte_ready-IsAsked, feed_byte-IsSound,
}
use armv.Devices.TapeDrive.Frames.{
  StripeColour, red, med_grey, Frame, Shown, bit_colour, bit_rows, bar_rows, wound_tape, wound,
  rewinds, Played, shown, at_end, caught_end, play_tape, play_from, play, answer, moving_bars, bars,
  is_tone, is_not_ready, data_rows, pilot, paint, undrawn, finish, by_winding, update,
}

abbrev pub IsBit : ℕ → Type 0
IsBit b = b < 2

bit_colour-ok : (b : ℕ) → IsBit b → (c : StripeColour) × (bit_colour b ≡ ok c)
bit_colour-ok zero h = (StripeColour.blue, refl)
bit_colour-ok (suc zero) h = (StripeColour.yellow, refl)
bit_colour-ok (suc (suc b)) h = absurd (omega arith)

pub bit_rows-ok :
    (stripes : List StripeColour) (bits : List ℕ)
    → All IsBit bits
    → (rows : List StripeColour) × (bit_rows stripes bits ≡ ok rows)
      × (length rows ≡ length stripes)
unfolding bit_rows
bit_rows-ok [] bits h = ([], refl, refl)
bit_rows-ok (c ∷ stripes) [] h =
    let (rows, e, size) = bit_rows-ok stripes [] tt in
    (StripeColour.blue ∷ rows, rw e refl, ap suc size)
bit_rows-ok (c ∷ stripes) (b ∷ bits) h =
    let (rows, e, size) = bit_rows-ok stripes bits h.1 in
    let (colour, f) = bit_colour-ok b h.0 in (colour ∷ rows, rw (f, e) refl, ap suc size)

length-bar_rows :
    (first second : StripeColour) (elapsed i : ℕ) (stripes : List StripeColour)
    → length (bar_rows first second elapsed i stripes) ≡ length stripes
unfolding bar_rows
length-bar_rows first second elapsed i [] = refl
length-bar_rows first second elapsed i (c ∷ stripes) =
    ap suc (length-bar_rows first second elapsed (suc i) stripes)

-- What a tape's update gives: bits, or the IndexError at its end.
abbrev pub IsUpdate : Result Shown → Type 0
IsUpdate (ok (none, stage)) = Unit {0}
IsUpdate (ok (some bits, stage)) = All IsBit bits
IsUpdate (raised e) = e ≡ index_error

-- The tapes of a kind whose update gives bits or ends, and that stay of that kind.
abbrev pub Updates : {T : Type 0} → (ℕ → Bool → ℕ → T → Result Shown × T) → (T → Type 0) → Type 0
Updates {T} update_tape Good =
    (elapsed : ℕ) (paused : Bool) (rows : ℕ) (t : T)
    → Good t
    → IsUpdate (update_tape elapsed paused rows t).0 × Good (update_tape elapsed paused rows t).1

module _ {T : Type 0} (player : Player T) (update_tape : ℕ → Bool → ℕ → T → Result Shown × T)
    (Good : T → Type 0) (laws : IsTape player Good) (updates : Updates update_tape Good) where
  -- A winding that raises nothing.
  abbrev Winds : (T → Result (Unit {0}) × T) → Type 0
  Winds wind = (t : T) → Good t → ((wind t).0 ≡ ok tt) × Good (wind t).1

  wound_tape-Holds :
      (wind : T → Result (Unit {0}) × T)
      → Winds wind
      → (b : Bool) (o : Option T) (s l : Option ℕ) → SoundOf b o s l
      → Holds Good o
      → (later : Option T) × (wound_tape player update_tape wind o ≡ ok later)
        × SoundOf b later s l
        × Holds Good later
  wound_tape-Holds wind w b none s l h g = (none, refl, h, tt)
  wound_tape-Holds wind w b (some t) s l h g = (
    some (wind t).1,
    ap (λ (r : Result (Unit {0})). r >>= λ u. ok (some (wind t).1)) (w t g).0,
    SoundOf-tape b (some t) (wind t).1 s l h,
    (w t g).1,
  )

  wound-Returned :
      (wind : T → Result (Unit {0}) × T) (later now : ℕ) (d : Drive T)
      → Winds wind
      → IsSound Good d
      → Returned Good (wound player update_tape wind later now d)
  wound-Returned wind later now d w h =
      let (o, e, sound, holds) =
        wound_tape-Holds wind w d.playing d.tape d.start_time d.last_time h.0 h.1 in
      let after = λ (tape : Option T). record d {
        winding = Winding.no_winding;
        wind_time = later;
        calls = d.calls + 1;
        tape = tape;
      } in
      if-Returned Good (leb (d.wind_time + pause_time player now d) now) _ (ok d)
        (after o, ap (λ (r : Result (Option T)). r >>= λ tape. ok (after tape)) e, (sound, holds))
        (d, refl, h)

  -- A frame that keeps the drive sound and its rows.
  abbrev pub IsFrame : List StripeColour → Result (Frame T) → Type 0
  IsFrame stripes r =
      (f : Frame T) × (r ≡ ok f) × IsSound Good f.drive × (length f.stripes ≡ length stripes)

  if-IsFrame :
      (stripes : List StripeColour) (b : Bool) (x y : Result (Frame T))
      → IsFrame stripes x
      → IsFrame stripes y
      → IsFrame stripes (if b then x else y)
  if-IsFrame stripes true x y h k = h
  if-IsFrame stripes false x y h k = k

  bars-IsFrame :
      (now : ℕ) (stage : TapeStage) (d : Drive T) (stripes : List StripeColour)
      → IsSound Good d
      → IsFrame stripes (bars player update_tape now stage d stripes)
  bars-IsFrame now stage d stripes h = go d.playing d.start_time h.0
    where
      still :
          IsFrame stripes
            (ok (record { drive = d; stripes = bar_rows red red 0 0 stripes; drawn = true }))
      still = (_, refl, h, length-bar_rows red red 0 0 stripes)

      go :
          (b : Bool) (s : Option ℕ)
          → SoundOf b d.tape s d.last_time
          → IsFrame stripes (
              if b && (not d.paused && is_tone stage)
              then moving_bars player update_tape now s d stripes
              else ok (record { drive = d; stripes = bar_rows red red 0 0 stripes; drawn = true }))
      go false s k = still
      go true none k = cc k.1
      go true (some start) k = elim (Bool-cases (not d.paused && is_tone stage)) [
        | inl e ↦ rw e (_, refl, h, length-bar_rows med_grey red (now - start) 0 stripes)
        | inr e ↦ rw e still
      ]

  data_rows-IsFrame :
      (bits : List ℕ) (d : Drive T) (stripes : List StripeColour)
      → All IsBit bits
      → IsSound Good d
      → IsFrame stripes (data_rows player update_tape bits d stripes)
  data_rows-IsFrame [] d stripes bs h = (_, refl, h, refl)
  data_rows-IsFrame (b ∷ bits) d stripes bs h =
      let (rows, e, size) = bit_rows-ok stripes (b ∷ bits) bs in
      (record { drive = d; stripes = rows; drawn = true }, rw e refl, h, size)

  paint-IsFrame :
      (now : ℕ) (s : Shown) (d : Drive T) (stripes : List StripeColour)
      → IsUpdate (ok s)
      → IsSound Good d
      → IsFrame stripes (paint player update_tape now s d stripes)
  paint-IsFrame now (none, stage) d stripes u h =
      bars-IsFrame now stage (pilot player update_tape stage d) stripes
        (if-IsSound Good (not d.entered_pilot && is_tone stage) _ d h h)
  paint-IsFrame now (some bits, stage) d stripes u h =
      if-IsFrame stripes d.entered_first_pilot _ _
        (data_rows-IsFrame bits (record d { entered_pilot = false }) stripes u h)
        (bars-IsFrame now stage d stripes h)

  answer-Returned : (d : Drive T) → IsSound Good d → Returned Good (answer player update_tape d)
  unfolding answer
  answer-Returned d h =
      let asked = is_byte_ready player d in
      let ((b, e), sound) = is_byte_ready-IsAsked player Good laws d h in
      if-Returned Good (d.entered_first_pilot && is_not_ready d.status) _ (ok d)
        (
          if b then feed_byte player asked.1 else asked.1,
          ap
              (λ (r : Result Bool).
                r >>= λ is_ready. ok (if is_ready then feed_byte player asked.1 else asked.1))
              e,
          if-IsSound Good b _ asked.1 (feed_byte-IsSound player Good laws asked.1 sound) sound,
        )
        (d, refl, h)

  abbrev IsPlayed : Played player update_tape → Type 0
  IsPlayed (shown d s) = IsUpdate (ok s) × IsSound Good d
  IsPlayed (at_end d) = IsSound Good d

  finish-IsFrame :
      (now : ℕ) (stripes : List StripeColour) (p : Played player update_tape)
      → IsPlayed p
      → IsFrame stripes (finish player update_tape now stripes p)
  unfolding finish
  finish-IsFrame now stripes (at_end d) h = (_, refl, h, refl)
  finish-IsFrame now stripes (shown d s) (u, h) =
      let (answered, e, sound) = answer-Returned d h in
      if-IsFrame stripes d.loading _ _
        (subst (λ r. IsFrame stripes (r >>= λ a. paint player update_tape now s a stripes)) (sym e)
          (paint-IsFrame now s answered stripes u sound))
        (undrawn player update_tape d stripes, refl, h, refl)

  abbrev IsPlay : Result (Played player update_tape) → Type 0
  IsPlay r = (p : Played player update_tape) × (r ≡ ok p) × IsPlayed p

  caught_end-IsPlay :
      (r : Result Shown) (d : Drive T)
      → IsUpdate r
      → IsSound Good d
      → IsPlay (caught_end player update_tape r d)
  caught_end-IsPlay (ok s) d u h = (shown d s, refl, (u, h))
  caught_end-IsPlay (raised e) d u h =
      (at_end (power_down player d), rw u refl, power_down-IsSound player Good laws d h)

  play_tape-IsPlay :
      (elapsed rows : ℕ) (o : Option T) (d : Drive T)
      → d.playing ≡ true
      → SoundOf true o d.start_time d.last_time
      → Holds Good o
      → IsPlay (play_tape player update_tape elapsed rows o d)
  play_tape-IsPlay elapsed rows none d e h u = cc h.0
  play_tape-IsPlay elapsed rows (some t) d e h u =
      caught_end-IsPlay (update_tape elapsed d.paused rows t).0
        (record d { tape = some (update_tape elapsed d.paused rows t).1 })
        (updates elapsed d.paused rows t u).0
        (
          subst
              (λ b.
                SoundOf b (some (update_tape elapsed d.paused rows t).1) d.start_time d.last_time)
              (sym e) (refl, h.1, h.2),
          (updates elapsed d.paused rows t u).1,
        )

  play-IsPlay :
      (now rows : ℕ) (d : Drive T) → IsSound Good d → IsPlay (play player update_tape now rows d)
  play-IsPlay now rows d h = go d.playing refl d.last_time h.0
    where
      go :
          (b : Bool)
          → d.playing ≡ b
          → (l : Option ℕ) → SoundOf b d.tape d.start_time l
          → IsPlay (
              if b
              then play_from player update_tape now rows l d
              else ok (shown d (none, TapeStage.no_data)))
      go false e l k = (shown d (none, TapeStage.no_data), refl, (tt, h))
      go true e none k = cc k.2
      go true e (some last) k =
          play_tape-IsPlay (now - last) rows d.tape (record d { last_time = some now }) e
            (k.0, k.1, refl) h.1

  bind-IsFrame :
      (now : ℕ) (stripes : List StripeColour) (r : Result (Played player update_tape))
      → IsPlay r
      → IsFrame stripes (r >>= finish player update_tape now stripes)
  bind-IsFrame now stripes r (p, e, h) = rw e (finish-IsFrame now stripes p h)

  wound-IsFrame :
      (stripes : List StripeColour) (r : Result (Drive T))
      → Returned Good r
      → IsFrame stripes (r >>= λ e. ok (undrawn player update_tape e stripes))
  wound-IsFrame stripes r (e, p, h) = rw p (undrawn player update_tape e stripes, refl, h, refl)

  by_winding-IsFrame :
      (way : Winding) (now : ℕ) (d : Drive T) (stripes : List StripeColour)
      → IsSound Good d
      → IsFrame stripes (by_winding player update_tape way now d stripes)
  by_winding-IsFrame Winding.rewinding now d stripes h =
      wound-IsFrame stripes (wound player update_tape (rewinds player update_tape) 0 now d)
        (wound-Returned (rewinds player update_tape) 0 now d (λ t g. (refl, laws.rewinds t g)) h)
  by_winding-IsFrame Winding.fast_forwarding now d stripes h =
      wound-IsFrame stripes (wound player update_tape player.fast_forward d.wind_time now d)
        (wound-Returned player.fast_forward d.wind_time now d laws.forwards h)
  by_winding-IsFrame Winding.no_winding now d stripes h =
      bind-IsFrame now stripes (play player update_tape now (length stripes) d)
        (play-IsPlay now (length stripes) d h)

  pub update-IsFrame :
      (now : ℕ) (d : Drive T) (stripes : List StripeColour)
      → IsSound Good d
      → IsFrame stripes (update player update_tape now d stripes)
  unfolding update
  update-IsFrame now d stripes h = by_winding-IsFrame d.winding now d stripes h
