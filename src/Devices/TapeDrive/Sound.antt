-- ===== src/Devices/TapeDrive/Sound.antt =====
-- hardware.py, class TapeDrive: a drive that plays has a tape and the times of its playing, and its
-- tape stays one that raises nothing.
use armv.Common.{
  ℕ, ◌≡◌, refl, sym, ap, Bool, true, false, Option, none, some, Exn, Result, ok, raised, ◌>>=◌,
  ◌==◌, if◌then◌else◌, ◌+◌,
}
use mathlib.Core.Path.{subst}
use armv.Devices.TapeDrive.{
  Player, Winding, Drive, is_loaded, start_playing, stop_playing, pause, unpause, wind, load_tape,
  unload_tape, power_down, not_ready, skip_loading, is_byte_ready, feed_byte, ready_of, take_byte,
  fed, wants_byte, write_byte_callback, is_winding, pause_time, with_sound,
}

abbrev pub is_set : {A : Type 0} → Option A → Bool
is_set none = false
is_set (some a) = true

module _ {T : Type 0} where
  abbrev pub SoundOf : Bool → Option T → Option ℕ → Option ℕ → Type 0
  SoundOf false tape start last = Unit {0}
  SoundOf true tape start last = (is_set tape ≡ true) × (is_set start ≡ true) × (is_set last ≡ true)

  pub SoundOf-tape :
      (b : Bool) (o : Option T) (t : T) (s l : Option ℕ) → SoundOf b o s l → SoundOf b (some t) s l
  SoundOf-tape false o t s l h = tt
  SoundOf-tape true o t s l h = (refl, h.1, h.2)

  if_keeps : (P : Drive T → Type 0) (b : Bool) (x y : Drive T) → P x → P y → P (if b then x else y)
  if_keeps P true x y h k = h
  if_keeps P false x y h k = k

module _ {T : Type 0} (Good : T → Type 0) where
  abbrev pub Holds : Option T → Type 0
  Holds none = Unit {0}
  Holds (some t) = Good t

  abbrev pub IsSound : Drive T → Type 0
  IsSound d = SoundOf d.playing d.tape d.start_time d.last_time × Holds d.tape

  pub if-IsSound : (b : Bool) (x y : Drive T) → IsSound x → IsSound y → IsSound (if b then x else y)
  if-IsSound b x y h k = if_keeps IsSound b x y h k

  -- An answer, and a drive that is sound.
  abbrev pub IsAsked : Result Bool × Drive T → Type 0
  IsAsked o = ((b : Bool) × (o.0 ≡ ok b)) × IsSound o.1

  if-IsAsked :
      (b : Bool) (x y : Result Bool × Drive T)
      → IsAsked x
      → IsAsked y
      → IsAsked (if b then x else y)
  if-IsAsked true x y h k = h
  if-IsAsked false x y h k = k

  abbrev pub Returned : Result (Drive T) → Type 0
  Returned r = (e : Drive T) × (r ≡ ok e) × IsSound e

  pub if-Returned :
      (b : Bool) (x y : Result (Drive T)) → Returned x → Returned y → Returned (if b then x else y)
  if-Returned true x y h k = h
  if-Returned false x y h k = k

-- The tapes of a kind that raise no exception, and stay of that kind.
pub record IsTape {T : Type 0} (player : Player T) (Good : T → Type 0) : Type 0 where
  pub reads : (t : T) → Good t → Good (player.get_byte t).1
  pub asks :
      (t : T)
      → Good t
      → ((b : Bool) × ((player.byte_ready t).0 ≡ ok b)) × Good (player.byte_ready t).1
  pub rewinds : (t : T) → Good t → Good (player.rewind t)
  pub forwards :
      (t : T) → Good t → ((player.fast_forward t).0 ≡ ok tt) × Good (player.fast_forward t).1

module _ {T : Type 0} (player : Player T) (Good : T → Type 0) (laws : IsTape player Good) where
  pub start_playing-IsSound :
      (now : ℕ) (d : Drive T) → IsSound Good d → IsSound Good (start_playing player now d)
  unfolding start_playing
  start_playing-IsSound now d h = started d.tape h.1 h
    where
      started :
          (o : Option T)
          → Holds Good o
          → IsSound Good d
          → IsSound Good (
              if is_loaded player o
              then record d {
                tape = o;
                skipped = false;
                playing = true;
                start_time = some now;
                last_time = some now;
              }
              else d)
      started none g h = h
      started (some t) g h = ((refl, refl, refl), g)

  pub stop_playing-IsSound : (d : Drive T) → IsSound Good d → IsSound Good (stop_playing player d)
  unfolding stop_playing
  stop_playing-IsSound d h = if-IsSound Good (is_loaded player d.tape) _ d (tt, h.1) h

  pub power_down-IsSound : (d : Drive T) → IsSound Good d → IsSound Good (power_down player d)
  unfolding power_down
  power_down-IsSound d h = stop_playing-IsSound d h

  ready_of-IsAsked :
      (o : Option T) (d : Drive T)
      → Holds Good o
      → IsSound Good d
      → IsAsked Good (ready_of player o d)
  ready_of-IsAsked none d g h = ((false, refl), h)
  ready_of-IsAsked (some t) d g h =
      let (answers, stays) = laws.asks t g in
      if-IsAsked Good d.playing _ (ok false, d)
        (if-IsAsked Good d.skipped (ok true, d) _ ((true, refl), h)
          (
            answers,
            (
              SoundOf-tape d.playing d.tape (player.byte_ready t).1 d.start_time d.last_time h.0,
              stays,
            ),
          ))
        ((false, refl), h)

  pub is_byte_ready-IsAsked : (d : Drive T) → IsSound Good d → IsAsked Good (is_byte_ready player d)
  unfolding is_byte_ready
  is_byte_ready-IsAsked d h = ready_of-IsAsked d.tape d h.1 h

  fed-IsSound : (o : Option ℕ) (d : Drive T) → IsSound Good d → IsSound Good (fed player o d)
  fed-IsSound (some c) d h = h
  fed-IsSound none d h = stop_playing-IsSound _ h

  take_byte-IsSound :
      (o : Option T) (is_open : Bool) (d : Drive T)
      → Holds Good o
      → IsSound Good d
      → IsSound Good (take_byte player o is_open d).1
  take_byte-IsSound none is_open d g h = h
  take_byte-IsSound (some t) true d g h = h
  take_byte-IsSound (some t) false d g h = (
    SoundOf-tape d.playing d.tape (player.get_byte t).1 d.start_time d.last_time h.0,
    laws.reads t g,
  )

  pub feed_byte-IsSound : (d : Drive T) → IsSound Good d → IsSound Good (feed_byte player d)
  unfolding feed_byte
  feed_byte-IsSound d h =
      let taken = take_byte player d.tape d.drive_open d in
      fed-IsSound taken.0 taken.1 (take_byte-IsSound d.tape d.drive_open d h.1 h)

  wants_byte-Returned :
      (o : Option T) (d : Drive T) → IsSound Good d → Returned Good (wants_byte player o d)
  wants_byte-Returned none d h = (_, refl, h)
  wants_byte-Returned (some t) d h =
      let asked = is_byte_ready player (record d { loading = true }) in
      let ((b, e), sound) = is_byte_ready-IsAsked (record d { loading = true }) h in
      (
        if b
            then feed_byte player asked.1
            else record asked.1 { data_byte = 0; status = not_ready },
        ap
            (λ (r : Result Bool). r >>= λ is_ready. ok (
              if is_ready
              then feed_byte player asked.1
              else record asked.1 { data_byte = 0; status = not_ready }))
            e,
        if-IsSound Good b _ _ (feed_byte-IsSound asked.1 sound) sound,
      )

  pub write_byte_callback-Returned :
      (addr value : ℕ) (d : Drive T)
      → IsSound Good d
      → Returned Good (write_byte_callback player addr value d)
  unfolding write_byte_callback
  write_byte_callback-Returned addr value d h =
      if-Returned Good (addr == 1) _ (ok d)
        (if-Returned Good (value == 0) _ _ (wants_byte-Returned d.tape d h)
          (if-Returned Good (value == 4) _ (ok d) (_, refl, power_down-IsSound d h) (d, refl, h)))
        (d, refl, h)

  pub load_tape-IsSound :
      (t : T) (d : Drive T) → Good t → IsSound Good d → IsSound Good (load_tape player t d)
  unfolding load_tape unload_tape
  load_tape-IsSound t d g h =
      let swapped = SoundOf-tape d.playing d.tape t d.start_time d.last_time h.0 in
      (
        if_keeps (λ e. SoundOf e.playing (some t) e.start_time e.last_time)
            (is_loaded player d.tape) _ d swapped swapped,
        g,
      )

  pub unload_tape-IsSound :
      (d : Drive T) → d.playing ≡ false → IsSound Good d → IsSound Good (unload_tape player d)
  unfolding unload_tape
  unload_tape-IsSound d idle h =
      let any : (o : Option T) → SoundOf d.playing o d.start_time d.last_time =
        λ o. subst (λ b. SoundOf b o d.start_time d.last_time) (sym idle) tt in
      if-IsSound Good (is_loaded player d.tape) _ d (any none, tt) (any d.tape, h.1)

  pub wind-IsSound :
      (way : Winding) (now : ℕ) (d : Drive T)
      → IsSound Good d
      → IsSound Good (wind player way now d)
  unfolding wind
  wind-IsSound way now d h = if-IsSound Good (is_loaded player d.tape) _ _ h h

  -- A playing drive has a tape, whose sound starts and stops.
  with_sound-IsSound : (d : Drive T) → IsSound Good d → with_sound player d ≡ ok d
  with_sound-IsSound d h = go d.playing d.tape h.0
    where
      go :
          (b : Bool) (o : Option T)
          → SoundOf b o d.start_time d.last_time
          → (if b then (if is_loaded player o then ok d else raised Exn.attribute_error) else ok d)
            ≡ ok d
      go false o h = refl
      go true none h = cc h.0
      go true (some t) h = refl

  pub pause-IsSound :
      (now : ℕ) (d : Drive T)
      → IsSound Good d
      → (e : Drive T) × (pause player now d ≡ ok e) × IsSound Good e
  unfolding pause
  pause-IsSound now d h = (
    record d { paused = true; pause_start = now },
    with_sound-IsSound (record d { paused = true; pause_start = now }) h,
    h,
  )

  pub unpause-IsSound :
      (now : ℕ) (d : Drive T)
      → IsSound Good d
      → (e : Drive T) × (unpause player now d ≡ ok e) × IsSound Good e
  unfolding unpause
  unpause-IsSound now d h =
      let resumed =
        if is_winding player d.winding
        then record d { wind_time = d.wind_time + pause_time player now d }
        else d in
      let sound : IsSound Good resumed = if-IsSound Good (is_winding player d.winding) _ d h h in
      let last : Drive T = record resumed { paused = false; pause_start = 0 } in
      (last, with_sound-IsSound last sound, sound)

  pub skip_loading-IsSound :
      (d : Drive T)
      → IsSound Good d
      → (e : Drive T) × (skip_loading player d ≡ ok e) × IsSound Good e
  unfolding skip_loading
  skip_loading-IsSound d h = (
    if d.playing then record d { skipped = true } else d,
    ap
        (λ (m : Result (Drive T)).
          m >>= λ asked. ok (if d.playing then record asked { skipped = true } else asked))
        (with_sound-IsSound d h),
    if-IsSound Good d.playing _ d h h,
  )
