-- ===== src/Devices/TapeDrive/Frames/Uses.antt =====
-- hardware.py, class TapeDrive: a drive through any calls, but one that unloads it while it plays.
use armv.Common.{ℕ, ◌≡◌, sym, ap, ◌∙◌, Bool, false, List, Result, ok, raised, length}
use mathlib.Core.Path.{subst}
use armv.Devices.TapeDrive.{
  Player, Winding, Drive, start_playing, stop_playing, pause, unpause, wind, stop_winding,
  load_tape, unload_tape, power_down, skip_loading, write_byte_callback,
}
use armv.Devices.TapeDrive.Sound.{
  IsSound, IsTape, start_playing-IsSound, stop_playing-IsSound, power_down-IsSound,
  write_byte_callback-Returned, load_tape-IsSound, unload_tape-IsSound, wind-IsSound, pause-IsSound,
  unpause-IsSound, skip_loading-IsSound,
}
use armv.Devices.TapeDrive.Frames.{StripeColour, Frame, Shown, update}
use armv.Devices.TapeDrive.Frames.Steady.{IsFrame, Updates, update-IsFrame}

module _ {T : Type 0} (player : Player T) (update_tape : ℕ → Bool → ℕ → T → Result Shown × T)
    (Good : T → Type 0) where
  -- A call that returns. The tapes that are loaded are of the kind.
  pub data Use : Drive T → Drive T → Type 0 where
    started : (now : ℕ) (d : Drive T) → Use d (start_playing player now d)
    stopped : (d : Drive T) → Use d (stop_playing player d)
    paused : (now : ℕ) (d e : Drive T) → pause player now d ≡ ok e → Use d e
    unpaused : (now : ℕ) (d e : Drive T) → unpause player now d ≡ ok e → Use d e
    winds : (way : Winding) (now : ℕ) (d : Drive T) → Use d (wind player way now d)
    unwinds : (d : Drive T) → Use d (stop_winding player d)
    loaded : (t : T) (d : Drive T) → Good t → Use d (load_tape player t d)
    unloaded : (d : Drive T) → d.playing ≡ false → Use d (unload_tape player d)
    powered_down : (d : Drive T) → Use d (power_down player d)
    skips : (d e : Drive T) → skip_loading player d ≡ ok e → Use d e
    written :
        (addr value : ℕ) (d e : Drive T) → write_byte_callback player addr value d ≡ ok e → Use d e
    framed :
        (now : ℕ) (d : Drive T) (stripes : List StripeColour) (f : Frame T)
        → update player update_tape now d stripes ≡ ok f
        → Use d f.drive

  pub data Uses (d : Drive T) : Drive T → Type 0 where
    unused : Uses d d
    then_use : (e f : Drive T) → Uses d e → Use e f → Uses d f

  -- The calls that could raise an exception return, and update keeps the number of rows.
  pub record IsReady (d : Drive T) : Type 0 where
    pub pauses : (now : ℕ) → (e : Drive T) × (pause player now d ≡ ok e)
    pub unpauses : (now : ℕ) → (e : Drive T) × (unpause player now d ≡ ok e)
    pub writes : (addr value : ℕ) → (e : Drive T) × (write_byte_callback player addr value d ≡ ok e)
    pub skips_loading : (e : Drive T) × (skip_loading player d ≡ ok e)
    pub frames :
        (now : ℕ) (stripes : List StripeColour)
        → (f : Frame T) × (update player update_tape now d stripes ≡ ok f)
          × (length f.stripes ≡ length stripes)

module _ {T : Type 0} (player : Player T) (update_tape : ℕ → Bool → ℕ → T → Result Shown × T)
    (Good : T → Type 0) (laws : IsTape player Good) (updates : Updates update_tape Good) where
  -- What a call gives is what its theorem says.
  returned :
      (r : Result (Drive T)) (e : Drive T)
      → r ≡ ok e
      → (x : Drive T) × (r ≡ ok x) × IsSound Good x
      → IsSound Good e
  returned r e p (x, q, h) = subst (IsSound Good) (ok_eq (sym q ∙ p)) h
    where
      ok_eq : {x y : Drive T} → ok x ≡ ok y → x ≡ y
      ok_eq {x} {y} p = ap (λ (s : Result (Drive T)). elim s [ ok z ↦ z | raised _ ↦ x ]) p

  framed-IsSound :
      (stripes : List StripeColour) (r : Result (Frame T)) (f : Frame T)
      → r ≡ ok f
      → IsFrame player update_tape Good laws updates stripes r
      → IsSound Good f.drive
  framed-IsSound stripes r f p (x, q, h, size) =
      subst (λ (g : Frame T). IsSound Good g.drive) (ok_eq (sym q ∙ p)) h
    where
      ok_eq : {x y : Frame T} → ok x ≡ ok y → x ≡ y
      ok_eq {x} {y} p = ap (λ (s : Result (Frame T)). elim s [ ok z ↦ z | raised _ ↦ x ]) p

  Use-IsSound : {d e : Drive T} → Use player update_tape Good d e → IsSound Good d → IsSound Good e
  unfolding stop_winding
  Use-IsSound (Use.started now d) h = start_playing-IsSound player Good laws now d h
  Use-IsSound (Use.stopped d) h = stop_playing-IsSound player Good laws d h
  Use-IsSound (Use.paused now d e p) h =
      returned (pause player now d) e p (pause-IsSound player Good laws now d h)
  Use-IsSound (Use.unpaused now d e p) h =
      returned (unpause player now d) e p (unpause-IsSound player Good laws now d h)
  Use-IsSound (Use.winds way now d) h = wind-IsSound player Good laws way now d h
  Use-IsSound (Use.unwinds d) h = h
  Use-IsSound (Use.loaded t d g) h = load_tape-IsSound player Good laws t d g h
  Use-IsSound (Use.unloaded d idle) h = unload_tape-IsSound player Good laws d idle h
  Use-IsSound (Use.powered_down d) h = power_down-IsSound player Good laws d h
  Use-IsSound (Use.skips d e p) h =
      returned (skip_loading player d) e p (skip_loading-IsSound player Good laws d h)
  Use-IsSound (Use.written addr value d e p) h =
      returned (write_byte_callback player addr value d) e p
        (write_byte_callback-Returned player Good laws addr value d h)
  Use-IsSound (Use.framed now d stripes f p) h =
      framed-IsSound stripes (update player update_tape now d stripes) f p
        (update-IsFrame player update_tape Good laws updates now d stripes h)

  Uses-IsSound :
      {d e : Drive T} → Uses player update_tape Good d e → IsSound Good d → IsSound Good e
  Uses-IsSound Uses.unused h = h
  Uses-IsSound (Uses.then_use e f before last) h = Use-IsSound last (Uses-IsSound before h)

  -- From a drive that has a tape and the times of its playing if it plays, after any calls that load
  -- only tapes of a kind that raises nothing and that do not unload it while it plays, pause, unpause,
  -- skip_loading, the writes and update raise no exception.
  pub Uses-IsReady :
      (d e : Drive T)
      → IsSound Good d
      → Uses player update_tape Good d e
      → IsReady player update_tape Good e
  Uses-IsReady d e h uses =
      let s : IsSound Good e = Uses-IsSound uses h in
      record {
        pauses = λ now. let (x, p, q) = pause-IsSound player Good laws now e s in (x, p);
        unpauses = λ now. let (x, p, q) = unpause-IsSound player Good laws now e s in (x, p);
        writes = λ addr value.
            let (x, p, q) = write_byte_callback-Returned player Good laws addr value e s in (x, p);
        skips_loading = let (x, p, q) = skip_loading-IsSound player Good laws e s in (x, p);
        frames = λ now stripes.
            let (f, p, q, size) =
              update-IsFrame player update_tape Good laws updates now e stripes s in
            (f, p, size);
      }
