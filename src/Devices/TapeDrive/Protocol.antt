-- ===== src/Devices/TapeDrive/Protocol.antt =====
-- hardware.py, class TapeDrive: how a request for a byte is answered, and unloading a playing tape.
use armv.Common.{
  ℕ, ◌≡◌, ◌⊎◌, inl, inr, refl, sym, Bool, true, false, Bool-cases, ◌&&◌, not, ◌∷◌, Option, none,
  some, Exn, Result, ok, Option-cases, raised, attribute_error, if◌then◌else◌,
}
use mathlib.Core.Path.{subst}
use armv.Devices.TapeDrive.{
  next_byte, not_ready, end_of_tape, drive_empty, ready, code_value, Player, Drive, is_loaded,
  feed_byte, is_byte_ready, stop_playing, unload_tape, pause, wants_byte, write_byte_callback,
}

module _ {T : Type 0} (player : Player T) where
  -- Whether a drive with the tape `t` has a byte for the processor, and the tape that it then holds: a
  -- playing drive asks the tape, which may raise an exception, unless the loading is skipped.
  abbrev pub can_give : T → Drive T → Result Bool
  can_give t d =
      if d.playing then (if d.skipped then ok true else (player.byte_ready t).0) else ok false

  abbrev pub asked_tape : T → Drive T → T
  asked_tape t d = if d.playing && not d.skipped then (player.byte_ready t).1 else t

  -- The tape's next byte stands in the data byte, and the tape is behind it.
  abbrev pub IsByteFed : T → Drive T → Drive T → Type 0
  IsByteFed t d d' =
      (d.drive_open ≡ false)
      × ((player.get_byte t).0 ≡ some d'.data_byte)
      × (d'.tape ≡ some (player.get_byte t).1)
      × (d'.status ≡ ready)
      × (d'.interrupts ≡ ready ∷ d.interrupts)

  -- The drive is open, so that the tape is not read, or the tape has no more bytes.
  abbrev pub IsEndFed : T → Drive T → Drive T → Type 0
  IsEndFed t d d' =
      (((d.drive_open ≡ true) × (d'.tape ≡ some t))
        ⊎ ((d.drive_open ≡ false)
            × ((player.get_byte t).0 ≡ none)
            × (d'.tape ≡ some (player.get_byte t).1)))
      × (d'.status ≡ (if d.paused then not_ready else end_of_tape))
      × (d'.data_byte ≡ 0)
      × (d'.loading ≡ false)
      × (d'.playing ≡ false)
      × (d'.interrupts ≡ d'.status ∷ d.interrupts)

  abbrev pub IsEmptyAnswer : Drive T → Drive T → Type 0
  IsEmptyAnswer d d' =
      (d.tape ≡ none)
      × (d'.tape ≡ none)
      × (d'.status ≡ drive_empty)
      × (d'.data_byte ≡ 0)
      × (d'.interrupts ≡ drive_empty ∷ d.interrupts)

  abbrev pub IsWaiting : Drive T → Drive T → Type 0
  IsWaiting d d' =
      (t : T) × (d.tape ≡ some t)
      × (can_give t d ≡ ok false)
      × (d'.tape ≡ some (asked_tape t d))
      × (d'.status ≡ not_ready)
      × (d'.data_byte ≡ 0)
      × (d'.loading ≡ true)
      × (d'.interrupts ≡ d.interrupts)

  abbrev pub IsByteAnswer : Drive T → Drive T → Type 0
  IsByteAnswer d d' =
      (t : T) × (d.tape ≡ some t) × (can_give t d ≡ ok true) × IsByteFed (asked_tape t d) d d'

  abbrev pub IsEndAnswer : Drive T → Drive T → Type 0
  IsEndAnswer d d' =
      (t : T) × (d.tape ≡ some t) × (can_give t d ≡ ok true) × IsEndFed (asked_tape t d) d d'

  abbrev pub IsAnswer : Drive T → Drive T → Type 0
  IsAnswer d d' = IsEmptyAnswer d d' ⊎ (IsWaiting d d' ⊎ (IsByteAnswer d d' ⊎ IsEndAnswer d d'))

  -- The exception of the tape's byte_ready is the request's.
  abbrev pub IsRaised : Drive T → Result (Drive T) → Type 0
  IsRaised d r =
      (t : T) × (e : Exn) × (d.tape ≡ some t) × (can_give t d ≡ raised e) × (r ≡ raised e)

  abbrev pub IsReply : Drive T → Result (Drive T) → Type 0
  IsReply d r = IsRaised d r ⊎ ((d' : Drive T) × (r ≡ ok d') × IsAnswer d d')

  abbrev with_tape : T → Drive T → Drive T
  with_tape t d = record d { tape = some t; loading = true }

  feed_byte-fed :
      (t : T) (d : Drive T)
      → IsByteFed t d (feed_byte player (with_tape t d))
        ⊎ IsEndFed t d (feed_byte player (with_tape t d))
  unfolding feed_byte stop_playing
  feed_byte-fed t d = elim (Bool-cases d.drive_open) [
    | inl e ↦ rw e (inr (inl (refl, refl), refl, refl, refl, refl, refl))
    | inr e ↦ elim (Option-cases (player.get_byte t).0) [
      | inl n ↦ rw (e, n) (inr (inr (refl, refl, refl), refl, refl, refl, refl, refl))
      | inr (c, n) ↦ rw (e, n) (inl (refl, refl, refl, refl, refl))
    ]
  ]

  -- What a drive with a byte of the tape `t'` answers.
  gives :
      (t t' : T) (d : Drive T)
      → d.tape ≡ some t
      → can_give t d ≡ ok true
      → asked_tape t d ≡ t'
      → IsAnswer d (feed_byte player (with_tape t' d))
  gives t t' d e can asked = elim (feed_byte-fed t' d) [
    | inl h ↦ inr (
        inr (
          inl (
            t,
            e,
            can,
            subst (λ u. IsByteFed u d (feed_byte player (with_tape t' d))) (sym asked) h,
          )))
    | inr h ↦ inr (
        inr (
          inr (
            t,
            e,
            can,
            subst (λ u. IsEndFed u d (feed_byte player (with_tape t' d))) (sym asked) h,
          )))
  ]

  byte_ready-cases :
      (t : T)
      → ((e : Exn) × ((player.byte_ready t).0 ≡ raised e))
        ⊎ ((b : Bool) × ((player.byte_ready t).0 ≡ ok b))
  byte_ready-cases t = go (player.byte_ready t).0
    where
      go : (r : Result Bool) → ((e : Exn) × (r ≡ raised e)) ⊎ ((b : Bool) × (r ≡ ok b))
      go (raised e) = inl (e, refl)
      go (ok b) = inr (b, refl)

  wants_byte-IsReply :
      (t : T) (d : Drive T)
      → let loaded = record d { tape = some t } in
        IsReply loaded (wants_byte player (some t) loaded)
  unfolding is_byte_ready
  wants_byte-IsReply t d = elim (Bool-cases d.playing) [
    | inr e ↦ rw e (inr (_, refl, inr (inl (t, refl, refl, refl, refl, refl, refl, refl))))
    | inl e ↦ elim (Bool-cases d.skipped) [
      | inl f ↦
          rw (e, f)
            (inr (
              _,
              refl,
              gives t t (record d { tape = some t; playing = true; skipped = true }) refl refl refl,
            ))
      | inr f ↦ elim (byte_ready-cases t) [
        | inl (x, g) ↦ rw (e, f, g) (inl (t, x, refl, g, refl))
        | inr (true, g) ↦
            rw (e, f, g)
              (inr (
                _,
                refl,
                gives t (player.byte_ready t).1
                    (record d { tape = some t; playing = true; skipped = false }) refl g refl,
              ))
        | inr (false, g) ↦
            rw (e, f, g) (inr (_, refl, inr (inl (t, refl, g, refl, refl, refl, refl, refl))))
      ]
    ]
  ]

  by_tape :
      (o : Option T) (d : Drive T)
      → let held = record d { tape = o } in IsReply held (wants_byte player o held)
  by_tape none d = inr (_, refl, inl (refl, refl, refl, refl, refl))
  by_tape (some t) d = wants_byte-IsReply t d

  -- A request for a byte has one of five outcomes, each with the condition that it needs. An empty
  -- drive answers DRIVE_EMPTY. A drive that does not play, or whose tape has no byte ready when the
  -- loading is not skipped, answers NOT_READY without an interrupt. Otherwise a closed drive answers
  -- READY with the next byte of its tape, if it has one, and moves the tape behind it; and an open
  -- drive, or one whose tape has no more bytes, answers the end of the tape, which is NOT_READY while
  -- it is paused, and stops playing and loading. Every answer but the second raises an interrupt with
  -- the status that the drive then has. If the tape raises an exception when it is asked, the request
  -- raises it.
  pub write_byte_callback-IsReply :
      (d : Drive T) → IsReply d (write_byte_callback player 1 (code_value next_byte) d)
  unfolding write_byte_callback
  write_byte_callback-IsReply d = by_tape d.tape d

  -- A drive that is unloaded while it plays goes on playing without a tape, and pausing it then
  -- raises AttributeError.
  pub pause-unload_tape :
      (now : ℕ) (d : Drive T)
      → is_loaded player d.tape ≡ true
      → d.playing ≡ true
      → ((unload_tape player d).playing ≡ true)
        × (pause player now (unload_tape player d) ≡ raised attribute_error)
  unfolding unload_tape stop_playing pause
  pause-unload_tape now d loaded playing = rw (loaded, playing) (refl, refl)
