-- ===== src/Devices/TapeDrive/Program.antt =====
-- hardware.py and tapes.py together: the tape drive with a ProgramTape.
use armv.Common.{
  ℕ, zero, suc, ◌-◌, ◌<◌, ◌≡◌, refl, ap, Bool, true, false, List, [], ◌∷◌, none, All, leb, Result,
  ok, raised, arith, if◌then◌else◌, length, take, drop, slice, replicate,
}
use mathlib.Core.Path.{subst}
use armv.Tapes.Player.{Cursor, rewind, get_byte, advance_block}
use armv.Tapes.Player.Timing.{
  Numbers, Recording, TapeStage, get, look, byte_ready, shown_bits, show_from, show, show_block,
  moved, update, fast_forward,
}
use armv.Tapes.Player.Timing.Steady.{IsRecorded, IsAt, rewind-IsAt, byte_ready-Answers}
use armv.Tapes.Player.Timing.Moves.{get_byte-IsAt, update-IsFine, fast_forward-IsAt}
use armv.Devices.TapeDrive.{Player, Drive, pause, unpause, skip_loading, write_byte_callback}
use armv.Devices.TapeDrive.Sound.{IsSound, IsTape}
use armv.Devices.TapeDrive.Frames.{StripeColour, Frame, Shown}
use armv.Devices.TapeDrive.Frames as Frames
use armv.Devices.TapeDrive.Frames.Uses.{Uses, IsReady, Uses-IsReady}
use armv.Devices.TapeDrive.Frames.Steady.{IsBit, IsUpdate, Updates}

All-drop : (n : ℕ) (xs : List ℕ) → All IsBit xs → All IsBit (drop n xs)
All-drop zero xs h = h
All-drop (suc n) [] h = h
All-drop (suc n) (x ∷ xs) h = All-drop n xs h.1

All-take : (n : ℕ) (xs : List ℕ) → All IsBit xs → All IsBit (take n xs)
All-take zero xs h = tt
All-take (suc n) [] h = h
All-take (suc n) (x ∷ xs) h = (h.0, All-take n xs h.1)

All-replicate : (n : ℕ) → All IsBit (replicate n 0)
All-replicate zero = tt
All-replicate (suc n) = (omega arith, All-replicate n)

All-slice : (i j : ℕ) (xs : List ℕ) → All IsBit xs → All IsBit (slice i j xs)
All-slice i j xs h = All-take (j - i) (drop i xs) (All-drop i xs h)

abbrev IsBits : List ℕ → Type 0
IsBits xs = All IsBit xs

module _ {Time : Type 0} (num : Numbers Time) (r : Recording Time) where
  -- The tape as the drive calls it.
  abbrev pub program_tape : Player (Cursor Time)
  program_tape = record {
    get_byte = get_byte r.tape;
    byte_ready = byte_ready num r;
    rewind = rewind r.tape;
    fast_forward = fast_forward num r;
  }

  abbrev pub update_program : ℕ → Bool → ℕ → Cursor Time → Result Shown × Cursor Time
  update_program elapsed paused rows c = update num r (num.from elapsed) paused rows c

  abbrev IsUpdated : Result Shown × Cursor Time → Type 0
  IsUpdated o = IsUpdate o.0

  look-IsUpdated :
      {B : Type 0} (xs : List B) (k : ℕ) (f : B → Cursor Time → Result Shown × Cursor Time)
      (c : Cursor Time)
      → ((b : B) → get xs k ≡ ok b → IsUpdated (f b c))
      → IsUpdated (look (get xs k) f c)
  look-IsUpdated [] k f c h = refl
  look-IsUpdated (x ∷ xs) zero f c h = h x refl
  look-IsUpdated (x ∷ xs) (suc k) f c h = look-IsUpdated xs k f c h

  if-IsUpdated :
      (b : Bool) (x y : Result Shown × Cursor Time)
      → IsUpdated x
      → IsUpdated y
      → IsUpdated (if b then x else y)
  if-IsUpdated true x y h k = h
  if-IsUpdated false x y h k = k

  All-get-IsBits :
      (rows : List (List ℕ)) (k : ℕ) (bits : List ℕ)
      → All IsBits rows
      → get rows k ≡ ok bits
      → IsBits bits
  All-get-IsBits [] k bits h e = cc
  All-get-IsBits (row ∷ rows) zero bits h e = subst IsBits (ok_eq e) h.0
    where
      ok_eq : {x y : List ℕ} → ok x ≡ ok y → x ≡ y
      ok_eq {x} {y} p = ap (λ (s : Result (List ℕ)). elim s [ ok z ↦ z | raised _ ↦ x ]) p
  All-get-IsBits (row ∷ rows) (suc k) bits h e = All-get-IsBits rows k bits h.1 e

  module _ (binary : All IsBits r.bits) where
    show_from-IsUpdated :
        (paused : Bool) (n : ℕ) (start : Time) (c : Cursor Time)
        → IsUpdated (show_from num r paused n start c)
    show_from-IsUpdated paused n start c = if-IsUpdated (num.lt c.position start) _ _ tt (
        if-IsUpdated paused _ _ (All-slice 0 n (replicate 1024 0) (All-replicate 1024)) (
          look-IsUpdated r.bit_times c.current_block _ c (λ times e.
            look-IsUpdated r.bits c.current_block (shown_bits num r n times) c (λ bits f.
              All-slice _ _ bits (All-get-IsBits r.bits c.current_block bits binary f)))))

    show-IsUpdated : (paused : Bool) (n : ℕ) (c : Cursor Time) → IsUpdated (show num r paused n c)
    show-IsUpdated paused n c = if-IsUpdated (num.lt c.position r.noise_len) _ _ tt (
        look-IsUpdated r.tape.start_time c.current_block (show_from num r paused n) c
          (λ start e. show_from-IsUpdated paused n start c))

    show_block-IsUpdated :
        (paused : Bool) (n : ℕ) (times : List ℕ) (c : Cursor Time)
        → IsUpdated (show_block num r paused n times c)
    show_block-IsUpdated paused n times c =
        if-IsUpdated (leb (length times) c.current_bit) _ _
          (look-IsUpdated times (length times - 1) _ c (λ t e.
            if-IsUpdated
              (num.lt (num.from 100) (num.sub (num.sub c.position c.block_start) (num.from t)))
              (show num r paused n (advance_block r.tape c)) (ok (none, TapeStage.no_data), c)
              (show-IsUpdated paused n (advance_block r.tape c)) tt))
          (show-IsUpdated paused n c)

    -- A ProgramTape whose bits are 0 and 1 gives, at every frame, rows of bits, or raises IndexError.
    update_program-IsUpdate :
        (elapsed : ℕ) (paused : Bool) (rows : ℕ) (c : Cursor Time)
        → IsUpdated (update_program elapsed paused rows c)
    unfolding update
    update_program-IsUpdate elapsed paused rows c =
        let later = moved num r (num.from elapsed) paused c in
        if-IsUpdated (leb (length r.tape.blocks) later.current_block) _ _ tt (
          look-IsUpdated r.bit_times later.current_block (show_block num r paused rows) later
            (λ times e. show_block-IsUpdated paused rows times later))

    module _ (h : IsRecorded r) (some_block : 0 < length r.tape.blocks) where
      -- A cursor on a byte, or behind the last block.
      abbrev pub OnByte : Cursor Time → Type 0
      OnByte c = IsAt num r h c

      program_tape-IsTape : IsTape program_tape OnByte
      program_tape-IsTape = record {
        reads = get_byte-IsAt num r h;
        asks = byte_ready-Answers num r h;
        rewinds = λ c at. rewind-IsAt num r h c;
        forwards = λ c at. fast_forward-IsAt num r h c some_block;
      }

      program_tape-Updates : Updates update_program OnByte
      program_tape-Updates elapsed paused rows c at = (
        update_program-IsUpdate elapsed paused rows c,
        (update-IsFine num r h (num.from elapsed) paused rows c at).0,
      )

      -- With a ProgramTape in it that has a block, is recorded as build_samples does it and has bits 0
      -- and 1, from a drive that has the times of its playing if it plays and a cursor on a byte, after
      -- any calls that return, that load only cursors on a byte and do not unload the drive while it
      -- plays, none of pause, unpause, skip_loading, update and a write raises an exception, and update
      -- gives every row of stripes a colour.
      pub Uses-Returns :
          (d e : Drive (Cursor Time)) (now addr value : ℕ) (stripes : List StripeColour)
          → IsSound OnByte d
          → Uses program_tape update_program OnByte d e
          → ((x : Drive (Cursor Time)) × (pause program_tape now e ≡ ok x))
            × ((x : Drive (Cursor Time)) × (unpause program_tape now e ≡ ok x))
            × ((x : Drive (Cursor Time)) × (skip_loading program_tape e ≡ ok x))
            × ((x : Drive (Cursor Time)) × (write_byte_callback program_tape addr value e ≡ ok x))
            × ((f : Frame (Cursor Time)) × (Frames.update program_tape update_program now e stripes
                  ≡ ok f)
                × (length f.stripes ≡ length stripes))
      Uses-Returns d e now addr value stripes h uses =
          let ready : IsReady program_tape update_program OnByte e =
            Uses-IsReady program_tape update_program OnByte program_tape-IsTape program_tape-Updates
              d e h uses in
          (
            ready.pauses now,
            ready.unpauses now,
            ready.skips_loading,
            ready.writes addr value,
            ready.frames now stripes,
          )
