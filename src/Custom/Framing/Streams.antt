-- ===== src/Custom/Framing/Streams.antt =====
-- What process_data of class BaseHandler delivers from a stream of whole frames.
use armv.Common.{
  ◌<◌, ◌≡◌, refl, ap, ◌∙◌, List, [], ◌∷◌, ◌++◌, Option, none, some, Result, ok, arith, length, drop,
  All, take_all, lt→ltb, le→leb,
}
use armv.Common.Bytes.{Bytes, IsU32, be32, from_be32-be32}
use armv.Custom.Framing.{
  finished, start, set_needed, deliver, before, and_then, process_data, feed, joined,
}
use armv.Custom.Framing.Chunks.{process_data-append, feed-process_data}

-- A message behind its length, as the handler expects it.
abbrev pub frame : Bytes → Bytes
frame m = be32 (length m) ++ m

abbrev pub frames : List Bytes → Bytes
frames [] = []
frames (m ∷ ms) = frame m ++ frames ms

-- A message has a byte at least, and its length fits the prefix.
abbrev pub IsFramable : Bytes → Type 0
IsFramable m = (0 < length m) × IsU32 (length m)

set_needed-frame :
    (m : Bytes)
    → IsFramable m
    → set_needed (frame m) ≡ record { buffer = m; needed = some (length m) }
unfolding set_needed
set_needed-frame m (pos, fits) =
    rw (lt→ltb 4 (length (frame m)) (omega arith), from_be32-be32 (length m) fits) refl

-- The messages that are handled, where `g` is what the factory makes of each frame.
abbrev pub collected : {M : Type 0} → (Bytes → Option M) → List Bytes → List M
collected g [] = []
collected g (m ∷ ms) = deliver (g m) (collected g ms)

module _ {M : Type 0} (message_factory : Bytes → Result (Option M)) where
  process_data-frame :
      (m : Bytes) (o : Option M)
      → IsFramable m
      → message_factory m ≡ ok o
      → process_data message_factory start (frame m) ≡ finished start (deliver o [])
  unfolding process_data
  process_data-frame m o h e =
      rw
        (
          set_needed-frame m h,
          le→leb (length m) (length m) (omega arith),
          take_all (length m) m (omega arith),
          e,
          drop_all m,
        )
        (ending o)
    where
      drop_all : (m : Bytes) → drop (length m) m ≡ []
      drop_all [] = refl
      drop_all (x ∷ m) = drop_all m

      ending : (o : Option M) → before o (finished start []) ≡ finished start (deliver o [])
      ending none = refl
      ending (some m) = refl

  -- The factory returns `g m` on every message of the stream.
  abbrev pub Answers : (Bytes → Option M) → List Bytes → Type 0
  Answers g ms = All (λ m. message_factory m ≡ ok (g m)) ms

  process_data-frames :
      (g : Bytes → Option M) (ms : List Bytes)
      → All IsFramable ms
      → Answers g ms
      → process_data message_factory start (frames ms) ≡ finished start (collected g ms)
  process_data-frames g [] h a = unfold process_data in refl
  process_data-frames g (m ∷ ms) h a =
      rw
        (
          process_data-append message_factory start (frame m) (frames ms),
          process_data-frame m (g m) h.0 a.0,
        )
        (resume (g m) (process_data-frames g ms h.1 a.1))
    where
      resume :
          (o : Option M)
          → process_data message_factory start (frames ms) ≡ finished start (collected g ms)
          → and_then
              (finished start (deliver o []))
              (λ h'. process_data message_factory h' (frames ms))
            ≡ finished start (deliver o (collected g ms))
      resume none e = e
      resume (some x) e = ap (before (some x)) e

  -- However the bytes of a series of well-sized frames are cut into chunks, a fresh handler gives
  -- every frame to the factory, delivers the messages that the factory makes of them in order, and
  -- ends with an empty buffer, ready for a header, when the factory raises on none of them.
  pub feed-frames :
      (g : Bytes → Option M) (ms chunks : List Bytes)
      → All IsFramable ms
      → Answers g ms
      → joined chunks ≡ frames ms
      → feed message_factory start chunks ≡ finished start (collected g ms)
  feed-frames g [] [] h a e = unfold feed in refl
  feed-frames g (m ∷ ms) [] h a e = absurd (nothing e)
    where
      nothing : ◌≡◌ {A = Bytes} [] (frame m ++ frames ms) → ⊥
      nothing e = cc
  feed-frames g ms (c ∷ cs) h a e =
      feed-process_data message_factory start c cs ∙ rw e (process_data-frames g ms h a)
