-- ===== src/Custom/Framing/Chunks.antt =====
-- process_data of class BaseHandler does not depend on how the stream is cut into chunks.
use armv.Common.{
  ℕ, zero, suc, ◌+◌, ◌≤◌, ◌<◌, ◌≡◌, refl, sym, ap, ◌∙◌, List, [], ◌∷◌, ◌++◌, append-nil,
  append_assoc, Option, none, some, Result, arith, length, take, drop, length-append, length-drop,
  take-append_le, drop-append_le, ◌⊎◌, inl, inr, le→leb, lt→leb,
}
use armv.Common.Bytes.{Bytes}
use armv.Custom.Framing.{
  Handler, finished, set_needed, on_message, and_then, drain, drain_all, with_needed, process_data,
  feed, joined,
}
use mathlib.Core.Path.{fun_ext}
use native.Mathlib.Decide.{dec_lt, dec_le}
use armv.Custom.Framing.Outcomes.{
  set_needed-append, set_needed_short, set_needed_long, set_needed_shrinks, and_then-on_message,
  and_then-finished,
}

module _ {M : Type 0} (message_factory : Bytes → Result (Option M)) where
  drain_wait :
      (fuel : ℕ) (bs : Bytes) (n : ℕ)
      → length bs < n
      → drain message_factory fuel bs (some n)
        ≡ finished (record { buffer = bs; needed = some n }) []
  unfolding drain
  drain_wait zero bs n h = rw (lt→leb n (length bs) h)
  drain_wait (suc fuel) bs n h = rw (lt→leb n (length bs) h)

  drain_round :
      (fuel : ℕ) (bs : Bytes) (n : ℕ)
      → n ≤ length bs
      → drain message_factory (suc fuel) bs (some n)
        ≡ on_message (message_factory (take n bs)) (
            drain message_factory fuel
              (set_needed (drop n bs)).buffer
              (set_needed (drop n bs)).needed)
  unfolding drain
  drain_round fuel bs n h = rw (le→leb n (length bs) h)

  -- Fuel above the length of the buffer is enough: more changes nothing.
  drain_fuel :
      (fuel more : ℕ) (bs : Bytes) (needed : Option ℕ)
      → (needed ≡ none) ⊎ ((length bs < fuel) × (length bs < more))
      → drain message_factory fuel bs needed ≡ drain message_factory more bs needed
  drain_fuel zero zero bs needed h = refl
  drain_fuel zero (suc k) bs none h = unfold drain in refl
  drain_fuel zero (suc k) bs (some n) h = absurd (ground arith)
  drain_fuel (suc k) zero bs none h = unfold drain in refl
  drain_fuel (suc k) zero bs (some n) h = absurd (ground arith)
  drain_fuel (suc k) (suc j) bs none h = unfold drain in refl
  drain_fuel (suc k) (suc j) bs (some n) h = elim (dec_le n (length bs)) [
    | no p ↦ drain_wait (suc k) bs n (omega arith) ∙ sym (drain_wait (suc j) bs n (omega arith))
    | yes p ↦
        rw (drain_round k bs n p, drain_round j bs n p)
          (ap (on_message (message_factory (take n bs))) (
            drain_fuel k j (set_needed (drop n bs)).buffer (set_needed (drop n bs)).needed
              (enough (set_needed_shrinks (drop n bs)) h)))
  ]
    where
      enough :
          ((set_needed (drop n bs)).needed ≡ none)
            ⊎ (length (set_needed (drop n bs)).buffer + 4 ≤ length (drop n bs))
          → (some n ≡ none) ⊎ ((length bs < suc k) × (length bs < suc j))
          → ((set_needed (drop n bs)).needed ≡ none)
            ⊎ ((length (set_needed (drop n bs)).buffer < k)
                × (length (set_needed (drop n bs)).buffer < j))
      enough (inl e) g = inl e
      enough (inr s) (inl g) = cc
      enough (inr s) (inr g) = inr (omega (arith, length-drop n bs))

  -- The fuel that drain_all gives is enough after a header has been read.
  drain_next :
      (fuel : ℕ) (bs : Bytes)
      → length bs ≤ fuel
      → drain message_factory fuel (set_needed bs).buffer (set_needed bs).needed
        ≡ drain_all message_factory (set_needed bs)
  unfolding drain_all
  drain_next fuel bs h =
      drain_fuel fuel (suc (length (set_needed bs).buffer)) (set_needed bs).buffer
        (set_needed bs).needed (enough (set_needed_shrinks bs))
    where
      enough :
          ((set_needed bs).needed ≡ none) ⊎ (length (set_needed bs).buffer + 4 ≤ length bs)
          → ((set_needed bs).needed ≡ none)
            ⊎ ((length (set_needed bs).buffer < fuel)
                × (length (set_needed bs).buffer < suc (length (set_needed bs).buffer)))
      enough (inl e) = inl e
      enough (inr s) = inr (omega arith)

  abbrev Resumes : Bytes → ℕ → Type 0
  Resumes more k =
      (bs : Bytes) (n : ℕ)
      → length bs < k
      → drain_all message_factory (record { buffer = bs ++ more; needed = some n })
        ≡ and_then (drain message_factory k bs (some n)) (λ h. process_data message_factory h more)

  -- The same for the rest behind a frame, which may hold a header or not.
  resume_rest :
      (k : ℕ) (bs more : Bytes)
      → Resumes more k
      → length bs ≤ k
      → drain_all message_factory (set_needed (bs ++ more))
        ≡ and_then
            (drain message_factory k (set_needed bs).buffer (set_needed bs).needed)
            (λ h. process_data message_factory h more)
  resume_rest k bs more ih h = elim (dec_lt 4 (length bs)) [
    | no p ↦ rw (set_needed_short bs (omega arith)) (unfold drain process_data in refl)
    | yes p ↦
        let (n, e) = set_needed_long bs p in
        rw (set_needed-append bs more p, e)
          (ih (set_needed bs).buffer n (shorter e (set_needed_shrinks bs)))
  ]
    where
      shorter :
          {n : ℕ}
          → (set_needed bs).needed ≡ some n
          → ((set_needed bs).needed ≡ none) ⊎ (length (set_needed bs).buffer + 4 ≤ length bs)
          → length (set_needed bs).buffer < k
      shorter e (inl e') = cc
      shorter e (inr s) = omega arith

  grown :
      (bs more : Bytes) (n : ℕ)
      → n ≤ length bs
      → drain_all message_factory (record { buffer = bs ++ more; needed = some n })
        ≡ on_message
            (message_factory (take n bs))
            (drain_all message_factory (set_needed (drop n bs ++ more)))
  grown bs more n p =
      unfold drain_all in
      drain_round (length (bs ++ more)) (bs ++ more) n (omega (arith, length-append bs more))
      ∙ rw (take-append_le n bs more p, drop-append_le n bs more p)
          (ap (on_message (message_factory (take n bs))) (
            drain_next (length (bs ++ more)) (drop n bs ++ more) (
              omega
                (arith, length-append bs more, length-append (drop n bs) more, length-drop n bs))))

  resume_round : (k : ℕ) (more : Bytes) → Resumes more k → Resumes more (suc k)
  resume_round k more ih bs n h = elim (dec_le n (length bs)) [
    | no p ↦ rw (drain_wait (suc k) bs n (omega arith)) (unfold process_data with_needed in refl)
    | yes p ↦
        let rest =
          drain message_factory k (set_needed (drop n bs)).buffer (set_needed (drop n bs)).needed in
        rw
          (
            grown bs more n p,
            drain_round k bs n p,
            resume_rest k (drop n bs) more ih (omega (arith, length-drop n bs)),
          )
          (sym (
            and_then-on_message (message_factory (take n bs)) rest
              (λ h. process_data message_factory h more)))
  ]

  -- The loop on a buffer that has grown is the loop on the buffer, then process_data on the rest.
  drain-append : (fuel : ℕ) (more : Bytes) → Resumes more fuel
  drain-append zero more bs n h = absurd (omega arith)
  drain-append (suc k) more bs n h = resume_round k more (drain-append k more) bs n h

  with_needed-append :
      (bs more : Bytes) (needed : Option ℕ)
      → drain_all message_factory (with_needed (bs ++ more) needed)
        ≡ and_then
            (drain_all message_factory (with_needed bs needed))
            (λ h. process_data message_factory h more)
  with_needed-append bs more none =
      unfold with_needed in
      resume_rest (length bs) bs more (drain-append (length bs) more) (omega arith)
      ∙ ap (λ o. and_then o (λ h. process_data message_factory h more))
          (drain_next (length bs) bs (omega arith))
  with_needed-append bs more (some n) =
      unfold with_needed drain_all in drain-append (suc (length bs)) more bs n (omega arith)

  -- One call on two chunks together is two calls, an exception of the first one included.
  pub process_data-append :
      (h : Handler) (a b : Bytes)
      → process_data message_factory h (a ++ b)
        ≡ and_then (process_data message_factory h a) (λ h'. process_data message_factory h' b)
  process_data-append h a b =
      unfold process_data in
      rw (← append_assoc h.buffer a b) (with_needed-append (h.buffer ++ a) b h.needed)

  -- Any way to cut a stream into chunks has the outcome of the whole stream in one call: the same
  -- messages, the same exception, and the same handler at the end.
  pub feed-process_data :
      (h : Handler) (c : Bytes) (cs : List Bytes)
      → feed message_factory h (c ∷ cs) ≡ process_data message_factory h (c ++ joined cs)
  unfolding feed
  feed-process_data h c [] = rw (append-nil) (and_then-finished (process_data message_factory h c))
  feed-process_data h c (d ∷ cs) =
      rw (process_data-append h c (d ++ joined cs))
        (ap (and_then (process_data message_factory h c)) (fun_ext λ h'. feed-process_data h' d cs))
