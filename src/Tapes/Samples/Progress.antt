-- ===== src/Tapes/Samples/Progress.antt =====
-- What the loops of popcnt.pyx have written after a number of bits and bytes, and how the next bit
-- and the next byte add to it.
use armv.Common.{
  ℕ, suc, ◌+◌, ◌-◌, ◌*◌, ◌≤◌, ◌<◌, ◌≡◌, ◌⊎◌, inl, inr, refl, ap, ◌∙◌, List, arith, ◌==◌, ne→==,
  ==_self, if◌then◌else◌, length,
}
use native.Mathlib.Decide.{dec_lt}
use armv.Common.Int.{ℤ}
use mathlib.Core.Path.{subst}
use armv.Tapes.Samples.{Array, low_sample, high_sample, Wave, steps_of}
use armv.Tapes.Samples.Loops.{IsPaired}
use armv.Tapes.Samples.Widths.{bit_at, start_at, start_at_mono}

last_or_before : (u t : ℕ) → u < suc t → (u < t) ⊎ (u ≡ t)
last_or_before u t h = elim (dec_lt u t) [ yes lt ↦ inl lt | no ge ↦ inr (omega arith) ]

module _ (ws : List ℕ) (clr_length set_length : ℕ) (time : ℕ → ℕ) where
  abbrev first_sample : ℕ → ℕ
  first_sample = start_at ws clr_length set_length

  abbrev steps : ℕ → ℕ
  steps t = steps_of clr_length set_length (bit_at ws t)

  -- The first `t` bits and the first `bytes` bytes are written.
  pub record IsWritten (t bytes : ℕ) (s : Wave) : Type 0 where
    pub reached : s.p ≡ first_sample t
    pub room : s.samples.size ≡ first_sample (32 * length ws)
    pub times_size : s.bit_times.size ≡ 32 * length ws
    pub bits_size : s.bits.size ≡ 36 * length ws
    pub bytes_size : s.byte_samples.size ≡ 4 * length ws
    pub lows : (u m : ℕ) → u < t → m < steps u → s.samples.cells (first_sample u + m) ≡ low_sample
    pub highs :
        (u m : ℕ)
        → u < t
        → m < steps u
        → s.samples.cells (first_sample u + steps u + m) ≡ high_sample
    pub times : (u : ℕ) → u < t → s.bit_times.cells u ≡ time (first_sample u)
    pub bits : (u : ℕ) → u < t → s.bits.cells u ≡ bit_at ws u
    pub byte_ends : (b : ℕ) → b < bytes → s.byte_samples.cells b ≡ first_sample (8 * b + 8)

  pub before_next : (u t : ℕ) → u < t → first_sample u + 2 * steps u ≤ first_sample t
  unfolding start_at
  before_next u t lt =
      let e : suc u + (t - suc u) ≡ t = omega arith in
      subst (λ v. first_sample u + 2 * steps u ≤ first_sample v) e
        (start_at_mono ws clr_length set_length (suc u) (t - suc u))

  start_suc : (t : ℕ) → first_sample (suc t) ≡ first_sample t + 2 * steps t
  unfolding start_at
  start_suc t = refl

  -- The state that create_bit makes from the pairs of samples.
  abbrev pub bit_state : ℕ → Wave → Array ℤ → Wave
  bit_state t s samples = record s {
    samples = samples;
    bit_times = record s.bit_times {
      cells = λ j. if j == t then time s.p else s.bit_times.cells j;
    };
    bits = record s.bits { cells = λ j. if j == t then bit_at ws t else s.bits.cells j };
    p = s.p + 2 * steps t;
  }

  pub bit_state-IsWritten :
      (t bytes : ℕ) (s : Wave) (a : Array ℤ)
      → IsWritten t bytes s
      → IsPaired s.samples s.p (steps t) (steps t) a
      → IsWritten (suc t) bytes (bit_state t s a)
  bit_state-IsWritten t bytes s a h q = record {
    reached = omega (arith, h.reached, start_suc t);
    room = q.size ∙ h.room;
    times_size = h.times_size;
    bits_size = h.bits_size;
    bytes_size = h.bytes_size;
    lows = λ u m lt below. elim (last_or_before u t lt) [
      | inl lt ↦
          q.kept (first_sample u + m) (omega (arith, h.reached, before_next u t lt))
          ∙ h.lows u m lt below
      | inr e ↦
          let here : first_sample u + m ≡ s.p + m = omega (arith, ap first_sample e, h.reached) in
          ap a.cells here ∙ q.lows m (subst (λ v. m < steps v) e below)
    ];
    highs = λ u m lt below. elim (last_or_before u t lt) [
      | inl lt ↦
          q.kept (first_sample u + steps u + m) (omega (arith, h.reached, before_next u t lt))
          ∙ h.highs u m lt below
      | inr e ↦
          let here : first_sample u + steps u + m ≡ s.p + steps t + m =
            omega (arith, ap first_sample e, ap steps e, h.reached) in
          ap a.cells here ∙ q.highs m (subst (λ v. m < steps v) e below)
    ];
    times = λ u lt. elim (last_or_before u t lt) [
      | inl lt ↦ rw (ne→== u t (λ e. omega arith)) (h.times u lt)
      | inr e ↦ rw (e, ==_self t) (ap time h.reached)
    ];
    bits = λ u lt. elim (last_or_before u t lt) [
      | inl lt ↦ rw (ne→== u t (λ e. omega arith)) (h.bits u lt)
      | inr e ↦ rw (e, ==_self t) refl
    ];
    byte_ends = h.byte_ends;
  }

  pub recounted :
      (t t' bytes bytes' : ℕ) (s : Wave)
      → t ≡ t'
      → bytes ≡ bytes'
      → IsWritten t bytes s
      → IsWritten t' bytes' s
  recounted t t' bytes bytes' s e f h =
      subst (λ b. IsWritten t' b s) f (subst (λ v. IsWritten v bytes s) e h)

  pub byte_state-IsWritten :
      (t bytes : ℕ) (s : Wave)
      → t ≡ 8 * bytes + 8
      → IsWritten t bytes s
      → IsWritten t (suc bytes) (record s {
        byte_samples = record s.byte_samples {
          cells = λ j. if j == bytes then s.p else s.byte_samples.cells j;
        };
      })
  byte_state-IsWritten t bytes s e h = record {
    reached = h.reached;
    room = h.room;
    times_size = h.times_size;
    bits_size = h.bits_size;
    bytes_size = h.bytes_size;
    lows = h.lows;
    highs = h.highs;
    times = h.times;
    bits = h.bits;
    byte_ends = λ b lt. elim (last_or_before b bytes lt) [
      | inl lt ↦ rw (ne→== b bytes (λ e. omega arith)) (h.byte_ends b lt)
      | inr f ↦ rw (f, ==_self bytes) (h.reached ∙ ap first_sample e)
    ];
  }
