-- ===== src/Tapes/Samples/Written.antt =====
-- popcnt.pyx: create_samples in the arrays that build_samples allocates.
use armv.Common.{
  ℕ, suc, ◌+◌, ◌*◌, ◌/◌, ◌%◌, ◌^◌, ◌<◌, ◌≡◌, refl, sym, ◌∙◌, List, arith, some, lt→ltb, ◌==◌,
  if◌then◌else◌, length,
}
use armv.Tapes.Samples.{
  Wave, data_bit, steps_of, block_samples, block_arrays, create_bit, create_byte, create_word,
  create_samples,
}
use armv.Tapes.Samples.Loops.{for_range_inv, store_lem, pairs-IsPaired}
use armv.Tapes.Samples.Progress.{
  IsWritten, before_next, bit_state, bit_state-IsWritten, recounted, byte_state-IsWritten,
}
use armv.Tapes.Samples.Widths.{bit_at, start_at, start_at-block_samples}

module _ (ws : List ℕ) (clr_length set_length : ℕ) (time : ℕ → ℕ) where
  abbrev first_sample : ℕ → ℕ
  first_sample = start_at ws clr_length set_length

  abbrev steps : ℕ → ℕ
  steps t = steps_of clr_length set_length (bit_at ws t)

  module _ (fits : first_sample (32 * length ws) < 2 ^ 31) where
    in_block : (i j k : ℕ) → i < length ws → j < 4 → k < 8 → i * 32 + j * 8 + k < 32 * length ws
    in_block i j k hi hj hk = omega arith

    data_bit-bit_at :
        (i j k : ℕ) → j < 4 → k < 8 → data_bit ws i j k ≡ bit_at ws (i * 32 + j * 8 + k)
    data_bit-bit_at i j k hj hk =
        let d : (i * 32 + j * 8 + k) / 32 ≡ i = omega arith in
        let m : (i * 32 + j * 8 + k) % 32 ≡ j * 8 + k = omega arith in rw (d, m) refl

    create_bit-IsWritten :
        (i j k bytes : ℕ) (s : Wave)
        → i < length ws
        → j < 4
        → k < 8
        → IsWritten ws clr_length set_length time (i * 32 + j * 8 + k) bytes s
        → (t : Wave) × (create_bit ws clr_length set_length time i j k s ≡ some t)
          × IsWritten ws clr_length set_length time (suc (i * 32 + j * 8 + k)) bytes t
    unfolding create_bit
    create_bit-IsWritten i j k bytes s hi hj hk h =
        let t = i * 32 + j * 8 + k in
        let inside : t < 32 * length ws = in_block i j k hi hj hk in
        let (a, e, q) = pairs-IsPaired s.samples s.p (steps t) (
          omega (
            arith,
            h.room,
            h.reached,
            before_next ws clr_length set_length time t (32 * length ws) inside,
          )) in
        (
          bit_state ws clr_length set_length time t s a,
          rw
              (
                data_bit-bit_at i j k hj hk,
                e,
                store_lem t (time s.p) s.bit_times (omega (arith, h.times_size)),
                store_lem t (bit_at ws t) s.bits (omega (arith, h.bits_size)),
                lt→ltb (s.p + 2 * steps t) (2 ^ 31) (
                    omega (
                      arith,
                      h.reached,
                      before_next ws clr_length set_length time t (32 * length ws) inside,
                    )),
              )
              refl,
          bit_state-IsWritten ws clr_length set_length time t bytes s a h q,
        )

    create_byte-IsWritten :
        (i j : ℕ) (s : Wave)
        → i < length ws
        → j < 4
        → IsWritten ws clr_length set_length time (i * 32 + j * 8) (i * 4 + j) s
        → (t : Wave) × (create_byte ws clr_length set_length time i j s ≡ some t)
          × IsWritten ws clr_length set_length time (i * 32 + suc j * 8) (i * 4 + suc j) t
    unfolding create_byte
    create_byte-IsWritten i j s hi hj h =
        let bytes = i * 4 + j in
        let (later, e, w) =
          for_range_inv
            (λ k s. IsWritten ws clr_length set_length time (i * 32 + j * 8 + k) bytes s)
            (create_bit ws clr_length set_length time i j) 0 8
            (λ k lo hk s h.
              let (t, e, w) = create_bit-IsWritten i j k bytes s hi hj (omega arith) h in
              (
                t,
                e,
                recounted ws clr_length set_length time (suc (i * 32 + j * 8 + k))
                    (i * 32 + j * 8 + suc k) bytes bytes t (omega arith) refl w,
              ))
            s
            (recounted ws clr_length set_length time (i * 32 + j * 8) (i * 32 + j * 8 + 0) bytes
              bytes s (omega arith) refl h) in
        (
          record later {
            byte_samples = record later.byte_samples {
              cells = λ j. if j == bytes then later.p else later.byte_samples.cells j;
            };
          },
          rw (e, store_lem bytes later.p later.byte_samples (omega (arith, w.bytes_size))) refl,
          recounted ws clr_length set_length time (i * 32 + j * 8 + 8) (i * 32 + suc j * 8)
              (suc bytes) (i * 4 + suc j) _ (omega arith) (omega arith)
              (byte_state-IsWritten ws clr_length set_length time (i * 32 + j * 8 + 8) bytes later
                (omega arith) w),
        )

    create_word-IsWritten :
        (i : ℕ) (s : Wave)
        → i < length ws
        → IsWritten ws clr_length set_length time (i * 32) (i * 4) s
        → (t : Wave) × (create_word ws clr_length set_length time i s ≡ some t)
          × IsWritten ws clr_length set_length time (suc i * 32) (suc i * 4) t
    unfolding create_word
    create_word-IsWritten i s hi h =
        let (t, e, w) =
          for_range_inv
            (λ j s. IsWritten ws clr_length set_length time (i * 32 + j * 8) (i * 4 + j) s)
            (create_byte ws clr_length set_length time i) 0 4
            (λ j lo hj s h. create_byte-IsWritten i j s hi (omega arith) h) s
            (recounted ws clr_length set_length time (i * 32) (i * 32 + 0 * 8) (i * 4) (i * 4 + 0) s
              (omega arith) (omega arith) h) in
        (
          t,
          e,
          recounted ws clr_length set_length time (i * 32 + 4 * 8) (suc i * 32) (i * 4 + 4)
              (suc i * 4) t (omega arith) (omega arith) w,
        )

  -- In the arrays that build_samples allocates, if the samples are fewer than 2 ^ 31 and the bits
  -- than 2 ^ 32, create_samples writes within every array. It leaves, for every bit in its order,
  -- its value, the time of its first sample, and its low and its high half side by side behind those
  -- of the bits in front of it; and for every byte the sample at which its last bit ends. The bits
  -- fill the samples to the end.
  pub create_samples-IsWritten :
      block_samples ws clr_length set_length < 2 ^ 31
      → 32 * length ws < 2 ^ 32
      → (s : Wave) × (create_samples ws clr_length set_length time
            (block_arrays ws clr_length set_length)
          ≡ some s)
        × IsWritten ws clr_length set_length time (32 * length ws) (4 * length ws) s
        × (s.p ≡ s.samples.size)
  unfolding create_samples start_at
  create_samples-IsWritten fits bits_fit =
      let n = length ws in
      let size = start_at-block_samples ws clr_length set_length bits_fit in
      let room : first_sample (32 * n) < 2 ^ 31 = omega (arith, size) in
      let (s, e, w) =
        for_range_inv (λ i s. IsWritten ws clr_length set_length time (i * 32) (i * 4) s)
          (create_word ws clr_length set_length time) 0 n
          (λ i lo hi s h. create_word-IsWritten room i s (omega arith) h)
          (block_arrays ws clr_length set_length)
          (record {
            reached = refl;
            room = sym size;
            times_size = omega arith;
            bits_size = omega arith;
            bytes_size = omega arith;
            lows = λ u m lt. absurd (omega arith);
            highs = λ u m lt. absurd (omega arith);
            times = λ u lt. absurd (omega arith);
            bits = λ u lt. absurd (omega arith);
            byte_ends = λ b lt. absurd (omega arith);
          }) in
      let all : IsWritten ws clr_length set_length time (32 * n) (4 * n) s =
        recounted ws clr_length set_length time ((0 + n) * 32) (32 * n) ((0 + n) * 4) (4 * n) s
          (omega arith) (omega arith) w in
      (s, e, all, all.reached ∙ sym all.room)
