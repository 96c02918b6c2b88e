-- ===== src/Tapes/Recorder/Complete.antt =====
-- tapes.py: what build_samples makes is what the player needs.
use armv.Common.{
  ℕ, zero, suc, ◌+◌, ◌*◌, ◌-◌, ◌%◌, ◌^◌, ◌<◌, ◌≡◌, refl, ap, List, [], ◌∷◌, some, ok, arith, All,
  length, map,
}
use armv.Common.Bytes.{Bytes}
use armv.Tapes.Player.Timing.{Numbers, Recording}
use armv.Tapes.Player.Timing.Steady.{HasSizes, IsFilled, IsRecorded, get_below}
use armv.Tapes.Samples.{Wave, block_samples}
use armv.Tapes.Samples.Written.{create_samples-IsWritten}
use armv.Tapes.Recorder.{
  words_of, cells_from, elements, Row, row_of, Settings, build_row, build_rows, start_times,
  recording, build_samples,
}

words_of-length :
    (block : Bytes) → length block % 4 ≡ 0 → 4 * length (words_of block) ≡ length block
unfolding words_of
words_of-length [] h = omega arith
words_of-length (a ∷ []) h = absurd (omega arith)
words_of-length (a ∷ b ∷ []) h = absurd (omega arith)
words_of-length (a ∷ b ∷ c ∷ []) h = absurd (omega arith)
words_of-length (a ∷ b ∷ c ∷ d ∷ rest) h = omega (arith, words_of-length rest (omega arith))

length-cells_from : {A : Type 0} (cells : ℕ → A) (i n : ℕ) → length (cells_from cells i n) ≡ n
length-cells_from cells i zero = refl
length-cells_from cells i (suc n) = ap suc (length-cells_from cells (suc i) n)

module _ {Time : Type 0} (num : Numbers Time) (set : Settings Time) where
  -- A block that holds bytes, a multiple of four, and whose samples an `int` counts.
  abbrev pub IsPlayable : Bytes → Type 0
  IsPlayable block =
      (0 < length block)
      × (length block % 4 ≡ 0)
      × (8 * length block < 2 ^ 32)
      × (block_samples (words_of block) set.clr_length set.set_length < 2 ^ 31)

  -- The sizes of a block's arrays.
  abbrev IsRow : Bytes → Row → Type 0
  IsRow block row =
      (length row.byte_samples ≡ length block) × IsFilled row.byte_samples × IsFilled row.bit_times

  build_row-IsRow :
      (block : Bytes)
      → IsPlayable block
      → (s : Wave) × (build_row num set block ≡ some s) × IsRow block (row_of s)
  unfolding build_row
  build_row-IsRow block (filled, aligned, bits, fits) =
      let size = words_of-length block aligned in
      let (s, e, w, end) =
        create_samples-IsWritten (words_of block) set.clr_length set.set_length set.sample_time fits
          (omega (arith, size)) in
      (
        s,
        e,
        (
          omega (arith, size, w.bytes_size, bytes s),
          omega (arith, size, w.bytes_size, bytes s),
          omega (arith, size, w.times_size, length-cells_from s.bit_times.cells 0 s.bit_times.size),
        ),
      )
    where
      bytes : (s : Wave) → length (elements s.byte_samples) ≡ s.byte_samples.size
      bytes s = length-cells_from s.byte_samples.cells 0 s.byte_samples.size

  abbrev AreRows : List Bytes → List Row → Type 0
  AreRows [] [] = Unit {0}
  AreRows [] (row ∷ rows) = ⊥
  AreRows (block ∷ blocks) [] = ⊥
  AreRows (block ∷ blocks) (row ∷ rows) = IsRow block row × AreRows blocks rows

  build_rows-AreRows :
      (blocks : List Bytes)
      → All IsPlayable blocks
      → (rows : List Row) × (build_rows num set blocks ≡ some rows) × AreRows blocks rows
  unfolding build_rows
  build_rows-AreRows [] h = ([], refl, tt)
  build_rows-AreRows (block ∷ blocks) h =
      let (s, e, row) = build_row-IsRow block h.0 in
      let (rows, f, others) = build_rows-AreRows blocks h.1 in
      (row_of s ∷ rows, rw (e, f) refl, (row, others))

  start_times_lem :
      (from : Time) (blocks : List Bytes) (rows : List Row)
      → AreRows blocks rows
      → (starts : List Time) × (end : Time) × (start_times num set from
            (map (λ (row : Row). row.bit_times) rows)
          ≡ ok (starts, end))
        × (length starts ≡ length blocks)
  unfolding start_times
  start_times_lem from [] [] h = ([], from, refl, refl)
  start_times_lem from [] (row ∷ rows) h = absurd h
  start_times_lem from (block ∷ blocks) [] h = absurd h
  start_times_lem from (block ∷ blocks) (row ∷ rows) h =
      let (t, e) = get_below row.bit_times (length row.bit_times - 1) (omega (arith, h.0.2)) in
      let (starts, end, f, size) =
        start_times_lem (num.add from (num.from (t + 2000))) blocks rows h.1 in
      (from ∷ starts, end, rw (e, f) refl, ap suc size)

  rows-HasSizes :
      (blocks : List Bytes) (rows : List Row)
      → AreRows blocks rows
      → HasSizes blocks (map (λ (row : Row). row.byte_samples) rows)
  rows-HasSizes [] [] h = tt
  rows-HasSizes [] (row ∷ rows) h = absurd h
  rows-HasSizes (block ∷ blocks) [] h = absurd h
  rows-HasSizes (block ∷ blocks) (row ∷ rows) h = (h.0.0, rows-HasSizes blocks rows h.1)

  rows-sizes :
      (blocks : List Bytes) (rows : List Row)
      → AreRows blocks rows
      → (length (map (λ (row : Row). row.bit_times) rows) ≡ length blocks)
        × (length (map (λ (row : Row). row.bits) rows) ≡ length blocks)
        × All IsFilled (map (λ (row : Row). row.byte_samples) rows)
        × All IsFilled (map (λ (row : Row). row.bit_times) rows)
  rows-sizes [] [] h = (refl, refl, tt, tt)
  rows-sizes [] (row ∷ rows) h = absurd h
  rows-sizes (block ∷ blocks) [] h = absurd h
  rows-sizes (block ∷ blocks) (row ∷ rows) h =
      let (times, bits, filled, timed) = rows-sizes blocks rows h.1 in
      (ap suc times, ap suc bits, (h.0.1, filled), (h.0.2, timed))

  -- From blocks that hold bytes, in multiples of four, with so few that `int` counts their samples,
  -- build_samples writes out of no array and raises nothing; its tape has those blocks and is
  -- recorded as the player needs it.
  pub build_samples-IsRecorded :
      (blocks : List Bytes)
      → All IsPlayable blocks
      → (r : Recording Time) × (build_samples num set blocks ≡ some (ok r))
        × (r.tape.blocks ≡ blocks)
        × IsRecorded r
  unfolding build_samples
  build_samples-IsRecorded blocks h =
      let (rows, e, are) = build_rows-AreRows blocks h in
      let (starts, end, f, size) = start_times_lem set.preamble_len blocks rows are in
      let (times, bits, filled, timed) = rows-sizes blocks rows are in
      (
        recording num set blocks rows (starts, end),
        rw (e, f) refl,
        refl,
        record {
          sizes = rows-HasSizes blocks rows are;
          filled = filled;
          timed = timed;
          times = times;
          rows = bits;
          starts = size;
        },
      )
