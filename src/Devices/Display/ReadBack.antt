-- ===== src/Devices/Display/ReadBack.antt =====
-- hardware.py, class Display: reading back a byte that was written.
use armv.Common.{
  ℕ, ◌-◌, ◌/◌, ◌%◌, ◌<◌, ◌≤◌, ◌≡◌, ◌⊎◌, inl, inr, ap, sym, ◌∙◌, arith, ◌==◌, some, Bool-cases,
  lt→ltb, ltb, ==_iff,
}
use armv.Common.Bytes.{IsByte}
use armv.Devices.Display.{
  letter_start, letter_end, frame_buffer_start, frame_buffer_end, Cells, Display, cpu_to_screen,
  with_byte, pixel_byte, put_pixel_byte, write_palette, write_letter, redraw, redraw_colours,
  write_byte_callback, read_byte_callback,
}
use armv.Devices.Display.Words.{byte_of-with_byte}
use armv.Devices.Display.Pixels.{IsPixels, put_self, frame_read, frame_write, with_pixels}

-- The byte of a pixel word that was put.
pub pixel_byte-put_pixel_byte :
    (pixels : Cells) (pos v : ℕ)
    → IsPixels pixels
    → IsByte v
    → pixel_byte (put_pixel_byte pixels pos v) pos ≡ v
unfolding pixel_byte put_pixel_byte
pixel_byte-put_pixel_byte pixels pos v words h =
    rw (put_self pixels (pos / 4) (with_byte (pixels (pos / 4)) (pos % 4) v))
      (byte_of-with_byte (pixels (pos / 4)) (pos % 4) v (words (pos / 4)) (omega arith) h)

-- The parts of the memory that a write of a byte can be read back from: the palette, the letters and
-- the frame buffer.
abbrev pub IsStored : ℕ → Type 0
IsStored addr = (addr < letter_end) ⊎ ((frame_buffer_start ≤ addr) × (addr < frame_buffer_end))

palette_back : (d : Display) (addr v : ℕ) → (write_palette d addr v).palette addr ≡ v
unfolding write_palette redraw_colours
palette_back d addr v = elim (Bool-cases (v == d.palette addr)) [
  | inl e ↦ rw e (sym ((==_iff v (d.palette addr)).0 e))
  | inr e ↦ rw e (put_self d.palette addr v)
]

letter_back : (d : Display) (pos v : ℕ) → (write_letter d pos v).letters pos ≡ v
unfolding write_letter redraw
letter_back d pos v = put_self d.letters pos v

low_back :
    (d : Display) (addr v : ℕ)
    → addr < letter_end
    → read_byte_callback (write_byte_callback d addr v) addr ≡ some v
unfolding read_byte_callback write_byte_callback
low_back d addr v h = elim (Bool-cases (ltb addr letter_start)) [
  | inl e ↦ rw e (ap some (palette_back d addr v))
  | inr e ↦ rw (e, lt→ltb addr letter_end h) (ap some (letter_back d (addr - letter_start) v))
]

-- A byte written to the palette, the letters or the frame buffer is read back from its address.
pub read_byte_callback-write_byte_callback :
    (d : Display) (addr v : ℕ)
    → IsPixels d.pixels
    → IsByte v
    → IsStored addr
    → read_byte_callback (write_byte_callback d addr v) addr ≡ some v
read_byte_callback-write_byte_callback d addr v words h (inl low) = low_back d addr v low
read_byte_callback-write_byte_callback d addr v words h (inr (low, high)) =
    let pos = cpu_to_screen (addr - frame_buffer_start) in
    rw (frame_write d addr v low high) (
      frame_read (with_pixels d (put_pixel_byte d.pixels pos v)) addr low high
      ∙ ap some (pixel_byte-put_pixel_byte d.pixels pos v words h))
