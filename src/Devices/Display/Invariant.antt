-- ===== src/Devices/Display/Invariant.antt =====
-- hardware.py, class Display: what every write keeps of the pixels and the font.
use armv.Common.{
  ℕ, zero, suc, ◌+◌, ◌-◌, ◌*◌, ◌/◌, ◌%◌, arith, ◌==◌, ltb, leb, Bool, true, false, if◌then◌else◌,
}
use armv.Common.Bytes.{IsByte, IsU32}
use armv.Devices.Display.{
  letter_start, letter_end, font_start, font_end, frame_buffer_start, frame_buffer_end, Cells, put,
  Display, with_byte, put_pixel_byte, letter_rows, redraw, redraw_colours, write_palette,
  write_letter, write_font, write_byte_callback, write_bytes, write_callback, is_direct,
  cpu_to_screen,
}
use armv.Devices.Display.Words.{with_byte-IsU32}
use armv.Devices.Display.Pixels.{IsPixels}

abbrev IsRow : Cells → Type 0
IsRow row = (i : ℕ) → IsByte (row i)

-- The pixels are words, and the rows of the font are bytes.
abbrev pub IsScreen : Display → Type 0
IsScreen d = IsPixels d.pixels × ((c : ℕ) → IsRow (d.font c))

either : {A : Type 0} (P : A → Type 0) (b : Bool) (x y : A) → P x → P y → P (if b then x else y)
either P true x y h k = h
either P false x y h k = k

put-IsPixels : (cells : Cells) (i v : ℕ) → IsPixels cells → IsU32 v → IsPixels (put cells i v)
unfolding put
put-IsPixels cells i v h k j = either IsU32 (j == i) v (cells j) k (h j)

put-IsRow : (row : Cells) (i v : ℕ) → IsRow row → IsByte v → IsRow (put row i v)
unfolding put
put-IsRow row i v h k j = either IsByte (j == i) v (row j) k (h j)

put_pixel_byte-IsPixels :
    (pixels : Cells) (pos v : ℕ)
    → IsPixels pixels
    → IsByte v
    → IsPixels (put_pixel_byte pixels pos v)
unfolding put_pixel_byte
put_pixel_byte-IsPixels pixels pos v h k =
    put-IsPixels pixels (pos / 4) (with_byte (pixels (pos / 4)) (pos % 4) v) h
      (with_byte-IsU32 (pixels (pos / 4)) (pos % 4) v (h (pos / 4)) (omega arith) k)

letter_rows-IsPixels :
    (rows : ℕ) (bits : Cells) (pos : ℕ) (pixels : Cells)
    → IsRow bits
    → IsPixels pixels
    → IsPixels (letter_rows rows bits pos pixels)
unfolding letter_rows
letter_rows-IsPixels zero bits pos pixels h k = k
letter_rows-IsPixels (suc rows) bits pos pixels h k =
    put_pixel_byte-IsPixels (letter_rows rows bits pos pixels) (pos + rows * 40) (bits rows)
      (letter_rows-IsPixels rows bits pos pixels h k) (h rows)

write_palette-IsScreen : (d : Display) (addr v : ℕ) → IsScreen d → IsScreen (write_palette d addr v)
unfolding write_palette redraw_colours
write_palette-IsScreen d addr v h = either IsScreen (v == d.palette addr) d _ h h

write_letter-IsScreen : (d : Display) (pos v : ℕ) → IsScreen d → IsScreen (write_letter d pos v)
unfolding write_letter redraw
write_letter-IsScreen d pos v (pixels, font) =
    (letter_rows-IsPixels 8 (d.font (put d.letters pos v pos)) _ d.pixels (font _) pixels, font)

write_font-IsScreen :
    (d : Display) (pos v : ℕ) → IsScreen d → IsByte v → IsScreen (write_font d pos v)
unfolding write_font
write_font-IsScreen d pos v (pixels, font) k =
    let row = put (d.font (pos / 8)) (7 - pos % 8) v in
    either IsScreen (leb 0x80 (pos / 8))
      (record d { font = λ c. if c == pos / 8 then row else d.font c }) d
      (
        pixels,
        λ c.
            either IsRow (c == pos / 8) row (d.font c)
              (put-IsRow (d.font (pos / 8)) (7 - pos % 8) v (font (pos / 8)) k) (font c),
      )
      (pixels, font)

write_byte_callback-IsScreen :
    (d : Display) (addr v : ℕ) → IsScreen d → IsByte v → IsScreen (write_byte_callback d addr v)
unfolding write_byte_callback
write_byte_callback-IsScreen d addr v h k =
    either IsScreen (ltb addr letter_start) _ _ (write_palette-IsScreen d addr v h) (
      either IsScreen (ltb addr letter_end) _ _ (write_letter-IsScreen d (addr - letter_start) v h)
        (either IsScreen (ltb addr font_end) _ _ (write_font-IsScreen d (addr - font_start) v h k) (
          either IsScreen (ltb addr frame_buffer_end) _ d
            (
              put_pixel_byte-IsPixels d.pixels (cpu_to_screen (addr - frame_buffer_start)) v h.0 k,
              h.1,
            )
            h)))

write_bytes-IsScreen :
    (n : ℕ) (d : Display) (addr value : ℕ) → IsScreen d → IsScreen (write_bytes n d addr value)
unfolding write_bytes
write_bytes-IsScreen zero d addr value h = h
write_bytes-IsScreen (suc n) d addr value h =
    write_bytes-IsScreen n (write_byte_callback d addr (value % 256)) (addr + 1) (value / 256)
      (write_byte_callback-IsScreen d addr (value % 256) h (omega arith))

-- A write of a word to any address keeps the pixels words and the rows of the font bytes, and so does
-- a write of a byte.
pub write_callback-IsScreen :
    (d : Display) (addr value : ℕ)
    → IsScreen d
    → IsU32 value
    → IsScreen (write_callback d addr value) × IsScreen (write_byte_callback d addr (value % 256))
write_callback-IsScreen d addr value h k = (
  unfold write_callback in
      either IsScreen (addr == letter_end) _ _ h (
        either IsScreen (is_direct addr) _ _
          (put-IsPixels d.pixels (cpu_to_screen (addr - frame_buffer_start) / 4) value h.0 k, h.1)
          (write_bytes-IsScreen 4 d addr value h)),
  write_byte_callback-IsScreen d addr (value % 256) h (omega arith),
)
