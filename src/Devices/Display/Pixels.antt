-- ===== src/Devices/Display/Pixels.antt =====
-- hardware.py, class Display: the bytes of the frame buffer in the words of the pixels.
use armv.Common.{
  ℕ, ◌+◌, ◌-◌, ◌/◌, ◌%◌, ◌<◌, ◌≤◌, ◌≡◌, ◌≢◌, inl, inr, sym, arith, ◌==◌, ==_self, ne→==, some,
  Bool-cases, lt→ltb, le→ltb,
}
use armv.Common.Bytes.{IsU32}
use armv.Devices.Display.{
  letter_start, letter_end, font_end, frame_buffer_start, frame_buffer_end, Cells, put, Display,
  cpu_to_screen, pixel_byte, put_pixel_byte, write_byte_callback, read_byte_callback,
}
use armv.Devices.Display.Words.{cpu_to_screen_row}

-- The pixels are 32-bit words.
abbrev pub IsPixels : Cells → Type 0
IsPixels pixels = (i : ℕ) → IsU32 (pixels i)

pub put_self : (cells : Cells) (i v : ℕ) → put cells i v i ≡ v
unfolding put
put_self cells i v = rw (==_self i)

pub put_ne : (cells : Cells) (i v j : ℕ) → i ≢ j → put cells i v j ≡ cells j
unfolding put
put_ne cells i v j ne = rw (ne→== j i (λ e. ne (sym e)))

pub put-put : (cells : Cells) (i u v : ℕ) → put (put cells i u) i v ≡ put cells i v
unfolding put
put-put cells i u v = λ k j. at j k
  where
    at : (j : ℕ) → put (put cells i u) i v j ≡ put cells i v j
    at j = elim (Bool-cases (j == i)) [ inl e ↦ rw e | inr e ↦ rw e ]

-- A byte of the frame buffer is a byte of the pixels.
pub frame_read :
    (d : Display) (addr : ℕ)
    → frame_buffer_start ≤ addr
    → addr < frame_buffer_end
    → read_byte_callback d addr
      ≡ some (pixel_byte d.pixels (cpu_to_screen (addr - frame_buffer_start)))
unfolding read_byte_callback
frame_read d addr low high = rw (
  le→ltb addr letter_start (omega arith),
  le→ltb addr letter_end (omega arith),
  le→ltb addr font_end (omega arith),
  lt→ltb addr frame_buffer_end high,
)

pub frame_write :
    (d : Display) (addr value : ℕ)
    → frame_buffer_start ≤ addr
    → addr < frame_buffer_end
    → write_byte_callback d addr value ≡ record d {
      pixels = put_pixel_byte d.pixels (cpu_to_screen (addr - frame_buffer_start)) value;
    }
unfolding write_byte_callback
frame_write d addr value low high = rw (
  le→ltb addr letter_start (omega arith),
  le→ltb addr letter_end (omega arith),
  le→ltb addr font_end (omega arith),
  lt→ltb addr frame_buffer_end high,
)

-- The four bytes from an aligned address on are the bytes of one word, in order.
pub screen_word :
    (addr i : ℕ)
    → addr % 4 ≡ 0
    → frame_buffer_start ≤ addr
    → addr < frame_buffer_end
    → i < 4
    → (cpu_to_screen (addr + i - frame_buffer_start) / 4
        ≡ cpu_to_screen (addr - frame_buffer_start) / 4)
      × (cpu_to_screen (addr + i - frame_buffer_start) % 4 ≡ i)
screen_word addr i h low high hi =
    let o = addr - frame_buffer_start in
    let p = addr + i - frame_buffer_start in
    (
      omega (arith, cpu_to_screen_row o (omega arith), cpu_to_screen_row p (omega arith)),
      omega (arith, cpu_to_screen_row p (omega arith)),
    )

abbrev pub with_pixels : Display → Cells → Display
with_pixels d pixels = record d { pixels = pixels }
