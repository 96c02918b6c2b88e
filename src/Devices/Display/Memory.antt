-- ===== src/Devices/Display/Memory.antt =====
-- hardware.py, class Display: word accesses to the frame buffer against byte accesses.
use armv.Common.{
  ℕ, ◌+◌, ◌-◌, ◌/◌, ◌%◌, ◌<◌, ◌≤◌, ◌≡◌, ap, sym, ◌∙◌, arith, ne→==, some, ok, lt→ltb, le→leb,
}
use armv.Common.Bytes.{IsU32}
use armv.Devices.Display.{
  letter_end, frame_buffer_start, frame_buffer_end, Cells, put, Display, cpu_to_screen, byte_of,
  with_byte, pixel_byte, put_pixel_byte, write_byte_callback, read_byte_callback, joined_bytes,
  read_bytes, read_callback, write_bytes, write_callback,
}
use armv.Devices.Display.Words.{bytes_of_word, word_of_bytes}
use armv.Devices.Display.Pixels.{
  IsPixels, put_self, put-put, frame_read, frame_write, screen_word, with_pixels,
}

byte_read :
    (d : Display) (addr i : ℕ)
    → addr % 4 ≡ 0
    → frame_buffer_start ≤ addr
    → addr < frame_buffer_end
    → i < 4
    → read_byte_callback d (addr + i)
      ≡ some (byte_of (d.pixels (cpu_to_screen (addr - frame_buffer_start) / 4)) i)
byte_read d addr i h low high hi =
    let (word, place) = screen_word addr i h low high hi in
    frame_read d (addr + i) (omega arith) (omega arith) ∙ (unfold pixel_byte in rw (word, place))

-- The condition under which a word access goes to the pixels directly.
abbrev pub IsDirect : ℕ → Type 0
IsDirect addr = (addr % 4 ≡ 0) × (frame_buffer_start ≤ addr) × (addr < frame_buffer_end)

direct_read :
    (random time : ℕ) (d : Display) (addr : ℕ)
    → IsDirect addr
    → read_callback random time d addr
      ≡ ok (d.pixels (cpu_to_screen (addr - frame_buffer_start) / 4))
unfolding read_callback
direct_read random time d addr (aligned, low, high) = rw (
  ne→== addr frame_buffer_end (omega arith),
  ne→== addr (frame_buffer_end + 4) (omega arith),
  aligned,
  le→leb frame_buffer_start addr low,
  lt→ltb addr frame_buffer_end high,
)

read_bytes_joined :
    (d : Display) (addr : ℕ)
    → read_bytes d addr
      ≡ joined_bytes
          (read_byte_callback d (addr + 0))
          (read_byte_callback d (addr + 1))
          (read_byte_callback d (addr + 2))
          (read_byte_callback d (addr + 3))
unfolding read_bytes
read_bytes_joined d addr = rw (plus_zero addr)
  where
    plus_zero : (n : ℕ) → n + 0 ≡ n
    plus_zero n = omega arith

-- A word read from an aligned address of the frame buffer is its four bytes, least significant first.
pub read_callback-read_bytes :
    (random time : ℕ) (d : Display) (addr : ℕ)
    → IsPixels d.pixels
    → IsDirect addr
    → read_callback random time d addr ≡ read_bytes d addr
read_callback-read_bytes random time d addr words (aligned, low, high) =
    rw
      (
        direct_read random time d addr (aligned, low, high),
        read_bytes_joined d addr,
        byte_read d addr 0 aligned low high (omega arith),
        byte_read d addr 1 aligned low high (omega arith),
        byte_read d addr 2 aligned low high (omega arith),
        byte_read d addr 3 aligned low high (omega arith),
      )
      (ap ok (sym (bytes_of_word _ (words _))))

-- One byte of a word that has been put.
put_next :
    (cells : Cells) (q w pos k v : ℕ)
    → pos / 4 ≡ q
    → pos % 4 ≡ k
    → put_pixel_byte (put cells q w) pos v ≡ put cells q (with_byte w k v)
unfolding put_pixel_byte
put_next cells q w pos k v e f = rw (e, f, put_self cells q w) (put-put cells q w (with_byte w k v))

put_first :
    (cells : Cells) (q pos k v : ℕ)
    → pos / 4 ≡ q
    → pos % 4 ≡ k
    → put_pixel_byte cells pos v ≡ put cells q (with_byte (cells q) k v)
unfolding put_pixel_byte
put_first cells q pos k v e f = rw (e, f)

byte_write :
    (d : Display) (addr i value : ℕ) (pixels : Cells)
    → IsDirect addr
    → i < 4
    → let q = cpu_to_screen (addr - frame_buffer_start) / 4 in
      (w : ℕ)
      → write_byte_callback (with_pixels d (put pixels q w)) (addr + i) value
        ≡ with_pixels d (put pixels q (with_byte w i value))
byte_write d addr i value pixels (aligned, low, high) hi w =
    let q = cpu_to_screen (addr - frame_buffer_start) / 4 in
    let (word, place) = screen_word addr i aligned low high hi in
    frame_write (with_pixels d (put pixels q w)) (addr + i) value (omega arith) (omega arith)
    ∙ ap (with_pixels d) (put_next pixels q w _ i value word place)

first_write :
    (d : Display) (addr value : ℕ)
    → IsDirect addr
    → let q = cpu_to_screen (addr - frame_buffer_start) / 4 in
      write_byte_callback d (addr + 0) value
      ≡ with_pixels d (put d.pixels q (with_byte (d.pixels q) 0 value))
first_write d addr value (aligned, low, high) =
    let q = cpu_to_screen (addr - frame_buffer_start) / 4 in
    let (word, place) = screen_word addr 0 aligned low high (omega arith) in
    frame_write d (addr + 0) value (omega arith) (omega arith)
    ∙ ap (with_pixels d) (put_first d.pixels q _ 0 value word place)

write_bytes_four :
    (d : Display) (addr value : ℕ)
    → write_bytes 4 d addr value
      ≡ write_byte_callback
          (write_byte_callback
            (write_byte_callback
              (write_byte_callback d (addr + 0) (value % 256))
              (addr + 1)
              (value / 256 % 256))
            (addr + 2)
            (value / 256 / 256 % 256))
          (addr + 3)
          (value / 256 / 256 / 256 % 256)
unfolding write_bytes
write_bytes_four d addr value = rw (plus_zero addr, write_bytes, two addr, three addr)
  where
    plus_zero : (n : ℕ) → n + 0 ≡ n
    plus_zero n = omega arith

    two : (n : ℕ) → n + 1 + 1 ≡ n + 2
    two n = omega arith

    three : (n : ℕ) → n + 2 + 1 ≡ n + 3
    three n = omega arith

direct_write :
    (d : Display) (addr value : ℕ)
    → IsDirect addr
    → write_callback d addr value
      ≡ with_pixels d (put d.pixels (cpu_to_screen (addr - frame_buffer_start) / 4) value)
unfolding write_callback
direct_write d addr value (aligned, low, high) = rw (
  ne→== addr letter_end (omega arith),
  aligned,
  le→leb frame_buffer_start addr low,
  lt→ltb addr frame_buffer_end high,
)

-- A word written to an aligned address of the frame buffer is its four bytes written in turn, least
-- significant first: the two give the same display.
pub write_callback-write_bytes :
    (d : Display) (addr value : ℕ)
    → IsPixels d.pixels
    → IsDirect addr
    → IsU32 value
    → write_callback d addr value ≡ write_bytes 4 d addr value
write_callback-write_bytes d addr value words (aligned, low, high) fits =
    let q = cpu_to_screen (addr - frame_buffer_start) / 4 in
    rw
      (
        direct_write d addr value (aligned, low, high),
        write_bytes_four d addr value,
        first_write d addr (value % 256) (aligned, low, high),
        byte_write d addr 1 (value / 256 % 256) d.pixels (aligned, low, high) (omega arith) _,
        byte_write d addr 2 (value / 256 / 256 % 256) d.pixels (aligned, low, high) (omega arith) _,
        byte_write d addr 3 (value / 256 / 256 / 256 % 256) d.pixels (aligned, low, high)
            (omega arith) _,
      )
      (ap (λ v. with_pixels d (put d.pixels q v))
        (sym (word_of_bytes (d.pixels q) value (words q) fits)))
