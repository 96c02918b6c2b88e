-- ===== src/Devices/Display.antt =====
-- hardware.py, class Display: the memory map of the screen, without the drawing of a frame.
-- Each part of the memory is a function on its indices; the tests on an address keep an index in its range.
pub mod Words
pub mod Pixels
pub mod Memory
pub mod ReadBack
pub mod Font
pub mod Invariant
use armv.Common.{
  ℕ, zero, suc, ◌+◌, ◌-◌, ◌*◌, ◌/◌, ◌%◌, ◌^◌, Bool, ◌&&◌, Option, none, some, Result, ok, raised,
  type_error, ltb, leb, ◌==◌, if◌then◌else◌,
}

abbrev pub letter_start : ℕ
letter_start = 1200

abbrev pub letter_end : ℕ
letter_end = 2400

abbrev pub font_start : ℕ
font_start = 2400

abbrev pub font_end : ℕ
font_end = 4448

abbrev pub frame_buffer_start : ℕ
frame_buffer_start = 4448

abbrev pub frame_buffer_end : ℕ
frame_buffer_end = 14048

abbrev pub Cells : Type 0
Cells = ℕ → ℕ

unfoldable pub put : Cells → ℕ → ℕ → Cells
put cells i v j = if j == i then v else cells j

-- `font` is indexed by character and row, `pixels` are the words of pixel_data_words in one row.
-- `fore` and `back` are the palette indices that redraw_colours gives to the quad of a cell.
pub record Display : Type 0 where
  pub palette : Cells
  pub letters : Cells
  pub font : ℕ → Cells
  pub pixels : Cells
  pub fore : Cells
  pub back : Cells
  pub seed : ℕ

-- On lines of 320 pixels, 240 lines, the CPU's first line is the screen's last.
unfoldable pub cpu_to_screen : ℕ → ℕ
cpu_to_screen offset =
    let x = offset * 8 % 320 in let y = 239 - offset * 8 / 320 in (y * 320 + x) / 8

-- (word >> (byte * 8)) & 0xFF
unfoldable pub byte_of : ℕ → ℕ → ℕ
byte_of word byte = word / 2 ^ (byte * 8) % 256

-- (word & mask) | (value << shift), for a value below 256: the mask clears the byte, so that `|` adds.
unfoldable pub with_byte : ℕ → ℕ → ℕ → ℕ
with_byte word byte value =
    let shift = byte * 8 in
    word / 2 ^ (shift + 8) * 2 ^ (shift + 8) + value * 2 ^ shift + word % 2 ^ shift

-- A byte of the words, as `pixel_data` and the shifts of the byte callbacks see it.
unfoldable pub pixel_byte : Cells → ℕ → ℕ
unfolding byte_of
pixel_byte pixels pos = byte_of (pixels (pos / 4)) (pos % 4)

unfoldable pub put_pixel_byte : Cells → ℕ → ℕ → Cells
unfolding put with_byte
put_pixel_byte pixels pos value =
    put pixels (pos / 4) (with_byte (pixels (pos / 4)) (pos % 4) value)

unfoldable pub redraw_colours : Display → ℕ → Display
unfolding put
redraw_colours d pos = record d {
  fore = put d.fore pos (d.palette pos % 16);
  back = put d.back pos (d.palette pos / 16 % 16);
}

-- The first `rows` rows of a letter, from the pixel byte `pos` on.
unfoldable pub letter_rows : ℕ → Cells → ℕ → Cells → Cells
unfolding put_pixel_byte
letter_rows zero bits pos pixels = pixels
letter_rows (suc rows) bits pos pixels =
    put_pixel_byte (letter_rows rows bits pos pixels) (pos + rows * 40) (bits rows)

-- The pixel byte of the lowest row of a cell.
unfoldable pub cell_start : ℕ → ℕ
cell_start pos = (29 - pos / 40) * 8 * 40 + pos % 40

unfoldable pub redraw : Display → ℕ → Display
unfolding letter_rows cell_start
redraw d pos = record d {
  pixels = letter_rows 8 (d.font (d.letters pos)) (cell_start pos) d.pixels;
}

unfoldable pub write_palette : Display → ℕ → ℕ → Display
unfolding put redraw_colours
write_palette d addr value =
    if value == d.palette addr
    then d
    else redraw_colours (record d { palette = put d.palette addr value }) addr

unfoldable pub write_letter : Display → ℕ → ℕ → Display
unfolding put redraw
write_letter d pos value = redraw (record d { letters = put d.letters pos value }) pos

-- The lower half of the font is fixed.
unfoldable pub write_font : Display → ℕ → ℕ → Display
unfolding put
write_font d pos value =
    let row = put (d.font (pos / 8)) (7 - pos % 8) value in
    if leb 0x80 (pos / 8)
    then record d { font = λ c. if c == pos / 8 then row else d.font c }
    else d

unfoldable pub write_byte_callback : Display → ℕ → ℕ → Display
unfolding write_palette write_letter write_font put_pixel_byte cpu_to_screen
write_byte_callback d addr value =
    if ltb addr letter_start
    then write_palette d addr value
    else if ltb addr letter_end
    then write_letter d (addr - letter_start) value
    else if ltb addr font_end
    then write_font d (addr - font_start) value
    else if ltb addr frame_buffer_end
    then record d {
      pixels = put_pixel_byte d.pixels (cpu_to_screen (addr - frame_buffer_start)) value;
    }
    else d

-- None behind the frame buffer.
unfoldable pub read_byte_callback : Display → ℕ → Option ℕ
unfolding pixel_byte cpu_to_screen
read_byte_callback d addr =
    if ltb addr letter_start
    then some (d.palette addr)
    else if ltb addr letter_end
    then some (d.letters (addr - letter_start))
    else if ltb addr font_end
    then some (d.font ((addr - font_start) / 8) ((addr - font_start) % 8))
    else if ltb addr frame_buffer_end
    then some (pixel_byte d.pixels (cpu_to_screen (addr - frame_buffer_start)))
    else none

-- An aligned address of the frame buffer.
abbrev pub is_direct : ℕ → Bool
is_direct addr = addr % 4 == 0 && (leb frame_buffer_start addr && ltb addr frame_buffer_end)

-- bytes[0] | (bytes[1] << 8) | (bytes[2] << 16) | (bytes[3] << 24), of four bytes; `None` is no
-- operand of `|`.
abbrev pub joined_bytes : Option ℕ → Option ℕ → Option ℕ → Option ℕ → Result ℕ
joined_bytes (some a) (some b) (some c) (some d) = ok (a + b * 2 ^ 8 + c * 2 ^ 16 + d * 2 ^ 24)
joined_bytes _ _ _ _ = raised type_error

unfoldable pub read_bytes : Display → ℕ → Result ℕ
read_bytes d addr =
    joined_bytes (read_byte_callback d addr) (read_byte_callback d (addr + 1))
      (read_byte_callback d (addr + 2)) (read_byte_callback d (addr + 3))

-- `random` and `time` stand for random.getrandbits(32) and int(time.time()).
unfoldable pub read_callback : (random time : ℕ) → Display → ℕ → Result ℕ
unfolding read_bytes cpu_to_screen
read_callback random time d addr =
    if addr == frame_buffer_end
    then ok random
    else if addr == frame_buffer_end + 4
    then ok time
    else if is_direct addr
    then ok (d.pixels (cpu_to_screen (addr - frame_buffer_start) / 4))
    else read_bytes d addr

-- The loop over the four bytes of a word.
unfoldable pub write_bytes : ℕ → Display → ℕ → ℕ → Display
write_bytes zero d addr value = d
write_bytes (suc n) d addr value =
    write_bytes n (write_byte_callback d addr (value % 256)) (addr + 1) (value / 256)

unfoldable pub write_callback : Display → ℕ → ℕ → Display
unfolding write_bytes put cpu_to_screen
write_callback d addr value =
    if addr == letter_end
    then record d { seed = value }
    else if is_direct addr
    then record d { pixels = put d.pixels (cpu_to_screen (addr - frame_buffer_start) / 4) value }
    else write_bytes 4 d addr value
