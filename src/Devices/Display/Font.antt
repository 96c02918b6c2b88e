-- ===== src/Devices/Display/Font.antt =====
-- hardware.py, class Display: bytes written to the font.
use armv.Common.{
  ℕ, ◌+◌, ◌-◌, ◌*◌, ◌/◌, ◌%◌, ◌<◌, ◌≤◌, ◌≡◌, ap, ◌∙◌, arith, ==_self, some, lt→ltb, le→ltb, le→leb,
  lt→leb,
}
use armv.Devices.Display.{
  letter_start, letter_end, font_start, font_end, Display, put, write_font, write_byte_callback,
  read_byte_callback,
}
use armv.Devices.Display.Pixels.{put_self, put_ne}

-- An address of the font.
abbrev pub IsFont : ℕ → Type 0
IsFont addr = (font_start ≤ addr) × (addr < font_end)

-- The address of the same character's row that a write to `addr` changes.
abbrev pub mirrored : ℕ → ℕ
mirrored addr = let pos = addr - font_start in font_start + (pos / 8 * 8 + (7 - pos % 8))

font_read :
    (d : Display) (addr : ℕ)
    → IsFont addr
    → read_byte_callback d addr ≡ some (d.font ((addr - font_start) / 8) ((addr - font_start) % 8))
unfolding read_byte_callback
font_read d addr (low, high) =
    rw (
      le→ltb addr letter_start (omega arith),
      le→ltb addr letter_end low,
      lt→ltb addr font_end high,
    )

font_write :
    (d : Display) (addr v : ℕ)
    → IsFont addr
    → write_byte_callback d addr v ≡ write_font d (addr - font_start) v
unfolding write_byte_callback
font_write d addr v (low, high) =
    rw (
      le→ltb addr letter_start (omega arith),
      le→ltb addr letter_end low,
      lt→ltb addr font_end high,
    )

fixed_font : (d : Display) (pos v : ℕ) → pos < 1024 → write_font d pos v ≡ d
unfolding write_font
fixed_font d pos v h = rw (lt→leb 0x80 (pos / 8) (omega arith))

-- The rows of the written character.
custom_font :
    (d : Display) (pos v row : ℕ)
    → 1024 ≤ pos
    → (write_font d pos v).font (pos / 8) row ≡ put (d.font (pos / 8)) (7 - pos % 8) v row
unfolding write_font
custom_font d pos v row h = rw (le→leb 0x80 (pos / 8) (omega arith), ==_self (pos / 8))

mirrored_place :
    (addr : ℕ)
    → IsFont addr
    → let pos = addr - font_start in
      IsFont (mirrored addr)
      × ((mirrored addr - font_start) / 8 ≡ pos / 8)
      × ((mirrored addr - font_start) % 8 ≡ 7 - pos % 8)
mirrored_place addr (low, high) = ((omega arith, omega arith), omega arith, omega arith)

-- A byte written to the upper half of the font is read back from the mirrored row of its character,
-- and its own address still reads as before.
pub write_byte_callback-mirrored :
    (d : Display) (addr v : ℕ)
    → IsFont addr
    → font_start + 1024 ≤ addr
    → (read_byte_callback (write_byte_callback d addr v) (mirrored addr) ≡ some v)
      × (read_byte_callback (write_byte_callback d addr v) addr ≡ read_byte_callback d addr)
write_byte_callback-mirrored d addr v inside upper =
    let pos = addr - font_start in
    let (place, character, row) = mirrored_place addr inside in
    rw (font_write d addr v inside) (
      font_read (write_font d pos v) (mirrored addr) place
          ∙ rw (character, row, custom_font d pos v (7 - pos % 8) (omega arith))
              (ap some (put_self (d.font (pos / 8)) (7 - pos % 8) v)),
      rw
          (
            font_read (write_font d pos v) addr inside,
            font_read d addr inside,
            custom_font d pos v (pos % 8) (omega arith),
          )
          (ap some (put_ne (d.font (pos / 8)) (7 - pos % 8) v (pos % 8) (omega arith))),
    )

-- A byte written to the lower half of the font changes nothing.
pub write_byte_callback_fixed :
    (d : Display) (addr v : ℕ)
    → font_start ≤ addr
    → addr < font_start + 1024
    → write_byte_callback d addr v ≡ d
write_byte_callback_fixed d addr v low high =
    font_write d addr v (low, omega arith) ∙ fixed_font d (addr - font_start) v (omega arith)
