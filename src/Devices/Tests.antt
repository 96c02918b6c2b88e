-- ===== src/Devices/Tests.antt =====
-- hardware.py on concrete accesses, and the theorems at concrete inputs.
use armv.Common.{◌*◌, ◌≡◌, refl, inr, some, raised, type_error, arith}
use armv.Devices.Display.{
  Display, Cells, cpu_to_screen, read_byte_callback, write_byte_callback, read_bytes, read_callback,
  write_bytes, write_callback,
}
use armv.Devices.Display.Memory.{write_callback-write_bytes}
use armv.Devices.Display.ReadBack.{read_byte_callback-write_byte_callback}

abbrev zeros : Cells
zeros i = 0

abbrev screen : Display
screen = record {
  palette = zeros;
  letters = zeros;
  font = λ c. zeros;
  pixels = λ i. 0x11223344;
  fore = zeros;
  back = zeros;
  seed = 0;
}

-- The first line of the CPU is the last of the screen.
first_line : cpu_to_screen 0 ≡ 239 * 40
unfolding cpu_to_screen
first_line = refl

write_callback-write_bytes_example :
    write_callback screen 4452 0xdeadbeef ≡ write_bytes 4 screen 4452 0xdeadbeef
write_callback-write_bytes_example =
    write_callback-write_bytes screen 4452 0xdeadbeef (λ i. omega arith)
      (omega arith, omega arith, omega arith) (omega arith)

read_byte_callback-write_byte_callback_example :
    read_byte_callback (write_byte_callback screen 4453 0xab) 4453 ≡ some 0xab
read_byte_callback-write_byte_callback_example =
    read_byte_callback-write_byte_callback screen 4453 0xab (λ i. omega arith) (omega arith)
      (inr (omega arith, omega arith))

-- A word that ends behind the frame buffer.
read_over_the_end : read_callback 7 9 screen 14046 ≡ raised type_error
unfolding read_callback read_bytes read_byte_callback
read_over_the_end = refl
