-- ===== src/Devices/KeyTests.antt =====
-- hardware.py, class Keyboard on concrete presses, and the theorems at concrete inputs.
use armv.Common.{◌+◌, ◌%◌, ◌≡◌, refl, [], ok, ◌==◌, if◌then◌else◌, arith}
use armv.Devices.Keyboard.{Keyboard, key_down, read_callback, read_byte_callback}
use armv.Devices.Keyboard.Keys.{read_byte_callback-key_down}

abbrev at_end : Keyboard
at_end = record { ring_buffer = λ i. i; pos = 127; key_state = 0; interrupts = [] }

read_byte_callback-key_down_example :
    (read_byte_callback (key_down 65 at_end) (0x20 + 127)
      ≡ (if 127 == 127 then ok 65 else read_byte_callback at_end (0x20 + 127)))
    × (read_byte_callback (key_down 65 at_end) 0xa0 ≡ ok ((127 + 1) % 128))
read_byte_callback-key_down_example =
    read_byte_callback-key_down 65 127 at_end (omega arith) (omega arith)

-- 'A' is bit 65 of the mask, which is bit 1 of the third word.
third_word : read_callback (key_down 65 at_end) 8 ≡ ok 2
unfolding read_callback key_down
third_word = refl
