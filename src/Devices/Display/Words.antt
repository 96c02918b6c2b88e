-- ===== src/Devices/Display/Words.antt =====
-- hardware.py, class Display: the bytes of a pixel word, and the screen position of an address.
use armv.Common.{ℕ, zero, suc, ◌+◌, ◌-◌, ◌*◌, ◌/◌, ◌%◌, ◌^◌, ◌<◌, ◌≡◌, ◌≢◌, refl, arith}
use armv.Common.Bytes.{IsByte, IsU32}
use armv.Devices.Display.{cpu_to_screen, byte_of, with_byte}

pub byte_of-with_byte : (w k v : ℕ) → IsU32 w → k < 4 → IsByte v → byte_of (with_byte w k v) k ≡ v
unfolding byte_of with_byte
byte_of-with_byte w zero v hw hk hv = omega arith
byte_of-with_byte w (suc zero) v hw hk hv = omega arith
byte_of-with_byte w (suc (suc zero)) v hw hk hv = omega arith
byte_of-with_byte w (suc (suc (suc zero))) v hw hk hv = omega arith
byte_of-with_byte w (suc (suc (suc (suc k)))) v hw hk hv = absurd (omega arith)

pub with_byte-IsU32 : (w k v : ℕ) → IsU32 w → k < 4 → IsByte v → IsU32 (with_byte w k v)
unfolding with_byte
with_byte-IsU32 w zero v hw hk hv = omega arith
with_byte-IsU32 w (suc zero) v hw hk hv = omega arith
with_byte-IsU32 w (suc (suc zero)) v hw hk hv = omega arith
with_byte-IsU32 w (suc (suc (suc zero))) v hw hk hv = omega arith
with_byte-IsU32 w (suc (suc (suc (suc k)))) v hw hk hv = absurd (omega arith)

-- The four bytes of a word put together are the word.
pub bytes_of_word :
    (w : ℕ)
    → IsU32 w
    → byte_of w 0 + byte_of w 1 * 2 ^ 8 + byte_of w 2 * 2 ^ 16 + byte_of w 3 * 2 ^ 24 ≡ w
unfolding byte_of
bytes_of_word w h = omega arith

-- Four bytes put one after the other into a word make the word whose bytes they are.
pub word_of_bytes :
    (w v : ℕ)
    → IsU32 w
    → IsU32 v
    → with_byte
        (with_byte (with_byte (with_byte w 0 (v % 256)) 1 (v / 256 % 256)) 2 (v / 256 / 256 % 256))
        3
        (v / 256 / 256 / 256 % 256)
      ≡ v
unfolding with_byte
word_of_bytes w v h k = omega arith

-- The other bytes of the word stay.
pub byte_of-with_byte_ne :
    (w k j v : ℕ)
    → IsU32 w
    → k < 4
    → j < 4
    → k ≢ j
    → IsByte v
    → byte_of (with_byte w k v) j ≡ byte_of w j
unfolding byte_of with_byte
byte_of-with_byte_ne w zero zero v hw hk hj ne hv = absurd (ne refl)
byte_of-with_byte_ne w zero (suc zero) v hw hk hj ne hv = omega arith
byte_of-with_byte_ne w zero (suc (suc zero)) v hw hk hj ne hv = omega arith
byte_of-with_byte_ne w zero (suc (suc (suc zero))) v hw hk hj ne hv = omega arith
byte_of-with_byte_ne w (suc zero) zero v hw hk hj ne hv = omega arith
byte_of-with_byte_ne w (suc zero) (suc zero) v hw hk hj ne hv = absurd (ne refl)
byte_of-with_byte_ne w (suc zero) (suc (suc zero)) v hw hk hj ne hv = omega arith
byte_of-with_byte_ne w (suc zero) (suc (suc (suc zero))) v hw hk hj ne hv = omega arith
byte_of-with_byte_ne w (suc (suc zero)) zero v hw hk hj ne hv = omega arith
byte_of-with_byte_ne w (suc (suc zero)) (suc zero) v hw hk hj ne hv = omega arith
byte_of-with_byte_ne w (suc (suc zero)) (suc (suc zero)) v hw hk hj ne hv = absurd (ne refl)
byte_of-with_byte_ne w (suc (suc zero)) (suc (suc (suc zero))) v hw hk hj ne hv = omega arith
byte_of-with_byte_ne w (suc (suc (suc zero))) zero v hw hk hj ne hv = omega arith
byte_of-with_byte_ne w (suc (suc (suc zero))) (suc zero) v hw hk hj ne hv = omega arith
byte_of-with_byte_ne w (suc (suc (suc zero))) (suc (suc zero)) v hw hk hj ne hv = omega arith
byte_of-with_byte_ne w (suc (suc (suc zero))) (suc (suc (suc zero))) v hw hk hj ne hv =
    absurd (ne refl)
byte_of-with_byte_ne w (suc (suc (suc (suc k)))) j v hw hk hj ne hv = absurd (omega arith)
byte_of-with_byte_ne w zero (suc (suc (suc (suc j)))) v hw hk hj ne hv = absurd (omega arith)
byte_of-with_byte_ne w (suc zero) (suc (suc (suc (suc j)))) v hw hk hj ne hv = absurd (omega arith)
byte_of-with_byte_ne w (suc (suc zero)) (suc (suc (suc (suc j)))) v hw hk hj ne hv =
    absurd (omega arith)
byte_of-with_byte_ne w (suc (suc (suc zero))) (suc (suc (suc (suc j)))) v hw hk hj ne hv =
    absurd (omega arith)

pub cpu_to_screen_row :
    (offset : ℕ) → offset < 9600 → cpu_to_screen offset ≡ (239 - offset / 40) * 40 + offset % 40
unfolding cpu_to_screen
cpu_to_screen_row offset h = omega arith
