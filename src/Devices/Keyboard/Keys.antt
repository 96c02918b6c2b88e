-- ===== src/Devices/Keyboard/Keys.antt =====
-- hardware.py, class Keyboard: what a press and a release change in the memory that is read.
use armv.Common.{
  ℕ, zero, suc, ◌+◌, ◌-◌, ◌*◌, ◌/◌, ◌%◌, ◌<◌, ◌≤◌, ◌≡◌, refl, sym, ap, ◌∙◌, ◌⊎◌, arith, Bool, true,
  false, ltb, Result, ok, raised, index_error, ◌==◌, ==_self, ne→==, if◌then◌else◌, lt→ltb, le→ltb,
  ltb→lt, ltb→le, Bool-cases, inl, inr, ==_iff,
}
use armv.Devices.Keyboard.{
  ringbuffer_start, ringbuffer_size, ringbuffer_pos, with_bit, shift_right, low_bits, Keyboard,
  key_down, key_up, or_bytes, read_ring, read_callback, read_byte_callback,
}

-- Bit `j` of a number.
pub bit : ℕ → ℕ → ℕ
bit zero n = n % 2
bit (suc j) n = bit j (n / 2)

half : (n b : ℕ) → b < 2 → (n * 2 + b) / 2 ≡ n
half n b h = omega arith

parity : (n b : ℕ) → b < 2 → (n * 2 + b) % 2 ≡ b
parity n b h = omega arith

low_digit : (n : ℕ) → n % 2 < 2
low_digit n = omega arith

suc_eq : (j k : ℕ) → (suc j == suc k) ≡ (j == k)
suc_eq j k = elim (Bool-cases (j == k)) [
  | inl e ↦ rw (ap (λ i. suc j == suc i) (sym ((==_iff j k).0 e)), e) (==_self (suc j))
  | inr e ↦ rw e (ne→== (suc j) (suc k) (ground arith))
]

bit-with_bit : (k b j n : ℕ) → b < 2 → bit j (with_bit k b n) ≡ (if j == k then b else bit j n)
unfolding bit with_bit
bit-with_bit zero b zero n h = parity (n / 2) b h
bit-with_bit zero b (suc j) n h = rw (half (n / 2) b h, ne→== (suc j) 0 (omega arith))
bit-with_bit (suc k) b zero n h =
    rw (parity (with_bit k b (n / 2)) (n % 2) (low_digit n), ne→== 0 (suc k) (omega arith))
bit-with_bit (suc k) b (suc j) n h =
    rw (half (with_bit k b (n / 2)) (n % 2) (low_digit n), suc_eq j k)
      (bit-with_bit k b j (n / 2) h)

plus_suc : (k j : ℕ) → suc k + j ≡ suc (k + j)
plus_suc k j = omega arith

zero_plus : (j : ℕ) → zero + j ≡ j
zero_plus j = omega arith

bit-shift_right : (k j n : ℕ) → bit j (shift_right k n) ≡ bit (k + j) n
unfolding bit shift_right
bit-shift_right zero j n = rw (zero_plus j)
bit-shift_right (suc k) j n = rw (plus_suc k j) (bit-shift_right k j (n / 2))

bit-low_bits : (w j n : ℕ) → j < w → bit j (low_bits w n) ≡ bit j n
unfolding bit low_bits
bit-low_bits zero j n h = absurd (omega arith)
bit-low_bits (suc w) zero n h = parity (low_bits w (n / 2)) (n % 2) (low_digit n)
bit-low_bits (suc w) (suc j) n h =
    rw (half (low_bits w (n / 2)) (n % 2) (low_digit n)) (bit-low_bits w j (n / 2) (omega arith))

-- A key's bit in a byte that is read, 0 where the read fails.
abbrev bit_of : ℕ → Result ℕ → ℕ
bit_of j (ok n) = bit j n
bit_of j (raised e) = 0

-- Whether key `key` reads as pressed: its bit in the byte of the mask at address key / 8.
pub pressed : ℕ → Keyboard → ℕ
pressed key kb = bit_of (key % 8) (read_byte_callback kb (key / 8))

pressed_lem : (key : ℕ) (kb : Keyboard) → key < 256 → pressed key kb ≡ bit key kb.key_state
unfolding pressed read_byte_callback
pressed_lem key kb h = rw (
  lt→ltb (key / 8) ringbuffer_start (omega arith),
  bit-low_bits 8 (key % 8) (shift_right (8 * (key / 8)) kb.key_state) (omega arith),
  bit-shift_right (8 * (key / 8)) (key % 8) kb.key_state,
  whole key,
)
  where
    whole : (key : ℕ) → 8 * (key / 8) + key % 8 ≡ key
    whole key = omega arith

-- Among the keys below 256, a press makes its own key read as pressed and a release makes it read as
-- not pressed; every other key reads as before.
pub pressed-key_down :
    (key other : ℕ) (kb : Keyboard)
    → other < 256
    → (pressed other (key_down key kb) ≡ (if other == key then 1 else pressed other kb))
      × (pressed other (key_up key kb) ≡ (if other == key then 0 else pressed other kb))
pressed-key_down key other kb h = rw (pressed_lem other kb h) (
  pressed_lem other (key_down key kb) h
      ∙ (unfold key_down in bit-with_bit key 1 other kb.key_state (omega arith)),
  pressed_lem other (key_up key kb) h
      ∙ (unfold key_up in bit-with_bit key 0 other kb.key_state (omega arith)),
)

ring_byte :
    (kb : Keyboard) (i : ℕ)
    → i < ringbuffer_size
    → read_byte_callback kb (ringbuffer_start + i) ≡ ok (kb.ring_buffer i)
unfolding read_byte_callback
ring_byte kb i h = rw (
  le→ltb (ringbuffer_start + i) ringbuffer_start (omega arith),
  lt→ltb (ringbuffer_start + i) ringbuffer_pos (omega arith),
  back i,
  lt→ltb i ringbuffer_size h,
)
  where
    back : (i : ℕ) → ringbuffer_start + i - ringbuffer_start ≡ i
    back i = omega arith

position_byte : (kb : Keyboard) → read_byte_callback kb ringbuffer_pos ≡ ok kb.pos
unfolding read_byte_callback
position_byte kb = refl

-- A press at position `kb.pos` of the ring is read there, every other byte of the ring reads as
-- before, and the position that is read goes on by one around the ring.
pub read_byte_callback-key_down :
    (key i : ℕ) (kb : Keyboard)
    → kb.pos < ringbuffer_size
    → i < ringbuffer_size
    → (read_byte_callback (key_down key kb) (ringbuffer_start + i)
        ≡ (if i == kb.pos then ok key else read_byte_callback kb (ringbuffer_start + i)))
      × (read_byte_callback (key_down key kb) ringbuffer_pos ≡ ok ((kb.pos + 1) % ringbuffer_size))
read_byte_callback-key_down key i kb hp hi = rw (ring_byte kb i hi) (
  ring_byte (key_down key kb) i hi ∙ (unfold key_down in own (i == kb.pos)),
  position_byte (key_down key kb)
      ∙ (unfold key_down in around (Bool-cases (kb.pos + 1 == ringbuffer_size))),
)
  where
    own :
        (b : Bool)
        → ◌≡◌ {A = Result ℕ}
            (ok (if b then key else kb.ring_buffer i))
            (if b then ok key else ok (kb.ring_buffer i))
    own true = refl
    own false = refl

    around :
        ((kb.pos + 1 == ringbuffer_size) ≡ true) ⊎ ((kb.pos + 1 == ringbuffer_size) ≡ false)
        → ◌≡◌ {A = Result ℕ}
            (ok (if kb.pos + 1 == ringbuffer_size then 0 else kb.pos + 1))
            (ok ((kb.pos + 1) % ringbuffer_size))
    around (inl e) = rw e (ap ok (ground arith))
    around (inr e) = rw e (ap ok (ground arith))

ring_word :
    (kb : Keyboard) (place : ℕ)
    → place < ringbuffer_size
    → read_callback kb (ringbuffer_start + place) ≡ read_ring kb place
unfolding read_callback
ring_word kb place h = rw (
  le→ltb (ringbuffer_start + place) ringbuffer_start (omega arith),
  lt→ltb (ringbuffer_start + place) ringbuffer_pos (omega arith),
  back place,
)
  where
    back : (i : ℕ) → ringbuffer_start + i - ringbuffer_start ≡ i
    back i = omega arith

plus_zero : (n : ℕ) → n + 0 ≡ n
plus_zero n = omega arith

whole_word :
    (kb : Keyboard) (place : ℕ)
    → place < 125
    → read_ring kb place
      ≡ ok (
          or_bytes
            (kb.ring_buffer place)
            (kb.ring_buffer (place + 1))
            (kb.ring_buffer (place + 2))
            (kb.ring_buffer (place + 3)))
unfolding read_ring
whole_word kb place h = rw (
  plus_zero place,
  lt→ltb place ringbuffer_size (omega arith),
  lt→ltb (place + 1) ringbuffer_size (omega arith),
  lt→ltb (place + 2) ringbuffer_size (omega arith),
  lt→ltb (place + 3) ringbuffer_size (omega arith),
)

cut_word :
    (kb : Keyboard) (place : ℕ)
    → place < ringbuffer_size
    → 125 ≤ place
    → read_ring kb place ≡ raised index_error
unfolding read_ring
cut_word kb place h low = ground arith

-- A word of the ring from a place up to 124 is its four bytes; from the last three places the read
-- raises IndexError, since the place does not go around the ring.
pub read_callback_ring :
    (kb : Keyboard) (place : ℕ)
    → place < ringbuffer_size
    → read_callback kb (ringbuffer_start + place) ≡ (
        if ltb place 125
        then ok (
            or_bytes
              (kb.ring_buffer place)
              (kb.ring_buffer (place + 1))
              (kb.ring_buffer (place + 2))
              (kb.ring_buffer (place + 3)))
        else raised index_error)
read_callback_ring kb place h = elim (Bool-cases (ltb place 125)) [
  | inl e ↦ rw (ring_word kb place h, e) (whole_word kb place (ltb→lt place 125 e))
  | inr e ↦ rw (ring_word kb place h, e) (cut_word kb place h (ltb→le place 125 e))
]
