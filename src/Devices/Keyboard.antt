-- ===== src/Devices/Keyboard.antt =====
-- hardware.py, class Keyboard: the mask of pressed keys and the ring buffer of presses.
pub mod Keys
use armv.Common.{
  ℕ, zero, suc, ◌+◌, ◌-◌, ◌*◌, ◌/◌, ◌%◌, ◌^◌, bit_or, List, [], ◌∷◌, Result, ok, raised,
  index_error, ◌>>=◌, ltb, ◌==◌, if◌then◌else◌,
}

abbrev pub ringbuffer_start : ℕ
ringbuffer_start = 0x20

abbrev pub ringbuffer_size : ℕ
ringbuffer_size = 128

abbrev pub ringbuffer_pos : ℕ
ringbuffer_pos = 0xa0

-- InterruptCodes
abbrev pub key_down_code : ℕ
key_down_code = 0

abbrev pub key_up_code : ℕ
key_up_code = 1

-- Bit operations on a number by its binary digits, the lowest first: n with its bit k as given,
-- n >> k, and n & (2 ** w - 1).
unfoldable pub with_bit : ℕ → ℕ → ℕ → ℕ
with_bit zero b n = n / 2 * 2 + b
with_bit (suc k) b n = with_bit k b (n / 2) * 2 + n % 2

unfoldable pub shift_right : ℕ → ℕ → ℕ
shift_right zero n = n
shift_right (suc k) n = shift_right k (n / 2)

unfoldable pub low_bits : ℕ → ℕ → ℕ
low_bits zero n = 0
low_bits (suc w) n = low_bits w (n / 2) * 2 + n % 2

-- `ring_buffer` is a function on its 128 indices; `interrupts` are the codes raised so far, the last
-- one first.
pub record Keyboard : Type 0 where
  pub ring_buffer : ℕ → ℕ
  pub pos : ℕ
  pub key_state : ℕ
  pub interrupts : List ℕ

unfoldable pub key_down : ℕ → Keyboard → Keyboard
unfolding with_bit
key_down key kb = record {
  key_state = with_bit key 1 kb.key_state;
  ring_buffer = λ i. if i == kb.pos then key else kb.ring_buffer i;
  pos = if kb.pos + 1 == ringbuffer_size then 0 else kb.pos + 1;
  interrupts = key_down_code ∷ kb.interrupts;
}

unfoldable pub key_up : ℕ → Keyboard → Keyboard
unfolding with_bit
key_up key kb = record kb {
  key_state = with_bit key 0 kb.key_state;
  interrupts = key_up_code ∷ kb.interrupts;
}

abbrev pub ring_item : Keyboard → ℕ → Result ℕ
ring_item kb i = if ltb i ringbuffer_size then ok (kb.ring_buffer i) else raised index_error

-- (bytes[0]) | (bytes[1] << 8) | (bytes[2] << 16) | (bytes[3] << 24)
abbrev pub or_bytes : ℕ → ℕ → ℕ → ℕ → ℕ
or_bytes a b c d = bit_or (bit_or (bit_or a (b * 2 ^ 8)) (c * 2 ^ 16)) (d * 2 ^ 24)

-- The index is `pos + i % 128`, where `%` binds before `+`.
unfoldable pub read_ring : Keyboard → ℕ → Result ℕ
read_ring kb place = do
  a ← ring_item kb (place + 0 % ringbuffer_size)
  b ← ring_item kb (place + 1 % ringbuffer_size)
  c ← ring_item kb (place + 2 % ringbuffer_size)
  d ← ring_item kb (place + 3 % ringbuffer_size)
  ok (or_bytes a b c d)

unfoldable pub read_callback : Keyboard → ℕ → Result ℕ
unfolding shift_right low_bits read_ring
read_callback kb addr =
    if ltb addr ringbuffer_start
    then ok (low_bits 32 (shift_right (8 * addr) kb.key_state))
    else if ltb addr ringbuffer_pos
    then read_ring kb (addr - ringbuffer_start)
    else if addr == ringbuffer_pos
    then ok kb.pos
    else ok 0

unfoldable pub read_byte_callback : Keyboard → ℕ → Result ℕ
unfolding shift_right low_bits
read_byte_callback kb addr =
    if ltb addr ringbuffer_start
    then ok (low_bits 8 (shift_right (8 * addr) kb.key_state))
    else if ltb addr ringbuffer_pos
    then ring_item kb (addr - ringbuffer_start)
    else if addr == ringbuffer_pos
    then ok kb.pos
    else ok 0
