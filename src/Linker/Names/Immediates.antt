-- ===== src/Linker/Names/Immediates.antt =====
-- create.py: decode_immediate against the operands of the instructions, as disassemble.py reads them.
use armv.Common.{ℕ, ◌%◌, ◌<◌, ◌≡◌, ◌↔◌, refl, arith, Bool, true, not, ◌&&◌, ◌||◌, ◌==◌, ==_iff}
use armv.Common.Bits.{all_below, all_below_sound}
use armv.Disassembler.Operands.{immediate_value}
use armv.Linker.Names.{decode_immediate}

-- It is the operand only where the byte is 0.
is_wrong : ℕ → Bool
unfolding decode_immediate immediate_value
is_wrong n = n % 256 == 0 || not (decode_immediate n == immediate_value n)

is_zero : ℕ → Bool
unfolding decode_immediate immediate_value
is_zero n = not (n % 256 == 0) || (decode_immediate n == 0 && immediate_value n == 0)

all_wrong : all_below 4096 is_wrong ≡ true
unfolding all_below is_wrong
all_wrong = refl

all_zero : all_below 4096 is_zero ≡ true
unfolding all_below is_zero
all_zero = refl

wrong : (n : ℕ) → n < 4096 → decode_immediate n ≡ immediate_value n → n % 256 ≡ 0
unfolding is_wrong
wrong n h e = ground (
  arith,
  all_below_sound 4096 n is_wrong all_wrong h,
  (==_iff (decode_immediate n) (immediate_value n)).1 e,
)

right : (n : ℕ) → n < 4096 → n % 256 ≡ 0 → decode_immediate n ≡ immediate_value n
unfolding is_zero
right n h e = ground (
  arith,
  all_below_sound 4096 n is_zero all_zero h,
  (==_iff (decode_immediate n) 0).0,
  (==_iff (immediate_value n) 0).0,
)

-- Of the twelve bits of an operand, decode_immediate gives the number that the instruction uses,
-- and that the disassembler shows, exactly where its byte is 0.
pub decode_immediate-immediate_value :
    (n : ℕ) → n < 4096 → (decode_immediate n ≡ immediate_value n) ↔ (n % 256 ≡ 0)
decode_immediate-immediate_value n h = (wrong n h, right n h)
