-- ===== src/Gdb/Hex.antt =====
-- The integers of comms/gdb.py as text: `int(text, base)` of Python on a byte string, and the
-- formats "%x", "%02x", "{:08x}".
pub mod Laws
use armv.Common.{
  ℕ, zero, suc, ◌+◌, ◌-◌, ◌*◌, ◌/◌, ◌%◌, ◌^◌, Bool, true, false, ◌&&◌, ◌||◌, List, [], ◌∷◌, ◌++◌,
  Option, none, some, Result, ok, raised, value_error, ltb, leb, ◌==◌, if◌then◌else◌,
}
use armv.Common.Bytes.{Bytes}
use armv.Common.Int.{ℤ, pos, negsuc}
use mathlib.Core.List.{foldl, reverse}

-- The bytes that `int` strips: blank, \t, \n, \v, \f and \r.
unfoldable pub is_space : ℕ → Bool
is_space c = c == b' ' || (leb 9 c && leb c 13)

unfoldable pub strip_front : Bytes → Bytes
unfolding is_space
strip_front [] = []
strip_front (c ∷ cs) = let rest = strip_front cs in if is_space c then rest else c ∷ cs

unfoldable pub strip : Bytes → Bytes
unfolding strip_front
strip text = reverse (strip_front (reverse (strip_front text)))

-- The value of a digit, 36 for a byte that is none.
unfoldable pub digit_value : ℕ → ℕ
digit_value c =
    if leb b'0' c && leb c b'9'
    then c - b'0'
    else if leb b'a' c && leb c b'z'
    then c - b'a' + 10
    else if leb b'A' c && leb c b'Z'
    then c - b'A' + 10
    else 36

-- What the last byte was: nothing yet, the prefix 0x, a digit, or an underscore.
pub data Last : Type 0 where
  fresh prefixed digit underscore : Last

-- An underscore may stand behind a digit or the prefix.
abbrev pub may_underscore : Last → Bool
may_underscore fresh = false
may_underscore prefixed = true
may_underscore digit = true
may_underscore underscore = false

unfoldable pub digit_step : ℕ → Option (ℕ × Last) → ℕ → Option (ℕ × Last)
unfolding digit_value
digit_step base none c = none
digit_step base (some (acc, last)) c =
    if c == b'_'
    then (if may_underscore last then some (acc, underscore) else none)
    else if ltb (digit_value c) base
    then some (acc * base + digit_value c, digit)
    else none

abbrev pub whole : Option (ℕ × Last) → Option ℕ
whole (some (n, digit)) = some n
whole _ = none

unfoldable pub magnitude : ℕ → Last → Bytes → Option ℕ
unfolding digit_step
magnitude base last text = whole (foldl (digit_step base) (some (0, last)) text)

-- A prefix 0x is allowed at base 16 alone.
unfoldable pub unsigned : ℕ → Bytes → Option ℕ
unfolding magnitude
unsigned base (c ∷ x ∷ text) =
    if base == 16 && (c == b'0' && (x == b'x' || x == b'X'))
    then magnitude base prefixed text
    else magnitude base fresh (c ∷ x ∷ text)
unsigned base text = magnitude base fresh text

abbrev pub negated : ℕ → ℤ
negated zero = pos zero
negated (suc n) = negsuc n

abbrev pub positive : Option ℕ → Result ℤ
positive none = raised value_error
positive (some n) = ok (pos n)

abbrev pub negative : Option ℕ → Result ℤ
negative none = raised value_error
negative (some n) = ok (negated n)

unfoldable pub signed : ℕ → Bytes → Result ℤ
unfolding unsigned
signed base [] = raised value_error
signed base (c ∷ text) =
    if c == b'-'
    then negative (unsigned base text)
    else if c == b'+'
    then positive (unsigned base text)
    else positive (unsigned base (c ∷ text))

-- int(text, base), for base 10 or 16
unfoldable pub int_of : ℕ → Bytes → Result ℤ
unfolding signed strip
int_of base text = signed base (strip text)

-- A lower-case digit.
unfoldable pub hex_digit : ℕ → ℕ
hex_digit d = if ltb d 10 then b'0' + d else b'a' + (d - 10)

-- The last `k` digits of `n`.
unfoldable pub hex_fixed : ℕ → ℕ → Bytes
unfolding hex_digit
hex_fixed zero n = []
hex_fixed (suc k) n = hex_fixed k (n / 16) ++ (hex_digit (n % 16) ∷ [])

-- "%x": as many digits as `n` has. `n` steps are enough, since n / 16 is below n.
unfoldable pub hex_digits : ℕ → ℕ → Bytes
unfolding hex_digit
hex_digits zero n = hex_digit (n % 16) ∷ []
hex_digits (suc fuel) n =
    let front = hex_digits fuel (n / 16) in
    if ltb n 16 then hex_digit n ∷ [] else front ++ (hex_digit (n % 16) ∷ [])

unfoldable pub hex : ℕ → Bytes
unfolding hex_digits
hex n = hex_digits n n

-- "{:0kx}": padded to `k` digits.
unfoldable pub hex_pad : ℕ → ℕ → Bytes
unfolding hex_fixed hex
hex_pad k n = if ltb n (16 ^ k) then hex_fixed k n else hex n
