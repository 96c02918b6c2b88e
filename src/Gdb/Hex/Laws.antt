-- ===== src/Gdb/Hex/Laws.antt =====
-- comms/gdb.py: `int` reads back what the hexadecimal formats print.
use armv.Common.{
  not, ℕ, zero, suc, ◌+◌, ◌*◌, ◌/◌, ◌%◌, ◌^◌, ◌≤◌, ◌<◌, ◌≡◌, refl, ap, Bool, true, false, ◌&&◌, [],
  ◌∷◌, some, ok, ◌==◌, if◌then◌else◌, arith, All, All-append, lt→ltb, ==_iff, length, length-append,
}
use armv.Common.Bytes.{Bytes}
use armv.Common.Int.{pos}
use armv.Gdb.Hex.{
  is_space, strip_front, strip, digit_value, Last, fresh, prefixed, digit, digit_step, magnitude,
  unsigned, signed, int_of, hex_digit, hex_fixed, positive,
}
use mathlib.Core.List.{foldl, foldl-append, reverse, reverse-reverse, reverse-append}
use native.Mathlib.Nat.{pow-suc}

-- A byte that `int` takes for neither blank, sign, prefix nor underscore.
abbrev Plain : ℕ → Type 0
Plain c =
    (is_space c ≡ false)
    × ((c == b'-') ≡ false)
    × ((c == b'+') ≡ false)
    × ((c == b'_') ≡ false)
    × ((c == b'x') ≡ false)
    × ((c == b'X') ≡ false)

is_plain : ℕ → Bool
unfolding is_space
is_plain c =
    not (is_space c)
    && (not (c == b'-')
        && (not (c == b'+') && (not (c == b'_') && (not (c == b'x') && not (c == b'X')))))

is_plain-Plain : (c : ℕ) → is_plain c ≡ true → Plain c
unfolding is_plain
is_plain-Plain c h = ground arith

and_parts : (a b : Bool) → (a && b) ≡ true → (a ≡ true) × (b ≡ true)
and_parts true true h = (refl, refl)
and_parts true false h = cc
and_parts false b h = cc

-- A test that every digit from `d` on passes, `left` digits long.
every_digit : ℕ → ℕ → (ℕ → Bool) → Bool
every_digit d zero test = true
every_digit d (suc left) test = every_digit (suc d) left test && test d

every_digit-hit :
    (left d n : ℕ) (test : ℕ → Bool)
    → every_digit d left test ≡ true
    → d ≤ n
    → n < d + left
    → test n ≡ true
unfolding every_digit
every_digit-hit zero d n test h low high = absurd (omega arith)
every_digit-hit (suc left) d n test h low high = ground (arith, every_digit-hit left (suc d) n test)

digit_test : ℕ → Bool
unfolding is_plain
digit_test d = is_plain (hex_digit d) && digit_value (hex_digit d) == d

digits-pass : every_digit 0 16 digit_test ≡ true
unfolding every_digit digit_test is_plain hex_digit digit_value
digits-pass = refl

hex_digit_facts : (d : ℕ) → d < 16 → Plain (hex_digit d) × (digit_value (hex_digit d) ≡ d)
hex_digit_facts d h =
    let (p, v) =
      and_parts (is_plain (hex_digit d)) (digit_value (hex_digit d) == d)
        (unfold digit_test in every_digit-hit 16 0 d digit_test digits-pass (omega arith) h) in
    (is_plain-Plain (hex_digit d) p, (==_iff (digit_value (hex_digit d)) d).0 v)

pub hex_fixed-Plain : (k n : ℕ) → All Plain (hex_fixed k n)
unfolding hex_fixed
hex_fixed-Plain zero n = tt
hex_fixed-Plain (suc k) n =
    All-append Plain (hex_fixed k (n / 16)) (hex_digit (n % 16) ∷ []) (hex_fixed-Plain k (n / 16))
      ((hex_digit_facts (n % 16) (omega arith)).0, tt)

pub length-hex_fixed : (k n : ℕ) → length (hex_fixed k n) ≡ k
unfolding hex_fixed
length-hex_fixed zero n = refl
length-hex_fixed (suc k) n = omega (
  arith,
  length-append (hex_fixed k (n / 16)) (hex_digit (n % 16) ∷ []),
  length-hex_fixed k (n / 16),
)

-- What `foldl` has seen last after `k` digits.
abbrev after : ℕ → Last → Last
after zero l = l
after (suc k) l = digit

digit_step-hex_digit :
    (acc d : ℕ) (l : Last)
    → d < 16
    → digit_step 16 (some (acc, l)) (hex_digit d) ≡ some (acc * 16 + d, digit)
unfolding digit_step
digit_step-hex_digit acc d l h =
    let (plain, value) = hex_digit_facts d h in rw (plain.3, value, lt→ltb d 16 h)

foldl-hex_fixed :
    (k acc n : ℕ) (l : Last)
    → n < 16 ^ k
    → foldl (digit_step 16) (some (acc, l)) (hex_fixed k n) ≡ some (acc * 16 ^ k + n, after k l)
unfolding hex_fixed
foldl-hex_fixed zero acc n l h = ap (λ m. some (m, l)) (omega arith)
foldl-hex_fixed (suc k) acc n l h =
    rw
      (
        foldl-append,
        foldl-hex_fixed k acc (n / 16) l (omega (arith, pow-suc 16 k)),
        digit_step-hex_digit (acc * 16 ^ k + n / 16) (n % 16) (after k l) (omega arith),
      )
      (ap (λ m. some (m, digit))
        (omega (arith, pow-suc 16 k, ap (λ (t : ℕ). acc * t) (pow-suc 16 k))))

strip_front-Plain : (text : Bytes) → All Plain text → strip_front text ≡ text
unfolding strip_front
strip_front-Plain [] h = refl
strip_front-Plain (c ∷ text) h = rw h.0.0

All-reverse : (text : Bytes) → All Plain text → All Plain (reverse text)
All-reverse [] h = tt
All-reverse (c ∷ text) h =
    rw (reverse-append (c ∷ []) text)
      (All-append Plain (reverse text) (c ∷ []) (All-reverse text h.1) (h.0, tt))

strip-Plain : (text : Bytes) → All Plain text → strip text ≡ text
unfolding strip
strip-Plain text h =
    rw (strip_front-Plain text h, strip_front-Plain (reverse text) (All-reverse text h))
      (reverse-reverse text)

unsigned-Plain : (text : Bytes) → All Plain text → unsigned 16 text ≡ magnitude 16 fresh text
unfolding unsigned
unsigned-Plain [] h = refl
unsigned-Plain (c ∷ []) h = refl
unsigned-Plain (c ∷ x ∷ text) h = rw (h.1.0.4, h.1.0.5) (no_prefix (c == b'0'))
  where
    no_prefix :
        (b : Bool)
        → (if b && false then magnitude 16 prefixed text else magnitude 16 fresh (c ∷ x ∷ text))
          ≡ magnitude 16 fresh (c ∷ x ∷ text)
    no_prefix true = refl
    no_prefix false = refl

signed-Plain :
    (c : ℕ) (text : Bytes)
    → All Plain (c ∷ text)
    → signed 16 (c ∷ text) ≡ positive (magnitude 16 fresh (c ∷ text))
unfolding signed
signed-Plain c text h = rw (h.0.1, h.0.2, unsigned-Plain (c ∷ text) h)

-- `int(text, 16)` of a text of plain bytes is its value as digits.
pub int_of-Plain :
    (c : ℕ) (text : Bytes)
    → All Plain (c ∷ text)
    → int_of 16 (c ∷ text) ≡ positive (magnitude 16 fresh (c ∷ text))
unfolding int_of
int_of-Plain c text h = rw (strip-Plain (c ∷ text) h) (signed-Plain c text h)

nonempty :
    (text : Bytes)
    → All Plain text
    → 0 < length text
    → int_of 16 text ≡ positive (magnitude 16 fresh text)
nonempty [] h long = absurd (omega arith)
nonempty (c ∷ text) h long = int_of-Plain c text h

-- A number below 16 ^ (k + 1), printed with k + 1 digits, is read back.
pub int_of-hex_fixed : (k n : ℕ) → n < 16 ^ suc k → int_of 16 (hex_fixed (suc k) n) ≡ ok (pos n)
int_of-hex_fixed k n h =
    rw
      (nonempty (hex_fixed (suc k) n) (hex_fixed-Plain (suc k) n)
        (omega (arith, length-hex_fixed (suc k) n)))
      (unfold magnitude in
        rw (foldl-hex_fixed (suc k) 0 n fresh h) (ap (λ m. ok (pos m)) (omega arith)))
