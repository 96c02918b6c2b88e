-- ===== src/Linker/Relocation/Words.antt =====
-- create.py: the words of a file, read and written in place.
use armv.Common.{
  ℕ, zero, suc, ◌+◌, ◌*◌, ◌/◌, ◌%◌, ◌^◌, ◌≤◌, ◌<◌, ◌≡◌, ◌⊎◌, inl, inr, refl, ap, [], ◌∷◌, ◌++◌, ok,
  arith, lt→ltb, length, take, drop, slice, slice_add, get_or,
}
use armv.Common.Bytes.{Bytes}
use armv.Linker.Relocation.{le32, pack_le, unpack_le, put_word}

-- The word at an offset, least significant byte first.
abbrev pub stored_word : Bytes → ℕ → ℕ
stored_word bytes o =
    get_or bytes o 0
    + 2 ^ 8 * get_or bytes (o + 1) 0
    + 2 ^ 16 * get_or bytes (o + 2) 0
    + 2 ^ 24 * get_or bytes (o + 3) 0

four_bytes :
    (o : ℕ) (bytes : Bytes)
    → o + 4 ≤ length bytes
    → take 4 (drop o bytes)
      ≡ get_or bytes o 0
        ∷ get_or bytes (o + 1) 0
        ∷ get_or bytes (o + 2) 0
        ∷ get_or bytes (o + 3) 0
        ∷ []
four_bytes zero [] h = absurd (omega arith)
four_bytes zero (a ∷ []) h = absurd (omega arith)
four_bytes zero (a ∷ b ∷ []) h = absurd (omega arith)
four_bytes zero (a ∷ b ∷ c ∷ []) h = absurd (omega arith)
four_bytes zero (a ∷ b ∷ c ∷ d ∷ rest) h = refl
four_bytes (suc o) [] h = absurd (omega arith)
four_bytes (suc o) (a ∷ bytes) h =
    let e : (k : ℕ) → suc o + k ≡ suc (o + k) = λ k. omega arith in
    rw (e 1, e 2, e 3) (four_bytes o bytes (omega arith))

pub unpack_le-slice :
    (o : ℕ) (bytes : Bytes)
    → o + 4 ≤ length bytes
    → unpack_le (slice o (o + 4) bytes) ≡ ok (stored_word bytes o)
unfolding unpack_le
unpack_le-slice o bytes h = rw (slice_add o 4 bytes, four_bytes o bytes h) refl

pub unpack_le-le32 : (n : ℕ) → n < 2 ^ 32 → unpack_le (le32 n) ≡ ok n
unfolding unpack_le
unpack_le-le32 n h = ap ok (omega arith)

pub pack_le_lem : (n : ℕ) → n < 2 ^ 32 → pack_le n ≡ ok (le32 n)
unfolding pack_le
pack_le_lem n h = rw (lt→ltb n (2 ^ 32) h)

pub length-put_word :
    (o n : ℕ) (bytes : Bytes)
    → o + 4 ≤ length bytes
    → length (put_word o (le32 n) bytes) ≡ length bytes
unfolding put_word
length-put_word zero n bytes h = four_more bytes h
  where
    four_more :
        (bytes : Bytes)
        → 0 + 4 ≤ length bytes
        → suc (suc (suc (suc (length (drop (0 + 4) bytes))))) ≡ length bytes
    four_more [] h = absurd (omega arith)
    four_more (a ∷ []) h = absurd (omega arith)
    four_more (a ∷ b ∷ []) h = absurd (omega arith)
    four_more (a ∷ b ∷ c ∷ []) h = absurd (omega arith)
    four_more (a ∷ b ∷ c ∷ d ∷ rest) h = omega arith
length-put_word (suc o) n [] h = absurd (omega arith)
length-put_word (suc o) n (a ∷ bytes) h =
    let e : suc o + 4 ≡ suc (o + 4) = omega arith in
    rw e (ap suc (length-put_word o n bytes (omega arith)))

-- A byte in front of the word or behind it is as before.
pub get_or-put_word :
    (o n x : ℕ) (bytes : Bytes)
    → o + 4 ≤ length bytes
    → (x < o) ⊎ (o + 4 ≤ x)
    → get_or (put_word o (le32 n) bytes) x 0 ≡ get_or bytes x 0
unfolding put_word
get_or-put_word zero n x bytes h (inl lt) = absurd (omega arith)
get_or-put_word zero n x bytes h (inr le) = behind bytes x h le
  where
    behind :
        (bytes : Bytes) (x : ℕ)
        → 0 + 4 ≤ length bytes
        → 0 + 4 ≤ x
        → get_or (le32 n ++ drop (0 + 4) bytes) x 0 ≡ get_or bytes x 0
    behind (a ∷ b ∷ c ∷ d ∷ rest) (suc (suc (suc (suc x)))) h le = refl
    behind _ zero h le = absurd (omega arith)
    behind _ (suc zero) h le = absurd (omega arith)
    behind _ (suc (suc zero)) h le = absurd (omega arith)
    behind _ (suc (suc (suc zero))) h le = absurd (omega arith)
    behind [] _ h le = absurd (omega arith)
    behind (a ∷ []) _ h le = absurd (omega arith)
    behind (a ∷ b ∷ []) _ h le = absurd (omega arith)
    behind (a ∷ b ∷ c ∷ []) _ h le = absurd (omega arith)
get_or-put_word (suc o) n x [] h apart = absurd (omega arith)
get_or-put_word (suc o) n zero (a ∷ bytes) h apart = refl
get_or-put_word (suc o) n (suc x) (a ∷ bytes) h apart =
    let e : suc o + 4 ≡ suc (o + 4) = omega arith in
    rw e (get_or-put_word o n x bytes (omega arith) (nearer apart))
  where
    nearer : (suc x < suc o) ⊎ (suc o + 4 ≤ suc x) → (x < o) ⊎ (o + 4 ≤ x)
    nearer (inl lt) = inl (omega arith)
    nearer (inr le) = inr (omega arith)

put_word_bytes :
    (o n : ℕ) (bytes : Bytes)
    → o + 4 ≤ length bytes
    → (get_or (put_word o (le32 n) bytes) o 0 ≡ n % 256)
      × (get_or (put_word o (le32 n) bytes) (o + 1) 0 ≡ n / 2 ^ 8 % 256)
      × (get_or (put_word o (le32 n) bytes) (o + 2) 0 ≡ n / 2 ^ 16 % 256)
      × (get_or (put_word o (le32 n) bytes) (o + 3) 0 ≡ n / 2 ^ 24 % 256)
unfolding put_word
put_word_bytes zero n bytes h = (refl, refl, refl, refl)
put_word_bytes (suc o) n [] h = absurd (omega arith)
put_word_bytes (suc o) n (a ∷ bytes) h =
    let e : (k : ℕ) → suc o + k ≡ suc (o + k) = λ k. omega arith in
    rw (e 1, e 2, e 3, e 4) (put_word_bytes o n bytes (omega arith))

-- The word is read again, and a word that does not overlap it is as before.
pub stored_word-put_word_self :
    (o n : ℕ) (bytes : Bytes)
    → o + 4 ≤ length bytes
    → n < 2 ^ 32
    → stored_word (put_word o (le32 n) bytes) o ≡ n
stored_word-put_word_self o n bytes h fits = omega (arith, put_word_bytes o n bytes h)

abbrev pub IsApart : ℕ → ℕ → Type 0
IsApart o p = (o + 4 ≤ p) ⊎ (p + 4 ≤ o)

pub stored_word-put_word :
    (o p n : ℕ) (bytes : Bytes)
    → o + 4 ≤ length bytes
    → IsApart o p
    → stored_word (put_word o (le32 n) bytes) p ≡ stored_word bytes p
stored_word-put_word o p n bytes h apart =
    let s0 = same p (omega arith) (omega arith) in
    let s1 = same (p + 1) (omega arith) (omega arith) in
    let s2 = same (p + 2) (omega arith) (omega arith) in
    let s3 = same (p + 3) (omega arith) (omega arith) in omega (arith, s0, s1, s2, s3)
  where
    outside : (x : ℕ) → p ≤ x → x < p + 4 → IsApart o p → (x < o) ⊎ (o + 4 ≤ x)
    outside x from to (inl before) = inr (omega arith)
    outside x from to (inr after) = inl (omega arith)

    same : (x : ℕ) → p ≤ x → x < p + 4 → get_or (put_word o (le32 n) bytes) x 0 ≡ get_or bytes x 0
    same x from to = get_or-put_word o n x bytes h (outside x from to apart)
