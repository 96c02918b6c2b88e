-- ===== src/Gdb/Packet/Escapes.antt =====
-- comms/gdb.py: what unescape makes of escaped data, and that escaped data can stand in a packet.
use armv.Common.{
  ℕ, ◌≡◌, ◌≢◌, refl, ap, true, false, [], ◌∷◌, ◌++◌, bit_xor, ◌==◌, if◌then◌else◌, arith, All,
  Bool-cases, ◌⊎◌, inl, inr, ne→==,
}
use armv.Common.Bytes.{Bytes}
use armv.Gdb.Packet.{escape_byte, unescape, must_escape, escape}

unescape_plain : (b : ℕ) (rest : Bytes) → b ≢ escape_byte → unescape (b ∷ rest) ≡ b ∷ unescape rest
unfolding unescape
unescape_plain b [] h = refl
unescape_plain b (c ∷ rest) h = rw (ne→== b escape_byte h)

-- What `escape` writes for one byte, and what `unescape` reads of it.
abbrev pub reread : ℕ → Bytes
reread b = if b == b'*' then escape_byte ∷ b'\n' ∷ [] else b ∷ []

abbrev pub reread_all : Bytes → Bytes
reread_all [] = []
reread_all (b ∷ bs) = reread b ++ reread_all bs

special : (b : ℕ) → must_escape b ≡ true → (b ≡ b'#') ⊎ ((b ≡ b'$') ⊎ ((b ≡ 0x7d) ⊎ (b ≡ b'*')))
unfolding must_escape
special b h = ground arith

ordinary : (b : ℕ) → must_escape b ≡ false → (b ≢ escape_byte) × ((b == b'*') ≡ false)
unfolding must_escape
ordinary b h = ground arith

unescape-escape_step :
    (b : ℕ) (rest : Bytes)
    → unescape (if must_escape b then escape_byte ∷ bit_xor b 0x20 ∷ rest else b ∷ rest)
      ≡ reread b ++ unescape rest
unescape-escape_step b rest = elim (Bool-cases (must_escape b)) [
  | inr e ↦ let (ne, star) = ordinary b e in rw (e, star) (unescape_plain b rest ne)
  | inl e ↦ rw e (by_byte (special b e))
]
  where
    by_byte :
        (b ≡ b'#') ⊎ ((b ≡ b'$') ⊎ ((b ≡ 0x7d) ⊎ (b ≡ b'*')))
        → unescape (escape_byte ∷ bit_xor b 0x20 ∷ rest) ≡ reread b ++ unescape rest
    by_byte (inl e) = rw e (unfold unescape in refl)
    by_byte (inr (inl e)) = rw e (unfold unescape in refl)
    by_byte (inr (inr (inl e))) = rw e (unfold unescape in refl)
    by_byte (inr (inr (inr e))) =
        rw e
          (unfold unescape in ap (λ r. escape_byte ∷ r) (unescape_plain b'\n' rest (omega arith)))

escape_cons :
    (b : ℕ) (bs : Bytes)
    → escape (b ∷ bs)
      ≡ (if must_escape b then escape_byte ∷ bit_xor b 0x20 ∷ escape bs else b ∷ escape bs)
unfolding escape
escape_cons b bs = refl

-- `unescape` undoes `escape` on every byte but `*`, which stays as the two bytes that stand for it.
pub unescape-escape : (data_bytes : Bytes) → unescape (escape data_bytes) ≡ reread_all data_bytes
unescape-escape [] = unfold escape unescape in refl
unescape-escape (b ∷ bs) =
    rw (escape_cons b bs, unescape-escape_step b (escape bs))
      (ap (λ r. reread b ++ r) (unescape-escape bs))

-- A payload that holds no raw `#` or `$` and does not end in the escape byte: a packet of it ends at
-- its own `#`.
abbrev pub IsQuiet : ℕ → Type 0
IsQuiet b = (b ≢ b'#') × (b ≢ b'$')

-- The last byte of a text behind `prev`.
abbrev pub last_of : ℕ → Bytes → ℕ
last_of prev [] = prev
last_of prev (b ∷ bs) = last_of b bs

abbrev pub IsPayload : Bytes → Type 0
IsPayload p = All IsQuiet p × (last_of b'$' p ≢ escape_byte)

step-IsQuiet :
    (b : ℕ) (rest : Bytes)
    → All IsQuiet rest
    → All IsQuiet (if must_escape b then escape_byte ∷ bit_xor b 0x20 ∷ rest else b ∷ rest)
step-IsQuiet b rest h = elim (Bool-cases (must_escape b)) [
  | inl e ↦ rw e ((λ p. quiet_escape p, λ p. other_escape p), by_byte (special b e))
  | inr e ↦ rw e (unfold must_escape in (ground arith, h))
]
  where
    quiet_escape : escape_byte ≡ b'#' → ⊥
    quiet_escape p = omega arith

    other_escape : escape_byte ≡ b'$' → ⊥
    other_escape p = omega arith

    by_byte :
        (b ≡ b'#') ⊎ ((b ≡ b'$') ⊎ ((b ≡ 0x7d) ⊎ (b ≡ b'*'))) → All IsQuiet (bit_xor b 0x20 ∷ rest)
    by_byte (inl e) = rw e (omega arith, h)
    by_byte (inr (inl e)) = rw e (omega arith, h)
    by_byte (inr (inr (inl e))) = rw e (omega arith, h)
    by_byte (inr (inr (inr e))) = rw e (omega arith, h)

escape-IsQuiet : (data_bytes : Bytes) → All IsQuiet (escape data_bytes)
escape-IsQuiet [] = unfold escape in tt
escape-IsQuiet (b ∷ bs) = rw (escape_cons b bs) (step-IsQuiet b (escape bs) (escape-IsQuiet bs))

escape-last :
    (prev : ℕ) (data_bytes : Bytes)
    → prev ≢ escape_byte
    → last_of prev (escape data_bytes) ≢ escape_byte
escape-last prev [] h = unfold escape in h
escape-last prev (b ∷ bs) h =
    rw (escape_cons b bs)
      (by_case (Bool-cases (must_escape b)) (escape-last (bit_xor b 0x20) bs) (escape-last b bs))
  where
    by_byte : (b ≡ b'#') ⊎ ((b ≡ b'$') ⊎ ((b ≡ 0x7d) ⊎ (b ≡ b'*'))) → bit_xor b 0x20 ≢ escape_byte
    by_byte (inl e) = rw e (omega arith)
    by_byte (inr (inl e)) = rw e (omega arith)
    by_byte (inr (inr (inl e))) = rw e (omega arith)
    by_byte (inr (inr (inr e))) = rw e (omega arith)

    by_case :
        (must_escape b ≡ true) ⊎ (must_escape b ≡ false)
        → (bit_xor b 0x20 ≢ escape_byte → last_of (bit_xor b 0x20) (escape bs) ≢ escape_byte)
        → (b ≢ escape_byte → last_of b (escape bs) ≢ escape_byte)
        → last_of prev
            (if must_escape b then escape_byte ∷ bit_xor b 0x20 ∷ escape bs else b ∷ escape bs)
          ≢ escape_byte
    by_case (inl e) i j = rw e (i (by_byte (special b e)))
    by_case (inr e) i j = rw e (j (ordinary b e).0)

-- Escaped data can stand in a packet as it is.
pub escape-IsPayload : (data_bytes : Bytes) → IsPayload (escape data_bytes)
escape-IsPayload data_bytes = (escape-IsQuiet data_bytes, escape-last b'$' data_bytes (omega arith))
