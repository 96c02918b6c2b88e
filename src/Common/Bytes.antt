-- ===== src/Common/Bytes.antt =====
-- Bytes and text as Python's `struct`, `bytes` and `str` handle them. A byte string and a text are
-- lists of numbers.
use armv.Common.Tests.{ltb, if◌then◌else◌, lt→ltb}
use armv.Common.Lists.{length, All}
use armv.Common.Exceptions.{Result, ok, raised, struct_error, unicode_error, ◌>>=◌}
use Prim.Native.Nat.{ℕ, zero, suc, ◌+◌, ◌*◌, ◌/◌, ◌%◌, ◌^◌, ◌<◌}
use mathlib.Core.Path.{◌≡◌, refl}
use mathlib.Core.List.{List, [], ◌∷◌, ◌++◌}
use native.Mathlib.Omega.{arith}

abbrev pub Bytes : Type 0
Bytes = List ℕ

abbrev pub IsByte : ℕ → Type 0
IsByte b = b < 256

abbrev pub IsU32 : ℕ → Type 0
IsU32 n = n < 2 ^ 32

-- The four bytes of `n`, most significant first.
abbrev pub be32 : ℕ → Bytes
be32 n = (n / 2 ^ 24 % 256) ∷ (n / 2 ^ 16 % 256) ∷ (n / 2 ^ 8 % 256) ∷ (n % 256) ∷ []

abbrev pub from_be32 : ℕ → ℕ → ℕ → ℕ → ℕ
from_be32 a b c d = a * 2 ^ 24 + b * 2 ^ 16 + c * 2 ^ 8 + d

-- struct.pack(">I", n), for n ≥ 0
unfoldable pub pack_u32 : ℕ → Result Bytes
pack_u32 n = if ltb n (2 ^ 32) then ok (be32 n) else raised struct_error

-- struct.unpack(">I", bytes)[0]
unfoldable pub unpack_u32 : Bytes → Result ℕ
unpack_u32 (a ∷ b ∷ c ∷ d ∷ []) = ok (from_be32 a b c d)
unpack_u32 _ = raised struct_error

pub pack_u32_lem : (n : ℕ) → IsU32 n → pack_u32 n ≡ ok (be32 n)
unfolding pack_u32
pack_u32_lem n h = rw (lt→ltb n (2 ^ 32) h)

pub from_be32-be32 :
    (n : ℕ)
    → IsU32 n
    → from_be32 (n / 2 ^ 24 % 256) (n / 2 ^ 16 % 256) (n / 2 ^ 8 % 256) (n % 256) ≡ n
from_be32-be32 n h = omega arith

pub unpack_u32-be32 : (n : ℕ) → IsU32 n → unpack_u32 (be32 n) ≡ ok n
unfolding unpack_u32
unpack_u32-be32 n h = rw (from_be32-be32 n h)

abbrev pub IsAscii : ℕ → Type 0
IsAscii c = c < 128

-- s.encode("ascii") and b.decode("ascii"): both keep the numbers and refuse any above 127.
unfoldable pub ascii : List ℕ → Result (List ℕ)
ascii [] = ok []
ascii (c ∷ cs) =
    let rest = ascii cs in if ltb c 128 then (rest >>= λ r. ok (c ∷ r)) else raised unicode_error

pub ascii_lem : (cs : List ℕ) → All IsAscii cs → ascii cs ≡ ok cs
unfolding ascii
ascii_lem [] h = refl
ascii_lem (c ∷ cs) h = rw (lt→ltb c 128 h.0, ascii_lem cs h.1)

-- struct.pack(">II...", ...): one word for each number.
unfoldable pub pack_u32s : List ℕ → Result Bytes
unfolding pack_u32
pack_u32s [] = ok []
pack_u32s (n ∷ ns) =
    let rest = pack_u32s ns in do word ← pack_u32 n; words ← rest; ok (word ++ words)

-- struct.unpack(">II...", bytes), for `k` words: the length must fit exactly.
unfoldable pub unpack_u32s : ℕ → Bytes → Result (List ℕ)
unpack_u32s zero [] = ok []
unpack_u32s (suc k) (a ∷ b ∷ c ∷ d ∷ bytes) =
    let rest = unpack_u32s k bytes in rest >>= λ ns. ok (from_be32 a b c d ∷ ns)
unpack_u32s _ _ = raised struct_error

abbrev pub be32s : List ℕ → Bytes
be32s [] = []
be32s (n ∷ ns) = be32 n ++ be32s ns

pub pack_u32s_lem : (ns : List ℕ) → All IsU32 ns → pack_u32s ns ≡ ok (be32s ns)
unfolding pack_u32s
pack_u32s_lem [] h = refl
pack_u32s_lem (n ∷ ns) h = rw (lt→ltb n (2 ^ 32) h.0, pack_u32s_lem ns h.1)

pub unpack_u32s-be32s : (ns : List ℕ) → All IsU32 ns → unpack_u32s (length ns) (be32s ns) ≡ ok ns
unfolding unpack_u32s
unpack_u32s-be32s [] h = refl
unpack_u32s-be32s (n ∷ ns) h = rw (unpack_u32s-be32s ns h.1, from_be32-be32 n h.0)

pub length-be32s : (ns : List ℕ) → length (be32s ns) ≡ 4 * length ns
length-be32s [] = refl
length-be32s (n ∷ ns) = omega (arith, length-be32s ns)
