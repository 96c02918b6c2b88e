-- ===== src/Gdb/Packet.antt =====
-- comms/gdb.py: checksum, packets, escapes and byte_swap.
pub mod Escapes
use armv.Common.{
  ℕ, zero, suc, ◌+◌, ◌*◌, ◌/◌, ◌%◌, ◌^◌, Bool, ◌&&◌, ◌||◌, List, [], ◌∷◌, ◌++◌, bit_xor, ◌==◌, ltb,
  ◌-◌, if◌then◌else◌,
}
use armv.Common.Bytes.{Bytes}
use armv.Common.Int.{ℤ, pos, negsuc}
use armv.Gdb.Hex.{hex_pad}

-- BaseHandler.escape, "}"
abbrev pub escape_byte : ℕ
escape_byte = 0x7d

-- for byte in bytes: checksum = (checksum + byte) & 0xFF
unfoldable pub checksum_loop : ℕ → Bytes → ℕ
checksum_loop acc [] = acc
checksum_loop acc (b ∷ bs) = checksum_loop ((acc + b) % 256) bs

unfoldable pub checksum : Bytes → ℕ
unfolding checksum_loop
checksum bytes = checksum_loop 0 bytes

unfoldable pub format_gdb_message : Bytes → Bytes
format_gdb_message bytes = b'$' ∷ (bytes ++ (b'#' ∷ hex_pad 2 (checksum bytes)))

-- n & 0xFFFFFFFF of any integer.
abbrev pub low32 : ℤ → ℕ
low32 (pos n) = n % 2 ^ 32
low32 (negsuc n) = 2 ^ 32 - 1 - n % 2 ^ 32

-- The masks pick the four bytes of the low word; they are moved to disjoint places, where `|` adds.
unfoldable pub byte_swap : ℕ → ℕ
byte_swap n =
    n % 2 ^ 8 * 2 ^ 24
    + n / 2 ^ 8 % 2 ^ 8 * 2 ^ 16
    + n / 2 ^ 16 % 2 ^ 8 * 2 ^ 8
    + n / 2 ^ 24 % 2 ^ 8

-- byte in b"#$}"
unfoldable pub must_unescape : ℕ → Bool
must_unescape b = b == b'#' || (b == b'$' || b == 0x7d)

unfoldable pub unescape : Bytes → Bytes
unfolding must_unescape
unescape [] = []
unescape (b ∷ []) = b ∷ []
unescape (b ∷ c ∷ rest) =
    let unescaped = bit_xor c 0x20 ∷ unescape rest in
    let kept = b ∷ unescape (c ∷ rest) in
    if b == escape_byte && must_unescape (bit_xor c 0x20) then unescaped else kept

-- byte in b"#$}*"
unfoldable pub must_escape : ℕ → Bool
must_escape b = b == b'#' || (b == b'$' || (b == 0x7d || b == b'*'))

unfoldable pub escape : Bytes → Bytes
unfolding must_escape
escape [] = []
escape (b ∷ bs) =
    let rest = escape bs in if must_escape b then escape_byte ∷ bit_xor b 0x20 ∷ rest else b ∷ rest
