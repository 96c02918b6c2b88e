-- ===== src/Tapes/Format.antt =====
-- create.py: pad, to_synapse_format and to_binary_format.
pub mod Aligned
use armv.Common.{
  ℕ, ◌+◌, ◌-◌, ◌*◌, ◌/◌, bit_or, Bool, true, false, ◌&&◌, List, [], ◌∷◌, ◌++◌, Option, none, some,
  Result, ok, raised, struct_error, ◌>>=◌, ltb, if◌then◌else◌, length, take, replicate,
}
use armv.Common.Bytes.{Bytes, pack_u32, ascii}
use armv.Common.Text.{Text}

-- Zeros up to the next multiple of `alignment`.
unfoldable pub pad : Bytes → ℕ → Bytes
pad bytes alignment =
    let target = (length bytes + (alignment - 1)) / alignment * alignment in
    if ltb (length bytes) target then bytes ++ replicate (target - length bytes) 0 else bytes

abbrev pub is_some : {A : Type 0} → Option A → Bool
is_some none = false
is_some (some a) = true

-- struct.pack(">I", n), which refuses None.
abbrev pub pack_word : Option ℕ → Result Bytes
pack_word none = raised struct_error
pack_word (some n) = pack_u32 n

-- The name cut to 15 characters and padded to 16.
unfoldable pub padded_name : Text → Text
padded_name name = let cut = take 15 name in cut ++ replicate (16 - length cut) 0

-- The length of the data, with the top bit of a block that is the last one and has an entry point.
unfoldable pub len_flags : Bytes → Option ℕ → Bool → ℕ
len_flags bytes entry_point final =
    bit_or (length bytes) (if final && is_some entry_point then 0x80000000 else 0)

unfoldable pub sections : Bytes → Bytes → Option ℕ → Bool → Result Bytes
unfolding len_flags
sections bytes symbols entry_point final = do
  flags ← pack_u32 (len_flags bytes entry_point final)
  symbols_len ← pack_u32 (length symbols)
  ok (flags ++ (bytes ++ (symbols_len ++ symbols)))

-- The entry point, the name and the address in front of a block that has an entry point.
unfoldable pub with_entry : Option ℕ → Text → Option ℕ → Bytes → Result Bytes
unfolding padded_name
with_entry none name v_addr out = ok out
with_entry (some entry) name v_addr out = do
  entry_word ← pack_u32 entry
  name_bytes ← ascii (padded_name name)
  addr_word ← pack_word v_addr
  ok (entry_word ++ (name_bytes ++ (addr_word ++ out)))

unfoldable pub to_synapse_format : Bytes → Bytes → Text → Option ℕ → Option ℕ → Bool → Result Bytes
unfolding pad sections with_entry
to_synapse_format bytes symbols name v_addr entry_point final = do
  out ← sections (pad bytes 4) (pad symbols 4) entry_point final
  with_entry entry_point name v_addr out

unfoldable pub to_binary_format : List Bytes → Result Bytes
to_binary_format [] = ok []
to_binary_format (block ∷ blocks) =
    let rest = to_binary_format blocks in
    do len ← pack_u32 (length block); more ← rest; ok (len ++ (block ++ more))
