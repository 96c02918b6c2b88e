-- ===== src/Tapes/Blocks/RoundTrip.antt =====
-- tapes.py: reading back what create.py's to_binary_format writes.
use armv.Common.{
  ℕ, zero, suc, ◌+◌, ◌-◌, ◌%◌, ◌≤◌, ◌≡◌, ◌≢◌, ◌⊎◌, refl, Bool, List, [], ◌∷◌, ◌++◌, Option, Result,
  ok, raised, type_error, ◌>>=◌, arith, All, Bool-cases, inl, inr, ◌==◌, ne→==, length,
  length-append, drop, take-append_eq, drop-append_eq,
}
use armv.Common.Bytes.{Bytes, IsU32, be32, pack_u32_lem, unpack_u32-be32}
use armv.Common.Text.{Text}
use armv.Tapes.Format.{to_synapse_format, to_binary_format}
use armv.Tapes.Format.Aligned.{IsAligned, to_synapse_format-IsAligned}
use armv.Tapes.Blocks.{pad_block, cut_block, blocks_loop, data_blocks, pad_blocks, from_binary}

abbrev pub IsSized : Bytes → Type 0
IsSized block = IsU32 (length block)

abbrev written : List Bytes → Bytes
written [] = []
written (b ∷ bs) = be32 (length b) ++ (b ++ written bs)

to_binary_format-written :
    (blocks : List Bytes) → All IsSized blocks → to_binary_format blocks ≡ ok (written blocks)
unfolding to_binary_format
to_binary_format-written [] h = refl
to_binary_format-written (b ∷ bs) h =
    rw (pack_u32_lem (length b) h.0, to_binary_format-written bs h.1)

drop-block : (b rest : Bytes) (n : ℕ) → drop (length b + 4) (be32 n ++ (b ++ rest)) ≡ rest
drop-block b rest n =
    drop-append_eq (length b + 4) (be32 n ++ b) rest (omega (arith, length-append (be32 n) b))

-- One round on a written block takes the block and leaves the rest to the later rounds.
cut_block-written :
    (later : Bytes → Result (List Bytes)) (b : Bytes) (bs : List Bytes)
    → IsSized b
    → later (written bs) ≡ ok bs
    → cut_block later (written (b ∷ bs)) ≡ ok (b ∷ bs)
cut_block-written later b bs h e = rw (
  unpack_u32-be32 (length b) h,
  drop-block b (written bs) (length b),
  e,
  take-append_eq (length b) b (written bs) refl,
)

blocks_loop-written :
    (blocks : List Bytes) (fuel : ℕ)
    → All IsSized blocks
    → length (written blocks) ≤ fuel
    → blocks_loop fuel (written blocks) ≡ ok blocks
unfolding blocks_loop
blocks_loop-written [] fuel h k = refl
blocks_loop-written (b ∷ bs) zero h k = absurd (omega arith)
blocks_loop-written (b ∷ bs) (suc fuel) h k =
    cut_block-written (blocks_loop fuel) b bs h.0
      (blocks_loop-written bs fuel h.1 (omega (arith, length-append b (written bs))))

-- Reading what was written leaves the blocks to `pad`.
reread :
    (blocks : List Bytes)
    → All IsSized blocks
    → (to_binary_format blocks >>= from_binary) ≡ pad_blocks blocks
unfolding from_binary data_blocks
reread blocks h = rw (
  to_binary_format-written blocks h,
  blocks_loop-written blocks (length (written blocks)) h (omega arith),
)

pad_block-IsAligned : (b : Bytes) → IsAligned b → pad_block b 4 ≡ ok b
unfolding pad_block
pad_block-IsAligned b h = rw h

pad_block_unaligned : (b : Bytes) → length b % 4 ≢ 0 → pad_block b 4 ≡ raised type_error
unfolding pad_block
pad_block_unaligned b h = rw (ne→== (4 - length b % 4) 4 (omega arith))

pad_blocks-IsAligned : (blocks : List Bytes) → All IsAligned blocks → pad_blocks blocks ≡ ok blocks
unfolding pad_blocks
pad_blocks-IsAligned [] h = refl
pad_blocks-IsAligned (b ∷ bs) h = rw (pad_block-IsAligned b h.0, pad_blocks-IsAligned bs h.1)

pad_block-cases : (b : Bytes) → (pad_block b 4 ≡ ok b) ⊎ (pad_block b 4 ≡ raised type_error)
unfolding pad_block
pad_block-cases b = elim (Bool-cases ((4 - length b % 4) == 4)) [
  | inl e ↦ inl (rw e)
  | inr e ↦ inr (rw e)
]

pad_blocks_unaligned :
    (front behind : List Bytes) (block : Bytes)
    → length block % 4 ≢ 0
    → pad_blocks (front ++ (block ∷ behind)) ≡ raised type_error
unfolding pad_blocks
pad_blocks_unaligned [] behind block h = rw (pad_block_unaligned block h)
pad_blocks_unaligned (b ∷ front) behind block h = elim (pad_block-cases b) [
  | inl e ↦ rw (e, pad_blocks_unaligned front behind block h)
  | inr e ↦ rw e
]

-- A block that to_synapse_format writes for some arguments.
abbrev pub IsSynapse : Bytes → Type 0
IsSynapse block =
    (bs : Bytes) × (symbols : Bytes) × (name : Text) × (v_addr : Option ℕ) × (entry : Option ℕ)
    × (final : Bool) × (to_synapse_format bs symbols name v_addr entry final ≡ ok block)

All-IsAligned : (blocks : List Bytes) → All IsSynapse blocks → All IsAligned blocks
All-IsAligned [] h = tt
All-IsAligned (b ∷ bs) ((data_bytes, symbols, name, v_addr, entry, final, e), h) =
    (to_synapse_format-IsAligned data_bytes symbols name v_addr entry final b e, All-IsAligned bs h)

-- A tape of blocks that to_synapse_format wrote, each with a length below 2 ^ 32, loads as those
-- blocks.
pub from_binary-to_binary_format :
    (blocks : List Bytes)
    → All IsSized blocks
    → All IsSynapse blocks
    → (to_binary_format blocks >>= from_binary) ≡ ok blocks
from_binary-to_binary_format blocks h k =
    rw (reread blocks h) (pad_blocks-IsAligned blocks (All-IsAligned blocks k))

-- A tape that holds a block whose length is no multiple of four, among blocks with lengths below
-- 2 ^ 32, does not load: TypeError is raised.
pub from_binary_unaligned :
    (front behind : List Bytes) (block : Bytes)
    → All IsSized (front ++ (block ∷ behind))
    → length block % 4 ≢ 0
    → (to_binary_format (front ++ (block ∷ behind)) >>= from_binary) ≡ raised type_error
from_binary_unaligned front behind block h k =
    rw (reread (front ++ (block ∷ behind)) h) (pad_blocks_unaligned front behind block k)
