-- ===== src/Tapes/Blocks.antt =====
-- tapes.py: ProgramTape.from_binary, which cuts a tape's data into blocks, and `pad`.
pub mod RoundTrip
use armv.Common.{
  ℕ, zero, suc, ◌+◌, ◌-◌, ◌%◌, List, [], ◌∷◌, Result, ok, raised, type_error, no_fuel, ◌>>=◌, ◌==◌,
  if◌then◌else◌, length, take, drop,
}
use armv.Common.Bytes.{Bytes, unpack_u32}

-- A length that is no multiple of `align` fails: `data.extend` is given a list that holds a byte
-- string.
unfoldable pub pad_block : Bytes → ℕ → Result Bytes
pad_block bytes align =
    let extra = align - length bytes % align in
    if extra == align then ok bytes else raised type_error

-- One round of the loop on what is left from `pos` on, with the later rounds as an argument.
-- Slices end at the end of the data, so that the last block may be short.
abbrev pub cut_block : (Bytes → Result (List Bytes)) → Bytes → Result (List Bytes)
cut_block later rest =
    if length (take 4 rest) == 4
    then (unpack_u32 (take 4 rest) >>= λ size.
        later (drop (size + 4) rest) >>= λ blocks. ok (take size (drop 4 rest) ∷ blocks))
    else ok []

-- Each round takes four bytes at least, so the length of the data is enough fuel.
unfoldable pub blocks_loop : ℕ → Bytes → Result (List Bytes)
unfolding unpack_u32
blocks_loop fuel [] = ok []
blocks_loop zero (c ∷ rest) = raised no_fuel
blocks_loop (suc fuel) (c ∷ rest) = cut_block (blocks_loop fuel) (c ∷ rest)

unfoldable pub data_blocks : Bytes → Result (List Bytes)
unfolding blocks_loop
data_blocks bytes = blocks_loop (length bytes) bytes

-- `block = pad(block, 4)` of build_samples, in its order.
unfoldable pub pad_blocks : List Bytes → Result (List Bytes)
unfolding pad_block
pad_blocks [] = ok []
pad_blocks (block ∷ blocks) =
    let rest = pad_blocks blocks in do padded ← pad_block block 4; more ← rest; ok (padded ∷ more)

-- from_binary up to the samples: the blocks that the tape plays, or the exception that `pad` raises.
unfoldable pub from_binary : Bytes → Result (List Bytes)
unfolding data_blocks pad_blocks
from_binary bytes = data_blocks bytes >>= pad_blocks
