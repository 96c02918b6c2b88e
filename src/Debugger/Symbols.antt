-- ===== src/Debugger/Symbols.antt =====
-- debugger.py, load_symbols: the symbols that a program was loaded with, read from the machine's
-- memory, and the bytes in which create.py's create_binary writes them. `mem` gives the byte at an
-- address below 2 ^ 26; reads leave the memory as it is, since it is no device's.
pub mod Loaded
pub mod Ends
use armv.Common.{
  ℕ, zero, suc, ◌+◌, ◌^◌, List, [], ◌∷◌, ◌++◌, Result, ok, raised, no_fuel, leb, ◌==◌,
  if◌then◌else◌, ◌>>=◌,
}
use armv.Common.Bytes.{Bytes, pack_u32, unpack_u32, ascii}
use armv.Common.Text.{Text}
use armv.Binding.Words.{max_26_bit}
use armv.Binding.Bytes.{indices}

abbrev pub symbols_addr : ℕ
symbols_addr = 0x30000

-- mem[pos], which is 0 behind the memory
abbrev pub read : (ℕ → ℕ) → ℕ → ℕ
read mem pos = if leb max_26_bit pos then 0 else mem pos

unfoldable pub bytes_from : (ℕ → ℕ) → ℕ → ℕ → Bytes
bytes_from mem zero pos = []
bytes_from mem (suc n) pos = mem pos ∷ bytes_from mem n (pos + 1)

-- struct.unpack(">I", mem[pos : pos + 4])[0]
unfoldable pub read_word : (ℕ → ℕ) → ℕ → Result ℕ
unfolding bytes_from unpack_u32
read_word mem pos = unpack_u32 (bytes_from mem (indices pos (pos + 4)) pos)

-- The loop over the name: the name, and the place of the 0 behind it.
unfoldable pub name_loop : ℕ → (ℕ → ℕ) → ℕ → Result (Text × ℕ)
name_loop zero mem pos = raised no_fuel
name_loop (suc fuel) mem pos =
    let rest = name_loop fuel mem (pos + 1) in
    if read mem pos == 0 then ok ([], pos) else (rest >>= λ r. ok (read mem pos ∷ r.0, r.1))

unfoldable pub load_loop : ℕ → (ℕ → ℕ) → ℕ → Result (List (ℕ × Text))
unfolding read_word name_loop
load_loop zero mem pos = raised no_fuel
load_loop (suc fuel) mem pos = read_word mem pos >>= λ value.
    if value == 0
    then ok []
    else (name_loop fuel mem (pos + 4) >>= λ name.
        load_loop fuel mem (name.1 + 1) >>= λ rest. ok ((value, name.0) ∷ rest))

-- A symbol takes five bytes at least, and a name a byte in each round.
unfoldable pub load_symbols : (ℕ → ℕ) → Result (List (ℕ × Text))
load_symbols mem = load_loop (2 ^ 26 + 2) mem symbols_addr

-- b"".join(struct.pack(">I", value) + name.encode("ascii") + b"\x00" ...)
unfoldable pub symbol_bytes : List (ℕ × Text) → Result Bytes
unfolding pack_u32 ascii
symbol_bytes [] = ok []
symbol_bytes ((value, name) ∷ symbols) =
    let rest = symbol_bytes symbols in
    do word ← pack_u32 value; text ← ascii name; bytes ← rest; ok (word ++ (text ++ (0 ∷ bytes)))
