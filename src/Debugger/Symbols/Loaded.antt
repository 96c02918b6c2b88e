-- ===== src/Debugger/Symbols/Loaded.antt =====
-- debugger.py, load_symbols: it ends on every memory, and reads what create.py wrote.
use armv.Common.{
  ℕ, zero, suc, ◌+◌, ◌^◌, ◌<◌, ◌≤◌, ◌≡◌, ◌≢◌, refl, ap, arith, List, [], ◌∷◌, ◌++◌, append_assoc,
  ok, leb, length, length-append, All, ne→==, false,
}
use armv.Common.Bytes.{
  Bytes, IsU32, IsAscii, be32, from_be32-be32, pack_u32_lem, unpack_u32, ascii_lem,
}
use armv.Common.Text.{Text}
use mathlib.Core.Path.{subst}
use armv.Binding.Words.{max_26_bit}
use armv.Binding.Bytes.{indices}
use armv.Debugger.Symbols.{
  read, bytes_from, read_word, name_loop, load_loop, load_symbols, symbol_bytes, symbols_addr,
}

-- The bytes of a list stand in the memory from `pos` on, below its end.
abbrev pub Holds : (ℕ → ℕ) → ℕ → Bytes → Type 0
Holds mem pos [] = Unit
Holds mem pos (b ∷ bs) = (pos < 2 ^ 26) × (mem pos ≡ b) × Holds mem (pos + 1) bs

-- A symbol of a program: get_symbols of create.py leaves out those with the value 0.
abbrev pub IsSymbol : ℕ × Text → Type 0
IsSymbol (value, name) = (0 < value) × IsU32 value × All IsAscii name × All (λ c. c ≢ 0) name

abbrev pub wire : List (ℕ × Text) → Bytes
wire [] = []
wire ((value, name) ∷ symbols) = be32 value ++ (name ++ (0 ∷ wire symbols))

symbol_bytes-wire :
    (symbols : List (ℕ × Text)) → All IsSymbol symbols → symbol_bytes symbols ≡ ok (wire symbols)
unfolding symbol_bytes
symbol_bytes-wire [] h = refl
symbol_bytes-wire ((value, name) ∷ symbols) h =
    rw (pack_u32_lem value h.0.1, ascii_lem name h.0.2, symbol_bytes-wire symbols h.1) refl

module _ (mem : ℕ → ℕ) where
  read-Holds : (b : ℕ) (bs : Bytes) (pos : ℕ) → Holds mem pos (b ∷ bs) → read mem pos ≡ b
  read-Holds b bs pos k = rw (below) k.1
    where
      below : leb max_26_bit pos ≡ false
      below = ground (arith, k.0)

  name_loop-Holds :
      (name : Text) (rest : Bytes) (pos fuel : ℕ)
      → All (λ c. c ≢ 0) name
      → Holds mem pos (name ++ (0 ∷ rest))
      → length name < fuel
      → name_loop fuel mem pos ≡ ok (name, pos + length name)
  unfolding name_loop
  name_loop-Holds [] rest pos zero h k l = absurd (omega arith)
  name_loop-Holds [] rest pos (suc fuel) h k l =
      rw (read-Holds 0 rest pos k) (ap (λ p. ok ([], p)) (omega arith))
  name_loop-Holds (c ∷ name) rest pos zero h k l = absurd (omega arith)
  name_loop-Holds (c ∷ name) rest pos (suc fuel) h k l =
      rw
        (
          read-Holds c (name ++ (0 ∷ rest)) pos k,
          ne→== c 0 h.0,
          name_loop-Holds name rest (pos + 1) fuel h.1 k.2 (omega arith),
        )
        (ap (λ p. ok (c ∷ name, p)) (omega arith))

  read_word-Holds :
      (value : ℕ) (rest : Bytes) (pos : ℕ)
      → IsU32 value
      → Holds mem pos (be32 value ++ rest)
      → read_word mem pos ≡ ok value
  unfolding read_word bytes_from unpack_u32
  read_word-Holds value rest pos h k =
      rw (four, k.1, k.2.1, k.2.2.1, k.2.2.2.1) (ap ok (from_be32-be32 value h))
    where
      four : indices pos (pos + 4) ≡ 4
      four = omega (arith, k.2.2.2.0)

  Holds-drop :
      (front rest : Bytes) (pos : ℕ)
      → Holds mem pos (front ++ rest)
      → Holds mem (pos + length front) rest
  Holds-drop [] rest pos k = subst (λ p. Holds mem p rest) (omega arith) k
  Holds-drop (b ∷ front) rest pos k =
      subst (λ p. Holds mem p rest) (omega arith) (Holds-drop front rest (pos + 1) k.2)

  Holds-length : (bs : Bytes) (pos : ℕ) → Holds mem pos bs → pos ≤ 2 ^ 26 → pos + length bs ≤ 2 ^ 26
  Holds-length [] pos k l = omega arith
  Holds-length (b ∷ bs) pos k l = omega (arith, Holds-length bs (pos + 1) k.2 (omega (arith, k.0)))

  load_loop-wire :
      (symbols : List (ℕ × Text)) (pos fuel : ℕ)
      → All IsSymbol symbols
      → Holds mem pos (wire symbols ++ be32 0)
      → length (wire symbols) < fuel
      → load_loop fuel mem pos ≡ ok symbols
  unfolding load_loop
  load_loop-wire symbols pos zero h k l = absurd (omega arith)
  load_loop-wire [] pos (suc fuel) h k l = rw (read_word-Holds 0 [] pos (omega arith) k) refl
  load_loop-wire ((value, name) ∷ symbols) pos (suc fuel) h k l =
      let text = Holds-drop (be32 value) (name ++ (0 ∷ (wire symbols ++ be32 0))) pos (grouped k) in
      let after = Holds-drop name (0 ∷ (wire symbols ++ be32 0)) (pos + 4) text in
      rw
        (
          read_word-Holds value (name ++ (0 ∷ (wire symbols ++ be32 0))) pos h.0.1 (grouped k),
          ne→== value 0 (omega (arith, h.0.0)),
          name_loop-Holds name (wire symbols ++ be32 0) (pos + 4) fuel h.0.3 text
              (omega (arith, length-append name (0 ∷ wire symbols))),
          load_loop-wire symbols (pos + 4 + length name + 1) fuel h.1 after.2
              (omega (arith, length-append name (0 ∷ wire symbols))),
        )
        refl
    where
      grouped :
          Holds mem pos ((be32 value ++ (name ++ (0 ∷ wire symbols))) ++ be32 0)
          → Holds mem pos (be32 value ++ (name ++ (0 ∷ (wire symbols ++ be32 0))))
      grouped =
          subst (λ bs. Holds mem pos (be32 value ++ bs))
            (append_assoc name (0 ∷ wire symbols) (be32 0))

-- The symbols of a program are written without an exception, and loaded again from a memory that
-- holds these bytes and a word of 0 behind them, from SYMBOLS_ADDR on.
pub load_symbols-symbol_bytes :
    (mem : ℕ → ℕ) (symbols : List (ℕ × Text))
    → All IsSymbol symbols
    → Holds mem symbols_addr (wire symbols ++ be32 0)
    → (symbol_bytes symbols ≡ ok (wire symbols)) × (load_symbols mem ≡ ok symbols)
unfolding load_symbols
load_symbols-symbol_bytes mem symbols h k = (
  symbol_bytes-wire symbols h,
  load_loop-wire mem symbols symbols_addr (2 ^ 26 + 2) h k (
      omega (
        arith,
        Holds-length mem (wire symbols ++ be32 0) symbols_addr k (omega arith),
        length-append (wire symbols) (be32 0),
      )),
)
