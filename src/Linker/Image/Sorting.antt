-- ===== src/Linker/Image/Sorting.antt =====
-- create.py, the debugger and comms/custom.py together: the symbols of a program, from the linker to
-- the lookup of an address.
use armv.Common.{
  ℕ, zero, suc, ◌≤◌, ◌<◌, ◌≡◌, ◌⊎◌, inl, inr, List, [], ◌∷◌, ◌++◌, ok, Bool-cases, All, arith, leb,
  length, get_or,
}
use mathlib.Core.List.{Perm}
use mathlib.Core.List.Perm
use armv.Common.Bytes.{be32}
use armv.Custom.Symbols.{addrs, get_symbol_and_offset}
use armv.Custom.Symbols.Lookup.{IsSorted, Precedes, Finds, get_symbol_and_offset_lem}
use armv.Debugger.Symbols.{symbols_addr, symbol_bytes, load_symbols}
use armv.Debugger.Symbols.Loaded.{IsSymbol, Holds, wire, load_symbols-symbol_bytes}
use armv.Linker.Relocation.{Symbol}
use armv.Linker.Image.{insert, sort_symbols}

-- No address is below `low`, and each is not below the one in front of it.
abbrev Ascends : ℕ → List Symbol → Type 0
Ascends low [] = Unit {0}
Ascends low ((value, name) ∷ symbols) = (low ≤ value) × Ascends value symbols

insert-Ascends :
    (s : Symbol) (low : ℕ) (symbols : List Symbol)
    → low ≤ s.0
    → Ascends low symbols
    → Ascends low (insert s symbols)
unfolding insert
insert-Ascends (value, name) low [] h k = (h, tt)
insert-Ascends (value, name) low ((other, text) ∷ symbols) h k =
    elim (Bool-cases (leb value other)) [
      | inl e ↦ rw e (h, (ground (arith, e), k.1))
      | inr e ↦ rw e (k.0, insert-Ascends (value, name) other symbols (ground (arith, e)) k.1)
    ]

sort_symbols-Ascends : (symbols : List Symbol) → Ascends 0 (sort_symbols symbols)
unfolding sort_symbols
sort_symbols-Ascends [] = tt
sort_symbols-Ascends (s ∷ symbols) =
    insert-Ascends s 0 (sort_symbols symbols) (omega arith) (sort_symbols-Ascends symbols)

Ascends-low :
    (low : ℕ) (symbols : List Symbol) (j : ℕ)
    → Ascends low symbols
    → j < length (addrs symbols)
    → low ≤ get_or (addrs symbols) j 0
Ascends-low low [] j h lt = absurd (omega arith)
Ascends-low low ((value, name) ∷ symbols) zero h lt = h.0
Ascends-low low ((value, name) ∷ symbols) (suc j) h lt =
    omega (arith, h.0, Ascends-low value symbols j h.1 (omega arith))

Ascends-IsSorted :
    (low : ℕ) (symbols : List Symbol) → Ascends low symbols → IsSorted (addrs symbols)
Ascends-IsSorted low [] h i j le lt = absurd (omega arith)
Ascends-IsSorted low ((value, name) ∷ symbols) h zero zero le lt = omega arith
Ascends-IsSorted low ((value, name) ∷ symbols) h zero (suc j) le lt =
    Ascends-low value symbols j h.1 (omega arith)
Ascends-IsSorted low ((value, name) ∷ symbols) h (suc i) zero le lt = absurd (omega arith)
Ascends-IsSorted low ((value, name) ∷ symbols) h (suc i) (suc j) le lt =
    Ascends-IsSorted value symbols h.1 i j (omega arith) (omega arith)

insert-perm : (s : Symbol) (symbols : List Symbol) → Perm (insert s symbols) (s ∷ symbols)
unfolding insert
insert-perm (value, name) [] = Perm.refl ((value, name) ∷ [])
insert-perm (value, name) ((other, text) ∷ symbols) = elim (Bool-cases (leb value other)) [
  | inl e ↦ rw e (Perm.refl ((value, name) ∷ (other, text) ∷ symbols))
  | inr e ↦ rw e (
      Perm.trans (Perm.cons (other, text) (insert-perm (value, name) symbols))
        (Perm.swap (value, name) (other, text) symbols))
]

sort_symbols-perm : (symbols : List Symbol) → Perm (sort_symbols symbols) symbols
unfolding sort_symbols
sort_symbols-perm [] = Perm.refl []
sort_symbols-perm (s ∷ symbols) =
    Perm.trans (insert-perm s (sort_symbols symbols)) (Perm.cons s (sort_symbols-perm symbols))

All-insert :
    (s : Symbol) (symbols : List Symbol)
    → IsSymbol s
    → All IsSymbol symbols
    → All IsSymbol (insert s symbols)
unfolding insert
All-insert (value, name) [] h k = (h, tt)
All-insert (value, name) ((other, text) ∷ symbols) h k = elim (Bool-cases (leb value other)) [
  | inl e ↦ rw e (h, k)
  | inr e ↦ rw e (k.0, All-insert (value, name) symbols h k.1)
]

All-sort_symbols :
    (symbols : List Symbol) → All IsSymbol symbols → All IsSymbol (sort_symbols symbols)
unfolding sort_symbols
All-sort_symbols [] h = tt
All-sort_symbols (s ∷ symbols) h =
    All-insert s (sort_symbols symbols) h.0 (All-sort_symbols symbols h.1)

length-insert : (s : Symbol) (symbols : List Symbol) → 0 < length (addrs (insert s symbols))
unfolding insert
length-insert (value, name) [] = omega arith
length-insert (value, name) ((other, text) ∷ symbols) = elim (Bool-cases (leb value other)) [
  | inl e ↦ rw e (omega arith)
  | inr e ↦ rw e (omega arith)
]

-- The symbols of a program that has one: create.py sorts and writes them, and from a memory that
-- holds these bytes and a word of 0 behind them, from SYMBOLS_ADDR on, the debugger loads a list
-- that holds the same symbols. In it the lookup of any address gives the greatest symbol that is not
-- above it and the distance from it, or no name in front of all symbols.
pub get_symbol_and_offset-sort_symbols :
    (mem : ℕ → ℕ) (s : Symbol) (symbols : List Symbol) (addr : ℕ)
    → All IsSymbol (s ∷ symbols)
    → Holds mem symbols_addr (wire (sort_symbols (s ∷ symbols)) ++ be32 0)
    → (symbol_bytes (sort_symbols (s ∷ symbols)) ≡ ok (wire (sort_symbols (s ∷ symbols))))
      × ((list : List Symbol) × (load_symbols mem ≡ ok list)
          × Perm list (s ∷ symbols)
          × (Precedes list addr (get_symbol_and_offset list addr)
              ⊎ Finds list addr (get_symbol_and_offset list addr)))
get_symbol_and_offset-sort_symbols mem s symbols addr h held =
    let sorted = sort_symbols (s ∷ symbols) in
    let (written, loaded) =
      load_symbols-symbol_bytes mem sorted (All-sort_symbols (s ∷ symbols) h) held in
    (
      written,
      (
        sorted,
        loaded,
        sort_symbols-perm (s ∷ symbols),
        get_symbol_and_offset_lem sorted addr
            (Ascends-IsSorted 0 sorted (sort_symbols-Ascends (s ∷ symbols)))
            (unfold sort_symbols in length-insert s (sort_symbols symbols)),
      ),
    )
