-- ===== src/Custom/Symbols.antt =====
-- comms/custom.py, class Symbols: the lookup of the symbol at or before an address.
-- `bisect.bisect_left` is the standard library's search, written out.
pub mod Lookup
use armv.Common.{
  ℕ, zero, suc, ◌+◌, ◌-◌, ◌/◌, Bool, true, false, List, [], ◌∷◌, map, Option, none, some, Result,
  ok, raised, index_error, ltb, ◌==◌, if◌then◌else◌, length, get_elem?, get_or,
}
use armv.Common.Text.{Text}
use armv.Common.Int.{ℤ, pos, sub_ℕ}

-- while lo < hi: mid = (lo + hi) // 2; if a[mid] < x: lo = mid + 1; else: hi = mid
unfoldable pub bisect_loop : ℕ → List ℕ → ℕ → ℕ → ℕ → ℕ
bisect_loop zero a x lo hi = lo
bisect_loop (suc fuel) a x lo hi =
    let mid = (lo + hi) / 2 in
    let right = bisect_loop fuel a x (mid + 1) hi in
    let left = bisect_loop fuel a x lo mid in
    if ltb lo hi then (if ltb (get_or a mid 0) x then right else left) else lo

-- The interval shrinks in each round, so one round more than the length is enough.
unfoldable pub bisect_left : List ℕ → ℕ → ℕ
unfolding bisect_loop
bisect_left a x = bisect_loop (suc (length a)) a x 0 (length a)

abbrev pub addrs : List (ℕ × Text) → List ℕ
addrs [] = []
addrs ((addr, name) ∷ rest) = addr ∷ addrs rest

-- symbols_list[-1]
unfoldable pub last : List (ℕ × Text) → Option (ℕ × Text)
last [] = none
last (s ∷ []) = some s
last (s ∷ t ∷ rest) = last (t ∷ rest)

-- The symbol's name, and the address from the symbol on.
abbrev pub Place : Type 0
Place = Option Text × ℤ

unfoldable pub from_symbol : Option (ℕ × Text) → ℕ → Result Place
from_symbol none addr = raised index_error
from_symbol (some (sym_addr, sym_name)) addr = ok (some sym_name, sub_ℕ addr sym_addr)

unfoldable pub at_index : List (ℕ × Text) → ℕ → ℕ → Option (ℕ × Text) → Result Place
unfolding last from_symbol
at_index list index addr none = from_symbol (last list) addr
at_index list index addr (some (sym_addr, sym_name)) =
    if addr == sym_addr
    then ok (some sym_name, pos 0)
    else if ltb 0 index
    then from_symbol (get_elem? list (index - 1)) addr
    else ok (none, pos addr)

unfoldable pub get_symbol_and_offset : List (ℕ × Text) → ℕ → Result Place
get_symbol_and_offset list addr =
    let index = bisect_left (addrs list) addr in at_index list index addr (get_elem? list index)
