-- ===== src/Linker/Names.antt =====
-- create.py: decode_immediate and get_symbols, the names for the debugger. What the ELF library reads
-- of a file, its symbols, its relocations and the words of its PLT, are arguments.
pub mod Immediates
use armv.Common.{
  ℕ, zero, suc, ◌+◌, ◌-◌, ◌*◌, ◌/◌, ◌%◌, ◌^◌, bit_and, bit_or, Bool, true, false, not, ◌&&◌, ◌||◌,
  List, [], ◌∷◌, ◌++◌, Option, none, some, Result, ok, raised, index_error, exception, ◌>>=◌, ltb,
  leb, ◌==◌, if◌then◌else◌, length, get_elem?,
}
use armv.Common.Text.{Text, codes}
use armv.Linker.Relocation.{Symbol}

unfoldable pub decode_immediate : ℕ → ℕ
decode_immediate n =
    let imm = n % 256 in let rot = n / 2 ^ 8 % 16 in bit_or (imm / 2 ^ rot) (imm * 2 ^ (32 - rot))

-- An entry of a symbol table: the symbol, and whether its section is absolute. `is_blank` says that
-- nothing is left of the name when it is stripped.
pub record Entry : Type 0 where
  pub symbol : Symbol
  pub is_abs : Bool
  pub is_blank : Bool

abbrev pub starts_dollar : Text → Bool
starts_dollar [] = false
starts_dollar (c ∷ cs) = c == b'$'

-- The symbols of a table that are yielded.
unfoldable pub table_symbols : List Entry → List Symbol
table_symbols [] = []
table_symbols (e ∷ entries) =
    let rest = table_symbols entries in
    if e.is_abs || (e.symbol.0 == 0 || (e.is_blank || starts_dollar e.symbol.1))
    then rest
    else e.symbol ∷ rest

-- An entry of .rel.plt, with the stripped name of its symbol.
abbrev pub pointer_symbols : List Symbol → List Symbol
pointer_symbols [] = []
pointer_symbols ((addr, name) ∷ relocations) =
    (addr, name ++ codes "_ptr") ∷ pointer_symbols relocations

abbrev pub or_name : Option Text → Option Text → Option Text
or_name (some n) other = some n
or_name none other = other

-- gots[addr], of which the last assignment counts
unfoldable pub got_name : List Symbol → ℕ → Option Text
got_name [] addr = none
got_name ((a, name) ∷ gots) addr =
    or_name (got_name gots addr) (if a == addr then some name else none)

abbrev pub read_at : List ℕ → ℕ → Result ℕ
read_at [] i = raised index_error
read_at (ins ∷ instructions) zero = ok ins
read_at (ins ∷ instructions) (suc i) = read_at instructions i

-- instructions[i - j], where an index below 0 counts from the end
unfoldable pub instruction_before : List ℕ → (i j : ℕ) → Result ℕ
instruction_before instructions i j =
    if leb j i
    then read_at instructions (i - j)
    else if leb j (length instructions + i)
    then read_at instructions (length instructions + i - j)
    else raised index_error

abbrev pub register_at : ℕ → ℕ → ℕ
register_at shift ins = ins / 2 ^ shift % 16

-- Whether the instruction is an ADR, and whether an ADD of an immediate.
abbrev pub is_adr : ℕ → Bool
is_adr ins = bit_and ins 0xFFFF0000 == 0xE28F0000

abbrev pub is_add : ℕ → Bool
is_add ins = bit_and ins 0xFFE00000 == 0xE2800000

abbrev pub named : ℕ → Option Text → List Symbol
named addr none = []
named addr (some name) = (addr, name) ∷ []

module _ (plt_addr : ℕ) (instructions : List ℕ) (gots : List Symbol) where
  -- The ADR is found `j` instructions in front of the load at `i`, whose offsets sum up to `imm`.
  -- Where i < j and plt_addr is below 8, Python's address is negative and this one is 0.
  unfoldable pub adr_symbol : (i j rn imm adr : ℕ) → List Symbol
  unfolding got_name decode_immediate
  adr_symbol i j rn imm adr =
      let current_addr = plt_addr + i * 4 - j * 4 in
      let total = imm + (current_addr + 8) + decode_immediate (bit_and adr 0xFFF) in
      if register_at 12 adr == rn then named current_addr (got_name gots total) else []

  -- An ADR next to the load
  unfoldable pub one_before : (i rn imm : ℕ) → Result (List Symbol)
  unfolding adr_symbol instruction_before
  one_before i rn imm = do
    adr ← instruction_before instructions i 1
    ok (if is_adr adr then adr_symbol i 1 rn imm adr else [])

  -- The instruction between an ADR and the load, of which the names in the source are swapped: bits
  -- 16 to 19 are its operand. `next` goes on with the sum of its immediate.
  abbrev pub between : (ins rn imm : ℕ) → (ℕ → List Symbol) → Result (List Symbol)
  between ins rn imm next =
      if not (is_add ins)
      then raised exception
      else if not (register_at 16 ins == rn)
      then ok []
      else if not (register_at 12 ins == rn)
      then raised exception
      else ok (next (imm + decode_immediate (bit_and ins 0xFFF)))

  unfoldable pub two_before : (i rn imm : ℕ) → Result (List Symbol)
  unfolding adr_symbol instruction_before decode_immediate
  two_before i rn imm = do
    adr ← instruction_before instructions i 2
    ins ← instruction_before instructions i 1
    let found = between ins rn imm (λ sum. adr_symbol i 2 rn sum adr)
    if is_adr adr then found else ok []

  -- LDR PC, [Rn, #imm]
  abbrev pub is_jump : ℕ → Bool
  is_jump ins = bit_and ins 0xFE500000 == 0xE4100000 && register_at 12 ins == 15

  unfoldable pub load_symbols_at : (i ins : ℕ) → Result (List Symbol)
  unfolding one_before two_before
  load_symbols_at i ins = do
    near ← one_before i (register_at 16 ins) (bit_and ins 0xFFF)
    far ← two_before i (register_at 16 ins) (bit_and ins 0xFFF)
    ok (near ++ far)

  -- for i, ins in enumerate(instructions), from `i` on
  unfoldable pub plt_loop : ℕ → List ℕ → Result (List Symbol)
  unfolding load_symbols_at
  plt_loop i [] = ok []
  plt_loop i (ins ∷ rest) =
      let later = plt_loop (suc i) rest in
      do
        here ← (if is_jump ins then load_symbols_at i ins else ok [])
        more ← later
        ok (here ++ more)

  unfoldable pub plt_symbols : Result (List Symbol)
  unfolding plt_loop
  plt_symbols = plt_loop 0 instructions

-- get_symbols without a .dynsym section and with one, whose relocations and PLT are given.
unfoldable pub get_symbols :
    List (List Entry) → Option (List Symbol × ℕ × List ℕ) → Result (List Symbol)
unfolding table_symbols plt_symbols
get_symbols [] none = ok []
get_symbols [] (some (relocations, plt_addr, instructions)) =
    plt_symbols plt_addr instructions relocations >>= λ found.
    ok (pointer_symbols relocations ++ found)
get_symbols (table ∷ tables) dynamic =
    get_symbols tables dynamic >>= λ rest. ok (table_symbols table ++ rest)
