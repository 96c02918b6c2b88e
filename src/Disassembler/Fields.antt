-- ===== src/Disassembler/Fields.antt =====
-- disassemble.py: the tables of names, and the texts of numbers.
use armv.Common.{
  ℕ, ◌+◌, ◌/◌, ◌%◌, ◌^◌, ◌-◌, Bool, List, [], ◌∷◌, ◌++◌, ltb, ◌==◌, if◌then◌else◌, length, get_or,
  replicate,
}
use armv.Common.Text.{Text, codes}
use armv.Common.Int.{ℤ, pos, negsuc}
use armv.Gdb.Hex.{hex}

-- (word >> low) & (2 ** width - 1)
abbrev pub field : (word low width : ℕ) → ℕ
field word low width = word / 2 ^ low % 2 ^ width

-- word & (1 << place), as a test
abbrev pub flag : (word place : ℕ) → Bool
flag word place = field word place 1 == 1

abbrev pub register_names : List Text
register_names =
    codes "r0"
    ∷ codes "r1"
    ∷ codes "r2"
    ∷ codes "r3"
    ∷ codes "r4"
    ∷ codes "r5"
    ∷ codes "r6"
    ∷ codes "r7"
    ∷ codes "r8"
    ∷ codes "r9"
    ∷ codes "r10"
    ∷ codes "r11"
    ∷ codes "r12"
    ∷ codes "sp"
    ∷ codes "lr"
    ∷ codes "pc"
    ∷ []

abbrev pub shift_types : List Text
shift_types = codes "LSL" ∷ codes "LSR" ∷ codes "ASR" ∷ codes "ROR" ∷ []

abbrev pub conditions : List Text
conditions =
    codes "EQ"
    ∷ codes "NE"
    ∷ codes "CS"
    ∷ codes "CC"
    ∷ codes "MI"
    ∷ codes "PL"
    ∷ codes "VS"
    ∷ codes "VC"
    ∷ codes "HI"
    ∷ codes "LS"
    ∷ codes "GE"
    ∷ codes "LT"
    ∷ codes "GT"
    ∷ codes "LE"
    ∷ []
    ∷ codes "NV"
    ∷ []

abbrev pub opcodes : List Text
opcodes =
    codes "AND"
    ∷ codes "EOR"
    ∷ codes "SUB"
    ∷ codes "RSB"
    ∷ codes "ADD"
    ∷ codes "ADC"
    ∷ codes "SBC"
    ∷ codes "RSC"
    ∷ codes "TST"
    ∷ codes "TEQ"
    ∷ codes "CMP"
    ∷ codes "CMN"
    ∷ codes "ORR"
    ∷ codes "MOV"
    ∷ codes "BIC"
    ∷ codes "MVN"
    ∷ []

-- table[index], for an index that is a field as wide as the table.
abbrev pub name_of : List Text → ℕ → Text
name_of table index = get_or table index []

-- "%d", for a number below 100
unfoldable pub decimal : ℕ → Text
decimal n = if ltb n 10 then (b'0' + n) ∷ [] else (b'0' + n / 10) ∷ (b'0' + n % 10) ∷ []

-- "%x" of an integer
unfoldable pub hex_int : ℤ → Text
unfolding hex
hex_int (pos n) = hex n
hex_int (negsuc n) = b'-' ∷ hex (n + 1)

-- text.ljust(width)
unfoldable pub ljust : ℕ → Text → Text
ljust width text = text ++ replicate (width - length text) b' '

-- ", ".join(words)
unfoldable pub comma_join : List Text → Text
comma_join [] = []
comma_join (w ∷ []) = w
comma_join (w ∷ v ∷ ws) = w ++ codes ", " ++ comma_join (v ∷ ws)
