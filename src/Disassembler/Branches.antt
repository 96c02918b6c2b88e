-- ===== src/Disassembler/Branches.antt =====
-- disassemble.py: BranchInstruction.
use armv.Common.{
  ◌≡◌, ◌<◌, arith, ℕ, ◌+◌, ◌*◌, ◌-◌, ◌%◌, ◌^◌, Bool, true, false, List, [], ◌∷◌, ◌++◌, Option, none,
  some, Result, ok, zero, ltb, if◌then◌else◌, ◌>>=◌,
}
use armv.Common.Text.{Text, codes}
use armv.Common.Int.{pos, negsuc}
use armv.Gdb.Hex.{hex}
use armv.Custom.Symbols.{Place, get_symbol_and_offset}
use armv.Disassembler.Fields.{field, flag, hex_int}
use armv.Disassembler.Instructions.{Instruction}

-- The address that a branch goes to.
unfoldable pub branch_target : ℕ → ℕ → ℕ
branch_target addr word = (addr + field word 0 24 * 4 + 8) % 2 ^ 24

-- "%s" of a symbol's name
abbrev pub shown : Option Text → Text
shown none = codes "None"
shown (some name) = name

-- sym_name and offset < 0x1000
abbrev pub in_symbol : Place → Bool
in_symbol (none, offset) = false
in_symbol (some [], offset) = false
in_symbol (some (c ∷ name), pos n) = ltb n 0x1000
in_symbol (some (c ∷ name), negsuc n) = true

unfoldable pub branch_arg : ℕ → Place → Text
unfolding hex hex_int
branch_arg target (name, pos zero) =
    codes "0x" ++ hex target ++ codes "(" ++ shown name ++ codes ")"
branch_arg target (name, offset) =
    if in_symbol (name, offset)
    then codes "0x"
      ++ hex target
      ++ codes "("
      ++ shown name
      ++ codes " + 0x"
      ++ hex_int offset
      ++ codes ")"
    else codes "#0x" ++ hex target

abbrev pub place_of : Option (List (ℕ × Text)) → (target offset : ℕ) → Result Place
place_of none target offset = ok (none, pos offset)
place_of (some symbols) target offset = get_symbol_and_offset symbols target

unfoldable pub branch_instruction : Option (List (ℕ × Text)) → ℕ → ℕ → Result Instruction
unfolding branch_target branch_arg get_symbol_and_offset
branch_instruction symbols addr word =
    let target = branch_target addr word in
    place_of symbols target (field word 0 24 * 4) >>= λ place. ok (record {
      word = word;
      mneumonic = if flag word 24 then codes "BL" else codes "B";
      args = branch_arg target place ∷ [];
      sets_lr = flag word 24;
    })

-- Where the processor goes: its program counter has 26 bits, and is eight ahead of the instruction.
abbrev pub jump : ℕ → ℕ → ℕ
jump addr word =
    let offset = field word 0 24 in
    (addr + 8 + (if ltb offset (2 ^ 23) then offset * 4 else offset * 4 + 2 ^ 32 - 2 ^ 26)) % 2 ^ 26

-- The target that is shown is where the processor goes, if that is below 16 MB.
pub branch_target-jump :
    (addr word : ℕ) → jump addr word < 2 ^ 24 → branch_target addr word ≡ jump addr word
unfolding branch_target
branch_target-jump addr word h = ground arith
