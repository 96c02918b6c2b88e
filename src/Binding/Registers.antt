-- ===== src/Binding/Registers.antt =====
-- armv2.pyx: getregs and setregs, and the class Registers.
use armv.Common.{
  ℕ, zero, suc, ◌+◌, ◌*◌, ◌-◌, ◌/◌, ◌%◌, ◌^◌, min, List, [], ◌∷◌, Option, none, some, Result, ok,
  raised, index_error, attribute_error, overflow_error, leb, ◌==◌, if◌then◌else◌, ◌>>=◌, get_elem?,
}
use armv.Common.Text.{Text, codes, same_text}

abbrev pub num_effective_regs : ℕ
num_effective_regs = 16

-- What the names r0 to r15 stand for at the moment, and the core's own program counter.
pub record Registers : Type 0 where
  pub effective : ℕ → ℕ
  pub pc : ℕ

unfoldable pub getregs : ℕ → Registers → Result ℕ
getregs index regs =
    if leb num_effective_regs index then raised index_error else ok (regs.effective index)

-- (0xfffffffc + (value & 0x3ffffffc)) & 0xffffffff
abbrev pub core_pc : ℕ → ℕ
core_pc value = (0xfffffffc + value % 2 ^ 30 / 4 * 4) % 2 ^ 32

unfoldable pub setregs : ℕ → ℕ → Registers → Result Registers
setregs index value regs =
    if leb num_effective_regs index
    then raised index_error
    else if leb (2 ^ 32) value
    then raised overflow_error
    else ok (record {
      effective = λ i. if i == index then value else regs.effective i;
      pc = if index == 15 then core_pc value else regs.pc;
    })

-- Registers.mapping
abbrev pub mapping : List (Text × ℕ)
mapping =
    (codes "fp", 12)
    ∷ (codes "sp", 13)
    ∷ (codes "lr", 14)
    ∷ (codes "pc", 15)
    ∷ (codes "r0", 0)
    ∷ (codes "r1", 1)
    ∷ (codes "r2", 2)
    ∷ (codes "r3", 3)
    ∷ (codes "r4", 4)
    ∷ (codes "r5", 5)
    ∷ (codes "r6", 6)
    ∷ (codes "r7", 7)
    ∷ (codes "r8", 8)
    ∷ (codes "r9", 9)
    ∷ (codes "r10", 10)
    ∷ (codes "r11", 11)
    ∷ (codes "r12", 12)
    ∷ (codes "r13", 13)
    ∷ (codes "r14", 14)
    ∷ (codes "r15", 15)
    ∷ []

abbrev pub index_in : List (Text × ℕ) → Text → Option ℕ
index_in [] attr = none
index_in ((name, index) ∷ rest) attr =
    let further = index_in rest attr in if same_text attr name then some index else further

abbrev pub read_index : Option ℕ → Registers → Result ℕ
read_index none regs = raised attribute_error
read_index (some index) regs = getregs index regs

-- An unknown name sets an attribute of the object, and no register.
abbrev pub write_index : Option ℕ → ℕ → Registers → Result Registers
write_index none value regs = ok regs
write_index (some index) value regs = setregs index value regs

-- Registers.__getattr__ and __setattr__
unfoldable pub get_attr : Text → Registers → Result ℕ
unfolding getregs
get_attr attr regs = read_index (index_in mapping attr) regs

unfoldable pub set_attr : Text → ℕ → Registers → Result Registers
unfolding setregs
set_attr attr value regs = write_index (index_in mapping attr) value regs

unfoldable pub get_from : ℕ → ℕ → Registers → Result (List ℕ)
unfolding getregs
get_from zero i regs = ok []
get_from (suc n) i regs =
    let rest = get_from n (i + 1) regs in do v ← getregs i regs; vs ← rest; ok (v ∷ vs)

abbrev pub the_item : Option ℕ → Result ℕ
the_item none = raised index_error
the_item (some v) = ok v

-- value[i] with the number of the register, also where the slice does not begin at 0
unfoldable pub set_from : ℕ → ℕ → List ℕ → Registers → Result Registers
unfolding setregs
set_from zero i value regs = ok regs
set_from (suc n) i value regs = do
  v ← the_item (get_elem? value i)
  after ← setregs i v regs
  set_from n (i + 1) value after

-- Registers.__getitem__ and __setitem__ at a slice
unfoldable pub get_registers : (start stop : ℕ) → Registers → Result (List ℕ)
unfolding get_from
get_registers start stop regs = get_from (min stop 16 - min start 16) (min start 16) regs

unfoldable pub set_registers : (start stop : ℕ) → List ℕ → Registers → Result Registers
unfolding set_from
set_registers start stop value regs =
    set_from (min stop 16 - min start 16) (min start 16) value regs

-- Armv2.mode
unfoldable pub mode : Registers → Result ℕ
unfolding get_attr
mode regs = get_attr (codes "pc") regs >>= λ pc. ok (pc % 4)
