-- ===== src/Linker/Image.antt =====
-- create.py: pre_link and create_binary, over what the ELF library reads of the files.
pub mod Sorting
use armv.Common.{
  ℕ, zero, suc, ◌+◌, ◌-◌, ◌^◌, Bool, true, false, not, ◌&&◌, List, [], ◌∷◌, ◌++◌, Option, none,
  some, Result, ok, raised, assertion_error, name_error, key_error, ◌>>=◌, ltb, leb, ◌==◌,
  if◌then◌else◌, length, slice, replicate,
}
use armv.Common.Bytes.{Bytes}
use armv.Common.Text.{Text, codes}
use armv.Debugger.Symbols.{symbol_bytes}
use armv.Tapes.Format.{to_synapse_format}
use armv.Linker.Relocation.{Segment, Symbol, value_of, pack_le, process_relocation, found}

-- An ELF file: its bytes and what the library reads of them, with the places of its sections of
-- type SHT_REL. `symbols` are those of get_full_symbols, `names` those of get_symbols.
pub record Elf : Type 0 where
  pub bytes : Bytes
  pub segments : List Segment
  pub symbols : List Symbol
  pub names : List Symbol
  pub relocations : List (ℕ × ℕ)
  pub e_entry : ℕ

-- for section in elf.iter_sections() of pre_link
unfoldable pub link_sections : Elf → List Symbol → List (ℕ × ℕ) → Bytes → Result Bytes
link_sections elf os_symbols [] bytes = ok bytes
link_sections elf os_symbols ((sh_offset, sh_size) ∷ sections) bytes =
    let rest : Bytes → Result Bytes = λ b. link_sections elf os_symbols sections b in
    process_relocation elf.segments elf.symbols os_symbols sh_offset sh_size bytes >>= rest

-- The linked bytes, and the value of main.
unfoldable pub pre_link : Elf → List Symbol → Result (Bytes × ℕ)
unfolding link_sections
pre_link elf os_symbols = do
  bytes ← link_sections elf os_symbols elf.relocations elf.bytes
  main ← found (value_of elf.symbols (codes "main"))
  ok (bytes, main)

-- The bytes of the segments that are loaded: of the first one only, for a program that is no boot
-- rom.
unfoldable pub segment_bytes : Bool → Bytes → List Segment → Bytes
segment_bytes boot bytes [] = []
segment_bytes boot bytes (s ∷ segments) =
    let rest = segment_bytes boot bytes segments in
    let here = slice s.p_offset (s.p_offset + s.p_filesz) bytes in
    if s.is_load then (if boot then here ++ rest else here) else rest

-- v_addr behind that loop: of the first segment that is loaded, or of the last one.
unfoldable pub last_vaddr : List Segment → Result ℕ
last_vaddr [] = raised name_error
last_vaddr (s ∷ []) = ok s.p_vaddr
last_vaddr (s ∷ t ∷ segments) =
    let rest = last_vaddr (t ∷ segments) in if s.is_load then ok s.p_vaddr else rest

-- bytes.replace(old, new) for four bytes
unfoldable pub replace : ℕ → ℕ → ℕ → ℕ → Bytes → Bytes → Bytes
replace p q r s new (a ∷ b ∷ c ∷ d ∷ rest) =
    let here = new ++ replace p q r s new rest in
    let later = a ∷ replace p q r s new (b ∷ c ∷ d ∷ rest) in
    if a == p && (b == q && (c == r && d == s)) then here else later
replace p q r s new bytes = bytes

-- symbols.sort(key=lambda data: data[0]), which keeps the order of equal values
unfoldable pub insert : Symbol → List Symbol → List Symbol
insert (value, name) [] = (value, name) ∷ []
insert (value, name) ((other, text) ∷ symbols) =
    let later = (other, text) ∷ insert (value, name) symbols in
    if leb value other then (value, name) ∷ (other, text) ∷ symbols else later

unfoldable pub sort_symbols : List Symbol → List Symbol
unfolding insert
sort_symbols [] = []
sort_symbols (s ∷ symbols) = insert s (sort_symbols symbols)

-- BX LR becomes MOV PC, LR.
unfoldable pub without_bx : Bytes → Bytes
unfolding replace
without_bx bytes = replace 0x1E 0xFF 0x2F 0xE1 (0x0E ∷ 0xF0 ∷ 0xA0 ∷ 0xE1 ∷ []) bytes

-- The header of a boot rom, with the entry point in place of 0xCAFEBABE, filled up to 0x1000 bytes.
unfoldable pub boot_header : Bytes → ℕ → Result Bytes
unfolding replace pack_le
boot_header header entry_point = do
  word ← pack_le entry_point
  let replaced = replace 0xBE 0xBA 0xFE 0xCA word header
  if ltb (length replaced) 0x1000
      then ok (replaced ++ replicate (0x1000 - length replaced) 0)
      else raised assertion_error

-- A program, which is linked to the system's symbols.
unfoldable pub create_program : Elf → List Symbol → Text → Bool → Result Bytes
unfolding pre_link segment_bytes last_vaddr sort_symbols without_bx
create_program elf os_symbols tape_name final = do
  (linked, entry_point) ← pre_link elf os_symbols
  symbols ← symbol_bytes (sort_symbols elf.names)
  v_addr ← last_vaddr elf.segments
  to_synapse_format (without_bx (segment_bytes false linked elf.segments)) symbols tape_name
      (some v_addr) (some entry_point) final

-- A boot rom, with the symbols of boot.o in front of its own.
unfoldable pub create_boot :
    (header : Bytes) → Elf → (boot_names : List Symbol) → Text → Bool → Result Bytes
unfolding segment_bytes sort_symbols without_bx boot_header
create_boot header elf boot_names tape_name final = do
  symbols ← symbol_bytes (sort_symbols (boot_names ++ elf.names))
  front ← boot_header header elf.e_entry
  to_synapse_format (front ++ without_bx (segment_bytes true elf.bytes elf.segments)) symbols
      tape_name none none final
