-- ===== src/Binding/Ram.antt =====
-- armv2.pyx: words and bytes of pages that are plain memory, without a device's callbacks.
use armv.Common.{
  ℕ, ◌/◌, ◌%◌, ◌^◌, ◌<◌, ◌≡◌, refl, sym, ap, ◌∙◌, arith, Bool, true, false, not, ◌&&◌, Option, none,
  some, ok, leb, ◌==◌, if◌then◌else◌, Bool-cases, inl, inr, ==_iff, lt→ltb,
}
use armv.Binding.Words.{
  Page, Cpu, max_26_bit, page_of, word_in_page, read_memory, read_page, read_table, getword,
  write_memory, write_page, write_table, setword,
}
use armv.Binding.Bytes.{shift_of}

abbrev is_none {ℓ} : {A : Type ℓ} → Option A → Bool
is_none none = true
is_none (some a) = false

abbrev pub is_ram_page : {D : Type 0} → Option (Page D) → Bool
is_ram_page none = false
is_ram_page (some page) =
    is_none page.read_callback && (is_none page.write_callback && not (is_none page.memory))

abbrev peek_memory : Option (ℕ → ℕ) → ℕ → ℕ
peek_memory none i = 0
peek_memory (some memory) i = memory i

read_memory-peek_memory :
    (memory : Option (ℕ → ℕ)) (addr : ℕ)
    → read_memory memory addr ≡ peek_memory memory (word_in_page addr)
read_memory-peek_memory none addr = refl
read_memory-peek_memory (some memory) addr = refl

-- Addresses of one word, and of different pages.
same_word :
    (a b : ℕ)
    → (page_of a == page_of b) ≡ true
    → (word_in_page a == word_in_page b) ≡ (a / 4 == b / 4)
same_word a b h = ground arith

other_page : (a b : ℕ) → (page_of a == page_of b) ≡ false → (a / 4 == b / 4) ≡ false
other_page a b h = ground arith

lt→leb_false : (a b : ℕ) → a < b → leb b a ≡ false
lt→leb_false a b h = ground arith

module _ {D : Type 0} where
  -- The address lies below 2 ^ 26 in a page of plain memory.
  abbrev pub IsRam : Cpu D → ℕ → Type 0
  IsRam cpu addr = (addr < 2 ^ 26) × (is_ram_page (cpu.page_tables (page_of addr)) ≡ true)

  abbrev peek : Option (Page D) → ℕ → ℕ
  peek none i = 0
  peek (some page) i = peek_memory page.memory i

  -- The word that is stored for an address, and its byte.
  abbrev pub stored : Cpu D → ℕ → ℕ
  stored cpu addr = peek (cpu.page_tables (page_of addr)) (word_in_page addr)

  abbrev pub byte_at : Cpu D → ℕ → ℕ
  byte_at cpu addr = stored cpu addr / 2 ^ shift_of addr % 256

  abbrev poke_table : Option (Page D) → ℕ → ℕ → Cpu D → Cpu D
  poke_table none addr value cpu = cpu
  poke_table (some page) addr value cpu = write_memory page.memory page addr value cpu

  -- The processor with the word of an address replaced.
  unfoldable pub poke : ℕ → ℕ → Cpu D → Cpu D
  poke addr value cpu = poke_table (cpu.page_tables (page_of addr)) addr value cpu

  no_reader :
      (callback : Option (ℕ → D → ℕ × D)) (page : Page D) (addr : ℕ) (cpu : Cpu D)
      → is_none callback ≡ true
      → read_page callback page addr cpu ≡ (read_memory page.memory addr, cpu)
  no_reader none page addr cpu h = refl
  no_reader (some callback) page addr cpu h = cc

  no_writer :
      (callback : Option (ℕ → ℕ → D → D)) (page : Page D) (addr value : ℕ) (cpu : Cpu D)
      → is_none callback ≡ true
      → write_page callback page addr value cpu ≡ write_memory page.memory page addr value cpu
  no_writer none page addr value cpu h = refl
  no_writer (some callback) page addr value cpu h = cc

  ram_parts :
      (page : Page D)
      → is_ram_page (some page) ≡ true
      → (is_none page.read_callback ≡ true)
        × (is_none page.write_callback ≡ true)
        × (is_none page.memory ≡ false)
  ram_parts page h = (ground arith, ground arith, ground arith)

  read_table-ram :
      (table : Option (Page D)) (addr : ℕ) (cpu : Cpu D)
      → is_ram_page table ≡ true
      → read_table table addr cpu ≡ (peek table (word_in_page addr), cpu)
  read_table-ram none addr cpu h = refl
  read_table-ram (some page) addr cpu h =
      no_reader page.read_callback page addr cpu (ram_parts page h).0
      ∙ ap (λ w. (w, cpu)) (read_memory-peek_memory page.memory addr)

  pub getword-ram :
      (addr : ℕ) (cpu : Cpu D) → IsRam cpu addr → getword addr cpu ≡ (stored cpu addr, cpu)
  unfolding getword
  getword-ram addr cpu h =
      rw (lt→leb_false addr max_26_bit h.0)
        (read_table-ram (cpu.page_tables (page_of addr)) addr cpu h.1)

  write_table-ram :
      (table : Option (Page D)) (addr value : ℕ) (cpu : Cpu D)
      → value < 2 ^ 32
      → is_ram_page table ≡ true
      → write_table table addr value cpu ≡ (ok tt, poke_table table addr value cpu)
  write_table-ram none addr value cpu l h = cc
  write_table-ram (some page) addr value cpu l h = rw (lt→ltb value (2 ^ 32) l) (
      ap (λ c. (ok tt, c)) (no_writer page.write_callback page addr value cpu (ram_parts page h).1))

  pub setword-ram :
      (addr value : ℕ) (cpu : Cpu D)
      → value < 2 ^ 32
      → IsRam cpu addr
      → setword addr value cpu ≡ (ok tt, poke addr value cpu)
  unfolding setword poke
  setword-ram addr value cpu l h =
      rw (lt→leb_false addr max_26_bit h.0)
        (write_table-ram (cpu.page_tables (page_of addr)) addr value cpu l h.1)

  stored-poke_memory :
      (memory : Option (ℕ → ℕ)) (page : Page D) (addr value : ℕ) (cpu : Cpu D) (a : ℕ)
      → is_none memory ≡ false
      → cpu.page_tables (page_of addr) ≡ some page
      → page.memory ≡ memory
      → stored (write_memory memory page addr value cpu) a
        ≡ (if a / 4 == addr / 4 then value else stored cpu a)
  stored-poke_memory none page addr value cpu a h e m = cc
  stored-poke_memory (some memory) page addr value cpu a h e m =
      elim (Bool-cases (page_of a == page_of addr)) [
        | inl q ↦ rw (q, same_word a addr q, here q) refl
        | inr q ↦ rw (q, other_page a addr q) refl
      ]
    where
      here : (page_of a == page_of addr) ≡ true → stored cpu a ≡ memory (word_in_page a)
      here q =
          ap (λ p. peek (cpu.page_tables p) (word_in_page a))
            ((==_iff (page_of a) (page_of addr)).0 q)
          ∙ ap (λ t. peek t (word_in_page a)) e
          ∙ ap (λ t. peek_memory t (word_in_page a)) m

  stored-poke_table :
      (table : Option (Page D)) (addr value : ℕ) (cpu : Cpu D) (a : ℕ)
      → cpu.page_tables (page_of addr) ≡ table
      → is_ram_page table ≡ true
      → stored (poke_table table addr value cpu) a
        ≡ (if a / 4 == addr / 4 then value else stored cpu a)
  stored-poke_table none addr value cpu a e h = cc
  stored-poke_table (some page) addr value cpu a e h =
      stored-poke_memory page.memory page addr value cpu a (ram_parts page h).2 e refl

  pub stored-poke :
      (addr value : ℕ) (cpu : Cpu D) (a : ℕ)
      → IsRam cpu addr
      → stored (poke addr value cpu) a ≡ (if a / 4 == addr / 4 then value else stored cpu a)
  unfolding poke
  stored-poke addr value cpu a h =
      stored-poke_table (cpu.page_tables (page_of addr)) addr value cpu a refl h.1

  is_ram_page-poke_memory :
      (memory : Option (ℕ → ℕ)) (page : Page D) (addr value : ℕ) (cpu : Cpu D) (p : ℕ)
      → cpu.page_tables (page_of addr) ≡ some page
      → is_ram_page (some page) ≡ true
      → is_ram_page ((write_memory memory page addr value cpu).page_tables p)
        ≡ is_ram_page (cpu.page_tables p)
  is_ram_page-poke_memory none page addr value cpu p e h = refl
  is_ram_page-poke_memory (some memory) page addr value cpu p e h =
      elim (Bool-cases (p == page_of addr)) [
        | inl q ↦ rw q (
            still
            ∙ sym h
            ∙ sym (ap is_ram_page (ap cpu.page_tables ((==_iff p (page_of addr)).0 q) ∙ e)))
        | inr q ↦ rw q refl
      ]
    where
      still :
          is_ram_page (
            some (record page {
              memory = some (λ i. if i == word_in_page addr then value else memory i);
            }))
          ≡ true
      still = rw ((ram_parts page h).0, (ram_parts page h).1) refl

  is_ram_page-poke_table :
      (table : Option (Page D)) (addr value : ℕ) (cpu : Cpu D) (p : ℕ)
      → cpu.page_tables (page_of addr) ≡ table
      → is_ram_page table ≡ true
      → is_ram_page ((poke_table table addr value cpu).page_tables p)
        ≡ is_ram_page (cpu.page_tables p)
  is_ram_page-poke_table none addr value cpu p e h = refl
  is_ram_page-poke_table (some page) addr value cpu p e h =
      is_ram_page-poke_memory page.memory page addr value cpu p e h

  -- Plain memory stays that.
  pub poke-IsRam :
      (addr value : ℕ) (cpu : Cpu D) (a : ℕ)
      → IsRam cpu addr
      → IsRam cpu a
      → IsRam (poke addr value cpu) a
  unfolding poke
  poke-IsRam addr value cpu a h k = (
    k.0,
    is_ram_page-poke_table (cpu.page_tables (page_of addr)) addr value cpu (page_of a) refl h.1
        ∙ k.1,
  )

  -- Addresses of one word.
  pub stored-eq : (cpu : Cpu D) (a b : ℕ) → a / 4 ≡ b / 4 → stored cpu a ≡ stored cpu b
  stored-eq cpu a b h =
      ap (λ p. peek (cpu.page_tables p) (word_in_page a)) one_page
      ∙ ap (peek (cpu.page_tables (page_of b))) one_place
    where
      one_page : page_of a ≡ page_of b
      one_page = omega arith

      one_place : word_in_page a ≡ word_in_page b
      one_place = omega arith

  pub IsRam-eq : (cpu : Cpu D) (a b : ℕ) → a / 4 ≡ b / 4 → IsRam cpu a → IsRam cpu b
  IsRam-eq cpu a b h k =
      (omega (arith, k.0), ap (λ p. is_ram_page (cpu.page_tables p)) one_page ∙ k.1)
    where
      one_page : page_of b ≡ page_of a
      one_page = omega arith
