-- ===== src/Binding/Words.antt =====
-- armv2.pyx, class Armv2: a word of the memory, through the tables of pages. Addresses and values are
-- numbers from 0 on.
use armv.Common.{
  ℕ, ◌+◌, ◌-◌, ◌/◌, ◌%◌, ◌^◌, Option, none, some, Result, ok, raised, access_error, overflow_error,
  ltb, leb, ◌==◌, if◌then◌else◌,
}

abbrev pub max_26_bit : ℕ
max_26_bit = 2 ^ 26

-- PAGEOF, INPAGE and WORDINPAGE
abbrev pub page_of : ℕ → ℕ
page_of addr = addr / 2 ^ 12

abbrev pub in_page : ℕ → ℕ
in_page addr = addr % 2 ^ 12

abbrev pub word_in_page : ℕ → ℕ
word_in_page addr = in_page addr / 4

-- D is the state of the devices; a callback gets the offset, and a read gives a word.
pub record Page (D : Type 0) : Type 0 where
  pub read_callback : Option (ℕ → D → ℕ × D)
  pub write_callback : Option (ℕ → ℕ → D → D)
  -- where the page's device starts, if it has one
  pub mapped_start : Option ℕ
  pub memory : Option (ℕ → ℕ)

pub record Cpu (D : Type 0) : Type 0 where
  pub page_tables : ℕ → Option (Page D)
  pub devices : D

-- The 32-bit difference from the device's start, which is the start of a page in front of the address
-- or its own, or the place in the page.
abbrev pub offset_from : Option ℕ → ℕ → ℕ
offset_from none addr = in_page addr
offset_from (some start) addr = (addr + 2 ^ 32 - start) % 2 ^ 32

abbrev pub read_memory : Option (ℕ → ℕ) → ℕ → ℕ
read_memory none addr = 0
read_memory (some memory) addr = memory (word_in_page addr)

-- A call that may raise, and the processor after it.
abbrev pub Outcome : Type 0 → Type 0
Outcome D = Result (Unit {0}) × Cpu D

module _ {D : Type 0} where
  abbrev pub read_page : Option (ℕ → D → ℕ × D) → Page D → ℕ → Cpu D → ℕ × Cpu D
  read_page none page addr cpu = (read_memory page.memory addr, cpu)
  read_page (some callback) page addr cpu =
      let (word, devices) = callback (offset_from page.mapped_start addr) cpu.devices in
      (word, record cpu { devices = devices })

  abbrev pub read_table : Option (Page D) → ℕ → Cpu D → ℕ × Cpu D
  read_table none addr cpu = (0, cpu)
  read_table (some page) addr cpu = read_page page.read_callback page addr cpu

  unfoldable pub getword : ℕ → Cpu D → ℕ × Cpu D
  getword addr cpu =
      if leb max_26_bit addr then (0, cpu) else read_table (cpu.page_tables (page_of addr)) addr cpu

  abbrev pub with_page : ℕ → Page D → Cpu D → Cpu D
  with_page number page cpu = record cpu {
    page_tables = λ p. if p == number then some page else cpu.page_tables p;
  }

  abbrev pub write_memory : Option (ℕ → ℕ) → Page D → ℕ → ℕ → Cpu D → Cpu D
  write_memory none page addr value cpu = cpu
  write_memory (some memory) page addr value cpu =
      with_page (page_of addr)
        (record page { memory = some (λ i. if i == word_in_page addr then value else memory i) })
        cpu

  abbrev pub write_page : Option (ℕ → ℕ → D → D) → Page D → ℕ → ℕ → Cpu D → Cpu D
  write_page none page addr value cpu = write_memory page.memory page addr value cpu
  write_page (some callback) page addr value cpu = record cpu {
    devices = callback (offset_from page.mapped_start addr) value cpu.devices;
  }

  -- A value of more than 32 bits does not fit the word.
  abbrev pub write_table : Option (Page D) → ℕ → ℕ → Cpu D → Outcome D
  write_table none addr value cpu = (raised access_error, cpu)
  write_table (some page) addr value cpu =
      if ltb value (2 ^ 32)
      then (ok tt, write_page page.write_callback page addr value cpu)
      else (raised overflow_error, cpu)

  unfoldable pub setword : ℕ → ℕ → Cpu D → Outcome D
  setword addr value cpu =
      if leb max_26_bit addr
      then (ok tt, cpu)
      else write_table (cpu.page_tables (page_of addr)) addr value cpu
