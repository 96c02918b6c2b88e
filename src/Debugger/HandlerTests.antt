-- ===== src/Debugger/HandlerTests.antt =====
-- debugger.py: the handlers of registers and memory on concrete messages.
use armv.Common.Text.{Text}
use armv.Debugger.Symbols.{load_symbols, load_loop, symbols_addr}
use armv.Debugger.Symbols.Loaded.{wire}
use armv.Debugger.Symbols.Ends.{Ends, load_symbols-Ends}
use armv.Common.{
  ◌-◌, get_or, ℕ, ◌+◌, ◌<◌, ◌≤◌, ◌≡◌, ◌⊎◌, refl, arith, true, List, [], ◌∷◌, none, some, ok, raised,
  type_error, index_error, length,
}
use armv.Binding.Words.{Page}
use armv.Binding.Ram.{byte_at}
use armv.Gdb.Reply.{ok_reply, memory, register_value}
use armv.Debugger.Handlers.{
  Target, handle_read_mem, handle_write_mem, handle_set_reg, handle_set_regs, handle_get_reg,
}
use armv.Debugger.Handlers.ReadBack.{handle_read_mem-handle_write_mem}

abbrev ram_page : Page ℕ
ram_page = record {
  read_callback = none;
  write_callback = none;
  mapped_start = none;
  memory = some (λ i. 7);
}

-- In user mode, at the address 0x8000 with the carry set.
abbrev target : Target ℕ
target = record {
  regs = record { effective = λ i. 0x20008000; pc = 0x7ffc };
  cpu = record { page_tables = λ p. some ram_page; devices = 0 };
  connected = true;
}

abbrev two_bytes : List ℕ
two_bytes = 0xab ∷ 0xcd ∷ []

handle_read_mem-handle_write_mem_example :
    (after : Target ℕ) × (handle_write_mem 0x103 (0x103 + length two_bytes) two_bytes target
      ≡ (ok (ok_reply ∷ []), after))
    × (handle_read_mem 0x103 (0x103 + length two_bytes) after ≡ (ok (memory two_bytes ∷ []), after))
    × (after.regs ≡ target.regs)
    × ((a : ℕ)
        → (a < 0x103) ⊎ (0x103 + length two_bytes ≤ a)
        → byte_at after.cpu a ≡ byte_at target.cpu a)
handle_read_mem-handle_write_mem_example =
    handle_read_mem-handle_write_mem two_bytes 0x103 target refl (omega arith) (λ a. omega arith)
      (omega arith) (λ a l m. (omega arith, refl))

-- The program counter and the flags are shown apart.
pc_shown : (handle_get_reg 15 target).0 ≡ ok (register_value 0x8000 ∷ [])
unfolding handle_get_reg
pc_shown = refl

flags_shown : (handle_get_reg 25 target).0 ≡ ok (register_value 0x20000000 ∷ [])
unfolding handle_get_reg
flags_shown = refl

-- The flags cannot be set: there is no register 25.
flags_refused : (handle_set_reg 25 0x10000000 target).0 ≡ raised index_error
unfolding handle_set_reg
flags_refused = refl

all_registers_refused : (handle_set_regs (1 ∷ 2 ∷ []) 0 0 target).0 ≡ raised type_error
unfolding handle_set_regs
all_registers_refused = refl

-- One symbol, at the place where the debugger looks for them.
abbrev main_symbol : List (ℕ × Text)
main_symbol = (0x8000, b'm' ∷ []) ∷ []

abbrev loaded_memory : ℕ → ℕ
loaded_memory a = get_or (wire main_symbol) (a - symbols_addr) 0

load_symbols-Ends_example : Ends loaded_memory (load_symbols loaded_memory)
load_symbols-Ends_example = load_symbols-Ends loaded_memory

-- A memory of zeros holds no symbols.
no_symbols : load_symbols (λ a. 0) ≡ ok []
unfolding load_symbols load_loop
no_symbols = refl
