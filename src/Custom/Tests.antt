-- ===== src/Custom/Tests.antt =====
-- comms/custom.py on concrete messages, and the theorems at concrete inputs.
use armv.Common.{
  ℕ, zero, suc, ◌≡◌, refl, ◌⊎◌, true, false, List, [], ◌∷◌, ◌++◌, none, some, ok, raised, Exn,
  struct_error, index_error, value_error, unicode_error, arith, replicate,
}
use armv.Common.Bytes.{Bytes, be32, unpack_u32s, ascii}
use armv.Common.Text.{Text, split}
use armv.Common.Int.{pos}
use armv.Custom.Message.{Message, machine_state, plain_stop, to_binary}
use armv.Custom.Factory.{message_factory, decode_all}
use armv.Custom.Factory.RoundTrip.{message_factory-to_binary}
use armv.Custom.Factory.Errors.{message_factory-Escapes}
use armv.Custom.Symbols.{get_symbol_and_offset, bisect_left, addrs, at_index, from_symbol}
use armv.Custom.Symbols.Lookup.{get_symbol_and_offset_lem, Precedes, Finds, IsSorted}
use armv.Custom.Framing.{finished, start, feed, process_data}
use armv.Custom.Framing.Chunks.{feed-process_data}
use armv.Custom.Framing.Streams.{feed-frames}

abbrev waiting : Message
waiting = machine_state (replicate 16 7) 3 0x8000 true

-- The flag of a waiting machine is lost.
message_factory-to_binary_example :
    (bytes : Bytes) × (to_binary waiting ≡ ok bytes)
    × (message_factory bytes ≡ ok (some (machine_state (replicate 16 7) 3 0x8000 false)))
message_factory-to_binary_example = message_factory-to_binary waiting (omega arith)

short_breakpoint : message_factory (be32 4 ++ (1 ∷ 2 ∷ [])) ≡ raised struct_error
unfolding message_factory
short_breakpoint = refl

message_factory-Escapes_example :
    ◌≡◌ {A = Exn} struct_error struct_error
    ⊎ (◌≡◌ {A = Exn} struct_error index_error
        ⊎ (◌≡◌ {A = Exn} struct_error value_error ⊎ (struct_error ≡ unicode_error)))
message_factory-Escapes_example =
    message_factory-Escapes (be32 4 ++ (1 ∷ 2 ∷ [])) struct_error short_breakpoint

-- An empty list of tapes does not arrive: its body splits into one empty name.
no_tapes : message_factory (be32 13 ++ (be32 2 ++ (be32 0 ++ (be32 0 ++ be32 0)))) ≡ ok none
unfolding message_factory unpack_u32s split decode_all ascii
no_tapes = refl

unknown_type : message_factory (be32 99) ≡ ok none
unfolding message_factory
unknown_type = refl

abbrev two_symbols : List (ℕ × Text)
two_symbols = (0x100, b'a' ∷ []) ∷ (0x200, b'b' ∷ []) ∷ []

two_symbols-IsSorted : IsSorted (addrs two_symbols)
two_symbols-IsSorted zero zero h k = omega arith
two_symbols-IsSorted zero (suc zero) h k = omega arith
two_symbols-IsSorted (suc zero) zero h k = absurd (omega arith)
two_symbols-IsSorted (suc zero) (suc zero) h k = omega arith
two_symbols-IsSorted (suc (suc i)) zero h k = absurd (omega arith)
two_symbols-IsSorted (suc (suc i)) (suc zero) h k = absurd (omega arith)
two_symbols-IsSorted i (suc (suc j)) h k = absurd (omega arith)

get_symbol_and_offset_lem_example :
    Precedes two_symbols 0x180 (get_symbol_and_offset two_symbols 0x180)
    ⊎ Finds two_symbols 0x180 (get_symbol_and_offset two_symbols 0x180)
get_symbol_and_offset_lem_example =
    get_symbol_and_offset_lem two_symbols 0x180 two_symbols-IsSorted (omega arith)

inside_a : get_symbol_and_offset two_symbols 0x180 ≡ ok (some (b'a' ∷ []), pos 0x80)
unfolding get_symbol_and_offset bisect_left at_index from_symbol
inside_a = refl

-- A frame in two pieces, the cut inside its length.
abbrev pieces : List Bytes
pieces = (0 ∷ 0 ∷ []) ∷ (0 ∷ 4 ∷ 0 ∷ 0 ∷ []) ∷ (0 ∷ 0 ∷ []) ∷ []

feed-process_data_example :
    feed message_factory start pieces
    ≡ process_data message_factory start (0 ∷ 0 ∷ 0 ∷ 4 ∷ 0 ∷ 0 ∷ 0 ∷ 0 ∷ [])
feed-process_data_example =
    feed-process_data message_factory start (0 ∷ 0 ∷ []) ((0 ∷ 4 ∷ 0 ∷ 0 ∷ []) ∷ (0 ∷ 0 ∷ []) ∷ [])

stop_answers : message_factory (be32 0) ≡ ok (some plain_stop)
unfolding message_factory
stop_answers = refl

feed-frames_example : feed message_factory start pieces ≡ finished start (plain_stop ∷ [])
feed-frames_example =
    feed-frames message_factory (λ m. some plain_stop) (be32 0 ∷ []) pieces (omega arith)
      (stop_answers, tt) refl
