-- ===== src/Custom/Factory/RoundTrip.antt =====
-- comms/custom.py: every message with symbols or a word, and every message at all, arrives as sent.
use armv.Common.{
  ℕ, zero, suc, ◌^◌, ◌≤◌, ◌≡◌, refl, List, [], ◌∷◌, ◌++◌, ok, arith, length, All, length-append,
  lt→ltb,
}
use armv.Common.Bytes.{Bytes, IsU32, be32, pack_u32_lem, ascii_lem, from_be32-be32}
use armv.Common.Text.{Text, split_once-append}
use armv.Custom.Message.{
  Message, handshake, machine_state, mem_view, tapes_view, tape_reply, mem_view_reply,
  disassembly_view, disassembly_view_reply, symbols, set_breakpoint, unset_breakpoint,
  tape_load_message, plain_stop, plain_resume, plain_restart, plain_step, plain_next,
  plain_tape_unload, plain_disconnect, encode_symbols, to_binary,
}
use armv.Custom.Factory.{symbols_loop, message_factory}
use armv.Custom.Factory.Arrives.{
  IsSymbol, IsSendable, received, Arrives, handshake-Arrives, mem_view-Arrives, tapes_view-Arrives,
  disassembly_view-Arrives, mem_view_reply-Arrives, tape_reply-Arrives, machine_state-Arrives,
  disassembly_view_reply-Arrives,
}

abbrev wire : List (ℕ × Text) → Bytes
wire [] = []
wire ((addr, name) ∷ rest) = be32 addr ++ (name ++ (0 ∷ wire rest))

encode_symbols-wire : (l : List (ℕ × Text)) → All IsSymbol l → encode_symbols l ≡ ok (wire l)
unfolding encode_symbols
encode_symbols-wire [] h = refl
encode_symbols-wire ((addr, name) ∷ rest) ((ha, hn), hs) =
    rw (lt→ltb addr (2 ^ 32) ha, ascii_lem name hn.0, encode_symbols-wire rest hs)

symbols_loop-wire :
    (fuel : ℕ) (l : List (ℕ × Text))
    → All IsSymbol l
    → length (wire l) ≤ fuel
    → symbols_loop fuel (wire l) ≡ ok l
unfolding symbols_loop
symbols_loop-wire fuel [] h f = refl
symbols_loop-wire zero ((addr, name) ∷ rest) h f = absurd (omega arith)
symbols_loop-wire (suc fuel) ((addr, name) ∷ rest) ((ha, hn), hs) f = rw (
  from_be32-be32 addr ha,
  split_once-append 0 name (wire rest) hn.1,
  ascii_lem name hn.0,
  symbols_loop-wire fuel rest hs (omega (arith, length-append name (0 ∷ wire rest))),
)

symbols-Arrives : (l : List (ℕ × Text)) → All IsSymbol l → Arrives (symbols l)
symbols-Arrives l h = (
  be32 16 ++ wire l,
  unfold to_binary in rw (encode_symbols-wire l h),
  unfold message_factory in rw (symbols_loop-wire (length (wire l)) l h (omega arith)),
)

set_breakpoint-Arrives : (n : ℕ) → IsU32 n → Arrives (set_breakpoint n)
set_breakpoint-Arrives n h = (
  be32 4 ++ be32 n,
  unfold to_binary in rw (pack_u32_lem n h),
  unfold message_factory in rw (from_be32-be32 n h),
)

unset_breakpoint-Arrives : (n : ℕ) → IsU32 n → Arrives (unset_breakpoint n)
unset_breakpoint-Arrives n h = (
  be32 5 ++ be32 n,
  unfold to_binary in rw (pack_u32_lem n h),
  unfold message_factory in rw (from_be32-be32 n h),
)

tape_load-Arrives : (n : ℕ) → IsU32 n → Arrives (tape_load_message n)
tape_load-Arrives n h = (
  be32 14 ++ be32 n,
  unfold to_binary in rw (pack_u32_lem n h),
  unfold message_factory in rw (from_be32-be32 n h),
)

-- Every message whose fields fit is written without an exception, and message_factory makes the
-- same message of the bytes, but for two cases: the `is_waiting` of a MachineState arrives as
-- False, and a Disconnect, which has no class to read it, arrives as no message.
pub message_factory-to_binary :
    (m : Message)
    → IsSendable m
    → (bytes : Bytes) × (to_binary m ≡ ok bytes) × (message_factory bytes ≡ ok (received m))
message_factory-to_binary (handshake host port) h = handshake-Arrives host port h
message_factory-to_binary (machine_state registers mode pc w) h =
    machine_state-Arrives registers mode pc w h
message_factory-to_binary (mem_view id start size ws wn) h = mem_view-Arrives id start size ws wn h
message_factory-to_binary (tapes_view start size) h = tapes_view-Arrives start size h
message_factory-to_binary (tape_reply start [] max) h = absurd (h.3 refl)
message_factory-to_binary (tape_reply start (t ∷ ts) max) h = tape_reply-Arrives start t ts max h
message_factory-to_binary (mem_view_reply id start memory) h =
    mem_view_reply-Arrives id start memory h
message_factory-to_binary (disassembly_view start size) h = disassembly_view-Arrives start size h
message_factory-to_binary (disassembly_view_reply start memory []) h = absurd (h.3 refl)
message_factory-to_binary (disassembly_view_reply start memory (l ∷ ls)) h =
    disassembly_view_reply-Arrives start memory l ls h
message_factory-to_binary (symbols l) h = symbols-Arrives l h
message_factory-to_binary (set_breakpoint addr) h = set_breakpoint-Arrives addr h
message_factory-to_binary (unset_breakpoint addr) h = unset_breakpoint-Arrives addr h
message_factory-to_binary (tape_load_message num) h = tape_load-Arrives num h
message_factory-to_binary plain_stop h =
    (be32 0, unfold to_binary in refl, unfold message_factory in refl)
message_factory-to_binary plain_resume h =
    (be32 1, unfold to_binary in refl, unfold message_factory in refl)
message_factory-to_binary plain_restart h =
    (be32 3, unfold to_binary in refl, unfold message_factory in refl)
message_factory-to_binary plain_step h =
    (be32 2, unfold to_binary in refl, unfold message_factory in refl)
message_factory-to_binary plain_next h =
    (be32 17, unfold to_binary in refl, unfold message_factory in refl)
message_factory-to_binary plain_tape_unload h =
    (be32 15, unfold to_binary in refl, unfold message_factory in refl)
message_factory-to_binary plain_disconnect h =
    (be32 19, unfold to_binary in refl, unfold message_factory in refl)
