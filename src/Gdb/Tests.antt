-- ===== src/Gdb/Tests.antt =====
-- comms/gdb.py on concrete packets, and the theorems at concrete inputs.
use armv.Common.{
  ℕ, ◌≡◌, ◌≢◌, refl, ap, List, [], ◌∷◌, ◌++◌, none, some, ok, raised, type_error, name_error,
  value_error, attribute_error, false, All, arith, replicate,
}
use armv.Common.Bytes.{Bytes}
use armv.Common.Text.{codes, split}
use armv.Common.Int.{ℤ, pos, negsuc}
use armv.Gdb.Hex.{int_of, hex_pad}
use armv.Gdb.Packet.{checksum, format_gdb_message, unescape, escape}
use armv.Gdb.Packet.Escapes.{IsPayload, unescape-escape}
use armv.Gdb.Reader.Scan.{IsAck, packet}
use armv.Gdb.Request.{
  set_registers, set_registers_from, continue_signal_from, write_memory_binary_from,
}
use armv.Gdb.Reply.{to_binary, register_value, stop_reply, registers_text}
use armv.Gdb.Reply.Registers.{set_registers_from-registers_text}
use armv.Gdb.Session.{handlers}
use armv.Gdb.Session.Loop.{acknowledged, reacts, sent, process_data}
use armv.Gdb.Session.Laws.{process_data-format_gdb_message, process_data_two-packet}

abbrev plus_ack : Bytes
plus_ack = b'+' ∷ []

plus_ack-IsAck : All IsAck plus_ack
plus_ack-IsAck = omega arith

query-IsPayload : IsPayload (codes "qC")
query-IsPayload = (omega arith, omega arith)

read_registers-IsPayload : IsPayload (codes "g")
read_registers-IsPayload = (omega arith, omega arith)

process_data-format_gdb_message_example :
    process_data [] (plus_ack ++ format_gdb_message (codes "qC"))
    ≡ acknowledged (reacts (handlers (codes "qC")))
process_data-format_gdb_message_example =
    process_data-format_gdb_message plus_ack (codes "qC") plus_ack-IsAck query-IsPayload

query_thread : process_data [] (format_gdb_message (codes "qC")) ≡ record {
  events = sent plus_ack ∷ sent (format_gdb_message (codes "QC1")) ∷ [];
  done = false;
  error = none;
}
unfolding process_data format_gdb_message hex_pad checksum int_of
query_thread = refl

zero_sum : int_of 16 (codes "00") ≡ ok (pos 0)
unfolding int_of
zero_sum = refl

abbrev size : ℤ → ℕ
size (pos n) = n
size (negsuc n) = n

wrong_sum : pos 0 ≢ pos (checksum (codes "g"))
unfolding checksum
wrong_sum e = omega (arith, ap size e)

-- gdb's request for the registers, sent twice.
process_data_two-packet_example :
    process_data []
      ([] ++ packet (codes "g") b'6' b'7' (plus_ack ++ packet (codes "g") b'6' b'7' []))
    ≡ record { events = []; done = false; error = some type_error }
process_data_two-packet_example =
    process_data_two-packet [] (codes "g") plus_ack (codes "g") b'6' b'7' b'6' b'7' [] tt
      read_registers-IsPayload plus_ack-IsAck read_registers-IsPayload

-- A star does not come back.
unescape-escape_example : unescape (escape (codes "a#*")) ≡ codes "a#}\n"
unescape-escape_example = unescape-escape (codes "a#*")

abbrev fifteen : List ℕ
fifteen = replicate 15 0x12345678

set_registers_from-registers_text_example :
    set_registers_from (b'G' ∷ registers_text fifteen 0x8000 0x10)
    ≡ ok (set_registers fifteen 0x8000 0 0)
set_registers_from-registers_text_example =
    set_registers_from-registers_text fifteen 0x8000 0x10 refl (omega arith) (omega arith)
      (omega arith)

-- `signal` is unbound without a semicolon.
continue_with_signal : continue_signal_from (codes "C05") ≡ raised name_error
unfolding continue_signal_from
continue_with_signal = refl

-- A colon among the binary data is one part too many.
binary_colon : write_memory_binary_from (codes "X100,1::") ≡ raised value_error
unfolding write_memory_binary_from split
binary_colon = refl

register_value_text : to_binary (register_value 3) ≡ raised attribute_error
unfolding to_binary
register_value_text = refl

interrupt_reply : to_binary (stop_reply 2) ≡ ok (codes "$S02#b5")
unfolding to_binary format_gdb_message checksum
interrupt_reply = refl
