-- ===== src/Gdb/Reader.antt =====
-- comms/gdb.py: the loop of BaseHandler.process_data, which cuts a read into messages.
pub mod Scan
use armv.Common.{
  ℕ, zero, suc, ◌+◌, Bool, true, false, ◌&&◌, ◌||◌, not, List, [], ◌∷◌, ◌++◌, Option, none, some,
  Result, ok, raised, type_error, no_fuel, ◌>>=◌, ltb, ◌==◌, if◌then◌else◌, length, take, drop,
  get_elem?,
}
use armv.Common.Bytes.{Bytes}
use armv.Gdb.Packet.{escape_byte}

-- The variable `message`: a bytearray at first, and a list of ints behind the first packet.
pub data Buffer : Type 0 where
  bytearray : Bytes → Buffer
  int_list : List ℕ → Buffer

abbrev pub content : Buffer → List ℕ
content (bytearray bs) = bs
content (int_list ns) = ns

-- message.append(byte)
abbrev pub appended : Buffer → ℕ → Buffer
appended (bytearray bs) b = bytearray (bs ++ (b ∷ []))
appended (int_list ns) b = int_list (ns ++ (b ∷ []))

-- message + self.data[pos : pos + 3], which a list refuses
abbrev pub plus : Buffer → Bytes → Result Buffer
plus (bytearray bs) more = ok (bytearray (bs ++ more))
plus (int_list ns) more = raised type_error

abbrev pub is_empty : Buffer → Bool
is_empty m = length (content m) == 0

-- byte in b"+-"
abbrev pub is_ack : ℕ → Bool
is_ack b = b == b'+' || b == b'-'

-- self.data[pos - 1] != self.escape, and False in front of the first byte
abbrev pub unescaped_behind : Option ℕ → Bool
unescaped_behind none = false
unescaped_behind (some prev) = not (prev == escape_byte)

-- `while pos < len(self.data)`, over the bytes from `pos` on and the one in front of them. At the
-- end of a packet the loop goes four bytes on, the hash, its checksum and one more. Each round takes
-- a byte at least, so the length is enough fuel.
unfoldable pub scan : ℕ → Option ℕ → Bytes → Buffer → List Buffer → Result (Buffer × List Buffer)
scan fuel prev [] message messages = ok (message, messages)
scan zero prev (b ∷ rest) message messages = raised no_fuel
scan (suc fuel) prev (b ∷ rest) message messages =
    let skip = scan fuel (some b) rest message messages in
    let next_packet = scan fuel (some b) rest (bytearray []) (messages ++ (message ∷ [])) in
    let packet_end = λ (m : Buffer).
      scan fuel (get_elem? rest 2) (drop 3 rest) (int_list []) (messages ++ (m ∷ [])) in
    let other = scan fuel (some b) rest (appended message b) messages in
    if is_ack b && is_empty message
    then skip
    else if b == b'$' && (not (is_empty message) && unescaped_behind prev)
    then next_packet
    else if b == b'#' && (unescaped_behind prev && ltb 1 (length rest))
    then (plus message (b ∷ take 2 rest) >>= packet_end)
    else other

-- message == b"\x03", false for a list
abbrev pub is_interrupt : Buffer → Bool
is_interrupt (bytearray (c ∷ [])) = c == 3
is_interrupt _ = false

abbrev pub with_interrupt : Buffer × List Buffer → List Buffer
with_interrupt (message, messages) =
    if is_interrupt message then messages ++ (message ∷ []) else messages

-- The messages that one call cuts from `self.data`, all of which it drops.
unfoldable pub cut : Bytes → Result (List Buffer)
unfolding scan
cut bytes = scan (length bytes) none bytes (bytearray []) [] >>= λ r. ok (with_interrupt r)
