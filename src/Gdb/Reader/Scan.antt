-- ===== src/Gdb/Reader/Scan.antt =====
-- comms/gdb.py: what process_data cuts from a read that holds one packet, and from one with two.
use armv.Common.{
  ℕ, zero, suc, ◌+◌, ◌<◌, ◌≡◌, ◌≢◌, refl, ap, ◌∙◌, Bool, true, false, ◌&&◌, List, [], ◌∷◌, ◌++◌,
  Option, none, some, Result, ok, raised, type_error, arith, All, if◌then◌else◌, length,
  length-append, append_assoc, append-nil, ne→==, ◌⊎◌, get_elem?, drop,
}
use armv.Common.Bytes.{Bytes}
use armv.Gdb.Packet.{escape_byte}
use armv.Gdb.Packet.Escapes.{IsQuiet, IsPayload, last_of}
use armv.Gdb.Reader.{Buffer, bytearray, int_list, appended, is_empty, is_ack, scan, cut}

abbrev pub IsAck : ℕ → Type 0
IsAck b = (b ≡ b'+') ⊎ (b ≡ b'-')

is_ack-true : (b : ℕ) → IsAck b → is_ack b ≡ true
is_ack-true b h = ground arith

abbrev prev_of : Option ℕ → Bytes → Option ℕ
prev_of prev [] = prev
prev_of prev (b ∷ bs) = prev_of (some b) bs

-- Acknowledgements in front of a packet are skipped.
scan-acks :
    (acks : Bytes) (fuel more : ℕ) (prev : Option ℕ) (rest : Bytes) (messages : List Buffer)
    → All IsAck acks
    → fuel ≡ length acks + more
    → scan fuel prev (acks ++ rest) (bytearray []) messages
      ≡ scan more (prev_of prev acks) rest (bytearray []) messages
unfolding scan
scan-acks [] fuel more prev rest messages h e =
    ap (λ f. scan f prev rest (bytearray []) messages) (omega arith)
scan-acks (b ∷ acks) zero more prev rest messages h e = absurd (omega arith)
scan-acks (b ∷ acks) (suc fuel) more prev rest messages h e =
    rw (is_ack-true b h.0) (scan-acks acks fuel more (some b) rest messages h.1 (omega arith))

abbrev filled : Buffer → Bytes → Buffer
filled m [] = m
filled m (b ∷ p) = filled (appended m b) p

filled_bytearray : (bs p : Bytes) → filled (bytearray bs) p ≡ bytearray (bs ++ p)
filled_bytearray bs [] = rw append-nil
filled_bytearray bs (b ∷ p) =
    filled_bytearray (bs ++ (b ∷ [])) p ∙ ap bytearray (append_assoc bs (b ∷ []) p)

is_empty-appended : (m : Buffer) (b : ℕ) → is_empty (appended m b) ≡ false
is_empty-appended (bytearray bs) b = ground (arith, length-append bs (b ∷ []))
is_empty-appended (int_list ns) b = ground (arith, length-append ns (b ∷ []))

and-false : (b : Bool) → (b && false) ≡ false
and-false true = refl
and-false false = refl

-- Quiet bytes join a message that has begun.
scan-quiet :
    (p : Bytes) (fuel more prev : ℕ) (rest : Bytes) (message : Buffer) (messages : List Buffer)
    → All IsQuiet p
    → fuel ≡ length p + more
    → is_empty message ≡ false
    → scan fuel (some prev) (p ++ rest) message messages
      ≡ scan more (some (last_of prev p)) rest (filled message p) messages
unfolding scan
scan-quiet [] fuel more prev rest message messages h e full =
    ap (λ f. scan f (some prev) rest message messages) (omega arith)
scan-quiet (b ∷ p) zero more prev rest message messages h e full = absurd (omega arith)
scan-quiet (b ∷ p) (suc fuel) more prev rest message messages h e full =
    rw (full, and-false (is_ack b), ne→== b b'$' h.0.1, ne→== b b'#' h.0.0)
      (scan-quiet p fuel more b rest (appended message b) messages h.1 (omega arith)
        (is_empty-appended message b))

-- The dollar that begins a packet.
scan_dollar :
    (fuel : ℕ) (prev : Option ℕ) (rest : Bytes) (message : Buffer) (messages : List Buffer)
    → is_empty message ≡ true
    → scan (suc fuel) prev (b'$' ∷ rest) message messages
      ≡ scan fuel (some b'$') rest (appended message b'$') messages
unfolding scan
scan_dollar fuel prev rest message messages e = rw e

-- The hash that ends a packet, with its checksum behind it.
scan_hash :
    (fuel prev c d : ℕ) (rest : Bytes) (bs : Bytes) (messages : List Buffer)
    → prev ≢ escape_byte
    → scan (suc fuel) (some prev) (b'#' ∷ c ∷ d ∷ rest) (bytearray bs) messages
      ≡ scan fuel
          (get_elem? rest 0)
          (drop 1 rest)
          (int_list [])
          (messages ++ (bytearray (bs ++ (b'#' ∷ c ∷ d ∷ [])) ∷ []))
unfolding scan
scan_hash fuel prev c d rest bs messages h = rw (ne→== prev escape_byte h) (ground arith)

-- A packet with the two bytes `c` and `d` as its checksum, and `rest` behind it.
abbrev pub packet : Bytes → ℕ → ℕ → Bytes → Bytes
packet p c d rest = b'$' ∷ (p ++ (b'#' ∷ c ∷ d ∷ rest))

scan-packet :
    (acks p : Bytes) (c d : ℕ) (rest : Bytes)
    → All IsAck acks
    → IsPayload p
    → scan (length (acks ++ packet p c d rest)) none (acks ++ packet p c d rest) (bytearray []) []
      ≡ scan
          (suc (suc (length rest)))
          (get_elem? rest 0)
          (drop 1 rest)
          (int_list [])
          (bytearray (packet p c d []) ∷ [])
scan-packet acks p c d rest ha (hq, hl) =
    scan-acks acks (length (acks ++ packet p c d rest))
      (suc (length p + suc (suc (suc (length rest))))) none (packet p c d rest) [] ha
      (omega (arith, length-append acks (packet p c d rest), length-append p (b'#' ∷ c ∷ d ∷ rest)))
    ∙ scan_dollar (length p + suc (suc (suc (length rest)))) (prev_of none acks)
        (p ++ (b'#' ∷ c ∷ d ∷ rest)) (bytearray []) [] refl
    ∙ scan-quiet p (length p + suc (suc (suc (length rest)))) (suc (suc (suc (length rest)))) b'$'
        (b'#' ∷ c ∷ d ∷ rest) (bytearray (b'$' ∷ [])) [] hq refl refl
    ∙ ap
        (λ m.
          scan (suc (suc (suc (length rest)))) (some (last_of b'$' p)) (b'#' ∷ c ∷ d ∷ rest) m [])
        (filled_bytearray (b'$' ∷ []) p)
    ∙ scan_hash (suc (suc (length rest))) (last_of b'$' p) c d rest (b'$' ∷ p) [] hl

-- One packet behind acknowledgements is cut out whole.
pub cut-packet :
    (acks p : Bytes) (c d : ℕ)
    → All IsAck acks
    → IsPayload p
    → cut (acks ++ packet p c d []) ≡ ok (bytearray (packet p c d []) ∷ [])
unfolding cut
cut-packet acks p c d ha hp = rw (scan-packet acks p c d [] ha hp)

-- Behind a packet `message` is a list, and the next end of a packet adds bytes to it.
scan_list-quiet :
    (q : Bytes) (fuel e f prev : ℕ) (ns : List ℕ) (tail : Bytes) (messages : List Buffer)
    → All IsQuiet q
    → length q < fuel
    → last_of prev q ≢ escape_byte
    → scan fuel (some prev) (q ++ (b'#' ∷ e ∷ f ∷ tail)) (int_list ns) messages ≡ raised type_error
unfolding scan
scan_list-quiet [] zero e f prev ns tail messages h k l = absurd (omega arith)
scan_list-quiet [] (suc fuel) e f prev ns tail messages h k l =
    rw (ne→== prev escape_byte l) (ground arith)
scan_list-quiet (b ∷ q) zero e f prev ns tail messages h k l = absurd (omega arith)
scan_list-quiet (b ∷ q) (suc fuel) e f prev ns tail messages h k l =
    rw (ne→== b b'$' h.0.1, ne→== b b'#' h.0.0)
      (either (is_ack b && is_empty (int_list ns))
        (scan_list-quiet q fuel e f b ns tail messages h.1 (omega arith) l)
        (scan_list-quiet q fuel e f b (ns ++ (b ∷ [])) tail messages h.1 (omega arith) l))
  where
    either :
        (t : Bool) {x y : Result (Buffer × List Buffer)}
        → x ≡ raised type_error
        → y ≡ raised type_error
        → (if t then x else y) ≡ raised type_error
    either true p q = p
    either false p q = q

scan_list-packet :
    (acks q : Bytes) (fuel e f : ℕ) (prev : Option ℕ) (tail : Bytes) (messages : List Buffer)
    → All IsAck acks
    → IsPayload q
    → length acks + suc (length q) < fuel
    → scan fuel prev (acks ++ packet q e f tail) (int_list []) messages ≡ raised type_error
unfolding scan
scan_list-packet acks q zero e f prev tail messages h hq k = absurd (omega arith)
scan_list-packet [] q (suc fuel) e f prev tail messages h hq k =
    scan_list-quiet q fuel e f b'$' (b'$' ∷ []) tail messages hq.0 (omega arith) hq.1
scan_list-packet (b ∷ acks) q (suc fuel) e f prev tail messages h hq k =
    rw (is_ack-true b h.0)
      (scan_list-packet acks q fuel e f (some b) tail messages h.1 hq (omega arith))

behind_packet :
    (acks q : Bytes) (e f : ℕ) (tail : Bytes) (messages : List Buffer)
    → All IsAck acks
    → IsPayload q
    → let more = acks ++ packet q e f tail in
      scan (suc (suc (length more))) (get_elem? more 0) (drop 1 more) (int_list []) messages
      ≡ raised type_error
behind_packet [] q e f tail messages h hq =
    scan_list-quiet q (suc (suc (length (packet q e f tail)))) e f b'$' [] tail messages hq.0
      (omega (arith, length-append q (b'#' ∷ e ∷ f ∷ tail))) hq.1
behind_packet (b ∷ acks) q e f tail messages h hq =
    scan_list-packet acks q (suc (suc (length (b ∷ acks ++ packet q e f tail)))) e f (some b) tail
      messages h.1 hq
      (omega (arith, length-append acks (packet q e f tail), length-append q (b'#' ∷ e ∷ f ∷ tail)))

-- A read that holds a second packet behind the first, with or without acknowledgements between
-- them, raises TypeError: behind the first packet the message is a list, to which bytes cannot be
-- added.
pub cut_two-packet :
    (acks p between q : Bytes) (c d e f : ℕ) (tail : Bytes)
    → All IsAck acks
    → IsPayload p
    → All IsAck between
    → IsPayload q
    → cut (acks ++ packet p c d (between ++ packet q e f tail)) ≡ raised type_error
unfolding cut
cut_two-packet acks p between q c d e f tail ha hp hb hq = rw (
  scan-packet acks p c d (between ++ packet q e f tail) ha hp,
  behind_packet between q e f tail (bytearray (packet p c d []) ∷ []) hb hq,
)
