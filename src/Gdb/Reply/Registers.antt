-- ===== src/Gdb/Reply/Registers.antt =====
-- comms/gdb.py: SetRegisters on the text that RegisterValues sends.
use armv.Common.{
  ℕ, zero, suc, ◌*◌, ◌%◌, ◌^◌, ◌≤◌, ◌<◌, ◌≡◌, refl, sym, ap, ◌∙◌, List, [], ◌∷◌, ◌++◌, append_assoc,
  some, ok, ◌>>=◌, arith, All, All-append, length, length-append, get_elem?, get_elem?-append,
  take-append_eq, lt→ltb,
}
use armv.Common.Bytes.{Bytes, IsU32}
use armv.Common.Int.{ℤ, pos}
use armv.Gdb.Hex.{hex_fixed, hex_pad}
use armv.Gdb.Hex.Laws.{int_of-hex_fixed, length-hex_fixed}
use armv.Gdb.Packet.{byte_swap}
use armv.Gdb.Request.{set_registers, numbers, swapped, item, set_registers_from}
use armv.Gdb.Reply.{words_text, wide_text, fp_regs, registers_text}

pub byte_swap-lt : (n : ℕ) → byte_swap n < 2 ^ 32
unfolding byte_swap
byte_swap-lt n = omega arith

-- Swapping the bytes of a 32-bit word twice gives the word back.
pub byte_swap-byte_swap : (n : ℕ) → IsU32 n → byte_swap (byte_swap n) ≡ n
unfolding byte_swap
byte_swap-byte_swap n h = omega arith

-- The text of a word is eight digits.
word_digits : (w : ℕ) → hex_pad 8 (byte_swap w) ≡ hex_fixed 8 (byte_swap w)
unfolding hex_pad
word_digits w = rw (lt→ltb (byte_swap w) (16 ^ 8) (byte_swap-lt w))

words_text-append : (v w : List ℕ) → words_text (v ++ w) ≡ words_text v ++ words_text w
unfolding words_text
words_text-append [] w = refl
words_text-append (x ∷ v) w =
    ap (λ t. hex_pad 8 (byte_swap x) ++ t) (words_text-append v w)
    ∙ sym (append_assoc (hex_pad 8 (byte_swap x)) (words_text v) (words_text w))

abbrev swaps : List ℕ → List ℤ
swaps [] = []
swaps (w ∷ ws) = pos (byte_swap w) ∷ swaps ws

-- One round of the loop over the text of a word.
numbers-word :
    (fuel w : ℕ) (rest : Bytes)
    → numbers (suc fuel) 8 (hex_fixed 8 (byte_swap w) ++ rest)
      ≡ (numbers fuel 8 rest >>= λ ns. ok (pos (byte_swap w) ∷ ns))
unfolding numbers hex_fixed
numbers-word fuel w rest = rw (int_of-hex_fixed 7 (byte_swap w) (byte_swap-lt w))

words_text_cons :
    (w : ℕ) (ws : List ℕ) → words_text (w ∷ ws) ≡ hex_fixed 8 (byte_swap w) ++ words_text ws
unfolding words_text
words_text_cons w ws = rw (word_digits w)

length-words_text : (ws : List ℕ) → length (words_text ws) ≡ 8 * length ws
length-words_text [] = unfold words_text in refl
length-words_text (w ∷ ws) = rw (words_text_cons w ws) (
    omega (
      arith,
      length-append (hex_fixed 8 (byte_swap w)) (words_text ws),
      length-hex_fixed 8 (byte_swap w),
      length-words_text ws,
    ))

-- The words of a text of words, before and after their bytes are swapped.
numbers-words_text :
    (ws : List ℕ) (fuel : ℕ) → length ws ≤ fuel → numbers fuel 8 (words_text ws) ≡ ok (swaps ws)
numbers-words_text [] fuel h = unfold words_text numbers in refl
numbers-words_text (w ∷ ws) zero h = absurd (omega arith)
numbers-words_text (w ∷ ws) (suc fuel) h = rw (
  words_text_cons w ws,
  numbers-word fuel w (words_text ws),
  numbers-words_text ws fuel (omega arith),
)

swapped-swaps : (ws : List ℕ) → All IsU32 ws → swapped (swaps ws) ≡ ws
swapped-swaps [] h = refl
swapped-swaps (w ∷ ws) h = rw (low w, byte_swap-byte_swap w h.0, swapped-swaps ws h.1)
  where
    low : (w : ℕ) → byte_swap w % 2 ^ 32 ≡ byte_swap w
    low w = omega (arith, byte_swap-lt w)

abbrev zeros : ℕ → List ℕ
zeros zero = []
zeros (suc n) = 0 ∷ zeros n

fp_text : wide_text fp_regs ≡ words_text (zeros 24)
unfolding wide_text words_text
fp_text = refl

registers_text-words_text :
    (regs : List ℕ) (pc mode : ℕ)
    → registers_text regs pc mode ≡ words_text (regs ++ (pc ∷ (zeros 24 ++ (0 ∷ mode ∷ []))))
unfolding registers_text
registers_text-words_text regs pc mode = rw (
  fp_text,
  ← words_text-append (zeros 24) (0 ∷ mode ∷ []),
  ← words_text-append (regs ++ (pc ∷ [])) (zeros 24 ++ (0 ∷ mode ∷ [])),
  append_assoc regs (pc ∷ []) (zeros 24 ++ (0 ∷ mode ∷ [])),
)

item-at : (ns : List ℕ) (i n : ℕ) → get_elem? ns i ≡ some n → item ns i ≡ ok n
item-at ns i n e = rw (e, item)

-- A `G` request that carries the text of a RegisterValues gives r0 to r14 and the pc back. Its fps
-- and cpsr are 0 whatever the mode was: words 24 and 25 lie among the floating point registers, and
-- the mode is word 41.
pub set_registers_from-registers_text :
    (regs : List ℕ) (pc mode : ℕ)
    → length regs ≡ 15
    → All IsU32 regs
    → IsU32 pc
    → IsU32 mode
    → set_registers_from (b'G' ∷ registers_text regs pc mode) ≡ ok (set_registers regs pc 0 0)
unfolding set_registers_from
set_registers_from-registers_text regs pc mode long hr hp hm =
    let words = regs ++ (pc ∷ (zeros 24 ++ (0 ∷ mode ∷ []))) in
    let rest = pc ∷ (zeros 24 ++ (0 ∷ mode ∷ [])) in
    rw (
      registers_text-words_text regs pc mode,
      numbers-words_text words (suc (length (words_text words)))
          (omega (arith, length-words_text words)),
      swapped-swaps words (All-append IsU32 regs rest hr (omega arith)),
      item-at words 15 pc (get_elem?-append regs rest 0 15 (omega arith)),
      item-at words 24 0 (get_elem?-append regs rest 9 24 (omega arith)),
      item-at words 25 0 (get_elem?-append regs rest 10 25 (omega arith)),
      take-append_eq 15 regs rest long,
    )
