-- ===== src/Custom/Factory/Parses.antt =====
-- comms/custom.py: the exceptions that the constructors of the messages and from_binary can raise.
use armv.Common.{
  ℕ, zero, suc, ◌+◌, ◌≤◌, ◌<◌, ◌≡◌, inl, inr, Bool, true, false, List, [], ◌∷◌, Option, none, some,
  Option-cases, Bool-cases, Result, ok, raised, Exn, key_error, type_error, comms_error, name_error,
  attribute_error, access_error, overflow_error, runtime_error, exception, assertion_error, no_fuel,
  ◌>>=◌, arith, ◌==◌, if◌then◌else◌, ltb, length, take, drop, length-drop, get_elem?, slice, ◌/◌,
}
use armv.Common.Bytes.{Bytes, unpack_u32, unpack_u32s, ascii}
use armv.Common.Text.{Text, split, split_once}
use armv.Custom.Message.{Types, Message}
use armv.Custom.Factory.{
  unpack_u16, decode_all, words, byte_at, mode_pc, mem_view_of, tapes_view_of, tape_reply_of,
  mem_view_reply_of, disassembly_view_of, disassembly_of, symbols_loop, from_word, from_binary,
}

-- What from_binary can raise.
abbrev pub Parses : Exn → Type 0
Parses key_error = Unit
Parses comms_error = Unit
Parses type_error = ⊥
Parses no_fuel = ⊥
Parses name_error = ⊥
Parses attribute_error = ⊥
Parses access_error = ⊥
Parses overflow_error = ⊥
Parses runtime_error = ⊥
Parses exception = ⊥
Parses assertion_error = ⊥
Parses _ = Unit

module _ {ℓ} {A : Type ℓ} where
  abbrev pub Only : Result A → Type 0
  Only (ok a) = Unit
  Only (raised e) = Parses e

module _ {ℓ κ} {A : Type ℓ} {B : Type κ} where
  Only-bind : (m : Result A) (f : A → Result B) → Only m → ((a : A) → Only (f a)) → Only (m >>= f)
  Only-bind (ok a) f h k = k a
  Only-bind (raised e) f h k = h

module _ {ℓ} {A : Type ℓ} where
  Only-if : (b : Bool) (x y : Result A) → Only x → Only y → Only (if b then x else y)
  Only-if true x y h k = h
  Only-if false x y h k = k

pub unpack_u32-Only : (bs : Bytes) → Only (unpack_u32 bs)
unfolding unpack_u32
unpack_u32-Only [] = tt
unpack_u32-Only (a ∷ b ∷ c ∷ d ∷ []) = tt
unpack_u32-Only _ = tt

unpack_u16-Only : (bs : Bytes) → Only (unpack_u16 bs)
unfolding unpack_u16
unpack_u16-Only [] = tt
unpack_u16-Only (a ∷ b ∷ []) = tt
unpack_u16-Only _ = tt

unpack_u32s-Only : (k : ℕ) (bs : Bytes) → Only (unpack_u32s k bs)
unfolding unpack_u32s
unpack_u32s-Only zero [] = tt
unpack_u32s-Only (suc k) (a ∷ b ∷ c ∷ d ∷ bs) =
    Only-bind (unpack_u32s k bs) _ (unpack_u32s-Only k bs) (λ ns. tt)
unpack_u32s-Only _ _ = tt

ascii-Only : (cs : List ℕ) → Only (ascii cs)
unfolding ascii
ascii-Only [] = tt
ascii-Only (c ∷ cs) = Only-if (ltb c 128) _ _ (Only-bind (ascii cs) _ (ascii-Only cs) (λ r. tt)) tt

decode_all-Only : (ws : List Bytes) → Only (decode_all ws)
unfolding decode_all
decode_all-Only [] = tt
decode_all-Only (w ∷ ws) =
    Only-bind _ _ (ascii-Only w) (λ t. Only-bind _ _ (decode_all-Only ws) (λ ts. tt))

words-Only : (k : ℕ) (bs : Bytes) → Only (words k bs)
unfolding words
words-Only zero bs = tt
words-Only (suc k) bs =
    Only-bind _ _ (unpack_u32-Only (take 4 bs))
      (λ w. Only-bind _ _ (words-Only k (drop 4 bs)) (λ ws. tt))

byte_at-Only : (bs : Bytes) (i : ℕ) → Only (byte_at bs i)
unfolding byte_at
byte_at-Only bs i = elim (Option-cases (get_elem? bs i)) [
  | inl e ↦ rw (e, Only) tt
  | inr (b, e) ↦ rw (e, Only) tt
]

split_once-shorter :
    (sep : ℕ) (bs : Bytes) (w rest : Text)
    → split_once sep bs ≡ some (w, rest)
    → length rest < length bs
unfolding split_once
split_once-shorter sep [] w rest e = cc
split_once-shorter sep (c ∷ cs) w rest e = elim (Bool-cases (c == sep)) [
  | inl h ↦ ground arith
  | inr h ↦ elim (Option-cases (split_once sep cs)) [
    | inl n ↦ ground arith
    | inr ((v, r), s) ↦ ground (arith, split_once-shorter sep cs v r s)
  ]
]

named-Only :
    (addr : ℕ) (name : Text) (rest : Result (List (ℕ × Text)))
    → Only rest
    → Only (ascii name >>= λ n. rest >>= λ others. ok ((addr, n) ∷ others))
named-Only addr name rest h =
    Only-bind _ _ (ascii-Only name) (λ n. Only-bind rest _ h (λ others. tt))

-- Each symbol takes a byte at least, so the length is enough fuel.
symbols_loop-Only : (fuel : ℕ) (bs : Bytes) → length bs ≤ fuel → Only (symbols_loop fuel bs)
unfolding symbols_loop
symbols_loop-Only fuel [] h = tt
symbols_loop-Only zero (b ∷ bs) h = absurd (omega arith)
symbols_loop-Only (suc fuel) (b ∷ bs) h = Only-bind _ _ (unpack_u32-Only (take 4 (b ∷ bs))) (λ addr.
    elim (Option-cases (split_once 0 (drop 4 (b ∷ bs)))) [
      | inl e ↦ rw (e, Only) tt
      | inr ((name, rest), e) ↦
          rw (e, Only)
            (named-Only addr name _ (
              symbols_loop-Only fuel rest (
                omega (
                  arith,
                  split_once-shorter 0 (drop 4 (b ∷ bs)) name rest e,
                  length-drop 4 (b ∷ bs),
                ))))
    ])

mode_pc-Only : (regs ns : List ℕ) (w : Bool) → Only (mode_pc regs ns w)
unfolding mode_pc
mode_pc-Only regs [] w = tt
mode_pc-Only regs (mode ∷ pc ∷ []) w = tt
mode_pc-Only regs _ w = tt

mem_view_of-Only : (ns : List ℕ) → Only (mem_view_of ns)
unfolding mem_view_of
mem_view_of-Only (id ∷ start ∷ size ∷ ws ∷ wn ∷ []) = tt
mem_view_of-Only _ = tt

disassembly_view_of-Only : (ns : List ℕ) → Only (disassembly_view_of ns)
unfolding disassembly_view_of
disassembly_view_of-Only (id ∷ start ∷ size ∷ ws ∷ wn ∷ []) = tt
disassembly_view_of-Only _ = tt

tapes_view_of-Only : (ns : List ℕ) → Only (tapes_view_of ns)
unfolding tapes_view_of
tapes_view_of-Only (id ∷ start ∷ size ∷ []) = tt
tapes_view_of-Only _ = tt

tape_reply_of-Only : (ns : List ℕ) (tapes : List Text) → Only (tape_reply_of ns tapes)
unfolding tape_reply_of
tape_reply_of-Only (id ∷ start ∷ size ∷ max ∷ []) tapes = Only-if (length tapes == size) _ _ tt tt
tape_reply_of-Only _ tapes = tt

mem_view_reply_of-Only : (ns : List ℕ) (bs : Bytes) → Only (mem_view_reply_of ns bs)
unfolding mem_view_reply_of
mem_view_reply_of-Only (id ∷ start ∷ size ∷ []) bs = Only-if (length bs == size) _ _ tt tt
mem_view_reply_of-Only _ bs = tt

disassembly_of-Only : (ns : List ℕ) (bs : Bytes) → Only (disassembly_of ns bs)
unfolding disassembly_of
disassembly_of-Only (start ∷ n ∷ []) bs =
    Only-if (n == length (slice 8 (8 + n) bs)) _ _
      (Only-bind _ _ (decode_all-Only (split b'\n' (drop (8 + n) bs)))
        (λ lines. Only-if (length lines == n / 4) _ _ tt tt))
      tt
disassembly_of-Only _ bs = tt

from_word-Only : (make : ℕ → Message) (bs : Bytes) → Only (from_word make bs)
unfolding from_word
from_word-Only make bs = Only-bind _ _ (unpack_u32-Only (take 4 bs)) (λ n. tt)

pub from_binary-Only : (t : Option Types) (bs : Bytes) → Only (from_binary t bs)
unfolding from_binary
from_binary-Only none bs = tt
from_binary-Only (some Types.connect) bs =
    Only-bind _ _ (unpack_u16-Only (take 2 bs))
      (λ p. Only-bind _ _ (ascii-Only (drop 2 bs)) (λ h. tt))
from_binary-Only (some Types.state) bs = Only-bind _ _ (words-Only 16 bs) (λ regs.
    Only-bind _ _ (unpack_u32s-Only 2 (slice 64 72 bs))
      (λ ns. Only-bind _ _ (byte_at-Only bs 72) (λ b. mode_pc-Only regs ns false)))
from_binary-Only (some Types.memwatch) bs = Only-bind _ _ (unpack_u32s-Only 5 bs) mem_view_of-Only
from_binary-Only (some Types.memdata) bs =
    Only-bind _ _ (unpack_u32s-Only 3 (take 12 bs)) (λ ns. mem_view_reply_of-Only ns (drop 12 bs))
from_binary-Only (some Types.disassembly) bs =
    Only-bind _ _ (unpack_u32s-Only 5 bs) disassembly_view_of-Only
from_binary-Only (some Types.disassemblydata) bs =
    Only-bind _ _ (unpack_u32s-Only 2 (take 8 bs)) (λ ns. disassembly_of-Only ns bs)
from_binary-Only (some Types.taperequest) bs =
    Only-bind _ _ (unpack_u32s-Only 3 bs) tapes_view_of-Only
from_binary-Only (some Types.tape_list) bs = Only-bind _ _ (unpack_u32s-Only 4 (take 16 bs)) (λ ns.
    Only-bind _ _ (decode_all-Only (split 0 (drop 16 bs))) (λ tapes. tape_reply_of-Only ns tapes))
from_binary-Only (some Types.symbol_data) bs =
    Only-bind _ _ (symbols_loop-Only (length bs) bs (omega arith)) (λ l. tt)
from_binary-Only (some Types.setbkpt) bs = from_word-Only _ bs
from_binary-Only (some Types.unsetbkpt) bs = from_word-Only _ bs
from_binary-Only (some Types.tape_load) bs = from_word-Only _ bs
from_binary-Only (some _) bs = tt
