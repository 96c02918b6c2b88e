-- ===== src/Tapes/Format/Aligned.antt =====
-- create.py: the lengths of the blocks that to_synapse_format writes.
use armv.Common.{
  ℕ, suc, ◌+◌, ◌-◌, ◌*◌, ◌/◌, ◌%◌, ◌^◌, ◌≡◌, refl, Bool, [], ◌∷◌, ◌++◌, Option, none, some, Result,
  ok, raised, ◌>>=◌, arith, Bool-cases, inl, inr, ltb, length, length-append, length-take,
  length-replicate, take, replicate,
}
use armv.Common.Bytes.{Bytes, pack_u32, ascii}
use armv.Common.Text.{Text}
use armv.Tapes.Format.{pad, pack_word, padded_name, sections, with_entry, to_synapse_format}
use mathlib.Core.Path.{subst}

-- What holds of a result unless it is an exception.
abbrev OnOk : {A : Type 0} → (A → Type 0) → Result A → Type 0
OnOk P (ok a) = P a
OnOk P (raised e) = Unit

then_ok :
    {A B : Type 0} (P : A → Type 0) (Q : B → Type 0) (r : Result A) (f : A → Result B)
    → OnOk P r
    → ((a : A) → P a → OnOk Q (f a))
    → OnOk Q (r >>= f)
then_ok P Q (ok a) f h k = k a h
then_ok P Q (raised e) f h k = tt

abbrev IsLong : ℕ → Bytes → Type 0
IsLong n bs = length bs ≡ n

-- A length that is a multiple of four.
abbrev pub IsAligned : Bytes → Type 0
IsAligned bs = length bs % 4 ≡ 0

pack_u32-IsLong : (n : ℕ) → OnOk (IsLong 4) (pack_u32 n)
unfolding pack_u32
pack_u32-IsLong n = elim (Bool-cases (ltb n (2 ^ 32))) [ inl e ↦ rw e refl | inr e ↦ rw e tt ]

pack_word-IsLong : (n : Option ℕ) → OnOk (IsLong 4) (pack_word n)
pack_word-IsLong none = tt
pack_word-IsLong (some n) = pack_u32-IsLong n

ascii-IsLong : (cs : Text) → OnOk (IsLong (length cs)) (ascii cs)
unfolding ascii
ascii-IsLong [] = refl
ascii-IsLong (c ∷ cs) = elim (Bool-cases (ltb c 128)) [
  | inl e ↦ rw e (
      then_ok (IsLong (length cs)) (IsLong (suc (length cs))) (ascii cs) (λ r. ok (c ∷ r))
        (ascii-IsLong cs) (λ r h. omega (arith, h)))
  | inr e ↦ rw e tt
]

pad-IsAligned : (bs : Bytes) → IsAligned (pad bs 4)
unfolding pad
pad-IsAligned bs =
    let target = (length bs + 3) / 4 * 4 in
    elim (Bool-cases (ltb (length bs) target)) [
      | inl e ↦ rw e (
          ground (
            arith,
            length-append bs (replicate (target - length bs) 0),
            length-replicate {A = ℕ} (target - length bs) 0,
          ))
      | inr e ↦ rw e (ground arith)
    ]

length-padded_name : (name : Text) → length (padded_name name) ≡ 16
unfolding padded_name
length-padded_name name = omega (
  arith,
  length-append (take 15 name) (replicate (16 - length (take 15 name)) 0),
  length-replicate {A = ℕ} (16 - length (take 15 name)) 0,
  length-take 15 name,
)

sections-IsAligned :
    (bs symbols : Bytes) (entry : Option ℕ) (final : Bool)
    → IsAligned bs
    → IsAligned symbols
    → OnOk IsAligned (sections bs symbols entry final)
unfolding sections
sections-IsAligned bs symbols entry final h k =
    then_ok (IsLong 4) IsAligned (pack_u32 _) _ (pack_u32-IsLong _) (λ flags f.
      then_ok (IsLong 4) IsAligned (pack_u32 _) _ (pack_u32-IsLong _) (λ len l. omega (
        arith,
        length-append flags (bs ++ (len ++ symbols)),
        length-append bs (len ++ symbols),
        length-append len symbols,
      )))

with_entry-IsAligned :
    (entry : Option ℕ) (name : Text) (v_addr : Option ℕ) (out : Bytes)
    → IsAligned out
    → OnOk IsAligned (with_entry entry name v_addr out)
unfolding with_entry
with_entry-IsAligned none name v_addr out h = h
with_entry-IsAligned (some entry) name v_addr out h =
    then_ok (IsLong 4) IsAligned (pack_u32 entry) _ (pack_u32-IsLong entry) (λ e he.
      then_ok (IsLong (length (padded_name name))) IsAligned (ascii (padded_name name)) _
        (ascii-IsLong (padded_name name))
        (λ n hn.
          then_ok (IsLong 4) IsAligned (pack_word v_addr) _ (pack_word-IsLong v_addr) (λ a ha.
            omega (
              arith,
              length-append e (n ++ (a ++ out)),
              length-append n (a ++ out),
              length-append a out,
              length-padded_name name,
            ))))

pub to_synapse_format-IsAligned :
    (bs symbols : Bytes) (name : Text) (v_addr entry : Option ℕ) (final : Bool) (out : Bytes)
    → to_synapse_format bs symbols name v_addr entry final ≡ ok out
    → IsAligned out
unfolding to_synapse_format
to_synapse_format-IsAligned bs symbols name v_addr entry final out e = subst (OnOk IsAligned) e (
    then_ok IsAligned IsAligned (sections (pad bs 4) (pad symbols 4) entry final) _
      (sections-IsAligned (pad bs 4) (pad symbols 4) entry final (pad-IsAligned bs)
        (pad-IsAligned symbols))
      (λ body h. with_entry-IsAligned entry name v_addr body h))
