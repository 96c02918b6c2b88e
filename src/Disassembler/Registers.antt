-- ===== src/Disassembler/Registers.antt =====
-- disassemble.py, RegisterList: the runs are the registers of the list.
use armv.Common.{
  ℕ, zero, suc, ◌<◌, ◌≤◌, ◌≡◌, refl, sym, ap, ◌∙◌, arith, true, false, List, [], ◌∷◌, ◌++◌,
  append-nil, append_assoc, Option, none, some, ◌==◌, if◌then◌else◌, leb, Bool-cases, inl, inr,
  le→leb, some_eq, ==_iff,
}
use armv.Disassembler.Fields.{flag}
use armv.Disassembler.Operands.{Runs, scan_bit, scan, close_run, register_runs}

-- The numbers from `start` on below `stop`.
unfoldable pub up_to : ℕ → ℕ → List ℕ
up_to start zero = []
up_to start (suc stop) = if leb start stop then up_to start stop ++ (stop ∷ []) else []

-- The registers of some runs, in order.
unfoldable pub members : List (ℕ × ℕ) → List ℕ
unfolding up_to
members [] = []
members ((start, stop) ∷ runs) = up_to start stop ++ members runs

-- The registers below `count` whose bits are set.
unfoldable pub set_bits : ℕ → ℕ → List ℕ
set_bits bits zero = []
set_bits bits (suc i) = set_bits bits i ++ (if flag bits i then i ∷ [] else [])

members-append : (runs more : List (ℕ × ℕ)) → members (runs ++ more) ≡ members runs ++ members more
unfolding members
members-append [] more = refl
members-append ((start, stop) ∷ runs) more =
    rw (members-append runs more)
      (sym (append_assoc (up_to start stop) (members runs) (members more)))

members-snoc :
    (runs : List (ℕ × ℕ)) (start stop : ℕ)
    → members (runs ++ ((start, stop) ∷ [])) ≡ members runs ++ up_to start stop
members-snoc runs start stop =
    members-append runs ((start, stop) ∷ []) ∙ ap (λ l. members runs ++ l) (one_run start stop)
  where
    one_run : (start stop : ℕ) → members ((start, stop) ∷ []) ≡ up_to start stop
    one_run start stop = unfold members in append-nil (up_to start stop)

up_to-suc :
    (start stop : ℕ) → start ≤ stop → up_to start (suc stop) ≡ up_to start stop ++ (stop ∷ [])
unfolding up_to
up_to-suc start stop h = rw (le→leb start stop h)

up_to_none : (start stop : ℕ) → stop ≤ start → up_to start stop ≡ []
unfolding up_to
up_to_none start zero h = refl
up_to_none start (suc stop) h = ground arith

-- The registers of the run that is open at `i`.
abbrev open_run : ℕ → Option ℕ → List ℕ
open_run i none = []
open_run i (some on) = up_to on i

-- At `i` the loop has seen the set bits below it.
record IsScanned (bits i : ℕ) (r : Runs) : Type 0 where
  seen : members r.1 ++ open_run i r.0 ≡ set_bits bits i
  begun : (on : ℕ) → r.0 ≡ some on → on ≤ i
  all_set : r.0 ≡ some 0 → (j : ℕ) → j < i → flag bits j ≡ true

set_bits_on :
    (bits i : ℕ) → flag bits i ≡ true → set_bits bits (suc i) ≡ set_bits bits i ++ (i ∷ [])
unfolding set_bits
set_bits_on bits i e = rw e

set_bits_off : (bits i : ℕ) → flag bits i ≡ false → set_bits bits (suc i) ≡ set_bits bits i
unfolding set_bits
set_bits_off bits i e = rw (e, append-nil (set_bits bits i))

begin-IsScanned :
    (bits i : ℕ) (runs : List (ℕ × ℕ))
    → flag bits i ≡ true
    → IsScanned bits i (none, runs)
    → IsScanned bits (suc i) (some i, runs)
begin-IsScanned bits i runs e h = record {
  seen =
      ap (λ l. members runs ++ l)
        (up_to-suc i i (omega arith) ∙ ap (λ l. l ++ (i ∷ [])) (up_to_none i i (omega arith)))
      ∙ ap (λ l. l ++ (i ∷ [])) (sym (append-nil (members runs)) ∙ h.seen)
      ∙ sym (set_bits_on bits i e);
  begun = λ on same. omega (arith, some_eq same);
  all_set = λ same j l. ap (flag bits) (only same j l) ∙ e;
}
  where
    only : some i ≡ some 0 → (j : ℕ) → j < suc i → j ≡ i
    only same j l = omega (arith, some_eq same)

go_on-IsScanned :
    (bits i on : ℕ) (runs : List (ℕ × ℕ))
    → flag bits i ≡ true
    → IsScanned bits i (some on, runs)
    → IsScanned bits (suc i) (some on, runs)
go_on-IsScanned bits i on runs e h = record {
  seen =
      ap (λ l. members runs ++ l) (up_to-suc on i (h.begun on refl))
      ∙ sym (append_assoc (members runs) (up_to on i) (i ∷ []))
      ∙ ap (λ l. l ++ (i ∷ [])) h.seen
      ∙ sym (set_bits_on bits i e);
  begun = λ o same. omega (arith, h.begun o same);
  all_set = λ same j l. elim (Bool-cases (j == i)) [
    | inl q ↦ ap (flag bits) ((==_iff j i).0 q) ∙ e
    | inr q ↦ h.all_set same j (ground arith)
  ];
}

end-IsScanned :
    (bits i on : ℕ) (runs : List (ℕ × ℕ))
    → flag bits i ≡ false
    → IsScanned bits i (some on, runs)
    → IsScanned bits (suc i) (none, runs ++ ((on, i) ∷ []))
end-IsScanned bits i on runs e h = record {
  seen = append-nil _ ∙ members-snoc runs on i ∙ h.seen ∙ sym (set_bits_off bits i e);
  begun = λ o same. cc;
  all_set = λ same j l. cc;
}

rest-IsScanned :
    (bits i : ℕ) (runs : List (ℕ × ℕ))
    → flag bits i ≡ false
    → IsScanned bits i (none, runs)
    → IsScanned bits (suc i) (none, runs)
rest-IsScanned bits i runs e h = record {
  seen = h.seen ∙ sym (set_bits_off bits i e);
  begun = λ o same. cc;
  all_set = λ same j l. cc;
}

scan_bit-IsScanned :
    (bits i : ℕ) (r : Runs) → IsScanned bits i r → IsScanned bits (suc i) (scan_bit bits i r)
unfolding scan_bit
scan_bit-IsScanned bits i (none, runs) h = elim (Bool-cases (flag bits i)) [
  | inl e ↦ rw e (begin-IsScanned bits i runs e h)
  | inr e ↦ rw e (rest-IsScanned bits i runs e h)
]
scan_bit-IsScanned bits i (some on, runs) h = elim (Bool-cases (flag bits i)) [
  | inl e ↦ rw e (go_on-IsScanned bits i on runs e h)
  | inr e ↦ rw e (end-IsScanned bits i on runs e h)
]

scan-IsScanned : (bits count : ℕ) → IsScanned bits count (scan bits count)
unfolding scan members set_bits
scan-IsScanned bits zero = record {
  seen = refl;
  begun = λ on same. cc;
  all_set = λ same j l. absurd (omega arith);
}
scan-IsScanned bits (suc i) = scan_bit-IsScanned bits i (scan bits i) (scan-IsScanned bits i)

close_run-members :
    (bits j : ℕ) (r : Runs)
    → j < 16
    → flag bits j ≡ false
    → IsScanned bits 16 r
    → members (close_run r) ≡ set_bits bits 16
unfolding close_run
close_run-members bits j (none, runs) l e h = sym (append-nil (members runs)) ∙ h.seen
close_run-members bits j (some zero, runs) l e h = cc (h.all_set refl j l)
close_run-members bits j (some (suc on), runs) l e h = members-snoc runs (suc on) 16 ∙ h.seen

-- If one of the sixteen bits is clear, the runs that are shown hold the registers whose bits are set
-- and no others, in order and each once.
pub register_runs-members :
    (bits j : ℕ) → j < 16 → flag bits j ≡ false → members (register_runs bits) ≡ set_bits bits 16
unfolding register_runs
register_runs-members bits j l e =
    close_run-members bits j (scan bits 16) l e (scan-IsScanned bits 16)
