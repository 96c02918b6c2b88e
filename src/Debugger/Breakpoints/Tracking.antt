-- ===== src/Debugger/Breakpoints/Tracking.antt =====
-- debugger.py, class Debugger: the breakpoints that the machine has are the debugger's.
use armv.Common.{
  ℕ, zero, suc, ◌%◌, ◌^◌, ◌<◌, ◌≡◌, refl, sym, ap, ◌∙◌, Bool, true, false, Bool-cases, inl, inr,
  List, [], ◌∷◌, ◌++◌, Option, none, some, Result, ok, raised, ◌>>=◌, ◌==◌, ==_iff, if◌then◌else◌,
}
use mathlib.Core.Path.{subst}
use armv.Common.Int.{ℤ, pos, negsuc}
use armv.Gdb.Reply.{Reply}
use armv.Debugger.Breakpoints.{
  Status, breakpoint_status, other_status, Machine, Debugger, Command, stop_command, step_command,
  continue_command, detach_command, disconnect_command, set_breakpoint_command,
  unset_breakpoint_command, contains, without, minus, add_breakpoint, remove_breakpoint,
  reset_debugging, stop, step_num_internal, at_status, resume, handle_message,
}

-- A word of the processor's memory of 2 ^ 26 bytes. The core has one breakpoint for each of them.
abbrev pub IsWord : ℕ → Type 0
IsWord addr = (addr % 4 ≡ 0) × (addr < 2 ^ 26)

-- What the debugger relies on, at words: a breakpoint is set and unset at its own word alone, a reset
-- leaves none, and neither watchpoints nor steps touch them.
pub record IsMachine {M : Type 0} (machine : Machine M) : Type 0 where
  pub is_set-set :
      (a b : ℕ) (m : M)
      → IsWord a
      → IsWord b
      → machine.is_set b (machine.set_breakpoint a m)
        ≡ (if b == a then true else machine.is_set b m)
  pub is_set-unset :
      (a b : ℕ) (m : M)
      → IsWord a
      → IsWord b
      → machine.is_set b (machine.unset_breakpoint a m)
        ≡ (if b == a then false else machine.is_set b m)
  pub is_set-reset :
      (b : ℕ) (m : M) → IsWord b → machine.is_set b (machine.reset_breakpoints m) ≡ false
  pub is_set-watchpoints :
      (b : ℕ) (m : M)
      → IsWord b
      → machine.is_set b (machine.reset_watchpoints m) ≡ machine.is_set b m
  pub is_set-step :
      (n b : ℕ) (m later : M) (s : Status)
      → IsWord b
      → machine.step_and_wait n m ≡ ok (s, later)
      → machine.is_set b later ≡ machine.is_set b m

contains-append :
    (bs : List ℕ) (a b : ℕ) → contains (bs ++ (a ∷ [])) b ≡ (if b == a then true else contains bs b)
contains-append [] a b = refl
contains-append (c ∷ bs) a b = rw (contains-append bs a b) (swap (b == c) (b == a) (contains bs b))
  where
    swap :
        (p q r : Bool)
        → (if p then true else (if q then true else r))
          ≡ (if q then true else (if p then true else r))
    swap true true r = refl
    swap true false r = refl
    swap false q r = refl

contains-without :
    (bs : List ℕ) (a b : ℕ) → contains (without bs a) b ≡ (if b == a then false else contains bs b)
contains-without [] a b = split (b == a)
  where
    split : (p : Bool) → false ≡ (if p then false else false)
    split true = refl
    split false = refl
contains-without (c ∷ bs) a b = elim (Bool-cases (a == c)) [
  | inl e ↦ rw (e, contains-without bs a b, sym ((==_iff a c).0 e)) (twice (b == a) (contains bs b))
  | inr e ↦
      rw (e, contains-without bs a b)
        (elim (Bool-cases (b == a)) [
          | inl f ↦ rw (f, ap (λ n. n == c) ((==_iff b a).0 f) ∙ e)
          | inr f ↦ rw f
        ])
]
  where
    twice : (p r : Bool) → (if p then false else r) ≡ (if p then false else (if p then true else r))
    twice true r = refl
    twice false r = refl

module _ {M : Type 0} (machine : Machine M) (laws : IsMachine machine) where
  -- The debugger's breakpoints are at words, the machine has exactly these, and there is no secret one.
  pub record IsTracked (d : Debugger M) : Type 0 where
    pub unset : d.next_breakpoint ≡ none
    pub words : (addr : ℕ) → contains d.breakpoints addr ≡ true → IsWord addr
    pub same :
        (addr : ℕ) → IsWord addr → machine.is_set addr d.machine ≡ contains d.breakpoints addr

  abbrev pub OnOk : {A : Type 0} → (A → Type 0) → Result A → Type 0
  OnOk P (ok a) = P a
  OnOk P (raised e) = Unit

  pub then_ok :
      {A B : Type 0} (P : A → Type 0) (Q : B → Type 0) (r : Result A) (f : A → Result B)
      → OnOk P r
      → ((a : A) → P a → OnOk Q (f a))
      → OnOk Q (r >>= f)
  then_ok P Q (ok a) f h k = k a h
  then_ok P Q (raised e) f h k = tt

  appended_words :
      (bs : List ℕ) (a b : ℕ)
      → ((c : ℕ) → contains bs c ≡ true → IsWord c)
      → IsWord a
      → contains (bs ++ (a ∷ [])) b ≡ true
      → IsWord b
  appended_words bs a b words w e = elim (Bool-cases (b == a)) [
    | inl f ↦ subst IsWord (sym ((==_iff b a).0 f)) w
    | inr f ↦
        words b (sym (contains-append bs a b ∙ ap (λ r. if r then true else contains bs b) f) ∙ e)
  ]

  kept_words :
      (bs : List ℕ) (a b : ℕ)
      → ((c : ℕ) → contains bs c ≡ true → IsWord c)
      → contains (without bs a) b ≡ true
      → IsWord b
  kept_words bs a b words e = elim (Bool-cases (b == a)) [
    | inl f ↦
        cc (sym (contains-without bs a b ∙ ap (λ r. if r then false else contains bs b) f) ∙ e)
    | inr f ↦
        words b (sym (contains-without bs a b ∙ ap (λ r. if r then false else contains bs b) f) ∙ e)
  ]

  add_breakpoint-IsTracked :
      (addr : ℕ) (d : Debugger M)
      → addr < 2 ^ 26
      → IsTracked d
      → OnOk IsTracked (add_breakpoint machine addr d)
  unfolding add_breakpoint
  add_breakpoint-IsTracked addr d fits h = elim (Bool-cases (addr % 4 == 0)) [
    | inr e ↦ rw e tt
    | inl e ↦
        let w : IsWord addr = ((==_iff (addr % 4) 0).0 e, fits) in
        elim (Bool-cases (contains d.breakpoints addr)) [
          | inl f ↦ rw (e, f) h
          | inr f ↦
              rw (e, f)
                (record {
                  unset = h.unset;
                  words = λ b. appended_words d.breakpoints addr b h.words w;
                  same = λ b v. rw (
                    laws.is_set-set addr b d.machine w v,
                    contains-append d.breakpoints addr b,
                    h.same b v,
                  );
                })
        ]
  ]

  remove_breakpoint-IsTracked :
      (addr : ℕ) (d : Debugger M) → IsTracked d → OnOk IsTracked (remove_breakpoint machine addr d)
  unfolding remove_breakpoint
  remove_breakpoint-IsTracked addr d h = elim (Bool-cases (contains d.breakpoints addr)) [
    | inr f ↦ rw f tt
    | inl f ↦ rw f (record {
      unset = h.unset;
      words = λ b. kept_words d.breakpoints addr b h.words;
      same = λ b v. rw (
        laws.is_set-unset addr b d.machine (h.words addr f) v,
        contains-without d.breakpoints addr b,
        h.same b v,
      );
    })
  ]

  reset_debugging-IsTracked : (d : Debugger M) → IsTracked d → IsTracked (reset_debugging machine d)
  unfolding reset_debugging
  reset_debugging-IsTracked d h = record {
    unset = h.unset;
    words = λ b e. cc e;
    same = λ b v. laws.is_set-watchpoints b _ v ∙ laws.is_set-reset b d.machine v;
  }

  pub stop-IsTracked : (d : Debugger M) → IsTracked d → IsTracked (stop machine d)
  unfolding stop
  stop-IsTracked d h = rw h.unset (record { unset = refl; words = h.words; same = h.same })

  abbrev pub After : Option Status × Debugger M → Type 0
  After r = IsTracked r.1

  pub step_num_internal-IsTracked :
      (num : ℤ) (d : Debugger M) → IsTracked d → OnOk After (step_num_internal machine num d)
  unfolding step_num_internal
  step_num_internal-IsTracked (pos zero) d h = h
  step_num_internal-IsTracked (negsuc n) d h = tt
  step_num_internal-IsTracked (pos (suc n)) d h =
      by_step (machine.step_and_wait (suc n) d.machine) refl
    where
      by_step :
          (r : Result (Status × M))
          → machine.step_and_wait (suc n) d.machine ≡ r
          → OnOk After (
              r >>= λ stepped. ok (
                some stepped.0,
                record d { num_to_step = minus d.num_to_step (suc n); machine = stepped.1 },
              ))
      by_step (raised e) p = tt
      by_step (ok (s, later)) p = record {
        unset = h.unset;
        words = h.words;
        same = λ b v. laws.is_set-step (suc n) b d.machine later s v p ∙ h.same b v;
      }

  at_status-IsTracked :
      (s : Option Status) (d : Debugger M) → IsTracked d → IsTracked (at_status machine s d).1
  at_status-IsTracked none d h = h
  at_status-IsTracked (some breakpoint_status) d h = stop-IsTracked d h
  at_status-IsTracked (some other_status) d h = h

  abbrev pub Replied : List Reply × Debugger M → Type 0
  Replied r = IsTracked r.1

  pub resume-IsTracked : (d : Debugger M) → IsTracked d → OnOk Replied (resume machine d)
  unfolding resume
  resume-IsTracked d h =
      then_ok After Replied (step_num_internal machine d.num_to_step (record d { stopped = false }))
        _
        (step_num_internal-IsTracked d.num_to_step (record d { stopped = false })
          (record { unset = h.unset; words = h.words; same = h.same }))
        (λ r k. at_status-IsTracked r.0 r.1 k)

  -- A breakpoint is set in the memory.
  abbrev pub IsInMemory : Command → Type 0
  IsInMemory (set_breakpoint_command addr) = addr < 2 ^ 26
  IsInMemory _ = Unit {0}

  handle_message-IsTracked :
      (c : Command) (d : Debugger M)
      → IsInMemory c
      → IsTracked d
      → OnOk Replied (handle_message machine c d)
  unfolding handle_message
  handle_message-IsTracked stop_command d m h = stop-IsTracked d h
  handle_message-IsTracked step_command d m h =
      then_ok After Replied (step_num_internal machine (pos 1) d) _
        (step_num_internal-IsTracked (pos 1) d h) (λ r k. k)
  handle_message-IsTracked continue_command d m h = resume-IsTracked d h
  handle_message-IsTracked detach_command d m h = reset_debugging-IsTracked d h
  handle_message-IsTracked disconnect_command d m h = reset_debugging-IsTracked d h
  handle_message-IsTracked (set_breakpoint_command addr) d m h =
      then_ok IsTracked Replied (add_breakpoint machine addr d) _
        (add_breakpoint-IsTracked addr d m h) (λ later k. k)
  handle_message-IsTracked (unset_breakpoint_command addr) d m h =
      then_ok IsTracked Replied (remove_breakpoint machine addr d) _
        (remove_breakpoint-IsTracked addr d h) (λ later k. k)

  -- The debuggers that messages make of a first one, each handled without an exception, and each
  -- breakpoint set in the memory.
  pub data Reaches (first : Debugger M) : Debugger M → Type 0 where
    at_first : Reaches first first
    after_message :
        (c : Command) (d next : Debugger M) (replies : List Reply)
        → Reaches first d
        → IsInMemory c
        → handle_message machine c d ≡ ok (replies, next)
        → Reaches first next

  -- After any messages, each handled without an exception and none setting a breakpoint behind the
  -- 2 ^ 26 bytes of the memory, from a debugger that has no secret breakpoint and whose breakpoints are
  -- at words and are the machine's, they are so again: a word has a breakpoint in the machine exactly
  -- if the debugger holds it. The core keeps breakpoints by words.
  pub reached-IsTracked : (first d : Debugger M) → IsTracked first → Reaches first d → IsTracked d
  reached-IsTracked first d h at_first = h
  reached-IsTracked first d h (after_message c before next replies r m e) =
      subst (OnOk Replied) e
        (handle_message-IsTracked c before m (reached-IsTracked first before h r))
