-- ===== src/Debugger/Breakpoints/Secret.antt =====
-- debugger.py, class Debugger: the secret breakpoint of `next`, and a new machine.
use armv.Common.{
  ℕ, zero, suc, ◌+◌, ◌≡◌, ◌⊎◌, inl, inr, refl, sym, ap, ◌∙◌, Bool, true, false, Bool-cases, List,
  [], ◌∷◌, Option, none, some, Result, ok, raised, ◌>>=◌, ◌==◌, ==_iff, ==_self, if◌then◌else◌,
}
use armv.Common.Int.{ℤ, pos, negsuc}
use armv.Gdb.Reply.{Reply}
use armv.Debugger.Breakpoints.{
  Status, breakpoint_status, other_status, Machine, Debugger, contains, minus, stop,
  step_num_internal, at_status, resume, step, next, set_all, new_machine,
}
use armv.Debugger.Breakpoints.Tracking.{
  IsWord, IsMachine, IsTracked, OnOk, After, Replied, then_ok, step_num_internal-IsTracked,
  resume-IsTracked,
}

module _ {M : Type 0} (machine : Machine M) (laws : IsMachine machine) where
  -- One breakpoint more is set than the debugger's, and it is the secret one, at a word too.
  pub record IsSecretAt (a : ℕ) (d : Debugger M) : Type 0 where
    pub secret : d.next_breakpoint ≡ some a
    pub word : IsWord a
    pub free : contains d.breakpoints a ≡ false
    pub words : (addr : ℕ) → contains d.breakpoints addr ≡ true → IsWord addr
    pub same :
        (addr : ℕ)
        → IsWord addr
        → machine.is_set addr d.machine ≡ (if addr == a then true else contains d.breakpoints addr)

  abbrev pub IsSecret : Debugger M → Type 0
  IsSecret d = (a : ℕ) × IsSecretAt a d

  abbrev pub IsEither : Debugger M → Type 0
  IsEither d = IsTracked machine laws d ⊎ IsSecret d

  abbrev pub RepliedEither : List Reply × Debugger M → Type 0
  RepliedEither r = IsEither r.1

  stop-Secret : (d : Debugger M) → IsSecret d → IsTracked machine laws (stop machine d)
  unfolding stop
  stop-Secret d (a, h) = rw h.secret (record {
    unset = refl;
    words = h.words;
    same =
        λ addr w. laws.is_set-unset a addr d.machine h.word w ∙ rw (h.same addr w) (by_case addr);
  })
    where
      by_case :
          (addr : ℕ)
          → (if addr == a then false else (if addr == a then true else contains d.breakpoints addr))
            ≡ contains d.breakpoints addr
      by_case addr = elim (Bool-cases (addr == a)) [
        | inl e ↦ rw e (sym (ap (contains d.breakpoints) ((==_iff addr a).0 e) ∙ h.free))
        | inr e ↦ rw e
      ]

  abbrev AfterSecret : Option Status × Debugger M → Type 0
  AfterSecret r = IsSecret r.1

  step_num_internal-Secret :
      (num : ℤ) (d : Debugger M)
      → IsSecret d
      → OnOk machine laws AfterSecret (step_num_internal machine num d)
  unfolding step_num_internal
  step_num_internal-Secret (pos zero) d h = h
  step_num_internal-Secret (negsuc n) d h = tt
  step_num_internal-Secret (pos (suc n)) d (a, h) =
      by_step (machine.step_and_wait (suc n) d.machine) refl
    where
      by_step :
          (r : Result (Status × M))
          → machine.step_and_wait (suc n) d.machine ≡ r
          → OnOk machine laws AfterSecret (
              r >>= λ stepped. ok (
                some stepped.0,
                record d { num_to_step = minus d.num_to_step (suc n); machine = stepped.1 },
              ))
      by_step (raised e) p = tt
      by_step (ok (s, later)) p = (
        a,
        record {
          secret = h.secret;
          word = h.word;
          free = h.free;
          words = h.words;
          same = λ b w. laws.is_set-step (suc n) b d.machine later s w p ∙ h.same b w;
        },
      )

  at_status-Secret :
      (s : Option Status) (d : Debugger M) → IsSecret d → IsEither (at_status machine s d).1
  at_status-Secret none d h = inr h
  at_status-Secret (some breakpoint_status) d h = inl (stop-Secret d h)
  at_status-Secret (some other_status) d h = inr h

  resume-Secret : (d : Debugger M) → IsSecret d → OnOk machine laws RepliedEither (resume machine d)
  unfolding resume
  resume-Secret d (a, h) =
      then_ok machine laws AfterSecret RepliedEither
        (step_num_internal machine d.num_to_step (record d { stopped = false })) _
        (step_num_internal-Secret d.num_to_step (record d { stopped = false })
          (
            a,
            record {
              secret = h.secret;
              word = h.word;
              free = h.free;
              words = h.words;
              same = h.same;
            },
          ))
        (λ r k. at_status-Secret r.0 r.1 k)

  weaken :
      (r : Result (List Reply × Debugger M))
      → OnOk machine laws (Replied machine laws) r
      → OnOk machine laws RepliedEither r
  weaken (ok r) h = inl h
  weaken (raised e) h = tt

  step-Tracked :
      (d : Debugger M) → IsTracked machine laws d → OnOk machine laws RepliedEither (step machine d)
  unfolding step
  step-Tracked d h =
      then_ok machine laws (After machine laws) RepliedEither (step_num_internal machine (pos 1) d)
        _ (step_num_internal-IsTracked machine laws (pos 1) d h) (λ r k. inl k)

  next_case :
      (sets_lr held : Bool) (pc : ℕ) (d : Debugger M)
      → IsWord (pc + 4)
      → IsTracked machine laws d
      → contains d.breakpoints (pc + 4) ≡ held
      → OnOk machine laws RepliedEither (next machine sets_lr pc d)
  unfolding next
  next_case false held pc d w h e = step-Tracked d h
  next_case true true pc d w h e =
      rw e (weaken (resume machine d) (resume-IsTracked machine laws d h))
  next_case true false pc d w h e =
      let secret : Debugger M = record d {
        next_breakpoint = some (pc + 4);
        machine = machine.set_breakpoint (pc + 4) d.machine;
      } in
      rw e (
        resume-Secret secret (
          pc + 4,
          record {
            secret = refl;
            word = w;
            free = e;
            words = h.words;
            same = λ addr v.
                laws.is_set-set (pc + 4) addr d.machine w v
                ∙ ap (λ r. if addr == pc + 4 then true else r) (h.same addr v);
          },
        ))

  -- One of the two, and a stop takes the secret breakpoint out again.
  abbrev pub Stoppable : List Reply × Debugger M → Type 0
  Stoppable r =
      IsTracked machine laws r.1 ⊎ (IsSecret r.1 × IsTracked machine laws (stop machine r.1))

  stoppable :
      (r : Result (List Reply × Debugger M))
      → OnOk machine laws RepliedEither r
      → OnOk machine laws Stoppable r
  stoppable (raised e) h = tt
  stoppable (ok r) (inl h) = inl h
  stoppable (ok r) (inr h) = inr (h, stop-Secret r.1 h)

  -- From a debugger whose breakpoints are at words and are the machine's and that has no secret one,
  -- with the next instruction at a word of the memory, `next` either raises, or leaves a debugger of
  -- the same kind, or one with a single further breakpoint in the machine, the secret one, at a word
  -- where the debugger has none, which a stop takes out again.
  pub next-Stoppable :
      (sets_lr : Bool) (pc : ℕ) (d : Debugger M)
      → IsWord (pc + 4)
      → IsTracked machine laws d
      → OnOk machine laws Stoppable (next machine sets_lr pc d)
  next-Stoppable sets_lr pc d w h =
      stoppable (next machine sets_lr pc d)
        (next_case sets_lr (contains d.breakpoints (pc + 4)) pc d w h refl)

  is_set-set_all :
      (bs : List ℕ) (addr : ℕ) (m : M)
      → ((b : ℕ) → contains bs b ≡ true → IsWord b)
      → IsWord addr
      → machine.is_set addr (set_all machine bs m)
        ≡ (if contains bs addr then true else machine.is_set addr m)
  is_set-set_all [] addr m words w = refl
  is_set-set_all (b ∷ bs) addr m words w =
      is_set-set_all bs addr (machine.set_breakpoint b m) (λ c e. words c (later c e)) w
      ∙ rw (laws.is_set-set b addr m (words b first) w) (swap (contains bs addr) (addr == b))
    where
      first : contains (b ∷ bs) b ≡ true
      first = rw (==_self b) refl

      same_either : (p : Bool) → (if p then true else true) ≡ true
      same_either true = refl
      same_either false = refl

      later : (c : ℕ) → contains bs c ≡ true → contains (b ∷ bs) c ≡ true
      later c e = rw e (same_either (c == b))

      swap :
          (p q : Bool)
          → (if p then true else (if q then true else machine.is_set addr m))
            ≡ (if (if q then true else p) then true else machine.is_set addr m)
      swap true true = refl
      swap true false = refl
      swap false true = refl
      swap false false = refl

  -- A new machine that has no breakpoints gets exactly those of a debugger without a secret one.
  pub new_machine-IsTracked :
      (m : M) (d : Debugger M)
      → ((addr : ℕ) → IsWord addr → machine.is_set addr m ≡ false)
      → ((addr : ℕ) → contains d.breakpoints addr ≡ true → IsWord addr)
      → d.next_breakpoint ≡ none
      → IsTracked machine laws (new_machine machine m d)
  unfolding new_machine
  new_machine-IsTracked m d empty words unset = record {
    unset = unset;
    words = words;
    same = λ addr w.
        is_set-set_all d.breakpoints addr m words w
        ∙ rw (empty addr w) (plain (contains d.breakpoints addr));
  }
    where
      plain : (p : Bool) → (if p then true else false) ≡ p
      plain true = refl
      plain false = refl
