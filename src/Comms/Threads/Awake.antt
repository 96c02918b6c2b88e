-- ===== src/Comms/Threads/Awake.antt =====
-- comms/comms.py, class Client: no thread sleeps through a change of the connection.
use armv.Common.{Bool, true, false, ◌≡◌, ◌⊎◌, inl, inr, refl, sym, ◌∙◌}
use armv.Comms.Threads.{
  Position, testing, waiting, working, notifying, ended, dead, Client, woken, next_round, Turn,
  Reach, IsQuiet, AreQuiet,
}

-- A thread waits only for what is not there, or will be notified.
pub record IsAwake (c : Client) : Type 0 where
  pub listens : c.listener ≡ waiting → (c.connected ≡ false) ⊎ (c.connector ≡ notifying)
  pub connects : c.connector ≡ waiting → (c.connected ≡ true) ⊎ (c.listener ≡ notifying)

abbrev pub both_wait : Position → Position → Bool
both_wait waiting waiting = true
both_wait _ _ = false

woken-awake : (p : Position) → woken p ≡ waiting → ⊥
woken-awake testing e = cc
woken-awake waiting e = cc
woken-awake working e = cc
woken-awake notifying e = cc
woken-awake ended e = cc
woken-awake dead e = cc

next_round-awake : (done : Bool) → next_round done ≡ waiting → ⊥
next_round-awake true e = cc
next_round-awake false e = cc

Turn-IsAwake : {c d : Client} (t : Turn c d) → IsQuiet t → IsAwake c → IsAwake d
Turn-IsAwake (Turn.listener_rests c p q r) h a = record {
  listens = λ e. inl r;
  connects = λ e. elim (a.connects e) [ inl x ↦ inl x | inr x ↦ cc (sym p ∙ x) ];
}
Turn-IsAwake (Turn.listener_goes c p q) h a = record {
  listens = λ e. cc e;
  connects = λ e. elim (a.connects e) [ inl x ↦ inl x | inr x ↦ cc (sym p ∙ x) ];
}
Turn-IsAwake (Turn.listener_disconnects c p) h a = record {
  listens = λ e. cc e;
  connects = λ e. inr refl;
}
Turn-IsAwake (Turn.listener_has_no_socket c p) h a = record {
  listens = λ e. cc e;
  connects = λ e. inr refl;
}
Turn-IsAwake (Turn.listener_notifies c p) h a = record {
  listens = λ e. cc e;
  connects = λ e. absurd (woken-awake c.connector e);
}
Turn-IsAwake (Turn.listener_dies c p) h a = record {
  listens = λ e. cc e;
  connects = λ e. elim (a.connects e) [ inl x ↦ inl x | inr x ↦ cc (sym p ∙ x) ];
}
Turn-IsAwake (Turn.listener_ends_round c p q) h a = record {
  listens = λ e. absurd (next_round-awake c.done e);
  connects = λ e. elim (a.connects e) [ inl x ↦ inl x | inr x ↦ cc (sym p ∙ x) ];
}
Turn-IsAwake (Turn.connector_rests c p q r) h a = record {
  listens = λ e. elim (a.listens e) [ inl x ↦ inl x | inr x ↦ cc (sym p ∙ x) ];
  connects = λ e. inl r;
}
Turn-IsAwake (Turn.connector_goes c p q) h a = record {
  listens = λ e. elim (a.listens e) [ inl x ↦ inl x | inr x ↦ cc (sym p ∙ x) ];
  connects = λ e. cc e;
}
Turn-IsAwake (Turn.connector_connects c p q) h a = record {
  listens = λ e. inr refl;
  connects = λ e. cc e;
}
Turn-IsAwake (Turn.connector_notifies c p) h a = record {
  listens = λ e. absurd (woken-awake c.listener e);
  connects = λ e. cc e;
}
Turn-IsAwake (Turn.connector_ends_round c p q) h a = record {
  listens = λ e. elim (a.listens e) [ inl x ↦ inl x | inr x ↦ cc (sym p ∙ x) ];
  connects = λ e. absurd (next_round-awake c.done e);
}
Turn-IsAwake (Turn.send_fails c p) h a = absurd h

Turns-IsAwake : {c d : Client} (r : Reach c d) → AreQuiet r → IsAwake c → IsAwake d
Turns-IsAwake Reach.here h a = a
Turns-IsAwake (Reach.then_turn d e before turn) h a =
    Turn-IsAwake turn h.1 (Turns-IsAwake before h.0 a)

not_both : (l k : Position) → (l ≡ waiting → k ≡ waiting → ⊥) → both_wait l k ≡ false
not_both waiting waiting h = absurd (h refl refl)
not_both _ _ h = refl

IsAwake-not_both : (c : Client) → IsAwake c → c.listener ≡ waiting → c.connector ≡ waiting → ⊥
IsAwake-not_both c a l k = elim (a.listens l) [
  | inr x ↦ cc (sym k ∙ x)
  | inl x ↦ elim (a.connects k) [ inl y ↦ cc (sym x ∙ y) | inr y ↦ cc (sym l ∙ y) ]
]

-- While no send fails, from threads of which each waits only for what is not there or is about to be
-- notified, this stays so: the listening thread waits only without a connection or while the
-- connecting thread is between setting the flag and its notification, and the connecting thread only
-- with a connection or while the listening thread is between clearing the flag and its notification.
-- The two threads never both wait.
pub Reach-IsAwake :
    {c d : Client} (r : Reach c d)
    → AreQuiet r
    → IsAwake c
    → IsAwake d × (both_wait d.listener d.connector ≡ false)
Reach-IsAwake {c} {d} r h a =
    let awake = Turns-IsAwake r h a in
    (awake, not_both d.listener d.connector (IsAwake-not_both d awake))
