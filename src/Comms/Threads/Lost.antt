-- ===== src/Comms/Threads/Lost.antt =====
-- comms/comms.py, class Client: a connection that send finds broken when nobody listens any more.
use armv.Common.{true, false, ◌≡◌, refl, sym, ◌∙◌}
use armv.Comms.Threads.{waiting, working, dead, Client, Turn, Reach}

pub record IsLost (c : Client) : Type 0 where
  pub nobody_listens : c.listener ≡ dead
  pub connector_waits : c.connector ≡ waiting
  pub unconnected : c.connected ≡ false

Turn-IsLost : {c d : Client} → Turn c d → IsLost c → IsLost d
Turn-IsLost (Turn.listener_rests c p q r) l = cc (sym p ∙ l.nobody_listens)
Turn-IsLost (Turn.listener_goes c p q) l = cc (sym p ∙ l.nobody_listens)
Turn-IsLost (Turn.listener_disconnects c p) l = cc (sym p ∙ l.nobody_listens)
Turn-IsLost (Turn.listener_has_no_socket c p) l = cc (sym p ∙ l.nobody_listens)
Turn-IsLost (Turn.listener_notifies c p) l = cc (sym p ∙ l.nobody_listens)
Turn-IsLost (Turn.listener_dies c p) l = cc (sym p ∙ l.nobody_listens)
Turn-IsLost (Turn.listener_ends_round c p q) l = cc (sym p ∙ l.nobody_listens)
Turn-IsLost (Turn.connector_rests c p q r) l = cc (sym p ∙ l.connector_waits)
Turn-IsLost (Turn.connector_goes c p q) l = cc (sym p ∙ l.connector_waits)
Turn-IsLost (Turn.connector_connects c p q) l = cc (sym p ∙ l.connector_waits)
Turn-IsLost (Turn.connector_notifies c p) l = cc (sym p ∙ l.connector_waits)
Turn-IsLost (Turn.connector_ends_round c p q) l = cc (sym p ∙ l.connector_waits)
Turn-IsLost (Turn.send_fails c p) l = cc (sym p ∙ l.unconnected)

Reach-IsLost : {c d : Client} → Reach c d → IsLost c → IsLost d
Reach-IsLost Reach.here l = l
Reach-IsLost (Reach.then_turn d e before turn) l = Turn-IsLost turn (Reach-IsLost before l)

-- If the connecting thread waits with a connection and an exception leaves the listening thread, then
-- after a send that fails there is no connection, and whatever the threads and further sends do there
-- is none again: the connecting thread stays in its wait.
pub Reach-Lost :
    (c : Client)
    → c.listener ≡ working
    → c.connector ≡ waiting
    → c.connected ≡ true
    → Reach c (record c { listener = dead; connected = false })
      × ((d : Client) → Reach (record c { listener = dead; connected = false }) d → IsLost d)
Reach-Lost c listens waits connected = (
  Reach.then_turn (record c { listener = dead }) (record c { listener = dead; connected = false })
      (Reach.then_turn c (record c { listener = dead }) Reach.here (Turn.listener_dies c listens))
      (Turn.send_fails (record c { listener = dead }) connected),
  λ d r.
      Reach-IsLost r
        (record { nobody_listens = refl; connector_waits = waits; unconnected = refl }),
)
