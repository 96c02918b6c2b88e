-- ===== src/Comms/Threads.antt =====
-- comms/comms.py, class Client: listen_main and connect_thread_main, which wait for one condition, as
-- steps between which another thread may run. A test and the wait behind it are one step, under the
-- lock; connect and disconnect change the flag in one step and notify a waiting thread in a later one.
-- An attempt to connect that fails changes nothing and is no step.
pub mod Awake
pub mod Lost
use armv.Common.{Bool, true, false, not, ◌&&◌, ◌||◌, ◌≡◌, if◌then◌else◌}

-- In front of the test of its loop, in the wait, in its work behind the wait, between a change of the
-- flag and its notification, ended, or left by an exception.
pub data Position : Type 0 where
  testing waiting working notifying ended dead : Position

pub record Client : Type 0 where
  pub connected : Bool
  pub done : Bool
  pub listener : Position
  pub connector : Position

abbrev pub woken : Position → Position
woken testing = testing
woken waiting = testing
woken working = working
woken notifying = notifying
woken ended = ended
woken dead = dead

-- The end of a round: the loop goes on, or ends.
abbrev pub next_round : Bool → Position
next_round done = if done then ended else testing

-- What the two threads do by themselves, and what another thread does by a call of send.
pub data Turn : Client → Client → Type 0 where
  listener_rests :
      (c : Client)
      → c.listener ≡ testing
      → c.done ≡ false
      → c.connected ≡ false
      → Turn c (record c { listener = waiting })
  listener_goes :
      (c : Client)
      → c.listener ≡ testing
      → (c.done || c.connected) ≡ true
      → Turn c (record c { listener = working })
  -- The handler finds the connection closed, perhaps long after a send did, and disconnects. Without
  -- a socket the flag is left.
  listener_disconnects :
      (c : Client)
      → c.listener ≡ working
      → Turn c (record c { connected = false; listener = notifying })
  listener_has_no_socket :
      (c : Client) → c.listener ≡ working → Turn c (record c { listener = notifying })
  listener_notifies :
      (c : Client)
      → c.listener ≡ notifying
      → Turn c (record c { listener = working; connector = woken c.connector })
  listener_dies : (c : Client) → c.listener ≡ working → Turn c (record c { listener = dead })
  listener_ends_round :
      (c : Client)
      → c.listener ≡ working
      → (c.done || not c.connected) ≡ true
      → Turn c (record c { listener = next_round c.done })
  connector_rests :
      (c : Client)
      → c.connector ≡ testing
      → c.done ≡ false
      → c.connected ≡ true
      → Turn c (record c { connector = waiting })
  connector_goes :
      (c : Client)
      → c.connector ≡ testing
      → (c.done || not c.connected) ≡ true
      → Turn c (record c { connector = working })
  -- initiate_connection, when it succeeds
  connector_connects :
      (c : Client)
      → c.connector ≡ working
      → c.connected ≡ false
      → Turn c (record c { connected = true; connector = notifying })
  connector_notifies :
      (c : Client)
      → c.connector ≡ notifying
      → Turn c (record c { connector = working; listener = woken c.listener })
  connector_ends_round :
      (c : Client)
      → c.connector ≡ working
      → (c.done || c.connected) ≡ true
      → Turn c (record c { connector = next_round c.done })
  -- Only the flag tells of a socket.error in send.
  send_fails : (c : Client) → c.connected ≡ true → Turn c (record c { connected = false })

pub data Reach (c : Client) : Client → Type 0 where
  here : Reach c c
  then_turn : (d e : Client) → Reach c d → Turn d e → Reach c e

-- The turns that are no failed send.
abbrev pub IsQuiet : {c d : Client} → Turn c d → Type 0
IsQuiet (listener_rests c p q r) = Unit {0}
IsQuiet (listener_goes c p q) = Unit {0}
IsQuiet (listener_disconnects c p) = Unit {0}
IsQuiet (listener_has_no_socket c p) = Unit {0}
IsQuiet (listener_notifies c p) = Unit {0}
IsQuiet (listener_dies c p) = Unit {0}
IsQuiet (listener_ends_round c p q) = Unit {0}
IsQuiet (connector_rests c p q r) = Unit {0}
IsQuiet (connector_goes c p q) = Unit {0}
IsQuiet (connector_connects c p q) = Unit {0}
IsQuiet (connector_notifies c p) = Unit {0}
IsQuiet (connector_ends_round c p q) = Unit {0}
IsQuiet (send_fails c p) = ⊥

abbrev pub AreQuiet : {c d : Client} → Reach c d → Type 0
AreQuiet here = Unit {0}
AreQuiet (then_turn d e before turn) = AreQuiet before × IsQuiet turn
