-- ===== src/Comms/Transport.antt =====
-- comms/comms.py, class Comms: send, set_connected, disconnect and handle. A socket is there or not;
-- whether a write succeeds is an argument.
use armv.Common.{
  Bool, true, false, List, [], ◌∷◌, ◌++◌, Result, ok, raised, attribute_error, ◌>>=◌, if◌then◌else◌,
}
use armv.Common.Bytes.{Bytes}

-- What happens outside: bytes that are written, the socket that is closed, and messages for the
-- callback, which is there.
pub data Event (M : Type 0) : Type 0 where
  written : Bytes → Event M
  socket_closed : Event M
  called : M → Event M

pub record Comms (M : Type 0) : Type 0 where
  pub has_socket : Bool
  pub connected : Bool
  pub done : Bool
  pub events : List (Event M)

module _ {M : Type 0} where
  abbrev pub happens : Event M → Comms M → Comms M
  happens e c = record c { events = c.events ++ e ∷ [] }

  abbrev pub set_connected : Comms M → Comms M
  set_connected c = record c { has_socket = true; connected = true }

  -- Comms.disconnect, and Client.disconnect of comms/custom.py without its notification
  unfoldable pub disconnect : Comms M → Comms M
  disconnect c =
      if c.has_socket
      then record (happens socket_closed c) { has_socket = false; connected = false }
      else c

  unfoldable pub handle : M → Comms M → Comms M
  handle message c = happens (called message) c

  -- A socket.error of the write is caught: nothing but the flag tells of it.
  abbrev pub write : Bool → Bytes → Comms M → Result (Comms M)
  write writes bytes c =
      if c.has_socket
      then ok (if writes then happens (written bytes) c else record c { connected = false })
      else raised attribute_error

  unfoldable pub send :
      (to_binary : M → Result Bytes) → (writes : Bool) → M → Comms M → Result (Comms M)
  send to_binary writes message c =
      if c.connected then (to_binary message >>= λ bytes. write writes bytes c) else ok c

  -- What the callback is given, in order.
  abbrev pub calls : List (Event M) → List M
  calls [] = []
  calls (written bytes ∷ events) = calls events
  calls (socket_closed ∷ events) = calls events
  calls (called message ∷ events) = message ∷ calls events
