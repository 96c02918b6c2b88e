-- ===== src/Comms/Handler.antt =====
-- comms/custom.py, class BaseHandler: read_message and handle, which reads a connection until it is
-- closed. What select and recv give is a list of reads, behind which `comms.done` is set.
pub mod Endings
pub mod Escaping
use armv.Common.{List, [], ◌∷◌, Bool, true, false, Option, Result, Exn, ok, raised}
use armv.Common.Bytes.{Bytes}
use armv.Custom.Framing as Framing
use armv.Custom.Framing.{Outcome, finished, failed, out_of_fuel, process_data, start}
use armv.Comms.Transport.{Comms, set_connected, disconnect, handle}

-- Nothing within the timeout, bytes of recv, or no bytes and errors of the socket.
pub data Read : Type 0 where
  silent : Read
  received : Bytes → Read
  broken : Read

-- How handle ends: it returns, or an exception that is no socket.error leaves it.
pub data Ending : Type 0 where
  returned : Ending
  left_by : Exn → Ending

module _ {M : Type 0} (message_factory : Bytes → Result (Option M)) where
  -- self.server.comms.handle(message) for the messages of one call
  unfoldable pub handle_all : List M → Comms M → Comms M
  unfolding handle
  handle_all [] c = c
  handle_all (message ∷ messages) c = handle_all messages (handle message c)

  -- One call of process_data, and what `later` makes of the handler and of the connection.
  abbrev pub after_read :
      (Framing.Handler → Comms M → Ending × Comms M) → Outcome M → Comms M → Ending × Comms M
  after_read later (finished h messages) c = later h (handle_all messages c)
  after_read later (failed e messages) c = (left_by e, handle_all messages c)
  after_read later out_of_fuel c = (left_by Exn.no_fuel, c)

  unfoldable pub read_loop : List Read → Framing.Handler → Comms M → Ending × Comms M
  unfolding disconnect
  read_loop [] h c = (returned, record c { done = true })
  read_loop (silent ∷ reads) h c = read_loop reads h c
  read_loop (received bytes ∷ reads) h c =
      after_read (read_loop reads) (process_data message_factory h bytes) c
  read_loop (broken ∷ reads) h c = (returned, disconnect c)

  unfoldable pub handle_connection : List Read → Comms M → Ending × Comms M
  unfolding read_loop
  handle_connection reads c = read_loop reads start (set_connected c)
