-- ===== src/Comms.antt =====
-- comms/comms.py and the part of comms/custom.py that works on its sockets: what is sent, the reading
-- of a connection, and the two threads of a client.
pub mod Transport
pub mod Handler
pub mod Threads
mod Tests
