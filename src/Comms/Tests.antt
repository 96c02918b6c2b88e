-- ===== src/Comms/Tests.antt =====
-- comms/comms.py and comms/custom.py: a connection and a client, at concrete inputs.
use armv.Common.{◌≡◌, inl, refl, arith, true, false, List, [], ◌∷◌, ◌++◌, some, ok, struct_error}
use armv.Common.Bytes.{be32}
use armv.Custom.Message.{Message, plain_stop}
use armv.Custom.Factory.{message_factory}
use armv.Custom.Framing.{process_data}
use armv.Comms.Transport.{Comms, calls, send}
use armv.Comms.Handler.{Read, silent, received, broken, returned, left_by, handle_connection}
use armv.Comms.Handler.Endings.{handle_connection-frames}
use armv.Comms.Handler.Escaping.{Ends, handle_connection-Ends}
use armv.Comms.Threads.{testing, waiting, working, notifying, dead, Client, Turn, Reach}
use armv.Comms.Threads.Awake.{IsAwake, both_wait, Reach-IsAwake}
use armv.Comms.Threads.Lost.{IsLost, Reach-Lost}

abbrev fresh : Comms Message
fresh = record { has_socket = false; connected = false; done = false; events = [] }

-- The frame of a stop in two reads, with a pause between them.
abbrev slow_stop : List Read
slow_stop = received (0 ∷ 0 ∷ 0 ∷ 4 ∷ 0 ∷ []) ∷ silent ∷ received (0 ∷ 0 ∷ 0 ∷ []) ∷ []

stop_answers : message_factory (be32 0) ≡ ok (some plain_stop)
unfolding message_factory
stop_answers = refl

handle_connection-frames_example :
    (d : Comms Message) × (handle_connection message_factory (slow_stop ++ broken ∷ []) fresh
      ≡ (returned, d))
    × (calls d.events ≡ plain_stop ∷ [])
    × (d.connected ≡ false)
    × (d.has_socket ≡ false)
handle_connection-frames_example =
    handle_connection-frames message_factory (λ m. some plain_stop) (be32 0 ∷ []) slow_stop [] fresh
      (omega arith) (stop_answers, tt) tt refl

-- A frame of a breakpoint that is too short leaves handle by struct.error.
abbrev short_breakpoint : List Read
short_breakpoint = received (be32 6 ++ (be32 4 ++ (1 ∷ 2 ∷ []))) ∷ broken ∷ []

left_by_struct_error :
    (handle_connection message_factory short_breakpoint fresh).0 ≡ left_by struct_error
unfolding handle_connection message_factory process_data
left_by_struct_error = refl

handle_connection-Ends_example : Ends (handle_connection message_factory short_breakpoint fresh)
handle_connection-Ends_example = handle_connection-Ends short_breakpoint fresh

-- A message that is sent without a connection is lost.
lost_message : send (λ (m : Message). ok []) true plain_stop fresh ≡ ok fresh
unfolding send
lost_message = refl

abbrev listening : Client
listening = record { connected = true; done = false; listener = working; connector = waiting }

listening-IsAwake : IsAwake listening
listening-IsAwake = record { listens = λ e. cc; connects = λ e. inl refl }

-- The flag is cleared and the connecting thread still waits, and then it is notified.
abbrev cleared : Client
cleared = record { connected = false; done = false; listener = notifying; connector = waiting }

abbrev closed_down : Client
closed_down = record { connected = false; done = false; listener = working; connector = testing }

Reach-IsAwake_example :
    IsAwake closed_down × (both_wait closed_down.listener closed_down.connector ≡ false)
Reach-IsAwake_example =
    Reach-IsAwake
      (Reach.then_turn cleared closed_down
        (Reach.then_turn listening cleared Reach.here (Turn.listener_disconnects listening refl))
        (Turn.listener_notifies cleared refl))
      ((tt, tt), tt) listening-IsAwake

Reach-Lost_example :
    Reach listening (record listening { listener = dead; connected = false })
    × ((d : Client) → Reach (record listening { listener = dead; connected = false }) d → IsLost d)
Reach-Lost_example = Reach-Lost listening refl refl refl
