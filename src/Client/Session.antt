-- ===== src/Client/Session.antt =====
-- src/network/cts_connection.cpp, `run`: a client's connection to the server, from its registration
-- to the packets with which it leaves.
pub mod Left
use cs4500project.Client
use cs4500project.Packet.Kind
use cs4500project.Prelude.{Bool, List, [], false, if◌then◌else◌, true, ◌++◌, ◌∷◌}
use cs4500project.Client.{Client}
use cs4500project.Connection.{Connection}
use cs4500project.Packet.{Packet}

-- `_finished` is set where the target is not reached, or a packet is not sent.
unfoldable pub finish_unless : Bool → Connection → Connection
finish_unless sent conn = if sent then conn else record conn { finished = true }

-- The loop, with the packets that are taken out of the buffer while it runs. It looks at
-- `_finished` before each.
unfoldable pub receive_packets : List Packet → Connection → Client → Connection × Client
receive_packets [] conn c = (conn, c)
receive_packets (p ∷ ps) conn c =
    let (r, conn', c') = Client.parse_data conn c p in
    let rest = receive_packets ps conn' c' in if conn.finished then (conn, c) else rest

unfoldable pub deregistration_packet : Client → Packet
deregistration_packet c = record (Client.get_registration_packet c) { typ = Kind.deregister }

abbrev pub shutdown_packet : Packet
shutdown_packet = record { remaining_len = 0; typ = Kind.shutdown; value = [] }

-- What arrives at the other side of a packet that is sent or not.
abbrev pub arriving : Bool → Packet → List Packet
arriving true p = p ∷ []
arriving false p = []

-- Whether the server is reached, and which of the three packets are sent, are arguments. The
-- results are the packets that arrive at the server, and what becomes of the connection and the
-- client.
unfoldable pub run :
    Bool
    → Bool
    → Bool
    → Bool
    → List Packet
    → Connection
    → Client
    → List Packet × Connection × Client
unfolding finish_unless receive_packets deregistration_packet
run reached registered deregistered shut received conn c =
    let (conn', c') =
      receive_packets received (finish_unless registered (finish_unless reached conn)) c in
    (
      arriving registered (Client.get_registration_packet c)
          ++ arriving deregistered (deregistration_packet c')
          ++ arriving shut shutdown_packet,
      record conn' { finished = true },
      record c' { running = false },
    )
