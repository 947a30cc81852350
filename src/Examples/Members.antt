-- ===== src/Examples/Members.antt =====
-- The server's list of clients, applied to two addresses.
use cs4500project.Client
use cs4500project.Schema
use cs4500project.Server
use cs4500project.Prelude.{
  if◌then◌else◌, fault, assertion_failed, List, [], arith, false, ok, refl, replicate, some, true,
  ℕ, ◌∷◌, ◌≡◌,
}
use cs4500project.Client.{Client, Peer, value_peer}
use cs4500project.Client.Peers.{value_peer-connected}
use cs4500project.Client.Session.{run}
use cs4500project.Client.Session.Left.{Left, run-Left, serve_packets}
use cs4500project.Client.Updates.{others_of, parse_data-get_clients}
use cs4500project.Connection.{Connection, success}
use cs4500project.Server.{clean_up_closed, Server}

abbrev first : List ℕ
first = replicate 16 1

abbrev second : List ℕ
second = replicate 16 2

abbrev server : Server
server = record {
  clients = first ∷ [];
  passed_update = 0;
  expected_update = 2;
  new_update = true;
  running = true;
}

abbrev client : Client
client = record { self = first; other_clients = []; client_update = false; running = true }

abbrev connection : Connection
connection = record { buffer = replicate 4096 0; buf_pos = 0; finished = false; conn_other = [] }

parse_data-get_clients_example :
    Client.parse_data connection client (Server.get_clients server).0 ≡ (
      success,
      connection,
      record client { other_clients = others_of first (first ∷ []); client_update = true },
    )
unfolding Server.encode_clients
parse_data-get_clients_example =
    parse_data-get_clients connection client server (refl, tt) (omega arith)

abbrev told : Client
told = record client { other_clients = first ∷ second ∷ []; client_update = true }

-- One connection that is finished, to the first of the other clients.
abbrev closed_peer : Peer
closed_peer = record { other = first; finished = true }

value_peer-connected_example :
    (p : Peer) × (value_peer (λ _. true) (λ _. false) told (closed_peer ∷ []) second
      ≡ (if false then fault assertion_failed else ok (some p)))
    × (Server.sockaddr_eq p.other second ≡ true)
    × (p.finished ≡ false)
value_peer-connected_example =
    value_peer-connected (λ _. true) (λ _. false) told (closed_peer ∷ []) 1 second refl refl

abbrev joining : Client
joining = record client { self = second }

-- A client that is told of the other clients, and leaves, while the first client's connection is
-- found closed.
run-Left_example :
    ((run true true true true ((Server.get_clients server).0 ∷ []) connection joining).2.running
      ≡ false)
    × (conn' : Connection) × (s' : Server) × (serve_packets
          (first ∷ [])
          1
          (run true true true true ((Server.get_clients server).0 ∷ []) connection joining).0
          connection
          server
        ≡ (conn', s'))
    × Left second (clean_up_closed server (first ∷ [])).clients conn' s'
unfolding Server.sockaddr_eq Schema.same_string
run-Left_example =
    run-Left ((Server.get_clients server).0 ∷ []) connection joining (first ∷ []) 1 connection
      server refl (refl, tt) (refl, tt)
