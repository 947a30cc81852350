-- ===== src/Server/Port.antt =====
-- src/network/server.cpp: what the server adds to the loop that waits for connections, and how it
-- is torn down.
use cs4500project.Prelude.{Bool, List, [], false, refl, ℕ, ◌∷◌}
use cs4500project.Packet.Kind
use cs4500project.Packet.{Packet}
use cs4500project.NetPort.{Subclass}
use cs4500project.NetPort.Ended.{KeepsStopped}
use cs4500project.Server.{Server, remove_client}

-- A connection is the address of its client.
unfoldable pub server_port : Subclass Bool Server (List ℕ)
server_port = record {
  is_running = λ s. s.running;
  with_running = λ b s. record s { running = b };
  initial = λ _ s. s;
  on_clean_up = λ c s. remove_client s c;
  on_new_connection = λ s. s;
  main_loop_work = λ _ _ s. (s, []);
}

-- `request_teardown`: the packet for each connection, and the server stops.
unfoldable pub teardown_packets : List (List ℕ) → List (List ℕ × Packet)
teardown_packets [] = []
teardown_packets (c ∷ cs) =
    (c, record { remaining_len = 0; typ = Kind.teardown; value = [] }) ∷ teardown_packets cs

unfoldable pub request_teardown : List (List ℕ) → Server → List (List ℕ × Packet) × Server
unfolding teardown_packets
request_teardown connections s = (teardown_packets connections, record s { running = false })

pub server_port-KeepsStopped : KeepsStopped server_port
unfolding server_port remove_client
server_port-KeepsStopped = record {
  set_stopped = λ s. refl;
  clean_up_stopped = λ c s e. e;
  new_stopped = λ s e. e;
  work_stopped = λ answers cs s e. e;
}
