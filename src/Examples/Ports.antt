-- ===== src/Examples/Ports.antt =====
-- The loop that waits for connections, applied to a server that is torn down.
use cs4500project.Prelude.{
  if◌then◌else◌, fault, undefined, ok, Bool, List, [], false, true, refl, ℕ, ◌∷◌, ◌≡◌, ◌++◌, some,
  inr,
}
use cs4500project.NetPort.{
  any_finished, Round, NetPort, accepted, would_block, listen_on_socket, close_all, fresh,
}
use cs4500project.NetPort.Ended.{listen_on_socket-joined}
use cs4500project.NetPort.Joined.{Closed}
use cs4500project.Server.{Server}
use cs4500project.Server.Port.{server_port, request_teardown, server_port-KeepsStopped}

abbrev a_server : Server
a_server = record {
  clients = [];
  passed_update = 0;
  expected_update = 0;
  new_update = false;
  running = false;
}

abbrev first : List ℕ
first = 2 ∷ 0 ∷ 31 ∷ 144 ∷ 10 ∷ 0 ∷ 0 ∷ 1 ∷ []

abbrev second : List ℕ
second = 2 ∷ 0 ∷ 31 ∷ 144 ∷ 10 ∷ 0 ∷ 0 ∷ 2 ∷ []

-- The first client comes, then the second, while the first is finished.
abbrev comes : List ℕ → (List ℕ → Bool) → Round Bool Server (List ℕ)
comes c is_finished = record {
  others = λ s. s;
  others_clean = [];
  accepting = accepted c;
  is_finished = is_finished;
  answers = true;
}

abbrev torn_down : Round Bool Server (List ℕ)
torn_down = record {
  others = λ s. (request_teardown (second ∷ []) s).1;
  others_clean = [];
  accepting = would_block;
  is_finished = λ c. false;
  answers = true;
}

listen_on_socket-joined_example :
    (np : NetPort Server (List ℕ)) × (listen_on_socket server_port true true
        (comes first (λ c. false) ∷ comes second (λ c. true) ∷ [] ++ torn_down ∷ [])
        (fresh a_server)
      ≡ some np)
    × (server_port.is_running np.own ≡ false)
    × (closed : NetPort Server (List ℕ)) × Closed server_port closed
    × (close_all server_port (λ c. false) np ≡ (
        if any_finished server_port (λ c. false) np.connections
        then fault undefined
        else ok closed))
unfolding server_port request_teardown
listen_on_socket-joined_example =
    listen_on_socket-joined server_port server_port-KeepsStopped true true
      (comes first (λ c. false) ∷ comes second (λ c. true) ∷ []) torn_down [] a_server (λ c. false)
      (inr (λ s. refl))
