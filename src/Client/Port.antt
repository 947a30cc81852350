-- ===== src/Client/Port.antt =====
-- src/network/client.cpp: what a client adds to the loop that waits for connections.
use cs4500project.Prelude.{
  Bool, List, [], false, if◌then◌else◌, refl, ℕ, ◌∷◌, ◌≡◌, ◌++◌, Bool-cases, inl, inr, ap,
  append_assoc, append-nil, sym, ◌∙◌, subst, if_true, if_false, if-Holds,
}
use cs4500project.NetPort.{Subclass}
use cs4500project.NetPort.Ended.{KeepsStopped}
use cs4500project.Client.{
  Client, Peer, connect_all, connect_to_client, to_connect, check_client_updates,
}

-- Whether sockets can be created, for a client and for the server, and whether the connection to
-- the server is finished.
pub record Answers : Type 0 where
  pub opens : List ℕ → Bool
  pub opens_server : Bool
  pub server_finished : Bool

-- `_initial`, in as far as it concerns the client's own state. The connection to the server that it
-- makes and starts is not in the list of connections: `~Client` joins its thread.
unfoldable pub initial : Answers → Client → Client
initial a c = if a.opens_server then c else record c { running = false }

-- `_check_client_updates`, with the connections that it adds.
unfoldable pub updates : (List ℕ → Bool) → Client → List Peer → Client × List Peer
updates opens c peers =
    if c.client_update
    then connect_all opens c [] (to_connect peers c.other_clients [])
    else (c, [])

unfoldable pub main_loop_work : Answers → List Peer → Client → Client × List Peer
unfolding initial updates
main_loop_work a peers c =
    let (c', added) = updates a.opens c peers in
    (if a.server_finished then initial a c' else c', added)

unfoldable pub client_port : Subclass Answers Client Peer
unfolding main_loop_work
client_port = record {
  is_running = λ c. c.running;
  with_running = λ b c. record c { running = b };
  initial = initial;
  on_clean_up = λ _ c. c;
  on_new_connection = λ c. c;
  main_loop_work = main_loop_work;
}

connect_all-added :
    (opens : List ℕ → Bool) (c : Client) (peers added : List Peer) (clients : List (List ℕ))
    → connect_all opens c (peers ++ added) clients
      ≡ ((connect_all opens c added clients).0, peers ++ (connect_all opens c added clients).1)
unfolding connect_all connect_to_client
connect_all-added opens c peers added [] = refl
connect_all-added opens c peers added (client ∷ clients) =
    rw (append_assoc peers added (record { other = client; finished = false } ∷ [])) (
      connect_all-added opens (connect_to_client opens c added client).0 peers
        (connect_to_client opens c added client).1 clients)

-- It is the check that `get_value` makes, too.
pub check_client_updates-updates :
    (opens : List ℕ → Bool) (c : Client) (peers : List Peer)
    → check_client_updates opens c peers
      ≡ ((updates opens c peers).0, peers ++ (updates opens c peers).1)
unfolding check_client_updates updates
check_client_updates-updates opens c peers = elim (Bool-cases c.client_update) [
  | inl e ↦
      let added = connect_all-added opens c peers [] (to_connect peers c.other_clients []) in
      if_true c.client_update _ _ e
      ∙ subst
          (λ ps. connect_all opens c ps (to_connect peers c.other_clients []) ≡ (
            (connect_all opens c [] (to_connect peers c.other_clients [])).0,
            peers ++ (connect_all opens c [] (to_connect peers c.other_clients [])).1,
          ))
          (append-nil peers) added
      ∙ ap (λ (u : Client × List Peer). (u.0, peers ++ u.1)) (sym (if_true c.client_update _ _ e))
  | inr e ↦
      if_false c.client_update _ _ e
      ∙ ap (λ ps. (c, ps)) (sym (append-nil peers))
      ∙ ap (λ (u : Client × List Peer). (u.0, peers ++ u.1)) (sym (if_false c.client_update _ _ e))
]

connect_all-stopped :
    (opens : List ℕ → Bool) (c : Client) (peers : List Peer) (clients : List (List ℕ))
    → c.running ≡ false
    → (connect_all opens c peers clients).0.running ≡ false
unfolding connect_all connect_to_client
connect_all-stopped opens c peers [] e = e
connect_all-stopped opens c peers (client ∷ clients) e =
    connect_all-stopped opens _ _ clients
      (if-Holds (λ d. d.running ≡ false) (opens client) c (record c { running = false }) e refl)

initial-stopped : (a : Answers) (c : Client) → c.running ≡ false → (initial a c).running ≡ false
unfolding initial
initial-stopped a c e =
    if-Holds (λ d. d.running ≡ false) a.opens_server c (record c { running = false }) e refl

main_loop_work-stopped :
    (a : Answers) (peers : List Peer) (c : Client)
    → c.running ≡ false
    → (main_loop_work a peers c).0.running ≡ false
unfolding main_loop_work updates
main_loop_work-stopped a peers c e =
    let c' = (updates a.opens c peers).0 in
    let e' : c'.running ≡ false =
      if-Holds (λ u. u.0.running ≡ false) c.client_update
        (connect_all a.opens c [] (to_connect peers c.other_clients [])) (c, [])
        (connect_all-stopped a.opens c [] (to_connect peers c.other_clients []) e) e in
    if-Holds (λ d. d.running ≡ false) a.server_finished (initial a c') c' (initial-stopped a c' e')
      e'

pub client_port-KeepsStopped : KeepsStopped client_port
unfolding client_port
client_port-KeepsStopped = record {
  set_stopped = λ c. refl;
  clean_up_stopped = λ p c e. e;
  new_stopped = λ c e. e;
  work_stopped = main_loop_work-stopped;
}
