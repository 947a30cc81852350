-- ===== src/Client/Peers.antt =====
-- src/network/client.cpp: after an update there is a connection to each of the other clients, and a
-- value is asked for on the right one.
use cs4500project.Server
use cs4500project.Prelude.{
  fault, assertion_failed, All, Bool, Bool-cases, List, Option-cases, [], ap, append-nil,
  append_assoc, arith, false, get_elem?, if◌then◌else◌, inl, inr, map, ok, refl, some, subst, suc,
  sym, true, zero, ℕ, ◌++◌, ◌∙◌, ◌∷◌, ◌≡◌,
}
use cs4500project.Client.{
  Client, Peer, check_client_updates, connect_all, drop_finished, find_peer, to_connect, value_peer,
}
use cs4500project.Server.{Server}
use cs4500project.Server.Clients.{sockaddr_eq_refl}

-- A connection that was just made.
abbrev pub fresh : List ℕ → Peer
fresh client = record { other = client; finished = false }

abbrev pub IsFound : List Peer → List ℕ → Type 0
IsFound peers node = (p : Peer) × (find_peer peers node ≡ some p)

connect_all-fresh :
    (opens : List ℕ → Bool) (c : Client) (peers : List Peer) (clients : List (List ℕ))
    → (connect_all opens c peers clients).1 ≡ peers ++ map fresh clients
unfolding connect_all
connect_all-fresh opens c peers [] = sym (append-nil peers)
connect_all-fresh opens c peers (client ∷ clients) =
    connect_all-fresh opens _ (peers ++ fresh client ∷ []) clients
    ∙ append_assoc peers (fresh client ∷ []) (map fresh clients)

find_peer-append_left :
    (peers more : List Peer) (node : List ℕ) → IsFound peers node → IsFound (peers ++ more) node
unfolding find_peer
find_peer-append_left [] more node (p, e) = absurd (ground arith)
find_peer-append_left (q ∷ peers) more node (p, e) =
    elim (Bool-cases (Server.sockaddr_eq q.other node)) [
      | inl f ↦ (q, rw f)
      | inr f ↦
          let (p', e') = find_peer-append_left peers more node (p, rw f at e) in (p', rw (f) e')
    ]

find_peer-append_right :
    (peers more : List Peer) (node : List ℕ) → IsFound more node → IsFound (peers ++ more) node
unfolding find_peer
find_peer-append_right [] more node h = h
find_peer-append_right (q ∷ peers) more node h =
    elim (Bool-cases (Server.sockaddr_eq q.other node)) [
      | inl f ↦ (q, rw f)
      | inr f ↦ let (p', e') = find_peer-append_right peers more node h in (p', rw (f) e')
    ]

-- A client that is to be connected stays so.
to_connect-kept :
    (peers : List Peer) (clients found : List (List ℕ)) (node : List ℕ)
    → IsFound (map fresh found) node
    → IsFound (map fresh (to_connect peers clients found)) node
unfolding to_connect find_peer
to_connect-kept peers [] found node h = h
to_connect-kept peers (client ∷ clients) found node h =
    elim (Option-cases (find_peer peers client)) [
      | inl e ↦ rw (e) (
          to_connect-kept peers clients (client ∷ found) node
            (find_peer-append_right (fresh client ∷ []) (map fresh found) node h))
      | inr (p, e) ↦ rw (e) (to_connect-kept peers clients found node h)
    ]

fresh-IsFound : (client : List ℕ) (more : List Peer) → IsFound (fresh client ∷ more) client
unfolding find_peer
fresh-IsFound client more = (fresh client, rw (sockaddr_eq_refl client))

to_connect-IsFound :
    (peers : List Peer) (clients found : List (List ℕ)) (i : ℕ) (client : List ℕ)
    → get_elem? clients i ≡ some client
    → IsFound (peers ++ map fresh (to_connect peers clients found)) client
unfolding to_connect
to_connect-IsFound peers [] found i client e = absurd (ground arith)
to_connect-IsFound peers (c ∷ clients) found zero client e =
    let same : c ≡ client = ground arith in
    subst (λ a. IsFound (peers ++ map fresh (to_connect peers (a ∷ clients) found)) client)
      (sym same)
      (elim (Option-cases (find_peer peers client)) [
        | inl none_yet ↦ rw (none_yet) (
            find_peer-append_right peers _ client (
              to_connect-kept peers clients (client ∷ found) client
                (fresh-IsFound client (map fresh found))))
        | inr have ↦ find_peer-append_left peers _ client have
      ])
to_connect-IsFound peers (c ∷ clients) found (suc i) client e =
    elim (Option-cases (find_peer peers c)) [
      | inl f ↦ rw (f) (to_connect-IsFound peers clients (c ∷ found) i client e)
      | inr (p, f) ↦ rw (f) (to_connect-IsFound peers clients found i client e)
    ]

abbrev AllOpen : List Peer → Type 0
AllOpen = All (λ p. p.finished ≡ false)

drop_finished-AllOpen : (peers : List Peer) → AllOpen (drop_finished peers)
unfolding drop_finished
drop_finished-AllOpen [] = tt
drop_finished-AllOpen (p ∷ peers) = elim (Bool-cases p.finished) [
  | inl e ↦ rw (e) (drop_finished-AllOpen peers)
  | inr e ↦ rw (e) (refl, drop_finished-AllOpen peers)
]

fresh-AllOpen :
    (peers : List Peer) (clients : List (List ℕ))
    → AllOpen peers
    → AllOpen (peers ++ map fresh clients)
fresh-AllOpen [] [] h = tt
fresh-AllOpen [] (c ∷ clients) h = (refl, fresh-AllOpen [] clients tt)
fresh-AllOpen (p ∷ peers) clients h = (h.0, fresh-AllOpen peers clients h.1)

find_peer-AllOpen :
    (peers : List Peer) (node : List ℕ) (p : Peer)
    → AllOpen peers
    → find_peer peers node ≡ some p
    → (p.finished ≡ false) × (Server.sockaddr_eq p.other node ≡ true)
unfolding find_peer
find_peer-AllOpen [] node p h e = absurd (ground arith)
find_peer-AllOpen (q ∷ peers) node p h e = elim (Bool-cases (Server.sockaddr_eq q.other node)) [
  | inl f ↦
      let same : some q ≡ some p = rw f at e in
      let same' : q ≡ p = cc in
      subst (λ r. (r.finished ≡ false) × (Server.sockaddr_eq r.other node ≡ true)) same' (h.0, f)
  | inr f ↦ find_peer-AllOpen peers node p h.1 (rw f at e)
]

-- The connections after a check that follows an update.
checked :
    (opens : List ℕ → Bool) (c : Client) (peers : List Peer)
    → c.client_update ≡ true
    → (check_client_updates opens c peers).1
      ≡ peers ++ map fresh (to_connect peers c.other_clients [])
unfolding check_client_updates
checked opens c peers e =
    let all = connect_all opens c peers (to_connect peers c.other_clients []) in
    let either : Bool → List Peer = λ b. (if b then all else (c, peers)).1 in
    ap either e ∙ connect_all-fresh opens c peers (to_connect peers c.other_clients [])

unchecked :
    (opens : List ℕ → Bool) (c : Client) (peers : List Peer)
    → c.client_update ≡ false
    → (check_client_updates opens c peers).1 ≡ peers
unfolding check_client_updates
unchecked opens c peers e =
    let all = connect_all opens c peers (to_connect peers c.other_clients []) in
    let either : Bool → List Peer = λ b. (if b then all else (c, peers)).1 in ap either e

-- After an update, a value of a node that is one of the other clients is asked for on a connection
-- to that node, which was not finished at the clean-up or is new, whatever connections there were
-- and whether sockets can be created. If the connection's thread has ended by then, the assertion
-- fails instead.
pub value_peer-connected :
    (opens : List ℕ → Bool) (finishes : Peer → Bool) (c : Client) (peers : List Peer) (i : ℕ)
    (node : List ℕ)
    → c.client_update ≡ true
    → get_elem? c.other_clients i ≡ some node
    → (p : Peer) × (value_peer opens finishes c peers node
        ≡ (if finishes p then fault assertion_failed else ok (some p)))
      × (Server.sockaddr_eq p.other node ≡ true)
      × (p.finished ≡ false)
unfolding value_peer
value_peer-connected opens finishes c peers i node e at =
    let open_peers = drop_finished peers in
    let after = checked opens c open_peers e in
    let (p, found) = to_connect-IsFound open_peers c.other_clients [] i node at in
    let all_open =
      fresh-AllOpen open_peers (to_connect open_peers c.other_clients [])
        (drop_finished-AllOpen peers) in
    let (running, equal) = find_peer-AllOpen _ node p all_open found in
    let asked : value_peer opens finishes c peers node
        ≡ (if finishes p then fault assertion_failed else ok (some p)) =
      elim (Bool-cases (finishes p)) [
        | inl ended ↦ rw (value_peer, after, found, running, ended)
        | inr runs ↦ rw (value_peer, after, found, running, runs)
      ] in
    (p, asked, equal, running)

to_connect-nothing :
    (peers : List Peer) (clients : List (List ℕ))
    → ((i : ℕ) (client : List ℕ) → get_elem? clients i ≡ some client → IsFound peers client)
    → to_connect peers clients [] ≡ []
unfolding to_connect
to_connect-nothing peers [] law = refl
to_connect-nothing peers (client ∷ clients) law =
    let (p, e) = law 0 client refl in
    rw (e) (to_connect-nothing peers clients (λ i c at. law (suc i) c at))

-- A second check after an update makes no more connections.
pub check_client_updates-again :
    (opens : List ℕ → Bool) (c : Client) (peers : List Peer)
    → (check_client_updates opens c (check_client_updates opens c peers).1).1
      ≡ (check_client_updates opens c peers).1
check_client_updates-again opens c peers = elim (Bool-cases c.client_update) [
  | inl e ↦
      let once = checked opens c peers e in
      let all_found =
        to_connect-nothing (peers ++ map fresh (to_connect peers c.other_clients []))
          c.other_clients
          (λ i client at. to_connect-IsFound peers c.other_clients [] i client at) in
      rw (once) (
        checked opens c _ e
        ∙ ap (λ cs. (peers ++ map fresh (to_connect peers c.other_clients [])) ++ map fresh cs)
            all_found
        ∙ append-nil _)
  | inr e ↦ unchecked opens c _ e
]
