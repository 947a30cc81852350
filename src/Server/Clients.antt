-- ===== src/Server/Clients.antt =====
-- src/network/server.cpp: the server's list of clients, and for how long it says that there is an
-- update.
use cs4500project.Packet.Kind
use cs4500project.Prelude.{
  Bool-cases, inl, inr, ==_iff, All, List, [], ap, arith, false, leb, length, refl, suc, sym, take,
  true, zero, ℕ, ◌++◌, ◌+◌, ◌<◌, ◌∙◌, ◌∷◌, ◌≡◌, ◌≤◌,
}
use cs4500project.Connection.{Connection, success}
use cs4500project.Packet.{Packet}
use cs4500project.Schema.Names.{same_string_iff}
use cs4500project.Server.{
  Server, clean_up_closed, erase_client, get_clients, parse_data, remove_client, sockaddr_eq,
  update_and_alert,
}

-- An address that no client has.
abbrev pub IsNew : List ℕ → List (List ℕ) → Type 0
IsNew a = All (λ c. sockaddr_eq a c ≡ false)

pub sockaddr_eq_refl : (a : List ℕ) → sockaddr_eq a a ≡ true
unfolding sockaddr_eq
sockaddr_eq_refl a = (same_string_iff (take 8 a) (take 8 a)).1 refl

erase_client-append :
    (a : List ℕ) (clients : List (List ℕ))
    → IsNew a clients
    → erase_client a (clients ++ a ∷ []) ≡ clients
unfolding erase_client
erase_client-append a [] n = rw (sockaddr_eq_refl a)
erase_client-append a (c ∷ clients) n = rw (n.0, erase_client-append a clients n.1)

-- The packet with which an address registers or leaves.
abbrev pub address_packet : ℕ → List ℕ → Packet
address_packet kind a = record { remaining_len = 0; typ = kind; value = a }

-- No connection of these is that of the address.
abbrev pub IsOther : List ℕ → List (List ℕ) → Type 0
IsOther a = All (λ o. sockaddr_eq o a ≡ false)

erase_client-last :
    (o a : List ℕ) (clients : List (List ℕ))
    → sockaddr_eq o a ≡ false
    → erase_client o (clients ++ a ∷ []) ≡ erase_client o clients ++ a ∷ []
unfolding erase_client
erase_client-last o a [] e = rw e
erase_client-last o a (c ∷ clients) e = elim (Bool-cases (sockaddr_eq o c)) [
  | inl f ↦ rw f
  | inr f ↦ rw (f, erase_client-last o a clients e)
]

pub erase_client-IsNew :
    (o a : List ℕ) (clients : List (List ℕ)) → IsNew a clients → IsNew a (erase_client o clients)
unfolding erase_client
erase_client-IsNew o a [] new = tt
erase_client-IsNew o a (c ∷ clients) new = elim (Bool-cases (sockaddr_eq o c)) [
  | inl f ↦ rw f new.1
  | inr f ↦ rw f (new.0, erase_client-IsNew o a clients new.1)
]

clean_up_closed-last :
    (a : List ℕ) (closed : List (List ℕ)) (s : Server)
    → IsOther a closed
    → clean_up_closed (record s { clients = s.clients ++ a ∷ [] }) closed
      ≡ record (clean_up_closed s closed) { clients = (clean_up_closed s closed).clients ++ a ∷ [] }
unfolding clean_up_closed remove_client
clean_up_closed-last a [] s others = refl
clean_up_closed-last a (o ∷ closed) s others =
    ap (λ cs. clean_up_closed (record s { clients = cs; new_update = true }) closed)
      (erase_client-last o a s.clients others.0)
    ∙ clean_up_closed-last a closed (remove_client s o) others.1

clean_up_closed-IsNew :
    (a : List ℕ) (closed : List (List ℕ)) (s : Server)
    → IsNew a s.clients
    → IsNew a (clean_up_closed s closed).clients
unfolding clean_up_closed remove_client
clean_up_closed-IsNew a [] s new = new
clean_up_closed-IsNew a (o ∷ closed) s new =
    clean_up_closed-IsNew a closed (remove_client s o) (erase_client-IsNew o a s.clients new)

-- A client with a new address of 16 bytes that registers, while connections of others are found
-- closed, is put at the end of the list, out of which those are cleaned up, and the connection
-- remembers the address; when it leaves, the list is as without it. Both times the server notes an
-- update.
pub parse_data-deregister :
    (c : Connection) (s : Server) (closed : List (List ℕ)) (a : List ℕ) (n : ℕ)
    → length a ≡ 16
    → IsNew a s.clients
    → IsOther a closed
    → (s' : Server) × (c' : Connection) × (parse_data c s closed n (address_packet Kind.register a)
        ≡ (success, c', s'))
      × (c'.conn_other ≡ a)
      × IsNew a (clean_up_closed s closed).clients
      × (s'.new_update ≡ true)
      × (parse_data c' s' closed n (address_packet Kind.deregister a)
          ≡ (success, c', record s' { clients = (clean_up_closed s closed).clients }))
unfolding parse_data update_and_alert remove_client
parse_data-deregister c s closed a n l new others =
    let sixteen = (==_iff (length a) 16).1 l in
    let kept = clean_up_closed s closed in
    let new' = clean_up_closed-IsNew a closed s new in
    (
      record kept { clients = kept.clients ++ a ∷ []; expected_update = n; new_update = true },
      record c { conn_other = a },
      rw (sixteen, clean_up_closed-last a closed s others),
      refl,
      new',
      refl,
      rw (sixteen, erase_client-append a kept.clients new'),
    )

-- The server after so many connections have been sent the list.
unfoldable pub sent : ℕ → Server → Server
sent zero s = s
sent (suc k) s = sent k (get_clients s).1

sent-flag :
    (k : ℕ) (s : Server)
    → s.passed_update + k < s.expected_update
    → sent k s ≡ record s { passed_update = s.passed_update + k }
unfolding sent get_clients
sent-flag zero s h = ap (λ p. record s { passed_update = p }) (omega arith)
sent-flag (suc k) s h =
    let more : leb s.expected_update (s.passed_update + 1) ≡ false = ground arith in
    let ih = sent-flag k (record s { passed_update = s.passed_update + 1 }) (omega arith) in
    let sum : s.passed_update + 1 + k ≡ s.passed_update + suc k = omega arith in
    rw (more) (ih ∙ ap (λ p. record s { passed_update = p }) sum)

-- Once an update is noted and no connection has been sent the list since the last one, the note
-- stays until as many lists have been sent as there are connections, and is gone with the last.
pub sent-new_update :
    (s : Server) (k : ℕ)
    → s.passed_update ≡ 0
    → s.expected_update ≡ suc k
    → s.new_update ≡ true
    → ((j : ℕ) → j ≤ k → (sent j s).new_update ≡ true)
      × ((get_clients (sent k s)).1 ≡ record s { new_update = false })
unfolding get_clients
sent-new_update s k p e u =
    let last : leb s.expected_update (s.passed_update + k + 1) ≡ true = ground arith in
    (
      λ j le. ap (λ (t : Server). t.new_update) (sent-flag j s (omega arith)) ∙ u,
      ap (λ (t : Server). (get_clients t).1) (sent-flag k s (omega arith))
          ∙ rw (last) (ap (λ q. record s { passed_update = q; new_update = false }) (sym p)),
    )
