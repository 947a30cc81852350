-- ===== src/Client.antt =====
-- src/network/client.cpp and src/network/cts_connection.cpp: what a client knows of the other
-- clients, and what the server's packets do to it.
pub mod Updates
pub mod Peers
pub mod Port
pub mod Session
use cs4500project.Connection
use cs4500project.Packet.Kind
use cs4500project.Server
use cs4500project.Prelude.{
  ◌||◌, Bool, List, Option, Run, [], assert, drop, false, if◌then◌else◌, leb, length, none, not, ok,
  some, suc, take, true, zero, ℕ, ◌%◌, ◌++◌, ◌+◌, ◌==◌, ◌>>=◌, ◌∷◌,
}
use cs4500project.Connection.{Connection, ParseResult, success}
use cs4500project.Packet.{Packet}
use cs4500project.Serializable.{size_max}
use cs4500project.Server.{Server}

pub record Client : Type 0 where
  pub self : List ℕ
  pub other_clients : List (List ℕ)
  pub client_update : Bool
  pub running : Bool

unfoldable pub get_registration_packet : Client → Packet
get_registration_packet c = record { remaining_len = 0; typ = Kind.register; value = c.self }

-- The loop over a client update. A round moves the position by the size of an address, so the fuel
-- that `parse_data` gives, one more than there are bytes, is enough. The sum is a `size_t`.
unfoldable pub read_clients : ℕ → List ℕ → List ℕ → ℕ → List (List ℕ) → List (List ℕ)
read_clients zero self bytes pos others = others
read_clients (suc fuel) self bytes pos others = elim (leb ((pos + 16) % size_max) (length bytes)) [
  | false ↦ others
  | true ↦
      let saddr = take 16 (drop pos bytes) in
      elim (Server.sockaddr_eq self saddr) [
        | true ↦ read_clients fuel self bytes (pos + 16) others
        | false ↦ read_clients fuel self bytes (pos + 16) (others ++ saddr ∷ [])
      ]
]

-- `_parse_data` of a `CtSConnection`.
unfoldable pub parse_data : Connection → Client → Packet → ParseResult × Connection × Client
unfolding read_clients
parse_data conn c p =
    if p.typ == Kind.client_update
    then (
      success,
      conn,
      record c {
        other_clients = read_clients (suc (length p.value)) c.self p.value 0 [];
        client_update = true;
      },
    )
    else if p.typ == Kind.teardown
    then (success, conn, record c { running = false })
    else (let (r, conn') = Connection.parse_data conn p in (r, conn', c))

-- A connection to another client: its address, and whether it was finished when the list was looked
-- at. What its thread does later is an argument of the operation that depends on it.
pub record Peer : Type 0 where
  pub other : List ℕ
  pub finished : Bool

-- `_clean_up_closed`, where `_on_clean_up` does nothing.
unfoldable pub drop_finished : List Peer → List Peer
drop_finished [] = []
drop_finished (p ∷ peers) = let rest = drop_finished peers in if p.finished then rest else p ∷ rest

-- The loop over the connections that looks for an address.
unfoldable pub find_peer : List Peer → List ℕ → Option Peer
find_peer [] node = none
find_peer (p ∷ peers) node =
    let rest = find_peer peers node in if Server.sockaddr_eq p.other node then some p else rest

-- The loop of `_check_client_updates`: each client without a connection goes to the front.
unfoldable pub to_connect : List Peer → List (List ℕ) → List (List ℕ) → List (List ℕ)
unfolding find_peer
to_connect peers [] found = found
to_connect peers (client ∷ clients) found =
    to_connect peers clients
      (elim (find_peer peers client) [ none ↦ client ∷ found | some p ↦ found ])

-- `_connect_to_client`; whether a socket can be created is an argument. Without one, the client
-- stops running, and the connection is kept all the same. It is made as not finished; its thread,
-- which is started at once, may end at any time behind that.
unfoldable pub connect_to_client :
    (List ℕ → Bool) → Client → List Peer → List ℕ → Client × List Peer
connect_to_client opens c peers client = (
  (if opens client then c else record c { running = false }),
  peers ++ record { other = client; finished = false } ∷ [],
)

unfoldable pub connect_all :
    (List ℕ → Bool) → Client → List Peer → List (List ℕ) → Client × List Peer
unfolding connect_to_client
connect_all opens c peers [] = (c, peers)
connect_all opens c peers (client ∷ clients) =
    let next = connect_to_client opens c peers client in connect_all opens next.0 next.1 clients

unfoldable pub check_client_updates : (List ℕ → Bool) → Client → List Peer → Client × List Peer
unfolding to_connect connect_all
check_client_updates opens c peers =
    if c.client_update
    then connect_all opens c peers (to_connect peers c.other_clients [])
    else (c, peers)

-- `get_value` up to the request: the connection that it goes to, if there is one, of which
-- `_get_value_helper` asserts that it is not finished. The thread of each connection runs
-- meanwhile, of a new one from `_connect_to_client` on: which of them have set `_finished` by the
-- assertion is an argument.
unfoldable pub value_peer :
    (List ℕ → Bool) → (Peer → Bool) → Client → List Peer → List ℕ → Run (Option Peer)
unfolding drop_finished check_client_updates
value_peer opens finishes c peers node =
    let checked = check_client_updates opens c (drop_finished peers) in
    elim (find_peer checked.1 node) [
      | none ↦ ok none
      | some p ↦ assert (not (p.finished || finishes p)) >>= λ _. ok (some p)
    ]
