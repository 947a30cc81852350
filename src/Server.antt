-- ===== src/Server.antt =====
-- src/network/server.cpp and src/network/server_connection.cpp: the server's list of clients, and
-- what a client's packets do to it. An address is the 16 bytes of a `sockaddr_in`. Each step holds
-- the server's locks for all of its time.
pub mod Clients
pub mod Rounds
pub mod Port
use cs4500project.Connection
use cs4500project.Packet.Kind
use cs4500project.Schema
use cs4500project.Prelude.{
  Bool, List, Option, [], false, if◌then◌else◌, leb, length, none, some, take, true, ℕ, ◌&&◌, ◌++◌,
  ◌+◌, ◌==◌, ◌||◌, ◌∷◌,
}
use cs4500project.Connection.{Connection, ParseResult, parse_error, success}
use cs4500project.Packet.{Packet}
use cs4500project.Schema.{Schema}

pub record Server : Type 0 where
  pub clients : List (List ℕ)
  pub passed_update : ℕ
  pub expected_update : ℕ
  pub new_update : Bool
  pub running : Bool

-- `sockaddr_eq` of src/network/socket_util.cpp: family, port and address are the first eight bytes.
unfoldable pub sockaddr_eq : List ℕ → List ℕ → Bool
sockaddr_eq one two = Schema.same_string (take 8 one) (take 8 two)

-- The loop of `remove_client`: the first address that is equal is erased.
unfoldable pub erase_client : List ℕ → List (List ℕ) → List (List ℕ)
erase_client client [] = []
erase_client client (c ∷ clients) =
    let rest = erase_client client clients in if sockaddr_eq client c then clients else c ∷ rest

unfoldable pub remove_client : Server → List ℕ → Server
unfolding erase_client
remove_client s client = record s { clients = erase_client client s.clients; new_update = true }

-- `_clean_up_closed` calls `_on_clean_up` for each connection that is closed.
unfoldable pub clean_up_closed : Server → List (List ℕ) → Server
clean_up_closed s [] = s
clean_up_closed s (other ∷ closed) = clean_up_closed (remove_client s other) closed

-- The addresses of the connections that are found closed, and the number of those that are left,
-- are arguments.
unfoldable pub update_and_alert : Server → List ℕ → List (List ℕ) → ℕ → Server
unfolding clean_up_closed
update_and_alert s caddr closed connections =
    record (clean_up_closed (record s { clients = s.clients ++ caddr ∷ [] }) closed) {
      expected_update = connections;
      new_update = true;
    }

unfoldable pub encode_clients : List (List ℕ) → List ℕ
encode_clients [] = []
encode_clients (c ∷ clients) = c ++ encode_clients clients

unfoldable pub get_clients : Server → Packet × Server
unfolding encode_clients
get_clients s = (
  record { remaining_len = 0; typ = Kind.client_update; value = encode_clients s.clients },
  if leb s.expected_update (s.passed_update + 1)
      then record s { passed_update = 0; new_update = false }
      else record s { passed_update = s.passed_update + 1 },
)

-- `_parse_data` of a `ServerConnection`. The packets that a teardown sends are those of
-- `request_teardown` in Server/Port.
unfoldable pub parse_data :
    Connection → Server → List (List ℕ) → ℕ → Packet → ParseResult × Connection × Server
unfolding update_and_alert remove_client
parse_data c s closed connections p =
    if p.typ == Kind.register || p.typ == Kind.deregister
    then (if length p.value == 16
        then (if p.typ == Kind.register
            then (
              success,
              record c { conn_other = p.value },
              update_and_alert s p.value closed connections,
            )
            else (success, c, remove_client s p.value))
        else (parse_error, c, s))
    else if p.typ == Kind.shutdown
    then (success, record c { finished = true }, s)
    else if p.typ == Kind.teardown
    then (success, record c { finished = true }, record s { running = false })
    else (let (r, c') = Connection.parse_data c p in (r, c', s))

-- One round of a connection's `run` behind `receive_and_parse`: the packet that is sent while an
-- update is noted, and whether the loop goes on. Whether the list and the keep-alive are sent are
-- arguments.
unfoldable pub serve_round : Bool → Bool → Server → Option Packet × Bool × Server
unfolding get_clients
serve_round sent alive s =
    if s.new_update
    then (let (packet, s') = get_clients s in (some packet, sent && alive, s'))
    else (none, alive, s)

-- The rounds of all connections, in the order in which they run, while every packet is sent: the
-- connections that are sent the list.
unfoldable pub deliver : List ℕ → Server → List ℕ × Server
unfolding serve_round
deliver [] s = ([], s)
deliver (connection ∷ rounds) s =
    let (packet, goes_on, s') = serve_round true true s in
    let (others, s'') = deliver rounds s' in
    ((elim packet [ none ↦ others | some p ↦ connection ∷ others ]), s'')
