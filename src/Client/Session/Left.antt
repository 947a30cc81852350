-- ===== src/Client/Session/Left.antt =====
-- src/network/cts_connection.cpp and src/network/server_connection.cpp: what is left of a client's
-- session on the server.
use cs4500project.Client
use cs4500project.Server
use cs4500project.Packet.Kind
use cs4500project.Prelude.{
  List, [], ap, false, length, refl, true, ℕ, ◌∙◌, ◌==◌, ◌∷◌, ◌≡◌, if-Holds,
}
use cs4500project.Client.{Client}
use cs4500project.Client.Session.{
  deregistration_packet, finish_unless, receive_packets, run, shutdown_packet,
}
use cs4500project.Connection.{Connection, ParseResult}
use cs4500project.Packet.{Packet}
use cs4500project.Server.{Server, clean_up_closed, erase_client, remove_client}
use cs4500project.Server.Clients.{IsOther, IsNew, address_packet, parse_data-deregister}

-- The packets of one connection, handled by the server one after the other. The connections that a
-- registration finds closed and the number of those that are left are arguments.
unfoldable pub serve_packets :
    List (List ℕ) → ℕ → List Packet → Connection → Server → Connection × Server
serve_packets closed n [] conn s = (conn, s)
serve_packets closed n (p ∷ ps) conn s =
    let (r, conn', s') = Server.parse_data conn s closed n p in serve_packets closed n ps conn' s'

-- No packet changes a client's own address.
parse_data-self :
    (conn : Connection) (c : Client) (p : Packet) → (Client.parse_data conn c p).2.self ≡ c.self
unfolding Client.parse_data
parse_data-self conn c p =
    if-Holds (λ (r : ParseResult × Connection × Client). r.2.self ≡ c.self)
      (p.typ == Kind.client_update) _ _ refl
      (if-Holds (λ (r : ParseResult × Connection × Client). r.2.self ≡ c.self)
        (p.typ == Kind.teardown) _ _ refl refl)

receive_packets-self :
    (ps : List Packet) (conn : Connection) (c : Client)
    → (receive_packets ps conn c).1.self ≡ c.self
unfolding receive_packets
receive_packets-self [] conn c = refl
receive_packets-self (p ∷ ps) conn c =
    let r = Client.parse_data conn c p in
    if-Holds (λ (r' : Connection × Client). r'.1.self ≡ c.self) conn.finished (conn, c)
      (receive_packets ps r.1 r.2) refl (receive_packets-self ps r.1 r.2 ∙ parse_data-self conn c p)

erase_client-new :
    (a : List ℕ) (clients : List (List ℕ)) → IsNew a clients → erase_client a clients ≡ clients
unfolding erase_client
erase_client-new a [] new = refl
erase_client-new a (c ∷ clients) new = rw (new.0, erase_client-new a clients new.1) refl

-- A connection of the server that is finished, with the server's clients as they were without it,
-- also after the clean-up.
pub record Left (a : List ℕ) (before : List (List ℕ)) (conn : Connection) (s : Server)
    : Type 0 where
  pub finished : conn.finished ≡ true
  pub address : conn.conn_other ≡ a
  pub same_clients : s.clients ≡ before
  pub noted : s.new_update ≡ true
  pub cleaned : (clean_up_closed s (conn.conn_other ∷ [])).clients ≡ before

serve_packets-Left :
    (closed : List (List ℕ)) (n : ℕ) (conn : Connection) (s : Server) (a : List ℕ)
    → length a ≡ 16
    → IsNew a s.clients
    → IsOther a closed
    → (conn' : Connection) × (s' : Server) × (serve_packets closed n
          (address_packet Kind.register a ∷ address_packet Kind.deregister a ∷ shutdown_packet ∷ [])
          conn
          s
        ≡ (conn', s'))
      × Left a (clean_up_closed s closed).clients conn' s'
unfolding serve_packets clean_up_closed remove_client Server.parse_data
serve_packets-Left closed n conn s a sixteen new others =
    let (s1, c1, registers, address, new', noted, leaves) =
      parse_data-deregister conn s closed a n sixteen new others in
    let kept = (clean_up_closed s closed).clients in
    (
      record c1 { finished = true },
      record s1 { clients = kept },
      rw (registers, leaves, Server.parse_data) refl,
      record {
        finished = refl;
        address = address;
        same_clients = refl;
        noted = noted;
        cleaned = rw address (erase_client-new a kept new');
      },
    )

-- A client whose address of 16 bytes no other client has, and whose packets are all sent, stops
-- when its connection to the server is finished, whatever it has received. Where the server handles
-- the client's packets with no other step of its own in between, and connections of other clients
-- are found closed at the registration: the server has noted an update, and has the clients that it
-- had before the session less those that were cleaned up at the registration, also when it has
-- cleaned up the client's own connection.
pub run-Left :
    (received : List Packet) (own : Connection) (c : Client) (closed : List (List ℕ)) (n : ℕ)
    (conn : Connection) (s : Server)
    → length c.self ≡ 16
    → IsNew c.self s.clients
    → IsOther c.self closed
    → ((run true true true true received own c).2.running ≡ false)
      × (conn' : Connection) × (s' : Server) × (serve_packets closed n
            (run true true true true received own c).0
            conn
            s
          ≡ (conn', s'))
      × Left c.self (clean_up_closed s closed).clients conn' s'
unfolding run Client.get_registration_packet deregistration_packet finish_unless
run-Left received own c closed n conn s sixteen new others =
    let (conn', s', served, left) = serve_packets-Left closed n conn s c.self sixteen new others in
    (
      refl,
      conn',
      s',
      ap
            (λ self.
              serve_packets closed n
                (address_packet Kind.register c.self
                  ∷ address_packet Kind.deregister self
                  ∷ shutdown_packet
                  ∷ [])
                conn s)
            (receive_packets-self received own c)
          ∙ served,
      left,
    )
