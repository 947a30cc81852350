-- ===== src/Client/Updates.antt =====
-- src/network/server.cpp and src/network/cts_connection.cpp: the list of clients that the server
-- sends, and what a client makes of it.
use cs4500project.Server
use cs4500project.Prelude.{
  All, Bool-cases, List, [], ap, append-nil, append_assoc, arith, drop, false, if◌then◌else◌, inl,
  inr, leb, length, length-append, refl, subst, suc, sym, take, take-append, true, zero, ℕ, ◌%◌,
  ◌++◌, ◌+◌, ◌<◌, ◌∙◌, ◌∷◌, ◌≡◌, ◌≤◌,
}
use cs4500project.Client.{Client, parse_data, read_clients}
use cs4500project.Connection.{Connection, success}
use cs4500project.Serializable.{size_max}
use cs4500project.Serializable.Words.{Rest, Rest-append, Rest-length}
use cs4500project.Server.{Server, encode_clients, get_clients}

-- The addresses other than one's own, in order.
unfoldable pub others_of : List ℕ → List (List ℕ) → List (List ℕ)
others_of self [] = []
others_of self (c ∷ clients) =
    if Server.sockaddr_eq self c then others_of self clients else c ∷ others_of self clients

read_clients-encode_clients :
    (fuel : ℕ) (self : List ℕ) (clients : List (List ℕ)) (bytes : List ℕ) (pos : ℕ)
    (others : List (List ℕ))
    → length clients < fuel
    → All (λ c. length c ≡ 16) clients
    → length bytes + 16 < size_max
    → Rest bytes pos (encode_clients clients)
    → read_clients fuel self bytes pos others ≡ others ++ others_of self clients
unfolding read_clients encode_clients others_of
read_clients-encode_clients zero self clients bytes pos others l a small r = absurd (omega arith)
read_clients-encode_clients (suc fuel) self [] bytes pos others l a small r =
    let total = Rest-length r in
    let wrapped : (pos + 16) % size_max ≡ pos + 16 = omega arith in
    let over : leb (pos + 16) (length bytes) ≡ false = ground arith in
    rw (read_clients, wrapped, over) (sym (append-nil others))
read_clients-encode_clients (suc fuel) self (c ∷ clients) bytes pos others l a small r =
    let tail = encode_clients clients in
    let total = Rest-length r in
    let long = length-append c tail in
    let wrapped : (pos + 16) % size_max ≡ pos + 16 = omega (arith, a.0) in
    let within : leb (pos + 16) (length bytes) ≡ true = ground (arith, a.0) in
    let saddr : take 16 (drop pos bytes) ≡ c =
      ap (take 16) r.rest_eq ∙ subst (λ n. take n (c ++ tail) ≡ c) a.0 (take-append c tail) in
    let next : Rest bytes (pos + 16) tail =
      subst (λ n. Rest bytes (pos + n) tail) a.0 (Rest-append c tail r) in
    let ih = read_clients-encode_clients fuel self clients bytes (pos + 16) in
    elim (Bool-cases (Server.sockaddr_eq self c)) [
      | inl e ↦
          rw (read_clients, wrapped, within, saddr, e) (ih others (omega arith) a.1 small next)
      | inr e ↦
          rw (read_clients, wrapped, within, saddr, e, saddr)
            (ih (others ++ c ∷ []) (omega arith) a.1 small next
              ∙ append_assoc others (c ∷ []) (others_of self clients))
    ]

length-encode_clients :
    (clients : List (List ℕ))
    → All (λ c. length c ≡ 16) clients
    → length clients ≤ length (encode_clients clients)
unfolding encode_clients
length-encode_clients [] a = omega arith
length-encode_clients (c ∷ clients) a =
    omega (arith, a.0, length-encode_clients clients a.1, length-append c (encode_clients clients))

-- A client that gets the server's list knows every address of the list but its own, in the
-- server's order, whatever it knew before, and notes that there is an update; nothing else of it
-- or of the connection changes. The addresses are 16 bytes long, and the list is more than 16
-- bytes shorter than 2 ^ 64.
pub parse_data-get_clients :
    (conn : Connection) (c : Client) (s : Server)
    → All (λ a. length a ≡ 16) s.clients
    → length (encode_clients s.clients) + 16 < size_max
    → parse_data conn c (get_clients s).0 ≡ (
      success,
      conn,
      record c { other_clients = others_of c.self s.clients; client_update = true },
    )
unfolding parse_data get_clients
parse_data-get_clients conn c s a small =
    let bytes = encode_clients s.clients in
    let start : Rest bytes 0 bytes = record {
      within = omega arith;
      fits = omega arith;
      rest_eq = refl;
    } in
    let read =
      read_clients-encode_clients (suc (length bytes)) c.self s.clients bytes 0 []
        (omega (arith, length-encode_clients s.clients a)) a small start in
    ap (λ o. (success, conn, record c { other_clients = o; client_update = true })) read
