-- ===== src/CtcConnection.antt =====
-- include/network/ctc_connection.h and src/network/ctc_connection.cpp: what two nodes say to each
-- other about their stores. Each node's part of a connection holds the requests of its own threads;
-- a request that is answered is woken through an erased iterator, which is undefined. Whether
-- `_send_packet` succeeds is an argument, and so is the client's registration packet. Each step
-- holds the locks that it takes for all of its time.
pub mod Requests
pub mod Keys
pub mod Life
pub mod Waking
use cs4500project.Connection
use cs4500project.DataFrame
use cs4500project.Packet.Kind
use cs4500project.KvStore
use mathlib.Core.Option
use cs4500project.Schema
use cs4500project.Prelude.{
  Bool, List, Option, Run, [], false, fault, get_elem?, if◌then◌else◌, length, ltb, none, ok,
  replicate, some, suc, true, undefined, zero, ℕ, ◌++◌, ◌==◌, ◌>>=◌, ◌>>◌, ◌∷◌,
}
use cs4500project.Connection.{Connection, ParseResult, parse_error, response, success}
use cs4500project.DataFrame.{DataFrame}
use cs4500project.KvStore.{KvStore, node_size}
use cs4500project.Packet.{Packet}
use cs4500project.Schema.{Schema}
use cs4500project.Serializable.{deserialize_string, serialize_string}

pub record ValueRequest : Type 0 where
  pub key : List ℕ
  pub value : Option DataFrame

-- `notified` holds the requests that have been woken, the latest first. Only the destructor gets as
-- far as that.
pub record CtcConnection : Type 0 where
  pub base : Connection
  pub request_queue : List ValueRequest
  pub waiting_requests : List ValueRequest
  pub notified : List ValueRequest

unfoldable pub add_request : CtcConnection → ValueRequest → CtcConnection
add_request c r = record c { request_queue = c.request_queue ++ r ∷ [] }

unfoldable pub request_packet : List ℕ → Packet
request_packet key = record {
  remaining_len = 0;
  typ = Kind.value_request;
  value = serialize_string key;
}

-- The loop of `_check_requests`: the packets that are sent, in order, and the requests that wait
-- afterwards.
unfoldable pub send_requests :
    List ValueRequest → List ValueRequest → List Packet × List ValueRequest
unfolding request_packet
send_requests [] waiting = ([], waiting)
send_requests (r ∷ queue) waiting =
    let (packets, waiting') = send_requests queue (waiting ++ r ∷ []) in
    (request_packet r.key ∷ packets, waiting')

unfoldable pub check_requests : CtcConnection → List Packet × CtcConnection
unfolding send_requests
check_requests c =
    let (packets, waiting) = send_requests c.request_queue c.waiting_requests in
    (packets, record c { request_queue = []; waiting_requests = waiting })

unfoldable pub finish_unless : Bool → CtcConnection → CtcConnection
finish_unless sent c = if sent then c else record c { base = record c.base { finished = true } }

unfoldable pub encode_keys : List (List ℕ) → List ℕ
encode_keys [] = []
encode_keys (k ∷ ks) = serialize_string k ++ encode_keys ks

unfoldable pub key_packet : KvStore → Packet
unfolding encode_keys
key_packet s = record {
  remaining_len = 0;
  typ = Kind.key_list;
  value = encode_keys (KvStore.get_local_keys s);
}

unfoldable pub send_keys : KvStore → Bool → CtcConnection → Packet × CtcConnection
unfolding key_packet finish_unless
send_keys s sent c = (key_packet s, finish_unless sent c)

-- The loop of `_update_keys`. A round moves the position, so the fuel that `update_keys` gives, one
-- more than there are bytes, is enough; without fuel the store comes back as it is.
unfoldable pub update_from : ℕ → List ℕ → List ℕ → ℕ → KvStore → Run KvStore
update_from zero node bytes pos s = ok s
update_from (suc fuel) node bytes pos s = elim (ltb pos (length bytes)) [
  | false ↦ ok s
  | true ↦ deserialize_string bytes pos >>= λ r.
      update_from fuel node bytes r.1 (KvStore.add_nonlocal s (record { name = r.0; node = node }))
]

unfoldable pub update_keys : CtcConnection → KvStore → Packet → Run (ParseResult × KvStore)
unfolding update_from
update_keys c s p =
    if p.typ == Kind.key_list
    then (update_from (suc (length p.value)) c.base.conn_other p.value 0 s >>= λ s'.
        ok (success, s'))
    else ok (parse_error, s)

-- The loop of `_parse_request_response`: the first request that waits for the key is taken out.
unfoldable pub take_request : List ℕ → List ValueRequest → Option (ValueRequest × List ValueRequest)
take_request k [] = none
take_request k (r ∷ rs) =
    if Schema.same_string k r.key
    then some (r, rs)
    else Option.map (λ q. (q.0, r ∷ q.1)) (take_request k rs)

-- The request that is found is erased from the list, and then woken through the iterator that the
-- erasing has invalidated, which the language leaves undefined.
unfoldable pub answer :
    CtcConnection → List ℕ → Option DataFrame → Run (ParseResult × CtcConnection)
unfolding take_request
answer c k df = elim (take_request k c.waiting_requests) [
  | none ↦ ok (parse_error, c)
  | some q ↦ fault undefined
]

-- What `_parse_request_response` reads: the key, and the frame if there is one. The first byte of
-- an empty packet is read outside of it.
unfoldable pub read_response : Packet → Run (List ℕ × Option DataFrame)
read_response p = do
  success_byte ← elim (get_elem? p.value 0) [ none ↦ fault undefined | some b ↦ ok b ]
  (k, pos) ← deserialize_string p.value 1
  if success_byte == 0
      then ok (k, none)
      else (DataFrame.deserialize p.value pos >>= λ r. ok (k, some r.0))

unfoldable pub parse_request_response : CtcConnection → Packet → Run (ParseResult × CtcConnection)
unfolding answer read_response
parse_request_response c p =
    if p.typ == Kind.value_response
    then (read_response p >>= λ r. answer c r.0 r.1)
    else ok (parse_error, c)

-- `_parse_data` of the derived class.
unfoldable pub parse_data :
    CtcConnection → KvStore → Packet → Run (ParseResult × CtcConnection × KvStore)
unfolding parse_request_response update_keys
parse_data c s p =
    if p.typ == Kind.value_response
    then (parse_request_response c p >>= λ r. ok (r.0, r.1, s))
    else if p.typ == Kind.value_request
    then ok (response, c, s)
    else if p.typ == Kind.key_list
    then (update_keys c s p >>= λ r. ok (r.0, c, r.1))
    else (let (r, base') = Connection.parse_data c.base p in ok (r, record c { base = base' }, s))

unfoldable pub get_requested_value : KvStore → List ℕ → Run Packet
get_requested_value s key =
    elim (KvStore.get_local s (record { name = key; node = replicate node_size 0 })) [
      | none ↦ ok (record {
        remaining_len = 0;
        typ = Kind.value_response;
        value = 0 ∷ serialize_string key;
      })
      | some df ↦ DataFrame.serialize df >>= λ bytes. ok (record {
        remaining_len = 0;
        typ = Kind.value_response;
        value = 1 ∷ serialize_string key ++ bytes;
      })
    ]

-- `_respond`: the packet that is given to `_send_packet`, and whether the result is 0 rather than
-- -1.
unfoldable pub respond : Packet → KvStore → Bool → Packet → Run (Option Packet × Bool)
unfolding get_requested_value
respond registration s sent msg =
    if msg.typ == Kind.ask_for_id
    then ok (some (record registration { typ = Kind.id }), true)
    else if msg.typ == Kind.value_request
    then (do
      (key, pos) ← deserialize_string msg.value 0
      packet ← get_requested_value s key
      ok (some packet, sent))
    else ok (none, false)
