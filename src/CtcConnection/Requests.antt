-- ===== src/CtcConnection/Requests.antt =====
-- src/network/ctc_connection.cpp: a request, the response of the node that is asked, and what
-- becomes of the response.
use mathlib.Core.Option
use cs4500project.DataFrame
use cs4500project.Packet.Kind
use cs4500project.KvStore
use cs4500project.Prelude.{
  Bool, Run, fault, undefined, false, ◌||◌, if◌then◌else◌, Bool-cases, List, Option, [], append-nil,
  arith, inl, inr, length, none, ok, refl, replicate, some, subst, sym, ℕ, ◌++◌, ◌+◌, ◌<◌, ◌∙◌, ◌∷◌,
  ◌≡◌,
}
use cs4500project.Connection.{ParseResult, parse_error}
use cs4500project.CtcConnection.{
  read_response, answer, take_request, CtcConnection, ValueRequest, answer, get_requested_value,
  parse_request_response, take_request,
}
use cs4500project.DataFrame.{DataFrame}
use cs4500project.DataFrame.Codec.{FitsBytes, deserialize_frame-serialize, encoding, unnamed}
use cs4500project.DataFrame.Shape.{IsValid}
use cs4500project.KvStore.{KvStore, NodeKey, node_size}
use cs4500project.Packet.{Packet}
use cs4500project.Schema.{same_string}
use cs4500project.Serializable.{deserialize_string, serialize_string, size_max}
use cs4500project.Serializable.Strings.{IsBytes, deserialize_string-serialize_string}

abbrev asked_key : List ℕ → NodeKey
asked_key key = record { name = key; node = replicate node_size 0 }

-- Whether one of the requests is for the key.
unfoldable pub waits : List ℕ → List ValueRequest → Bool
waits k [] = false
waits k (r ∷ rs) = same_string k r.key || waits k rs

take_request-waits :
    {R : Type 0} (k : List ℕ) (rs : List ValueRequest) (x y : R)
    → (let z : R = elim (take_request k rs) [ none ↦ x | some q ↦ y ] in z)
      ≡ (if waits k rs then y else x)
unfolding take_request waits
take_request-waits k [] x y = refl
take_request-waits {R = R} k (r ∷ rs) x y = elim (Bool-cases (same_string k r.key)) [
  | inl found ↦ rw found
  | inr other ↦ rw (other, take_request) (mapped (take_request k rs) ∙ take_request-waits k rs x y)
]
  where
    mapped :
        (o : Option (ValueRequest × List ValueRequest))
        → (let z : R =
              elim (Option.map {B = ValueRequest × List ValueRequest}
                (λ (q : ValueRequest × List ValueRequest). (q.0, r ∷ q.1))
                o) [ none ↦ x | some q ↦ y ] in
            z)
          ≡ (let z : R = elim o [ none ↦ x | some q ↦ y ] in z)
    mapped none = refl
    mapped (some q) = refl

-- What becomes of a response with this key: nothing waits for it, or a request is woken through the
-- iterator that is gone.
abbrev pub outcome : CtcConnection → List ℕ → Run (ParseResult × CtcConnection)
outcome c k = if waits k c.waiting_requests then fault undefined else ok (parse_error, c)

answer-outcome :
    (c : CtcConnection) (k : List ℕ) (v : Option DataFrame) → answer c k v ≡ outcome c k
unfolding answer
answer-outcome c k v =
    take_request-waits k c.waiting_requests (ok (parse_error, c)) (fault undefined)

-- A node that holds the key, a string of bytes, answers with a packet out of which the other node
-- reads the key and the frame, without its names. Where a request waits there for the key, it is
-- then woken through an iterator that has been erased, which is undefined; where none waits, the
-- packet is an error and nothing changes. The frame is well formed, its values fit their words, and
-- the response is shorter than 2 ^ 64 bytes.
pub parse_request_response-get_requested_value :
    (s : KvStore) (df : DataFrame) (c : CtcConnection) (key : List ℕ)
    → IsBytes key
    → KvStore.get_local s (asked_key key) ≡ some df
    → IsValid df
    → FitsBytes df
    → length (1 ∷ serialize_string key ++ encoding df) < size_max
    → (p : Packet) × (get_requested_value s key ≡ ok p)
      × (read_response p ≡ ok (key, some (unnamed df)))
      × (parse_request_response c p ≡ outcome c key)
unfolding get_requested_value read_response parse_request_response
parse_request_response-get_requested_value s df c key g e v f l =
    let str = serialize_string key in
    let nil = append-nil ((1 ∷ str) ++ encoding df) in
    let (write, read) =
      deserialize_frame-serialize (1 ∷ str) df [] v f
        (subst (λ n. length n < size_max) (sym nil) l) in
    let name = deserialize_string-serialize_string (1 ∷ []) key (encoding df) g l in
    let one : length (1 ∷ str) ≡ 1 + length str = omega arith in
    let read' =
      subst
        (λ p.
          DataFrame.deserialize ((1 ∷ str) ++ encoding df) p
          ≡ ok (unnamed df, p + length (encoding df)))
        one
        (subst
          (λ n.
            DataFrame.deserialize n (length (1 ∷ str))
            ≡ ok (unnamed df, length (1 ∷ str) + length (encoding df)))
          nil read) in
    (
      record { remaining_len = 0; typ = Kind.value_response; value = 1 ∷ str ++ encoding df },
      rw (get_requested_value, e, write),
      rw (name, read'),
      rw (name, read') (answer-outcome c key (some (unnamed df))),
    )

-- A node that does not hold the key, a string of bytes, answers with a packet out of which the
-- other node reads the key and no frame. Where a request waits there for the key, it is then woken
-- through an iterator that has been erased, which is undefined; where none waits, the packet is an
-- error and nothing changes. The response is shorter than 2 ^ 64 bytes.
pub parse_request_response_missing :
    (s : KvStore) (c : CtcConnection) (key : List ℕ)
    → IsBytes key
    → KvStore.get_local s (asked_key key) ≡ none
    → length (0 ∷ serialize_string key) < size_max
    → (p : Packet) × (get_requested_value s key ≡ ok p)
      × (read_response p ≡ ok (key, none))
      × (parse_request_response c p ≡ outcome c key)
unfolding get_requested_value read_response parse_request_response
parse_request_response_missing s c key g e l =
    let str = serialize_string key in
    let nil = append-nil (0 ∷ str) in
    let name =
      deserialize_string-serialize_string (0 ∷ []) key [] g
        (subst (λ n. length n < size_max) (sym nil) l) in
    let name' = subst (λ n. deserialize_string n 1 ≡ ok (key, 1 + length str)) nil name in
    (
      record { remaining_len = 0; typ = Kind.value_response; value = 0 ∷ str },
      rw (get_requested_value, e),
      rw name',
      rw name' (answer-outcome c key none),
    )
