-- ===== src/Examples/Stores.antt =====
-- Stores and the connections between them, applied to two small nodes.
use cs4500project.Column
use cs4500project.CtcConnection
use cs4500project.DataFrame
use cs4500project.KvStore
use cs4500project.NullableArray
use cs4500project.Schema
use cs4500project.Schema.Codec as SchemaCodec
use cs4500project.Prelude.{
  List, [], arith, false, if◌then◌else◌, none, ok, refl, replicate, some, ℕ, ◌∷◌, ◌≡◌,
}
use cs4500project.Column.{Column, Value, int_value}
use cs4500project.Connection.{success}
use cs4500project.CtcConnection.{read_response, CtcConnection, ValueRequest}
use cs4500project.CtcConnection.Keys.{listed, update_keys-key_packet}
use cs4500project.CtcConnection.Requests.{
  outcome, parse_request_response-get_requested_value, parse_request_response_missing,
}
use cs4500project.DataFrame.{DataFrame}
use cs4500project.DataFrame.Codec.{encoding, unnamed}
use cs4500project.Examples.{two_columns, two_columns-FitsBytes, two_columns-IsValid}
use cs4500project.KvStore.{KvStore, NodeKey}
use cs4500project.KvStore.Laws.{get-set}
use cs4500project.NullableArray.{NullableArray}
use cs4500project.Packet.{Packet}
use cs4500project.Schema.{Schema}
use cs4500project.Serializable.{serialize_bools, serialize_chars, serialize_string}

abbrev here : List ℕ
here = replicate 16 1

abbrev there : List ℕ
there = replicate 16 2

abbrev greeting : List ℕ
greeting = b'h' ∷ b'i' ∷ []

abbrev key : NodeKey
key = record { name = greeting; node = replicate 16 0 }

abbrev other_key : NodeKey
other_key = record { name = b'x' ∷ []; node = there }

-- This node keeps one frame, and knows of one key elsewhere.
abbrev store : KvStore
store = record { local_map = (key, two_columns) ∷ []; other_nodes = other_key ∷ [] }

get-set_example :
    (s' : KvStore) × (KvStore.set store key two_columns ≡ ok s')
    × (KvStore.get (λ k. none) s' other_key ≡ (
        if KvStore.same_key other_key key
        then some two_columns
        else KvStore.get (λ k. none) store other_key))
unfolding KvStore.find_other KvStore.same_key Schema.same_string
get-set_example = get-set (λ k. none) store key other_key two_columns refl

abbrev threes : List Value
threes = int_value (some 3) ∷ int_value none ∷ []

abbrev request : ValueRequest
request = record { key = greeting; value = none }

abbrev other_request : ValueRequest
other_request = record { key = b'z' ∷ []; value = none }

-- The other node's end of the connection, on which two requests wait.
abbrev end : CtcConnection
end = record {
  base = record { buffer = replicate 4096 0; buf_pos = 0; finished = false; conn_other = here };
  request_queue = [];
  waiting_requests = other_request ∷ request ∷ [];
  notified = [];
}

parse_request_response_example :
    (p : Packet) × (CtcConnection.get_requested_value store greeting ≡ ok p)
    × (read_response p ≡ ok (greeting, some (unnamed two_columns)))
    × (CtcConnection.parse_request_response end p ≡ outcome end greeting)
unfolding KvStore.get_local KvStore.find_local KvStore.same_key Schema.same_string encoding
    SchemaCodec.encoding Column.serialize NullableArray.serialize serialize_bools serialize_chars
    DataFrame.serialize_columns serialize_string
parse_request_response_example =
    parse_request_response-get_requested_value store two_columns end greeting
      (omega arith, (omega arith, tt)) refl two_columns-IsValid two_columns-FitsBytes (omega arith)

parse_request_response_missing_example :
    (p : Packet) × (CtcConnection.get_requested_value KvStore.empty greeting ≡ ok p)
    × (read_response p ≡ ok (greeting, none))
    × (CtcConnection.parse_request_response end p ≡ outcome end greeting)
unfolding KvStore.get_local KvStore.find_local KvStore.empty serialize_string serialize_chars
parse_request_response_missing_example =
    parse_request_response_missing KvStore.empty end greeting (omega arith, (omega arith, tt)) refl
      (omega arith)

update_keys-key_packet_example :
    (s' : KvStore) × (CtcConnection.update_keys end KvStore.empty (CtcConnection.key_packet store)
      ≡ ok (success, s'))
    × ((j : NodeKey)
        → KvStore.find_other j s'.other_nodes ≡ (
            if listed j (KvStore.get_local_keys store)
            then some (KvStore.set_node j here)
            else KvStore.find_other j []))
    × (s'.local_map ≡ [])
unfolding KvStore.get_local_keys KvStore.local_names KvStore.empty CtcConnection.key_packet
    CtcConnection.encode_keys serialize_string serialize_chars
update_keys-key_packet_example =
    update_keys-key_packet end store KvStore.empty ((omega arith, (omega arith, tt)), tt)
      (omega arith)
