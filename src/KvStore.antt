-- ===== src/KvStore.antt =====
-- include/data/kvstore.h and src/data/kvstore.cpp: the distributed store, as one node sees it. The
-- mutexes make each operation one step; the hash tables are association lists, in which a key is
-- found by its name alone.
pub mod Laws
pub mod Key
pub mod Arrays
use cs4500project.Schema
use cs4500project.Prelude.{
  Bool, List, Option, Run, String, [], assert, assertion_failed, bytes_of, drop, fault,
  if◌then◌else◌, length, ltb, none, ok, replicate, some, take, undefined, ℕ, ◌%◌, ◌&&◌, ◌++◌, ◌+◌,
  ◌-◌, ◌==◌, ◌>>=◌, ◌>>◌, ◌∷◌,
}
use cs4500project.DataFrame.{DataFrame}
use cs4500project.Schema.{Schema}
use cs4500project.Serializable.{Reader, deserialize_string, serialize_string, size_max}

-- `node` is the 16 bytes of a `sockaddr_in`.
pub record NodeKey : Type 0 where
  pub name : List ℕ
  pub node : List ℕ

unfoldable pub same_key : NodeKey → NodeKey → Bool
same_key k j = (length k.name == length j.name) && Schema.same_string k.name j.name

unfoldable pub set_node : NodeKey → List ℕ → NodeKey
set_node k node = record k { node = node }

unfoldable pub serialize_key : NodeKey → List ℕ
serialize_key k = k.node ++ serialize_string k.name

-- `sizeof(sockaddr_in)` and `sizeof(size_t)`
abbrev pub node_size : ℕ
node_size = 16

-- The assertion compares a difference of `size_t`, which wraps; the copy of the node reads 16
-- bytes, and the position moves by 8.
unfoldable pub deserialize_key : Reader NodeKey
deserialize_key bytes pos = do
  assert (ltb ((length bytes + size_max - pos) % size_max) 8)
  node ←
      (if ltb (length bytes) (pos + node_size)
        then fault undefined
        else ok (take node_size (drop pos bytes)))
  (name, pos') ← deserialize_string bytes (pos + 8)
  ok (record { name = name; node = node }, pos')

-- The key that is made from a name alone: its node is all zeros.
abbrev pub named_key : String → NodeKey
named_key name = record { name = bytes_of name; node = replicate node_size 0 }

pub record KvStore : Type 0 where
  pub local_map : List (NodeKey × DataFrame)
  pub other_nodes : List NodeKey

unfoldable pub empty : KvStore
empty = record { local_map = []; other_nodes = [] }

-- `find` of the two tables.
unfoldable pub find_local : NodeKey → List (NodeKey × DataFrame) → Option DataFrame
find_local k [] = none
find_local k ((j, df) ∷ m) = if same_key k j then some df else find_local k m

unfoldable pub find_other : NodeKey → List NodeKey → Option NodeKey
find_other k [] = none
find_other k (j ∷ ks) = if same_key k j then some j else find_other k ks

unfoldable pub get_local : KvStore → NodeKey → Option DataFrame
unfolding find_local
get_local s k = find_local k s.local_map

-- `get_value` asks another node for the value of a key; what it answers is an argument.
unfoldable pub get : (NodeKey → Option DataFrame) → KvStore → NodeKey → Option DataFrame
unfolding get_local find_other
get get_value s k = elim (get_local s k) [
  | some df ↦ some df
  | none ↦ elim (find_other k s.other_nodes) [ none ↦ none | some real_key ↦ get_value real_key ]
]

-- The loop of `get_or_wait` over the states that its rounds see, before the time is over.
unfoldable pub get_or_wait :
    (NodeKey → Option DataFrame) → NodeKey → List KvStore → Option DataFrame
get_or_wait get_value k [] = none
get_or_wait get_value k (s ∷ states) = elim (get get_value s k) [
  | some df ↦ some df
  | none ↦ get_or_wait get_value k states
]

-- `insert_or_assign`, which keeps the key that is there.
unfoldable pub assign :
    NodeKey → DataFrame → List (NodeKey × DataFrame) → List (NodeKey × DataFrame)
assign k df [] = (k, df) ∷ []
assign k df ((j, old) ∷ m) = if same_key k j then (j, df) ∷ m else (j, old) ∷ assign k df m

unfoldable pub set : KvStore → NodeKey → DataFrame → Run KvStore
unfolding assign find_other
set s k df = elim (find_other k s.other_nodes) [
  | none ↦ ok (record s { local_map = assign k df s.local_map })
  | some j ↦ fault assertion_failed
]

-- The branches of `add_nonlocal`: a key that is there gets the new node, any other is inserted.
unfoldable pub insert_other : NodeKey → List NodeKey → List NodeKey
insert_other k [] = k ∷ []
insert_other k (j ∷ ks) = if same_key k j then set_node j k.node ∷ ks else j ∷ insert_other k ks

unfoldable pub add_nonlocal : KvStore → NodeKey → KvStore
unfolding insert_other
add_nonlocal s k = record s { other_nodes = insert_other k s.other_nodes }

-- The names of the local keys, each once since the map has each once.
unfoldable pub local_names : List (NodeKey × DataFrame) → List (List ℕ)
local_names [] = []
local_names ((k, df) ∷ m) = k.name ∷ local_names m

unfoldable pub get_local_keys : KvStore → List (List ℕ)
unfolding local_names
get_local_keys s = local_names s.local_map
