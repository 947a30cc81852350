-- ===== src/CtcConnection/Keys.antt =====
-- src/network/ctc_connection.cpp: the list of keys that one node sends, and what the node that
-- receives it knows afterwards.
use cs4500project.KvStore
use cs4500project.Prelude.{
  All, Bool, Bool-cases, List, Option, [], ap, arith, false, if◌then◌else◌, inl, inr, length,
  length-append, le→ltb_false, lt→ltb, ok, refl, some, suc, sym, true, zero, ℕ, ◌+◌, ◌<◌, ◌||◌, ◌∙◌,
  ◌∷◌, ◌≡◌, ◌≤◌,
}
use cs4500project.Connection.{success}
use cs4500project.CtcConnection.{CtcConnection, encode_keys, key_packet, update_from, update_keys}
use cs4500project.KvStore.{KvStore, NodeKey, find_other}
use cs4500project.KvStore.Laws.{find_other-add_nonlocal, same_name}
use cs4500project.Serializable.{serialize_string, serialize_word, size_max}
use cs4500project.Serializable.Strings.{
  IsBytes, deserialize_string-Decodes, length-serialize_string,
}
use cs4500project.Serializable.Words.{Rest, Rest-append, Rest-length}

serialize_string_pos : (s : List ℕ) → 0 < length (serialize_string s)
unfolding serialize_string serialize_word
serialize_string_pos s = omega arith

length-encode_keys : (names : List (List ℕ)) → length names ≤ length (encode_keys names)
unfolding encode_keys
length-encode_keys [] = omega arith
length-encode_keys (n ∷ names) = omega (
  arith,
  length-encode_keys names,
  serialize_string_pos n,
  length-append (serialize_string n) (encode_keys names),
)

-- A store that has been told of each of the names at a node.
unfoldable add_names : List ℕ → List (List ℕ) → KvStore → KvStore
add_names node [] s = s
add_names node (n ∷ names) s =
    add_names node names (KvStore.add_nonlocal s (record { name = n; node = node }))

update_from-encode_keys :
    (fuel : ℕ) (node : List ℕ) (names : List (List ℕ)) (bytes : List ℕ) (pos : ℕ) (s : KvStore)
    → length names < fuel
    → All IsBytes names
    → Rest bytes pos (encode_keys names)
    → update_from fuel node bytes pos s ≡ ok (add_names node names s)
unfolding update_from encode_keys add_names
update_from-encode_keys zero node names bytes pos s l a r = absurd (omega arith)
update_from-encode_keys (suc fuel) node [] bytes pos s l a r =
    let done = le→ltb_false pos (length bytes) (omega (arith, Rest-length r)) in
    rw (update_from, done)
update_from-encode_keys (suc fuel) node (n ∷ names) bytes pos s l a r =
    let enc = serialize_string n in
    let more = lt→ltb pos (length bytes) (
      omega
        (arith, Rest-length r, serialize_string_pos n, length-append enc (encode_keys names))) in
    let next = Rest-append enc (encode_keys names) r in
    let small : length n < size_max = omega (
      arith,
      r.fits,
      length-serialize_string n,
      Rest-length r,
      length-append enc (encode_keys names),
    ) in
    let name = deserialize_string-Decodes n a.0 small bytes pos (encode_keys names) r in
    let s' = KvStore.add_nonlocal s (record { name = n; node = node }) in
    let rest =
      update_from-encode_keys fuel node names bytes (pos + length enc) s' (omega arith) a.1 next in
    rw (update_from, more, name, rest)

-- Whether a key has one of the names.
unfoldable pub listed : NodeKey → List (List ℕ) → Bool
listed j [] = false
listed j (n ∷ names) = KvStore.same_key j (record { name = n; node = j.node }) || listed j names

same_at :
    (j : NodeKey) (n node : List ℕ)
    → KvStore.same_key j (record { name = n; node = node })
      ≡ KvStore.same_key j (record { name = n; node = j.node })
unfolding KvStore.same_key
same_at j n node = refl

told_first :
    (j : NodeKey) (n node : List ℕ) (later : Bool) (found old : Option NodeKey)
    → found ≡ (
        if KvStore.same_key j (record { name = n; node = node })
        then some (record { name = n; node = node })
        else old)
    → (if later then some (KvStore.set_node j node) else found) ≡ (
        if KvStore.same_key j (record { name = n; node = j.node }) || later
        then some (KvStore.set_node j node)
        else old)
unfolding KvStore.set_node
told_first j n node true found old h =
    elim (Bool-cases (KvStore.same_key j (record { name = n; node = j.node }))) [
      | inl e ↦ rw (e)
      | inr e ↦ rw (e)
    ]
told_first j n node false found old h =
    let k : NodeKey = record { name = n; node = node } in
    elim (Bool-cases (KvStore.same_key j k)) [
      | inl e ↦
          let here = sym (same_at j n node) ∙ e in
          let p : k ≡ record { name = j.name; node = node } =
            ap (λ m. record { name = m; node = node }) (sym ((same_name j k).0 e)) in
          h ∙ rw (e, p, here)
      | inr e ↦ let here = sym (same_at j n node) ∙ e in h ∙ rw (e, here)
    ]

find_other-add_names :
    (node : List ℕ) (names : List (List ℕ)) (j : NodeKey) (s : KvStore)
    → (find_other j (add_names node names s).other_nodes
        ≡ (if listed j names then some (KvStore.set_node j node) else find_other j s.other_nodes))
      × ((add_names node names s).local_map ≡ s.local_map)
unfolding add_names listed
find_other-add_names node [] j s = (refl, refl)
find_other-add_names node (n ∷ names) j s =
    let k : NodeKey = record { name = n; node = node } in
    let (found, same) = find_other-add_names node names j (KvStore.add_nonlocal s k) in
    let (step, kept) = find_other-add_nonlocal s k j in
    (found ∙ told_first j n node (listed j names) _ _ step, same ∙ kept)

-- The list of keys that a node sends is read whole, and the node that receives it then finds
-- every key with one of the sender's names at the sender, and every other key where it found it
-- before; its own values are as they were. The names are strings of bytes, and the list is
-- shorter than 2 ^ 64 bytes.
pub update_keys-key_packet :
    (c : CtcConnection) (sender s : KvStore)
    → All IsBytes (KvStore.get_local_keys sender)
    → length (key_packet sender).value < size_max
    → (s' : KvStore) × (update_keys c s (key_packet sender) ≡ ok (success, s'))
      × ((j : NodeKey)
          → find_other j s'.other_nodes ≡ (
              if listed j (KvStore.get_local_keys sender)
              then some (KvStore.set_node j c.base.conn_other)
              else find_other j s.other_nodes))
      × (s'.local_map ≡ s.local_map)
unfolding update_keys key_packet
update_keys-key_packet c sender s a l =
    let names = KvStore.get_local_keys sender in
    let bytes = encode_keys names in
    let node = c.base.conn_other in
    let start : Rest bytes 0 bytes = record { within = omega arith; fits = l; rest_eq = refl } in
    let read =
      update_from-encode_keys (suc (length bytes)) node names bytes 0 s
        (omega (arith, length-encode_keys names)) a start in
    (
      add_names node names s,
      rw (read),
      λ j. (find_other-add_names node names j s).0,
      (find_other-add_names node names (record { name = []; node = [] }) s).1,
    )
