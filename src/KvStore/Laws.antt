-- ===== src/KvStore/Laws.antt =====
-- The tables of src/data/kvstore.cpp: what a lookup finds after each operation that changes them.
use cs4500project.Schema
use cs4500project.Prelude.{
  ==_iff, Bool-cases, List, Option, Option-cases, [], ap, arith, assertion_failed, false, fault,
  if◌then◌else◌, inl, inr, length, none, ok, ok_inj, refl, some, subst, sym, true, ◌&&◌, ◌==◌, ◌↔◌,
  ◌∙◌, ◌∷◌, ◌≡◌,
}
use cs4500project.DataFrame.{DataFrame}
use cs4500project.KvStore.{
  KvStore, NodeKey, add_nonlocal, assign, find_local, find_other, get, get_local, insert_other,
  same_key, set, set_node,
}
use cs4500project.Schema.{Schema}
use cs4500project.Schema.Names.{same_string_iff}

pub same_name : (k j : NodeKey) → (same_key k j ≡ true) ↔ (k.name ≡ j.name)
unfolding same_key
same_name k j = (
  λ h. (same_string_iff k.name j.name).0 (ground arith),
  λ h.
      let a = (==_iff (length k.name) (length j.name)).1 (ap length h) in
      let b = (same_string_iff k.name j.name).1 h in cc,
)

-- A key that is found in place of another has its name, so it is compared alike.
same_key_cong : (j k i : NodeKey) → same_key k i ≡ true → same_key j k ≡ same_key j i
unfolding same_key
same_key_cong j k i h =
    ap (λ n. (length j.name == length n) && Schema.same_string j.name n) ((same_name k i).0 h)

different : (j k i : NodeKey) → same_key k i ≡ false → same_key j i ≡ true → same_key j k ≡ false
different j k i h t = elim (Bool-cases (same_key j k)) [
  | inl e ↦
      let p = (same_name j k).0 e in
      let q = (same_name j i).0 t in let r = (same_name k i).1 (sym p ∙ q) in cc
  | inr e ↦ e
]

pub find_local-assign :
    (j k : NodeKey) (df : DataFrame) (m : List (NodeKey × DataFrame))
    → find_local j (assign k df m) ≡ (if same_key j k then some df else find_local j m)
unfolding find_local assign
find_local-assign j k df [] = refl
find_local-assign j k df ((i, old) ∷ m) =
    let rest = find_local-assign j k df m in
    elim (Bool-cases (same_key k i)) [
      | inl e ↦
          let c = same_key_cong j k i e in
          elim (Bool-cases (same_key j i)) [ inl h ↦ rw (e, c, h) | inr h ↦ rw (e, c, h) ]
      | inr e ↦ elim (Bool-cases (same_key j i)) [
        | inl h ↦ let q = different j k i e h in rw (e, q, h)
        | inr h ↦ rw (e, h, rest)
      ]
    ]

replaced : (k i : NodeKey) → same_key k i ≡ true → set_node i k.node ≡ k
unfolding set_node
replaced k i h = ap (λ n. record { name = n; node = k.node }) (sym ((same_name k i).0 h))

find_other-insert :
    (j k : NodeKey) (ks : List NodeKey)
    → find_other j (insert_other k ks) ≡ (if same_key j k then some k else find_other j ks)
unfolding find_other insert_other
find_other-insert j k [] = refl
find_other-insert j k (i ∷ ks) =
    let rest = find_other-insert j k ks in
    elim (Bool-cases (same_key k i)) [
      | inl e ↦
          let c = same_key_cong j k i e in
          let p = replaced k i e in
          elim (Bool-cases (same_key j i)) [ inl h ↦ rw (e, p, c, h) | inr h ↦ rw (e, p, c, h) ]
      | inr e ↦ elim (Bool-cases (same_key j i)) [
        | inl h ↦ let q = different j k i e h in rw (e, q, h)
        | inr h ↦ rw (e, h, rest)
      ]
    ]

-- After `add_nonlocal`, a lookup of the key among the other nodes' keys gives the node that was
-- told last, and of every other key what it gave before; the local keys are as they were.
pub find_other-add_nonlocal :
    (s : KvStore) (k j : NodeKey)
    → (find_other j (add_nonlocal s k).other_nodes
        ≡ (if same_key j k then some k else find_other j s.other_nodes))
      × ((add_nonlocal s k).local_map ≡ s.local_map)
unfolding add_nonlocal
find_other-add_nonlocal s k j = (find_other-insert j k s.other_nodes, refl)

get-local_map :
    (get_value : NodeKey → Option DataFrame) (s : KvStore) (m : List (NodeKey × DataFrame))
    (k j : NodeKey) (df : DataFrame)
    → find_local j m ≡ (if same_key j k then some df else find_local j s.local_map)
    → get get_value (record s { local_map = m }) j
      ≡ (if same_key j k then some df else get get_value s j)
unfolding get get_local
get-local_map f s m k j df l =
    let answer : Option DataFrame → Option DataFrame = λ r. elim r [
      | some v ↦ some v
      | none ↦ elim (find_other j s.other_nodes) [ none ↦ none | some real_key ↦ f real_key ]
    ] in
    elim (Bool-cases (same_key j k)) [
      | inl e ↦
          let p : find_local j m ≡ some df = l ∙ rw (e) in
          let q : (if same_key j k then some df else get f s j) ≡ some df = rw (e) in
          ap answer p ∙ sym q
      | inr e ↦
          let p : find_local j m ≡ find_local j s.local_map = l ∙ rw (e) in
          let q : (if same_key j k then some df else get f s j) ≡ get f s j = rw (e) in
          ap answer p ∙ sym q
    ]

-- After a `set` of a key that no other node holds, `get` returns the new value for that key,
-- without asking another node, and for every other key what it returned before.
pub get-set :
    (get_value : NodeKey → Option DataFrame) (s : KvStore) (k j : NodeKey) (df : DataFrame)
    → find_other k s.other_nodes ≡ none
    → (s' : KvStore) × (set s k df ≡ ok s')
      × (get get_value s' j ≡ (if same_key j k then some df else get get_value s j))
unfolding set get_local
get-set f s k j df h =
    let m = assign k df s.local_map in
    (
      record s { local_map = m },
      rw (set, h),
      get-local_map f s m k j df (find_local-assign j k df s.local_map),
    )

-- What a `set` that ends well leaves in the node's own table.
pub get_local-set :
    (s : KvStore) (k j : NodeKey) (df : DataFrame) (s' : KvStore)
    → set s k df ≡ ok s'
    → get_local s' j ≡ (if same_key j k then some df else get_local s j)
unfolding set get_local
get_local-set s k j df s' e = elim (Option-cases (find_other k s.other_nodes)) [
  | inl free ↦
      let made : ok (record s { local_map = assign k df s.local_map }) ≡ ok s' =
        rw (free, set) at e in
      let same : record s { local_map = assign k df s.local_map } ≡ s' = ok_inj made in
      subst
        (λ (t : KvStore).
          find_local j t.local_map ≡ (if same_key j k then some df else find_local j s.local_map))
        same (find_local-assign j k df s.local_map)
  | inr (other, held) ↦ let aborted : fault assertion_failed ≡ ok s' = rw (held, set) at e in cc
]
