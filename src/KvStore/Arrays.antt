-- ===== src/KvStore/Arrays.antt =====
-- src/data/dataframe.cpp, `from_array` and `from_scalar`: a frame of one column, which is put into
-- the store under a key.
use cs4500project.Column
use cs4500project.Column.View as ColumnView
use cs4500project.DataFrame
use cs4500project.KvStore
use cs4500project.NullableArray
use cs4500project.Prelude.{
  All, Bool, List, Option, Run, [], append-nil, append_assoc, arith, assertion_failed, false, fault,
  get_elem?, map, none, ok, refl, some, subst, sym, ℕ, ◌++◌, ◌>>=◌, ◌∙◌, ◌∷◌, ◌≡◌,
}
use cs4500project.Column.{
  Column, Value, bool_column, bool_value, float_column, float_value, int_column, int_value,
  string_column, string_value,
}
use cs4500project.Column.View.{type_of}
use cs4500project.DataFrame.{DataFrame, add_column, set}
use cs4500project.DataFrame.Shape.{IsValid, add_column-IsValid, empty-IsValid}
use cs4500project.KvStore.{KvStore, NodeKey, assign, find_other, get_local, same_key}
use cs4500project.KvStore.Laws.{find_local-assign, get-set, same_name}
use cs4500project.NullableArray.{NullableArray}

-- The column that a constructor without arguments makes, and the loop that fills it.
unfoldable pub push_all : Column → List Value → Run Column
push_all c [] = ok c
push_all c (v ∷ vs) = Column.push_back c v >>= λ c'. push_all c' vs

-- What the functions share: the frame that they return, and the store afterwards.
unfoldable pub from_values : KvStore → NodeKey → Column → List Value → Run (DataFrame × KvStore)
unfolding push_all
from_values s k c vs = do
  col ← push_all c vs
  let df = add_column DataFrame.empty col none
  s' ← KvStore.set s k df
  ok (df, s')

unfoldable pub from_array_bool : KvStore → NodeKey → List Bool → Run (DataFrame × KvStore)
unfolding from_values
from_array_bool s k arr =
    from_values s k (bool_column NullableArray.empty) (map (λ b. bool_value (some b)) arr)

unfoldable pub from_array_double : KvStore → NodeKey → List ℕ → Run (DataFrame × KvStore)
unfolding from_values
from_array_double s k arr =
    from_values s k (float_column NullableArray.empty) (map (λ x. float_value (some x)) arr)

unfoldable pub from_array_int : KvStore → NodeKey → List ℕ → Run (DataFrame × KvStore)
unfolding from_values
from_array_int s k arr =
    from_values s k (int_column NullableArray.empty) (map (λ x. int_value (some x)) arr)

-- The four overloads of `from_scalar`.
unfoldable pub from_scalar : KvStore → NodeKey → Value → Run (DataFrame × KvStore)
unfolding from_values
from_scalar s k (int_value v) = from_values s k (int_column NullableArray.empty) (int_value v ∷ [])
from_scalar s k (float_value v) =
    from_values s k (float_column NullableArray.empty) (float_value v ∷ [])
from_scalar s k (bool_value v) =
    from_values s k (bool_column NullableArray.empty) (bool_value v ∷ [])
from_scalar s k (string_value v) =
    from_values s k (string_column NullableArray.empty) (string_value v ∷ [])

push_all-view :
    (c : Column) (vs : List Value)
    → ColumnView.IsValid c
    → All (λ v. type_of v ≡ Column.get_type c) vs
    → (c' : Column) × (push_all c vs ≡ ok c')
      × ColumnView.IsValid c'
      × (Column.get_type c' ≡ Column.get_type c)
      × (ColumnView.view c' ≡ ColumnView.view c ++ vs)
unfolding push_all
push_all-view c [] h a = (c, refl, h, refl, sym (append-nil (ColumnView.view c)))
push_all-view c (v ∷ vs) h a =
    let (c₁, e₁, h₁, t₁, w₁) = ColumnView.view_column-push_back c v h a.0 in
    let (c₂, e₂, h₂, t₂, w₂) =
      push_all-view c₁ vs h₁ (subst (λ t. All (λ v'. type_of v' ≡ t) vs) (sym t₁) a.1) in
    (c₂, rw (e₁) e₂, h₂, t₂ ∙ t₁, w₂ ∙ rw w₁ (append_assoc (ColumnView.view c) (v ∷ []) vs))

-- The frame whose only column is this one, and the store that keeps it under a key.
abbrev pub single : Column → DataFrame
single c = add_column DataFrame.empty c none

abbrev pub stored : KvStore → NodeKey → DataFrame → KvStore
stored s k df = record s { local_map = assign k df s.local_map }

-- The frame and the store that come of values of one type, pushed to a valid column of that type
-- without entries.
pub from_values-stored :
    (s : KvStore) (k : NodeKey) (c : Column) (vs : List Value)
    → ColumnView.IsValid c
    → ColumnView.view c ≡ []
    → All (λ v. type_of v ≡ Column.get_type c) vs
    → find_other k s.other_nodes ≡ none
    → (c' : Column) × (from_values s k c vs ≡ ok (single c', stored s k (single c')))
      × ColumnView.IsValid c'
      × (Column.get_type c' ≡ Column.get_type c)
      × (ColumnView.view c' ≡ vs)
unfolding from_values KvStore.set
from_values-stored s k c vs h e a o =
    let (c', pushed, valid, typed, view) = push_all-view c vs h a in
    (c', rw (from_values, pushed, KvStore.set, o), valid, typed, view ∙ rw e)

-- What is stored is found, and another key is found as before.
pub found_stored :
    (s : KvStore) (k : NodeKey) (df : DataFrame) → get_local (stored s k df) k ≡ some df
unfolding get_local
found_stored s k df = find_local-assign k k df s.local_map ∙ rw ((same_name k k).1 refl)

pub found_before :
    (s : KvStore) (k j : NodeKey) (df : DataFrame)
    → same_key j k ≡ false
    → get_local (stored s k df) j ≡ get_local s j
unfolding get_local
found_before s k j df h = find_local-assign j k df s.local_map ∙ rw (h)

pub single-IsValid : (c : Column) → ColumnView.IsValid c → IsValid (single c)
single-IsValid c h = add_column-IsValid DataFrame.empty c none empty-IsValid h

set_is :
    (s : KvStore) (k : NodeKey) (df : DataFrame) (s' : KvStore)
    → find_other k s.other_nodes ≡ none
    → KvStore.set s k df ≡ ok s'
    → s' ≡ stored s k df
unfolding KvStore.set
set_is s k df s' o e = ground (arith, o, e)

-- Values of one type, pushed to a valid column of that type without entries, are kept under a key
-- that no other node holds: the frame that is returned is well formed and is the one that a later
-- `get` of the key returns, and its only column reads as the values.
pub get-from_values :
    (get_value : NodeKey → Option DataFrame) (s : KvStore) (k : NodeKey) (c : Column)
    (vs : List Value)
    → ColumnView.IsValid c
    → ColumnView.view c ≡ []
    → All (λ v. type_of v ≡ Column.get_type c) vs
    → find_other k s.other_nodes ≡ none
    → (df : DataFrame) × (s' : KvStore) × (from_values s k c vs ≡ ok (df, s'))
      × (KvStore.get get_value s' k ≡ some df)
      × IsValid df
      × (c' : Column) × (df.columns ≡ c' ∷ [])
      × ((i : ℕ)
          → Column.get c' i
            ≡ elim (get_elem? vs i) [ none ↦ fault assertion_failed | some v ↦ ok v ])
unfolding add_column DataFrame.empty
get-from_values f s k c vs h e a o =
    let (c', made, valid, typed, view) = from_values-stored s k c vs h e a o in
    let (s', set, found) = get-set f s k k (single c') o in
    let same : s' ≡ stored s k (single c') = set_is s k (single c') s' o set in
    (
      single c',
      stored s k (single c'),
      made,
      rw same at (rw ((same_name k k).1 refl) at found),
      single-IsValid c' valid,
      c',
      refl,
      λ i. ColumnView.get_column-view c' i valid ∙ rw view,
    )
