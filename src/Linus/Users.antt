-- ===== src/Linus/Users.antt =====
-- src/util/linus.cpp, `_users`: the frame of users, and the loop that looks for one of them.
use cs4500project.NullableArray.View as ArrayView
use cs4500project.Column
use cs4500project.Column.View as ColumnView
use cs4500project.DataFrame
use cs4500project.NullableArray
use cs4500project.Schema
use cs4500project.Prelude.{
  arith, All, Bool-cases, List, Option, [], ap, append_assoc, get_elem?, get_elem?_append,
  if◌then◌else◌, inl, inr, length, length-append, length-map, map, none, ok, refl, some, sym, ℕ,
  ◌++◌, ◌+◌, ◌∙◌, ◌∷◌, ◌≡◌,
}
use cs4500project.Column.{Column, as_int, as_string, int_column, size, string_column}
use cs4500project.DataFrame.{DataFrame}
use cs4500project.DataFrame.Rounds.{FitsRows}
use cs4500project.DataFrame.Shape.{IsValid, get_elem?-map}
use cs4500project.Linus.{find_from, find_uuid}
use cs4500project.NullableArray.{NullableArray}
use cs4500project.Schema.{Schema}

pub record User : Type 0 where
  pub uuid : ℕ
  pub name : List ℕ

-- A well-formed frame that shows these users, and no other column.
pub record Users (df : DataFrame) (us : List User) : Type 0 where
  pub uuids : NullableArray ℕ
  pub names : NullableArray (List ℕ)
  pub valid : IsValid df
  pub columns : df.columns ≡ int_column uuids ∷ string_column names ∷ []
  pub uuid : ArrayView.view uuids ≡ map (λ (u : User). some u.uuid) us
  pub name : ArrayView.view names ≡ map (λ (u : User). some u.name) us

-- The first user of a name, in the order of the rows.
unfoldable pub first_named : List ℕ → List User → Option ℕ
first_named name [] = none
first_named name (u ∷ us) =
    if Schema.same_string u.name name then some u.uuid else first_named name us

sound-Users :
    (df : DataFrame) (us : List User) (h : Users df us)
    → ArrayView.IsValid 0 h.uuids × ArrayView.IsValid [] h.names
unfolding ColumnView.IsValid
sound-Users df us h =
    let sound : All ColumnView.IsValid (int_column h.uuids ∷ string_column h.names ∷ []) =
      rw h.columns at h.valid.sound in
    (sound.0, sound.1.0)

get_int-Users :
    (df : DataFrame) (us : List User) (i : ℕ) (u : User)
    → Users df us
    → get_elem? us i ≡ some u
    → DataFrame.get_int df 0 i ≡ ok (some u.uuid)
unfolding DataFrame.get_int as_int
get_int-Users df us i u h e =
    let at : get_elem? (ArrayView.view h.uuids) i ≡ some (some u.uuid) =
      rw (h.uuid) (get_elem?-map (λ (v : User). some v.uuid) us i u e) in
    rw (h.columns) (ArrayView.get-view 0 h.uuids i (sound-Users df us h).0 ∙ rw at)

get_string-Users :
    (df : DataFrame) (us : List User) (i : ℕ) (u : User)
    → Users df us
    → get_elem? us i ≡ some u
    → DataFrame.get_string df 1 i ≡ ok (some u.name)
unfolding DataFrame.get_string as_string
get_string-Users df us i u h e =
    let at : get_elem? (ArrayView.view h.names) i ≡ some (some u.name) =
      rw (h.name) (get_elem?-map (λ (v : User). some v.name) us i u e) in
    rw (h.columns) (ArrayView.get-view [] h.names i (sound-Users df us h).1 ∙ rw at)

find_from-first_named :
    (df : DataFrame) (us : List User) (h : Users df us) (name : List ℕ) (pre rest : List User)
    → us ≡ pre ++ rest
    → find_from df name (length rest) (length pre) ≡ ok (first_named name rest)
unfolding find_from first_named
find_from-first_named df us h name pre [] e = refl
find_from-first_named df us h name pre (u ∷ rest) e =
    let at : get_elem? us (length pre) ≡ some u =
      ap (λ xs. get_elem? xs (length pre)) e ∙ get_elem?_append pre u rest in
    let named = get_string-Users df us (length pre) u h at in
    let numbered = get_int-Users df us (length pre) u h at in
    let size : length (pre ++ u ∷ []) ≡ length pre + 1 = length-append pre (u ∷ []) in
    let next =
      find_from-first_named df us h name (pre ++ u ∷ []) rest
        (e ∙ sym (append_assoc pre (u ∷ []) rest)) in
    elim (Bool-cases (Schema.same_string u.name name)) [
      | inl f ↦ rw (find_from, named, f, numbered)
      | inr f ↦ rw (find_from, named, f) (rw size at next)
    ]

pub nrows-Users : (df : DataFrame) (us : List User) → Users df us → DataFrame.nrows df ≡ length us
unfolding DataFrame.nrows Column.size
nrows-Users df us h =
    rw (h.columns)
      (ArrayView.size-view 0 h.uuids (sound-Users df us h).0 ∙ ap length h.uuid ∙ length-map _ us)

-- In a frame of users, none of whose values is missing, the loop finds the first user of the name.
pub find_uuid-first_named :
    (df : DataFrame) (us : List User) (name : List ℕ)
    → Users df us
    → find_uuid df name ≡ ok (first_named name us)
unfolding find_uuid
find_uuid-first_named df us name h =
    ap (λ n. find_from df name n 0) (nrows-Users df us h)
    ∙ find_from-first_named df us h name [] us refl

pub FitsRows-Users : (df : DataFrame) (us : List User) → Users df us → FitsRows df
unfolding DataFrame.nrows Column.size
FitsRows-Users df us h =
    let same : NullableArray.size h.names ≡ NullableArray.size h.uuids =
      ArrayView.size-view [] h.names (sound-Users df us h).1
      ∙ ap length h.name
      ∙ length-map _ us
      ∙ sym (length-map _ us)
      ∙ ap length (sym h.uuid)
      ∙ sym (ArrayView.size-view 0 h.uuids (sound-Users df us h).0) in
    (record { even = rw (h.columns) (refl, (same, tt)); room = rw (h.columns) (omega arith) })
