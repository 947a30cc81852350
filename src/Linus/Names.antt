-- ===== src/Linus/Names.antt =====
-- src/util/linus.cpp, `_users`: the names of the users of a degree.
use cs4500project.NullableArray.View as ArrayView
use cs4500project.Column.View as ColumnView
use cs4500project.Row
use cs4500project.Prelude.{
  All, Bool-cases, List, Permᴰ, [], ap, concat, get_elem?, if◌then◌else◌, inl, inr, map, ok, ok_inj,
  refl, some, sym, true, ℕ, ◌↔◌, ◌∙◌, ◌∷◌, ◌≡◌,
}
use cs4500project.Column.{Column, Value, int_column, int_value, string_column, string_value}
use cs4500project.DataFrame.{DataFrame}
use cs4500project.DataFrame.Fill.{Entries}
use cs4500project.DataFrame.Shape.{get_elem?-map}
use cs4500project.DataFrame.Sweep.{Shows}
use cs4500project.Linus.{
  Degree, Filtered, IntSet, contains, finish_set, the_int_at, the_string_at, uuids_to_names,
}
use cs4500project.Linus.Degrees.{Degree-HoldsDegree, Within}
use cs4500project.Linus.Filters.{Filtered-Holds, Filtered-total}
use cs4500project.Linus.IntSets.{Holds, an_int, finish_set-contains}
use cs4500project.Linus.Logs.{Picks, map_rows-filter}
use cs4500project.Linus.Rounds.{Commit, Commits, the_same}
use cs4500project.Linus.Users.{FitsRows-Users, User, Users, nrows-Users}
use cs4500project.Row.{Row}

-- The names of the users whose numbers are in the set.
unfoldable pub names_of : IntSet → User → List Value
names_of uuids u = if contains uuids u.uuid then string_value (some u.name) ∷ [] else []

two-Entries :
    (i : ℕ) (c₀ c₁ : Column) (vals : List Value) (x y : Value)
    → Entries i (c₀ ∷ c₁ ∷ []) vals
    → get_elem? (ColumnView.view c₀) i ≡ some x
    → get_elem? (ColumnView.view c₁) i ≡ some y
    → vals ≡ x ∷ y ∷ []
two-Entries i c₀ c₁ [] x y e p q = elim e [ ]
two-Entries i c₀ c₁ (a ∷ []) x y e p q = elim e.1 [ ]
two-Entries i c₀ c₁ (a ∷ b ∷ []) x y e p q = rw (the_same e.0 p, the_same e.1.0 q)
two-Entries i c₀ c₁ (a ∷ b ∷ c ∷ vals) x y e p q = elim e.1.1 [ ]

row-User :
    (df : DataFrame) (us : List User) (i : ℕ) (u : User) (row : Row)
    → Users df us
    → get_elem? us i ≡ some u
    → Shows df i row
    → row.values ≡ int_value (some u.uuid) ∷ string_value (some u.name) ∷ []
unfolding ColumnView.view
row-User df us i u row h e shows =
    let entries : Entries i (int_column h.uuids ∷ string_column h.names ∷ []) row.values =
      rw h.columns at shows.entries in
    let numbers : get_elem? (ArrayView.view h.uuids) i ≡ some (some u.uuid) =
      rw (h.uuid) (get_elem?-map (λ (v : User). some v.uuid) us i u e) in
    let names : get_elem? (ArrayView.view h.names) i ≡ some (some u.name) =
      rw (h.name) (get_elem?-map (λ (v : User). some v.name) us i u e) in
    two-Entries i (int_column h.uuids) (string_column h.names) row.values _ _ entries
      (get_elem?-map int_value _ i _ numbers) (get_elem?-map string_value _ i _ names)

uuids_to_names-Picks :
    (df : DataFrame) (us : List User) (uuids : IntSet)
    → Users df us
    → Picks (uuids_to_names uuids) (names_of uuids) df us
unfolding uuids_to_names the_int_at the_string_at Row.get_int Row.get_string names_of
uuids_to_names-Picks df us uuids h i u row e shows =
    let vals = row-User df us i u row h e shows in
    elim (Bool-cases (contains uuids u.uuid)) [ inl f ↦ rw (vals, f) | inr f ↦ rw (vals, f) ]

types_of_names :
    (uuids : IntSet) (us : List User)
    → All (λ v. ColumnView.type_of v ≡ b'S') (concat (map (names_of uuids) us))
unfolding names_of ColumnView.type_of
types_of_names uuids [] = tt
types_of_names uuids (u ∷ us) = elim (Bool-cases (contains uuids u.uuid)) [
  | inl e ↦ rw (e) (refl, types_of_names uuids us)
  | inr e ↦ rw (e) (types_of_names uuids us)
]

uuids_to_names-Holds :
    (df : DataFrame) (us : List User) (uuids : IntSet) (out : DataFrame)
    → Users df us
    → Filtered b'S' (uuids_to_names uuids) df out
    → (vals : List Value) × Permᴰ (concat (map (names_of uuids) us)) vals × Holds b'S' out vals
uuids_to_names-Holds df us uuids out h f =
    let rect = FitsRows-Users df us h in
    let log =
      map_rows-filter (uuids_to_names uuids) (names_of uuids) df us (nrows-Users df us h) h.valid
        rect (uuids_to_names-Picks df us uuids h) in
    Filtered-Holds b'S' (uuids_to_names uuids) df (concat (map (names_of uuids) us)) (inr refl)
      h.valid rect log (types_of_names uuids us) out f

-- For well-formed frames of commits, of users to start from, and of users with their names, in
-- which no value is missing: in whatever order the threads write, the frame of names that `_users`
-- makes of the frame of a degree has the names of just those users who are so many steps from the
-- start, each as often as the frame of users has it, in some order. The string of types in a row
-- has room for 15 characters, as in GNU's library.
pub degree_names-Within :
    (commits linus_uuid users degree_uuids out : DataFrame) (cs : List Commit) (starts : List ℕ)
    (us : List User) (d : ℕ) (uuids : IntSet)
    → Commits commits cs
    → Holds b'I' linus_uuid (map an_int starts)
    → Users users us
    → Degree commits linus_uuid d degree_uuids
    → finish_set degree_uuids ≡ ok uuids
    → Filtered b'S' (uuids_to_names uuids) users out
    → (vals : List Value) × Permᴰ (concat (map (names_of uuids) us)) vals
      × Holds b'S' out vals
      × ((u : ℕ) → (contains uuids u ≡ true) ↔ Within cs starts d u)
degree_names-Within commits linus_uuid users degree_uuids out cs starts us d uuids h k l degree e
      f =
    let (zs, held, is) =
      Degree-HoldsDegree commits cs linus_uuid starts h k d degree_uuids degree in
    let (uuids', made, same) = finish_set-contains degree_uuids zs held in
    let equal : uuids ≡ uuids' = ok_inj (sym e ∙ made) in
    let in_set : (u : ℕ) → contains uuids u ≡ contains zs u =
      λ u. ap (λ s. contains s u) equal ∙ same u in
    let (vals, perm, holds) = uuids_to_names-Holds users us uuids out l f in
    (vals, perm, holds, λ u. (λ m. (is u).0 (sym (in_set u) ∙ m), λ w. in_set u ∙ (is u).1 w))

-- The frame of names can be made.
pub uuids_to_names-total :
    (df : DataFrame) (us : List User) (uuids : IntSet)
    → Users df us
    → (out : DataFrame) × Filtered b'S' (uuids_to_names uuids) df out
uuids_to_names-total df us uuids h =
    let rect = FitsRows-Users df us h in
    let log =
      map_rows-filter (uuids_to_names uuids) (names_of uuids) df us (nrows-Users df us h) h.valid
        rect (uuids_to_names-Picks df us uuids h) in
    Filtered-total b'S' (uuids_to_names uuids) df (concat (map (names_of uuids) us)) (inr refl)
      h.valid rect log (types_of_names uuids us)
