-- ===== src/Schema/Names.antt =====
-- src/data/schema.cpp: the search for a column by its name.
use cs4500project.Schema
use mathlib.Core.Option
use cs4500project.Prelude.{
  All, Bool-cases, List, Option, [], ap, arith, false, get_elem?, get_elem?_append, inl, inr,
  length, length-append, lt→ltb, none, ok, refl, some, suc, true, zero, ℕ, ◌++◌, ◌+◌, ◌<◌, ◌↔◌, ◌∙◌,
  ◌∷◌, ◌≡◌, ◌≢◌,
}
use cs4500project.Schema.{Schema, add_column, col_idx, index_from, of_types, same_string}
use cs4500project.Schema.Codec.{IsType, of_types-IsType}

pub same_string_iff : (s t : List ℕ) → (same_string s t ≡ true) ↔ (s ≡ t)
unfolding same_string
same_string_iff [] [] = (λ _. refl, λ _. refl)
same_string_iff [] (y ∷ t) = (λ h. cc, λ h. cc)
same_string_iff (x ∷ s) [] = (λ h. cc, λ h. cc)
same_string_iff (x ∷ s) (y ∷ t) =
    let (p, q) = same_string_iff s t in (λ h. ground arith, λ h. ground arith)

pub same_string_refl : (s : List ℕ) → same_string s s ≡ true
same_string_refl s = (same_string_iff s s).1 refl

-- Every entry has a name.
abbrev pub AllNamed : List (Option (List ℕ)) → Type 0
AllNamed [] = Unit
AllNamed (none ∷ names) = ⊥
AllNamed (some n ∷ names) = AllNamed names

-- `none` says that the name is not there, and `some i` that it stands at `i` first.
abbrev pub IsFirst : List (Option (List ℕ)) → List ℕ → Option ℕ → Type 0
IsFirst names name none = (i : ℕ) → get_elem? names i ≢ some (some name)
IsFirst names name (some i) =
    (get_elem? names i ≡ some (some name))
    × ((j : ℕ) → j < i → get_elem? names j ≢ some (some name))

earlier_ne :
    (n name : List ℕ) (names : List (Option (List ℕ))) (i : ℕ)
    → same_string n name ≡ false
    → IsFirst names name (some i)
    → (j : ℕ) → j < suc i
    → get_elem? (some n ∷ names) j ≢ some (some name)
earlier_ne n name names i e f zero lt h =
    let q : n ≡ name = cc in let same = (same_string_iff n name).1 q in cc
earlier_ne n name names i e f (suc j) lt h = f.1 j (omega arith) h

none_ne :
    (n name : List ℕ) (names : List (Option (List ℕ)))
    → same_string n name ≡ false
    → IsFirst names name none
    → (j : ℕ) → get_elem? (some n ∷ names) j ≢ some (some name)
none_ne n name names e f zero h =
    let q : n ≡ name = cc in let same = (same_string_iff n name).1 q in cc
none_ne n name names e f (suc i) h = f i h

IsFirst-cons :
    (n name : List ℕ) (names : List (Option (List ℕ))) (r : Option ℕ)
    → same_string n name ≡ false
    → IsFirst names name r
    → IsFirst (some n ∷ names) name (Option.map suc r)
IsFirst-cons n name names none e f = none_ne n name names e f
IsFirst-cons n name names (some i) e f = (f.0, earlier_ne n name names i e f)

shift_index :
    (k : ℕ) (r : Option ℕ)
    → Option.map (λ i. k + 1 + i) r ≡ Option.map (λ i. k + i) (Option.map suc r)
shift_index k none = refl
shift_index k (some i) = ap some (omega arith)

index_from-IsFirst :
    (k : ℕ) (name : List ℕ) (names : List (Option (List ℕ)))
    → AllNamed names
    → (r : Option ℕ) × (index_from k name names ≡ ok (Option.map (λ i. k + i) r))
      × IsFirst names name r
unfolding index_from
index_from-IsFirst k name [] h = (none, refl, λ i e. cc)
index_from-IsFirst k name (none ∷ names) h = absurd h
index_from-IsFirst k name (some n ∷ names) h = elim (Bool-cases (same_string n name)) [
  | inl e ↦ (
    some 0,
    rw e (ap (λ i. ok (some i)) (omega arith)),
    (ap (λ s. some (some s)) ((same_string_iff n name).0 e), λ j lt. absurd (omega arith)),
  )
  | inr e ↦
      let (r, p, f) = index_from-IsFirst (k + 1) name names h in
      (Option.map suc r, rw (e, p) (ap ok (shift_index k r)), IsFirst-cons n name names r e f)
]

map_zero : (r : Option ℕ) → Option.map (λ i. 0 + i) r ≡ r
map_zero none = refl
map_zero (some i) = ap some (omega arith)

-- If every column has a name, the search returns the first index at which the name stands, or -1
-- where it stands nowhere.
pub col_idx-IsFirst :
    (s : Schema) (name : List ℕ)
    → AllNamed s.column_names
    → (r : Option ℕ) × (col_idx s name ≡ ok r) × IsFirst s.column_names name r
unfolding col_idx
col_idx-IsFirst s name h =
    let (r, p, f) = index_from-IsFirst 0 name s.column_names h in (r, p ∙ ap ok (map_zero r), f)

-- Where a schema is made from a string of types, the first column that is added with a name is
-- found at index 0, although its type stands behind those of the string. The types are characters
-- other than zero and space.
pub col_idx-add_column :
    (types name : List ℕ) (typ : ℕ)
    → All IsType types
    → let s = add_column (of_types types) typ (some name) in
      (col_idx s name ≡ ok (some 0)) × (Schema.col_type s (length types) ≡ ok typ)
unfolding col_idx add_column Schema.col_type
col_idx-add_column types name typ h =
    let e = of_types-IsType types h in
    (
      rw (e, same_string_refl name),
      rw (
        e,
        lt→ltb (length types) (length (types ++ typ ∷ []))
            (omega (arith, length-append types (typ ∷ []))),
        get_elem?_append types typ [],
      ),
    )
