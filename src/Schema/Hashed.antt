-- ===== src/Schema/Hashed.antt =====
-- src/data/schema.cpp, `hash`: for which schemas it returns.
use cs4500project.Prelude.{
  >>=-ok, All, List, Option, [], arith, get_elem?_lt, length, none, ok, refl, some, suc, zero, ℕ,
  ◌%◌, ◌*◌, ◌+◌, ◌≤◌, ◌<◌, ◌≡◌, ◌∷◌, ◌↔◌,
}
use cs4500project.Schema.{Schema}
use cs4500project.Serializable.{size_max}
use cs4500project.Row.Compare.{of_signed}
use cs4500project.Schema.Hash.{char_at, hash_name, hash_names, hash_types, hash}

-- A name that is there and has so many characters.
abbrev pub IsLong : ℕ → Option (List ℕ) → Type 0
IsLong count name = (s : List ℕ) × (name ≡ some s) × (count ≤ length s)

char_at_lt : (s : List ℕ) (j c : ℕ) → char_at s j ≡ ok c → j < length s
unfolding char_at
char_at_lt [] j c e = cc
char_at_lt (x ∷ s) zero c e = omega arith
char_at_lt (x ∷ s) (suc j) c e = omega (arith, char_at_lt s j c e)

hash_name-ok :
    (s : List ℕ) (left j acc : ℕ)
    → j + left ≤ length s
    → (h : ℕ) × (hash_name (some s) left j acc ≡ ok h)
unfolding hash_name char_at
hash_name-ok s zero j acc le = (acc, refl)
hash_name-ok s (suc left) j acc le =
    let (c, e) = get_elem?_lt s j (omega arith) in
    rw (e, char_at)
      (hash_name-ok s left (j + 1) ((acc + of_signed 8 c * j) % size_max) (omega arith))

hash_name-IsLong :
    (name : Option (List ℕ)) (left j acc h : ℕ)
    → hash_name name (suc left) j acc ≡ ok h
    → IsLong (j + suc left) name
unfolding hash_name
hash_name-IsLong none left j acc h e = cc
hash_name-IsLong (some s) zero j acc h e =
    let (c, rest, first) = >>=-ok _ (char_at s j) e in
    (s, refl, omega (arith, char_at_lt s j c first))
hash_name-IsLong (some s) (suc left) j acc h e =
    let (c, rest, first) = >>=-ok _ (char_at s j) e in
    let (s', same, le) = hash_name-IsLong (some s) left (j + 1) _ h rest in
    (s', same, omega (arith, le))

hash_names-ok :
    (count : ℕ) (names : List (Option (List ℕ))) (acc : ℕ)
    → All (IsLong count) names
    → (h : ℕ) × (hash_names count names acc ≡ ok h)
unfolding hash_names
hash_names-ok count [] acc long = (acc, refl)
hash_names-ok count (name ∷ names) acc ((s, e, le), long) =
    let (h, first) = hash_name-ok s count 0 acc (omega (arith, le)) in
    rw (e, first) (hash_names-ok count names h long)

hash_names-IsLong :
    (count : ℕ) (names : List (Option (List ℕ))) (acc h : ℕ)
    → hash_names (suc count) names acc ≡ ok h
    → All (IsLong (suc count)) names
unfolding hash_names
hash_names-IsLong count [] acc h e = tt
hash_names-IsLong count (name ∷ names) acc h e =
    let (h', rest, first) = >>=-ok _ (hash_name name (suc count) 0 acc) e in
    let (s, same, le) = hash_name-IsLong name count 0 acc h' first in
    ((s, same, omega (arith, le)), hash_names-IsLong count names h' h rest)

hash_names-All :
    (names : List (Option (List ℕ))) (acc h : ℕ)
    → hash_names (length names) names acc ≡ ok h
    → All (IsLong (length names)) names
hash_names-All [] acc h e = tt
hash_names-All (name ∷ names) acc h e = hash_names-IsLong (length names) (name ∷ names) acc h e

-- `hash` returns exactly for the schemas of which each name of a column is there and has at least
-- as many characters as there are names of columns, and likewise each name of a row; for others it
-- throws or reads an empty optional.
pub hash_returns :
    (s : Schema)
    → ((h : ℕ) × (hash s ≡ ok h)) ↔ (
        All (IsLong (length s.column_names)) s.column_names
        × All (IsLong (length s.row_names)) s.row_names)
unfolding hash
hash_returns s =
    let sizes = (length s.column_names + length s.row_names + length s.column_types) % size_max in
    (
      λ r.
          let (h1, e1, first) =
            >>=-ok _ (hash_names (length s.column_names) s.column_names sizes) r.1 in
          let (h2, e2, second) = >>=-ok _ (hash_names (length s.row_names) s.row_names h1) e1 in
          (hash_names-All s.column_names sizes h1 first, hash_names-All s.row_names h1 h2 second),
      λ long.
          let (h1, first) = hash_names-ok (length s.column_names) s.column_names sizes long.0 in
          let (h2, second) = hash_names-ok (length s.row_names) s.row_names h1 long.1 in
          (hash_types s.column_types 0 h2, rw (first, second) refl),
    )
