-- ===== src/Schema/Hash.antt =====
-- src/data/schema.cpp, `hash`. It reads as many characters of each name as there are names.
use cs4500project.Prelude.{
  List, Option, Run, [], fault, get_elem?, length, none, ok, out_of_range, require, some, suc, zero,
  ℕ, ◌%◌, ◌*◌, ◌+◌, ◌>>=◌, ◌∷◌,
}
use cs4500project.Schema.{Schema}
use cs4500project.Serializable.{size_max}
use cs4500project.Row.Compare.{of_signed}

-- `at` of a string.
unfoldable pub char_at : List ℕ → ℕ → Run ℕ
char_at s j = elim (get_elem? s j) [ none ↦ fault out_of_range | some c ↦ ok c ]

-- The inner loop, over the positions still to be read.
unfoldable pub hash_name : Option (List ℕ) → ℕ → ℕ → ℕ → Run ℕ
unfolding char_at of_signed
hash_name name zero j hash = ok hash
hash_name name (suc left) j hash = do
  s ← require name
  c ← char_at s j
  hash_name name left (j + 1) ((hash + of_signed 8 c * j) % size_max)

unfoldable pub hash_names : ℕ → List (Option (List ℕ)) → ℕ → Run ℕ
unfolding hash_name
hash_names count [] hash = ok hash
hash_names count (name ∷ names) hash = hash_name name count 0 hash >>= hash_names count names

unfoldable pub hash_types : List ℕ → ℕ → ℕ → ℕ
unfolding of_signed
hash_types [] i hash = hash
hash_types (t ∷ types) i hash = hash_types types (i + 1) ((hash + of_signed 8 t * i) % size_max)

unfoldable pub hash : Schema → Run ℕ
unfolding hash_names hash_types
hash s = do
  h ←
      hash_names (length s.column_names) s.column_names
        ((length s.column_names + length s.row_names + length s.column_types) % size_max)
  h' ← hash_names (length s.row_names) s.row_names h
  ok (hash_types s.column_types 0 h')
