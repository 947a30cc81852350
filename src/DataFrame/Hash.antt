-- ===== src/DataFrame/Hash.antt =====
-- src/data/dataframe.cpp, `hash`. `std::hash` of the values is an argument.
use cs4500project.Column
use cs4500project.Schema.Hash
use cs4500project.Prelude.{List, Run, [], ok, ℕ, ◌%◌, ◌+◌, ◌>>=◌, ◌∷◌}
use cs4500project.Column.{Column, Hashes}
use cs4500project.DataFrame.{DataFrame}
use cs4500project.Serializable.{size_max}

unfoldable pub hash_columns : Hashes → List Column → ℕ → ℕ
hash_columns h [] acc = acc
hash_columns h (col ∷ cols) acc = hash_columns h cols ((acc + Column.hash h col) % size_max)

unfoldable pub hash : Hashes → DataFrame → Run ℕ
unfolding hash_columns
hash h df = Hash.hash df.schema >>= λ acc. ok (hash_columns h df.columns acc)
