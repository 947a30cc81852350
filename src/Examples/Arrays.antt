-- ===== src/Examples/Arrays.antt =====
-- Arrays, columns, schemas and rows, applied to small values.
use cs4500project.Schema.Hash
use cs4500project.Schema.Hashed.{IsLong, hash_returns}
use cs4500project.Prelude.{All, ◌↔◌, set as set_elem}
use cs4500project.NullableArray.View as ArrayView
use cs4500project.NullableArray
use cs4500project.Schema
use cs4500project.Prelude.{
  List, Option, [], arith, erase_at, get_elem?, ok, some, ℕ, ◌++◌, ◌∷◌, ◌≡◌,
}
use cs4500project.Examples.{ints, ints-Clean}
use cs4500project.NullableArray.{NullableArray}
use cs4500project.Schema.{Schema}
use cs4500project.Schema.Names.{col_idx-add_column}

operations-view_example :
    (old : Option ℕ) × (replaced : NullableArray ℕ) × (shorter : NullableArray ℕ) × (get_elem?
        (ArrayView.view ints)
        1
      ≡ some old)
    × (NullableArray.get ints 1 ≡ ok old)
    × (NullableArray.set 0 ints 1 (some 4) ≡ ok (old, replaced))
    × (NullableArray.pop ints 1 ≡ ok (old, shorter))
    × (ArrayView.view (NullableArray.push_back 0 ints (some 4))
        ≡ ArrayView.view ints ++ some 4 ∷ [])
    × (ArrayView.view replaced ≡ set_elem (ArrayView.view ints) 1 (some 4))
    × (ArrayView.view shorter ≡ erase_at (ArrayView.view ints) 1)
    × ArrayView.IsValid 0 (NullableArray.push_back 0 ints (some 4))
    × ArrayView.IsValid 0 replaced
    × ArrayView.IsValid 0 shorter
unfolding ArrayView.view ArrayView.options
operations-view_example = ArrayView.operations-view 0 ints 1 (some 4) ints-Clean (omega arith)

abbrev named : Schema
named = record {
  column_names = some (b'a' ∷ []) ∷ some (b'b' ∷ []) ∷ [];
  row_names = [];
  column_types = b'I' ∷ b'B' ∷ [];
  width = 2;
  rows = 0;
}

abbrev one_type : List ℕ
one_type = b'I' ∷ []

col_idx-add_column_example :
    (Schema.col_idx
        (Schema.add_column (Schema.of_types one_type) b'B' (some (b'x' ∷ [])))
        (b'x' ∷ [])
      ≡ ok (some 0))
    × (Schema.col_type (Schema.add_column (Schema.of_types one_type) b'B' (some (b'x' ∷ []))) 1
        ≡ ok b'B')
col_idx-add_column_example =
    col_idx-add_column one_type (b'x' ∷ []) b'B'
      (((λ h. omega arith), (λ h. omega arith), omega arith), tt)

hash_returns_example :
    ((h : ℕ) × (Hash.hash named ≡ ok h))
    ↔ (All (IsLong 2) named.column_names × All (IsLong 0) named.row_names)
hash_returns_example = hash_returns named
