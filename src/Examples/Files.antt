-- ===== src/Examples/Files.antt =====
-- A file of two columns and two rows, in which a number is missing, and what is read of it.
use cs4500project.Column
use cs4500project.Prelude.{
  List, Option, [], arith, if◌then◌else◌, ltb, map, none, ok, refl, some, suc, zero, ℕ, ◌-◌, ◌<◌,
  ◌||◌, ◌∷◌, ◌≡◌,
}
use cs4500project.Adapter.{
  Numbers, SorParser, SorType, format_from, int_type, parse_file, parse_value, string_type,
}
use cs4500project.Adapter.Ends.{parse_file-Tabulates}
use cs4500project.Adapter.Tables.{Tabulates}
use cs4500project.Column.{Column, Value, int_value, string_value}
use cs4500project.DataFrame.{DataFrame}
use cs4500project.DataFrame.Shape.{IsValid}

-- The first digit, and an exception where there is none.
digit : List ℕ → Option ℕ
digit [] = none
digit (c ∷ text) = if ltb c 48 || ltb 57 c then none else some (c - 48)

abbrev numbers : Numbers
numbers = record { stoi = digit; stod = λ text. none }

cell : ℕ → ℕ → Option (Option (List ℕ))
cell zero zero = some (some (55 ∷ []))
cell zero (suc zero) = some none
cell (suc zero) zero = some (some (b'h' ∷ b'i' ∷ []))
cell (suc zero) (suc zero) = some (some [])
cell _ _ = none

column_kind : ℕ → SorType
column_kind zero = int_type
column_kind (suc c) = string_type

abbrev parser : SorParser
parser = record { ncols = 2; get_col_type = column_kind; get_col_idx = cell }

entry : ℕ → ℕ → Value
entry zero zero = int_value (some 7)
entry zero (suc zero) = string_value (some (b'h' ∷ b'i' ∷ []))
entry (suc zero) (suc zero) = string_value (some [])
entry _ _ = int_value none

entries_parsed : (i j : ℕ) → i < 2 → j < 2 → parse_value numbers parser j i ≡ some (entry i j)
unfolding parse_value digit cell column_kind entry
entries_parsed zero zero p q = refl
entries_parsed zero (suc zero) p q = refl
entries_parsed (suc zero) zero p q = refl
entries_parsed (suc zero) (suc zero) p q = refl
entries_parsed (suc (suc i)) j p q = absurd (omega arith)
entries_parsed zero (suc (suc j)) p q = absurd (omega arith)
entries_parsed (suc zero) (suc (suc j)) p q = absurd (omega arith)

end_of_file : parse_value numbers parser 0 2 ≡ none
unfolding parse_value cell
end_of_file = refl

parse_file-Tabulates_example :
    (df : DataFrame) × (parse_file numbers parser 3 ≡ ok (some df))
    × IsValid df
    × Tabulates entry 2 0 df.columns
    × (map Column.get_type df.columns ≡ format_from parser 2 0)
parse_file-Tabulates_example =
    parse_file-Tabulates numbers parser entry 2 0 3 entries_parsed (omega arith) end_of_file
      (omega arith) (omega arith)
