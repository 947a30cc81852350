-- ===== src/Examples/Frames.antt =====
-- Frames and rowers, applied to a small frame.
use cs4500project.Column
use cs4500project.Column.View as ColumnView
use cs4500project.DataFrame
use cs4500project.NullableArray
use cs4500project.Row
use cs4500project.Prelude.{
  All, List, [], ap, arith, false, none, ok, refl, some, true, ℕ, ◌+◌, ◌∷◌, ◌≡◌,
}
use cs4500project.Column.{Column, Value, int_column, int_value, string_value}
use cs4500project.DataFrame.{DataFrame, Rower}
use cs4500project.DataFrame.Fill.{Entries, fill_row-Entries}
use cs4500project.DataFrame.Filter.{filter_rows-add_row}
use cs4500project.DataFrame.Map.{Extends, add_row-Extends}
use cs4500project.DataFrame.Pmap.{Joins, pmap-map_rows}
use cs4500project.DataFrame.Shape.{IsValid, add_column-IsValid}
use cs4500project.Examples.{int_col, int_col-IsValid, two_columns, two_columns-IsValid}
use cs4500project.NullableArray.{NullableArray}
use cs4500project.NullableArray.View.{Clean}
use cs4500project.Row.{Row}

abbrev full_row : Row
full_row = record {
  width = 2;
  types = b'I' ∷ b'S' ∷ [];
  values = int_value (some 9) ∷ string_value none ∷ [];
  index = 0;
}

add_column-IsValid_example : IsValid (DataFrame.add_column two_columns int_col none)
add_column-IsValid_example =
    add_column-IsValid two_columns int_col none two_columns-IsValid int_col-IsValid

add_row-Extends_example :
    (df' : DataFrame) × (DataFrame.add_row two_columns full_row ≡ ok df')
    × (df'.schema ≡ two_columns.schema)
    × Extends two_columns.columns full_row.values df'.columns
unfolding ColumnView.type_of Column.get_type
add_row-Extends_example = add_row-Extends two_columns full_row two_columns-IsValid refl

fill_row-Entries_example :
    (vals : List Value) × (DataFrame.fill_row two_columns 1 full_row
      ≡ ok (record full_row { values = vals; index = 1 }))
    × Entries 1 two_columns.columns vals
unfolding Column.size NullableArray.size Column.get_type
fill_row-Entries_example =
    fill_row-Entries two_columns 1 full_row two_columns-IsValid
      (record { wide = refl; typed = refl; filled = refl }) (omega arith, (omega arith, tt))

-- A rower that counts the rows it is given.
abbrev counter : Rower ℕ
counter = record { accept = λ row n. ok (true, n + 1); join = λ s t. s + t; clone = λ t. some 0 }

counter-Joins : Joins counter
counter-Joins = record {
  accept_join = λ row s t. ap (λ n. ok (true, n)) (omega arith);
  fresh = λ t. 0;
  clone_eq = λ t. refl;
  join_clone = λ s t. omega arith;
}

pmap-map_rows_example :
    DataFrame.pmap counter two_columns 3 ≡ DataFrame.map_rows counter two_columns 3
unfolding Column.size NullableArray.size DataFrame.nrows
pmap-map_rows_example =
    pmap-map_rows counter two_columns 3 counter-Joins two_columns-IsValid
      (record { even = (refl, (refl, tt)); room = omega arith })

abbrev int_frame : DataFrame
int_frame = record {
  schema = record {
    column_names = [];
    row_names = [];
    column_types = b'I' ∷ [];
    width = 1;
    rows = 0;
  };
  columns = int_col ∷ [];
}

abbrev int_row : Row
int_row = record { width = 1; types = b'I' ∷ []; values = int_value (some 9) ∷ []; index = 0 }

abbrev longer_frame : DataFrame
longer_frame = record int_frame {
  columns = int_column (record { bitmap = true ∷ false ∷ true ∷ []; items = 7 ∷ 0 ∷ 9 ∷ [] }) ∷ [];
}

added : DataFrame.add_row int_frame int_row ≡ ok longer_frame
unfolding DataFrame.add_row Row.get_by_type Column.get_type Column.push_back NullableArray.push_back
added = refl

filter_rows-add_row_example :
    (out : DataFrame) × (DataFrame.filter_rows counter longer_frame 0 ≡ ok (out, 0))
    × All (λ c. Column.size c ≡ 0) out.columns
unfolding ColumnView.IsValid Clean Column.get_type
filter_rows-add_row_example =
    filter_rows-add_row counter int_frame int_row longer_frame 0
      (record { typed = refl; counted = refl; sound = ((refl, tt), tt) }) refl added
