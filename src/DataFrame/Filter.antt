-- ===== src/DataFrame/Filter.antt =====
-- src/data/dataframe.cpp, `filter`: its loop runs to the schema's count of rows, which `add_row` of
-- a data frame does not raise.
use cs4500project.Column
use cs4500project.DataFrame
use cs4500project.NullableArray
use cs4500project.Schema
use cs4500project.Prelude.{
  >>=-ok, All, List, [], ap, append_assoc, length, length-append, map, ok, refl, some, subst, sym,
  ◌++◌, ◌+◌, ◌∙◌, ◌∷◌, ◌≡◌,
}
use cs4500project.Column.{Column, bool_column, float_column, int_column, string_column}
use cs4500project.DataFrame.{
  DataFrame, Rower, add_row, copy, filter_rows, get_col_from_type, make_columns, push_values,
}
use cs4500project.DataFrame.Shape.{IsValid, col_type-get_type}
use cs4500project.NullableArray.{NullableArray}
use cs4500project.Row.{Row}
use cs4500project.Schema.{Schema}

empty_like : Column → Column
empty_like (int_column a) = int_column NullableArray.empty
empty_like (float_column a) = float_column NullableArray.empty
empty_like (bool_column a) = bool_column NullableArray.empty
empty_like (string_column a) = string_column NullableArray.empty

get_col-empty_like : (c : Column) → get_col_from_type (Column.get_type c) ≡ some (empty_like c)
unfolding get_col_from_type Column.get_type empty_like
get_col-empty_like (int_column a) = refl
get_col-empty_like (float_column a) = refl
get_col-empty_like (bool_column a) = refl
get_col-empty_like (string_column a) = refl

size-empty_like : (c : Column) → Column.size (empty_like c) ≡ 0
unfolding Column.size empty_like NullableArray.size NullableArray.empty
size-empty_like (int_column a) = refl
size-empty_like (float_column a) = refl
size-empty_like (bool_column a) = refl
size-empty_like (string_column a) = refl

sizes-empty_like : (cs : List Column) → All (λ c. Column.size c ≡ 0) (map empty_like cs)
sizes-empty_like [] = tt
sizes-empty_like (c ∷ cs) = (size-empty_like c, sizes-empty_like cs)

make_columns-empty_like :
    (s : Schema) (cs pre : List Column)
    → s.column_types ≡ map Column.get_type (pre ++ cs)
    → make_columns s (length cs) (length pre) ≡ ok (map empty_like cs)
unfolding make_columns
make_columns-empty_like s [] pre e = refl
make_columns-empty_like s (c ∷ cs) pre e =
    let ih =
      make_columns-empty_like s cs (pre ++ c ∷ [])
        (e ∙ ap (map Column.get_type) (sym (append_assoc pre (c ∷ []) cs))) in
    let next : length (pre ++ c ∷ []) ≡ length pre + 1 = length-append pre (c ∷ []) in
    rw (col_type-get_type s pre cs c e, make_columns, get_col-empty_like c, rw next at ih)

-- The copy constructor makes a frame of the same types in which every column is empty.
pub copy-empty :
    (df : DataFrame)
    → IsValid df
    → (out : DataFrame) × (copy df ≡ ok out)
      × (out.schema ≡ Schema.copy df.schema)
      × All (λ c. Column.size c ≡ 0) out.columns
unfolding copy DataFrame.of_schema Schema.copy
copy-empty df valid =
    let made : make_columns (Schema.copy df.schema) df.schema.width 0
        ≡ ok (map empty_like df.columns) =
      subst (λ k. make_columns (Schema.copy df.schema) k 0 ≡ ok (map empty_like df.columns))
        (sym valid.counted)
        (make_columns-empty_like (Schema.copy df.schema) df.columns [] valid.typed) in
    (
      record { schema = Schema.copy df.schema; columns = map empty_like df.columns },
      rw made,
      refl,
      sizes-empty_like df.columns,
    )

-- The frame that results from adding a row to one whose schema counts no rows is filtered to a
-- frame of empty columns, whatever the rower answers, which is not even asked.
pub filter_rows-add_row :
    {S : Type 0} (r : Rower S) (df : DataFrame) (row : Row) (df' : DataFrame) (s : S)
    → IsValid df'
    → df.schema.rows ≡ 0
    → add_row df row ≡ ok df'
    → (out : DataFrame) × (filter_rows r df' s ≡ ok (out, s))
      × All (λ c. Column.size c ≡ 0) out.columns
unfolding filter_rows add_row
filter_rows-add_row r df row df' s valid none_counted e =
    let (columns, same, pushed) = >>=-ok _ (push_values row 0 df.columns) e in
    let whole : record df { columns = columns } ≡ df' = cc in
    let schema : df.schema ≡ df'.schema = ap (λ (d : DataFrame). d.schema) whole in
    let (out, copied, s', sizes) = copy-empty df' valid in
    (out, rw (copied, ← schema, none_counted), sizes)
