-- ===== src/Adapter/Start.antt =====
-- src/adapter/sorer_dataframe_adapter.cpp, `parse_file`: the frame and the row that the loop starts
-- with.
use cs4500project.Column
use cs4500project.Column.View as ColumnView
use cs4500project.DataFrame
use cs4500project.Schema
use cs4500project.Prelude.{
  All, List, [], ap, append_assoc, ap₂, arith, length, length-append, map, ok, refl, suc, sym, zero,
  ℕ, ◌++◌, ◌+◌, ◌∙◌, ◌∷◌, ◌≡◌,
}
use cs4500project.Adapter.{
  SorParser, SorType, bool_type, float_type, format_code, format_from, initialize_schema, int_type,
  string_type,
}
use cs4500project.Adapter.Rows.{
  empty_column, empty_column-IsValid, empty_columns, get_col_from_type-empty_column,
  get_type-empty_column, length-format_from,
}
use cs4500project.Column.{Column}
use cs4500project.DataFrame.{DataFrame, make_columns}
use cs4500project.DataFrame.Shape.{IsValid, col_type-get_type}
use cs4500project.Schema.{Schema}
use cs4500project.Schema.Codec.{IsType, of_types-IsType}

module _ (parser : SorParser) where
  unfoldable pub the_schema : Schema
  the_schema = record {
    column_names = [];
    row_names = [];
    column_types = format_from parser parser.ncols 0;
    width = parser.ncols;
    rows = 0;
  }

  format_code-IsType : (t : SorType) → IsType (format_code t)
  unfolding format_code
  format_code-IsType bool_type = (ground arith, ground arith, omega arith)
  format_code-IsType int_type = (ground arith, ground arith, omega arith)
  format_code-IsType float_type = (ground arith, ground arith, omega arith)
  format_code-IsType string_type = (ground arith, ground arith, omega arith)

  format_from-IsType : (left c : ℕ) → All IsType (format_from parser left c)
  unfolding format_from
  format_from-IsType zero c = tt
  format_from-IsType (suc left) c =
      (format_code-IsType (parser.get_col_type c), format_from-IsType left (c + 1))

  initialize_schema-the_schema : initialize_schema parser ≡ the_schema
  unfolding initialize_schema the_schema
  initialize_schema-the_schema =
      of_types-IsType (format_from parser parser.ncols 0) (format_from-IsType parser.ncols 0)
      ∙ ap
          (λ w. record {
            column_names = [];
            row_names = [];
            column_types = format_from parser parser.ncols 0;
            width = w;
            rows = 0;
          })
          (length-format_from parser parser.ncols 0)

  pub types-empty_columns :
      (left c : ℕ) → map Column.get_type (empty_columns parser left c) ≡ format_from parser left c
  unfolding format_from
  types-empty_columns zero c = refl
  types-empty_columns (suc left) c =
      ap₂ ◌∷◌ (get_type-empty_column (parser.get_col_type c)) (types-empty_columns left (c + 1))

  make_columns-empty_columns :
      (left c : ℕ) (pre : List Column)
      → the_schema.column_types ≡ map Column.get_type (pre ++ empty_columns parser left c)
      → length pre ≡ c
      → make_columns the_schema left c ≡ ok (empty_columns parser left c)
  unfolding make_columns
  make_columns-empty_columns zero c pre e p = refl
  make_columns-empty_columns (suc left) c pre e p =
      let t = parser.get_col_type c in
      let col = empty_column t in
      let here : Schema.col_type the_schema c ≡ ok (format_code t) =
        ap (Schema.col_type the_schema) (sym p)
        ∙ col_type-get_type the_schema pre (empty_columns parser left (c + 1)) col e
        ∙ ap ok (get_type-empty_column t) in
      let rest =
        make_columns-empty_columns left (c + 1) (pre ++ col ∷ [])
          (e ∙ ap (map Column.get_type) (sym (append_assoc pre (col ∷ []) _)))
          (length-append pre (col ∷ []) ∙ omega arith) in
      rw (make_columns, here, get_col_from_type-empty_column t, rest)

  empty_columns-IsValid : (left c : ℕ) → All ColumnView.IsValid (empty_columns parser left c)
  empty_columns-IsValid zero c = tt
  empty_columns-IsValid (suc left) c =
      (empty_column-IsValid (parser.get_col_type c), empty_columns-IsValid left (c + 1))

  pub length-empty_columns : (left c : ℕ) → length (empty_columns parser left c) ≡ left
  length-empty_columns zero c = refl
  length-empty_columns (suc left) c = ap suc (length-empty_columns left (c + 1))

  abbrev pub the_frame : DataFrame
  the_frame = record { schema = the_schema; columns = empty_columns parser parser.ncols 0 }

  pub the_frame-IsValid : IsValid the_frame
  unfolding the_schema
  the_frame-IsValid = record {
    typed = sym (types-empty_columns parser.ncols 0);
    counted = sym (length-empty_columns parser.ncols 0);
    sound = empty_columns-IsValid parser.ncols 0;
  }

  pub of_schema-the_frame : DataFrame.of_schema (initialize_schema parser) ≡ ok the_frame
  unfolding DataFrame.of_schema the_schema
  of_schema-the_frame =
      let made =
        make_columns-empty_columns parser.ncols 0 [] (sym (types-empty_columns parser.ncols 0))
          refl in
      ap DataFrame.of_schema initialize_schema-the_schema ∙ rw (DataFrame.of_schema, made)
