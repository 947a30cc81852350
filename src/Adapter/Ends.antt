-- ===== src/Adapter/Ends.antt =====
-- src/adapter/sorer_dataframe_adapter.cpp, `parse_file`: the loop over the rows, and where it ends.
use cs4500project.Column
use cs4500project.Column.View as ColumnView
use cs4500project.DataFrame
use cs4500project.Row
use cs4500project.Prelude.{
  length, ◌≤◌, [], ap₂, arith, map, none, ok, refl, some, subst, suc, sym, true, zero, ℕ, ◌+◌, ◌<◌,
  ◌∙◌, ◌∷◌, ◌≡◌,
}
use cs4500project.Adapter.{
  Numbers, SorParser, format_from, initialize_schema, parse_and_fill_row, parse_file, parse_rows,
  parse_value,
}
use cs4500project.Adapter.Rows.{
  empty_columns, parse_columns-row_values, row_values, type_of-parse_value, view-empty_column,
}
use cs4500project.Adapter.Start.{
  length-empty_columns, of_schema-the_frame, the_frame, the_frame-IsValid, types-empty_columns,
}
use cs4500project.Adapter.Stops.{Fits, parse_columns-stops}
use cs4500project.Adapter.Tables.{Extends-Tabulates, Extends-types, Tabulates, length-row_values}
use cs4500project.Column.{Column, Value, size}
use cs4500project.DataFrame.{DataFrame}
use cs4500project.DataFrame.Map.{add_row-Extends}
use cs4500project.DataFrame.Rounds.{of_schema-Suits}
use cs4500project.DataFrame.Shape.{IsValid}
use cs4500project.Row.{Row}

-- After `r` rows: the frame shows them, and the row can be filled again.
record State (parser : SorParser) (vals : ℕ → ℕ → Value) (r : ℕ) (df : DataFrame) (row : Row)
    : Type 0 where
  valid : IsValid df
  types : map Column.get_type df.columns ≡ format_from parser parser.ncols 0
  table : Tabulates vals r 0 df.columns
  fits : Fits parser row

module _ (numbers : Numbers) (parser : SorParser) (vals : ℕ → ℕ → Value) where
  types-row_values :
      (r left c : ℕ)
      → ((j : ℕ) → j < c + left → parse_value numbers parser j r ≡ some (vals r j))
      → map ColumnView.type_of (row_values (vals r) left c) ≡ format_from parser left c
  unfolding format_from
  types-row_values r zero c law = refl
  types-row_values r (suc left) c law =
      ap₂ ◌∷◌ (type_of-parse_value numbers parser c r (vals r c) (law c (omega arith)))
        (types-row_values r left (c + 1) (λ j lt. law j (omega arith)))

  step-State :
      (r : ℕ) (df : DataFrame) (row : Row)
      → ((j : ℕ) → j < parser.ncols → parse_value numbers parser j r ≡ some (vals r j))
      → State parser vals r df row
      → (df' : DataFrame) × (row' : Row) × (parse_and_fill_row numbers parser r row
          ≡ ok (true, row'))
        × (DataFrame.add_row df row' ≡ ok df')
        × State parser vals (suc r) df' row'
  unfolding parse_and_fill_row Row.set_index
  step-State r df row law s =
      let n = parser.ncols in
      let vs = row_values (vals r) n 0 in
      let row' : Row = record row { values = vs; index = r } in
      let law' : (j : ℕ) → j < 0 + n → parse_value numbers parser j r ≡ some (vals r j) =
        λ j lt. law j (omega arith) in
      let filled =
        parse_columns-row_values numbers parser r (vals r) n 0 (Row.set_index row r) [] []
          row.values law' s.fits.types refl refl s.fits.filled (omega (arith, s.fits.wide)) refl in
      let types : map ColumnView.type_of vs ≡ map Column.get_type df.columns =
        types-row_values r n 0 law' ∙ sym s.types in
      let (df', added, schema, ext) = add_row-Extends df row' s.valid types in
      let (types', sound, size) = Extends-types df.columns df'.columns vs ext in
      (
        df',
        row',
        filled,
        added,
        record {
          valid = record {
            typed = rw (schema, types') s.valid.typed;
            counted = rw (schema, size) s.valid.counted;
            sound = sound;
          };
          types = types' ∙ s.types;
          table = Extends-Tabulates vals r n 0 df.columns df'.columns ext s.table;
          fits = record {
            wide = s.fits.wide;
            types = s.fits.types;
            filled = length-row_values (vals r) n 0;
          };
        },
      )

  parse_rows-State :
      (left fuel r n k : ℕ) (df : DataFrame) (row : Row)
      → r + left ≡ n
      → left < fuel
      → ((i j : ℕ) → i < n → j < parser.ncols → parse_value numbers parser j i ≡ some (vals i j))
      → k < parser.ncols
      → parse_value numbers parser k n ≡ none
      → State parser vals r df row
      → (df' : DataFrame) × (parse_rows numbers parser fuel r row df ≡ ok (some df'))
        × IsValid df'
        × Tabulates vals n 0 df'.columns
        × (map Column.get_type df'.columns ≡ format_from parser parser.ncols 0)
  unfolding parse_rows Row.set_index
  parse_rows-State left zero r n k df row e lt law kt stop s = absurd (omega arith)
  parse_rows-State zero (suc fuel) r n k df row e lt law kt stop s =
      let same : n ≡ r = omega arith in
      let stop' : parse_value numbers parser k r ≡ none =
        subst (λ i. parse_value numbers parser k i ≡ none) same stop in
      let (row', ended) =
        parse_columns-stops numbers parser r parser.ncols 0 k (Row.set_index row r)
          (record { wide = s.fits.wide; types = s.fits.types; filled = s.fits.filled })
          (omega arith) (omega arith) (omega arith) stop' in
      (
        df,
        rw (parse_rows, parse_and_fill_row, ended),
        s.valid,
        subst (λ i. Tabulates vals i 0 df.columns) (sym same) s.table,
        s.types,
      )
  parse_rows-State (suc left) (suc fuel) r n k df row e lt law kt stop s =
      let (df₁, row₁, filled, added, s₁) =
        step-State r df row (λ j jt. law r j (omega arith) jt) s in
      let one_more : suc r ≡ r + 1 = omega arith in
      let s₂ = subst (λ i. State parser vals i df₁ row₁) one_more s₁ in
      let (df', run, valid, table, types) =
        parse_rows-State left fuel (r + 1) n k df₁ row₁ (omega arith) (omega arith) law kt stop
          s₂ in
      (df', rw (parse_rows, filled, added) run, valid, table, types)

  Tabulates-empty_columns : (left c : ℕ) → Tabulates vals 0 c (empty_columns parser left c)
  Tabulates-empty_columns zero c = tt
  Tabulates-empty_columns (suc left) c =
      (view-empty_column (parser.get_col_type c), Tabulates-empty_columns left (c + 1))

  -- Where a file has at most 15 columns, every value of the rows before one is read, and some value
  -- of that row is not, be it that the file ends there or that the text is no number, a fuel larger
  -- than the row's number is enough, and the frame is well formed, has the file's columns and shows
  -- exactly the rows before. The string of types in a row has room for 15 characters, as in GNU's
  -- library.
  pub parse_file-Tabulates :
      (n k fuel : ℕ)
      → ((i j : ℕ) → i < n → j < parser.ncols → parse_value numbers parser j i ≡ some (vals i j))
      → k < parser.ncols
      → parse_value numbers parser k n ≡ none
      → n < fuel
      → parser.ncols ≤ Row.in_place
      → (df : DataFrame) × (parse_file numbers parser fuel ≡ ok (some df))
        × IsValid df
        × Tabulates vals n 0 df.columns
        × (map Column.get_type df.columns ≡ format_from parser parser.ncols 0)
  unfolding parse_file
  parse_file-Tabulates n k fuel law kt stop lt few =
      let valid = the_frame-IsValid parser in
      let room : length (the_frame parser).columns ≤ Row.in_place =
        omega (arith, length-empty_columns parser parser.ncols 0) in
      let (row, made, suits) = of_schema-Suits (the_frame parser) valid room in
      let types = types-empty_columns parser parser.ncols 0 in
      let size = length-empty_columns parser parser.ncols 0 in
      let start : State parser vals 0 (the_frame parser) row = record {
        valid = valid;
        types = types;
        table = Tabulates-empty_columns parser.ncols 0;
        fits = record {
          wide = suits.wide ∙ size;
          types = suits.typed ∙ types;
          filled = suits.filled ∙ size;
        };
      } in
      let (df, run, valid', table, types') =
        parse_rows-State n fuel 0 n k (the_frame parser) row (omega arith) lt law kt stop start in
      let begun : DataFrame.of_schema (initialize_schema parser) ≡ ok (the_frame parser) =
        of_schema-the_frame parser in
      (df, rw (parse_file, begun, made) run, valid', table, types')
