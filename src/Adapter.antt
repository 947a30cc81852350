-- ===== src/Adapter.antt =====
-- src/adapter/sorer_dataframe_adapter.cpp: a data frame out of a file in SOR format. The parser is
-- another library's: what it says of the columns and of each value are arguments, as are
-- `std::stoi` and `std::stod`, and `none` stands for an exception.
pub mod Rows
pub mod Stops
pub mod Start
pub mod Tables
pub mod Ends
use cs4500project.DataFrame
use mathlib.Core.Option
use cs4500project.Row
use cs4500project.Schema
use cs4500project.Prelude.{
  Bool, List, Option, Run, [], false, none, not, ok, some, suc, true, zero, ℕ, ◌+◌, ◌==◌, ◌>>=◌,
  ◌>>◌, ◌∷◌,
}
use cs4500project.Column.{Value, bool_value, float_value, int_value, string_value}
use cs4500project.DataFrame.{DataFrame, ncols}
use cs4500project.Row.{Row}
use cs4500project.Schema.{Schema}

pub data SorType : Type 0 where
  bool_type int_type float_type string_type : SorType

-- A parser that a file has been read into.
pub record SorParser : Type 0 where
  pub ncols : ℕ
  pub get_col_type : ℕ → SorType
  pub get_col_idx : ℕ → ℕ → Option (Option (List ℕ))

-- The number that the text of an `int` starts with, and the bits of the one that it starts with as
-- a `double`.
pub record Numbers : Type 0 where
  pub stoi : List ℕ → Option ℕ
  pub stod : List ℕ → Option ℕ

unfoldable pub format_code : SorType → ℕ
format_code bool_type = b'B'
format_code int_type = b'I'
format_code float_type = b'F'
format_code string_type = b'S'

-- The loop of `initialize_schema`, over the columns still to be read.
unfoldable pub format_from : SorParser → ℕ → ℕ → List ℕ
unfolding format_code
format_from parser zero i = []
format_from parser (suc left) i =
    format_code (parser.get_col_type i) ∷ format_from parser left (i + 1)

unfoldable pub initialize_schema : SorParser → Schema
unfolding format_from
initialize_schema parser = Schema.of_types (format_from parser parser.ncols 0)

-- `parse_int`, `parse_bool`, `parse_float` and `parse_string`.
unfoldable pub parse_as : Numbers → SorType → Option (List ℕ) → Option Value
parse_as numbers int_type none = some (int_value none)
parse_as numbers int_type (some text) = Option.map (λ n. int_value (some n)) (numbers.stoi text)
parse_as numbers bool_type none = some (bool_value none)
parse_as numbers bool_type (some text) =
    Option.map (λ n. bool_value (some (not (n == 0)))) (numbers.stoi text)
parse_as numbers float_type none = some (float_value none)
parse_as numbers float_type (some text) = Option.map (λ x. float_value (some x)) (numbers.stod text)
parse_as numbers string_type val = some (string_value val)

unfoldable pub parse_value : Numbers → SorParser → ℕ → ℕ → Option Value
unfolding parse_as
parse_value numbers parser col row = elim (parser.get_col_idx col row) [
  | none ↦ none
  | some val ↦ parse_as numbers (parser.get_col_type col) val
]

-- The loop of `parse_and_fill_row`, over the columns still to be read; an exception ends it.
unfoldable pub parse_columns : Numbers → SorParser → ℕ → ℕ → ℕ → Row → Run (Bool × Row)
unfolding parse_value
parse_columns numbers parser row zero c row_obj = ok (true, row_obj)
parse_columns numbers parser row (suc left) c row_obj = elim (parse_value numbers parser c row) [
  | none ↦ ok (false, row_obj)
  | some v ↦ Row.set row_obj c v >>= parse_columns numbers parser row left (c + 1)
]

unfoldable pub parse_and_fill_row : Numbers → SorParser → ℕ → Row → Run (Bool × Row)
unfolding parse_columns
parse_and_fill_row numbers parser row row_obj =
    parse_columns numbers parser row parser.ncols 0 (Row.set_index row_obj row)

-- The loop of `parse_file`; `none` stands for a loop that goes on.
unfoldable pub parse_rows : Numbers → SorParser → ℕ → ℕ → Row → DataFrame → Run (Option DataFrame)
unfolding parse_and_fill_row
parse_rows numbers parser zero r row df = ok none
parse_rows numbers parser (suc fuel) r row df = do
  (filled, row') ← parse_and_fill_row numbers parser r row
  elim filled [
    | false ↦ ok (some df)
    | true ↦ DataFrame.add_row df row' >>= parse_rows numbers parser fuel (r + 1) row'
  ]

-- `parse_file`, where the parser could read the file.
unfoldable pub parse_file : Numbers → SorParser → ℕ → Run (Option DataFrame)
unfolding initialize_schema parse_rows
parse_file numbers parser fuel = do
  df ← DataFrame.of_schema (initialize_schema parser)
  row ← Row.of_schema df.schema
  parse_rows numbers parser fuel 0 row df
