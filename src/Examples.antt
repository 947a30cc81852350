-- ===== src/Examples.antt =====
-- Small frames, packets and stores on which the theorems are applied.
pub mod Codecs
pub mod Arrays
pub mod Frames
pub mod Network
pub mod Stores
pub mod Members
pub mod Words
pub mod Calls
pub mod Files
pub mod Commits
pub mod Long
pub mod Sums
pub mod Users
pub mod Rows
pub mod Requests
pub mod Ports
use cs4500project.NullableArray.View as ArrayView
use cs4500project.Column
use cs4500project.Column.Codec as ColumnCodec
use cs4500project.Column.View as ColumnView
use cs4500project.Prelude.{List, [], arith, false, refl, true, ℕ, ◌∷◌}
use cs4500project.Column.{Column, int_column, string_column}
use cs4500project.DataFrame.{DataFrame}
use cs4500project.DataFrame.Codec.{FitsBytes}
use cs4500project.DataFrame.Shape.{IsValid}
use cs4500project.NullableArray.{NullableArray}
use cs4500project.NullableArray.Codec.{Holds}
use cs4500project.NullableArray.View.{Clean}

-- 7 and a missing value.
abbrev pub ints : NullableArray ℕ
ints = record { bitmap = true ∷ false ∷ []; items = 7 ∷ 0 ∷ [] }

-- "hi" and an empty string.
abbrev pub words : NullableArray (List ℕ)
words = record { bitmap = true ∷ true ∷ []; items = (b'h' ∷ b'i' ∷ []) ∷ [] ∷ [] }

abbrev pub ints-Clean : ArrayView.IsValid 0 ints
unfolding Clean
ints-Clean = (refl, tt)

abbrev pub int_col : Column
int_col = int_column ints

abbrev pub string_col : Column
string_col = string_column words

pub int_col-IsValid : ColumnView.IsValid int_col
unfolding ColumnView.IsValid Clean
int_col-IsValid = (refl, tt)

pub string_col-IsValid : ColumnView.IsValid string_col
unfolding ColumnView.IsValid Clean
string_col-IsValid = tt

-- A frame of the two columns, without names.
abbrev pub two_columns : DataFrame
two_columns = record {
  schema = record {
    column_names = [];
    row_names = [];
    column_types = b'I' ∷ b'S' ∷ [];
    width = 2;
    rows = 0;
  };
  columns = int_col ∷ string_col ∷ [];
}

pub two_columns-IsValid : IsValid two_columns
unfolding Column.get_type
two_columns-IsValid = record {
  typed = refl;
  counted = refl;
  sound = (int_col-IsValid, (string_col-IsValid, tt));
}

pub string_col-Fits : ColumnCodec.Fits string_col
unfolding ColumnCodec.Fits Holds
string_col-Fits =
    (((((omega arith, (omega arith, tt)), omega arith), (((tt, omega arith)), tt))), omega arith)

pub int_col-Fits : ColumnCodec.Fits int_col
unfolding ColumnCodec.Fits Holds
int_col-Fits = ((omega arith, tt), omega arith)

pub two_columns-FitsBytes : FitsBytes two_columns
two_columns-FitsBytes = record { fits = (int_col-Fits, (string_col-Fits, tt)); small = omega arith }
