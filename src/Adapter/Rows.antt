-- ===== src/Adapter/Rows.antt =====
-- src/adapter/sorer_dataframe_adapter.cpp: the schema, and one row that is read.
use cs4500project.Prelude.{set as set_elem}
use cs4500project.NullableArray.View as ArrayView
use cs4500project.Column
use cs4500project.Column.View as ColumnView
use cs4500project.NullableArray
use mathlib.Core.Option
use cs4500project.Row.Access as RowAccess
use cs4500project.Prelude.{
  List, Option, Option-cases, [], ap, append_assoc, arith, false, get_elem?, get_elem?_append, inl,
  inr, length, length-append, none, not, ok, refl, some, subst, suc, sym, true, zero, ℕ, ◌++◌, ◌+◌,
  ◌<◌, ◌==◌, ◌∙◌, ◌∷◌, ◌≡◌,
}
use cs4500project.Adapter.{
  Numbers, SorParser, SorType, bool_type, float_type, format_code, format_from, int_type, parse_as,
  parse_columns, parse_value, string_type,
}
use cs4500project.Column.{
  Column, Value, bool_column, bool_value, float_column, float_value, int_column, int_value, size,
  string_column, string_value,
}
use cs4500project.DataFrame.{get_col_from_type}
use cs4500project.DataFrame.Fill.{set-append}
use cs4500project.NullableArray.{NullableArray}
use cs4500project.Row.{Row}

-- The columns that the frame starts with, from column `c` on.
pub empty_column : SorType → Column
empty_column bool_type = bool_column NullableArray.empty
empty_column int_type = int_column NullableArray.empty
empty_column float_type = float_column NullableArray.empty
empty_column string_type = string_column NullableArray.empty

abbrev pub empty_columns : SorParser → ℕ → ℕ → List Column
empty_columns parser zero c = []
empty_columns parser (suc left) c =
    empty_column (parser.get_col_type c) ∷ empty_columns parser left (c + 1)

pub get_type-empty_column : (t : SorType) → Column.get_type (empty_column t) ≡ format_code t
unfolding Column.get_type empty_column format_code
get_type-empty_column bool_type = refl
get_type-empty_column int_type = refl
get_type-empty_column float_type = refl
get_type-empty_column string_type = refl

pub get_col_from_type-empty_column :
    (t : SorType) → get_col_from_type (format_code t) ≡ some (empty_column t)
unfolding get_col_from_type empty_column format_code
get_col_from_type-empty_column bool_type = refl
get_col_from_type-empty_column int_type = refl
get_col_from_type-empty_column float_type = refl
get_col_from_type-empty_column string_type = refl

pub view-empty_column : (t : SorType) → ColumnView.view (empty_column t) ≡ []
unfolding empty_column ColumnView.view ArrayView.view NullableArray.empty
view-empty_column bool_type = refl
view-empty_column int_type = refl
view-empty_column float_type = refl
view-empty_column string_type = refl

pub empty_column-IsValid : (t : SorType) → ColumnView.IsValid (empty_column t)
unfolding empty_column ColumnView.IsValid
empty_column-IsValid bool_type = ArrayView.empty-IsValid false
empty_column-IsValid int_type = ArrayView.empty-IsValid 0
empty_column-IsValid float_type = ArrayView.empty-IsValid 0
empty_column-IsValid string_type = ArrayView.empty-IsValid []

some_typed :
    (x v : Value) (t : ℕ) → ColumnView.type_of x ≡ t → some x ≡ some v → ColumnView.type_of v ≡ t
some_typed x v t p e = let same : x ≡ v = cc in subst (λ y. ColumnView.type_of y ≡ t) same p

map_typed :
    {A : Type 0} (f : A → Value) (t : ℕ) (o : Option A) (v : Value)
    → ((a : A) → ColumnView.type_of (f a) ≡ t)
    → Option.map f o ≡ some v
    → ColumnView.type_of v ≡ t
map_typed f t none v p e = absurd (ground arith)
map_typed f t (some a) v p e = some_typed (f a) v t (p a) e

type_of-parse_as :
    (numbers : Numbers) (t : SorType) (val : Option (List ℕ)) (v : Value)
    → parse_as numbers t val ≡ some v
    → ColumnView.type_of v ≡ format_code t
unfolding parse_as ColumnView.type_of format_code
type_of-parse_as numbers int_type none v e = some_typed (int_value none) v _ refl e
type_of-parse_as numbers int_type (some text) v e =
    map_typed (λ n. int_value (some n)) _ (numbers.stoi text) v (λ n. refl) e
type_of-parse_as numbers bool_type none v e = some_typed (bool_value none) v _ refl e
type_of-parse_as numbers bool_type (some text) v e =
    map_typed (λ n. bool_value (some (not (n == 0)))) _ (numbers.stoi text) v (λ n. refl) e
type_of-parse_as numbers float_type none v e = some_typed (float_value none) v _ refl e
type_of-parse_as numbers float_type (some text) v e =
    map_typed (λ x. float_value (some x)) _ (numbers.stod text) v (λ x. refl) e
type_of-parse_as numbers string_type val v e = some_typed (string_value val) v _ refl e

-- A value that is parsed has its column's type.
pub type_of-parse_value :
    (numbers : Numbers) (parser : SorParser) (c row : ℕ) (v : Value)
    → parse_value numbers parser c row ≡ some v
    → ColumnView.type_of v ≡ format_code (parser.get_col_type c)
unfolding parse_value
type_of-parse_value numbers parser c row v e = elim (Option-cases (parser.get_col_idx c row)) [
  | inl n ↦ let no : none ≡ some v = rw (parse_value, n) at e in absurd (ground arith)
  | inr (val, found) ↦
      type_of-parse_as numbers (parser.get_col_type c) val v (rw (parse_value, found) at e)
]

-- What a row of the file holds, from column `c` on.
abbrev pub row_values : (ℕ → Value) → ℕ → ℕ → List Value
row_values vals zero c = []
row_values vals (suc left) c = vals c ∷ row_values vals left (c + 1)

pub length-format_from :
    (parser : SorParser) (left c : ℕ) → length (format_from parser left c) ≡ left
unfolding format_from
length-format_from parser zero c = refl
length-format_from parser (suc left) c = ap suc (length-format_from parser left (c + 1))

module _ (numbers : Numbers) (parser : SorParser) (row : ℕ) where
  pub parse_columns-row_values :
      (vals : ℕ → Value) (left c : ℕ) (r : Row) (pre : List ℕ) (done old : List Value)
      → ((j : ℕ) → j < c + left → parse_value numbers parser j row ≡ some (vals j))
      → r.types ≡ pre ++ format_from parser left c
      → length pre ≡ c
      → length done ≡ c
      → length old ≡ left
      → r.width ≡ c + left
      → r.values ≡ done ++ old
      → parse_columns numbers parser row left c r
        ≡ ok (true, record r { values = done ++ row_values vals left c })
  unfolding parse_columns format_from
  parse_columns-row_values vals zero c r pre done [] law types p d o width e =
      ap (λ vs. ok (true, record r { values = vs })) e
  parse_columns-row_values vals zero c r pre done (x ∷ old) law types p d o width e =
      absurd (omega arith)
  parse_columns-row_values vals (suc left) c r pre done [] law types p d o width e =
      absurd (omega arith)
  parse_columns-row_values vals (suc left) c r pre done (x ∷ old) law types p d o width e =
      let parsed = law c (omega arith) in
      let typ = type_of-parse_value numbers parser c row (vals c) parsed in
      let code = format_code (parser.get_col_type c) in
      let size : length r.types ≡ c + suc left =
        ap length types
        ∙ length-append pre _
        ∙ omega (arith, length-format_from parser left (c + 1)) in
      let whole : length r.values ≡ c + suc left =
        ap length e ∙ length-append done (x ∷ old) ∙ omega arith in
      let valid : RowAccess.IsValid r = record {
        typed = size ∙ sym width;
        filled = whole ∙ sym width;
      } in
      let here : get_elem? r.types (length pre) ≡ some code =
        rw (types) (get_elem?_append pre code (format_from parser left (c + 1))) in
      let at : get_elem? r.types c ≡ some (ColumnView.type_of (vals c)) =
        subst (λ k. get_elem? r.types k ≡ some (ColumnView.type_of (vals c))) p
          (here ∙ ap some (sym typ)) in
      let stored = RowAccess.set-stores r c (vals c) valid (omega arith) at in
      let r' : Row = record r { values = set_elem r.values c (vals c) } in
      let same : set_elem (done ++ x ∷ old) (length done) (vals c) ≡ (done ++ vals c ∷ []) ++ old =
        set-append done x (vals c) old in
      let written : r'.values ≡ (done ++ vals c ∷ []) ++ old =
        ap (λ vs. set_elem vs c (vals c)) e
        ∙ ap (λ k. set_elem (done ++ x ∷ old) k (vals c)) (sym d)
        ∙ same in
      let rest =
        parse_columns-row_values vals left (c + 1) r' (pre ++ code ∷ []) (done ++ vals c ∷ []) old
          (λ j lt. law j (omega arith))
          (types ∙ sym (append_assoc pre (code ∷ []) (format_from parser left (c + 1))))
          (length-append pre (code ∷ []) ∙ omega arith)
          (length-append done (vals c ∷ []) ∙ omega arith) (omega arith) (omega arith) written in
      rw (parse_columns, parsed, stored)
        (rest
          ∙ ap (λ vs. ok (true, record r { values = vs }))
              (append_assoc done (vals c ∷ []) (row_values vals left (c + 1))))
