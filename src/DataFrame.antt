-- ===== src/DataFrame.antt =====
-- include/data/dataframe.h and src/data/dataframe.cpp: a table of columns with a schema.
pub mod Shape
pub mod Codec
pub mod Hash
pub mod Map
pub mod Fill
pub mod Rounds
pub mod Sweep
pub mod Pmap
pub mod Filter
use cs4500project.Prelude.{set as set_elem}
use cs4500project.Column
use cs4500project.NullableArray
use cs4500project.Row
use cs4500project.Schema
use cs4500project.Prelude.{
  Bool, List, Option, Run, [], assert, assertion_failed, false, fault, get_elem?, if◌then◌else◌,
  leb, length, ltb, none, ok, require, some, suc, true, zero, ℕ, ◌&&◌, ◌++◌, ◌+◌, ◌-◌, ◌/◌, ◌==◌,
  ◌>>=◌, ◌>>◌, ◌∷◌,
}
use cs4500project.Column.{
  Column, Value, as_bool, as_float, as_int, as_string, bool_column, bool_value, float_column,
  float_value, int_column, int_value, string_column, string_value,
}
use cs4500project.NullableArray.{NullableArray}
use cs4500project.Row.{Row}
use cs4500project.Schema.{Schema}
use cs4500project.Serializable.{Reader, deserialize_word, serialize_word}

pub record DataFrame : Type 0 where
  pub schema : Schema
  pub columns : List Column

unfoldable pub empty : DataFrame
empty = record { schema = Schema.empty; columns = [] }

-- `none` is the null pointer that `_get_col_from_type` returns for an unknown type.
unfoldable pub get_col_from_type : ℕ → Option Column
get_col_from_type typ =
    if typ == b'I'
    then some (int_column NullableArray.empty)
    else if typ == b'F'
    then some (float_column NullableArray.empty)
    else if typ == b'B'
    then some (bool_column NullableArray.empty)
    else if typ == b'S'
    then some (string_column NullableArray.empty)
    else none

-- The loop of the constructor from a schema, over the `width - i` columns still to be made.
unfoldable pub make_columns : Schema → ℕ → ℕ → Run (List Column)
unfolding get_col_from_type
make_columns s zero i = ok []
make_columns s (suc left) i = elim (Schema.col_type s i) [
  | fault e ↦ fault e
  | ok t ↦ elim (get_col_from_type t) [
    | none ↦ fault assertion_failed
    | some c ↦ make_columns s left (i + 1) >>= λ cs. ok (c ∷ cs)
  ]
]

unfoldable pub of_schema : Schema → Run DataFrame
unfolding make_columns
of_schema s = do columns ← make_columns s s.width 0; ok (record { schema = s; columns = columns })

-- The copy constructor: the same types, no names and no rows.
unfoldable pub copy : DataFrame → Run DataFrame
unfolding of_schema
copy df = of_schema (Schema.copy df.schema)

unfoldable pub add_column : DataFrame → Column → Option (List ℕ) → DataFrame
add_column df col name = record {
  schema = Schema.add_column df.schema (Column.get_type col) name;
  columns = df.columns ++ col ∷ [];
}

-- `exit_if_not` stops the program on a column that is not there or of another type.
abbrev pub or_exit : {A : Type 0} → Option A → Run A
or_exit none = fault assertion_failed
or_exit (some a) = ok a

unfoldable pub get_int : DataFrame → ℕ → ℕ → Run (Option ℕ)
get_int df col row = do
  c ← or_exit (get_elem? df.columns col)
  column ← or_exit (as_int c)
  NullableArray.get column row

unfoldable pub get_bool : DataFrame → ℕ → ℕ → Run (Option Bool)
get_bool df col row = do
  c ← or_exit (get_elem? df.columns col)
  column ← or_exit (as_bool c)
  NullableArray.get column row

unfoldable pub get_double : DataFrame → ℕ → ℕ → Run (Option ℕ)
get_double df col row = do
  c ← or_exit (get_elem? df.columns col)
  column ← or_exit (as_float c)
  NullableArray.get column row

unfoldable pub get_string : DataFrame → ℕ → ℕ → Run (Option (List ℕ))
get_string df col row = do
  c ← or_exit (get_elem? df.columns col)
  column ← or_exit (as_string c)
  NullableArray.get column row

-- The four setters: no test but that of the column's own `set`.
unfoldable pub set : DataFrame → ℕ → ℕ → Value → Run DataFrame
set df col row val = do
  c ← require (get_elem? df.columns col)
  c' ← Column.set c row val
  ok (record df { columns = set_elem df.columns col c' })

-- The switch of `fill_row` on the type of column `c`.
unfoldable pub get_by_type : DataFrame → ℕ → ℕ → ℕ → Run Value
unfolding get_int get_double get_bool get_string
get_by_type df typ c idx =
    if typ == b'I'
    then (get_int df c idx >>= λ v. ok (int_value v))
    else if typ == b'F'
    then (get_double df c idx >>= λ v. ok (float_value v))
    else if typ == b'B'
    then (get_bool df c idx >>= λ v. ok (bool_value v))
    else if typ == b'S'
    then (get_string df c idx >>= λ v. ok (string_value v))
    else fault assertion_failed

-- The loop of `fill_row`, over the columns still to be read.
unfoldable pub fill_from : DataFrame → ℕ → ℕ → ℕ → Row → Run Row
unfolding get_by_type
fill_from df idx zero c row = ok row
fill_from df idx (suc left) c row =
    elim (Schema.col_type df.schema c >>= λ t. get_by_type df t c idx >>= λ v. Row.set row c v) [
      | fault e ↦ fault e
      | ok row' ↦ fill_from df idx left (c + 1) row'
    ]

unfoldable pub fill_row : DataFrame → ℕ → Row → Run Row
unfolding fill_from
fill_row df idx row = fill_from df idx (length df.columns) 0 (Row.set_index row idx)

-- The loop of `add_row`, over the columns from index `c` on: each gets the row's value at its
-- index, read by the column's own type.
unfoldable pub push_values : Row → ℕ → List Column → Run (List Column)
push_values row c [] = ok []
push_values row c (col ∷ cols) = do
  v ← Row.get_by_type row (Column.get_type col) c
  val ← or_exit v
  col' ← Column.push_back col val
  cols' ← push_values row (c + 1) cols
  ok (col' ∷ cols')

unfoldable pub add_row : DataFrame → Row → Run DataFrame
unfolding push_values
add_row df row = do columns ← push_values row 0 df.columns; ok (record df { columns = columns })

unfoldable pub ncols : DataFrame → ℕ
ncols df = length df.columns

unfoldable pub nrows : DataFrame → ℕ
nrows df = elim df.columns [ [] ↦ df.schema.rows | c ∷ cs ↦ Column.size c ]

-- A rower: its own state, which `accept` changes, and what `join` and `clone` do with states.
-- `none` is the null pointer that a `clone` may return.
pub record Rower (S : Type 0) : Type 0 where
  pub accept : Row → S → Run (Bool × S)
  pub join : S → S → S
  pub clone : S → Option S

module _ {S : Type 0} (r : Rower S) where
  -- One round of `map`, which fills one row again and again and drops the rower's answer.
  unfoldable pub map_step : DataFrame → ℕ → Row → S → Run (Row × S)
  map_step df i row s = do row' ← fill_row df i row; (keep, s') ← r.accept row' s; ok (row', s')

  unfoldable pub map_from : DataFrame → ℕ → ℕ → Row → S → Run S
  unfolding map_step
  map_from df zero i row s = ok s
  map_from df (suc left) i row s = elim (map_step df i row s) [
    | fault e ↦ fault e
    | ok (row', s') ↦ map_from df left (i + 1) row' s'
  ]

  unfoldable pub map_rows : DataFrame → S → Run S
  unfolding map_from
  map_rows df s = do row ← Row.of_schema df.schema; map_from df (nrows df) 0 row s

  -- One round of `_pmap_helper`, with a row of its own.
  unfoldable pub pmap_step : DataFrame → ℕ → S → Run S
  pmap_step df i s = do
    row ← Row.of_schema df.schema
    row' ← fill_row df i row
    (keep, s') ← r.accept row' s
    ok s'

  unfoldable pub pmap_helper : DataFrame → ℕ → ℕ → S → Run S
  unfolding pmap_step
  pmap_helper df zero i s = ok s
  pmap_helper df (suc left) i s = elim (pmap_step df i s) [
    | fault e ↦ fault e
    | ok s' ↦ pmap_helper df left (i + 1) s'
  ]

  -- The loop of `filter`, which runs to the length that the schema records.
  unfoldable pub filter_step : DataFrame → ℕ → S → DataFrame → Run (DataFrame × S)
  filter_step df i s out = do
    row ← Row.of_schema df.schema
    row' ← fill_row df i row
    (keep, s') ← r.accept row' s
    out' ← (if keep then add_row out row' else ok out)
    ok (out', s')

  unfoldable pub filter_from : DataFrame → ℕ → ℕ → S → DataFrame → Run (DataFrame × S)
  unfolding filter_step
  filter_from df zero i s out = ok (out, s)
  filter_from df (suc left) i s out = elim (filter_step df i s out) [
    | fault e ↦ fault e
    | ok (out', s') ↦ filter_from df left (i + 1) s' out'
  ]

  unfoldable pub filter_rows : DataFrame → S → Run (DataFrame × S)
  unfolding filter_from
  filter_rows df s = do out ← copy df; filter_from df df.schema.rows 0 s out

-- The threads of `pmap`: how many, and how many rows each but the last takes.
abbrev pub thread_rows : ℕ
thread_rows = 5000

abbrev pub max_threads : ℕ
max_threads = 8

unfoldable pub thread_count : ℕ → ℕ
thread_count rows = let n = rows / thread_rows in if ltb max_threads n then max_threads else n

unfoldable pub step_size : ℕ → ℕ
step_size rows = if ltb max_threads (rows / thread_rows) then rows / max_threads else thread_rows

module _ {S : Type 0} (r : Rower S) where
  -- The threads from one with `left` behind it, from row `start` on: their final states, in order.
  -- The states are separate, so the order in which the threads run does not show.
  unfoldable pub run_threads : DataFrame → ℕ → ℕ → ℕ → S → S → Run (List S)
  run_threads df step zero start own cloned =
      pmap_helper r df (nrows df - start) start own >>= λ s. ok (s ∷ [])
  run_threads df step (suc left) start own cloned = do
    s ← pmap_helper r df step start own
    rest ← run_threads df step left (start + step) cloned cloned
    ok (s ∷ rest)

  -- The loop that joins the clones' states to the first one.
  unfoldable pub join_all : List S → S → S
  join_all [] s = s
  join_all (c ∷ cs) s = join_all cs (r.join s c)

  -- The first thread worked on the rower itself; the others' states are joined to its own.
  unfoldable pub join_threads : S → List S → S
  unfolding join_all
  join_threads s [] = s
  join_threads s (own ∷ clones) = join_all clones own

  -- The loop that makes the clones, of which so many are left: the state that each has, which is
  -- the same for all, or `none` where `pmap` falls back to `map`.
  unfoldable pub make_clones : ℕ → ℕ → S → Option S → Run (Option S)
  make_clones zero i s cloned = ok cloned
  make_clones (suc left) i s cloned = elim (r.clone s) [
    | none ↦ if i == 1 then ok none else fault assertion_failed
    | some c ↦ make_clones left (i + 1) s (some c)
  ]

  unfoldable pub pmap : DataFrame → S → Run S
  unfolding make_clones run_threads join_threads map_rows
  pmap df s =
      let rows = nrows df in
      if leb (rows / thread_rows) 1
      then map_rows r df s
      else (make_clones (thread_count rows - 1) 0 s none >>= λ made. elim made [
        | none ↦ map_rows r df s
        | some cloned ↦
            run_threads df (step_size rows) (thread_count rows - 1) 0 s cloned >>= λ states.
            ok (join_threads s states)
      ])

-- `operator==` of the columns compares pointers; `equals` compares the schemas and the columns.
unfoldable pub equal_columns : (ℕ → ℕ → Bool) → List Column → List Column → Bool
equal_columns same_float [] [] = true
equal_columns same_float (c ∷ cs) (d ∷ ds) =
    Column.equals same_float c d && equal_columns same_float cs ds
equal_columns same_float _ _ = false

unfoldable pub equals : (ℕ → ℕ → Bool) → DataFrame → DataFrame → Run Bool
unfolding equal_columns
equals same_float df o =
    if length df.columns == length o.columns
    then (do
      same ← Schema.equals df.schema o.schema
      ok (same && equal_columns same_float df.columns o.columns))
    else ok false

unfoldable pub serialize_columns : List Column → List ℕ
serialize_columns [] = []
serialize_columns (c ∷ cs) = Column.serialize c ++ serialize_columns cs

unfoldable pub serialize : DataFrame → Run (List ℕ)
unfolding serialize_columns
serialize df = do
  schema ← Schema.serialize df.schema
  ok (schema ++ serialize_word 8 (length df.columns) ++ serialize_columns df.columns)

-- The loop of `deserialize`, over the columns still to be read.
unfoldable pub deserialize_columns : Schema → ℕ → ℕ → DataFrame → Reader DataFrame
deserialize_columns s zero i df bytes pos = ok (df, pos)
deserialize_columns s (suc left) i df bytes pos =
    elim (Schema.col_type s i >>= λ t. Column.deserialize t bytes pos) [
      | fault e ↦ fault e
      | ok (col, pos') ↦ deserialize_columns s left (i + 1) (add_column df col none) bytes pos'
    ]

unfoldable pub deserialize : Reader DataFrame
unfolding deserialize_columns
deserialize bytes pos = do
  (schema, pos₁) ← Schema.deserialize bytes pos
  (col_cnt, pos₂) ← deserialize_word 8 bytes pos₁
  assert (col_cnt == schema.width)
  deserialize_columns schema col_cnt 0 empty bytes pos₂
