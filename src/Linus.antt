-- ===== src/Linus.antt =====
-- src/util/linus_rowers.cpp and include/util/linus_rowers.h: the rowers that gather integers into a
-- set and that write the values they pick into a frame which all their clones share;
-- src/util/linus.cpp: the frames of `_commits`. What a rower writes is first a log, one for each
-- thread; a step relation then writes the logs into the frame, in any order that keeps each
-- thread's own.
pub mod IntSets
pub mod Logs
pub mod Frames
pub mod Progress
pub mod Filters
pub mod Rounds
pub mod Picked
pub mod Members
pub mod Shared
pub mod Degrees
pub mod Users
pub mod Names
pub mod Stores
pub mod Kept
pub mod Whole
pub mod Started
use cs4500project.Column.View as ColumnView
use cs4500project.DataFrame
use cs4500project.Row
use cs4500project.Schema
use cs4500project.Prelude.{
  All, Bool, List, Option, Run, [], assert, false, if◌then◌else◌, leb, none, ok, require, some, suc,
  true, zero, ℕ, ◌++◌, ◌+◌, ◌-◌, ◌/◌, ◌<◌, ◌==◌, ◌>>=◌, ◌>>◌, ◌||◌, ◌∷◌, ◌≡◌,
}
use cs4500project.Column.{Value, int_value, string_value}
use cs4500project.DataFrame.{DataFrame, Rower}
use cs4500project.Row.{Row}
use cs4500project.Schema.{Schema}

-- The set of integers; a second insertion changes nothing.
abbrev pub IntSet : Type 0
IntSet = List ℕ

unfoldable pub contains : IntSet → ℕ → Bool
contains [] v = false
contains (x ∷ s) v = (x == v) || contains s v

unfoldable pub insert : IntSet → ℕ → IntSet
unfolding contains
insert s v = if contains s v then s else s ++ v ∷ []

-- `*row.get_int(c)`, which is undefined on a missing value.
unfoldable pub the_int_at : Row → ℕ → Run ℕ
the_int_at row c = Row.get_int row c >>= require

unfoldable pub the_string_at : Row → ℕ → Run (List ℕ)
the_string_at row c = Row.get_string row c >>= require

-- The loop of `IntSetGenerator::accept`, over the columns still to be read.
unfoldable pub insert_from : Row → ℕ → ℕ → IntSet → Run IntSet
unfolding insert the_int_at
insert_from row zero c s = ok s
insert_from row (suc left) c s =
    Row.col_type row c
    >>= (λ t. if t == b'I' then (the_int_at row c >>= λ v. ok (insert s v)) else ok s)
    >>= insert_from row left (c + 1)

-- Clones work on the set itself, so there is nothing to join.
unfoldable pub int_set_generator : Rower IntSet
unfolding insert_from
int_set_generator = record {
  accept = λ row s. insert_from row row.width 0 s >>= λ s'. ok (true, s');
  join = λ s _. s;
  clone = λ s. some s;
}

-- What the constructors of the filters do with the frame they get.
unfoldable pub finish_set : DataFrame → Run IntSet
unfolding int_set_generator
finish_set df = DataFrame.map_rows int_set_generator df []

-- What the three `accept`s hand to `_add_to_df` for a row, in order.
unfoldable pub uuids_to_projects : IntSet → Row → Run (List Value)
unfolding the_int_at contains
uuids_to_projects uuids row = do
  author ← the_int_at row 1
  found ←
      (if contains uuids author
        then ok true
        else (the_int_at row 2 >>= λ committer. ok (contains uuids committer)))
  if found then (the_int_at row 0 >>= λ project. ok (int_value (some project) ∷ [])) else ok []

unfoldable pub projects_to_uuids : IntSet → Row → Run (List Value)
unfolding the_int_at contains
projects_to_uuids projects row = do
  project ← the_int_at row 0
  if contains projects project
      then (do
        author ← the_int_at row 1
        committer ← the_int_at row 2
        ok (int_value (some author) ∷ int_value (some committer) ∷ []))
      else ok []

unfoldable pub uuids_to_names : IntSet → Row → Run (List Value)
unfolding the_int_at the_string_at contains
uuids_to_names uuids row = do
  uuid ← the_int_at row 0
  if contains uuids uuid
      then (the_string_at row 1 >>= λ name. ok (string_value (some name) ∷ []))
      else ok []

-- A filter as a rower whose state is the log of what it writes; a clone starts a log of its own.
unfoldable pub filter : (Row → Run (List Value)) → Rower (List Value)
filter picks = record {
  accept = λ row log. picks row >>= λ vs. ok (true, log ++ vs);
  join = λ log other. log ++ other;
  clone = λ _. some [];
}

-- `_add_to_df`, with the row that the filter keeps for it.
unfoldable pub add_to_df : DataFrame → Row → Value → Run (DataFrame × Row)
add_to_df df row v = do
  t ← Row.col_type row 0
  assert (t == ColumnView.type_of v)
  row' ← Row.set row 0 v
  df' ← DataFrame.add_row df row'
  ok (df', row')

-- A thread's filter: its row, and what it has still to write.
pub record Writer : Type 0 where
  pub row : Row
  pub log : List Value

-- The frame under its mutex: any thread that has something to write may be the next.
pub data Writes : List Writer → DataFrame → DataFrame → Type 0 where
  all_written : (ts : List Writer) (df : DataFrame) → All (λ t. t.log ≡ []) ts → Writes ts df df
  one_writes :
      (before after : List Writer) (row row' : Row) (v : Value) (vs : List Value)
      (df df' out : DataFrame)
      → add_to_df df row v ≡ ok (df', row')
      → Writes (before ++ record { row = row'; log = vs } ∷ after) df' out
      → Writes (before ++ record { row = row; log = v ∷ vs } ∷ after) df out

-- The logs of the threads of `pmap`.
unfoldable pub thread_logs : (Row → Run (List Value)) → DataFrame → Run (List (List Value))
unfolding filter
thread_logs picks df =
    let rows = DataFrame.nrows df in
    if leb (rows / DataFrame.thread_rows) 1
    then (DataFrame.map_rows (filter picks) df [] >>= λ log. ok (log ∷ []))
    else DataFrame.run_threads (filter picks) df (DataFrame.step_size rows)
        (DataFrame.thread_count rows - 1) 0 [] []

-- Each clone has a row of its own, made from the frame's schema.
unfoldable pub start_writers : Row → List (List Value) → List Writer
start_writers row [] = []
start_writers row (log ∷ logs) = record { row = row; log = log } ∷ start_writers row logs

-- A frame that a filter, with a frame of one column of the type `typ`, may end with after `pmap`.
pub record Filtered (typ : ℕ) (picks : Row → Run (List Value)) (df out : DataFrame) : Type 0 where
  pub schema : Schema
  pub start : DataFrame
  pub row : Row
  pub logs : List (List Value)
  pub typed : Schema.of_types (typ ∷ []) ≡ schema
  pub made : DataFrame.of_schema schema ≡ ok start
  pub prepared : Row.of_schema schema ≡ ok row
  pub logged : thread_logs picks df ≡ ok logs
  pub written : Writes (start_writers row logs) start out

-- `_commits`: the frame that the store gets as `uuids_degree_` of the degree. The constructor of
-- each filter reads its set out of the frame before; the last degree is 7.
pub data Degree (commits linus_uuid : DataFrame) : ℕ → DataFrame → Type 0 where
  linus_degree :
      (uuids projects : IntSet) (project_frame degree_uuids : DataFrame)
      → finish_set linus_uuid ≡ ok uuids
      → Filtered b'I' (uuids_to_projects uuids) commits project_frame
      → finish_set project_frame ≡ ok projects
      → Filtered b'I' (projects_to_uuids projects) commits degree_uuids
      → Degree commits linus_uuid 1 degree_uuids
  next_degree :
      (degree : ℕ) (uuids projects : IntSet) (before project_frame degree_uuids : DataFrame)
      → degree < 7
      → Degree commits linus_uuid degree before
      → finish_set before ≡ ok uuids
      → Filtered b'I' (uuids_to_projects uuids) commits project_frame
      → finish_set project_frame ≡ ok projects
      → Filtered b'I' (projects_to_uuids projects) commits degree_uuids
      → Degree commits linus_uuid (suc degree) degree_uuids

-- The loop of `_users` that looks for a user by name, over the rows still to be read: the user's
-- number, if there is one.
unfoldable pub find_from : DataFrame → List ℕ → ℕ → ℕ → Run (Option ℕ)
find_from users name zero r = ok none
find_from users name (suc left) r = do
  let rest = find_from users name left (r + 1)
  found ← DataFrame.get_string users 1 r
  elim found [
    | none ↦ rest
    | some user_name ↦
        if Schema.same_string user_name name
        then (DataFrame.get_int users 0 r >>= require >>= λ uuid. ok (some uuid))
        else rest
  ]

unfoldable pub find_uuid : DataFrame → List ℕ → Run (Option ℕ)
unfolding find_from
find_uuid users name = find_from users name (DataFrame.nrows users) 0
