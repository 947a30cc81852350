-- ===== src/Linus/Filters.antt =====
-- src/util/linus_rowers.cpp, the filters as `pmap` runs them: the frame that `finish_filter` gives.
use cs4500project.NullableArray.View as ArrayView
use cs4500project.Column
use cs4500project.Column.View as ColumnView
use cs4500project.DataFrame
use cs4500project.NullableArray
use cs4500project.Row
use cs4500project.Schema
use cs4500project.Prelude.{
  All, All-split, List, Permᴰ, Run, [], ap, concat, inl, inr, none, ok, ok_inj, refl, some, subst,
  sym, ℕ, ◌++◌, ◌∙◌, ◌∷◌, ◌≡◌, ◌⊎◌,
}
use cs4500project.Column.{Column, Value, int_column, int_value, string_column}
use cs4500project.DataFrame.{DataFrame, get_col_from_type, make_columns, map_rows}
use cs4500project.DataFrame.Rounds.{FitsRows}
use cs4500project.DataFrame.Shape.{IsValid}
use cs4500project.Linus.{Filtered, filter, start_writers}
use cs4500project.Linus.Frames.{AllReady, Ready, Writes-Holds, pending}
use cs4500project.Linus.IntSets.{Holds}
use cs4500project.Linus.Logs.{thread_logs-concat}
use cs4500project.Linus.Progress.{Writes-total}
use cs4500project.NullableArray.{NullableArray}
use cs4500project.Row.{Row}
use cs4500project.Schema.{Schema}

-- The types of the filters' frames.
abbrev pub IsFilterType : ℕ → Type 0
IsFilterType typ = (typ ≡ b'I') ⊎ (typ ≡ b'S')

-- The frame and the rows that a filter starts with.
pub record Start (typ : ℕ) : Type 0 where
  pub schema : Schema
  pub frame : DataFrame
  pub row : Row
  pub typed : Schema.of_types (typ ∷ []) ≡ schema
  pub made : DataFrame.of_schema schema ≡ ok frame
  pub prepared : Row.of_schema schema ≡ ok row
  pub holds : Holds typ frame []
  pub ready : Ready typ row

one_column : ℕ → Schema
one_column typ = record {
  column_names = [];
  row_names = [];
  column_types = typ ∷ [];
  width = 1;
  rows = 0;
}

begin_with :
    (typ : ℕ) (c : Column)
    → Schema.of_types (typ ∷ []) ≡ one_column typ
    → get_col_from_type typ ≡ some c
    → Column.get_type c ≡ typ
    → ColumnView.view c ≡ []
    → ColumnView.IsValid c
    → Start typ
unfolding one_column DataFrame.of_schema make_columns Row.of_schema Schema.col_type
begin_with typ c scanned created typed shows sound =
    let frame : DataFrame = record { schema = one_column typ; columns = c ∷ [] } in
    record {
      schema = one_column typ;
      frame = frame;
      row = record { width = 1; types = typ ∷ []; values = int_value none ∷ []; index = 0 };
      typed = scanned;
      made = rw (DataFrame.of_schema, make_columns, created);
      prepared = refl;
      holds = record {
        column = c;
        valid = record {
          typed = ap (λ t. t ∷ []) (sym typed);
          counted = refl;
          sound = (sound, tt);
        };
        columns = refl;
        typed = typed;
        shows = shows;
      };
      ready = record { value = int_value none; wide = refl; types = refl; values = refl };
    }

pub begin_of : (typ : ℕ) → IsFilterType typ → Start typ
unfolding one_column Schema.of_types get_col_from_type Column.get_type ColumnView.view
    ColumnView.IsValid NullableArray.empty ArrayView.IsValid ArrayView.view
begin_of typ (inl e) = subst Start (sym e) (
    begin_with b'I' (int_column NullableArray.empty) refl refl refl refl
      (ArrayView.empty-IsValid 0))
begin_of typ (inr e) = subst Start (sym e) (
    begin_with b'S' (string_column NullableArray.empty) refl refl refl refl
      (ArrayView.empty-IsValid []))

start_writers-AllReady :
    (typ : ℕ) (row : Row) (logs : List (List Value))
    → Ready typ row
    → All (λ v. ColumnView.type_of v ≡ typ) (concat logs)
    → AllReady typ (start_writers row logs)
unfolding start_writers
start_writers-AllReady typ row [] r h = tt
start_writers-AllReady typ row (log ∷ logs) r h =
    let (here, there) = All-split _ log (concat logs) h in
    ((r, here), start_writers-AllReady typ row logs r there)

pending-start_writers :
    (row : Row) (logs : List (List Value)) → pending (start_writers row logs) ≡ concat logs
unfolding pending start_writers
pending-start_writers row [] = refl
pending-start_writers row (log ∷ logs) = ap (λ vs. log ++ vs) (pending-start_writers row logs)

module _ (typ : ℕ) (picks : Row → Run (List Value)) (df : DataFrame) (log : List Value)
    (kind : IsFilterType typ) (valid : IsValid df) (rect : FitsRows df)
    (run : map_rows (filter picks) df [] ≡ ok log)
    (types : All (λ v. ColumnView.type_of v ≡ typ) log) where
  -- The filter can end.
  pub Filtered-total : (out : DataFrame) × Filtered typ picks df out
  Filtered-total =
      let s = begin_of typ kind in
      let (logs, logged, whole) = thread_logs-concat picks df log valid rect run in
      let types' : All (λ v. ColumnView.type_of v ≡ typ) (concat logs) = rw whole types in
      let ready = start_writers-AllReady typ s.row logs s.ready types' in
      let (out, written) = Writes-total typ (start_writers s.row logs) s.frame [] ready s.holds in
      (
        out,
        record {
          schema = s.schema;
          start = s.frame;
          row = s.row;
          logs = logs;
          typed = s.typed;
          made = s.made;
          prepared = s.prepared;
          logged = logged;
          written = written;
        },
      )

  -- On a well-formed frame of at most 15 columns of one length, where one pass over the rows ends
  -- well and picks values of the type of the filter's frame: whatever order the threads write in,
  -- that frame ends well formed, with the values of the one pass, in some order. The string of
  -- types in a row has room for 15 characters, as in GNU's library.
  pub Filtered-Holds :
      (out : DataFrame)
      → Filtered typ picks df out
      → (vals : List Value) × Permᴰ log vals × Holds typ out vals
  Filtered-Holds out f =
      let s = begin_of typ kind in
      let (logs, logged, whole) = thread_logs-concat picks df log valid rect run in
      let same_logs : f.logs ≡ logs = ok_inj (sym f.logged ∙ logged) in
      let schema : f.schema ≡ s.schema = sym f.typed ∙ s.typed in
      let frame : f.start ≡ s.frame =
        ok_inj (sym f.made ∙ ap DataFrame.of_schema schema ∙ s.made) in
      let row : f.row ≡ s.row = ok_inj (sym f.prepared ∙ ap Row.of_schema schema ∙ s.prepared) in
      let all : concat f.logs ≡ log = ap concat same_logs ∙ whole in
      let holds : Holds typ f.start [] = rw frame s.holds in
      let ready = start_writers-AllReady typ f.row f.logs (rw row s.ready) (rw all types) in
      let (vals, perm, holds') =
        Writes-Holds typ (start_writers f.row f.logs) f.start out [] f.written ready holds in
      let perm' : Permᴰ log vals = rw (pending-start_writers f.row f.logs, all) at perm in
      (vals, perm', holds')
