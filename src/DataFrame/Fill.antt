-- ===== src/DataFrame/Fill.antt =====
-- src/data/dataframe.cpp, `fill_row`: a row gets the entries of one index.
use cs4500project.Prelude.{set as set_elem}
use cs4500project.Column
use cs4500project.Column.View as ColumnView
use cs4500project.DataFrame
use cs4500project.Row
use cs4500project.Row.Access as RowAccess
use cs4500project.Prelude.{
  All, List, [], ap, append_assoc, ap₂, arith, get_elem?, get_elem?_append, get_elem?_lt, length,
  length-append, length-map, map, ok, refl, some, subst, suc, sym, ℕ, ◌++◌, ◌+◌, ◌<◌, ◌∙◌, ◌∷◌, ◌≡◌,
}
use cs4500project.Column.{
  Column, Value, as_bool, as_float, as_int, as_string, bool_column, float_column, int_column,
  string_column,
}
use cs4500project.DataFrame.{DataFrame, fill_from, fill_row}
use cs4500project.DataFrame.Shape.{IsValid, col_type-get_type, get_elem?-map}
use cs4500project.Row.{Row}

-- The values at an index of the columns.
abbrev pub Entries : ℕ → List Column → List Value → Type 0
Entries i [] [] = Unit
Entries i (c ∷ cs) (v ∷ vs) = (get_elem? (ColumnView.view c) i ≡ some v) × Entries i cs vs
Entries i _ _ = ⊥

get_by_type-get :
    (df : DataFrame) (c i : ℕ) (col : Column)
    → get_elem? df.columns c ≡ some col
    → DataFrame.get_by_type df (Column.get_type col) c i ≡ Column.get col i
unfolding DataFrame.get_by_type Column.get_type Column.get as_int as_float as_bool as_string
get_by_type-get df c i (int_column a) e = rw e
get_by_type-get df c i (float_column a) e = rw e
get_by_type-get df c i (bool_column a) e = rw e
get_by_type-get df c i (string_column a) e = rw e

-- Each column is at least this long.
abbrev pub AllLonger : ℕ → List Column → Type 0
AllLonger i = All (λ c. i < Column.size c)

pub set-append :
    {A : Type 0} (xs : List A) (y z : A) (ys : List A)
    → set_elem (xs ++ y ∷ ys) (length xs) z ≡ (xs ++ z ∷ []) ++ ys
set-append [] y z ys = refl
set-append (x ∷ xs) y z ys = ap (◌∷◌ x) (set-append xs y z ys)

-- The row is made for the frame: one type and one value for each column.
pub record Suits (df : DataFrame) (row : Row) : Type 0 where
  pub wide : row.width ≡ length df.columns
  pub typed : row.types ≡ map Column.get_type df.columns
  pub filled : length row.values ≡ length df.columns

read_entry :
    (c : Column) (i : ℕ)
    → ColumnView.IsValid c
    → i < Column.size c
    → (v : Value) × (get_elem? (ColumnView.view c) i ≡ some v)
      × (Column.get c i ≡ ok v)
      × (ColumnView.type_of v ≡ Column.get_type c)
read_entry c i valid h =
    let size = ColumnView.size-view c valid in
    let (v, e) = get_elem?_lt (ColumnView.view c) i (omega arith) in
    (v, e, ColumnView.get_column-view c i valid ∙ rw e, ColumnView.type_of-view c i v e)

-- One round of the loop.
fill_one :
    (df : DataFrame) (row : Row) (i : ℕ) (pre cs : List Column) (c : Column) (done old : List Value)
    (o : Value)
    → df.columns ≡ pre ++ c ∷ cs
    → IsValid df
    → Suits df (record row { values = done ++ o ∷ old })
    → length done ≡ length pre
    → ColumnView.IsValid c
    → i < Column.size c
    → (v : Value) × (get_elem? (ColumnView.view c) i ≡ some v)
      × (fill_from df i (suc (length cs)) (length pre) (record row { values = done ++ o ∷ old })
          ≡ fill_from df i
              (length cs)
              (length pre + 1)
              (record row { values = (done ++ v ∷ []) ++ old }))
unfolding fill_from
fill_one df row i pre cs c done old o e valid suits same sound long =
    let (v, at, read, typ) = read_entry c i sound long in
    let full : Row = record row { values = done ++ o ∷ old } in
    let col : get_elem? df.columns (length pre) ≡ some c = rw e (get_elem?_append pre c cs) in
    let typed : get_elem? full.types (length pre) ≡ some (ColumnView.type_of v) =
      rw (suits.typed, typ) (get_elem?-map Column.get_type df.columns (length pre) c col) in
    let size : length df.columns ≡ length pre + suc (length cs) =
      ap length e ∙ length-append pre (c ∷ cs) in
    let width = suits.wide in
    let row_valid : RowAccess.IsValid full = record {
      typed = ap length suits.typed ∙ length-map Column.get_type df.columns ∙ sym suits.wide;
      filled = suits.filled ∙ sym suits.wide;
    } in
    let stored : Row.set full (length pre) v
        ≡ ok (record row { values = (done ++ v ∷ []) ++ old }) =
      RowAccess.set-stores full (length pre) v row_valid (omega arith) typed
      ∙ ap (λ vs. ok (record row { values = vs }))
          (subst (λ k. set_elem (done ++ o ∷ old) k v ≡ (done ++ v ∷ []) ++ old) same
            (set-append done o v old)) in
    (
      v,
      at,
      rw (
        col_type-get_type df.schema pre cs c (valid.typed ∙ ap (map Column.get_type) e),
        fill_from,
        get_by_type-get df (length pre) i c col,
        read,
        stored,
      ),
    )

Suits-step :
    (df : DataFrame) (row : Row) (done old : List Value) (o v : Value)
    → Suits df (record row { values = done ++ o ∷ old })
    → Suits df (record row { values = (done ++ v ∷ []) ++ old })
Suits-step df row done old o v s = record {
  wide = s.wide;
  typed = s.typed;
  filled =
      rw append_assoc
        (omega (arith, s.filled, length-append done (o ∷ old), length-append done (v ∷ old)));
}

length_zero : {A : Type 0} (xs : List A) → length xs ≡ 0 → xs ≡ []
length_zero [] h = refl
length_zero (x ∷ xs) h = absurd (omega arith)

fill_from-Entries :
    (df : DataFrame) (row : Row) (i : ℕ) (cs pre : List Column) (done old : List Value)
    → df.columns ≡ pre ++ cs
    → IsValid df
    → Suits df (record row { values = done ++ old })
    → length done ≡ length pre
    → All ColumnView.IsValid cs
    → AllLonger i cs
    → (vals : List Value) × (fill_from df i
          (length cs)
          (length pre)
          (record row { values = done ++ old })
        ≡ ok (record row { values = done ++ vals }))
      × Entries i cs vals
unfolding fill_from
fill_from-Entries df row i [] pre done old e valid suits same sound long =
    let none_left : length old ≡ 0 =
      omega (arith, suits.filled, length-append done old, ap length e, length-append pre []) in
    ([], rw (length_zero old none_left), tt)
fill_from-Entries df row i (c ∷ cs) pre done [] e valid suits same sound long =
    absurd
      (omega (arith, suits.filled, length-append done [], ap length e, length-append pre (c ∷ cs)))
fill_from-Entries df row i (c ∷ cs) pre done (o ∷ old) e valid suits same sound long =
    let (v, at, step) = fill_one df row i pre cs c done old o e valid suits same sound.0 long.0 in
    let (vals, rest, entries) =
      fill_from-Entries df row i cs (pre ++ c ∷ []) (done ++ v ∷ []) old
        (e ∙ sym (append_assoc pre (c ∷ []) cs)) valid (Suits-step df row done old o v suits)
        (omega (arith, length-append done (v ∷ []), length-append pre (c ∷ []))) sound.1 long.1 in
    let next : length (pre ++ c ∷ []) ≡ length pre + 1 = length-append pre (c ∷ []) in
    (
      v ∷ vals,
      step
          ∙ (rw next at rest)
          ∙ ap (λ vs. ok (record row { values = vs })) (append_assoc done (v ∷ []) vals),
      (at, entries),
    )

-- A row that has the width and types of a well-formed frame is filled with the entries of the
-- columns at an index that every column has, and with the index, whatever values it held before.
pub fill_row-Entries :
    (df : DataFrame) (i : ℕ) (row : Row)
    → IsValid df
    → Suits df row
    → AllLonger i df.columns
    → (vals : List Value) × (fill_row df i row ≡ ok (record row { values = vals; index = i }))
      × Entries i df.columns vals
unfolding fill_row Row.set_index
fill_row-Entries df i row valid suits long =
    fill_from-Entries df (Row.set_index row i) i df.columns [] [] row.values refl valid
      (record { wide = suits.wide; typed = suits.typed; filled = suits.filled }) refl valid.sound
      long

pub Entries-unique :
    (i : ℕ) (cs : List Column) (vs ws : List Value) → Entries i cs vs → Entries i cs ws → vs ≡ ws
Entries-unique i [] [] [] a b = refl
Entries-unique i (c ∷ cs) (v ∷ vs) (w ∷ ws) a b =
    let same : v ≡ w = cc in ap₂ ◌∷◌ same (Entries-unique i cs vs ws a.1 b.1)
Entries-unique i [] [] (w ∷ ws) a b = absurd b
Entries-unique i [] (v ∷ vs) ws a b = absurd a
Entries-unique i (c ∷ cs) [] ws a b = absurd a
Entries-unique i (c ∷ cs) (v ∷ vs) [] a b = absurd b

pub Entries-length :
    (i : ℕ) (cs : List Column) (vs : List Value) → Entries i cs vs → length vs ≡ length cs
Entries-length i [] [] a = refl
Entries-length i (c ∷ cs) (v ∷ vs) a = ap suc (Entries-length i cs vs a.1)
Entries-length i [] (v ∷ vs) a = absurd a
Entries-length i (c ∷ cs) [] a = absurd a
