-- ===== src/DataFrame/Map.antt =====
-- src/data/dataframe.cpp: rows that are added and rows that are read.
use cs4500project.Column
use cs4500project.Column.View as ColumnView
use cs4500project.Row
use cs4500project.Row.Access as RowAccess
use cs4500project.Prelude.{
  All, List, [], ap, append_assoc, arith, get_elem?, get_elem?_append, length, length-append, map,
  ok, refl, some, sym, ◌++◌, ◌+◌, ◌∙◌, ◌∷◌, ◌≡◌,
}
use cs4500project.Column.{Column, Value}
use cs4500project.DataFrame.{DataFrame, add_row, push_values}
use cs4500project.DataFrame.Shape.{IsValid}
use cs4500project.Row.{Row}

-- One value more at the end of each column.

abbrev pub Extends : List Column → List Value → List Column → Type 0
Extends [] [] [] = Unit
Extends (c ∷ cs) (v ∷ vs) (d ∷ ds) =
    (ColumnView.view d ≡ ColumnView.view c ++ v ∷ [])
    × (Column.get_type d ≡ Column.get_type c)
    × ColumnView.IsValid d
    × Extends cs vs ds
Extends _ _ _ = ⊥

push_values-Extends :
    (row : Row) (done vals : List Value) (cs : List Column)
    → row.values ≡ done ++ vals
    → All ColumnView.IsValid cs
    → map ColumnView.type_of vals ≡ map Column.get_type cs
    → (cs' : List Column) × (push_values row (length done) cs ≡ ok cs') × Extends cs vals cs'
unfolding push_values
push_values-Extends row done [] [] e v t = ([], refl, tt)
push_values-Extends row done [] (c ∷ cs) e v t = absurd (omega (arith, ap length t))
push_values-Extends row done (x ∷ vals) [] e v t = absurd (omega (arith, ap length t))
push_values-Extends row done (x ∷ vals) (c ∷ cs) e v t =
    let same : ColumnView.type_of x ≡ Column.get_type c = cc in
    let others : map ColumnView.type_of vals ≡ map Column.get_type cs = cc in
    let here : get_elem? row.values (length done) ≡ some x = rw e (get_elem?_append done x vals) in
    let (c', pushed, valid, typ, view) = ColumnView.view_column-push_back c x v.0 same in
    let next : length (done ++ x ∷ []) ≡ length done + 1 = length-append done (x ∷ []) in
    let (cs', rest, ext) =
      push_values-Extends row (done ++ x ∷ []) vals cs (e ∙ sym (append_assoc done (x ∷ []) vals))
        v.1 others in
    let read : Row.get_by_type row (Column.get_type c) (length done) ≡ ok (some x) =
      rw (← same) (RowAccess.get_by_type-eq row (length done) x here) in
    (c' ∷ cs', rw (read, pushed, rw next at rest), (view, typ, valid, ext))

-- A row whose values have the types of a well-formed frame's columns is added: every column gets
-- its value at the end and stays valid, and the schema, with its count of rows, stays as it was.
pub add_row-Extends :
    (df : DataFrame) (row : Row)
    → IsValid df
    → map ColumnView.type_of row.values ≡ map Column.get_type df.columns
    → (df' : DataFrame) × (add_row df row ≡ ok df')
      × (df'.schema ≡ df.schema)
      × Extends df.columns row.values df'.columns
unfolding add_row
add_row-Extends df row v t =
    let (cs, e, ext) = push_values-Extends row [] row.values df.columns refl v.sound t in
    (record df { columns = cs }, rw e, refl, ext)
