-- ===== src/Linus/Frames.antt =====
-- src/util/linus_rowers.cpp, `_add_to_df`: what the shared frame holds once all threads have
-- written.
use cs4500project.Prelude.{set as set_elem}
use cs4500project.Column
use cs4500project.Column.View as ColumnView
use mathlib.Core.List.Permᴰ
use cs4500project.Row
use cs4500project.Row.Access as RowAccess
use cs4500project.Prelude.{
  ==_refl, All, List, Permᴰ, [], ap, append-nil, append_assoc, arith, concat, get_elem?, length,
  map, ok, ok_inj, refl, some, subst, sym, ℕ, ◌++◌, ◌∙◌, ◌∷◌, ◌≡◌,
}
use cs4500project.Column.{Column, Value}
use cs4500project.DataFrame.{DataFrame, add_row}
use cs4500project.DataFrame.Map.{Extends, add_row-Extends}
use cs4500project.Linus.{Writer, Writes, add_to_df, all_written, one_writes}
use cs4500project.Linus.IntSets.{Holds}
use cs4500project.Row.{Row}

-- A row for a frame of one column of a type.
pub record Ready (typ : ℕ) (row : Row) : Type 0 where
  pub value : Value
  pub wide : row.width ≡ 1
  pub types : row.types ≡ typ ∷ []
  pub values : row.values ≡ value ∷ []

set-Ready :
    (typ : ℕ) (row : Row) (v : Value)
    → Ready typ row
    → ColumnView.type_of v ≡ typ
    → Row.set row 0 v ≡ ok (record row { values = v ∷ [] })
set-Ready typ row v r t =
    let valid : RowAccess.IsValid row = record {
      typed = rw (r.types, r.wide) refl;
      filled = rw (r.values, r.wide) refl;
    } in
    let typed : get_elem? row.types 0 ≡ some (ColumnView.type_of v) = rw (r.types, t) in
    let stored : set_elem row.values 0 v ≡ v ∷ [] = rw r.values in
    RowAccess.set-stores row 0 v valid (omega (arith, r.wide)) typed
    ∙ ap (λ vs. ok (record row { values = vs })) stored

col_type-Ready : (typ : ℕ) (row : Row) → Ready typ row → Row.col_type row 0 ≡ ok typ
unfolding Row.col_type
col_type-Ready typ row r = rw (r.wide, r.types)

one-Extends :
    (c : Column) (v : Value) (ds : List Column)
    → Extends (c ∷ []) (v ∷ []) ds
    → (d : Column) × (ds ≡ d ∷ [])
      × (ColumnView.view d ≡ ColumnView.view c ++ v ∷ [])
      × (Column.get_type d ≡ Column.get_type c)
      × ColumnView.IsValid d
one-Extends c v [] e = elim e [ ]
one-Extends c v (d ∷ []) e = (d, refl, e.0, e.1, e.2)
one-Extends c v (d ∷ d' ∷ ds) e = elim e.3 [ ]

add_row-Holds :
    (typ : ℕ) (df : DataFrame) (row : Row) (vals : List Value) (v : Value)
    → Holds typ df vals
    → row.values ≡ v ∷ []
    → ColumnView.type_of v ≡ typ
    → (df' : DataFrame) × (add_row df row ≡ ok df') × Holds typ df' (vals ++ v ∷ [])
add_row-Holds typ df row vals v h e t =
    let types : map ColumnView.type_of row.values ≡ map Column.get_type df.columns =
      rw (e, h.columns, t, h.typed) in
    let (df', added, schema, ext) = add_row-Extends df row h.valid types in
    let ext₁ : Extends (h.column ∷ []) row.values df'.columns = rw h.columns at ext in
    let ext₂ : Extends (h.column ∷ []) (v ∷ []) df'.columns = rw e at ext₁ in
    let (d, columns, view, typed, sound) = one-Extends h.column v df'.columns ext₂ in
    let before : df.schema.column_types ≡ Column.get_type h.column ∷ [] =
      rw h.columns at h.valid.typed in
    let wide : df.schema.width ≡ 1 = h.valid.counted ∙ ap length h.columns in
    (
      df',
      added,
      record {
        column = d;
        columns = columns;
        typed = typed ∙ h.typed;
        shows = view ∙ ap (λ vs. vs ++ v ∷ []) h.shows;
        valid = record {
          typed = rw (schema, columns, typed) before;
          counted = rw (schema, columns) wide;
          sound = rw columns (sound, tt);
        };
      },
    )

-- A write adds its value at the end.
pub add_to_df-Holds :
    (typ : ℕ) (df : DataFrame) (row : Row) (vals : List Value) (v : Value)
    → Holds typ df vals
    → Ready typ row
    → ColumnView.type_of v ≡ typ
    → (df' : DataFrame) × (row' : Row) × (add_to_df df row v ≡ ok (df', row'))
      × Holds typ df' (vals ++ v ∷ [])
      × Ready typ row'
unfolding add_to_df
add_to_df-Holds typ df row vals v h r t =
    let row' : Row = record row { values = v ∷ [] } in
    let (df', added, holds) = add_row-Holds typ df row' vals v h refl t in
    let ready : Ready typ row' = record {
      value = v;
      wide = r.wide;
      types = r.types;
      values = refl;
    } in
    let run : add_to_df df row v ≡ ok (df', row') =
      rw (add_to_df, col_type-Ready typ row r, t, ==_refl typ, set-Ready typ row v r t, added) in
    (df', row', run, holds, ready)

-- What the threads have still to write.
unfoldable pub pending : List Writer → List Value
pending ts = concat (map (λ (t : Writer). t.log) ts)

-- The threads' rows are ready, and what they write has the type of the frame's column.
abbrev pub AllReady : ℕ → List Writer → Type 0
AllReady typ = All (λ t. Ready typ t.row × All (λ v. ColumnView.type_of v ≡ typ) t.log)

pending-append : (ts us : List Writer) → pending (ts ++ us) ≡ pending ts ++ pending us
unfolding pending
pending-append [] us = refl
pending-append (t ∷ ts) us =
    ap (λ vs. t.log ++ vs) (pending-append ts us)
    ∙ sym (append_assoc t.log (pending ts) (pending us))

-- Whichever thread is next, its value is one of those to be written.
pending-Permᴰ :
    (before after : List Writer) (row row' : Row) (v : Value) (vs : List Value)
    → Permᴰ
        (pending (before ++ record { row = row; log = v ∷ vs } ∷ after))
        (v ∷ pending (before ++ record { row = row'; log = vs } ∷ after))
unfolding pending
pending-Permᴰ before after row row' v vs =
    rw (pending-append before, pending-append before)
      (Permᴰ.middle v (pending before) (vs ++ pending after))

All-replace :
    {A : Type 0} (P : A → Type 0) (before after : List A) (x y : A)
    → All P (before ++ x ∷ after)
    → (P x) × (P y → All P (before ++ y ∷ after))
All-replace P [] after x y h = (h.0, λ p. (p, h.1))
All-replace P (b ∷ before) after x y h =
    let (here, there) = All-replace P before after x y h.1 in (here, λ p. (h.0, there p))

pending-finished : (ts : List Writer) → All (λ t. t.log ≡ []) ts → pending ts ≡ []
unfolding pending
pending-finished [] h = refl
pending-finished (t ∷ ts) h = rw (h.0, pending-finished ts h.1)

-- In whatever order the threads write, the frame ends with what it had and all that they wrote.
pub Writes-Holds :
    (typ : ℕ) (ts : List Writer) (df out : DataFrame) (vals : List Value)
    → Writes ts df out
    → AllReady typ ts
    → Holds typ df vals
    → (added : List Value) × Permᴰ (pending ts) added × Holds typ out (vals ++ added)
Writes-Holds typ ts df out vals (all_written ts' df' done) ready h =
    ([], rw (pending-finished ts' done) Permᴰ.nil, rw (append-nil vals) h)
Writes-Holds typ ts df out vals (one_writes before after row row' v vs df' df'' out' e rest) ready
      h =
    let old : Writer = record { row = row; log = v ∷ vs } in
    let new : Writer = record { row = row'; log = vs } in
    let (here, there) = All-replace _ before after old new ready in
    let (df₁, row₁, run, holds, ready₁) = add_to_df-Holds typ df' row vals v h here.0 here.1.0 in
    let both : (df₁, row₁) ≡ (df'', row') = ok_inj (sym run ∙ e) in
    let holds' : Holds typ df'' (vals ++ v ∷ []) =
      subst (λ d. Holds typ d (vals ++ v ∷ [])) (ap (λ p. p.0) both) holds in
    let ready' : Ready typ row' = subst (Ready typ) (ap (λ p. p.1) both) ready₁ in
    let (added, perm, last) =
      Writes-Holds typ (before ++ new ∷ after) df'' out' (vals ++ v ∷ []) rest
        (there (ready', here.1.1)) holds' in
    (
      v ∷ added,
      Permᴰ.trans (pending-Permᴰ before after row row' v vs) (Permᴰ.cons refl perm),
      subst (Holds typ out') (append_assoc vals (v ∷ []) added) last,
    )
