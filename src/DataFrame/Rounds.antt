-- ===== src/DataFrame/Rounds.antt =====
-- src/data/dataframe.cpp, `map` and `_pmap_helper`: a row that is filled again and again does what
-- a fresh row in each round does.
use cs4500project.Column
use cs4500project.Row
use cs4500project.Prelude.{
  leb, true, All, List, Run, [], ap, append_assoc, arith, fault, length, length-append,
  length-replicate, map, none, ok, refl, replicate, subst, suc, sym, zero, ℕ, ◌++◌, ◌+◌, ◌<◌, ◌>>=◌,
  ◌∙◌, ◌∷◌, ◌≡◌, ◌≤◌,
}
use cs4500project.Column.{Column, int_value}
use cs4500project.DataFrame.{
  DataFrame, Rower, fill_row, map_from, map_rows, map_step, nrows, pmap_helper, pmap_step,
}
use cs4500project.DataFrame.Fill.{
  AllLonger, Entries-length, Entries-unique, Suits, fill_row-Entries,
}
use cs4500project.DataFrame.Shape.{IsValid, col_type-get_type}
use cs4500project.Row.{Row}
use cs4500project.Schema.{Schema}

pub bind_assoc :
    {A B C : Type 0} (m : Run A) (f : A → Run B) (g : B → Run C)
    → m >>= f >>= g ≡ m >>= (λ a. f a >>= g)
bind_assoc (ok a) f g = refl
bind_assoc (fault e) f g = refl

pub bind_congr :
    {A B : Type 0} (m : Run A) (f g : A → Run B) → ((a : A) → f a ≡ g a) → m >>= f ≡ m >>= g
bind_congr (ok a) f g h = h a
bind_congr (fault e) f g h = refl

bind_ok : {A : Type 0} (m : Run A) → m >>= (λ a. ok a) ≡ m
bind_ok (ok a) = refl
bind_ok (fault e) = refl

-- The columns have one length, which `nrows` returns, and there are no more of them than a row has
-- room for.
pub record FitsRows (df : DataFrame) : Type 0 where
  pub even : All (λ c. Column.size c ≡ nrows df) df.columns
  pub room : length df.columns ≤ Row.in_place

pub longer : (n i : ℕ) (cs : List Column) → All (λ c. Column.size c ≡ n) cs → i < n → AllLonger i cs
longer n i [] h lt = tt
longer n i (c ∷ cs) h lt = (omega (arith, h.0), longer n i cs h.1 lt)

-- Whatever row is filled, the result is the same.
fill_row_same :
    (df : DataFrame) (i : ℕ) (row row' : Row)
    → IsValid df
    → AllLonger i df.columns
    → Suits df row
    → Suits df row'
    → (full : Row) × (fill_row df i row ≡ ok full) × (fill_row df i row' ≡ ok full) × Suits df full
fill_row_same df i row row' valid long s s' =
    let (vals, e, at) = fill_row-Entries df i row valid s long in
    let (vals', e', at') = fill_row-Entries df i row' valid s' long in
    let same = Entries-unique i df.columns vals' vals at' at in
    let w : row'.width ≡ row.width = s'.wide ∙ sym s.wide in
    let t : row'.types ≡ row.types = s'.typed ∙ sym s.typed in
    (
      record row { values = vals; index = i },
      e,
      e' ∙ (λ j. ok (record { width = w j; types = t j; values = same j; index = i })),
      record { wide = s.wide; typed = s.typed; filled = Entries-length i df.columns vals at },
    )

-- A row that is built from the schema suits the frame.
read_types-map :
    (s : Schema) (cs pre : List Column)
    → s.column_types ≡ map Column.get_type (pre ++ cs)
    → Row.read_types s (length cs) (length pre) ≡ ok (map Column.get_type cs)
unfolding Row.read_types
read_types-map s [] pre e = refl
read_types-map s (c ∷ cs) pre e =
    let ih =
      read_types-map s cs (pre ++ c ∷ [])
        (e ∙ ap (map Column.get_type) (sym (append_assoc pre (c ∷ []) cs))) in
    let next : length (pre ++ c ∷ []) ≡ length pre + 1 = length-append pre (c ∷ []) in
    rw (col_type-get_type s pre cs c e, Row.read_types, rw next at ih)

pub of_schema-Suits :
    (df : DataFrame)
    → IsValid df
    → length df.columns ≤ Row.in_place
    → (row : Row) × (Row.of_schema df.schema ≡ ok row) × Suits df row
unfolding Row.of_schema
of_schema-Suits df valid room =
    let enough : leb df.schema.width Row.in_place ≡ true = rw (valid.counted) (ground arith) in
    let w = df.schema.width in
    let types : Row.read_types df.schema w 0 ≡ ok (map Column.get_type df.columns) =
      subst (λ k. Row.read_types df.schema k 0 ≡ ok (map Column.get_type df.columns))
        (sym valid.counted) (read_types-map df.schema df.columns [] valid.typed) in
    (
      record {
        width = w;
        types = map Column.get_type df.columns;
        values = replicate w (int_value none);
        index = 0;
      },
      rw (enough, types),
      record {
        wide = valid.counted;
        typed = refl;
        filled = length-replicate w (int_value none) ∙ valid.counted;
      },
    )

module _ {S : Type 0} (r : Rower S) (df : DataFrame) (valid : IsValid df) (fits : FitsRows df) where
  -- One round of `map` does to the rower's state what one round of `_pmap_helper` does.
  map_step-pmap_step :
      (i : ℕ) (row : Row) (s : S)
      → AllLonger i df.columns
      → Suits df row
      → (full : Row) × Suits df full
        × (map_step r df i row s ≡ pmap_step r df i s >>= λ s'. ok (full, s'))
  unfolding map_step pmap_step
  map_step-pmap_step i row s long suits =
      let (fresh, made, suits') = of_schema-Suits df valid fits.room in
      let (full, e, e', suits'') = fill_row_same df i row fresh valid long suits suits' in
      (
        full,
        suits'',
        rw (e, made, e') (sym (bind_assoc (r.accept full s) (λ a. ok a.1) (λ s'. ok (full, s')))),
      )

  map_from-pmap_helper :
      (left i : ℕ) (row : Row) (s : S)
      → i + left ≤ nrows df
      → Suits df row
      → map_from r df left i row s ≡ pmap_helper r df left i s
  unfolding map_from pmap_helper
  map_from-pmap_helper zero i row s h suits = refl
  map_from-pmap_helper (suc left) i row s h suits =
      let long = longer (nrows df) i df.columns fits.even (omega arith) in
      let (full, suits', e) = map_step-pmap_step i row s long suits in
      round (pmap_step r df i s) full e
        (λ s'. map_from-pmap_helper left (i + 1) full s' (omega arith) suits')
    where
      round :
          (m : Run S) (full : Row)
          → map_step r df i row s ≡ m >>= (λ s'. ok (full, s'))
          → ((s' : S) → map_from r df left (i + 1) full s' ≡ pmap_helper r df left (i + 1) s')
          → map_from r df (suc left) i row s
            ≡ elim m [ fault e ↦ fault e | ok s' ↦ pmap_helper r df left (i + 1) s' ]
      round (ok s') full e ih = rw (e, map_from) (ih s')
      round (fault f) full e ih = rw (e, map_from)

  pub map_rows-pmap_helper : (s : S) → map_rows r df s ≡ pmap_helper r df (nrows df) 0 s
  unfolding map_rows
  map_rows-pmap_helper s =
      let (row, made, suits) = of_schema-Suits df valid fits.room in
      rw made (map_from-pmap_helper (nrows df) 0 row s (omega arith) suits)
