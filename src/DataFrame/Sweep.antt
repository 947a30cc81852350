-- ===== src/DataFrame/Sweep.antt =====
-- src/data/dataframe.cpp, `map`: what a rower keeps from row to row holds of its state at the end.
use cs4500project.Prelude.{Bool, arith, ok, refl, subst, suc, zero, ℕ, ◌+◌, ◌<◌, ◌≡◌}
use cs4500project.DataFrame.{DataFrame, Rower, map_from, map_rows, map_step, nrows}
use cs4500project.DataFrame.Fill.{Entries, Entries-length, Suits, fill_row-Entries}
use cs4500project.DataFrame.Rounds.{FitsRows, longer, of_schema-Suits}
use cs4500project.DataFrame.Shape.{IsValid}
use cs4500project.Row.{Row}

-- A row that holds the entries of the columns at an index.
pub record Shows (df : DataFrame) (i : ℕ) (row : Row) : Type 0 where
  pub suits : Suits df row
  pub entries : Entries i df.columns row.values

-- The rower accepts every row of the frame, and takes what holds before a row to what holds after.
abbrev pub Keeps : {S : Type 0} → Rower S → DataFrame → (ℕ → S → Type 0) → Type 0
Keeps {S} r df P =
    (i : ℕ) (row : Row) (s : S)
    → i < nrows df
    → Shows df i row
    → P i s
    → (keep : Bool) × (s' : S) × (r.accept row s ≡ ok (keep, s')) × P (i + 1) s'

module _ {S : Type 0} (r : Rower S) (df : DataFrame) (P : ℕ → S → Type 0) (keeps : Keeps r df P)
    (valid : IsValid df) (fits : FitsRows df) where
  map_from-Keeps :
      (left i : ℕ) (row : Row) (s : S)
      → i + left ≡ nrows df
      → Suits df row
      → P i s
      → (s' : S) × (map_from r df left i row s ≡ ok s') × P (nrows df) s'
  unfolding map_from map_step
  map_from-Keeps zero i row s e suits p =
      let same : i ≡ nrows df = omega arith in (s, refl, subst (λ j. P j s) same p)
  map_from-Keeps (suc left) i row s e suits p =
      let (vals, filled, entries) =
        fill_row-Entries df i row valid suits
          (longer (nrows df) i df.columns fits.even (omega arith)) in
      let row' : Row = record row { values = vals; index = i } in
      let suits' : Suits df row' = record {
        wide = suits.wide;
        typed = suits.typed;
        filled = Entries-length i df.columns vals entries;
      } in
      let (keep, s₁, accepted, p') =
        keeps i row' s (omega arith) (record { suits = suits'; entries = entries }) p in
      let (s₂, rest, q) = map_from-Keeps left (i + 1) row' s₁ (omega arith) suits' p' in
      (s₂, rw (map_from, map_step, filled, accepted) rest, q)

  -- What holds at the start and is kept at each row holds at the end, and the sweep ends well.
  pub map_rows-Keeps : (s : S) → P 0 s → (s' : S) × (map_rows r df s ≡ ok s') × P (nrows df) s'
  unfolding map_rows
  map_rows-Keeps s p =
      let (row, made, suits) = of_schema-Suits df valid fits.room in
      let (s', run, q) = map_from-Keeps (nrows df) 0 row s (omega arith) suits p in
      (s', rw made run, q)
