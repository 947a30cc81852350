-- ===== src/WordCount/Totals.antt =====
-- src/util/wordcount.cpp, `CounterRower`: the words that a sweep over a frame has counted.
use cs4500project.Column
use cs4500project.Column.View as ColumnView
use cs4500project.DataFrame
use cs4500project.Prelude.{
  All, List, [], ap, ap₂, arith, get_elem?, length, map, ok, refl, some, subst, suc, sym, take,
  take-length, true, zero, ℕ, ◌%◌, ◌+◌, ◌∙◌, ◌∷◌, ◌≡◌,
}
use cs4500project.Column.{Column, Value}
use cs4500project.DataFrame.{DataFrame, nrows}
use cs4500project.DataFrame.Fill.{Entries}
use cs4500project.DataFrame.Rounds.{FitsRows}
use cs4500project.DataFrame.Shape.{IsValid}
use cs4500project.DataFrame.Sweep.{Keeps, map_rows-Keeps}
use cs4500project.Serializable.{size_max}
use cs4500project.WordCount.{WordMap, accept_from, counter_rower}
use cs4500project.WordCount.Counting.{
  IsSmall, accept_from-Counts, count_of, is_word, occurrences, total,
}
use cs4500project.WordCount.Joining.{pmap-counter_rower}

-- The occurrences among the first entries of each column.
unfoldable seen : List ℕ → ℕ → List Column → ℕ
seen word i [] = 0
seen word i (c ∷ cs) = occurrences word (take i (ColumnView.view c)) + seen word i cs

occurrences_next :
    (w : List ℕ) (i : ℕ) (vs : List Value) (v : Value)
    → get_elem? vs i ≡ some v
    → occurrences w (take (suc i) vs) ≡ occurrences w (take i vs) + is_word w v
unfolding occurrences
occurrences_next w i [] v e = absurd (ground arith)
occurrences_next w zero (x ∷ vs) v e = let same : x ≡ v = ground arith in rw (same) (omega arith)
occurrences_next w (suc i) (x ∷ vs) v e = let next = occurrences_next w i vs v e in omega arith

seen-next :
    (w : List ℕ) (i : ℕ) (cs : List Column) (vals : List Value)
    → Entries i cs vals
    → seen w (suc i) cs ≡ seen w i cs + occurrences w vals
unfolding seen occurrences
seen-next w i [] [] e = refl
seen-next w i [] (v ∷ vals) e = elim e [ ]
seen-next w i (c ∷ cs) [] e = elim e [ ]
seen-next w i (c ∷ cs) (v ∷ vals) e =
    let here = occurrences_next w i (ColumnView.view c) v e.0 in
    let there = seen-next w i cs vals e.1 in omega arith

seen-size :
    (w : List ℕ) (n : ℕ) (cs : List Column)
    → All ColumnView.IsValid cs
    → All (λ c. Column.size c ≡ n) cs
    → seen w n cs ≡ total w cs
unfolding seen total
seen-size w n [] valid sizes = refl
seen-size w n (c ∷ cs) valid sizes =
    let long : n ≡ length (ColumnView.view c) = sym sizes.0 ∙ ColumnView.size-view c valid.0 in
    let full : take n (ColumnView.view c) ≡ ColumnView.view c =
      ap (λ k. take k (ColumnView.view c)) long ∙ take-length (ColumnView.view c) in
    rw (full, seen-size w n cs valid.1 sizes.1)

seen-zero : (w : List ℕ) (cs : List Column) → seen w 0 cs ≡ 0
unfolding seen occurrences
seen-zero w [] = refl
seen-zero w (c ∷ cs) = let rest = seen-zero w cs in omega arith

Entries-type_of :
    (i : ℕ) (cs : List Column) (vals : List Value)
    → Entries i cs vals
    → map Column.get_type cs ≡ map ColumnView.type_of vals
Entries-type_of i [] [] e = refl
Entries-type_of i [] (v ∷ vals) e = elim e [ ]
Entries-type_of i (c ∷ cs) [] e = elim e [ ]
Entries-type_of i (c ∷ cs) (v ∷ vals) e =
    ap₂ ◌∷◌ (sym (ColumnView.type_of-view c i v e.0)) (Entries-type_of i cs vals e.1)

-- After `i` rows the map says how often each word stands in them.
abbrev Tallies : DataFrame → ℕ → WordMap → Type 0
Tallies df i m = (w : List ℕ) → count_of w m ≡ seen w i df.columns % size_max

counter_rower-Keeps : (df : DataFrame) → Keeps counter_rower df (Tallies df)
unfolding counter_rower
counter_rower-Keeps df i row m lt shows p =
    let fits : IsSmall m = λ w. let e = p w in omega arith in
    let suits = shows.suits in
    let width : row.width ≡ length row.values = suits.wide ∙ sym suits.filled in
    let types = suits.typed ∙ Entries-type_of i df.columns row.values shows.entries in
    let (m', run, counts) = accept_from-Counts row [] row.values m refl types width fits in
    let run' : accept_from row row.width 0 m ≡ ok m' =
      ap (λ k. accept_from row k 0 m) width ∙ run in
    let one_more : suc i ≡ i + 1 = omega arith in
    let tallies : Tallies df (suc i) m' = λ w.
      let next = seen-next w i df.columns row.values shows.entries in
      let before = p w in let counted = counts w in omega arith in
    (true, m', rw (run'), subst (λ j. Tallies df j m') one_more tallies)

-- On a well-formed frame whose columns have one length and are at most 15, the threads of `pmap`
-- count without a fault, and each word's count is how often it stands in the frame, as a `size_t`.
-- The string of types in a row has room for 15 characters, as in GNU's library.
pub pmap-total :
    (df : DataFrame)
    → IsValid df
    → FitsRows df
    → (m : WordMap) × (DataFrame.pmap counter_rower df [] ≡ ok m)
      × ((w : List ℕ) → count_of w m ≡ total w df.columns % size_max)
unfolding count_of
pmap-total df valid rect =
    let none_yet : Tallies df 0 [] = λ w. let z = seen-zero w df.columns in omega arith in
    let (m, run, tallies) =
      map_rows-Keeps counter_rower df (Tallies df) (counter_rower-Keeps df) valid rect []
        none_yet in
    (
      m,
      pmap-counter_rower df valid rect ∙ run,
      λ w.
          let whole = seen-size w (nrows df) df.columns valid.sound rect.even in
          tallies w ∙ ap (λ n. n % size_max) whole,
    )
