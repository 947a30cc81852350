-- ===== src/Demo/Sums.antt =====
-- src/util/demo.cpp, `SumRower`: the sums of the threads of `pmap`, where doubles add up exactly.
use cs4500project.Column
use cs4500project.Column.View as ColumnView
use cs4500project.DataFrame
use cs4500project.Row
use cs4500project.Prelude.{
  Option, none, All, Bool-cases, List, [], ap, arith, drop, drop-drop, get_elem?, get_elem?_lt, inl,
  inr, leb, length, length-drop, length-map, map, ok, refl, some, subst, suc, sym, take,
  take-length, true, zero, ℕ, ◌*◌, ◌+◌, ◌-◌, ◌/◌, ◌<◌, ◌>>=◌, ◌∙◌, ◌∷◌, ◌≡◌, ◌≤◌,
}
use cs4500project.Column.{Column, Value, float_value}
use cs4500project.DataFrame.{
  make_clones, DataFrame, join_all, join_threads, nrows, pmap_helper, pmap_step, run_threads,
  step_size, thread_count, thread_rows,
}
use cs4500project.DataFrame.Fill.{Entries, Entries-length, Suits, fill_row-Entries}
use cs4500project.DataFrame.Pmap.{thread_bounds, two_threads}
use cs4500project.DataFrame.Rounds.{
  FitsRows, bind_assoc, longer, map_rows-pmap_helper, of_schema-Suits,
}
use cs4500project.DataFrame.Shape.{IsValid, get_elem?-map}
use cs4500project.Demo.{Doubles, sum_rower}
use cs4500project.Row.{Row}

-- 2 ^ 53: up to here every whole number is a double.
abbrev pub exact_limit : ℕ
exact_limit = 9007199254740992

-- What IEEE 754 says of whole numbers up to the limit: their sum is exact, and a number minus
-- itself is less than 0.001.
pub record IsExact (d : Doubles) : Type 0 where
  pub add_exact :
      (m n : ℕ) → m + n ≤ exact_limit → d.add (d.of_int m) (d.of_int n) ≡ d.of_int (m + n)
  pub same_less :
      (n : ℕ) → n ≤ exact_limit → d.less (d.subtract (d.of_int n) (d.of_int n)) d.thousandth ≡ true

unfoldable pub sum : List ℕ → ℕ
sum [] = 0
sum (x ∷ xs) = x + sum xs

sum-take : (n : ℕ) (xs : List ℕ) → sum (take n xs) + sum (drop n xs) ≡ sum xs
unfolding sum
sum-take zero xs = omega arith
sum-take (suc n) [] = refl
sum-take (suc n) (x ∷ xs) = omega (arith, sum-take n xs)

drop_next :
    {A : Type 0} (xs : List A) (i : ℕ) (x : A)
    → get_elem? xs i ≡ some x
    → drop i xs ≡ x ∷ drop (suc i) xs
drop_next [] i x e = absurd (ground arith)
drop_next (y ∷ xs) zero x e = let same : y ≡ x = ground arith in ap (λ z. z ∷ xs) same
drop_next (y ∷ xs) (suc i) x e = drop_next xs i x e

-- The column of the doubles that stand for the numbers.
abbrev pub doubles : Doubles → List ℕ → List Value
doubles d xs = map (λ x. float_value (some (d.of_int x))) xs

one_entry :
    (i : ℕ) (c : Column) (vs : List Value) (v : Value)
    → Entries i (c ∷ []) vs
    → get_elem? (ColumnView.view c) i ≡ some v
    → get_elem? vs 0 ≡ some v
one_entry i c [] v h e = absurd h
one_entry i c (w ∷ vs) v h e = sym h.0 ∙ e

-- A frame whose only column holds doubles that stand for the numbers.
pub record ShowsNumbers (d : Doubles) (xs : List ℕ) (df : DataFrame) : Type 0 where
  pub valid : IsValid df
  pub col : Column
  pub only : df.columns ≡ col ∷ []
  pub typed : Column.get_type col ≡ b'F'
  pub shown : ColumnView.view col ≡ doubles d xs

module _ (d : Doubles) (exact : IsExact d) (xs : List ℕ) (df : DataFrame)
    (has : ShowsNumbers d xs df) where
  nrows-length : nrows df ≡ length xs
  unfolding nrows
  nrows-length =
      let sound : All ColumnView.IsValid (has.col ∷ []) =
        subst (All ColumnView.IsValid) has.only has.valid.sound in
      rw (has.only) (
        ColumnView.size-view has.col sound.0
        ∙ ap length has.shown
        ∙ length-map (λ x. float_value (some (d.of_int x))) xs)

  rectangular : FitsRows df
  unfolding nrows
  rectangular = record {
    even =
        subst
          (λ cs.
            All (λ c. Column.size c ≡ (elim cs [ [] ↦ df.schema.rows | c ∷ _ ↦ Column.size c ])) cs)
          (sym has.only) (refl, tt);
    room = rw (has.only) (omega arith);
  }

  -- The rower adds the row's number.
  accept_lem :
      (i : ℕ) (row : Row) (s x : ℕ)
      → Suits df row
      → Entries i df.columns row.values
      → get_elem? xs i ≡ some x
      → s + x ≤ exact_limit
      → (sum_rower d).accept row (d.of_int s) ≡ ok (true, d.of_int (s + x))
  unfolding sum_rower Row.col_type Row.get_double
  accept_lem i row s x suits entries e h =
      let entries' : Entries i (has.col ∷ []) row.values =
        subst (λ cs. Entries i cs row.values) has.only entries in
      let wide : row.width ≡ 1 = suits.wide ∙ ap length has.only in
      let types : row.types ≡ b'F' ∷ [] =
        suits.typed ∙ ap (map Column.get_type) has.only ∙ ap (λ t. t ∷ []) has.typed in
      let number : get_elem? (ColumnView.view has.col) i ≡ some (float_value (some (d.of_int x))) =
        rw (has.shown) (get_elem?-map (λ n. float_value (some (d.of_int n))) xs i x e) in
      let first : get_elem? row.values 0 ≡ some (float_value (some (d.of_int x))) =
        one_entry i has.col row.values (float_value (some (d.of_int x))) entries' number in
      rw (wide, types, first, exact.add_exact s x h)

  step_lem :
      (i : ℕ) (s x : ℕ)
      → get_elem? xs i ≡ some x
      → i < length xs
      → s + x ≤ exact_limit
      → pmap_step (sum_rower d) df i (d.of_int s) ≡ ok (d.of_int (s + x))
  unfolding pmap_step
  step_lem i s x e lt h =
      let (row, made, suits) = of_schema-Suits df has.valid rectangular.room in
      let rows : i < nrows df = rw nrows-length lt in
      let (vals, filled, entries) =
        fill_row-Entries df i row has.valid suits
          (longer (nrows df) i df.columns rectangular.even rows) in
      let full : Row = record row { values = vals; index = i } in
      let full_suits : Suits df full = record {
        wide = suits.wide;
        typed = suits.typed;
        filled = Entries-length i df.columns vals entries;
      } in
      rw (made, filled, accept_lem i full s x full_suits entries e h)

  -- A thread adds the numbers of its rows.
  pub helper_lem :
      (n i s : ℕ)
      → i + n ≤ length xs
      → s + sum (take n (drop i xs)) ≤ exact_limit
      → pmap_helper (sum_rower d) df n i (d.of_int s) ≡ ok (d.of_int (s + sum (take n (drop i xs))))
  unfolding pmap_helper sum
  helper_lem zero i s lt h = ap (λ k. ok (d.of_int k)) (omega arith)
  helper_lem (suc n) i s lt h =
      let (x, e) = get_elem?_lt xs i (omega arith) in
      let next = drop_next xs i x e in
      let bound : s + (x + sum (take n (drop (suc i) xs))) ≤ exact_limit = rw next at h in
      let one : suc i ≡ i + 1 = omega arith in
      let rest : pmap_helper (sum_rower d) df n (i + 1) (d.of_int (s + x))
          ≡ ok (d.of_int (s + (x + sum (take n (drop (suc i) xs))))) =
        subst
          (λ j.
            pmap_helper (sum_rower d) df n j (d.of_int (s + x))
            ≡ ok (d.of_int (s + (x + sum (take n (drop (suc i) xs))))))
          one
          (subst (λ k. pmap_helper (sum_rower d) df n (suc i) (d.of_int (s + x)) ≡ ok (d.of_int k))
            (omega arith) (helper_lem n (suc i) (s + x) (omega arith) (omega arith))) in
      rw (pmap_helper, step_lem i s x e (omega arith) (omega arith), next) rest

  whole_lem :
      (i s : ℕ)
      → i ≤ length xs
      → s + sum (drop i xs) ≤ exact_limit
      → pmap_helper (sum_rower d) df (nrows df - i) i (d.of_int s)
        ≡ ok (d.of_int (s + sum (drop i xs)))
  whole_lem i s lt h =
      let left : nrows df - i ≡ length (drop i xs) =
        omega (arith, nrows-length, length-drop i xs) in
      let all : take (nrows df - i) (drop i xs) ≡ drop i xs =
        ap (λ k. take k (drop i xs)) left ∙ take-length (drop i xs) in
      rw all at (helper_lem (nrows df - i) i s (omega (arith, nrows-length)) (rw all h))

  -- The threads from a row on, whose sums are joined to one that is there.
  threads_lem :
      (step left start s : ℕ)
      → start + left * step ≤ length xs
      → s + sum (drop start xs) ≤ exact_limit
      → run_threads (sum_rower d) df step left start (d.of_int 0) (d.of_int 0)
          >>= (λ st. ok (join_all (sum_rower d) st (d.of_int s)))
        ≡ ok (d.of_int (s + sum (drop start xs)))
  unfolding run_threads join_all sum_rower
  threads_lem step zero start s lt h = rw (whole_lem start 0 (omega arith) (omega arith)) (
      ap ok (exact.add_exact s (0 + sum (drop start xs)) (omega arith) ∙ ap d.of_int (omega arith)))
  threads_lem step (suc left) start s lt h =
      let mine = sum (take step (drop start xs)) in
      let parts : mine + sum (drop (start + step) xs) ≡ sum (drop start xs) =
        rw (drop-drop start step xs) (sum-take step (drop start xs)) in
      let room : start + step + left * step ≤ length xs = grind arith in
      let first = helper_lem step start 0 (omega arith) (omega arith) in
      let joined : d.add (d.of_int s) (d.of_int (0 + mine)) ≡ d.of_int (s + mine) =
        exact.add_exact s (0 + mine) (omega arith) ∙ ap d.of_int (omega arith) in
      let others =
        run_threads (sum_rower d) df step left (start + step) (d.of_int 0) (d.of_int 0) in
      rw first (
        bind_assoc others _ _
        ∙ rw joined (
            threads_lem step left (start + step) (s + mine) room (omega arith)
            ∙ ap (λ k. ok (d.of_int k)) (omega arith)))

  -- All the threads, the first of which works on the rower's own sum.
  all_threads_lem :
      (step left : ℕ)
      → suc left * step ≤ length xs
      → sum xs ≤ exact_limit
      → run_threads (sum_rower d) df step (suc left) 0 (d.of_int 0) (d.of_int 0)
          >>= (λ st. ok (join_threads (sum_rower d) (d.of_int 0) st))
        ≡ ok (d.of_int (sum xs))
  unfolding run_threads join_threads
  all_threads_lem step left lt h =
      let at_step : step ≡ 0 + step = omega arith in
      let parts : sum (take step xs) + sum (drop (0 + step) xs) ≡ sum xs =
        subst (λ k. sum (take step xs) + sum (drop k xs) ≡ sum xs) at_step (sum-take step xs) in
      let room : 0 + step + left * step ≤ length xs = grind arith in
      let first = helper_lem step 0 0 (omega arith) (omega arith) in
      let others = run_threads (sum_rower d) df step left (0 + step) (d.of_int 0) (d.of_int 0) in
      rw first (
        bind_assoc others _ _
        ∙ threads_lem step left (0 + step) (0 + sum (take step xs)) room (omega arith)
        ∙ ap (λ k. ok (d.of_int k)) (omega arith))

  -- All clones are made, with a sum of zero.
  clones_lem :
      (left i : ℕ) (c : Option ℕ)
      → make_clones (sum_rower d) (suc left) i (d.of_int 0) c ≡ ok (some (d.of_int 0))
  unfolding make_clones sum_rower
  clones_lem zero i c = refl
  clones_lem (suc left) i c = clones_lem left (i + 1) (some (d.of_int 0))

  -- Where the numbers' sum is within the limit, the threads of `pmap` find the double that stands
  -- for it.
  pub pmap-sum :
      sum xs ≤ exact_limit → DataFrame.pmap (sum_rower d) df (d.of_int 0) ≡ ok (d.of_int (sum xs))
  unfolding DataFrame.pmap sum_rower
  pmap-sum h = elim (Bool-cases (leb (nrows df / thread_rows) 1)) [
    | inl e ↦ rw (e) (
        map_rows-pmap_helper (sum_rower d) df has.valid rectangular (d.of_int 0)
        ∙ ap (λ k. pmap_helper (sum_rower d) df k 0 (d.of_int 0)) (omega arith)
        ∙ whole_lem 0 0 (omega arith) (omega arith)
        ∙ ap (λ k. ok (d.of_int k)) (omega arith))
    | inr e ↦
        let many : suc (thread_count (nrows df) - 2) ≡ thread_count (nrows df) - 1 =
          two_threads (nrows df) e in
        let bounds = (thread_bounds (nrows df)).0 in
        let cloned =
          subst (λ k. make_clones (sum_rower d) k 0 (d.of_int 0) none ≡ ok (some (d.of_int 0))) many
            (clones_lem (thread_count (nrows df) - 2) 0 none) in
        rw (e, cloned, ← many)
          (all_threads_lem (step_size (nrows df)) (thread_count (nrows df) - 2)
            (rw (many, ← nrows-length) bounds) h)
  ]
