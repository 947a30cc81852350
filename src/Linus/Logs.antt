-- ===== src/Linus/Logs.antt =====
-- src/util/linus_rowers.cpp, the filters: the logs of the threads of `pmap` are together that of
-- one pass over the rows.
use cs4500project.Prelude.{
  none, >>=-ok, Bool, Bool-cases, List, Run, [], ap, append-nil, append_assoc, arith, concat,
  concat-map_snoc, fault, get_elem?, get_elem?_lt, inl, inr, leb, length, map, ok, refl, some,
  subst, suc, sym, take, take-length, take_next, true, ℕ, ◌++◌, ◌+◌, ◌-◌, ◌/◌, ◌>>=◌, ◌∙◌, ◌∷◌, ◌≡◌,
}
use cs4500project.Column.{Value, size}
use cs4500project.DataFrame.{
  make_clones, DataFrame, join_all, join_threads, map_rows, nrows, pmap, run_threads, step_size,
  thread_count, thread_rows,
}
use cs4500project.DataFrame.Pmap.{two_threads, make_clones-some, Joins, pmap-map_rows}
use cs4500project.DataFrame.Rounds.{FitsRows, bind_congr}
use cs4500project.DataFrame.Shape.{IsValid}
use cs4500project.DataFrame.Sweep.{Keeps, Shows, map_rows-Keeps}
use cs4500project.Linus.{filter, thread_logs}
use cs4500project.Row.{Row}

after_picks :
    (picked : Run (List Value)) (s t : List Value)
    → ◌>>=◌ {Y = Bool × List Value} picked (λ vs. ok (true, (s ++ t) ++ vs))
      ≡ ◌>>=◌ {Y = Bool × List Value}
          (◌>>=◌ {Y = Bool × List Value} picked (λ vs. ok (true, t ++ vs)))
          (λ a. ok (a.0, s ++ a.1))
after_picks (ok vs) s t =
    let pair : List Value → Run (Bool × List Value) = λ log. ok (true, log) in
    ap pair (append_assoc s t vs)
after_picks (fault f) s t = refl

unfoldable filter-Joins : (picks : Row → Run (List Value)) → Joins (filter picks)
unfolding filter
filter-Joins picks = record {
  accept_join = λ row s t. after_picks (picks row) s t;
  fresh = λ _. [];
  clone_eq = λ t. refl;
  join_clone = λ s t. append-nil s;
}

join_all-concat :
    (picks : Row → Run (List Value)) (logs : List (List Value)) (log : List Value)
    → join_all (filter picks) logs log ≡ log ++ concat logs
unfolding join_all filter
join_all-concat picks [] log = sym (append-nil log)
join_all-concat picks (x ∷ logs) log =
    join_all-concat picks logs (log ++ x) ∙ append_assoc log x (concat logs)

join_threads-concat :
    (picks : Row → Run (List Value)) (logs : List (List Value))
    → join_threads (filter picks) [] logs ≡ concat logs
unfolding join_threads
join_threads-concat picks [] = refl
join_threads-concat picks (log ∷ logs) = join_all-concat picks logs log

pmap-thread_logs :
    (picks : Row → Run (List Value)) (df : DataFrame)
    → pmap (filter picks) df [] ≡ thread_logs picks df >>= λ logs. ok (concat logs)
unfolding pmap thread_logs filter filter-Joins
pmap-thread_logs picks df = elim (Bool-cases (leb (nrows df / thread_rows) 1)) [
  | inl e ↦ rw (e) (one_log (map_rows (filter picks) df []))
  | inr e ↦
      let cloned =
        subst (λ k. make_clones (filter picks) k 0 [] none ≡ ok (some []))
          (two_threads (nrows df) e)
          (make_clones-some (filter picks) (filter-Joins picks) (thread_count (nrows df) - 2) 0 []
            none) in
      rw (e, cloned)
        (bind_congr
          (run_threads (filter picks) df (step_size (nrows df)) (thread_count (nrows df) - 1) 0 []
            [])
          _ _ (λ logs. ap ok (join_threads-concat picks logs)))
]
  where
    one_log :
        (run : Run (List Value))
        → run ≡ run >>= (λ log. ok (log ∷ [])) >>= (λ logs. ok (concat logs))
    one_log (ok log) = ap ok (sym (append-nil log))
    one_log (fault f) = refl

-- Where one pass over a well-formed frame whose columns have one length ends well, so do the
-- threads, and their logs, one after the other, are its log.
pub thread_logs-concat :
    (picks : Row → Run (List Value)) (df : DataFrame) (log : List Value)
    → IsValid df
    → FitsRows df
    → map_rows (filter picks) df [] ≡ ok log
    → (logs : List (List Value)) × (thread_logs picks df ≡ ok logs) × (concat logs ≡ log)
thread_logs-concat picks df log valid rect run =
    let joined : thread_logs picks df >>= (λ logs. ok (concat logs)) ≡ ok log =
      sym (pmap-thread_logs picks df)
      ∙ pmap-map_rows (filter picks) df [] (filter-Joins picks) valid rect
      ∙ run in
    let (logs, same, logged) = >>=-ok _ (thread_logs picks df) joined in
    (logs, logged, let whole : concat logs ≡ log = cc in whole)

-- What a pass writes where each row shows an item, and what it picks is known for each item.
module _ {X : Type 0} (picks : Row → Run (List Value)) (picked : X → List Value) (df : DataFrame)
    (items : List X) where
  -- The picks of a row are those of its item.
  abbrev pub Picks : Type 0
  Picks =
      (i : ℕ) (x : X) (row : Row)
      → get_elem? items i ≡ some x
      → Shows df i row
      → picks row ≡ ok (picked x)

  abbrev Logged : ℕ → List Value → Type 0
  Logged i log = log ≡ concat (map picked (take i items))

  filter-Keeps : nrows df ≡ length items → Picks → Keeps (filter picks) df Logged
  unfolding filter
  filter-Keeps size law i row log lt shows p =
      let (x, at) = get_elem?_lt items i (omega arith) in
      let one_more : suc i ≡ i + 1 = omega arith in
      (
        true,
        log ++ picked x,
        rw (law i x row at shows),
        subst (λ j. Logged j (log ++ picked x)) one_more
            (ap (λ l. l ++ picked x) p
              ∙ sym (concat-map_snoc picked (take i items) x)
              ∙ ap (λ xs. concat (map picked xs)) (sym (take_next items i x at))),
      )

  pub map_rows-filter :
      nrows df ≡ length items
      → IsValid df
      → FitsRows df
      → Picks
      → map_rows (filter picks) df [] ≡ ok (concat (map picked items))
  map_rows-filter size valid rect law =
      let (log, run, p) =
        map_rows-Keeps (filter picks) df Logged (filter-Keeps size law) valid rect [] refl in
      run
      ∙ ap ok (
          p
          ∙ ap (λ n. concat (map picked (take n items))) size
          ∙ ap (λ xs. concat (map picked xs)) (take-length items))
