-- ===== src/Demo/Runs.antt =====
-- src/util/demo.cpp: the three nodes of the demonstration, one after the other. A frame that goes
-- from one node to another arrives without its names and its count of rows.
use cs4500project.NullableArray.View as ArrayView
use cs4500project.Column
use cs4500project.Column.View as ColumnView
use cs4500project.DataFrame
use cs4500project.NullableArray
use cs4500project.Prelude.{
  >>=-ok, All, List, [], ap, arith, get_elem?, get_elem?_lt, length, map, none, ok, refl, some,
  subst, suc, true, zero, ℕ, ◌*◌, ◌+◌, ◌<◌, ◌∙◌, ◌∷◌, ◌≡◌, ◌≤◌,
}
use cs4500project.Column.{
  Column, as_float, bool_column, float_column, float_value, int_column, string_column,
}
use cs4500project.DataFrame.{DataFrame, add_column}
use cs4500project.DataFrame.Codec.{unnamed}
use cs4500project.DataFrame.Shape.{get_elem?-map}
use cs4500project.Demo.{Doubles, counter, fill_vals, produce, producer, summarizer, sz, the_double}
use cs4500project.Demo.Sums.{IsExact, ShowsNumbers, doubles, exact_limit, pmap-sum, sum}
use cs4500project.KvStore.{KvStore, NodeKey, find_other, get_local, named_key, same_key}
use cs4500project.KvStore.Arrays.{
  found_before, found_stored, from_array_double, from_scalar, from_values, from_values-stored,
  single, single-IsValid, stored,
}
use cs4500project.NullableArray.{NullableArray}
use cs4500project.NullableArray.View.{Clean}

-- The numbers from one on.
unfoldable pub numbers : ℕ → ℕ → List ℕ
numbers zero i = []
numbers (suc left) i = i ∷ numbers left (i + 1)

numbers-length : (n i : ℕ) → length (numbers n i) ≡ n
unfolding numbers
numbers-length zero i = refl
numbers-length (suc n) i = ap suc (numbers-length n (i + 1))

-- Each number is less than all of them and the first together.
sum-numbers-le : (n i : ℕ) → sum (numbers n i) ≤ n * (i + n)
unfolding sum numbers
sum-numbers-le zero i = omega arith
sum-numbers-le (suc n) i = let rest = sum-numbers-le n (i + 1) in grind arith

fill_vals_lem :
    (d : Doubles) (n i s : ℕ)
    → IsExact d
    → s + sum (numbers n i) ≤ exact_limit
    → fill_vals d n i (d.of_int s)
      ≡ (map (λ x. d.of_int x) (numbers n i), d.of_int (s + sum (numbers n i)))
unfolding fill_vals sum numbers
fill_vals_lem d zero i s exact h = ap (λ k. ([], d.of_int k)) (omega arith)
fill_vals_lem d (suc n) i s exact h =
    let rest = fill_vals_lem d n (i + 1) (s + i) exact (omega arith) in
    rw (exact.add_exact s i (omega arith), rest)
      (ap (λ k. (d.of_int i ∷ map (λ x. d.of_int x) (numbers n (i + 1)), d.of_int k)) (omega arith))

float_lem :
    (df : DataFrame) (c : Column) (row x : ℕ)
    → df.columns ≡ c ∷ []
    → Column.get_type c ≡ b'F'
    → Column.get c row ≡ ok (float_value (some x))
    → the_double df 0 row ≡ ok x
unfolding the_double DataFrame.get_double Column.get_type Column.get as_float
float_lem df (int_column a) row x only typed e = absurd (omega arith)
float_lem df (bool_column a) row x only typed e = absurd (omega arith)
float_lem df (string_column a) row x only typed e = absurd (omega arith)
float_lem df (float_column a) row x only typed e =
    let (v, made, got) = >>=-ok (λ v. ok (float_value v)) (NullableArray.get a row) e in
    let same : v ≡ some x = ground arith in rw (only, got, same)

doubles-typed : (d : Doubles) (xs : List ℕ) → All (λ v. ColumnView.type_of v ≡ b'F') (doubles d xs)
unfolding ColumnView.type_of
doubles-typed d [] = tt
doubles-typed d (x ∷ xs) = (refl, doubles-typed d xs)

module _ (d : Doubles) where
  -- The value that stands in a row of the frame's only column.
  the_double_lem :
      (xs : List ℕ) (df : DataFrame) (row x : ℕ)
      → ShowsNumbers d xs df
      → get_elem? xs row ≡ some x
      → the_double df 0 row ≡ ok (d.of_int x)
  unfolding the_double DataFrame.get_double
  the_double_lem xs df row x has e =
      let sound : All ColumnView.IsValid (has.col ∷ []) =
        subst (All ColumnView.IsValid) has.only has.valid.sound in
      let number : get_elem? (ColumnView.view has.col) row
          ≡ some (float_value (some (d.of_int x))) =
        rw (has.shown) (get_elem?-map (λ n. float_value (some (d.of_int n))) xs row x e) in
      float_lem df has.col row (d.of_int x) has.only has.typed
        (ColumnView.get_column-view has.col row sound.0 ∙ rw number)

  -- What `from_array` and `from_scalar` make of doubles: a frame that shows them, in the store too.
  stores_lem :
      (s : KvStore) (k : NodeKey) (xs : List ℕ)
      → find_other k s.other_nodes ≡ none
      → (df : DataFrame) × (from_values s k (float_column NullableArray.empty) (doubles d xs)
          ≡ ok (df, stored s k df))
        × ShowsNumbers d xs df
  unfolding Column.get_type ColumnView.view ColumnView.IsValid Clean NullableArray.empty add_column
      DataFrame.empty ArrayView.view
  stores_lem s k xs o =
      let (c, made, valid, typed, shown) =
        from_values-stored s k (float_column NullableArray.empty) (doubles d xs) tt refl
          (doubles-typed d xs) o in
      (
        single c,
        made,
        record {
          valid = single-IsValid c valid;
          col = c;
          only = refl;
          typed = typed;
          shown = shown;
        },
      )

  -- On another node the frame shows the same numbers.
  ShowsNumbers-unnamed :
      (xs : List ℕ) (df : DataFrame) → ShowsNumbers d xs df → ShowsNumbers d xs (unnamed df)
  ShowsNumbers-unnamed xs df has = record {
    valid = record { typed = refl; counted = refl; sound = has.valid.sound };
    col = has.col;
    only = has.only;
    typed = has.typed;
    shown = has.shown;
  }

doubles-map :
    (d : Doubles) (xs : List ℕ)
    → map (λ x. float_value (some x)) (map (λ x. d.of_int x) xs) ≡ doubles d xs
doubles-map d [] = refl
doubles-map d (x ∷ xs) = ap (◌∷◌ (float_value (some (d.of_int x)))) (doubles-map d xs)

module _ (d : Doubles) (exact : IsExact d) where
  abbrev total : ℕ → ℕ
  total n = sum (numbers n 0)

  -- The producer's frames show the numbers and their sum, and its store keeps both.
  produce_lem :
      (n : ℕ) (s : KvStore)
      → 100 < n
      → total n ≤ exact_limit
      → find_other (named_key "main") s.other_nodes ≡ none
      → find_other (named_key "check") s.other_nodes ≡ none
      → (main : DataFrame) × (check : DataFrame) × (s' : KvStore) × (produce d n s
          ≡ ok (main, check, s'))
        × ShowsNumbers d (numbers n 0) main
        × ShowsNumbers d (total n ∷ []) check
        × (get_local s' (named_key "main") ≡ some main)
        × (get_local s' (named_key "check") ≡ some check)
  unfolding produce from_array_double from_scalar same_key
  produce_lem n s many small free free' =
      let filled = fill_vals_lem d n 0 0 exact (omega arith) in
      let (main, made, shows) = stores_lem d s (named_key "main") (numbers n 0) free in
      let (check, made', shows') =
        stores_lem d (stored s (named_key "main") main) (named_key "check") (total n ∷ []) free' in
      let (x, at) = get_elem?_lt (numbers n 0) 100 (omega (arith, numbers-length n 0)) in
      let read = the_double_lem d (numbers n 0) main 100 x shows at in
      let zero_sum : d.of_int (0 + total n) ≡ d.of_int (total n) = ap d.of_int (omega arith) in
      (
        main,
        check,
        stored (stored s (named_key "main") main) (named_key "check") check,
        rw (filled, doubles-map d (numbers n 0), made, read, zero_sum, made'),
        shows,
        shows',
        found_before (stored s (named_key "main") main) (named_key "check") (named_key "main") check
              refl
            ∙ found_stored s (named_key "main") main,
        found_stored (stored s (named_key "main") main) (named_key "check") check,
      )

  -- The counter finds the same sum, on a frame that shows the same numbers.
  counter_lem :
      (n : ℕ) (s : KvStore) (main : DataFrame)
      → 100 < n
      → total n ≤ exact_limit
      → ShowsNumbers d (numbers n 0) main
      → find_other (named_key "verify") s.other_nodes ≡ none
      → (verify : DataFrame) × (s' : KvStore) × (counter d s (some main) ≡ ok (verify, s'))
        × ShowsNumbers d (total n ∷ []) verify
        × (get_local s' (named_key "verify") ≡ some verify)
  unfolding counter from_scalar
  counter_lem n s main many small shows free =
      let (verify, made, shows') = stores_lem d s (named_key "verify") (total n ∷ []) free in
      let (x, at) = get_elem?_lt (numbers n 0) 100 (omega (arith, numbers-length n 0)) in
      let read = the_double_lem d (numbers n 0) main 100 x shows at in
      (
        verify,
        stored s (named_key "verify") verify,
        rw (read, pmap-sum d exact (numbers n 0) main shows small, made),
        shows',
        found_stored s (named_key "verify") verify,
      )

  summarizer_lem :
      (t : ℕ) (verify check : DataFrame)
      → t ≤ exact_limit
      → ShowsNumbers d (t ∷ []) verify
      → ShowsNumbers d (t ∷ []) check
      → summarizer d (some verify) (some check) ≡ ok true
  unfolding summarizer
  summarizer_lem t verify check small shows shows' = rw (
    the_double_lem d (t ∷ []) check 0 t shows' refl,
    the_double_lem d (t ∷ []) verify 0 t shows refl,
    exact.same_less t small,
  )

-- Where no other node holds the three keys, and whole numbers up to 2 ^ 53 are added exactly: the
-- producer and the counter end well and keep their frames under the keys, and from the frames that
-- arrive on the other nodes, without names and counts of rows, the counter's threads find a sum
-- with which the summarizer prints "Success". The string of types in a row has room for 15
-- characters, as in GNU's library.
pub summarizer-success :
    (d : Doubles) (s₁ s₂ : KvStore)
    → IsExact d
    → find_other (named_key "main") s₁.other_nodes ≡ none
    → find_other (named_key "check") s₁.other_nodes ≡ none
    → find_other (named_key "verify") s₂.other_nodes ≡ none
    → (main : DataFrame) × (check : DataFrame) × (verify : DataFrame) × (s₁' : KvStore)
      × (s₂' : KvStore) × (producer d s₁ ≡ ok (main, check, s₁'))
      × (get_local s₁' (named_key "main") ≡ some main)
      × (get_local s₁' (named_key "check") ≡ some check)
      × (counter d s₂ (some (unnamed main)) ≡ ok (verify, s₂'))
      × (get_local s₂' (named_key "verify") ≡ some verify)
      × (summarizer d (some (unnamed verify)) (some (unnamed check)) ≡ ok true)
unfolding producer
summarizer-success d s₁ s₂ exact free free' free'' =
    let small : sum (numbers sz 0) ≤ exact_limit = omega (arith, sum-numbers-le sz 0) in
    let (main, check, s₁', made, shows, shows', found, found') =
      produce_lem d exact sz s₁ (omega arith) small free free' in
    let (verify, s₂', made', shows'', found'') =
      counter_lem d exact sz s₂ (unnamed main) (omega arith) small
        (ShowsNumbers-unnamed d (numbers sz 0) main shows) free'' in
    (
      main,
      check,
      verify,
      s₁',
      s₂',
      made,
      found,
      found',
      made',
      found'',
      summarizer_lem d exact (sum (numbers sz 0)) (unnamed verify) (unnamed check) small
          (ShowsNumbers-unnamed d (sum (numbers sz 0) ∷ []) verify shows'')
          (ShowsNumbers-unnamed d (sum (numbers sz 0) ∷ []) check shows'),
    )
