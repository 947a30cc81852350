-- ===== src/DataFrame/Pmap.antt =====
-- src/data/dataframe.cpp, `map` and `pmap`: splitting the rows among threads and joining what the
-- clones of the rower found gives what one pass over all rows gives.
use cs4500project.Row
use cs4500project.Prelude.{
  Option, none, some, Bool, Bool-cases, Run, ap, ap₂, arith, false, fault, inl, inr, leb, ok, refl,
  subst, suc, sym, zero, ℕ, ◌*◌, ◌+◌, ◌-◌, ◌/◌, ◌>>=◌, ◌∙◌, ◌≡◌, ◌≤◌,
}
use cs4500project.DataFrame.{
  make_clones, DataFrame, Rower, fill_row, join_all, join_threads, map_rows, max_threads, nrows,
  pmap, pmap_helper, pmap_step, run_threads, step_size, thread_count, thread_rows,
}
use cs4500project.DataFrame.Rounds.{FitsRows, bind_assoc, bind_congr, map_rows-pmap_helper}
use cs4500project.DataFrame.Shape.{IsValid}
use cs4500project.Row.{Row}

pub bind_push :
    {A B C : Type 0} (m : Run A) (f : A → Run C) (g : A → Run B) (h : B → Run C)
    → ((a : A) → f a ≡ g a >>= h)
    → m >>= f ≡ m >>= g >>= h
bind_push (ok a) f g h e = e a
bind_push (fault e) f g h _ = refl

elim_bind :
    {A B : Type 0} (m : Run A) (f : A → Run B)
    → (let y : Run B = elim m [ fault e ↦ fault e | ok a ↦ f a ] in y) ≡ m >>= f
elim_bind (ok a) f = refl
elim_bind (fault e) f = refl

module _ {S : Type 0} (r : Rower S) (df : DataFrame) where
  pmap_helper-suc :
      (a i : ℕ) (s : S)
      → pmap_helper r df (suc a) i s ≡ pmap_step r df i s >>= pmap_helper r df a (i + 1)
  unfolding pmap_helper
  pmap_helper-suc a i s = elim_bind (pmap_step r df i s) (pmap_helper r df a (i + 1))

  pmap_helper-zero : (i : ℕ) (s : S) → pmap_helper r df 0 i s ≡ ok s
  unfolding pmap_helper
  pmap_helper-zero i s = refl

  -- Two stretches of rows, one after the other.
  pmap_helper-add :
      (a b i : ℕ) (s : S)
      → pmap_helper r df (a + b) i s ≡ pmap_helper r df a i s >>= pmap_helper r df b (i + a)
  pmap_helper-add zero b i s =
      rw pmap_helper-zero (ap₂ (λ k j. pmap_helper r df k j s) (omega arith) (omega arith))
  pmap_helper-add (suc a) b i s =
      let e : suc a + b ≡ suc (a + b) = omega arith in
      let next : i + 1 + a ≡ i + suc a = omega arith in
      rw (e, pmap_helper-suc, pmap_helper-suc, bind_assoc)
        (bind_congr (pmap_step r df i s) _ _ (λ s'.
          subst
            (λ j.
              pmap_helper r df (a + b) (i + 1) s'
              ≡ pmap_helper r df a (i + 1) s' >>= pmap_helper r df b j)
            next (pmap_helper-add a b (i + 1) s')))

-- What a rower must satisfy for its clones' findings to be joined: accepting a row commutes with
-- joining on the left, a clone is made, and a fresh clone adds nothing.
pub record Joins {S : Type 0} (r : Rower S) : Type 0 where
  pub accept_join :
      (row : Row) (s t : S)
      → r.accept row (r.join s t) ≡ r.accept row t >>= λ a. ok (a.0, r.join s a.1)
  pub fresh : S → S
  pub clone_eq : (t : S) → r.clone t ≡ some (fresh t)
  pub join_clone : (s t : S) → r.join s (fresh t) ≡ s

module _ {S : Type 0} (r : Rower S) (df : DataFrame) (law : Joins r) where
  accept-join :
      (row : Row) (s t : S) (m : Run (Bool × S))
      → ◌>>=◌ {Y = Bool × S} m (λ a. ok (a.0, r.join s a.1)) >>= (λ a. ok a.1)
        ≡ (m >>= λ a. ok a.1) >>= (λ t'. ok (r.join s t'))
  accept-join row s t (ok a) = refl
  accept-join row s t (fault e) = refl

  pmap_step-join :
      (i : ℕ) (s t : S)
      → pmap_step r df i (r.join s t) ≡ pmap_step r df i t >>= (λ t'. ok (r.join s t'))
  unfolding pmap_step
  pmap_step-join i s t = bind_push (Row.of_schema df.schema) _ _ _ λ row.
      bind_push (fill_row df i row) _ _ _
        λ row'. rw (law.accept_join row' s t) (accept-join row' s t (r.accept row' t))

  pmap_helper-join :
      (n i : ℕ) (s t : S)
      → pmap_helper r df n i (r.join s t) ≡ pmap_helper r df n i t >>= λ t'. ok (r.join s t')
  pmap_helper-join zero i s t = rw (pmap_helper-zero, pmap_helper-zero)
  pmap_helper-join (suc n) i s t =
      rw (pmap_helper-suc, pmap_helper-suc, pmap_step-join, bind_assoc, bind_assoc)
        (bind_congr (pmap_step r df i t) _ _ (λ t'. pmap_helper-join n (i + 1) s t'))

  -- The threads behind the first, joined to the state `s`.
  run_threads-join :
      (step left start : ℕ) (own base s : S)
      → left * step ≤ nrows df - start
      → run_threads r df step left start own (law.fresh base) >>= (λ st. ok (join_all r st s))
        ≡ pmap_helper r df (nrows df - start) start (r.join s own)
  unfolding run_threads join_all
  run_threads-join step zero start own base s h =
      bind_assoc (pmap_helper r df (nrows df - start) start own) _ _
      ∙ sym (pmap_helper-join (nrows df - start) start s own)
  run_threads-join step (suc left) start own base s h =
      let first = pmap_helper r df step start own in
      let size : nrows df - start ≡ step + (nrows df - (start + step)) = omega arith in
      bind_assoc first _ _
      ∙ bind_congr first _
          (λ s₁. pmap_helper r df (nrows df - (start + step)) (start + step) (r.join s s₁))
          (λ s₁.
            bind_assoc (run_threads r df step left (start + step) (law.fresh base) (law.fresh base))
              _ _
            ∙ run_threads-join step left (start + step) (law.fresh base) base (r.join s s₁)
                (omega arith)
            ∙ ap (pmap_helper r df (nrows df - (start + step)) (start + step))
                (law.join_clone (r.join s s₁) base))
      ∙ sym (
          ap (λ k. pmap_helper r df k start (r.join s own)) size
          ∙ pmap_helper-add r df step (nrows df - (start + step)) start (r.join s own)
          ∙ rw (pmap_helper-join step start s own) (bind_assoc first _ _))

  -- All the threads, the first of which works on the rower's own state.
  run_threads-finish :
      (step left : ℕ) (s : S)
      → suc left * step ≤ nrows df
      → run_threads r df step (suc left) 0 s (law.fresh s) >>= (λ st. ok (join_threads r s st))
        ≡ pmap_helper r df (nrows df) 0 s
  unfolding run_threads join_threads
  run_threads-finish step left s h =
      let first = pmap_helper r df step 0 s in
      let size : nrows df ≡ step + (nrows df - (0 + step)) = omega arith in
      bind_assoc first _ _
      ∙ bind_congr first _ (pmap_helper r df (nrows df - (0 + step)) (0 + step)) (λ s₁.
        bind_assoc (run_threads r df step left (0 + step) (law.fresh s) (law.fresh s)) _ _
        ∙ run_threads-join step left (0 + step) (law.fresh s) s s₁ (omega arith)
        ∙ ap (pmap_helper r df (nrows df - (0 + step)) (0 + step)) (law.join_clone s₁ s))
      ∙ sym (
          ap (λ k. pmap_helper r df k 0 s) size
          ∙ pmap_helper-add r df step (nrows df - (0 + step)) 0 s)

-- All clones are made.
pub make_clones-some :
    {S : Type 0} (r : Rower S) (law : Joins r) (left i : ℕ) (s : S) (c : Option S)
    → make_clones r (suc left) i s c ≡ ok (some (law.fresh s))
unfolding make_clones
make_clones-some r law zero i s c = rw (make_clones, law.clone_eq s)
make_clones-some r law (suc left) i s c =
    rw (law.clone_eq s, make_clones) (make_clones-some r law left (i + 1) s (some (law.fresh s)))

-- The threads but the last take no more rows than there are, and there are at most eight threads.
pub thread_bounds :
    (rows : ℕ)
    → ((thread_count rows - 1) * step_size rows ≤ rows) × (thread_count rows ≤ max_threads)
unfolding thread_count step_size
thread_bounds rows = (grind arith, grind arith)

pub two_threads :
    (rows : ℕ)
    → leb (rows / thread_rows) 1 ≡ false
    → suc (thread_count rows - 2) ≡ thread_count rows - 1
unfolding thread_count
two_threads rows h = ground arith

-- On a well-formed frame whose columns have one length and are at most 15, `pmap` ends as `map`
-- does, in the same state or in the same fault, for every rower that can be cloned and whose states
-- can be joined. The string of types in a row has room for 15 characters, as in GNU's library.
pub pmap-map_rows :
    {S : Type 0} (r : Rower S) (df : DataFrame) (s : S)
    → Joins r
    → IsValid df
    → FitsRows df
    → pmap r df s ≡ map_rows r df s
unfolding pmap
pmap-map_rows r df s law valid fits =
    let rows = nrows df in
    elim (Bool-cases (leb (rows / thread_rows) 1)) [
      | inl e ↦ rw e
      | inr e ↦
          let many : suc (thread_count rows - 2) ≡ thread_count rows - 1 = two_threads rows e in
          let cloned =
            subst (λ k. make_clones r k 0 s none ≡ ok (some (law.fresh s))) many
              (make_clones-some r law (thread_count rows - 2) 0 s none) in
          rw (e, cloned, ← many)
            (run_threads-finish r df law (step_size rows) (thread_count rows - 2) s
                (rw many (thread_bounds rows).0)
              ∙ sym (map_rows-pmap_helper r df valid fits s))
    ]
