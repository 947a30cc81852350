-- ===== src/Demo.antt =====
-- include/util/demo.h and src/util/demo.cpp: a producer stores many doubles and their sum, a
-- counter adds the doubles up again on another node, and a summarizer compares the two sums on a
-- third. What a `double` is and how it is added is a parameter.
pub mod Sums
pub mod Runs
use cs4500project.DataFrame
use cs4500project.Row
use cs4500project.Prelude.{
  Bool, List, Option, Run, [], if◌then◌else◌, none, ok, require, some, suc, true, zero, ℕ, ◌+◌,
  ◌==◌, ◌>>=◌, ◌>>◌, ◌∷◌,
}
use cs4500project.Column.{float_value}
use cs4500project.DataFrame.{DataFrame, Rower}
use cs4500project.KvStore.{KvStore, named_key}
use cs4500project.KvStore.Arrays.{from_array_double, from_scalar}
use cs4500project.Row.{Row}

-- The operations on doubles that the program uses, on the numbers of their eight bytes: the
-- conversion of a count, `+`, `-`, `<`, and the literal 0.001.
pub record Doubles : Type 0 where
  pub of_int : ℕ → ℕ
  pub add : ℕ → ℕ → ℕ
  pub subtract : ℕ → ℕ → ℕ
  pub less : ℕ → ℕ → Bool
  pub thousandth : ℕ

module _ (d : Doubles) where
  -- One round of `SumRower::accept`.
  unfoldable pub add_at : Row → ℕ → ℕ → Run ℕ
  add_at r c sum = do
    t ← Row.col_type r c
    if t == b'F'
        then (Row.get_double r c >>= λ x. ok (elim x [ none ↦ sum | some v ↦ d.add sum v ]))
        else ok sum

  -- The loop of `SumRower::accept`, over the columns still to be read.
  unfoldable pub add_from : Row → ℕ → ℕ → ℕ → Run ℕ
  unfolding add_at
  add_from r zero c sum = ok sum
  add_from r (suc left) c sum = add_at r c sum >>= λ sum'. add_from r left (c + 1) sum'

  unfoldable pub sum_rower : Rower ℕ
  unfolding add_from
  sum_rower = record {
    accept = λ r sum. add_from r r.width 0 sum >>= λ sum'. ok (true, sum');
    join = λ sum other. d.add sum other;
    clone = λ _. some (d.of_int 0);
  }

  -- The loop of `_producer`: the values from `i` on, and their sum.
  unfoldable pub fill_vals : ℕ → ℕ → ℕ → List ℕ × ℕ
  fill_vals zero i sum = ([], sum)
  fill_vals (suc left) i sum =
      let (vals, sum') = fill_vals left (i + 1) (d.add sum (d.of_int i)) in
      (d.of_int i ∷ vals, sum')

-- `SZ`
abbrev pub sz : ℕ
sz = 100000

-- `*df->get_double(col, row)`
unfoldable pub the_double : DataFrame → ℕ → ℕ → Run ℕ
the_double df col row = DataFrame.get_double df col row >>= λ x. require x

-- `_producer` with so many values: the two frames that it stores, and the store.
unfoldable pub produce : Doubles → ℕ → KvStore → Run (DataFrame × DataFrame × KvStore)
unfolding fill_vals the_double
produce d size s =
    let (vals, sum) = fill_vals d size 0 (d.of_int 0) in
    from_array_double s (named_key "main") vals >>= λ (df, s'). the_double df 0 100 >>= λ shown.
    from_scalar s' (named_key "check") (float_value (some sum)) >>= λ (check, s'').
    ok (df, check, s'')

unfoldable pub producer : Doubles → KvStore → Run (DataFrame × DataFrame × KvStore)
unfolding produce
producer d s = produce d sz s

-- `_counter`, with what `get_or_wait` gives it: `none` is the null pointer at the timeout, which is
-- used all the same.
unfoldable pub counter : Doubles → KvStore → Option DataFrame → Run (DataFrame × KvStore)
unfolding the_double
counter d s main = do
  df ← require main
  shown ← the_double df 0 100
  sum ← DataFrame.pmap (sum_rower d) df (d.of_int 0)
  from_scalar s (named_key "verify") (float_value (some sum))

-- `_summarizer`: whether it prints "Success".
unfoldable pub summarizer : Doubles → Option DataFrame → Option DataFrame → Run Bool
unfolding the_double
summarizer d verify check = do
  result ← require verify
  expected ← require check
  e ← the_double expected 0 0
  r ← the_double result 0 0
  ok (d.less (d.subtract e r) d.thousandth)
