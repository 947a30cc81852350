-- ===== src/Examples/Sums.antt =====
-- The demonstration, with whole numbers for doubles and two stores that are empty.
use cs4500project.KvStore
use cs4500project.Prelude.{arith, ltb, lt→ltb, ok, refl, some, true, ◌+◌, ◌-◌, ◌≡◌}
use cs4500project.DataFrame.{DataFrame}
use cs4500project.DataFrame.Codec.{unnamed}
use cs4500project.Demo.{Doubles, counter, producer, summarizer}
use cs4500project.Demo.Runs.{summarizer-success}
use cs4500project.Demo.Sums.{IsExact}
use cs4500project.KvStore.{KvStore, find_other, get_local, named_key}

abbrev whole_numbers : Doubles
whole_numbers = record {
  of_int = λ n. n;
  add = λ m n. m + n;
  subtract = λ m n. m - n;
  less = ltb;
  thousandth = 1;
}

whole_numbers-IsExact : IsExact whole_numbers
whole_numbers-IsExact = record {
  add_exact = λ m n h. refl;
  same_less = λ n h. lt→ltb (n - n) 1 (omega arith);
}

summarizer-success_example :
    (main : DataFrame) × (check : DataFrame) × (verify : DataFrame) × (s₁' : KvStore)
    × (s₂' : KvStore) × (producer whole_numbers KvStore.empty ≡ ok (main, check, s₁'))
    × (get_local s₁' (named_key "main") ≡ some main)
    × (get_local s₁' (named_key "check") ≡ some check)
    × (counter whole_numbers KvStore.empty (some (unnamed main)) ≡ ok (verify, s₂'))
    × (get_local s₂' (named_key "verify") ≡ some verify)
    × (summarizer whole_numbers (some (unnamed verify)) (some (unnamed check)) ≡ ok true)
unfolding KvStore.empty find_other
summarizer-success_example =
    summarizer-success whole_numbers KvStore.empty KvStore.empty whole_numbers-IsExact refl refl
      refl
