-- ===== src/WordCount/Joining.antt =====
-- src/util/wordcount.cpp, `join`: the counts of rowers that worked on parts are those of one rower
-- that worked on all.
use cs4500project.DataFrame
use cs4500project.Row
use cs4500project.Prelude.{
  Bool, Bool-cases, List, Option, Run, [], ap, arith, false, fault, if◌then◌else◌, inl, inr, none,
  ok, refl, some, suc, sym, true, zero, ℕ, ◌%◌, ◌+◌, ◌==◌, ◌>>=◌, ◌||◌, ◌∙◌, ◌∷◌, ◌≡◌,
}
use cs4500project.DataFrame.{DataFrame}
use cs4500project.DataFrame.Pmap.{Joins, bind_push, pmap-map_rows}
use cs4500project.DataFrame.Rounds.{FitsRows, bind_assoc, bind_congr}
use cs4500project.DataFrame.Shape.{IsValid}
use cs4500project.Row.{Row}
use cs4500project.Schema.{same_string}
use cs4500project.Schema.Names.{same_string_iff, same_string_refl}
use cs4500project.Serializable.{size_max}
use cs4500project.WordCount.{WordMap, accept_at, accept_from, add_count, counter_rower, join_words}

-- The word has an entry.
has_word : List ℕ → WordMap → Bool
has_word word [] = false
has_word word ((w, k) ∷ m) = same_string word w || has_word word m

-- Every word has its own entry, so additions to a word that has one commute with all others.
add_count_comm :
    (w v : List ℕ) (n k : ℕ) (m : WordMap)
    → has_word w m ≡ true
    → add_count w n (add_count v k m) ≡ add_count v k (add_count w n m)
unfolding add_count has_word
add_count_comm w v n k [] h = absurd (ground arith)
add_count_comm w v n k ((x, c) ∷ m) h =
    let rest = add_count_comm w v n k m in
    elim (Bool-cases (same_string w x)) [
      | inl e ↦ elim (Bool-cases (same_string v x)) [
        | inl f ↦
            let sum : ((c + k) % size_max + n) % size_max ≡ ((c + n) % size_max + k) % size_max =
              omega arith in
            rw (e, f, e, sum)
        | inr f ↦ rw (e, f, add_count, e)
      ]
      | inr e ↦ elim (Bool-cases (same_string v x)) [
        | inl f ↦ rw (e, f, add_count, e)
        | inr f ↦ let old : has_word w m ≡ true = ground arith in rw (e, f, add_count, e, rest old)
      ]
    ]

has_word-add_count :
    (w v : List ℕ) (k : ℕ) (m : WordMap) → has_word w m ≡ true → has_word w (add_count v k m) ≡ true
unfolding add_count has_word
has_word-add_count w v k [] h = absurd (ground arith)
has_word-add_count w v k ((x, c) ∷ m) h = ground (arith, has_word-add_count w v k m)

has_word-add_count_self : (w : List ℕ) (k : ℕ) (m : WordMap) → has_word w (add_count w k m) ≡ true
unfolding add_count has_word
has_word-add_count_self w k [] = ground (arith, same_string_refl w)
has_word-add_count_self w k ((x, c) ∷ m) = ground (arith, has_word-add_count_self w k m)

-- To a word that the first map has, it is the same to add before and after joining.
add_count-join_old :
    (w : List ℕ) (n : ℕ) (s t : WordMap)
    → has_word w s ≡ true
    → add_count w n (join_words s t) ≡ join_words (add_count w n s) t
unfolding join_words
add_count-join_old w n s [] h = refl
add_count-join_old w n s ((v, k) ∷ t) h =
    add_count-join_old w n (add_count v k s) t (has_word-add_count w v k s h)
    ∙ ap (λ m. join_words m t) (add_count_comm w v n k s h)

-- Adding twice to one word adds the sum.
add_count_twice :
    (w : List ℕ) (n k : ℕ) (s : WordMap)
    → add_count w n (add_count w k s) ≡ add_count w ((k + n) % size_max) s
unfolding add_count
add_count_twice w n k [] = ground (arith, same_string_refl w)
add_count_twice w n k ((x, c) ∷ m) = elim (Bool-cases (same_string w x)) [
  | inl e ↦
      let sum : ((c + k) % size_max + n) % size_max ≡ (c + (k + n) % size_max) % size_max =
        omega arith in
      rw (e, add_count, e, sum)
  | inr e ↦ rw (e, add_count, e, add_count_twice w n k m)
]

-- A word that the second rower counts is counted by the first one after joining.
pub add_count-join :
    (w : List ℕ) (n : ℕ) (s t : WordMap)
    → add_count w n (join_words s t) ≡ join_words s (add_count w n t)
unfolding join_words add_count
add_count-join w n s [] = refl
add_count-join w n s ((v, k) ∷ t) = elim (Bool-cases (same_string w v)) [
  | inl e ↦
      let same : w ≡ v = (same_string_iff w v).0 e in
      rw (e) (
        add_count-join_old w n (add_count v k s) t (rw same (has_word-add_count_self v k s))
        ∙ ap (λ m. join_words m t) (rw same (add_count_twice v n k s)))
  | inr e ↦ rw (e) (add_count-join w n (add_count v k s) t)
]

after_type :
    (word : Run (Option (List ℕ))) (is_string : Bool) (s t : WordMap)
    → (if is_string
        then (word >>= λ maybe_str.
            ok (elim maybe_str [ none ↦ join_words s t | some w ↦ add_count w 1 (join_words s t) ]))
        else ok (join_words s t))
      ≡ (if is_string
          then (word >>= λ maybe_str. ok (elim maybe_str [ none ↦ t | some w ↦ add_count w 1 t ]))
          else ok t)
        >>= (λ m. ok (join_words s m))
after_type word false s t = refl
after_type (fault f) true s t = refl
after_type (ok none) true s t = refl
after_type (ok (some w)) true s t = ap ok (add_count-join w 1 s t)

accept_at-join :
    (r : Row) (c : ℕ) (s t : WordMap)
    → accept_at r c (join_words s t) ≡ accept_at r c t >>= (λ m. ok (join_words s m))
unfolding accept_at
accept_at-join r c s t =
    bind_push (Row.col_type r c) _ _ _ (λ typ. after_type (Row.get_string r c) (typ == b'S') s t)

accept_from-join :
    (r : Row) (left c : ℕ) (s t : WordMap)
    → accept_from r left c (join_words s t) ≡ accept_from r left c t >>= (λ m. ok (join_words s m))
unfolding accept_from
accept_from-join r zero c s t = refl
accept_from-join r (suc left) c s t =
    ap (λ (n : Run WordMap). n >>= accept_from r left (c + 1)) (accept_at-join r c s t)
    ∙ bind_assoc (accept_at r c t) _ _
    ∙ bind_congr (accept_at r c t) _ _ (λ m. accept_from-join r left (c + 1) s m)
    ∙ sym (bind_assoc (accept_at r c t) _ _)

-- The rower's clones can be joined.
pub counter_rower-Joins : Joins counter_rower
unfolding counter_rower join_words
counter_rower-Joins = record {
  accept_join = λ row s t.
      ap (λ (n : Run WordMap). n >>= (λ m. ok (true, m))) (accept_from-join row row.width 0 s t)
      ∙ bind_assoc (accept_from row row.width 0 t) _ _
      ∙ sym (bind_assoc (accept_from row row.width 0 t) _ _);
  fresh = λ _. [];
  clone_eq = λ t. refl;
  join_clone = λ s t. refl;
}

-- On a well-formed frame of at most 15 columns of one length, the threads of `pmap` count the words
-- as one rower does that reads the rows in order.
pub pmap-counter_rower :
    (df : DataFrame)
    → IsValid df
    → FitsRows df
    → DataFrame.pmap counter_rower df [] ≡ DataFrame.map_rows counter_rower df []
pmap-counter_rower df valid rect = pmap-map_rows counter_rower df [] counter_rower-Joins valid rect
