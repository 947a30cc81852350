-- ===== src/WordCount/Files.antt =====
-- src/util/wordcount.cpp: a file is read on one node and counted on another. The frame arrives
-- without its names and its count of rows.
use cs4500project.NullableArray.View as ArrayView
use cs4500project.Column
use cs4500project.Column.View as ColumnView
use cs4500project.DataFrame
use cs4500project.NullableArray
use cs4500project.Prelude.{
  All, Bool, List, [], ap, arith, concat, if◌then◌else◌, map, none, ok, refl, some, true, ℕ, ◌%◌,
  ◌++◌, ◌+◌, ◌∙◌, ◌∷◌, ◌≡◌,
}
use cs4500project.Column.{Column, Value, string_column, string_value}
use cs4500project.DataFrame.{DataFrame, add_column, nrows}
use cs4500project.DataFrame.Codec.{unnamed}
use cs4500project.KvStore.{KvStore, NodeKey, find_other, get_local}
use cs4500project.KvStore.Arrays.{found_stored, from_values-stored, single, stored}
use cs4500project.NullableArray.{NullableArray}
use cs4500project.NullableArray.View.{Clean}
use cs4500project.Schema.{same_string}
use cs4500project.Serializable.{size_max}
use cs4500project.WordCount.{WordMap, count_words, read_in_file}
use cs4500project.WordCount.Counting.{count_of, occurrences, total}
use cs4500project.WordCount.Totals.{pmap-total}
use cs4500project.WordCount.Words.{IsUnbroken, IsWord, read_lines-spaced, spaced}

-- How often a word stands in a list of words.
unfoldable pub times : List ℕ → List (List ℕ) → ℕ
times w [] = 0
times w (x ∷ xs) = (if same_string w x then 1 else 0) + times w xs

abbrev words_of : List (List ℕ) → List Value
words_of ws = map (λ word. string_value (some word)) ws

occurrences-times : (w : List ℕ) (ws : List (List ℕ)) → occurrences w (words_of ws) ≡ times w ws
unfolding occurrences times
occurrences-times w [] = refl
occurrences-times w (x ∷ ws) = let rest = occurrences-times w ws in omega arith

words-typed : (ws : List (List ℕ)) → All (λ v. ColumnView.type_of v ≡ b'S') (words_of ws)
unfolding ColumnView.type_of
words-typed [] = tt
words-typed (x ∷ ws) = (refl, words-typed ws)

-- `_counter` on a frame with one column of words.
counter-times :
    (c : Column) (ws : List (List ℕ))
    → ColumnView.IsValid c
    → ColumnView.view c ≡ words_of ws
    → (m : WordMap) × (count_words (some (unnamed (single c))) ≡ ok m)
      × ((w : List ℕ) → count_of w m ≡ times w ws % size_max)
unfolding count_words total nrows add_column DataFrame.empty
counter-times c ws valid view =
    let df = unnamed (single c) in
    let (m, run, counts) =
      pmap-total df (record { typed = refl; counted = refl; sound = (valid, tt) })
        (record { even = (refl, tt); room = omega arith }) in
    (
      m,
      run,
      λ w.
          counts w
          ∙ ap (λ n. n % size_max)
              (ap (λ vs. occurrences w vs + 0) view
                ∙ (let e = occurrences-times w ws in omega arith)),
    )

-- Where the lines of a file, one after the other and without their ends, are words that are not
-- empty, each with a separator behind it, and then a rest without separators, and no other node
-- holds the key: the reader stores a frame under the key, the counter ends well on the frame that
-- arrives, and it counts each word as often as it stands among the words, as a `size_t`. The string
-- of types in a row has room for 15 characters, as in GNU's library.
pub count_words-read_in_file :
    (isspace : ℕ → Bool) (space : ℕ) (ws lines : List (List ℕ)) (rest : List ℕ) (s : KvStore)
    (key : NodeKey)
    → isspace space ≡ true
    → All (IsWord isspace) ws
    → IsUnbroken isspace rest
    → concat lines ≡ spaced space ws ++ rest
    → find_other key s.other_nodes ≡ none
    → (df : DataFrame) × (s' : KvStore) × (m : WordMap) × (read_in_file isspace s key lines
        ≡ ok (df, s'))
      × (get_local s' key ≡ some df)
      × (count_words (some (unnamed df)) ≡ ok m)
      × ((w : List ℕ) → count_of w m ≡ times w ws % size_max)
unfolding read_in_file Column.get_type ColumnView.view ColumnView.IsValid Clean NullableArray.empty
    ArrayView.view
count_words-read_in_file isspace space ws lines rest s key sep are_words unbroken e free =
    let read = read_lines-spaced isspace space ws lines rest sep are_words unbroken e in
    let (c, made, valid, typed, view) =
      from_values-stored s key (string_column NullableArray.empty) (words_of ws) tt refl
        (words-typed ws) free in
    let (m, run, counts) = counter-times c ws valid view in
    (single c, stored s key (single c), m, rw read made, found_stored s key (single c), run, counts)
