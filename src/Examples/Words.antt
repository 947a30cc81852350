-- ===== src/Examples/Words.antt =====
-- The counting of words, applied to a small frame and to a few lines.
use cs4500project.Column
use cs4500project.DataFrame
use cs4500project.KvStore
use cs4500project.NullableArray
use cs4500project.Prelude.{arith, Bool, List, [], ok, refl, some, ℕ, ◌%◌, ◌==◌, ◌∷◌, ◌≡◌}
use cs4500project.Column.{Column}
use cs4500project.DataFrame.{DataFrame}
use cs4500project.DataFrame.Codec.{unnamed}
use cs4500project.DataFrame.Rounds.{FitsRows}
use cs4500project.Examples.{two_columns, two_columns-IsValid}
use cs4500project.KvStore.{KvStore, find_other, get_local, named_key}
use cs4500project.NullableArray.{NullableArray}
use cs4500project.Serializable.{size_max}
use cs4500project.WordCount.{WordMap, count_words, counter_rower, read_in_file, read_lines}
use cs4500project.WordCount.Counting.{count_of, total}
use cs4500project.WordCount.Files.{count_words-read_in_file, times}
use cs4500project.WordCount.Totals.{pmap-total}
use cs4500project.WordCount.Words.{read_lines-spaced, spaced}

two_columns-FitsRows : FitsRows two_columns
unfolding Column.size NullableArray.size DataFrame.nrows
two_columns-FitsRows = record { even = (refl, (refl, tt)); room = omega arith }

pmap-total_example :
    (m : WordMap) × (DataFrame.pmap counter_rower two_columns [] ≡ ok m)
    × ((w : List ℕ) → count_of w m ≡ total w two_columns.columns % size_max)
pmap-total_example = pmap-total two_columns two_columns-IsValid two_columns-FitsRows

abbrev is_blank : ℕ → Bool
is_blank c = c == 32

-- "hi a" and "b c", where the line ends in the middle of what is read as one word.
abbrev two_lines : List (List ℕ)
two_lines = (b'h' ∷ b'i' ∷ 32 ∷ b'a' ∷ []) ∷ (b'b' ∷ 32 ∷ b'c' ∷ []) ∷ []

read_lines-spaced_example :
    read_lines is_blank ([], []) two_lines
    ≡ ((b'h' ∷ b'i' ∷ []) ∷ (b'a' ∷ b'b' ∷ []) ∷ [], b'c' ∷ [])
unfolding spaced
read_lines-spaced_example =
    read_lines-spaced is_blank 32 ((b'h' ∷ b'i' ∷ []) ∷ (b'a' ∷ b'b' ∷ []) ∷ []) two_lines
      (b'c' ∷ []) refl ((refl, (refl, tt)), ((refl, (refl, tt)), tt)) (refl, tt) refl

count_words-read_in_file_example :
    (df : DataFrame) × (s' : KvStore) × (m : WordMap) × (read_in_file is_blank KvStore.empty
        (named_key "wc_df")
        two_lines
      ≡ ok (df, s'))
    × (get_local s' (named_key "wc_df") ≡ some df)
    × (count_words (some (unnamed df)) ≡ ok m)
    × ((w : List ℕ)
        → count_of w m ≡ times w ((b'h' ∷ b'i' ∷ []) ∷ (b'a' ∷ b'b' ∷ []) ∷ []) % size_max)
unfolding spaced KvStore.empty find_other
count_words-read_in_file_example =
    count_words-read_in_file is_blank 32 ((b'h' ∷ b'i' ∷ []) ∷ (b'a' ∷ b'b' ∷ []) ∷ []) two_lines
      (b'c' ∷ []) KvStore.empty (named_key "wc_df") refl
      ((refl, (refl, tt)), ((refl, (refl, tt)), tt)) (refl, tt) refl refl
