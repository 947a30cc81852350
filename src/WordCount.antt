-- ===== src/WordCount.antt =====
-- src/util/wordcount.cpp: the rower that counts words, and the reader that splits a file into
-- words. The map of words is an association list in the order of insertion; a count is a `size_t`,
-- which wraps. What `std::getline` returns and what `isspace` says are arguments.
pub mod Joining
pub mod Counting
pub mod Totals
pub mod Words
pub mod Files
use cs4500project.DataFrame
use cs4500project.KvStore.Arrays as KvStoreArrays
use cs4500project.NullableArray
use cs4500project.Row
use cs4500project.Schema
use cs4500project.Prelude.{
  Bool, List, Option, Run, [], assertion_failed, false, fault, if◌then◌else◌, length, map, none, ok,
  some, suc, true, zero, ℕ, ◌%◌, ◌&&◌, ◌++◌, ◌+◌, ◌==◌, ◌>>=◌, ◌>>◌, ◌∷◌,
}
use Prim.Native.Nat.{bit_xor}
use cs4500project.Column.{string_column, string_value}
use cs4500project.DataFrame.{DataFrame, Rower}
use cs4500project.KvStore.{KvStore, NodeKey}
use cs4500project.NullableArray.{NullableArray}
use cs4500project.Row.{Row}
use cs4500project.Schema.{Schema}
use cs4500project.Serializable.{size_max}

abbrev pub WordMap : Type 0
WordMap = List (List ℕ × ℕ)

-- `_word_map[word] += n` where the word is found, and an insertion where it is not; `++` is `n =
-- 1`.
unfoldable pub add_count : List ℕ → ℕ → WordMap → WordMap
add_count word n [] = (word, n) ∷ []
add_count word n ((w, k) ∷ m) =
    if Schema.same_string word w then (w, (k + n) % size_max) ∷ m else (w, k) ∷ add_count word n m

-- One round of `accept`.
unfoldable pub accept_at : Row → ℕ → WordMap → Run WordMap
unfolding add_count
accept_at r c m = do
  t ← Row.col_type r c
  if t == b'S'
      then (Row.get_string r c >>= λ maybe_str.
          ok (elim maybe_str [ none ↦ m | some word ↦ add_count word 1 m ]))
      else ok m

-- The loop of `accept`, over the columns still to be read.
unfoldable pub accept_from : Row → ℕ → ℕ → WordMap → Run WordMap
unfolding accept_at
accept_from r zero c m = ok m
accept_from r (suc left) c m = accept_at r c m >>= λ m'. accept_from r left (c + 1) m'

-- `join`, over the other rower's words.
unfoldable pub join_words : WordMap → WordMap → WordMap
unfolding add_count
join_words m [] = m
join_words m ((w, n) ∷ other) = join_words (add_count w n m) other

-- A clone starts without words.
unfoldable pub counter_rower : Rower WordMap
unfolding accept_from join_words
counter_rower = record {
  accept = λ r m. accept_from r r.width 0 m >>= λ m'. ok (true, m');
  join = join_words;
  clone = λ _. some [];
}

-- One character of a line: the words that are complete, and the word that is being read.
unfoldable pub read_char : (ℕ → Bool) → List (List ℕ) × List ℕ → ℕ → List (List ℕ) × List ℕ
read_char isspace (complete, word) c =
    if isspace c
    then (elim word [ [] ↦ (complete, []) | x ∷ xs ↦ (complete ++ (x ∷ xs) ∷ [], []) ])
    else (complete, word ++ c ∷ [])

unfoldable pub read_line : (ℕ → Bool) → List (List ℕ) × List ℕ → List ℕ → List (List ℕ) × List ℕ
unfolding read_char
read_line isspace st [] = st
read_line isspace st (c ∷ line) = read_line isspace (read_char isspace st c) line

-- The loop of `_read_in_file` over the lines, without their line ends.
unfoldable pub read_lines :
    (ℕ → Bool) → List (List ℕ) × List ℕ → List (List ℕ) → List (List ℕ) × List ℕ
unfolding read_line
read_lines isspace st [] = st
read_lines isspace st (line ∷ lines) = read_lines isspace (read_line isspace st line) lines

-- `_read_in_file`: the words that are complete make the only column of a frame, which the store
-- gets.
unfoldable pub read_in_file :
    (ℕ → Bool) → KvStore → NodeKey → List (List ℕ) → Run (DataFrame × KvStore)
unfolding read_lines
read_in_file isspace s key lines =
    KvStoreArrays.from_values s key (string_column NullableArray.empty)
      (map (λ word. string_value (some word)) (read_lines isspace ([], []) lines).0)

-- `_counter`, with what `get_or_wait` gives it.
unfoldable pub count_words : Option DataFrame → Run WordMap
count_words none = fault assertion_failed
count_words (some df) = DataFrame.pmap counter_rower df []

-- `operator==` of two unordered maps: as many words, and each with the same count.
unfoldable pub find_word : List ℕ → WordMap → Option ℕ
find_word word [] = none
find_word word ((w, k) ∷ m) = if Schema.same_string word w then some k else find_word word m

unfoldable pub has_all : WordMap → WordMap → Bool
unfolding find_word
has_all [] other = true
has_all ((w, k) ∷ m) other =
    (elim (find_word w other) [ none ↦ false | some n ↦ k == n ]) && has_all m other

-- `equals` of two rowers.
unfoldable pub equals : WordMap → WordMap → Bool
unfolding has_all
equals m other = (length m == length other) && has_all m other

-- The loop of `hash`, in which sums wrap.
unfoldable pub hash_from : ℕ → WordMap → ℕ
hash_from hash [] = hash
hash_from hash ((w, k) ∷ m) = hash_from ((hash + bit_xor k (length w)) % size_max) m

unfoldable pub hash : WordMap → ℕ
unfolding hash_from
hash m = hash_from (length m) m
