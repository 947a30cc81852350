-- ===== src/WordCount/Counting.antt =====
-- src/util/wordcount.cpp, `CounterRower`: what the rower's map says of each word after a frame has
-- been read.
use cs4500project.Column.View as ColumnView
use cs4500project.Row
use cs4500project.Prelude.{
  Bool-cases, List, [], ap, append_assoc, arith, false, get_elem?, get_elem?_append, if◌then◌else◌,
  inl, inr, length, length-append, lt→ltb, map, none, ok, refl, some, sym, true, ℕ, ◌%◌, ◌++◌, ◌+◌,
  ◌<◌, ◌∙◌, ◌∷◌, ◌≡◌,
}
use cs4500project.Column.{Column, Value, bool_value, float_value, int_value, string_value}
use cs4500project.DataFrame.Shape.{get_elem?-map}
use cs4500project.Row.{Row}
use cs4500project.Schema.{same_string}
use cs4500project.Schema.Names.{same_string_iff}
use cs4500project.Serializable.{size_max}
use cs4500project.WordCount.{WordMap, accept_at, accept_from, add_count}

-- What the map says of a word; a word without an entry counts zero.
unfoldable pub count_of : List ℕ → WordMap → ℕ
count_of word [] = 0
count_of word ((w, k) ∷ m) = if same_string word w then k else count_of word m

-- How often a word stands in a list of values, such as a row or a column.
unfoldable pub is_word : List ℕ → Value → ℕ
is_word word (string_value (some w)) = if same_string word w then 1 else 0
is_word word _ = 0

unfoldable pub occurrences : List ℕ → List Value → ℕ
unfolding is_word
occurrences word [] = 0
occurrences word (v ∷ vs) = is_word word v + occurrences word vs

-- Its occurrences in all the columns of a frame.
unfoldable pub total : List ℕ → List Column → ℕ
unfolding occurrences
total word [] = 0
total word (c ∷ cs) = occurrences word (ColumnView.view c) + total word cs

differs :
    (w v x : List ℕ) → same_string w x ≡ true → same_string v x ≡ false → same_string w v ≡ false
differs w v x f e = elim (Bool-cases (same_string w v)) [
  | inl g ↦
      let p : v ≡ x = sym ((same_string_iff w v).0 g) ∙ (same_string_iff w x).0 f in
      let q = (same_string_iff v x).1 p in cc
  | inr g ↦ g
]

count_of-add_count :
    (w v : List ℕ) (n : ℕ) (m : WordMap)
    → n < size_max
    → (count_of w m < size_max)
    → count_of w (add_count v n m)
      ≡ (if same_string w v then (count_of w m + n) % size_max else count_of w m)
unfolding count_of add_count
count_of-add_count w v n [] h l = elim (Bool-cases (same_string w v)) [
  | inl e ↦ let p : n ≡ (0 + n) % size_max = omega arith in rw (e) p
  | inr e ↦ rw (e)
]
count_of-add_count w v n ((x, c) ∷ m) h l = elim (Bool-cases (same_string v x)) [
  | inl e ↦
      let same : v ≡ x = (same_string_iff v x).0 e in
      elim (Bool-cases (same_string w x)) [ inl f ↦ rw (e, same, f) | inr f ↦ rw (e, same, f) ]
  | inr e ↦ elim (Bool-cases (same_string w x)) [
    | inl f ↦ let other = differs w v x f e in rw (e, f, other)
    | inr f ↦
        let small : count_of w m < size_max = rw f at l in
        rw (e, f, count_of-add_count w v n m h small)
  ]
]

-- No count is wider than a `size_t`.
abbrev pub IsSmall : WordMap → Type 0
IsSmall m = (w : List ℕ) → count_of w m < size_max

-- The counts grow by the words of the values, as `size_t`.
abbrev Counts : WordMap → List Value → WordMap → Type 0
Counts m vs m' = (w : List ℕ) → count_of w m' ≡ (count_of w m + occurrences w vs) % size_max

-- One round of `accept` counts the value, if it is a word.
accept_at-Counts :
    (r : Row) (c : ℕ) (v : Value) (m : WordMap)
    → c < r.width
    → get_elem? r.types c ≡ some (ColumnView.type_of v)
    → get_elem? r.values c ≡ some v
    → IsSmall m
    → (m' : WordMap) × (accept_at r c m ≡ ok m') × Counts m (v ∷ []) m'
unfolding accept_at is_word Row.col_type Row.get_string ColumnView.type_of occurrences
accept_at-Counts r c (int_value v) m lt t e h =
    (m, rw (accept_at, lt→ltb c r.width lt, t), λ w. let k = h w in omega arith)
accept_at-Counts r c (float_value v) m lt t e h =
    (m, rw (accept_at, lt→ltb c r.width lt, t), λ w. let k = h w in omega arith)
accept_at-Counts r c (bool_value v) m lt t e h =
    (m, rw (accept_at, lt→ltb c r.width lt, t), λ w. let k = h w in omega arith)
accept_at-Counts r c (string_value none) m lt t e h =
    (m, rw (accept_at, lt→ltb c r.width lt, t, Row.get_string, e), λ w. let k = h w in omega arith)
accept_at-Counts r c (string_value (some v)) m lt t e h = (
  add_count v 1 m,
  rw (accept_at, lt→ltb c r.width lt, t, Row.get_string, e),
  λ w. let k = h w in let once = count_of-add_count w v 1 m (omega arith) k in once ∙ ground arith,
)

pub Counts-IsSmall : (m m' : WordMap) (vs : List Value) → Counts m vs m' → IsSmall m'
Counts-IsSmall m m' vs c w = let e = c w in omega arith

Counts-cons :
    (m₁ m₂ m₃ : WordMap) (v : Value) (vs : List Value)
    → Counts m₁ (v ∷ []) m₂
    → Counts m₂ vs m₃
    → Counts m₁ (v ∷ vs) m₃
unfolding occurrences
Counts-cons m₁ m₂ m₃ v vs a b w = let p = a w in let q = b w in omega arith

pub accept_from-Counts :
    (r : Row) (pre vs : List Value) (m : WordMap)
    → r.values ≡ pre ++ vs
    → r.types ≡ map ColumnView.type_of (pre ++ vs)
    → r.width ≡ length (pre ++ vs)
    → IsSmall m
    → (m' : WordMap) × (accept_from r (length vs) (length pre) m ≡ ok m') × Counts m vs m'
unfolding accept_from occurrences
accept_from-Counts r pre [] m e t l h = (m, refl, λ w. let k = h w in omega arith)
accept_from-Counts r pre (v ∷ vs) m e t l h =
    let at : get_elem? r.values (length pre) ≡ some v = rw (e) (get_elem?_append pre v vs) in
    let typ : get_elem? r.types (length pre) ≡ some (ColumnView.type_of v) = rw (t) (
      get_elem?-map ColumnView.type_of (pre ++ v ∷ vs) (length pre) v
        (get_elem?_append pre v vs)) in
    let (m₁, run, c₁) =
      accept_at-Counts r (length pre) v m (omega (arith, length-append pre (v ∷ vs))) typ at h in
    let assoc = append_assoc pre (v ∷ []) vs in
    let (m₂, rest, c₂) =
      accept_from-Counts r (pre ++ v ∷ []) vs m₁ (e ∙ sym assoc)
        (t ∙ ap (map ColumnView.type_of) (sym assoc)) (l ∙ ap length (sym assoc))
        (Counts-IsSmall m m₁ (v ∷ []) c₁) in
    let next : length (pre ++ v ∷ []) ≡ length pre + 1 = length-append pre (v ∷ []) in
    (m₂, rw (accept_from, run) (rw next at rest), Counts-cons m m₁ m₂ v vs c₁ c₂)
