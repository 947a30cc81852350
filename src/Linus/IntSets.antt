-- ===== src/Linus/IntSets.antt =====
-- src/util/linus_rowers.cpp, `IntSetGenerator`: the set it makes of a frame of integers.
use cs4500project.Column
use cs4500project.Column.View as ColumnView
use cs4500project.DataFrame
use cs4500project.Row
use cs4500project.Prelude.{
  ==_iff, All, Bool-cases, List, [], ap, arith, get_elem?, inl, inr, length, length-map, map, ok,
  refl, some, subst, suc, sym, take, take-length, take_next, true, zero, ℕ, ◌++◌, ◌+◌, ◌==◌, ◌||◌,
  ◌∙◌, ◌∷◌, ◌≡◌,
}
use cs4500project.Column.{Column, Value, int_value, size}
use cs4500project.DataFrame.{DataFrame}
use cs4500project.DataFrame.Fill.{Entries}
use cs4500project.DataFrame.Rounds.{FitsRows}
use cs4500project.DataFrame.Shape.{IsValid}
use cs4500project.DataFrame.Sweep.{Keeps, Shows, map_rows-Keeps}
use cs4500project.Linus.{
  IntSet, contains, finish_set, insert, insert_from, int_set_generator, the_int_at,
}
use cs4500project.Row.{Row}

pub contains-append : (s t : IntSet) (v : ℕ) → contains (s ++ t) v ≡ (contains s v || contains t v)
unfolding contains
contains-append [] t v = refl
contains-append (x ∷ s) t v = let rest = contains-append s t v in ground (arith, rest)

contains_again :
    (s : IntSet) (v w : ℕ) → contains s v ≡ true → contains s w ≡ contains (s ++ v ∷ []) w
unfolding contains
contains_again s v w e = rw (contains-append s (v ∷ []) w) (elim (Bool-cases (v == w)) [
  | inl f ↦
      let same : v ≡ w = (==_iff v w).0 f in
      let have : contains s w ≡ true = rw same at e in rw (have)
  | inr f ↦ rw (f) (ground arith)
])

contains-insert : (s : IntSet) (v w : ℕ) → contains (insert s v) w ≡ contains (s ++ v ∷ []) w
unfolding insert
contains-insert s v w = elim (Bool-cases (contains s v)) [
  | inl e ↦ rw e (contains_again s v w e)
  | inr e ↦ rw e
]

-- A frame of one column, of a type, that shows these values.
pub record Holds (typ : ℕ) (df : DataFrame) (vals : List Value) : Type 0 where
  pub column : Column
  pub valid : IsValid df
  pub columns : df.columns ≡ column ∷ []
  pub typed : Column.get_type column ≡ typ
  pub shows : ColumnView.view column ≡ vals

abbrev pub an_int : ℕ → Value
an_int v = int_value (some v)

Holds-FitsRows : (typ : ℕ) (df : DataFrame) (vals : List Value) → Holds typ df vals → FitsRows df
unfolding DataFrame.nrows
Holds-FitsRows typ df vals h = record {
  even = rw (h.columns) (refl, tt);
  room = rw (h.columns) (omega arith);
}

-- The set holds what the first entries are.
abbrev Gathers : List ℕ → ℕ → IntSet → Type 0
Gathers xs i s = (v : ℕ) → contains s v ≡ contains (take i xs) v

Gathers-next :
    (xs : List ℕ) (i x : ℕ) (s : IntSet)
    → get_elem? xs i ≡ some x
    → Gathers xs i s
    → Gathers xs (suc i) (insert s x)
Gathers-next xs i x s e g v =
    contains-insert s x v
    ∙ contains-append s (x ∷ []) v
    ∙ ap (λ b. b || contains (x ∷ []) v) (g v)
    ∙ sym (contains-append (take i xs) (x ∷ []) v)
    ∙ ap (λ ys. contains ys v) (sym (take_next xs i x e))

pub get_elem?-unmap :
    {A B : Type 0} (f : A → B) (xs : List A) (i : ℕ) (y : B)
    → get_elem? (map f xs) i ≡ some y
    → (x : A) × (get_elem? xs i ≡ some x) × (y ≡ f x)
get_elem?-unmap f [] i y e = absurd (ground arith)
get_elem?-unmap f (x ∷ xs) zero y e = (x, refl, let same : f x ≡ y = ground arith in sym same)
get_elem?-unmap f (x ∷ xs) (suc i) y e = get_elem?-unmap f xs i y e

one_entry :
    (i : ℕ) (c : Column) (vals : List Value)
    → Entries i (c ∷ []) vals
    → (v : Value) × (vals ≡ v ∷ []) × (get_elem? (ColumnView.view c) i ≡ some v)
one_entry i c [] e = elim e [ ]
one_entry i c (v ∷ []) e = (v, refl, e.0)
one_entry i c (v ∷ w ∷ vals) e = elim e.1 [ ]

one_value :
    (typ : ℕ) (df : DataFrame) (shown : List Value) (i : ℕ) (row : Row)
    → Holds typ df shown
    → Shows df i row
    → (v : Value) × (get_elem? shown i ≡ some v)
      × (row.values ≡ v ∷ [])
      × (row.types ≡ typ ∷ [])
      × (row.width ≡ 1)
one_value typ df shown i row h shows =
    let entries : Entries i (h.column ∷ []) row.values = rw h.columns at shows.entries in
    let (v, vals, at) = one_entry i h.column row.values entries in
    let types : map Column.get_type df.columns ≡ typ ∷ [] = rw (h.columns, h.typed) in
    let width : length df.columns ≡ 1 = rw h.columns in
    (v, rw h.shows at at, vals, shows.suits.typed ∙ types, shows.suits.wide ∙ width)

insert_one :
    (row : Row) (x : ℕ) (s : IntSet)
    → row.values ≡ an_int x ∷ []
    → row.types ≡ b'I' ∷ []
    → row.width ≡ 1
    → insert_from row row.width 0 s ≡ ok (insert s x)
unfolding insert_from the_int_at Row.get_int Row.col_type
insert_one row x s vals types width =
    ap (λ k. insert_from row k 0 s) width ∙ rw (insert_from, the_int_at, width, vals, types)

generator-Keeps :
    (df : DataFrame) (xs : List ℕ)
    → Holds b'I' df (map an_int xs)
    → Keeps int_set_generator df (Gathers xs)
unfolding int_set_generator
generator-Keeps df xs h i row s lt shows g =
    let (v, at, vals, types, width) = one_value b'I' df (map an_int xs) i row h shows in
    let (x, here, same) = get_elem?-unmap an_int xs i v at in
    let run = insert_one row x s (vals ∙ ap (λ w. w ∷ []) same) types width in
    let one_more : suc i ≡ i + 1 = omega arith in
    (
      true,
      insert s x,
      rw (run),
      subst (λ j. Gathers xs j (insert s x)) one_more (Gathers-next xs i x s here g),
    )

nrows-Holds :
    (typ : ℕ) (df : DataFrame) (vals : List Value)
    → Holds typ df vals
    → DataFrame.nrows df ≡ length vals
unfolding DataFrame.nrows
nrows-Holds typ df vals h =
    let sound : All ColumnView.IsValid (h.column ∷ []) = rw h.columns at h.valid.sound in
    rw (h.columns) (ColumnView.size-view h.column sound.0 ∙ ap length h.shows)

-- The set of a frame of one column of integers, none of them missing, holds these integers.
pub finish_set-contains :
    (df : DataFrame) (xs : List ℕ)
    → Holds b'I' df (map an_int xs)
    → (s : IntSet) × (finish_set df ≡ ok s) × ((v : ℕ) → contains s v ≡ contains xs v)
unfolding finish_set
finish_set-contains df xs h =
    let rect = Holds-FitsRows b'I' df (map an_int xs) h in
    let (s, run, g) =
      map_rows-Keeps int_set_generator df (Gathers xs) (generator-Keeps df xs h) h.valid rect []
        (λ v. refl) in
    let size : DataFrame.nrows df ≡ length xs =
      nrows-Holds b'I' df (map an_int xs) h ∙ length-map an_int xs in
    let whole : take (DataFrame.nrows df) xs ≡ xs = ap (λ n. take n xs) size ∙ take-length xs in
    (s, run, λ v. g v ∙ ap (λ ys. contains ys v) whole)
