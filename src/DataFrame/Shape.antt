-- ===== src/DataFrame/Shape.antt =====
-- src/data/dataframe.cpp: what makes a data frame well formed.
use cs4500project.Column
use cs4500project.Column.View as ColumnView
use cs4500project.Schema
use cs4500project.DataFrame
use cs4500project.Prelude.{
  All, List, Option, [], ap, arith, get_elem?, get_elem?_append, length, length-append, length-map,
  lt→ltb, map, ok, refl, some, suc, zero, ℕ, ◌++◌, ◌+◌, ◌∙◌, ◌∷◌, ◌≡◌,
}
use cs4500project.Column.{Column}
use cs4500project.DataFrame.{DataFrame, add_column}
use cs4500project.Schema.{Schema}

-- The schema has the types of the columns, in order, and the columns are valid.
pub record IsValid (df : DataFrame) : Type 0 where
  pub typed : df.schema.column_types ≡ map Column.get_type df.columns
  pub counted : df.schema.width ≡ length df.columns
  pub sound : All ColumnView.IsValid df.columns

pub empty-IsValid : IsValid DataFrame.empty
unfolding DataFrame.empty Schema.empty
empty-IsValid = record { typed = refl; counted = refl; sound = tt }

pub All-snoc :
    {A : Type 0} (P : A → Type 0) (xs : List A) (y : A) → All P xs → P y → All P (xs ++ y ∷ [])
All-snoc P [] y h p = (p, tt)
All-snoc P (x ∷ xs) y h p = (h.0, All-snoc P xs y h.1 p)

pub map-snoc :
    {A B : Type 0} (f : A → B) (xs : List A) (y : A) → map f (xs ++ y ∷ []) ≡ map f xs ++ f y ∷ []
map-snoc f [] y = refl
map-snoc f (x ∷ xs) y = ap (◌∷◌ (f x)) (map-snoc f xs y)

-- Adding a valid column keeps a well-formed frame well formed.
pub add_column-IsValid :
    (df : DataFrame) (c : Column) (name : Option (List ℕ))
    → IsValid df
    → ColumnView.IsValid c
    → IsValid (add_column df c name)
unfolding add_column Schema.add_column
add_column-IsValid df c name v h = record {
  typed =
      rw (map-snoc Column.get_type df.columns c) (ap (λ ts. ts ++ Column.get_type c ∷ []) v.typed);
  counted = omega (arith, v.counted, length-append df.columns (c ∷ []));
  sound = All-snoc ColumnView.IsValid df.columns c v.sound h;
}

pub get_elem?-map :
    {A B : Type 0} (f : A → B) (xs : List A) (i : ℕ) (x : A)
    → get_elem? xs i ≡ some x
    → get_elem? (map f xs) i ≡ some (f x)
get_elem?-map f [] i x e = cc
get_elem?-map f (y ∷ xs) zero x e = let q : y ≡ x = cc in ap (λ z. some (f z)) q
get_elem?-map f (y ∷ xs) (suc i) x e = get_elem?-map f xs i x e

-- The schema gives the type of the column that stands at an index.
pub col_type-get_type :
    (s : Schema) (cs cs' : List Column) (c : Column)
    → s.column_types ≡ map Column.get_type (cs ++ c ∷ cs')
    → Schema.col_type s (length cs) ≡ ok (Column.get_type c)
unfolding Schema.col_type
col_type-get_type s cs cs' c e =
    let read =
      get_elem?-map Column.get_type (cs ++ c ∷ cs') (length cs) c (get_elem?_append cs c cs') in
    let size : length (map Column.get_type (cs ++ c ∷ cs')) ≡ length cs + suc (length cs') =
      length-map Column.get_type (cs ++ c ∷ cs') ∙ length-append cs (c ∷ cs') in
    rw (e, lt→ltb (length cs) (length (map Column.get_type (cs ++ c ∷ cs'))) (omega arith), read)
