-- ===== src/Column/View.antt =====
-- include/data/column.h, src/data/column.cpp: a column is a list of optionals of one type.
use cs4500project.NullableArray.View as ArrayView
use cs4500project.NullableArray
use cs4500project.Prelude.{
  List, Option, [], ap, arith, assertion_failed, false, fault, get_elem?, length, length-map, map,
  none, ok, refl, some, subst, suc, sym, zero, ℕ, ◌++◌, ◌>>=◌, ◌∙◌, ◌∷◌, ◌≡◌, ◌≢◌,
}
use cs4500project.Column.{
  Column, Value, bool_column, bool_value, float_column, float_value, get, get_type, int_column,
  int_value, push_back, size, string_column, string_value,
}
use cs4500project.NullableArray.{NullableArray}

-- The entries, in order.
unfoldable pub view : Column → List Value
view (int_column a) = map int_value (ArrayView.view a)
view (float_column a) = map float_value (ArrayView.view a)
view (bool_column a) = map bool_value (ArrayView.view a)
view (string_column a) = map string_value (ArrayView.view a)

unfoldable pub IsValid : Column → Type 0
IsValid (int_column a) = ArrayView.IsValid 0 a
IsValid (float_column a) = ArrayView.IsValid 0 a
IsValid (bool_column a) = ArrayView.IsValid false a
IsValid (string_column a) = ArrayView.IsValid [] a

unfoldable pub type_of : Value → ℕ
type_of (int_value v) = b'I'
type_of (float_value v) = b'F'
type_of (bool_value v) = b'B'
type_of (string_value v) = b'S'

map-snoc :
    {A B : Type 0} (f : A → B) (xs : List A) (y : A) → map f (xs ++ y ∷ []) ≡ map f xs ++ f y ∷ []
map-snoc f [] y = refl
map-snoc f (x ∷ xs) y = ap (◌∷◌ (f x)) (map-snoc f xs y)

pub size-view : (c : Column) → IsValid c → size c ≡ length (view c)
unfolding size view IsValid
size-view (int_column a) v = ArrayView.size-view 0 a v ∙ sym (length-map int_value _)
size-view (float_column a) v = ArrayView.size-view 0 a v ∙ sym (length-map float_value _)
size-view (bool_column a) v = ArrayView.size-view false a v ∙ sym (length-map bool_value _)
size-view (string_column a) v = ArrayView.size-view [] a v ∙ sym (length-map string_value _)

-- A value of a valid column's type is added at the end, and the column stays valid and keeps its
-- type.
pub view_column-push_back :
    (c : Column) (v : Value)
    → IsValid c
    → type_of v ≡ get_type c
    → (c' : Column) × (push_back c v ≡ ok c')
      × IsValid c'
      × (get_type c' ≡ get_type c)
      × (view c' ≡ view c ++ v ∷ [])
unfolding push_back view IsValid type_of get_type
view_column-push_back (int_column a) (int_value v) h e =
    let (d, s) = ArrayView.view-push_back 0 a v h in
    (
      int_column (NullableArray.push_back 0 a v),
      refl,
      d,
      refl,
      ap (map int_value) s ∙ map-snoc int_value (ArrayView.view a) v,
    )
view_column-push_back (float_column a) (float_value v) h e =
    let (d, s) = ArrayView.view-push_back 0 a v h in
    (
      float_column (NullableArray.push_back 0 a v),
      refl,
      d,
      refl,
      ap (map float_value) s ∙ map-snoc float_value (ArrayView.view a) v,
    )
view_column-push_back (bool_column a) (bool_value v) h e =
    let (d, s) = ArrayView.view-push_back false a v h in
    (
      bool_column (NullableArray.push_back false a v),
      refl,
      d,
      refl,
      ap (map bool_value) s ∙ map-snoc bool_value (ArrayView.view a) v,
    )
view_column-push_back (string_column a) (string_value v) h e =
    let (d, s) = ArrayView.view-push_back [] a v h in
    (
      string_column (NullableArray.push_back [] a v),
      refl,
      d,
      refl,
      ap (map string_value) s ∙ map-snoc string_value (ArrayView.view a) v,
    )
view_column-push_back _ _ h e = absurd (omega arith)

-- Pushing a value of another type than the column's stops the program.
pub push_back_wrong :
    (c : Column) (v : Value) → type_of v ≢ get_type c → push_back c v ≡ fault assertion_failed
unfolding push_back type_of get_type
push_back_wrong (int_column a) (int_value v) h = absurd (h refl)
push_back_wrong (float_column a) (float_value v) h = absurd (h refl)
push_back_wrong (bool_column a) (bool_value v) h = absurd (h refl)
push_back_wrong (string_column a) (string_value v) h = absurd (h refl)
push_back_wrong _ _ h = refl

lift_get :
    {A : Type 0} (f : Option A → Value) (xs : List (Option A)) (i : ℕ)
    → (elim (get_elem? xs i) [ none ↦ fault assertion_failed | some v ↦ ok v ]) >>= (λ v. ok (f v))
      ≡ elim (get_elem? (map f xs) i) [ none ↦ fault assertion_failed | some v ↦ ok v ]
lift_get f [] i = refl
lift_get f (x ∷ xs) zero = refl
lift_get f (x ∷ xs) (suc i) = lift_get f xs i

-- A read of a valid column returns the entry at the index, and fails an assertion behind the end.
pub get_column-view :
    (c : Column) (i : ℕ)
    → IsValid c
    → get c i ≡ elim (get_elem? (view c) i) [ none ↦ fault assertion_failed | some v ↦ ok v ]
unfolding get view IsValid
get_column-view (int_column a) i h =
    rw (ArrayView.get-view 0 a i h) (lift_get int_value (ArrayView.view a) i)
get_column-view (float_column a) i h =
    rw (ArrayView.get-view 0 a i h) (lift_get float_value (ArrayView.view a) i)
get_column-view (bool_column a) i h =
    rw (ArrayView.get-view false a i h) (lift_get bool_value (ArrayView.view a) i)
get_column-view (string_column a) i h =
    rw (ArrayView.get-view [] a i h) (lift_get string_value (ArrayView.view a) i)

view_type :
    {A : Type 0} (f : Option A → Value) (t : ℕ)
    → ((x : Option A) → type_of (f x) ≡ t)
    → (xs : List (Option A)) (i : ℕ) (v : Value) → get_elem? (map f xs) i ≡ some v
    → type_of v ≡ t
view_type f t law [] i v e = cc
view_type f t law (x ∷ xs) zero v e = let q : f x ≡ v = cc in subst (λ w. type_of w ≡ t) q (law x)
view_type f t law (x ∷ xs) (suc i) v e = view_type f t law xs i v e

-- Every entry has the type of the column.
pub type_of-view :
    (c : Column) (i : ℕ) (v : Value) → get_elem? (view c) i ≡ some v → type_of v ≡ get_type c
unfolding view get_type type_of
type_of-view (int_column a) i v e = view_type int_value b'I' (λ x. refl) (ArrayView.view a) i v e
type_of-view (float_column a) i v e =
    view_type float_value b'F' (λ x. refl) (ArrayView.view a) i v e
type_of-view (bool_column a) i v e = view_type bool_value b'B' (λ x. refl) (ArrayView.view a) i v e
type_of-view (string_column a) i v e =
    view_type string_value b'S' (λ x. refl) (ArrayView.view a) i v e
