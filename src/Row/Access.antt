-- ===== src/Row/Access.antt =====
-- src/data/row.cpp: what the setters and getters of a row do on rows that are built from a schema.
use cs4500project.Prelude.{set as set_elem}
use cs4500project.Row
use cs4500project.Prelude.{
  List, [], arith, assertion_failed, fault, get_elem?, get_elem?_lt, length, lt→ltb, ok, refl, some,
  suc, zero, ℕ, ◌<◌, ◌>>=◌, ◌∷◌, ◌≡◌, ◌≢◌,
}
use cs4500project.Column.{Value, bool_value, float_value, int_value, string_value}
use cs4500project.Column.View.{type_of}
use cs4500project.Row.{Row, get_by_type}

-- A row has a type and a value for each of its columns.
pub record IsValid (r : Row) : Type 0 where
  pub typed : length r.types ≡ r.width
  pub filled : length r.values ≡ r.width

-- In a valid row, a value of the type of a column in range replaces the value at that column, and
-- nothing else of the row changes.
pub set-stores :
    (r : Row) (col : ℕ) (v : Value)
    → IsValid r
    → col < r.width
    → get_elem? r.types col ≡ some (type_of v)
    → Row.set r col v ≡ ok (record r { values = set_elem r.values col v })
unfolding Row.set type_of
set-stores r col (int_value v) h lt e =
    let (old, p) = get_elem?_lt r.values col (omega arith) in rw (lt→ltb _ _ lt, e, p)
set-stores r col (float_value v) h lt e =
    let (old, p) = get_elem?_lt r.values col (omega arith) in rw (lt→ltb _ _ lt, e, p)
set-stores r col (bool_value v) h lt e =
    let (old, p) = get_elem?_lt r.values col (omega arith) in rw (lt→ltb _ _ lt, e, p)
set-stores r col (string_value v) h lt e =
    let (old, p) = get_elem?_lt r.values col (omega arith) in rw p

get_elem?-set_self :
    {A : Type 0} (xs : List A) (i : ℕ) (v : A)
    → i < length xs
    → get_elem? (set_elem xs i v) i ≡ some v
get_elem?-set_self [] i v h = absurd (omega arith)
get_elem?-set_self (x ∷ xs) zero v h = refl
get_elem?-set_self (x ∷ xs) (suc i) v h = get_elem?-set_self xs i v (omega arith)

-- The getter for the type of a value reads the value that stands at the column.
pub get_by_type-eq :
    (r : Row) (col : ℕ) (v : Value)
    → get_elem? r.values col ≡ some v
    → get_by_type r (type_of v) col ≡ ok (some v)
unfolding get_by_type type_of
get_by_type-eq r col (int_value v) e = rw e
get_by_type-eq r col (float_value v) e = rw e
get_by_type-eq r col (bool_value v) e = rw e
get_by_type-eq r col (string_value v) e = rw e

-- In a valid row, a value of the type of a column in range that is set is the one that the getter
-- for that type then returns.
pub get_by_type-set :
    (r : Row) (col : ℕ) (v : Value)
    → IsValid r
    → col < r.width
    → get_elem? r.types col ≡ some (type_of v)
    → Row.set r col v >>= (λ r'. get_by_type r' (type_of v) col) ≡ ok (some v)
get_by_type-set r col v h lt e =
    rw (set-stores r col v h lt e)
      (get_by_type-eq _ col v (get_elem?-set_self r.values col v (omega arith)))

-- A number or a Boolean for a column of another type fails the setter's assertion.
pub set_wrong :
    (r : Row) (col typ : ℕ) (v : Value)
    → type_of v ≢ b'S'
    → get_elem? r.types col ≡ some typ
    → typ ≢ type_of v
    → Row.set r col v ≡ fault assertion_failed
unfolding Row.set type_of
set_wrong r col typ (int_value v) s e h = ground arith
set_wrong r col typ (float_value v) s e h = ground arith
set_wrong r col typ (bool_value v) s e h = ground arith
set_wrong r col typ (string_value v) s e h = absurd (s refl)
