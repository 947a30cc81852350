-- ===== src/Row.antt =====
-- include/data/row.h and src/data/row.cpp: one row of values, with the types that the schema gives
-- them. The constructor makes a string of an uninitialised array and writes the types into it,
-- behind its end: undefined by the language. The model is that of GNU's library, in which every
-- string has room for 15 characters, so that up to 15 types stay where they are written and are
-- read again.
pub mod Access
pub mod Compare
pub mod Equality
pub mod Missing
use cs4500project.Prelude.{set as set_elem}
use cs4500project.Schema
use cs4500project.Prelude.{
  Bool, List, Option, Run, [], assert, bad_variant, fault, get_elem?, if◌then◌else◌, leb, ltb, none,
  ok, replicate, require, some, suc, true, undefined, zero, ℕ, ◌+◌, ◌==◌, ◌>>=◌, ◌>>◌, ◌∷◌,
}
use cs4500project.Column.{Value, bool_value, float_value, int_value, string_value}
use cs4500project.Schema.{Schema}

pub record Row : Type 0 where
  pub width : ℕ
  pub types : List ℕ
  pub values : List Value
  pub index : ℕ

-- The loop of the constructor, over the `width - i` types still to be read.
unfoldable pub read_types : Schema → ℕ → ℕ → Run (List ℕ)
read_types scm zero i = ok []
read_types scm (suc left) i = elim (Schema.col_type scm i) [
  | ok t ↦ read_types scm left (i + 1) >>= λ ts. ok (t ∷ ts)
  | fault e ↦ fault e
]

-- The characters that any `std::string` of GNU's library has room for, at least: a short one has
-- this many places in the object itself.
abbrev pub in_place : ℕ
in_place = 15

-- The string of types is made from an uninitialised array. Whatever text that gives, the types are
-- written into the room that the string has while they are few; more of them are written over the
-- fields that follow. A variant starts as an empty optional of its first type.
unfoldable pub of_schema : Schema → Run Row
unfolding read_types
of_schema scm = do
  has_room ← (if leb scm.width in_place then ok true else fault undefined)
  types ← read_types scm scm.width 0
  ok (record {
    width = scm.width;
    types = types;
    values = replicate scm.width (int_value none);
    index = 0;
  })

write : Row → ℕ → Value → Run Row
write r col val = do
  old ← require (get_elem? r.values col)
  ok (record r { values = set_elem r.values col val })

-- The setters of an `int`, a `double` and a `bool` hold the column to its type; that of a string
-- does not.
unfoldable pub set_typed : ℕ → Row → ℕ → Value → Run Row
unfolding write
set_typed typ r col val = do
  assert (ltb col r.width)
  t ← require (get_elem? r.types col)
  assert (t == typ)
  write r col val

unfoldable pub set : Row → ℕ → Value → Run Row
unfolding set_typed write
set r col (int_value v) = set_typed b'I' r col (int_value v)
set r col (float_value v) = set_typed b'F' r col (float_value v)
set r col (bool_value v) = set_typed b'B' r col (bool_value v)
set r col (string_value v) = write r col (string_value v)

unfoldable pub set_index : Row → ℕ → Row
set_index r idx = record r { index = idx }

-- `std::get` throws where the variant holds another type.
abbrev pub the_int : Value → Run (Option ℕ)
the_int (int_value v) = ok v
the_int _ = fault bad_variant

abbrev pub the_float : Value → Run (Option ℕ)
the_float (float_value v) = ok v
the_float _ = fault bad_variant

abbrev pub the_bool : Value → Run (Option Bool)
the_bool (bool_value v) = ok v
the_bool _ = fault bad_variant

abbrev pub the_string : Value → Run (Option (List ℕ))
the_string (string_value v) = ok v
the_string _ = fault bad_variant

unfoldable pub get_int : Row → ℕ → Run (Option ℕ)
get_int r col = require (get_elem? r.values col) >>= the_int

unfoldable pub get_double : Row → ℕ → Run (Option ℕ)
get_double r col = require (get_elem? r.values col) >>= the_float

unfoldable pub get_bool : Row → ℕ → Run (Option Bool)
get_bool r col = require (get_elem? r.values col) >>= the_bool

unfoldable pub get_string : Row → ℕ → Run (Option (List ℕ))
get_string r col = require (get_elem? r.values col) >>= the_string

unfoldable pub col_type : Row → ℕ → Run ℕ
col_type r idx = do assert (ltb idx r.width); require (get_elem? r.types idx)

-- The getter that the type of a column calls for; a type that is none of the four is passed over.
unfoldable pub get_by_type : Row → ℕ → ℕ → Run (Option Value)
unfolding get_int get_double get_bool get_string
get_by_type r typ col =
    if typ == b'I'
    then (get_int r col >>= λ v. ok (some (int_value v)))
    else if typ == b'F'
    then (get_double r col >>= λ v. ok (some (float_value v)))
    else if typ == b'B'
    then (get_bool r col >>= λ v. ok (some (bool_value v)))
    else if typ == b'S'
    then (get_string r col >>= λ v. ok (some (string_value v)))
    else ok none

-- The loop of `visit`: the values that the fielder accepts, in order, over the columns still to be
-- visited.
unfoldable pub visit_from : Row → ℕ → ℕ → Run (List Value)
visit_from r zero i = ok []
visit_from r (suc left) i = elim (require (get_elem? r.types i) >>= λ t. get_by_type r t i) [
  | fault e ↦ fault e
  | ok none ↦ visit_from r left (i + 1)
  | ok (some v) ↦ visit_from r left (i + 1) >>= λ vs. ok (v ∷ vs)
]

unfoldable pub visit : Row → ℕ → Run (List Value)
unfolding visit_from
visit r idx = do assert (idx == r.index); visit_from r r.width 0
