-- ===== src/Column.antt =====
-- include/data/column.h and src/data/column.cpp: a column of values of one type. An `int` is its 32
-- bits and a `double` its 64 bits, as numbers; a string is the list of its bytes.
pub mod View
pub mod Codec
use cs4500project.NullableArray
use cs4500project.Prelude.{
  Bool, List, Option, Run, [], assertion_failed, false, fault, if◌then◌else◌, none, ok, some, suc,
  undefined, zero, ℕ, ◌%◌, ◌+◌, ◌==◌, ◌>>=◌, ◌>>◌,
}
use cs4500project.NullableArray.{Element, NullableArray, same_bool}
use cs4500project.Serializable.{
  Reader, deserialize_string, deserialize_word, serialize_string, serialize_word, size_max,
}

-- The optional that a column or a row holds at a place: the argument of the overloads of
-- `push_back` and `set`, and the variant of a row.
pub data Value : Type 0 where
  int_value float_value : Option ℕ → Value
  bool_value : Option Bool → Value
  string_value : Option (List ℕ) → Value

abbrev pub int_element : Element ℕ
int_element = record { init = 0; write = serialize_word 4; read = deserialize_word 4 }

abbrev pub float_element : Element ℕ
float_element = record { init = 0; write = serialize_word 8; read = deserialize_word 8 }

abbrev pub string_element : Element (List ℕ)
string_element = record { init = []; write = serialize_string; read = deserialize_string }

pub data Column : Type 0 where
  int_column float_column : NullableArray ℕ → Column
  bool_column : NullableArray Bool → Column
  string_column : NullableArray (List ℕ) → Column

-- `as_int` and its like: the column under its own type, or a null pointer.
unfoldable pub as_int : Column → Option (NullableArray ℕ)
as_int (int_column a) = some a
as_int _ = none

unfoldable pub as_float : Column → Option (NullableArray ℕ)
as_float (float_column a) = some a
as_float _ = none

unfoldable pub as_bool : Column → Option (NullableArray Bool)
as_bool (bool_column a) = some a
as_bool _ = none

unfoldable pub as_string : Column → Option (NullableArray (List ℕ))
as_string (string_column a) = some a
as_string _ = none

-- The overload that fits the column adds the optional; the others stop the program.
unfoldable pub push_back : Column → Value → Run Column
push_back (int_column a) (int_value v) = ok (int_column (NullableArray.push_back 0 a v))
push_back (float_column a) (float_value v) = ok (float_column (NullableArray.push_back 0 a v))
push_back (bool_column a) (bool_value v) = ok (bool_column (NullableArray.push_back false a v))
push_back (string_column a) (string_value v) = ok (string_column (NullableArray.push_back [] a v))
push_back _ _ = fault assertion_failed

unfoldable pub get : Column → ℕ → Run Value
get (int_column a) idx = NullableArray.get a idx >>= λ v. ok (int_value v)
get (float_column a) idx = NullableArray.get a idx >>= λ v. ok (float_value v)
get (bool_column a) idx = NullableArray.get a idx >>= λ v. ok (bool_value v)
get (string_column a) idx = NullableArray.get a idx >>= λ v. ok (string_value v)

-- A value of another type is a call through a null pointer (`as_int()->set`).
unfoldable pub set : Column → ℕ → Value → Run Column
set (int_column a) idx (int_value v) = NullableArray.set 0 a idx v >>= λ r. ok (int_column r.1)
set (float_column a) idx (float_value v) =
    NullableArray.set 0 a idx v >>= λ r. ok (float_column r.1)
set (bool_column a) idx (bool_value v) =
    NullableArray.set false a idx v >>= λ r. ok (bool_column r.1)
set (string_column a) idx (string_value v) =
    NullableArray.set [] a idx v >>= λ r. ok (string_column r.1)
set _ idx _ = fault undefined

unfoldable pub size : Column → ℕ
size (int_column a) = NullableArray.size a
size (float_column a) = NullableArray.size a
size (bool_column a) = NullableArray.size a
size (string_column a) = NullableArray.size a

unfoldable pub get_type : Column → ℕ
get_type (int_column a) = b'I'
get_type (float_column a) = b'F'
get_type (bool_column a) = b'B'
get_type (string_column a) = b'S'

-- `same_float` is the `==` of `double`.
unfoldable pub equals : (ℕ → ℕ → Bool) → Column → Column → Bool
equals same_float (int_column a) (int_column b) = NullableArray.equals ◌==◌ a b
equals same_float (float_column a) (float_column b) = NullableArray.equals same_float a b
equals same_float (bool_column a) (bool_column b) = NullableArray.equals same_bool a b
equals same_float (string_column a) (string_column b) =
    NullableArray.equals (NullableArray.all_equal ◌==◌) a b
equals same_float _ _ = false

-- `std::hash` of the four types.
pub record Hashes : Type 0 where
  pub int_hash : ℕ → ℕ
  pub float_hash : ℕ → ℕ
  pub bool_hash : Bool → ℕ
  pub string_hash : List ℕ → ℕ

unfoldable pub hash : Hashes → Column → ℕ
hash h (int_column a) = (500 + b'I' + NullableArray.hash h.int_hash a) % size_max
hash h (float_column a) = (500 + b'F' + NullableArray.hash h.float_hash a) % size_max
hash h (bool_column a) = (500 + b'B' + NullableArray.hash h.bool_hash a) % size_max
hash h (string_column a) = (500 + b'S' + NullableArray.hash h.string_hash a) % size_max

unfoldable pub serialize : Column → List ℕ
serialize (int_column a) = NullableArray.serialize int_element a
serialize (float_column a) = NullableArray.serialize float_element a
serialize (bool_column a) = NullableArray.serialize_flags a
serialize (string_column a) = NullableArray.serialize string_element a

-- The loop of `deserialize<IntColumn>` and its like: the `na.size() - i` entries still to be
-- pushed.
unfoldable pub refill :
    {T : Type 0} → T → NullableArray T → ℕ → ℕ → NullableArray T → Run (NullableArray T)
refill init na zero i col = ok col
refill init na (suc left) i col = elim (NullableArray.get na i) [
  | ok v ↦ refill init na left (i + 1) (NullableArray.push_back init col v)
  | fault e ↦ fault e
]

unfoldable pub deserialize_array : {T : Type 0} → Element T → Reader (NullableArray T)
unfolding refill
deserialize_array el bytes pos = do
  (na, pos') ← NullableArray.deserialize el bytes pos
  col ← refill el.init na (NullableArray.size na) 0 NullableArray.empty
  ok (col, pos')

unfoldable pub deserialize_bool_array : Reader (NullableArray Bool)
unfolding refill
deserialize_bool_array bytes pos = do
  (na, pos') ← NullableArray.deserialize_flags bytes pos
  col ← refill false na (NullableArray.size na) 0 NullableArray.empty
  ok (col, pos')

-- By type, as in the switch of `deserialize<DataFrame>`, whose assertion fails on any other.
unfoldable pub deserialize : ℕ → Reader Column
unfolding deserialize_array deserialize_bool_array
deserialize typ bytes pos =
    if typ == b'I'
    then (deserialize_array int_element bytes pos >>= λ r. ok (int_column r.0, r.1))
    else if typ == b'F'
    then (deserialize_array float_element bytes pos >>= λ r. ok (float_column r.0, r.1))
    else if typ == b'B'
    then (deserialize_bool_array bytes pos >>= λ r. ok (bool_column r.0, r.1))
    else if typ == b'S'
    then (deserialize_array string_element bytes pos >>= λ r. ok (string_column r.0, r.1))
    else fault assertion_failed
