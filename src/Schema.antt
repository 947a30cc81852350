-- ===== src/Schema.antt =====
-- include/data/schema.h and src/data/schema.cpp: the types and names of a data frame's columns, and
-- the names of its rows. A name is optional, and a list of bytes.
pub mod Names
pub mod Codec
pub mod Hash
pub mod Hashed
use cs4500project.Prelude.{
  Bool, List, Option, Run, [], assert, false, fault, get_elem?, if◌then◌else◌, length, ltb, none,
  ok, require, some, suc, true, undefined, zero, ℕ, ◌&&◌, ◌++◌, ◌+◌, ◌==◌, ◌>>=◌, ◌>>◌, ◌∷◌,
}
use cs4500project.Serializable.{Reader, deserialize_chars, deserialize_word, serialize_word}

pub record Schema : Type 0 where
  pub column_names : List (Option (List ℕ))
  pub row_names : List (Option (List ℕ))
  pub column_types : List ℕ
  pub width : ℕ
  pub rows : ℕ

unfoldable pub empty : Schema
empty = record { column_names = []; row_names = []; column_types = []; width = 0; rows = 0 }

-- The copy constructor drops the names.
unfoldable pub copy : Schema → Schema
copy from = record {
  column_names = [];
  row_names = [];
  column_types = from.column_types;
  width = from.width;
  rows = from.rows;
}

-- The loop of the constructor from a C string: a zero ends the string, and spaces are passed over.
unfoldable pub scan_types : List ℕ → List ℕ → ℕ → List ℕ × ℕ
scan_types [] types width = (types, width)
scan_types (c ∷ cs) types width =
    let rest = scan_types cs (types ++ c ∷ []) (width + 1) in
    let skipped = scan_types cs types width in
    if c == 0 then (types, width) else if c == 32 then skipped else rest

unfoldable pub of_types : List ℕ → Schema
unfolding scan_types
of_types cs =
    let (types, width) = scan_types cs [] 0 in
    record { column_names = []; row_names = []; column_types = types; width = width; rows = 0 }

unfoldable pub add_column : Schema → ℕ → Option (List ℕ) → Schema
add_column s typ name = record s {
  column_types = s.column_types ++ typ ∷ [];
  column_names = s.column_names ++ name ∷ [];
  width = s.width + 1;
}

unfoldable pub add_row : Schema → Option (List ℕ) → Schema
add_row s name = record s { row_names = s.row_names ++ name ∷ []; rows = s.rows + 1 }

unfoldable pub row_name : Schema → ℕ → Run (Option (List ℕ))
row_name s idx = require (get_elem? s.row_names idx)

unfoldable pub col_name : Schema → ℕ → Run (Option (List ℕ))
col_name s idx = require (get_elem? s.column_names idx)

unfoldable pub col_type : Schema → ℕ → Run ℕ
col_type s idx = do assert (ltb idx (length s.column_types)); require (get_elem? s.column_types idx)

-- `compare` of strings gives zero.
unfoldable pub same_string : List ℕ → List ℕ → Bool
same_string [] [] = true
same_string (x ∷ xs) (y ∷ ys) = x == y && same_string xs ys
same_string _ _ = false

-- The loop of `col_idx` and `row_idx`, from index `i` on; `none` stands for -1. A column with no
-- name is read through an empty optional.
unfoldable pub index_from : ℕ → List ℕ → List (Option (List ℕ)) → Run (Option ℕ)
unfolding same_string
index_from i name [] = ok none
index_from i name (none ∷ names) = fault undefined
index_from i name (some n ∷ names) =
    let rest = index_from (i + 1) name names in if same_string n name then ok (some i) else rest

unfoldable pub col_idx : Schema → List ℕ → Run (Option ℕ)
unfolding index_from
col_idx s name = index_from 0 name s.column_names

unfoldable pub row_idx : Schema → List ℕ → Run (Option ℕ)
unfolding index_from
row_idx s name = index_from 0 name s.row_names

-- The loops of `equals` over two lists of names, and over the types.
unfoldable pub same_names : List (Option (List ℕ)) → List (Option (List ℕ)) → Run Bool
same_names (some n ∷ ns) (some m ∷ ms) =
    let rest = same_names ns ms in if same_string n m then rest else ok false
same_names (none ∷ ns) _ = fault undefined
same_names (some n ∷ ns) (none ∷ ms) = fault undefined
same_names (some n ∷ ns) [] = fault undefined
same_names [] _ = ok true

unfoldable pub equals : Schema → Schema → Run Bool
unfolding same_names same_string
equals s o =
    if (s.width == o.width)
      && (s.rows == o.rows)
      && (length s.column_types == length o.column_types)
      && (length s.column_names == length o.column_names)
      && (length s.row_names == length o.row_names)
    then (do
      columns ← same_names s.column_names o.column_names
      if columns
          then (do
            rows ← same_names s.row_names o.row_names
            ok (rows && same_string s.column_types o.column_types))
          else ok false)
    else ok false

-- The loop of `serialize`, over the `width - i` types still to be written.
unfoldable pub serialize_types : ℕ → List ℕ → Run (List ℕ)
serialize_types zero types = ok []
serialize_types (suc left) [] = fault undefined
serialize_types (suc left) (t ∷ types) = do
  rest ← serialize_types left types
  ok (serialize_word 1 t ++ rest)

unfoldable pub serialize : Schema → Run (List ℕ)
unfolding serialize_types
serialize s = do
  types ← serialize_types s.width s.column_types
  ok (serialize_word 8 s.width ++ types)

unfoldable pub deserialize : Reader Schema
unfolding of_types
deserialize bytes pos = do
  (width, pos') ← deserialize_word 8 bytes pos
  (types, pos'') ← deserialize_chars width [] bytes pos'
  ok (of_types types, pos'')
