-- ===== src/Schema/Codec.antt =====
-- include/data/schema.h and src/data/schema.cpp: the byte form of a schema keeps the types and
-- drops the rest.
use cs4500project.Schema
use cs4500project.Prelude.{
  All, List, [], ap, append-nil, append_assoc, ap₂, arith, false, length, ok, refl, ℕ, ◌++◌, ◌+◌,
  ◌<◌, ◌==◌, ◌>>=◌, ◌∙◌, ◌∷◌, ◌≡◌, ◌≢◌,
}
use cs4500project.Schema.{Schema, of_types, scan_types, serialize_types}
use cs4500project.Serializable.{
  deserialize_chars, deserialize_word, serialize_chars, serialize_word, size_max,
}
use cs4500project.Serializable.Strings.{IsBytes, deserialize_chars-Decodes}
use cs4500project.Serializable.Words.{
  Decodes, Decodes-then, Rest-append_between, deserialize_word-Decodes,
}

-- A character that the constructor from a C string takes for a type.
abbrev pub IsType : ℕ → Type 0
IsType c = (c ≢ 0) × (c ≢ 32) × (c < 256)

pub record IsValid (s : Schema) : Type 0 where
  pub counted : s.width ≡ length s.column_types
  pub typed : All IsType s.column_types
  pub small : s.width < size_max

-- The schema without its names and its rows.
abbrev pub bare : Schema → Schema
bare s = record s { column_names = []; row_names = []; rows = 0 }

scan_types-IsType :
    (cs types : List ℕ) (width : ℕ)
    → All IsType cs
    → scan_types cs types width ≡ (types ++ cs, width + length cs)
unfolding scan_types
scan_types-IsType [] types width h = rw append-nil (ap (λ w. (types, w)) (omega arith))
scan_types-IsType (c ∷ cs) types width h =
    let p : (c == 0) ≡ false = ground arith in
    let q : (c == 32) ≡ false = ground arith in
    rw (p, q)
      (scan_types-IsType cs (types ++ c ∷ []) (width + 1) h.1
        ∙ ap₂ (λ a w. (a, w)) (append_assoc types (c ∷ []) cs) (omega arith))

-- A string of types without spaces and zeros makes the schema with just those types.
pub of_types-IsType :
    (cs : List ℕ)
    → All IsType cs
    → of_types cs
      ≡ record { column_names = []; row_names = []; column_types = cs; width = length cs; rows = 0 }
unfolding of_types
of_types-IsType cs h = rw (scan_types-IsType cs [] 0 h) (
    ap (λ w. record { column_names = []; row_names = []; column_types = cs; width = w; rows = 0 })
      (omega arith))

serialize_types_all :
    (types : List ℕ) → serialize_types (length types) types ≡ ok (serialize_chars types)
unfolding serialize_types serialize_chars
serialize_types_all [] = refl
serialize_types_all (t ∷ types) = rw (serialize_types_all types)

unfoldable pub encoding : Schema → List ℕ
encoding s = serialize_word 8 s.width ++ serialize_chars s.column_types

pub serialize-encoding : (s : Schema) → IsValid s → Schema.serialize s ≡ ok (encoding s)
unfolding Schema.serialize encoding
serialize-encoding s v = rw (v.counted, serialize_types_all s.column_types)

IsType-IsBytes : (cs : List ℕ) → All IsType cs → IsBytes cs
IsType-IsBytes [] h = tt
IsType-IsBytes (c ∷ cs) h = (h.0.2, IsType-IsBytes cs h.1)

pub deserialize-Decodes :
    (s : Schema) → IsValid s → Decodes Schema.deserialize (encoding s) (bare s)
unfolding Schema.deserialize encoding
deserialize-Decodes s v =
    let types = s.column_types in
    Decodes-then (deserialize_word 8)
      (λ w bytes pos. deserialize_chars w [] bytes pos >>= λ r. ok (of_types r.0, r.1))
      (serialize_word 8 s.width) (serialize_chars types) s.width (bare s)
      (deserialize_word-Decodes 8 s.width v.small)
      (λ bytes pos rest r. rw (
        v.counted,
        deserialize_chars-Decodes types [] (IsType-IsBytes types v.typed) bytes pos rest r,
        of_types-IsType types v.typed,
      ))

-- A schema of fewer than 2 ^ 64 columns whose types are characters other than zero and space is
-- read back with its types and width, without names and rows, wherever its bytes stand among
-- fewer than 2 ^ 64 bytes in all.
pub deserialize_schema-serialize :
    (pre : List ℕ) (s : Schema) (post : List ℕ)
    → IsValid s
    → length (pre ++ encoding s ++ post) < size_max
    → (Schema.serialize s ≡ ok (encoding s))
      × (Schema.deserialize (pre ++ encoding s ++ post) (length pre)
          ≡ ok (bare s, length pre + length (encoding s)))
deserialize_schema-serialize pre s post v total = (
  serialize-encoding s v,
  deserialize-Decodes s v (pre ++ encoding s ++ post) (length pre) post
      (Rest-append_between pre (encoding s) post total),
)
