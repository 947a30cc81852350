-- ===== src/Examples/Codecs.antt =====
-- Byte forms of strings, Booleans, columns, schemas and frames, applied to small values.
use cs4500project.Column
use cs4500project.DataFrame
use cs4500project.NullableArray
use cs4500project.Schema.Codec as SchemaCodec
use cs4500project.Prelude.{Bool, List, [], arith, false, length, ok, true, ℕ, ◌++◌, ◌+◌, ◌∷◌, ◌≡◌}
use cs4500project.Column.{Column}
use cs4500project.DataFrame.{DataFrame}
use cs4500project.DataFrame.Codec.{deserialize_frame-serialize, encoding, unnamed}
use cs4500project.Examples.{two_columns, two_columns-FitsBytes, two_columns-IsValid}
use cs4500project.NullableArray.{NullableArray}
use cs4500project.Schema.{Schema}
use cs4500project.Serializable.{serialize_bools, serialize_chars, serialize_string}

abbrev word : List ℕ
word = b'h' ∷ b'i' ∷ []

abbrev flags : List Bool
flags = true ∷ false ∷ true ∷ true ∷ false ∷ false ∷ true ∷ false ∷ true ∷ []

abbrev two_types : Schema
two_types = two_columns.schema

deserialize_frame_example :
    (DataFrame.serialize two_columns ≡ ok (encoding two_columns))
    × (DataFrame.deserialize ([] ++ encoding two_columns ++ []) 0
        ≡ ok (unnamed two_columns, 0 + length (encoding two_columns)))
unfolding encoding SchemaCodec.encoding Column.serialize NullableArray.serialize serialize_bools
    serialize_chars DataFrame.serialize_columns serialize_string
deserialize_frame_example =
    deserialize_frame-serialize [] two_columns [] two_columns-IsValid two_columns-FitsBytes
      (omega arith)
