-- ===== src/DataFrame/Codec.antt =====
-- src/data/dataframe.cpp and include/data/dataframe.h: a frame that is read back has the columns of
-- the one that was written, and a schema without names.
use cs4500project.Column
use cs4500project.Column.Codec as ColumnCodec
use cs4500project.Column.View as ColumnView
use cs4500project.DataFrame
use cs4500project.Schema
use cs4500project.Schema.Codec as SchemaCodec
use cs4500project.Prelude.{
  ==_iff, ==_refl, All, Bool, List, Option, [], ap, append-nil, append_assoc, arith, assert, fault,
  length, length-append, length-map, map, none, ok, refl, replicate, suc, sym, true, undefined, ℕ,
  ◌++◌, ◌+◌, ◌<◌, ◌==◌, ◌>>=◌, ◌∙◌, ◌∷◌, ◌≡◌, ◌≢◌,
}
use cs4500project.Column.{Column, bool_column, float_column, int_column, string_column}
use cs4500project.DataFrame.{DataFrame, add_column, deserialize_columns, serialize_columns}
use cs4500project.DataFrame.Shape.{IsValid, col_type-get_type}
use cs4500project.Schema.{Schema}
use cs4500project.Serializable.{deserialize_word, serialize_word, size_max}
use cs4500project.Serializable.Words.{
  Decodes, Decodes-return, Decodes-then, Rest, Rest-append, Rest-append_between,
  deserialize_word-Decodes,
}

add_all : DataFrame → List Column → DataFrame
add_all df [] = df
add_all df (c ∷ cs) = add_all (add_column df c none) cs

deserialize_columns-Decodes :
    (s : Schema) (cs cs' : List Column) (df : DataFrame)
    → s.column_types ≡ map Column.get_type (cs ++ cs')
    → All ColumnView.IsValid cs'
    → All ColumnCodec.Fits cs'
    → Decodes
        (deserialize_columns s (length cs') (length cs) df)
        (serialize_columns cs')
        (add_all df cs')
unfolding deserialize_columns serialize_columns add_all
deserialize_columns-Decodes s cs [] df e v f bytes pos rest r = Decodes-return df bytes pos rest r
deserialize_columns-Decodes s cs (c ∷ cs') df e v f bytes pos rest r =
    let enc = Column.serialize c in
    let tail = serialize_columns cs' in
    let r₁ : Rest bytes pos (enc ++ (tail ++ rest)) = rw append_assoc at r in
    let ih =
      deserialize_columns-Decodes s (cs ++ c ∷ []) cs' (add_column df c none)
        (e ∙ ap (map Column.get_type) (sym (append_assoc cs (c ∷ []) cs'))) v.1 f.1 bytes
        (pos + length enc) rest (Rest-append enc (tail ++ rest) r₁) in
    let next : length (cs ++ c ∷ []) ≡ length cs + 1 = length-append cs (c ∷ []) in
    rw
      (
        col_type-get_type s cs cs' c e,
        deserialize_columns,
        ColumnCodec.deserialize-Decodes c v.0 f.0 bytes pos (tail ++ rest) r₁,
        length-append enc tail,
      )
      ((rw next at ih) ∙ ap (λ p. ok (add_all (add_column df c none) cs', p)) (omega arith))

-- The frame without the names and the count of rows in its schema.
abbrev pub unnamed : DataFrame → DataFrame
unnamed df = record df {
  schema = record {
    column_names = replicate (length df.columns) none;
    row_names = [];
    column_types = map Column.get_type df.columns;
    width = length df.columns;
    rows = 0;
  };
}

-- What the frame must keep to for its bytes to be read back.
pub record FitsBytes (df : DataFrame) : Type 0 where
  pub fits : All ColumnCodec.Fits df.columns
  pub small : length df.columns < size_max

-- A frame with these parts; the schema has no rows.
abbrev frame_of :
    List (Option (List ℕ)) → List (Option (List ℕ)) → List ℕ → ℕ → ℕ → List Column → DataFrame
frame_of names rns types w n cs = record {
  schema = record {
    column_names = names;
    row_names = rns;
    column_types = types;
    width = w;
    rows = n;
  };
  columns = cs;
}

add_all_eq :
    (cs : List Column) (names rns : List (Option (List ℕ))) (types : List ℕ) (w n : ℕ)
    (cols : List Column)
    → add_all (frame_of names rns types w n cols) cs
      ≡ frame_of
          (names ++ replicate (length cs) none)
          rns
          (types ++ map Column.get_type cs)
          (w + length cs)
          n
          (cols ++ cs)
unfolding add_all add_column Schema.add_column
add_all_eq [] names rns types w n cols =
    rw (append-nil names, append-nil types, append-nil cols)
      (ap (λ k. frame_of names rns types k n cols) (omega arith))
add_all_eq (c ∷ cs) names rns types w n cols =
    let ih =
      add_all_eq cs (names ++ none ∷ []) rns (types ++ Column.get_type c ∷ []) (w + 1) n
        (cols ++ c ∷ []) in
    ih
    ∙ rw
        (
          append_assoc names (none ∷ []) (replicate (length cs) none),
          append_assoc types (Column.get_type c ∷ []) (map Column.get_type cs),
          append_assoc cols (c ∷ []) cs,
        )
        (ap
          (λ k.
            frame_of (names ++ none ∷ replicate (length cs) none) rns
              (types ++ Column.get_type c ∷ map Column.get_type cs) k n (cols ++ c ∷ cs))
          (omega arith))

add_all-unnamed : (df : DataFrame) → add_all DataFrame.empty df.columns ≡ unnamed df
unfolding DataFrame.empty Schema.empty
add_all-unnamed df =
    add_all_eq df.columns [] [] [] 0 0 []
    ∙ ap
        (λ k.
          frame_of (replicate (length df.columns) none) [] (map Column.get_type df.columns) k 0
            df.columns)
        (omega arith)

get_type-IsType : (c : Column) → SchemaCodec.IsType (Column.get_type c)
unfolding Column.get_type
get_type-IsType (int_column a) = omega arith
get_type-IsType (float_column a) = omega arith
get_type-IsType (bool_column a) = omega arith
get_type-IsType (string_column a) = omega arith

types-IsType : (cs : List Column) → All SchemaCodec.IsType (map Column.get_type cs)
types-IsType [] = tt
types-IsType (c ∷ cs) = (get_type-IsType c, types-IsType cs)

schema-IsValid : (df : DataFrame) → IsValid df → FitsBytes df → SchemaCodec.IsValid df.schema
schema-IsValid df v f = record {
  counted = v.counted ∙ sym (length-map Column.get_type df.columns) ∙ ap length (sym v.typed);
  typed = rw v.typed (types-IsType df.columns);
  small = rw v.counted f.small;
}

unfoldable pub encoding : DataFrame → List ℕ
encoding df =
    SchemaCodec.encoding df.schema
    ++ (serialize_word 8 (length df.columns) ++ serialize_columns df.columns)

serialize-encoding :
    (df : DataFrame) → IsValid df → FitsBytes df → DataFrame.serialize df ≡ ok (encoding df)
unfolding DataFrame.serialize encoding
serialize-encoding df v f = rw (SchemaCodec.serialize-encoding df.schema (schema-IsValid df v f)) (
    ap ok (
      append_assoc (SchemaCodec.encoding df.schema) (serialize_word 8 (length df.columns))
        (serialize_columns df.columns)))

pub deserialize-Decodes :
    (df : DataFrame)
    → IsValid df
    → FitsBytes df
    → Decodes DataFrame.deserialize (encoding df) (unnamed df)
unfolding DataFrame.deserialize encoding
deserialize-Decodes df v f =
    let schema = SchemaCodec.bare df.schema in
    let n = length df.columns in
    let same : (n == schema.width) ≡ true = (==_iff _ _).1 (sym v.counted) in
    Decodes-then Schema.deserialize
      (λ s bytes pos. deserialize_word 8 bytes pos >>= λ r.
        assert (r.0 == s.width) >>= λ _. deserialize_columns s r.0 0 DataFrame.empty bytes r.1)
      (SchemaCodec.encoding df.schema) (serialize_word 8 n ++ serialize_columns df.columns) schema
      (unnamed df) (SchemaCodec.deserialize-Decodes df.schema (schema-IsValid df v f))
      (Decodes-then (deserialize_word 8)
        (λ k bytes pos. assert (k == schema.width) >>= λ _.
          deserialize_columns schema k 0 DataFrame.empty bytes pos)
        (serialize_word 8 n) (serialize_columns df.columns) n (unnamed df)
        (deserialize_word-Decodes 8 n f.small)
        (λ bytes pos rest r. rw same (
          rw (add_all-unnamed df) at (
            deserialize_columns-Decodes schema [] df.columns DataFrame.empty v.typed v.sound f.fits
              bytes pos rest r))))

-- A well-formed frame whose values fit their words is written to bytes, and read back from them,
-- wherever they stand among fewer than 2 ^ 64 bytes in all: with the same columns, and a schema
-- of the same types with no names and no rows.
pub deserialize_frame-serialize :
    (pre : List ℕ) (df : DataFrame) (post : List ℕ)
    → IsValid df
    → FitsBytes df
    → length (pre ++ encoding df ++ post) < size_max
    → (DataFrame.serialize df ≡ ok (encoding df))
      × (DataFrame.deserialize (pre ++ encoding df ++ post) (length pre)
          ≡ ok (unnamed df, length pre + length (encoding df)))
deserialize_frame-serialize pre df post v f total = (
  serialize-encoding df v f,
  deserialize-Decodes df v f (pre ++ encoding df ++ post) (length pre) post
      (Rest-append_between pre (encoding df) post total),
)

equals_first :
    (same_float : ℕ → ℕ → Bool) (cs : List Column)
    → cs ≢ []
    → let f = frame_of (replicate (length cs) none) [] (map Column.get_type cs) (length cs) 0 cs in
      DataFrame.equals same_float f f ≡ fault undefined
unfolding DataFrame.equals Schema.equals Schema.same_names
equals_first same_float [] h = absurd (h refl)
equals_first same_float (c ∷ cs) h = rw (
  ==_refl (suc (length cs)),
  ==_refl (suc (length (map Column.get_type cs))),
  ==_refl (suc (length (replicate {A = Option (List ℕ)} (length cs) none))),
)

-- A frame with columns whose columns have no names, such as one that is read back from bytes,
-- cannot be compared by `equals` with itself: the comparison of the names reads an empty optional.
pub equals-unnamed :
    (same_float : ℕ → ℕ → Bool) (df : DataFrame)
    → df.columns ≢ []
    → DataFrame.equals same_float (unnamed df) (unnamed df) ≡ fault undefined
equals-unnamed same_float df h = equals_first same_float df.columns h
