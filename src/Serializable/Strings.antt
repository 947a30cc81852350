-- ===== src/Serializable/Strings.antt =====
-- include/util/serializable.h, strings: the round trip.
use cs4500project.Prelude.{
  All, List, [], append-nil, append_assoc, ap₂, arith, length, length-append, ok, refl, subst, ℕ,
  ◌++◌, ◌+◌, ◌<◌, ◌∙◌, ◌∷◌, ◌≡◌,
}
use cs4500project.Serializable.{
  deserialize_chars, deserialize_string, deserialize_word, serialize_chars, serialize_string,
  serialize_word, size_max,
}
use cs4500project.Serializable.Words.{
  Decodes, Decodes-return, Decodes-then, Rest, Rest-append, Rest-append_between,
  deserialize_word-Decodes, deserialize_word-Rest, length-serialize_word,
}

abbrev pub IsBytes : List ℕ → Type 0
IsBytes = All (λ b. b < 256)

pub length-serialize_chars : (s : List ℕ) → length (serialize_chars s) ≡ length s
unfolding serialize_chars
length-serialize_chars [] = refl
length-serialize_chars (c ∷ s) = omega (
  arith,
  length-append (serialize_word 1 c) (serialize_chars s),
  length-serialize_word 1 c,
  length-serialize_chars s,
)

pub length-serialize_string : (s : List ℕ) → length (serialize_string s) ≡ 8 + length s
unfolding serialize_string
length-serialize_string s = omega (
  arith,
  length-append (serialize_word 8 (length s)) (serialize_chars s),
  length-serialize_word 8 (length s),
  length-serialize_chars s,
)

pub deserialize_chars-Decodes :
    (s acc : List ℕ)
    → IsBytes s
    → Decodes (deserialize_chars (length s) acc) (serialize_chars s) (acc ++ s)
unfolding deserialize_chars serialize_chars
deserialize_chars-Decodes [] acc h bytes pos rest r =
    rw append-nil (Decodes-return acc bytes pos rest r)
deserialize_chars-Decodes (c ∷ s) acc h bytes pos rest r =
    let r₁ : Rest bytes pos (serialize_word 1 c ++ (serialize_chars s ++ rest)) =
      rw append_assoc at r in
    let size = length-serialize_word 1 c in
    let r₂ : Rest bytes (pos + 1) (serialize_chars s ++ rest) =
      subst (λ k. Rest bytes (pos + k) (serialize_chars s ++ rest)) size
        (Rest-append (serialize_word 1 c) _ r₁) in
    let total : length (serialize_word 1 c ++ serialize_chars s) ≡ 1 + length (serialize_chars s) =
      omega (arith, length-append (serialize_word 1 c) (serialize_chars s)) in
    rw
      (
        deserialize_word-Rest 1 c (serialize_chars s ++ rest) r₁ (omega arith),
        deserialize_chars,
        total,
      )
      (deserialize_chars-Decodes s (acc ++ c ∷ []) h.1 bytes (pos + 1) rest r₂
        ∙ ap₂ (λ a p. ok (a, p)) (append_assoc acc (c ∷ []) s) (omega arith))

pub deserialize_string-Decodes :
    (s : List ℕ)
    → IsBytes s
    → length s < size_max
    → Decodes deserialize_string (serialize_string s) s
unfolding deserialize_string serialize_string
deserialize_string-Decodes s h fits =
    Decodes-then (deserialize_word 8) (λ len. deserialize_chars len [])
      (serialize_word 8 (length s)) (serialize_chars s) (length s) s
      (deserialize_word-Decodes 8 (length s) fits) (deserialize_chars-Decodes s [] h)

-- A string of bytes is read back from its byte form, wherever that stands among fewer than 2 ^ 64
-- bytes in all, and the position ends up behind it.
pub deserialize_string-serialize_string :
    (pre s post : List ℕ)
    → IsBytes s
    → length (pre ++ serialize_string s ++ post) < size_max
    → deserialize_string (pre ++ serialize_string s ++ post) (length pre)
      ≡ ok (s, length pre + length (serialize_string s))
deserialize_string-serialize_string pre s post h fits =
    let enc = serialize_string s in
    let small : length s < size_max =
      omega (
        arith,
        length-serialize_string s,
        length-append (pre ++ enc) post,
        length-append pre enc,
      ) in
    deserialize_string-Decodes s h small (pre ++ enc ++ post) (length pre) post
      (Rest-append_between pre enc post fits)
