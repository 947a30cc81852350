-- ===== src/Serializable/Bits.antt =====
-- include/util/serializable.h, bit sets: the byte form of a `std::vector<bool>` is read back.
use cs4500project.Prelude.{
  Bool, Bool-cases, List, [], ap, append-nil, append_assoc, arith, false, get_elem?, get_elem?-drop,
  if◌then◌else◌, inl, inr, length, length-append, ltb, lt→ltb, ok, refl, some, subst, suc, true,
  zero, ℕ, ◌%◌, ◌*◌, ◌++◌, ◌+◌, ◌/◌, ◌<◌, ◌==◌, ◌^◌, ◌∙◌, ◌∷◌, ◌≡◌, ◌≤◌,
}
use Prim.Native.Nat.{bit_or}
use cs4500project.Serializable.{
  deserialize_bools, has_bit, pack_bits, serialize_bools, serialize_word, size_max, to_bit,
  unpack_bits,
}
use cs4500project.Serializable.Bytes.{bit_or_add, has_bit_read, next_lt, pow_le, shift_eq}
use cs4500project.Serializable.Words.{
  Decodes, Rest, Rest-append, Rest-append_between, Rest-length, deserialize_word-Rest,
  length-serialize_word,
}

-- What the packing loop adds behind `vec`.
pack_tail : List Bool → ℕ → ℕ → List ℕ
pack_tail [] byte n = if ltb 0 n then byte ∷ [] else []
pack_tail (b ∷ vb) byte n =
    if n == 8
    then byte ∷ pack_tail vb (to_bit b) 1
    else pack_tail vb (bit_or byte (to_bit b * 2 ^ n)) (n + 1)

pack_bits-pack_tail :
    (vb : List Bool) (vec : List ℕ) (byte n : ℕ)
    → pack_bits vb vec byte n ≡ vec ++ pack_tail vb byte n
unfolding pack_bits pack_tail
pack_bits-pack_tail [] vec byte n = elim (Bool-cases (ltb 0 n)) [
  | inl e ↦ rw e
  | inr e ↦ rw (e, append-nil)
]
pack_bits-pack_tail (b ∷ vb) vec byte n = elim (Bool-cases (n == 8)) [
  | inl e ↦ rw e (pack_bits-pack_tail vb (vec ++ byte ∷ []) (to_bit b) 1 ∙ append_assoc vec _ _)
  | inr e ↦ rw e (pack_bits-pack_tail vb vec (bit_or byte (to_bit b * 2 ^ n)) (n + 1))
]

-- The first byte keeps the bits that were there, below those that follow.
pack_tail-head :
    (vb : List Bool) (x n : ℕ)
    → 0 < n
    → n ≤ 8
    → x < 2 ^ n
    → (q : ℕ) × (tl : List ℕ) × (pack_tail vb x n ≡ (x + 2 ^ n * q) ∷ tl) × (x + 2 ^ n * q < 256)
unfolding pack_tail
pack_tail-head [] x n pos le h =
    (0, [], rw (lt→ltb 0 n pos) (ap (λ y. y ∷ []) (omega arith)), omega (arith, pow_le n le))
pack_tail-head (b ∷ vb) x n pos le h = elim (Bool-cases (n == 8)) [
  | inl e ↦ (
    0,
    pack_tail vb (to_bit b) 1,
    rw e (ap (λ y. y ∷ pack_tail vb (to_bit b) 1) (omega arith)),
    omega (arith, pow_le n le),
  )
  | inr e ↦
      let lt : n < 8 = ground arith in
      let small : x < 256 = omega (arith, pow_le n le) in
      let sum = bit_or_add b x n lt small h in
      let (q, tl, eq, bound) =
        pack_tail-head vb (x + to_bit b * 2 ^ n) (suc n) (omega arith) (omega arith)
          (next_lt b x n h) in
      let same = shift_eq (to_bit b) x n q in
      let one : n + 1 ≡ suc n = omega arith in
      (to_bit b + 2 * q, tl, rw (e, sum, one, ← same) eq, omega arith)
]

pack_tail_full : (vb : List Bool) (x : ℕ) → pack_tail vb x 8 ≡ x ∷ pack_tail vb 0 0
unfolding pack_tail
pack_tail_full [] x = refl
pack_tail_full (true ∷ vb) x = refl
pack_tail_full (false ∷ vb) x = refl

read_step :
    (b : Bool) (left : ℕ) (vec : List Bool) (n bound : ℕ) (bytes : List ℕ) (pos byte : ℕ)
    → pos < bound
    → get_elem? bytes pos ≡ some byte
    → has_bit byte n ≡ b
    → unpack_bits (suc left) vec n bound bytes pos
      ≡ unpack_bits left
          (vec ++ b ∷ [])
          (if n + 1 == 8 then 0 else n + 1)
          bound
          bytes
          (if n + 1 == 8 then pos + 1 else pos)
unfolding unpack_bits
read_step b left vec n bound bytes pos byte lt e h = rw (lt→ltb pos bound lt, unpack_bits, e, h)

get_elem?-Rest :
    {bytes : List ℕ} {pos : ℕ} (x : ℕ) (tl : List ℕ)
    → Rest bytes pos (x ∷ tl)
    → get_elem? bytes pos ≡ some x
get_elem?-Rest {bytes} {pos} x tl r = get_elem?-drop pos bytes ∙ rw r.rest_eq

-- The two loops in step: the reader stands before bit `n` of the byte of which the writer has `x`.
unpack_bits-pack_tail :
    (vb vec : List Bool) (x n bound : ℕ) (bytes : List ℕ) (pos : ℕ) (rest : List ℕ)
    → n < 8
    → x < 2 ^ n
    → Rest bytes pos (pack_tail vb x n ++ rest)
    → bound ≡ pos + length (pack_tail vb x n)
    → unpack_bits (length vb) vec n bound bytes pos ≡ ok (vec ++ vb, bound)
unfolding unpack_bits pack_tail
unpack_bits-pack_tail [] vec x zero bound bytes pos rest lt h r e =
    rw append-nil (ap (λ p. ok (vec, p)) (omega arith))
unpack_bits-pack_tail [] vec x (suc n) bound bytes pos rest lt h r e =
    rw append-nil (ap (λ p. ok (vec, p)) (grind arith))
unpack_bits-pack_tail (b ∷ vb) vec x n bound bytes pos rest lt h r e =
    let not_full : (n == 8) ≡ false = ground arith in
    let one : n + 1 ≡ suc n = omega arith in
    let sum = bit_or_add b x n lt (omega (arith, pow_le n)) h in
    let x' : ℕ = x + to_bit b * 2 ^ n in
    let (q, tl, eq, small) =
      pack_tail-head vb x' (suc n) (omega arith) (omega arith) (next_lt b x n h) in
    let tail_eq : pack_tail (b ∷ vb) x n ≡ pack_tail vb x' (suc n) = rw (not_full, sum, one) in
    let r' : Rest bytes pos (pack_tail vb x' (suc n) ++ rest) = rw tail_eq at r in
    let size : length (pack_tail vb x' (suc n)) ≡ suc (length tl) = ap length eq in
    let size' = ap length tail_eq in
    let head : get_elem? bytes pos ≡ some (x' + 2 ^ suc n * q) =
      get_elem?-Rest _ (tl ++ rest) (rw eq at r') in
    let bit : has_bit (x' + 2 ^ suc n * q) n ≡ b =
      rw (shift_eq (to_bit b) x n q)
        (has_bit_read b x n q lt h (rw (shift_eq (to_bit b) x n q) at small)) in
    read_step b (length vb) vec n bound bytes pos _ (omega arith) head bit
    ∙ (elim (Bool-cases (n + 1 == 8)) [
      | inl e₈ ↦
          let full : pack_tail vb x' (suc n) ≡ x' ∷ pack_tail vb 0 0 =
            subst (λ k. pack_tail vb x' k ≡ x' ∷ pack_tail vb 0 0)
              (let k : 8 ≡ suc n = ground arith in k) (pack_tail_full vb x') in
          let r₈ : Rest bytes pos ((x' ∷ []) ++ (pack_tail vb 0 0 ++ rest)) = rw full at r' in
          rw e₈ (
            unpack_bits-pack_tail vb (vec ++ b ∷ []) 0 0 bound bytes (pos + 1) rest (omega arith)
              (omega arith) (Rest-append (x' ∷ []) (pack_tail vb 0 0 ++ rest) r₈)
              (omega (arith, ap length full))
            ∙ ap (λ v. ok (v, bound)) (append_assoc vec (b ∷ []) vb))
      | inr e₈ ↦
          rw (e₈, one)
            (unpack_bits-pack_tail vb (vec ++ b ∷ []) x' (suc n) bound bytes pos rest (ground arith)
                (next_lt b x n h) r' (omega arith)
              ∙ ap (λ v. ok (v, bound)) (append_assoc vec (b ∷ []) vb))
    ])

byte_count : ℕ → ℕ
byte_count len = len / 8 + (if ltb 0 (len % 8) then 1 else 0)

length-pack_tail :
    (vb : List Bool) (x n : ℕ) → n ≤ 8 → length (pack_tail vb x n) ≡ byte_count (n + length vb)
unfolding pack_tail byte_count
length-pack_tail [] x n h = ground arith
length-pack_tail (b ∷ vb) x n h = ground (
  arith,
  length-pack_tail vb (to_bit b) 1 (omega arith),
  length-pack_tail vb (bit_or x (to_bit b * 2 ^ n)) (n + 1),
)

serialize_bools-pack_tail :
    (vb : List Bool) → serialize_bools vb ≡ serialize_word 8 (length vb) ++ pack_tail vb 0 0
unfolding serialize_bools
serialize_bools-pack_tail vb = pack_bits-pack_tail vb (serialize_word 8 (length vb)) 0 0

-- The byte form has eight bytes for the length and one byte for eight Booleans, rounded up.
pub length-serialize_bools :
    (vb : List Bool)
    → length (serialize_bools vb) ≡ 8 + (length vb / 8 + (if ltb 0 (length vb % 8) then 1 else 0))
unfolding byte_count
length-serialize_bools vb =
    ap length (serialize_bools-pack_tail vb)
    ∙ length-append (serialize_word 8 (length vb)) (pack_tail vb 0 0)
    ∙ rw (length-serialize_word, length-pack_tail vb 0 0 (omega arith))
        (ap (λ k. 8 + byte_count k) (omega arith))

pub deserialize_bools-Decodes :
    (vb : List Bool) → length vb < size_max → Decodes deserialize_bools (serialize_bools vb) vb
unfolding deserialize_bools byte_count
deserialize_bools-Decodes vb fits bytes pos rest r =
    let word = serialize_word 8 (length vb) in
    let tail = pack_tail vb 0 0 in
    let size = length-serialize_word 8 (length vb) in
    let r₁ : Rest bytes pos (word ++ (tail ++ rest)) =
      rw (serialize_bools-pack_tail, append_assoc) at r in
    let r₂ : Rest bytes (pos + 8) (tail ++ rest) =
      subst (λ k. Rest bytes (pos + k) (tail ++ rest)) size (Rest-append word _ r₁) in
    let count : length tail ≡ byte_count (length vb) =
      length-pack_tail vb 0 0 (omega arith) ∙ ap byte_count (omega arith) in
    let total : length (serialize_bools vb) ≡ 8 + length tail =
      length-serialize_bools vb ∙ omega arith in
    let bound : (byte_count (length vb) + (pos + 8)) % size_max ≡ pos + 8 + length tail =
      omega (arith, r₂.fits, Rest-length r₂, length-append tail rest) in
    rw (deserialize_word-Rest 8 (length vb) (tail ++ rest) r₁ fits) (
      unpack_bits-pack_tail vb [] 0 0 _ bytes (pos + 8) rest (omega arith) (omega arith) r₂ bound
      ∙ ap (λ p. ok (vb, p)) (omega arith))

-- A list of fewer than 2 ^ 64 Booleans is read back from its byte form, wherever that stands
-- among fewer than 2 ^ 64 bytes in all, and the position ends up behind it.
pub deserialize_bools-serialize_bools :
    (pre : List ℕ) (vb : List Bool) (post : List ℕ)
    → length vb < size_max
    → length (pre ++ serialize_bools vb ++ post) < size_max
    → deserialize_bools (pre ++ serialize_bools vb ++ post) (length pre)
      ≡ ok (vb, length pre + length (serialize_bools vb))
deserialize_bools-serialize_bools pre vb post fits total =
    deserialize_bools-Decodes vb fits (pre ++ serialize_bools vb ++ post) (length pre) post
      (Rest-append_between pre (serialize_bools vb) post total)
