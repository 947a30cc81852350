-- ===== src/Packet/Whole.antt =====
-- src/network/packet.cpp, `pack` and `unpack`: the round trip, what a short buffer does, and the
-- length that gets past the test of the buffer's size.
use cs4500project.Prelude.{
  List, Run, [], ap, append_assoc, arith, drop, drop-append, fault, if◌then◌else◌, length,
  length-append, le→ltb_false, ltb, lt→ltb, ok, refl, subst, suc, sym, take, take-append, undefined,
  ℕ, ◌%◌, ◌++◌, ◌+◌, ◌<◌, ◌>>=◌, ◌∙◌, ◌∷◌, ◌≡◌, ◌≤◌,
}
use cs4500project.Packet.{int_max, minus_one, Packet, copy_bytes, pack, unpack}
use cs4500project.Serializable.{from_bytes, serialize_word, size_max}
use cs4500project.Serializable.Words.{from_bytes-serialize_word, length-serialize_word}

pub take_header : (t : ℕ) (rest : List ℕ) → copy_bytes 0 1 (t ∷ rest) ≡ ok (t ∷ [])
unfolding copy_bytes
take_header t rest = rw (le→ltb_false (suc (length rest)) 1 (omega arith))

take_zero : {A : Type 0} (xs : List A) → take 0 xs ≡ []
take_zero xs = refl

-- The bytes of the length.
pub copy_length :
    (t n : ℕ) (rest : List ℕ)
    → copy_bytes 1 8 (t ∷ (serialize_word 8 n ++ rest)) ≡ ok (serialize_word 8 n)
unfolding copy_bytes
copy_length t n rest =
    let word = serialize_word 8 n in
    let size = length-serialize_word 8 n in
    let taken : take 8 (word ++ rest) ≡ word =
      subst (λ j. take j (word ++ rest) ≡ word) size (take-append word rest) in
    rw
      (le→ltb_false (suc (length (word ++ rest))) 9 (omega (arith, length-append word rest)), taken)

-- The bytes behind the header.
pub copy_value :
    (t n : ℕ) (xs rest : List ℕ)
    → copy_bytes 9 (length xs) (t ∷ (serialize_word 8 n ++ (xs ++ rest))) ≡ ok xs
unfolding copy_bytes
copy_value t n xs rest =
    let word = serialize_word 8 n in
    let size = length-serialize_word 8 n in
    let dropped : drop 8 (word ++ (xs ++ rest)) ≡ xs ++ rest =
      subst (λ j. drop j (word ++ (xs ++ rest)) ≡ xs ++ rest) size
        (drop-append word (xs ++ rest)) in
    rw (
      le→ltb_false (suc (length (word ++ (xs ++ rest)))) (9 + length xs)
          (omega (arith, length-append word (xs ++ rest), length-append xs rest)),
      dropped,
      take-append xs rest,
    )

pub from_bytes-one : (t : ℕ) → from_bytes (t ∷ []) ≡ t
unfolding from_bytes
from_bytes-one t = omega arith

abbrev pub header : ℕ → ℕ → List ℕ → List ℕ
header t n rest = t ∷ (serialize_word 8 n ++ rest)

pub length-header : (t n : ℕ) (rest : List ℕ) → length (header t n rest) ≡ 9 + length rest
length-header t n rest =
    omega (arith, length-append (serialize_word 8 n) rest, length-serialize_word 8 n)

-- What is left to do once the header is read.
abbrev pub unpack_value : ℕ → ℕ → List ℕ → Run (ℕ × Packet)
unpack_value t n buffer =
    if ltb (length buffer) ((9 + n) % size_max)
    then ok (minus_one, record { remaining_len = n; typ = 0; value = [] })
    else (copy_bytes 9 n buffer >>= λ value.
        ok ((9 + n) % size_max % int_max, record { remaining_len = 0; typ = t; value = value }))

unpack-header :
    (q : Packet) (t n : ℕ) (buffer : List ℕ)
    → 9 ≤ length buffer
    → copy_bytes 0 1 buffer ≡ ok (t ∷ [])
    → copy_bytes 1 8 buffer ≡ ok (serialize_word 8 n)
    → n < size_max
    → unpack q buffer ≡ unpack_value t n buffer
unfolding unpack
unpack-header q t n buffer h e e' small = rw (
  le→ltb_false (length buffer) 1 (omega arith),
  le→ltb_false (length buffer) (1 + 8) (omega arith),
  e,
  e',
  from_bytes-serialize_word 8 n small,
  from_bytes-one t,
)

unpack-header_bytes :
    (q : Packet) (t n : ℕ) (rest : List ℕ)
    → n < size_max
    → unpack q (header t n rest) ≡ unpack_value t n (header t n rest)
unpack-header_bytes q t n rest small =
    unpack-header q t n (header t n rest) (omega (arith, length-header t n rest))
      (take_header t (serialize_word 8 n ++ rest)) (copy_length t n rest) small

-- A packet whose packed form is shorter than 2 ^ 64 bytes is unpacked from the start of any buffer
-- that begins with its packed form: the type and the value come back, nothing remains to be read,
-- and the result is the number of bytes that were packed, narrowed to an `int`: modulo 2 ^ 32,
-- where a number from 2 ^ 31 on stands for a negative one.
pub unpack-pack :
    (q p : Packet) (rest : List ℕ)
    → 9 + length p.value < size_max
    → unpack q (pack p ++ rest)
      ≡ ok (length (pack p) % int_max, record { remaining_len = 0; typ = p.typ; value = p.value })
unfolding pack
unpack-pack q p rest h =
    let n = length p.value in
    let buffer = header p.typ n (p.value ++ rest) in
    let buffer_eq : pack p ++ rest ≡ buffer =
      ap (◌∷◌ p.typ) (append_assoc (serialize_word 8 n) p.value rest) in
    let size : 9 + n ≤ length buffer =
      omega (arith, length-header p.typ n (p.value ++ rest), length-append p.value rest) in
    let wrapped : (9 + n) % size_max ≡ 9 + n = omega arith in
    let packed : length (pack p) ≡ 9 + n = length-header p.typ n p.value in
    ap (unpack q) buffer_eq
    ∙ unpack-header_bytes q p.typ n (p.value ++ rest) (omega arith)
    ∙ rw (wrapped, le→ltb_false (length buffer) (9 + n) size, copy_value p.typ n p.value rest)
        (ap (λ k. ok (k % int_max, record { remaining_len = 0; typ = p.typ; value = p.value }))
          (sym packed))

-- A buffer that holds a header and then fewer bytes than the header's length says gives -1, and the
-- packet is left without type and value. Header and value are shorter than 2 ^ 64 bytes.
pub unpack_short :
    (q : Packet) (t n : ℕ) (rest : List ℕ)
    → length rest < n
    → 9 + n < size_max
    → unpack q (header t n rest) ≡ ok (minus_one, record { remaining_len = n; typ = 0; value = [] })
unpack_short q t n rest lt h =
    let size = length-header t n rest in
    let wrapped : (9 + n) % size_max ≡ 9 + n = omega arith in
    unpack-header_bytes q t n rest (omega arith)
    ∙ rw (wrapped, lt→ltb (length (header t n rest)) (9 + n) (omega arith))

-- A buffer that is shorter than a header gives -1, and the packet is left without type and value.
pub unpack_no_header :
    (q : Packet) (buffer : List ℕ)
    → length buffer < 9
    → unpack q buffer ≡ ok (minus_one, record q { typ = 0; value = [] })
unfolding unpack
unpack_no_header q buffer h = ground arith

-- A length from the last nine below 2 ^ 64, in a buffer that is shorter than it says, makes the
-- sum with the header's size wrap and passes the test of the buffer's size, and the copy then
-- reads behind the buffer.
pub unpack_overflow :
    (q : Packet) (t n : ℕ) (rest : List ℕ)
    → n < size_max
    → size_max ≤ 9 + n
    → 9 + length rest < n
    → unpack q (header t n rest) ≡ fault undefined
unfolding copy_bytes
unpack_overflow q t n rest small big room =
    let size = length-header t n rest in
    let buffer = header t n rest in
    unpack-header_bytes q t n rest small
    ∙ rw (
      le→ltb_false (length buffer) ((9 + n) % size_max) (omega arith),
      lt→ltb (length buffer) (9 + n) (omega arith),
    )
