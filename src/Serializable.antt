-- ===== src/Serializable.antt =====
-- include/util/serializable.h: the byte form of words, strings and bit sets.
pub mod Words
pub mod Strings
pub mod Bytes
pub mod Bits
use Prim.Native.Nat.{bit_and, bit_or}
use cs4500project.Prelude.{
  ℕ, zero, suc, ◌+◌, ◌-◌, ◌*◌, ◌/◌, ◌%◌, ◌^◌, Bool, true, false, ◌||◌, Option, none, some, List, [],
  ◌∷◌, ◌++◌, length, get_elem?, take, drop, ltb, ◌==◌, if◌then◌else◌, Run, ok, fault, short_data,
  assert, require, ◌>>=◌, ◌>>◌,
}

-- Sizes and positions are `size_t`, 64 bits wide.
abbrev pub size_max : ℕ
size_max = 2 ^ 64

-- The bytes of a word of `k` bytes, least significant first.
unfoldable pub serialize_word : ℕ → ℕ → List ℕ
serialize_word zero n = []
serialize_word (suc k) n = (n % 256) ∷ serialize_word k (n / 256)

unfoldable pub from_bytes : List ℕ → ℕ
from_bytes [] = 0
from_bytes (b ∷ bs) = b + 256 * from_bytes bs

-- A reader takes the bytes and a position, and returns the position behind what it read.
abbrev pub Reader {ℓ} : Type ℓ → Type ℓ
Reader A = List ℕ → ℕ → Run (A × ℕ)

unfoldable pub deserialize_word : ℕ → Reader ℕ
unfolding from_bytes
deserialize_word k bytes pos =
    if ltb (length bytes) pos || ltb (length bytes - pos) k
    then fault short_data
    else ok (from_bytes (take k (drop pos bytes)), pos + k)

-- Strings: the length, then a byte for each character.
unfoldable pub serialize_chars : List ℕ → List ℕ
serialize_chars [] = []
serialize_chars (c ∷ s) = serialize_word 1 c ++ serialize_chars s

unfoldable pub serialize_string : List ℕ → List ℕ
unfolding serialize_word serialize_chars
serialize_string s = serialize_word 8 (length s) ++ serialize_chars s

-- The loop of `deserialize<std::string>`, over the characters still to be read.
unfoldable pub deserialize_chars : ℕ → List ℕ → Reader (List ℕ)
deserialize_chars zero s bytes pos = ok (s, pos)
deserialize_chars (suc n) s bytes pos = elim (deserialize_word 1 bytes pos) [
  | ok (c, pos') ↦ deserialize_chars n (s ++ c ∷ []) bytes pos'
  | fault e ↦ fault e
]

unfoldable pub deserialize_string : Reader (List ℕ)
unfolding deserialize_word deserialize_chars
deserialize_string bytes pos = do
  (len, pos') ← deserialize_word 8 bytes pos
  deserialize_chars len [] bytes pos'

-- Bit sets: the length, then eight Booleans to a byte, the first in the lowest bit.
abbrev pub to_bit : Bool → ℕ
to_bit true = 1
to_bit false = 0

-- The loop of `serialize<std::vector<bool>>` and the push behind it: `byte` holds `n` bits.
unfoldable pub pack_bits : List Bool → List ℕ → ℕ → ℕ → List ℕ
pack_bits [] vec byte n = if ltb 0 n then vec ++ byte ∷ [] else vec
pack_bits (b ∷ vb) vec byte n =
    if n == 8
    then pack_bits vb (vec ++ byte ∷ []) (to_bit b) 1
    else pack_bits vb vec (bit_or byte (to_bit b * 2 ^ n)) (n + 1)

unfoldable pub serialize_bools : List Bool → List ℕ
unfolding serialize_word pack_bits
serialize_bools vb = pack_bits vb (serialize_word 8 (length vb)) 0 0

-- A test of bit `n`.
unfoldable pub has_bit : ℕ → ℕ → Bool
has_bit byte n = ltb 0 (bit_and byte (2 ^ n))

-- The loop of `deserialize<std::vector<bool>>`, over the `len - data_pos` Booleans still to be
-- read, and the last increment of `pos`. `bound` is `byte_bound`, `n` is `inner_pos`.
unfoldable pub unpack_bits : ℕ → List Bool → ℕ → ℕ → Reader (List Bool)
unfolding has_bit
unpack_bits zero vec n bound bytes pos = ok (vec, if n == 0 then pos else pos + 1)
unpack_bits (suc left) vec n bound bytes pos = elim (ltb pos bound) [
  | false ↦ ok (vec, if n == 0 then pos else pos + 1)
  | true ↦ elim (get_elem? bytes pos) [
    | none ↦ assert false >>= λ _. ok (vec, pos)
    | some byte ↦
        let full = n + 1 == 8 in
        unpack_bits left (vec ++ has_bit byte n ∷ []) (if full then 0 else n + 1) bound bytes
          (if full then pos + 1 else pos)
  ]
]

unfoldable pub deserialize_bools : Reader (List Bool)
unfolding deserialize_word unpack_bits
deserialize_bools bytes pos = do
  (len, pos') ← deserialize_word 8 bytes pos
  let byte_cnt = len / 8 + (if ltb 0 (len % 8) then 1 else 0)
  unpack_bits len [] 0 ((byte_cnt + pos') % size_max) bytes pos'
