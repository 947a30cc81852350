-- ===== src/Packet.antt =====
-- include/network/packet.h and src/network/packet.cpp: packets of a type, a length of eight bytes
-- and a value, with the reader for whole buffers and the one for buffers that hold a part.
pub mod Kind
pub mod Whole
pub mod Parts
use cs4500project.NullableArray
use cs4500project.Prelude.{
  ◌^◌, Bool, List, Option, Run, [], drop, false, fault, if◌then◌else◌, length, ltb, none, ok, some,
  take, true, undefined, ℕ, ◌%◌, ◌&&◌, ◌*◌, ◌++◌, ◌+◌, ◌-◌, ◌==◌, ◌>>=◌, ◌>>◌, ◌∷◌,
}
use cs4500project.NullableArray.{NullableArray}
use cs4500project.Serializable.{from_bytes, serialize_word, size_max}

-- `typ` is the number of the type.
pub record Packet : Type 0 where
  pub remaining_len : ℕ
  pub typ : ℕ
  pub value : List ℕ

unfoldable pub blank : Packet
blank = record { remaining_len = 0; typ = 0; value = [] }

unfoldable pub get_size : Packet → ℕ
get_size p = 1 + 8 + length p.value

unfoldable pub pack : Packet → List ℕ
pack p = p.typ ∷ (serialize_word 8 (length p.value) ++ p.value)

-- Copying `n` bytes of the buffer from `pos` on, which reads behind the buffer where it is shorter.
unfoldable pub copy_bytes : ℕ → ℕ → List ℕ → Run (List ℕ)
copy_bytes pos n buffer =
    if ltb (length buffer) (pos + n) then fault undefined else ok (take n (drop pos buffer))

-- A `size_t` that is returned as an `int`: the number of its four lower bytes.
abbrev pub int_max : ℕ
int_max = 2 ^ 32

-- -1 as an `int`
abbrev pub minus_one : ℕ
minus_one = int_max - 1

-- The buffer is as long as `buflen` says. The sum of position and length wraps, as `size_t` does,
-- and the position is narrowed to an `int`, which is the number of its four bytes.
unfoldable pub unpack : Packet → List ℕ → Run (ℕ × Packet)
unpack p buffer =
    let buflen = length buffer in
    let cleared : Packet = record p { typ = 0; value = [] } in
    if ltb buflen 1
    then ok (minus_one, cleared)
    else if ltb buflen (1 + 8)
    then ok (minus_one, cleared)
    else (do
      header ← copy_bytes 0 1 buffer
      word ← copy_bytes 1 8 buffer
      let len = from_bytes word
      if ltb buflen ((9 + len) % size_max)
          then ok (minus_one, record { remaining_len = len; typ = 0; value = [] })
          else (do
            value ← copy_bytes 9 len buffer
            ok (
              (9 + len) % size_max % int_max,
              record { remaining_len = 0; typ = from_bytes header; value = value },
            )))

-- The part of `partial_unpack` behind the header, from `pos` on: the position, `finished` and the
-- packet.
unfoldable pub read_value : Packet → ℕ → List ℕ → Run (ℕ × Bool × Packet)
read_value p pos buffer =
    let buflen = length buffer in
    if ltb buflen ((pos + p.remaining_len) % size_max)
    then (do
      let to_read = buflen - pos
      part ← copy_bytes pos to_read buffer
      let left = p.remaining_len - to_read
      ok (pos + to_read, left == 0, record p { value = p.value ++ part; remaining_len = left }))
    else (do
      part ← copy_bytes pos p.remaining_len buffer
      ok (
        (pos + p.remaining_len) % size_max,
        true,
        record p { value = p.value ++ part; remaining_len = 0 },
      ))

-- `finished` is a reference, which stays as it is where the header is too short.
unfoldable pub partial_unpack : Packet → Bool → List ℕ → Bool → Run (ℕ × Bool × Packet)
partial_unpack p false buffer finished = read_value p 0 buffer
partial_unpack p true buffer finished =
    let buflen = length buffer in
    let cleared : Packet = record { remaining_len = 0; typ = 0; value = [] } in
    if ltb buflen 1
    then ok (0, finished, cleared)
    else if ltb buflen (1 + 8)
    then ok (1, finished, cleared)
    else (do
      header ← copy_bytes 0 1 buffer
      word ← copy_bytes 1 8 buffer
      read_value (record { remaining_len = from_bytes word; typ = from_bytes header; value = [] }) 9
          buffer)

unfoldable pub equals : Packet → Packet → Bool
equals p o =
    p.typ == o.typ
    && (length p.value == length o.value)
    && NullableArray.all_equal ◌==◌ p.value o.value

-- The loop of `hash`; sums and products wrap.
hash_from : ℕ → ℕ → List ℕ → ℕ
hash_from i h [] = h
hash_from i h (b ∷ bs) = hash_from (i + 1) ((h + i * b) % size_max) bs

unfoldable pub hash : Packet → ℕ
unfolding hash_from
hash p = hash_from 0 (p.typ + length p.value) p.value
