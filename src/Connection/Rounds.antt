-- ===== src/Connection/Rounds.antt =====
-- src/network/connection.cpp, `unpack`: a packet that is longer than the receive buffer is taken
-- out of it in several rounds, and each round but the last takes the whole buffer.
use cs4500project.Packet
use cs4500project.Prelude.{
  List, ap, append-nil, append_assoc, arith, drop, drop-append, false, length, length-append,
  length-replicate, le→ltb_false, ok, replicate, some, suc, take, take-append, true, zero, ℕ, ◌%◌,
  ◌++◌, ◌+◌, ◌-◌, ◌<◌, ◌==◌, ◌>>=◌, ◌∙◌, ◌∷◌, ◌≡◌, ◌≤◌,
}
use cs4500project.Connection.{
  Connection, Received, buffer_size, chunk, consume, overwrite, receive_data, unpack_loop,
}
use cs4500project.Connection.Buffer.{consume-behind}
use cs4500project.Packet.{Packet}
use cs4500project.Packet.Parts.{read_value-part}
use cs4500project.Serializable.{size_max}

drop-replicate : {A : Type 0} (n m : ℕ) (a : A) → drop n (replicate m a) ≡ replicate (m - n) a
drop-replicate zero m a = ap (λ k. replicate k a) (omega arith)
drop-replicate (suc n) zero a =
    let left : 0 ≡ 0 - suc n = omega arith in ap (λ k. replicate k a) left
drop-replicate (suc n) (suc m) a =
    let left : m - n ≡ suc m - suc n = omega arith in
    drop-replicate n m a ∙ ap (λ k. replicate k a) left

-- The bytes, and zeros up to the buffer's end.
abbrev pub filled : List ℕ → List ℕ
filled bytes = bytes ++ replicate (buffer_size - length bytes) 0

pub filled-length :
    (bytes : List ℕ) → length bytes ≤ buffer_size → length (filled bytes) ≡ buffer_size
filled-length bytes h =
    length-append bytes (replicate (buffer_size - length bytes) 0)
    ∙ ap (λ k. length bytes + k) (length-replicate (buffer_size - length bytes) 0)
    ∙ omega arith

-- The connection with these bytes in its buffer.
abbrev pub holding : Connection → List ℕ → Connection
holding c bytes = record c { buffer = filled bytes; buf_pos = length bytes }

overwrite-zeros :
    (size : ℕ) (bytes : List ℕ)
    → overwrite 0 bytes (replicate size 0) ≡ bytes ++ replicate (size - length bytes) 0
unfolding overwrite
overwrite-zeros size bytes =
    ap (λ rest. bytes ++ rest)
      (ap (λ k. drop k (replicate size 0)) (omega arith) ∙ drop-replicate (length bytes) size 0)

-- A round that starts with a buffer that was parsed whole, and in which `recv` returns these bytes.
pub round_lem :
    (fuel : ℕ) (c : Connection) (bytes : List ℕ) (calls : List Received) (p : Packet)
    → unpack_loop (suc fuel) c (chunk bytes ∷ calls) p buffer_size false
      ≡ Packet.partial_unpack p false (filled bytes) false
        >>= (λ r. unpack_loop fuel (holding c bytes) calls r.2 r.0 r.1)
unfolding unpack_loop consume receive_data
round_lem fuel c bytes calls p =
    let start : 0 + length bytes ≡ length bytes = omega arith in
    λ i. Packet.partial_unpack p false (overwrite-zeros buffer_size bytes i) false >>= (λ r.
      unpack_loop fuel
        (record c { buffer = overwrite-zeros buffer_size bytes i; buf_pos = start i }) calls r.2 r.0
        r.1)

-- A part that fills the buffer, and behind which the value goes on.
pub part_lem :
    (fuel : ℕ) (c : Connection) (part : List ℕ) (calls : List Received) (p : Packet)
    → length part ≡ buffer_size
    → buffer_size < p.remaining_len
    → p.remaining_len < size_max
    → unpack_loop (suc fuel) c (chunk part ∷ calls) p buffer_size false
      ≡ unpack_loop fuel
          (holding c part)
          calls
          (record p { value = p.value ++ part; remaining_len = p.remaining_len - buffer_size })
          buffer_size
          false
unfolding Packet.partial_unpack
part_lem fuel c part calls p size more small =
    let none_left : buffer_size - length part ≡ 0 = omega arith in
    let whole : filled part ≡ part = ap (λ k. part ++ replicate k 0) none_left ∙ append-nil part in
    let read = read_value-part p 0 part (omega arith) (omega arith) (omega arith) in
    let taken : length part - 0 ≡ buffer_size = omega arith in
    let goes_on : (p.remaining_len - buffer_size == 0) ≡ false = ground arith in
    round_lem fuel c part calls p
    ∙ ap
        (λ (b : List ℕ).
          Packet.read_value p 0 b >>= (λ r. unpack_loop fuel (holding c part) calls r.2 r.0 r.1))
        whole
    ∙ rw (read, taken, goes_on, size)

pub read_last :
    (p : Packet) (v rest : List ℕ)
    → p.remaining_len ≡ length v
    → length v < size_max
    → Packet.read_value p 0 (v ++ rest)
      ≡ ok (length v, true, record p { value = p.value ++ v; remaining_len = 0 })
unfolding Packet.read_value Packet.copy_bytes
read_last p v rest e small =
    let n = p.remaining_len in
    let wrapped : (0 + n) % size_max ≡ length v = omega arith in
    let size = length-append v rest in
    rw (
      wrapped,
      le→ltb_false (length (v ++ rest)) (length v) (omega arith),
      e,
      le→ltb_false (length (v ++ rest)) (0 + length v) (omega arith),
      take-append v rest,
    )

-- The last part of the value, behind which other bytes may have arrived.
pub last_lem :
    (fuel : ℕ) (c : Connection) (last rest : List ℕ) (calls : List Received) (p : Packet)
    → p.remaining_len ≡ length last
    → length (last ++ rest) ≤ buffer_size
    → unpack_loop (suc (suc fuel)) c (chunk (last ++ rest) ∷ calls) p buffer_size false
      ≡ ok (
          some
            (true, holding c rest, calls, record p { value = p.value ++ last; remaining_len = 0 }))
unfolding Packet.partial_unpack unpack_loop
last_lem fuel c last rest calls p size room =
    let zeros : List ℕ = replicate (buffer_size - length (last ++ rest)) 0 in
    let both = length-append last rest in
    let read = read_last p last (rest ++ zeros) size (omega arith) in
    let dropped : drop (length last) (filled (last ++ rest)) ≡ rest ++ zeros =
      ap (drop (length last)) (append_assoc last rest zeros) ∙ drop-append last (rest ++ zeros) in
    let consumed =
      consume-behind (holding c (last ++ rest)) (length last) (rest ++ zeros) dropped (omega arith)
        room in
    let left : length (last ++ rest) - length last ≡ length rest = omega arith in
    round_lem (suc fuel) c (last ++ rest) calls p
    ∙ ap
        (λ (b : List ℕ).
          Packet.read_value p 0 b
          >>= (λ r. unpack_loop (suc fuel) (holding c (last ++ rest)) calls r.2 r.0 r.1))
        (append_assoc last rest (replicate (buffer_size - length (last ++ rest)) 0))
    ∙ rw (read, consumed)
        (ap
          (λ (c' : Connection).
            ok (some (true, c', calls, record p { value = p.value ++ last; remaining_len = 0 })))
          (ap
              (λ k. record c {
                buffer = take k (rest ++ zeros) ++ replicate (buffer_size - k) 0;
                buf_pos = k;
              })
              left
            ∙ ap
                (λ b. record c {
                  buffer = b ++ replicate (buffer_size - length rest) 0;
                  buf_pos = length rest;
                })
                (take-append rest zeros)))
