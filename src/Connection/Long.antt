-- ===== src/Connection/Long.antt =====
-- src/network/connection.cpp, `unpack`: packets that are longer than the receive buffer, where
-- `recv` fills the buffer each time, and where it does not.
use cs4500project.Packet
use cs4500project.Prelude.{
  All, List, [], ap, append-nil, append_assoc, arith, concat, false, length, length-append, map, ok,
  replicate, some, suc, sym, true, ℕ, ◌++◌, ◌+◌, ◌-◌, ◌<◌, ◌==◌, ◌∙◌, ◌∷◌, ◌≡◌, ◌≤◌,
}
use cs4500project.Connection.{
  Connection, Received, buffer_size, chunk, consume, unpack, unpack_loop,
}
use cs4500project.Connection.Rounds.{
  filled, filled-length, holding, last_lem, part_lem, read_last, round_lem,
}
use cs4500project.Packet.{Packet}
use cs4500project.Packet.Parts.{drop-header, partial_unpack-header, read_value-part}
use cs4500project.Packet.Whole.{header, length-header}
use cs4500project.Serializable.{size_max}

-- The parts that fill the buffer, and the last.
loop_lem :
    (parts : List (List ℕ)) (fuel : ℕ) (c : Connection) (last rest : List ℕ) (calls : List Received)
    (p : Packet)
    → All (λ part. length part ≡ buffer_size) parts
    → 0 < length last
    → length (last ++ rest) ≤ buffer_size
    → p.remaining_len ≡ length (concat parts ++ last)
    → p.remaining_len < size_max
    → unpack_loop
        (suc (suc (length parts + fuel)))
        c
        (map chunk parts ++ chunk (last ++ rest) ∷ calls)
        p
        buffer_size
        false
      ≡ ok (
          some (
            true,
            holding c rest,
            calls,
            record p { value = p.value ++ (concat parts ++ last); remaining_len = 0 },
          ))
loop_lem [] fuel c last rest calls p full pos room size small =
    last_lem (0 + fuel) c last rest calls p size room
loop_lem (part ∷ parts) fuel c last rest calls p full pos room size small =
    let assoc : concat (part ∷ parts) ++ last ≡ part ++ (concat parts ++ last) =
      append_assoc part (concat parts) last in
    let total : p.remaining_len ≡ length part + length (concat parts ++ last) =
      size ∙ ap length assoc ∙ length-append part (concat parts ++ last) in
    let pos' : 0 < length (concat parts ++ last) =
      omega (arith, length-append (concat parts) last) in
    let p' : Packet = record p {
      value = p.value ++ part;
      remaining_len = p.remaining_len - buffer_size;
    } in
    let rest' = map chunk parts ++ chunk (last ++ rest) ∷ calls in
    let more : suc (length parts) + fuel ≡ suc (length parts + fuel) = omega arith in
    ap (λ n. unpack_loop (suc (suc n)) c (chunk part ∷ rest') p buffer_size false) more
    ∙ part_lem (suc (suc (length parts + fuel))) c part rest' p full.0 (omega (arith, full.0)) small
    ∙ loop_lem parts fuel (holding c part) last rest calls p' full.1 pos room
        (omega (arith, full.0)) (omega arith)
    ∙ ap (λ v. ok (some (true, holding c rest, calls, record p { value = v; remaining_len = 0 })))
        (append_assoc p.value part (concat parts ++ last) ∙ ap (λ v. p.value ++ v) (sym assoc))

-- A buffer that is full with the header and the value's first part is read whole.
front_lem :
    (c : Connection) (q : Packet) (t n : ℕ) (first : List ℕ)
    → c.buffer ≡ header t n first
    → length c.buffer ≡ buffer_size
    → length first < n
    → 9 + n < size_max
    → Packet.partial_unpack q true c.buffer false
      ≡ ok (buffer_size, false, record { remaining_len = n - length first; typ = t; value = first })
front_lem c q t n first e whole more small =
    let room : length (header t n first) ≡ buffer_size = ap length (sym e) ∙ whole in
    let taken : length (header t n first) - 9 ≡ length first =
      omega (arith, length-header t n first) in
    let start : Packet = record { remaining_len = n; typ = t; value = [] } in
    let goes_on : (n - length first == 0) ≡ false = ground arith in
    ap (λ b. Packet.partial_unpack q true b false) e
    ∙ partial_unpack-header q t n first false (omega arith)
    ∙ read_value-part start 9 (header t n first) (omega arith) (omega arith) small
    ∙ rw (taken, drop-header t n first, goes_on, room)

-- A packet that is longer than the receive buffer, of which the buffer is full: where each further
-- call of `recv` fills the buffer again, until one brings the value's last part and perhaps what
-- follows the packet, one round for each call is enough, and the packet is finished, with its type
-- and whole value; the calls that are left are not made, and what followed stands at the front of
-- the buffer, followed by zeros. Header and value are shorter than 2 ^ 64 bytes.
pub unpack-rounds :
    (fuel : ℕ) (c : Connection) (calls : List Received) (q : Packet) (t n : ℕ)
    (first last rest : List ℕ) (parts : List (List ℕ))
    → c.buffer ≡ header t n first
    → length c.buffer ≡ buffer_size
    → n ≡ length (first ++ (concat parts ++ last))
    → 9 + n < size_max
    → All (λ part. length part ≡ buffer_size) parts
    → 0 < length last
    → length (last ++ rest) ≤ buffer_size
    → unpack (suc (suc (length parts + fuel))) c (map chunk parts ++ chunk (last ++ rest) ∷ calls) q
      ≡ ok (
          some (
            true,
            holding c rest,
            calls,
            record { remaining_len = 0; typ = t; value = first ++ (concat parts ++ last) },
          ))
unfolding unpack
unpack-rounds fuel c calls q t n first last rest parts e whole size small full pos room =
    let total : n ≡ length first + length (concat parts ++ last) =
      size ∙ length-append first (concat parts ++ last) in
    let tail = length-append (concat parts) last in
    let p : Packet = record { remaining_len = n - length first; typ = t; value = first } in
    rw (front_lem c q t n first e whole (omega arith) small)
      (loop_lem parts fuel c last rest calls p full pos room (omega arith) (omega arith))

-- Where all but the last `buffer_size` bytes of a packet's value stand in the buffer with the
-- header and fill it, and the next call of `recv` brings fewer bytes than that, the packet is taken
-- as finished, with zeros in place of the bytes that have not arrived, no matter what later calls
-- would bring. Header and value are shorter than 2 ^ 64 bytes.
pub unpack-zeros :
    (fuel : ℕ) (c : Connection) (calls : List Received) (q : Packet) (t n : ℕ) (first part : List ℕ)
    → c.buffer ≡ header t n first
    → length c.buffer ≡ buffer_size
    → n ≡ length first + buffer_size
    → 9 + n < size_max
    → length part < buffer_size
    → unpack (suc (suc fuel)) c (chunk part ∷ calls) q
      ≡ ok (
          some (
            true,
            holding c [],
            calls,
            record {
              remaining_len = 0;
              typ = t;
              value = first ++ (part ++ replicate (buffer_size - length part) 0);
            },
          ))
unfolding unpack unpack_loop consume Packet.partial_unpack
unpack-zeros fuel c calls q t n first part e whole size small short =
    let p : Packet = record { remaining_len = n - length first; typ = t; value = first } in
    let len = filled-length part (omega arith) in
    let left : n - length first ≡ length (filled part) = omega arith in
    let read = read_last p (filled part) [] left (omega arith) in
    let whole_part : Packet = record { remaining_len = 0; typ = t; value = first ++ filled part } in
    let read' : Packet.read_value p 0 (filled part) ≡ ok (buffer_size, true, whole_part) =
      ap (λ b. Packet.read_value p 0 b) (sym (append-nil (filled part)))
      ∙ read
      ∙ ap (λ k. ok (k, true, whole_part)) len in
    rw (front_lem c q t n first e whole (omega arith) small)
      (round_lem (suc fuel) c part calls p ∙ rw read')
