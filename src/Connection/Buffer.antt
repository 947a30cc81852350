-- ===== src/Connection/Buffer.antt =====
-- src/network/connection.cpp, `unpack`: a packet that stands in the receive buffer whole, and one
-- of which only a part has arrived. A packet that the buffer holds whole is read in one call.
use cs4500project.Packet
use cs4500project.Prelude.{
  Bool, Bool-cases, List, ap, arith, drop, drop-append, drop-drop, false, fault, inl, inr, leb,
  length, length-append, le→ltb_false, lt→ltb, ok, replicate, some, suc, take, true, undefined, ℕ,
  ◌%◌, ◌++◌, ◌+◌, ◌-◌, ◌<◌, ◌∙◌, ◌≡◌, ◌≤◌,
}
use cs4500project.Connection.{Connection, Received, buffer_size, consume, unpack, unpack_loop}
use cs4500project.Packet.{Packet}
use cs4500project.Packet.Parts.{drop-header, partial_unpack-header}
use cs4500project.Packet.Whole.{copy_value, header, length-header}
use cs4500project.Serializable.{size_max}

partial_unpack-whole :
    (q : Packet) (t : ℕ) (v rest : List ℕ) (finished : Bool)
    → 9 + length v < size_max
    → Packet.partial_unpack q true (header t (length v) (v ++ rest)) finished
      ≡ ok (9 + length v, true, record { remaining_len = 0; typ = t; value = v })
unfolding Packet.read_value
partial_unpack-whole q t v rest finished h =
    let n = length v in
    let buffer = header t n (v ++ rest) in
    let wrapped : (9 + n) % size_max ≡ 9 + n = omega arith in
    let room : 9 + n ≤ length buffer =
      omega (arith, length-header t n (v ++ rest), length-append v rest) in
    partial_unpack-header q t n (v ++ rest) finished (omega arith)
    ∙ rw (wrapped, le→ltb_false (length buffer) (9 + n) room, copy_value t n v rest)

drop_packet :
    (t : ℕ) (v rest : List ℕ) → drop (9 + length v) (header t (length v) (v ++ rest)) ≡ rest
drop_packet t v rest =
    drop-drop 9 (length v) (header t (length v) (v ++ rest))
    ∙ ap (drop (length v)) (drop-header t (length v) (v ++ rest))
    ∙ drop-append v rest

-- The connection after a packet of `n` bytes in all, with `rest` behind it in the buffer.
abbrev pub behind : Connection → ℕ → List ℕ → Connection
behind c n rest = record c {
  buffer = take (c.buf_pos - n) rest ++ replicate (buffer_size - (c.buf_pos - n)) 0;
  buf_pos = c.buf_pos - n;
}

pub consume-behind :
    (c : Connection) (n : ℕ) (rest : List ℕ)
    → drop n c.buffer ≡ rest
    → n ≤ c.buf_pos
    → c.buf_pos ≤ buffer_size
    → consume c n ≡ ok (behind c n rest)
unfolding consume
consume-behind c n rest e h room = elim (Bool-cases (leb buffer_size n)) [
  | inl full ↦ let none_left : c.buf_pos - n ≡ 0 = ground arith in rw (full, none_left)
  | inr part ↦ rw (part, le→ltb_false c.buf_pos n h, e)
]

-- A packet that has arrived whole, at the start of the buffer, is taken out of it in one round:
-- it is finished, with its type and value, no call of `recv` is made, and what had arrived behind
-- it stands at the front of the buffer, followed by zeros. The bytes that have arrived are no
-- more than the buffer holds.
pub unpack-whole :
    (fuel : ℕ) (c : Connection) (calls : List Received) (q : Packet) (t : ℕ) (v rest : List ℕ)
    → c.buffer ≡ header t (length v) (v ++ rest)
    → 9 + length v ≤ c.buf_pos
    → c.buf_pos ≤ buffer_size
    → unpack (suc fuel) c calls q
      ≡ ok (
          some (
            true,
            behind c (9 + length v) rest,
            calls,
            record { remaining_len = 0; typ = t; value = v },
          ))
unfolding unpack unpack_loop
unpack-whole fuel c calls q t v rest e h room =
    let taken : drop (9 + length v) c.buffer ≡ rest =
      ap (drop (9 + length v)) e ∙ drop_packet t v rest in
    rw (
      ap (λ b. Packet.partial_unpack q true b false) e
          ∙ partial_unpack-whole q t v rest false (omega arith),
      consume-behind c (9 + length v) rest taken h room,
    )

-- Where the header of a packet that is shorter than the buffer has arrived and not all of its
-- value has, `unpack` takes the packet as finished and then does what the language leaves
-- undefined: the position wraps below zero, and zeros are written outside the buffer.
pub unpack-cut :
    (fuel : ℕ) (c : Connection) (calls : List Received) (q : Packet) (t : ℕ) (v rest : List ℕ)
    → c.buffer ≡ header t (length v) (v ++ rest)
    → c.buf_pos < 9 + length v
    → 9 + length v < buffer_size
    → unpack (suc fuel) c calls q ≡ fault undefined
unfolding unpack unpack_loop consume
unpack-cut fuel c calls q t v rest e h room =
    let part : leb buffer_size (9 + length v) ≡ false = ground arith in
    rw (
      ap (λ b. Packet.partial_unpack q true b false) e
          ∙ partial_unpack-whole q t v rest false (omega arith),
      part,
      lt→ltb c.buf_pos (9 + length v) h,
    )
