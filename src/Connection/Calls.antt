-- ===== src/Connection/Calls.antt =====
-- src/network/connection.cpp, `receive_and_parse` and `_send_packet`: what one call does.
use cs4500project.Packet
use cs4500project.Prelude.{
  Bool, List, Option, Run, [], ap, append_assoc, arith, drop, false, length, length-append, ltb,
  lt→ltb, none, ok, refl, replicate, some, suc, take, take-append, true, ℕ, ◌++◌, ◌+◌, ◌-◌, ◌∙◌,
  ◌∷◌, ◌≡◌, ◌≤◌,
}
use cs4500project.Connection.{
  Connection, Handler, Received, buffer_size, chunk, connection_handler, overwrite, parse_data,
  parse_loop, receive_and_parse, receive_data, receive_from, success, unpack, would_block,
}
use cs4500project.Connection.Buffer.{behind, unpack-whole}
use cs4500project.Packet.{Packet}
use cs4500project.Packet.Whole.{header, length-header}
use cs4500project.Serializable.{serialize_word}

-- A connection of which the buffer was empty, once these bytes have arrived.
arrived : Connection → List ℕ → Connection
arrived c bytes = record c {
  buffer = bytes ++ drop (length bytes) c.buffer;
  buf_pos = length bytes;
}

receive_data-arrived :
    (c : Connection) (bytes : List ℕ) (calls : List Received)
    → c.buf_pos ≡ 0
    → receive_data c (chunk bytes ∷ calls) ≡ (some (length bytes), arrived c bytes, calls)
unfolding receive_data receive_from overwrite arrived
receive_data-arrived c bytes calls e =
    let none_before : 0 + length bytes ≡ length bytes = omega arith in rw (e, none_before) refl

-- The connection once the first packet has been taken out: the bytes behind it, and zeros.
waiting : Connection → List ℕ → Connection
waiting c rest = record c {
  buffer = rest ++ replicate (buffer_size - length rest) 0;
  buf_pos = length rest;
}

behind-waiting :
    (c : Connection) (t : ℕ) (v rest : List ℕ)
    → behind
        (arrived c (header t (length v) v ++ rest))
        (9 + length v)
        (rest ++ drop (length (header t (length v) v ++ rest)) c.buffer)
      ≡ waiting c rest
unfolding arrived waiting
behind-waiting c t v rest =
    let size : length (header t (length v) v ++ rest) - (9 + length v) ≡ length rest =
      omega (arith, length-append (header t (length v) v) rest, length-header t (length v) v) in
    rw (size, take-append rest (drop (length (header t (length v) v ++ rest)) c.buffer))

header_append : (t n : ℕ) (v rest : List ℕ) → header t n v ++ rest ≡ header t n (v ++ rest)
header_append t n v rest = ap (◌∷◌ t) (append_assoc (serialize_word 8 n) v rest)

unpack-waiting :
    (fuel : ℕ) (c : Connection) (calls : List Received) (q : Packet) (t : ℕ) (v rest : List ℕ)
    → 9 + length v + length rest ≤ buffer_size
    → unpack (suc fuel) (arrived c (header t (length v) v ++ rest)) calls q
      ≡ ok (some (true, waiting c rest, calls, record { remaining_len = 0; typ = t; value = v }))
unfolding arrived
unpack-waiting fuel c calls q t v rest h =
    let packed = header t (length v) v in
    let behind_all = drop (length (packed ++ rest)) c.buffer in
    let size : length (packed ++ rest) ≡ 9 + length v + length rest =
      length-append packed rest ∙ omega (arith, length-header t (length v) v) in
    let whole : packed ++ rest ++ behind_all ≡ header t (length v) (v ++ (rest ++ behind_all)) =
      append_assoc packed rest behind_all ∙ header_append t (length v) v (rest ++ behind_all) in
    unpack-whole fuel (arrived c (packed ++ rest)) calls q t v (rest ++ behind_all) whole
      (omega (arith, size)) (omega (arith, size))
    ∙ ap (λ c'. ok (some (true, c', calls, record { remaining_len = 0; typ = t; value = v })))
        (behind-waiting c t v rest)

-- A packet that the class takes note of, and that leaves its connection as it is.
abbrev pub IsNoted : Packet → Type 0
IsNoted p = (c : Connection) → parse_data c p ≡ (success, c)

module _ {S : Type 0} (h : Handler S) where
  received-parse_loop :
      (fuel n : ℕ) (s : S) (c : Connection) (calls calls' : List Received)
      → receive_data (h.base s) calls ≡ (some n, c, calls')
      → receive_and_parse h fuel s calls ≡ parse_loop h fuel (h.with_base s c) calls' Packet.blank
  unfolding receive_and_parse
  received-parse_loop fuel n s c calls calls' e =
      let parse_received : Option ℕ × Connection × List Received
          → Run (Option (Bool × S × List Received)) =
        λ r. elim r.0 [
          | none ↦ ok (some (false, h.with_base s r.1, r.2))
          | some m ↦ parse_loop h fuel (h.with_base s r.1) r.2 Packet.blank
        ] in
      ap parse_received e

  parse_loop_success :
      (fuel : ℕ) (s s' : S) (c : Connection) (calls calls' : List Received) (q p : Packet)
      → ltb 0 (h.base s).buf_pos ≡ true
      → unpack fuel (h.base s) calls q ≡ ok (some (true, c, calls', p))
      → h.parse (h.with_base s c) p ≡ ok (success, s')
      → parse_loop h (suc fuel) s calls q ≡ ok (some (true, s', calls'))
  unfolding parse_loop
  parse_loop_success fuel s s' c calls calls' q p e f g = rw (parse_loop, e, f, g)

-- The first call handles the first packet that has arrived, and leaves what is behind it.
first_call :
    (fuel : ℕ) (c : Connection) (calls : List Received) (t : ℕ) (v rest : List ℕ)
    → c.buf_pos ≡ 0
    → 9 + length v + length rest ≤ buffer_size
    → IsNoted (record { remaining_len = 0; typ = t; value = v })
    → receive_and_parse connection_handler
        (suc (suc fuel))
        c
        (chunk (header t (length v) v ++ rest) ∷ calls)
      ≡ ok (some (true, waiting c rest, calls))
unfolding connection_handler arrived
first_call fuel c calls t v rest e h noted =
    let packed = header t (length v) v in
    let some_bytes : ltb 0 (length (packed ++ rest)) ≡ true =
      lt→ltb 0 _ (omega (arith, length-append packed rest)) in
    received-parse_loop connection_handler (suc (suc fuel)) (length (packed ++ rest)) c
      (arrived c (packed ++ rest)) _ calls (receive_data-arrived c (packed ++ rest) calls e)
    ∙ parse_loop_success connection_handler (suc fuel) (arrived c (packed ++ rest)) (waiting c rest)
        (waiting c rest) calls calls Packet.blank _ some_bytes
        (unpack-waiting fuel c calls Packet.blank t v rest h) (ap ok (noted (waiting c rest)))

abbrev pub nothing_more : List Received
nothing_more = would_block ∷ would_block ∷ would_block ∷ would_block ∷ would_block ∷ []

-- While nothing more arrives, a call does not look at the buffer.
idle_call :
    (fuel : ℕ) (c : Connection)
    → receive_and_parse connection_handler fuel c nothing_more ≡ ok (some (false, c, []))
unfolding receive_and_parse receive_data connection_handler
idle_call fuel c = refl

-- Where the bytes of a packet that the base class takes note of arrive in one piece with what
-- follows, and all fit in the buffer, which was empty, the call handles that packet only: what
-- follows, be it a packet or more, stays in the buffer, and the next call, before which nothing
-- more arrives, leaves it there and fails.
pub receive_and_parse-waits :
    (fuel : ℕ) (c : Connection) (calls : List Received) (t : ℕ) (v rest : List ℕ)
    → c.buf_pos ≡ 0
    → 9 + length v + length rest ≤ buffer_size
    → IsNoted (record { remaining_len = 0; typ = t; value = v })
    → (c' : Connection) × (receive_and_parse connection_handler
          (suc (suc fuel))
          c
          (chunk (header t (length v) v ++ rest) ∷ calls)
        ≡ ok (some (true, c', calls)))
      × (c'.buf_pos ≡ length rest)
      × (take (length rest) c'.buffer ≡ rest)
      × (receive_and_parse connection_handler (suc (suc fuel)) c' nothing_more
          ≡ ok (some (false, c', [])))
unfolding waiting
receive_and_parse-waits fuel c calls t v rest e h noted = (
  waiting c rest,
  first_call fuel c calls t v rest e h noted,
  refl,
  take-append rest (replicate (buffer_size - length rest) 0),
  idle_call (suc (suc fuel)) (waiting c rest),
)
