-- ===== src/Connection.antt =====
-- include/network/connection.h and src/network/connection.cpp: the receive buffer and how packets
-- are taken out of it. A packet's `typ` is compared with the numbers of `Packet.Kind`.
pub mod Buffer
pub mod Calls
pub mod Sends
pub mod Rounds
pub mod Long
pub mod Kept
use cs4500project.Packet.Kind
use cs4500project.Packet
use cs4500project.Prelude.{
  Bool, List, Option, Run, [], drop, false, fault, if◌then◌else◌, leb, length, ltb, none, ok,
  replicate, some, suc, take, true, undefined, zero, ℕ, ◌++◌, ◌+◌, ◌-◌, ◌==◌, ◌>>=◌, ◌>>◌, ◌||◌,
  ◌∷◌,
}
use cs4500project.Packet.{Packet}

-- `BUFFER_SIZE`
abbrev pub buffer_size : ℕ
buffer_size = 4096

-- The part of a connection that receiving touches. The buffer always has `buffer_size` bytes.
pub record Connection : Type 0 where
  pub buffer : List ℕ
  pub buf_pos : ℕ
  pub finished : Bool
  pub conn_other : List ℕ

-- What one call of `recv` returns: so many bytes, that the call would block, or another error.
pub data Received : Type 0 where
  chunk : List ℕ → Received
  would_block failed : Received

-- Writes over the bytes from a position on.
unfoldable pub overwrite : ℕ → List ℕ → List ℕ → List ℕ
overwrite pos new old = take pos old ++ new ++ drop (pos + length new) old

-- The loop of `receive_data`: at most five calls of `recv`, the results of which are an argument.
-- `none` is the result -1 and the negative result of the call; the calls that are left come back.
-- `recv` is given the room behind `buf_pos`, and returns no more than that.
unfoldable pub receive_from : ℕ → Connection → List Received → Option ℕ × Connection × List Received
unfolding overwrite
receive_from zero c calls = (none, c, calls)
receive_from (suc attempts) c [] = (none, c, [])
receive_from (suc attempts) c (failed ∷ calls) = (none, c, calls)
receive_from (suc attempts) c (would_block ∷ calls) = receive_from attempts c calls
receive_from (suc attempts) c (chunk bytes ∷ calls) = (
  some (length bytes),
  record c { buffer = overwrite c.buf_pos bytes c.buffer; buf_pos = c.buf_pos + length bytes },
  calls,
)

unfoldable pub receive_data : Connection → List Received → Option ℕ × Connection × List Received
unfolding receive_from
receive_data c calls = receive_from 5 c calls

-- What `unpack` does with the buffer behind the bytes that were parsed: it moves the rest to the
-- front and fills up with zeros. The position is a `size_t`, which wraps; where it does, the
-- `memset` writes outside the buffer.
unfoldable pub consume : Connection → ℕ → Run Connection
consume c parsed =
    if leb buffer_size parsed
    then ok (record c { buffer = replicate buffer_size 0; buf_pos = 0 })
    else if ltb c.buf_pos parsed
    then fault undefined
    else ok (record c {
      buffer =
          take (c.buf_pos - parsed) (drop parsed c.buffer)
          ++ replicate (buffer_size - (c.buf_pos - parsed)) 0;
      buf_pos = c.buf_pos - parsed;
    })

-- The loop of `unpack`. `partial_unpack` is always given the whole buffer, so each round but the
-- last takes `buffer_size` bytes; the fuel bounds the rounds.
unfoldable pub unpack_loop :
    ℕ
    → Connection
    → List Received
    → Packet
    → ℕ
    → Bool
    → Run (Option (Bool × Connection × List Received × Packet))
unfolding consume receive_data
unpack_loop zero c calls p parsed finished = ok none
unpack_loop (suc fuel) c calls p parsed finished = elim (finished || leb parsed 0) [
  | true ↦ consume c parsed >>= λ c'. ok (some (finished, c', calls, p))
  | false ↦ consume c parsed >>= λ c'.
      let (received, c'', calls') = receive_data c' calls in
      Packet.partial_unpack p false c''.buffer finished >>= λ r.
      unpack_loop fuel c'' calls' r.2 r.0 r.1
]

unfoldable pub unpack :
    ℕ
    → Connection
    → List Received
    → Packet
    → Run (Option (Bool × Connection × List Received × Packet))
unfolding unpack_loop
unpack fuel c calls p = do
  (parsed, finished, p') ← Packet.partial_unpack p true c.buffer false
  unpack_loop fuel c calls p' parsed finished

-- The outcome of `_parse_data`.
pub data ParseResult : Type 0 where
  parse_error success response : ParseResult

-- The base class's `_parse_data`; its `_respond`, which a keep-alive calls, does nothing.
unfoldable pub parse_data : Connection → Packet → ParseResult × Connection
parse_data c p =
    if p.typ == Kind.client_update || p.typ == Kind.register || p.typ == Kind.keep_alive
    then (success, c)
    else if p.typ == Kind.ask_for_id
    then (response, c)
    else if p.typ == Kind.id
    then (if length p.value == 16
        then (success, record c { conn_other = p.value })
        else (parse_error, c))
    else if p.typ == Kind.char_msg || p.typ == Kind.error_msg
    then (success, c)
    else if p.typ == Kind.shutdown || p.typ == Kind.teardown
    then (success, record c { finished = true })
    else (parse_error, c)

-- What `receive_and_parse` needs of a class of connections: its `_parse_data` and `_respond`, on a
-- state that has the base class's state in it.
pub record Handler (S : Type 0) : Type 0 where
  pub base : S → Connection
  pub with_base : S → Connection → S
  pub parse : S → Packet → Run (ParseResult × S)
  pub respond : S → Packet → Run S

-- The base class itself.
unfoldable pub connection_handler : Handler Connection
unfolding parse_data
connection_handler = record {
  base = λ c. c;
  with_base = λ c c'. c';
  parse = λ c p. ok (parse_data c p);
  respond = λ c p. ok c;
}

-- The loop of `receive_and_parse`: it goes on where the packet calls for a response. The fuel
-- bounds the rounds, also those of `unpack`; `none` stands for a loop that goes on.
unfoldable pub parse_loop :
    {S : Type 0}
    → Handler S
    → ℕ
    → S
    → List Received
    → Packet
    → Run (Option (Bool × S × List Received))
parse_loop h zero s calls packet = ok none
parse_loop h (suc fuel) s calls packet =
    let c = h.base s in
    elim (ltb 0 c.buf_pos) [
      | false ↦ ok (some (true, s, calls))
      | true ↦ unpack fuel c calls packet >>= λ unpacked. elim unpacked [
        | none ↦ ok none
        | some (finished, c', calls', packet') ↦
            let s' = h.with_base s c' in
            elim finished [
              | false ↦ ok (some (true, s', calls'))
              | true ↦ h.parse s' packet' >>= λ (result, s''). elim result [
                | success ↦ ok (some (true, s'', calls'))
                | response ↦ h.respond s'' packet' >>= λ s₃. parse_loop h fuel s₃ calls' packet'
                | parse_error ↦ ok (some (false, s'', calls'))
              ]
            ]
      ]
    ]

unfoldable pub receive_and_parse :
    {S : Type 0} → Handler S → ℕ → S → List Received → Run (Option (Bool × S × List Received))
receive_and_parse h fuel s calls =
    let (received, c, calls') = receive_data (h.base s) calls in
    let s' = h.with_base s c in
    elim received [
      | none ↦ ok (some (false, s', calls'))
      | some n ↦ parse_loop h fuel s' calls' Packet.blank
    ]

-- What happens in one round of `_send_packet`: the socket has an error, or `send` fails, or would
-- block, or takes so many bytes.
pub data Sending : Type 0 where
  socket_error send_failed send_blocks : Sending
  taken : ℕ → Sending

-- `_send_packet`: the answer and the bytes that were sent. The rounds are an argument; `none`
-- stands for a loop that goes on.
unfoldable pub send_bytes : List ℕ → List Sending → Option Bool × List ℕ
send_bytes bytes [] = (none, [])
send_bytes bytes (socket_error ∷ rounds) = (some false, [])
send_bytes bytes (send_failed ∷ rounds) = (some false, [])
send_bytes bytes (send_blocks ∷ rounds) = send_bytes bytes rounds
send_bytes bytes (taken zero ∷ rounds) = send_bytes bytes rounds
send_bytes bytes (taken (suc n) ∷ rounds) = (some true, take (suc n) bytes)

unfoldable pub send_packet : Packet → List Sending → Option Bool × List ℕ
unfolding send_bytes
send_packet p rounds = send_bytes (Packet.pack p) rounds
