-- ===== src/Examples/Network.antt =====
-- Packets and the receive buffer, applied to small packets.
use cs4500project.Connection
use cs4500project.Packet.Kind
use cs4500project.Packet
use cs4500project.Prelude.{
  ◌%◌, ◌^◌, List, [], arith, false, fault, length, ok, refl, replicate, some, true, undefined, ℕ,
  ◌++◌, ◌>>=◌, ◌∷◌, ◌≡◌,
}
use cs4500project.Connection.{Connection}
use cs4500project.Connection.Buffer.{behind, unpack-whole}
use cs4500project.Packet.{Packet}
use cs4500project.Packet.Parts.{feed, feed-partial_unpack}
use cs4500project.Packet.Whole.{header, unpack-pack, unpack_overflow}

abbrev two_bytes : List ℕ
two_bytes = 5 ∷ 6 ∷ []

abbrev message : Packet
message = record { remaining_len = 0; typ = Kind.char_msg; value = two_bytes }

abbrev fresh : Packet
fresh = record { remaining_len = 0; typ = 0; value = [] }

unpack-pack_example :
    Packet.unpack fresh (Packet.pack message ++ 7 ∷ [])
    ≡ ok (
      length (Packet.pack message) % 2 ^ 32,
      record { remaining_len = 0; typ = Kind.char_msg; value = two_bytes },
    )
unpack-pack_example = unpack-pack fresh message (7 ∷ []) (omega arith)

abbrev huge : ℕ
huge = 18446744073709551615

unpack_overflow_example :
    Packet.unpack fresh (header Kind.char_msg huge two_bytes) ≡ fault undefined
unpack_overflow_example =
    unpack_overflow fresh Kind.char_msg huge two_bytes (omega arith) (omega arith) (omega arith)

feed-partial_unpack_example :
    Packet.partial_unpack fresh true (header Kind.char_msg 4 (1 ∷ [])) false
      >>= (λ r. feed r.2 r.1 (two_bytes ∷ (3 ∷ []) ∷ []))
    ≡ ok (true, record { remaining_len = 0; typ = Kind.char_msg; value = 1 ∷ 5 ∷ 6 ∷ 3 ∷ [] })
feed-partial_unpack_example =
    feed-partial_unpack fresh Kind.char_msg (1 ∷ []) (two_bytes ∷ (3 ∷ []) ∷ []) false (omega arith)

abbrev zeros : List ℕ
zeros = replicate 4085 0

-- Buffers that hold a packet of two bytes, of which so many bytes have arrived.
abbrev arrived : ℕ → Connection
arrived n = record {
  buffer = header Kind.char_msg 2 (two_bytes ++ zeros);
  buf_pos = n;
  finished = false;
  conn_other = [];
}

unpack-whole_example :
    Connection.unpack 1 (arrived 11) [] fresh
    ≡ ok (some (true, behind (arrived 11) 11 zeros, [], message))
unpack-whole_example =
    unpack-whole 0 (arrived 11) [] fresh Kind.char_msg two_bytes zeros refl (omega arith)
      (omega arith)
