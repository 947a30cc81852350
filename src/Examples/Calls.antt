-- ===== src/Examples/Calls.antt =====
-- Calls on a connection and command lines.
use cs4500project.Connection
use cs4500project.Packet.Kind
use cs4500project.Packet
use cs4500project.Prelude.{
  List, Option, [], arith, false, fault, length, none, ok, refl, replicate, some, take, true,
  undefined, ℕ, ◌++◌, ◌∷◌, ◌≡◌,
}
use cs4500project.Connection.{
  Connection, chunk, connection_handler, receive_and_parse, send_blocks, send_packet, taken,
}
use cs4500project.Connection.Calls.{nothing_more, receive_and_parse-waits}
use cs4500project.Connection.Sends.{send_packet-unpack_cut}
use cs4500project.Options.{
  default_port, defaults, demo_act, linus_act, long_name, parse_arguments, word_count_act,
}
use cs4500project.Options.Given.{AllFound, linus_modes, word_count_modes, parse_arguments-arguments}
use cs4500project.Options.Unset.{PortKept, parse_arguments-PortKept}
use cs4500project.Packet.{Packet}
use cs4500project.Packet.Whole.{header, length-header}

abbrev idle : Connection
idle = record { buffer = replicate 4096 0; buf_pos = 0; finished = false; conn_other = [] }

receive_and_parse-waits_example :
    (c' : Connection) × (receive_and_parse connection_handler 2 idle
        (chunk (header Kind.char_msg 1 (7 ∷ []) ++ header Kind.shutdown 0 []) ∷ [])
      ≡ ok (some (true, c', [])))
    × (c'.buf_pos ≡ length (header Kind.shutdown 0 []))
    × (take (length (header Kind.shutdown 0 [])) c'.buffer ≡ header Kind.shutdown 0 [])
    × (receive_and_parse connection_handler 2 c' nothing_more ≡ ok (some (false, c', [])))
unfolding Connection.parse_data
receive_and_parse-waits_example =
    receive_and_parse-waits 0 idle [] Kind.char_msg (7 ∷ []) (header Kind.shutdown 0 []) refl
      (omega (arith, length-header Kind.shutdown 0 [])) (λ c. refl)

abbrev text_packet : Packet
text_packet = record { remaining_len = 0; typ = Kind.char_msg; value = 5 ∷ 6 ∷ [] }

-- The header and one byte of the value have arrived.
abbrev cut_short : Connection
cut_short = record idle {
  buffer = take 10 (Packet.pack text_packet) ++ replicate 4086 0;
  buf_pos = 10;
}

send_packet-unpack_cut_example :
    (send_packet text_packet (send_blocks ∷ taken 10 ∷ [])
      ≡ (some true, take 10 (Packet.pack text_packet)))
    × (Connection.unpack 1 cut_short [] Packet.blank ≡ fault undefined)
send_packet-unpack_cut_example =
    send_packet-unpack_cut 0 9 text_packet Packet.blank cut_short [] (send_blocks ∷ []) []
      (refl, tt) (omega arith) (omega arith) (omega arith) refl refl

-- A text is read as a number, its first character's code.
first_code : List ℕ → Option ℕ
first_code [] = none
first_code (c ∷ text) = some c

parse_arguments-arguments_example :
    AllFound (word_count_act first_code) defaults word_count_modes [] [] (80 ∷ []) 80 []
    × AllFound (linus_act first_code) defaults linus_modes [] [] (80 ∷ []) 80 []
unfolding first_code
parse_arguments-arguments_example =
    parse_arguments-arguments first_code defaults [] [] (80 ∷ []) [] 80 refl (omega arith)

parse_arguments-PortKept_example :
    PortKept default_port
      (parse_arguments (demo_act first_code) defaults (long_name "port" ∷ (80 ∷ []) ∷ []))
parse_arguments-PortKept_example =
    parse_arguments-PortKept first_code defaults (long_name "port" ∷ (80 ∷ []) ∷ [])
