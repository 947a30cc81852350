-- ===== src/Examples/Long.antt =====
-- Packets that are longer than the receive buffer, applied to one of 4190 bytes.
use cs4500project.Connection
use cs4500project.Packet.Kind
use cs4500project.Prelude.{
  List, [], ap, arith, false, length, length-append, length-replicate, ok, refl, replicate, some,
  sym, true, ℕ, ◌++◌, ◌+◌, ◌∙◌, ◌∷◌, ◌≡◌,
}
use cs4500project.Connection.{Connection, buffer_size, chunk}
use cs4500project.Connection.Long.{unpack-rounds, unpack-zeros}
use cs4500project.Connection.Rounds.{holding}
use cs4500project.Packet.{Packet}
use cs4500project.Packet.Whole.{header, length-header}

-- The first part of the value, behind the header.
abbrev ones : List ℕ
ones = replicate 4087 1

-- A connection whose buffer is full with the header of a value of so many bytes, and its first
-- part.
abbrev front : ℕ → Connection
front n = record {
  buffer = header Kind.char_msg n ones;
  buf_pos = buffer_size;
  finished = false;
  conn_other = [];
}

front-full : (n : ℕ) → length (header Kind.char_msg n ones) ≡ buffer_size
front-full n =
    length-header Kind.char_msg n ones
    ∙ ap (λ k. 9 + k) (length-replicate {A = ℕ} 4087 1)
    ∙ omega arith

ones-append : (xs : List ℕ) → 4087 + length xs ≡ length (ones ++ xs)
ones-append xs =
    sym (length-append ones xs ∙ ap (λ k. k + length xs) (length-replicate {A = ℕ} 4087 1))

abbrev no_packet : Packet
no_packet = record { remaining_len = 0; typ = 0; value = [] }

-- The buffer and then four bytes, of which one belongs to what follows.
unpack-rounds_example :
    Connection.unpack 2 (front 4090) (chunk (2 ∷ 3 ∷ 4 ∷ 9 ∷ []) ∷ []) no_packet
    ≡ ok (
        some (
          true,
          holding (front 4090) (9 ∷ []),
          [],
          record { remaining_len = 0; typ = Kind.char_msg; value = ones ++ 2 ∷ 3 ∷ 4 ∷ [] },
        ))
unpack-rounds_example =
    unpack-rounds 0 (front 4090) [] no_packet Kind.char_msg 4090 ones (2 ∷ 3 ∷ 4 ∷ []) (9 ∷ []) []
      refl (front-full 4090) (ones-append (2 ∷ 3 ∷ 4 ∷ [])) (omega arith) tt (omega arith)
      (omega arith)

-- The buffer and then two bytes, where 4096 are missing.
unpack-zeros_example :
    Connection.unpack 2 (front 8183) (chunk (2 ∷ 3 ∷ []) ∷ []) no_packet
    ≡ ok (
        some (
          true,
          holding (front 8183) [],
          [],
          record {
            remaining_len = 0;
            typ = Kind.char_msg;
            value = ones ++ (2 ∷ 3 ∷ [] ++ replicate 4094 0);
          },
        ))
unpack-zeros_example =
    unpack-zeros 0 (front 8183) [] no_packet Kind.char_msg 8183 ones (2 ∷ 3 ∷ []) refl
      (front-full 8183) (ap (λ k. k + buffer_size) (sym (length-replicate {A = ℕ} 4087 1)))
      (omega arith) (omega arith)
