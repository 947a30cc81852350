-- ===== src/Connection/Sends.antt =====
-- src/network/connection.cpp, `_send_packet`: a packet of which `send` takes only a part.
use cs4500project.Packet
use cs4500project.Prelude.{
  All, List, [], ap, append_assoc, ap₂, arith, fault, length, length-append, length-replicate,
  length-take_le, refl, replicate, some, suc, sym, take, true, undefined, zero, ℕ, ◌++◌, ◌+◌, ◌-◌,
  ◌<◌, ◌∙◌, ◌∷◌, ◌≡◌, ◌≤◌,
}
use cs4500project.Connection.{
  Connection, Received, Sending, buffer_size, send_blocks, send_bytes, send_packet, taken, unpack,
}
use cs4500project.Connection.Buffer.{unpack-cut}
use cs4500project.Packet.{Packet}
use cs4500project.Packet.Whole.{header}
use cs4500project.Serializable.{serialize_word}
use cs4500project.Serializable.Words.{length-serialize_word}

send_bytes-taken :
    (bytes : List ℕ) (blocked : List Sending) (n : ℕ) (rounds : List Sending)
    → All (λ r. r ≡ send_blocks) blocked
    → send_bytes bytes (blocked ++ taken (suc n) ∷ rounds) ≡ (some true, take (suc n) bytes)
unfolding send_bytes
send_bytes-taken bytes [] n rounds h = refl
send_bytes-taken bytes (r ∷ blocked) n rounds h =
    rw (h.0, send_bytes) (send_bytes-taken bytes blocked n rounds h.1)

take_further :
    {A : Type 0} (xs ys : List A) (m : ℕ) → take (length xs + m) (xs ++ ys) ≡ xs ++ take m ys
take_further [] ys m = let same : 0 + m ≡ m = omega arith in ap (λ k. take k ys) same
take_further (x ∷ xs) ys m =
    let same : suc (length xs) + m ≡ suc (length xs + m) = omega arith in
    ap (λ k. take k (x ∷ xs ++ ys)) same ∙ ap (◌∷◌ x) (take_further xs ys m)

replicate_add :
    {A : Type 0} (m n : ℕ) (a : A) → replicate (m + n) a ≡ replicate m a ++ replicate n a
replicate_add zero n a = let same : 0 + n ≡ n = omega arith in ap (λ k. replicate k a) same
replicate_add (suc m) n a =
    let same : suc m + n ≡ suc (m + n) = omega arith in
    ap (λ k. replicate k a) same ∙ ap (◌∷◌ a) (replicate_add m n a)

-- The part of the value that was sent, and the zeros that stand where the rest of it would.
cut_value : Packet → ℕ → List ℕ
cut_value p n = take (suc n - 9) p.value ++ replicate (length p.value - (suc n - 9)) 0

length-cut_value :
    (p : Packet) (n : ℕ)
    → 9 ≤ suc n
    → suc n < 9 + length p.value
    → length (cut_value p n) ≡ length p.value
unfolding cut_value
length-cut_value p n h part =
    length-append (take (suc n - 9) p.value) (replicate (length p.value - (suc n - 9)) 0)
    ∙ omega (
      arith,
      length-take_le (suc n - 9) p.value (omega arith),
      length-replicate {A = ℕ} (length p.value - (suc n - 9)) 0,
    )

cut_buffer :
    (p : Packet) (n : ℕ)
    → 9 ≤ suc n
    → suc n < 9 + length p.value
    → 9 + length p.value < buffer_size
    → take (suc n) (Packet.pack p) ++ replicate (buffer_size - suc n) 0
      ≡ header p.typ
          (length (cut_value p n))
          (cut_value p n ++ replicate (buffer_size - (9 + length p.value)) 0)
unfolding Packet.pack cut_value
cut_buffer p n h part small =
    let m = suc n - 9 in
    let word = serialize_word 8 (length p.value) in
    let behind_cut = replicate (buffer_size - (9 + length p.value)) 0 in
    let eight : n ≡ length word + m = omega (arith, length-serialize_word 8 (length p.value)) in
    let first : take n (word ++ p.value) ≡ word ++ take m p.value =
      ap (λ k. take k (word ++ p.value)) eight ∙ take_further word p.value m in
    let fill : buffer_size - suc n ≡ (length p.value - m) + (buffer_size - (9 + length p.value)) =
      omega arith in
    let zeros : replicate (buffer_size - suc n) 0 ≡ replicate (length p.value - m) 0 ++ behind_cut =
      ap (λ k. replicate k 0) fill ∙ replicate_add (length p.value - m) _ 0 in
    ap (◌∷◌ p.typ) (
      ap₂ ◌++◌ first zeros
      ∙ append_assoc word (take m p.value) _
      ∙ ap (λ b. word ++ b)
          (sym (append_assoc (take m p.value) (replicate (length p.value - m) 0) behind_cut))
      ∙ ap (λ k. serialize_word 8 k ++ (cut_value p n ++ behind_cut))
          (sym (length-cut_value p n h part)))

-- However often `send` would have blocked before: where it takes the header and a part of the value
-- of a packet that is shorter than the buffer, `_send_packet` says that the packet is sent, sends
-- no more of it, and the other side, in whose buffer these bytes arrive, does what the language
-- leaves undefined.
pub send_packet-unpack_cut :
    (fuel n : ℕ) (p q : Packet) (c : Connection) (calls : List Received)
    (blocked rounds : List Sending)
    → All (λ r. r ≡ send_blocks) blocked
    → 9 ≤ suc n
    → suc n < 9 + length p.value
    → 9 + length p.value < buffer_size
    → c.buffer ≡ take (suc n) (Packet.pack p) ++ replicate (buffer_size - suc n) 0
    → c.buf_pos ≡ suc n
    → (send_packet p (blocked ++ taken (suc n) ∷ rounds)
        ≡ (some true, take (suc n) (Packet.pack p)))
      × (unpack (suc fuel) c calls q ≡ fault undefined)
unfolding send_packet Packet.pack
send_packet-unpack_cut fuel n p q c calls blocked rounds h header_sent part small buffer pos =
    let size = length-cut_value p n header_sent part in
    (
      send_bytes-taken (Packet.pack p) blocked n rounds h,
      unpack-cut fuel c calls q p.typ (cut_value p n)
          (replicate (buffer_size - (9 + length p.value)) 0)
          (buffer ∙ cut_buffer p n header_sent part small) (omega (arith, pos, size))
          (omega (arith, size)),
    )
