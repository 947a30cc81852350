-- ===== src/Packet/Parts.antt =====
-- src/network/packet.cpp, `partial_unpack`: a packet that comes in parts is put together.
use cs4500project.Prelude.{
  Bool, Bool-cases, List, Run, [], ap, append-nil, append_assoc, arith, concat, drop, drop-append,
  false, inl, inr, length, length-append, length-drop, le→ltb_false, ltb, ltb_false→le, ok, refl,
  subst, suc, take, true, zero, ℕ, ◌%◌, ◌++◌, ◌+◌, ◌-◌, ◌<◌, ◌==◌, ◌>>=◌, ◌∙◌, ◌∷◌, ◌≡◌, ◌≤◌,
}
use cs4500project.Packet.{Packet, copy_bytes, partial_unpack, read_value}
use cs4500project.Packet.Whole.{copy_length, from_bytes-one, header, length-header, take_header}
use cs4500project.Serializable.{serialize_word, size_max}
use cs4500project.Serializable.Words.{from_bytes-serialize_word, length-serialize_word}

take_all : (n : ℕ) (xs : List ℕ) → length xs ≤ n → take n xs ≡ xs
take_all zero [] h = refl
take_all zero (x ∷ xs) h = absurd (omega arith)
take_all (suc n) [] h = refl
take_all (suc n) (x ∷ xs) h = ap (◌∷◌ x) (take_all n xs (omega arith))

copy_to_end :
    (pos n : ℕ) (buffer : List ℕ)
    → pos ≤ length buffer
    → n ≡ length buffer - pos
    → copy_bytes pos n buffer ≡ ok (drop pos buffer)
unfolding copy_bytes
copy_to_end pos n buffer h e =
    rw (le→ltb_false (length buffer) (pos + n) (omega arith))
      (ap ok (take_all n (drop pos buffer) (omega (arith, length-drop pos buffer))))

-- A buffer that holds no more than what remains is read to its end, and what remains falls by it.
pub read_value-part :
    (p : Packet) (pos : ℕ) (buffer : List ℕ)
    → pos ≤ length buffer
    → length buffer - pos ≤ p.remaining_len
    → pos + p.remaining_len < size_max
    → read_value p pos buffer
      ≡ ok (
        length buffer,
        p.remaining_len - (length buffer - pos) == 0,
        record p {
          value = p.value ++ drop pos buffer;
          remaining_len = p.remaining_len - (length buffer - pos);
        },
      )
unfolding read_value
read_value-part p pos buffer h small fits =
    let n = p.remaining_len in
    let wrapped : (pos + n) % size_max ≡ pos + n = omega arith in
    elim (Bool-cases (ltb (length buffer) (pos + n))) [
      | inl more ↦
          rw (wrapped, more, copy_to_end pos (length buffer - pos) buffer h refl)
            (ap
              (λ k. ok (
                k,
                n - (length buffer - pos) == 0,
                record p {
                  value = p.value ++ drop pos buffer;
                  remaining_len = n - (length buffer - pos);
                },
              ))
              (omega arith))
      | inr last ↦
          let exact : n ≡ length buffer - pos =
            omega (arith, ltb_false→le (length buffer) (pos + n) last) in
          let end : pos + n ≡ length buffer = omega arith in
          let none_left : n - (length buffer - pos) ≡ 0 = omega arith in
          rw (wrapped, last, copy_to_end pos n buffer h exact, end, none_left)
    ]

-- The buffers that follow the first, each of which continues the value.
unfoldable pub feed : Packet → Bool → List (List ℕ) → Run (Bool × Packet)
feed p finished [] = ok (finished, p)
feed p finished (c ∷ cs) = do
  (pos, finished', p') ← partial_unpack p false c finished
  feed p' finished' cs

feed-concat :
    (cs : List (List ℕ)) (p : Packet) (finished : Bool)
    → p.remaining_len ≡ length (concat cs)
    → p.remaining_len < size_max
    → finished ≡ (p.remaining_len == 0)
    → feed p finished cs ≡ ok (true, record p { value = p.value ++ concat cs; remaining_len = 0 })
unfolding feed partial_unpack
feed-concat [] p finished e small f = rw (f, e, append-nil)
feed-concat (c ∷ cs) p finished e small f =
    let size = length-append c (concat cs) in
    let n = p.remaining_len in
    let ih =
      feed-concat cs (record p { value = p.value ++ c; remaining_len = n - length c })
        (n - length c == 0) (omega arith) (omega arith) refl in
    let whole : length c - 0 ≡ length c = omega arith in
    rw (read_value-part p 0 c (omega arith) (omega arith) (omega arith), whole)
      (ih
        ∙ ap (λ v. ok (true, record p { value = v; remaining_len = 0 }))
            (append_assoc p.value c (concat cs)))

pub partial_unpack-header :
    (q : Packet) (t n : ℕ) (rest : List ℕ) (finished : Bool)
    → n < size_max
    → partial_unpack q true (header t n rest) finished
      ≡ read_value (record { remaining_len = n; typ = t; value = [] }) 9 (header t n rest)
unfolding partial_unpack
partial_unpack-header q t n rest finished small = rw (
  le→ltb_false (length (header t n rest)) 1 (omega (arith, length-header t n rest)),
  le→ltb_false (length (header t n rest)) (1 + 8) (omega (arith, length-header t n rest)),
  take_header t (serialize_word 8 n ++ rest),
  copy_length t n rest,
  from_bytes-serialize_word 8 n small,
  from_bytes-one t,
)

pub drop-header : (t n : ℕ) (rest : List ℕ) → drop 9 (header t n rest) ≡ rest
drop-header t n rest =
    subst (λ j. drop j (serialize_word 8 n ++ rest) ≡ rest) (length-serialize_word 8 n)
      (drop-append (serialize_word 8 n) rest)

-- A packet is put together from its parts: the first buffer holds the header and a first part of
-- the value, and each further buffer the next part, and all parts together are as long as the
-- header says. Whatever the parts are, the packet is finished behind the last, with the type and
-- the whole value, and nothing remains to be read. Header and value are shorter than 2 ^ 64
-- bytes.
pub feed-partial_unpack :
    (q : Packet) (t : ℕ) (first : List ℕ) (parts : List (List ℕ)) (finished : Bool)
    → 9 + (length first + length (concat parts)) < size_max
    → partial_unpack q true (header t (length first + length (concat parts)) first) finished
        >>= (λ r. feed r.2 r.1 parts)
      ≡ ok (true, record { remaining_len = 0; typ = t; value = first ++ concat parts })
feed-partial_unpack q t first parts finished h =
    let n = length first + length (concat parts) in
    let buffer = header t n first in
    let size = length-header t n first in
    let start : Packet = record { remaining_len = n; typ = t; value = [] } in
    let part : length buffer - 9 ≡ length first = omega arith in
    let read : partial_unpack q true buffer finished
        ≡ ok (
          length buffer,
          n - length first == 0,
          record { remaining_len = n - length first; typ = t; value = first },
        ) =
      partial_unpack-header q t n first finished (omega arith)
      ∙ read_value-part start 9 buffer (omega arith) (omega arith) (omega arith)
      ∙ rw (part, drop-header t n first) in
    ap (λ (m : Run (ℕ × Bool × Packet)). m >>= (λ r. feed r.2 r.1 parts)) read
    ∙ feed-concat parts (record { remaining_len = n - length first; typ = t; value = first })
        (n - length first == 0) (omega arith) (omega arith) refl
