-- ===== src/Serializable/Words.antt =====
-- include/util/serializable.h, primitive types: reading back the bytes of a word.
use native.Mathlib.Nat.{pow-suc}
use cs4500project.Prelude.{
  All, List, [], ap, append_assoc, arith, drop, drop-append, drop-drop, length, length-append,
  length-drop, le→ltb_false, ok, refl, subst, suc, take, take-append, zero, ℕ, ◌++◌, ◌+◌, ◌-◌, ◌/◌,
  ◌<◌, ◌>>=◌, ◌^◌, ◌∙◌, ◌≡◌, ◌≤◌,
}
use cs4500project.Serializable.{Reader, deserialize_word, from_bytes, serialize_word, size_max}

-- What stands in the bytes from a position on; there are fewer bytes than `size_t` counts.
pub record Rest (bytes : List ℕ) (pos : ℕ) (rest : List ℕ) : Type 0 where
  pub within : pos ≤ length bytes
  pub fits : length bytes < size_max
  pub rest_eq : drop pos bytes ≡ rest

pub Rest-length :
    {bytes : List ℕ} {pos : ℕ} {rest : List ℕ}
    → Rest bytes pos rest
    → pos + length rest ≡ length bytes
Rest-length {bytes} {pos} r = omega (arith, length-drop pos bytes, ap length r.rest_eq)

pub Rest-append :
    {bytes : List ℕ} {pos : ℕ} (xs ys : List ℕ)
    → Rest bytes pos (xs ++ ys)
    → Rest bytes (pos + length xs) ys
Rest-append {bytes} {pos} xs ys r = record {
  within = omega (arith, Rest-length r, length-append xs ys);
  fits = r.fits;
  rest_eq = drop-drop pos (length xs) bytes ∙ ap (drop (length xs)) r.rest_eq ∙ drop-append xs ys;
}

-- Between a prefix and a suffix.
pub Rest-append_between :
    (pre xs post : List ℕ)
    → length (pre ++ xs ++ post) < size_max
    → Rest (pre ++ xs ++ post) (length pre) (xs ++ post)
Rest-append_between pre xs post h = record {
  within = omega (arith, ap length (append_assoc pre xs post), length-append pre (xs ++ post));
  fits = h;
  rest_eq = rw append_assoc (drop-append pre (xs ++ post));
}

pub length-serialize_word : (k n : ℕ) → length (serialize_word k n) ≡ k
unfolding serialize_word
length-serialize_word zero n = refl
length-serialize_word (suc k) n = ap suc (length-serialize_word k (n / 256))

-- Every byte that is written is below 256.
pub serialize_word-IsByte : (k n : ℕ) → All (λ b. b < 256) (serialize_word k n)
unfolding serialize_word
serialize_word-IsByte zero n = tt
serialize_word-IsByte (suc k) n = (omega arith, serialize_word-IsByte k (n / 256))

pub from_bytes-serialize_word : (k n : ℕ) → n < 256 ^ k → from_bytes (serialize_word k n) ≡ n
unfolding from_bytes serialize_word
from_bytes-serialize_word zero n h = omega arith
from_bytes-serialize_word (suc k) n h =
    omega (arith, from_bytes-serialize_word k (n / 256) (let p = pow-suc 256 k in omega arith))

pub deserialize_word-Rest :
    (k n : ℕ) (rest : List ℕ) {bytes : List ℕ} {pos : ℕ}
    → Rest bytes pos (serialize_word k n ++ rest)
    → n < 256 ^ k
    → deserialize_word k bytes pos ≡ ok (n, pos + k)
unfolding deserialize_word
deserialize_word-Rest k n rest {bytes} {pos} r h =
    let word = serialize_word k n in
    let size = length-serialize_word k n in
    let total = Rest-length r in
    let room : k ≤ length bytes - pos = omega (arith, length-append word rest) in
    let taken : take k (word ++ rest) ≡ word =
      subst (λ j. take j (word ++ rest) ≡ word) size (take-append word rest) in
    rw (
      le→ltb_false _ _ r.within,
      le→ltb_false _ _ room,
      r.rest_eq,
      taken,
      from_bytes-serialize_word k n h,
    )

-- A reader reads `x` back from `enc`, wherever that stands.
abbrev pub Decodes {ℓ} : {A : Type ℓ} → Reader A → List ℕ → A → Type ℓ
Decodes read enc x =
    (bytes : List ℕ) (pos : ℕ) (rest : List ℕ)
    → Rest bytes pos (enc ++ rest)
    → read bytes pos ≡ ok (x, pos + length enc)

pub deserialize_word-Decodes :
    (k n : ℕ) → n < 256 ^ k → Decodes (deserialize_word k) (serialize_word k n) n
deserialize_word-Decodes k n h bytes pos rest r =
    rw length-serialize_word (deserialize_word-Rest k n rest r h)

pub Decodes-return {ℓ} : {A : Type ℓ} (a : A) → Decodes (λ bytes pos. ok (a, pos)) [] a
Decodes-return a bytes pos rest r = ap (λ p. ok (a, p)) (omega arith)

-- One reader after another.
pub Decodes-then {ℓ κ} :
    {A : Type ℓ} {B : Type κ} (m : Reader A) (f : A → Reader B) (e₁ e₂ : List ℕ) (a : A) (b : B)
    → Decodes m e₁ a
    → Decodes (f a) e₂ b
    → Decodes (λ bytes pos. m bytes pos >>= λ r. f r.0 bytes r.1) (e₁ ++ e₂) b
Decodes-then m f e₁ e₂ a b first second bytes pos rest r =
    let r₁ : Rest bytes pos (e₁ ++ (e₂ ++ rest)) = rw append_assoc at r in
    let total = length-append e₁ e₂ in
    rw (first bytes pos (e₂ ++ rest) r₁, total)
      (second bytes (pos + length e₁) rest (Rest-append e₁ (e₂ ++ rest) r₁)
        ∙ ap (λ p. ok (b, p)) (omega arith))

pub Decodes-map {ℓ κ} :
    {A : Type ℓ} {B : Type κ} (m : Reader A) (f : A → B) (e : List ℕ) (a : A)
    → Decodes m e a
    → Decodes (λ bytes pos. m bytes pos >>= λ r. ok (f r.0, r.1)) e (f a)
Decodes-map m f e a first bytes pos rest r = rw (first bytes pos rest r)
