-- ===== src/Row/Compare.antt =====
-- src/data/row.cpp, `equals` and `hash`. The comparison of doubles is an argument, and so is what a
-- double makes of a hash, which is computed as a double and converted.
use cs4500project.Row
use cs4500project.Schema
use cs4500project.Prelude.{
  Bool, List, Option, Run, [], false, get_elem?, if◌then◌else◌, length, ltb, none, ok, require,
  some, suc, true, zero, ℕ, ◌%◌, ◌&&◌, ◌*◌, ◌+◌, ◌-◌, ◌==◌, ◌>>=◌, ◌^◌, ◌∷◌,
}
use cs4500project.NullableArray.{same_bool}
use cs4500project.Row.{Row}
use cs4500project.Schema.{Schema}
use cs4500project.Serializable.{size_max}

-- `==` of optionals.
unfoldable pub same_optional : {T : Type 0} → (T → T → Bool) → Option T → Option T → Bool
same_optional beq none none = true
same_optional beq (some x) (some y) = beq x y
same_optional beq _ _ = false

-- The switch of `equals` on the type of column `i`. A string is read through its optional.
unfoldable pub equals_at : (ℕ → ℕ → Bool) → Row → Row → ℕ → ℕ → Run Bool
unfolding same_optional
equals_at same_float r o t i =
    if t == b'I'
    then (do x ← Row.get_int r i; y ← Row.get_int o i; ok (same_optional ◌==◌ x y))
    else if t == b'F'
    then (do x ← Row.get_double r i; y ← Row.get_double o i; ok (same_optional same_float x y))
    else if t == b'B'
    then (do x ← Row.get_bool r i; y ← Row.get_bool o i; ok (same_optional same_bool x y))
    else if t == b'S'
    then (do
      x ← Row.get_string r i
      s ← require x
      y ← Row.get_string o i
      s' ← require y
      ok (Schema.same_string s s'))
    else ok true

-- The loop of `equals`, over the columns still to be compared.
unfoldable pub equals_from : (ℕ → ℕ → Bool) → Row → Row → ℕ → ℕ → Run Bool
unfolding equals_at
equals_from same_float r o zero i = ok true
equals_from same_float r o (suc left) i = do
  t ← require (get_elem? r.types i)
  t' ← require (get_elem? o.types i)
  same ← (if t == t' then equals_at same_float r o t i else ok false)
  elim same [ false ↦ ok false | true ↦ equals_from same_float r o left (i + 1) ]

unfoldable pub equals : (ℕ → ℕ → Bool) → Row → Row → Run Bool
unfolding equals_from
equals same_float r o =
    if (r.index == o.index) && (r.width == o.width)
    then equals_from same_float r o r.width 0
    else ok false

-- An `int` and a `char` are signed: the `size_t` that they are converted to.
unfoldable pub of_signed : ℕ → ℕ → ℕ
of_signed bits x = if ltb x (2 ^ (bits - 1)) then x else x + size_max - 2 ^ bits

-- The loop over the characters of a string, whose index hides that of the column.
unfoldable pub hash_chars : ℕ → ℕ → List ℕ → ℕ
unfolding of_signed
hash_chars hash i [] = hash
hash_chars hash i (c ∷ s) = hash_chars ((hash + of_signed 8 c * i) % size_max) (i + 1) s

-- The switch of `hash` on the type of column `i`.
unfoldable pub hash_at : (ℕ → Option ℕ → ℕ → ℕ) → Row → ℕ → ℕ → ℕ → Run ℕ
unfolding hash_chars of_signed
hash_at float_hash r t i hash =
    if t == b'I'
    then (Row.get_int r i >>= λ val.
        ok ((hash + (elim val [ none ↦ 1 | some x ↦ of_signed 32 x ]) * i) % size_max))
    else if t == b'F'
    then (Row.get_double r i >>= λ val. ok (float_hash hash val i))
    else if t == b'B'
    then (Row.get_bool r i >>= λ val.
        ok ((hash + (elim val [ none ↦ 1 | some b ↦ if b then 3 else 2 ]) * i) % size_max))
    else if t == b'S'
    then (Row.get_string r i >>= λ s. elim s [
      | none ↦ ok ((hash + 1) % size_max)
      | some s ↦ ok (hash_chars ((hash + length s) % size_max) 0 s)
    ])
    else ok hash

-- The loop of `hash`, over the columns still to be taken in.
unfoldable pub hash_from : (ℕ → Option ℕ → ℕ → ℕ) → Row → ℕ → ℕ → ℕ → Run ℕ
unfolding hash_at
hash_from float_hash r zero i hash = ok hash
hash_from float_hash r (suc left) i hash = do
  t ← require (get_elem? r.types i)
  hash' ← hash_at float_hash r t i ((hash + of_signed 8 t * i) % size_max)
  hash_from float_hash r left (i + 1) hash'

unfoldable pub hash : (ℕ → Option ℕ → ℕ → ℕ) → Row → Run ℕ
unfolding hash_from
hash float_hash r = hash_from float_hash r r.width 0 ((r.width + r.index) % size_max)
