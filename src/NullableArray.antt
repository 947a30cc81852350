-- ===== src/NullableArray.antt =====
-- include/data/nullable_array.h: a vector of values with a bitmap of those that exist.
pub mod View
pub mod Equality
pub mod Codec
use cs4500project.Prelude.{set as set_elem}
use cs4500project.Prelude.{
  Bool, List, Option, Run, [], assert, erase_at, false, fault, get_elem?, length, ltb, none, not,
  ok, require, some, true, ℕ, ◌%◌, ◌&&◌, ◌++◌, ◌+◌, ◌==◌, ◌>>=◌, ◌>>◌, ◌∷◌,
}
use Prim.Native.Nat.{bit_xor}
use cs4500project.Serializable.{Reader, deserialize_bools, serialize_bools, size_max}

-- The type parameter: its default value `T{}` and its byte form. `bool` has none of its own, see
-- `serialize_flags`.
pub record Element (T : Type 0) : Type 0 where
  pub init : T
  pub write : T → List ℕ
  pub read : Reader T

pub record NullableArray (T : Type 0) : Type 0 where
  pub bitmap : List Bool
  pub items : List T

module _ {T : Type 0} where
  unfoldable pub empty : NullableArray T
  empty = record { bitmap = []; items = [] }

  -- The private constructor, which `deserialize` calls.
  unfoldable pub make : List Bool → List T → Run (NullableArray T)
  make bitmap items = do
    assert (length bitmap == length items)
    ok (record { bitmap = bitmap; items = items })

  unfoldable pub size : NullableArray T → ℕ
  size a = length a.items

  -- The optional at a position that both vectors have.
  abbrev pub optional_of : Bool → T → Option T
  optional_of true x = some x
  optional_of false x = none

  unfoldable pub get : NullableArray T → ℕ → Run (Option T)
  unfolding size
  get a pos = do
    assert (ltb pos (size a))
    exists ← require (get_elem? a.bitmap pos)
    x ← require (get_elem? a.items pos)
    ok (optional_of exists x)

  unfoldable pub pop : NullableArray T → ℕ → Run (Option T × NullableArray T)
  unfolding size
  pop a pos = do
    assert (ltb pos (size a))
    exists ← require (get_elem? a.bitmap pos)
    x ← require (get_elem? a.items pos)
    ok (
      optional_of exists x,
      record { bitmap = erase_at a.bitmap pos; items = erase_at a.items pos },
    )

  -- The loop of `hash`; `std_hash` is `std::hash<T>`, and sums wrap.
  hash_from : (T → ℕ) → ℕ → ℕ → List Bool → List T → ℕ
  hash_from std_hash i h (true ∷ bm) (x ∷ xs) =
      hash_from std_hash (i + 1) (bit_xor ((h + 1) % size_max) (bit_xor (std_hash x) i)) bm xs
  hash_from std_hash i h (false ∷ bm) (x ∷ xs) = hash_from std_hash (i + 1) h bm xs
  hash_from std_hash i h _ _ = h

  unfoldable pub hash : (T → ℕ) → NullableArray T → ℕ
  unfolding hash_from
  hash std_hash a = hash_from std_hash 0 (length a.items) a.bitmap a.items

module _ {T : Type 0} (init : T) where
  abbrev pub item_of : Option T → T
  item_of none = init
  item_of (some x) = x

  abbrev pub exists_of : Option T → Bool
  exists_of none = false
  exists_of (some x) = true

  unfoldable pub push_back : NullableArray T → Option T → NullableArray T
  push_back a (some x) = record { bitmap = a.bitmap ++ true ∷ []; items = a.items ++ x ∷ [] }
  push_back a none = record { bitmap = a.bitmap ++ false ∷ []; items = a.items ++ init ∷ [] }

  unfoldable pub set : NullableArray T → ℕ → Option T → Run (Option T × NullableArray T)
  unfolding size
  set a pos val = do
    assert (ltb pos (size a))
    exists ← require (get_elem? a.bitmap pos)
    x ← require (get_elem? a.items pos)
    ok (
      optional_of exists x,
      record {
        bitmap = set_elem a.bitmap pos (exists_of val);
        items = set_elem a.items pos (item_of val);
      },
    )

-- `==` on vectors, by the elements' `==`.
unfoldable pub all_equal : {A : Type 0} → (A → A → Bool) → List A → List A → Bool
all_equal beq [] [] = true
all_equal beq (x ∷ xs) (y ∷ ys) = beq x y && all_equal beq xs ys
all_equal beq _ _ = false

abbrev pub same_bool : Bool → Bool → Bool
same_bool true b = b
same_bool false b = not b

-- `operator==`, to which `equals` comes down where the other object is an array of the same type.
unfoldable pub equals : {T : Type 0} → (T → T → Bool) → NullableArray T → NullableArray T → Bool
unfolding all_equal
equals beq a b = all_equal same_bool a.bitmap b.bitmap && all_equal beq a.items b.items

module _ {T : Type 0} (el : Element T) where
  -- Only values that exist are written.
  unfoldable pub serialize_items : List Bool → List T → List ℕ
  serialize_items (true ∷ bm) (x ∷ xs) = el.write x ++ serialize_items bm xs
  serialize_items (false ∷ bm) (x ∷ xs) = serialize_items bm xs
  serialize_items _ _ = []

  unfoldable pub serialize : NullableArray T → List ℕ
  unfolding serialize_items
  serialize a = serialize_bools a.bitmap ++ serialize_items a.bitmap a.items

  unfoldable pub deserialize_items : List Bool → List T → Reader (List T)
  deserialize_items [] acc bytes pos = ok (acc, pos)
  deserialize_items (true ∷ bm) acc bytes pos = elim (el.read bytes pos) [
    | ok (x, pos') ↦ deserialize_items bm (acc ++ x ∷ []) bytes pos'
    | fault e ↦ fault e
  ]
  deserialize_items (false ∷ bm) acc bytes pos =
      deserialize_items bm (acc ++ el.init ∷ []) bytes pos

  unfoldable pub deserialize : Reader (NullableArray T)
  unfolding deserialize_items make
  deserialize bytes pos = do
    (bitmap, pos₁) ← deserialize_bools bytes pos
    (items, pos₂) ← deserialize_items bitmap [] bytes pos₁
    a ← make bitmap items
    ok (a, pos₂)

-- The branches for `bool`: the values are a bit set themselves, missing ones included.
unfoldable pub serialize_flags : NullableArray Bool → List ℕ
serialize_flags a = serialize_bools a.bitmap ++ serialize_bools a.items

unfoldable pub deserialize_flags : Reader (NullableArray Bool)
unfolding make
deserialize_flags bytes pos = do
  (bitmap, pos₁) ← deserialize_bools bytes pos
  (items, pos₂) ← deserialize_bools bytes pos₁
  a ← make bitmap items
  ok (a, pos₂)
