-- ===== src/NullableArray/Codec.antt =====
-- include/data/nullable_array.h: `deserialize` reads back what `serialize` wrote.
use cs4500project.Prelude.{
  ==_iff, Bool, List, [], ap, append-nil, append_assoc, ap₂, arith, false, length, length-append,
  ok, refl, suc, true, ◌++◌, ◌+◌, ◌<◌, ◌>>=◌, ◌∙◌, ◌∷◌, ◌≡◌,
}
use cs4500project.NullableArray.{
  Element, NullableArray, deserialize, deserialize_flags, deserialize_items, make, serialize,
  serialize_flags, serialize_items,
}
use cs4500project.NullableArray.View.{Clean, IsValid}
use cs4500project.Serializable.{deserialize_bools, serialize_bools, size_max}
use cs4500project.Serializable.Bits.{deserialize_bools-Decodes}
use cs4500project.Serializable.Words.{Decodes, Decodes-return, Decodes-then, Rest, Rest-append}

module _ {T : Type 0} (el : Element T) (Good : T → Type 0) where
  -- The values that exist are good.
  unfoldable pub Holds : List Bool → List T → Type 0
  Holds (true ∷ bm) (x ∷ xs) = Good x × Holds bm xs
  Holds (false ∷ bm) (x ∷ xs) = Holds bm xs
  Holds _ _ = Unit

  deserialize_items-Decodes :
      ((x : T) → Good x → Decodes el.read (el.write x) x)
      → (bm : List Bool) (xs acc : List T) → Clean el.init bm xs
      → Holds bm xs
      → Decodes (deserialize_items el bm acc) (serialize_items el bm xs) (acc ++ xs)
  unfolding Clean Holds deserialize_items serialize_items
  deserialize_items-Decodes law [] [] acc c g bytes pos rest r =
      rw append-nil (Decodes-return acc bytes pos rest r)
  deserialize_items-Decodes law (true ∷ bm) (x ∷ xs) acc c g bytes pos rest r =
      let tail = serialize_items el bm xs in
      let r₁ : Rest bytes pos (el.write x ++ (tail ++ rest)) = rw append_assoc at r in
      let ih =
        deserialize_items-Decodes law bm xs (acc ++ x ∷ []) c g.1 bytes (pos + length (el.write x))
          rest (Rest-append (el.write x) (tail ++ rest) r₁) in
      rw (law x g.0 bytes pos (tail ++ rest) r₁, deserialize_items, length-append (el.write x) tail)
        (ih ∙ ap₂ (λ v p. ok (v, p)) (append_assoc acc (x ∷ []) xs) (omega arith))
  deserialize_items-Decodes law (false ∷ bm) (x ∷ xs) acc c g bytes pos rest r =
      let ih = deserialize_items-Decodes law bm xs (acc ++ el.init ∷ []) c.1 g bytes pos rest r in
      rw c.0 (
        ih
        ∙ ap (λ v. ok (v, pos + length (serialize_items el bm xs)))
            (append_assoc acc (el.init ∷ []) xs))
  deserialize_items-Decodes law [] (x ∷ xs) acc c g bytes pos rest r = absurd c
  deserialize_items-Decodes law (true ∷ bm) [] acc c g bytes pos rest r = absurd c
  deserialize_items-Decodes law (false ∷ bm) [] acc c g bytes pos rest r = absurd c

module _ {T : Type 0} where
  Clean-length :
      (init : T) (bm : List Bool) (xs : List T) → Clean init bm xs → length bm ≡ length xs
  unfolding Clean
  Clean-length init [] [] c = refl
  Clean-length init (true ∷ bm) (x ∷ xs) c = ap suc (Clean-length init bm xs c)
  Clean-length init (false ∷ bm) (x ∷ xs) c = ap suc (Clean-length init bm xs c.1)
  Clean-length init [] (x ∷ xs) c = absurd c
  Clean-length init (true ∷ bm) [] c = absurd c
  Clean-length init (false ∷ bm) [] c = absurd c

  make-ok :
      (bm : List Bool) (xs : List T)
      → length bm ≡ length xs
      → make bm xs ≡ ok (record { bitmap = bm; items = xs })
  unfolding make
  make-ok bm xs e = rw ((==_iff _ _).1 e)

-- A valid array of fewer than 2 ^ 64 entries, whose values are read back one by one, is read back.
pub deserialize-Decodes :
    {T : Type 0} (el : Element T) (Good : T → Type 0) (a : NullableArray T)
    → ((x : T) → Good x → Decodes el.read (el.write x) x)
    → IsValid el.init a
    → Holds el Good a.bitmap a.items
    → length a.bitmap < size_max
    → Decodes (deserialize el) (serialize el a) a
unfolding deserialize serialize
deserialize-Decodes el Good a law c g fits =
    Decodes-then deserialize_bools
      (λ bm bytes pos.
        deserialize_items el bm [] bytes pos >>= λ r. make bm r.0 >>= λ b. ok (b, r.1))
      (serialize_bools a.bitmap) (serialize_items el a.bitmap a.items) a.bitmap a
      (deserialize_bools-Decodes a.bitmap fits)
      (λ bytes pos rest r. rw (
        deserialize_items-Decodes el Good law a.bitmap a.items [] c g bytes pos rest r,
        make-ok a.bitmap a.items (Clean-length el.init a.bitmap a.items c),
      ))

-- The same for `bool`, whose values all take a bit.
pub deserialize_flags-Decodes :
    (a : NullableArray Bool)
    → IsValid false a
    → length a.bitmap < size_max
    → Decodes deserialize_flags (serialize_flags a) a
unfolding deserialize_flags serialize_flags
deserialize_flags-Decodes a c fits =
    let size = Clean-length false a.bitmap a.items c in
    Decodes-then deserialize_bools
      (λ bm bytes pos. deserialize_bools bytes pos >>= λ r. make bm r.0 >>= λ b. ok (b, r.1))
      (serialize_bools a.bitmap) (serialize_bools a.items) a.bitmap a
      (deserialize_bools-Decodes a.bitmap fits)
      (λ bytes pos rest r. rw (
        deserialize_bools-Decodes a.items (omega arith) bytes pos rest r,
        make-ok a.bitmap a.items size,
      ))
