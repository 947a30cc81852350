-- ===== src/Column/Codec.antt =====
-- include/data/column.h, the specialisations of `deserialize`: a column is read back as it was.
use cs4500project.NullableArray
use cs4500project.NullableArray.View as ArrayView
use cs4500project.NullableArray.Codec as ArrayCodec
use cs4500project.Prelude.{
  Bool, List, [], append-nil, append_assoc, arith, false, get_elem?, get_elem?_append, length,
  length-append, ltb, lt→ltb, ok, refl, some, subst, true, ℕ, ◌++◌, ◌+◌, ◌<◌, ◌^◌, ◌∷◌, ◌≡◌,
}
use cs4500project.Column.{
  Column, bool_column, deserialize, deserialize_array, deserialize_bool_array, float_column,
  float_element, get_type, int_column, int_element, refill, serialize, string_column,
  string_element,
}
use cs4500project.Column.View.{IsValid}
use cs4500project.NullableArray.{Element, NullableArray, optional_of}
use cs4500project.Serializable.{size_max}
use cs4500project.Serializable.Strings.{IsBytes, deserialize_string-Decodes}
use cs4500project.Serializable.Words.{Decodes, Rest-append_between, deserialize_word-Decodes}

snoc-append : {A : Type 0} (xs : List A) (y : A) (ys : List A) → (xs ++ y ∷ []) ++ ys ≡ xs ++ y ∷ ys
snoc-append xs y ys = append_assoc xs (y ∷ []) ys

push_back_entry :
    {T : Type 0} (init : T) (bm : List Bool) (xs : List T) (e : Bool) (x : T)
    → (e ≡ false → x ≡ init)
    → NullableArray.push_back init (record { bitmap = bm; items = xs }) (optional_of e x)
      ≡ record { bitmap = bm ++ e ∷ []; items = xs ++ x ∷ [] }
unfolding NullableArray.push_back
push_back_entry init bm xs true x h = refl
push_back_entry init bm xs false x h = rw (h refl)

get_entry :
    {T : Type 0} (bm bm' : List Bool) (xs xs' : List T) (b : Bool) (x : T)
    → length bm ≡ length xs
    → NullableArray.get (record { bitmap = bm ++ b ∷ bm'; items = xs ++ x ∷ xs' }) (length xs)
      ≡ ok (optional_of b x)
unfolding NullableArray.get NullableArray.size
get_entry bm bm' xs xs' b x e =
    let within : ltb (length xs) (length (xs ++ x ∷ xs')) ≡ true =
      lt→ltb _ _ (omega (arith, length-append xs (x ∷ xs'))) in
    let flag : get_elem? (bm ++ b ∷ bm') (length xs) ≡ some b =
      subst (λ k. get_elem? (bm ++ b ∷ bm') k ≡ some b) e (get_elem?_append bm b bm') in
    rw (within, flag, get_elem?_append xs x xs')

Clean-split :
    {T : Type 0} (init : T) (b : Bool) (x : T) (bm : List Bool) (xs : List T)
    → ArrayView.Clean init (b ∷ bm) (x ∷ xs)
    → (b ≡ false → x ≡ init) × ArrayView.Clean init bm xs
unfolding ArrayView.Clean
Clean-split init true x bm xs c = (λ h. cc, c)
Clean-split init false x bm xs c = (λ h. c.0, c.1)

-- The copy loop pushes each entry in turn.
refill_suffix :
    {T : Type 0} (init : T) (bm bm' : List Bool) (xs xs' : List T)
    → length bm ≡ length xs
    → ArrayView.Clean init bm' xs'
    → refill init
        (record { bitmap = bm ++ bm'; items = xs ++ xs' })
        (length xs')
        (length xs)
        (record { bitmap = bm; items = xs })
      ≡ ok (record { bitmap = bm ++ bm'; items = xs ++ xs' })
unfolding ArrayView.Clean refill
refill_suffix init bm [] xs [] e c = rw (append-nil bm, append-nil xs)
refill_suffix {T} init bm (b ∷ bm') xs (x ∷ xs') e c =
    let (missing, c') = Clean-split init b x bm' xs' c in
    let ih =
      refill_suffix init (bm ++ b ∷ []) bm' (xs ++ x ∷ []) xs'
        (omega (arith, length-append bm (b ∷ []), length-append xs (x ∷ []))) c' in
    rw (get_entry bm bm' xs xs' b x e, refill, push_back_entry init bm xs b x missing)
      (rw (snoc-append bm b bm', snoc-append xs x xs', length-append xs (x ∷ [])) at ih)
refill_suffix init bm [] xs (x ∷ xs') e c = absurd c
refill_suffix init bm (true ∷ bm') xs [] e c = absurd c
refill_suffix init bm (false ∷ bm') xs [] e c = absurd c

refill-copy :
    {T : Type 0} (init : T) (a : NullableArray T)
    → ArrayView.IsValid init a
    → refill init a (NullableArray.size a) 0 NullableArray.empty ≡ ok a
unfolding NullableArray.size NullableArray.empty
refill-copy init a c = refill_suffix init [] a.bitmap [] a.items refl c

-- The bytes of strings are bytes, numbers fit their words, and there are fewer entries than
-- `size_t` counts.
abbrev FitsArray : {T : Type 0} → (T → Type 0) → Element T → NullableArray T → Type 0
FitsArray Good el a = ArrayCodec.Holds el Good a.bitmap a.items × (length a.bitmap < size_max)

abbrev pub GoodString : List ℕ → Type 0
GoodString s = IsBytes s × (length s < size_max)

unfoldable pub Fits : Column → Type 0
Fits (int_column a) = FitsArray (λ n. n < 2 ^ 32) int_element a
Fits (float_column a) = FitsArray (λ n. n < 2 ^ 64) float_element a
Fits (bool_column a) = length a.bitmap < size_max
Fits (string_column a) = FitsArray GoodString string_element a

deserialize_array-Decodes :
    {T : Type 0} (el : Element T) (Good : T → Type 0) (a : NullableArray T)
    → ((x : T) → Good x → Decodes el.read (el.write x) x)
    → ArrayView.IsValid el.init a
    → FitsArray Good el a
    → Decodes (deserialize_array el) (NullableArray.serialize el a) a
unfolding deserialize_array
deserialize_array-Decodes el Good a law c g bytes pos rest r = rw (
  ArrayCodec.deserialize-Decodes el Good a law c g.0 g.1 bytes pos rest r,
  refill-copy el.init a c,
)

deserialize_bool_array-Decodes :
    (a : NullableArray Bool)
    → ArrayView.IsValid false a
    → length a.bitmap < size_max
    → Decodes deserialize_bool_array (NullableArray.serialize_flags a) a
unfolding deserialize_bool_array
deserialize_bool_array-Decodes a c fits bytes pos rest r =
    rw (ArrayCodec.deserialize_flags-Decodes a c fits bytes pos rest r, refill-copy false a c)

pub deserialize-Decodes :
    (c : Column) → IsValid c → Fits c → Decodes (deserialize (get_type c)) (serialize c) c
unfolding deserialize serialize get_type IsValid Fits
deserialize-Decodes (int_column a) v g bytes pos rest r = rw (
    deserialize_array-Decodes int_element (λ n. n < 2 ^ 32) a
      (λ x h. deserialize_word-Decodes 4 x h) v g bytes pos rest r)
deserialize-Decodes (float_column a) v g bytes pos rest r = rw (
    deserialize_array-Decodes float_element (λ n. n < 2 ^ 64) a
      (λ x h. deserialize_word-Decodes 8 x h) v g bytes pos rest r)
deserialize-Decodes (bool_column a) v g bytes pos rest r =
    rw (deserialize_bool_array-Decodes a v g bytes pos rest r)
deserialize-Decodes (string_column a) v g bytes pos rest r = rw (
    deserialize_array-Decodes string_element GoodString a
      (λ x h. deserialize_string-Decodes x h.0 h.1) v g bytes pos rest r)

-- A valid column that fits its words is read back by its type, wherever its bytes stand among
-- fewer than 2 ^ 64 bytes in all.
pub deserialize_column-serialize :
    (pre : List ℕ) (c : Column) (post : List ℕ)
    → IsValid c
    → Fits c
    → length (pre ++ serialize c ++ post) < size_max
    → deserialize (get_type c) (pre ++ serialize c ++ post) (length pre)
      ≡ ok (c, length pre + length (serialize c))
deserialize_column-serialize pre c post v g total =
    deserialize-Decodes c v g (pre ++ serialize c ++ post) (length pre) post
      (Rest-append_between pre (serialize c) post total)
