-- ===== src/NullableArray/View.antt =====
-- include/data/nullable_array.h: an array is a list of optionals, and its operations are those of
-- the list.
use cs4500project.Prelude.{set as set_elem}
use cs4500project.NullableArray.{set as set_at}
use cs4500project.Prelude.{
  Bool, Bool-cases, List, Option, [], ap, arith, assertion_failed, erase_at, false, fault,
  get_elem?, get_elem?_ge, inl, inr, length, ltb, ltb_false→le, ltb→lt, lt→ltb, none, ok, refl,
  some, suc, sym, true, zero, ℕ, ◌++◌, ◌<◌, ◌∙◌, ◌∷◌, ◌≡◌,
}
use cs4500project.NullableArray.{
  NullableArray, empty, exists_of, get, item_of, optional_of, pop, push_back, size,
}

module _ {T : Type 0} where
  -- What the array stands for.
  unfoldable pub options : List Bool → List T → List (Option T)
  options (e ∷ bm) (x ∷ xs) = optional_of e x ∷ options bm xs
  options _ _ = []

  unfoldable pub view : NullableArray T → List (Option T)
  unfolding options
  view a = options a.bitmap a.items

-- The vectors have one length, and a missing value holds `init`.
unfoldable pub Clean : {T : Type 0} → T → List Bool → List T → Type 0
Clean init [] [] = Unit
Clean init (true ∷ bm) (x ∷ xs) = Clean init bm xs
Clean init (false ∷ bm) (x ∷ xs) = (x ≡ init) × Clean init bm xs
Clean init _ _ = ⊥

module _ {T : Type 0} (init : T) where
  abbrev pub IsValid : NullableArray T → Type 0
  IsValid a = Clean init a.bitmap a.items

  pub empty-IsValid : IsValid empty
  unfolding empty Clean
  empty-IsValid = tt

  length-options :
      (bm : List Bool) (xs : List T) → Clean init bm xs → length (options bm xs) ≡ length xs
  unfolding Clean options
  length-options [] [] c = refl
  length-options (true ∷ bm) (x ∷ xs) c = ap suc (length-options bm xs c)
  length-options (false ∷ bm) (x ∷ xs) c = ap suc (length-options bm xs c.1)
  length-options [] (x ∷ xs) c = absurd c
  length-options (true ∷ bm) [] c = absurd c
  length-options (false ∷ bm) [] c = absurd c

  pub size-view : (a : NullableArray T) → IsValid a → size a ≡ length (view a)
  unfolding size view
  size-view a v = sym (length-options a.bitmap a.items v)

  -- A read in range finds both parts of the entry.
  options_at :
      (bm : List Bool) (xs : List T) (i : ℕ)
      → Clean init bm xs
      → i < length xs
      → (e : Bool) × (x : T) × (get_elem? bm i ≡ some e)
        × (get_elem? xs i ≡ some x)
        × (get_elem? (options bm xs) i ≡ some (optional_of e x))
  unfolding Clean options
  options_at [] [] i c h = absurd (omega arith)
  options_at (e ∷ bm) (x ∷ xs) zero c h = (e, x, refl, refl, refl)
  options_at (true ∷ bm) (x ∷ xs) (suc i) c h = options_at bm xs i c (omega arith)
  options_at (false ∷ bm) (x ∷ xs) (suc i) c h = options_at bm xs i c.1 (omega arith)
  options_at [] (x ∷ xs) i c h = absurd c
  options_at (true ∷ bm) [] i c h = absurd c
  options_at (false ∷ bm) [] i c h = absurd c

  options-set :
      (bm : List Bool) (xs : List T) (i : ℕ) (v : Option T)
      → Clean init bm xs
      → Clean init (set_elem bm i (exists_of init v)) (set_elem xs i (item_of init v))
        × (options (set_elem bm i (exists_of init v)) (set_elem xs i (item_of init v))
            ≡ set_elem (options bm xs) i v)
  unfolding Clean options
  options-set [] [] i v c = (tt, refl)
  options-set (true ∷ bm) (x ∷ xs) zero none c = ((refl, c), refl)
  options-set (true ∷ bm) (x ∷ xs) zero (some y) c = (c, refl)
  options-set (false ∷ bm) (x ∷ xs) zero none c = ((refl, c.1), refl)
  options-set (false ∷ bm) (x ∷ xs) zero (some y) c = (c.1, refl)
  options-set (true ∷ bm) (x ∷ xs) (suc i) v c =
      let (d, e) = options-set bm xs i v c in (d, ap (◌∷◌ (some x)) e)
  options-set (false ∷ bm) (x ∷ xs) (suc i) v c =
      let (d, e) = options-set bm xs i v c.1 in ((c.0, d), ap (◌∷◌ none) e)
  options-set [] (x ∷ xs) i v c = absurd c
  options-set (true ∷ bm) [] i v c = absurd c
  options-set (false ∷ bm) [] i v c = absurd c

  options-erase :
      (bm : List Bool) (xs : List T) (i : ℕ)
      → Clean init bm xs
      → Clean init (erase_at bm i) (erase_at xs i)
        × (options (erase_at bm i) (erase_at xs i) ≡ erase_at (options bm xs) i)
  unfolding Clean options
  options-erase [] [] i c = (tt, refl)
  options-erase (true ∷ bm) (x ∷ xs) zero c = (c, refl)
  options-erase (false ∷ bm) (x ∷ xs) zero c = (c.1, refl)
  options-erase (true ∷ bm) (x ∷ xs) (suc i) c =
      let (d, e) = options-erase bm xs i c in (d, ap (◌∷◌ (some x)) e)
  options-erase (false ∷ bm) (x ∷ xs) (suc i) c =
      let (d, e) = options-erase bm xs i c.1 in ((c.0, d), ap (◌∷◌ none) e)
  options-erase [] (x ∷ xs) i c = absurd c
  options-erase (true ∷ bm) [] i c = absurd c
  options-erase (false ∷ bm) [] i c = absurd c

  options-append :
      (bm : List Bool) (xs : List T) (v : Option T)
      → Clean init bm xs
      → Clean init (bm ++ exists_of init v ∷ []) (xs ++ item_of init v ∷ [])
        × (options (bm ++ exists_of init v ∷ []) (xs ++ item_of init v ∷ [])
            ≡ options bm xs ++ v ∷ [])
  unfolding Clean options
  options-append [] [] none c = ((refl, tt), refl)
  options-append [] [] (some x) c = (tt, refl)
  options-append (true ∷ bm) (x ∷ xs) v c =
      let (d, e) = options-append bm xs v c in (d, ap (◌∷◌ (some x)) e)
  options-append (false ∷ bm) (x ∷ xs) v c =
      let (d, e) = options-append bm xs v c.1 in ((c.0, d), ap (◌∷◌ none) e)
  options-append [] (x ∷ xs) v c = absurd c
  options-append (true ∷ bm) [] v c = absurd c
  options-append (false ∷ bm) [] v c = absurd c

  some_inj : {x y : Option T} → some x ≡ some y → x ≡ y
  some_inj e = cc

  -- A push keeps a valid array valid and adds the optional at the end of the list that it
  -- stands for.
  pub view-push_back :
      (a : NullableArray T) (v : Option T)
      → IsValid a
      → IsValid (push_back init a v) × (view (push_back init a v) ≡ view a ++ v ∷ [])
  unfolding push_back view
  view-push_back a none c = options-append a.bitmap a.items none c
  view-push_back a (some x) c = options-append a.bitmap a.items (some x) c

  -- On a valid array, `get` returns the entry of the list that the array stands for if the
  -- index is in range, and fails its assertion behind the end.
  pub get-view :
      (a : NullableArray T) (pos : ℕ)
      → IsValid a
      → get a pos ≡ elim (get_elem? (view a) pos) [ none ↦ fault assertion_failed | some v ↦ ok v ]
  unfolding get view size
  get-view a pos c = elim (Bool-cases (ltb pos (length a.items))) [
    | inl h ↦
        let (e, x, p, q, r) = options_at a.bitmap a.items pos c (ltb→lt _ _ h) in rw (h, p, q, r)
    | inr h ↦
        let e =
          get_elem?_ge (options a.bitmap a.items) pos
            (rw (length-options a.bitmap a.items c) (ltb_false→le _ _ h)) in
        rw (h, e)
  ]

  -- On a valid array and in range, `set` returns the old entry and keeps the array valid, and
  -- the array then stands for the list with that one entry replaced.
  pub set-view :
      (a : NullableArray T) (pos : ℕ) (v : Option T)
      → IsValid a
      → pos < length (view a)
      → (old : Option T) × (a' : NullableArray T) × (set_at init a pos v ≡ ok (old, a'))
        × (get_elem? (view a) pos ≡ some old)
        × IsValid a'
        × (view a' ≡ set_elem (view a) pos v)
  unfolding set_at view size
  set-view a pos v c h =
      let lt : pos < length a.items = omega (arith, length-options a.bitmap a.items c) in
      let (e, x, p, q, r) = options_at a.bitmap a.items pos c lt in
      let (d, s) = options-set a.bitmap a.items pos v c in
      (
        optional_of e x,
        record {
          bitmap = set_elem a.bitmap pos (exists_of init v);
          items = set_elem a.items pos (item_of init v);
        },
        rw (lt→ltb _ _ lt, p, q),
        r,
        d,
        s,
      )

  -- On a valid array and in range, `pop` returns the entry and keeps the array valid, and the
  -- array then stands for the list without that entry.
  pub pop-view :
      (a : NullableArray T) (pos : ℕ)
      → IsValid a
      → pos < length (view a)
      → (old : Option T) × (a' : NullableArray T) × (pop a pos ≡ ok (old, a'))
        × (get_elem? (view a) pos ≡ some old)
        × IsValid a'
        × (view a' ≡ erase_at (view a) pos)
  unfolding pop view size
  pop-view a pos c h =
      let lt : pos < length a.items = omega (arith, length-options a.bitmap a.items c) in
      let (e, x, p, q, r) = options_at a.bitmap a.items pos c lt in
      let (d, s) = options-erase a.bitmap a.items pos c in
      (
        optional_of e x,
        record { bitmap = erase_at a.bitmap pos; items = erase_at a.items pos },
        rw (lt→ltb _ _ lt, p, q),
        r,
        d,
        s,
      )

  -- On a valid array and at an index in range: `push_back` adds an optional at the end of the list
  -- that the array stands for, `get` reads the entry, `set` returns and replaces it, `pop` returns
  -- and removes it, and every array that comes out is valid.
  pub operations-view :
      (a : NullableArray T) (pos : ℕ) (v : Option T)
      → IsValid a
      → pos < length (view a)
      → (old : Option T) × (replaced : NullableArray T) × (shorter : NullableArray T) × (get_elem?
            (view a)
            pos
          ≡ some old)
        × (get a pos ≡ ok old)
        × (set_at init a pos v ≡ ok (old, replaced))
        × (pop a pos ≡ ok (old, shorter))
        × (view (push_back init a v) ≡ view a ++ v ∷ [])
        × (view replaced ≡ set_elem (view a) pos v)
        × (view shorter ≡ erase_at (view a) pos)
        × IsValid (push_back init a v)
        × IsValid replaced
        × IsValid shorter
  operations-view a pos v c h =
      let (old, replaced, stored, was, valid, shows) = set-view a pos v c h in
      let (old', shorter, popped, was', valid', shows') = pop-view a pos c h in
      let (pushed_valid, pushed) = view-push_back a v c in
      let same : old' ≡ old = some_inj (sym was' ∙ was) in
      let read : get a pos ≡ ok old = get-view a pos c ∙ rw was in
      let popped' : pop a pos ≡ ok (old, shorter) = popped ∙ ap (λ o. ok (o, shorter)) same in
      (
        old, replaced, shorter, was, read, stored, popped', pushed, shows, shows', pushed_valid,
        valid, valid',
      )
