-- ===== src/NullableArray/Equality.antt =====
-- include/data/nullable_array.h, `operator==`: since missing values hold the default, comparing the
-- two vectors compares the lists of optionals that they stand for.
use cs4500project.Prelude.{
  Bool, List, [], ap, ap₂, arith, false, map, refl, sym, true, ◌&&◌, ◌↔◌, ◌∙◌, ◌∷◌, ◌≡◌,
}
use cs4500project.NullableArray.{NullableArray, all_equal, equals, exists_of, item_of, same_bool}
use cs4500project.NullableArray.View.{Clean, IsValid, options, view}

all_equal_iff :
    {A : Type 0} (beq : A → A → Bool)
    → ((x y : A) → (beq x y ≡ true) ↔ (x ≡ y))
    → (xs ys : List A) → (all_equal beq xs ys ≡ true) ↔ (xs ≡ ys)
unfolding all_equal
all_equal_iff beq law [] [] = (λ _. refl, λ _. refl)
all_equal_iff beq law [] (y ∷ ys) = (λ h. cc, λ h. cc)
all_equal_iff beq law (x ∷ xs) [] = (λ h. cc, λ h. cc)
all_equal_iff beq law (x ∷ xs) (y ∷ ys) =
    let (p, q) = law x y in
    let (r, s) = all_equal_iff beq law xs ys in (λ h. ground arith, λ h. ground arith)

same_bool_iff : (a b : Bool) → (same_bool a b ≡ true) ↔ (a ≡ b)
same_bool_iff a b = ground arith

both_true : (a b : Bool) → (a && b) ≡ true → (a ≡ true) × (b ≡ true)
both_true a b h = ground arith

module _ {T : Type 0} (init : T) where
  -- The list of optionals determines both vectors.
  options_recover :
      (bm : List Bool) (xs : List T)
      → Clean init bm xs
      → (map (exists_of init) (options bm xs) ≡ bm) × (map (item_of init) (options bm xs) ≡ xs)
  unfolding Clean options
  options_recover [] [] c = (refl, refl)
  options_recover (true ∷ bm) (x ∷ xs) c =
      let (p, q) = options_recover bm xs c in (ap (◌∷◌ true) p, ap (◌∷◌ x) q)
  options_recover (false ∷ bm) (x ∷ xs) c =
      let (p, q) = options_recover bm xs c.1 in (ap (◌∷◌ false) p, ap₂ ◌∷◌ (sym c.0) q)
  options_recover [] (x ∷ xs) c = absurd c
  options_recover (true ∷ bm) [] c = absurd c
  options_recover (false ∷ bm) [] c = absurd c

  -- Two valid arrays are equal exactly when they stand for the same list of optionals, where the
  -- elements' `==` decides equality.
  pub equals-iff-view :
      (beq : T → T → Bool) (a b : NullableArray T)
      → ((x y : T) → (beq x y ≡ true) ↔ (x ≡ y))
      → IsValid init a
      → IsValid init b
      → (equals beq a b ≡ true) ↔ (view a ≡ view b)
  unfolding equals view
  equals-iff-view beq a b law c c' =
      let (p, q) = all_equal_iff same_bool same_bool_iff a.bitmap b.bitmap in
      let (r, s) = all_equal_iff beq law a.items b.items in
      let (u, v) = options_recover a.bitmap a.items c in
      let (u', v') = options_recover b.bitmap b.items c' in
      (
        λ h. let (e, f) = both_true _ _ h in ap₂ options (p e) (r f),
        λ h.
            let e = sym u ∙ ap (map (exists_of init)) h ∙ u' in
            let f = sym v ∙ ap (map (item_of init)) h ∙ v' in rw (q e, s f),
      )
