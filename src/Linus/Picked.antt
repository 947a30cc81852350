-- ===== src/Linus/Picked.antt =====
-- src/util/linus_rowers.cpp, the filters over a frame of commits: what the frame of integers holds
-- that a filter ends with.
use cs4500project.Column.View as ColumnView
use cs4500project.Prelude.{
  All, List, Permᴰ, Run, [], ap, ap₂, arith, concat, inl, length, length-map, map, ok, refl, subst,
  sym, ℕ, ◌++◌, ◌∙◌, ◌∷◌, ◌≡◌,
}
use cs4500project.Column.{Value}
use cs4500project.DataFrame.{DataFrame, map_rows, nrows}
use cs4500project.Linus.{Filtered, filter}
use cs4500project.Linus.Filters.{Filtered-Holds, Filtered-total}
use cs4500project.Linus.IntSets.{Holds, an_int}
use cs4500project.Linus.Logs.{Picks, map_rows-filter}
use cs4500project.Linus.Rounds.{Commit, Commits}
use cs4500project.Row.{Row}

map_append : {A B : Type 0} (f : A → B) (xs ys : List A) → map f (xs ++ ys) ≡ map f xs ++ map f ys
map_append f [] ys = refl
map_append f (x ∷ xs) ys = ap (◌∷◌ (f x)) (map_append f xs ys)

concat-map_ints :
    {X : Type 0} (f : X → List ℕ) (items : List X)
    → concat (map (λ x. map an_int (f x)) items) ≡ map an_int (concat (map f items))
concat-map_ints f [] = refl
concat-map_ints f (x ∷ items) =
    ap (λ vs. map an_int (f x) ++ vs) (concat-map_ints f items)
    ∙ sym (map_append an_int (f x) (concat (map f items)))

types_of_ints : (xs : List ℕ) → All (λ v. ColumnView.type_of v ≡ b'I') (map an_int xs)
unfolding ColumnView.type_of
types_of_ints [] = tt
types_of_ints (x ∷ xs) = (refl, types_of_ints xs)

-- A reordering of integers, as values, is one of the integers.
unmap_perm :
    (xs : List ℕ) (us vs : List Value)
    → Permᴰ us vs
    → us ≡ map an_int xs
    → (ys : List ℕ) × Permᴰ xs ys × (vs ≡ map an_int ys)
unmap_perm [] us vs Permᴰ.nil e = ([], Permᴰ.nil, refl)
unmap_perm (x ∷ xs) us vs Permᴰ.nil e = absurd (ground arith)
unmap_perm [] us vs (Permᴰ.cons p d) e = absurd (ground arith)
unmap_perm (x ∷ xs) us vs (Permᴰ.cons {a} {b} {l₁} {l₂} p d) e =
    let rest : l₁ ≡ map an_int xs = cc in
    let first : b ≡ an_int x = cc in
    let (ys, perm, same) = unmap_perm xs l₁ l₂ d rest in
    (x ∷ ys, Permᴰ.cons refl perm, ap₂ ◌∷◌ first same)
unmap_perm [] us vs (Permᴰ.swap p q) e = absurd (ground arith)
unmap_perm (x ∷ []) us vs (Permᴰ.swap p q) e = absurd (ground arith)
unmap_perm (x ∷ y ∷ xs) us vs (Permᴰ.swap {a} {b} {a'} {b'} {l} p q) e =
    let rest : l ≡ map an_int xs = cc in
    let first : a' ≡ an_int y = cc in
    let second : b' ≡ an_int x = cc in
    (y ∷ x ∷ xs, Permᴰ.swap refl refl, ap₂ ◌∷◌ first (ap₂ ◌∷◌ second rest))
unmap_perm xs us vs (Permᴰ.trans {l₁} {l₂} {l₃} d₁ d₂) e =
    let (ys, perm₁, same₁) = unmap_perm xs us l₂ d₁ e in
    let (zs, perm₂, same₂) = unmap_perm ys l₂ vs d₂ same₁ in (zs, Permᴰ.trans perm₁ perm₂, same₂)

nrows-Commits : (df : DataFrame) (cs : List Commit) → Commits df cs → nrows df ≡ length cs
unfolding nrows
nrows-Commits df cs h =
    let sound : All ColumnView.IsValid (h.projects ∷ h.authors ∷ h.committers ∷ []) =
      rw h.columns at h.valid.sound in
    rw (h.columns) (ColumnView.size-view h.projects sound.0 ∙ ap length h.project ∙ length-map _ cs)

module _ (df : DataFrame) (cs : List Commit) (h : Commits df cs) (picks : Row → Run (List Value))
    (ints : Commit → List ℕ) (law : Picks picks (λ c. map an_int (ints c)) df cs) where
  pub log_of_ints : map_rows (filter picks) df [] ≡ ok (map an_int (concat (map ints cs)))
  log_of_ints =
      map_rows-filter picks (λ c. map an_int (ints c)) df cs (nrows-Commits df cs h) h.valid
        h.rectangular law
      ∙ ap ok (concat-map_ints ints cs)

  pub picked-total : (out : DataFrame) × Filtered b'I' picks df out
  picked-total =
      Filtered-total b'I' picks df (map an_int (concat (map ints cs))) (inl refl) h.valid
        h.rectangular log_of_ints (types_of_ints (concat (map ints cs)))

  -- The integers of all commits, in some order.
  pub picked-Holds :
      (out : DataFrame)
      → Filtered b'I' picks df out
      → (xs : List ℕ) × Permᴰ (concat (map ints cs)) xs × Holds b'I' out (map an_int xs)
  picked-Holds out f =
      let (vals, perm, holds) =
        Filtered-Holds b'I' picks df (map an_int (concat (map ints cs))) (inl refl) h.valid
          h.rectangular log_of_ints (types_of_ints (concat (map ints cs))) out f in
      let (xs, perm', same) = unmap_perm (concat (map ints cs)) _ vals perm refl in
      (xs, perm', subst (Holds b'I' out) same holds)
