-- ===== src/Linus/Members.antt =====
-- src/util/linus_rowers.cpp: the members of the sets that the filters make of lists of commits.
use cs4500project.Prelude.{
  ==_iff, ==_refl, Bool, Bool-cases, List, Permᴰ, [], arith, concat, false, get_elem?,
  if◌then◌else◌, inl, inr, map, refl, some, suc, true, zero, ℕ, ◌==◌, ◌||◌, ◌↔◌, ◌∙◌, ◌∷◌, ◌≡◌, ◌⊎◌,
}
use cs4500project.Linus.{IntSet, contains}
use cs4500project.Linus.IntSets.{contains-append}
use cs4500project.Linus.Rounds.{Commit, projects_of, uuids_of}

-- The user wrote or committed the commit.
abbrev pub Worked : ℕ → Commit → Type 0
Worked u c = (c.author ≡ u) ⊎ (c.committer ≡ u)

pub contains-Permᴰ : (xs ys : List ℕ) (v : ℕ) → Permᴰ xs ys → contains xs v ≡ contains ys v
unfolding contains
contains-Permᴰ xs ys v Permᴰ.nil = refl
contains-Permᴰ xs ys v (Permᴰ.cons {a} {b} {l₁} {l₂} p d) = rw (p, contains-Permᴰ l₁ l₂ v d)
contains-Permᴰ xs ys v (Permᴰ.swap {a} {b} {a'} {b'} {l} p q) = rw (p, q) (ground arith)
contains-Permᴰ xs ys v (Permᴰ.trans {l₁} {l₂} {l₃} d₁ d₂) =
    contains-Permᴰ xs l₂ v d₁ ∙ contains-Permᴰ l₂ ys v d₂

-- A member of the lists of some items is one of the list of an item.
pub contains-concat :
    {X : Type 0} (f : X → List ℕ) (items : List X) (v : ℕ)
    → contains (concat (map f items)) v ≡ true
    → (i : ℕ) × (x : X) × (get_elem? items i ≡ some x) × (contains (f x) v ≡ true)
unfolding contains
contains-concat f [] v h = absurd (ground arith)
contains-concat f (x ∷ items) v h = elim (Bool-cases (contains (f x) v)) [
  | inl e ↦ (0, x, refl, e)
  | inr e ↦
      let split = contains-append (f x) (concat (map f items)) v in
      let rest : contains (concat (map f items)) v ≡ true = ground arith in
      let (i, y, at, has) = contains-concat f items v rest in (suc i, y, at, has)
]

pub concat-contains :
    {X : Type 0} (f : X → List ℕ) (items : List X) (v i : ℕ) (x : X)
    → get_elem? items i ≡ some x
    → contains (f x) v ≡ true
    → contains (concat (map f items)) v ≡ true
concat-contains f [] v i x e h = absurd (ground arith)
concat-contains f (y ∷ items) v zero x e h =
    let same : y ≡ x = ground arith in
    let has : contains (f y) v ≡ true = rw same h in
    contains-append (f y) (concat (map f items)) v ∙ rw has
concat-contains f (y ∷ items) v (suc i) x e h =
    let rest = concat-contains f items v i x e h in
    contains-append (f y) (concat (map f items)) v ∙ rw (rest) (ground arith)

contains_first : (x v : ℕ) (xs : IntSet) → x ≡ v → contains (x ∷ xs) v ≡ true
unfolding contains
contains_first x v xs e = rw (e, ==_refl v)

contains_one : (x v : ℕ) → contains (x ∷ []) v ≡ true → x ≡ v
unfolding contains
contains_one x v h = elim (Bool-cases (x == v)) [
  | inl e ↦ (==_iff x v).0 e
  | inr e ↦ absurd (ground arith)
]

contains_two : (x y v : ℕ) → (contains (x ∷ y ∷ []) v ≡ true) ↔ ((x ≡ v) ⊎ (y ≡ v))
unfolding contains
contains_two x y v = (
  λ h. elim (Bool-cases (x == v)) [
    | inl e ↦ inl ((==_iff x v).0 e)
    | inr e ↦ inr (contains_one y v (rw e at h))
  ],
  λ w. elim w [ inl e ↦ contains_first x v (y ∷ []) e | inr e ↦ rw (e, ==_refl v) (ground arith) ],
)

-- A list that is there under a condition.
contains_if :
    (b : Bool) (xs : List ℕ) (v : ℕ)
    → contains (if b then xs else []) v ≡ true
    → (b ≡ true) × (contains xs v ≡ true)
unfolding contains
contains_if true xs v h = (refl, h)
contains_if false xs v h = absurd (ground arith)

either_true : (b c : Bool) → (b || c) ≡ true → (b ≡ true) ⊎ (c ≡ true)
either_true true c h = inl refl
either_true false c h = inr h

pub uuids_of-Worked :
    (projects : IntSet) (c : Commit) (v : ℕ)
    → (contains (uuids_of projects c) v ≡ true)
      ↔ ((contains projects c.project ≡ true) × Worked v c)
unfolding uuids_of
uuids_of-Worked projects c v = (
  λ h.
      let (e, has) = contains_if (contains projects c.project) _ v h in
      (e, (contains_two c.author c.committer v).0 has),
  λ (e, w). rw (e) ((contains_two c.author c.committer v).1 w),
)

-- A user of the set worked on the commit.
abbrev pub Known : IntSet → Commit → Type 0
Known uuids c = (u : ℕ) × (contains uuids u ≡ true) × Worked u c

pub projects_of-Worked :
    (uuids : IntSet) (c : Commit) (p : ℕ)
    → (contains (projects_of uuids c) p ≡ true) ↔ ((c.project ≡ p) × Known uuids c)
unfolding projects_of
projects_of-Worked uuids c p = (
  λ h.
      let (e, has) = contains_if (contains uuids c.author || contains uuids c.committer) _ p h in
      (
        contains_one c.project p has,
        elim (either_true (contains uuids c.author) (contains uuids c.committer) e) [
          | inl a ↦ (c.author, a, inl refl)
          | inr b ↦ (c.committer, b, inr refl)
        ],
      ),
  λ (e, (u, k, w)).
      let found : (contains uuids c.author || contains uuids c.committer) ≡ true = elim w [
        | inl f ↦ let has : contains uuids c.author ≡ true = rw f k in rw has
        | inr f ↦ let has : contains uuids c.committer ≡ true = rw f k in rw (has) (ground arith)
      ] in
      rw (found) (contains_first c.project p [] e),
)
