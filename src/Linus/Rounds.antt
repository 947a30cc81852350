-- ===== src/Linus/Rounds.antt =====
-- src/util/linus_rowers.cpp, the filters over a frame of commits: the frames of integers they give,
-- as lists of commits say it.
use cs4500project.Column.View as ColumnView
use cs4500project.Row
use cs4500project.Prelude.{
  Bool-cases, List, Option, [], get_elem?, if◌then◌else◌, inl, inr, map, some, ℕ, ◌||◌, ◌∷◌, ◌≡◌,
}
use cs4500project.Column.{Column, Value}
use cs4500project.DataFrame.{DataFrame}
use cs4500project.DataFrame.Fill.{Entries}
use cs4500project.DataFrame.Rounds.{FitsRows}
use cs4500project.DataFrame.Shape.{IsValid, get_elem?-map}
use cs4500project.DataFrame.Sweep.{Shows}
use cs4500project.Linus.{IntSet, contains, projects_to_uuids, the_int_at, uuids_to_projects}
use cs4500project.Linus.IntSets.{an_int}
use cs4500project.Linus.Logs.{Picks}
use cs4500project.Row.{Row}

pub record Commit : Type 0 where
  pub project : ℕ
  pub author : ℕ
  pub committer : ℕ

-- A well-formed frame that shows these commits, in its first three columns, and no other column.
pub record Commits (df : DataFrame) (cs : List Commit) : Type 0 where
  pub projects : Column
  pub authors : Column
  pub committers : Column
  pub valid : IsValid df
  pub rectangular : FitsRows df
  pub columns : df.columns ≡ projects ∷ authors ∷ committers ∷ []
  pub project : ColumnView.view projects ≡ map (λ (c : Commit). an_int c.project) cs
  pub author : ColumnView.view authors ≡ map (λ (c : Commit). an_int c.author) cs
  pub committer : ColumnView.view committers ≡ map (λ (c : Commit). an_int c.committer) cs

pub the_same : {A : Type 0} {o : Option A} {x y : A} → o ≡ some x → o ≡ some y → x ≡ y
the_same p q = cc

three-Entries :
    (i : ℕ) (c₀ c₁ c₂ : Column) (vals : List Value) (x y z : Value)
    → Entries i (c₀ ∷ c₁ ∷ c₂ ∷ []) vals
    → get_elem? (ColumnView.view c₀) i ≡ some x
    → get_elem? (ColumnView.view c₁) i ≡ some y
    → get_elem? (ColumnView.view c₂) i ≡ some z
    → vals ≡ x ∷ y ∷ z ∷ []
three-Entries i c₀ c₁ c₂ [] x y z e p q r = elim e [ ]
three-Entries i c₀ c₁ c₂ (a ∷ []) x y z e p q r = elim e.1 [ ]
three-Entries i c₀ c₁ c₂ (a ∷ b ∷ []) x y z e p q r = elim e.1.1 [ ]
three-Entries i c₀ c₁ c₂ (a ∷ b ∷ c ∷ []) x y z e p q r =
    rw (the_same e.0 p, the_same e.1.0 q, the_same e.1.1.0 r)
three-Entries i c₀ c₁ c₂ (a ∷ b ∷ c ∷ d ∷ vals) x y z e p q r = elim e.1.1.1 [ ]

-- The row shows the commit.
row-Commit :
    (df : DataFrame) (cs : List Commit) (i : ℕ) (c : Commit) (row : Row)
    → Commits df cs
    → get_elem? cs i ≡ some c
    → Shows df i row
    → row.values ≡ an_int c.project ∷ an_int c.author ∷ an_int c.committer ∷ []
row-Commit df cs i c row h e shows =
    let entries : Entries i (h.projects ∷ h.authors ∷ h.committers ∷ []) row.values =
      rw h.columns at shows.entries in
    three-Entries i h.projects h.authors h.committers row.values _ _ _ entries
      (rw (h.project) (get_elem?-map (λ (c' : Commit). an_int c'.project) cs i c e))
      (rw (h.author) (get_elem?-map (λ (c' : Commit). an_int c'.author) cs i c e))
      (rw (h.committer) (get_elem?-map (λ (c' : Commit). an_int c'.committer) cs i c e))

-- The projects of the users in a set, and the users of the projects in one.
unfoldable pub projects_of : IntSet → Commit → List ℕ
projects_of uuids c =
    if contains uuids c.author || contains uuids c.committer then c.project ∷ [] else []

unfoldable pub uuids_of : IntSet → Commit → List ℕ
uuids_of projects c = if contains projects c.project then c.author ∷ c.committer ∷ [] else []

pub uuids_to_projects-Picks :
    (df : DataFrame) (cs : List Commit) (uuids : IntSet)
    → Commits df cs
    → Picks (uuids_to_projects uuids) (λ c. map an_int (projects_of uuids c)) df cs
unfolding uuids_to_projects the_int_at Row.get_int projects_of
uuids_to_projects-Picks df cs uuids h i c row e shows =
    let vals = row-Commit df cs i c row h e shows in
    elim (Bool-cases (contains uuids c.author)) [
      | inl f ↦ rw (vals, f)
      | inr f ↦ elim (Bool-cases (contains uuids c.committer)) [
        | inl g ↦ rw (vals, f, g)
        | inr g ↦ rw (vals, f, g)
      ]
    ]

pub projects_to_uuids-Picks :
    (df : DataFrame) (cs : List Commit) (projects : IntSet)
    → Commits df cs
    → Picks (projects_to_uuids projects) (λ c. map an_int (uuids_of projects c)) df cs
unfolding projects_to_uuids the_int_at Row.get_int uuids_of
projects_to_uuids-Picks df cs projects h i c row e shows =
    let vals = row-Commit df cs i c row h e shows in
    elim (Bool-cases (contains projects c.project)) [ inl f ↦ rw (vals, f) | inr f ↦ rw (vals, f) ]
