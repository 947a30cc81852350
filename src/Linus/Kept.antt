-- ===== src/Linus/Kept.antt =====
-- src/util/linus.cpp, `_commits`: which frames the store has at the end.
use cs4500project.KvStore
use cs4500project.Prelude.{
  ==_iff, Bool-cases, List, arith, false, inl, inr, map, ok, refl, some, subst, suc, sym, true, ℕ,
  ◌<◌, ◌==◌, ◌∙◌, ◌≡◌,
}
use cs4500project.DataFrame.{DataFrame}
use cs4500project.KvStore.{KvStore, NodeKey, get_local, named_key, same_key}
use cs4500project.KvStore.Laws.{get_local-set}
use cs4500project.Linus.{
  Degree, Filtered, IntSet, finish_set, linus_degree, next_degree, uuids_to_projects,
}
use cs4500project.Linus.Degrees.{Degree-HoldsDegree, HoldsDegree}
use cs4500project.Linus.IntSets.{Holds, an_int}
use cs4500project.Linus.Rounds.{Commit, Commits}
use cs4500project.Linus.Stores.{
  CommitsRounds, Finishes, StoresUuids, linus_projects, one_round, projects_key, uuids_key,
}
use cs4500project.Schema.{same_string}

-- Where the frame of projects of a round comes from: the users of the degree before it.
data From (commits linus_uuid : DataFrame) : ℕ → DataFrame → Type 0 where
  from_linus :
      (uuids : IntSet) (project_frame : DataFrame)
      → finish_set linus_uuid ≡ ok uuids
      → Filtered b'I' (uuids_to_projects uuids) commits project_frame
      → From commits linus_uuid 0 project_frame
  from_degree :
      (d : ℕ) (uuids : IntSet) (before project_frame : DataFrame)
      → Degree commits linus_uuid (suc d) before
      → finish_set before ≡ ok uuids
      → Filtered b'I' (uuids_to_projects uuids) commits project_frame
      → From commits linus_uuid (suc d) project_frame

-- The store has the frame of each degree so far.
abbrev HasDegrees : DataFrame → DataFrame → ℕ → KvStore → Type 0
HasDegrees commits linus_uuid d s =
    (j : ℕ)
    → j < d
    → (out : DataFrame) × (get_local s (uuids_key (suc j)) ≡ some out)
      × Degree commits linus_uuid (suc j) out

same_key-uuids : (i j : ℕ) → same_key (uuids_key i) (uuids_key j) ≡ (i == j)
unfolding same_key same_string
same_key-uuids i j = ground arith

module _ (commits linus_uuid : DataFrame) where
  From-Degree :
      (d : ℕ) (project_frame : DataFrame) (key : NodeKey) (s : KvStore) (out : DataFrame)
      (s' : KvStore)
      → d < 7
      → From commits linus_uuid d project_frame
      → StoresUuids commits project_frame key s out s'
      → Degree commits linus_uuid (suc d) out
  From-Degree d project_frame key s out s' lt (from_linus uuids pf e f) st =
      linus_degree uuids st.projects project_frame out e f st.known st.filtered
  From-Degree d project_frame key s out s' lt (from_degree d' uuids before pf r e f) st =
      next_degree (suc d') uuids st.projects before project_frame out lt r e f st.known st.filtered

  -- A `set` under another key leaves the frames where they are.
  HasDegrees-set :
      (d : ℕ) (s : KvStore) (k : NodeKey) (df : DataFrame) (s' : KvStore)
      → ((j : ℕ) → j < d → same_key (uuids_key (suc j)) k ≡ false)
      → KvStore.set s k df ≡ ok s'
      → HasDegrees commits linus_uuid d s
      → HasDegrees commits linus_uuid d s'
  HasDegrees-set d s k df s' other e has j lt =
      let (out, found, degree) = has j lt in
      let after = get_local-set s k (uuids_key (suc j)) df s' e in
      (out, rw (other j lt) at after ∙ found, degree)

  HasDegrees-next :
      (d : ℕ) (s : KvStore) (df : DataFrame) (s' : KvStore)
      → KvStore.set s (uuids_key (suc d)) df ≡ ok s'
      → Degree commits linus_uuid (suc d) df
      → HasDegrees commits linus_uuid d s
      → HasDegrees commits linus_uuid (suc d) s'
  HasDegrees-next d s df s' e degree has j lt =
      let after = get_local-set s (uuids_key (suc d)) (uuids_key (suc j)) df s' e in
      elim (Bool-cases (j == d)) [
        | inl last ↦
            let same : j ≡ d = (==_iff j d).0 last in
            let found : same_key (uuids_key (suc j)) (uuids_key (suc d)) ≡ true =
              same_key-uuids (suc j) (suc d) ∙ ground arith in
            (
              df,
              rw found at after,
              subst (λ i. Degree commits linus_uuid (suc i) df) (sym same) degree,
            )
        | inr earlier ↦
            let (out, found, degree') = has j (ground arith) in
            let other : same_key (uuids_key (suc j)) (uuids_key (suc d)) ≡ false =
              same_key-uuids (suc j) (suc d) ∙ ground arith in
            (out, rw other at after ∙ found, degree')
      ]

uuids-projects : (i j : ℕ) → same_key (uuids_key i) (projects_key j) ≡ false
unfolding same_key
uuids-projects i j = refl

uuids-linus : (i : ℕ) → same_key (uuids_key i) (named_key "linus_projects") ≡ false
unfolding same_key same_string
uuids-linus i = refl

uuids-other : (i j : ℕ) → i < j → same_key (uuids_key (suc i)) (uuids_key (suc j)) ≡ false
uuids-other i j lt = same_key-uuids (suc i) (suc j) ∙ ground arith

module _ (commits linus_uuid : DataFrame) (start : KvStore) where
  -- After each round the store has the frames of the degrees so far, and the next frame of projects
  -- is made of the last.
  rounds-HasDegrees :
      (d : ℕ) (project_frame : DataFrame) (s : KvStore)
      → CommitsRounds commits linus_uuid start d project_frame s
      → From commits linus_uuid d project_frame × HasDegrees commits linus_uuid d s
  rounds-HasDegrees d project_frame s (linus_projects pf s' st) =
      (from_linus st.uuids project_frame st.known st.filtered, λ j lt. absurd (omega arith))
  rounds-HasDegrees d project_frame s (one_round d' pf degree_uuids pf' s₁ s₂ s₃ rounds lt us ps) =
      let (from, has) = rounds-HasDegrees d' pf s₁ rounds in
      let degree =
        From-Degree commits linus_uuid d' pf (uuids_key (suc d')) s₁ degree_uuids s₂ (omega arith)
          from us in
      let has' = HasDegrees-next commits linus_uuid d' s₁ degree_uuids s₂ us.set degree has in
      (
        from_degree d' ps.uuids degree_uuids project_frame degree ps.known ps.filtered,
        HasDegrees-set commits linus_uuid (suc d') s₂ (projects_key (suc d')) pf' s₃
            (λ j lt'. uuids-projects (suc j) (suc d')) ps.set has',
      )

  finished-HasDegrees :
      (final : KvStore)
      → Finishes commits linus_uuid start final
      → HasDegrees commits linus_uuid 7 final
  finished-HasDegrees final f =
      let (from, has) = rounds-HasDegrees 6 f.project_frame f.before f.rounds in
      let degree =
        From-Degree commits linus_uuid 6 f.project_frame (uuids_key 7) f.before f.degree_uuids final
          (omega arith) from f.last in
      HasDegrees-next commits linus_uuid 6 f.before f.degree_uuids final f.last.set degree has

-- For a well-formed frame of commits and one of users to start from, in which no value is missing:
-- when `_commits` has come to its end, in whatever order the threads of its filters have written,
-- the node's own store has, under the key of each degree from 1 to 7, a frame that holds exactly
-- the users who are so many steps from those of the start. The string of types in a row has room
-- for 15 characters, as in GNU's library.
pub finishes-HoldsDegree :
    (commits linus_uuid : DataFrame) (cs : List Commit) (starts : List ℕ) (start final : KvStore)
    (d : ℕ)
    → Commits commits cs
    → Holds b'I' linus_uuid (map an_int starts)
    → Finishes commits linus_uuid start final
    → d < 7
    → (out : DataFrame) × (get_local final (uuids_key (suc d)) ≡ some out)
      × HoldsDegree cs starts (suc d) out
finishes-HoldsDegree commits linus_uuid cs starts start final d c h f lt =
    let (out, found, degree) = finished-HasDegrees commits linus_uuid start final f d lt in
    (out, found, Degree-HoldsDegree commits cs linus_uuid starts c h (suc d) out degree)
