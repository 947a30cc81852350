-- ===== src/Linus/Degrees.antt =====
-- src/util/linus.cpp, `_commits`: the users that the frame of a degree holds.
use cs4500project.Prelude.{List, arith, get_elem?, map, ok, some, suc, true, zero, ℕ, ◌<◌, ◌↔◌, ◌≡◌}
use cs4500project.DataFrame.{DataFrame}
use cs4500project.Linus.{
  Degree, Filtered, IntSet, contains, finish_set, linus_degree, next_degree, projects_to_uuids,
  uuids_to_projects,
}
use cs4500project.Linus.IntSets.{Holds, an_int, finish_set-contains}
use cs4500project.Linus.Members.{Known, Worked}
use cs4500project.Linus.Picked.{picked-Holds, picked-total}
use cs4500project.Linus.Rounds.{
  Commit, Commits, projects_of, projects_to_uuids-Picks, uuids_of, uuids_to_projects-Picks,
}
use cs4500project.Linus.Shared.{Shares, round-Shares}

-- The users that are so many steps from those of the start, where a step leads to a user who worked
-- on a project with a user of the step before.
pub data Within (cs : List Commit) (starts : List ℕ) : ℕ → ℕ → Type 0 where
  starting : (v : ℕ) → contains starts v ≡ true → Within cs starts 0 v
  sharing :
      (d u v i j : ℕ) (c c' : Commit)
      → Within cs starts d u
      → get_elem? cs i ≡ some c
      → get_elem? cs j ≡ some c'
      → c.project ≡ c'.project
      → Worked u c
      → Worked v c'
      → Within cs starts (suc d) v

Shares-Within :
    (cs : List Commit) (starts : List ℕ) (d v : ℕ) (Known : ℕ → Type 0)
    → ((u : ℕ) → Known u → Within cs starts d u)
    → Shares cs Known v
    → Within cs starts (suc d) v
Shares-Within cs starts d v Known law s =
    sharing d s.u v s.i s.j s.c s.c' (law s.u s.known) s.first s.second s.project s.worked s.worked'

Within-Shares :
    (cs : List Commit) (starts : List ℕ) (d v : ℕ) (Known : ℕ → Type 0)
    → ((u : ℕ) → Within cs starts d u → Known u)
    → Within cs starts (suc d) v
    → Shares cs Known v
Within-Shares cs starts d v Known law (sharing d' u v' i j c c' w e e' p k k') = record {
  u = u;
  i = i;
  j = j;
  c = c;
  c' = c';
  known = law u w;
  first = e;
  second = e';
  project = p;
  worked = k;
  worked' = k';
}

-- The frame holds the users of a degree.
abbrev pub HoldsDegree : List Commit → List ℕ → ℕ → DataFrame → Type 0
HoldsDegree cs starts d out =
    (zs : List ℕ) × Holds b'I' out (map an_int zs)
    × ((v : ℕ) → (contains zs v ≡ true) ↔ Within cs starts d v)

module _ (df : DataFrame) (cs : List Commit) (linus_uuid : DataFrame) (starts : List ℕ)
    (commits : Commits df cs) (holds : Holds b'I' linus_uuid (map an_int starts)) where
  next-HoldsDegree :
      (d : ℕ) (uuids projects : IntSet) (before project_frame out : DataFrame)
      → HoldsDegree cs starts d before
      → finish_set before ≡ ok uuids
      → Filtered b'I' (uuids_to_projects uuids) df project_frame
      → finish_set project_frame ≡ ok projects
      → Filtered b'I' (projects_to_uuids projects) df out
      → HoldsDegree cs starts (suc d) out
  next-HoldsDegree d uuids projects before project_frame out (xs, held, is) e f g k =
      let (zs, held', shares) =
        round-Shares df cs commits before xs held uuids projects project_frame out e f g k in
      (
        zs,
        held',
        λ v. (
          λ m.
              Shares-Within cs starts d v (λ u. contains xs u ≡ true) (λ u. (is u).0)
                ((shares v).0 m),
          λ w.
              (shares v).1
                (Within-Shares cs starts d v (λ u. contains xs u ≡ true) (λ u. (is u).1) w),
        ),
      )

  -- The start is degree 0.
  start-HoldsDegree : HoldsDegree cs starts 0 linus_uuid
  start-HoldsDegree = (starts, holds, λ v. (λ m. starting v m, λ w. elim w [ starting v' m ↦ m ]))

  -- For a well-formed frame of commits and one of users to start from, in which no value is
  -- missing: in whatever order the threads write, the frame of a degree holds exactly the users
  -- that are so many steps from those of the start, where a step leads from a user to all who wrote
  -- or committed to a project that the user wrote or committed to.
  pub Degree-HoldsDegree :
      (d : ℕ) (out : DataFrame) → Degree df linus_uuid d out → HoldsDegree cs starts d out
  Degree-HoldsDegree d out (linus_degree uuids projects project_frame out' e f g k) =
      next-HoldsDegree 0 uuids projects linus_uuid project_frame out start-HoldsDegree e f g k
  Degree-HoldsDegree d out (next_degree d' uuids projects before project_frame out' lt r e f g k) =
      next-HoldsDegree d' uuids projects before project_frame out (Degree-HoldsDegree d' before r) e
        f g k

  next_filters :
      (before : DataFrame) (xs : List ℕ)
      → Holds b'I' before (map an_int xs)
      → (uuids : IntSet) × (projects : IntSet) × (project_frame : DataFrame) × (out : DataFrame)
        × (finish_set before ≡ ok uuids)
        × Filtered b'I' (uuids_to_projects uuids) df project_frame
        × (finish_set project_frame ≡ ok projects)
        × Filtered b'I' (projects_to_uuids projects) df out
  next_filters before xs held =
      let (uuids, made, _) = finish_set-contains before xs held in
      let law = uuids_to_projects-Picks df cs uuids commits in
      let (project_frame, f) =
        picked-total df cs commits (uuids_to_projects uuids) (projects_of uuids) law in
      let (ps, _, held') =
        picked-Holds df cs commits (uuids_to_projects uuids) (projects_of uuids) law project_frame
          f in
      let (projects, made', _) = finish_set-contains project_frame ps held' in
      let (out, g) =
        picked-total df cs commits (projects_to_uuids projects) (uuids_of projects)
          (projects_to_uuids-Picks df cs projects commits) in
      (uuids, projects, project_frame, out, made, f, made', g)

  -- For a well-formed frame of commits and one of users to start from, in which no value is
  -- missing, the loop of `_commits` comes to a frame for each degree from 1 to 7.
  pub Degree-total : (d : ℕ) → d < 7 → (out : DataFrame) × Degree df linus_uuid (suc d) out
  Degree-total zero lt =
      let (uuids, projects, project_frame, out, e, f, g, k) =
        next_filters linus_uuid starts holds in
      (out, linus_degree uuids projects project_frame out e f g k)
  Degree-total (suc d) lt =
      let (before, r) = Degree-total d (omega arith) in
      let (xs, held, _) = Degree-HoldsDegree (suc d) before r in
      let (uuids, projects, project_frame, out, e, f, g, k) = next_filters before xs held in
      (out, next_degree (suc d) uuids projects before project_frame out (omega arith) r e f g k)
