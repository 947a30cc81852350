-- ===== src/Linus/Shared.antt =====
-- src/util/linus.cpp, one round of `_commits`: from the users of a frame to those that share a
-- project with one of them.
use cs4500project.Prelude.{
  List, ap, concat, get_elem?, map, ok, ok_inj, some, sym, true, ℕ, ◌↔◌, ◌∙◌, ◌≡◌,
}
use cs4500project.CtcConnection.Keys.{listed}
use cs4500project.DataFrame.{DataFrame}
use cs4500project.Linus.{
  Filtered, IntSet, contains, finish_set, projects_to_uuids, uuids_to_projects,
}
use cs4500project.Linus.IntSets.{Holds, an_int, finish_set-contains}
use cs4500project.Linus.Members.{
  Worked, concat-contains, contains-Permᴰ, contains-concat, projects_of-Worked, uuids_of-Worked,
}
use cs4500project.Linus.Picked.{picked-Holds}
use cs4500project.Linus.Rounds.{
  Commit, Commits, projects_of, projects_to_uuids-Picks, uuids_of, uuids_to_projects-Picks,
}

-- Two commits of one project, the first by a user that is known, the second by this one.
pub record Shares (cs : List Commit) (Known : ℕ → Type 0) (v : ℕ) : Type 0 where
  pub u : ℕ
  pub i : ℕ
  pub j : ℕ
  pub c : Commit
  pub c' : Commit
  pub known : Known u
  pub first : get_elem? cs i ≡ some c
  pub second : get_elem? cs j ≡ some c'
  pub project : c.project ≡ c'.project
  pub worked : Worked u c
  pub worked' : Worked v c'

module _ (df : DataFrame) (cs : List Commit) (h : Commits df cs) (before : DataFrame) (xs : List ℕ)
    (holds : Holds b'I' before (map an_int xs)) where
  -- From the users of a frame to those that share a project with one of them.
  pub round-Shares :
      (uuids projects : IntSet) (project_frame out : DataFrame)
      → finish_set before ≡ ok uuids
      → Filtered b'I' (uuids_to_projects uuids) df project_frame
      → finish_set project_frame ≡ ok projects
      → Filtered b'I' (projects_to_uuids projects) df out
      → (zs : List ℕ) × Holds b'I' out (map an_int zs)
        × ((v : ℕ) → (contains zs v ≡ true) ↔ Shares cs (λ u. contains xs u ≡ true) v)
  round-Shares uuids projects project_frame out e f g k =
      let (ps, perm, holds') =
        picked-Holds df cs h (uuids_to_projects uuids) (projects_of uuids)
          (uuids_to_projects-Picks df cs uuids h) project_frame f in
      let (zs, perm', holds'') =
        picked-Holds df cs h (projects_to_uuids projects) (uuids_of projects)
          (projects_to_uuids-Picks df cs projects h) out k in
      let (uuids', made, same) = finish_set-contains before xs holds in
      let (projects', made', same') = finish_set-contains project_frame ps holds' in
      let uuids_same : uuids ≡ uuids' = ok_inj (sym e ∙ made) in
      let projects_same : projects ≡ projects' = ok_inj (sym g ∙ made') in
      let in_uuids : (u : ℕ) → contains uuids u ≡ contains xs u =
        λ u. ap (λ s. contains s u) uuids_same ∙ same u in
      let in_projects : (p : ℕ)
          → contains projects p ≡ contains (concat (map (projects_of uuids) cs)) p =
        λ p. ap (λ s. contains s p) projects_same ∙ same' p ∙ sym (contains-Permᴰ _ ps p perm) in
      let in_out : (v : ℕ) → contains zs v ≡ contains (concat (map (uuids_of projects) cs)) v =
        λ v. sym (contains-Permᴰ _ zs v perm') in
      (
        zs,
        holds'',
        λ v. (
          λ member.
              let (j, c', at, has) =
                contains-concat (uuids_of projects) cs v (sym (in_out v) ∙ member) in
              let (listed, worked) = (uuids_of-Worked projects c' v).0 has in
              let (i, c, at', has') =
                contains-concat (projects_of uuids) cs c'.project
                  (sym (in_projects c'.project) ∙ listed) in
              let (same_project, (u, known, worked_too)) =
                (projects_of-Worked uuids c c'.project).0 has' in
              record {
                u = u;
                i = i;
                j = j;
                c = c;
                c' = c';
                known = sym (in_uuids u) ∙ known;
                first = at';
                second = at;
                project = same_project;
                worked = worked_too;
                worked' = worked;
              },
          λ (s : Shares cs (λ u. contains xs u ≡ true) v).
              let listed = concat-contains (projects_of uuids) cs s.c'.project s.i s.c s.first (
                (projects_of-Worked uuids s.c s.c'.project).1
                  (s.project, (s.u, in_uuids s.u ∙ s.known, s.worked))) in
              in_out v
              ∙ concat-contains (uuids_of projects) cs v s.j s.c' s.second (
                  (uuids_of-Worked projects s.c' v).1
                    (in_projects s.c'.project ∙ listed, s.worked')),
        ),
      )
