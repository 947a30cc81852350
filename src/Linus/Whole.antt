-- ===== src/Linus/Whole.antt =====
-- src/util/linus.cpp, `_commits`: it comes to its end, and what the store has then.
use cs4500project.KvStore
use cs4500project.Prelude.{List, arith, map, none, ok, suc, zero, ℕ, ◌≡◌, ◌≤◌}
use cs4500project.DataFrame.{DataFrame}
use cs4500project.KvStore.{KvStore, NodeKey, find_other, named_key, set}
use cs4500project.KvStore.Arrays.{stored}
use cs4500project.Linus.{projects_to_uuids, uuids_to_projects}
use cs4500project.Linus.IntSets.{Holds, an_int, finish_set-contains}
use cs4500project.Linus.Picked.{picked-Holds, picked-total}
use cs4500project.Linus.Rounds.{
  Commit, Commits, projects_of, projects_to_uuids-Picks, uuids_of, uuids_to_projects-Picks,
}
use cs4500project.Linus.Stores.{
  CommitsRounds, Finishes, StoresProjects, StoresUuids, linus_projects, one_round, projects_key,
  uuids_key,
}

-- No other node holds the keys that `_commits` writes.
pub record IsFree (s : KvStore) : Type 0 where
  pub linus : find_other (named_key "linus_projects") s.other_nodes ≡ none
  pub uuids : (d : ℕ) → find_other (uuids_key d) s.other_nodes ≡ none
  pub projects : (d : ℕ) → find_other (projects_key d) s.other_nodes ≡ none

set-IsFree : (s : KvStore) (k : NodeKey) (df : DataFrame) → IsFree s → IsFree (stored s k df)
set-IsFree s k df free = record { linus = free.linus; uuids = free.uuids; projects = free.projects }

set-stored :
    (s : KvStore) (k : NodeKey) (df : DataFrame)
    → find_other k s.other_nodes ≡ none
    → KvStore.set s k df ≡ ok (stored s k df)
unfolding KvStore.set
set-stored s k df free = rw (KvStore.set, free)

-- A frame of integers without missing values.
abbrev IsInts : DataFrame → Type 0
IsInts df = (xs : List ℕ) × Holds b'I' df (map an_int xs)

module _ (commits : DataFrame) (cs : List Commit) (held : Commits commits cs) where
  projects_total :
      (before : DataFrame) (key : NodeKey) (s : KvStore)
      → IsInts before
      → find_other key s.other_nodes ≡ none
      → (out : DataFrame) × StoresProjects commits before key s out (stored s key out) × IsInts out
  projects_total before key s (xs, ints) free =
      let (uuids, known, _) = finish_set-contains before xs ints in
      let law = uuids_to_projects-Picks commits cs uuids held in
      let (out, made) =
        picked-total commits cs held (uuids_to_projects uuids) (projects_of uuids) law in
      let (ps, _, shown) =
        picked-Holds commits cs held (uuids_to_projects uuids) (projects_of uuids) law out made in
      (
        out,
        record { uuids = uuids; known = known; filtered = made; set = set-stored s key out free },
        (ps, shown),
      )

  uuids_total :
      (before : DataFrame) (key : NodeKey) (s : KvStore)
      → IsInts before
      → find_other key s.other_nodes ≡ none
      → (out : DataFrame) × StoresUuids commits before key s out (stored s key out) × IsInts out
  uuids_total before key s (xs, ints) free =
      let (projects, known, _) = finish_set-contains before xs ints in
      let law = projects_to_uuids-Picks commits cs projects held in
      let (out, made) =
        picked-total commits cs held (projects_to_uuids projects) (uuids_of projects) law in
      let (us, _, shown) =
        picked-Holds commits cs held (projects_to_uuids projects) (uuids_of projects) law out
          made in
      (
        out,
        record {
          projects = projects;
          known = known;
          filtered = made;
          set = set-stored s key out free;
        },
        (us, shown),
      )

  module _ (linus_uuid : DataFrame) (ints : IsInts linus_uuid) (start : KvStore)
      (free : IsFree start) where
    rounds_total :
        (d : ℕ)
        → d ≤ 6
        → (project_frame : DataFrame) × (s : KvStore) × CommitsRounds commits linus_uuid start d
            project_frame s
          × IsInts project_frame
          × IsFree s
    rounds_total zero le =
        let (pf, st, shown) =
          projects_total linus_uuid (named_key "linus_projects") start ints free.linus in
        (
          pf,
          stored start (named_key "linus_projects") pf,
          linus_projects pf (stored start (named_key "linus_projects") pf) st,
          shown,
          set-IsFree start (named_key "linus_projects") pf free,
        )
    rounds_total (suc d) le =
        let (pf, s, rounds, shown, free') = rounds_total d (omega arith) in
        let (us, st, shown') = uuids_total pf (uuids_key (suc d)) s shown (free'.uuids (suc d)) in
        let s' = stored s (uuids_key (suc d)) us in
        let free'' = set-IsFree s (uuids_key (suc d)) us free' in
        let (pf', st', shown'') =
          projects_total us (projects_key (suc d)) s' shown' (free''.projects (suc d)) in
        let s'' = stored s' (projects_key (suc d)) pf' in
        (
          pf',
          s'',
          one_round d pf us pf' s s' s'' rounds (omega arith) st st',
          shown'',
          set-IsFree s' (projects_key (suc d)) pf' free'',
        )

-- For a well-formed frame of commits and one of users to start from, in which no value is missing,
-- and a store in which no other node holds the keys that are written: `_commits` can come to its
-- end.
pub finishes_total :
    (commits linus_uuid : DataFrame) (cs : List Commit) (starts : List ℕ) (start : KvStore)
    → Commits commits cs
    → Holds b'I' linus_uuid (map an_int starts)
    → IsFree start
    → (final : KvStore) × Finishes commits linus_uuid start final
finishes_total commits linus_uuid cs starts start held ints free =
    let (pf, s, rounds, shown, free') =
      rounds_total commits cs held linus_uuid (starts, ints) start free 6 (omega arith) in
    let (us, st, _) = uuids_total commits cs held pf (uuids_key 7) s shown (free'.uuids 7) in
    (
      stored s (uuids_key 7) us,
      record { project_frame = pf; degree_uuids = us; before = s; rounds = rounds; last = st },
    )
