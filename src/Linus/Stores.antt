-- ===== src/Linus/Stores.antt =====
-- src/util/linus.cpp, `_commits` and `_users`: the frames of the degrees under their keys in the
-- store. The numbers of the degrees have one digit.
use cs4500project.KvStore
use cs4500project.Prelude.{
  Run, [], bytes_of, none, ok, replicate, some, suc, ℕ, ◌++◌, ◌+◌, ◌<◌, ◌>>=◌, ◌∷◌, ◌≡◌,
}
use cs4500project.Column.{int_value}
use cs4500project.DataFrame.{DataFrame}
use cs4500project.KvStore.{KvStore, NodeKey, named_key, node_size}
use cs4500project.KvStore.Arrays.{from_scalar}
use cs4500project.Linus.{
  Filtered, IntSet, find_uuid, finish_set, projects_to_uuids, uuids_to_projects,
}

-- `uuk + std::to_string(degree)` and `pk + std::to_string(degree)`
abbrev pub uuids_key : ℕ → NodeKey
uuids_key degree = record {
  name = bytes_of "uuids_degree_" ++ (b'0' + degree) ∷ [];
  node = replicate node_size 0;
}

abbrev pub projects_key : ℕ → NodeKey
projects_key degree = record {
  name = bytes_of "projects_degree_" ++ (b'0' + degree) ∷ [];
  node = replicate node_size 0;
}

-- The constructor of a filter on projects, and the filter's frame, which the store gets.
pub record StoresProjects (commits before : DataFrame) (key : NodeKey) (s : KvStore)
    (out : DataFrame) (s' : KvStore) : Type 0 where
  pub uuids : IntSet
  pub known : finish_set before ≡ ok uuids
  pub filtered : Filtered b'I' (uuids_to_projects uuids) commits out
  pub set : KvStore.set s key out ≡ ok s'

pub record StoresUuids (commits project_frame : DataFrame) (key : NodeKey) (s : KvStore)
    (out : DataFrame) (s' : KvStore) : Type 0 where
  pub projects : IntSet
  pub known : finish_set project_frame ≡ ok projects
  pub filtered : Filtered b'I' (projects_to_uuids projects) commits out
  pub set : KvStore.set s key out ≡ ok s'

-- `_commits` after so many rounds of its loop: `project_frame` and the store, from the store that
-- it has when the frame of Linus's number has come.
pub data CommitsRounds (commits linus_uuid : DataFrame) (start : KvStore)
    : ℕ → DataFrame → KvStore → Type 0 where
  linus_projects :
      (project_frame : DataFrame) (s : KvStore)
      → StoresProjects commits linus_uuid (named_key "linus_projects") start project_frame s
      → CommitsRounds commits linus_uuid start 0 project_frame s
  one_round :
      (degree : ℕ) (project_frame degree_uuids project_frame' : DataFrame) (s s' s'' : KvStore)
      → CommitsRounds commits linus_uuid start degree project_frame s
      → degree < 6
      → StoresUuids commits project_frame (uuids_key (suc degree)) s degree_uuids s'
      → StoresProjects commits degree_uuids (projects_key (suc degree)) s' project_frame' s''
      → CommitsRounds commits linus_uuid start (suc degree) project_frame' s''

-- The last round ends after the frame of the seventh degree.
pub record Finishes (commits linus_uuid : DataFrame) (start final : KvStore) : Type 0 where
  pub project_frame : DataFrame
  pub degree_uuids : DataFrame
  pub before : KvStore
  pub rounds : CommitsRounds commits linus_uuid start 6 project_frame before
  pub last : StoresUuids commits project_frame (uuids_key 7) before degree_uuids final

-- `_users` up to the loop over the degrees: the number of the user of this name, which goes into
-- the store.
unfoldable pub share_uuid : DataFrame → KvStore → Run KvStore
share_uuid users s = find_uuid users (bytes_of "torvalds") >>= λ found. elim found [
  | none ↦ ok s
  | some uuid ↦ from_scalar s (named_key "linus_uuid") (int_value (some uuid)) >>= λ (df, s'). ok s'
]
