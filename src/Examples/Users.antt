-- ===== src/Examples/Users.antt =====
-- The two nodes of `Linus`, applied to two users and three commits and to stores that are empty.
use cs4500project.NullableArray.View as ArrayView
use cs4500project.Column
use cs4500project.Column.View as ColumnView
use cs4500project.KvStore
use cs4500project.Prelude.{All, List, [], arith, bytes_of, ok, refl, some, true, ℕ, ◌∷◌, ◌≡◌}
use cs4500project.Column.{Column, int_column, string_column}
use cs4500project.DataFrame.{DataFrame}
use cs4500project.DataFrame.Codec.{unnamed}
use cs4500project.Examples.Commits.{
  commits_frame, commits_frame-Commits, start_frame, start_frame-Holds, three_commits,
}
use cs4500project.KvStore.{KvStore, find_other, get_local, named_key}
use cs4500project.Linus.Degrees.{HoldsDegree}
use cs4500project.Linus.Kept.{finishes-HoldsDegree}
use cs4500project.Linus.Started.{share_uuid-finishes}
use cs4500project.Linus.Stores.{Finishes, share_uuid, uuids_key}
use cs4500project.Linus.Users.{User, Users, first_named}
use cs4500project.Linus.Whole.{IsFree, finishes_total}
use cs4500project.NullableArray.{NullableArray}
use cs4500project.NullableArray.View.{Clean}
use cs4500project.Schema.{same_string}

-- "torvalds"
abbrev torvalds : List ℕ
torvalds = bytes_of "torvalds"

abbrev known_users : List User
known_users = record { uuid = 9; name = b'b' ∷ [] } ∷ record { uuid = 5; name = torvalds } ∷ []

abbrev known_numbers : NullableArray ℕ
known_numbers = record { bitmap = true ∷ true ∷ []; items = 9 ∷ 5 ∷ [] }

abbrev known_names : NullableArray (List ℕ)
known_names = record { bitmap = true ∷ true ∷ []; items = (b'b' ∷ []) ∷ torvalds ∷ [] }

abbrev known_frame : DataFrame
known_frame = record {
  schema = record {
    column_names = [];
    row_names = [];
    column_types = b'I' ∷ b'S' ∷ [];
    width = 2;
    rows = 0;
  };
  columns = int_column known_numbers ∷ string_column known_names ∷ [];
}

known_frame-Users : Users known_frame known_users
unfolding ArrayView.view Column.get_type ColumnView.IsValid Clean
known_frame-Users = record {
  uuids = known_numbers;
  names = known_names;
  valid = record { typed = refl; counted = refl; sound = (tt, (tt, tt)) };
  columns = refl;
  uuid = refl;
  name = refl;
}

empty-IsFree : IsFree KvStore.empty
unfolding KvStore.empty find_other
empty-IsFree = record { linus = refl; uuids = λ d. refl; projects = λ d. refl }

share_uuid-finishes_example :
    (s₁' : KvStore) × (linus_uuid : DataFrame) × (final : KvStore) × (share_uuid known_frame
        KvStore.empty
      ≡ ok s₁')
    × (get_local s₁' (named_key "linus_uuid") ≡ some linus_uuid)
    × Finishes commits_frame (unnamed linus_uuid) KvStore.empty final
    × All
        (λ d.
          (out : DataFrame) × (get_local final (uuids_key d) ≡ some out)
          × HoldsDegree three_commits (5 ∷ []) d out)
        (1 ∷ 2 ∷ 3 ∷ 4 ∷ 5 ∷ 6 ∷ 7 ∷ [])
unfolding KvStore.empty find_other first_named same_string
share_uuid-finishes_example =
    share_uuid-finishes known_frame commits_frame known_users three_commits 5 KvStore.empty
      KvStore.empty known_frame-Users commits_frame-Commits refl refl empty-IsFree

-- A run of `_commits` from the start that the commits' own example has.
final_store : (final : KvStore) × Finishes commits_frame start_frame KvStore.empty final
final_store =
    finishes_total commits_frame start_frame three_commits (5 ∷ []) KvStore.empty
      commits_frame-Commits start_frame-Holds empty-IsFree

finishes-HoldsDegree_example :
    (out : DataFrame) × (get_local final_store.0 (uuids_key 3) ≡ some out)
    × HoldsDegree three_commits (5 ∷ []) 3 out
finishes-HoldsDegree_example =
    finishes-HoldsDegree commits_frame start_frame three_commits (5 ∷ []) KvStore.empty
      final_store.0 2 commits_frame-Commits start_frame-Holds final_store.1 (omega arith)
