-- ===== src/Examples/Commits.antt =====
-- The filters and the degrees, applied to a frame of three commits.
use cs4500project.NullableArray.View as ArrayView
use cs4500project.Column
use cs4500project.Column.View as ColumnView
use cs4500project.DataFrame
use cs4500project.NullableArray
use cs4500project.Prelude.{
  List, Permᴰ, [], arith, concat, inl, map, ok, refl, true, ℕ, ◌↔◌, ◌∷◌, ◌≡◌,
}
use cs4500project.Column.{Column, Value, int_column, string_column}
use cs4500project.DataFrame.{DataFrame}
use cs4500project.Linus.{
  Degree, Filtered, IntSet, contains, filter, finish_set, uuids_to_names, uuids_to_projects,
}
use cs4500project.Linus.Degrees.{Degree-HoldsDegree, Degree-total, Within}
use cs4500project.Linus.Filters.{Filtered-Holds}
use cs4500project.Linus.IntSets.{Holds, an_int, finish_set-contains}
use cs4500project.Linus.Names.{degree_names-Within, names_of, uuids_to_names-total}
use cs4500project.Linus.Picked.{log_of_ints, picked-total}
use cs4500project.Linus.Rounds.{Commit, Commits, projects_of, uuids_to_projects-Picks}
use cs4500project.Linus.Users.{User, Users}
use cs4500project.NullableArray.{NullableArray}
use cs4500project.NullableArray.View.{Clean}

abbrev three_ints : ℕ → ℕ → ℕ → Column
three_ints x y z = int_column (record { bitmap = true ∷ true ∷ true ∷ []; items = x ∷ y ∷ z ∷ [] })

three_ints-IsValid : (x y z : ℕ) → ColumnView.IsValid (three_ints x y z)
unfolding ColumnView.IsValid Clean
three_ints-IsValid x y z = tt

-- User 5 works on project 1, user 6 on both, and user 8 on project 2.
abbrev pub three_commits : List Commit
three_commits =
    record { project = 1; author = 5; committer = 5 }
    ∷ record { project = 1; author = 6; committer = 5 }
    ∷ record { project = 2; author = 8; committer = 6 }
    ∷ []

abbrev pub commits_frame : DataFrame
commits_frame = record {
  schema = record {
    column_names = [];
    row_names = [];
    column_types = b'I' ∷ b'I' ∷ b'I' ∷ [];
    width = 3;
    rows = 0;
  };
  columns = three_ints 1 1 2 ∷ three_ints 5 6 8 ∷ three_ints 5 5 6 ∷ [];
}

pub commits_frame-Commits : Commits commits_frame three_commits
unfolding ColumnView.view ArrayView.view Column.get_type Column.size NullableArray.size
    DataFrame.nrows
commits_frame-Commits = record {
  projects = three_ints 1 1 2;
  authors = three_ints 5 6 8;
  committers = three_ints 5 5 6;
  valid = record {
    typed = refl;
    counted = refl;
    sound = (three_ints-IsValid 1 1 2, (three_ints-IsValid 5 6 8, (three_ints-IsValid 5 5 6, tt)));
  };
  rectangular = record { even = (refl, (refl, (refl, tt))); room = omega arith };
  columns = refl;
  project = refl;
  author = refl;
  committer = refl;
}

-- The projects that user 5 worked on, as one pass over the commits picks them.
abbrev picked : List Value
picked = an_int 1 ∷ an_int 1 ∷ []

filtered : (out : DataFrame) × Filtered b'I' (uuids_to_projects (5 ∷ [])) commits_frame out
filtered =
    picked-total commits_frame three_commits commits_frame-Commits (uuids_to_projects (5 ∷ []))
      (projects_of (5 ∷ []))
      (uuids_to_projects-Picks commits_frame three_commits (5 ∷ []) commits_frame-Commits)

one_pass : DataFrame.map_rows (filter (uuids_to_projects (5 ∷ []))) commits_frame [] ≡ ok picked
unfolding projects_of contains
one_pass =
    log_of_ints commits_frame three_commits commits_frame-Commits (uuids_to_projects (5 ∷ []))
      (projects_of (5 ∷ []))
      (uuids_to_projects-Picks commits_frame three_commits (5 ∷ []) commits_frame-Commits)

Filtered-Holds_example : (vals : List Value) × Permᴰ picked vals × Holds b'I' filtered.0 vals
unfolding ColumnView.type_of
Filtered-Holds_example =
    Filtered-Holds b'I' (uuids_to_projects (5 ∷ [])) commits_frame picked (inl refl)
      commits_frame-Commits.valid commits_frame-Commits.rectangular one_pass (refl, (refl, tt))
      filtered.0 filtered.1

abbrev pub start_frame : DataFrame
start_frame = record {
  schema = record {
    column_names = [];
    row_names = [];
    column_types = b'I' ∷ [];
    width = 1;
    rows = 0;
  };
  columns = int_column (record { bitmap = true ∷ []; items = 5 ∷ [] }) ∷ [];
}

pub start_frame-Holds : Holds b'I' start_frame (map an_int (5 ∷ []))
unfolding ColumnView.view ArrayView.view Column.get_type ColumnView.IsValid Clean
start_frame-Holds = record {
  column = int_column (record { bitmap = true ∷ []; items = 5 ∷ [] });
  valid = record { typed = refl; counted = refl; sound = (tt, tt) };
  columns = refl;
  typed = refl;
  shows = refl;
}

degree_two : (out : DataFrame) × Degree commits_frame start_frame 2 out
degree_two =
    Degree-total commits_frame three_commits start_frame (5 ∷ []) commits_frame-Commits
      start_frame-Holds 1 (omega arith)

abbrev two_users : List User
two_users = record { uuid = 6; name = b'a' ∷ [] } ∷ record { uuid = 9; name = b'b' ∷ [] } ∷ []

abbrev user_numbers : NullableArray ℕ
user_numbers = record { bitmap = true ∷ true ∷ []; items = 6 ∷ 9 ∷ [] }

abbrev user_names : NullableArray (List ℕ)
user_names = record { bitmap = true ∷ true ∷ []; items = (b'a' ∷ []) ∷ (b'b' ∷ []) ∷ [] }

abbrev users_frame : DataFrame
users_frame = record {
  schema = record {
    column_names = [];
    row_names = [];
    column_types = b'I' ∷ b'S' ∷ [];
    width = 2;
    rows = 0;
  };
  columns = int_column user_numbers ∷ string_column user_names ∷ [];
}

users_frame-Users : Users users_frame two_users
unfolding ArrayView.view Column.get_type ColumnView.IsValid Clean
users_frame-Users = record {
  uuids = user_numbers;
  names = user_names;
  valid = record { typed = refl; counted = refl; sound = (tt, (tt, tt)) };
  columns = refl;
  uuid = refl;
  name = refl;
}

set_of_two : (uuids : IntSet) × (finish_set degree_two.0 ≡ ok uuids)
set_of_two =
    let (zs, held, _) =
      Degree-HoldsDegree commits_frame three_commits start_frame (5 ∷ []) commits_frame-Commits
        start_frame-Holds 2 degree_two.0 degree_two.1 in
    let (uuids, made, _) = finish_set-contains degree_two.0 zs held in (uuids, made)

names_frame : (out : DataFrame) × Filtered b'S' (uuids_to_names set_of_two.0) users_frame out
names_frame = uuids_to_names-total users_frame two_users set_of_two.0 users_frame-Users

degree_names-Within_example :
    (vals : List Value) × Permᴰ (concat (map (names_of set_of_two.0) two_users)) vals
    × Holds b'S' names_frame.0 vals
    × ((u : ℕ) → (contains set_of_two.0 u ≡ true) ↔ Within three_commits (5 ∷ []) 2 u)
degree_names-Within_example =
    degree_names-Within commits_frame start_frame users_frame degree_two.0 names_frame.0
      three_commits (5 ∷ []) two_users 2 set_of_two.0 commits_frame-Commits start_frame-Holds
      users_frame-Users degree_two.1 set_of_two.1 names_frame.1
