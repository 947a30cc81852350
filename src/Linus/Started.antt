-- ===== src/Linus/Started.antt =====
-- src/util/linus.cpp: the node of `_users` finds the number that the node of `_commits` starts
-- from. The frame arrives there without its names and its count of rows.
use cs4500project.NullableArray.View as ArrayView
use cs4500project.Column
use cs4500project.Column.View as ColumnView
use cs4500project.DataFrame
use cs4500project.NullableArray
use cs4500project.Prelude.{
  All, List, [], arith, bytes_of, map, none, ok, refl, some, suc, ℕ, ◌<◌, ◌∷◌, ◌≡◌,
}
use cs4500project.Column.{Column, int_column}
use cs4500project.DataFrame.{DataFrame, add_column}
use cs4500project.DataFrame.Codec.{unnamed}
use cs4500project.KvStore.{KvStore, find_other, get_local, named_key}
use cs4500project.KvStore.Arrays.{found_stored, from_scalar, from_values-stored, single, stored}
use cs4500project.Linus.Degrees.{HoldsDegree}
use cs4500project.Linus.IntSets.{Holds, an_int}
use cs4500project.Linus.Kept.{finishes-HoldsDegree}
use cs4500project.Linus.Rounds.{Commit, Commits}
use cs4500project.Linus.Stores.{Finishes, share_uuid, uuids_key}
use cs4500project.Linus.Users.{User, Users, find_uuid-first_named, first_named}
use cs4500project.Linus.Whole.{IsFree, finishes_total}
use cs4500project.NullableArray.{NullableArray}
use cs4500project.NullableArray.View.{Clean}

-- The number goes into the store in a frame of one integer.
share_uuid-Holds :
    (users : DataFrame) (us : List User) (uuid : ℕ) (s : KvStore)
    → Users users us
    → first_named (bytes_of "torvalds") us ≡ some uuid
    → find_other (named_key "linus_uuid") s.other_nodes ≡ none
    → (s' : KvStore) × (df : DataFrame) × (share_uuid users s ≡ ok s')
      × (get_local s' (named_key "linus_uuid") ≡ some df)
      × Holds b'I' (unnamed df) (map an_int (uuid ∷ []))
unfolding share_uuid from_scalar Column.get_type ColumnView.view ColumnView.IsValid Clean
    NullableArray.empty ArrayView.view ColumnView.type_of add_column DataFrame.empty
share_uuid-Holds users us uuid s h first free =
    let key = named_key "linus_uuid" in
    let found = find_uuid-first_named users us (bytes_of "torvalds") h in
    let (c, made, valid, typed, view) =
      from_values-stored s key (int_column NullableArray.empty) (an_int uuid ∷ []) tt refl
        (refl, tt) free in
    (
      stored s key (single c),
      single c,
      rw (found, first, made),
      found_stored s key (single c),
      record {
        column = c;
        valid = record { typed = refl; counted = refl; sound = (valid, tt) };
        columns = refl;
        typed = typed;
        shows = view;
      },
    )

-- For well-formed frames of users and of commits, in which no value is missing, where the first
-- user with the name that is looked for has this number, and no other node holds the keys that are
-- written: the node of the users puts a frame into its store, and from the frame that arrives on
-- the node of the commits `_commits` can come to its end, and then has, under the key of each
-- degree from 1 to 7, a frame that holds exactly the users who are so many steps from that user.
-- The string of types in a row has room for 15 characters, as in GNU's library.
pub share_uuid-finishes :
    (users commits : DataFrame) (us : List User) (cs : List Commit) (uuid : ℕ) (s₁ s₂ : KvStore)
    → Users users us
    → Commits commits cs
    → first_named (bytes_of "torvalds") us ≡ some uuid
    → find_other (named_key "linus_uuid") s₁.other_nodes ≡ none
    → IsFree s₂
    → (s₁' : KvStore) × (linus_uuid : DataFrame) × (final : KvStore) × (share_uuid users s₁
        ≡ ok s₁')
      × (get_local s₁' (named_key "linus_uuid") ≡ some linus_uuid)
      × Finishes commits (unnamed linus_uuid) s₂ final
      × All
          (λ d.
            (out : DataFrame) × (get_local final (uuids_key d) ≡ some out)
            × HoldsDegree cs (uuid ∷ []) d out)
          (1 ∷ 2 ∷ 3 ∷ 4 ∷ 5 ∷ 6 ∷ 7 ∷ [])
share_uuid-finishes users commits us cs uuid s₁ s₂ h c first free free' =
    let (s₁', df, run, found, holds) = share_uuid-Holds users us uuid s₁ h first free in
    let (final, f) = finishes_total commits (unnamed df) cs (uuid ∷ []) s₂ c holds free' in
    let at : (d : ℕ)
        → d < 7
        → (out : DataFrame) × (get_local final (uuids_key (suc d)) ≡ some out)
          × HoldsDegree cs (uuid ∷ []) (suc d) out =
      λ d lt. finishes-HoldsDegree commits (unnamed df) cs (uuid ∷ []) s₂ final d c holds f lt in
    (
      s₁',
      df,
      final,
      run,
      found,
      f,
      (
        at 0 (omega arith),
        (
          at 1 (omega arith),
          (
            at 2 (omega arith),
            (
              at 3 (omega arith),
              (at 4 (omega arith), (at 5 (omega arith), (at 6 (omega arith), tt))),
            ),
          ),
        ),
      ),
    )
