-- ===== src/Linus/Progress.antt =====
-- src/util/linus_rowers.cpp, `_add_to_df`: the threads can always write on.
use cs4500project.Column.View as ColumnView
use cs4500project.Prelude.{
  All, List, [], append-nil, append_assoc, refl, subst, sym, ℕ, ◌++◌, ◌∷◌, ◌≡◌,
}
use cs4500project.Column.{Value}
use cs4500project.DataFrame.{DataFrame}
use cs4500project.DataFrame.Shape.{All-snoc}
use cs4500project.Linus.{Writer, Writes, all_written, one_writes}
use cs4500project.Linus.Frames.{AllReady, Ready, add_to_df-Holds}
use cs4500project.Linus.IntSets.{Holds}
use cs4500project.Row.{Row}

-- The threads can always write all they have, here one thread after the other.
write_log :
    (typ : ℕ) (before after : List Writer) (row : Row) (log : List Value) (df : DataFrame)
    (vals : List Value)
    → ((row' : Row) (df' : DataFrame) (vals' : List Value)
        → Ready typ row'
        → Holds typ df' vals'
        → (out : DataFrame) × Writes (before ++ record { row = row'; log = [] } ∷ after) df' out)
    → Ready typ row
    → All (λ v. ColumnView.type_of v ≡ typ) log
    → Holds typ df vals
    → (out : DataFrame) × Writes (before ++ record { row = row; log = log } ∷ after) df out
write_log typ before after row [] df vals rest r types h = rest row df vals r h
write_log typ before after row (v ∷ log) df vals rest r types h =
    let (df', row', run, holds, ready) = add_to_df-Holds typ df row vals v h r types.0 in
    let (out, later) =
      write_log typ before after row' log df' (vals ++ v ∷ []) rest ready types.1 holds in
    (out, one_writes before after row row' v log df df' out run later)

write_rest :
    (typ : ℕ) (before after : List Writer) (df : DataFrame) (vals : List Value)
    → All (λ t. t.log ≡ []) before
    → AllReady typ after
    → Holds typ df vals
    → (out : DataFrame) × Writes (before ++ after) df out
write_rest typ before [] df vals done ready h =
    (df, subst (λ ts. Writes ts df df) (sym (append-nil before)) (all_written before df done))
write_rest typ before (t ∷ after) df vals done ready h =
    write_log typ before after t.row t.log df vals
      (λ row' df' vals' r' h'.
        let spent : Writer = record { row = row'; log = [] } in
        let (out, later) =
          write_rest typ (before ++ spent ∷ []) after df' vals' (All-snoc _ before spent done refl)
            ready.1 h' in
        (out, subst (λ ts. Writes ts df' out) (append_assoc before (spent ∷ []) after) later))
      ready.0.0 ready.0.1 h

pub Writes-total :
    (typ : ℕ) (ts : List Writer) (df : DataFrame) (vals : List Value)
    → AllReady typ ts
    → Holds typ df vals
    → (out : DataFrame) × Writes ts df out
Writes-total typ ts df vals ready h = write_rest typ [] ts df vals tt ready h
