-- ===== src/Adapter/Tables.antt =====
-- src/adapter/sorer_dataframe_adapter.cpp, `parse_file`: what the frame's columns show.
use cs4500project.Column
use cs4500project.Column.View as ColumnView
use cs4500project.Prelude.{
  All, List, [], ap, ap₂, length, map, refl, suc, zero, ℕ, ◌++◌, ◌+◌, ◌∙◌, ◌∷◌, ◌≡◌,
}
use cs4500project.Adapter.Rows.{row_values}
use cs4500project.Column.{Column, Value, size}
use cs4500project.DataFrame.Map.{Extends}

-- The first entries of a column that the file gives.
abbrev pub upto : (ℕ → Value) → ℕ → List Value
upto f zero = []
upto f (suc n) = upto f n ++ f n ∷ []

-- Each column shows what the rows before `n` hold of it; `vals i c` is row `i`'s value in column
-- `c`.
abbrev pub Tabulates : (ℕ → ℕ → Value) → ℕ → ℕ → List Column → Type 0
Tabulates vals n c [] = Unit
Tabulates vals n c (col ∷ cols) =
    (ColumnView.view col ≡ upto (λ i. vals i c) n) × Tabulates vals n (c + 1) cols

pub Extends-types :
    (cs ds : List Column) (vs : List Value)
    → Extends cs vs ds
    → (map Column.get_type ds ≡ map Column.get_type cs)
      × All ColumnView.IsValid ds
      × (length ds ≡ length cs)
Extends-types [] [] [] e = (refl, tt, refl)
Extends-types (c ∷ cs) (d ∷ ds) (v ∷ vs) e =
    let (types, valid, size) = Extends-types cs ds vs e.3 in
    (ap₂ ◌∷◌ e.1 types, (e.2, valid), ap suc size)
Extends-types (c ∷ cs) [] [] e = elim e [ ]
Extends-types (c ∷ cs) [] (v ∷ vs) e = elim e [ ]
Extends-types (c ∷ cs) (d ∷ ds) [] e = elim e [ ]
Extends-types [] (d ∷ ds) [] e = elim e [ ]
Extends-types [] (d ∷ ds) (v ∷ vs) e = elim e [ ]
Extends-types [] [] (v ∷ vs) e = elim e [ ]

pub Extends-Tabulates :
    (vals : ℕ → ℕ → Value) (n left c : ℕ) (cs ds : List Column)
    → Extends cs (row_values (vals n) left c) ds
    → Tabulates vals n c cs
    → Tabulates vals (suc n) c ds
Extends-Tabulates vals n zero c [] [] e t = tt
Extends-Tabulates vals n (suc left) c (x ∷ cs) (y ∷ ds) e t =
    (e.0 ∙ ap (λ vs. vs ++ vals n c ∷ []) t.0, Extends-Tabulates vals n left (c + 1) cs ds e.3 t.1)
Extends-Tabulates vals n zero c (x ∷ cs) ds e t = elim e [ ]
Extends-Tabulates vals n zero c [] (y ∷ ds) e t = elim e [ ]
Extends-Tabulates vals n (suc left) c [] ds e t = elim e [ ]
Extends-Tabulates vals n (suc left) c (x ∷ cs) [] e t = elim e [ ]

pub length-row_values : (vals : ℕ → Value) (left c : ℕ) → length (row_values vals left c) ≡ left
length-row_values vals zero c = refl
length-row_values vals (suc left) c = ap suc (length-row_values vals left (c + 1))
