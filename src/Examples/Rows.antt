-- ===== src/Examples/Rows.antt =====
-- The comparison of rows, applied to small rows.
use cs4500project.Prelude.{
  Bool, List, Option, [], fault, none, ok, refl, some, true, undefined, ℕ, ◌==◌, ◌↔◌, ◌∷◌, ◌≡◌,
}
use cs4500project.Column.{Value, int_value, string_value}
use cs4500project.Column.View.{type_of}
use cs4500project.Row.{Row}
use cs4500project.Row.Compare.{equals}
use cs4500project.Row.Equality.{AllSame, IsTyped, equals_iff}
use cs4500project.Row.Missing.{equals-missing}

abbrev a_row : Value → Row
a_row v = record {
  width = 2;
  types = b'I' ∷ b'S' ∷ [];
  values = int_value none ∷ v ∷ [];
  index = 3;
}

a_row-IsTyped : (s : Option (List ℕ)) → IsTyped (a_row (string_value s))
unfolding type_of
a_row-IsTyped s = record { typed = refl; wide = refl }

equals_iff_example :
    (b : Bool) × (equals ◌==◌
        (a_row (string_value (some (7 ∷ []))))
        (a_row (string_value (some [])))
      ≡ ok b)
    × ((b ≡ true) ↔ (
        ((a_row (string_value (some (7 ∷ [])))).index ≡ (a_row (string_value (some []))).index)
        × ((a_row (string_value (some (7 ∷ [])))).width ≡ (a_row (string_value (some []))).width)
        × AllSame ◌==◌
            (int_value none ∷ string_value (some (7 ∷ [])) ∷ [])
            (int_value none ∷ string_value (some []) ∷ [])))
equals_iff_example =
    equals_iff ◌==◌ (a_row (string_value (some (7 ∷ [])))) (a_row (string_value (some [])))
      (a_row-IsTyped (some (7 ∷ []))) (a_row-IsTyped (some [])) (tt, (tt, tt)) (tt, (tt, tt))

equals-missing_example :
    equals ◌==◌ (a_row (string_value none)) (a_row (string_value none)) ≡ fault undefined
equals-missing_example =
    equals-missing ◌==◌ (a_row (string_value none)) 1 (tt, (tt, tt)) (a_row-IsTyped none) refl
