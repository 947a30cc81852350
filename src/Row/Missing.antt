-- ===== src/Row/Missing.antt =====
-- src/data/row.cpp, `equals`: rows with missing strings.
use cs4500project.Row
use cs4500project.Prelude.{
  All, ==_refl, Bool, List, [], ap, append_assoc, arith, false, fault, get_elem?, inl, inr, length,
  length-append, map, none, ok, refl, some, subst, suc, sym, true, undefined, zero, ℕ, ◌++◌, ◌+◌,
  ◌∙◌, ◌∷◌, ◌≡◌, ◌⊎◌,
}
use cs4500project.Column.{Value, bool_value, float_value, int_value, string_value}
use cs4500project.Column.View.{type_of}
use cs4500project.Row.{Row}
use cs4500project.Row.Compare.{equals, equals_at, equals_from, same_optional}
use cs4500project.Row.Equality.{IsTyped, same_ends, types_lem}
use cs4500project.Schema.Names.{same_string_refl}

-- A double of which the test of doubles holds with itself: all but a NaN.
abbrev pub IsSelf : (ℕ → ℕ → Bool) → Value → Type 0
IsSelf same_float (float_value (some x)) = same_float x x ≡ true
IsSelf same_float _ = Unit

module _ (same_float : ℕ → ℕ → Bool) (r : Row) (typed : r.types ≡ map type_of r.values) where
  missing_at :
      (i : ℕ)
      → get_elem? r.values i ≡ some (string_value none)
      → equals_at same_float r r b'S' i ≡ fault undefined
  unfolding equals_at Row.get_string
  missing_at i e = rw e

  -- A value is the same as itself, or it is a missing string.
  self_at :
      (i : ℕ) (v : Value)
      → get_elem? r.values i ≡ some v
      → IsSelf same_float v
      → (equals_at same_float r r (type_of v) i ≡ ok true) ⊎ (v ≡ string_value none)
  unfolding equals_at type_of Row.get_int Row.get_double Row.get_bool Row.get_string same_optional
  self_at i (int_value none) e n = inl (rw e)
  self_at i (int_value (some x)) e n = inl (rw (e, ==_refl x))
  self_at i (float_value none) e n = inl (rw e)
  self_at i (float_value (some x)) e n = inl (rw (e, n))
  self_at i (bool_value none) e n = inl (rw e)
  self_at i (bool_value (some true)) e n = inl (rw e)
  self_at i (bool_value (some false)) e n = inl (rw e)
  self_at i (string_value none) e n = inr refl
  self_at i (string_value (some s)) e n = inl (rw (e, same_string_refl s))

  missing_from :
      (pre vs : List Value) (j : ℕ)
      → r.values ≡ pre ++ vs
      → get_elem? vs j ≡ some (string_value none)
      → All (IsSelf same_float) vs
      → equals_from same_float r r (length vs) (length pre) ≡ fault undefined
  unfolding equals_from type_of
  missing_from pre [] j e at n = absurd (ground arith)
  missing_from pre (v ∷ vs) zero e at n =
      let missing : v ≡ string_value none = ground arith in
      let (value, typ) = types_lem r pre vs v typed e in
      rw (typ, ==_refl (type_of v), missing, missing_at (length pre) (value ∙ ap some missing))
  missing_from pre (v ∷ vs) (suc j) e at n =
      let (value, typ) = types_lem r pre vs v typed e in
      let rest =
        missing_from (pre ++ v ∷ []) vs j (e ∙ sym (append_assoc pre (v ∷ []) vs)) at n.1 in
      let next : length (pre ++ v ∷ []) ≡ length pre + 1 = length-append pre (v ∷ []) in
      let rest' : equals_from same_float r r (length vs) (length pre + 1) ≡ fault undefined =
        subst (λ k. equals_from same_float r r (length vs) k ≡ fault undefined) next rest in
      elim (self_at (length pre) v value n.0) [
        | inr missing ↦
            rw
              (typ, ==_refl (type_of v), missing, missing_at (length pre) (value ∙ ap some missing))
        | inl same ↦ rw (typ, ==_refl (type_of v), same) rest'
      ]

-- A row with a missing string cannot be compared with itself: the comparison of the string reads an
-- empty optional. The row's values have the types of its columns, and of each of its doubles the
-- test of doubles holds with itself, as it does but for a NaN.
pub equals-missing :
    (same_float : ℕ → ℕ → Bool) (r : Row) (i : ℕ)
    → All (IsSelf same_float) r.values
    → IsTyped r
    → get_elem? r.values i ≡ some (string_value none)
    → equals same_float r r ≡ fault undefined
unfolding equals
equals-missing same_float r i selves t at = rw (same_ends r) (
    subst (λ k. equals_from same_float r r k 0 ≡ fault undefined) (sym t.wide)
      (missing_from same_float r t.typed [] r.values i refl at selves))
