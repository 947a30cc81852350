-- ===== src/Row/Equality.antt =====
-- src/data/row.cpp, `equals`: what it answers on rows whose values have the types of their columns.
use cs4500project.Row
use cs4500project.Prelude.{
  ==_iff, ==_refl, All, Bool, Bool-cases, List, Option, [], ap, append_assoc, arith, false,
  get_elem?, get_elem?_append, inl, inr, length, length-append, map, none, ok, refl, some, subst,
  sym, true, ℕ, ◌&&◌, ◌++◌, ◌+◌, ◌==◌, ◌↔◌, ◌∙◌, ◌∷◌, ◌≡◌,
}
use cs4500project.Column.{Value, bool_value, float_value, int_value, string_value}
use cs4500project.Column.View.{type_of}
use cs4500project.DataFrame.Shape.{get_elem?-map}
use cs4500project.NullableArray.{same_bool}
use cs4500project.Row.{Row}
use cs4500project.Row.Compare.{equals, equals_at, equals_from, same_optional}
use cs4500project.Schema.{same_string}
use cs4500project.Schema.Names.{same_string_iff}

-- A row with a value of its type for each column.
pub record IsTyped (r : Row) : Type 0 where
  pub typed : r.types ≡ map type_of r.values
  pub wide : r.width ≡ length r.values

-- No string is missing.
abbrev pub IsPresent : Value → Type 0
IsPresent (string_value none) = ⊥
IsPresent _ = Unit

-- Two values that the comparison takes for the same: doubles by the test of doubles, others where
-- they are equal.
abbrev pub AreSame : (ℕ → ℕ → Bool) → Value → Value → Type 0
AreSame same_float (float_value x) (float_value y) = same_optional same_float x y ≡ true
AreSame same_float v w = v ≡ w

abbrev pub AllSame : (ℕ → ℕ → Bool) → List Value → List Value → Type 0
AllSame same_float [] [] = Unit
AllSame same_float (v ∷ vs) (w ∷ ws) = AreSame same_float v w × AllSame same_float vs ws
AllSame same_float _ _ = ⊥

AreSame-type_of :
    (same_float : ℕ → ℕ → Bool) (v w : Value) → AreSame same_float v w → type_of v ≡ type_of w
unfolding type_of
AreSame-type_of same_float (float_value x) (float_value y) h = refl
AreSame-type_of same_float (float_value x) (int_value y) h = cc
AreSame-type_of same_float (float_value x) (bool_value y) h = cc
AreSame-type_of same_float (float_value x) (string_value y) h = cc
AreSame-type_of same_float (int_value x) w h = ap type_of h
AreSame-type_of same_float (bool_value x) w h = ap type_of h
AreSame-type_of same_float (string_value x) w h = ap type_of h

same_optional_iff :
    {T : Type 0} (beq : T → T → Bool) (x y : Option T)
    → ((a b : T) → (beq a b ≡ true) ↔ (a ≡ b))
    → (same_optional beq x y ≡ true) ↔ (x ≡ y)
unfolding same_optional
same_optional_iff beq none none h = (λ _. refl, λ _. refl)
same_optional_iff beq none (some y) h = (λ e. cc, λ e. cc)
same_optional_iff beq (some x) none h = (λ e. cc, λ e. cc)
same_optional_iff beq (some x) (some y) h =
    (λ e. ap some ((h x y).0 e), λ e. (h x y).1 (let p : x ≡ y = cc in p))

same_bool_iff : (x y : Bool) → (same_bool x y ≡ true) ↔ (x ≡ y)
same_bool_iff true true = (λ _. refl, λ _. refl)
same_bool_iff true false = (λ e. cc, λ e. cc)
same_bool_iff false true = (λ e. cc, λ e. cc)
same_bool_iff false false = (λ _. refl, λ _. refl)

iff_ap :
    {A B : Type 0} (f : A → B) (b : Bool) (x y : A)
    → (f x ≡ f y → x ≡ y)
    → (b ≡ true) ↔ (x ≡ y)
    → (b ≡ true) ↔ (f x ≡ f y)
iff_ap f b x y inj h = (λ e. ap f (h.0 e), λ e. h.1 (inj e))

module _ (same_float : ℕ → ℕ → Bool) (r o : Row) (i : ℕ) where
  -- One column, in which both rows have values of one type.
  value_lem :
      (v w : Value)
      → get_elem? r.values i ≡ some v
      → get_elem? o.values i ≡ some w
      → type_of v ≡ type_of w
      → IsPresent v
      → IsPresent w
      → (b : Bool) × (equals_at same_float r o (type_of v) i ≡ ok b)
        × ((b ≡ true) ↔ AreSame same_float v w)
  unfolding equals_at type_of Row.get_int Row.get_double Row.get_bool Row.get_string
  value_lem (int_value x) (int_value y) e f t p q = (
    same_optional ◌==◌ x y,
    rw (e, f),
    iff_ap int_value _ x y (λ h. cc) (same_optional_iff ◌==◌ x y ==_iff),
  )
  value_lem (float_value x) (float_value y) e f t p q =
      (same_optional same_float x y, rw (e, f), (λ h. h, λ h. h))
  value_lem (bool_value x) (bool_value y) e f t p q = (
    same_optional same_bool x y,
    rw (e, f),
    iff_ap bool_value _ x y (λ h. cc) (same_optional_iff same_bool x y same_bool_iff),
  )
  value_lem (string_value none) w e f t p q = absurd p
  value_lem (string_value (some x)) (string_value none) e f t p q = absurd q
  value_lem (string_value (some x)) (string_value (some y)) e f t p q = (
    same_string x y,
    rw (e, f),
    iff_ap (λ s. string_value (some s)) _ x y (λ h. cc) (same_string_iff x y),
  )
  value_lem _ _ e f t p q = absurd (omega arith)

-- A value of a row, and its type.
pub types_lem :
    (q : Row) (pre vs : List Value) (v : Value)
    → q.types ≡ map type_of q.values
    → q.values ≡ pre ++ v ∷ vs
    → (get_elem? q.values (length pre) ≡ some v)
      × (get_elem? q.types (length pre) ≡ some (type_of v))
types_lem q pre vs v t e =
    let at : get_elem? q.values (length pre) ≡ some v = rw (e) (get_elem?_append pre v vs) in
    (at, rw (t) (get_elem?-map type_of q.values (length pre) v at))

module _ (same_float : ℕ → ℕ → Bool) (r o : Row) (typed : r.types ≡ map type_of r.values)
    (typed' : o.types ≡ map type_of o.values) where
  from_lem :
      (pre pre' vs ws : List Value)
      → r.values ≡ pre ++ vs
      → o.values ≡ pre' ++ ws
      → length pre ≡ length pre'
      → length vs ≡ length ws
      → All IsPresent vs
      → All IsPresent ws
      → (b : Bool) × (equals_from same_float r o (length vs) (length pre) ≡ ok b)
        × ((b ≡ true) ↔ AllSame same_float vs ws)
  unfolding equals_from
  from_lem pre pre' [] [] e f same long p q = (true, refl, (λ _. tt, λ _. refl))
  from_lem pre pre' [] (w ∷ ws) e f same long p q = absurd (omega arith)
  from_lem pre pre' (v ∷ vs) [] e f same long p q = absurd (omega arith)
  from_lem pre pre' (v ∷ vs) (w ∷ ws) e f same long p q =
      let (at, typ) = types_lem r pre vs v typed e in
      let (at', typ') = types_lem o pre' ws w typed' f in
      let at'' : get_elem? o.values (length pre) ≡ some w =
        subst (λ k. get_elem? o.values k ≡ some w) (sym same) at' in
      let typ'' : get_elem? o.types (length pre) ≡ some (type_of w) =
        subst (λ k. get_elem? o.types k ≡ some (type_of w)) (sym same) typ' in
      elim (Bool-cases (type_of v == type_of w)) [
        | inr other ↦ (
          false,
          rw (typ, typ'', other),
          (
            λ h. cc,
            λ h.
                sym other ∙ (==_iff (type_of v) (type_of w)).1 (AreSame-type_of same_float v w h.0),
          ),
        )
        | inl alike ↦
            let (b, run, iff) =
              value_lem same_float r o (length pre) v w at at'' ((==_iff _ _).0 alike) p.0 q.0 in
            let assoc = append_assoc pre (v ∷ []) vs in
            let assoc' = append_assoc pre' (w ∷ []) ws in
            let next : length (pre ++ v ∷ []) ≡ length pre + 1 = length-append pre (v ∷ []) in
            let (rest, run', iff') =
              from_lem (pre ++ v ∷ []) (pre' ++ w ∷ []) vs ws (e ∙ sym assoc) (f ∙ sym assoc')
                (omega (arith, length-append pre (v ∷ []), length-append pre' (w ∷ [])))
                (omega arith) p.1 q.1 in
            let run'' : equals_from same_float r o (length vs) (length pre + 1) ≡ ok rest =
              subst (λ k. equals_from same_float r o (length vs) k ≡ ok rest) next run' in
            elim (Bool-cases b) [
              | inr differ ↦ (
                false,
                rw (typ, typ'', alike, run, differ),
                (λ h. cc, λ h. sym differ ∙ iff.1 h.0),
              )
              | inl agree ↦ (
                rest,
                rw (typ, typ'', alike, run, agree) run'',
                (λ h. (iff.0 agree, iff'.0 h), λ h. iff'.1 h.1),
              )
            ]
      ]

pub same_ends : (r : Row) → ((r.index == r.index) && (r.width == r.width)) ≡ true
same_ends r = rw (==_refl r.index, ==_refl r.width)

-- On rows whose values have the types of their columns and none of whose strings is missing,
-- `equals` answers, and says that the rows are equal exactly when they have the same index and
-- width and, column by column, the same values: doubles of which the test of doubles holds, or that
-- are both missing, and equal values of the other types. Nothing is supposed of the test.
pub equals_iff :
    (same_float : ℕ → ℕ → Bool) (r o : Row)
    → IsTyped r
    → IsTyped o
    → All IsPresent r.values
    → All IsPresent o.values
    → (b : Bool) × (equals same_float r o ≡ ok b)
      × ((b ≡ true)
          ↔ ((r.index ≡ o.index) × (r.width ≡ o.width) × AllSame same_float r.values o.values))
unfolding equals
equals_iff same_float r o t t' p q =
    elim (Bool-cases ((r.index == o.index) && (r.width == o.width))) [
      | inr differ ↦ (
        false,
        rw differ,
        (
          λ h. cc,
          λ h.
              let same : ((r.index == o.index) && (r.width == o.width)) ≡ true =
                rw ((==_iff r.index o.index).1 h.0, (==_iff r.width o.width).1 h.1) in
              sym differ ∙ same,
        ),
      )
      | inl agree ↦
          let index : r.index ≡ o.index = ground arith in
          let width : r.width ≡ o.width = ground arith in
          let long : length r.values ≡ length o.values = omega (arith, t.wide, t'.wide) in
          let (b, run, iff) =
            from_lem same_float r o t.typed t'.typed [] [] r.values o.values refl refl refl long p
              q in
          let run' : equals_from same_float r o r.width 0 ≡ ok b =
            subst (λ k. equals_from same_float r o k 0 ≡ ok b) (sym t.wide) run in
          (b, rw agree run', (λ h. (index, width, iff.0 h), λ h. iff.1 h.2))
    ]
