-- ===== src/Serializable/Bytes.antt =====
-- include/util/serializable.h, bit sets: setting and reading the bits of one byte.
use cs4500project.Prelude.{
  ==_iff, Bool, ap, arith, false, if◌then◌else◌, ltb, not, refl, suc, true, zero, ℕ, ◌%◌, ◌&&◌, ◌*◌,
  ◌+◌, ◌/◌, ◌<◌, ◌==◌, ◌^◌, ◌||◌, ◌∙◌, ◌≡◌, ◌≤◌,
}
use Prim.Native.Nat.{bit_or}
use cs4500project.Serializable.{has_bit, to_bit}
use native.Mathlib.Nat.{pow-suc}

in_table : (entry : ℕ → Bool) (size : ℕ) → Bool
in_table entry zero = true
in_table entry (suc size) = in_table entry size && entry size

table-entry :
    (entry : ℕ → Bool) (size i : ℕ) → i < size → in_table entry size ≡ true → entry i ≡ true
unfolding in_table
table-entry entry zero i lt all_hold = absurd (omega arith)
table-entry entry (suc size) i lt all_hold = ground (arith, table-entry entry size i)

-- Below the bit that is set, `|` adds.
or_table :
    in_table
      (λ n.
        in_table
          (λ x.
            if ltb x (2 ^ n)
            then (bit_or x (1 * 2 ^ n) == x + 2 ^ n) && (bit_or x (0 * 2 ^ n) == x)
            else true)
          256)
      8
    ≡ true
unfolding in_table
or_table = refl

has_bit_table :
    in_table
      (λ n.
        in_table
          (λ x. has_bit x n && (x / 2 ^ n % 2 == 1) || not (has_bit x n) && (x / 2 ^ n % 2 == 0))
          256)
      8
    ≡ true
unfolding in_table has_bit
has_bit_table = refl

pub bit_or_add :
    (b : Bool) (x n : ℕ)
    → n < 8
    → x < 256
    → x < 2 ^ n
    → bit_or x (to_bit b * 2 ^ n) ≡ x + to_bit b * 2 ^ n
bit_or_add true x n hn hx h =
    let fact = table-entry _ 256 x hx (table-entry _ 8 n hn or_table) in
    let p : (bit_or x (1 * 2 ^ n) == x + 2 ^ n) ≡ true = ground arith in
    (==_iff _ _).0 p ∙ omega arith
bit_or_add false x n hn hx h =
    let fact = table-entry _ 256 x hx (table-entry _ 8 n hn or_table) in
    let p : (bit_or x (0 * 2 ^ n) == x) ≡ true = ground arith in (==_iff _ _).0 p ∙ omega arith

pub has_bit_div : (x n : ℕ) → n < 8 → x < 256 → has_bit x n ≡ (x / 2 ^ n % 2 == 1)
has_bit_div x n hn hx =
    let fact = table-entry _ 256 x hx (table-entry _ 8 n hn has_bit_table) in ground arith

pub div_add : (x p y : ℕ) → x < p → (x + p * y) / p ≡ y
div_add x p y h = grind arith

-- Bit `n` of a byte whose bits from `n` on are `b` and those of `q`.
pub has_bit_read :
    (b : Bool) (x n q : ℕ)
    → n < 8
    → x < 2 ^ n
    → x + 2 ^ n * (to_bit b + 2 * q) < 256
    → has_bit (x + 2 ^ n * (to_bit b + 2 * q)) n ≡ b
has_bit_read true x n q hn h small =
    has_bit_div _ n hn small ∙ rw (div_add x (2 ^ n) (1 + 2 * q) h) (ground arith)
has_bit_read false x n q hn h small =
    has_bit_div _ n hn small ∙ rw (div_add x (2 ^ n) (0 + 2 * q) h) (ground arith)

pow_table : in_table (λ n. ltb (2 ^ n) 257) 9 ≡ true
unfolding in_table
pow_table = refl

pub pow_le : (n : ℕ) → n ≤ 8 → 2 ^ n ≤ 256
pow_le n h = let e = table-entry (λ n. ltb (2 ^ n) 257) 9 n (omega arith) pow_table in ground arith

pub to_bit_le : (b : Bool) → to_bit b ≤ 1
to_bit_le true = omega arith
to_bit_le false = omega arith

pub next_lt : (b : Bool) (x n : ℕ) → x < 2 ^ n → x + to_bit b * 2 ^ n < 2 ^ suc n
next_lt true x n h = omega (arith, pow-suc 2 n)
next_lt false x n h = omega (arith, pow-suc 2 n)

pub shift_eq : (d x n q : ℕ) → x + d * 2 ^ n + 2 ^ suc n * q ≡ x + 2 ^ n * (d + 2 * q)
shift_eq d x n q = omega (arith, ap (λ (t : ℕ). t * q) (pow-suc 2 n))
