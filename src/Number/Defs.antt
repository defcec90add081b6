-- ===== src/Number/Defs.antt =====
-- Python's numbers, which the program takes from the language: a parameter of the model. They are its
-- floats, and integers of such a size that no operation on them leaves the floats' range. An integer
-- beyond that range, for which `math.isfinite` and a sum with a float raise OverflowError, is no value
-- here (Paper/Validation has it as a JSON value of its own). `Number` names the operations that the
-- program calls; `IsOrdered` states what some proofs rely on of them.
use xauusd.Prelude.{ℕ, ◌+◌, ◌≡◌, Bool, true, false, if◌then◌else◌, leb}

pub record Number (F : Type 0) : Type 0 where
  -- An integer literal.
  pub of_ℕ : ℕ → F
  -- `timedelta.total_seconds()` of a number of microseconds.
  pub seconds : ℕ → F
  pub add : F → F → F
  pub sub : F → F → F
  pub mul : F → F → F
  -- The quotient by a divisor that is not zero.
  pub div : F → F → F
  pub neg : F → F
  pub abs : F → F
  pub lt : F → F → Bool
  pub le : F → F → Bool
  -- The operator `==`.
  pub eq : F → F → Bool
  -- `math.isfinite`
  pub finite : F → Bool

module _ {F : Type 0} ⦃n : Number F⦄ where
  abbrev pub of_ℕ : ℕ → F
  of_ℕ = n.of_ℕ

  abbrev pub seconds : ℕ → F
  seconds = n.seconds

  abbrev pub add : F → F → F
  add = n.add

  abbrev pub sub : F → F → F
  sub = n.sub

  abbrev pub mul : F → F → F
  mul = n.mul

  abbrev pub div : F → F → F
  div = n.div

  abbrev pub neg : F → F
  neg = n.neg

  abbrev pub abs : F → F
  abs = n.abs

  abbrev pub lt : F → F → Bool
  lt = n.lt

  abbrev pub le : F → F → Bool
  le = n.le

  abbrev pub eq : F → F → Bool
  eq = n.eq

  abbrev pub finite : F → Bool
  finite = n.finite

  -- Python's `max(a, b)`: the first argument unless the second is greater.
  abbrev pub max : F → F → F
  max a b = if lt a b then b else a

  -- Python's `min(a, b)`: the first argument unless the second is smaller.
  abbrev pub min : F → F → F
  min a b = if lt b a then b else a

-- What some proofs rely on. The comparisons of finite numbers are a total order, a comparison with
-- NaN is false, and integer literals are compared and added exactly, as Python's integers are (floats
-- do so up to 2 ^ 53).
pub record IsOrdered {F : Type 0} (n : Number F) : Type 0 where
  pub le_refl : (a : F) → n.finite a ≡ true → n.le a a ≡ true
  pub le_of_not_lt :
      (a b : F) → n.finite a ≡ true → n.finite b ≡ true → n.lt a b ≡ false → n.le b a ≡ true
  pub lt_of_not_le :
      (a b : F) → n.finite a ≡ true → n.finite b ≡ true → n.le a b ≡ false → n.lt b a ≡ true
  pub le_of_lt : (a b : F) → n.lt a b ≡ true → n.le a b ≡ true
  pub lt_irrefl : (a : F) → n.lt a a ≡ false
  pub le_trans : (a b c : F) → n.le a b ≡ true → n.le b c ≡ true → n.le a c ≡ true
  pub lt_trans : (a b c : F) → n.lt a b ≡ true → n.lt b c ≡ true → n.lt a c ≡ true
  -- A number that is above another is not equal to it.
  pub ne_of_lt : (a b : F) → n.lt a b ≡ true → n.eq b a ≡ false
  pub abs-eq_zero : (a : F) → n.eq (n.abs a) (n.of_ℕ 0) ≡ true → n.eq a (n.of_ℕ 0) ≡ true
  pub finite_zero : n.finite (n.of_ℕ 0) ≡ true
  pub le-of_ℕ : (j k : ℕ) → n.le (n.of_ℕ j) (n.of_ℕ k) ≡ leb j k
  pub add-of_ℕ : (j k : ℕ) → n.add (n.of_ℕ j) (n.of_ℕ k) ≡ n.of_ℕ (j + k)
