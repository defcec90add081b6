-- ===== src/Number/Whole.antt =====
-- Whole numbers with NaN: an instance of `Number` that computes, for the tests. It agrees with
-- Python on the values that the tests use, which are whole and small.
use xauusd.Prelude.{◌/◌, ◌≡◌, refl, Bool, true, false, arith}
use xauusd.Prelude.Int.{ℤ, pos, negsuc, ◌+ℤ◌, ◌-ℤ◌, ◌*ℤ◌, ltb_ℤ, leb_ℤ, eqb_ℤ, abs, quot}
use xauusd.Number.Defs.{Number, IsOrdered}

pub data Exact : Type 0 where
  whole : ℤ → Exact
  nan : Exact

abbrev lift : (ℤ → ℤ → ℤ) → Exact → Exact → Exact
lift f (whole a) (whole b) = whole (f a b)
lift f _ _ = nan

abbrev compare_by : (ℤ → ℤ → Bool) → Exact → Exact → Bool
compare_by f (whole a) (whole b) = f a b
compare_by f _ _ = false

abbrev lift_one : (ℤ → ℤ) → Exact → Exact
lift_one f (whole a) = whole (f a)
lift_one f nan = nan

abbrev is_whole : Exact → Bool
is_whole (whole a) = true
is_whole nan = false

instance abbrev pub exact : Number Exact
exact = record {
  of_ℕ = λ k. whole (pos k);
  seconds = λ k. whole (pos (k / 1000000));
  add = lift ◌+ℤ◌;
  sub = lift ◌-ℤ◌;
  mul = lift ◌*ℤ◌;
  div = lift quot;
  neg = lift_one (λ a. pos 0 -ℤ a);
  abs = lift_one abs;
  lt = compare_by ltb_ℤ;
  le = compare_by leb_ℤ;
  eq = compare_by eqb_ℤ;
  finite = is_whole;
}

le_refl : (a : Exact) → is_whole a ≡ true → compare_by leb_ℤ a a ≡ true
le_refl (whole a) h = ground arith
le_refl nan h = cc

le_of_not_lt :
    (a b : Exact)
    → is_whole a ≡ true
    → is_whole b ≡ true
    → compare_by ltb_ℤ a b ≡ false
    → compare_by leb_ℤ b a ≡ true
le_of_not_lt (whole a) (whole b) h k e = ground arith
le_of_not_lt (whole a) nan h k e = cc
le_of_not_lt nan b h k e = cc

lt_of_not_le :
    (a b : Exact)
    → is_whole a ≡ true
    → is_whole b ≡ true
    → compare_by leb_ℤ a b ≡ false
    → compare_by ltb_ℤ b a ≡ true
lt_of_not_le (whole a) (whole b) h k e = ground arith
lt_of_not_le (whole a) nan h k e = cc
lt_of_not_le nan b h k e = cc

le_of_lt : (a b : Exact) → compare_by ltb_ℤ a b ≡ true → compare_by leb_ℤ a b ≡ true
le_of_lt (whole a) (whole b) e = ground arith
le_of_lt (whole a) nan e = cc
le_of_lt nan b e = cc

lt_irrefl : (a : Exact) → compare_by ltb_ℤ a a ≡ false
lt_irrefl (whole a) = ground arith
lt_irrefl nan = refl

le_trans :
    (a b c : Exact)
    → compare_by leb_ℤ a b ≡ true
    → compare_by leb_ℤ b c ≡ true
    → compare_by leb_ℤ a c ≡ true
le_trans (whole a) (whole b) (whole c) h k = ground arith
le_trans (whole a) (whole b) nan h k = cc
le_trans (whole a) nan c h k = cc
le_trans nan b c h k = cc

lt_trans :
    (a b c : Exact)
    → compare_by ltb_ℤ a b ≡ true
    → compare_by ltb_ℤ b c ≡ true
    → compare_by ltb_ℤ a c ≡ true
lt_trans (whole a) (whole b) (whole c) h k = ground arith
lt_trans (whole a) (whole b) nan h k = cc
lt_trans (whole a) nan c h k = cc
lt_trans nan b c h k = cc

ne_of_lt : (a b : Exact) → compare_by ltb_ℤ a b ≡ true → compare_by eqb_ℤ b a ≡ false
ne_of_lt (whole a) (whole b) e = ground arith
ne_of_lt (whole a) nan e = cc
ne_of_lt nan b e = cc

abs-eq_zero :
    (a : Exact)
    → compare_by eqb_ℤ (lift_one abs a) (whole (pos 0)) ≡ true
    → compare_by eqb_ℤ a (whole (pos 0)) ≡ true
abs-eq_zero (whole (pos k)) e = ground arith
abs-eq_zero (whole (negsuc k)) e = ground arith
abs-eq_zero nan e = cc

pub exact-IsOrdered : IsOrdered exact
exact-IsOrdered = record {
  le_refl = le_refl;
  le_of_not_lt = le_of_not_lt;
  lt_of_not_le = lt_of_not_le;
  le_of_lt = le_of_lt;
  lt_irrefl = lt_irrefl;
  le_trans = le_trans;
  lt_trans = lt_trans;
  ne_of_lt = ne_of_lt;
  abs-eq_zero = abs-eq_zero;
  finite_zero = refl;
  le-of_ℕ = λ j k. ground arith;
  add-of_ℕ = λ j k. ground arith;
}
