-- ===== src/Common/Int.antt =====
-- Python's integers over the native numbers. `negsuc n` is -(n + 1).
use Prim.Native.Nat.{ℕ, zero, suc, ◌^◌}
use mathlib.Core.Path.{◌≡◌, ap}
use mathlib.Core.Bool.{Bool, true, false, ◌&&◌}
use native.Mathlib.Omega.{arith}
use bbjsensescada.Common.Tests.{ltb, eqb, if◌then◌else◌}
use bbjsensescada.Common.Equality.{Eq, dec_of_test}

pub data ℤ : Type 0 where
  pos : ℕ → ℤ
  negsuc : ℕ → ℤ

-- -n
abbrev pub neg_ℕ : ℕ → ℤ
neg_ℕ zero = pos 0
neg_ℕ (suc n) = negsuc n

abbrev pub eqb_ℤ : ℤ → ℤ → Bool
eqb_ℤ (pos a) (pos b) = eqb a b
eqb_ℤ (negsuc a) (negsuc b) = eqb a b
eqb_ℤ (pos a) (negsuc b) = false
eqb_ℤ (negsuc a) (pos b) = false

-- max(lo, x) and min(x, hi) for natural bounds, as a natural number.
abbrev pub clamp_ℕ : ℕ → ℕ → ℤ → ℕ
clamp_ℕ lo hi (negsuc n) = lo
clamp_ℕ lo hi (pos n) = if ltb n lo then lo else if ltb hi n then hi else n

-- The integers that 64 bits hold.
abbrev pub fits_int64 : ℤ → Bool
fits_int64 (pos n) = ltb n (2 ^ 63)
fits_int64 (negsuc n) = ltb n (2 ^ 63)

pub eqb_ℤ→eq : (a b : ℤ) → eqb_ℤ a b ≡ true → a ≡ b
eqb_ℤ→eq a b h = ground arith

pub eq→eqb_ℤ : (a b : ℤ) → a ≡ b → eqb_ℤ a b ≡ true
eq→eqb_ℤ (pos a) b h = ground arith
eq→eqb_ℤ (negsuc a) b h = ground arith

instance unfoldable pub int_eq : Eq ℤ
unfolding dec_of_test
int_eq = record { dec = λ a b. dec_of_test (eqb_ℤ a b) (eqb_ℤ→eq a b) (eq→eqb_ℤ a b) }

-- A key that is a pair of integers.
pub pair_test : ℤ × ℤ → ℤ × ℤ → Bool
pair_test (a, b) (c, d) = eqb_ℤ a c && eqb_ℤ b d

pub pair_test→eq : (p q : ℤ × ℤ) → pair_test p q ≡ true → p ≡ q
unfolding pair_test
pair_test→eq (a, b) (c, d) h = ground (arith, eqb_ℤ→eq a c, eqb_ℤ→eq b d)

pub eq→pair_test : (p q : ℤ × ℤ) → p ≡ q → pair_test p q ≡ true
unfolding pair_test
eq→pair_test (a, b) (c, d) h =
    ground
      (arith, eq→eqb_ℤ a c (ap (λ (p : ℤ × ℤ). p.0) h), eq→eqb_ℤ b d (ap (λ (p : ℤ × ℤ). p.1) h))

instance unfoldable pub pair_eq : Eq (ℤ × ℤ)
unfolding dec_of_test pair_test
pair_eq = record { dec = λ p q. dec_of_test (pair_test p q) (pair_test→eq p q) (eq→pair_test p q) }
