-- ===== src/Common/Equality.antt =====
-- Python's `==` and `in` for keys: one operator for every type whose equality is decided.
-- The instances stay shut in proofs, where a split on `a == b` yields the equation or its negation.
use Prim.Native.Nat.{ℕ}
use Prim.Native.String.{String}
use mathlib.Core.Path.{◌≡◌, refl, sym}
use mathlib.Core.Logic.{ite, dite, ◌↔◌}
use mathlib.Core.Bool.{Bool, true, false, ◌||◌, Bool-discrete}
use mathlib.Core.List.{List, [], ◌∷◌}
use native.Mathlib.Omega.{arith}
use text.Mathlib.Text
use text.Mathlib.TextEquality.{eq_iff}
use bbjsensescada.Common.Tests.{eqb, eqb→eq, eq→eqb}

pub record Eq {ℓ} (A : Type ℓ) : Type ℓ where
  pub dec : Discrete A

-- A decision from a Boolean test that is right.
unfoldable pub dec_of_test {ℓ} :
    {A : Type ℓ} {a b : A} (t : Bool) → (t ≡ true → a ≡ b) → (a ≡ b → t ≡ true) → Dec (a ≡ b)
dec_of_test t sound complete =
    dite (Bool-discrete t true) (λ same. yes (sound same)) (λ differ. no (λ p. differ (complete p)))

module _ {ℓ} {A : Type ℓ} ⦃e : Eq A⦄ where
  infix 50 ◌==◌
  abbrev pub ◌==◌ : A → A → Bool
  a == b = ite (e.dec a b) true false

  abbrev pub contains : List A → A → Bool
  contains [] a = false
  contains (x ∷ xs) a = a == x || contains xs a

  pub ==_iff : (a b : A) → ((a == b) ≡ true) ↔ (a ≡ b)
  ==_iff a b = ground arith

  pub ==_comm : (a b : A) → (a == b) ≡ (b == a)
  ==_comm a b = elim (e.dec a b) [
    | yes p ↦ let r = sym p in rw ((==_iff a b).1 p, (==_iff b a).1 r) refl
    | no f ↦ ground (arith, ==_iff a b, ==_iff b a)
  ]

instance unfoldable pub nat_eq : Eq ℕ
unfolding dec_of_test
nat_eq = record { dec = λ a b. dec_of_test (eqb a b) (eqb→eq a b) (eq→eqb a b) }

instance unfoldable pub string_eq : Eq String
unfolding dec_of_test
string_eq = record {
  dec = λ s t. dec_of_test (Text.◌==◌ s t) (λ p. (eq_iff s t).0 p) (λ p. (eq_iff s t).1 p);
}
