-- ===== src/Python/Range/Blocks.antt =====
-- The blocks of `step` numbers that begin at the elements of an ascending range.
use bbjsensescada.Common.{
  ℕ, zero, suc, ◌+◌, ◌*◌, ◌≤◌, ◌<◌, ◌≡◌, List, ◌∷◌, All, arith, ltb, Bool-cases, inl, inr, Bool,
  true, ◌||◌, contains, nat_eq, ◌==◌, ==_iff, refl,
}
use bbjsensescada.Python.Range.{offsets, count_of}

or_left : (a b : Bool) → a ≡ true → (a || b) ≡ true
or_left a b h = ground arith

or_right : (a b : Bool) → b ≡ true → (a || b) ≡ true
or_right a b h = ground arith

pub count_of-bounds : (n k : ℕ) → (suc k * count_of n k ≤ n + k) × (n ≤ suc k * count_of n k)
count_of-bounds n k = (omega arith, omega arith)

-- No element reaches the end.
pub offsets-bound :
    (count from step limit : ℕ)
    → suc step * count + from ≤ limit + step
    → All (λ o. o < limit) (offsets count from (suc step))
offsets-bound zero from step limit h = tt
offsets-bound (suc count) from step limit h =
    (omega arith, offsets-bound count (from + suc step) step limit (omega arith))

-- The block that begins at o holds the number d.
abbrev pub Holds : ℕ → ℕ → ℕ → Type 0
Holds step d o = (o ≤ d) × (d < o + step)

abbrev pub Found : List ℕ → ℕ → ℕ → Type 0
Found os step d = (o : ℕ) × (contains os o ≡ true) × Holds step d o

later-Found : (os : List ℕ) (from step d : ℕ) → Found os step d → Found (from ∷ os) step d
later-Found os from step d (o, there, holds) =
    (o, or_right (o == from) (contains os o) there, holds)

pub offsets-covers :
    (count from step d : ℕ)
    → from ≤ d
    → d < from + suc step * count
    → Found (offsets count from (suc step)) (suc step) d
offsets-covers zero from step d low high = absurd (omega arith)
offsets-covers (suc count) from step d low high = elim (Bool-cases (ltb d (from + suc step))) [
  | inl here ↦ (from, or_left (from == from) _ ((==_iff from from).1 refl), ground arith)
  | inr past ↦
      later-Found (offsets count (from + suc step) (suc step)) from (suc step) d
        (offsets-covers count (from + suc step) step d (ground arith) (omega arith))
]
