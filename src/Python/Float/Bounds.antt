-- ===== src/Python/Float/Bounds.antt =====
-- The pattern of an integer of at most 33 bits is that of a finite float.
use native.Mathlib.Nat.{pow-suc, zero-add}
use bbjsensescada.Common.{ℕ, zero, suc, ◌+◌, ◌-◌, ◌*◌, ◌/◌, ◌^◌, ◌<◌, ◌≤◌, ◌≡◌, arith}
use bbjsensescada.Common.Int.{pos, negsuc}
use bbjsensescada.Python.Exceptions.{ok}
use bbjsensescada.Python.Float.{Float, of_ℤ, bits_of_ℕ, bit_length_from, bit_length, infinity_bits}

pow_add : (a b : ℕ) → 2 ^ a * 2 ^ b ≡ 2 ^ (a + b)
pow_add zero b = rw zero-add (omega arith)
pow_add (suc a) b =
    let e : suc a + b ≡ suc (a + b) = omega arith in
    rw (e, pow-suc 2 (a + b), pow-suc 2 a) (omega (arith, pow_add a b))

bit_length_from-le : (f n k : ℕ) → n < 2 ^ k → bit_length_from f n ≤ k
unfolding bit_length_from
bit_length_from-le zero n k h = omega arith
bit_length_from-le (suc f) n zero h = ground arith
bit_length_from-le (suc f) n (suc k) h =
    ground (arith, bit_length_from-le f (n / 2) k (omega (arith, pow-suc 2 k)))

lt-pow-bit_length : (f n : ℕ) → n ≤ f → n < 2 ^ bit_length_from f n
unfolding bit_length_from
lt-pow-bit_length zero n h = omega arith
lt-pow-bit_length (suc f) zero h = omega arith
lt-pow-bit_length (suc f) (suc n) h =
    let r = bit_length_from f (suc n / 2) in
    let ih : suc n / 2 < 2 ^ r = lt-pow-bit_length f (suc n / 2) (omega arith) in
    ground (arith, ih, pow-suc 2 r)

-- The mantissa field of a packed number of k bits, k <= 53, stays below 2 ^ 52.
packed_below : (n k : ℕ) → k ≤ 53 → n < 2 ^ k → n * 2 ^ (53 - k) ≤ 2 ^ 53
packed_below n k h fits =
    let p : 2 ^ k * 2 ^ (53 - k) ≡ 2 ^ (k + (53 - k)) = pow_add k (53 - k) in
    let e : k + (53 - k) ≡ 53 = omega arith in
    let q : 2 ^ k * 2 ^ (53 - k) ≡ 2 ^ 53 = rw e at p in grind (arith, q)

finite_bits : (n : ℕ) → n < 2 ^ 33 → bits_of_ℕ n < infinity_bits
unfolding bits_of_ℕ bit_length
finite_bits n h =
    let k = bit_length_from n n in
    let small : k ≤ 33 = bit_length_from-le n n 33 h in
    ground (arith, small, packed_below n k (omega arith) (lt-pow-bit_length n n (omega arith)))

-- An int that 32 bits hold, with either sign, converts to a float.
pub of_ℤ-pos : (n : ℕ) → n < 2 ^ 33 → (x : Float) × (of_ℤ (pos n) ≡ ok x)
unfolding of_ℤ
of_ℤ-pos n h = (record { bits = bits_of_ℕ n }, ground (arith, finite_bits n h))

pub of_ℤ-negsuc : (n : ℕ) → n < 2 ^ 32 → (x : Float) × (of_ℤ (negsuc n) ≡ ok x)
unfolding of_ℤ
of_ℤ-negsuc n h = (
  record { bits = 2 ^ 63 + bits_of_ℕ (n + 1) },
  ground (arith, finite_bits (n + 1) (omega arith)),
)
