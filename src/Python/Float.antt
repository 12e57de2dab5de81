-- ===== src/Python/Float.antt =====
-- Python's `float`: an IEEE 754 binary64, kept as its bit pattern. Comparison, the finite test and
-- the conversions from and to integers are those of the format; products, sums and rounding to
-- decimals are a parameter (`Arithmetic`).
pub mod Bounds
use bbjsensescada.Common.{
  ℕ, zero, suc, ◌+◌, ◌-◌, ◌*◌, ◌/◌, ◌%◌, ◌^◌, ◌<◌, Bool, true, false, ◌&&◌, ◌||◌, not, ltb, leb,
  eqb, if◌then◌else◌, String, Option, ◌≡◌, refl,
}
use bbjsensescada.Common.Int.{ℤ, pos, negsuc, neg_ℕ}
use bbjsensescada.Python.Exceptions.{Result, ok, err, value_error, overflow_error, ◌>>=◌}

pub record Float : Type 0 where
  pub bits : ℕ

-- What the hardware and the C library compute, and `float(text)`.
pub record Arithmetic : Type 0 where
  pub mul : Float → Float → Float
  pub add : Float → Float → Float
  pub sub : Float → Float → Float
  pub round : Float → ℤ → Result Float
  pub of_text : String → Option Float

abbrev sign : Float → ℕ
sign x = x.bits / 2 ^ 63

abbrev pub exponent : Float → ℕ
exponent x = x.bits / 2 ^ 52 % 2048

abbrev pub mantissa : Float → ℕ
mantissa x = x.bits % 2 ^ 52

-- `math.isfinite`
unfoldable pub is_finite : Float → Bool
is_finite x = not (eqb (exponent x) 2047)

unfoldable pub is_nan : Float → Bool
is_nan x = eqb (exponent x) 2047 && not (eqb (mantissa x) 0)

abbrev magnitude : Float → ℕ
magnitude x = x.bits % 2 ^ 63

-- Both zeros have magnitude 0, so they compare equal.
lt_signed : Bool → Bool → ℕ → ℕ → Bool
lt_signed false false a b = ltb a b
lt_signed true true a b = ltb b a
lt_signed true false a b = not (eqb a 0 && eqb b 0)
lt_signed false true a b = false

abbrev negative : Float → Bool
negative x = not (eqb (sign x) 0)

unfoldable pub lt_float : Float → Float → Bool
unfolding lt_signed is_nan
lt_float x y =
    not (is_nan x)
    && not (is_nan y)
    && lt_signed (negative x) (negative y) (magnitude x) (magnitude y)

unfoldable pub le_float : Float → Float → Bool
unfolding lt_signed is_nan
le_float x y =
    not (is_nan x)
    && not (is_nan y)
    && not (lt_signed (negative y) (negative x) (magnitude y) (magnitude x))

unfoldable pub eq_float : Float → Float → Bool
unfolding le_float
eq_float x y = le_float x y && le_float y x

bit_length_from : ℕ → ℕ → ℕ
bit_length_from zero n = 0
bit_length_from (suc fuel) n =
    let rest = bit_length_from fuel (n / 2) in if eqb n 0 then 0 else rest + 1

unfoldable pub bit_length : ℕ → ℕ
unfolding bit_length_from
bit_length n = bit_length_from n n

-- The pattern of n * 2 ^ scale / 2 ^ 1074 for n of `width` bits, 1 <= width <= 53, if it is normal.
abbrev pack : ℕ → ℕ → ℕ → ℕ
pack n width biased = biased * 2 ^ 52 + (n * 2 ^ (53 - width) - 2 ^ 52)

-- Round half to even at 53 bits; a carry moves on into the exponent.
rounded : ℕ → ℕ → ℕ
rounded n width =
    let cut = width - 53 in
    let q = n / 2 ^ cut in
    let r = n % 2 ^ cut in
    let half = 2 ^ (cut - 1) in if ltb half r || (eqb r half && eqb (q % 2) 1) then q + 1 else q

abbrev pub infinity_bits : ℕ
infinity_bits = 2047 * 2 ^ 52

-- The pattern of a natural number, not bounded above.
unfoldable pub bits_of_ℕ : ℕ → ℕ
unfolding bit_length rounded
bits_of_ℕ n =
    let width = bit_length n in
    if eqb n 0
    then 0
    else if leb width 53
    then pack n width (width + 1022)
    else (width + 1022) * 2 ^ 52 + (rounded n width - 2 ^ 52)

-- `float(n)` for an int.
unfoldable pub of_ℤ : ℤ → Result Float
unfolding bits_of_ℕ
of_ℤ (pos n) =
    if ltb (bits_of_ℕ n) infinity_bits
    then ok (record { bits = bits_of_ℕ n })
    else err (overflow_error "int too large to convert to float")
of_ℤ (negsuc n) =
    if ltb (bits_of_ℕ (n + 1)) infinity_bits
    then ok (record { bits = 2 ^ 63 + bits_of_ℕ (n + 1) })
    else err (overflow_error "int too large to convert to float")

-- A binary32 pattern as a float: `struct.unpack(">f", …)`.
unfoldable pub of_bits32 : ℕ → Float
unfolding bit_length
of_bits32 w =
    let top = w / 2 ^ 31 * 2 ^ 63 in
    let e = w / 2 ^ 23 % 256 in
    let m = w % 2 ^ 23 in
    let width = bit_length m in
    if eqb e 255
    then record { bits = top + infinity_bits + m * 2 ^ 29 }
    else if eqb e 0
    then record { bits = top + (if eqb m 0 then 0 else pack m width (width + 873)) }
    else record { bits = top + (e + 896) * 2 ^ 52 + m * 2 ^ 29 }

-- A binary64 pattern: `struct.unpack(">d", …)`.
abbrev pub of_bits64 : ℕ → Float
of_bits64 w = record { bits = w }

-- |x| in units of 2 ^ -1074, for a finite x.
unfoldable pub units : Float → ℕ
units x = if eqb (exponent x) 0 then mantissa x else (2 ^ 52 + mantissa x) * 2 ^ (exponent x - 1)

-- `int(x)` cuts toward zero.
unfoldable pub truncate : Float → Result ℤ
unfolding is_nan is_finite units
truncate x =
    if is_nan x
    then err (value_error "cannot convert float NaN to integer")
    else if is_finite x
    then ok (if negative x then neg_ℕ (units x / 2 ^ 1074) else pos (units x / 2 ^ 1074))
    else err (overflow_error "cannot convert float infinity to integer")

-- `x >= n` and `x <= n` for an int n are exact: both sides in units of 2 ^ -1074.
unfoldable pub ge_int : Float → ℤ → Bool
unfolding is_nan is_finite units
ge_int x n =
    not (is_nan x) && (if is_finite x then ge_units (negative x) (units x) n else not (negative x))
  where
    ge_units : Bool → ℕ → ℤ → Bool
    ge_units false u (pos k) = leb (k * 2 ^ 1074) u
    ge_units true u (pos k) = eqb k 0 && eqb u 0
    ge_units false u (negsuc k) = true
    ge_units true u (negsuc k) = leb u ((k + 1) * 2 ^ 1074)

unfoldable pub le_int : Float → ℤ → Bool
unfolding is_nan is_finite units
le_int x n =
    not (is_nan x) && (if is_finite x then le_units (negative x) (units x) n else negative x)
  where
    le_units : Bool → ℕ → ℤ → Bool
    le_units false u (pos k) = leb u (k * 2 ^ 1074)
    le_units true u (pos k) = true
    le_units false u (negsuc k) = false
    le_units true u (negsuc k) = leb ((k + 1) * 2 ^ 1074) u

pi_bits : of_bits32 0x40490fdb ≡ record { bits = 0x400921fb60000000 }
unfolding of_bits32
pi_bits = refl
