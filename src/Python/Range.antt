-- ===== src/Python/Range.antt =====
-- `range(start, stop, step)` as a list.
pub mod Blocks
use bbjsensescada.Common.{ℕ, zero, suc, ◌+◌, ◌-◌, ◌*◌, ◌/◌, List, [], ◌∷◌, map, leb, if◌then◌else◌}
use bbjsensescada.Common.Int.{ℤ, pos, negsuc}
use bbjsensescada.Python.Exceptions.{Result, ok, err, value_error}

-- stop - start, or 0 if that is negative.
abbrev pub span : ℤ → ℤ → ℕ
span (pos a) (pos b) = b - a
span (pos a) (negsuc b) = 0
span (negsuc a) (pos b) = a + 1 + b
span (negsuc a) (negsuc b) = a - b

-- start + n and start - n.
abbrev pub plus : ℤ → ℕ → ℤ
plus (pos a) n = pos (a + n)
plus (negsuc a) n = if leb (a + 1) n then pos (n - (a + 1)) else negsuc (a - n)

abbrev pub minus : ℤ → ℕ → ℤ
minus (negsuc a) n = negsuc (a + n)
minus (pos a) n = if leb n a then pos (a - n) else negsuc (n - a - 1)

-- The distances from the start: `count` of them, a step apart.
abbrev pub offsets : ℕ → ℕ → ℕ → List ℕ
offsets zero from step = []
offsets (suc count) from step = from ∷ offsets count (from + step) step

-- How many steps of k + 1 stay below the distance n.
abbrev pub count_of : ℕ → ℕ → ℕ
count_of n k = (n + k) / suc k

unfoldable pub range : ℤ → ℤ → ℤ → Result (List ℤ)
range start stop (pos zero) = err (value_error "range() arg 3 must not be zero")
range start stop (pos (suc k)) =
    ok (map (plus start) (offsets (count_of (span start stop) k) 0 (suc k)))
range start stop (negsuc k) =
    ok (map (minus start) (offsets (count_of (span stop start) k) 0 (suc k)))
