-- ===== src/Python/Text.antt =====
-- `str` methods. A text is walked as the list of its code points; case mapping is that of ASCII.
use Prim.Native.Char.{code}
use mathlib.Core.List.{reverse}
use bbjsensescada.Common.{
  ℕ, zero, suc, ◌+◌, ◌-◌, ◌*◌, Bool, true, false, ◌&&◌, ◌||◌, List, [], ◌∷◌, ◌++◌, map, String,
  Option, none, some, leb, eqb, if◌then◌else◌,
}
use bbjsensescada.Common.Int.{ℤ, pos, neg_ℕ}

abbrev pub codes : String → List ℕ
codes String.[] = []
codes (String.◌∷◌ c s) = code c ∷ codes s

-- `str.isspace` of one code point.
unfoldable pub is_space : ℕ → Bool
is_space c =
    (leb 9 c && leb c 13)
    || (leb 28 c && leb c 32)
    || eqb c 0x85
    || eqb c 0xa0
    || eqb c 0x1680
    || (leb 0x2000 c && leb c 0x200a)
    || eqb c 0x2028
    || eqb c 0x2029
    || eqb c 0x202f
    || eqb c 0x205f
    || eqb c 0x3000

unfoldable pub to_lower : ℕ → ℕ
to_lower c = if leb b'A' c && leb c b'Z' then c + 32 else c

unfoldable pub to_upper : ℕ → ℕ
to_upper c = if leb b'a' c && leb c b'z' then c - 32 else c

abbrev pub lower : List ℕ → List ℕ
lower = map to_lower

abbrev pub upper : List ℕ → List ℕ
upper = map to_upper

-- `s.replace(a, b)` for texts of one code point.
abbrev pub replace : ℕ → ℕ → List ℕ → List ℕ
replace a b = map (λ c. if eqb c a then b else c)

unfoldable pub lstrip : List ℕ → List ℕ
lstrip [] = []
lstrip (c ∷ s) = if is_space c then lstrip s else c ∷ s

prepend : ℕ → List ℕ → List ℕ
prepend c [] = if is_space c then [] else c ∷ []
prepend c (d ∷ s) = c ∷ d ∷ s

unfoldable pub rstrip : List ℕ → List ℕ
unfolding prepend
rstrip [] = []
rstrip (c ∷ s) = prepend c (rstrip s)

unfoldable pub strip : List ℕ → List ℕ
unfolding lstrip rstrip
strip s = lstrip (rstrip s)

-- `s.strip()` as a text.
unfoldable pub strip_left : String → String
strip_left String.[] = String.[]
strip_left (String.◌∷◌ c s) = if is_space (code c) then strip_left s else String.◌∷◌ c s

unfoldable pub strip_right : String → String
strip_right String.[] = String.[]
strip_right (String.◌∷◌ c s) = elim (strip_right s) [
  | String.[] ↦ if is_space (code c) then String.[] else String.◌∷◌ c String.[]
  | String.◌∷◌ d r ↦ String.◌∷◌ c (String.◌∷◌ d r)
]

unfoldable pub strip_text : String → String
unfolding strip_left strip_right is_space
strip_text s = strip_left (strip_right s)

-- `s[:n]`
unfoldable pub prefix : ℕ → String → String
prefix zero s = String.[]
prefix (suc n) String.[] = String.[]
prefix (suc n) (String.◌∷◌ c s) = String.◌∷◌ c (prefix n s)

-- `s.split()`: the word under way is kept in reverse.
unfoldable pub words_from : List ℕ → List ℕ → List (List ℕ)
words_from [] [] = []
words_from (c ∷ w) [] = reverse (c ∷ w) ∷ []
words_from [] (c ∷ s) = if is_space c then words_from [] s else words_from (c ∷ []) s
words_from (d ∷ w) (c ∷ s) =
    let fresh = words_from [] s in
    let on = words_from (c ∷ d ∷ w) s in if is_space c then reverse (d ∷ w) ∷ fresh else on

unfoldable pub split : List ℕ → List (List ℕ)
unfolding words_from is_space
split s = words_from [] s

-- `" ".join(words)`
unfoldable pub join_words : List (List ℕ) → List ℕ
join_words [] = []
join_words (w ∷ []) = w
join_words (w ∷ v ∷ ws) = w ++ (b' ' ∷ join_words (v ∷ ws))

unfoldable pub same_codes : List ℕ → List ℕ → Bool
same_codes [] [] = true
same_codes (a ∷ s) (b ∷ t) = eqb a b && same_codes s t
same_codes _ _ = false

-- `s in {…}`
unfoldable pub is_one_of : List ℕ → List String → Bool
unfolding same_codes
is_one_of s [] = false
is_one_of s (t ∷ ts) = same_codes s (codes t) || is_one_of s ts

is_digit : ℕ → Bool
is_digit c = leb b'0' c && leb c b'9'

-- The digits of a numeral, `_` between two digits allowed; `after_digit` says that one was just read.
digits_from : ℕ → Bool → List ℕ → Option ℕ
digits_from acc after_digit [] = if after_digit then some acc else none
digits_from acc after_digit (c ∷ s) =
    let digit = digits_from (acc * 10 + (c - b'0')) true s in
    let gap = digits_from acc false s in
    if is_digit c then digit else if eqb c b'_' && after_digit then gap else none

unsigned : List ℕ → Option ℕ
unfolding digits_from is_digit
unsigned s = digits_from 0 false s

signed : List ℕ → Option ℤ
signed [] = none
signed (c ∷ s) =
    if eqb c b'-'
    then elim (unsigned s) [ none ↦ none | some n ↦ some (neg_ℕ n) ]
    else elim (unsigned (if eqb c b'+' then s else c ∷ s)) [ none ↦ none | some n ↦ some (pos n) ]

-- `int(text)`, base 10; `none` is the ValueError.
unfoldable pub parse_int : List ℕ → Option ℤ
unfolding signed unsigned strip is_space
parse_int s = signed (strip s)
