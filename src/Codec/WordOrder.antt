-- ===== src/Codec/WordOrder.antt =====
-- The spellings of a word order.
use bbjsensescada.Common.{
  ℕ, ◌≡◌, refl, ap, sym, ◌∙◌, true, List, [], ◌∷◌, ◌++◌, map, arith, eqb, if◌then◌else◌, ◌⊎◌,
}
use mathlib.Core.List.{map-append}
use bbjsensescada.Python.Text.{
  lower, upper, to_lower, to_upper, replace, split, words_from, is_space, join_words,
}
use bbjsensescada.Codec.{normalized_order}

-- The characters that the function treats as a space.
pub data IsSeparator (c : ℕ) : Type 0 where
  space : is_space c ≡ true → IsSeparator c
  mark : (c ≡ b'_') ⊎ (c ≡ b'-') ⊎ (c ≡ b'/') → IsSeparator c

spaced : ℕ → ℕ
spaced c =
    let l = to_lower c in
    let a = if eqb l b'_' then b' ' else l in
    let b = if eqb a b'-' then b' ' else a in if eqb b b'/' then b' ' else b

map-spaced :
    (s : List ℕ)
    → replace b'/' b' ' (replace b'-' b' ' (replace b'_' b' ' (lower s))) ≡ map spaced s
unfolding spaced
map-spaced [] = refl
map-spaced (c ∷ s) = ap (λ t. spaced c ∷ t) (map-spaced s)

normalized_order-eq : (s : List ℕ) → normalized_order s ≡ join_words (split (map spaced s))
unfolding normalized_order
normalized_order-eq s = rw map-spaced

spaced-separator : (c : ℕ) → IsSeparator c → is_space (spaced c) ≡ true
unfolding spaced is_space to_lower
spaced-separator c (space h) = ground arith
spaced-separator c (mark h) = ground arith

case_blind : (c : ℕ) → spaced (to_upper c) ≡ spaced c
unfolding spaced to_lower to_upper
case_blind c = ground arith

module _ (a b c : ℕ) (ha : is_space a ≡ true) (hb : is_space b ≡ true)
    (hc : is_space c ≡ true) where
  words-run : (w s t : List ℕ) → words_from w (s ++ a ∷ b ∷ t) ≡ words_from w (s ++ c ∷ t)
  unfolding words_from
  words-run [] [] t = rw (ha, hb, hc)
  words-run (d ∷ w) [] t = rw (ha, hb, hc)
  words-run [] (x ∷ s) t = ground (arith, words-run [] s t, words-run (x ∷ []) s t)
  words-run (d ∷ w) (x ∷ s) t = ground (arith, words-run [] s t, words-run (x ∷ d ∷ w) s t)

module _ (a : ℕ) (ha : is_space a ≡ true) where
  words-lead : (s : List ℕ) → words_from [] (a ∷ s) ≡ words_from [] s
  unfolding words_from
  words-lead s = rw ha

  words-trail : (w s : List ℕ) → words_from w (s ++ a ∷ []) ≡ words_from w s
  unfolding words_from
  words-trail [] [] = rw ha
  words-trail (d ∷ w) [] = rw ha
  words-trail [] (x ∷ s) = ground (arith, words-trail [] s, words-trail (x ∷ []) s)
  words-trail (d ∷ w) (x ∷ s) = ground (arith, words-trail [] s, words-trail (x ∷ d ∷ w) s)

map-case_blind : (s : List ℕ) → map spaced (upper s) ≡ map spaced s
map-case_blind [] = refl
map-case_blind (c ∷ s) = cc (case_blind c, map-case_blind s)

by_words :
    (s t : List ℕ)
    → words_from [] (map spaced s) ≡ words_from [] (map spaced t)
    → normalized_order s ≡ normalized_order t
unfolding split
by_words s t h = normalized_order-eq s ∙ ap join_words h ∙ sym (normalized_order-eq t)

-- The letter case of an ASCII letter, separators (`_`, `-`, `/` and white space) at either end, and
-- the number and kind of the separators between two words have no effect on the normalized order.
pub normalized_order-ignores :
    (s t : List ℕ) (a b : ℕ)
    → IsSeparator a
    → IsSeparator b
    → (normalized_order (upper s) ≡ normalized_order s)
      × (normalized_order (a ∷ s) ≡ normalized_order s)
      × (normalized_order (s ++ a ∷ []) ≡ normalized_order s)
      × (normalized_order (s ++ a ∷ b ∷ t) ≡ normalized_order (s ++ b' ' ∷ t))
unfolding is_space
normalized_order-ignores s t a b ha hb =
    let pa = spaced-separator a ha in
    let pb = spaced-separator b hb in
    (
      by_words _ _ (ap (words_from []) (map-case_blind s)),
      by_words _ _ (words-lead (spaced a) pa (map spaced s)),
      by_words _ _ (rw map-append (words-trail (spaced a) pa [] (map spaced s))),
      by_words _ _ (
          rw (map-append, map-append)
            (words-run (spaced a) (spaced b) (spaced b' ') pa pb
              (spaced-separator b' ' (space refl)) [] (map spaced s) (map spaced t))),
    )
