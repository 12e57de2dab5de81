-- ===== src/Codec/Bytes.antt =====
-- The byte level of `decode_registers`: words, bytes and patterns.
use mathlib.Core.List.{reverse, reverse-reverse, foldl, foldl-append}
use mathlib.Core.Path.{ap₂}
use native.Mathlib.Nat.{pow-suc, mul-le-mul_right}
use bbjsensescada.Common.{
  ℕ, zero, suc, ◌+◌, ◌*◌, ◌/◌, ◌%◌, ◌^◌, ◌<◌, ◌≤◌, ◌≡◌, refl, ap, ◌∙◌, Bool, true, false, List, [],
  ◌∷◌, ◌++◌, map, arith, length, take, length-append, if◌then◌else◌, All, All-append,
}
use bbjsensescada.Codec.{swap_bytes_in_words, prepare_in, registers_to_bytes, big_endian}

-- The n words of a pattern, the most significant first: the registers of a device that uses
-- neither swap.
abbrev pub words : ℕ → ℕ → List ℕ
words zero w = []
words (suc n) w = words n (w / 65536) ++ w % 65536 ∷ []

pub length-words : (n w : ℕ) → length (words n w) ≡ n
length-words zero w = refl
length-words (suc n) w =
    omega
      (arith, length-append {0} (words n (w / 65536)) (w % 65536 ∷ []), length-words n (w / 65536))

pub words-IsWord : (n w : ℕ) → All (λ r. r < 65536) (words n w)
words-IsWord zero w = tt
words-IsWord (suc n) w =
    All-append _ (words n (w / 65536)) _ (words-IsWord n (w / 65536)) (omega arith, tt)

-- Swapping the bytes of every word twice leaves the low 16 bits of each register.
pub swap_bytes_in_words-swap_bytes_in_words :
    (rs : List ℕ) → swap_bytes_in_words (swap_bytes_in_words rs) ≡ map (λ r. r % 65536) rs
swap_bytes_in_words-swap_bytes_in_words [] = refl
swap_bytes_in_words-swap_bytes_in_words (r ∷ rs) =
    ap₂ (λ x xs. x ∷ xs) (omega arith) (swap_bytes_in_words-swap_bytes_in_words rs)

map-mod_of_words : (rs : List ℕ) → All (λ r. r < 65536) rs → map (λ r. r % 65536) rs ≡ rs
map-mod_of_words [] h = refl
map-mod_of_words (r ∷ rs) (h, hs) = ap₂ (λ x xs. x ∷ xs) (omega arith) (map-mod_of_words rs hs)

-- The registers of a device with the given swaps.
abbrev pub sent : Bool → Bool → List ℕ → List ℕ
sent bytes_swapped words_swapped ws =
    let swapped = if bytes_swapped then swap_bytes_in_words ws else ws in
    if words_swapped then reverse swapped else swapped

-- The preparation undoes both swaps.
pub prepare_in-sent :
    (bytes_swapped words_swapped : Bool) (ws : List ℕ)
    → All (λ r. r < 65536) ws
    → prepare_in bytes_swapped words_swapped (sent bytes_swapped words_swapped ws) ≡ ws
prepare_in-sent true true ws h =
    rw reverse-reverse (swap_bytes_in_words-swap_bytes_in_words ws ∙ map-mod_of_words ws h)
prepare_in-sent true false ws h = swap_bytes_in_words-swap_bytes_in_words ws ∙ map-mod_of_words ws h
prepare_in-sent false true ws h = reverse-reverse ws
prepare_in-sent false false ws h = refl

pub length-registers_to_bytes : (rs : List ℕ) → length (registers_to_bytes rs) ≡ 2 * length rs
unfolding registers_to_bytes
length-registers_to_bytes [] = refl
length-registers_to_bytes (r ∷ rs) = omega (arith, length-registers_to_bytes rs)

abbrev by_words : ℕ → List ℕ → ℕ
by_words = foldl (λ acc r. acc * 65536 + r % 65536)

foldl-registers_to_bytes :
    (rs : List ℕ) (acc : ℕ)
    → foldl (λ a b. a * 256 + b) acc (registers_to_bytes rs) ≡ by_words acc rs
unfolding registers_to_bytes
foldl-registers_to_bytes [] acc = refl
foldl-registers_to_bytes (r ∷ rs) acc =
    foldl-registers_to_bytes rs ((acc * 256 + r % 65536 / 256) * 256 + r % 256)
    ∙ ap (λ a. by_words a rs) (omega arith)

by_words-words : (n w : ℕ) → w < 65536 ^ n → by_words 0 (words n w) ≡ w
by_words-words zero w h = omega arith
by_words-words (suc n) w h =
    let fits : w / 65536 < 65536 ^ n = omega (arith, pow-suc 65536 n) in
    rw foldl-append (omega (arith, by_words-words n (w / 65536) fits))

-- The bytes of the words of a pattern, read back in big-endian order.
pub big_endian-words : (n w : ℕ) → w < 65536 ^ n → big_endian (registers_to_bytes (words n w)) ≡ w
unfolding big_endian
big_endian-words n w h = foldl-registers_to_bytes (words n w) 0 ∙ by_words-words n w h

by_words-lt : (rs : List ℕ) (acc : ℕ) → by_words acc rs < (acc + 1) * 65536 ^ length rs
by_words-lt [] acc = omega arith
by_words-lt (r ∷ rs) acc =
    let p = 65536 ^ length rs in
    let step = by_words-lt rs (acc * 65536 + r % 65536) in
    let room : (acc * 65536 + r % 65536 + 1) * p ≤ (acc + 1) * 65536 * p =
      mul-le-mul_right p (omega arith) in
    rw (pow-suc 65536 (length rs)) (omega (arith, step, room))

pub big_endian-lt : (rs : List ℕ) → big_endian (registers_to_bytes rs) < 65536 ^ length rs
unfolding big_endian
big_endian-lt rs = omega (arith, foldl-registers_to_bytes rs 0, by_words-lt rs 0)

pub take-registers_to_bytes :
    (n : ℕ) (rs : List ℕ) → take (2 * n) (registers_to_bytes rs) ≡ registers_to_bytes (take n rs)
unfolding registers_to_bytes
take-registers_to_bytes zero rs = refl
take-registers_to_bytes (suc n) [] = let e : 2 * suc n ≡ suc (suc (2 * n)) = omega arith in rw e
take-registers_to_bytes (suc n) (r ∷ rs) =
    let e : 2 * suc n ≡ suc (suc (2 * n)) = omega arith in rw e (rw (take-registers_to_bytes n rs))
