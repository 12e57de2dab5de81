-- ===== src/Codec/RoundTrip.antt =====
-- `decode_registers` on the registers that a device sends for a value.
use bbjsensescada.Common.{
  ℕ, ◌-◌, ◌*◌, ◌^◌, ◌<◌, ◌≡◌, refl, ap, ◌∙◌, List, some, arith, false, length, take-length, eq→eqb,
  ltb,
}
use bbjsensescada.Common.Int.{ℤ, pos, negsuc}
use bbjsensescada.Python.{ok}
use bbjsensescada.Python.Float.{of_ℤ}
use bbjsensescada.Python.Value.{Value, Repr}
use bbjsensescada.Codec.{
  DataType, int16, int32, registers_of, is_byte_swapped, is_word_swapped, prepare_registers,
  registers_to_bytes, unpack, big_endian, interpret, type_named, decode_as, decode_registers,
  signed,
}
use bbjsensescada.Codec.Bytes.{
  words, sent, prepare_in-sent, words-IsWord, length-words, length-registers_to_bytes,
  big_endian-words,
}

-- The registers of a device that holds the pattern w, n registers wide, and is configured with
-- these byte and word orders.
abbrev pub device_registers : Repr → ℕ → ℕ → Value → Value → List ℕ
device_registers R n w byte_order word_order =
    sent (is_byte_swapped R byte_order) (is_word_swapped R word_order) (words n w)

unpack_exact : (n : ℕ) (raw : List ℕ) → length raw ≡ n → unpack n raw ≡ ok (big_endian raw)
unfolding unpack
unpack_exact n raw h = rw (← h) (rw (take-length raw, eq→eqb (length raw) (length raw) refl))

not_short : (a b : ℕ) → a ≡ b → ltb a b ≡ false
not_short a b h = ground arith

length-bytes : (n w : ℕ) → length (registers_to_bytes (words n w)) ≡ 2 * n
length-bytes n w = length-registers_to_bytes (words n w) ∙ ap (λ k. 2 * k) (length-words n w)

decode_as-words :
    (t : DataType) (w : ℕ)
    → w < 65536 ^ registers_of t
    → decode_as t (registers_to_bytes (words (registers_of t) w)) ≡ interpret t w
unfolding decode_as
decode_as-words t w h =
    let n = registers_of t in
    let raw = registers_to_bytes (words n w) in
    let read : unpack (2 * n) raw ≡ ok w =
      unpack_exact (2 * n) raw (length-bytes n w) ∙ ap ok (big_endian-words n w h) in
    rw (not_short _ _ (length-bytes n w)) (rw read)

-- Whatever the configured byte and word order, a register block that encodes the pattern w of the
-- configured type decodes to the value of that pattern.
pub decode_registers-device_registers :
    (R : Repr) (t : DataType) (w : ℕ) (data_type byte_order word_order : Value)
    → type_named R data_type ≡ some t
    → w < 65536 ^ registers_of t
    → decode_registers R
        (device_registers R (registers_of t) w byte_order word_order)
        data_type
        byte_order
        word_order
      ≡ interpret t w
unfolding decode_registers prepare_registers
decode_registers-device_registers R t w data_type byte_order word_order named fits =
    rw (prepare_in-sent _ _ (words (registers_of t) w) (words-IsWord (registers_of t) w))
      (rw named (decode_as-words t w fits))

-- The two's complement pattern of an integer, at half = 2 ^ (bits - 1).
abbrev pub pattern_of : ℕ → ℤ → ℕ
pattern_of half (pos n) = n
pattern_of half (negsuc n) = 2 * half - 1 - n

abbrev pub FitsSigned : ℕ → ℤ → Type 0
FitsSigned half (pos n) = n < half
FitsSigned half (negsuc n) = n < half

signed-pattern_of : (half : ℕ) (z : ℤ) → FitsSigned half z → signed half (pattern_of half z) ≡ z
signed-pattern_of half (pos n) h = ground arith
signed-pattern_of half (negsuc n) h = ground arith

pattern_of-lt : (half : ℕ) (z : ℤ) → FitsSigned half z → pattern_of half z < 2 * half
pattern_of-lt half (pos n) h = omega arith
pattern_of-lt half (negsuc n) h = omega arith

-- Half the number of patterns of a signed type; 0 for the others, where nothing fits.
abbrev pub half_of : DataType → ℕ
half_of int16 = 2 ^ 15
half_of int32 = 2 ^ 31
half_of _ = 0

nothing_fits : (z : ℤ) → FitsSigned 0 z → ⊥
nothing_fits (pos n) h = omega arith
nothing_fits (negsuc n) h = omega arith

-- For the signed types (int16 and int32), whatever the byte and word order, the registers that hold
-- the two's complement of an integer in the type's range decode to that integer as a float.
pub decode_registers-signed :
    (R : Repr) (t : DataType) (z : ℤ) (data_type byte_order word_order : Value)
    → type_named R data_type ≡ some t
    → FitsSigned (half_of t) z
    → decode_registers R
        (device_registers R (registers_of t) (pattern_of (half_of t) z) byte_order word_order)
        data_type
        byte_order
        word_order
      ≡ of_ℤ z
unfolding interpret
decode_registers-signed R int16 z data_type byte_order word_order named fits =
    decode_registers-device_registers R int16 _ data_type byte_order word_order named
      (omega (arith, pattern_of-lt (2 ^ 15) z fits))
    ∙ ap of_ℤ (signed-pattern_of (2 ^ 15) z fits)
decode_registers-signed R int32 z data_type byte_order word_order named fits =
    decode_registers-device_registers R int32 _ data_type byte_order word_order named
      (omega (arith, pattern_of-lt (2 ^ 31) z fits))
    ∙ ap of_ℤ (signed-pattern_of (2 ^ 31) z fits)
decode_registers-signed R _ z data_type byte_order word_order named fits =
    absurd (nothing_fits z fits)
