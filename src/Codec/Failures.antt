-- ===== src/Codec/Failures.antt =====
-- When `decode_registers` returns a value.
use mathlib.Core.List.{reverse}
use bbjsensescada.Common.{
  ℕ, ◌-◌, ◌*◌, ◌^◌, ◌<◌, ◌≤◌, ◌≡◌, refl, ◌∙◌, ◌↔◌, Bool, true, false, List, some, arith, length,
  take, length-take, length-map, length-reverse, eq→eqb, ltb, Bool-cases, Option-cases, inl, inr,
}
use bbjsensescada.Python.{ok}
use bbjsensescada.Python.Float.{Float, of_ℤ}
use bbjsensescada.Python.Float.Bounds.{of_ℤ-pos, of_ℤ-negsuc}
use bbjsensescada.Python.Value.{Value, Repr}
use bbjsensescada.Codec.{
  DataType, float32, float64, int16, uint16, int32, uint32, registers_of, prepare_in,
  prepare_registers, registers_to_bytes, big_endian, unpack, interpret, type_named, decode_as,
  decode_bytes, decode_registers, signed, is_byte_swapped, is_word_swapped,
}
use bbjsensescada.Codec.Bytes.{length-registers_to_bytes, big_endian-lt, take-registers_to_bytes}

length-prepare_in : (b w : Bool) (rs : List ℕ) → length (prepare_in b w rs) ≡ length rs
length-prepare_in true true rs = length-map _ (reverse rs) ∙ length-reverse rs
length-prepare_in true false rs = length-map _ rs
length-prepare_in false true rs = length-reverse rs
length-prepare_in false false rs = refl

of_ℤ-signed :
    (half w : ℕ) → half ≤ 2 ^ 31 → w < 2 * half → (x : Float) × (of_ℤ (signed half w) ≡ ok x)
of_ℤ-signed half w h fits = elim (Bool-cases (ltb w half)) [
  | inl low ↦ rw low (of_ℤ-pos w (omega arith))
  | inr high ↦ rw high (of_ℤ-negsuc (2 * half - w - 1) (ground arith))
]

interpret_total :
    (t : DataType) (w : ℕ) → w < 65536 ^ registers_of t → (x : Float) × (interpret t w ≡ ok x)
unfolding interpret
interpret_total float32 w h = (_, refl)
interpret_total float64 w h = (_, refl)
interpret_total int16 w h = of_ℤ-signed (2 ^ 15) w (omega arith) (omega arith)
interpret_total uint16 w h = of_ℤ-pos w (omega arith)
interpret_total int32 w h = of_ℤ-signed (2 ^ 31) w (omega arith) (omega arith)
interpret_total uint32 w h = of_ℤ-pos w (omega arith)

-- The bytes of registers that are enough for n of them.
unpack_enough :
    (n : ℕ) (rs : List ℕ)
    → n ≤ length rs
    → (w : ℕ) × (unpack (2 * n) (registers_to_bytes rs) ≡ ok w) × (w < 65536 ^ n)
unfolding unpack
unpack_enough n rs h =
    let used = registers_to_bytes (take n rs) in
    let size : length used ≡ 2 * n =
      omega (arith, length-registers_to_bytes (take n rs), length-take n rs) in
    let below : big_endian used < 65536 ^ length (take n rs) = big_endian-lt (take n rs) in
    let whole : length (take n rs) ≡ n = omega (arith, length-take n rs) in
    (big_endian used, rw (take-registers_to_bytes n rs) (rw (eq→eqb _ _ size)), rw whole at below)

decode_as_enough :
    (t : DataType) (rs : List ℕ)
    → registers_of t ≤ length rs
    → (x : Float) × (decode_as t (registers_to_bytes rs) ≡ ok x)
unfolding decode_as
decode_as_enough t rs h =
    let (w, read, fits) = unpack_enough (registers_of t) rs h in
    let (x, e) = interpret_total t w fits in
    let long : ltb (length (registers_to_bytes rs)) (2 * registers_of t) ≡ false =
      ground (arith, length-registers_to_bytes rs) in
    (x, rw long (rw read e))

decode_as_short :
    (t : DataType) (rs : List ℕ) (x : Float)
    → decode_as t (registers_to_bytes rs) ≡ ok x
    → registers_of t ≤ length rs
unfolding decode_as
decode_as_short t rs x h =
    elim (Bool-cases (ltb (length (registers_to_bytes rs)) (2 * registers_of t))) [
      | inl short ↦ absurd (cc (short, h))
      | inr long ↦ ground (arith, length-registers_to_bytes rs)
    ]

-- `decode_registers` returns a value exactly when the type is one that it knows and the device sent
-- enough registers for it, whatever the byte and word orders are.
pub decode_registers_iff :
    (R : Repr) (registers : List ℕ) (data_type byte_order word_order : Value)
    → ((x : Float) × (decode_registers R registers data_type byte_order word_order ≡ ok x))
      ↔ ((t : DataType) × (type_named R data_type ≡ some t) × (registers_of t ≤ length registers))
unfolding decode_registers decode_bytes prepare_registers
decode_registers_iff R registers data_type byte_order word_order =
    let prepared =
      prepare_in (is_byte_swapped R byte_order) (is_word_swapped R word_order) registers in
    let same : length prepared ≡ length registers = length-prepare_in _ _ registers in
    (
      λ (x, e). elim (Option-cases (type_named R data_type)) [
        | inl unknown ↦ absurd (cc (rw unknown at e))
        | inr (t, known) ↦ (t, known, rw same at (decode_as_short t prepared x (rw known at e)))
      ],
      λ (t, known, enough). rw known (decode_as_enough t prepared (rw same enough)),
    )
