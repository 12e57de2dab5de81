-- ===== src/Diagnose/Agreement.antt =====
-- The tool's decoder beside the poller's.
use bbjsensescada.Common.{
  ℕ, ◌*◌, ◌≡◌, ◌↔◌, List, true, Option, none, some, String, arith, length, length-take, ltb,
  Bool-cases, inl, inr,
}
use bbjsensescada.Python.{ok, err, struct_error}
use bbjsensescada.Python.Float.{Float}
use bbjsensescada.Python.Value.{Value, Repr, to_str}
use bbjsensescada.Codec
use bbjsensescada.Codec.{
  DataType, registers_of, unpack, interpret, type_named, registers_to_bytes, prepare_registers,
}
use bbjsensescada.Diagnose.{decode_registers, unpack_as}

unpack_short :
    (n : ℕ) (raw : List ℕ)
    → ltb (length raw) n ≡ true
    → unpack n raw ≡ err (struct_error "unpack requires a longer buffer")
unfolding unpack
unpack_short n raw h = ground (arith, length-take n raw)

same_bytes :
    (name : String) (o : Option DataType) (raw : List ℕ) (x : Float)
    → (unpack_as name o raw ≡ ok x) ↔ (Codec.decode_bytes name o raw ≡ ok x)
unfolding unpack_as Codec.decode_bytes Codec.decode_as
same_bytes name none raw x = (λ e. e, λ e. e)
same_bytes name (some t) raw x = elim (Bool-cases (ltb (length raw) (2 * registers_of t))) [
  | inl short ↦ rw (short, unpack_short _ raw short) (λ e. cc, λ e. cc)
  | inr long ↦ rw long (λ e. e, λ e. e)
]

-- On any registers and any configuration, the diagnostic tool decodes to a value exactly when the
-- poller does, and to the same value.
pub decode_registers-agrees :
    (R : Repr) (registers : List ℕ) (data_type byte_order word_order : Value) (x : Float)
    → (decode_registers R registers data_type byte_order word_order ≡ ok x)
      ↔ (Codec.decode_registers R registers data_type byte_order word_order ≡ ok x)
unfolding decode_registers Codec.decode_registers
decode_registers-agrees R registers data_type byte_order word_order x =
    same_bytes (to_str R data_type) (type_named R data_type)
      (registers_to_bytes (prepare_registers R registers byte_order word_order)) x
