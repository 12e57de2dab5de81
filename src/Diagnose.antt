-- ===== src/Diagnose.antt =====
-- diagnose_modbus.py: the tool's own copy of `decode_registers`. Its helpers (`normalize_parity` to
-- `registers_to_bytes`) repeat those of dynamic_modbus_poller.py line for line and are taken from
-- `Codec`; the decoder itself has no length tests.
pub mod Agreement
pub mod Serial
pub mod Tag
pub mod Scan
pub mod Requests
pub mod Held
pub mod Sweep
pub mod Report
pub mod Readout
use bbjsensescada.Common.{ℕ, ◌*◌, ◌<◌, ◌≡◌, List, String, ◌<>◌, Option, none, some}
use bbjsensescada.Python.{Result, err, value_error, ◌>>=◌}
use bbjsensescada.Python.Float.{Float}
use bbjsensescada.Python.Value.{Value, Repr, to_str}
use bbjsensescada.Codec.{
  DataType, registers_of, prepare_registers, registers_to_bytes, unpack, interpret, type_named,
}

unpack_as : String → Option DataType → List ℕ → Result Float
unpack_as name none raw = err (value_error ("Unsupported data type: " <> name))
unpack_as name (some t) raw = do w ← unpack (2 * registers_of t) raw; interpret t w

unfoldable pub decode_registers : Repr → List ℕ → Value → Value → Value → Result Float
unfolding unpack_as
decode_registers R registers data_type byte_order word_order =
    let raw_bytes = registers_to_bytes (prepare_registers R registers byte_order word_order) in
    unpack_as (to_str R data_type) (type_named R data_type) raw_bytes
