-- ===== src/Examples/Devices.antt =====
-- One device: its connection, the commands to it and its polls.
use bbjsensescada.Common.Int.{int_eq}
use bbjsensescada.Python.Text.{to_upper}
use bbjsensescada.Codec.{normalize_parity}
use bbjsensescada.Codec.{normalize_stop_bits}
use bbjsensescada.Python.Value.{truthy}
use bbjsensescada.Common.{string_eq}
use bbjsensescada.Modbus.{resolve_serial_port}
use bbjsensescada.Modbus.{create_serial_client}
use bbjsensescada.Common.{◌≡◌, refl, true, false, some, [], ◌∷◌}
use bbjsensescada.Common.Int.{pos}
use bbjsensescada.Python.{ok, ◌>>=◌}
use bbjsensescada.Python.Value.{int, item, to_int}
use bbjsensescada.Codec.{
  decode_registers, data_type_of, registers_to_bytes, prepare_registers, is_byte_swapped,
  is_word_swapped, interpret,
}
use bbjsensescada.Common.Dict.{lookup}
use bbjsensescada.Python.Value.{to_str, to_float}
use bbjsensescada.Python.Text.{to_lower}
use bbjsensescada.Modbus.{
  Client, serial, is_rtu, create_modbus_client, connection_of, communication_type,
}
use bbjsensescada.Modbus.Selection.{IsConfigured, create_modbus_client-IsConfigured}
use bbjsensescada.Commands
use bbjsensescada.Commands.{
  find_writable_tag, devices_of, execute_command, register, Write, accepted, run_on,
}
use bbjsensescada.Commands.Effects.{acks, writes}
use bbjsensescada.Commands.Outcome.{
  Verdict, IsAuthorised, execute_command-Verdict, execute_command-IsAuthorised,
}
use bbjsensescada.Commands.Bus.{closes_on_bus, run_on-closes}
use bbjsensescada.Poller
use bbjsensescada.Poller.{
  Sample, Stores, Quality, good, registers, measure, process_tag, run_device,
}
use bbjsensescada.Poller.Readings.{IsSample, Storable, Joins, measure-IsSample, process_tag-Joins}
use bbjsensescada.Poller.Cycle.{IsCycle, run_device-IsCycle}
use bbjsensescada.Examples.Inputs.{
  new-IsValid, answering, meter, stores, idle, settings, tag, connection, device, configuration,
  command, fifty,
}

abbrev line : Client
line = serial "COM6" (pos 9600) "N" 1

client_made : create_modbus_client settings [] connection ≡ ok line
unfolding create_modbus_client is_rtu create_serial_client resolve_serial_port string_eq truthy
    to_int normalize_stop_bits normalize_parity to_upper
client_made = refl

create_modbus_client-IsConfigured_example : IsConfigured settings [] connection line
create_modbus_client-IsConfigured_example =
    create_modbus_client-IsConfigured settings [] connection line client_made

tag_found : find_writable_tag configuration (pos 1) (pos 2) ≡ ok (some (device, tag))
unfolding find_writable_tag string_eq Commands.search_devices to_int int_eq Commands.search_tags
tag_found = refl

execute_command-Verdict_example :
    Verdict answering (execute_command settings answering command configuration)
execute_command-Verdict_example = execute_command-Verdict settings answering command configuration

command-writes :
    writes (execute_command settings answering command configuration).0
    ≡ register (pos 140) (pos 42) (pos 3) ∷ []
unfolding execute_command Commands.execute_ids string_eq to_int to_str truthy Commands.dispatch
    find_writable_tag Commands.search_devices int_eq Commands.search_tags run_on Commands.conclude
    Commands.try_block communication_type is_rtu Commands.ack_command Commands.talk
    Commands.write_command_value Commands.write_of create_modbus_client create_serial_client
    resolve_serial_port normalize_stop_bits normalize_parity to_upper
command-writes = refl

command_succeeds :
    acks (execute_command settings answering command configuration).0 ≡ "success" ∷ []
unfolding execute_command Commands.execute_ids string_eq to_int to_str truthy Commands.dispatch
    find_writable_tag Commands.search_devices int_eq Commands.search_tags run_on Commands.conclude
    Commands.try_block communication_type is_rtu Commands.ack_command Commands.talk
    Commands.write_command_value Commands.write_of create_modbus_client create_serial_client
    resolve_serial_port normalize_stop_bits normalize_parity to_upper
command_succeeds = refl

execute_command-IsAuthorised_example : IsAuthorised settings command configuration
execute_command-IsAuthorised_example =
    execute_command-IsAuthorised settings answering command configuration
      (register (pos 140) (pos 42) (pos 3)) [] command-writes

device_known : (item "id" device >>= to_int) ≡ ok (pos 1)
unfolding to_int string_eq
device_known = refl

device_connects : connection_of device ≡ ok connection
unfolding truthy string_eq
device_connects = refl

device_speaks : communication_type settings device ≡ ok []
unfolding communication_type truthy string_eq
device_speaks = refl

speaks_rtu : is_rtu [] ≡ true
unfolding is_rtu
speaks_rtu = refl

run_on-closes_example :
    closes_on_bus false
      (run_on settings answering (int (pos 7)) "write_register" (int (pos 42)) (device, tag)).0
    ≡ false
run_on-closes_example =
    run_on-closes settings answering (int (pos 7)) "write_register" (int (pos 42)) device tag
      connection (pos 1) [] line device_known device_connects device_speaks speaks_rtu client_made

abbrev sample : Sample
sample = record { device_id = pos 1; tag_id = pos 2; value = fifty; quality = good }

meter_read : measure settings meter line device tag ≡ ok (some sample)
unfolding measure string_eq to_int truthy int_eq Poller.resolve_word_order decode_registers
    data_type_of to_str to_lower registers_to_bytes prepare_registers is_byte_swapped
    is_word_swapped lookup interpret to_float Poller.limit_of Poller.quality_in
meter_read = refl

measure-IsSample_example : IsSample settings tag sample
measure-IsSample_example = measure-IsSample settings meter line device tag sample meter_read

sample-Storable : Storable meter sample stores.queue
sample-Storable = record { device_fits = refl; tag_fits = refl; fresh = refl }

process_tag-Joins_example :
    (after : Stores) × (process_tag settings meter line device tag stores ≡ ok after)
    × Joins meter sample stores after
process_tag-Joins_example =
    process_tag-Joins settings meter line device tag stores sample meter_read sample-Storable

run_device-IsCycle_example :
    IsCycle (pos 1) idle (run_device settings meter false fifty device idle)
run_device-IsCycle_example =
    run_device-IsCycle settings meter fifty device (pos 1) idle new-IsValid device_known
