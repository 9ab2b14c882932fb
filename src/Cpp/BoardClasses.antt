-- ===== src/Cpp/BoardClasses.antt =====
-- The 49 classes of src/cpp/domains/board, one per file.
use whad_lib.Protocol.Kind.{Kind}
use whad_lib.Protocol.Payload.{Payload}
use whad_lib.Prelude.{ℕ, Bool, Option}
use whad_lib.Cpp.{Heap, NanoPbMsg}
use whad_lib.Cpp.Board.{Object, Outcome, create, get_raw, parse}

-- The public methods of a class: its two constructors, the accessors, and `getRaw`.
pub record Class (k : Kind) : Type 0 where
  pub create : Bool → ℕ → Heap → Object k × Heap
  pub parse : NanoPbMsg → ℕ → Payload k → Heap → Outcome (Object k)
  pub get_request_id : Object k → ℕ
  pub get_value : Object k → Payload k
  pub get_raw : Object k → Heap → Outcome (Option ℕ)

abbrev pub class_of : (k : Kind) → Class k
class_of k = record {
  create = create k;
  parse = parse k;
  get_request_id = λ o. o.request_id;
  get_value = λ o. o.value;
  get_raw = get_raw k;
}

abbrev pub get_board_info_class : Class Kind.get_board_info
get_board_info_class = class_of Kind.get_board_info

abbrev pub list_sensors_class : Class Kind.list_sensors
list_sensors_class = class_of Kind.list_sensors

abbrev pub read_sensor_class : Class Kind.read_sensor
read_sensor_class = class_of Kind.read_sensor

abbrev pub configure_stream_class : Class Kind.configure_stream
configure_stream_class = class_of Kind.configure_stream

abbrev pub stop_stream_class : Class Kind.stop_stream
stop_stream_class = class_of Kind.stop_stream

abbrev pub calibrate_class : Class Kind.calibrate
calibrate_class = class_of Kind.calibrate

abbrev pub get_calibration_class : Class Kind.get_calibration
get_calibration_class = class_of Kind.get_calibration

abbrev pub set_output_class : Class Kind.set_output
set_output_class = class_of Kind.set_output

abbrev pub get_input_state_class : Class Kind.get_input_state
get_input_state_class = class_of Kind.get_input_state

abbrev pub configure_input_class : Class Kind.configure_input
configure_input_class = class_of Kind.configure_input

abbrev pub i2c_transfer_class : Class Kind.i2c_transfer
i2c_transfer_class = class_of Kind.i2c_transfer

abbrev pub gpio_configure_class : Class Kind.gpio_configure
gpio_configure_class = class_of Kind.gpio_configure

abbrev pub gpio_read_class : Class Kind.gpio_read
gpio_read_class = class_of Kind.gpio_read

abbrev pub gpio_write_class : Class Kind.gpio_write
gpio_write_class = class_of Kind.gpio_write

abbrev pub adc_read_class : Class Kind.adc_read
adc_read_class = class_of Kind.adc_read

abbrev pub spi_transfer_class : Class Kind.spi_transfer
spi_transfer_class = class_of Kind.spi_transfer

abbrev pub storage_info_class : Class Kind.storage_info
storage_info_class = class_of Kind.storage_info

abbrev pub storage_adopt_class : Class Kind.storage_adopt
storage_adopt_class = class_of Kind.storage_adopt

abbrev pub storage_read_log_class : Class Kind.storage_read_log
storage_read_log_class = class_of Kind.storage_read_log

abbrev pub storage_erase_log_class : Class Kind.storage_erase_log
storage_erase_log_class = class_of Kind.storage_erase_log

abbrev pub get_runtime_config_class : Class Kind.get_runtime_config
get_runtime_config_class = class_of Kind.get_runtime_config

abbrev pub set_runtime_config_class : Class Kind.set_runtime_config
set_runtime_config_class = class_of Kind.set_runtime_config

abbrev pub set_runtime_mode_class : Class Kind.set_runtime_mode
set_runtime_mode_class = class_of Kind.set_runtime_mode

abbrev pub remote_profile_get_class : Class Kind.remote_profile_get
remote_profile_get_class = class_of Kind.remote_profile_get

abbrev pub remote_profile_set_class : Class Kind.remote_profile_set
remote_profile_set_class = class_of Kind.remote_profile_set

abbrev pub audio_configure_class : Class Kind.audio_configure
audio_configure_class = class_of Kind.audio_configure

abbrev pub release_pin_class : Class Kind.release_pin
release_pin_class = class_of Kind.release_pin

abbrev pub raw_pcm_diagnostics_class : Class Kind.raw_pcm_diagnostics
raw_pcm_diagnostics_class = class_of Kind.raw_pcm_diagnostics

abbrev pub command_result_class : Class Kind.command_result
command_result_class = class_of Kind.command_result

abbrev pub board_info_class : Class Kind.board_info
board_info_class = class_of Kind.board_info

abbrev pub sensor_descriptor_class : Class Kind.sensor_descriptor
sensor_descriptor_class = class_of Kind.sensor_descriptor

abbrev pub sensor_sample_class : Class Kind.sensor_sample
sensor_sample_class = class_of Kind.sensor_sample

abbrev pub stream_configured_class : Class Kind.stream_configured
stream_configured_class = class_of Kind.stream_configured

abbrev pub calibration_class : Class Kind.calibration
calibration_class = class_of Kind.calibration

abbrev pub input_state_class : Class Kind.input_state
input_state_class = class_of Kind.input_state

abbrev pub i2c_result_class : Class Kind.i2c_result
i2c_result_class = class_of Kind.i2c_result

abbrev pub gpio_configured_class : Class Kind.gpio_configured
gpio_configured_class = class_of Kind.gpio_configured

abbrev pub gpio_value_class : Class Kind.gpio_value
gpio_value_class = class_of Kind.gpio_value

abbrev pub adc_value_class : Class Kind.adc_value
adc_value_class = class_of Kind.adc_value

abbrev pub spi_result_class : Class Kind.spi_result
spi_result_class = class_of Kind.spi_result

abbrev pub storage_status_class : Class Kind.storage_status
storage_status_class = class_of Kind.storage_status

abbrev pub runtime_config_class : Class Kind.runtime_config
runtime_config_class = class_of Kind.runtime_config

abbrev pub remote_profile_class : Class Kind.remote_profile
remote_profile_class = class_of Kind.remote_profile

abbrev pub audio_configured_class : Class Kind.audio_configured
audio_configured_class = class_of Kind.audio_configured

abbrev pub audio_chunk_class : Class Kind.audio_chunk
audio_chunk_class = class_of Kind.audio_chunk

abbrev pub input_event_class : Class Kind.input_event
input_event_class = class_of Kind.input_event

abbrev pub gesture_event_class : Class Kind.gesture_event
gesture_event_class = class_of Kind.gesture_event

abbrev pub log_chunk_class : Class Kind.log_chunk
log_chunk_class = class_of Kind.log_chunk

abbrev pub board_status_class : Class Kind.board_status
board_status_class = class_of Kind.board_status
