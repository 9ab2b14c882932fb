-- ===== src/Cpp/ClassLaws.antt =====
-- The 49 classes together: each behaves as the functions of its type of message.
use whad_lib.Prelude.{ℕ, ◌≡◌, refl, sym, subst, true, none, some}
use whad_lib.Protocol.Kind.{Kind}
use whad_lib.Protocol.Payload.{Payload}
use whad_lib.Board.WellFormed.{WellFormed, In32Bits}
use whad_lib.Cpp.{Heap, destroy}
use whad_lib.Cpp.Board.{returned, set_value, board_msg_of}
use whad_lib.Cpp.Lifetime.{object-round_trip}
use whad_lib.Cpp.BoardClasses.{
  Class, class_of, get_board_info_class, list_sensors_class, read_sensor_class,
  configure_stream_class, stop_stream_class, calibrate_class, get_calibration_class,
  set_output_class, get_input_state_class, configure_input_class, i2c_transfer_class,
  gpio_configure_class, gpio_read_class, gpio_write_class, adc_read_class, spi_transfer_class,
  storage_info_class, storage_adopt_class, storage_read_log_class, storage_erase_log_class,
  get_runtime_config_class, set_runtime_config_class, set_runtime_mode_class,
  remote_profile_get_class, remote_profile_set_class, audio_configure_class, release_pin_class,
  raw_pcm_diagnostics_class, command_result_class, board_info_class, sensor_descriptor_class,
  sensor_sample_class, stream_configured_class, calibration_class, input_state_class,
  i2c_result_class, gpio_configured_class, gpio_value_class, adc_value_class, spi_result_class,
  storage_status_class, runtime_config_class, remote_profile_class, audio_configured_class,
  audio_chunk_class, input_event_class, gesture_event_class, log_chunk_class, board_status_class,
}

-- The class of a type of message.
unfoldable pub board_class : (k : Kind) → Class k
board_class Kind.get_board_info = get_board_info_class
board_class Kind.list_sensors = list_sensors_class
board_class Kind.read_sensor = read_sensor_class
board_class Kind.configure_stream = configure_stream_class
board_class Kind.stop_stream = stop_stream_class
board_class Kind.calibrate = calibrate_class
board_class Kind.get_calibration = get_calibration_class
board_class Kind.set_output = set_output_class
board_class Kind.get_input_state = get_input_state_class
board_class Kind.configure_input = configure_input_class
board_class Kind.i2c_transfer = i2c_transfer_class
board_class Kind.gpio_configure = gpio_configure_class
board_class Kind.gpio_read = gpio_read_class
board_class Kind.gpio_write = gpio_write_class
board_class Kind.adc_read = adc_read_class
board_class Kind.spi_transfer = spi_transfer_class
board_class Kind.storage_info = storage_info_class
board_class Kind.storage_adopt = storage_adopt_class
board_class Kind.storage_read_log = storage_read_log_class
board_class Kind.storage_erase_log = storage_erase_log_class
board_class Kind.get_runtime_config = get_runtime_config_class
board_class Kind.set_runtime_config = set_runtime_config_class
board_class Kind.set_runtime_mode = set_runtime_mode_class
board_class Kind.remote_profile_get = remote_profile_get_class
board_class Kind.remote_profile_set = remote_profile_set_class
board_class Kind.audio_configure = audio_configure_class
board_class Kind.release_pin = release_pin_class
board_class Kind.raw_pcm_diagnostics = raw_pcm_diagnostics_class
board_class Kind.command_result = command_result_class
board_class Kind.board_info = board_info_class
board_class Kind.sensor_descriptor = sensor_descriptor_class
board_class Kind.sensor_sample = sensor_sample_class
board_class Kind.stream_configured = stream_configured_class
board_class Kind.calibration = calibration_class
board_class Kind.input_state = input_state_class
board_class Kind.i2c_result = i2c_result_class
board_class Kind.gpio_configured = gpio_configured_class
board_class Kind.gpio_value = gpio_value_class
board_class Kind.adc_value = adc_value_class
board_class Kind.spi_result = spi_result_class
board_class Kind.storage_status = storage_status_class
board_class Kind.runtime_config = runtime_config_class
board_class Kind.remote_profile = remote_profile_class
board_class Kind.audio_configured = audio_configured_class
board_class Kind.audio_chunk = audio_chunk_class
board_class Kind.input_event = input_event_class
board_class Kind.gesture_event = gesture_event_class
board_class Kind.log_chunk = log_chunk_class
board_class Kind.board_status = board_status_class

same_class : (k : Kind) → board_class k ≡ class_of k
unfolding board_class
same_class Kind.get_board_info = refl
same_class Kind.list_sensors = refl
same_class Kind.read_sensor = refl
same_class Kind.configure_stream = refl
same_class Kind.stop_stream = refl
same_class Kind.calibrate = refl
same_class Kind.get_calibration = refl
same_class Kind.set_output = refl
same_class Kind.get_input_state = refl
same_class Kind.configure_input = refl
same_class Kind.i2c_transfer = refl
same_class Kind.gpio_configure = refl
same_class Kind.gpio_read = refl
same_class Kind.gpio_write = refl
same_class Kind.adc_read = refl
same_class Kind.spi_transfer = refl
same_class Kind.storage_info = refl
same_class Kind.storage_adopt = refl
same_class Kind.storage_read_log = refl
same_class Kind.storage_erase_log = refl
same_class Kind.get_runtime_config = refl
same_class Kind.set_runtime_config = refl
same_class Kind.set_runtime_mode = refl
same_class Kind.remote_profile_get = refl
same_class Kind.remote_profile_set = refl
same_class Kind.audio_configure = refl
same_class Kind.release_pin = refl
same_class Kind.raw_pcm_diagnostics = refl
same_class Kind.command_result = refl
same_class Kind.board_info = refl
same_class Kind.sensor_descriptor = refl
same_class Kind.sensor_sample = refl
same_class Kind.stream_configured = refl
same_class Kind.calibration = refl
same_class Kind.input_state = refl
same_class Kind.i2c_result = refl
same_class Kind.gpio_configured = refl
same_class Kind.gpio_value = refl
same_class Kind.adc_value = refl
same_class Kind.spi_result = refl
same_class Kind.storage_status = refl
same_class Kind.runtime_config = refl
same_class Kind.remote_profile = refl
same_class Kind.audio_configured = refl
same_class Kind.audio_chunk = refl
same_class Kind.input_event = refl
same_class Kind.gesture_event = refl
same_class Kind.log_chunk = refl
same_class Kind.board_status = refl

-- What an object of a class goes through: created, given a value and packed; its message parsed by the
-- class; and both objects destroyed.
abbrev pub RoundTrip : (k : Kind) → Payload k → Heap → ℕ → ℕ → Payload k → Class k → Type 0
RoundTrip k v h id rid old c =
    (h2 : Heap) × (h3 : Heap) × (c.get_raw (set_value k v (c.create true id h).0)
        (c.create true id h).1
      ≡ returned (some h.next) h2)
    × (c.parse (board_msg_of (some h.next)) rid old h2
        ≡ returned (record { base = board_msg_of (some h.next); request_id = id; value = v }) h2)
    × (destroy (board_msg_of (some h.next)) h2 ≡ some h2)
    × (destroy (c.create true id h).0.base h2 ≡ some h3)
    × ((b : ℕ) → h3.cells b ≡ h.cells b)

-- In each of the 49 classes, on a heap whose next address is not live: an object that was created with
-- memory at hand, was given a well-formed value and was packed yields the pointer to its message. The
-- class, constructed from a wrapper of that pointer, has the request identifier and the value;
-- destroying it leaves the heap as it is, and destroying the first object then gives back the heap as
-- it was before.
pub class-RoundTrip :
    (k : Kind) (v : Payload k)
    → In32Bits k v
    → WellFormed k v
    → (h : Heap) → h.cells h.next ≡ none
    → (id rid : ℕ) (old : Payload k) → RoundTrip k v h id rid old (board_class k)
class-RoundTrip k v w f h free_next id rid old =
    subst (RoundTrip k v h id rid old) (sym (same_class k))
      (object-round_trip k v w f h free_next id rid old)
