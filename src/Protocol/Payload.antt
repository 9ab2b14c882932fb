-- ===== src/Protocol/Payload.antt =====
-- The struct of each member of the union of `board_Message`, and the union itself.
use whad_lib.Protocol.Sensors.{
  ListSensorsRequest, ReadSensorRequest, ConfigureStreamRequest, StopStreamRequest,
  CalibrateRequest, GetCalibrationRequest, ListSensorsResponse, SensorSample,
  ConfigureStreamResponse, CalibrationResponse, list_sensors_request_zero, read_sensor_request_zero,
  configure_stream_request_zero, stop_stream_request_zero, calibrate_request_zero,
  get_calibration_request_zero, list_sensors_response_zero, sensor_sample_zero,
  configure_stream_response_zero, calibration_response_zero,
}
use whad_lib.Protocol.Pins.{
  SetOutputRequest, I2cTransferRequest, GpioConfigureRequest, GpioReadRequest, GpioWriteRequest,
  AdcReadRequest, SpiTransferRequest, ReleasePinRequest, I2cTransferResponse, GpioConfigureResponse,
  GpioReadResponse, AdcReadResponse, SpiTransferResponse, set_output_request_zero,
  i2c_transfer_request_zero, gpio_configure_request_zero, gpio_read_request_zero,
  gpio_write_request_zero, adc_read_request_zero, spi_transfer_request_zero,
  release_pin_request_zero, i2c_transfer_response_zero, gpio_configure_response_zero,
  gpio_read_response_zero, adc_read_response_zero, spi_transfer_response_zero,
}
use whad_lib.Protocol.Inputs.{
  GetInputStateRequest, ConfigureInputRequest, RemoteProfileGetRequest, RemoteProfileSetRequest,
  InputStateResponse, RemoteProfileResponse, InputEvent, GestureEvent, get_input_state_request_zero,
  configure_input_request_zero, remote_profile_get_request_zero, remote_profile_set_request_zero,
  input_state_response_zero, remote_profile_response_zero, input_event_zero, gesture_event_zero,
}
use whad_lib.Protocol.Runtime.{
  GetBoardInfoRequest, GetRuntimeConfigRequest, SetRuntimeConfigRequest, SetRuntimeModeRequest,
  CommandResult, GetBoardInfoResponse, RuntimeConfigResponse, BoardStatus,
  get_board_info_request_zero, get_runtime_config_request_zero, set_runtime_config_request_zero,
  set_runtime_mode_request_zero, command_result_zero, get_board_info_response_zero,
  runtime_config_response_zero, board_status_zero,
}
use whad_lib.Protocol.Streams.{
  StorageInfoRequest, StorageAdoptRequest, StorageReadLogRequest, StorageEraseLogRequest,
  AudioConfigureRequest, RawPcmDiagnosticsRequest, StorageInfoResponse, AudioConfigureResponse,
  AudioChunk, LogChunk, storage_info_request_zero, storage_adopt_request_zero,
  storage_read_log_request_zero, storage_erase_log_request_zero, audio_configure_request_zero,
  raw_pcm_diagnostics_request_zero, storage_info_response_zero, audio_configure_response_zero,
  audio_chunk_zero, log_chunk_zero,
}
use whad_lib.Protocol.Kind.{Kind, tag, tag_injective}
use whad_lib.Prelude.{ℕ, Option, none, some, subst}
use native.Mathlib.Decide.{ℕ_discrete}

-- The type of a member, from `WHAD_BOARD_MESSAGE_LIST`.
abbrev pub Payload : Kind → Type 0
Payload Kind.get_board_info = GetBoardInfoRequest
Payload Kind.list_sensors = ListSensorsRequest
Payload Kind.read_sensor = ReadSensorRequest
Payload Kind.configure_stream = ConfigureStreamRequest
Payload Kind.stop_stream = StopStreamRequest
Payload Kind.calibrate = CalibrateRequest
Payload Kind.get_calibration = GetCalibrationRequest
Payload Kind.set_output = SetOutputRequest
Payload Kind.get_input_state = GetInputStateRequest
Payload Kind.configure_input = ConfigureInputRequest
Payload Kind.i2c_transfer = I2cTransferRequest
Payload Kind.gpio_configure = GpioConfigureRequest
Payload Kind.gpio_read = GpioReadRequest
Payload Kind.gpio_write = GpioWriteRequest
Payload Kind.adc_read = AdcReadRequest
Payload Kind.spi_transfer = SpiTransferRequest
Payload Kind.storage_info = StorageInfoRequest
Payload Kind.storage_adopt = StorageAdoptRequest
Payload Kind.storage_read_log = StorageReadLogRequest
Payload Kind.storage_erase_log = StorageEraseLogRequest
Payload Kind.get_runtime_config = GetRuntimeConfigRequest
Payload Kind.set_runtime_config = SetRuntimeConfigRequest
Payload Kind.set_runtime_mode = SetRuntimeModeRequest
Payload Kind.remote_profile_get = RemoteProfileGetRequest
Payload Kind.remote_profile_set = RemoteProfileSetRequest
Payload Kind.audio_configure = AudioConfigureRequest
Payload Kind.release_pin = ReleasePinRequest
Payload Kind.raw_pcm_diagnostics = RawPcmDiagnosticsRequest
Payload Kind.command_result = CommandResult
Payload Kind.board_info = GetBoardInfoResponse
Payload Kind.sensor_descriptor = ListSensorsResponse
Payload Kind.sensor_sample = SensorSample
Payload Kind.stream_configured = ConfigureStreamResponse
Payload Kind.calibration = CalibrationResponse
Payload Kind.input_state = InputStateResponse
Payload Kind.i2c_result = I2cTransferResponse
Payload Kind.gpio_configured = GpioConfigureResponse
Payload Kind.gpio_value = GpioReadResponse
Payload Kind.adc_value = AdcReadResponse
Payload Kind.spi_result = SpiTransferResponse
Payload Kind.storage_status = StorageInfoResponse
Payload Kind.runtime_config = RuntimeConfigResponse
Payload Kind.remote_profile = RemoteProfileResponse
Payload Kind.audio_configured = AudioConfigureResponse
Payload Kind.audio_chunk = AudioChunk
Payload Kind.input_event = InputEvent
Payload Kind.gesture_event = GestureEvent
Payload Kind.log_chunk = LogChunk
Payload Kind.board_status = BoardStatus

-- `memset(&value, 0, sizeof(value))`.
unfoldable pub zero_payload : (k : Kind) → Payload k
zero_payload Kind.get_board_info = get_board_info_request_zero
zero_payload Kind.list_sensors = list_sensors_request_zero
zero_payload Kind.read_sensor = read_sensor_request_zero
zero_payload Kind.configure_stream = configure_stream_request_zero
zero_payload Kind.stop_stream = stop_stream_request_zero
zero_payload Kind.calibrate = calibrate_request_zero
zero_payload Kind.get_calibration = get_calibration_request_zero
zero_payload Kind.set_output = set_output_request_zero
zero_payload Kind.get_input_state = get_input_state_request_zero
zero_payload Kind.configure_input = configure_input_request_zero
zero_payload Kind.i2c_transfer = i2c_transfer_request_zero
zero_payload Kind.gpio_configure = gpio_configure_request_zero
zero_payload Kind.gpio_read = gpio_read_request_zero
zero_payload Kind.gpio_write = gpio_write_request_zero
zero_payload Kind.adc_read = adc_read_request_zero
zero_payload Kind.spi_transfer = spi_transfer_request_zero
zero_payload Kind.storage_info = storage_info_request_zero
zero_payload Kind.storage_adopt = storage_adopt_request_zero
zero_payload Kind.storage_read_log = storage_read_log_request_zero
zero_payload Kind.storage_erase_log = storage_erase_log_request_zero
zero_payload Kind.get_runtime_config = get_runtime_config_request_zero
zero_payload Kind.set_runtime_config = set_runtime_config_request_zero
zero_payload Kind.set_runtime_mode = set_runtime_mode_request_zero
zero_payload Kind.remote_profile_get = remote_profile_get_request_zero
zero_payload Kind.remote_profile_set = remote_profile_set_request_zero
zero_payload Kind.audio_configure = audio_configure_request_zero
zero_payload Kind.release_pin = release_pin_request_zero
zero_payload Kind.raw_pcm_diagnostics = raw_pcm_diagnostics_request_zero
zero_payload Kind.command_result = command_result_zero
zero_payload Kind.board_info = get_board_info_response_zero
zero_payload Kind.sensor_descriptor = list_sensors_response_zero
zero_payload Kind.sensor_sample = sensor_sample_zero
zero_payload Kind.stream_configured = configure_stream_response_zero
zero_payload Kind.calibration = calibration_response_zero
zero_payload Kind.input_state = input_state_response_zero
zero_payload Kind.i2c_result = i2c_transfer_response_zero
zero_payload Kind.gpio_configured = gpio_configure_response_zero
zero_payload Kind.gpio_value = gpio_read_response_zero
zero_payload Kind.adc_value = adc_read_response_zero
zero_payload Kind.spi_result = spi_transfer_response_zero
zero_payload Kind.storage_status = storage_info_response_zero
zero_payload Kind.runtime_config = runtime_config_response_zero
zero_payload Kind.remote_profile = remote_profile_response_zero
zero_payload Kind.audio_configured = audio_configure_response_zero
zero_payload Kind.audio_chunk = audio_chunk_zero
zero_payload Kind.input_event = input_event_zero
zero_payload Kind.gesture_event = gesture_event_zero
zero_payload Kind.log_chunk = log_chunk_zero
zero_payload Kind.board_status = board_status_zero

-- The tagged union of `board_Message`: `which_msg` with the member that it names, or tag 0.
pub data Body : Type 0 where
  no_body : Body
  member : (k : Kind) → Payload k → Body

-- `board_Message`.
pub record BoardMessage : Type 0 where
  pub request_id : ℕ
  pub body : Body

-- `which_msg`.
abbrev pub which_msg : Body → ℕ
which_msg no_body = 0
which_msg (member k v) = tag k

-- The member `msg.<name>`, where `which_msg` says that the union holds it.
unfoldable pub read : (k : Kind) → Body → Option (Payload k)
read k no_body = none
read k (member j v) = elim (ℕ_discrete (tag j) (tag k)) [
  | yes e ↦ some (subst Payload (tag_injective j k e) v)
  | no _ ↦ none
]
