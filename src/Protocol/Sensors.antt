-- ===== src/Protocol/Sensors.antt =====
-- whad/protocol/board/board.pb.h: the structs of sensors and their streams.
-- A value named `…_zero` is the struct filled with zero bytes.
use whad_lib.Prelude.{ℕ, ℤ, pos, Bool, false, List, replicate}
use whad_lib.Protocol.Bytes.{Bytes, bytes_zero}

-- `board_ListSensorsRequest`.
pub record ListSensorsRequest : Type 0 where
  pub cursor : ℕ

unfoldable pub list_sensors_request_zero : ListSensorsRequest
list_sensors_request_zero = record { cursor = 0 }

-- `board_SensorDescriptor`.
pub record SensorDescriptor : Type 0 where
  pub sensor_id : ℕ
  pub name : List ℕ
  pub unit : List ℕ
  pub value_count : ℕ
  pub component_names_count : ℕ
  pub component_names : List (List ℕ)
  pub default_rate_millihz : ℕ
  pub min_rate_millihz : ℕ
  pub max_rate_millihz : ℕ
  pub supported_rates_millihz_count : ℕ
  pub supported_rates_millihz : List ℕ

unfoldable pub sensor_descriptor_zero : SensorDescriptor
sensor_descriptor_zero = record {
  sensor_id = 0;
  name = replicate 32 0;
  unit = replicate 32 0;
  value_count = 0;
  component_names_count = 0;
  component_names = replicate 10 (replicate 16 0);
  default_rate_millihz = 0;
  min_rate_millihz = 0;
  max_rate_millihz = 0;
  supported_rates_millihz_count = 0;
  supported_rates_millihz = replicate 8 0;
}

-- `board_ListSensorsResponse`.
pub record ListSensorsResponse : Type 0 where
  pub has_descriptor : Bool
  pub descriptor : SensorDescriptor
  pub next_cursor : ℕ
  pub eof : Bool

unfoldable pub list_sensors_response_zero : ListSensorsResponse
unfolding sensor_descriptor_zero
list_sensors_response_zero = record {
  has_descriptor = false;
  descriptor = sensor_descriptor_zero;
  next_cursor = 0;
  eof = false;
}

-- `board_ReadSensorRequest`.
pub record ReadSensorRequest : Type 0 where
  pub sensor_id : ℕ

unfoldable pub read_sensor_request_zero : ReadSensorRequest
read_sensor_request_zero = record { sensor_id = 0 }

-- `board_ConfigureStreamRequest`.
pub record ConfigureStreamRequest : Type 0 where
  pub sensor_id : ℕ
  pub rate_millihz : ℕ
  pub flags : ℕ

unfoldable pub configure_stream_request_zero : ConfigureStreamRequest
configure_stream_request_zero = record { sensor_id = 0; rate_millihz = 0; flags = 0 }

-- `board_ConfigureStreamResponse`.
pub record ConfigureStreamResponse : Type 0 where
  pub sensor_id : ℕ
  pub actual_rate_millihz : ℕ
  pub flags : ℕ

unfoldable pub configure_stream_response_zero : ConfigureStreamResponse
configure_stream_response_zero = record { sensor_id = 0; actual_rate_millihz = 0; flags = 0 }

-- `board_StopStreamRequest`.
pub record StopStreamRequest : Type 0 where
  pub sensor_id : ℕ

unfoldable pub stop_stream_request_zero : StopStreamRequest
stop_stream_request_zero = record { sensor_id = 0 }

-- `board_CalibrateRequest`.
pub record CalibrateRequest : Type 0 where
  pub sensor_id : ℕ
  pub flags : ℕ
  pub persist : Bool

unfoldable pub calibrate_request_zero : CalibrateRequest
calibrate_request_zero = record { sensor_id = 0; flags = 0; persist = false }

-- `board_GetCalibrationRequest`.
pub record GetCalibrationRequest : Type 0 where
  pub sensor_id : ℕ

unfoldable pub get_calibration_request_zero : GetCalibrationRequest
get_calibration_request_zero = record { sensor_id = 0 }

-- `board_CalibrationResponse`.
pub record CalibrationResponse : Type 0 where
  pub sensor_id : ℕ
  pub version : ℕ
  pub calibration_data : Bytes
  pub persisted : Bool
  pub crc32 : ℕ

unfoldable pub calibration_response_zero : CalibrationResponse
calibration_response_zero = record {
  sensor_id = 0;
  version = 0;
  calibration_data = bytes_zero 128;
  persisted = false;
  crc32 = 0;
}

-- `board_SensorSample`.
pub record SensorSample : Type 0 where
  pub sensor_id : ℕ
  pub sequence : ℕ
  pub timestamp_us : ℕ
  pub status : ℕ
  pub values_count : ℕ
  pub values : List ℤ

unfoldable pub sensor_sample_zero : SensorSample
sensor_sample_zero = record {
  sensor_id = 0;
  sequence = 0;
  timestamp_us = 0;
  status = 0;
  values_count = 0;
  values = replicate 10 (pos 0);
}
