-- ===== src/Board/Validate.antt =====
-- The validators of src/domains/board.c. Each is a chain of tests, the first of which to fail makes
-- it return WHAD_ERROR; the constants are the bounds and array sizes of whad/protocol/board/board.pb.h.
use whad_lib.Prelude.{
  ℕ, zero, suc, ◌+◌, ◌*◌, ◌/◌, ◌%◌, ◌^◌, Bool, true, false, ◌&&◌, ◌||◌, List, [], ◌∷◌, leb, ◌==◌,
  take, ℤ, pos, leb_ℤ, Status, success, error,
}
use whad_lib.Protocol.Sensors.{
  ListSensorsResponse, SensorDescriptor, SensorSample, CalibrationResponse,
}
use whad_lib.Protocol.Pins.{
  LeaseToken, SetOutputRequest, I2cTransferRequest, I2cTransferResponse, GpioConfigureRequest,
  GpioConfigureResponse, GpioReadRequest, GpioReadResponse, GpioWriteRequest, AdcReadResponse,
}
use whad_lib.Protocol.Inputs.{InputStateResponse, ConfigureInputRequest}
use whad_lib.Protocol.Runtime.{GetBoardInfoResponse, CommandResult}

-- `if (!test) return WHAD_ERROR;` before the rest.
abbrev pub require : Bool → Status → Status
require true rest = rest
require false rest = error

-- `if (has_lease) return whad_board_validate_lease(&lease);` before the rest, and its kin.
abbrev pub return_if : Bool → Status → Status → Status
return_if true result rest = result
return_if false result rest = rest

-- `whad_board_validate_ok`, on a pointer that is not NULL.
unfoldable pub validate_ok {ℓ} : {A : Type ℓ} → A → Status
validate_ok _ = success

-- The search of `memchr(p_text, '\0', count)`.
unfoldable pub has_nul : List ℕ → Bool
has_nul [] = false
has_nul (c ∷ cs) = c == 0 || has_nul cs

unfoldable pub valid_string : List ℕ → ℕ → Bool
valid_string text capacity = has_nul (take capacity text)

unfoldable pub valid_enum : ℤ → ℕ → ℕ → Bool
valid_enum value min max = leb_ℤ (pos min) value && leb_ℤ value (pos max)

-- The sum is of 64 bits, so that of two 32-bit numbers is exact.
unfoldable pub valid_span : ℕ → ℕ → ℕ → Bool
valid_span offset count total = total == 0 || leb ((offset + count) % 2 ^ 64) total

unfoldable pub validate_lease : LeaseToken → Status
validate_lease l = require (valid_enum l.resource 0 6) success

unfoldable pub validate_command_result : CommandResult → Status
validate_command_result r =
    require (valid_enum r.command 0 27)
      (require (valid_enum r.result 0 14) (require (valid_string r.detail 96) success))

unfoldable pub validate_board_info : GetBoardInfoResponse → Status
validate_board_info r = require (valid_string r.board_name 32) (
    require (valid_string r.hardware_revision 32) (
      require (valid_string r.firmware_version 32) (
        require (valid_string r.protocol_variant 32)
          (require (leb r.device_id.size 16) (require (valid_enum r.active_runtime 0 2) success)))))

-- The loop over the first `count` component names, each an array of 16 characters.
unfoldable pub valid_names : ℕ → List (List ℕ) → Bool
valid_names zero names = true
valid_names (suc count) [] = true
valid_names (suc count) (name ∷ names) = valid_string name 16 && valid_names count names

unfoldable pub validate_sensor_descriptor_value : SensorDescriptor → Status
validate_sensor_descriptor_value d = require (valid_string d.name 32) (
    require (valid_string d.unit 32) (
      require (leb d.component_names_count 10) (
        require (valid_names d.component_names_count d.component_names)
          (require (leb d.supported_rates_millihz_count 8) success))))

unfoldable pub validate_sensor_descriptor : ListSensorsResponse → Status
validate_sensor_descriptor r =
    return_if r.has_descriptor (validate_sensor_descriptor_value r.descriptor) success

-- `status & ~flags`, where the seven flags are the bits 0 to 6, leaves the bits from 7 on.
unfoldable pub validate_sensor_sample : SensorSample → Status
validate_sensor_sample s =
    require (leb s.values_count 10) (require (s.status / 128 * 128 == 0) success)

unfoldable pub validate_calibration : CalibrationResponse → Status
validate_calibration r = require (leb r.calibration_data.size 128) success

unfoldable pub validate_set_output : SetOutputRequest → Status
validate_set_output r =
    require (valid_enum r.target 0 5) (return_if r.has_lease (validate_lease r.lease) success)

unfoldable pub validate_input_state : InputStateResponse → Status
validate_input_state r =
    require (valid_enum r.gesture 0 6) (require (valid_enum r.mode 0 4) success)

unfoldable pub validate_configure_input : ConfigureInputRequest → Status
validate_configure_input r = require (valid_enum r.mode 0 4) success

unfoldable pub validate_i2c_transfer : I2cTransferRequest → Status
validate_i2c_transfer r =
    require (leb r.write_data.size 512)
      (require (leb r.read_length 512) (return_if r.has_lease (validate_lease r.lease) success))

unfoldable pub validate_i2c_result : I2cTransferResponse → Status
validate_i2c_result r = require (valid_enum r.result 0 14) (
    require (leb r.read_data.size 512) (
      require (leb r.bytes_read r.read_data.size)
        (return_if r.has_lease (validate_lease r.lease) success)))

unfoldable pub validate_gpio_configure : GpioConfigureRequest → Status
validate_gpio_configure r =
    require (valid_enum r.direction 0 2)
      (require (valid_enum r.pull 0 3) (return_if r.has_lease (validate_lease r.lease) success))

unfoldable pub validate_gpio_read : GpioReadRequest → Status
validate_gpio_read r = return_if r.has_lease (validate_lease r.lease) success

unfoldable pub validate_gpio_write : GpioWriteRequest → Status
validate_gpio_write r = return_if r.has_lease (validate_lease r.lease) success

unfoldable pub validate_gpio_configured : GpioConfigureResponse → Status
validate_gpio_configured r =
    require (valid_enum r.result 0 14) (return_if r.has_lease (validate_lease r.lease) success)

unfoldable pub validate_gpio_value : GpioReadResponse → Status
validate_gpio_value r =
    require (valid_enum r.result 0 14) (return_if r.has_lease (validate_lease r.lease) success)

unfoldable pub validate_adc_value : AdcReadResponse → Status
validate_adc_value r = require (valid_enum r.result 0 14) success
