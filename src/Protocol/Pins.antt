-- ===== src/Protocol/Pins.antt =====
-- whad/protocol/board/board.pb.h: the structs of pins, buses, outputs and leases.
-- A value named `…_zero` is the struct filled with zero bytes.
use whad_lib.Prelude.{ℕ, ℤ, pos, Bool, false}
use whad_lib.Protocol.Bytes.{Bytes, bytes_zero}

-- `board_LeaseToken`.
pub record LeaseToken : Type 0 where
  pub resource : ℤ
  pub instance : ℕ
  pub generation : ℕ
  pub owner : ℕ

unfoldable pub lease_token_zero : LeaseToken
lease_token_zero = record { resource = pos 0; instance = 0; generation = 0; owner = 0 }

-- `board_SetOutputRequest`.
pub record SetOutputRequest : Type 0 where
  pub target : ℤ
  pub value : ℕ
  pub duration_ms : ℕ
  pub stop : Bool
  pub force : Bool
  pub has_lease : Bool
  pub lease : LeaseToken

unfoldable pub set_output_request_zero : SetOutputRequest
unfolding lease_token_zero
set_output_request_zero = record {
  target = pos 0;
  value = 0;
  duration_ms = 0;
  stop = false;
  force = false;
  has_lease = false;
  lease = lease_token_zero;
}

-- `board_I2cTransferRequest`.
pub record I2cTransferRequest : Type 0 where
  pub address : ℕ
  pub write_data : Bytes
  pub read_length : ℕ
  pub repeated_start : Bool
  pub frequency_hz : ℕ
  pub force : Bool
  pub has_lease : Bool
  pub lease : LeaseToken

unfoldable pub i2c_transfer_request_zero : I2cTransferRequest
unfolding lease_token_zero
i2c_transfer_request_zero = record {
  address = 0;
  write_data = bytes_zero 512;
  read_length = 0;
  repeated_start = false;
  frequency_hz = 0;
  force = false;
  has_lease = false;
  lease = lease_token_zero;
}

-- `board_I2cTransferResponse`.
pub record I2cTransferResponse : Type 0 where
  pub result : ℤ
  pub read_data : Bytes
  pub has_lease : Bool
  pub lease : LeaseToken
  pub bytes_written : ℕ
  pub bytes_read : ℕ

unfoldable pub i2c_transfer_response_zero : I2cTransferResponse
unfolding lease_token_zero
i2c_transfer_response_zero = record {
  result = pos 0;
  read_data = bytes_zero 512;
  has_lease = false;
  lease = lease_token_zero;
  bytes_written = 0;
  bytes_read = 0;
}

-- `board_GpioConfigureRequest`.
pub record GpioConfigureRequest : Type 0 where
  pub pin : ℕ
  pub direction : ℤ
  pub pull : ℤ
  pub initial_value : Bool
  pub force : Bool
  pub has_lease : Bool
  pub lease : LeaseToken

unfoldable pub gpio_configure_request_zero : GpioConfigureRequest
unfolding lease_token_zero
gpio_configure_request_zero = record {
  pin = 0;
  direction = pos 0;
  pull = pos 0;
  initial_value = false;
  force = false;
  has_lease = false;
  lease = lease_token_zero;
}

-- `board_GpioConfigureResponse`.
pub record GpioConfigureResponse : Type 0 where
  pub result : ℤ
  pub pin : ℕ
  pub has_lease : Bool
  pub lease : LeaseToken

unfoldable pub gpio_configure_response_zero : GpioConfigureResponse
unfolding lease_token_zero
gpio_configure_response_zero = record {
  result = pos 0;
  pin = 0;
  has_lease = false;
  lease = lease_token_zero;
}

-- `board_GpioReadRequest`.
pub record GpioReadRequest : Type 0 where
  pub pin : ℕ
  pub force : Bool
  pub has_lease : Bool
  pub lease : LeaseToken

unfoldable pub gpio_read_request_zero : GpioReadRequest
unfolding lease_token_zero
gpio_read_request_zero = record {
  pin = 0;
  force = false;
  has_lease = false;
  lease = lease_token_zero;
}

-- `board_GpioReadResponse`.
pub record GpioReadResponse : Type 0 where
  pub result : ℤ
  pub pin : ℕ
  pub value : Bool
  pub has_lease : Bool
  pub lease : LeaseToken

unfoldable pub gpio_read_response_zero : GpioReadResponse
unfolding lease_token_zero
gpio_read_response_zero = record {
  result = pos 0;
  pin = 0;
  value = false;
  has_lease = false;
  lease = lease_token_zero;
}

-- `board_GpioWriteRequest`.
pub record GpioWriteRequest : Type 0 where
  pub pin : ℕ
  pub value : Bool
  pub has_lease : Bool
  pub lease : LeaseToken

unfoldable pub gpio_write_request_zero : GpioWriteRequest
unfolding lease_token_zero
gpio_write_request_zero = record {
  pin = 0;
  value = false;
  has_lease = false;
  lease = lease_token_zero;
}

-- `board_AdcReadRequest`.
pub record AdcReadRequest : Type 0 where
  pub channel : ℕ
  pub samples : ℕ

unfoldable pub adc_read_request_zero : AdcReadRequest
adc_read_request_zero = record { channel = 0; samples = 0 }

-- `board_AdcReadResponse`.
pub record AdcReadResponse : Type 0 where
  pub result : ℤ
  pub channel : ℕ
  pub millivolts : ℤ
  pub raw : ℤ

unfoldable pub adc_read_response_zero : AdcReadResponse
adc_read_response_zero = record { result = pos 0; channel = 0; millivolts = pos 0; raw = pos 0 }

-- `board_SpiTransferRequest`.
pub record SpiTransferRequest : Type 0 where
  pub cs_pin : ℕ
  pub frequency_hz : ℕ
  pub mode : ℤ
  pub tx_data : Bytes
  pub read_length : ℕ
  pub force : Bool
  pub has_lease : Bool
  pub lease : LeaseToken

unfoldable pub spi_transfer_request_zero : SpiTransferRequest
unfolding lease_token_zero
spi_transfer_request_zero = record {
  cs_pin = 0;
  frequency_hz = 0;
  mode = pos 0;
  tx_data = bytes_zero 512;
  read_length = 0;
  force = false;
  has_lease = false;
  lease = lease_token_zero;
}

-- `board_SpiTransferResponse`.
pub record SpiTransferResponse : Type 0 where
  pub result : ℤ
  pub rx_data : Bytes
  pub has_lease : Bool
  pub lease : LeaseToken
  pub bytes_written : ℕ
  pub bytes_read : ℕ

unfoldable pub spi_transfer_response_zero : SpiTransferResponse
unfolding lease_token_zero
spi_transfer_response_zero = record {
  result = pos 0;
  rx_data = bytes_zero 512;
  has_lease = false;
  lease = lease_token_zero;
  bytes_written = 0;
  bytes_read = 0;
}

-- `board_ReleasePinRequest`.
pub record ReleasePinRequest : Type 0 where
  pub has_lease : Bool
  pub lease : LeaseToken
  pub resource : ℤ
  pub instance : ℕ

unfoldable pub release_pin_request_zero : ReleasePinRequest
unfolding lease_token_zero
release_pin_request_zero = record {
  has_lease = false;
  lease = lease_token_zero;
  resource = pos 0;
  instance = 0;
}
