-- ===== src/Board/Conforms.antt =====
-- The validators against what the domain promises of a message.
use whad_lib.Prelude.{
  ℤ, Bool, true, false, ◌⊎◌, inl, inr, refl, sym, ◌∙◌, true≢false, Bool-cases, ℕ, ◌*◌, ◌/◌, ◌<◌,
  ◌≡◌, ◌↔◌, ◌==◌, success, arith,
}
use whad_lib.Protocol.Kind.{Kind}
use whad_lib.Protocol.Payload.{Payload}
use whad_lib.Protocol.Pins.{LeaseToken}
use whad_lib.Board.Validate.{
  valid_enum, validate_adc_value, validate_board_info, validate_calibration,
  validate_command_result, validate_configure_input, validate_gpio_configure,
  validate_gpio_configured, validate_gpio_read, validate_gpio_value, validate_gpio_write,
  validate_i2c_result, validate_i2c_transfer, validate_input_state, validate_ok,
  validate_sensor_descriptor, validate_sensor_sample, validate_set_output,
}
use whad_lib.Board.ValidateMore.{
  validate_audio_chunk, validate_board_status, validate_gesture_event, validate_input_event,
  validate_log_chunk, validate_raw_pcm_diagnostics, validate_release_pin, validate_remote_profile,
  validate_remote_profile_set, validate_runtime_config, validate_set_runtime_config,
  validate_set_runtime_mode, validate_spi_result, validate_spi_transfer, validate_storage_read_log,
  validate_storage_status,
}
use whad_lib.Board.Codec.{validate}
use whad_lib.Board.WellFormed.{
  InEnum, IsLease, IsRelease, WellFormed, IsPromised, IsUnchecked, In32Bits,
}
use whad_lib.Board.Decides.{
  valid_enum_iff, valid_string_iff, valid_span_iff, leb_iff, require_last, require_iff, IsLease-iff,
  IsDescriptor-iff, IsProfile-iff, operation_iff, IsRelease-iff, always,
}

-- No bit from 7 on is set in a number below 128, and in no other.
flags_iff : (status : ℕ) → ((status / 128 * 128 == 0) ≡ true) ↔ (status < 128)
flags_iff status = ((λ h. ground arith), (λ h. ground arith))

-- The validators decide what they ask.
pub accepts_iff :
    (k : Kind) (v : Payload k) → In32Bits k v → (validate k v ≡ success) ↔ WellFormed k v
unfolding validate validate_adc_value validate_board_info validate_calibration
    validate_command_result validate_configure_input validate_gpio_configure
    validate_gpio_configured validate_gpio_read validate_gpio_value validate_gpio_write
    validate_i2c_result validate_i2c_transfer validate_input_state validate_ok
    validate_sensor_descriptor validate_sensor_sample validate_set_output validate_audio_chunk
    validate_board_status validate_gesture_event validate_input_event validate_log_chunk
    validate_raw_pcm_diagnostics validate_release_pin validate_remote_profile
    validate_remote_profile_set validate_runtime_config validate_set_runtime_config
    validate_set_runtime_mode validate_spi_result validate_spi_transfer validate_storage_read_log
    validate_storage_status
accepts_iff Kind.get_board_info v w = always
accepts_iff Kind.list_sensors v w = always
accepts_iff Kind.read_sensor v w = always
accepts_iff Kind.configure_stream v w = always
accepts_iff Kind.stop_stream v w = always
accepts_iff Kind.calibrate v w = always
accepts_iff Kind.get_calibration v w = always
accepts_iff Kind.set_output v w =
    require_iff (valid_enum_iff v.target 5) (IsLease-iff v.has_lease v.lease)
accepts_iff Kind.get_input_state v w = always
accepts_iff Kind.configure_input v w = require_last (valid_enum_iff v.mode 4)
accepts_iff Kind.i2c_transfer v w =
    require_iff (leb_iff v.write_data.size 512)
      (require_iff (leb_iff v.read_length 512) (IsLease-iff v.has_lease v.lease))
accepts_iff Kind.gpio_configure v w =
    require_iff (valid_enum_iff v.direction 2)
      (require_iff (valid_enum_iff v.pull 3) (IsLease-iff v.has_lease v.lease))
accepts_iff Kind.gpio_read v w = IsLease-iff v.has_lease v.lease
accepts_iff Kind.gpio_write v w = IsLease-iff v.has_lease v.lease
accepts_iff Kind.adc_read v w = always
accepts_iff Kind.spi_transfer v w = require_iff (valid_enum_iff v.mode 4) (
    require_iff (leb_iff v.tx_data.size 512)
      (require_iff (leb_iff v.read_length 512) (IsLease-iff v.has_lease v.lease)))
accepts_iff Kind.storage_info v w = always
accepts_iff Kind.storage_adopt v w = always
accepts_iff Kind.storage_read_log v w = require_last (leb_iff v.max_bytes 900)
accepts_iff Kind.storage_erase_log v w = always
accepts_iff Kind.get_runtime_config v w = always
accepts_iff Kind.set_runtime_config v w = operation_iff v.operation
accepts_iff Kind.set_runtime_mode v w = require_last (valid_enum_iff v.runtime 2)
accepts_iff Kind.remote_profile_get v w = always
accepts_iff Kind.remote_profile_set v w = IsProfile-iff v.has_profile v.profile
accepts_iff Kind.audio_configure v w = always
accepts_iff Kind.release_pin v w = IsRelease-iff v.has_lease v.lease v.resource
accepts_iff Kind.raw_pcm_diagnostics v w = require_last (leb_iff v.chunk_size 800)
accepts_iff Kind.command_result v w =
    require_iff (valid_enum_iff v.command 27)
      (require_iff (valid_enum_iff v.result 14) (require_last (valid_string_iff v.detail 96)))
accepts_iff Kind.board_info v w = require_iff (valid_string_iff v.board_name 32) (
    require_iff (valid_string_iff v.hardware_revision 32) (
      require_iff (valid_string_iff v.firmware_version 32) (
        require_iff (valid_string_iff v.protocol_variant 32) (
          require_iff (leb_iff v.device_id.size 16)
            (require_last (valid_enum_iff v.active_runtime 2))))))
accepts_iff Kind.sensor_descriptor v w = IsDescriptor-iff v.has_descriptor v.descriptor
accepts_iff Kind.sensor_sample v w =
    require_iff (leb_iff v.values_count 10) (require_last (flags_iff v.status))
accepts_iff Kind.stream_configured v w = always
accepts_iff Kind.calibration v w = require_last (leb_iff v.calibration_data.size 128)
accepts_iff Kind.input_state v w =
    require_iff (valid_enum_iff v.gesture 6) (require_last (valid_enum_iff v.mode 4))
accepts_iff Kind.i2c_result v w = require_iff (valid_enum_iff v.result 14) (
    require_iff (leb_iff v.read_data.size 512)
      (require_iff (leb_iff v.bytes_read v.read_data.size) (IsLease-iff v.has_lease v.lease)))
accepts_iff Kind.gpio_configured v w =
    require_iff (valid_enum_iff v.result 14) (IsLease-iff v.has_lease v.lease)
accepts_iff Kind.gpio_value v w =
    require_iff (valid_enum_iff v.result 14) (IsLease-iff v.has_lease v.lease)
accepts_iff Kind.adc_value v w = require_last (valid_enum_iff v.result 14)
accepts_iff Kind.spi_result v w = require_iff (valid_enum_iff v.result 14) (
    require_iff (leb_iff v.rx_data.size 512)
      (require_iff (leb_iff v.bytes_read v.rx_data.size) (IsLease-iff v.has_lease v.lease)))
accepts_iff Kind.storage_status v w = require_last (valid_enum_iff v.state 4)
accepts_iff Kind.runtime_config v w =
    require_iff (valid_enum_iff v.active_runtime 2)
      (require_last (valid_enum_iff v.persisted_runtime 2))
accepts_iff Kind.remote_profile v w = IsProfile-iff v.has_profile v.profile
accepts_iff Kind.audio_configured v w = always
accepts_iff Kind.audio_chunk v w = require_iff (valid_enum_iff v.result 14) (
    require_iff (leb_iff v.pcm.size 800) (
      require_iff (leb_iff v.count v.pcm.size)
        (require_last (valid_span_iff v.offset v.count v.total w.0 w.1))))
accepts_iff Kind.input_event v w =
    require_iff (valid_enum_iff v.source 5) (require_last (valid_enum_iff v.action 4))
accepts_iff Kind.gesture_event v w = require_last (valid_enum_iff v.gesture 6)
accepts_iff Kind.log_chunk v w = require_iff (valid_enum_iff v.result 14) (
    require_iff (leb_iff v.chunk_data.size 900) (
      require_iff (leb_iff v.count v.chunk_data.size)
        (require_last (valid_span_iff v.offset v.count v.total w.0 w.1))))
accepts_iff Kind.board_status v w = require_iff (valid_enum_iff v.code 8) (
    require_iff (valid_enum_iff v.result 14) (
      require_iff (valid_enum_iff v.resource 6) (
        require_iff (leb_iff v.progress_per_mille 1000)
          (require_last (valid_string_iff v.detail 96)))))

-- What a release asks, against what is promised of it.
IsRelease-split :
    (has : Bool) (l : LeaseToken) (resource : ℤ)
    → IsRelease has l resource ↔ (
        (InEnum resource 6 × IsLease has l)
        ⊎ ((has ≡ true) × (InEnum l.resource 6 × (¬ (InEnum resource 6)))))
IsRelease-split false l resource = ((λ r. inl (r, tt)), λ s. elim s [ inl p ↦ p.0 | inr u ↦ cc ])
IsRelease-split true l resource = (
  (λ r. elim (Bool-cases (valid_enum resource 0 6)) [
    | inl ok ↦ inl ((valid_enum_iff resource 6).0 ok, r)
    | inr bad ↦ inr (refl, (r, (λ i. true≢false (sym ((valid_enum_iff resource 6).1 i) ∙ bad))))
  ]),
  (λ s. elim s [ inl p ↦ p.1 | inr u ↦ u.1.0 ]),
)

never : {P : Type 0} → P ↔ (P ⊎ ⊥)
never = ((λ p. inl p), (λ s. elim s [ inl p ↦ p | inr n ↦ absurd n ]))

IsPromised-iff : (k : Kind) (v : Payload k) → WellFormed k v ↔ (IsPromised k v ⊎ IsUnchecked k v)
IsPromised-iff Kind.release_pin v = IsRelease-split v.has_lease v.lease v.resource
IsPromised-iff k v = never

-- For each of the 49 messages of the domain, the validator of src/domains/board.c accepts a struct
-- exactly in two cases. One: each enumeration of the struct, and of the lease, the mappings in use or
-- the update that it says it has, is in its range, each length, count and progress is within its limit,
-- each text in use ends within its array, each chunk with a total lies within it, a runtime operation
-- is a known one, and the status of a sample has no bits other than the seven flags. The other: it is a
-- release of a pin whose lease is in range and whose own resource is not. The offset and count of a
-- chunk are 32-bit numbers.
pub validate_iff :
    (k : Kind) (v : Payload k)
    → In32Bits k v
    → (validate k v ≡ success) ↔ (IsPromised k v ⊎ IsUnchecked k v)
validate_iff k v w =
    let accepts = accepts_iff k v w in
    let promised = IsPromised-iff k v in
    ((λ ok. promised.0 (accepts.0 ok)), (λ p. accepts.1 (promised.1 p)))
