-- ===== src/Board/ValidateMore.antt =====
-- The validators of src/domains/board.c, from `whad_board_validate_spi_transfer` on.
use whad_lib.Prelude.{
  ℕ, zero, suc, Bool, true, not, ◌&&◌, List, [], ◌∷◌, leb, Status, success, error, is_success,
}
use whad_lib.Protocol.Pins.{SpiTransferRequest, SpiTransferResponse, ReleasePinRequest}
use whad_lib.Protocol.Inputs.{
  InputEvent, GestureEvent, ProfileMapping, RemoteProfile, RemoteProfileResponse,
  RemoteProfileSetRequest,
}
use whad_lib.Protocol.Runtime.{
  BoardStatus, RuntimeConfigResponse, RuntimeConfigUpdate, RuntimeOperation, update,
  open_pairing_window, clear_bonds, unknown_operation, SetRuntimeConfigRequest,
  SetRuntimeModeRequest,
}
use whad_lib.Protocol.Streams.{
  StorageInfoResponse, StorageReadLogRequest, LogChunk, AudioChunk, RawPcmDiagnosticsRequest,
}
use whad_lib.Board.Validate.{
  require, return_if, valid_string, valid_enum, valid_span, validate_lease,
}

unfoldable pub validate_spi_transfer : SpiTransferRequest → Status
validate_spi_transfer r = require (valid_enum r.mode 0 4) (
    require (leb r.tx_data.size 512)
      (require (leb r.read_length 512) (return_if r.has_lease (validate_lease r.lease) success)))

unfoldable pub validate_spi_result : SpiTransferResponse → Status
validate_spi_result r = require (valid_enum r.result 0 14) (
    require (leb r.rx_data.size 512) (
      require (leb r.bytes_read r.rx_data.size)
        (return_if r.has_lease (validate_lease r.lease) success)))

unfoldable pub validate_storage_status : StorageInfoResponse → Status
validate_storage_status r = require (valid_enum r.state 0 4) success

unfoldable pub validate_storage_read_log : StorageReadLogRequest → Status
validate_storage_read_log r = require (leb r.max_bytes 900) success

unfoldable pub validate_runtime_config : RuntimeConfigResponse → Status
validate_runtime_config r =
    require (valid_enum r.active_runtime 0 2) (require (valid_enum r.persisted_runtime 0 2) success)

unfoldable pub validate_runtime_update : RuntimeConfigUpdate → Status
validate_runtime_update u =
    require (not (u.has_persisted_runtime && not (valid_enum u.persisted_runtime 0 2))) success

-- The switch on `which_operation`.
unfoldable pub validate_operation : RuntimeOperation → Status
unfolding validate_runtime_update
validate_operation (update u) = validate_runtime_update u
validate_operation (open_pairing_window _) = success
validate_operation (clear_bonds _) = success
validate_operation (unknown_operation _) = error

unfoldable pub validate_set_runtime_config : SetRuntimeConfigRequest → Status
unfolding validate_operation
validate_set_runtime_config r = validate_operation r.operation

unfoldable pub validate_set_runtime_mode : SetRuntimeModeRequest → Status
validate_set_runtime_mode r = require (valid_enum r.runtime 0 2) success

unfoldable pub validate_profile_mapping : ProfileMapping → Status
validate_profile_mapping m =
    require (valid_enum m.source 0 5) (require (valid_enum m.action 0 4) success)

-- The loop over the first `count` mappings.
unfoldable pub valid_mappings : ℕ → List ProfileMapping → Bool
valid_mappings zero ms = true
valid_mappings (suc count) [] = true
valid_mappings (suc count) (m ∷ ms) =
    is_success (validate_profile_mapping m) && valid_mappings count ms

unfoldable pub validate_profile : RemoteProfile → Status
validate_profile p = require (valid_string p.name 32) (
    require (leb p.mappings_count 16)
      (require (valid_mappings p.mappings_count p.mappings) success))

unfoldable pub validate_remote_profile : RemoteProfileResponse → Status
validate_remote_profile r = return_if r.has_profile (validate_profile r.profile) success

unfoldable pub validate_remote_profile_set : RemoteProfileSetRequest → Status
validate_remote_profile_set r = return_if r.has_profile (validate_profile r.profile) success

-- With a lease the function returns before it looks at `resource`.
unfoldable pub validate_release_pin : ReleasePinRequest → Status
validate_release_pin r =
    return_if r.has_lease (validate_lease r.lease) (require (valid_enum r.resource 0 6) success)

unfoldable pub validate_audio_chunk : AudioChunk → Status
validate_audio_chunk c = require (valid_enum c.result 0 14) (
    require (leb c.pcm.size 800)
      (require (leb c.count c.pcm.size) (require (valid_span c.offset c.count c.total) success)))

unfoldable pub validate_input_event : InputEvent → Status
validate_input_event e =
    require (valid_enum e.source 0 5) (require (valid_enum e.action 0 4) success)

unfoldable pub validate_gesture_event : GestureEvent → Status
validate_gesture_event e = require (valid_enum e.gesture 0 6) success

unfoldable pub validate_log_chunk : LogChunk → Status
validate_log_chunk c = require (valid_enum c.result 0 14) (
    require (leb c.chunk_data.size 900) (
      require (leb c.count c.chunk_data.size)
        (require (valid_span c.offset c.count c.total) success)))

unfoldable pub validate_board_status : BoardStatus → Status
validate_board_status s = require (valid_enum s.code 0 8) (
    require (valid_enum s.result 0 14) (
      require (valid_enum s.resource 0 6)
        (require (leb s.progress_per_mille 1000) (require (valid_string s.detail 96) success))))

unfoldable pub validate_raw_pcm_diagnostics : RawPcmDiagnosticsRequest → Status
validate_raw_pcm_diagnostics r = require (leb r.chunk_size 800) success
