-- ===== src/Protocol/Runtime.antt =====
-- whad/protocol/board/board.pb.h: the structs of board information, results and the runtime configuration.
-- A value named `…_zero` is the struct filled with zero bytes.
use whad_lib.Prelude.{ℕ, ℤ, pos, Bool, false, List, replicate}
use whad_lib.Protocol.Bytes.{Bytes, bytes_zero}

-- `board_GetBoardInfoRequest`.
pub record GetBoardInfoRequest : Type 0 where
  pub dummy_field : ℕ

unfoldable pub get_board_info_request_zero : GetBoardInfoRequest
get_board_info_request_zero = record { dummy_field = 0 }

-- `board_GetBoardInfoResponse`.
pub record GetBoardInfoResponse : Type 0 where
  pub board_name : List ℕ
  pub hardware_revision : List ℕ
  pub firmware_version : List ℕ
  pub protocol_variant : List ℕ
  pub device_id : Bytes
  pub active_runtime : ℤ
  pub implemented_sensor_count : ℕ

unfoldable pub get_board_info_response_zero : GetBoardInfoResponse
get_board_info_response_zero = record {
  board_name = replicate 32 0;
  hardware_revision = replicate 32 0;
  firmware_version = replicate 32 0;
  protocol_variant = replicate 32 0;
  device_id = bytes_zero 16;
  active_runtime = pos 0;
  implemented_sensor_count = 0;
}

-- `board_CommandResult`.
pub record CommandResult : Type 0 where
  pub command : ℤ
  pub result : ℤ
  pub terminal : Bool
  pub detail : List ℕ

unfoldable pub command_result_zero : CommandResult
command_result_zero = record {
  command = pos 0;
  result = pos 0;
  terminal = false;
  detail = replicate 96 0;
}

-- `board_BoardStatus`.
pub record BoardStatus : Type 0 where
  pub timestamp_us : ℕ
  pub code : ℤ
  pub result : ℤ
  pub resource : ℤ
  pub instance : ℕ
  pub progress_per_mille : ℕ
  pub terminal : Bool
  pub detail : List ℕ

unfoldable pub board_status_zero : BoardStatus
board_status_zero = record {
  timestamp_us = 0;
  code = pos 0;
  result = pos 0;
  resource = pos 0;
  instance = 0;
  progress_per_mille = 0;
  terminal = false;
  detail = replicate 96 0;
}

-- `board_GetRuntimeConfigRequest`.
pub record GetRuntimeConfigRequest : Type 0 where
  pub dummy_field : ℕ

unfoldable pub get_runtime_config_request_zero : GetRuntimeConfigRequest
get_runtime_config_request_zero = record { dummy_field = 0 }

-- `board_RuntimeConfigResponse`.
pub record RuntimeConfigResponse : Type 0 where
  pub active_runtime : ℤ
  pub persisted_runtime : ℤ
  pub persistence_available : Bool
  pub ble_advertising : Bool
  pub ble_pairable : Bool
  pub ble_connected : Bool
  pub bond_count : ℕ
  pub event_log_filter : ℕ
  pub raw_packet_log_filter : ℕ

unfoldable pub runtime_config_response_zero : RuntimeConfigResponse
runtime_config_response_zero = record {
  active_runtime = pos 0;
  persisted_runtime = pos 0;
  persistence_available = false;
  ble_advertising = false;
  ble_pairable = false;
  ble_connected = false;
  bond_count = 0;
  event_log_filter = 0;
  raw_packet_log_filter = 0;
}

-- `board_RuntimeConfigUpdate`.
pub record RuntimeConfigUpdate : Type 0 where
  pub has_persisted_runtime : Bool
  pub persisted_runtime : ℤ
  pub has_event_log_filter : Bool
  pub event_log_filter : ℕ
  pub has_raw_packet_log_filter : Bool
  pub raw_packet_log_filter : ℕ

unfoldable pub runtime_config_update_zero : RuntimeConfigUpdate
runtime_config_update_zero = record {
  has_persisted_runtime = false;
  persisted_runtime = pos 0;
  has_event_log_filter = false;
  event_log_filter = 0;
  has_raw_packet_log_filter = false;
  raw_packet_log_filter = 0;
}

-- `board_OpenPairingWindow`.
pub record OpenPairingWindow : Type 0 where
  pub duration_ms : ℕ

unfoldable pub open_pairing_window_zero : OpenPairingWindow
open_pairing_window_zero = record { duration_ms = 0 }

-- `board_ClearBonds`.
pub record ClearBonds : Type 0 where
  pub confirm_nonce : ℕ

unfoldable pub clear_bonds_zero : ClearBonds
clear_bonds_zero = record { confirm_nonce = 0 }

-- The member of the union that `which_operation` names. Tags other than 1, 2 and 3 name none.
pub data RuntimeOperation : Type 0 where
  update : RuntimeConfigUpdate → RuntimeOperation
  open_pairing_window : OpenPairingWindow → RuntimeOperation
  clear_bonds : ClearBonds → RuntimeOperation
  unknown_operation : ℕ → RuntimeOperation

-- `board_SetRuntimeConfigRequest`.
pub record SetRuntimeConfigRequest : Type 0 where
  pub operation : RuntimeOperation

unfoldable pub set_runtime_config_request_zero : SetRuntimeConfigRequest
set_runtime_config_request_zero = record { operation = unknown_operation 0 }

-- `board_SetRuntimeModeRequest`.
pub record SetRuntimeModeRequest : Type 0 where
  pub runtime : ℤ
  pub persist : Bool
  pub reboot : Bool

unfoldable pub set_runtime_mode_request_zero : SetRuntimeModeRequest
set_runtime_mode_request_zero = record { runtime = pos 0; persist = false; reboot = false }
