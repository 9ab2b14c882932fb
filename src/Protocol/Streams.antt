-- ===== src/Protocol/Streams.antt =====
-- whad/protocol/board/board.pb.h: the structs of storage, logs and audio.
-- A value named `…_zero` is the struct filled with zero bytes.
use whad_lib.Prelude.{ℕ, ℤ, pos, Bool, false, List, replicate}
use whad_lib.Protocol.Bytes.{Bytes, bytes_zero}

-- `board_StorageInfoRequest`.
pub record StorageInfoRequest : Type 0 where
  pub dummy_field : ℕ

unfoldable pub storage_info_request_zero : StorageInfoRequest
storage_info_request_zero = record { dummy_field = 0 }

-- `board_StorageInfoResponse`.
pub record StorageInfoResponse : Type 0 where
  pub state : ℤ
  pub capacity_bytes : ℕ
  pub used_bytes : ℕ
  pub log_records : ℕ
  pub erase_size : ℕ
  pub jedec_id : List ℕ

unfoldable pub storage_info_response_zero : StorageInfoResponse
storage_info_response_zero = record {
  state = pos 0;
  capacity_bytes = 0;
  used_bytes = 0;
  log_records = 0;
  erase_size = 0;
  jedec_id = replicate 3 0;
}

-- `board_StorageAdoptRequest`.
pub record StorageAdoptRequest : Type 0 where
  pub confirm_nonce : ℕ
  pub force : Bool

unfoldable pub storage_adopt_request_zero : StorageAdoptRequest
storage_adopt_request_zero = record { confirm_nonce = 0; force = false }

-- `board_StorageReadLogRequest`.
pub record StorageReadLogRequest : Type 0 where
  pub cursor : ℕ
  pub max_bytes : ℕ

unfoldable pub storage_read_log_request_zero : StorageReadLogRequest
storage_read_log_request_zero = record { cursor = 0; max_bytes = 0 }

-- `board_StorageEraseLogRequest`.
pub record StorageEraseLogRequest : Type 0 where
  pub confirm_nonce : ℕ

unfoldable pub storage_erase_log_request_zero : StorageEraseLogRequest
storage_erase_log_request_zero = record { confirm_nonce = 0 }

-- `board_LogChunk`.
pub record LogChunk : Type 0 where
  pub sequence : ℕ
  pub cursor : ℕ
  pub offset : ℕ
  pub count : ℕ
  pub chunk_data : Bytes
  pub eof : Bool
  pub total : ℕ
  pub result : ℤ

unfoldable pub log_chunk_zero : LogChunk
log_chunk_zero = record {
  sequence = 0;
  cursor = 0;
  offset = 0;
  count = 0;
  chunk_data = bytes_zero 900;
  eof = false;
  total = 0;
  result = pos 0;
}

-- `board_AudioConfigureRequest`.
pub record AudioConfigureRequest : Type 0 where
  pub enabled : Bool
  pub sample_rate_hz : ℕ
  pub gain_db_x2 : ℤ
  pub flags : ℕ

unfoldable pub audio_configure_request_zero : AudioConfigureRequest
audio_configure_request_zero = record {
  enabled = false;
  sample_rate_hz = 0;
  gain_db_x2 = pos 0;
  flags = 0;
}

-- `board_AudioConfigureResponse`.
pub record AudioConfigureResponse : Type 0 where
  pub actual_sample_rate_hz : ℕ
  pub actual_gain_db_x2 : ℤ
  pub flags : ℕ

unfoldable pub audio_configure_response_zero : AudioConfigureResponse
audio_configure_response_zero = record {
  actual_sample_rate_hz = 0;
  actual_gain_db_x2 = pos 0;
  flags = 0;
}

-- `board_AudioChunk`.
pub record AudioChunk : Type 0 where
  pub sequence : ℕ
  pub offset : ℕ
  pub count : ℕ
  pub pcm : Bytes
  pub eof : Bool
  pub total : ℕ
  pub result : ℤ

unfoldable pub audio_chunk_zero : AudioChunk
audio_chunk_zero = record {
  sequence = 0;
  offset = 0;
  count = 0;
  pcm = bytes_zero 800;
  eof = false;
  total = 0;
  result = pos 0;
}

-- `board_RawPcmDiagnosticsRequest`.
pub record RawPcmDiagnosticsRequest : Type 0 where
  pub duration_ms : ℕ
  pub chunk_size : ℕ

unfoldable pub raw_pcm_diagnostics_request_zero : RawPcmDiagnosticsRequest
raw_pcm_diagnostics_request_zero = record { duration_ms = 0; chunk_size = 0 }
