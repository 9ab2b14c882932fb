-- ===== src/Protocol/Inputs.antt =====
-- whad/protocol/board/board.pb.h: the structs of inputs, gestures and remote profiles.
-- A value named `…_zero` is the struct filled with zero bytes.
use whad_lib.Prelude.{ℕ, ℤ, pos, Bool, false, List, replicate}

-- `board_GetInputStateRequest`.
pub record GetInputStateRequest : Type 0 where
  pub dummy_field : ℕ

unfoldable pub get_input_state_request_zero : GetInputStateRequest
get_input_state_request_zero = record { dummy_field = 0 }

-- `board_InputStateResponse`.
pub record InputStateResponse : Type 0 where
  pub sequence : ℕ
  pub timestamp_us : ℕ
  pub buttons : ℕ
  pub gesture : ℤ
  pub microphone_threshold : Bool
  pub mode : ℤ

unfoldable pub input_state_response_zero : InputStateResponse
input_state_response_zero = record {
  sequence = 0;
  timestamp_us = 0;
  buttons = 0;
  gesture = pos 0;
  microphone_threshold = false;
  mode = pos 0;
}

-- `board_ConfigureInputRequest`.
pub record ConfigureInputRequest : Type 0 where
  pub mode : ℤ
  pub flags : ℕ
  pub dwell_ms : ℕ
  pub deadzone : ℕ
  pub persist : Bool

unfoldable pub configure_input_request_zero : ConfigureInputRequest
configure_input_request_zero = record {
  mode = pos 0;
  flags = 0;
  dwell_ms = 0;
  deadzone = 0;
  persist = false;
}

-- `board_InputEvent`.
pub record InputEvent : Type 0 where
  pub sequence : ℕ
  pub timestamp_us : ℕ
  pub source : ℤ
  pub action : ℤ
  pub value : ℤ

unfoldable pub input_event_zero : InputEvent
input_event_zero = record {
  sequence = 0;
  timestamp_us = 0;
  source = pos 0;
  action = pos 0;
  value = pos 0;
}

-- `board_GestureEvent`.
pub record GestureEvent : Type 0 where
  pub sequence : ℕ
  pub timestamp_us : ℕ
  pub gesture : ℤ

unfoldable pub gesture_event_zero : GestureEvent
gesture_event_zero = record { sequence = 0; timestamp_us = 0; gesture = pos 0 }

-- `board_RemoteProfileGetRequest`.
pub record RemoteProfileGetRequest : Type 0 where
  pub profile_id : ℕ

unfoldable pub remote_profile_get_request_zero : RemoteProfileGetRequest
remote_profile_get_request_zero = record { profile_id = 0 }

-- `board_ProfileMapping`.
pub record ProfileMapping : Type 0 where
  pub source : ℤ
  pub action : ℤ
  pub hid_usage_page : ℕ
  pub hid_usage : ℕ
  pub value : ℤ

unfoldable pub profile_mapping_zero : ProfileMapping
profile_mapping_zero = record {
  source = pos 0;
  action = pos 0;
  hid_usage_page = 0;
  hid_usage = 0;
  value = pos 0;
}

-- `board_RemoteProfile`.
pub record RemoteProfile : Type 0 where
  pub profile_id : ℕ
  pub name : List ℕ
  pub sensitivity : ℕ
  pub deadzone : ℕ
  pub pointer_mode : Bool
  pub tilt_mode : Bool
  pub mappings_count : ℕ
  pub mappings : List ProfileMapping

unfoldable pub remote_profile_zero : RemoteProfile
unfolding profile_mapping_zero
remote_profile_zero = record {
  profile_id = 0;
  name = replicate 32 0;
  sensitivity = 0;
  deadzone = 0;
  pointer_mode = false;
  tilt_mode = false;
  mappings_count = 0;
  mappings = replicate 16 profile_mapping_zero;
}

-- `board_RemoteProfileResponse`.
pub record RemoteProfileResponse : Type 0 where
  pub has_profile : Bool
  pub profile : RemoteProfile

unfoldable pub remote_profile_response_zero : RemoteProfileResponse
unfolding remote_profile_zero
remote_profile_response_zero = record { has_profile = false; profile = remote_profile_zero }

-- `board_RemoteProfileSetRequest`.
pub record RemoteProfileSetRequest : Type 0 where
  pub has_profile : Bool
  pub profile : RemoteProfile
  pub persist : Bool

unfoldable pub remote_profile_set_request_zero : RemoteProfileSetRequest
unfolding remote_profile_zero
remote_profile_set_request_zero = record {
  has_profile = false;
  profile = remote_profile_zero;
  persist = false;
}
