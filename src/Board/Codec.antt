-- ===== src/Board/Codec.antt =====
-- The message functions of src/domains/board.c: what `WHAD_BOARD_DEFINE_MESSAGE` makes of each entry
-- of `WHAD_BOARD_MESSAGE_LIST`, and the two functions that map a message to its type and command.
use whad_lib.Prelude.{
  ℕ, Bool, true, false, Option, none, some, ◌==◌, if◌then◌else◌, Status, success, error, is_success,
}
use mathlib.Core.Option
use whad_lib.Protocol.Kind.{Kind, tag}
use whad_lib.Protocol.Payload.{Payload, no_body, member, which_msg, read, BoardMessage}
use whad_lib.Protocol.Message.{Message, board_msg}
use whad_lib.Whad.{Domain, board, get_message_domain}
use whad_lib.Board.Validate.{
  validate_adc_value, validate_board_info, validate_calibration, validate_command_result,
  validate_configure_input, validate_gpio_configure, validate_gpio_configured, validate_gpio_read,
  validate_gpio_value, validate_gpio_write, validate_i2c_result, validate_i2c_transfer,
  validate_input_state, validate_ok, validate_sensor_descriptor, validate_sensor_sample,
  validate_set_output,
}
use whad_lib.Board.ValidateMore.{
  validate_audio_chunk, validate_board_status, validate_gesture_event, validate_input_event,
  validate_log_chunk, validate_raw_pcm_diagnostics, validate_release_pin, validate_remote_profile,
  validate_remote_profile_set, validate_runtime_config, validate_set_runtime_config,
  validate_set_runtime_mode, validate_spi_result, validate_spi_transfer, validate_storage_read_log,
  validate_storage_status,
}

-- `WHAD_BOARD_VALIDATE_<name>`, on a pointer that is not NULL.
unfoldable pub validate : (k : Kind) → Payload k → Status
validate Kind.get_board_info v = validate_ok v
validate Kind.list_sensors v = validate_ok v
validate Kind.read_sensor v = validate_ok v
validate Kind.configure_stream v = validate_ok v
validate Kind.stop_stream v = validate_ok v
validate Kind.calibrate v = validate_ok v
validate Kind.get_calibration v = validate_ok v
validate Kind.set_output v = validate_set_output v
validate Kind.get_input_state v = validate_ok v
validate Kind.configure_input v = validate_configure_input v
validate Kind.i2c_transfer v = validate_i2c_transfer v
validate Kind.gpio_configure v = validate_gpio_configure v
validate Kind.gpio_read v = validate_gpio_read v
validate Kind.gpio_write v = validate_gpio_write v
validate Kind.adc_read v = validate_ok v
validate Kind.spi_transfer v = validate_spi_transfer v
validate Kind.storage_info v = validate_ok v
validate Kind.storage_adopt v = validate_ok v
validate Kind.storage_read_log v = validate_storage_read_log v
validate Kind.storage_erase_log v = validate_ok v
validate Kind.get_runtime_config v = validate_ok v
validate Kind.set_runtime_config v = validate_set_runtime_config v
validate Kind.set_runtime_mode v = validate_set_runtime_mode v
validate Kind.remote_profile_get v = validate_ok v
validate Kind.remote_profile_set v = validate_remote_profile_set v
validate Kind.audio_configure v = validate_ok v
validate Kind.release_pin v = validate_release_pin v
validate Kind.raw_pcm_diagnostics v = validate_raw_pcm_diagnostics v
validate Kind.command_result v = validate_command_result v
validate Kind.board_info v = validate_board_info v
validate Kind.sensor_descriptor v = validate_sensor_descriptor v
validate Kind.sensor_sample v = validate_sensor_sample v
validate Kind.stream_configured v = validate_ok v
validate Kind.calibration v = validate_calibration v
validate Kind.input_state v = validate_input_state v
validate Kind.i2c_result v = validate_i2c_result v
validate Kind.gpio_configured v = validate_gpio_configured v
validate Kind.gpio_value v = validate_gpio_value v
validate Kind.adc_value v = validate_adc_value v
validate Kind.spi_result v = validate_spi_result v
validate Kind.storage_status v = validate_storage_status v
validate Kind.runtime_config v = validate_runtime_config v
validate Kind.remote_profile v = validate_remote_profile v
validate Kind.audio_configured v = validate_ok v
validate Kind.audio_chunk v = validate_audio_chunk v
validate Kind.input_event v = validate_input_event v
validate Kind.gesture_event v = validate_gesture_event v
validate Kind.log_chunk v = validate_log_chunk v
validate Kind.board_status v = validate_board_status v

-- A validator returns WHAD_ERROR on a NULL pointer.
unfoldable pub validator : (k : Kind) → Option (Payload k) → Status
validator k none = error
validator k (some v) = validate k v

-- `whad_board_<name>` by `whad_board_pack`: the status, and `*p_message` afterwards. A `none` is a NULL
-- pointer.
unfoldable pub pack : (k : Kind) → Option Message → ℕ → Option (Payload k) → Status × Option Message
pack k none request_id value = (error, none)
pack k (some m) request_id none = (error, some m)
pack k (some m) request_id (some v) =
    if is_success (validator k (some v))
    then (success, some (board_msg (record { request_id = request_id; body = member k v })))
    else (error, some m)

-- `whad_get_message_domain(p_message) == DOMAIN_BOARD`.
abbrev pub is_board : Domain → Bool
is_board board = true
is_board _ = false

-- The member `msg.board` of a message of the domain.
abbrev pub board_member : Message → Option BoardMessage
board_member (board_msg b) = some b
board_member _ = none

-- The end of `whad_board_unpack`, with the member that the tag names: the validator, then the writes
-- through `p_request_id`, which may be NULL, and `p_value`.
unfoldable pub deliver :
    (k : Kind)
    → ℕ
    → Option (Payload k)
    → Option ℕ
    → Payload k
    → Status × Option ℕ × Option (Payload k)
deliver k request_id field request_id_out value_out =
    if is_success (validator k field)
    then (success, Option.map (λ _. request_id) request_id_out, field)
    else (error, request_id_out, some value_out)

-- The part of `whad_board_unpack` on the member `msg.board`, where there is one.
unfoldable pub unpack_board :
    (k : Kind) → Option BoardMessage → Option ℕ → Payload k → Status × Option ℕ × Option (Payload k)
unpack_board k none request_id_out value_out = (error, request_id_out, some value_out)
unpack_board k (some b) request_id_out value_out =
    if which_msg b.body == tag k
    then deliver k b.request_id (read k b.body) request_id_out value_out
    else (error, request_id_out, some value_out)

-- `whad_board_<name>_parse` by `whad_board_unpack`: the status, and `*p_request_id` and `*p_value`
-- afterwards. A `none` is a NULL pointer.
unfoldable pub unpack :
    (k : Kind)
    → Option Message
    → Option ℕ
    → Option (Payload k)
    → Status × Option ℕ × Option (Payload k)
unpack k none request_id_out value_out = (error, request_id_out, value_out)
unpack k (some m) request_id_out none = (error, request_id_out, none)
unpack k (some m) request_id_out (some old) =
    if is_board (get_message_domain m)
    then unpack_board k (board_member m) request_id_out old
    else (error, request_id_out, some old)

-- `whad_board_msgtype_t`; the value of an enumerator is the tag.
abbrev pub MsgType : Type 0
MsgType = Option Kind

-- The type of the message, `none` for `WHAD_BOARD_UNKNOWN`.
unfoldable pub get_message_type : Option Message → MsgType
get_message_type none = none
get_message_type (some m) =
    if is_board (get_message_domain m) then Option.bind (board_member m) kind_of else none
  where
    kind_of : BoardMessage → Option Kind
    kind_of b = elim b.body [ no_body ↦ none | member k v ↦ some k ]

-- The switch of `whad_board_command_from_message_type`: the number of the command, if there is one.
unfoldable pub command_of : MsgType → Option ℕ
command_of (some Kind.get_board_info) = some 0
command_of (some Kind.list_sensors) = some 1
command_of (some Kind.read_sensor) = some 2
command_of (some Kind.configure_stream) = some 3
command_of (some Kind.stop_stream) = some 4
command_of (some Kind.calibrate) = some 5
command_of (some Kind.get_calibration) = some 6
command_of (some Kind.set_output) = some 7
command_of (some Kind.get_input_state) = some 8
command_of (some Kind.configure_input) = some 9
command_of (some Kind.i2c_transfer) = some 10
command_of (some Kind.gpio_configure) = some 11
command_of (some Kind.gpio_read) = some 12
command_of (some Kind.gpio_write) = some 13
command_of (some Kind.adc_read) = some 14
command_of (some Kind.spi_transfer) = some 15
command_of (some Kind.storage_info) = some 16
command_of (some Kind.storage_adopt) = some 17
command_of (some Kind.storage_read_log) = some 18
command_of (some Kind.storage_erase_log) = some 19
command_of (some Kind.get_runtime_config) = some 20
command_of (some Kind.set_runtime_config) = some 21
command_of (some Kind.set_runtime_mode) = some 22
command_of (some Kind.remote_profile_get) = some 23
command_of (some Kind.remote_profile_set) = some 24
command_of (some Kind.audio_configure) = some 25
command_of (some Kind.release_pin) = some 26
command_of (some Kind.raw_pcm_diagnostics) = some 27
command_of (some _) = none
command_of none = none

-- `whad_board_command_from_message_type`: the status, and `*p_command` afterwards.
unfoldable pub command_from_message_type : MsgType → Option ℕ → Status × Option ℕ
unfolding command_of
command_from_message_type t none = (error, none)
command_from_message_type t (some old) = elim (command_of t) [
  | some c ↦ (success, some c)
  | none ↦ (error, some old)
]
