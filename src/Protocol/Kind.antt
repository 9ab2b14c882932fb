-- ===== src/Protocol/Kind.antt =====
-- The members of the union of `board_Message`, and their tags (whad/protocol/board/board.pb.h).
use whad_lib.Prelude.{ℕ, ◌≡◌, refl, sym, ap, ◌∙◌, Option, none, some, ◌==◌, if◌then◌else◌}

-- The entries of `WHAD_BOARD_MESSAGE_LIST` of inc/domains/board.h.
pub data Kind : Type 0 where
  get_board_info list_sensors read_sensor configure_stream stop_stream calibrate get_calibration
        set_output get_input_state configure_input i2c_transfer gpio_configure gpio_read gpio_write
        adc_read spi_transfer storage_info storage_adopt storage_read_log storage_erase_log
        get_runtime_config set_runtime_config set_runtime_mode remote_profile_get remote_profile_set
        audio_configure release_pin raw_pcm_diagnostics command_result board_info sensor_descriptor
        sensor_sample stream_configured calibration input_state i2c_result gpio_configured
        gpio_value adc_value spi_result storage_status runtime_config remote_profile
        audio_configured audio_chunk input_event gesture_event log_chunk board_status :
      Kind

-- `board_Message_<name>_tag`.
abbrev pub tag : Kind → ℕ
tag get_board_info = 2
tag list_sensors = 3
tag read_sensor = 4
tag configure_stream = 5
tag stop_stream = 6
tag calibrate = 7
tag get_calibration = 8
tag set_output = 9
tag get_input_state = 10
tag configure_input = 11
tag i2c_transfer = 12
tag gpio_configure = 13
tag gpio_read = 14
tag gpio_write = 15
tag adc_read = 16
tag spi_transfer = 17
tag storage_info = 18
tag storage_adopt = 19
tag storage_read_log = 20
tag storage_erase_log = 21
tag get_runtime_config = 22
tag set_runtime_config = 23
tag set_runtime_mode = 24
tag remote_profile_get = 25
tag remote_profile_set = 26
tag audio_configure = 27
tag release_pin = 28
tag raw_pcm_diagnostics = 29
tag command_result = 30
tag board_info = 31
tag sensor_descriptor = 32
tag sensor_sample = 33
tag stream_configured = 34
tag calibration = 35
tag input_state = 36
tag i2c_result = 37
tag gpio_configured = 38
tag gpio_value = 39
tag adc_value = 40
tag spi_result = 41
tag storage_status = 42
tag runtime_config = 43
tag remote_profile = 44
tag audio_configured = 45
tag audio_chunk = 46
tag input_event = 47
tag gesture_event = 48
tag log_chunk = 49
tag board_status = 50

-- The kind that a tag names.
unfoldable pub of_tag : ℕ → Option Kind
of_tag n =
    if n == 2
    then some get_board_info
    else if n == 3
    then some list_sensors
    else if n == 4
    then some read_sensor
    else if n == 5
    then some configure_stream
    else if n == 6
    then some stop_stream
    else if n == 7
    then some calibrate
    else if n == 8
    then some get_calibration
    else if n == 9
    then some set_output
    else if n == 10
    then some get_input_state
    else if n == 11
    then some configure_input
    else if n == 12
    then some i2c_transfer
    else if n == 13
    then some gpio_configure
    else if n == 14
    then some gpio_read
    else if n == 15
    then some gpio_write
    else if n == 16
    then some adc_read
    else if n == 17
    then some spi_transfer
    else if n == 18
    then some storage_info
    else if n == 19
    then some storage_adopt
    else if n == 20
    then some storage_read_log
    else if n == 21
    then some storage_erase_log
    else if n == 22
    then some get_runtime_config
    else if n == 23
    then some set_runtime_config
    else if n == 24
    then some set_runtime_mode
    else if n == 25
    then some remote_profile_get
    else if n == 26
    then some remote_profile_set
    else if n == 27
    then some audio_configure
    else if n == 28
    then some release_pin
    else if n == 29
    then some raw_pcm_diagnostics
    else if n == 30
    then some command_result
    else if n == 31
    then some board_info
    else if n == 32
    then some sensor_descriptor
    else if n == 33
    then some sensor_sample
    else if n == 34
    then some stream_configured
    else if n == 35
    then some calibration
    else if n == 36
    then some input_state
    else if n == 37
    then some i2c_result
    else if n == 38
    then some gpio_configured
    else if n == 39
    then some gpio_value
    else if n == 40
    then some adc_value
    else if n == 41
    then some spi_result
    else if n == 42
    then some storage_status
    else if n == 43
    then some runtime_config
    else if n == 44
    then some remote_profile
    else if n == 45
    then some audio_configured
    else if n == 46
    then some audio_chunk
    else if n == 47
    then some input_event
    else if n == 48
    then some gesture_event
    else if n == 49
    then some log_chunk
    else if n == 50
    then some board_status
    else none

pub of_tag-tag : (k : Kind) → of_tag (tag k) ≡ some k
unfolding of_tag
of_tag-tag get_board_info = refl
of_tag-tag list_sensors = refl
of_tag-tag read_sensor = refl
of_tag-tag configure_stream = refl
of_tag-tag stop_stream = refl
of_tag-tag calibrate = refl
of_tag-tag get_calibration = refl
of_tag-tag set_output = refl
of_tag-tag get_input_state = refl
of_tag-tag configure_input = refl
of_tag-tag i2c_transfer = refl
of_tag-tag gpio_configure = refl
of_tag-tag gpio_read = refl
of_tag-tag gpio_write = refl
of_tag-tag adc_read = refl
of_tag-tag spi_transfer = refl
of_tag-tag storage_info = refl
of_tag-tag storage_adopt = refl
of_tag-tag storage_read_log = refl
of_tag-tag storage_erase_log = refl
of_tag-tag get_runtime_config = refl
of_tag-tag set_runtime_config = refl
of_tag-tag set_runtime_mode = refl
of_tag-tag remote_profile_get = refl
of_tag-tag remote_profile_set = refl
of_tag-tag audio_configure = refl
of_tag-tag release_pin = refl
of_tag-tag raw_pcm_diagnostics = refl
of_tag-tag command_result = refl
of_tag-tag board_info = refl
of_tag-tag sensor_descriptor = refl
of_tag-tag sensor_sample = refl
of_tag-tag stream_configured = refl
of_tag-tag calibration = refl
of_tag-tag input_state = refl
of_tag-tag i2c_result = refl
of_tag-tag gpio_configured = refl
of_tag-tag gpio_value = refl
of_tag-tag adc_value = refl
of_tag-tag spi_result = refl
of_tag-tag storage_status = refl
of_tag-tag runtime_config = refl
of_tag-tag remote_profile = refl
of_tag-tag audio_configured = refl
of_tag-tag audio_chunk = refl
of_tag-tag input_event = refl
of_tag-tag gesture_event = refl
of_tag-tag log_chunk = refl
of_tag-tag board_status = refl

-- Two members of the union have the same tag only if they are the same.
pub tag_injective : (j k : Kind) → tag j ≡ tag k → j ≡ k
tag_injective j k e = cc (sym (of_tag-tag j) ∙ ap of_tag e ∙ of_tag-tag k)
