-- ===== src/Generic.antt =====
-- src/generic.c and inc/generic.h: command results, text messages and progress.
pub mod Exact
mod Tests
use whad_lib.Prelude.{
  ℕ, ◌≡◌, Bool, true, false, List, Option, none, some, ℤ, ◌==◌, if◌then◌else◌, Status, success,
  error,
}
use whad_lib.Protocol.Message.{
  Message, GenericMessage, generic_msg, generic_unset, result, cmd_result, progress, debug, verbose,
}

-- `which_msg` of `generic_Message`.
abbrev pub which_msg : GenericMessage → ℕ
which_msg generic_unset = 0
which_msg (result _) = 1
which_msg (cmd_result _) = 2
which_msg (progress _) = 3
which_msg (debug _ _) = 4
which_msg (verbose _) = 5

-- `whad_generic_msgtype_t`, by value: 0 for `WHAD_GENERIC_UNKNOWN`, and the tags.
unfoldable pub get_message_type : Message → ℕ
get_message_type (generic_msg g) = which_msg g
get_message_type _ = 0

-- Each function writes the message that `p_message` points to, unless it is NULL.
unfoldable pub write_cmd_result : Option Message → ℤ → Status × Option Message
write_cmd_result none code = (error, none)
write_cmd_result (some m) code = (success, some (generic_msg (cmd_result code)))

-- The status, and `*p_result` afterwards.
unfoldable pub cmd_result_parse : Option Message → Option ℤ → Status × Option ℤ
cmd_result_parse none out = (error, out)
cmd_result_parse (some m) none = (error, none)
cmd_result_parse (some (generic_msg (cmd_result code))) (some old) = (success, some code)
cmd_result_parse (some _) (some old) = (error, some old)

unfoldable pub verbose_message : Option Message → List ℕ → Status × Option Message
verbose_message none text = (error, none)
verbose_message (some m) text = (success, some (generic_msg (verbose text)))

unfoldable pub debug_message : Option Message → ℕ → List ℕ → Status × Option Message
debug_message none level text = (error, none)
debug_message (some m) level text = (success, some (generic_msg (debug level text)))

unfoldable pub progress_message : Option Message → ℕ → Status × Option Message
progress_message none value = (error, none)
progress_message (some m) value = (success, some (generic_msg (progress value)))

-- The functions of nanopb that the encoding callbacks call, over the state of an output stream.
pub record Encoder (S : Type 0) : Type 0 where
  pub pb_encode_tag_for_field : S → Bool × S
  pub pb_encode_string : S → List ℕ → Bool × S

module _ {S : Type 0} (encoder : Encoder S) where
  -- The two callbacks, which differ in the tag of the field: `data_tag` is 1 for
  -- `whad_verbose_msg_encode_cb` and 2 for `whad_debug_msg_encode_cb`. The stream may be NULL, and the
  -- result of `pb_encode_string` is not looked at.
  unfoldable pub encode_cb : ℕ → Option S → ℕ → List ℕ → Bool × Option S
  encode_cb data_tag none field_tag text = (true, none)
  encode_cb data_tag (some stream) field_tag text =
      let (ok, stream') = encoder.pb_encode_tag_for_field stream in
      if field_tag == data_tag
      then if ok
        then (true, some (encoder.pb_encode_string stream' text).1)
        else (false, some stream')
      else (true, some stream)
