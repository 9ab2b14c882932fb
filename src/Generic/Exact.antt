-- ===== src/Generic/Exact.antt =====
-- Which messages the generic functions make and accept.
use whad_lib.Prelude.{ℕ, ◌≡◌, ◌↔◌, refl, ap, List, some, ℤ, success}
use whad_lib.Protocol.Message.{
  Message, unset, generic_msg, generic_unset, result, cmd_result, progress, debug, verbose,
}
use mathlib.Core.Option
use whad_lib.Generic.{
  get_message_type, write_cmd_result, cmd_result_parse, verbose_message, debug_message,
  progress_message,
}

accepted :
    (m : Message) (old : ℤ)
    → (cmd_result_parse (some m) (some old)).0 ≡ success
    → (code : ℤ) × (m ≡ generic_msg (cmd_result code))
unfolding cmd_result_parse
accepted (generic_msg (cmd_result code)) old e = (code, refl)
accepted (generic_msg generic_unset) old e = cc
accepted (generic_msg (result _)) old e = cc
accepted (generic_msg (progress _)) old e = cc
accepted (generic_msg (debug _ _)) old e = cc
accepted (generic_msg (verbose _)) old e = cc
accepted unset old e = cc
accepted (Message.discovery_msg _) old e = cc
accepted (Message.ble_msg _) old e = cc
accepted (Message.dot15d4_msg _) old e = cc
accepted (Message.esb_msg _) old e = cc
accepted (Message.unifying_msg _) old e = cc
accepted (Message.phy_msg _) old e = cc
accepted (Message.board_msg _) old e = cc

-- `whad_generic_cmd_result_parse` succeeds exactly on the messages that `whad_generic_cmd_result`
-- makes, and then writes the result code that was given to it.
pub cmd_result_parse_exact :
    (m : Message) (old : ℤ)
    → ((cmd_result_parse (some m) (some old)).0 ≡ success) ↔ (
        (code : ℤ) × (some m ≡ (write_cmd_result (some m) code).1)
        × (cmd_result_parse (some m) (some old) ≡ (success, some code)))
unfolding cmd_result_parse write_cmd_result
cmd_result_parse_exact m old = (
  (λ e.
      let (code, same) = accepted m old e in
      (code, ap some same, ap (λ x. cmd_result_parse (some x) (some old)) same)),
  (λ found. ap (λ r. r.0) found.2),
)

-- Whatever the message held before, the message that each of the four functions makes has the type of
-- this function.
pub get_message_type-made :
    (m : Message) (code : ℤ) (level value : ℕ) (text : List ℕ)
    → (Option.map get_message_type (write_cmd_result (some m) code).1 ≡ some 2)
      × (Option.map get_message_type (progress_message (some m) value).1 ≡ some 3)
      × (Option.map get_message_type (debug_message (some m) level text).1 ≡ some 4)
      × (Option.map get_message_type (verbose_message (some m) text).1 ≡ some 5)
unfolding get_message_type write_cmd_result progress_message debug_message verbose_message
get_message_type-made m code level value text = (refl, refl, refl, refl)
