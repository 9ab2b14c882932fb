-- ===== src/Generic/Tests.antt =====
-- Generic messages of every type.
use whad_lib.Prelude.{ℕ, ◌≡◌, ◌↔◌, refl, true, false, List, [], ◌∷◌, ◌++◌, some, ℤ, pos, success}
use whad_lib.Protocol.Message.{generic_msg, cmd_result}
use whad_lib.Generic.{Encoder, encode_cb, write_cmd_result, cmd_result_parse}
use whad_lib.Generic.Exact.{cmd_result_parse_exact}

cmd_result_parse_exact_example :
    ((cmd_result_parse (some (generic_msg (cmd_result (pos 6)))) (some (pos 1))).0 ≡ success) ↔ (
      (code : ℤ) × (some (generic_msg (cmd_result (pos 6)))
        ≡ (write_cmd_result (some (generic_msg (cmd_result (pos 6)))) code).1)
      × (cmd_result_parse (some (generic_msg (cmd_result (pos 6)))) (some (pos 1))
          ≡ (success, some code)))
cmd_result_parse_exact_example = cmd_result_parse_exact (generic_msg (cmd_result (pos 6))) (pos 1)

-- A stream that has room for the tag of a field, and for no string.
abbrev full : Encoder (List ℕ)
full = record {
  pb_encode_tag_for_field = λ s. (true, s ++ (10 ∷ []));
  pb_encode_string = λ s text. (false, s);
}

-- The callback reports success although the string was not written.
encode_cb-full : encode_cb full 1 (some []) 1 (79 ∷ 75 ∷ []) ≡ (true, some (10 ∷ []))
unfolding encode_cb
encode_cb-full = refl
