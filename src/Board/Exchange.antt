-- ===== src/Board/Exchange.antt =====
-- What the packing and parsing functions of the Board domain do on every input.
use whad_lib.Prelude.{
  ℕ, ◌-◌, ◌≡◌, ◌≢◌, ◌↔◌, ◌⊎◌, refl, ap, ◌∙◌, false, Bool-cases, inl, inr, Option, none, some, ◌==◌,
  subst, ltb, if◌then◌else◌, success, error, is_success, arith,
}
use mathlib.Core.Option
use whad_lib.Protocol.Kind.{Kind, tag, tag_injective}
use whad_lib.Protocol.Payload.{Payload, Body, no_body, member}
use whad_lib.Protocol.Message.{Message, unset, board_msg}
use whad_lib.Whad.{get_message_domain}
use whad_lib.Board.Codec.{
  validate, pack, unpack, unpack_board, get_message_type, command_of, command_from_message_type,
}
use whad_lib.Board.WellFormed.{WellFormed, In32Bits}
use whad_lib.Board.Conforms.{accepts_iff}
use whad_lib.Board.Laws.{
  is_success-true, is_success-false, pack_accepts, pack_error, unpack_accepts, unpack_inverts,
}

-- Packing a well-formed value, whose offset and count are 32-bit numbers, into a message and parsing the message with the function of the same
-- type succeeds, and gives back the request identifier and the value.
pub unpack-pack :
    (k : Kind) (v : Payload k)
    → In32Bits k v
    → WellFormed k v
    → (m : Message) (id rid : ℕ) (old : Payload k)
    → unpack k (pack k (some m) id (some v)).1 (some rid) (some old) ≡ (success, some id, some v)
unpack-pack k v w f m id rid old =
    ap (λ r. unpack k r.1 (some rid) (some old)) (pack_accepts k m id v valid)
    ∙ unpack_accepts k id v (some rid) old valid
  where
    valid : validate k v ≡ success
    valid = (accepts_iff k v w).1 f

-- Packing a value, whose offset and count are 32-bit numbers, either succeeds on a well-formed value and replaces the whole message, or fails on a value
-- that is not well-formed and leaves the message as it was.
pub pack_exact :
    (k : Kind) (v : Payload k)
    → In32Bits k v
    → (m : Message) (id : ℕ)
    → (WellFormed k v
        × (pack k (some m) id (some v)
            ≡ (success, some (board_msg (record { request_id = id; body = member k v })))))
      ⊎ ((¬ (WellFormed k v)) × (pack k (some m) id (some v) ≡ (error, some m)))
pack_exact k v w m id = elim (Bool-cases (is_success (validate k v))) [
  | inl ok ↦
      let valid = is_success-true (validate k v) ok in
      inl ((accepts_iff k v w).0 valid, pack_accepts k m id v valid)
  | inr bad ↦ inr (
    (λ f. is_success-false (validate k v) bad ((accepts_iff k v w).1 f)),
    pack_error k m id v bad,
  )
]

-- A parse succeeds exactly on the messages of its type whose value the validator accepts.
pub unpack_exact :
    (k : Kind) (m : Message) (rid : Option ℕ) (old : Payload k)
    → ((unpack k (some m) rid (some old)).0 ≡ success) ↔ (
        (id : ℕ) × (v : Payload k) × (m ≡ board_msg (record { request_id = id; body = member k v }))
        × (validate k v ≡ success))
unpack_exact k m rid old = (
  (λ ok. let (id, v, e, valid, _) = unpack_inverts k m rid old ok in (id, v, e, valid)),
  (λ found.
      ap (λ x. (unpack k (some x) rid (some old)).0) found.2
      ∙ ap (λ r. r.0) (unpack_accepts k found.0 found.1 rid old found.3)),
)

type_found :
    (k : Kind) (m : Message)
    → get_message_type (some m) ≡ some k
    → (id : ℕ) × (v : Payload k) × (m ≡ board_msg (record { request_id = id; body = member k v }))
unfolding get_message_type get_message_domain Option.bind
type_found k unset e = cc
type_found k (Message.generic_msg _) e = cc
type_found k (Message.discovery_msg _) e = cc
type_found k (Message.ble_msg _) e = cc
type_found k (Message.dot15d4_msg _) e = cc
type_found k (Message.esb_msg _) e = cc
type_found k (Message.unifying_msg _) e = cc
type_found k (Message.phy_msg _) e = cc
type_found k (board_msg b) e = body_found b.request_id b.body e
  where
    body_found :
        (id : ℕ) (x : Body)
        → (elim x [ no_body ↦ none | member j v ↦ some j ]) ≡ some k
        → (i : ℕ) × (w : Payload k) × (board_msg (record { request_id = id; body = x })
            ≡ board_msg (record { request_id = i; body = member k w }))
    body_found id no_body q = absurd (none_ne_some q)
      where
        none_ne_some : ◌≡◌ {A = Option Kind} none (some k) → ⊥
        none_ne_some z = cc
    body_found id (member j v) q =
        subst
          (λ x.
            (i : ℕ) × (w : Payload x) × (board_msg (record { request_id = id; body = member j v })
              ≡ board_msg (record { request_id = i; body = member x w })))
          same (id, v, refl)
      where
        same : j ≡ k
        same = cc

-- The type of a message is `k` exactly when its Board member holds the member of `k`.
pub get_message_type_iff :
    (k : Kind) (m : Message)
    → (get_message_type (some m) ≡ some k) ↔ (
        (id : ℕ) × (v : Payload k) × (m
          ≡ board_msg (record { request_id = id; body = member k v })))
unfolding get_message_type get_message_domain Option.bind
get_message_type_iff k m = (type_found k m, λ found. ap (λ x. get_message_type (some x)) found.2)

-- A message that holds the member of another type is refused.
pub unpack_other :
    (j k : Kind)
    → j ≢ k
    → (id : ℕ) (v : Payload j) (rid : Option ℕ) (old : Payload k)
    → unpack k (some (board_msg (record { request_id = id; body = member j v }))) rid (some old)
      ≡ (error, rid, some old)
unfolding unpack unpack_board get_message_domain
unpack_other j k ne id v rid old = simp (eq_false (tag j) (tag k) (λ e. ne (tag_injective j k e)))
  where
    eq_false : (m n : ℕ) → m ≢ n → (m == n) ≡ false
    eq_false m n e = ground arith

-- The message types that are requests have the commands 0 to 27, in the order of their tags, and the
-- other types have none: then the function fails and `*p_command` keeps its value.
pub command_of_tag :
    (k : Kind) (old : ℕ)
    → command_from_message_type (some k) (some old)
      ≡ (if ltb (tag k) 30 then (success, some (tag k - 2)) else (error, some old))
unfolding command_from_message_type command_of
command_of_tag Kind.get_board_info old = refl
command_of_tag Kind.list_sensors old = refl
command_of_tag Kind.read_sensor old = refl
command_of_tag Kind.configure_stream old = refl
command_of_tag Kind.stop_stream old = refl
command_of_tag Kind.calibrate old = refl
command_of_tag Kind.get_calibration old = refl
command_of_tag Kind.set_output old = refl
command_of_tag Kind.get_input_state old = refl
command_of_tag Kind.configure_input old = refl
command_of_tag Kind.i2c_transfer old = refl
command_of_tag Kind.gpio_configure old = refl
command_of_tag Kind.gpio_read old = refl
command_of_tag Kind.gpio_write old = refl
command_of_tag Kind.adc_read old = refl
command_of_tag Kind.spi_transfer old = refl
command_of_tag Kind.storage_info old = refl
command_of_tag Kind.storage_adopt old = refl
command_of_tag Kind.storage_read_log old = refl
command_of_tag Kind.storage_erase_log old = refl
command_of_tag Kind.get_runtime_config old = refl
command_of_tag Kind.set_runtime_config old = refl
command_of_tag Kind.set_runtime_mode old = refl
command_of_tag Kind.remote_profile_get old = refl
command_of_tag Kind.remote_profile_set old = refl
command_of_tag Kind.audio_configure old = refl
command_of_tag Kind.release_pin old = refl
command_of_tag Kind.raw_pcm_diagnostics old = refl
command_of_tag Kind.command_result old = refl
command_of_tag Kind.board_info old = refl
command_of_tag Kind.sensor_descriptor old = refl
command_of_tag Kind.sensor_sample old = refl
command_of_tag Kind.stream_configured old = refl
command_of_tag Kind.calibration old = refl
command_of_tag Kind.input_state old = refl
command_of_tag Kind.i2c_result old = refl
command_of_tag Kind.gpio_configured old = refl
command_of_tag Kind.gpio_value old = refl
command_of_tag Kind.adc_value old = refl
command_of_tag Kind.spi_result old = refl
command_of_tag Kind.storage_status old = refl
command_of_tag Kind.runtime_config old = refl
command_of_tag Kind.remote_profile old = refl
command_of_tag Kind.audio_configured old = refl
command_of_tag Kind.audio_chunk old = refl
command_of_tag Kind.input_event old = refl
command_of_tag Kind.gesture_event old = refl
command_of_tag Kind.log_chunk old = refl
command_of_tag Kind.board_status old = refl
