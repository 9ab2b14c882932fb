-- ===== src/Board/Tests.antt =====
-- Requests of the Board domain, and the theorems on them, with a small codec in place of nanopb.
use whad_lib.Prelude.{
  pos, ℕ, ◌≤◌, ◌≡◌, ◌≢◌, ◌↔◌, ◌⊎◌, refl, sym, List, [], ◌∷◌, flatten, length, true, Option, none,
  some, success, error, arith,
}
use whad_lib.Protocol.Kind.{Kind}
use whad_lib.Protocol.Payload.{Payload, member, zero_payload}
use whad_lib.Protocol.Pins.{ReleasePinRequest}
use whad_lib.Protocol.Streams.{StorageReadLogRequest}
use whad_lib.Protocol.Message.{Message, unset, board_msg}
use whad_lib.Ringbuf.{init, zeroed}
use whad_lib.Ringbuf.Invariant.{zeroed-IsValid}
use whad_lib.Ringbuf.Refine.{contents, contents-init}
use whad_lib.Transport.{Transport, idle, data_received, max_encoded_message_size}
use whad_lib.Transport.Drain.{drain}
use whad_lib.Whad.{Nanopb, send_message, get_message, get_message_domain}
use whad_lib.Whad.Deliver.{Carries, Line, get_message-send_message}
use whad_lib.Board.Codec.{validate, pack, unpack}
use whad_lib.Board.WellFormed.{WellFormed, IsPromised, IsUnchecked}
use whad_lib.Board.Conforms.{validate_iff}
use whad_lib.Board.Validate.{validate_lease, valid_enum}
use whad_lib.Board.ValidateMore.{validate_release_pin}
use whad_lib.Board.Laws.{unpack_rejects}
use whad_lib.Board.Exchange.{pack_exact, unpack_exact}
use whad_lib.Board.EndToEnd.{unpack-deliver}

-- A request for 900 bytes of the log, the most that one chunk carries.
abbrev request : StorageReadLogRequest
request = record { cursor = 7; max_bytes = 900 }

abbrev old : StorageReadLogRequest
old = record { cursor = 0; max_bytes = 0 }

abbrev request_msg : Message
request_msg = board_msg (record { request_id = 42; body = member Kind.storage_read_log request })

-- A release with the lease of resource 0, of a resource that is none.
abbrev release : ReleasePinRequest
release = record {
  has_lease = true;
  lease = record { resource = pos 0; instance = 1; generation = 2; owner = 3 };
  resource = pos 99;
  instance = 1;
}

validate_iff_example :
    (validate Kind.release_pin release ≡ success)
    ↔ (IsPromised Kind.release_pin release ⊎ IsUnchecked Kind.release_pin release)
validate_iff_example = validate_iff Kind.release_pin release tt

release_accepted : validate Kind.release_pin release ≡ success
unfolding validate validate_release_pin validate_lease valid_enum
release_accepted = refl

pack_exact_example :
    (WellFormed Kind.storage_read_log request
      × (pack Kind.storage_read_log (some unset) 42 (some request) ≡ (success, some request_msg)))
    ⊎ ((¬ (WellFormed Kind.storage_read_log request))
        × (pack Kind.storage_read_log (some unset) 42 (some request) ≡ (error, some unset)))
pack_exact_example = pack_exact Kind.storage_read_log request tt unset 42

unpack_exact_example :
    ((unpack Kind.storage_read_log (some request_msg) (some 0) (some old)).0 ≡ success) ↔ (
      (id : ℕ) × (v : StorageReadLogRequest) × (request_msg
        ≡ board_msg (record { request_id = id; body = member Kind.storage_read_log v }))
      × (validate Kind.storage_read_log v ≡ success))
unpack_exact_example = unpack_exact Kind.storage_read_log request_msg (some 0) old

kinds_differ : Kind.storage_read_log ≢ Kind.raw_pcm_diagnostics
kinds_differ e = cc

abbrev diagnostics : Payload Kind.raw_pcm_diagnostics
diagnostics = zero_payload Kind.raw_pcm_diagnostics

-- The message of another domain is refused.
unset_refused : (unpack Kind.storage_read_log (some unset) (some 0) (some old)).0 ≢ success
unfolding unpack get_message_domain
unset_refused e = cc

unpack_rejects_example :
    ((unpack Kind.storage_read_log (some unset) (some 0) (some old)).1 ≡ some 0)
    × ((unpack Kind.storage_read_log (some unset) (some 0) (some old)).2 ≡ some old)
unpack_rejects_example =
    unpack_rejects Kind.storage_read_log (some unset) (some 0) (some old) unset_refused

-- A codec that carries requests for 900 bytes from the cursor 7.
encode : Message → Option (List ℕ)
encode (board_msg b) = some (1 ∷ b.request_id ∷ [])
encode _ = none

decode : List ℕ → Option Message
decode (x ∷ id ∷ []) =
    some (board_msg (record { request_id = id; body = member Kind.storage_read_log request }))
decode _ = none

encode_short :
    (m : Message) (bytes : List ℕ) → encode m ≡ some bytes → length bytes ≤ max_encoded_message_size
unfolding encode
encode_short (board_msg b) bytes e = rw (sym same) (omega arith)
  where
    same : 1 ∷ b.request_id ∷ [] ≡ bytes
    same = cc
encode_short unset bytes e = cc
encode_short (Message.generic_msg _) bytes e = cc
encode_short (Message.discovery_msg _) bytes e = cc
encode_short (Message.ble_msg _) bytes e = cc
encode_short (Message.dot15d4_msg _) bytes e = cc
encode_short (Message.esb_msg _) bytes e = cc
encode_short (Message.unifying_msg _) bytes e = cc
encode_short (Message.phy_msg _) bytes e = cc

abbrev codec : Nanopb
codec = record { pb_encode = encode; pb_decode = decode; encode_fits = encode_short }

codec-Carries : Carries codec request_msg (1 ∷ 42 ∷ [])
unfolding encode decode
codec-Carries = record { encodes = refl; decodes = refl; nonempty = omega arith }

-- A transport that sends 64 bytes at a time.
abbrev fresh : Transport
fresh = record {
  state = idle;
  rx_buf = zeroed;
  tx_buf = zeroed;
  config = record { max_txbuf_size = 64; send_buffer = some (λ _. true) };
  sent = [];
}

zeroed_empty : contents zeroed ≡ []
unfolding init zeroed
zeroed_empty = contents-init zeroed

fresh-Line : Line fresh fresh 16 (λ _. true)
fresh-Line = record {
  can_send = record {
    valid = record { rx = zeroed-IsValid; tx = zeroed-IsValid };
    ready = refl;
    is_set = refl;
    takes = omega arith;
  };
  valid = zeroed-IsValid;
  none_queued = zeroed_empty;
  none_sent = refl;
  none_received = zeroed_empty;
  rounds = omega arith;
}

get_message-send_message_example :
    let (accepted, freed, a') = send_message codec request_msg fresh in
    let b' = (data_received (flatten (drain 16 a').sent) fresh).1 in
    let (s, got, b'') = get_message codec b' in
    (accepted ≡ success) × (s ≡ success) × (got ≡ some request_msg) × (contents b''.rx_buf ≡ [])
get_message-send_message_example =
    get_message-send_message codec request_msg (1 ∷ 42 ∷ []) 16 fresh fresh codec-Carries fresh-Line

unpack-deliver_example :
    (packed : Message) × (pack Kind.storage_read_log (some unset) 42 (some request)
      ≡ (success, some packed))
    × (let a' = drain 16 (send_message codec packed fresh).2 in
        let b' = (data_received (flatten a'.sent) fresh).1 in
        unpack Kind.storage_read_log (get_message codec b').1 (some 0) (some old)
        ≡ (success, some 42, some request))
unpack-deliver_example =
    unpack-deliver codec Kind.storage_read_log request tt (omega arith) 42 unset (1 ∷ 42 ∷ [])
      codec-Carries 16 fresh fresh fresh-Line 0 old
