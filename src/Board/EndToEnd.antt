-- ===== src/Board/EndToEnd.antt =====
-- A value of the Board domain from one program to another, through every layer of the library.
use whad_lib.Prelude.{ℕ, ◌≡◌, ap, ◌∙◌, Bool, List, flatten, some, success}
use whad_lib.Protocol.Kind.{Kind}
use whad_lib.Protocol.Payload.{Payload, member}
use whad_lib.Protocol.Message.{Message, board_msg}
use whad_lib.Transport.{Transport, data_received}
use whad_lib.Transport.Drain.{drain}
use whad_lib.Whad.{Nanopb, send_message, get_message}
use whad_lib.Whad.Deliver.{Carries, Line, get_message-send_message}
use whad_lib.Board.Codec.{pack, unpack}
use whad_lib.Board.WellFormed.{WellFormed, In32Bits}
use whad_lib.Board.Conforms.{accepts_iff}
use whad_lib.Board.Laws.{pack_accepts, unpack_accepts}

-- For each of the 49 messages of the domain: packing a well-formed value succeeds. If nanopb encodes
-- the message in at least one byte and decodes it from its bytes, the sender is idle with nothing
-- queued or sent before and takes, in `n` rounds, at least 1023 bytes, and the ring of the receiver is
-- empty, then the message that `whad_get_message` returns on the other side is parsed to the request
-- identifier and the value that were packed.
pub unpack-deliver :
    (pb : Nanopb) (k : Kind) (v : Payload k)
    → In32Bits k v
    → WellFormed k v
    → (id : ℕ) (m : Message) (bytes : List ℕ)
    → Carries pb (board_msg (record { request_id = id; body = member k v })) bytes
    → (n : ℕ) (a b : Transport) {callback : List ℕ → Bool} → Line a b n callback
    → (rid : ℕ) (old : Payload k)
    → (packed : Message) × (pack k (some m) id (some v) ≡ (success, some packed))
      × (let a' = drain n (send_message pb packed a).2 in
          let b' = (data_received (flatten a'.sent) b).1 in
          unpack k (get_message pb b').1 (some rid) (some old) ≡ (success, some id, some v))
unpack-deliver pb k v w f id m bytes c n a b line rid old =
    let valid = (accepts_iff k v w).1 f in
    let packed = board_msg (record { request_id = id; body = member k v }) in
    (
      packed,
      pack_accepts k m id v valid,
      ap (λ x. unpack k x (some rid) (some old))
            (get_message-send_message pb packed bytes n a b c line).2
          ∙ unpack_accepts k id v (some rid) old valid,
    )
