-- ===== src/Whad/Deliver.antt =====
-- A message from `whad_send_message` on one side of a line to `whad_get_message` on the other.
use whad_lib.Prelude.{
  ℕ, ◌+◌, ◌*◌, ◌≤◌, ◌<◌, ◌≡◌, sym, ap, ◌∙◌, Bool, true, false, List, [], ◌∷◌, ◌++◌, ltb,
  if◌then◌else◌, length, flatten, map, append-nil, none, some, pos, Status, success, error,
  whad_none, arith,
}
use whad_lib.Protocol.Message.{Message}
use whad_lib.Ringbuf.Invariant
use whad_lib.Ringbuf.Refine.{contents}
use whad_lib.Transport
use whad_lib.Transport.{Transport, Reply, data_received, max_encoded_message_size, get_message_from}
use whad_lib.Transport.Frame.{frame, decode, decode-frame}
use whad_lib.Transport.Receive.{get_message_from_refines}
use whad_lib.Transport.Drain.{CanSend, drain}
use whad_lib.Transport.Channel.{queue_all, sent_frames, data_received_fits, send_message-queued}
use whad_lib.Whad
use whad_lib.Whad.{Nanopb, send_encoded, decoded, send_message, read_reply, get_message}

-- nanopb carries the message: it is encoded in at least one byte, and decoded from the bytes.
pub record Carries (pb : Nanopb) (m : Message) (bytes : List ℕ) : Type 0 where
  pub encodes : pb.pb_encode m ≡ some bytes
  pub decodes : pb.pb_decode bytes ≡ some m
  pub nonempty : 0 < length bytes

-- An idle sender with nothing queued or sent before, whose callback takes, in `n` rounds, all that a
-- ring holds; and a receiver with an empty ring.
pub record Line (a b : Transport) (n : ℕ) (callback : List ℕ → Bool) : Type 0 where
  pub can_send : CanSend a callback
  pub valid : Invariant.IsValid b.rx_buf
  pub none_queued : contents a.tx_buf ≡ []
  pub none_sent : a.sent ≡ []
  pub none_received : contents b.rx_buf ≡ []
  pub rounds : 1023 ≤ n * a.config.max_txbuf_size

send_message_lem :
    (pb : Nanopb) (m : Message) (bytes : List ℕ) (t : Transport)
    → Carries pb m bytes
    → send_message pb m t ≡ (
      (Transport.send_message (some bytes) (pos (length bytes)) t).0,
      Whad.free_message_resources m,
      (Transport.send_message (some bytes) (pos (length bytes)) t).1,
    )
unfolding send_message send_encoded
send_message_lem pb m bytes t c =
    ap (send_encoded m t) c.encodes
    ∙ ap (λ x. if x then (sent.0, Whad.free_message_resources m, sent.1) else (error, false, t))
        some_bytes
  where
    some_bytes : ltb 0 (length bytes) ≡ true
    some_bytes = ground (arith, c.nonempty)

    sent : Status × Transport
    sent = Transport.send_message (some bytes) (pos (length bytes)) t

read_reply_lem :
    (pb : Nanopb) (m : Message) (bytes : List ℕ)
    → Carries pb m bytes
    → read_reply pb (record { status = success; size = length bytes; bytes = bytes })
      ≡ (success, some m)
unfolding read_reply decoded
read_reply_lem pb m bytes c =
    ap (λ x. if x then decoded (pb.pb_decode bytes) else (whad_none, none)) some_bytes
    ∙ ap decoded c.decodes
  where
    some_bytes : ltb 0 (length bytes) ≡ true
    some_bytes = ground (arith, c.nonempty)

-- A message at the front of the receive ring is what the next call returns.
get_message_lem :
    (pb : Nanopb) (m : Message) (bytes : List ℕ) (t : Transport)
    → Carries pb m bytes
    → Invariant.IsValid t.rx_buf
    → contents t.rx_buf ≡ frame bytes
    → let (s, got, t') = get_message pb t in
      (s ≡ success) × (got ≡ some m) × (contents t'.rx_buf ≡ [])
unfolding get_message Transport.get_message
get_message_lem pb m bytes t c v held = (
  ap (λ r. (read_reply pb r.0).0) refined ∙ ap (λ r. r.0) (read_reply_lem pb m bytes c),
  ap (λ r. (read_reply pb r.0).1) refined ∙ ap (λ r. r.1) (read_reply_lem pb m bytes c),
  ap (λ r. r.1) refined,
)
  where
    small : length bytes ≤ max_encoded_message_size
    small = pb.encode_fits m bytes c.encodes

    refined :
        ◌≡◌ {A = Reply × List ℕ}
          (
            (get_message_from max_encoded_message_size t.rx_buf).0,
            contents (get_message_from max_encoded_message_size t.rx_buf).1,
          )
          (record { status = success; size = length bytes; bytes = bytes }, [])
    refined =
        get_message_from_refines max_encoded_message_size v
        ∙ ap (decode max_encoded_message_size) (held ∙ sym (append-nil (frame bytes)))
        ∙ decode-frame max_encoded_message_size bytes [] small small

-- Let nanopb encode a message in at least one byte and decode it from its bytes; let the sender be
-- idle with nothing queued or sent before and take, in `n` rounds, at least 1023 bytes; and let the
-- ring of the receiver be empty. Then `whad_send_message` accepts the message, and once the sender
-- has handed over its queue in `n` rounds and the receiver has taken in the buffers,
-- `whad_get_message` succeeds with this message and leaves the ring empty.
pub get_message-send_message :
    (pb : Nanopb) (m : Message) (bytes : List ℕ) (n : ℕ) (a b : Transport)
    {callback : List ℕ → Bool}
    → Carries pb m bytes
    → Line a b n callback
    → let (accepted, freed, a') = send_message pb m a in
      let b' = (data_received (flatten (drain n a').sent) b).1 in
      let (s, got, b'') = get_message pb b' in
      (accepted ≡ success) × (s ≡ success) × (got ≡ some m) × (contents b''.rx_buf ≡ [])
unfolding queue_all flatten
get_message-send_message pb m bytes n a b {callback} c line =
    let (_, held, v) =
      data_received_fits (flatten (drain n a').sent) b line.valid
        (omega (arith, ap length stream, ap length line.none_received, small)) in
    let (ok, got, left) =
      get_message_lem pb m bytes (data_received (flatten (drain n a').sent) b).1 c v
        (held ∙ ap (λ x. x ++ flatten (drain n a').sent) line.none_received ∙ stream) in
    (
      ap (λ r. r.0) (send_message_lem pb m bytes a c)
          ∙ ap (λ r. r.0) (send_message-queued bytes a line.can_send.valid room),
      ok,
      got,
      left,
    )
  where
    a' : Transport
    a' = (send_message pb m a).2

    small : length bytes ≤ max_encoded_message_size
    small = pb.encode_fits m bytes c.encodes

    room : length bytes + 4 + length (contents a.tx_buf) ≤ 1023
    room = omega (arith, ap length line.none_queued, small)

    one : flatten (map frame (bytes ∷ [])) ≡ frame bytes
    one = append-nil (frame bytes)

    stream : flatten (drain n a').sent ≡ frame bytes
    stream =
        ap (λ r. flatten (drain n r.2).sent) (send_message_lem pb m bytes a c)
        ∙ sent_frames (bytes ∷ []) n a line.can_send line.none_queued line.none_sent
            (omega (arith, ap length one, small)) line.rounds
        ∙ one
