-- ===== src/Transport/Channel.antt =====
-- Two transports whose send callback and `whad_transport_data_received` are joined by a line.
use whad_lib.Prelude.{
  ℕ, ◌+◌, ◌-◌, ◌*◌, ◌≤◌, ◌≡◌, refl, sym, ap, subst, ◌∙◌, Bool, true, false, List, [], ◌∷◌, ◌++◌,
  ltb, leb, if◌then◌else◌, length, length-append, take_all, flatten, map, append-nil, append_assoc,
  some, pos, success, ringbuf_full, arith, length_rules,
}
use whad_lib.Ringbuf.Invariant
use whad_lib.Ringbuf.Refine.{contents}
use whad_lib.Transport.{
  Transport, send_message, send_frame, push_message, push_frame, frame_header, data_received,
  header_size, max_encoded_message_size,
}
use whad_lib.Transport.Frame.{frame}
use whad_lib.Transport.Outgoing.{IsValid}
use whad_lib.Transport.Drain.{CanSend, drain, drain_all}
use whad_lib.Transport.Receive.{enqueue_lem}
use whad_lib.Transport.Poll.{poll, poll-frames, IsPayload, All}
use whad_lib.Transport.Push.{push_frame_fits}
use whad_lib.Transport.Send.{wait_tx_space_now}

-- The transport with the frame of a payload behind the bytes queued.
abbrev pub queued : List ℕ → Transport → Transport
queued p t = record t { tx_buf = (push_frame (frame p) 0 t.tx_buf).1 }

-- The bytes that a payload takes up, with the queue before it.
abbrev HasRoom : List ℕ → Transport → Type 0
HasRoom p t = length p + 4 + length (contents t.tx_buf) ≤ 1023

send_frame-queued :
    (p : List ℕ) (t : Transport)
    → IsValid t
    → HasRoom p t
    → send_frame p (length p) t ≡ (success, queued p t)
unfolding send_frame push_message
send_frame-queued p t v room =
    ap (push_message p (length p)) (wait_tx_space_now (length p + header_size) t v (omega arith))
    ∙ ap
        (λ q.
          let r = push_frame (frame_header (length p) ++ q) 0 t.tx_buf in
          (r.0, record t { tx_buf = r.1 }))
        (take_all (length p) p (omega arith))
    ∙ ap (λ s. (s, queued p t)) (push_frame_fits (frame p) 0 v.tx (omega arith)).0

pub send_message-queued :
    (p : List ℕ) (t : Transport)
    → IsValid t
    → HasRoom p t
    → send_message (some p) (pos (length p)) t ≡ (success, queued p t)
unfolding send_message
send_message-queued p t v room = simp (fits) (send_frame-queued p t v room)
  where
    fits : ltb max_encoded_message_size (length p) ≡ false
    fits = ground arith

pub contents-queued :
    (p : List ℕ) (t : Transport)
    → IsValid t
    → HasRoom p t
    → contents (queued p t).tx_buf ≡ contents t.tx_buf ++ frame p
contents-queued p t v room = (push_frame_fits (frame p) 0 v.tx (omega arith)).1

pub queued-IsValid : (p : List ℕ) (t : Transport) → IsValid t → HasRoom p t → IsValid (queued p t)
queued-IsValid p t v room = record {
  rx = v.rx;
  tx = (push_frame_fits (frame p) 0 v.tx (omega arith)).2;
}

pub queued-CanSend :
    (p : List ℕ) {t : Transport} {callback : List ℕ → Bool}
    → CanSend t callback
    → HasRoom p t
    → CanSend (queued p t) callback
queued-CanSend p {t} c room = record {
  valid = queued-IsValid p t c.valid room;
  ready = c.ready;
  is_set = c.is_set;
  takes = c.takes;
}

-- `whad_transport_data_received` on bytes for which there is room.
pub data_received_fits :
    (bytes : List ℕ) (t : Transport)
    → Invariant.IsValid t.rx_buf
    → length bytes + length (contents t.rx_buf) ≤ 1023
    → let (s, t') = data_received bytes t in
      (s ≡ success)
      × (contents t'.rx_buf ≡ contents t.rx_buf ++ bytes)
      × Invariant.IsValid t'.rx_buf
unfolding data_received
data_received_fits bytes t v room =
    let (s, c, v') = enqueue_lem bytes v in
    (
      s ∙ ap (λ b. if b then success else ringbuf_full) fits,
      c ∙ ap (λ q. contents t.rx_buf ++ q) (take_all _ bytes (omega arith)),
      v',
    )
  where
    fits : leb (length bytes) (1023 - length (contents t.rx_buf)) ≡ true
    fits = ground arith

-- Payloads queued one after the other.
unfoldable pub queue_all : List (List ℕ) → Transport → Transport
queue_all [] t = t
queue_all (p ∷ ps) t = queue_all ps (send_message (some p) (pos (length p)) t).1

AllFit : List (List ℕ) → Transport → Type 0
AllFit ps t = length (flatten (map frame ps)) + length (contents t.tx_buf) ≤ 1023

record Queued (ps : List (List ℕ)) (t t' : Transport) (callback : List ℕ → Bool) : Type 0 where
  pub can_send : CanSend t' callback
  pub held : contents t'.tx_buf ≡ contents t.tx_buf ++ flatten (map frame ps)
  pub same_sent : t'.sent ≡ t.sent
  pub same_config : t'.config ≡ t.config

queue_all_lem :
    (ps : List (List ℕ)) (t : Transport) {callback : List ℕ → Bool}
    → CanSend t callback
    → AllFit ps t
    → Queued ps t (queue_all ps t) callback
unfolding queue_all flatten AllFit
queue_all_lem [] t c room = record {
  can_send = c;
  held = sym (append-nil (contents t.tx_buf));
  same_sent = refl;
  same_config = refl;
}
queue_all_lem (p ∷ ps) t {callback} c room =
    let rest = queue_all_lem ps (queued p t) (queued-CanSend p c fits) after in
    subst (λ r. Queued (p ∷ ps) t (queue_all ps r) callback) (sym (ap (λ r. r.1) one))
      (record {
        can_send = rest.can_send;
        held =
            rest.held
            ∙ ap (λ q. q ++ flatten (map frame ps)) held
            ∙ append_assoc (contents t.tx_buf) (frame p) (flatten (map frame ps));
        same_sent = rest.same_sent;
        same_config = rest.same_config;
      })
  where
    size : length (flatten (map frame (p ∷ ps))) ≡ length p + 4 + length (flatten (map frame ps))
    size = length-append (frame p) (flatten (map frame ps)) ∙ omega arith

    fits : HasRoom p t
    fits = omega (arith, size)

    one : send_message (some p) (pos (length p)) t ≡ (success, queued p t)
    one = send_message-queued p t c.valid fits

    held : contents (queued p t).tx_buf ≡ contents t.tx_buf ++ frame p
    held = contents-queued p t c.valid fits

    after : AllFit ps (queued p t)
    after = omega (length_rules, ap length held, size)

empty_fits :
    (ps : List (List ℕ)) (t : Transport)
    → contents t.tx_buf ≡ []
    → length (flatten (map frame ps)) ≤ 1023
    → AllFit ps t
unfolding AllFit
empty_fits ps t empty room = omega (arith, ap length empty)

-- The bytes that the callback is given are the frames.
pub sent_frames :
    (ps : List (List ℕ)) (n : ℕ) (a : Transport) {callback : List ℕ → Bool}
    → CanSend a callback
    → contents a.tx_buf ≡ []
    → a.sent ≡ []
    → length (flatten (map frame ps)) ≤ 1023
    → 1023 ≤ n * a.config.max_txbuf_size
    → flatten (drain n (queue_all ps a)).sent ≡ flatten (map frame ps)
unfolding flatten
sent_frames ps n a c empty none_sent room rounds =
    let q = queue_all_lem ps a c (empty_fits ps a empty room) in
    let held = q.held ∙ ap (λ x. x ++ flatten (map frame ps)) empty in
    (drain_all n q.can_send
      (omega (arith, ap length held, ap (λ x. n * x.max_txbuf_size) q.same_config))).1
    ∙ ap (λ x. flatten x ++ contents (queue_all ps a).tx_buf) (q.same_sent ∙ none_sent)
    ∙ held

-- Payloads of 1 to 1019 bytes whose frames fit a ring together are queued on an idle transport with
-- nothing queued or sent before, sent in `n` rounds, enough for 1023 bytes, and the buffers that the
-- callback was given are received by a transport with an empty receive ring. As many calls of
-- `whad_transport_get_message` as there are payloads then hand out exactly the payloads, in order,
-- and leave nothing behind.
pub poll-queue_all :
    (ps : List (List ℕ)) (n : ℕ) (a b : Transport) {callback : List ℕ → Bool}
    → CanSend a callback
    → Invariant.IsValid b.rx_buf
    → contents a.tx_buf ≡ []
    → a.sent ≡ []
    → contents b.rx_buf ≡ []
    → All (IsPayload max_encoded_message_size) ps
    → length (flatten (map frame ps)) ≤ 1023
    → 1023 ≤ n * a.config.max_txbuf_size
    → let a' = drain n (queue_all ps a) in
      let (s, b') = data_received (flatten a'.sent) b in
      let (payloads, b'') = poll (length ps) max_encoded_message_size b' in
      (s ≡ success) × (payloads ≡ ps) × (contents b''.rx_buf ≡ [])
poll-queue_all ps n a b c v empty none_sent nothing ok room rounds =
    let line = sent_frames ps n a c empty none_sent room rounds in
    let (s, held, v') =
      data_received_fits (flatten (drain n (queue_all ps a)).sent) b v
        (omega (arith, ap length line, ap length nothing)) in
    let (got, left) =
      poll-frames max_encoded_message_size
        (data_received (flatten (drain n (queue_all ps a)).sent) b).1 ps [] v' ok
        (held
          ∙ ap (λ x. x ++ flatten (drain n (queue_all ps a)).sent) nothing
          ∙ line
          ∙ sym (append-nil (flatten (map frame ps)))) in
    (s, got, left)
