-- ===== src/Transport/Send.antt =====
-- `whad_transport_send_message`: a whole frame is queued, or nothing.
use whad_lib.Prelude.{
  ℕ, ◌+◌, ◌≤◌, ◌≡◌, refl, sym, ap, ◌∙◌, true, false, List, [], ◌++◌, leb, ltb, if◌then◌else◌,
  Bool-cases, inl, inr, leb→le, length, take, flatten, length-take, take_all, append_assoc,
  append-nil, some, pos, Status, success, error, ringbuf_full, is_success, arith, length_rules,
}
use whad_lib.Ringbuf
use whad_lib.Ringbuf.{Ringbuf}
use whad_lib.Ringbuf.Invariant.{push-IsValid, skip-IsValid}
use whad_lib.Ringbuf.Invariant
use whad_lib.Ringbuf.Refine.{contents}
use whad_lib.Ringbuf.View.{get_free_size-contents}
use whad_lib.Transport.{
  Transport, is_idle, send_pending, wait_tx_space, send_frame, send_message, frame_header,
  header_size, max_encoded_message_size,
}
use whad_lib.Transport.Frame.{frame}
use whad_lib.Transport.Outgoing.{
  IsValid, outgoing, outgoing-send_pending, send_pending-IsValid, rx_buf-send_pending,
}
use whad_lib.Transport.Push.{push_frame_fits}

pub record Waited (size : ℕ) (t t' : Transport) (s : Status) : Type 0 where
  pub valid : IsValid t'
  pub same_stream : outgoing t' ≡ outgoing t
  pub same_rx : t'.rx_buf ≡ t.rx_buf
  pub room : is_success s ≡ true → size + length (contents t'.tx_buf) ≤ 1023

-- The transport after the attempt to send that `whad_transport_wait_tx_space` makes.
after_attempt :
    (t : Transport)
    → IsValid t
    → (size : ℕ) (s : Status)
    → let t' = if is_idle t.state then (send_pending t).1 else t in
      (is_success s ≡ true → size + length (contents t'.tx_buf) ≤ 1023) → Waited size t t' s
after_attempt t v size s room = elim (Bool-cases (is_idle t.state)) [
  | inl ready ↦ rw ready (record {
    valid = send_pending-IsValid t v;
    same_stream = outgoing-send_pending t v;
    same_rx = rx_buf-send_pending t v;
    room = rw ready at room;
  })
  | inr busy ↦
      rw busy (record { valid = v; same_stream = refl; same_rx = refl; room = rw busy at room })
]

attempted-IsValid :
    (t : Transport) → IsValid t → IsValid (if is_idle t.state then (send_pending t).1 else t)
attempted-IsValid t v = elim (Bool-cases (is_idle t.state)) [
  | inl ready ↦ rw ready (send_pending-IsValid t v)
  | inr busy ↦ rw busy v
]

enough :
    (size : ℕ) (r : Ringbuf)
    → Invariant.IsValid r
    → leb size (Ringbuf.get_free_size r) ≡ true
    → size + length (contents r) ≤ 1023
enough size r v h = omega (arith, get_free_size-contents v, leb→le _ _ h)

wait_tx_space_lem :
    (size : ℕ) (t : Transport)
    → IsValid t
    → Waited size t (wait_tx_space size t).1 (wait_tx_space size t).0
unfolding wait_tx_space
wait_tx_space_lem size t v = elim (Bool-cases (leb size (Ringbuf.get_free_size t.tx_buf))) [
  | inl now ↦ rw now (record {
    valid = v;
    same_stream = refl;
    same_rx = refl;
    room = λ _. enough size t.tx_buf v.tx now;
  })
  | inr later ↦ elim (Bool-cases (leb size (Ringbuf.get_free_size t'.tx_buf))) [
    | inl then_fits ↦
        simp (later, then_fits)
          (after_attempt t v size success
            (λ _. enough size t'.tx_buf (attempted-IsValid t v).tx then_fits))
    | inr never ↦ simp (later, never) (after_attempt t v size ringbuf_full (λ h. cc))
  ]
]
  where
    t' : Transport
    t' = if is_idle t.state then (send_pending t).1 else t

-- What is claimed of an attempt to send `bytes`.
abbrev Atomic : List ℕ → Transport → Status → Transport → Type 0
Atomic bytes t s t' =
    (outgoing t' ≡ outgoing t ++ (if is_success s then bytes else []))
    × IsValid t'
    × (t'.rx_buf ≡ t.rx_buf)

unchanged :
    (bytes : List ℕ) (t : Transport) (s : Status)
    → IsValid t
    → is_success s ≡ false
    → Atomic bytes t s t
unchanged bytes t s v failed = (rw failed (sym (append-nil (outgoing t))), v, refl)

send_frame-Atomic :
    (message : List ℕ) (size : ℕ) (t : Transport)
    → IsValid t
    → size ≤ length message
    → let (s, t') = send_frame message size t in
      Atomic (frame_header size ++ take size message) t s t'
unfolding send_frame
send_frame-Atomic message size t v h =
    let waited = wait_tx_space_lem (size + header_size) t v in
    elim (Bool-cases (is_success (wait_tx_space (size + header_size) t).0)) [
      | inr full ↦
          simp full
            (waited.same_stream ∙ sym (append-nil (outgoing t)), waited.valid, waited.same_rx)
      | inl room ↦
          let (s, c, v') =
            push_frame_fits (frame_header size ++ take size message) 0 waited.valid.tx
              (omega (arith, waited.room room, length-take size message)) in
          simp (room, s)
            (
              ap (λ q. flatten (wait_tx_space (size + header_size) t).1.sent ++ q) c
                  ∙ sym (append_assoc (flatten (wait_tx_space (size + header_size) t).1.sent) _ _)
                  ∙ ap (λ q. q ++ (frame_header size ++ take size message)) waited.same_stream,
              record { rx = waited.valid.rx; tx = v' },
              waited.same_rx,
            )
    ]

-- `whad_transport_send_message` of a buffer and its length is atomic, in every state of the
-- transport: if it succeeds the whole frame is appended to the outgoing bytes, and if it fails they
-- are what they were. The rings stay valid, and the receive ring is left alone.
pub send_message_atomic :
    (p : List ℕ) (t : Transport)
    → IsValid t
    → let (s, t') = send_message (some p) (pos (length p)) t in
      (outgoing t' ≡ outgoing t ++ (if is_success s then frame p else []))
      × IsValid t'
      × (t'.rx_buf ≡ t.rx_buf)
unfolding send_message
send_message_atomic p t v = elim (Bool-cases (ltb max_encoded_message_size (length p))) [
  | inl over ↦ rw over (unchanged (frame p) t error v refl)
  | inr fits ↦
      let sent = send_frame-Atomic p (length p) t v (omega arith) in
      rw fits (rw (take_all (length p) p (omega arith)) at sent)
]

pub wait_tx_space_now :
    (size : ℕ) (t : Transport)
    → IsValid t
    → size + length (contents t.tx_buf) ≤ 1023
    → wait_tx_space size t ≡ (success, t)
unfolding wait_tx_space
wait_tx_space_now size t v room = simp now
  where
    now : leb size (Ringbuf.get_free_size t.tx_buf) ≡ true
    now = ground (arith, get_free_size-contents v.tx)

send_frame_room :
    (message : List ℕ) (size : ℕ) (t : Transport)
    → IsValid t
    → size ≤ length message
    → size + 4 + length (contents t.tx_buf) ≤ 1023
    → let (s, t') = send_frame message size t in
      (s ≡ success)
      × (contents t'.tx_buf ≡ contents t.tx_buf ++ (frame_header size ++ take size message))
unfolding send_frame
send_frame_room message size t v h room =
    let (s, c, v') =
      push_frame_fits (frame_header size ++ take size message) 0 v.tx (omega length_rules) in
    rw (wait_tx_space_now (size + header_size) t v room) (simp s (refl, c))

-- A message of at most 1019 bytes whose frame fits the free part of the transmit ring is accepted,
-- whatever the state of the transport, and its frame stands behind the bytes already queued.
pub send_message_accepts :
    (p : List ℕ) (t : Transport)
    → IsValid t
    → length p + 4 + length (contents t.tx_buf) ≤ 1023
    → let (s, t') = send_message (some p) (pos (length p)) t in
      (s ≡ success) × (contents t'.tx_buf ≡ contents t.tx_buf ++ frame p)
unfolding send_message
send_message_accepts p t v room =
    let sent = send_frame_room p (length p) t v (omega arith) room in
    rw fits (rw (take_all (length p) p (omega arith)) at sent)
  where
    fits : ltb max_encoded_message_size (length p) ≡ false
    fits = ground arith
