-- ===== src/Transport/Drain.antt =====
-- Sending until the queue is empty.
use whad_lib.Prelude.{
  ℕ, zero, suc, ◌-◌, ◌*◌, ◌≤◌, ◌<◌, ◌≡◌, refl, sym, ap, ◌∙◌, Bool, true, false, Bool-cases, inl,
  inr, List, [], ◌∷◌, ◌++◌, length, length-drop, take, drop, flatten, append-nil, ltb, ltb→lt, some,
  success, arith,
}
use whad_lib.Ringbuf
use whad_lib.Ringbuf.Invariant.{skip-IsValid}
use whad_lib.Ringbuf.Refine.{contents, length-contents}
use whad_lib.Ringbuf.View.{skip_room}
use whad_lib.Transport.{Transport, idle, send_pending, data_sent, chunk_size}
use whad_lib.Transport.Outgoing.{
  IsValid, outgoing, outgoing-handed_over, handed_over, send_bytes_lem, chunk_size-le,
}

-- An idle transport with a callback that takes at least one byte at a time.
pub record CanSend (t : Transport) (callback : List ℕ → Bool) : Type 0 where
  pub valid : IsValid t
  pub ready : t.state ≡ idle
  pub is_set : t.config.send_buffer ≡ some callback
  pub takes : 0 < t.config.max_txbuf_size

-- With bytes queued, `whad_transport_send_pending` succeeds and hands over the oldest of them: as
-- many as are queued, but at most `max_txbuf_size`. The transport is `sending` afterwards unless the
-- callback has reported the end of the transmission.
pub send_pending_sends :
    {t : Transport} {callback : List ℕ → Bool}
    → CanSend t callback
    → 0 < length (contents t.tx_buf)
    → send_pending t ≡ (success, handed_over callback (chunk_size t) t)
unfolding send_pending
send_pending_sends {t} {callback} c h =
    simp (c.ready, c.is_set, some_left)
      (send_bytes_lem callback (chunk_size t) t c.valid (chunk_size-le t))
  where
    some_left : ltb 0 (Ringbuf.get_size t.tx_buf) ≡ true
    some_left = ground (arith, length-contents t.tx_buf)

-- A round: send what can be sent at once, and the callback of its end.
pub round : Transport → Transport
round t = data_sent (send_pending t).1

pub drain : ℕ → Transport → Transport
drain zero t = t
drain (suc n) t = drain n (round t)

round_lem :
    {t : Transport} {callback : List ℕ → Bool}
    → CanSend t callback
    → 0 < length (contents t.tx_buf)
    → round t ≡ record (handed_over callback (chunk_size t) t) { state = idle }
unfolding round data_sent
round_lem {t} {callback} c h =
    elim (Bool-cases (callback (take (chunk_size t) (contents t.tx_buf)))) [
      | inl done ↦ simp (send_pending_sends c h, done)
      | inr busy ↦ simp (send_pending_sends c h, busy)
    ]

round_empty :
    {t : Transport} {callback : List ℕ → Bool}
    → CanSend t callback
    → length (contents t.tx_buf) ≡ 0
    → round t ≡ t
unfolding round data_sent send_pending
round_empty {t} c h = simp (c.ready, c.is_set, drained, c.ready)
  where
    drained : ltb 0 (Ringbuf.get_size t.tx_buf) ≡ false
    drained = ground (arith, length-contents t.tx_buf)

-- A round keeps the transport able to send, and the bytes on their way, and shortens the queue.
record Rounded (t : Transport) (callback : List ℕ → Bool) (t' : Transport) : Type 0 where
  can_send : CanSend t' callback
  same_max : t'.config.max_txbuf_size ≡ t.config.max_txbuf_size
  same_stream : outgoing t' ≡ outgoing t
  shorter : length (contents t'.tx_buf) ≤ length (contents t.tx_buf) - t.config.max_txbuf_size

handed_over-Rounded :
    {t : Transport} {callback : List ℕ → Bool}
    → CanSend t callback
    → Rounded t callback (record (handed_over callback (chunk_size t) t) { state = idle })
handed_over-Rounded {t} {callback} c = record {
  can_send = record {
    valid = record { rx = c.valid.rx; tx = skip-IsValid (chunk_size t) c.valid.tx };
    ready = refl;
    is_set = c.is_set;
    takes = c.takes;
  };
  same_max = refl;
  same_stream = outgoing-handed_over callback (chunk_size t) t c.valid (chunk_size-le t);
  shorter = rw (rest, length-drop) (ground (arith, length-contents t.tx_buf));
}
  where
    rest :
        contents (Ringbuf.skip t.tx_buf (chunk_size t)).1 ≡ drop (chunk_size t) (contents t.tx_buf)
    rest = (skip_room c.valid.tx (chunk_size t) (chunk_size-le t)).1

round-Rounded :
    {t : Transport} {callback : List ℕ → Bool} → CanSend t callback → Rounded t callback (round t)
round-Rounded {t} {callback} c = elim (Bool-cases (ltb 0 (length (contents t.tx_buf)))) [
  | inl left ↦ rw (round_lem c (ltb→lt _ _ left)) (handed_over-Rounded c)
  | inr drained ↦
      rw (round_empty c (ground arith))
        (record { can_send = c; same_max = refl; same_stream = refl; shorter = ground arith })
]

drain_lem :
    (n : ℕ) {t : Transport} {callback : List ℕ → Bool}
    → CanSend t callback
    → length (contents t.tx_buf) ≤ n * t.config.max_txbuf_size
    → let t' = drain n t in
      (length (contents t'.tx_buf) ≡ 0) × (outgoing t' ≡ outgoing t) × (t'.state ≡ idle)
unfolding drain
drain_lem zero c h = (omega arith, refl, c.ready)
drain_lem (suc n) {t} c h =
    let r = round-Rounded c in
    let (empty, same, ready) = drain_lem n r.can_send (rw r.same_max (omega (arith, r.shorter))) in
    (empty, same ∙ r.same_stream, ready)

empty_of_length : (q : List ℕ) → length q ≡ 0 → q ≡ []
empty_of_length [] h = refl
empty_of_length (x ∷ q) h = absurd (omega arith)

-- From an idle transport with a callback that takes at least one byte at a time, `n` rounds of
-- `whad_transport_send_pending` and `whad_transport_data_sent` hand over every queued byte, in order
-- and once, if `n` times the size that the callback takes is at least the length of the queue.
pub drain_all :
    (n : ℕ) {t : Transport} {callback : List ℕ → Bool}
    → CanSend t callback
    → length (contents t.tx_buf) ≤ n * t.config.max_txbuf_size
    → let t' = drain n t in
      (contents t'.tx_buf ≡ []) × (flatten t'.sent ≡ outgoing t) × (t'.state ≡ idle)
drain_all n {t} c h =
    let (empty, same, ready) = drain_lem n c h in
    let none_left = empty_of_length _ empty in
    (
      none_left,
      sym (
            ap (λ q. flatten (drain n t).sent ++ q) none_left
            ∙ append-nil (flatten (drain n t).sent))
          ∙ same,
      ready,
    )
