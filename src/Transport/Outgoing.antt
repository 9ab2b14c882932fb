-- ===== src/Transport/Outgoing.antt =====
-- The byte stream that leaves the transport: what the callback was given, then what is queued.
use whad_lib.Prelude.{
  refl, ℕ, ◌≤◌, ◌≡◌, sym, ap, ap₂, ◌∙◌, Bool, List, [], ◌∷◌, ◌++◌, ltb, if◌then◌else◌, Bool-cases,
  Option-cases, ◌⊎◌, inl, inr, length, take, drop, flatten, append_assoc, append-nil,
  take-append-drop, some, success, arith,
}
use whad_lib.Ringbuf
use whad_lib.Ringbuf.{Ringbuf}
use whad_lib.Ringbuf.Invariant.{skip-IsValid, init-IsValid}
use whad_lib.Ringbuf.Invariant
use whad_lib.Ringbuf.Refine.{contents, contents-init, length-contents}
use whad_lib.Ringbuf.View.{skip_room, copy_room}
use whad_lib.Transport.{
  Transport, Config, init, idle, sending, is_idle, send_bytes, send_pending, data_sent, chunk_size,
}

-- Both rings are valid.
pub record IsValid (t : Transport) : Type 0 where
  pub rx : Invariant.IsValid t.rx_buf
  pub tx : Invariant.IsValid t.tx_buf

abbrev pub outgoing : Transport → List ℕ
outgoing t = flatten t.sent ++ contents t.tx_buf

flatten-snoc : (xss : List (List ℕ)) (xs : List ℕ) → flatten (xss ++ (xs ∷ [])) ≡ flatten xss ++ xs
unfolding flatten
flatten-snoc [] xs = append-nil xs
flatten-snoc (ys ∷ xss) xs =
    ap (λ l. ys ++ l) (flatten-snoc xss xs) ∙ sym (append_assoc ys (flatten xss) xs)

-- The chunk that is handed over.
abbrev pub chunk : Transport → List ℕ
chunk t = take (chunk_size t) (contents t.tx_buf)

-- The transport after `size` bytes are handed to the callback.
abbrev pub handed_over : (List ℕ → Bool) → ℕ → Transport → Transport
handed_over callback size t = record t {
  state = if callback (take size (contents t.tx_buf)) then idle else sending;
  sent = t.sent ++ (take size (contents t.tx_buf) ∷ []);
  tx_buf = (Ringbuf.skip t.tx_buf size).1;
}

pub send_bytes_lem :
    (callback : List ℕ → Bool) (size : ℕ) (t : Transport)
    → IsValid t
    → size ≤ length (contents t.tx_buf)
    → send_bytes callback size t ≡ (success, handed_over callback size t)
unfolding send_bytes data_sent
send_bytes_lem callback size t v h = elim (Bool-cases (callback (take size (contents t.tx_buf)))) [
  | inl done ↦ rw (copy_room v.tx size h, done)
  | inr busy ↦ rw (copy_room v.tx size h, busy)
]

pub chunk_size-le : (t : Transport) → chunk_size t ≤ length (contents t.tx_buf)
chunk_size-le t = ground (arith, length-contents t.tx_buf)

-- Handing bytes over moves them from the queue to what was sent.
pub outgoing-handed_over :
    (callback : List ℕ → Bool) (size : ℕ) (t : Transport)
    → IsValid t
    → size ≤ length (contents t.tx_buf)
    → outgoing (handed_over callback size t) ≡ outgoing t
outgoing-handed_over callback size t v h =
    ap₂ ◌++◌ (flatten-snoc t.sent (take size (contents t.tx_buf))) (skip_room v.tx size h).1
    ∙ append_assoc (flatten t.sent) (take size (contents t.tx_buf)) (drop size (contents t.tx_buf))
    ∙ ap (λ l. flatten t.sent ++ l) (take-append-drop size (contents t.tx_buf))

-- A call sends nothing, or hands over one chunk.
pub send_pending_cases :
    (t : Transport)
    → IsValid t
    → ((send_pending t).1 ≡ t)
      ⊎ ((callback : List ℕ → Bool) × (t.config.send_buffer ≡ some callback)
          × (send_pending t ≡ (success, handed_over callback (chunk_size t) t)))
unfolding send_pending
send_pending_cases t v = elim (Bool-cases (is_idle t.state)) [
  | inr busy ↦ inl (rw busy)
  | inl ready ↦ elim (Option-cases t.config.send_buffer) [
    | inl none_set ↦ inl (simp (ready, none_set))
    | inr (callback, is_set) ↦ elim (Bool-cases (ltb 0 (Ringbuf.get_size t.tx_buf))) [
      | inr drained ↦ inl (simp (ready, is_set, drained))
      | inl left ↦ inr (
        callback,
        is_set,
        simp (ready, is_set, left) (send_bytes_lem callback (chunk_size t) t v (chunk_size-le t)),
      )
    ]
  ]
]

-- `whad_transport_send_pending` never reorders, loses or duplicates a byte, whatever it returns:
-- the bytes handed to the callback so far, followed by those queued, stay the same.
pub outgoing-send_pending : (t : Transport) → IsValid t → outgoing (send_pending t).1 ≡ outgoing t
outgoing-send_pending t v = elim (send_pending_cases t v) [
  | inl same ↦ ap outgoing same
  | inr (callback, _, e) ↦
      ap (λ p. outgoing p.1) e ∙ outgoing-handed_over callback (chunk_size t) t v (chunk_size-le t)
]

pub send_pending-IsValid : (t : Transport) → IsValid t → IsValid (send_pending t).1
send_pending-IsValid t v = elim (send_pending_cases t v) [
  | inl same ↦ rw same v
  | inr (callback, _, e) ↦ rw e (record { rx = v.rx; tx = skip-IsValid (chunk_size t) v.tx })
]

pub rx_buf-send_pending : (t : Transport) → IsValid t → (send_pending t).1.rx_buf ≡ t.rx_buf
rx_buf-send_pending t v = elim (send_pending_cases t v) [
  | inl same ↦ ap (λ t. t.rx_buf) same
  | inr (callback, _, e) ↦ ap (λ p. p.1.rx_buf) e
]

-- `whad_transport_init` on rings with arrays of 1024 entries gives an idle transport with the
-- configuration, valid rings, and nothing received or queued.
pub init_lem :
    (cfg : Config) (t : Transport)
    → length t.rx_buf.cells ≡ 1024
    → length t.tx_buf.cells ≡ 1024
    → IsValid (init cfg t)
      × (contents (init cfg t).rx_buf ≡ [])
      × (contents (init cfg t).tx_buf ≡ [])
      × ((init cfg t).state ≡ idle)
      × ((init cfg t).config ≡ cfg)
unfolding init
init_lem cfg t rx tx = (
  record { rx = init-IsValid t.rx_buf rx; tx = init-IsValid t.tx_buf tx },
  contents-init t.rx_buf,
  contents-init t.tx_buf,
  refl,
  refl,
)
