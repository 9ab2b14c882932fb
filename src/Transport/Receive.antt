-- ===== src/Transport/Receive.antt =====
-- The receiving half of the transport on the byte stream that its ring holds.
use whad_lib.Prelude.{
  ℕ, ◌+◌, ◌-◌, ◌*◌, ◌≤◌, ◌<◌, ◌≡◌, refl, sym, ap, ◌∙◌, List, [], ◌∷◌, ◌++◌, leb, ltb, Bool-cases,
  inl, inr, if◌then◌else◌, length, take, drop, length-drop, length-snoc, take-nil, ltb→lt, success,
  ringbuf_full, arith, append-nil,
}
use whad_lib.Ringbuf
use whad_lib.Ringbuf.{Ringbuf}
use whad_lib.Ringbuf.Invariant.{IsValid, skip-IsValid, push-IsValid}
use whad_lib.Ringbuf.Refine.{contents, length-contents}
use whad_lib.Ringbuf.View.{free_none, enqueued_bytes, skip_room, copy_room, push_room, push_no_room}
use whad_lib.Transport.{
  Reply, no_bytes, frame_length, header_size, get_frame, read_header, get_message_from, enqueue,
}
use whad_lib.Transport.Frame.{decode, decode_short}

-- A complete frame behind a header: the payload that is copied, and what the ring holds then.
get_frame_body :
    {r : Ringbuf} (size : ℕ)
    → IsValid r
    → size + 4 ≤ length (contents r)
    → let body = (Ringbuf.skip r header_size).1 in
      ((Ringbuf.copy body size).1 ≡ take size (drop 4 (contents r)))
      × (contents (Ringbuf.skip body size).1 ≡ drop size (drop 4 (contents r)))
get_frame_body {r} size v h =
    rw (← body_lem) (ap (λ p. p.1) (copy_room v' size room), (skip_room v' size room).1)
  where
    body : Ringbuf
    body = (Ringbuf.skip r header_size).1

    body_lem : contents body ≡ drop 4 (contents r)
    body_lem = (skip_room v 4 (omega arith)).1

    v' : IsValid body
    v' = skip-IsValid 4 v

    room : size ≤ length (contents body)
    room = rw (body_lem, length-drop) (omega arith)

-- The case of a header in the ring.
module _ {r : Ringbuf} (v : IsValid r) {a b c d : ℕ} {q : List ℕ}
    (e : contents r ≡ a ∷ b ∷ c ∷ d ∷ q) where
  held : length (contents r) ≡ length q + 4
  held = ap length e ∙ omega arith

  contents-skip : (n : ℕ) → n ≤ 4 → contents (Ringbuf.skip r n).1 ≡ drop n (a ∷ b ∷ c ∷ d ∷ q)
  contents-skip n h = (skip_room v n (omega (arith, held))).1 ∙ ap (drop n) e

  copy-header : Ringbuf.copy r header_size ≡ (success, a ∷ b ∷ c ∷ d ∷ [])
  copy-header = copy_room v 4 (omega (arith, held)) ∙ ap (λ p. (success, take 4 p)) e

  body :
      (size : ℕ)
      → size ≤ length q
      → let body = (Ringbuf.skip r header_size).1 in
        ((Ringbuf.copy body size).1 ≡ take size q)
        × (contents (Ringbuf.skip body size).1 ≡ drop size q)
  body size h =
      let (copied, left) = get_frame_body size v (omega (arith, held)) in
      (copied ∙ ap (λ p. take size (drop 4 p)) e, left ∙ ap (λ p. drop size (drop 4 p)) e)

  read_header_refines :
      (available : ℕ)
      → let (reply, r') = read_header available (a ∷ b ∷ c ∷ d ∷ []) r in
        (reply, contents r') ≡ decode available (a ∷ b ∷ c ∷ d ∷ q)
  unfolding read_header get_frame decode
  read_header_refines available = ground (
    arith,
    e,
    held,
    length-contents r,
    contents-skip 1 (omega arith),
    contents-skip 2 (omega arith),
    body (c + d * 256),
  )

  get_message-header :
      (available : ℕ) → get_message_from available r ≡ read_header available (a ∷ b ∷ c ∷ d ∷ []) r
  unfolding get_message_from
  get_message-header available = ground (arith, held, length-contents r, copy-header)

get_message_short :
    (r : Ringbuf) (available : ℕ)
    → length (contents r) < 4
    → get_message_from available r ≡ (no_bytes success 0, r)
unfolding get_message_from
get_message_short r available h = ground (arith, length-contents r)

-- `whad_transport_get_message` reads the bytes of its ring as `decode` reads a byte stream: the
-- same reply, and the ring then holds what `decode` leaves.
pub get_message_from_refines :
    {r : Ringbuf} (available : ℕ)
    → IsValid r
    → let (reply, r') = get_message_from available r in
      (reply, contents r') ≡ decode available (contents r)
get_message_from_refines {r} available v = go (contents r) refl
  where
    short :
        (q : List ℕ)
        → contents r ≡ q
        → length q < 4
        → let (reply, r') = get_message_from available r in
          ◌≡◌ {A = Reply × List ℕ} (reply, contents r') (no_bytes success 0, q)
    short q e h = rw (get_message_short r available (rw e h)) (ap (λ p. (no_bytes success 0, p)) e)

    go :
        (q : List ℕ)
        → contents r ≡ q
        → let (reply, r') = get_message_from available r in
          (reply, contents r') ≡ decode available q
    go [] e = short [] e (omega arith) ∙ sym (decode_short available [] (omega arith))
    go (a ∷ []) e =
        short (a ∷ []) e (omega arith) ∙ sym (decode_short available (a ∷ []) (omega arith))
    go (a ∷ b ∷ []) e =
        short (a ∷ b ∷ []) e (omega arith) ∙ sym (decode_short available (a ∷ b ∷ []) (omega arith))
    go (a ∷ b ∷ c ∷ []) e =
        short (a ∷ b ∷ c ∷ []) e (omega arith)
        ∙ sym (decode_short available (a ∷ b ∷ c ∷ []) (omega arith))
    go (a ∷ b ∷ c ∷ d ∷ q) e =
        rw (get_message-header v e available) (read_header_refines v e available)

get_frame-IsValid :
    {r : Ringbuf} (available size : ℕ) → IsValid r → IsValid (get_frame available size r).1
unfolding get_frame
get_frame-IsValid {r} available size v =
    ground (arith, skip-IsValid 1 v, skip-IsValid size (skip-IsValid 4 v))

pub get_message_from-IsValid :
    {r : Ringbuf} (available : ℕ) → IsValid r → IsValid (get_message_from available r).1
unfolding get_message_from read_header
get_message_from-IsValid {r} available v = ground (
  arith,
  skip-IsValid 1 v,
  skip-IsValid 2 v,
  get_frame-IsValid available (frame_length (Ringbuf.copy r header_size).1) v,
)

-- What is claimed of the loop over `xs` from the ring `r`.
abbrev Enqueued : List ℕ → Ringbuf → Type 0
Enqueued xs r =
    let (s, r') = enqueue xs r in
    let free = 1023 - length (contents r) in
    (s ≡ (if leb (length xs) free then success else ringbuf_full))
    × (contents r' ≡ contents r ++ take free xs)
    × IsValid r'

enqueue_one :
    (x : ℕ) (xs : List ℕ) {r : Ringbuf}
    → IsValid r
    → length (contents r) < 1023
    → Enqueued xs (Ringbuf.push r x).1
    → Enqueued (x ∷ xs) r
unfolding enqueue
enqueue_one x xs {r} v room ih =
    let (pushed, held) = push_room v x room in
    rw pushed (
      ih.0 ∙ rw (held, length-snoc (contents r) x) (ground arith),
      ih.1 ∙ rw held (enqueued_bytes (contents r) x xs room),
      ih.2,
    )

-- The loop of `whad_transport_data_received` stores the bytes for which there is room, in order,
-- and reports a full ring exactly if there are more.
pub enqueue_lem :
    (xs : List ℕ) {r : Ringbuf}
    → IsValid r
    → let (s, r') = enqueue xs r in
      let free = 1023 - length (contents r) in
      (s ≡ (if leb (length xs) free then success else ringbuf_full))
      × (contents r' ≡ contents r ++ take free xs)
      × IsValid r'
unfolding enqueue
enqueue_lem [] {r} v = (ground arith, rw (take-nil {A = ℕ}) (sym (append-nil (contents r))), v)
enqueue_lem (x ∷ xs) {r} v =
    let ih = enqueue_lem xs (push-IsValid x v) in
    elim (Bool-cases (ltb (length (contents r)) 1023)) [
      | inl room ↦ enqueue_one x xs v (ltb→lt _ _ room) ih
      | inr full ↦
          let (pushed, kept) = push_no_room v x (ground arith) in
          rw (pushed, free_none (contents r) (ground arith))
            (ground arith, kept ∙ sym (append-nil (contents r)), push-IsValid x v)
    ]
