-- ===== src/Transport/Poll.antt =====
-- Repeated calls of `whad_transport_get_message`, and the payloads that they hand out.
use whad_lib.Prelude.{
  ℕ, zero, suc, ◌≤◌, ◌<◌, ◌≡◌, refl, ap, ◌∙◌, Bool, ◌&&◌, List, [], ◌∷◌, ◌++◌, ltb, if◌then◌else◌,
  length, is_success, arith, map, flatten, append_assoc,
}
use whad_lib.Ringbuf.Invariant.{IsValid}
use whad_lib.Ringbuf.Refine.{contents}
use whad_lib.Transport.{Reply, Transport, get_message, get_message_from, max_encoded_message_size}
use whad_lib.Transport.Frame.{frame, decode, decode-frame}
use whad_lib.Transport.Receive.{get_message_from_refines, get_message_from-IsValid}

-- A reply that carries a message, as `whad_get_message` tells it.
abbrev pub has_payload : Reply → Bool
has_payload reply = is_success reply.status && ltb 0 reply.size

abbrev pub collect : Reply → List (List ℕ) → List (List ℕ)
collect reply payloads = if has_payload reply then reply.bytes ∷ payloads else payloads

-- The payloads of `n` calls with a buffer of `available` bytes.
unfoldable pub poll : ℕ → ℕ → Transport → List (List ℕ) × Transport
poll zero available t = ([], t)
poll (suc n) available t =
    let (reply, t') = get_message available t in
    let (payloads, t'') = poll n available t' in (collect reply payloads, t'')

-- The same on a byte stream.
unfoldable pub poll_stream : ℕ → ℕ → List ℕ → List (List ℕ) × List ℕ
poll_stream zero available q = ([], q)
poll_stream (suc n) available q =
    let (reply, q') = decode available q in
    let (payloads, q'') = poll_stream n available q' in (collect reply payloads, q'')

-- Calls on a valid receive ring hand out the payloads of the byte stream that it holds.
pub poll_refines :
    (n available : ℕ) (t : Transport)
    → IsValid t.rx_buf
    → let (payloads, t') = poll n available t in
      (payloads, contents t'.rx_buf) ≡ poll_stream n available (contents t.rx_buf)
unfolding poll poll_stream get_message
poll_refines zero available t v = refl
poll_refines (suc n) available t v =
    let (reply, r) = get_message_from available t.rx_buf in
    ap (λ p. (collect reply p.0, p.1))
      (poll_refines n available (record t { rx_buf = r }) (get_message_from-IsValid available v))
    ∙ ap (λ p. let (payloads, q) = poll_stream n available p.1 in (collect p.0 payloads, q))
        (get_message_from_refines available v)

pub poll_stream_none : (available : ℕ) (q : List ℕ) → poll_stream 0 available q ≡ ([], q)
unfolding poll_stream
poll_stream_none available q = refl

-- A payload that a frame can carry and that a call tells from no message.
pub record IsPayload (available : ℕ) (p : List ℕ) : Type 0 where
  pub nonempty : 0 < length p
  pub fits : length p ≤ max_encoded_message_size
  pub room : length p ≤ available

abbrev pub All {ℓ κ} : {A : Type ℓ} → (A → Type κ) → List A → Type κ
All P [] = Unit
All P (x ∷ xs) = P x × All P xs

pub poll_stream-frame :
    (n available : ℕ) (p rest : List ℕ)
    → IsPayload available p
    → poll_stream (suc n) available (frame p ++ rest)
      ≡ let (payloads, q) = poll_stream n available rest in (p ∷ payloads, q)
unfolding poll_stream
poll_stream-frame n available p rest v =
    rw (decode-frame available p rest v.fits v.room) (ground arith)

-- Frames that stand one behind another are handed out in order, one a call.
pub poll_stream-frames :
    (available : ℕ) (ps : List (List ℕ)) (rest : List ℕ)
    → All (IsPayload available) ps
    → poll_stream (length ps) available (flatten (map frame ps) ++ rest) ≡ (ps, rest)
unfolding flatten
poll_stream-frames available [] rest h = poll_stream_none available rest
poll_stream-frames available (p ∷ ps) rest h =
    ap (poll_stream (suc (length ps)) available)
      (append_assoc (frame p) (flatten (map frame ps)) rest)
    ∙ poll_stream-frame (length ps) available p (flatten (map frame ps) ++ rest) h.0
    ∙ ap (λ r. (p ∷ r.0, r.1)) (poll_stream-frames available ps rest h.1)

-- If the receive ring holds the frames of payloads of 1 to 1019 bytes, one behind another, and then
-- any bytes, as many calls of `whad_transport_get_message` as there are payloads hand them out in
-- order, and leave exactly the bytes behind the frames.
pub poll-frames :
    (available : ℕ) (t : Transport) (ps : List (List ℕ)) (rest : List ℕ)
    → IsValid t.rx_buf
    → All (IsPayload available) ps
    → contents t.rx_buf ≡ flatten (map frame ps) ++ rest
    → let (payloads, t') = poll (length ps) available t in
      (payloads ≡ ps) × (contents t'.rx_buf ≡ rest)
poll-frames available t ps rest v ok held =
    let polled =
      poll_refines (length ps) available t v
      ∙ ap (poll_stream (length ps) available) held
      ∙ poll_stream-frames available ps rest ok in
    (ap (λ r. r.0) polled, ap (λ r. r.1) polled)
