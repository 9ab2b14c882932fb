-- ===== src/Transport/Resync.antt =====
-- Bytes that are no frame before a frame.
use whad_lib.Prelude.{
  ℕ, suc, ◌+◌, ◌≤◌, ◌≡◌, ap, ◌∙◌, ◌&&◌, List, [], ◌∷◌, ◌++◌, ◌%◌, ◌/◌, ◌==◌, false, Bool-cases, inl,
  inr, if◌then◌else◌, length, arith, length_rules,
}
use whad_lib.Ringbuf.Invariant.{IsValid}
use whad_lib.Ringbuf.Refine.{contents}
use whad_lib.Transport.{Transport}
use whad_lib.Transport.Frame.{frame, decode}
use whad_lib.Transport.Poll.{
  poll, poll_refines, poll_stream, IsPayload, poll_stream-frame, poll_stream_none,
}

-- The magic bytes do not stand side by side.
abbrev pub NoMagic : List ℕ → Type 0
NoMagic [] = Unit
NoMagic (a ∷ []) = Unit
NoMagic (a ∷ b ∷ g) = (((a == 0xac) && (b == 0xbe)) ≡ false) × NoMagic (b ∷ g)

NoMagic-tail : (b : ℕ) (g : List ℕ) → NoMagic (b ∷ g) → NoMagic g
NoMagic-tail b [] h = tt
NoMagic-tail b (c ∷ g) h = h.1

-- One call on bytes that begin no frame hands out nothing.
poll_stream_skip :
    (n available a b : ℕ) (q : List ℕ)
    → 2 ≤ length q
    → ((a == 0xac) && (b == 0xbe)) ≡ false
    → poll_stream (suc n) available (a ∷ b ∷ q)
      ≡ poll_stream n available (if b == 0xac then b ∷ q else q)
unfolding poll_stream decode
poll_stream_skip n available a b [] le h = absurd (omega arith)
poll_stream_skip n available a b (c ∷ []) le h = absurd (omega arith)
poll_stream_skip n available a b (c ∷ d ∷ q) le h = elim (Bool-cases (b == 0xac)) [
  | inl start ↦ rw (h, start)
  | inr other ↦ rw (h, other)
]

-- What is claimed of the garbage `g` before a frame: the number of calls, and what they yield.
abbrev pub Resyncs : ℕ → List ℕ → List ℕ → List ℕ → Type 0
Resyncs available p rest g =
    (n : ℕ) × (n ≤ length g + 1)
    × (poll_stream n available (g ++ (frame p ++ rest)) ≡ (p ∷ [], rest))

module _ (available : ℕ) (p rest : List ℕ) (v : IsPayload available p) where
  at_frame : poll_stream 1 available (frame p ++ rest) ≡ (p ∷ [], rest)
  at_frame =
      poll_stream-frame 0 available p rest v
      ∙ ap (λ r. (p ∷ r.0, r.1)) (poll_stream_none available rest)

  long_enough : (g : List ℕ) → 2 ≤ length (g ++ (frame p ++ rest))
  long_enough g = omega length_rules

  pub resync_stream : (g : List ℕ) → NoMagic g → Resyncs available p rest g
  resync_stream [] h = (1, omega arith, at_frame)
  resync_stream (a ∷ []) h = (
    2,
    omega arith,
    poll_stream_skip 1 available a 0xac after (omega arith) (ground arith) ∙ at_frame,
  )
    where
      after : List ℕ
      after = 0xbe ∷ length p % 256 ∷ length p / 256 % 256 ∷ (p ++ rest)
  resync_stream (a ∷ b ∷ g) h =
      let (n, le, e) = resync_stream (b ∷ g) h.1 in
      let (m, le', e') = resync_stream g (NoMagic-tail b g h.1) in
      elim (Bool-cases (b == 0xac)) [
        | inl start ↦ (
          suc n,
          omega arith,
          poll_stream_skip n available a b (g ++ (frame p ++ rest)) (long_enough g) h.0
              ∙ rw start e,
        )
        | inr other ↦ (
          suc m,
          omega arith,
          poll_stream_skip m available a b (g ++ (frame p ++ rest)) (long_enough g) h.0
              ∙ rw other e',
        )
      ]

-- Let the receive ring hold garbage in which the magic bytes 0xAC 0xBE do not stand side by side,
-- then the frame of a payload of 1 to 1019 bytes that fits the caller's buffer, then any bytes.
-- Some number of calls of `whad_transport_get_message`, at most one more than there are garbage
-- bytes, hands out that payload and nothing else, and leaves exactly the bytes behind the frame.
pub resync :
    (available : ℕ) (t : Transport) (garbage p rest : List ℕ)
    → IsValid t.rx_buf
    → NoMagic garbage
    → IsPayload available p
    → contents t.rx_buf ≡ garbage ++ (frame p ++ rest)
    → (n : ℕ) × (n ≤ length garbage + 1)
      × (let (payloads, t') = poll n available t in
          (payloads ≡ p ∷ []) × (contents t'.rx_buf ≡ rest))
resync available t garbage p rest v clean ok held =
    let (n, le, e) = resync_stream available p rest ok garbage clean in
    let polled = poll_refines n available t v ∙ ap (poll_stream n available) held ∙ e in
    (n, le, (ap (λ r. r.0) polled, ap (λ r. r.1) polled))
