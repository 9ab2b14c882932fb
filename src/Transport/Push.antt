-- ===== src/Transport/Push.antt =====
-- The loops of `whad_transport_send_message` that push a frame, and their rollback.
use whad_lib.Prelude.{
  ℕ, ◌+◌, ◌-◌, ◌≤◌, ◌<◌, ◌≡◌, refl, sym, ap, ap₂, ◌∙◌, List, [], ◌∷◌, ◌++◌, ltb, Bool-cases, inl,
  inr, ltb→lt, length, length-snoc, take, drop, append_assoc, append-nil, success, ringbuf_full,
  arith, length_rules,
}
use whad_lib.Ringbuf.{Ringbuf}
use whad_lib.Ringbuf.Invariant.{push-IsValid, skip-IsValid}
use whad_lib.Ringbuf.Invariant
use whad_lib.Ringbuf.Refine.{contents}
use whad_lib.Ringbuf.View.{
  free_none, enqueued_bytes, push_room, push_no_room, skip_room, get_free_size-contents,
}
use whad_lib.Transport.{push_frame}

-- Bytes for which there is room are all pushed.
pub push_frame_fits :
    (xs : List ℕ) (pushed : ℕ) {r : Ringbuf}
    → Invariant.IsValid r
    → length xs + length (contents r) ≤ 1023
    → let (s, r') = push_frame xs pushed r in
      (s ≡ success) × (contents r' ≡ contents r ++ xs) × Invariant.IsValid r'
unfolding push_frame
push_frame_fits [] pushed {r} v h = (refl, sym (append-nil (contents r)), v)
push_frame_fits (x ∷ xs) pushed {r} v h =
    let (ok, held) = push_room v x (omega arith) in
    let (s, c, v') =
      push_frame_fits xs (pushed + 1) (push-IsValid x v) (omega (length_rules, ap length held)) in
    rw ok (s, c ∙ rw held (append_assoc (contents r) (x ∷ []) xs), v')

overflow_step :
    (q : List ℕ) (x : ℕ) (xs : List ℕ) (pushed : ℕ)
    → length q < 1023
    → let q' = q ++ (x ∷ []) in
      drop (pushed + 1 + (1023 - length q')) (q' ++ take (1023 - length q') xs)
      ≡ drop (pushed + (1023 - length q)) (q ++ take (1023 - length q) (x ∷ xs))
overflow_step q x xs pushed h = ap₂ drop count (enqueued_bytes q x xs h)
  where
    count : pushed + 1 + (1023 - length (q ++ (x ∷ []))) ≡ pushed + (1023 - length q)
    count = omega length_rules

-- Where the ring fills up, `whad_ringbuf_skip` takes the bytes off at the other end.
push_frame_overflow :
    (xs : List ℕ) (pushed : ℕ) {r : Ringbuf}
    → Invariant.IsValid r
    → pushed ≤ length (contents r)
    → 1023 < length xs + length (contents r)
    → let (s, r') = push_frame xs pushed r in
      let free = 1023 - length (contents r) in
      (s ≡ ringbuf_full) × (contents r' ≡ drop (pushed + free) (contents r ++ take free xs))
unfolding push_frame
push_frame_overflow [] pushed {r} v h over = absurd (omega (arith, get_free_size-contents v))
push_frame_overflow (x ∷ xs) pushed {r} v h over =
    elim (Bool-cases (ltb (length (contents r)) 1023)) [
      | inl room ↦
          let (ok, held) = push_room v x (ltb→lt _ _ room) in
          let longer = ap length held ∙ length-snoc (contents r) x in
          let (s, c) =
            push_frame_overflow xs (pushed + 1) (push-IsValid x v) (omega (arith, longer))
              (omega (arith, longer)) in
          rw ok (s, c ∙ rw held (overflow_step (contents r) x xs pushed (ltb→lt _ _ room)))
      | inr full ↦
          let (no_room, kept) = push_no_room v x (ground arith) in
          rw no_room (
            refl,
            (skip_room (push-IsValid x v) pushed (rw kept h)).1
                ∙ rw (kept, free_none (contents r) (ground arith))
                    (ap₂ drop (omega arith) (sym (append-nil (contents r)))),
          )
    ]

-- The rollback of `whad_transport_send_message` on a ring that fills up while a frame is pushed: it
-- reports a full ring, and takes the pushed number of bytes off the front of the queue. What is left
-- is the old queue and the part of the frame that fitted, less that many of their oldest bytes.
pub push_frame_rollback :
    (xs : List ℕ) {r : Ringbuf}
    → Invariant.IsValid r
    → 1023 < length xs + length (contents r)
    → let (s, r') = push_frame xs 0 r in
      let free = 1023 - length (contents r) in
      (s ≡ ringbuf_full) × (contents r' ≡ drop free (contents r ++ take free xs))
push_frame_rollback xs {r} v over =
    let (s, c) = push_frame_overflow xs 0 v (omega arith) over in
    (s, c ∙ ap (λ n. drop n (contents r ++ take (1023 - length (contents r)) xs)) count)
  where
    count : 0 + (1023 - length (contents r)) ≡ 1023 - length (contents r)
    count = omega arith
