-- ===== src/Ringbuf/View.antt =====
-- The calls of a valid ring as equations on the bytes that it holds, with the ring shut.
use whad_lib.Prelude.{
  ℕ, ◌+◌, ◌-◌, ◌≤◌, ◌<◌, ◌≡◌, [], ◌∷◌, ◌++◌, length, append_assoc, take-cons, ap, ◌∙◌, sym, List,
  take, drop, success, ringbuf_full, arith, length_rules,
}
use whad_lib.Ringbuf.{Ringbuf, get_free_size, push, copy, skip}
use whad_lib.Ringbuf.Queue
use whad_lib.Ringbuf.Invariant.{IsValid, get_free_size_lem}
use whad_lib.Ringbuf.Refine.{contents, length-contents, push_refines, copy_refines, skip_refines}

module _ {r : Ringbuf} (v : IsValid r) where
  pub get_free_size-contents : get_free_size r + length (contents r) ≡ 1023
  get_free_size-contents = omega (arith, get_free_size_lem v, length-contents r)

  pub push_room :
      (x : ℕ)
      → length (contents r) < 1023
      → ((push r x).0 ≡ success) × (contents (push r x).1 ≡ contents r ++ (x ∷ []))
  unfolding Queue.push
  push_room x h = ground (arith, push_refines x v)

  pub push_no_room :
      (x : ℕ)
      → 1023 ≤ length (contents r)
      → ((push r x).0 ≡ ringbuf_full) × (contents (push r x).1 ≡ contents r)
  unfolding Queue.push
  push_no_room x h = ground (arith, push_refines x v)

  pub skip_room :
      (n : ℕ)
      → n ≤ length (contents r)
      → ((skip r n).0 ≡ success) × (contents (skip r n).1 ≡ drop n (contents r))
  unfolding Queue.skip
  skip_room n h = ground (arith, skip_refines n v)

  pub copy_room : (n : ℕ) → n ≤ length (contents r) → copy r n ≡ (success, take n (contents r))
  unfolding Queue.copy
  copy_room n h = ground (arith, copy_refines n v)

pub free_none : (q : List ℕ) → 1023 ≤ length q → 1023 - length q ≡ 0
free_none q h = omega arith

-- One byte stored, the others follow in the room left.
pub enqueued_bytes :
    (q : List ℕ) (x : ℕ) (xs : List ℕ)
    → length q < 1023
    → (q ++ (x ∷ [])) ++ take (1023 - length (q ++ (x ∷ []))) xs
      ≡ q ++ take (1023 - length q) (x ∷ xs)
enqueued_bytes q x xs h =
    append_assoc q (x ∷ []) _
    ∙ ap (λ t. q ++ t)
        (ap (λ n. x ∷ take n xs) fewer ∙ sym (take-cons (1023 - length q) x xs (omega arith)))
  where
    fewer : 1023 - length (q ++ (x ∷ [])) ≡ 1023 - length q - 1
    fewer = omega length_rules
