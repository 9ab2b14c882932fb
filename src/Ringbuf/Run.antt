-- ===== src/Ringbuf/Run.antt =====
-- Whole sequences of calls on one ring, against the queue.
use whad_lib.Prelude.{
  ℤ, pos, negsuc, ℕ, ◌≡◌, refl, ap, ◌∙◌, List, [], ◌∷◌, Option, none, Status, success,
}
use whad_lib.Ringbuf.{Ringbuf, init, push, pull, copy_int, skip}
use whad_lib.Ringbuf.Queue
use whad_lib.Ringbuf.Queue.{Queue}
use whad_lib.Ringbuf.Invariant.{IsValid, init-IsValid, push-IsValid, pull-IsValid, skip-IsValid}
use whad_lib.Ringbuf.Refine.{
  contents, contents-init, push_refines, pull_refines, copy_refines, skip_refines,
}

-- A call of one of the functions of inc/ringbuf.h that return a result. The size of a skip is not
-- negative: a negative one moves the tail back, which is nothing that a queue does.
pub data Call : Type 0 where
  reset : Call
  push_call : ℕ → Call
  pull_call : Call
  copy_call : ℤ → Call
  skip_call : ℕ → Call

-- The result, the byte through `p_data` of a pull, and the bytes that a copy writes.
abbrev pub Reply : Type 0
Reply = Status × Option ℕ × List ℕ

pub ring_call : Call → Ringbuf → Reply × Ringbuf
ring_call reset r = ((success, none, []), init r)
ring_call (push_call byte) r = let (s, r') = push r byte in ((s, none, []), r')
ring_call pull_call r = let (s, out, r') = pull r in ((s, out, []), r')
ring_call (copy_call size) r = let (s, bytes) = copy_int r size in ((s, none, bytes), r)
ring_call (skip_call size) r = let (s, r') = skip r size in ((s, none, []), r')

pub queue_call : Call → Queue → Reply × Queue
queue_call reset q = ((success, none, []), [])
queue_call (push_call byte) q = let (s, q') = Queue.push q byte in ((s, none, []), q')
queue_call pull_call q = let (s, out, q') = Queue.pull q in ((s, out, []), q')
queue_call (copy_call size) q = let (s, bytes) = Queue.copy_int q size in ((s, none, bytes), q)
queue_call (skip_call size) q = let (s, q') = Queue.skip q size in ((s, none, []), q')

-- The replies of the calls in order, and what the ring or the queue holds after the last.
pub run_ring : List Call → Ringbuf → List Reply × Ringbuf
run_ring [] r = ([], r)
run_ring (c ∷ cs) r =
    let (reply, r') = ring_call c r in let (replies, r'') = run_ring cs r' in (reply ∷ replies, r'')

pub run_queue : List Call → Queue → List Reply × Queue
run_queue [] q = ([], q)
run_queue (c ∷ cs) q =
    let (reply, q') = queue_call c q in
    let (replies, q'') = run_queue cs q' in (reply ∷ replies, q'')

ring_call-IsValid : (c : Call) {r : Ringbuf} → IsValid r → IsValid (ring_call c r).1
unfolding ring_call
ring_call-IsValid reset {r} v = init-IsValid r v.storage
ring_call-IsValid (push_call byte) v = push-IsValid byte v
ring_call-IsValid pull_call v = pull-IsValid v
ring_call-IsValid (copy_call size) v = v
ring_call-IsValid (skip_call size) v = skip-IsValid size v

copy_int_refines :
    (size : ℤ) {r : Ringbuf} → IsValid r → copy_int r size ≡ Queue.copy_int (contents r) size
unfolding copy_int Queue.copy_int
copy_int_refines (pos size) v = copy_refines size v
copy_int_refines (negsuc n) v = refl

ring_call_refines :
    (c : Call) {r : Ringbuf}
    → IsValid r
    → let (reply, r') = ring_call c r in (reply, contents r') ≡ queue_call c (contents r)
unfolding ring_call queue_call
ring_call_refines reset {r} v = ap (λ q. ((success, none, []), q)) (contents-init r)
ring_call_refines (push_call byte) v = ap (λ p. ((p.0, none, []), p.1)) (push_refines byte v)
ring_call_refines pull_call v = ap (λ p. ((p.0, p.1, []), p.2)) (pull_refines v)
ring_call_refines (copy_call size) {r} v =
    ap (λ p. ((p.0, none, p.1), contents r)) (copy_int_refines size v)
ring_call_refines (skip_call size) v = ap (λ p. ((p.0, none, []), p.1)) (skip_refines size v)

-- On a valid ring, any sequence of initialisations, pushes, pulls, copies of any size and skips of
-- sizes of 0 or more replies as the
-- bounded FIFO of the ring's bytes does, and leaves a valid ring that holds the FIFO's bytes.
pub run_refines :
    (cs : List Call) {r : Ringbuf}
    → IsValid r
    → let (replies, r') = run_ring cs r in
      ((replies, contents r') ≡ run_queue cs (contents r)) × IsValid r'
unfolding run_ring run_queue
run_refines [] v = (refl, v)
run_refines (c ∷ cs) {r} v =
    let rest = run_refines cs (ring_call-IsValid c v) in
    (
      ap (λ p. ((ring_call c r).0 ∷ p.0, p.1)) rest.0
          ∙ ap (λ p. let (replies, q) = run_queue cs p.1 in (p.0 ∷ replies, q))
              (ring_call_refines c v),
      rest.1,
    )
