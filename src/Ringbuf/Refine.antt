-- ===== src/Ringbuf/Refine.antt =====
-- A valid ring behaves as the queue of the bytes that it holds.
use whad_lib.Prelude.{
  ℕ, zero, suc, ◌+◌, ◌-◌, ◌%◌, ◌≤◌, ◌<◌, ◌≡◌, refl, sym, ap, ap₂, ◌∙◌, [], ◌∷◌, ◌++◌, length,
  get_or, set, drop, ltb, ltb→lt, Bool-cases, inl, inr, success, error, arith,
}
use whad_lib.Ringbuf.{Ringbuf, max_size, capacity, get_size, init, push, pull, copy, skip, slice}
use whad_lib.Ringbuf.Queue
use whad_lib.Ringbuf.Queue.{Queue}
use whad_lib.Ringbuf.Invariant.{IsValid, get_size-le, get_free_size_lem}
use whad_lib.Ringbuf.Window.{
  window, length-window, window-add, window-set_end, take-window, drop-window, slice-eq-window,
}

abbrev pub contents : Ringbuf → Queue
contents r = window r.cells r.tail (get_size r)

pub length-contents : (r : Ringbuf) → length (contents r) ≡ get_size r
length-contents r = length-window r.cells r.tail (get_size r)

-- A ring that has just been initialised holds no byte.
pub contents-init : (r : Ringbuf) → contents (init r) ≡ []
unfolding init get_size
contents-init r = refl

-- The ring after a byte is stored at `head`.
abbrev stored : Ringbuf → ℕ → Ringbuf
stored r byte = record r { cells = set r.cells r.head byte; head = (r.head + 1) % max_size }

-- The ring after its first `size` bytes are passed over.
abbrev advanced : Ringbuf → ℕ → Ringbuf
advanced r size = record r { tail = (r.tail + size) % max_size }

contents-stored :
    {r : Ringbuf} (byte : ℕ)
    → IsValid r
    → get_size r < capacity
    → contents (stored r byte) ≡ contents r ++ (byte ∷ [])
unfolding get_size
contents-stored {r} byte v h =
    ap₂ (λ i n. window (set r.cells i byte) r.tail n) head_place size_grown
    ∙ window-set_end r.cells byte r.tail size v.storage v.tail_in (omega arith)
  where
    size : ℕ
    size = (max_size + r.head - r.tail) % max_size

    head_place : r.head ≡ (r.tail + size) % max_size
    head_place = omega arith

    size_grown : (max_size + (r.head + 1) % max_size - r.tail) % max_size ≡ size + 1
    size_grown = omega arith

contents-advanced :
    {r : Ringbuf} (size : ℕ)
    → IsValid r
    → size ≤ get_size r
    → contents (advanced r size) ≡ drop size (contents r)
unfolding get_size
contents-advanced {r} size v h = sym (
    drop-window r.cells r.tail ((max_size + r.head - r.tail) % max_size) size v.tail_in h
    ∙ ap (window r.cells ((r.tail + size) % max_size)) (omega arith))

-- `whad_ringbuf_push` returns the status of the queue's `push`, and the ring holds its queue.
pub push_refines :
    {r : Ringbuf} (byte : ℕ)
    → IsValid r
    → let (s, r') = push r byte in (s, contents r') ≡ Queue.push (contents r) byte
unfolding push Queue.push
push_refines {r} byte v =
    ground (arith, get_free_size_lem v, length-contents r, contents-stored byte v)

pull-drop :
    {r : Ringbuf}
    → IsValid r
    → 0 < get_size r
    → contents r ≡ get_or r.cells r.tail 0 ∷ contents (advanced r 1)
pull-drop {r} v h = rw (contents-advanced 1 v h) (go (get_size r) h)
  where
    go :
        (n : ℕ)
        → 0 < n
        → window r.cells r.tail n ≡ get_or r.cells r.tail 0 ∷ drop 1 (window r.cells r.tail n)
    go zero h = elim h [ ]
    go (suc n) h = refl

empty_lem : (r : Ringbuf) → get_size r ≡ 0 → contents r ≡ []
empty_lem r h = ap (window r.cells r.tail) h

-- `whad_ringbuf_pull` returns the queue's first byte, and the ring holds the rest.
pub pull_refines :
    {r : Ringbuf}
    → IsValid r
    → let (s, out, r') = pull r in (s, out, contents r') ≡ Queue.pull (contents r)
unfolding pull Queue.pull
pull_refines {r} v = elim (Bool-cases (ltb 0 (get_size r))) [
  | inl some_left ↦ rw (some_left, pull-drop v (ltb→lt _ _ some_left))
  | inr none_left ↦ rw (none_left, empty_lem r (ground arith))
]

-- The two halves of a copy that passes the end of the array make up one window.
copy_halves :
    {r : Ringbuf} (size : ℕ)
    → IsValid r
    → size ≤ capacity
    → max_size < r.tail + size
    → slice r.cells r.tail (max_size - r.tail)
        ++ slice r.cells 0 ((size - (max_size - r.tail)) % max_size)
      ≡ window r.cells r.tail size
copy_halves {r} size v h wraps =
    ap₂ ◌++◌ (slice-eq-window r.cells r.tail (max_size - r.tail) v.storage (omega arith)) (
      slice-eq-window r.cells 0 ((size - (max_size - r.tail)) % max_size) v.storage (omega arith)
      ∙ ap₂ (window r.cells) start rest)
    ∙ sym (window-add r.cells r.tail (max_size - r.tail) (size - (max_size - r.tail)) v.tail_in)
    ∙ ap (window r.cells r.tail) whole
  where
    start : 0 ≡ (r.tail + (max_size - r.tail)) % max_size
    start = omega arith

    rest : (size - (max_size - r.tail)) % max_size ≡ size - (max_size - r.tail)
    rest = omega arith

    whole : max_size - r.tail + (size - (max_size - r.tail)) ≡ size
    whole = omega arith

copy_bytes :
    {r : Ringbuf} (size : ℕ)
    → IsValid r
    → size ≤ get_size r
    → copy r size ≡ (success, window r.cells r.tail size)
unfolding copy
copy_bytes {r} size v h =
    ground (arith, get_size-le v, copy_halves size v, slice-eq-window r.cells r.tail size v.storage)

copy_over : (r : Ringbuf) (size : ℕ) → get_size r < size → copy r size ≡ (error, [])
unfolding copy
copy_over r size h = ground arith

-- `whad_ringbuf_copy` writes the queue's first `size` bytes, the ring's wrap included.
pub copy_refines : {r : Ringbuf} (size : ℕ) → IsValid r → copy r size ≡ Queue.copy (contents r) size
unfolding Queue.copy
copy_refines {r} size v = ground (
  arith,
  length-contents r,
  copy_over r size,
  copy_bytes size v,
  take-window r.cells r.tail (get_size r) size,
)

-- `whad_ringbuf_skip` drops the queue's first `size` bytes, or fails and drops none.
pub skip_refines :
    {r : Ringbuf} (size : ℕ)
    → IsValid r
    → let (s, r') = skip r size in (s, contents r') ≡ Queue.skip (contents r) size
unfolding skip Queue.skip
skip_refines {r} size v = ground (arith, length-contents r, contents-advanced size v)
