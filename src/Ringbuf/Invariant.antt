-- ===== src/Ringbuf/Invariant.antt =====
-- The representation invariant of `whad_ringbuf_t`: both indices lie in the array.
use whad_lib.Prelude.{ℕ, ◌+◌, ◌≤◌, ◌<◌, ◌≡◌, length, length-set, arith}
use whad_lib.Ringbuf.{Ringbuf, max_size, capacity, get_size, get_free_size, init, push, pull, skip}
use whad_lib.Ringbuf.{zeroed}

pub record IsValid (r : Ringbuf) : Type 0 where
  pub head_in : r.head < max_size
  pub tail_in : r.tail < max_size
  pub storage : length r.cells ≡ max_size

pub get_size-le : {r : Ringbuf} → IsValid r → get_size r ≤ capacity
unfolding get_size
get_size-le v = omega arith

pub get_free_size_lem : {r : Ringbuf} → IsValid r → get_free_size r + get_size r ≡ capacity
unfolding get_free_size
get_free_size_lem {r} v = omega (arith, get_size-le v)

pub init-IsValid : (r : Ringbuf) → length r.cells ≡ max_size → IsValid (init r)
unfolding init
init-IsValid r h = omega arith

pub zeroed-IsValid : IsValid zeroed
unfolding zeroed
zeroed-IsValid = omega arith

pub push-IsValid : {r : Ringbuf} (byte : ℕ) → IsValid r → IsValid (push r byte).1
unfolding push
push-IsValid {r} byte v = ground (arith, length-set r.cells r.head byte)

pub pull-IsValid : {r : Ringbuf} → IsValid r → IsValid (pull r).2
unfolding pull
pull-IsValid v = ground arith

pub skip-IsValid : {r : Ringbuf} (size : ℕ) → IsValid r → IsValid (skip r size).1
unfolding skip
skip-IsValid size v = ground arith
