-- ===== src/Ringbuf.antt =====
-- src/ringbuf.c and inc/ringbuf.h: a byte ring in an array of 1024 entries, one of which stays free.
-- A function that updates `*p_ringbuf` returns the new ring beside its result.
pub mod Queue
pub mod Invariant
pub mod Window
pub mod Refine
pub mod Run
pub mod View
mod Tests
use whad_lib.Prelude.{
  ℤ, pos, negsuc, ◌==◌, ℕ, ◌+◌, ◌-◌, ◌%◌, Bool, List, [], ◌∷◌, ◌++◌, ltb, if◌then◌else◌, get_or,
  set, take, drop, replicate, Option, none, some, Status, success, error, ringbuf_full,
  ringbuf_empty,
}

-- `WHAD_RINGBUF_MAX_SIZE`.
abbrev pub max_size : ℕ
max_size = 1024

-- `WHAD_RINGBUF_CAPACITY`.
abbrev pub capacity : ℕ
capacity = max_size - 1

-- `whad_ringbuf_t`; `cells` is the member `data`.
pub record Ringbuf : Type 0 where
  pub head : ℕ
  pub tail : ℕ
  pub cells : List ℕ

-- The array keeps what it held.
unfoldable pub init : Ringbuf → Ringbuf
init r = record r { head = 0; tail = 0 }

unfoldable pub get_size : Ringbuf → ℕ
get_size r = (max_size + r.head - r.tail) % max_size

unfoldable pub get_free_size : Ringbuf → ℕ
get_free_size r = capacity - get_size r

unfoldable pub push : Ringbuf → ℕ → Status × Ringbuf
push r byte =
    if ltb 0 (get_free_size r)
    then (success, record r { cells = set r.cells r.head byte; head = (r.head + 1) % max_size })
    else (ringbuf_full, r)

-- The option is what goes through `p_data`.
unfoldable pub pull : Ringbuf → Status × Option ℕ × Ringbuf
pull r =
    if ltb 0 (get_size r)
    then (success, some (get_or r.cells r.tail 0), record r { tail = (r.tail + 1) % max_size })
    else (ringbuf_empty, none, r)

-- `memcpy(dst, &data[offset], count)`: the bytes that it copies.
unfoldable pub slice : List ℕ → ℕ → ℕ → List ℕ
slice cells offset count = take count (drop offset cells)

-- For a size of 0 or more. The list is what `whad_ringbuf_copy` writes from `p_data` on: the first half, then the second.
unfoldable pub copy : Ringbuf → ℕ → Status × List ℕ
copy r size =
    if ltb (get_size r) size
    then (error, [])
    else if ltb max_size (r.tail + size)
    then (success, slice r.cells r.tail fh ++ slice r.cells 0 ((size - fh) % max_size))
    else (success, slice r.cells r.tail size)
  where
    fh : ℕ
    fh = max_size - r.tail

-- For a size of 0 or more.
unfoldable pub skip : Ringbuf → ℕ → Status × Ringbuf
skip r size =
    if ltb (get_size r) size
    then (error, r)
    else (success, record r { tail = (r.tail + size) % max_size })

-- `whad_ringbuf_copy`, whose size is an `int`: for a negative one it copies nothing and succeeds.
unfoldable pub copy_int : Ringbuf → ℤ → Status × List ℕ
copy_int r (pos size) = copy r size
copy_int r (negsuc n) = (success, [])

-- `whad_ringbuf_skip`, whose size is an `int`: a negative one moves the tail back. `none`: the remainder
-- is negative, and the tail outside of the array.
unfoldable pub skip_int : Ringbuf → ℤ → Option (Status × Ringbuf)
skip_int r (pos size) = some (skip r size)
skip_int r (negsuc n) =
    if ltb n r.tail
    then some (success, record r { tail = (r.tail - (n + 1)) % max_size })
    else if (n + 1 - r.tail) % max_size == 0
    then some (success, record r { tail = 0 })
    else none

-- A ring whose array is zeroed, as static storage is.
unfoldable pub zeroed : Ringbuf
zeroed = record { head = 0; tail = 0; cells = replicate 1024 0 }
