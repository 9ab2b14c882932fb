-- ===== src/Ringbuf/Queue.antt =====
-- What the ring stands for: a FIFO of at most 1023 bytes, oldest first.
use whad_lib.Prelude.{
  ℤ, pos, negsuc, ℕ, List, [], ◌∷◌, ◌++◌, ltb, if◌then◌else◌, length, take, drop, Option, none,
  some, Status, success, error, ringbuf_full, ringbuf_empty,
}

abbrev pub Queue : Type 0
Queue = List ℕ

unfoldable pub push : Queue → ℕ → Status × Queue
push q byte = if ltb (length q) 1023 then (success, q ++ (byte ∷ [])) else (ringbuf_full, q)

unfoldable pub pull : Queue → Status × Option ℕ × Queue
pull [] = (ringbuf_empty, none, [])
pull (x ∷ q) = (success, some x, q)

unfoldable pub copy : Queue → ℕ → Status × List ℕ
copy q size = if ltb (length q) size then (error, []) else (success, take size q)

unfoldable pub copy_int : Queue → ℤ → Status × List ℕ
copy_int q (pos size) = copy q size
copy_int q (negsuc n) = (success, [])

unfoldable pub skip : Queue → ℕ → Status × Queue
skip q size = if ltb (length q) size then (error, q) else (success, drop size q)
