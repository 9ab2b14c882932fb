-- ===== src/Ringbuf/Tests.antt =====
-- Runs of the ring at the end of its array, and the theorems on such a ring.
use whad_lib.Prelude.{
  pos, negsuc, none, some, success, ℕ, ◌≡◌, refl, List, [], ◌∷◌, replicate, length-replicate, arith,
}
use whad_lib.Ringbuf.{skip_int, Ringbuf, push, get_size, get_free_size}
use whad_lib.Ringbuf.Invariant.{IsValid, push-IsValid}
use whad_lib.Ringbuf.Refine.{contents}
use whad_lib.Ringbuf.Run.{
  Call, run_ring, run_queue, run_refines, push_call, pull_call, copy_call, skip_call, reset,
}

-- One byte is stored, in the last entry but one.
abbrev near_end : Ringbuf
near_end = record { head = 1023; tail = 1022; cells = replicate 1024 5 }

near_end-IsValid : IsValid near_end
near_end-IsValid = record {
  head_in = omega arith;
  tail_in = omega arith;
  storage = length-replicate {A = ℕ} 1024 5;
}

-- Three bytes, of which the last stands at the start of the array.
abbrev wrapped : Ringbuf
wrapped = (push (push near_end 6).1 7).1

wrapped-IsValid : IsValid wrapped
wrapped-IsValid = push-IsValid 7 (push-IsValid 6 near_end-IsValid)

push-near_end : (push near_end 6).1.head ≡ 0
unfolding push get_free_size get_size
push-near_end = refl

size_near_end : get_size near_end ≡ 1
unfolding get_size
size_near_end = refl

abbrev calls : List Call
calls =
    push_call 1
    ∷ copy_call (pos 4)
    ∷ copy_call (negsuc 0)
    ∷ skip_call 9
    ∷ pull_call
    ∷ reset
    ∷ pull_call
    ∷ []

run_refines_example :
    ((run_ring calls wrapped).0, contents (run_ring calls wrapped).1)
      ≡ run_queue calls (contents wrapped)
    × IsValid (run_ring calls wrapped).1
run_refines_example = run_refines calls wrapped-IsValid

-- A skip of -1 byte moves the tail back, and takes it out of the array at its start.
skip_back : skip_int near_end (negsuc 0) ≡ some (success, record near_end { tail = 1021 })
unfolding skip_int
skip_back = refl

skip_out : skip_int (record near_end { tail = 0 }) (negsuc 0) ≡ none
unfolding skip_int
skip_out = refl
