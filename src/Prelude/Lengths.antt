-- ===== src/Prelude/Lengths.antt =====
-- Arithmetic with the lengths of lists of bytes.
use Prim.Native.Nat.{ℕ, ◌+◌, ◌-◌, min}
use mathlib.Core.Path.{◌≡◌}
use mathlib.Core.List.{List, [], ◌∷◌, ◌++◌}
use native.Mathlib.Omega.{arith}
use whad_lib.Prelude.Lists.{
  length, take, drop, replicate, length-append, length-snoc, length-take, length-drop,
  length-replicate,
}

pub of_append : (xs ys : List ℕ) → length (xs ++ ys) ≡ length xs + length ys
of_append = length-append

pub of_snoc : (xs : List ℕ) (x : ℕ) → length (xs ++ (x ∷ [])) ≡ length xs + 1
of_snoc = length-snoc

pub of_take : (n : ℕ) (xs : List ℕ) → length (take n xs) ≡ min n (length xs)
of_take = length-take

pub of_drop : (n : ℕ) (xs : List ℕ) → length (drop n xs) ≡ length xs - n
of_drop = length-drop

pub of_replicate : (n : ℕ) (x : ℕ) → length (replicate n x) ≡ n
of_replicate = length-replicate

pub ruleset length_rules = (arith, of_append, of_snoc, of_take, of_drop, of_replicate)
