-- ===== src/Protocol/Bytes.antt =====
-- `PB_BYTES_ARRAY_T(n)`: a length and an array of n bytes.
use whad_lib.Prelude.{ℕ, List, replicate}

pub record Bytes : Type 0 where
  pub size : ℕ
  pub bytes : List ℕ

-- An array of `capacity` zero bytes, of which none is in use.
abbrev pub bytes_zero : ℕ → Bytes
bytes_zero capacity = record { size = 0; bytes = replicate capacity 0 }
