-- ===== src/Protocol/Buffer.antt =====
-- Byte arrays with the size in use, as nanopb's `PB_BYTES_ARRAY_T` and the packet and address structs
-- of inc/domains, and optional fields with their flag.
use whad_lib.Prelude.{
  ℕ, zero, suc, ◌≤◌, ◌≡◌, refl, ap, Bool, true, false, List, [], ◌∷◌, ◌++◌, length, take, drop,
  Option, none, some, if◌then◌else◌, arith, length_rules,
}

-- The size in use, and the array.
pub record Buffer : Type 0 where
  pub size : ℕ
  pub bytes : List ℕ

-- A field with its `has_` flag; a value that is not present is left over from before.
pub record Field {ℓ} (A : Type ℓ) : Type ℓ where
  pub present : Bool
  pub value : A

-- `memcpy(dst, src, n)`, into the array that holds `old`.
unfoldable pub memcpy : ℕ → List ℕ → List ℕ → List ℕ
memcpy n src old = take n src ++ drop n old

-- The size, and as many bytes, of `src` into `old`.
unfoldable pub copy_buffer : Buffer → Buffer → Buffer
copy_buffer src old = record { size = src.size; bytes = memcpy src.size src.bytes old.bytes }

-- `if (src.has_x) { dst.has_x = true; dst.x = src.x; } else { dst.has_x = false; }`.
unfoldable pub copy_field {ℓ} : {A : Type ℓ} → Field A → Field A → Field A
copy_field src old =
    if src.present
    then record { present = true; value = src.value }
    else record { present = false; value = old.value }

-- What a buffer says, the bytes past the size forgotten.
unfoldable pub contents : Buffer → List ℕ
contents b = take b.size b.bytes

-- What a field says, a value that is not present forgotten.
unfoldable pub held {ℓ} : {A : Type ℓ} → Field A → Option A
held f = if f.present then some f.value else none

-- The array is as long as the size says.
unfoldable pub IsFull : Buffer → Type 0
IsFull b = b.size ≤ length b.bytes

take-copied :
    (n : ℕ) (src rest : List ℕ) → n ≤ length src → take n (take n src ++ rest) ≡ take n src
take-copied zero src rest h = refl
take-copied (suc n) [] rest h = absurd (omega arith)
take-copied (suc n) (x ∷ src) rest h = ap (λ t. x ∷ t) (take-copied n src rest (omega arith))

pub contents-copy_buffer :
    (src old : Buffer) → IsFull src → contents (copy_buffer src old) ≡ contents src
unfolding IsFull contents copy_buffer memcpy
contents-copy_buffer src old full = take-copied src.size src.bytes (drop src.size old.bytes) full

pub IsFull-copy_buffer : (src old : Buffer) → IsFull src → IsFull (copy_buffer src old)
unfolding IsFull copy_buffer memcpy
IsFull-copy_buffer src old full = omega length_rules

pub held-copy_field {ℓ} : {A : Type ℓ} (src old : Field A) → held (copy_field src old) ≡ held src
unfolding held copy_field
held-copy_field src old = ground arith
