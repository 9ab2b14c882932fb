-- ===== src/Prelude/Pointer.antt =====
-- `whad_result_t` of inc/types.h, and C pointers that may be NULL.
use mathlib.Core.Bool.{Bool, true, false}
use mathlib.Core.Option
use mathlib.Core.Option.{Option, none, some}
use mathlib.Core.Path.{◌≡◌, sym, subst}

-- `whad_result_t`.
pub data Status : Type 0 where
  success error whad_none ringbuf_empty ringbuf_full : Status

-- `status == WHAD_SUCCESS`.
abbrev pub is_success : Status → Bool
is_success success = true
is_success _ = false

module _ {ℓ} {M : Type ℓ} where
  -- A function that writes the message behind a pointer, and returns an error where the pointer is NULL.
  abbrev pub build_with : (M → Status × M) → Option M → Status × Option M
  build_with write none = (error, none)
  build_with write (some m) = let (status, m') = write m in (status, some m')

  -- The same with a second pointer, to what is written; either may be NULL.
  abbrev pub build_from {κ} :
      {A : Type κ} → (A → M → Status × M) → Option M → Option A → Status × Option M
  build_from write none a = (error, none)
  build_from write (some m) none = (error, some m)
  build_from write (some m) (some a) = let (status, m') = write a m in (status, some m')

  -- A function that reads the message behind a pointer into a struct behind another.
  abbrev pub parse_with {κ} :
      {A : Type κ} → (M → A → Status × A) → Option M → Option A → Status × Option A
  parse_with read none out = (error, out)
  parse_with read (some m) none = (error, none)
  parse_with read (some m) (some old) = let (status, new) = read m old in (status, some new)

module _ {ℓ κ} {A : Type ℓ} {B : Type κ} where
  -- A parser's result: success, with a struct that says `b`.
  abbrev pub Gives : (A → B) → Status × Option A → B → Type κ
  Gives f (status, out) b = (status ≡ success) × (Option.map f out ≡ some b)

  pub Gives-subst :
      (f : A → B) {r r' : Status × Option A} (b : B) → r ≡ r' → Gives f r' b → Gives f r b
  Gives-subst f b same given = subst (λ r. Gives f r b) (sym same) given
