-- ===== src/Prelude/Bytes.antt =====
-- The bits of a byte, by tables of all bytes that are checked by evaluation.
use Prim.Native.Nat.{ℕ, zero, suc, ◌+◌, ◌-◌, ◌*◌, ◌/◌, ◌%◌, ◌^◌, ◌<◌, bit_and, bit_or}
use mathlib.Core.Path.{◌≡◌, refl, sym, ap, subst, ◌∙◌}
use mathlib.Core.Bool.{Bool, true, false, not, true≢false, ◌&&◌, ◌||◌}
use mathlib.Core.Logic.{inl, inr}
use native.Mathlib.Omega.{arith}
use whad_lib.Prelude.Tests.{◌==◌, ==_iff, Bool-cases, if◌then◌else◌, ltb, ltb→lt}

agree : Bool → Bool → Bool
agree true b = b
agree false b = not b

agree→eq : (a b : Bool) → agree a b ≡ true → a ≡ b
unfolding agree
agree→eq true b e = sym e
agree→eq false true e = e
agree→eq false false e = refl

module _ (f g : ℕ → Bool) where
  agree_below : ℕ → Bool
  agree_below zero = true
  agree_below (suc n) = if agree (f n) (g n) then agree_below n else false

  agree_below→eq : (n : ℕ) → agree_below n ≡ true → (i : ℕ) → i < n → f i ≡ g i
  unfolding agree_below
  agree_below→eq zero e i h = absurd (omega arith)
  agree_below→eq (suc n) e i h = elim (Bool-cases (agree (f n) (g n))) [
    | inr differ ↦ absurd (true≢false (sym e ∙ ap (λ b. if b then agree_below n else false) differ))
    | inl same ↦ elim (Bool-cases (i == n)) [
      | inl last ↦ agree→eq (f i) (g i) (ap (λ k. agree (f k) (g k)) ((==_iff i n).0 last) ∙ same)
      | inr before ↦
          agree_below→eq n (sym (ap (λ b. if b then agree_below n else false) same) ∙ e) i
            (ground arith)
    ]
  ]

-- `b & (1 << o)`, as a test.
unfoldable pub has_bit : ℕ → ℕ → Bool
has_bit b o = not (bit_and b (2 ^ o) == 0)

-- Setting a bit, and clearing one.
unfoldable pub set_bit : ℕ → ℕ → ℕ
set_bit b o = bit_or b (2 ^ o)

unfoldable pub clear_bit : ℕ → ℕ → ℕ
clear_bit b o = bit_and b (255 - 2 ^ o)

-- A fact of a byte and two bits, from a table.
module _ (f g : ℕ → ℕ → ℕ → Bool) where
  triples :
      agree_below (λ k. f (k / 64) (k / 8 % 8) (k % 8)) (λ k. g (k / 64) (k / 8 % 8) (k % 8)) 16384
        ≡ true
      → (b o p : ℕ) → b < 256
      → o < 8
      → p < 8
      → f b o p ≡ g b o p
  triples table b o p small first second =
      subst (λ n. f n o p ≡ g n o p) byte
        (subst (λ n. f (k / 64) n p ≡ g (k / 64) n p) bit
          (subst (λ n. f (k / 64) (k / 8 % 8) n ≡ g (k / 64) (k / 8 % 8) n) other
            (agree_below→eq _ _ 16384 table k (omega arith))))
    where
      k : ℕ
      k = b * 64 + o * 8 + p

      byte : k / 64 ≡ b
      byte = omega arith

      bit : k / 8 % 8 ≡ o
      bit = omega arith

      other : k % 8 ≡ p
      other = omega arith

pub has_bit-set_bit :
    (b o p : ℕ) → b < 256 → o < 8 → p < 8 → has_bit (set_bit b o) p ≡ (o == p) || has_bit b p
unfolding has_bit set_bit agree_below agree
has_bit-set_bit = triples (λ b o p. has_bit (set_bit b o) p) (λ b o p. (o == p) || has_bit b p) refl

pub has_bit-clear_bit :
    (b o p : ℕ) → b < 256 → o < 8 → p < 8 → has_bit (clear_bit b o) p ≡ not (o == p) && has_bit b p
unfolding has_bit clear_bit agree_below agree
has_bit-clear_bit =
    triples (λ b o p. has_bit (clear_bit b o) p) (λ b o p. not (o == p) && has_bit b p) refl

pub set_bit-lt : (b o : ℕ) → b < 256 → o < 8 → set_bit b o < 256
unfolding set_bit agree_below agree
set_bit-lt b o small bit =
    ltb→lt _ _
      (triples (λ b o p. ltb (set_bit b o) 256) (λ b o p. true) refl b o 0 small bit (omega arith))

pub clear_bit-lt : (b o : ℕ) → b < 256 → o < 8 → clear_bit b o < 256
unfolding clear_bit agree_below agree
clear_bit-lt b o small bit =
    ltb→lt _ _ (
      triples (λ b o p. ltb (clear_bit b o) 256) (λ b o p. true) refl b o 0 small bit (omega arith))

-- A byte is zero when it has no bit.
any_bit : ℕ → ℕ → Bool
any_bit b zero = false
any_bit b (suc n) = if has_bit b n then true else any_bit b n

zero_byte : (b : ℕ) → b < 256 → (b == 0) ≡ not (any_bit b 8)
unfolding has_bit agree_below agree any_bit
zero_byte = agree_below→eq (λ b. b == 0) (λ b. not (any_bit b 8)) 256 refl

no_bit : (b n : ℕ) → ((o : ℕ) → o < n → has_bit b o ≡ false) → any_bit b n ≡ false
unfolding any_bit
no_bit b zero none = refl
no_bit b (suc n) none =
    ap (λ t. if t then true else any_bit b n) (none n (omega arith))
    ∙ no_bit b n (λ o h. none o (omega arith))

pub zero_from_bits : (b : ℕ) → b < 256 → ((o : ℕ) → o < 8 → has_bit b o ≡ false) → (b == 0) ≡ true
zero_from_bits b small none = zero_byte b small ∙ ap not (no_bit b 8 none)

pub has_bit-zero : (o : ℕ) → o < 8 → has_bit 0 o ≡ false
unfolding has_bit agree_below agree
has_bit-zero = agree_below→eq (λ o. has_bit 0 o) (λ o. false) 8 refl

pub has_bit-full : (o : ℕ) → o < 8 → has_bit 255 o ≡ true
unfolding has_bit agree_below agree
has_bit-full = agree_below→eq (λ o. has_bit 255 o) (λ o. true) 8 refl
