-- ===== src/Ringbuf/Window.antt =====
-- The bytes that a ring holds, read round the end of its array.
use whad_lib.Prelude.{
  ℕ, zero, suc, ◌+◌, ◌-◌, ◌%◌, ◌≤◌, ◌<◌, ◌≡◌, ◌≢◌, refl, ap, ap₂, ◌∙◌, List, [], ◌∷◌, ◌++◌, length,
  get_or, set, take, drop, get_or-set_self, get_or-set_ne, take-drop, arith,
}
use whad_lib.Ringbuf.{max_size, slice}

-- The `n` bytes from index `t` on.
abbrev pub window : List ℕ → ℕ → ℕ → List ℕ
window cells t zero = []
window cells t (suc n) = get_or cells t 0 ∷ window cells ((t + 1) % max_size) n

pub length-window : (cells : List ℕ) (t n : ℕ) → length (window cells t n) ≡ n
length-window cells t zero = refl
length-window cells t (suc n) = ap suc (length-window cells ((t + 1) % max_size) n)

-- A window splits at any point.
pub window-add :
    (cells : List ℕ) (t a b : ℕ)
    → t < max_size
    → window cells t (a + b) ≡ window cells t a ++ window cells ((t + a) % max_size) b
window-add cells t zero b h = ap₂ (window cells) (omega arith) (omega arith)
window-add cells t (suc a) b h =
    ap (window cells t) {y = suc (a + b)} (omega arith)
    ∙ ap (λ w. get_or cells t 0 ∷ w)
        (window-add cells ((t + 1) % max_size) a b (omega arith)
          ∙ ap (λ k. window cells ((t + 1) % max_size) a ++ window cells k b) (omega arith))

-- A write at an index that the window does not pass leaves it alone.
pub window-set_outside :
    (cells : List ℕ) (i v t n : ℕ)
    → t < max_size
    → ((k : ℕ) → k < n → (t + k) % max_size ≢ i)
    → window (set cells i v) t n ≡ window cells t n
window-set_outside cells i v t zero ht out = refl
window-set_outside cells i v t (suc n) ht out =
    ap₂ ◌∷◌ (get_or-set_ne cells v 0 (λ e. out 0 (omega arith) (omega (arith, e)))) (
      window-set_outside cells i v ((t + 1) % max_size) n (omega arith)
        (λ k hk e. out (suc k) (omega arith) (omega (arith, e))))

-- A write just past a window extends it by the byte written.
pub window-set_end :
    (cells : List ℕ) (v t n : ℕ)
    → length cells ≡ max_size
    → t < max_size
    → n < max_size
    → window (set cells ((t + n) % max_size) v) t (n + 1) ≡ window cells t n ++ (v ∷ [])
window-set_end cells v t n hl ht hn =
    window-add (set cells ((t + n) % max_size) v) t n 1 ht
    ∙ ap₂ ◌++◌ (window-set_outside cells ((t + n) % max_size) v t n ht (λ k hk. omega arith))
        (ap (λ b. b ∷ []) (get_or-set_self cells ((t + n) % max_size) v 0 (omega arith)))

-- `take` and `drop` cut a window where `window-add` does.
pub take-window :
    (cells : List ℕ) (t n k : ℕ) → k ≤ n → take k (window cells t n) ≡ window cells t k
take-window cells t n zero h = refl
take-window cells t zero (suc k) h = absurd (omega arith)
take-window cells t (suc n) (suc k) h =
    ap (λ w. get_or cells t 0 ∷ w) (take-window cells ((t + 1) % max_size) n k (omega arith))

pub drop-window :
    (cells : List ℕ) (t n k : ℕ)
    → t < max_size
    → k ≤ n
    → drop k (window cells t n) ≡ window cells ((t + k) % max_size) (n - k)
drop-window cells t n zero ht h = ap₂ (window cells) (omega arith) (omega arith)
drop-window cells t zero (suc k) ht h = absurd (omega arith)
drop-window cells t (suc n) (suc k) ht h =
    drop-window cells ((t + 1) % max_size) n k (omega arith) (omega arith)
    ∙ ap₂ (window cells) (omega arith) (omega arith)

-- Up to the end of the array a window is a slice of it.
pub slice-eq-window :
    (cells : List ℕ) (t n : ℕ)
    → length cells ≡ max_size
    → t + n ≤ max_size
    → slice cells t n ≡ window cells t n
unfolding slice
slice-eq-window cells t zero hl h = refl
slice-eq-window cells t (suc n) hl h =
    take-drop cells t n (omega arith)
    ∙ ap (λ w. get_or cells t 0 ∷ w) (slice-eq-window cells (suc t) n hl (omega arith) ∙ next n h)
  where
    next :
        (n : ℕ)
        → t + suc n ≤ max_size
        → window cells (suc t) n ≡ window cells ((t + 1) % max_size) n
    next zero _ = refl
    next (suc m) le = ap (λ k. window cells k (suc m)) (omega arith)
