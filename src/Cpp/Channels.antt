-- ===== src/Cpp/Channels.antt =====
-- A channel map as a set of channels.
use whad_lib.Prelude.{
  ℕ, zero, suc, ◌+◌, ◌*◌, ◌/◌, ◌%◌, ◌<◌, ◌≡◌, ◌↔◌, refl, sym, ap, ◌∙◌, Bool, true, false, not, ◌&&◌,
  ◌||◌, [], ◌∷◌, length, get_or, set, replicate, length-set, get_or-set_self, ℤ, pos, negsuc, ◌==◌,
  leb, arith, inl, inr, Bool-cases, ==_iff, subst, true≢false, ◌≢◌, ap₂, ◌≤◌, get_or-set_ne,
  if◌then◌else◌, has_bit, set_bit, clear_bit, has_bit-set_bit, has_bit-clear_bit, set_bit-lt,
  clear_bit-lt, zero_from_bits, has_bit-zero, has_bit-full,
}
use whad_lib.Cpp.ChannelMap.{
  ChannelMap, new, is_null, enable_channel, disable_channel, is_channel_enabled,
}

-- Five bytes.
unfoldable pub IsMap : ChannelMap → Type 0
IsMap m = (length m ≡ 5) × ((i : ℕ) → get_or m i 0 < 256)

-- Whether two integers are the same channel, of 0 to 39.
unfoldable pub same_channel : ℤ → ℤ → Bool
same_channel (pos c) (pos d) = leb c 39 && (c == d)
same_channel _ _ = false

-- A write of a byte.
set-IsMap : (m : ChannelMap) (i v : ℕ) → IsMap m → i < 5 → v < 256 → IsMap (set m i v)
unfolding IsMap
set-IsMap m i v (five, bytes) within small = (
  length-set m i v ∙ five,
  λ j. elim (Bool-cases (j == i)) [
    | inl here ↦
        subst (λ b. b < 256)
          (sym (
            ap (λ k. get_or (set m i v) k 0) ((==_iff j i).0 here)
            ∙ get_or-set_self m i v 0 (omega arith)))
          small
    | inr away ↦
        subst (λ b. b < 256)
          (sym (get_or-set_ne m v 0 (λ e. true≢false (sym ((==_iff j i).1 e) ∙ away)))) (bytes j)
  ],
)

-- An operation on the bit of a channel, that does `g` to the bit and leaves the others.
module _ (f : ℕ → ℕ → ℕ) (g : Bool → Bool → Bool) (keeps : (x : Bool) → g false x ≡ x)
    (law : (b o p : ℕ) → b < 256 → o < 8 → p < 8 → has_bit (f b o) p ≡ g (o == p) (has_bit b p))
    (m : ChannelMap) (w : IsMap m) (c d : ℕ) (c_small : c < 40) (d_small : d < 40) where
  same_byte :
      c / 8 ≡ d / 8
      → has_bit (get_or (set m (c / 8) (f (get_or m (c / 8) 0) (c % 8))) (d / 8) 0) (d % 8)
        ≡ g (c == d) (has_bit (get_or m (d / 8) 0) (d % 8))
  unfolding IsMap
  same_byte e =
      ap (λ i. has_bit (get_or (set m i (f (get_or m i 0) (c % 8))) (d / 8) 0) (d % 8)) e
      ∙ ap (λ b. has_bit b (d % 8))
          (get_or-set_self m (d / 8) (f (get_or m (d / 8) 0) (c % 8)) 0 (omega (arith, w.0)))
      ∙ law (get_or m (d / 8) 0) (c % 8) (d % 8) (w.1 (d / 8)) (omega arith) (omega arith)
      ∙ ap (λ t. g t (has_bit (get_or m (d / 8) 0) (d % 8))) (ground arith)

  other_byte :
      c / 8 ≢ d / 8
      → has_bit (get_or (set m (c / 8) (f (get_or m (c / 8) 0) (c % 8))) (d / 8) 0) (d % 8)
        ≡ g (c == d) (has_bit (get_or m (d / 8) 0) (d % 8))
  other_byte ne =
      ap (λ b. has_bit b (d % 8))
        (get_or-set_ne m (f (get_or m (c / 8) 0) (c % 8)) 0 (λ e. ne (sym e)))
      ∙ sym (keeps (has_bit (get_or m (d / 8) 0) (d % 8)))
      ∙ ap (λ t. g t (has_bit (get_or m (d / 8) 0) (d % 8))) (ground arith)

  each_bit :
      has_bit (get_or (set m (c / 8) (f (get_or m (c / 8) 0) (c % 8))) (d / 8) 0) (d % 8)
      ≡ g (c == d) (has_bit (get_or m (d / 8) 0) (d % 8))
  each_bit = elim (Bool-cases ((c / 8) == (d / 8))) [
    | inl same ↦ same_byte ((==_iff (c / 8) (d / 8)).0 same)
    | inr differ ↦ other_byte (λ e. true≢false (sym ((==_iff (c / 8) (d / 8)).1 e) ∙ differ))
  ]

-- The same for any two numbers: only those of channels are looked at.
module _ (f : ℕ → ℕ → ℕ) (g : Bool → Bool → Bool) (keeps : (x : Bool) → g false x ≡ x)
    (law : (b o p : ℕ) → b < 256 → o < 8 → p < 8 → has_bit (f b o) p ≡ g (o == p) (has_bit b p))
    (m : ChannelMap) (w : IsMap m) (c d : ℕ) where
  changed : ChannelMap
  changed = if leb c 39 then set m (c / 8) (f (get_or m (c / 8) 0) (c % 8)) else m

  each_channel :
      is_channel_enabled (pos d) changed
      ≡ g (same_channel (pos c) (pos d)) (is_channel_enabled (pos d) m)
  unfolding changed is_channel_enabled same_channel
  each_channel = elim (Bool-cases (leb d 39)) [
    | inr none ↦ simp (none, no_channel none, keeps)
    | inl ds ↦ elim (Bool-cases (leb c 39)) [
      | inr none ↦ simp (ds, none, keeps)
      | inl cs ↦ simp (ds, cs, each_bit f g keeps law m w c d (ground arith) (ground arith))
    ]
  ]
    where
      no_channel : leb d 39 ≡ false → (leb c 39 && (c == d)) ≡ false
      no_channel none = ground arith

enable_at :
    (m : ChannelMap)
    → IsMap m
    → (c d : ℤ)
    → is_channel_enabled d (enable_channel c m) ≡ same_channel c d || is_channel_enabled d m
unfolding is_channel_enabled enable_channel same_channel changed
enable_at m w (negsuc c) (negsuc d) = refl
enable_at m w (negsuc c) (pos d) = refl
enable_at m w (pos c) (negsuc d) = refl
enable_at m w (pos c) (pos d) =
    each_channel set_bit (λ t x. t || x) (λ x. refl) has_bit-set_bit m w c d

disable_at :
    (m : ChannelMap)
    → IsMap m
    → (c d : ℤ)
    → is_channel_enabled d (disable_channel c m) ≡ not (same_channel c d) && is_channel_enabled d m
unfolding is_channel_enabled disable_channel same_channel changed
disable_at m w (negsuc c) (negsuc d) = refl
disable_at m w (negsuc c) (pos d) = refl
disable_at m w (pos c) (negsuc d) = refl
disable_at m w (pos c) (pos d) =
    each_channel clear_bit (λ t x. not t && x) (λ x. refl) has_bit-clear_bit m w c d

changed-IsMap :
    (f : ℕ → ℕ → ℕ)
    → ((b o : ℕ) → b < 256 → o < 8 → f b o < 256)
    → (m : ChannelMap) → IsMap m
    → (c : ℕ) → IsMap (if leb c 39 then set m (c / 8) (f (get_or m (c / 8) 0) (c % 8)) else m)
unfolding IsMap
changed-IsMap f keeps m w c = elim (Bool-cases (leb c 39)) [
  | inr none ↦
      subst (λ t. IsMap (if t then set m (c / 8) (f (get_or m (c / 8) 0) (c % 8)) else m))
        (sym none) w
  | inl cs ↦
      subst (λ t. IsMap (if t then set m (c / 8) (f (get_or m (c / 8) 0) (c % 8)) else m)) (sym cs)
        (set-IsMap m (c / 8) (f (get_or m (c / 8) 0) (c % 8)) w (ground arith)
          (keeps (get_or m (c / 8) 0) (c % 8) (w.1 (c / 8)) (omega arith)))
]

enable-IsMap : (m : ChannelMap) → IsMap m → (c : ℤ) → IsMap (enable_channel c m)
unfolding enable_channel
enable-IsMap m w (negsuc c) = w
enable-IsMap m w (pos c) = changed-IsMap set_bit set_bit-lt m w c

disable-IsMap : (m : ChannelMap) → IsMap m → (c : ℤ) → IsMap (disable_channel c m)
unfolding disable_channel
disable-IsMap m w (negsuc c) = w
disable-IsMap m w (pos c) = changed-IsMap clear_bit clear_bit-lt m w c

null_bytes : (m : ChannelMap) → is_null m ≡ true → (i : ℕ) → get_or m i 0 ≡ 0
unfolding is_null
null_bytes [] null i = refl
null_bytes (b ∷ m) null zero = ground arith
null_bytes (b ∷ m) null (suc i) = null_bytes m (ground arith) i

bytes_null : (m : ChannelMap) → ((i : ℕ) → (get_or m i 0 == 0) ≡ true) → is_null m ≡ true
unfolding is_null
bytes_null [] zeros = refl
bytes_null (b ∷ m) zeros = ap₂ (λ s t. s && t) (zeros 0) (bytes_null m (λ i. zeros (suc i)))

null-disabled : (m : ChannelMap) → is_null m ≡ true → (d : ℤ) → is_channel_enabled d m ≡ false
unfolding is_channel_enabled
null-disabled m null (negsuc d) = refl
null-disabled m null (pos d) =
    ap (λ b. if leb d 39 then has_bit b (d % 8) else false) (null_bytes m null (d / 8))
    ∙ ap (λ t. if leb d 39 then t else false) (has_bit-zero (d % 8) (omega arith))
    ∙ if_same (leb d 39)
  where
    if_same : (b : Bool) → (if b then false else false) ≡ false
    if_same true = refl
    if_same false = refl

-- The bit of a channel, by its byte.
bit_enabled :
    (m : ChannelMap) (i o : ℕ)
    → i < 5
    → o < 8
    → is_channel_enabled (pos (i * 8 + o)) m ≡ has_bit (get_or m i 0) o
unfolding is_channel_enabled
bit_enabled m i o within bit =
    ap (λ t. if t then has_bit (get_or m ((i * 8 + o) / 8) 0) ((i * 8 + o) % 8) else false) small
    ∙ ap₂ (λ j p. has_bit (get_or m j 0) p) (omega arith) (omega arith)
  where
    small : leb (i * 8 + o) 39 ≡ true
    small = ground arith

disabled-null :
    (m : ChannelMap) → IsMap m → ((d : ℤ) → is_channel_enabled d m ≡ false) → is_null m ≡ true
unfolding IsMap
disabled-null m w off = bytes_null m (λ i. elim (Bool-cases (leb i 4)) [
  | inl within ↦
      zero_from_bits (get_or m i 0) (w.1 i)
        (λ o bit. sym (bit_enabled m i o (ground arith) bit) ∙ off (pos (i * 8 + o)))
  | inr beyond ↦ ap (λ b. b == 0) (get_or_beyond m i (ground (arith, w.0)))
])
  where
    get_or_beyond : (m : ChannelMap) (i : ℕ) → length m ≤ i → get_or m i 0 ≡ 0
    get_or_beyond [] i h = refl
    get_or_beyond (b ∷ m) zero h = absurd (omega arith)
    get_or_beyond (b ∷ m) (suc i) h = get_or_beyond m i (omega arith)

-- A new map is one of five bytes, in which every channel is enabled.
pub new_lem : IsMap new × ((d : ℤ) → is_channel_enabled d new ≡ same_channel d d)
unfolding new IsMap is_channel_enabled same_channel
new_lem = ((refl, full_bytes 5), enabled)
  where
    full_bytes : (n i : ℕ) → get_or (replicate n 255) i 0 < 256
    full_bytes zero i = omega arith
    full_bytes (suc n) zero = omega arith
    full_bytes (suc n) (suc i) = full_bytes n i

    full : (n i : ℕ) → i < n → ◌≡◌ {A = ℕ} (get_or (replicate n 255) i 0) 255
    full zero i h = absurd (omega arith)
    full (suc n) zero h = refl
    full (suc n) (suc i) h = full n i (omega arith)

    self : (d : ℕ) → (d == d) ≡ true
    self d = ground arith

    enabled : (d : ℤ) → is_channel_enabled d new ≡ same_channel d d
    enabled (negsuc d) = refl
    enabled (pos d) = elim (Bool-cases (leb d 39)) [
      | inr none ↦ simp (none)
      | inl small ↦
          simp (small, self d, full 5 (d / 8) (ground arith), has_bit-full (d % 8) (omega arith))
    ]

-- Of a map of five bytes: enabling or disabling a channel gives five bytes again; after enabling a
-- channel, a channel is enabled when it is that one or was enabled before, and after disabling it,
-- when it is another one and was enabled before. An integer outside 0 to 39 is no channel: it changes
-- nothing and is never enabled. The map is null exactly when no channel is enabled.
pub channels_lem :
    (m : ChannelMap)
    → IsMap m
    → (c d : ℤ)
    → IsMap (enable_channel c m)
      × IsMap (disable_channel c m)
      × (is_channel_enabled d (enable_channel c m) ≡ same_channel c d || is_channel_enabled d m)
      × (is_channel_enabled d (disable_channel c m)
          ≡ not (same_channel c d) && is_channel_enabled d m)
      × ((is_null m ≡ true) ↔ ((k : ℤ) → is_channel_enabled k m ≡ false))
channels_lem m w c d = (
  enable-IsMap m w c,
  disable-IsMap m w c,
  enable_at m w c d,
  disable_at m w c d,
  (null-disabled m, disabled-null m w),
)
