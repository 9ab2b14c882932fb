-- ===== src/Phy/Frequencies.antt =====
-- src/domains/phy.c: the ranges of frequencies that a device supports, which a message holds in an array
-- that the library allocates and ends with a range of zeros.
use whad_lib.Prelude.{
  ℕ, zero, suc, ◌≡◌, refl, ap, sym, ◌∙◌, Bool, true, false, ◌||◌, List, [], ◌∷◌, take, Option, none,
  some, ◌++◌, ◌==◌, if◌then◌else◌, Status, success, error, arith, ◌≤◌, length,
}
use mathlib.Core.Option
use whad_lib.Protocol.Phy.{FrequencyRange, PhyMessage}
use whad_lib.Protocol.Message.{Message, phy_msg}

abbrev pub end_range : FrequencyRange
end_range = record { low = 0; high = 0 }

-- The copy of `nb_ranges` ranges, and the range that ends the array; `none` where the caller's array is
-- shorter.
unfoldable pub copy_ranges : ℕ → List FrequencyRange → Option (List FrequencyRange)
copy_ranges zero ranges = some (end_range ∷ [])
copy_ranges (suc n) [] = none
copy_ranges (suc n) (r ∷ ranges) = Option.map (λ copied. r ∷ copied) (copy_ranges n ranges)

unfoldable pub hold_ranges : Option (List FrequencyRange) → Option (Status × Option Message)
hold_ranges none = none
hold_ranges (some copied) = some (success, some (phy_msg (PhyMessage.supported_freq (some copied))))

-- `memory` is whether `malloc` returns a block.
unfoldable pub supported_frequencies :
    Bool → Option Message → Option (List FrequencyRange) → ℕ → Option (Status × Option Message)
supported_frequencies memory none p_ranges nb_ranges = some (error, none)
supported_frequencies memory (some m) none nb_ranges = some (error, some m)
supported_frequencies false (some m) (some ranges) nb_ranges = some (error, some m)
supported_frequencies true (some m) (some ranges) nb_ranges =
    hold_ranges (copy_ranges nb_ranges ranges)

-- The array that is freed with a message, if there is one.
unfoldable pub message_free : Message → Option (List FrequencyRange)
message_free (phy_msg (PhyMessage.supported_freq arg)) = arg
message_free _ = none

-- The functions of nanopb that the encoding callback calls, over the state of an output stream.
pub record Encoder (S : Type 0) : Type 0 where
  pub pb_encode_tag_for_field : S → Bool × S
  pub pb_encode_submessage : S → FrequencyRange → Bool × S

unfoldable pub is_end : FrequencyRange → Bool
is_end r = (r.low == 0) || (r.high == 0)

module _ {S : Type 0} (encoder : Encoder S) where
  -- The body of the loop for one range: the tag, and the range unless the tag failed.
  unfoldable pub encode_range : S → FrequencyRange → Bool × S
  encode_range s r =
      let (ok, s') = encoder.pb_encode_tag_for_field s in
      if ok then encoder.pb_encode_submessage s' r else (false, s')

  -- The loop over the array; `none` where it runs past its end.
  unfoldable pub encode_ranges : S → List FrequencyRange → Option (Bool × S)
  encode_ranges s [] = none
  encode_ranges s (r ∷ ranges) =
      let (ok, s') = encode_range s r in
      let rest = encode_ranges s' ranges in
      if is_end r then some (true, s) else if ok then rest else some (false, s')

  -- `whad_phy_frequency_range_encode_cb`, for the field with the tag 1.
  unfoldable pub encode_cb : Option S → ℕ → List FrequencyRange → Option (Bool × Option S)
  encode_cb none tag ranges = some (true, none)
  encode_cb (some s) tag ranges =
      if tag == 1
      then Option.map (λ r. (r.0, some r.1)) (encode_ranges s ranges)
      else some (true, some s)

-- The ranges before the first with a bound of zero.
unfoldable pub before_end : List FrequencyRange → List FrequencyRange
before_end [] = []
before_end (r ∷ ranges) = if is_end r then [] else r ∷ before_end ranges

module _ {S : Type 0} (encoder : Encoder S) where
  -- Each range of a list in turn, up to the first failure.
  unfoldable pub encode_each : S → List FrequencyRange → Bool × S
  encode_each s [] = (true, s)
  encode_each s (r ∷ ranges) =
      let (ok, s') = encode_range encoder s r in
      let rest = encode_each s' ranges in if ok then rest else (false, s')

module _ {ℓ} {A : Type ℓ} where
  both_end :
      (stop ok : Bool) (x y : A) {rest : Option A} {rest' : A}
      → rest ≡ some rest'
      → (if stop then some x else if ok then rest else some y)
        ≡ some (if stop then x else if ok then rest' else y)
  both_end true ok x y same = refl
  both_end false true x y same = same
  both_end false false x y same = refl

  apply_if {κ} :
      {B : Type κ} (f : B → A) (b : Bool) (x y : B)
      → f (if b then x else y) ≡ (if b then f x else f y)
  apply_if f true x y = refl
  apply_if f false x y = refl

module _ {S : Type 0} (encoder : Encoder S) where
  encode-ended :
      (ranges rest : List FrequencyRange) (s : S)
      → encode_ranges encoder s (ranges ++ (end_range ∷ rest))
        ≡ some (encode_each encoder s (before_end ranges))
  unfolding encode_ranges encode_each before_end is_end
  encode-ended [] rest s = refl
  encode-ended (r ∷ ranges) rest s =
      let (ok, s') = encode_range encoder s r in
      both_end ((r.low == 0) || (r.high == 0)) ok (true, s) (false, s')
        (encode-ended ranges rest s')
      ∙ ap some (
          sym (
            apply_if (encode_each encoder s) ((r.low == 0) || (r.high == 0)) []
              (r ∷ before_end ranges)))

copied_lem :
    (n : ℕ) (ranges : List FrequencyRange)
    → n ≤ length ranges
    → copy_ranges n ranges ≡ some (take n ranges ++ (end_range ∷ []))
unfolding copy_ranges
copied_lem zero ranges short = refl
copied_lem (suc n) [] short = absurd (omega arith)
copied_lem (suc n) (r ∷ ranges) short =
    ap (Option.map (λ copied. r ∷ copied)) (copied_lem n ranges (omega arith))

-- A message for `n` ranges of an array of at least as many, whatever the encoder does: the callback
-- always ends on the array that the message holds, without running past it, and emits the ranges in
-- order up to the first with a bound of zero or the first failure. Freeing the message frees this
-- array.
pub encode_cb-ends :
    {S : Type 0} (encoder : Encoder S) (s : S) (m : Message) (ranges : List FrequencyRange) (n : ℕ)
    → n ≤ length ranges
    → (copied : List FrequencyRange) × (made : Message) × (supported_frequencies true
          (some m)
          (some ranges)
          n
        ≡ some (success, some made))
      × (message_free made ≡ some copied)
      × (encode_cb encoder (some s) 1 copied
          ≡ some (let r = encode_each encoder s (before_end (take n ranges)) in (r.0, some r.1)))
unfolding supported_frequencies hold_ranges message_free encode_cb
encode_cb-ends encoder s m ranges n short =
    let copied = take n ranges ++ (end_range ∷ []) in
    (
      copied,
      phy_msg (PhyMessage.supported_freq (some copied)),
      ap hold_ranges (copied_lem n ranges short),
      refl,
      ap (Option.map (λ r. (r.0, some r.1))) (encode-ended encoder (take n ranges) [] s),
    )
