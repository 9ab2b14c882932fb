-- ===== src/Cpp/ChannelTests.antt =====
-- Channel maps, and the theorems on them.
use whad_lib.Prelude.{
  set_bit, clear_bit, ◌≡◌, ◌↔◌, refl, true, false, not, ◌&&◌, ◌||◌, [], ◌∷◌, ℤ, pos, zero, suc, ℕ,
  get_or, ◌<◌, arith,
}
use whad_lib.Cpp.ChannelMap.{
  ChannelMap, enable_channel, disable_channel, is_channel_enabled, is_null,
}
use whad_lib.Cpp.Channels.{IsMap, same_channel, channels_lem}

-- The advertising channels 37, 38 and 39.
abbrev advertising : ChannelMap
advertising = 0 ∷ 0 ∷ 0 ∷ 0 ∷ 224 ∷ []

advertising-IsMap : IsMap advertising
unfolding IsMap
advertising-IsMap = (refl, bytes)
  where
    bytes : (i : ℕ) → get_or advertising i 0 < 256
    bytes zero = omega arith
    bytes (suc zero) = omega arith
    bytes (suc (suc zero)) = omega arith
    bytes (suc (suc (suc zero))) = omega arith
    bytes (suc (suc (suc (suc zero)))) = omega arith
    bytes (suc (suc (suc (suc (suc i))))) = omega arith

enabled_8 : enable_channel (pos 8) advertising ≡ 0 ∷ 1 ∷ 0 ∷ 0 ∷ 224 ∷ []
unfolding enable_channel set_bit
enabled_8 = refl

disabled_38 : disable_channel (pos 38) advertising ≡ 0 ∷ 0 ∷ 0 ∷ 0 ∷ 160 ∷ []
unfolding disable_channel clear_bit
disabled_38 = refl

channels_lem_example :
    IsMap (enable_channel (pos 8) advertising)
    × IsMap (disable_channel (pos 8) advertising)
    × (is_channel_enabled (pos 38) (enable_channel (pos 8) advertising)
        ≡ same_channel (pos 8) (pos 38) || is_channel_enabled (pos 38) advertising)
    × (is_channel_enabled (pos 38) (disable_channel (pos 8) advertising)
        ≡ not (same_channel (pos 8) (pos 38)) && is_channel_enabled (pos 38) advertising)
    × ((is_null advertising ≡ true) ↔ ((k : ℤ) → is_channel_enabled k advertising ≡ false))
channels_lem_example = channels_lem advertising advertising-IsMap (pos 8) (pos 38)
