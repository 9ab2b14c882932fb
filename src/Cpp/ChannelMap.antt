-- ===== src/Cpp/ChannelMap.antt =====
-- src/cpp/domains/ble/ble_channelmap.cpp: the 40 channels of Bluetooth Low Energy as the bits of five
-- bytes.
use whad_lib.Prelude.{
  ℕ, ◌/◌, ◌%◌, Bool, true, false, ◌&&◌, List, [], ◌∷◌, replicate, take, get_or, set, ℤ, pos, negsuc,
  ◌==◌, leb, if◌then◌else◌, has_bit, set_bit, clear_bit,
}

-- `m_map`, of five bytes.
abbrev pub ChannelMap : Type 0
ChannelMap = List ℕ

-- `ChannelMap()`.
unfoldable pub new : ChannelMap
new = replicate 5 255

-- `ChannelMap(uint8_t[5])`.
unfoldable pub from_bytes : List ℕ → ChannelMap
from_bytes bytes = take 5 bytes

-- `isNull`: `memcmp` with five zeros.
unfoldable pub is_null : ChannelMap → Bool
is_null [] = true
is_null (b ∷ m) = (b == 0) && is_null m

-- `enableChannel` and `disableChannel`: a channel from 0 to 39, and no other.
unfoldable pub enable_channel : ℤ → ChannelMap → ChannelMap
enable_channel (negsuc n) m = m
enable_channel (pos c) m =
    if leb c 39 then set m (c / 8) (set_bit (get_or m (c / 8) 0) (c % 8)) else m

unfoldable pub disable_channel : ℤ → ChannelMap → ChannelMap
disable_channel (negsuc n) m = m
disable_channel (pos c) m =
    if leb c 39 then set m (c / 8) (clear_bit (get_or m (c / 8) 0) (c % 8)) else m

unfoldable pub is_channel_enabled : ℤ → ChannelMap → Bool
is_channel_enabled (negsuc n) m = false
is_channel_enabled (pos c) m = if leb c 39 then has_bit (get_or m (c / 8) 0) (c % 8) else false
