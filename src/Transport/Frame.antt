-- ===== src/Transport/Frame.antt =====
-- Frames as lists of bytes: what the sender appends, and what the receiver reads off its stream.
use whad_lib.Prelude.{
  ℕ, ◌+◌, ◌*◌, ◌/◌, ◌%◌, ◌≤◌, ◌<◌, ◌≡◌, refl, [], ◌&&◌, List, ◌∷◌, ◌++◌, leb, ltb, ◌==◌,
  if◌then◌else◌, length, take, drop, take-append, drop-append, length-append, success, error, arith,
}
use whad_lib.Transport.{Reply, no_bytes, frame_header, max_encoded_message_size}

-- The frame of a payload.
abbrev pub frame : List ℕ → List ℕ
frame p = frame_header (length p) ++ p

-- A byte stream from which a frame is read. A payload is handed out once it is complete; bytes that
-- begin no frame are dropped, and so is the first byte of a header with a length above 1019.
unfoldable pub decode : ℕ → List ℕ → Reply × List ℕ
decode available (h0 ∷ h1 ∷ h2 ∷ h3 ∷ q) =
    if (h0 == 0xac) && (h1 == 0xbe)
    then payload (h2 + h3 * 256)
    else if h1 == 0xac
    then (no_bytes success 0, h1 ∷ h2 ∷ h3 ∷ q)
    else (no_bytes success 0, h2 ∷ h3 ∷ q)
  where
    payload : ℕ → Reply × List ℕ
    payload size =
        if ltb max_encoded_message_size size
        then (no_bytes error 0, h1 ∷ h2 ∷ h3 ∷ q)
        else if leb size available
        then if leb size (length q)
          then (record { status = success; size = size; bytes = take size q }, drop size q)
          else (no_bytes success 0, h0 ∷ h1 ∷ h2 ∷ h3 ∷ q)
        else (no_bytes error size, h0 ∷ h1 ∷ h2 ∷ h3 ∷ q)
decode available q = (no_bytes success 0, q)

-- Fewer bytes than a header are left alone.
pub decode_short :
    (available : ℕ) (q : List ℕ) → length q < 4 → decode available q ≡ (no_bytes success 0, q)
unfolding decode
decode_short available [] h = refl
decode_short available (a ∷ []) h = refl
decode_short available (a ∷ b ∷ []) h = refl
decode_short available (a ∷ b ∷ c ∷ []) h = refl
decode_short available (a ∷ b ∷ c ∷ d ∷ q) h = absurd (omega arith)

-- The two length bytes give the length back.
pub length_of_bytes : (n : ℕ) → n ≤ max_encoded_message_size → n % 256 + n / 256 % 256 * 256 ≡ n
length_of_bytes n h = omega arith

-- A complete frame at the front of the stream is taken off it, and its payload handed out.
pub decode-frame :
    (available : ℕ) (p rest : List ℕ)
    → length p ≤ max_encoded_message_size
    → length p ≤ available
    → decode available (frame p ++ rest)
      ≡ (record { status = success; size = length p; bytes = p }, rest)
unfolding decode
decode-frame available p rest fits room =
    rw (length_of_bytes (length p) fits)
      (ground (arith, length-append p rest, take-append p rest, drop-append p rest))
