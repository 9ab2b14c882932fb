-- ===== src/Transport.antt =====
-- src/transport.c and inc/transport.h: frames of a four-byte header and a payload, over two rings.
-- The static `gw_transport` is a record that each function takes and returns. The buffers that the
-- send callback is given are recorded in `sent`, in order.
pub mod Frame
pub mod Outgoing
pub mod Drain
pub mod Receive
pub mod Poll
pub mod Resync
pub mod Push
pub mod Send
pub mod Channel
mod Tests
use whad_lib.Prelude.{
  ℕ, ◌+◌, ◌-◌, ◌*◌, ◌/◌, ◌%◌, Bool, true, false, ◌&&◌, List, [], ◌∷◌, ◌++◌, leb, ltb, ◌==◌,
  if◌then◌else◌, length, get_or, take, Option, none, some, ℤ, pos, negsuc, Status, success, error,
  ringbuf_full, ringbuf_empty, is_success,
}
use whad_lib.Ringbuf
use whad_lib.Ringbuf.{Ringbuf}

-- `WHAD_TRANSPORT_FRAME_HEADER_SIZE`.
abbrev pub header_size : ℕ
header_size = 4

-- `WHAD_MAX_ENCODED_MESSAGE_SIZE`.
abbrev pub max_encoded_message_size : ℕ
max_encoded_message_size = Ringbuf.capacity - header_size

-- `whad_transport_state_t`.
pub data State : Type 0 where
  idle sending : State

abbrev pub is_idle : State → Bool
is_idle idle = true
is_idle sending = false

-- `whad_transport_cfg_t`. The callback is code of the firmware: of what it does with a buffer the
-- model keeps whether it calls `whad_transport_data_sent` before it returns.
pub record Config : Type 0 where
  pub max_txbuf_size : ℕ
  pub send_buffer : Option (List ℕ → Bool)

-- `whad_transport_t`, without the member `msg`, which nothing reads after it is zeroed.
pub record Transport : Type 0 where
  pub state : State
  pub rx_buf : Ringbuf
  pub tx_buf : Ringbuf
  pub config : Config
  pub sent : List (List ℕ)

unfoldable pub init : Config → Transport → Transport
init cfg t = record t {
  rx_buf = Ringbuf.init t.rx_buf;
  tx_buf = Ringbuf.init t.tx_buf;
  config = cfg;
  state = idle;
}

-- The loop of `whad_transport_data_received` on the receive ring.
unfoldable pub enqueue : List ℕ → Ringbuf → Status × Ringbuf
enqueue [] r = (success, r)
enqueue (x ∷ xs) r =
    let (s, r') = Ringbuf.push r x in
    let rest = enqueue xs r' in if is_success s then rest else (ringbuf_full, r')

-- `p_data` and `size` are the list.
unfoldable pub data_received : List ℕ → Transport → Status × Transport
data_received bytes t = let (s, r) = enqueue bytes t.rx_buf in (s, record t { rx_buf = r })

unfoldable pub data_sent : Transport → Transport
data_sent t = elim t.state [ sending ↦ record t { state = idle } | idle ↦ t ]

-- The body of `whad_transport_send_pending` once there are `size` bytes to send: hand them to the
-- callback in state `sending`, then skip them.
unfoldable pub send_bytes : (List ℕ → Bool) → ℕ → Transport → Status × Transport
send_bytes callback size t =
    let (s, bytes) = Ringbuf.copy t.tx_buf size in
    if is_success s
    then (success, record (after bytes) { tx_buf = (Ringbuf.skip t.tx_buf size).1 })
    else (error, t)
  where
    handed : List ℕ → Transport
    handed bytes = record t { state = sending; sent = t.sent ++ (bytes ∷ []) }

    after : List ℕ → Transport
    after bytes = if callback bytes then data_sent (handed bytes) else handed bytes

-- The number of bytes that are sent at once.
abbrev pub chunk_size : Transport → ℕ
chunk_size t =
    if ltb t.config.max_txbuf_size (Ringbuf.get_size t.tx_buf)
    then t.config.max_txbuf_size
    else Ringbuf.get_size t.tx_buf

unfoldable pub send_pending : Transport → Status × Transport
send_pending t =
    if is_idle t.state
    then elim t.config.send_buffer [
      | none ↦ (success, t)
      | some callback ↦
          if ltb 0 (Ringbuf.get_size t.tx_buf)
          then send_bytes callback (chunk_size t) t
          else (ringbuf_empty, t)
    ]
    else (error, t)

unfoldable pub wait_tx_space : ℕ → Transport → Status × Transport
wait_tx_space size t =
    if leb size (Ringbuf.get_free_size t.tx_buf)
    then (success, t)
    else if leb size (Ringbuf.get_free_size t'.tx_buf)
    then (success, t')
    else (ringbuf_full, t')
  where
    t' : Transport
    t' = if is_idle t.state then (send_pending t).1 else t

-- What `whad_transport_get_message` returns, `*p_size` as it leaves it, and the bytes that it writes
-- from `p_buffer` on.
pub record Reply : Type 0 where
  pub status : Status
  pub size : ℕ
  pub bytes : List ℕ

abbrev pub no_bytes : Status → ℕ → Reply
no_bytes s n = record { status = s; size = n; bytes = [] }

-- `header[2] | (header[3] << 8)`: the two bytes share no bit, so the sum is their union.
abbrev pub frame_length : List ℕ → ℕ
frame_length header = get_or header 2 0 + get_or header 3 0 * 256

-- The receive ring holds a header with the magic bytes, and `size` is the length that it gives.
unfoldable pub get_frame : ℕ → ℕ → Ringbuf → Reply × Ringbuf
get_frame available size r =
    if ltb max_encoded_message_size size
    then (no_bytes error 0, (Ringbuf.skip r 1).1)
    else if leb size available
    then if leb (size + header_size) (Ringbuf.get_size r)
      then (record { status = success; size = size; bytes = payload.1 }, (Ringbuf.skip body size).1)
      else (no_bytes success 0, r)
    else (no_bytes error size, r)
  where
    body : Ringbuf
    body = (Ringbuf.skip r header_size).1

    payload : Status × List ℕ
    payload = Ringbuf.copy body size

-- The magic bytes are checked, and bytes that begin no frame are dropped.
unfoldable pub read_header : ℕ → List ℕ → Ringbuf → Reply × Ringbuf
read_header available header r =
    if (get_or header 0 0 == 0xac) && (get_or header 1 0 == 0xbe)
    then get_frame available (frame_length header) r
    else if get_or header 1 0 == 0xac
    then (no_bytes success 0, (Ringbuf.skip r 1).1)
    else (no_bytes success 0, (Ringbuf.skip r 2).1)

-- `whad_transport_get_message` on the receive ring, with `*p_size` as it is called.
unfoldable pub get_message_from : ℕ → Ringbuf → Reply × Ringbuf
get_message_from available r =
    if leb header_size (Ringbuf.get_size r)
    then elim (Ringbuf.copy r header_size).0 [
      | error ↦ (no_bytes error 0, r)
      | _ ↦ read_header available (Ringbuf.copy r header_size).1 r
    ]
    else (no_bytes success 0, r)

unfoldable pub get_message : ℕ → Transport → Reply × Transport
get_message available t =
    let (reply, r) = get_message_from available t.rx_buf in (reply, record t { rx_buf = r })

-- The two bytes of a size, low byte first, behind the magic bytes.
abbrev pub frame_header : ℕ → List ℕ
frame_header size = 0xac ∷ 0xbe ∷ size % 256 ∷ size / 256 % 256 ∷ []

-- The two loops of `whad_transport_send_message`, over the bytes still to push. On a full ring
-- `whad_ringbuf_skip` takes off as many bytes as were pushed.
unfoldable pub push_frame : List ℕ → ℕ → Ringbuf → Status × Ringbuf
push_frame [] pushed r = (success, r)
push_frame (x ∷ xs) pushed r =
    let (s, r') = Ringbuf.push r x in
    let rest = push_frame xs (pushed + 1) r' in
    if is_success s then rest else (ringbuf_full, (Ringbuf.skip r' pushed).1)

-- What follows `whad_transport_wait_tx_space` in `whad_transport_send_message`, from its result.
unfoldable pub push_message : List ℕ → ℕ → Status × Transport → Status × Transport
push_message message size (s, t) =
    if is_success s then (pushed.0, record t { tx_buf = pushed.1 }) else (ringbuf_full, t)
  where
    pushed : Status × Ringbuf
    pushed = push_frame (frame_header size ++ take size message) 0 t.tx_buf

-- `whad_transport_send_message` once its arguments are checked.
unfoldable pub send_frame : List ℕ → ℕ → Transport → Status × Transport
unfolding push_message
send_frame message size t = push_message message size (wait_tx_space (size + header_size) t)

-- `p_message` may be NULL, and `size` is a C `int`.
unfoldable pub send_message : Option (List ℕ) → ℤ → Transport → Status × Transport
send_message message (negsuc n) t = (error, t)
send_message none (pos size) t =
    if ltb 0 size
    then (error, t)
    else if ltb max_encoded_message_size size
    then (error, t)
    else send_frame [] size t
send_message (some message) (pos size) t =
    if ltb max_encoded_message_size size then (error, t) else send_frame message size t

unfoldable pub get_txbuf_size : Transport → ℕ
get_txbuf_size t = Ringbuf.get_size t.tx_buf

unfoldable pub get_rxbuf_size : Transport → ℕ
get_rxbuf_size t = Ringbuf.get_size t.rx_buf
