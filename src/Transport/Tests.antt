-- ===== src/Transport/Tests.antt =====
-- Small transports, and the theorems on them.
use whad_lib.Prelude.{
  ℕ, ◌+◌, ◌-◌, ◌≤◌, ◌≡◌, refl, ap, ◌∙◌, false, List, [], ◌∷◌, ◌++◌, length, take, drop, flatten,
  replicate, leb, if◌then◌else◌, is_success, pos, some, success, ringbuf_full, arith, length_rules,
}
use whad_lib.Ringbuf.{init, zeroed}
use whad_lib.Ringbuf.Invariant
use whad_lib.Ringbuf.Invariant.{zeroed-IsValid}
use whad_lib.Ringbuf.Refine.{contents, contents-init}
use whad_lib.Transport.{
  Transport, idle, sending, enqueue, data_received, send_pending, send_message, push_frame,
  get_message_from, max_encoded_message_size,
}
use whad_lib.Transport.Frame.{frame, decode}
use whad_lib.Transport.Outgoing.{IsValid, outgoing, outgoing-send_pending, send_pending-IsValid}
use whad_lib.Transport.Drain.{CanSend, drain, drain_all}
use whad_lib.Transport.Receive.{get_message_from_refines, get_message_from-IsValid, enqueue_lem}
use whad_lib.Transport.Poll.{poll, IsPayload}
use whad_lib.Transport.Resync.{resync}
use whad_lib.Transport.Push.{push_frame_rollback}
use whad_lib.Transport.Send.{send_message_atomic}
use whad_lib.Transport.Channel.{
  queue_all, poll-queue_all, queued, queued-CanSend, contents-queued, data_received_fits,
}

-- A transport that sends 64 bytes at a time, and reports the end of a transmission later.
abbrev fresh : Transport
fresh = record {
  state = idle;
  rx_buf = zeroed;
  tx_buf = zeroed;
  config = record { max_txbuf_size = 64; send_buffer = some (λ _. false) };
  sent = [];
}

fresh-IsValid : IsValid fresh
fresh-IsValid = record { rx = zeroed-IsValid; tx = zeroed-IsValid }

fresh-CanSend : CanSend fresh (λ _. false)
fresh-CanSend = record { valid = fresh-IsValid; ready = refl; is_set = refl; takes = omega arith }

zeroed_empty : contents zeroed ≡ []
unfolding init zeroed
zeroed_empty = contents-init zeroed

abbrev first : List ℕ
first = 1 ∷ 2 ∷ 3 ∷ []

abbrev second : List ℕ
second = 0xac ∷ 0xbe ∷ []

first-IsPayload : IsPayload 1019 first
first-IsPayload = record { nonempty = omega arith; fits = omega arith; room = omega arith }

second-IsPayload : IsPayload 1019 second
second-IsPayload = record { nonempty = omega arith; fits = omega arith; room = omega arith }

frame-first : frame first ≡ 0xac ∷ 0xbe ∷ 3 ∷ 0 ∷ 1 ∷ 2 ∷ 3 ∷ []
frame-first = refl

poll-queue_all_example :
    let a' = drain 16 (queue_all (first ∷ second ∷ []) fresh) in
    let (s, b') = data_received (flatten a'.sent) fresh in
    let (payloads, b'') = poll 2 max_encoded_message_size b' in
    (s ≡ success) × (payloads ≡ first ∷ second ∷ []) × (contents b''.rx_buf ≡ [])
unfolding flatten
poll-queue_all_example =
    poll-queue_all (first ∷ second ∷ []) 16 fresh fresh fresh-CanSend zeroed-IsValid zeroed_empty
      refl zeroed_empty (first-IsPayload, (second-IsPayload, tt)) (omega arith) (omega arith)

-- A receive ring with a byte of garbage, a frame, and the start of another.
abbrev line_bytes : List ℕ
line_bytes = 0x55 ∷ 0xac ∷ 0xbe ∷ 3 ∷ 0 ∷ 1 ∷ 2 ∷ 3 ∷ 0xac ∷ []

abbrev listening : Transport
listening = (data_received line_bytes fresh).1

listening_lem : (contents listening.rx_buf ≡ line_bytes) × Invariant.IsValid listening.rx_buf
listening_lem =
    let (_, held, v) =
      data_received_fits line_bytes fresh zeroed-IsValid (omega (arith, ap length zeroed_empty)) in
    (held ∙ ap (λ q. q ++ line_bytes) zeroed_empty, v)

resync_example :
    (n : ℕ) × (n ≤ 2)
    × (let (payloads, t') = poll n 1019 listening in
        (payloads ≡ first ∷ []) × (contents t'.rx_buf ≡ 0xac ∷ []))
resync_example =
    resync 1019 listening (0x55 ∷ []) first (0xac ∷ []) listening_lem.1 tt first-IsPayload
      listening_lem.0

-- The two frames of the payloads above, and a byte.
abbrev framed : Transport
framed = (data_received (flatten (frame first ∷ frame second ∷ []) ++ (7 ∷ [])) fresh).1

framed_lem :
    (contents framed.rx_buf ≡ flatten (frame first ∷ frame second ∷ []) ++ (7 ∷ []))
    × Invariant.IsValid framed.rx_buf
unfolding flatten
framed_lem =
    let (_, held, v) =
      data_received_fits (flatten (frame first ∷ frame second ∷ []) ++ (7 ∷ [])) fresh
        zeroed-IsValid (omega (arith, ap length zeroed_empty)) in
    (held ∙ ap (λ q. q ++ (flatten (frame first ∷ frame second ∷ []) ++ (7 ∷ []))) zeroed_empty, v)

get_message_from_refines_example :
    let (reply, r') = get_message_from 1019 listening.rx_buf in
    (reply, contents r') ≡ decode 1019 (contents listening.rx_buf)
get_message_from_refines_example = get_message_from_refines 1019 listening_lem.1

get_message_from-IsValid_example : Invariant.IsValid (get_message_from 1019 listening.rx_buf).1
get_message_from-IsValid_example = get_message_from-IsValid 1019 listening_lem.1

enqueue_lem_example :
    let (s, r') = enqueue line_bytes framed.rx_buf in
    let free = 1023 - length (contents framed.rx_buf) in
    (s ≡ (if leb (length line_bytes) free then success else ringbuf_full))
    × (contents r' ≡ contents framed.rx_buf ++ take free line_bytes)
    × Invariant.IsValid r'
enqueue_lem_example = enqueue_lem line_bytes framed_lem.1

-- A transport that is in the middle of a transmission.
abbrev busy : Transport
busy = record fresh { state = sending }

busy-IsValid : IsValid busy
busy-IsValid = record { rx = zeroed-IsValid; tx = zeroed-IsValid }

send_message_atomic_example :
    let (s, t') = send_message (some first) (pos 3) busy in
    (outgoing t' ≡ outgoing busy ++ (if is_success s then frame first else []))
    × IsValid t'
    × (t'.rx_buf ≡ busy.rx_buf)
send_message_atomic_example = send_message_atomic first busy busy-IsValid

first_has_room : length first + 4 + length (contents busy.tx_buf) ≤ 1023
first_has_room = omega (arith, ap length zeroed_empty)

push_frame_rollback_example :
    let (s, r') = push_frame (replicate 1100 1) 0 zeroed in
    let free = 1023 - length (contents zeroed) in
    (s ≡ ringbuf_full) × (contents r' ≡ drop free (contents zeroed ++ take free (replicate 1100 1)))
push_frame_rollback_example =
    push_frame_rollback (replicate 1100 1) zeroed-IsValid (omega length_rules)

-- A transport with a frame queued.
abbrev loaded : Transport
loaded = queued first fresh

loaded-CanSend : CanSend loaded (λ _. false)
loaded-CanSend = queued-CanSend first fresh-CanSend first_has_room

loaded_contents : contents loaded.tx_buf ≡ frame first
loaded_contents =
    contents-queued first fresh fresh-IsValid first_has_room
    ∙ ap (λ q. q ++ frame first) zeroed_empty

drain_all_example :
    let t' = drain 1 loaded in
    (contents t'.tx_buf ≡ []) × (flatten t'.sent ≡ outgoing loaded) × (t'.state ≡ idle)
drain_all_example = drain_all 1 loaded-CanSend (omega (arith, ap length loaded_contents))

outgoing-send_pending_example : outgoing (send_pending loaded).1 ≡ outgoing loaded
outgoing-send_pending_example = outgoing-send_pending loaded loaded-CanSend.valid

send_pending-IsValid_example : IsValid (send_pending loaded).1
send_pending-IsValid_example = send_pending-IsValid loaded loaded-CanSend.valid

-- A transport that was in use, with its arrays.
abbrev used : Transport
used = (data_received line_bytes busy).1
