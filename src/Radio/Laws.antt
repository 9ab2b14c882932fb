-- ===== src/Radio/Laws.antt =====
-- What is written is what is read, up to the bytes that are not in use.
use whad_lib.Prelude.{
  ℕ, ◌≡◌, ◌≤◌, ◌<◌, ◌%◌, ◌^◌, refl, ap, ◌∙◌, Bool, true, false, List, Option, none, some, ltb,
  if◌then◌else◌, success, error, arith, ℤ,
}
use whad_lib.Protocol.Buffer.{
  Buffer, Field, copy_buffer, copy_field, contents, held, IsFull, contents-copy_buffer,
  IsFull-copy_buffer, held-copy_field,
}
use whad_lib.Protocol.Radio.{Sniff, Send, Received}
use whad_lib.Radio.{
  write_address, read_address, write_sniff, read_sniff, write_send, read_send,
  write_received_address, write_received, to_u32, read_received_address, read_packet, read_received,
}

-- What a packet received says, without what is left over in its arrays and optional fields.
pub record Seen : Type 0 where
  pub channel : ℕ
  pub rssi : Option ℤ
  pub timestamp : Option ℕ
  pub crc_validity : Option Bool
  pub address : Option (List ℕ)
  pub packet : List ℕ

unfoldable pub seen_address : Bool → Buffer → Option (List ℕ)
seen_address true b = some (contents b)
seen_address false b = none

unfoldable pub seen : Received → Seen
seen r = record {
  channel = r.channel;
  rssi = held r.rssi;
  timestamp = held r.timestamp;
  crc_validity = held r.crc_validity;
  address = seen_address r.has_address r.address;
  packet = contents r.packet;
}

-- The parameters of a packet received that the C types allow: the arrays are as long as their sizes
-- say, the length has 8 bits and the timestamp 32.
unfoldable pub IsPacket : Received → Type 0
IsPacket r =
    IsFull r.packet × (r.packet.size < 256) × (r.timestamp.value < 2 ^ 32) × IsFull r.address

pub copied_twice :
    (src mid old : Buffer)
    → IsFull src
    → contents (copy_buffer (copy_buffer src mid) old) ≡ contents src
copied_twice src mid old full =
    contents-copy_buffer (copy_buffer src mid) old (IsFull-copy_buffer src mid full)
    ∙ contents-copy_buffer src mid full

module _ {ℓ} {A : Type ℓ} where
  pub if_within : (limit n : ℕ) (a b : A) → n ≤ limit → (if ltb limit n then a else b) ≡ b
  if_within limit n a b within = ground arith

  pub if_beyond : (limit n : ℕ) (a b : A) → limit < n → (if ltb limit n then a else b) ≡ a
  if_beyond limit n a b beyond = ground arith

pub write_address_short :
    (b old : Buffer) → b.size ≤ 5 → write_address b old ≡ (success, copy_buffer b old)
unfolding write_address
write_address_short b old fits = ground arith

pub write_address_long : (b old : Buffer) → 5 < b.size → write_address b old ≡ (error, old)
unfolding write_address
write_address_long b old long = ground arith

read_address_short :
    (b old : Buffer) → b.size ≤ 5 → read_address b old ≡ (success, copy_buffer b old)
unfolding read_address
read_address_short b old fits = ground arith

pub copy_buffer_size : (src old : Buffer) → (copy_buffer src old).size ≡ src.size
unfolding copy_buffer
copy_buffer_size src old = refl

read_address-copy :
    (src mid old : Buffer)
    → src.size ≤ 5
    → read_address (copy_buffer src mid) old ≡ (success, copy_buffer (copy_buffer src mid) old)
read_address-copy src mid old fits =
    read_address_short (copy_buffer src mid) old (omega (arith, copy_buffer_size src mid))

-- An address that fits is read as it was written.
pub address-read :
    (src mid old : Buffer)
    → IsFull src
    → src.size ≤ 5
    → ((write_address src mid).0 ≡ success)
      × ((read_address (write_address src mid).1 old).0 ≡ success)
      × (contents (read_address (write_address src mid).1 old).1 ≡ contents src)
address-read src mid old full fits = (
  ap (λ r. r.0) written,
  ap (λ r. (read_address r.1 old).0) written ∙ ap (λ r. r.0) copied,
  ap (λ r. contents (read_address r.1 old).1) written
      ∙ ap (λ r. contents r.1) copied
      ∙ copied_twice src mid old full,
)
  where
    written : write_address src mid ≡ (success, copy_buffer src mid)
    written = write_address_short src mid fits

    copied :
        read_address (copy_buffer src mid) old ≡ (success, copy_buffer (copy_buffer src mid) old)
    copied = read_address-copy src mid old fits

-- What a sniffing command says.
unfoldable pub seen_sniff : Sniff → ℕ × Bool × List ℕ
seen_sniff s = (s.channel, s.show_acks, contents s.address)

pub sniff-read :
    (channel : ℕ) (show_acks : Bool) (address : Buffer) (mid old : Sniff)
    → IsFull address
    → address.size ≤ 5
    → let out = read_sniff (write_sniff channel show_acks address mid) old in
      (out.0 ≡ success) × (seen_sniff out.1 ≡ (channel, show_acks, contents address))
unfolding write_sniff read_sniff seen_sniff
sniff-read channel show_acks address mid old full fits = (
  ap (λ r. r.0) copied,
  ap (λ r. (channel, show_acks, contents r.1)) copied
      ∙ ap (λ c. (channel, show_acks, c)) (copied_twice address mid.address old.address full),
)
  where
    copied :
        read_address (copy_buffer address mid.address) old.address
        ≡ (success, copy_buffer (copy_buffer address mid.address) old.address)
    copied = read_address-copy address mid.address old.address fits

-- A packet of 8-bit length is read as it was written.
read_packet-write :
    (src mid old : Buffer)
    → IsFull src
    → src.size < 256
    → contents (read_packet (copy_buffer src mid) old) ≡ contents src
unfolding read_packet copy_buffer
read_packet-write src mid old full small =
    ap (λ n. contents (copy_buffer (record { size = n; bytes = (copy_buffer src mid).bytes }) old))
      (omega arith)
    ∙ copied_twice src mid old full

pub low_bits : (n : ℕ) → n < 2 ^ 32 → n % 2 ^ 32 ≡ n
low_bits n small = omega arith

pub timestamp-read :
    (src mid old : Field ℕ)
    → src.value < 2 ^ 32
    → held (copy_field (to_u32 (copy_field src mid)) old) ≡ held src
unfolding to_u32 copy_field held
timestamp-read src mid old small = ground arith

pub field-read {ℓ} :
    {A : Type ℓ} (src mid old : Field A) → held (copy_field (copy_field src mid) old) ≡ held src
field-read src mid old = held-copy_field (copy_field src mid) old ∙ held-copy_field src mid

-- The address of a packet received: what is read after what is written.
pub through_address :
    (has : Bool) (src mid old : Buffer)
    → IsFull src
    → ((has ≡ true) → src.size ≤ 5)
    → ((write_received_address has src mid).0 ≡ success)
      × ((read_received_address has (write_received_address has src mid).1 old).0 ≡ success)
      × (seen_address has (read_received_address has (write_received_address has src mid).1 old).1
          ≡ seen_address has src)
unfolding write_received_address read_received_address seen_address
through_address false src mid old full fits = (refl, refl, refl)
through_address true src mid old full fits = (
  ap (λ r. r.0) written,
  ap (λ r. r.0) read,
  ap (λ r. some (contents r.1)) read ∙ ap some (copied_twice src mid old full),
)
  where
    written : write_address src mid ≡ (success, copy_buffer src mid)
    written = write_address_short src mid (fits refl)

    short : (copy_buffer src mid).size ≤ 5
    short = omega (arith, copy_buffer_size src mid, fits refl)

    read :
        write_address (write_address src mid).1 old
        ≡ (success, copy_buffer (copy_buffer src mid) old)
    read =
        ap (λ r. write_address r.1 old) written
        ∙ write_address_short (copy_buffer src mid) old short

-- A packet received is read as it was written, whatever the message and the parameters held before.
pub received-read :
    (src mid old : Received)
    → IsPacket src
    → ((src.has_address ≡ true) → src.address.size ≤ 5)
    → ((write_received src mid).0 ≡ success)
      × ((read_received (write_received src mid).1 old).0 ≡ success)
      × (seen (read_received (write_received src mid).1 old).1 ≡ seen src)
unfolding IsPacket write_received read_received seen
received-read src mid old (full, small, recent, whole) fits =
    let (written, read, same) =
      through_address src.has_address src.address mid.address old.address whole fits in
    (
      written,
      read,
      simp (
        field-read src.rssi mid.rssi old.rssi,
        timestamp-read src.timestamp mid.timestamp old.timestamp recent,
        field-read src.crc_validity mid.crc_validity old.crc_validity,
        same,
        read_packet-write src.packet mid.packet old.packet full small,
      ),
    )

-- The check of the parser never fails.
pub read_send-success : (src old : Send) → (read_send src old).0 ≡ success
unfolding read_send
read_send-success src old = ground arith

read_send_small :
    (src old : Send)
    → src.packet.size < 256
    → (read_send src old).1 ≡ record {
      channel = src.channel;
      retr_count = src.retr_count;
      packet = copy_buffer src.packet old.packet;
    }
unfolding read_send copy_buffer
read_send_small src old small = ground arith

-- What a packet to send says.
unfoldable pub seen_send : Send → ℕ × ℕ × List ℕ
seen_send s = (s.channel, s.retr_count, contents s.packet)

-- A packet to send is read as it was written.
pub send-read :
    (channel retr_count : ℕ) (packet : Buffer) (mid old : Send)
    → IsFull packet
    → packet.size < 256
    → let out = read_send (write_send channel retr_count packet mid) old in
      (out.0 ≡ success) × (seen_send out.1 ≡ (channel, retr_count, contents packet))
unfolding write_send seen_send
send-read channel retr_count packet mid old full small = (
  read_send-success (write_send channel retr_count packet mid) old,
  ap seen_send (
        read_send_small (write_send channel retr_count packet mid) old
          (omega (arith, copy_buffer_size packet mid.packet)))
      ∙ ap (λ c. (channel, retr_count, c)) (copied_twice packet mid.packet old.packet full),
)
