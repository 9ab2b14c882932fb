-- ===== src/Radio.antt =====
-- What src/domains/esb.c and src/domains/unifying.c do alike with their structs: addresses of at most
-- five bytes, packets to send and packets received. A C `int` that is given as a size is not negative.
pub mod Laws
use whad_lib.Prelude.{
  ℕ, ◌%◌, ◌^◌, Bool, true, false, List, replicate, Option, ltb, if◌then◌else◌, Status, success,
  error,
}
use whad_lib.Protocol.Buffer.{Buffer, Field, memcpy, copy_buffer, copy_field}
use whad_lib.Protocol.Radio.{Sniff, Send, Received}

-- An address is copied unless it is longer than five bytes.
unfoldable pub write_address : Buffer → Buffer → Status × Buffer
write_address src old = if ltb 5 src.size then (error, old) else (success, copy_buffer src old)

-- The size is written before it is checked.
unfoldable pub read_address : Buffer → Buffer → Status × Buffer
read_address src old =
    if ltb 5 src.size
    then (error, record { size = src.size; bytes = old.bytes })
    else (success, copy_buffer src old)

-- The parameters of a sniffing command, into the message that holds `old`.
unfoldable pub write_sniff : ℕ → Bool → Buffer → Sniff → Sniff
write_sniff channel show_acks address old = record {
  channel = channel;
  show_acks = show_acks;
  address = copy_buffer address old.address;
}

unfoldable pub read_sniff : Sniff → Sniff → Status × Sniff
read_sniff src old =
    let (status, address) = read_address src.address old.address in
    (status, record { channel = src.channel; show_acks = src.show_acks; address = address })

-- A packet to send, from the arguments into the message that holds `old`.
unfoldable pub write_send : ℕ → ℕ → Buffer → Send → Send
write_send channel retr_count packet old = record {
  channel = channel;
  retr_count = retr_count;
  packet = copy_buffer packet old.packet;
}

-- The length of a packet has 8 bits in the parameters, and the size 16 bits in the message; the bytes
-- are copied by the latter.
unfoldable pub read_send : Send → Send → Status × Send
read_send src old =
    let length = src.packet.size % 2 ^ 8 in
    let bytes = memcpy src.packet.size src.packet.bytes old.packet.bytes in
    if ltb 255 length
    then (
      error,
      record {
        channel = src.channel;
        retr_count = src.retr_count;
        packet = record { size = length; bytes = old.packet.bytes };
      },
    )
    else (
      success,
      record {
        channel = src.channel;
        retr_count = src.retr_count;
        packet = record { size = length; bytes = bytes };
      },
    )

-- The address of a received packet, which is cleared where there is none.
unfoldable pub write_received_address : Bool → Buffer → Buffer → Status × Buffer
write_received_address true src old = write_address src old
write_received_address false src old = (success, record { size = 0; bytes = replicate 5 0 })

-- A packet received, from the parameters into the message. On an error the rest is written.
unfoldable pub write_received : Received → Received → Status × Received
write_received src old =
    let (status, address) = write_received_address src.has_address src.address old.address in
    (
      status,
      record {
        channel = src.channel;
        rssi = copy_field src.rssi old.rssi;
        timestamp = copy_field src.timestamp old.timestamp;
        crc_validity = copy_field src.crc_validity old.crc_validity;
        has_address = src.has_address;
        address = address;
        packet = copy_buffer src.packet old.packet;
      },
    )

-- The conversion of the 64-bit timestamp to the 32 bits of the parameters.
unfoldable pub to_u32 : Field ℕ → Field ℕ
to_u32 f = record { present = f.present; value = f.value % 2 ^ 32 }

unfoldable pub read_received_address : Bool → Buffer → Buffer → Status × Buffer
read_received_address true src old = write_address src old
read_received_address false src old = (success, old)

-- The packet with its length in 8 bits, by which the bytes are copied.
unfoldable pub read_packet : Buffer → Buffer → Buffer
read_packet src old = copy_buffer (record { size = src.size % 2 ^ 8; bytes = src.bytes }) old

-- A packet received, from the message into the parameters.
unfoldable pub read_received : Received → Received → Status × Received
read_received src old =
    let (status, address) = read_received_address src.has_address src.address old.address in
    (
      status,
      record {
        channel = src.channel;
        rssi = copy_field src.rssi old.rssi;
        timestamp = copy_field (to_u32 src.timestamp) old.timestamp;
        crc_validity = copy_field src.crc_validity old.crc_validity;
        has_address = src.has_address;
        address = address;
        packet = read_packet src.packet old.packet;
      },
    )
