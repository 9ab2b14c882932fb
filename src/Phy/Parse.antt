-- ===== src/Phy/Parse.antt =====
-- src/domains/phy.c: how a PHY message is read.
use whad_lib.Prelude.{
  ℕ, ◌/◌, ◌%◌, ◌^◌, Bool, false, replicate, Option, ltb, if◌then◌else◌, Status, success, parse_with,
}
use whad_lib.Protocol.Buffer.{Buffer, copy_buffer}
use whad_lib.Protocol.Phy.{
  LoraParams, PacketReceived, Timestamp, SchedPacket, ReceivedPacket, ScheduledPacket,
}
use whad_lib.Protocol.Message.{Message}
use whad_lib.Phy.View.{PhyView}

-- The seconds and the microseconds of a 64-bit timestamp, in 32 bits each.
unfoldable pub from_timestamp : ℕ → Timestamp
from_timestamp timestamp = record {
  ts_sec = (timestamp / 1000000) % 2 ^ 32;
  ts_usec = (timestamp % 1000000) % 2 ^ 32;
}

-- A packet of less than 256 bytes is copied, and any other makes a packet of zeros.
unfoldable pub read_packet : Buffer → Buffer → Buffer
read_packet src old =
    if ltb src.size 256
    then copy_buffer src old
    else record { size = src.size; bytes = replicate 256 0 }

-- The timestamp is cleared first, and a packet of 256 bytes or more is not copied.
unfoldable pub read_received : PacketReceived → ReceivedPacket → ReceivedPacket
read_received p old = record {
  freq = p.frequency;
  rssi = p.rssi.value;
  ts =
      if p.timestamp.present
      then from_timestamp p.timestamp.value
      else record { ts_sec = 0; ts_usec = 0 };
  packet =
      if ltb p.packet.size 256
      then copy_buffer p.packet old.packet
      else record { size = p.packet.size; bytes = old.packet.bytes };
}

-- `view` is how a message reads: the parsers look at no tag.
module _ (view : Message → PhyView) where
  unfoldable pub set_ask_mod_parse : Option Message → Option Bool → Status × Option Bool
  set_ask_mod_parse = parse_with (λ m old. (success, (view m).mod_ask))

  unfoldable pub set_fsk_mod_parse : Option Message → Option ℕ → Status × Option ℕ
  set_fsk_mod_parse = parse_with (λ m old. (success, (view m).mod_fsk))

  unfoldable pub set_4fsk_mod_parse : Option Message → Option ℕ → Status × Option ℕ
  set_4fsk_mod_parse = parse_with (λ m old. (success, (view m).mod_4fsk))

  unfoldable pub set_gfsk_mod_parse : Option Message → Option ℕ → Status × Option ℕ
  set_gfsk_mod_parse = parse_with (λ m old. (success, (view m).mod_gfsk))

  unfoldable pub set_qpsk_mod_parse : Option Message → Option Bool → Status × Option Bool
  set_qpsk_mod_parse = parse_with (λ m old. (success, (view m).mod_qpsk))

  unfoldable pub set_msk_mod_parse : Option Message → Option ℕ → Status × Option ℕ
  set_msk_mod_parse = parse_with (λ m old. (success, (view m).mod_msk))

  unfoldable pub set_lora_mod_parse :
      Option Message → Option LoraParams → Status × Option LoraParams
  set_lora_mod_parse = parse_with (λ m old. (success, (view m).mod_lora))

  unfoldable pub set_freq_parse : Option Message → Option ℕ → Status × Option ℕ
  set_freq_parse = parse_with (λ m old. (success, (view m).set_freq))

  unfoldable pub set_datarate_parse : Option Message → Option ℕ → Status × Option ℕ
  set_datarate_parse = parse_with (λ m old. (success, (view m).datarate))

  unfoldable pub set_endianness_parse : Option Message → Option ℕ → Status × Option ℕ
  set_endianness_parse = parse_with (λ m old. (success, (view m).endianness))

  unfoldable pub set_tx_power_parse : Option Message → Option ℕ → Status × Option ℕ
  set_tx_power_parse = parse_with (λ m old. (success, (view m).tx_power))

  unfoldable pub set_packet_size_parse : Option Message → Option ℕ → Status × Option ℕ
  set_packet_size_parse = parse_with (λ m old. (success, (view m).packet_size))

  unfoldable pub jam_mode_parse : Option Message → Option ℕ → Status × Option ℕ
  jam_mode_parse = parse_with (λ m old. (success, (view m).jam))

  unfoldable pub sched_packet_sent_parse : Option Message → Option ℕ → Status × Option ℕ
  sched_packet_sent_parse = parse_with (λ m old. (success, (view m).sched_pkt_sent))

  unfoldable pub set_sync_word_parse : Option Message → Option Buffer → Status × Option Buffer
  set_sync_word_parse = parse_with (λ m old. (success, copy_buffer (view m).sync_word old))

  unfoldable pub sniff_mode_parse : Option Message → Option Bool → Status × Option Bool
  sniff_mode_parse =
      parse_with
        (λ m old. (success, if (view m).sniff.present then (view m).sniff.value else false))

  unfoldable pub send_parse : Option Message → Option Buffer → Status × Option Buffer
  send_parse = parse_with (λ m old. (success, read_packet (view m).send old))

  unfoldable pub sched_packet_parse :
      Option Message → Option SchedPacket → Status × Option SchedPacket
  sched_packet_parse = parse_with (λ m old. (
    success,
    record {
      packet = read_packet (view m).sched_send.packet old.packet;
      ts = from_timestamp (view m).sched_send.timestamp;
    },
  ))

  unfoldable pub jammed_parse : Option Message → Option Timestamp → Status × Option Timestamp
  jammed_parse = parse_with (λ m old. (success, from_timestamp (view m).jammed))

  unfoldable pub packet_received_parse :
      Option Message → Option ReceivedPacket → Status × Option ReceivedPacket
  packet_received_parse = parse_with (λ m old. (success, read_received (view m).packet old))

  -- The identifier is cut to 8 bits.
  unfoldable pub packet_scheduled_parse :
      Option Message → Option ScheduledPacket → Status × Option ScheduledPacket
  packet_scheduled_parse = parse_with (λ m old. (
    success,
    record {
      id = (view m).sched_pkt_rsp.id % 2 ^ 8;
      full =
          if (view m).sched_pkt_rsp.full.present then (view m).sched_pkt_rsp.full.value else false;
    },
  ))
