-- ===== src/Phy.antt =====
-- src/domains/phy.c: messages for a device that sends and receives at the physical layer.
pub mod View
pub mod Parse
pub mod Frequencies
pub mod Time
pub mod Exact
pub mod Packets
pub mod Tests
use whad_lib.Prelude.{
  ℕ, ◌+◌, ◌*◌, ◌/◌, ◌%◌, ◌^◌, Bool, true, false, List, [], ◌∷◌, replicate, Option, none, some, ℤ,
  pos, negsuc, ltb, if◌then◌else◌, Status, success, error, build_with, build_from, parse_with, ◌&&◌,
  ◌||◌,
}
use whad_lib.Protocol.Buffer.{Buffer, Field, memcpy, copy_buffer}
use whad_lib.Protocol.Phy.{
  LoraParams, PacketReceived, SchedSend, SchedResp, Timestamp, SchedPacket, ReceivedPacket,
  ScheduledPacket, PhyMessage,
}
use whad_lib.Protocol.Message.{Message, phy_msg}
use whad_lib.Phy.View.{PhyView, which_msg}

-- `whad_phy_msgtype_t`, by value: 0 for `WHAD_PHY_UNKNOWN`, and the tags.
unfoldable pub get_message_type : Message → ℕ
get_message_type (phy_msg e) = which_msg e
get_message_type _ = 0

unfoldable pub write : PhyMessage → Option Message → Status × Option Message
write e = build_with (λ m. (success, phy_msg e))

unfoldable pub set_ask_mod : Option Message → Bool → Status × Option Message
set_ask_mod m on_off_keying = write (PhyMessage.mod_ask on_off_keying) m

unfoldable pub set_fsk_mod : Option Message → ℕ → Status × Option Message
set_fsk_mod m deviation = write (PhyMessage.mod_fsk deviation) m

unfoldable pub set_4fsk_mod : Option Message → ℕ → Status × Option Message
set_4fsk_mod m deviation = write (PhyMessage.mod_4fsk deviation) m

unfoldable pub set_gfsk_mod : Option Message → ℕ → Status × Option Message
set_gfsk_mod m deviation = write (PhyMessage.mod_gfsk deviation) m

unfoldable pub set_qpsk_mod : Option Message → Bool → Status × Option Message
set_qpsk_mod m offset = write (PhyMessage.mod_qpsk offset) m

unfoldable pub set_msk_mod : Option Message → ℕ → Status × Option Message
set_msk_mod m deviation = write (PhyMessage.mod_msk deviation) m

unfoldable pub set_lora_mod : Option Message → LoraParams → Status × Option Message
set_lora_mod m params = write (PhyMessage.mod_lora params) m

unfoldable pub write_freq : Option Message → ℕ → Status × Option Message
write_freq m frequency = write (PhyMessage.set_freq frequency) m

unfoldable pub set_datarate : Option Message → ℕ → Status × Option Message
set_datarate m rate = write (PhyMessage.datarate rate) m

unfoldable pub set_endianness : Option Message → ℕ → Status × Option Message
set_endianness m order = write (PhyMessage.endianness order) m

unfoldable pub set_tx_power : Option Message → ℕ → Status × Option Message
set_tx_power m power = write (PhyMessage.tx_power power) m

unfoldable pub set_packet_size : Option Message → ℕ → Status × Option Message
set_packet_size m size = write (PhyMessage.packet_size size) m

unfoldable pub jam_mode : Option Message → ℕ → Status × Option Message
jam_mode m mode = write (PhyMessage.jam mode) m

unfoldable pub sched_packet_sent : Option Message → ℕ → Status × Option Message
sched_packet_sent m packet_id = write (PhyMessage.sched_pkt_sent packet_id) m

unfoldable pub set_bpsk_mod : Option Message → Status × Option Message
set_bpsk_mod m = write PhyMessage.mod_bpsk m

unfoldable pub monitor_mode : Option Message → Status × Option Message
monitor_mode m = write PhyMessage.monitor m

unfoldable pub write_start : Option Message → Status × Option Message
write_start m = write PhyMessage.start m

unfoldable pub write_stop : Option Message → Status × Option Message
write_stop m = write PhyMessage.stop m

unfoldable pub sniff_mode : Option Message → Bool → Status × Option Message
sniff_mode m iq_stream = write (PhyMessage.sniff (record { present = true; value = iq_stream })) m

-- `ts_sec*1000000 + ts_usec`, which is computed in 32 bits and then widened.
unfoldable pub to_timestamp : ℕ → ℕ → ℕ
to_timestamp ts_sec ts_usec = (ts_sec * 1000000 + ts_usec) % 2 ^ 32

-- The timestamp of a jammed notification, with its test for zero.
unfoldable pub jammed_timestamp : ℕ → ℕ → ℕ
jammed_timestamp ts_sec ts_usec =
    if ltb 0 ts_sec || ltb 0 ts_usec then to_timestamp ts_sec ts_usec else 0

unfoldable pub write_jammed : Option Message → ℕ → ℕ → Status × Option Message
write_jammed m ts_sec ts_usec = write (PhyMessage.jammed (jammed_timestamp ts_sec ts_usec)) m

-- A message is built from bytes and a length in an `int`. Above the limit it is an error; a negative
-- length is copied as a huge one: `none`.
unfoldable pub build_bytes :
    ℕ
    → (Buffer → Message → Status × Message)
    → Option Message
    → Option (List ℕ)
    → ℤ
    → Option (Status × Option Message)
build_bytes limit write none p_bytes length = some (error, none)
build_bytes limit write (some m) none length = some (error, some m)
build_bytes limit write (some m) (some bytes) (negsuc n) = none
build_bytes limit write (some m) (some bytes) (pos n) = some (
    if ltb limit n
    then (error, some m)
    else (let (status, m') = write (record { size = n; bytes = bytes }) m in (status, some m')))

-- The optional timestamp of a packet received: none where both numbers are zero.
unfoldable pub packet_timestamp : ℕ → ℕ → Field ℕ
packet_timestamp ts_sec ts_usec =
    if ltb 0 ts_sec || ltb 0 ts_usec
    then record { present = true; value = to_timestamp ts_sec ts_usec }
    else record { present = false; value = 0 }

-- The radio settings of a packet received.
pub record Radio : Type 0 where
  pub frequency : ℕ
  pub rssi : ℤ
  pub deviation : ℕ
  pub datarate : ℕ
  pub endianness : ℕ
  pub modulation : ℕ

-- A packet is cut to 255 bytes.
unfoldable pub clip : Buffer → Buffer
clip b = if ltb 255 b.size then record { size = 255; bytes = b.bytes } else b

unfoldable pub write_packet : Radio → ℕ → ℕ → Buffer → Buffer → PacketReceived → PacketReceived
write_packet radio ts_sec ts_usec payload syncword old = record {
  frequency = radio.frequency;
  rssi = record { present = true; value = radio.rssi };
  timestamp = packet_timestamp ts_sec ts_usec;
  packet = copy_buffer (clip payload) old.packet;
  deviation = radio.deviation;
  datarate = radio.datarate;
  endian = radio.endianness;
  modulation = radio.modulation;
  syncword = copy_buffer syncword old.syncword;
}

-- `view` is how a message reads.
module _ (view : Message → PhyView) where
  unfoldable pub set_sync_word :
      Option Message → Option (List ℕ) → ℤ → Option (Status × Option Message)
  set_sync_word =
      build_bytes 10
        (λ b m. (success, phy_msg (PhyMessage.sync_word (copy_buffer b (view m).sync_word))))

  unfoldable pub write_send :
      Option Message → Option (List ℕ) → ℤ → Option (Status × Option Message)
  write_send =
      build_bytes 255 (λ b m. (success, phy_msg (PhyMessage.send (copy_buffer b (view m).send))))

  -- Not written yet in the source: the tags are set, and the result is an error.
  unfoldable pub send_raw_iq : Option Message → Option (List ℕ) → ℤ → Status × Option Message
  send_raw_iq none p_iq length = (error, none)
  send_raw_iq (some m) none length = (error, some m)
  send_raw_iq (some m) (some iq) (negsuc n) = (error, some (phy_msg PhyMessage.send_raw))
  send_raw_iq (some m) (some iq) (pos n) =
      (error, some (if ltb 255 n then m else phy_msg PhyMessage.send_raw))

  unfoldable pub sched_packet :
      Option Message → Option (List ℕ) → ℤ → ℕ → ℕ → Option (Status × Option Message)
  sched_packet m p_packet length ts_sec ts_usec =
      build_bytes 255
        (λ b m. (
          success,
          phy_msg (
              PhyMessage.sched_send (record {
                packet = copy_buffer b (view m).sched_send.packet;
                timestamp = to_timestamp ts_sec ts_usec;
              })),
        ))
        m p_packet length

  -- The synchronisation word is copied whatever its length: `none` where it does not fit in its 8
  -- bytes, and where the length of the payload is negative.
  unfoldable pub packet_received :
      Option Message
      → Radio
      → ℕ
      → ℕ
      → Option (List ℕ)
      → ℤ
      → List ℕ
      → ℤ
      → Option (Status × Option Message)
  packet_received none radio ts_sec ts_usec payload length syncword syncword_length =
      some (error, none)
  packet_received (some m) radio ts_sec ts_usec none length syncword syncword_length =
      some (error, some m)
  packet_received (some m) radio ts_sec ts_usec (some payload) (pos n) syncword (pos k) =
      if ltb 8 k
      then none
      else some (
        success,
        some (
            phy_msg (
              PhyMessage.packet (
                write_packet radio ts_sec ts_usec (record { size = n; bytes = payload })
                  (record { size = k; bytes = syncword }) (view m).packet))),
      )
  packet_received (some m) radio ts_sec ts_usec (some payload) _ syncword _ = none

  -- The flag is left as it was where the queue is not full.
  unfoldable pub packet_scheduled : Option Message → ℕ → Bool → Status × Option Message
  packet_scheduled m id full =
      build_with
        (λ m. (
          success,
          phy_msg (
              PhyMessage.sched_pkt_rsp (record {
                id = id;
                full =
                    if full
                    then record { present = true; value = true }
                    else record { present = false; value = (view m).sched_pkt_rsp.full.value };
              })),
        ))
        m
