-- ===== src/Dot15d4.antt =====
-- src/domains/dot15d4.c: messages for an IEEE 802.15.4 device.
pub mod View
pub mod Exact
pub mod Received
pub mod Tests
use whad_lib.Prelude.{
  ℕ, ◌%◌, ◌^◌, true, false, List, Option, none, some, ℤ, pos, negsuc, ltb, leb, if◌then◌else◌,
  Status, success, error, build_with, build_from, parse_with,
}
use whad_lib.Protocol.Buffer.{Buffer, Field, memcpy, copy_buffer, copy_field}
use whad_lib.Protocol.Dot15d4.{
  NodeAddress, SendCmd, SendRawCmd, EdSample, PduReceived, RawPduReceived, Dot15d4Message,
}
use whad_lib.Protocol.Message.{Message, dot15d4_msg}
use whad_lib.Radio.{to_u32}
use whad_lib.Dot15d4.View.{Dot15d4View, which_msg}

-- `whad_dot15d4_msgtype_t`, by value: 0 for `WHAD_DOT15D4_UNKNOWN`, and the tags.
unfoldable pub get_message_type : Message → ℕ
get_message_type (dot15d4_msg e) = which_msg e
get_message_type _ = 0

-- The address pointer is an error where it is not NULL, and is followed where it is: `none`.
unfoldable pub set_node_address :
    Option Message → Option NodeAddress → Option (Status × Option Message)
set_node_address none addr = some (error, none)
set_node_address (some m) (some addr) = some (error, some m)
set_node_address (some m) none = none

unfoldable pub write : Dot15d4Message → Option Message → Status × Option Message
write e = build_with (λ m. (success, dot15d4_msg e))

unfoldable pub write_sniff : Option Message → ℕ → Status × Option Message
write_sniff m channel = write (Dot15d4Message.sniff channel) m

unfoldable pub write_jam : Option Message → ℕ → Status × Option Message
write_jam m channel = write (Dot15d4Message.jam channel) m

unfoldable pub energy_detect : Option Message → ℕ → Status × Option Message
energy_detect m channel = write (Dot15d4Message.ed channel) m

unfoldable pub end_device_mode : Option Message → ℕ → Status × Option Message
end_device_mode m channel = write (Dot15d4Message.end_device channel) m

unfoldable pub router_mode : Option Message → ℕ → Status × Option Message
router_mode m channel = write (Dot15d4Message.router channel) m

unfoldable pub coord_mode : Option Message → ℕ → Status × Option Message
coord_mode m channel = write (Dot15d4Message.coordinator channel) m

unfoldable pub mitm_mode : Option Message → ℕ → Status × Option Message
mitm_mode m role = write (Dot15d4Message.mitm role) m

unfoldable pub write_start : Option Message → Status × Option Message
write_start m = write Dot15d4Message.start m

unfoldable pub write_stop : Option Message → Status × Option Message
write_stop m = write Dot15d4Message.stop m

unfoldable pub write_jammed : Option Message → ℕ → Status × Option Message
write_jammed m timestamp = write (Dot15d4Message.jammed timestamp) m

unfoldable pub energy_detect_sample : Option Message → ℕ → ℕ → Status × Option Message
energy_detect_sample m timestamp sample =
    write (Dot15d4Message.ed_sample (record { sample = sample; timestamp = timestamp })) m

-- A packet of `length` bytes, where the message holds `old`: the channel is written before the length
-- is checked.
unfoldable pub send_packet : ℕ → ℤ → List ℕ → SendCmd → Status × SendCmd
send_packet channel (pos length) packet old =
    if leb length 255
    then (
      success,
      record {
        channel = channel;
        packet = record { size = length; bytes = memcpy length packet old.packet.bytes };
      },
    )
    else (error, record { channel = channel; packet = old.packet })
send_packet channel (negsuc n) packet old =
    (error, record { channel = channel; packet = old.packet })

-- The optional LQI, which is cleared where there is none.
unfoldable pub write_lqi : Field ℕ → Field ℕ
write_lqi f =
    if f.present
    then record { present = true; value = f.value }
    else record { present = false; value = 0 }

unfoldable pub write_raw_pdu : RawPduReceived → RawPduReceived → RawPduReceived
write_raw_pdu p old = record {
  channel = p.channel;
  rssi = copy_field p.rssi old.rssi;
  timestamp = copy_field p.timestamp old.timestamp;
  fcs_validity = copy_field p.fcs_validity old.fcs_validity;
  packet = copy_buffer p.packet old.packet;
  fcs = p.fcs;
  lqi = write_lqi p.lqi;
}

unfoldable pub write_pdu : RawPduReceived → PduReceived → PduReceived
write_pdu p old = record {
  channel = p.channel;
  rssi = copy_field p.rssi old.rssi;
  timestamp = copy_field p.timestamp old.timestamp;
  fcs_validity = copy_field p.fcs_validity old.fcs_validity;
  packet = copy_buffer p.packet old.packet;
  lqi = write_lqi p.lqi;
}

-- A packet received, from the message into the parameters. `fcs` is what the parameters then hold.
unfoldable pub read_pdu : ℕ → RawPduReceived → RawPduReceived → RawPduReceived
read_pdu fcs p old = record {
  channel = p.channel;
  rssi = copy_field p.rssi old.rssi;
  timestamp = copy_field (to_u32 p.timestamp) old.timestamp;
  fcs_validity = copy_field p.fcs_validity old.fcs_validity;
  packet = copy_buffer p.packet old.packet;
  fcs = fcs;
  lqi = copy_field p.lqi old.lqi;
}

-- A packet to send into the parameters, with its checksum; where the size is too large, only the
-- channel is read.
unfoldable pub read_send : ℕ → ℕ → Buffer → SendRawCmd → Status × SendRawCmd
read_send channel fcs packet old =
    if ltb 255 packet.size
    then (error, record old { channel = channel })
    else (success, record { channel = channel; packet = copy_buffer packet old.packet; fcs = fcs })

-- `view` is how a message reads: the parsers look at no tag.
module _ (view : Message → Dot15d4View) where
  unfoldable pub write_send : Option Message → ℕ → Option (List ℕ) → ℤ → Status × Option Message
  write_send m channel p_packet length =
      build_from
        (λ packet m.
          let (status, cmd) = send_packet channel length packet (view m).send in
          (status, dot15d4_msg (Dot15d4Message.send cmd)))
        m p_packet

  -- The message is that of `whad_dot15d4_send`, and the checksum is not in it.
  unfoldable pub write_send_raw :
      Option Message → ℕ → Option (List ℕ) → ℤ → ℕ → Status × Option Message
  write_send_raw m channel p_packet length fcs =
      build_from
        (λ packet m.
          let (status, cmd) = send_packet channel length packet (view m).send in
          (status, dot15d4_msg (Dot15d4Message.send cmd)))
        m p_packet

  unfoldable pub raw_pdu_received : Option Message → Option RawPduReceived → Status × Option Message
  raw_pdu_received =
      build_from
        (λ p m. (success, dot15d4_msg (Dot15d4Message.raw_pdu (write_raw_pdu p (view m).raw_pdu))))

  unfoldable pub pdu_received : Option Message → Option RawPduReceived → Status × Option Message
  pdu_received =
      build_from (λ p m. (success, dot15d4_msg (Dot15d4Message.pdu (write_pdu p (view m).pdu))))

  unfoldable pub set_node_address_parse :
      Option Message → Option NodeAddress → Status × Option NodeAddress
  set_node_address_parse = parse_with (λ m old. (success, (view m).set_node_addr))

  unfoldable pub sniff_parse : Option Message → Option ℕ → Status × Option ℕ
  sniff_parse = parse_with (λ m old. (success, (view m).sniff))

  unfoldable pub jam_parse : Option Message → Option ℕ → Status × Option ℕ
  jam_parse = parse_with (λ m old. (success, (view m).jam))

  unfoldable pub energy_detect_parse : Option Message → Option ℕ → Status × Option ℕ
  energy_detect_parse = parse_with (λ m old. (success, (view m).ed))

  unfoldable pub end_device_mode_parse : Option Message → Option ℕ → Status × Option ℕ
  end_device_mode_parse = parse_with (λ m old. (success, (view m).end_device))

  unfoldable pub router_mode_parse : Option Message → Option ℕ → Status × Option ℕ
  router_mode_parse = parse_with (λ m old. (success, (view m).router))

  unfoldable pub coord_mode_parse : Option Message → Option ℕ → Status × Option ℕ
  coord_mode_parse = parse_with (λ m old. (success, (view m).coordinator))

  unfoldable pub mitm_mode_parse : Option Message → Option ℕ → Status × Option ℕ
  mitm_mode_parse = parse_with (λ m old. (success, (view m).mitm))

  -- The 64-bit timestamps are cut to 32 bits.
  unfoldable pub jammed_parse : Option Message → Option ℕ → Status × Option ℕ
  jammed_parse = parse_with (λ m old. (success, (view m).jammed % 2 ^ 32))

  unfoldable pub energy_detect_sample_parse :
      Option Message → Option EdSample → Status × Option EdSample
  energy_detect_sample_parse = parse_with (λ m old. (
    success,
    record {
      sample = (view m).ed_sample.sample;
      timestamp = (view m).ed_sample.timestamp % 2 ^ 32;
    },
  ))

  unfoldable pub send_parse : Option Message → Option SendRawCmd → Status × Option SendRawCmd
  send_parse = parse_with (λ m old. read_send (view m).send.channel 0 (view m).send.packet old)

  unfoldable pub send_raw_parse : Option Message → Option SendRawCmd → Status × Option SendRawCmd
  send_raw_parse = parse_with (λ m old.
      read_send (view m).send_raw.channel (view m).send_raw.fcs (view m).send_raw.packet old)

  unfoldable pub raw_pdu_received_parse :
      Option Message → Option RawPduReceived → Status × Option RawPduReceived
  raw_pdu_received_parse =
      parse_with (λ m old. (success, read_pdu (view m).raw_pdu.fcs (view m).raw_pdu old))

  -- The member that is read is the one of raw packets.
  unfoldable pub pdu_received_parse :
      Option Message → Option RawPduReceived → Status × Option RawPduReceived
  pdu_received_parse = parse_with (λ m old. (success, read_pdu old.fcs (view m).raw_pdu old))
