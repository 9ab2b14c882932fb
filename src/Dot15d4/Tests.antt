-- ===== src/Dot15d4/Tests.antt =====
-- A message whose members read as zero where they share no field with the one written, and the
-- theorems on it.
use whad_lib.Prelude.{
  ℕ, ◌≡◌, ◌≤◌, ◌<◌, refl, true, false, List, [], ◌∷◌, length, take, some, success, error, arith,
  pos, negsuc, Gives,
}
use whad_lib.Protocol.Buffer.{Buffer, Field, IsFull}
use whad_lib.Protocol.Dot15d4.{
  NodeAddress, SendCmd, SendRawCmd, EdSample, PduReceived, RawPduReceived, Dot15d4Message,
}
use whad_lib.Protocol.Message.{Message, unset, dot15d4_msg}
use whad_lib.Dot15d4.View.{Dot15d4View, Holds, Shares, IsView}
use whad_lib.Dot15d4.{
  set_node_address, write_sniff, write_jam, energy_detect, end_device_mode, router_mode, coord_mode,
  mitm_mode, write_jammed, energy_detect_sample, send_packet, write_send, write_send_raw,
  raw_pdu_received, pdu_received, sniff_parse, jam_parse, energy_detect_parse,
  end_device_mode_parse, router_mode_parse, coord_mode_parse, mitm_mode_parse, jammed_parse,
  energy_detect_sample_parse, send_parse, send_raw_parse, raw_pdu_received_parse,
  pdu_received_parse,
}
use whad_lib.Dot15d4.Exact.{
  set_node_address_refused, settings-read, length_exact, checksum_lost, seen_send, IsRefused,
}
use whad_lib.Dot15d4.Received.{IsPacket, seen, seen_raw, raw_packet_exact, packet_exact}

abbrev no_bytes : Buffer
no_bytes = record { size = 0; bytes = [] }

abbrev no_number : Field ℕ
no_number = record { present = false; value = 0 }

abbrev no_send : SendCmd
no_send = record { channel = 0; packet = no_bytes }

abbrev no_raw_send : SendRawCmd
no_raw_send = record { channel = 0; packet = no_bytes; fcs = 0 }

abbrev no_node : NodeAddress
no_node = record { address_type = 0; address = 0 }

abbrev no_sample : EdSample
no_sample = record { sample = 0; timestamp = 0 }

abbrev no_packet : PduReceived
no_packet = record {
  channel = 0;
  rssi = record { present = false; value = pos 0 };
  timestamp = no_number;
  fcs_validity = record { present = false; value = false };
  packet = no_bytes;
  lqi = no_number;
}

-- A packet as a raw packet reads, with a checksum of zero and no LQI.
abbrev as_raw : PduReceived → RawPduReceived
as_raw p = record {
  channel = p.channel;
  rssi = p.rssi;
  timestamp = p.timestamp;
  fcs_validity = p.fcs_validity;
  packet = p.packet;
  fcs = 0;
  lqi = no_number;
}

abbrev as_packet : RawPduReceived → PduReceived
as_packet p = record {
  channel = p.channel;
  rssi = p.rssi;
  timestamp = p.timestamp;
  fcs_validity = p.fcs_validity;
  packet = p.packet;
  lqi = no_number;
}

abbrev no_raw : RawPduReceived
no_raw = as_raw no_packet

abbrev blank : Dot15d4View
blank = record {
  which_msg = 0;
  set_node_addr = no_node;
  sniff = 0;
  jam = 0;
  ed = 0;
  send = no_send;
  send_raw = no_raw_send;
  end_device = 0;
  router = 0;
  coordinator = 0;
  mitm = 0;
  jammed = 0;
  ed_sample = no_sample;
  raw_pdu = no_raw;
  pdu = no_packet;
}

-- How such a message reads.
abbrev pub zero_view : Message → Dot15d4View
zero_view (dot15d4_msg (Dot15d4Message.set_node_addr a)) = record blank {
  which_msg = 1;
  set_node_addr = a;
}
zero_view (dot15d4_msg (Dot15d4Message.sniff a)) = record blank { which_msg = 2; sniff = a }
zero_view (dot15d4_msg (Dot15d4Message.jam a)) = record blank { which_msg = 3; jam = a }
zero_view (dot15d4_msg (Dot15d4Message.ed a)) = record blank { which_msg = 4; ed = a }
zero_view (dot15d4_msg (Dot15d4Message.send a)) = record blank {
  which_msg = 5;
  send = a;
  send_raw = record { channel = a.channel; packet = a.packet; fcs = 0 };
}
zero_view (dot15d4_msg (Dot15d4Message.send_raw a)) = record blank {
  which_msg = 6;
  send_raw = a;
  send = record { channel = a.channel; packet = a.packet };
}
zero_view (dot15d4_msg (Dot15d4Message.end_device a)) = record blank {
  which_msg = 7;
  end_device = a;
}
zero_view (dot15d4_msg (Dot15d4Message.router a)) = record blank { which_msg = 8; router = a }
zero_view (dot15d4_msg (Dot15d4Message.coordinator a)) = record blank {
  which_msg = 9;
  coordinator = a;
}
zero_view (dot15d4_msg Dot15d4Message.start) = record blank { which_msg = 10 }
zero_view (dot15d4_msg Dot15d4Message.stop) = record blank { which_msg = 11 }
zero_view (dot15d4_msg (Dot15d4Message.mitm a)) = record blank { which_msg = 12; mitm = a }
zero_view (dot15d4_msg (Dot15d4Message.jammed a)) = record blank { which_msg = 13; jammed = a }
zero_view (dot15d4_msg (Dot15d4Message.ed_sample a)) = record blank {
  which_msg = 14;
  ed_sample = a;
}
zero_view (dot15d4_msg (Dot15d4Message.raw_pdu a)) = record blank {
  which_msg = 15;
  raw_pdu = a;
  pdu = as_packet a;
}
zero_view (dot15d4_msg (Dot15d4Message.pdu a)) = record blank {
  which_msg = 16;
  pdu = a;
  raw_pdu = as_raw a;
}
zero_view _ = blank

pub zero_view-IsView : IsView zero_view
unfolding IsView Holds Shares
zero_view-IsView Dot15d4Message.dot15d4_unset = (refl, (refl, refl, refl, refl, refl, refl, refl))
zero_view-IsView (Dot15d4Message.set_node_addr a) =
    ((refl, refl), (refl, refl, refl, refl, refl, refl, refl))
zero_view-IsView (Dot15d4Message.sniff a) =
    ((refl, refl), (refl, refl, refl, refl, refl, refl, refl))
zero_view-IsView (Dot15d4Message.jam a) = ((refl, refl), (refl, refl, refl, refl, refl, refl, refl))
zero_view-IsView (Dot15d4Message.ed a) = ((refl, refl), (refl, refl, refl, refl, refl, refl, refl))
zero_view-IsView (Dot15d4Message.send a) =
    ((refl, refl), (refl, refl, refl, refl, refl, refl, refl))
zero_view-IsView (Dot15d4Message.send_raw a) =
    ((refl, refl), (refl, refl, refl, refl, refl, refl, refl))
zero_view-IsView (Dot15d4Message.end_device a) =
    ((refl, refl), (refl, refl, refl, refl, refl, refl, refl))
zero_view-IsView (Dot15d4Message.router a) =
    ((refl, refl), (refl, refl, refl, refl, refl, refl, refl))
zero_view-IsView (Dot15d4Message.coordinator a) =
    ((refl, refl), (refl, refl, refl, refl, refl, refl, refl))
zero_view-IsView Dot15d4Message.start = (refl, (refl, refl, refl, refl, refl, refl, refl))
zero_view-IsView Dot15d4Message.stop = (refl, (refl, refl, refl, refl, refl, refl, refl))
zero_view-IsView (Dot15d4Message.mitm a) =
    ((refl, refl), (refl, refl, refl, refl, refl, refl, refl))
zero_view-IsView (Dot15d4Message.jammed a) =
    ((refl, refl), (refl, refl, refl, refl, refl, refl, refl))
zero_view-IsView (Dot15d4Message.ed_sample a) =
    ((refl, refl), (refl, refl, refl, refl, refl, refl, refl))
zero_view-IsView (Dot15d4Message.raw_pdu a) =
    ((refl, refl), (refl, refl, refl, refl, refl, refl, refl))
zero_view-IsView (Dot15d4Message.pdu a) = ((refl, refl), (refl, refl, refl, refl, refl, refl, refl))

abbrev beacon_request : List ℕ
beacon_request = 3 ∷ 8 ∷ 202 ∷ 255 ∷ 255 ∷ 255 ∷ 255 ∷ 7 ∷ []

abbrev beacon : RawPduReceived
beacon = record {
  channel = 11;
  rssi = record { present = true; value = negsuc 59 };
  timestamp = record { present = false; value = 0 };
  fcs_validity = record { present = true; value = true };
  packet = record { size = 8; bytes = beacon_request };
  fcs = 51966;
  lqi = record { present = true; value = 200 };
}

beacon-IsPacket : IsPacket beacon
unfolding IsPacket IsFull
beacon-IsPacket = (omega arith, omega arith)

set_node_address_refused_example :
    set_node_address (some unset) (some (record { address_type = 0; address = 4660 }))
    ≡ some (error, some unset)
set_node_address_refused_example =
    set_node_address_refused (some unset) (record { address_type = 0; address = 4660 })

settings-read_example :
    (sniff_parse zero_view (write_sniff (some unset) 11).1 (some 0) ≡ (success, some 11))
    × (jam_parse zero_view (write_jam (some unset) 11).1 (some 0) ≡ (success, some 11))
    × (energy_detect_parse zero_view (energy_detect (some unset) 11).1 (some 0)
        ≡ (success, some 11))
    × (end_device_mode_parse zero_view (end_device_mode (some unset) 11).1 (some 0)
        ≡ (success, some 11))
    × (router_mode_parse zero_view (router_mode (some unset) 11).1 (some 0) ≡ (success, some 11))
    × (coord_mode_parse zero_view (coord_mode (some unset) 11).1 (some 0) ≡ (success, some 11))
    × (mitm_mode_parse zero_view (mitm_mode (some unset) 11).1 (some 0) ≡ (success, some 11))
    × (jammed_parse zero_view (write_jammed (some unset) 77).1 (some 0) ≡ (success, some 77))
    × (energy_detect_sample_parse zero_view
          (energy_detect_sample (some unset) 77 11).1
          (some no_sample)
        ≡ (success, some (record { sample = 11; timestamp = 77 })))
settings-read_example =
    settings-read zero_view zero_view-IsView unset 11 77 0 no_sample (omega arith)

raw_packet_exact_example :
    let built = raw_pdu_received zero_view (some unset) (some beacon) in
    (built.0 ≡ success)
    × Gives seen_raw (raw_pdu_received_parse zero_view built.1 (some no_raw)) (seen_raw beacon)
raw_packet_exact_example =
    raw_packet_exact zero_view zero_view-IsView unset beacon no_raw beacon-IsPacket

packet_exact_example :
    let built = pdu_received zero_view (some unset) (some beacon) in
    (built.0 ≡ success)
    × Gives seen (pdu_received_parse zero_view built.1 (some no_raw)) (seen beacon)
packet_exact_example = packet_exact zero_view zero_view-IsView unset beacon no_raw beacon-IsPacket

length_exact_example :
    ((n : ℕ)
      → n ≤ 255
      → n ≤ length beacon_request
      → let built = write_send zero_view (some unset) 11 (some beacon_request) (pos n) in
        (built.0 ≡ success)
        × Gives seen_send
            (send_parse zero_view built.1 (some no_raw_send))
            (11, take n beacon_request, 0))
    × ((n : ℕ) → 255 < n → IsRefused zero_view zero_view-IsView unset 11 beacon_request (pos n))
    × ((n : ℕ) → IsRefused zero_view zero_view-IsView unset 11 beacon_request (negsuc n))
length_exact_example = length_exact zero_view zero_view-IsView unset 11 beacon_request no_raw_send

checksum_lost_example :
    (write_send_raw zero_view (some unset) 11 (some beacon_request) (pos 8) 51966
      ≡ write_send zero_view (some unset) 11 (some beacon_request) (pos 8))
    × ((m : Message) (packet : List ℕ) (n : ℕ) (old : SendRawCmd)
        → n ≤ 255
        → n ≤ length packet
        → let built = write_send_raw zero_view (some m) 11 (some packet) (pos n) 51966 in
          let cmd = (send_packet 11 (pos n) packet (zero_view m).send).1 in
          Gives seen_send
            (send_raw_parse zero_view built.1 (some old))
            (11, take n packet, (zero_view (dot15d4_msg (Dot15d4Message.send cmd))).send_raw.fcs))
checksum_lost_example =
    checksum_lost zero_view zero_view-IsView (some unset) 11 (some beacon_request) (pos 8) 51966
