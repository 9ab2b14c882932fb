-- ===== src/Phy/Tests.antt =====
-- A message whose other members read as zero, an encoder that keeps what it is given, and the theorems
-- on them.
use whad_lib.Prelude.{
  ℕ, ◌+◌, ◌*◌, ◌≡◌, ◌≤◌, ◌<◌, ◌^◌, ◌↔◌, refl, Bool, true, false, List, [], ◌∷◌, ◌++◌, take, none,
  some, success, error, arith, pos, negsuc, Gives,
}
use Prim.Native.Nat.{min}
use whad_lib.Protocol.Buffer.{Buffer, Field}
use whad_lib.Protocol.Phy.{
  FrequencyRange, LoraParams, PacketReceived, SchedSend, SchedResp, SchedPacket, ReceivedPacket,
  PhyMessage,
}
use whad_lib.Protocol.Message.{Message, unset, phy_msg}
use whad_lib.Phy.View.{PhyView, Holds, IsView}
use whad_lib.Phy.{sched_packet, packet_received, Radio, to_timestamp}
use whad_lib.Phy.Parse.{sched_packet_parse, packet_received_parse, from_timestamp}
use whad_lib.Phy.Frequencies.{
  Encoder, encode_range, is_end, encode_cb-ends, supported_frequencies, message_free, encode_cb,
  encode_each, before_end,
}
use whad_lib.Phy.Time.{timestamp_exact}
use whad_lib.Phy.Packets.{sched_packet_exact, packet_received_exact, seen_sched, seen_received}

abbrev no_bytes : Buffer
no_bytes = record { size = 0; bytes = [] }

abbrev no_flag : Field Bool
no_flag = record { present = false; value = false }

abbrev no_lora : LoraParams
no_lora = record {
  bandwidth = 0;
  sf = 0;
  cr = 0;
  preamble_length = 0;
  enable_crc = false;
  explicit_mode = false;
  invert_iq = false;
}

abbrev lora : LoraParams
lora = record no_lora { bandwidth = 125000; sf = 3; preamble_length = 8; enable_crc = true }

abbrev no_sched : SchedSend
no_sched = record { packet = no_bytes; timestamp = 0 }

abbrev no_resp : SchedResp
no_resp = record { id = 0; full = no_flag }

abbrev no_packet : PacketReceived
no_packet = record {
  frequency = 0;
  rssi = record { present = false; value = pos 0 };
  timestamp = record { present = false; value = 0 };
  packet = no_bytes;
  deviation = 0;
  datarate = 0;
  endian = 0;
  modulation = 0;
  syncword = no_bytes;
}

abbrev blank : PhyView
blank = record {
  mod_ask = false;
  mod_fsk = 0;
  mod_gfsk = 0;
  mod_qpsk = false;
  mod_4fsk = 0;
  mod_msk = 0;
  set_freq = 0;
  datarate = 0;
  endianness = 0;
  tx_power = 0;
  packet_size = 0;
  sync_word = no_bytes;
  sniff = no_flag;
  send = no_bytes;
  jam = 0;
  packet = no_packet;
  jammed = 0;
  mod_lora = no_lora;
  sched_send = no_sched;
  sched_pkt_rsp = no_resp;
  sched_pkt_sent = 0;
}

-- How such a message reads.
abbrev pub zero_view : Message → PhyView
zero_view (phy_msg (PhyMessage.mod_ask a)) = record blank { mod_ask = a }
zero_view (phy_msg (PhyMessage.mod_fsk a)) = record blank { mod_fsk = a }
zero_view (phy_msg (PhyMessage.mod_gfsk a)) = record blank { mod_gfsk = a }
zero_view (phy_msg (PhyMessage.mod_qpsk a)) = record blank { mod_qpsk = a }
zero_view (phy_msg (PhyMessage.mod_4fsk a)) = record blank { mod_4fsk = a }
zero_view (phy_msg (PhyMessage.mod_msk a)) = record blank { mod_msk = a }
zero_view (phy_msg (PhyMessage.set_freq a)) = record blank { set_freq = a }
zero_view (phy_msg (PhyMessage.datarate a)) = record blank { datarate = a }
zero_view (phy_msg (PhyMessage.endianness a)) = record blank { endianness = a }
zero_view (phy_msg (PhyMessage.tx_power a)) = record blank { tx_power = a }
zero_view (phy_msg (PhyMessage.packet_size a)) = record blank { packet_size = a }
zero_view (phy_msg (PhyMessage.sync_word a)) = record blank { sync_word = a }
zero_view (phy_msg (PhyMessage.sniff a)) = record blank { sniff = a }
zero_view (phy_msg (PhyMessage.send a)) = record blank { send = a }
zero_view (phy_msg (PhyMessage.jam a)) = record blank { jam = a }
zero_view (phy_msg (PhyMessage.packet a)) = record blank { packet = a }
zero_view (phy_msg (PhyMessage.jammed a)) = record blank { jammed = a }
zero_view (phy_msg (PhyMessage.mod_lora a)) = record blank { mod_lora = a }
zero_view (phy_msg (PhyMessage.sched_send a)) = record blank { sched_send = a }
zero_view (phy_msg (PhyMessage.sched_pkt_rsp a)) = record blank { sched_pkt_rsp = a }
zero_view (phy_msg (PhyMessage.sched_pkt_sent a)) = record blank { sched_pkt_sent = a }
zero_view _ = blank

pub zero_view-IsView : IsView zero_view
unfolding IsView Holds
zero_view-IsView PhyMessage.phy_unset = tt
zero_view-IsView (PhyMessage.mod_ask a) = refl
zero_view-IsView (PhyMessage.mod_fsk a) = refl
zero_view-IsView (PhyMessage.mod_gfsk a) = refl
zero_view-IsView (PhyMessage.mod_qpsk a) = refl
zero_view-IsView (PhyMessage.mod_4fsk a) = refl
zero_view-IsView (PhyMessage.mod_msk a) = refl
zero_view-IsView (PhyMessage.set_freq a) = refl
zero_view-IsView (PhyMessage.datarate a) = refl
zero_view-IsView (PhyMessage.endianness a) = refl
zero_view-IsView (PhyMessage.tx_power a) = refl
zero_view-IsView (PhyMessage.packet_size a) = refl
zero_view-IsView (PhyMessage.sync_word a) = refl
zero_view-IsView (PhyMessage.sniff a) = refl
zero_view-IsView (PhyMessage.send a) = refl
zero_view-IsView (PhyMessage.jam a) = refl
zero_view-IsView (PhyMessage.packet a) = refl
zero_view-IsView (PhyMessage.jammed a) = refl
zero_view-IsView (PhyMessage.mod_lora a) = refl
zero_view-IsView (PhyMessage.sched_send a) = refl
zero_view-IsView (PhyMessage.sched_pkt_rsp a) = refl
zero_view-IsView (PhyMessage.sched_pkt_sent a) = refl
zero_view-IsView PhyMessage.mod_bpsk = tt
zero_view-IsView PhyMessage.get_supported_freq = tt
zero_view-IsView PhyMessage.send_raw = tt
zero_view-IsView PhyMessage.start = tt
zero_view-IsView PhyMessage.stop = tt
zero_view-IsView PhyMessage.monitor = tt
zero_view-IsView (PhyMessage.raw_packet _) = tt
zero_view-IsView (PhyMessage.monitor_report _) = tt
zero_view-IsView (PhyMessage.supported_freq _) = tt

abbrev bands : List FrequencyRange
bands =
    record { low = 433050000; high = 434790000 }
    ∷ record { low = 0; high = 100 }
    ∷ record { low = 868000000; high = 868600000 }
    ∷ []

abbrev recorder : Encoder (List FrequencyRange)
recorder = record {
  pb_encode_tag_for_field = λ s. (true, s);
  pb_encode_submessage = λ s r. (true, s ++ (r ∷ []));
}

-- The range that begins at zero ends the list for the callback.
one_band : encode_each recorder [] (before_end (take 3 bands)) ≡ (true, take 1 bands)
unfolding encode_each encode_range before_end is_end
one_band = refl

encode_cb-ends_example :
    (copied : List FrequencyRange) × (made : Message) × (supported_frequencies true
        (some unset)
        (some bands)
        3
      ≡ some (success, some made))
    × (message_free made ≡ some copied)
    × (encode_cb recorder (some []) 1 copied
        ≡ some (let r = encode_each recorder [] (before_end (take 3 bands)) in (r.0, some r.1)))
encode_cb-ends_example = encode_cb-ends recorder [] unset bands 3 (omega arith)

timestamp_exact_example :
    (from_timestamp (to_timestamp 5000 17) ≡ record { ts_sec = 5000; ts_usec = 17 })
    ↔ ((17 < 1000000) × (5000 * 1000000 + 17 < 2 ^ 32))
timestamp_exact_example = timestamp_exact 5000 17

abbrev payload : List ℕ
payload = 170 ∷ 85 ∷ 1 ∷ []

abbrev no_sched_packet : SchedPacket
no_sched_packet = record { packet = no_bytes; ts = record { ts_sec = 0; ts_usec = 0 } }

sched_packet_exact_example :
    (2 ≤ 255
      → (made : Message) × (sched_packet zero_view (some unset) (some payload) (pos 2) 4294 17
          ≡ some (success, some made))
        × Gives seen_sched
            (sched_packet_parse zero_view (some made) (some no_sched_packet))
            (take 2 payload, record { ts_sec = 4294; ts_usec = 17 }))
    × (255 < 2
        → sched_packet zero_view (some unset) (some payload) (pos 2) 4294 17
          ≡ some (error, some unset))
sched_packet_exact_example =
    sched_packet_exact zero_view zero_view-IsView unset payload 2 4294 17 no_sched_packet
      (omega arith) (omega arith) (omega arith)

abbrev ism : Radio
ism = record {
  frequency = 868300000;
  rssi = negsuc 79;
  deviation = 20000;
  datarate = 9600;
  endianness = 1;
  modulation = 1;
}

abbrev no_received : ReceivedPacket
no_received = record {
  freq = 0;
  rssi = pos 0;
  ts = record { ts_sec = 0; ts_usec = 0 };
  packet = no_bytes;
}

packet_received_exact_example :
    (4 ≤ 8
      → (made : Message) × (packet_received zero_view
            (some unset)
            ism
            2
            30
            (some payload)
            (pos 3)
            (1 ∷ 2 ∷ 3 ∷ 4 ∷ [])
            (pos 4)
          ≡ some (success, some made))
        × Gives seen_received
            (packet_received_parse zero_view (some made) (some no_received))
            (868300000, negsuc 79, from_timestamp (to_timestamp 2 30), take (min 3 255) payload))
    × (8 < 4
        → packet_received zero_view
            (some unset)
            ism
            2
            30
            (some payload)
            (pos 3)
            (1 ∷ 2 ∷ 3 ∷ 4 ∷ [])
            (pos 4)
          ≡ none)
packet_received_exact_example =
    packet_received_exact zero_view zero_view-IsView unset ism 2 30 3 4 payload (1 ∷ 2 ∷ 3 ∷ 4 ∷ [])
      no_received (omega arith)
