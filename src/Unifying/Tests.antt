-- ===== src/Unifying/Tests.antt =====
-- A message whose other members read as zero, and the theorems on it.
use whad_lib.Prelude.{
  ℕ, ◌≡◌, ◌≤◌, ◌<◌, refl, true, false, [], ◌∷◌, replicate, some, success, error, arith, pos, Gives,
}
use whad_lib.Protocol.Buffer.{Buffer, Field, contents, IsFull}
use whad_lib.Protocol.Radio.{Sniff, Send, Received, UnifyingMessage}
use whad_lib.Protocol.Message.{Message, unset, unifying_msg}
use whad_lib.Radio.Laws.{IsPacket, seen, seen_sniff}
use whad_lib.Unifying.View.{UnifyingView, Holds, IsView}
use whad_lib.Unifying.{
  write_sniff, raw_pdu_received, pdu_received, sniff_parse, raw_pdu_received_parse,
  pdu_received_parse,
}
use whad_lib.Unifying.Exact.{sniffer_exact, report_exact}

abbrev no_bytes : Buffer
no_bytes = record { size = 0; bytes = replicate 255 0 }

abbrev no_sniff : Sniff
no_sniff = record { channel = 0; show_acks = false; address = no_bytes }

abbrev no_send : Send
no_send = record { channel = 0; retr_count = 0; packet = no_bytes }

abbrev absent : Field ℕ
absent = record { present = false; value = 0 }

abbrev no_packet : Received
no_packet = record {
  channel = 0;
  rssi = record { present = false; value = pos 0 };
  timestamp = absent;
  crc_validity = record { present = false; value = false };
  has_address = false;
  address = no_bytes;
  packet = no_bytes;
}

abbrev blank : UnifyingView
blank = record {
  which_msg = 0;
  set_node_addr = no_bytes;
  sniff = no_sniff;
  jam = 0;
  send = no_send;
  send_raw = no_send;
  dongle = 0;
  keyboard = 0;
  mouse = 0;
  jammed = 0;
  raw_pdu = no_packet;
  pdu = no_packet;
}

-- How such a message reads.
abbrev pub zero_view : Message → UnifyingView
zero_view (unifying_msg (UnifyingMessage.set_node_addr a)) = record blank {
  which_msg = 1;
  set_node_addr = a;
}
zero_view (unifying_msg (UnifyingMessage.sniff a)) = record blank { which_msg = 2; sniff = a }
zero_view (unifying_msg (UnifyingMessage.jam a)) = record blank { which_msg = 3; jam = a }
zero_view (unifying_msg (UnifyingMessage.send a)) = record blank { which_msg = 4; send = a }
zero_view (unifying_msg (UnifyingMessage.send_raw a)) = record blank { which_msg = 5; send_raw = a }
zero_view (unifying_msg (UnifyingMessage.dongle a)) = record blank { which_msg = 6; dongle = a }
zero_view (unifying_msg (UnifyingMessage.keyboard a)) = record blank { which_msg = 7; keyboard = a }
zero_view (unifying_msg (UnifyingMessage.mouse a)) = record blank { which_msg = 8; mouse = a }
zero_view (unifying_msg UnifyingMessage.start) = record blank { which_msg = 9 }
zero_view (unifying_msg UnifyingMessage.stop) = record blank { which_msg = 10 }
zero_view (unifying_msg (UnifyingMessage.jammed a)) = record blank { which_msg = 11; jammed = a }
zero_view (unifying_msg (UnifyingMessage.raw_pdu a)) = record blank { which_msg = 12; raw_pdu = a }
zero_view (unifying_msg (UnifyingMessage.pdu a)) = record blank { which_msg = 13; pdu = a }
zero_view (unifying_msg UnifyingMessage.sniff_pairing) = record blank { which_msg = 14 }
zero_view _ = blank

pub zero_view-IsView : IsView zero_view
unfolding IsView Holds
zero_view-IsView UnifyingMessage.unifying_unset = refl
zero_view-IsView (UnifyingMessage.set_node_addr a) = (refl, refl)
zero_view-IsView (UnifyingMessage.sniff a) = (refl, refl)
zero_view-IsView (UnifyingMessage.jam a) = (refl, refl)
zero_view-IsView (UnifyingMessage.send a) = (refl, refl)
zero_view-IsView (UnifyingMessage.send_raw a) = (refl, refl)
zero_view-IsView (UnifyingMessage.dongle a) = (refl, refl)
zero_view-IsView (UnifyingMessage.keyboard a) = (refl, refl)
zero_view-IsView (UnifyingMessage.mouse a) = (refl, refl)
zero_view-IsView UnifyingMessage.start = refl
zero_view-IsView UnifyingMessage.stop = refl
zero_view-IsView (UnifyingMessage.jammed a) = (refl, refl)
zero_view-IsView (UnifyingMessage.raw_pdu a) = (refl, refl)
zero_view-IsView (UnifyingMessage.pdu a) = (refl, refl)
zero_view-IsView UnifyingMessage.sniff_pairing = refl

abbrev dongle_address : Buffer
dongle_address = record { size = 5; bytes = 202 ∷ 233 ∷ 6 ∷ 236 ∷ 164 ∷ [] }

abbrev keep_alive : Buffer
keep_alive = record { size = 3; bytes = 0 ∷ 64 ∷ 192 ∷ 1 ∷ [] }

abbrev keep_alive_packet : Received
keep_alive_packet = record {
  channel = 8;
  rssi = record { present = true; value = pos 40 };
  timestamp = record { present = true; value = 1000000 };
  crc_validity = record { present = false; value = true };
  has_address = true;
  address = dongle_address;
  packet = keep_alive;
}

keep_alive_packet-IsPacket : IsPacket keep_alive_packet
unfolding IsPacket IsFull
keep_alive_packet-IsPacket = (omega arith, omega arith, omega arith, omega arith)

keep_alive-IsFull : IsFull keep_alive
unfolding IsFull
keep_alive-IsFull = omega arith

dongle_address-IsFull : IsFull dongle_address
unfolding IsFull
dongle_address-IsFull = omega arith

sniffer_exact_example :
    let built = write_sniff zero_view (some unset) (some dongle_address) 8 true in
    (5 ≤ 5
      → (built.0 ≡ success)
        × Gives seen_sniff
            (sniff_parse zero_view built.1 (some no_sniff))
            (8, true, contents dongle_address))
    × (5 < 5 → built ≡ (error, some unset))
sniffer_exact_example =
    sniffer_exact zero_view zero_view-IsView unset dongle_address 8 true no_sniff
      dongle_address-IsFull

report_exact_example :
    let built = pdu_received zero_view (some unset) (some keep_alive_packet) in
    let raw = raw_pdu_received zero_view (some unset) (some keep_alive_packet) in
    (built.0 ≡ success)
    × Gives seen (pdu_received_parse zero_view built.1 (some no_packet)) (seen keep_alive_packet)
    × (raw.0 ≡ success)
    × Gives seen (raw_pdu_received_parse zero_view raw.1 (some no_packet)) (seen keep_alive_packet)
report_exact_example =
    report_exact zero_view zero_view-IsView unset keep_alive_packet no_packet
      keep_alive_packet-IsPacket (λ _. omega arith)
