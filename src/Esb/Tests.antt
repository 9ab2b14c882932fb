-- ===== src/Esb/Tests.antt =====
-- A message whose other members read as zero, and the theorems on it.
use whad_lib.Prelude.{
  ℕ, ◌≡◌, ◌≤◌, ◌<◌, refl, true, false, [], ◌∷◌, replicate, some, success, error, arith, pos, Gives,
}
use whad_lib.Protocol.Buffer.{Buffer, Field, contents, IsFull}
use whad_lib.Protocol.Radio.{Sniff, Send, Received, EsbMessage}
use whad_lib.Protocol.Message.{Message, unset, esb_msg}
use whad_lib.Radio.Laws.{IsPacket, seen}
use whad_lib.Esb.View.{EsbView, Holds, IsView}
use whad_lib.Esb.{
  set_node_address, raw_pdu_received, pdu_received, set_node_address_parse, raw_pdu_received_parse,
  pdu_received_parse,
}
use whad_lib.Esb.Exact.{address_exact, received_exact}

abbrev no_bytes : Buffer
no_bytes = record { size = 0; bytes = replicate 255 0 }

abbrev no_sniff : Sniff
no_sniff = record { channel = 0; show_acks = false; address = no_bytes }

abbrev no_send : Send
no_send = record { channel = 0; retr_count = 0; packet = no_bytes }

abbrev absent : Field ℕ
absent = record { present = false; value = 0 }

abbrev no_packet : Received
no_packet = record {
  channel = 0;
  rssi = record { present = false; value = pos 0 };
  timestamp = absent;
  crc_validity = record { present = false; value = false };
  has_address = false;
  address = no_bytes;
  packet = no_bytes;
}

abbrev blank : EsbView
blank = record {
  which_msg = 0;
  set_node_addr = no_bytes;
  sniff = no_sniff;
  jam = 0;
  send = no_send;
  send_raw = no_send;
  prx = 0;
  ptx = 0;
  jammed = 0;
  raw_pdu = no_packet;
  pdu = no_packet;
}

-- How such a message reads.
abbrev pub zero_view : Message → EsbView
zero_view (esb_msg (EsbMessage.set_node_addr a)) = record blank { which_msg = 1; set_node_addr = a }
zero_view (esb_msg (EsbMessage.sniff a)) = record blank { which_msg = 2; sniff = a }
zero_view (esb_msg (EsbMessage.jam a)) = record blank { which_msg = 3; jam = a }
zero_view (esb_msg (EsbMessage.send a)) = record blank { which_msg = 4; send = a }
zero_view (esb_msg (EsbMessage.send_raw a)) = record blank { which_msg = 5; send_raw = a }
zero_view (esb_msg (EsbMessage.prx a)) = record blank { which_msg = 6; prx = a }
zero_view (esb_msg (EsbMessage.ptx a)) = record blank { which_msg = 7; ptx = a }
zero_view (esb_msg EsbMessage.start) = record blank { which_msg = 8 }
zero_view (esb_msg EsbMessage.stop) = record blank { which_msg = 9 }
zero_view (esb_msg (EsbMessage.jammed a)) = record blank { which_msg = 10; jammed = a }
zero_view (esb_msg (EsbMessage.raw_pdu a)) = record blank { which_msg = 11; raw_pdu = a }
zero_view (esb_msg (EsbMessage.pdu a)) = record blank { which_msg = 12; pdu = a }
zero_view _ = blank

pub zero_view-IsView : IsView zero_view
unfolding IsView Holds
zero_view-IsView EsbMessage.esb_unset = refl
zero_view-IsView (EsbMessage.set_node_addr a) = (refl, refl)
zero_view-IsView (EsbMessage.sniff a) = (refl, refl)
zero_view-IsView (EsbMessage.jam a) = (refl, refl)
zero_view-IsView (EsbMessage.send a) = (refl, refl)
zero_view-IsView (EsbMessage.send_raw a) = (refl, refl)
zero_view-IsView (EsbMessage.prx a) = (refl, refl)
zero_view-IsView (EsbMessage.ptx a) = (refl, refl)
zero_view-IsView EsbMessage.start = refl
zero_view-IsView EsbMessage.stop = refl
zero_view-IsView (EsbMessage.jammed a) = (refl, refl)
zero_view-IsView (EsbMessage.raw_pdu a) = (refl, refl)
zero_view-IsView (EsbMessage.pdu a) = (refl, refl)

abbrev dongle_address : Buffer
dongle_address = record { size = 5; bytes = 202 ∷ 233 ∷ 6 ∷ 236 ∷ 164 ∷ [] }

abbrev keep_alive : Buffer
keep_alive = record { size = 3; bytes = 0 ∷ 64 ∷ 192 ∷ 1 ∷ [] }

abbrev keep_alive_packet : Received
keep_alive_packet = record {
  channel = 8;
  rssi = record { present = true; value = pos 40 };
  timestamp = record { present = true; value = 1000000 };
  crc_validity = record { present = false; value = true };
  has_address = true;
  address = dongle_address;
  packet = keep_alive;
}

keep_alive_packet-IsPacket : IsPacket keep_alive_packet
unfolding IsPacket IsFull
keep_alive_packet-IsPacket = (omega arith, omega arith, omega arith, omega arith)

keep_alive-IsFull : IsFull keep_alive
unfolding IsFull
keep_alive-IsFull = omega arith

dongle_address-IsFull : IsFull dongle_address
unfolding IsFull
dongle_address-IsFull = omega arith

address_exact_example :
    let built = set_node_address zero_view (some unset) (some dongle_address) in
    (5 ≤ 5
      → (built.0 ≡ success)
        × Gives contents
            (set_node_address_parse zero_view built.1 (some no_bytes))
            (contents dongle_address))
    × (5 < 5
        → built
          ≡ (error, some (esb_msg (EsbMessage.set_node_addr (zero_view unset).set_node_addr))))
address_exact_example =
    address_exact zero_view zero_view-IsView unset dongle_address no_bytes dongle_address-IsFull

received_exact_example :
    let built = pdu_received zero_view (some unset) (some keep_alive_packet) in
    let raw = raw_pdu_received zero_view (some unset) (some keep_alive_packet) in
    (built.0 ≡ success)
    × Gives seen (pdu_received_parse zero_view built.1 (some no_packet)) (seen keep_alive_packet)
    × (raw.0 ≡ success)
    × Gives seen (raw_pdu_received_parse zero_view raw.1 (some no_packet)) (seen keep_alive_packet)
received_exact_example =
    received_exact zero_view zero_view-IsView unset keep_alive_packet no_packet
      keep_alive_packet-IsPacket (λ _. omega arith)
