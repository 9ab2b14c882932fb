-- ===== src/Dot15d4/View.antt =====
-- The union of an 802.15.4 message as memory: which value each member reads as. The code reads members
-- whose tag it did not check; what it finds there depends on the layout, which the compiler chooses,
-- except for what two structs of a union have in common at their start.
use whad_lib.Prelude.{ℕ, ◌≡◌}
use whad_lib.Protocol.Dot15d4.{
  NodeAddress, SendCmd, SendRawCmd, EdSample, PduReceived, RawPduReceived, Dot15d4Message,
}
use whad_lib.Protocol.Message.{Message, dot15d4_msg}

-- `which_msg` of `dot15d4_Message`.
abbrev pub which_msg : Dot15d4Message → ℕ
which_msg Dot15d4Message.dot15d4_unset = 0
which_msg (Dot15d4Message.set_node_addr _) = 1
which_msg (Dot15d4Message.sniff _) = 2
which_msg (Dot15d4Message.jam _) = 3
which_msg (Dot15d4Message.ed _) = 4
which_msg (Dot15d4Message.send _) = 5
which_msg (Dot15d4Message.send_raw _) = 6
which_msg (Dot15d4Message.end_device _) = 7
which_msg (Dot15d4Message.router _) = 8
which_msg (Dot15d4Message.coordinator _) = 9
which_msg Dot15d4Message.start = 10
which_msg Dot15d4Message.stop = 11
which_msg (Dot15d4Message.mitm _) = 12
which_msg (Dot15d4Message.jammed _) = 13
which_msg (Dot15d4Message.ed_sample _) = 14
which_msg (Dot15d4Message.raw_pdu _) = 15
which_msg (Dot15d4Message.pdu _) = 16

-- `p_message->msg.dot15d4` as each member of the union.
pub record Dot15d4View : Type 0 where
  pub which_msg : ℕ
  pub set_node_addr : NodeAddress
  pub sniff : ℕ
  pub jam : ℕ
  pub ed : ℕ
  pub send : SendCmd
  pub send_raw : SendRawCmd
  pub end_device : ℕ
  pub router : ℕ
  pub coordinator : ℕ
  pub mitm : ℕ
  pub jammed : ℕ
  pub ed_sample : EdSample
  pub raw_pdu : RawPduReceived
  pub pdu : PduReceived

-- The tag is the message's, and the member that was written reads as what was written to it.
unfoldable pub Holds : Dot15d4View → Dot15d4Message → Type 0
Holds v Dot15d4Message.dot15d4_unset = v.which_msg ≡ 0
Holds v (Dot15d4Message.set_node_addr x) = (v.which_msg ≡ 1) × (v.set_node_addr ≡ x)
Holds v (Dot15d4Message.sniff x) = (v.which_msg ≡ 2) × (v.sniff ≡ x)
Holds v (Dot15d4Message.jam x) = (v.which_msg ≡ 3) × (v.jam ≡ x)
Holds v (Dot15d4Message.ed x) = (v.which_msg ≡ 4) × (v.ed ≡ x)
Holds v (Dot15d4Message.send x) = (v.which_msg ≡ 5) × (v.send ≡ x)
Holds v (Dot15d4Message.send_raw x) = (v.which_msg ≡ 6) × (v.send_raw ≡ x)
Holds v (Dot15d4Message.end_device x) = (v.which_msg ≡ 7) × (v.end_device ≡ x)
Holds v (Dot15d4Message.router x) = (v.which_msg ≡ 8) × (v.router ≡ x)
Holds v (Dot15d4Message.coordinator x) = (v.which_msg ≡ 9) × (v.coordinator ≡ x)
Holds v Dot15d4Message.start = v.which_msg ≡ 10
Holds v Dot15d4Message.stop = v.which_msg ≡ 11
Holds v (Dot15d4Message.mitm x) = (v.which_msg ≡ 12) × (v.mitm ≡ x)
Holds v (Dot15d4Message.jammed x) = (v.which_msg ≡ 13) × (v.jammed ≡ x)
Holds v (Dot15d4Message.ed_sample x) = (v.which_msg ≡ 14) × (v.ed_sample ≡ x)
Holds v (Dot15d4Message.raw_pdu x) = (v.which_msg ≡ 15) × (v.raw_pdu ≡ x)
Holds v (Dot15d4Message.pdu x) = (v.which_msg ≡ 16) × (v.pdu ≡ x)

-- The fields that the two structs of packets to send, and the two of packets received, begin with are
-- read through either, as C allows for a common initial sequence.
unfoldable pub Shares : Dot15d4View → Type 0
Shares v =
    (v.send_raw.channel ≡ v.send.channel)
    × (v.send_raw.packet ≡ v.send.packet)
    × (v.raw_pdu.channel ≡ v.pdu.channel)
    × (v.raw_pdu.rssi ≡ v.pdu.rssi)
    × (v.raw_pdu.timestamp ≡ v.pdu.timestamp)
    × (v.raw_pdu.fcs_validity ≡ v.pdu.fcs_validity)
    × (v.raw_pdu.packet ≡ v.pdu.packet)

unfoldable pub IsView : (Message → Dot15d4View) → Type 0
IsView view = (e : Dot15d4Message) → Holds (view (dot15d4_msg e)) e × Shares (view (dot15d4_msg e))
