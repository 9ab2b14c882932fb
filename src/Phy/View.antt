-- ===== src/Phy/View.antt =====
-- The union of a PHY message as memory: which value each member reads as. The code reads members whose
-- tag it did not check; what it finds there depends on the layout, which the compiler chooses.
use whad_lib.Prelude.{ℕ, ◌≡◌, Bool}
use whad_lib.Protocol.Buffer.{Buffer, Field}
use whad_lib.Protocol.Phy.{PacketReceived, LoraParams, SchedSend, SchedResp, PhyMessage}
use whad_lib.Protocol.Message.{Message, phy_msg}

-- `which_msg` of `phy_Message`.
abbrev pub which_msg : PhyMessage → ℕ
which_msg PhyMessage.phy_unset = 0
which_msg (PhyMessage.mod_ask _) = 1
which_msg (PhyMessage.mod_fsk _) = 2
which_msg (PhyMessage.mod_gfsk _) = 3
which_msg PhyMessage.mod_bpsk = 4
which_msg (PhyMessage.mod_qpsk _) = 5
which_msg (PhyMessage.mod_4fsk _) = 6
which_msg (PhyMessage.mod_msk _) = 7
which_msg PhyMessage.get_supported_freq = 8
which_msg (PhyMessage.set_freq _) = 9
which_msg (PhyMessage.datarate _) = 10
which_msg (PhyMessage.endianness _) = 11
which_msg (PhyMessage.tx_power _) = 12
which_msg (PhyMessage.packet_size _) = 13
which_msg (PhyMessage.sync_word _) = 14
which_msg (PhyMessage.sniff _) = 15
which_msg (PhyMessage.send _) = 16
which_msg PhyMessage.send_raw = 17
which_msg PhyMessage.start = 18
which_msg PhyMessage.stop = 19
which_msg (PhyMessage.jam _) = 20
which_msg PhyMessage.monitor = 21
which_msg (PhyMessage.packet _) = 22
which_msg (PhyMessage.raw_packet _) = 23
which_msg (PhyMessage.jammed _) = 24
which_msg (PhyMessage.monitor_report _) = 25
which_msg (PhyMessage.supported_freq _) = 26
which_msg (PhyMessage.mod_lora _) = 27
which_msg (PhyMessage.sched_send _) = 28
which_msg (PhyMessage.sched_pkt_rsp _) = 29
which_msg (PhyMessage.sched_pkt_sent _) = 30

-- `p_message->msg.phy` as each member of the union that the parsers and the builders read.
pub record PhyView : Type 0 where
  pub mod_ask : Bool
  pub mod_fsk : ℕ
  pub mod_gfsk : ℕ
  pub mod_qpsk : Bool
  pub mod_4fsk : ℕ
  pub mod_msk : ℕ
  pub set_freq : ℕ
  pub datarate : ℕ
  pub endianness : ℕ
  pub tx_power : ℕ
  pub packet_size : ℕ
  pub sync_word : Buffer
  pub sniff : Field Bool
  pub send : Buffer
  pub jam : ℕ
  pub packet : PacketReceived
  pub jammed : ℕ
  pub mod_lora : LoraParams
  pub sched_send : SchedSend
  pub sched_pkt_rsp : SchedResp
  pub sched_pkt_sent : ℕ

-- The member that was written reads as what was written to it.
unfoldable pub Holds : PhyView → PhyMessage → Type 0
Holds v (PhyMessage.mod_ask x) = v.mod_ask ≡ x
Holds v (PhyMessage.mod_fsk x) = v.mod_fsk ≡ x
Holds v (PhyMessage.mod_gfsk x) = v.mod_gfsk ≡ x
Holds v (PhyMessage.mod_qpsk x) = v.mod_qpsk ≡ x
Holds v (PhyMessage.mod_4fsk x) = v.mod_4fsk ≡ x
Holds v (PhyMessage.mod_msk x) = v.mod_msk ≡ x
Holds v (PhyMessage.set_freq x) = v.set_freq ≡ x
Holds v (PhyMessage.datarate x) = v.datarate ≡ x
Holds v (PhyMessage.endianness x) = v.endianness ≡ x
Holds v (PhyMessage.tx_power x) = v.tx_power ≡ x
Holds v (PhyMessage.packet_size x) = v.packet_size ≡ x
Holds v (PhyMessage.sync_word x) = v.sync_word ≡ x
Holds v (PhyMessage.sniff x) = v.sniff ≡ x
Holds v (PhyMessage.send x) = v.send ≡ x
Holds v (PhyMessage.jam x) = v.jam ≡ x
Holds v (PhyMessage.packet x) = v.packet ≡ x
Holds v (PhyMessage.jammed x) = v.jammed ≡ x
Holds v (PhyMessage.mod_lora x) = v.mod_lora ≡ x
Holds v (PhyMessage.sched_send x) = v.sched_send ≡ x
Holds v (PhyMessage.sched_pkt_rsp x) = v.sched_pkt_rsp ≡ x
Holds v (PhyMessage.sched_pkt_sent x) = v.sched_pkt_sent ≡ x
Holds v _ = Unit

unfoldable pub IsView : (Message → PhyView) → Type 0
IsView view = (e : PhyMessage) → Holds (view (phy_msg e)) e
