-- ===== src/Esb/View.antt =====
-- The union of a esb message as memory: which value each member reads as. The code reads members
-- whose tag it did not check; what it finds there depends on the layout, which the compiler chooses.
use whad_lib.Prelude.{ℕ, ◌≡◌}
use whad_lib.Protocol.Buffer.{Buffer}
use whad_lib.Protocol.Radio.{Sniff, Send, Received, EsbMessage}
use whad_lib.Protocol.Message.{Message, esb_msg}

-- `which_msg` of `esb_Message`.
abbrev pub which_msg : EsbMessage → ℕ
which_msg EsbMessage.esb_unset = 0
which_msg (EsbMessage.set_node_addr _) = 1
which_msg (EsbMessage.sniff _) = 2
which_msg (EsbMessage.jam _) = 3
which_msg (EsbMessage.send _) = 4
which_msg (EsbMessage.send_raw _) = 5
which_msg (EsbMessage.prx _) = 6
which_msg (EsbMessage.ptx _) = 7
which_msg EsbMessage.start = 8
which_msg EsbMessage.stop = 9
which_msg (EsbMessage.jammed _) = 10
which_msg (EsbMessage.raw_pdu _) = 11
which_msg (EsbMessage.pdu _) = 12

-- `p_message->msg.esb` as each member of the union.
pub record EsbView : Type 0 where
  pub which_msg : ℕ
  pub set_node_addr : Buffer
  pub sniff : Sniff
  pub jam : ℕ
  pub send : Send
  pub send_raw : Send
  pub prx : ℕ
  pub ptx : ℕ
  pub jammed : ℕ
  pub raw_pdu : Received
  pub pdu : Received

-- The tag is the message's, and the member that was written reads as what was written to it.
unfoldable pub Holds : EsbView → EsbMessage → Type 0
Holds v EsbMessage.esb_unset = v.which_msg ≡ 0
Holds v (EsbMessage.set_node_addr x) = (v.which_msg ≡ 1) × (v.set_node_addr ≡ x)
Holds v (EsbMessage.sniff x) = (v.which_msg ≡ 2) × (v.sniff ≡ x)
Holds v (EsbMessage.jam x) = (v.which_msg ≡ 3) × (v.jam ≡ x)
Holds v (EsbMessage.send x) = (v.which_msg ≡ 4) × (v.send ≡ x)
Holds v (EsbMessage.send_raw x) = (v.which_msg ≡ 5) × (v.send_raw ≡ x)
Holds v (EsbMessage.prx x) = (v.which_msg ≡ 6) × (v.prx ≡ x)
Holds v (EsbMessage.ptx x) = (v.which_msg ≡ 7) × (v.ptx ≡ x)
Holds v EsbMessage.start = v.which_msg ≡ 8
Holds v EsbMessage.stop = v.which_msg ≡ 9
Holds v (EsbMessage.jammed x) = (v.which_msg ≡ 10) × (v.jammed ≡ x)
Holds v (EsbMessage.raw_pdu x) = (v.which_msg ≡ 11) × (v.raw_pdu ≡ x)
Holds v (EsbMessage.pdu x) = (v.which_msg ≡ 12) × (v.pdu ≡ x)

unfoldable pub IsView : (Message → EsbView) → Type 0
IsView view = (e : EsbMessage) → Holds (view (esb_msg e)) e
