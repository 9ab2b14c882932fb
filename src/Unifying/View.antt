-- ===== src/Unifying/View.antt =====
-- The union of a unifying message as memory: which value each member reads as. The code reads members
-- whose tag it did not check; what it finds there depends on the layout, which the compiler chooses.
use whad_lib.Prelude.{ℕ, ◌≡◌}
use whad_lib.Protocol.Buffer.{Buffer}
use whad_lib.Protocol.Radio.{Sniff, Send, Received, UnifyingMessage}
use whad_lib.Protocol.Message.{Message, unifying_msg}

-- `which_msg` of `unifying_Message`.
abbrev pub which_msg : UnifyingMessage → ℕ
which_msg UnifyingMessage.unifying_unset = 0
which_msg (UnifyingMessage.set_node_addr _) = 1
which_msg (UnifyingMessage.sniff _) = 2
which_msg (UnifyingMessage.jam _) = 3
which_msg (UnifyingMessage.send _) = 4
which_msg (UnifyingMessage.send_raw _) = 5
which_msg (UnifyingMessage.dongle _) = 6
which_msg (UnifyingMessage.keyboard _) = 7
which_msg (UnifyingMessage.mouse _) = 8
which_msg UnifyingMessage.start = 9
which_msg UnifyingMessage.stop = 10
which_msg (UnifyingMessage.jammed _) = 11
which_msg (UnifyingMessage.raw_pdu _) = 12
which_msg (UnifyingMessage.pdu _) = 13
which_msg UnifyingMessage.sniff_pairing = 14

-- `p_message->msg.unifying` as each member of the union.
pub record UnifyingView : Type 0 where
  pub which_msg : ℕ
  pub set_node_addr : Buffer
  pub sniff : Sniff
  pub jam : ℕ
  pub send : Send
  pub send_raw : Send
  pub dongle : ℕ
  pub keyboard : ℕ
  pub mouse : ℕ
  pub jammed : ℕ
  pub raw_pdu : Received
  pub pdu : Received

-- The tag is the message's, and the member that was written reads as what was written to it.
unfoldable pub Holds : UnifyingView → UnifyingMessage → Type 0
Holds v UnifyingMessage.unifying_unset = v.which_msg ≡ 0
Holds v (UnifyingMessage.set_node_addr x) = (v.which_msg ≡ 1) × (v.set_node_addr ≡ x)
Holds v (UnifyingMessage.sniff x) = (v.which_msg ≡ 2) × (v.sniff ≡ x)
Holds v (UnifyingMessage.jam x) = (v.which_msg ≡ 3) × (v.jam ≡ x)
Holds v (UnifyingMessage.send x) = (v.which_msg ≡ 4) × (v.send ≡ x)
Holds v (UnifyingMessage.send_raw x) = (v.which_msg ≡ 5) × (v.send_raw ≡ x)
Holds v (UnifyingMessage.dongle x) = (v.which_msg ≡ 6) × (v.dongle ≡ x)
Holds v (UnifyingMessage.keyboard x) = (v.which_msg ≡ 7) × (v.keyboard ≡ x)
Holds v (UnifyingMessage.mouse x) = (v.which_msg ≡ 8) × (v.mouse ≡ x)
Holds v UnifyingMessage.start = v.which_msg ≡ 9
Holds v UnifyingMessage.stop = v.which_msg ≡ 10
Holds v (UnifyingMessage.jammed x) = (v.which_msg ≡ 11) × (v.jammed ≡ x)
Holds v (UnifyingMessage.raw_pdu x) = (v.which_msg ≡ 12) × (v.raw_pdu ≡ x)
Holds v (UnifyingMessage.pdu x) = (v.which_msg ≡ 13) × (v.pdu ≡ x)
Holds v UnifyingMessage.sniff_pairing = v.which_msg ≡ 14

unfoldable pub IsView : (Message → UnifyingView) → Type 0
IsView view = (e : UnifyingMessage) → Holds (view (unifying_msg e)) e
