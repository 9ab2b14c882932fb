-- ===== src/Ble/View.antt =====
-- The union of a BLE message as memory: which value each member reads as. The code reads members whose
-- tag it did not check; what it finds there depends on the layout, which the compiler chooses.
use whad_lib.Prelude.{ℕ, ◌≡◌, Bool, List}
use whad_lib.Protocol.Ble.{
  SniffAdv, SniffConnReq, SniffConn, AdvMode, Connect, SendRawPdu, SendPdu, AaDisc, AdvPdu,
  Disconnected, Synchronized, Hijacked, Pdu, RawPdu, Injected, Encryption, ReactiveJam, BdAddress,
  Prepare, BleMessage,
}
use whad_lib.Protocol.Message.{Message, ble_msg}

-- `which_msg` of `ble_Message`.
abbrev pub which_msg : BleMessage → ℕ
which_msg BleMessage.ble_unset = 0
which_msg (BleMessage.set_bd_addr _) = 1
which_msg (BleMessage.sniff_adv _) = 2
which_msg BleMessage.jam_adv = 3
which_msg (BleMessage.jam_adv_chan _) = 4
which_msg (BleMessage.sniff_connreq _) = 5
which_msg (BleMessage.sniff_aa _) = 6
which_msg (BleMessage.sniff_conn _) = 7
which_msg (BleMessage.jam_conn _) = 8
which_msg (BleMessage.scan_mode _) = 9
which_msg (BleMessage.adv_mode _) = 10
which_msg BleMessage.set_adv_data = 11
which_msg BleMessage.central_mode = 12
which_msg (BleMessage.connect _) = 13
which_msg (BleMessage.send_raw_pdu _) = 14
which_msg (BleMessage.send_pdu _) = 15
which_msg (BleMessage.disconnect _) = 16
which_msg (BleMessage.periph_mode _) = 17
which_msg BleMessage.start = 18
which_msg BleMessage.stop = 19
which_msg (BleMessage.hijack_master _) = 20
which_msg (BleMessage.hijack_slave _) = 21
which_msg (BleMessage.hijack_both _) = 22
which_msg (BleMessage.aa_disc _) = 23
which_msg (BleMessage.adv_pdu _) = 24
which_msg (BleMessage.connected _) = 25
which_msg (BleMessage.disconnected _) = 26
which_msg (BleMessage.synchronized _) = 27
which_msg (BleMessage.hijacked _) = 28
which_msg (BleMessage.pdu _) = 29
which_msg (BleMessage.raw_pdu _) = 30
which_msg (BleMessage.injected _) = 31
which_msg (BleMessage.desynchronized _) = 32
which_msg (BleMessage.encryption _) = 33
which_msg (BleMessage.reactive_jam _) = 34
which_msg (BleMessage.prepare _) = 35
which_msg (BleMessage.trigger _) = 36
which_msg (BleMessage.triggered _) = 37
which_msg (BleMessage.delete_seq _) = 38

-- `p_message->msg.ble` as each member of the union that the functions read.
pub record BleView : Type 0 where
  pub set_bd_addr : BdAddress
  pub sniff_adv : SniffAdv
  pub jam_adv_chan : ℕ
  pub sniff_connreq : SniffConnReq
  pub sniff_aa : List ℕ
  pub sniff_conn : SniffConn
  pub jam_conn : ℕ
  pub scan_mode : Bool
  pub adv_mode : AdvMode
  pub connect : Connect
  pub send_raw_pdu : SendRawPdu
  pub send_pdu : SendPdu
  pub disconnect : ℕ
  pub periph_mode : AdvMode
  pub hijack_master : ℕ
  pub hijack_slave : ℕ
  pub hijack_both : ℕ
  pub aa_disc : AaDisc
  pub adv_pdu : AdvPdu
  pub disconnected : Disconnected
  pub synchronized : Synchronized
  pub hijacked : Hijacked
  pub pdu : Pdu
  pub raw_pdu : RawPdu
  pub injected : Injected
  pub desynchronized : ℕ
  pub encryption : Encryption
  pub reactive_jam : ReactiveJam
  pub prepare : Prepare
  pub trigger : ℕ
  pub triggered : ℕ
  pub delete_seq : ℕ

-- The member that was written reads as what was written to it.
unfoldable pub Holds : BleView → BleMessage → Type 0
Holds v (BleMessage.set_bd_addr x) = v.set_bd_addr ≡ x
Holds v (BleMessage.sniff_adv x) = v.sniff_adv ≡ x
Holds v (BleMessage.jam_adv_chan x) = v.jam_adv_chan ≡ x
Holds v (BleMessage.sniff_connreq x) = v.sniff_connreq ≡ x
Holds v (BleMessage.sniff_aa x) = v.sniff_aa ≡ x
Holds v (BleMessage.sniff_conn x) = v.sniff_conn ≡ x
Holds v (BleMessage.jam_conn x) = v.jam_conn ≡ x
Holds v (BleMessage.scan_mode x) = v.scan_mode ≡ x
Holds v (BleMessage.adv_mode x) = v.adv_mode ≡ x
Holds v (BleMessage.connect x) = v.connect ≡ x
Holds v (BleMessage.send_raw_pdu x) = v.send_raw_pdu ≡ x
Holds v (BleMessage.send_pdu x) = v.send_pdu ≡ x
Holds v (BleMessage.disconnect x) = v.disconnect ≡ x
Holds v (BleMessage.periph_mode x) = v.periph_mode ≡ x
Holds v (BleMessage.hijack_master x) = v.hijack_master ≡ x
Holds v (BleMessage.hijack_slave x) = v.hijack_slave ≡ x
Holds v (BleMessage.hijack_both x) = v.hijack_both ≡ x
Holds v (BleMessage.aa_disc x) = v.aa_disc ≡ x
Holds v (BleMessage.adv_pdu x) = v.adv_pdu ≡ x
Holds v (BleMessage.disconnected x) = v.disconnected ≡ x
Holds v (BleMessage.synchronized x) = v.synchronized ≡ x
Holds v (BleMessage.hijacked x) = v.hijacked ≡ x
Holds v (BleMessage.pdu x) = v.pdu ≡ x
Holds v (BleMessage.raw_pdu x) = v.raw_pdu ≡ x
Holds v (BleMessage.injected x) = v.injected ≡ x
Holds v (BleMessage.desynchronized x) = v.desynchronized ≡ x
Holds v (BleMessage.encryption x) = v.encryption ≡ x
Holds v (BleMessage.reactive_jam x) = v.reactive_jam ≡ x
Holds v (BleMessage.prepare x) = v.prepare ≡ x
Holds v (BleMessage.trigger x) = v.trigger ≡ x
Holds v (BleMessage.triggered x) = v.triggered ≡ x
Holds v (BleMessage.delete_seq x) = v.delete_seq ≡ x
Holds v _ = Unit

unfoldable pub IsView : (Message → BleView) → Type 0
IsView view = (e : BleMessage) → Holds (view (ble_msg e)) e
