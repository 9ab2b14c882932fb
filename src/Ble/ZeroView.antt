-- ===== src/Ble/ZeroView.antt =====
-- A BLE message whose other members read as zero.
use whad_lib.Prelude.{ℕ, refl, Bool, false, [], replicate, pos}
use whad_lib.Protocol.Buffer.{Buffer, Field}
use whad_lib.Protocol.Ble.{
  SniffAdv, SniffConnReq, SniffConn, AdvMode, Connect, SendRawPdu, SendPdu, AaDisc, AdvPdu,
  Disconnected, Synchronized, Hijacked, Pdu, RawPdu, Injected, Encryption, ReactiveJam, BdAddress,
  Prepare, Trigger, BleMessage,
}
use whad_lib.Protocol.Message.{Message, ble_msg}
use whad_lib.Ble.View.{BleView, Holds, IsView}

abbrev pub no_bytes : Buffer
no_bytes = record { size = 0; bytes = [] }

abbrev pub no_number : Field ℕ
no_number = record { present = false; value = 0 }

abbrev pub no_flag : Field Bool
no_flag = record { present = false; value = false }

abbrev pub no_sniff_adv : SniffAdv
no_sniff_adv = record { use_extended_adv = false; channel = 0; bd_address = [] }

abbrev pub no_sniff_conn_req : SniffConnReq
no_sniff_conn_req = record {
  show_empty_packets = false;
  show_advertisements = false;
  channel = 0;
  bd_address = [];
}

abbrev pub no_sniff_conn : SniffConn
no_sniff_conn = record {
  access_address = 0;
  crc_init = 0;
  channel_map = [];
  hop_interval = 0;
  hop_increment = 0;
  monitored_channels = [];
}

abbrev pub no_adv_mode : AdvMode
no_adv_mode = record { scan_data = no_bytes; scanrsp_data = no_bytes }

abbrev pub no_connect : Connect
no_connect = record {
  bd_address = [];
  addr_type = 0;
  access_address = no_number;
  channel_map = record { present = false; value = [] };
  hop_interval = no_number;
  hop_increment = no_number;
  crc_init = no_number;
}

abbrev pub no_send_raw_pdu : SendRawPdu
no_send_raw_pdu = record {
  direction = 0;
  conn_handle = 0;
  access_address = 0;
  pdu = no_bytes;
  crc = 0;
  encrypt = false;
}

abbrev pub no_send_pdu : SendPdu
no_send_pdu = record { direction = 0; conn_handle = 0; pdu = no_bytes; encrypt = false }

abbrev pub no_aa_disc : AaDisc
no_aa_disc = record {
  access_address = 0;
  rssi = record { present = false; value = pos 0 };
  timestamp = no_number;
}

abbrev pub no_adv_pdu : AdvPdu
no_adv_pdu = record {
  adv_type = 0;
  rssi = pos 0;
  bd_address = [];
  adv_data = no_bytes;
  addr_type = 0;
}

abbrev pub no_disconnected : Disconnected
no_disconnected = record { reason = 0; conn_handle = 0 }

abbrev pub no_synchronized : Synchronized
no_synchronized = record {
  access_address = 0;
  crc_init = 0;
  hop_interval = 0;
  hop_increment = 0;
  channel_map = [];
}

abbrev pub no_hijacked : Hijacked
no_hijacked = record { success = false; access_address = 0 }

abbrev pub no_pdu : Pdu
no_pdu = record {
  direction = 0;
  pdu = no_bytes;
  conn_handle = 0;
  processed = false;
  decrypted = false;
}

abbrev pub no_raw_pdu : RawPdu
no_raw_pdu = record {
  direction = 0;
  channel = 0;
  rssi = record { present = false; value = pos 0 };
  timestamp = no_number;
  relative_timestamp = no_number;
  crc_validity = no_flag;
  access_address = 0;
  pdu = no_bytes;
  crc = 0;
  conn_handle = 0;
  processed = false;
  decrypted = false;
}

abbrev pub no_injected : Injected
no_injected = record { success = false; access_address = 0; injection_attempts = 0 }

abbrev pub no_encryption : Encryption
no_encryption = record {
  conn_handle = 0;
  enabled = false;
  ll_key = [];
  ll_iv = [];
  key = [];
  rand = [];
  ediv = [];
}

abbrev pub no_reactive_jam : ReactiveJam
no_reactive_jam = record { channel = 0; pattern = no_bytes; position = 0 }

abbrev pub no_bd_address : BdAddress
no_bd_address = record { bd_address = []; addr_type = 0 }

abbrev pub no_prepare : Prepare
no_prepare = record {
  trigger = Trigger.trigger_unset;
  id = 0;
  direction = 0;
  sequence_count = 0;
  sequence = replicate 25 no_bytes;
}

abbrev pub blank : BleView
blank = record {
  set_bd_addr = no_bd_address;
  sniff_adv = no_sniff_adv;
  jam_adv_chan = 0;
  sniff_connreq = no_sniff_conn_req;
  sniff_aa = [];
  sniff_conn = no_sniff_conn;
  jam_conn = 0;
  scan_mode = false;
  adv_mode = no_adv_mode;
  connect = no_connect;
  send_raw_pdu = no_send_raw_pdu;
  send_pdu = no_send_pdu;
  disconnect = 0;
  periph_mode = no_adv_mode;
  hijack_master = 0;
  hijack_slave = 0;
  hijack_both = 0;
  aa_disc = no_aa_disc;
  adv_pdu = no_adv_pdu;
  disconnected = no_disconnected;
  synchronized = no_synchronized;
  hijacked = no_hijacked;
  pdu = no_pdu;
  raw_pdu = no_raw_pdu;
  injected = no_injected;
  desynchronized = 0;
  encryption = no_encryption;
  reactive_jam = no_reactive_jam;
  prepare = no_prepare;
  trigger = 0;
  triggered = 0;
  delete_seq = 0;
}

-- How such a message reads.
abbrev pub zero_view : Message → BleView
zero_view (ble_msg (BleMessage.set_bd_addr a)) = record blank { set_bd_addr = a }
zero_view (ble_msg (BleMessage.sniff_adv a)) = record blank { sniff_adv = a }
zero_view (ble_msg (BleMessage.jam_adv_chan a)) = record blank { jam_adv_chan = a }
zero_view (ble_msg (BleMessage.sniff_connreq a)) = record blank { sniff_connreq = a }
zero_view (ble_msg (BleMessage.sniff_aa a)) = record blank { sniff_aa = a }
zero_view (ble_msg (BleMessage.sniff_conn a)) = record blank { sniff_conn = a }
zero_view (ble_msg (BleMessage.jam_conn a)) = record blank { jam_conn = a }
zero_view (ble_msg (BleMessage.scan_mode a)) = record blank { scan_mode = a }
zero_view (ble_msg (BleMessage.adv_mode a)) = record blank { adv_mode = a }
zero_view (ble_msg (BleMessage.connect a)) = record blank { connect = a }
zero_view (ble_msg (BleMessage.send_raw_pdu a)) = record blank { send_raw_pdu = a }
zero_view (ble_msg (BleMessage.send_pdu a)) = record blank { send_pdu = a }
zero_view (ble_msg (BleMessage.disconnect a)) = record blank { disconnect = a }
zero_view (ble_msg (BleMessage.periph_mode a)) = record blank { periph_mode = a }
zero_view (ble_msg (BleMessage.hijack_master a)) = record blank { hijack_master = a }
zero_view (ble_msg (BleMessage.hijack_slave a)) = record blank { hijack_slave = a }
zero_view (ble_msg (BleMessage.hijack_both a)) = record blank { hijack_both = a }
zero_view (ble_msg (BleMessage.aa_disc a)) = record blank { aa_disc = a }
zero_view (ble_msg (BleMessage.adv_pdu a)) = record blank { adv_pdu = a }
zero_view (ble_msg (BleMessage.disconnected a)) = record blank { disconnected = a }
zero_view (ble_msg (BleMessage.synchronized a)) = record blank { synchronized = a }
zero_view (ble_msg (BleMessage.hijacked a)) = record blank { hijacked = a }
zero_view (ble_msg (BleMessage.pdu a)) = record blank { pdu = a }
zero_view (ble_msg (BleMessage.raw_pdu a)) = record blank { raw_pdu = a }
zero_view (ble_msg (BleMessage.injected a)) = record blank { injected = a }
zero_view (ble_msg (BleMessage.desynchronized a)) = record blank { desynchronized = a }
zero_view (ble_msg (BleMessage.encryption a)) = record blank { encryption = a }
zero_view (ble_msg (BleMessage.reactive_jam a)) = record blank { reactive_jam = a }
zero_view (ble_msg (BleMessage.prepare a)) = record blank { prepare = a }
zero_view (ble_msg (BleMessage.trigger a)) = record blank { trigger = a }
zero_view (ble_msg (BleMessage.triggered a)) = record blank { triggered = a }
zero_view (ble_msg (BleMessage.delete_seq a)) = record blank { delete_seq = a }
zero_view _ = blank

pub zero_view-IsView : IsView zero_view
unfolding IsView Holds
zero_view-IsView BleMessage.ble_unset = tt
zero_view-IsView (BleMessage.set_bd_addr a) = refl
zero_view-IsView (BleMessage.sniff_adv a) = refl
zero_view-IsView BleMessage.jam_adv = tt
zero_view-IsView (BleMessage.jam_adv_chan a) = refl
zero_view-IsView (BleMessage.sniff_connreq a) = refl
zero_view-IsView (BleMessage.sniff_aa a) = refl
zero_view-IsView (BleMessage.sniff_conn a) = refl
zero_view-IsView (BleMessage.jam_conn a) = refl
zero_view-IsView (BleMessage.scan_mode a) = refl
zero_view-IsView (BleMessage.adv_mode a) = refl
zero_view-IsView BleMessage.set_adv_data = tt
zero_view-IsView BleMessage.central_mode = tt
zero_view-IsView (BleMessage.connect a) = refl
zero_view-IsView (BleMessage.send_raw_pdu a) = refl
zero_view-IsView (BleMessage.send_pdu a) = refl
zero_view-IsView (BleMessage.disconnect a) = refl
zero_view-IsView (BleMessage.periph_mode a) = refl
zero_view-IsView BleMessage.start = tt
zero_view-IsView BleMessage.stop = tt
zero_view-IsView (BleMessage.hijack_master a) = refl
zero_view-IsView (BleMessage.hijack_slave a) = refl
zero_view-IsView (BleMessage.hijack_both a) = refl
zero_view-IsView (BleMessage.aa_disc a) = refl
zero_view-IsView (BleMessage.adv_pdu a) = refl
zero_view-IsView (BleMessage.connected _) = tt
zero_view-IsView (BleMessage.disconnected a) = refl
zero_view-IsView (BleMessage.synchronized a) = refl
zero_view-IsView (BleMessage.hijacked a) = refl
zero_view-IsView (BleMessage.pdu a) = refl
zero_view-IsView (BleMessage.raw_pdu a) = refl
zero_view-IsView (BleMessage.injected a) = refl
zero_view-IsView (BleMessage.desynchronized a) = refl
zero_view-IsView (BleMessage.encryption a) = refl
zero_view-IsView (BleMessage.reactive_jam a) = refl
zero_view-IsView (BleMessage.prepare a) = refl
zero_view-IsView (BleMessage.trigger a) = refl
zero_view-IsView (BleMessage.triggered a) = refl
zero_view-IsView (BleMessage.delete_seq a) = refl
