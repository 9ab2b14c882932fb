-- ===== src/Ble/Parse.antt =====
-- src/domains/ble.c: how a Bluetooth Low Energy message is read. A parser that gives a pointer into the
-- message gives the bytes there; an output struct with the fields of the message is that of the message.
use whad_lib.Prelude.{
  ℕ, ◌%◌, ◌^◌, Bool, true, false, List, replicate, Option, ℤ, pos, ltb, ◌==◌, ◌&&◌, if◌then◌else◌,
  Status, success, error, parse_with,
}
use whad_lib.Protocol.Buffer.{Buffer, Field, copy_buffer}
use whad_lib.Protocol.Ble.{
  SniffAdv, SniffConnReq, SniffConn, Connect, AdvPdu, Disconnected, Synchronized, Hijacked, Pdu,
  Injected, Encryption, ReactiveJam, BdAddress,
}
use whad_lib.Protocol.Message.{Message}
use whad_lib.Ble.View.{BleView}
use whad_lib.Radio.{to_u32}

-- `whad_ble_connect_params_t`.
pub record ConnectParams : Type 0 where
  pub bdaddr : List ℕ
  pub addr_type : ℕ
  pub access_address : ℕ
  pub channelmap : List ℕ
  pub hop_interval : ℕ
  pub hop_increment : ℕ
  pub crc_init : ℕ

-- `whad_ble_adv_mode_params_t`.
pub record AdvParams : Type 0 where
  pub adv : Buffer
  pub scanrsp : Buffer

-- `whad_ble_aa_disc_params_t`.
pub record AaDiscParams : Type 0 where
  pub access_address : ℕ
  pub timestamp : Field ℕ
  pub rssi : Field ℤ

-- `whad_ble_pdu_params_t`: the length, and what the pointer to the PDU leads to.
pub record PduParams : Type 0 where
  pub direction : ℕ
  pub conn_handle : ℕ
  pub access_address : ℕ
  pub pdu : Buffer
  pub crc : ℕ
  pub encrypt : Bool

-- `if (has_x) { out = x; } else { out = zero; }`.
unfoldable pub or_zero {ℓ} : {A : Type ℓ} → A → Field A → A
or_zero none_value f = if f.present then f.value else none_value

-- Advertising data: 1 to 30 bytes are copied, and any other length makes 31 bytes of zeros. The length
-- has 8 bits.
unfoldable pub read_adv : Buffer → Buffer → Buffer
read_adv src old =
    let length = src.size % 2 ^ 8 in
    if ltb 0 length && ltb length 31
    then copy_buffer (record { size = length; bytes = src.bytes }) old
    else record { size = length; bytes = replicate 31 0 }

unfoldable pub read_connect : Connect → ConnectParams
read_connect c = record {
  bdaddr = c.bd_address;
  addr_type = c.addr_type;
  access_address = or_zero 0 c.access_address;
  channelmap = or_zero (replicate 5 0) c.channel_map;
  hop_interval = or_zero 0 c.hop_interval;
  hop_increment = or_zero 0 c.hop_increment;
  crc_init = or_zero 0 c.crc_init;
}

unfoldable pub flag_or_zero {ℓ} : {A : Type ℓ} → A → Field A → Field A
flag_or_zero none_value f =
    if f.present
    then record { present = true; value = f.value }
    else record { present = false; value = none_value }

-- A pattern: 1 to 20 bytes are copied, none makes zeros, and more are an error.
unfoldable pub read_pattern : Buffer → Buffer → Status × Buffer
read_pattern src old =
    if ltb 20 src.size
    then (error, record { size = src.size; bytes = old.bytes })
    else if src.size == 0
    then (success, record { size = 0; bytes = replicate 20 0 })
    else (success, copy_buffer src old)

-- `view` is how a message reads: the parsers look at no tag.
module _ (view : Message → BleView) where
  unfoldable pub jam_adv_channel_parse : Option Message → Option ℕ → Status × Option ℕ
  jam_adv_channel_parse = parse_with (λ m old. (success, (view m).jam_adv_chan))

  unfoldable pub jam_active_conn_parse : Option Message → Option ℕ → Status × Option ℕ
  jam_active_conn_parse = parse_with (λ m old. (success, (view m).jam_conn))

  unfoldable pub scan_mode_parse : Option Message → Option Bool → Status × Option Bool
  scan_mode_parse = parse_with (λ m old. (success, (view m).scan_mode))

  unfoldable pub disconnect_parse : Option Message → Option ℕ → Status × Option ℕ
  disconnect_parse = parse_with (λ m old. (success, (view m).disconnect))

  unfoldable pub hijack_master_parse : Option Message → Option ℕ → Status × Option ℕ
  hijack_master_parse = parse_with (λ m old. (success, (view m).hijack_master))

  unfoldable pub hijack_slave_parse : Option Message → Option ℕ → Status × Option ℕ
  hijack_slave_parse = parse_with (λ m old. (success, (view m).hijack_slave))

  unfoldable pub hijack_both_parse : Option Message → Option ℕ → Status × Option ℕ
  hijack_both_parse = parse_with (λ m old. (success, (view m).hijack_both))

  unfoldable pub prepare_sequence_trigger_parse : Option Message → Option ℕ → Status × Option ℕ
  prepare_sequence_trigger_parse = parse_with (λ m old. (success, (view m).trigger))

  unfoldable pub triggered_parse : Option Message → Option ℕ → Status × Option ℕ
  triggered_parse = parse_with (λ m old. (success, (view m).triggered))

  unfoldable pub desynchronized_parse : Option Message → Option ℕ → Status × Option ℕ
  desynchronized_parse = parse_with (λ m old. (success, (view m).desynchronized))

  unfoldable pub set_bdaddress_parse : Option Message → Option BdAddress → Status × Option BdAddress
  set_bdaddress_parse = parse_with (λ m old. (success, (view m).set_bd_addr))

  unfoldable pub sniff_adv_parse : Option Message → Option SniffAdv → Status × Option SniffAdv
  sniff_adv_parse = parse_with (λ m old. (success, (view m).sniff_adv))

  unfoldable pub sniff_conn_req_parse :
      Option Message → Option SniffConnReq → Status × Option SniffConnReq
  sniff_conn_req_parse = parse_with (λ m old. (success, (view m).sniff_connreq))

  unfoldable pub sniff_access_address_parse :
      Option Message → Option (List ℕ) → Status × Option (List ℕ)
  sniff_access_address_parse = parse_with (λ m old. (success, (view m).sniff_aa))

  unfoldable pub sniff_active_conn_parse :
      Option Message → Option SniffConn → Status × Option SniffConn
  sniff_active_conn_parse = parse_with (λ m old. (success, (view m).sniff_conn))

  unfoldable pub set_encryption_parse :
      Option Message → Option Encryption → Status × Option Encryption
  set_encryption_parse = parse_with (λ m old. (success, (view m).encryption))

  unfoldable pub notify_disconnected_parse :
      Option Message → Option Disconnected → Status × Option Disconnected
  notify_disconnected_parse = parse_with (λ m old. (success, (view m).disconnected))

  unfoldable pub hijacked_parse : Option Message → Option Hijacked → Status × Option Hijacked
  hijacked_parse = parse_with (λ m old. (success, (view m).hijacked))

  unfoldable pub injected_parse : Option Message → Option Injected → Status × Option Injected
  injected_parse = parse_with (λ m old. (success, (view m).injected))

  unfoldable pub synchronized_parse :
      Option Message → Option Synchronized → Status × Option Synchronized
  synchronized_parse = parse_with (λ m old. (success, (view m).synchronized))

  unfoldable pub connect_to_parse :
      Option Message → Option ConnectParams → Status × Option ConnectParams
  connect_to_parse = parse_with (λ m old. (success, read_connect (view m).connect))

  unfoldable pub adv_mode_parse : Option Message → Option AdvParams → Status × Option AdvParams
  adv_mode_parse = parse_with (λ m old. (
    success,
    record {
      adv = read_adv (view m).adv_mode.scan_data old.adv;
      scanrsp = read_adv (view m).adv_mode.scanrsp_data old.scanrsp;
    },
  ))

  unfoldable pub peripheral_mode_parse :
      Option Message → Option AdvParams → Status × Option AdvParams
  peripheral_mode_parse = parse_with (λ m old. (
    success,
    record {
      adv = read_adv (view m).periph_mode.scan_data old.adv;
      scanrsp = read_adv (view m).periph_mode.scanrsp_data old.scanrsp;
    },
  ))

  unfoldable pub send_raw_pdu_parse : Option Message → Option PduParams → Status × Option PduParams
  send_raw_pdu_parse = parse_with (λ m old. (
    success,
    record {
      direction = (view m).send_raw_pdu.direction;
      conn_handle = (view m).send_raw_pdu.conn_handle;
      access_address = (view m).send_raw_pdu.access_address;
      pdu = (view m).send_raw_pdu.pdu;
      crc = (view m).send_raw_pdu.crc;
      encrypt = (view m).send_raw_pdu.encrypt;
    },
  ))

  unfoldable pub send_pdu_parse : Option Message → Option PduParams → Status × Option PduParams
  send_pdu_parse = parse_with (λ m old. (
    success,
    record {
      direction = (view m).send_pdu.direction;
      conn_handle = (view m).send_pdu.conn_handle;
      access_address = 0;
      pdu = (view m).send_pdu.pdu;
      crc = 0;
      encrypt = (view m).send_pdu.encrypt;
    },
  ))

  -- The direction is not read.
  unfoldable pub pdu_parse : Option Message → Option Pdu → Status × Option Pdu
  pdu_parse = parse_with (λ m old. (success, record ((view m).pdu) { direction = old.direction }))

  unfoldable pub access_address_discovered_parse :
      Option Message → Option AaDiscParams → Status × Option AaDiscParams
  access_address_discovered_parse = parse_with (λ m old. (
    success,
    record {
      access_address = (view m).aa_disc.access_address;
      timestamp = flag_or_zero 0 (to_u32 (view m).aa_disc.timestamp);
      rssi = flag_or_zero (pos 0) (view m).aa_disc.rssi;
    },
  ))

  unfoldable pub adv_pdu_parse : Option Message → Option AdvPdu → Status × Option AdvPdu
  adv_pdu_parse = parse_with (λ m old. (success, (view m).adv_pdu))

  unfoldable pub reactive_jam_parse :
      Option Message → Option ReactiveJam → Status × Option ReactiveJam
  reactive_jam_parse = parse_with (λ m old.
      let (status, pattern) = read_pattern (view m).reactive_jam.pattern old.pattern in
      (
        status,
        record {
          channel = (view m).reactive_jam.channel;
          pattern = pattern;
          position = (view m).reactive_jam.position;
        },
      ))
