-- ===== src/Protocol/Ble.antt =====
-- whad/protocol/ble/ble.pb.h: the messages of the Bluetooth Low Energy domain. Enumerations are their
-- values, an array of fixed length is the list of its bytes.
use whad_lib.Prelude.{ℕ, Bool, List, ℤ}
use whad_lib.Protocol.Buffer.{Buffer, Field}

-- `ble_SniffAdvCmd`.
pub record SniffAdv : Type 0 where
  pub use_extended_adv : Bool
  pub channel : ℕ
  pub bd_address : List ℕ

-- `ble_SniffConnReqCmd`.
pub record SniffConnReq : Type 0 where
  pub show_empty_packets : Bool
  pub show_advertisements : Bool
  pub channel : ℕ
  pub bd_address : List ℕ

-- `ble_SniffActiveConnCmd`.
pub record SniffConn : Type 0 where
  pub access_address : ℕ
  pub crc_init : ℕ
  pub channel_map : List ℕ
  pub hop_interval : ℕ
  pub hop_increment : ℕ
  pub monitored_channels : List ℕ

-- `ble_AdvModeCmd`.
pub record AdvMode : Type 0 where
  pub scan_data : Buffer
  pub scanrsp_data : Buffer

-- `ble_ConnectToCmd`.
pub record Connect : Type 0 where
  pub bd_address : List ℕ
  pub addr_type : ℕ
  pub access_address : Field ℕ
  pub channel_map : Field (List ℕ)
  pub hop_interval : Field ℕ
  pub hop_increment : Field ℕ
  pub crc_init : Field ℕ

-- `ble_SendRawPDUCmd`.
pub record SendRawPdu : Type 0 where
  pub direction : ℕ
  pub conn_handle : ℕ
  pub access_address : ℕ
  pub pdu : Buffer
  pub crc : ℕ
  pub encrypt : Bool

-- `ble_SendPDUCmd`.
pub record SendPdu : Type 0 where
  pub direction : ℕ
  pub conn_handle : ℕ
  pub pdu : Buffer
  pub encrypt : Bool

-- `ble_AccessAddressDiscovered`.
pub record AaDisc : Type 0 where
  pub access_address : ℕ
  pub rssi : Field ℤ
  pub timestamp : Field ℕ

-- `ble_AdvPduReceived`.
pub record AdvPdu : Type 0 where
  pub adv_type : ℕ
  pub rssi : ℤ
  pub bd_address : List ℕ
  pub adv_data : Buffer
  pub addr_type : ℕ

-- `ble_Connected`.
pub record Connected : Type 0 where
  pub initiator : List ℕ
  pub advertiser : List ℕ
  pub access_address : ℕ
  pub conn_handle : ℕ
  pub adv_addr_type : ℕ
  pub init_addr_type : ℕ

-- `ble_Disconnected`.
pub record Disconnected : Type 0 where
  pub reason : ℕ
  pub conn_handle : ℕ

-- `ble_Synchronized`.
pub record Synchronized : Type 0 where
  pub access_address : ℕ
  pub crc_init : ℕ
  pub hop_interval : ℕ
  pub hop_increment : ℕ
  pub channel_map : List ℕ

-- `ble_Hijacked`.
pub record Hijacked : Type 0 where
  pub success : Bool
  pub access_address : ℕ

-- `ble_PduReceived`.
pub record Pdu : Type 0 where
  pub direction : ℕ
  pub pdu : Buffer
  pub conn_handle : ℕ
  pub processed : Bool
  pub decrypted : Bool

-- `ble_RawPduReceived`.
pub record RawPdu : Type 0 where
  pub direction : ℕ
  pub channel : ℕ
  pub rssi : Field ℤ
  pub timestamp : Field ℕ
  pub relative_timestamp : Field ℕ
  pub crc_validity : Field Bool
  pub access_address : ℕ
  pub pdu : Buffer
  pub crc : ℕ
  pub conn_handle : ℕ
  pub processed : Bool
  pub decrypted : Bool

-- `ble_Injected`.
pub record Injected : Type 0 where
  pub success : Bool
  pub access_address : ℕ
  pub injection_attempts : ℕ

-- `ble_SetEncryptionCmd`.
pub record Encryption : Type 0 where
  pub conn_handle : ℕ
  pub enabled : Bool
  pub ll_key : List ℕ
  pub ll_iv : List ℕ
  pub key : List ℕ
  pub rand : List ℕ
  pub ediv : List ℕ

-- `ble_ReactiveJamCmd`.
pub record ReactiveJam : Type 0 where
  pub channel : ℕ
  pub pattern : Buffer
  pub position : ℕ

-- `ble_SetBdAddressCmd`.
pub record BdAddress : Type 0 where
  pub bd_address : List ℕ
  pub addr_type : ℕ

-- `ble_PrepareSequenceCmd_ReceptionTrigger`.
pub record Reception : Type 0 where
  pub pattern : Buffer
  pub mask : Buffer
  pub offset : ℕ

-- `ble_PrepareSequenceCmd_Trigger`: the union with its tag.
pub data Trigger : Type 0 where
  trigger_unset : Trigger
  reception : Reception → Trigger
  connection_event : ℕ → Trigger
  manual : Trigger

-- `ble_PrepareSequenceCmd`, whose sequence has 25 entries.
pub record Prepare : Type 0 where
  pub trigger : Trigger
  pub id : ℕ
  pub direction : ℕ
  pub sequence_count : ℕ
  pub sequence : List Buffer

-- `ble_Message`: the union with its tag. No function fills the member of `set_adv_data`.
pub data BleMessage : Type 0 where
  ble_unset : BleMessage
  set_bd_addr : BdAddress → BleMessage
  sniff_adv : SniffAdv → BleMessage
  jam_adv : BleMessage
  jam_adv_chan : ℕ → BleMessage
  sniff_connreq : SniffConnReq → BleMessage
  sniff_aa : List ℕ → BleMessage
  sniff_conn : SniffConn → BleMessage
  jam_conn : ℕ → BleMessage
  scan_mode : Bool → BleMessage
  adv_mode : AdvMode → BleMessage
  set_adv_data : BleMessage
  central_mode : BleMessage
  connect : Connect → BleMessage
  send_raw_pdu : SendRawPdu → BleMessage
  send_pdu : SendPdu → BleMessage
  disconnect : ℕ → BleMessage
  periph_mode : AdvMode → BleMessage
  start : BleMessage
  stop : BleMessage
  hijack_master : ℕ → BleMessage
  hijack_slave : ℕ → BleMessage
  hijack_both : ℕ → BleMessage
  aa_disc : AaDisc → BleMessage
  adv_pdu : AdvPdu → BleMessage
  connected : Connected → BleMessage
  disconnected : Disconnected → BleMessage
  synchronized : Synchronized → BleMessage
  hijacked : Hijacked → BleMessage
  pdu : Pdu → BleMessage
  raw_pdu : RawPdu → BleMessage
  injected : Injected → BleMessage
  desynchronized : ℕ → BleMessage
  encryption : Encryption → BleMessage
  reactive_jam : ReactiveJam → BleMessage
  prepare : Prepare → BleMessage
  trigger : ℕ → BleMessage
  triggered : ℕ → BleMessage
  delete_seq : ℕ → BleMessage
