-- ===== src/Ble.antt =====
-- src/domains/ble.c: commands for a Bluetooth Low Energy device, as messages.
pub mod View
pub mod Modes
pub mod Events
pub mod Sequence
pub mod Parse
pub mod Exact
pub mod Advertising
pub mod Sequences
pub mod ZeroView
mod Tests
use whad_lib.Prelude.{
  ℕ, zero, suc, ◌%◌, ◌^◌, Bool, true, false, List, [], ◌∷◌, take, replicate, map, Option, none,
  some, ℤ, pos, negsuc, ltb, ◌-◌, ◌==◌, ◌||◌, ◌&&◌, not, if◌then◌else◌, Status, success, error,
  build_with, build_from, parse_with,
}
use whad_lib.Protocol.Buffer.{Buffer, Field, memcpy, copy_buffer}
use whad_lib.Protocol.Ble.{
  SniffAdv, SniffConnReq, SniffConn, AdvMode, Connect, SendRawPdu, SendPdu, AaDisc, AdvPdu,
  Connected, Disconnected, Synchronized, Hijacked, Pdu, RawPdu, Injected, Encryption, ReactiveJam,
  BdAddress, Reception, Prepare, Trigger, BleMessage,
}
use whad_lib.Protocol.Message.{Message, ble_msg}
use whad_lib.Ble.View.{BleView, which_msg}

-- `whad_ble_msgtype_t`, by value: 0 for `WHAD_BLE_UNKNOWN`, and the tags.
unfoldable pub get_message_type : Message → ℕ
get_message_type (ble_msg e) = which_msg e
get_message_type _ = 0

unfoldable pub write : BleMessage → Option Message → Status × Option Message
write e = build_with (λ m. (success, ble_msg e))

unfoldable pub jam_adv_channel : Option Message → ℕ → Status × Option Message
jam_adv_channel m x = write (BleMessage.jam_adv_chan x) m

unfoldable pub jam_active_conn : Option Message → ℕ → Status × Option Message
jam_active_conn m x = write (BleMessage.jam_conn x) m

unfoldable pub write_scan_mode : Option Message → Bool → Status × Option Message
write_scan_mode m x = write (BleMessage.scan_mode x) m

unfoldable pub write_disconnect : Option Message → ℕ → Status × Option Message
write_disconnect m x = write (BleMessage.disconnect x) m

unfoldable pub write_hijack_master : Option Message → ℕ → Status × Option Message
write_hijack_master m x = write (BleMessage.hijack_master x) m

unfoldable pub write_hijack_slave : Option Message → ℕ → Status × Option Message
write_hijack_slave m x = write (BleMessage.hijack_slave x) m

unfoldable pub write_hijack_both : Option Message → ℕ → Status × Option Message
write_hijack_both m x = write (BleMessage.hijack_both x) m

unfoldable pub prepare_sequence_trigger : Option Message → ℕ → Status × Option Message
prepare_sequence_trigger m x = write (BleMessage.trigger x) m

unfoldable pub prepare_sequence_delete : Option Message → ℕ → Status × Option Message
prepare_sequence_delete m x = write (BleMessage.delete_seq x) m

unfoldable pub write_triggered : Option Message → ℕ → Status × Option Message
write_triggered m x = write (BleMessage.triggered x) m

unfoldable pub write_desynchronized : Option Message → ℕ → Status × Option Message
write_desynchronized m x = write (BleMessage.desynchronized x) m

unfoldable pub write_jam_adv : Option Message → Status × Option Message
write_jam_adv m = write BleMessage.jam_adv m

unfoldable pub write_central_mode : Option Message → Status × Option Message
write_central_mode m = write BleMessage.central_mode m

unfoldable pub write_start : Option Message → Status × Option Message
write_start m = write BleMessage.start m

unfoldable pub write_stop : Option Message → Status × Option Message
write_stop m = write BleMessage.stop m

-- Two pointers, neither of which is NULL.
abbrev pub both : {A B : Type 0} → Option A → Option B → Option (A × B)
both none q = none
both (some a) none = none
both (some a) (some b) = some (a, b)

unfoldable pub set_bdaddress : Option Message → ℕ → Option (List ℕ) → Status × Option Message
set_bdaddress m addr_type p_bdaddr =
    build_from
      (λ a m. (
        success,
        ble_msg (BleMessage.set_bd_addr (record { bd_address = take 6 a; addr_type = addr_type })),
      ))
      m p_bdaddr

unfoldable pub write_sniff_adv :
    Option Message → Bool → ℕ → Option (List ℕ) → Status × Option Message
write_sniff_adv m use_ext_adv channel p_bdaddr =
    build_from
      (λ a m. (
        success,
        ble_msg (
            BleMessage.sniff_adv (record {
              use_extended_adv = use_ext_adv;
              channel = channel;
              bd_address = take 6 a;
            })),
      ))
      m p_bdaddr

unfoldable pub sniff_conn_req :
    Option Message → Bool → Bool → ℕ → Option (List ℕ) → Status × Option Message
sniff_conn_req m show_empty_packets show_adv channel p_bdaddr =
    build_from
      (λ a m. (
        success,
        ble_msg (
            BleMessage.sniff_connreq (record {
              show_empty_packets = show_empty_packets;
              show_advertisements = show_adv;
              channel = channel;
              bd_address = take 6 a;
            })),
      ))
      m p_bdaddr

unfoldable pub sniff_access_address : Option Message → Option (List ℕ) → Status × Option Message
sniff_access_address = build_from (λ c m. (success, ble_msg (BleMessage.sniff_aa (take 5 c))))

unfoldable pub sniff_active_conn :
    Option Message → ℕ → ℕ → ℕ → ℕ → Option (List ℕ) → Option (List ℕ) → Status × Option Message
sniff_active_conn m access_address crc_init hop_interval hop_increment p_channelmap p_channels =
    build_from
      (λ (p : List ℕ × List ℕ) m. (
        success,
        ble_msg (
            BleMessage.sniff_conn (record {
              access_address = access_address;
              crc_init = crc_init;
              channel_map = take 5 p.0;
              hop_interval = hop_interval;
              hop_increment = hop_increment;
              monitored_channels = take 5 p.1;
            })),
      ))
      m (both p_channelmap p_channels)

unfoldable pub set_encryption :
    Option Message
    → ℕ
    → Bool
    → Option (List ℕ)
    → Option (List ℕ)
    → Option (List ℕ)
    → Option (List ℕ)
    → Option (List ℕ)
    → Status × Option Message
set_encryption m conn_handle enabled p_ll_key p_ll_iv p_key p_rand p_ediv =
    build_from
      (λ (p : List ℕ × (List ℕ × (List ℕ × (List ℕ × List ℕ)))) m. (
        success,
        ble_msg (
            BleMessage.encryption (record {
              conn_handle = conn_handle;
              enabled = enabled;
              ll_key = take 16 p.0;
              ll_iv = take 8 p.1.0;
              key = take 16 p.1.1.0;
              rand = take 8 p.1.1.1.0;
              ediv = take 2 p.1.1.1.1;
            })),
      ))
      m (both p_ll_key (both p_ll_iv (both p_key (both p_rand p_ediv))))
