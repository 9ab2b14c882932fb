-- ===== src/Ble/Events.antt =====
-- src/domains/ble.c: what a Bluetooth Low Energy device reports, as messages.
use whad_lib.Prelude.{
  ℕ, Bool, true, false, List, take, Option, none, some, ℤ, pos, negsuc, ltb, ◌&&◌, if◌then◌else◌,
  Status, success, error, build_with, build_from,
}
use whad_lib.Protocol.Buffer.{Buffer, Field, copy_buffer}
use whad_lib.Protocol.Ble.{RawPdu, BleMessage}
use whad_lib.Protocol.Message.{Message, ble_msg}
use whad_lib.Ble.View.{BleView}
use whad_lib.Ble.{write, both}

unfoldable pub notify_connected :
    Option Message → ℕ → Option (List ℕ) → ℕ → Option (List ℕ) → ℕ → Status × Option Message
notify_connected m adv_addr_type p_adv_addr init_addr_type p_init_addr conn_handle =
    build_from
      (λ (p : List ℕ × List ℕ) m. (
        success,
        ble_msg (
            BleMessage.connected (record {
              initiator = take 6 p.1;
              advertiser = take 6 p.0;
              access_address = 0;
              conn_handle = conn_handle;
              adv_addr_type = adv_addr_type;
              init_addr_type = init_addr_type;
            })),
      ))
      m (both p_adv_addr p_init_addr)

unfoldable pub notify_disconnected : Option Message → ℕ → ℕ → Status × Option Message
notify_disconnected m conn_handle reason =
    write (BleMessage.disconnected (record { reason = reason; conn_handle = conn_handle })) m

unfoldable pub write_hijacked : Option Message → ℕ → Bool → Status × Option Message
write_hijacked m access_address done =
    write (BleMessage.hijacked (record { success = done; access_address = access_address })) m

unfoldable pub write_injected : Option Message → ℕ → ℕ → Bool → Status × Option Message
write_injected m access_address attempts done =
    write
      (BleMessage.injected
        (record { success = done; access_address = access_address; injection_attempts = attempts }))
      m

unfoldable pub write_synchronized :
    Option Message → ℕ → ℕ → ℕ → ℕ → Option (List ℕ) → Status × Option Message
write_synchronized m access_address crc_init hop_interval hop_increment p_channelmap =
    build_from
      (λ c m. (
        success,
        ble_msg (
            BleMessage.synchronized (record {
              access_address = access_address;
              crc_init = crc_init;
              hop_interval = hop_interval;
              hop_increment = hop_increment;
              channel_map = take 5 c;
            })),
      ))
      m p_channelmap

-- An optional field that is written under a flag, and left as it was otherwise.
unfoldable pub set_if {ℓ} : {A : Type ℓ} → Bool → A → Field A → Field A
set_if true x old = record { present = true; value = x }
set_if false x old = old

-- The arguments of `whad_ble_raw_pdu` but for the pointers and the length.
pub record RawPduParams : Type 0 where
  pub channel : ℕ
  pub rssi : Option ℤ
  pub conn_handle : ℕ
  pub access_address : ℕ
  pub crc : ℕ
  pub crc_validity : Bool
  pub timestamp : ℕ
  pub relative_timestamp : ℕ
  pub direction : ℕ
  pub processed : Bool
  pub decrypted : Bool
  pub use_timestamp : Bool

-- The RSSI, of which `none` stands for `BLE_RSSI_NONE`.
unfoldable pub write_rssi : Option ℤ → Field ℤ
write_rssi none = record { present = false; value = pos 0 }
write_rssi (some r) = record { present = true; value = r }

-- A PDU of `length` bytes into an array of `room` bytes; `none` where it is written past the array.
unfoldable pub write_pdu : ℕ → List ℕ → ℤ → Buffer → Option Buffer
write_pdu room p_pdu (negsuc n) old = none
write_pdu room p_pdu (pos n) old =
    if ltb room n then none else some (copy_buffer (record { size = n; bytes = p_pdu }) old)

unfoldable pub raw_pdu_of : RawPduParams → RawPdu → Buffer → RawPdu
raw_pdu_of p old pdu = record {
  direction = p.direction;
  channel = p.channel;
  rssi = write_rssi p.rssi;
  timestamp = set_if p.use_timestamp p.timestamp old.timestamp;
  relative_timestamp = set_if p.use_timestamp p.relative_timestamp old.relative_timestamp;
  crc_validity = record { present = true; value = p.crc_validity };
  access_address = p.access_address;
  pdu = pdu;
  crc = p.crc;
  conn_handle = p.conn_handle;
  processed = p.processed;
  decrypted = p.decrypted;
}

-- The message with a PDU that was written.
unfoldable pub with_pdu : (Buffer → BleMessage) → Option Buffer → Option (Status × Option Message)
with_pdu make none = none
with_pdu make (some pdu) = some (success, some (ble_msg (make pdu)))

-- `view` is how a message reads.
module _ (view : Message → BleView) where
  unfoldable pub write_raw_pdu :
      Option Message → RawPduParams → Option (List ℕ) → ℤ → Option (Status × Option Message)
  write_raw_pdu none p p_pdu length = some (error, none)
  write_raw_pdu (some m) p none length = some (error, some m)
  write_raw_pdu (some m) p (some bytes) length =
      with_pdu (λ pdu. BleMessage.raw_pdu (raw_pdu_of p (view m).raw_pdu pdu))
        (write_pdu 255 bytes length (view m).raw_pdu.pdu)

  unfoldable pub pdu :
      Option Message → Option (List ℕ) → ℤ → ℕ → ℕ → Bool → Bool → Option (Status × Option Message)
  pdu none p_pdu length direction conn_handle processed decrypted = some (error, none)
  pdu (some m) none length direction conn_handle processed decrypted = some (error, some m)
  pdu (some m) (some bytes) length direction conn_handle processed decrypted =
      with_pdu
        (λ pdu. BleMessage.pdu (record {
          direction = direction;
          pdu = pdu;
          conn_handle = conn_handle;
          processed = processed;
          decrypted = decrypted;
        }))
        (write_pdu 300 bytes length (view m).pdu.pdu)

  unfoldable pub access_address_discovered :
      Option Message → ℕ → ℕ → ℤ → Bool → Bool → Status × Option Message
  access_address_discovered m access_address timestamp rssi inc_ts inc_rssi =
      build_with
        (λ m. (
          success,
          ble_msg (
              BleMessage.aa_disc (record {
                access_address = access_address;
                rssi = set_if inc_rssi rssi (view m).aa_disc.rssi;
                timestamp = set_if inc_ts timestamp (view m).aa_disc.timestamp;
              })),
        ))
        m

  -- Data of 31 bytes or more are not written; the length 0 stands for any that is not positive.
  unfoldable pub write_adv_pdu :
      Option Message → ℕ → ℤ → Option (List ℕ) → ℕ → Option (List ℕ) → ℕ → Status × Option Message
  write_adv_pdu m adv_type rssi p_bdaddr addr_type p_adv_data length =
      build_from
        (λ (p : List ℕ × List ℕ) m. (
          success,
          ble_msg (
              BleMessage.adv_pdu (record {
                adv_type = adv_type;
                rssi = rssi;
                bd_address = take 6 p.0;
                adv_data =
                    if ltb 0 length && ltb length 31
                    then copy_buffer (record { size = length; bytes = p.1 })
                        (view m).adv_pdu.adv_data
                    else (view m).adv_pdu.adv_data;
                addr_type = addr_type;
              })),
        ))
        m (both p_bdaddr p_adv_data)
