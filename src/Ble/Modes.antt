-- ===== src/Ble/Modes.antt =====
-- src/domains/ble.c: commands for a Bluetooth Low Energy device that write over what a message holds.
use whad_lib.Prelude.{
  ℕ, zero, suc, ◌%◌, ◌^◌, Bool, true, List, take, Option, none, some, ℤ, pos, negsuc, ltb, ◌-◌,
  if◌then◌else◌, Status, success, error, build_with, build_from,
}
use whad_lib.Protocol.Buffer.{Buffer, Field, memcpy, copy_buffer}
use whad_lib.Protocol.Ble.{AdvMode, SendPdu, BleMessage}
use whad_lib.Protocol.Message.{Message, ble_msg}
use whad_lib.Ble.{both}
use whad_lib.Ble.View.{BleView}

-- Advertising data of `length` bytes over the data of the message: nothing is written where the length
-- is not positive, and at most 31 bytes are.
unfoldable pub write_adv : List ℕ → ℤ → Buffer → Buffer
write_adv src (negsuc n) old = old
write_adv src (pos zero) old = old
write_adv src (pos (suc n)) old =
    copy_buffer (record { size = if ltb 31 (suc n) then 31 else suc n; bytes = src }) old

-- An optional field that is written where the argument is not zero, and left as it was otherwise.
unfoldable pub set_nonzero : ℕ → Field ℕ → Field ℕ
set_nonzero zero old = old
set_nonzero (suc n) old = record { present = true; value = suc n }

unfoldable pub set_map : Option (List ℕ) → Field (List ℕ) → Field (List ℕ)
set_map none old = old
set_map (some c) old = record { present = true; value = take 5 c }

-- The argument lists of the two functions with advertising data.
unfoldable pub write_adv_data : List ℕ → ℤ → List ℕ → ℤ → AdvMode → AdvMode
write_adv_data adv adv_length scanrsp scanrsp_length old = record {
  scan_data = write_adv adv adv_length old.scan_data;
  scanrsp_data = write_adv scanrsp scanrsp_length old.scanrsp_data;
}

-- The size is written before it is checked.
unfoldable pub write_pattern : List ℕ → ℤ → Buffer → Status × Buffer
write_pattern pattern (negsuc n) old =
    (success, record { size = 2 ^ 16 - 1 - n % 2 ^ 16; bytes = old.bytes })
write_pattern pattern (pos n) old =
    if ltb 20 n
    then (error, record { size = n % 2 ^ 16; bytes = old.bytes })
    else (success, copy_buffer (record { size = n; bytes = pattern }) old)

-- `view` is how a message reads.
module _ (view : Message → BleView) where
  unfoldable pub write_adv_mode :
      Option Message → Option (List ℕ) → ℤ → Option (List ℕ) → ℤ → Status × Option Message
  write_adv_mode m p_adv adv_length p_scanrsp scanrsp_length =
      build_from
        (λ (p : List ℕ × List ℕ) m. (
          success,
          ble_msg (
              BleMessage.adv_mode
                (write_adv_data p.0 adv_length p.1 scanrsp_length (view m).adv_mode)),
        ))
        m (both p_adv p_scanrsp)

  -- The data are written through `adv_mode`, whose struct is that of `periph_mode`.
  unfoldable pub peripheral_mode :
      Option Message → Option (List ℕ) → ℤ → Option (List ℕ) → ℤ → Status × Option Message
  peripheral_mode m p_adv adv_length p_scanrsp scanrsp_length =
      build_from
        (λ (p : List ℕ × List ℕ) m. (
          success,
          ble_msg (
              BleMessage.periph_mode
                (write_adv_data p.0 adv_length p.1 scanrsp_length (view m).adv_mode)),
        ))
        m (both p_adv p_scanrsp)

  -- Not written yet in the source: the tags are set, and the result is an error.
  unfoldable pub write_set_adv_data :
      Option Message → Option (List ℕ) → Option (List ℕ) → Status × Option Message
  write_set_adv_data m p_adv p_scanrsp =
      build_from (λ p m. (error, ble_msg BleMessage.set_adv_data)) m (both p_adv p_scanrsp)

  unfoldable pub connect_to :
      Option Message
      → Option (List ℕ)
      → ℕ
      → ℕ
      → Option (List ℕ)
      → ℕ
      → ℕ
      → ℕ
      → Status × Option Message
  connect_to m p_bdaddr addr_type access_address p_channelmap hop_interval hop_increment crc_init =
      build_from
        (λ a m. (
          success,
          ble_msg (
              BleMessage.connect (record {
                bd_address = take 6 a;
                addr_type = addr_type;
                access_address = set_nonzero access_address (view m).connect.access_address;
                channel_map = set_map p_channelmap (view m).connect.channel_map;
                hop_interval = set_nonzero hop_interval (view m).connect.hop_interval;
                hop_increment = set_nonzero hop_increment (view m).connect.hop_increment;
                crc_init = set_nonzero crc_init (view m).connect.crc_init;
              })),
        ))
        m p_bdaddr

  -- The size in the message is not written. A PDU of more than 300 bytes is written past the array, and
  -- a negative length is copied as a huge one: `none`.
  unfoldable pub write_send_raw_pdu :
      Option Message → ℕ → ℕ → ℕ → Option (List ℕ) → ℤ → ℕ → Bool → Option (Status × Option Message)
  write_send_raw_pdu none direction conn_handle access_address p_pdu length crc encrypt =
      some (error, none)
  write_send_raw_pdu (some m) direction conn_handle access_address none length crc encrypt =
      some (error, some m)
  write_send_raw_pdu (some m) direction conn_handle access_address (some p) (negsuc n) crc encrypt =
      none
  write_send_raw_pdu (some m) direction conn_handle access_address (some p) (pos n) crc encrypt =
      if ltb 300 n
      then none
      else some (
        success,
        some (
            ble_msg (
              BleMessage.send_raw_pdu (record {
                direction = direction;
                conn_handle = conn_handle;
                access_address = access_address;
                pdu = record {
                  size = (view m).send_raw_pdu.pdu.size;
                  bytes = memcpy n p (view m).send_raw_pdu.pdu.bytes;
                };
                crc = crc;
                encrypt = encrypt;
              }))),
      )

  unfoldable pub write_reactive_jam : Option Message → ℕ → List ℕ → ℤ → ℕ → Status × Option Message
  write_reactive_jam m channel pattern length position =
      build_with
        (λ m.
          let (status, written) = write_pattern pattern length (view m).reactive_jam.pattern in
          (
            status,
            ble_msg (
                BleMessage.reactive_jam
                  (record { channel = channel; pattern = written; position = position })),
          ))
        m

  -- The bytes are written through `send_raw_pdu`, whose PDU stands elsewhere: `overlap n bytes` is how
  -- the member reads once `n` bytes were written there. The array there has 300 bytes, and no size is
  -- written.
  unfoldable pub write_send_pdu :
      (ℕ → List ℕ → SendPdu → SendPdu)
      → Option Message
      → ℕ
      → ℕ
      → Option (List ℕ)
      → ℤ
      → Bool
      → Option (Status × Option Message)
  write_send_pdu overlap none direction conn_handle p_pdu length encrypt = some (error, none)
  write_send_pdu overlap (some m) direction conn_handle none length encrypt = some (error, some m)
  write_send_pdu overlap (some m) direction conn_handle (some p) (negsuc n) encrypt = none
  write_send_pdu overlap (some m) direction conn_handle (some p) (pos n) encrypt =
      if ltb 300 n
      then none
      else some (
        success,
        some (
            ble_msg (
              BleMessage.send_pdu (
                overlap n p (record {
                  direction = direction;
                  conn_handle = conn_handle;
                  pdu = (view m).send_pdu.pdu;
                  encrypt = encrypt;
                })))),
      )
