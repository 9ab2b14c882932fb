-- ===== src/Ble/Exact.antt =====
-- Which BLE commands and reports the functions make, and what their parsers make of them.
use whad_lib.Prelude.{
  ℕ, zero, suc, ◌≡◌, ◌≤◌, ◌<◌, refl, ap, ◌∙◌, Bool, List, replicate, take, Option, none, some,
  success, pos,
}
use whad_lib.Protocol.Buffer.{Field, memcpy}
use whad_lib.Protocol.Ble.{BleMessage, SendRawPdu, Encryption}
use whad_lib.Protocol.Message.{Message, ble_msg}
use whad_lib.Radio.Laws.{if_within, if_beyond}
use whad_lib.Ble.View.{BleView, Holds, IsView}
use whad_lib.Ble.{
  write, jam_adv_channel, jam_active_conn, write_disconnect, write_hijack_master,
  write_hijack_slave, write_hijack_both, prepare_sequence_trigger, write_triggered,
  write_desynchronized, write_scan_mode, set_encryption,
}
use whad_lib.Ble.Modes.{connect_to, set_nonzero, set_map, write_send_raw_pdu}
use whad_lib.Ble.Parse.{
  jam_adv_channel_parse, jam_active_conn_parse, disconnect_parse, hijack_master_parse,
  hijack_slave_parse, hijack_both_parse, prepare_sequence_trigger_parse, triggered_parse,
  desynchronized_parse, scan_mode_parse, set_encryption_parse, connect_to_parse, read_connect,
  or_zero, ConnectParams, PduParams, send_raw_pdu_parse,
}

-- What a connection request gives for a number of the message.
unfoldable pub or_before : ℕ → Field ℕ → ℕ
or_before zero before = or_zero 0 before
or_before (suc n) before = suc n

unfoldable pub map_or_before : Option (List ℕ) → Field (List ℕ) → List ℕ
map_or_before none before = or_zero (replicate 5 0) before
map_or_before (some c) before = take 5 c

nonzero-read : (n : ℕ) (before : Field ℕ) → or_zero 0 (set_nonzero n before) ≡ or_before n before
unfolding set_nonzero or_before or_zero
nonzero-read zero before = refl
nonzero-read (suc n) before = refl

map-read :
    (c : Option (List ℕ)) (before : Field (List ℕ))
    → or_zero (replicate 5 0) (set_map c before) ≡ map_or_before c before
unfolding set_map map_or_before or_zero
map-read none before = refl
map-read (some c) before = refl

module _ (view : Message → BleView) (reads : IsView view) where
  -- Whatever the message held before, the commands and the reports of one number are read as they were
  -- written.
  pub numbers-read :
      (m : Message) (value old : ℕ) (flag before : Bool)
      → (jam_adv_channel_parse view (jam_adv_channel (some m) value).1 (some old)
          ≡ (success, some value))
        × (jam_active_conn_parse view (jam_active_conn (some m) value).1 (some old)
            ≡ (success, some value))
        × (disconnect_parse view (write_disconnect (some m) value).1 (some old)
            ≡ (success, some value))
        × (hijack_master_parse view (write_hijack_master (some m) value).1 (some old)
            ≡ (success, some value))
        × (hijack_slave_parse view (write_hijack_slave (some m) value).1 (some old)
            ≡ (success, some value))
        × (hijack_both_parse view (write_hijack_both (some m) value).1 (some old)
            ≡ (success, some value))
        × (prepare_sequence_trigger_parse view
              (prepare_sequence_trigger (some m) value).1
              (some old)
            ≡ (success, some value))
        × (triggered_parse view (write_triggered (some m) value).1 (some old)
            ≡ (success, some value))
        × (desynchronized_parse view (write_desynchronized (some m) value).1 (some old)
            ≡ (success, some value))
        × (scan_mode_parse view (write_scan_mode (some m) flag).1 (some before)
            ≡ (success, some flag))
  unfolding IsView Holds write write_scan_mode scan_mode_parse jam_adv_channel jam_active_conn
      write_disconnect write_hijack_master write_hijack_slave write_hijack_both
      prepare_sequence_trigger write_triggered write_desynchronized jam_adv_channel_parse
      jam_active_conn_parse disconnect_parse hijack_master_parse hijack_slave_parse
      hijack_both_parse prepare_sequence_trigger_parse triggered_parse desynchronized_parse
  numbers-read m value old flag before = (
    ap (λ c. (success, some c)) (reads (BleMessage.jam_adv_chan value)),
    ap (λ c. (success, some c)) (reads (BleMessage.jam_conn value)),
    ap (λ c. (success, some c)) (reads (BleMessage.disconnect value)),
    ap (λ c. (success, some c)) (reads (BleMessage.hijack_master value)),
    ap (λ c. (success, some c)) (reads (BleMessage.hijack_slave value)),
    ap (λ c. (success, some c)) (reads (BleMessage.hijack_both value)),
    ap (λ c. (success, some c)) (reads (BleMessage.trigger value)),
    ap (λ c. (success, some c)) (reads (BleMessage.triggered value)),
    ap (λ c. (success, some c)) (reads (BleMessage.desynchronized value)),
    ap (λ b. (success, some b)) (reads (BleMessage.scan_mode flag)),
  )

  -- The key material of an encryption command is read as it was given: keys of 16 bytes, vectors and
  -- random numbers of 8, and a diversifier of 2.
  pub encryption_exact :
      (m : Message) (conn_handle : ℕ) (enabled : Bool) (ll_key ll_iv key rand ediv : List ℕ)
      (old : Encryption)
      → let built =
          set_encryption
            (some m)
            conn_handle
            enabled
            (some ll_key)
            (some ll_iv)
            (some key)
            (some rand)
            (some ediv) in
        set_encryption_parse view built.1 (some old) ≡ (
          success,
          some (record {
            conn_handle = conn_handle;
            enabled = enabled;
            ll_key = take 16 ll_key;
            ll_iv = take 8 ll_iv;
            key = take 16 key;
            rand = take 8 rand;
            ediv = take 2 ediv;
          }),
        )
  unfolding IsView Holds set_encryption set_encryption_parse
  encryption_exact m conn_handle enabled ll_key ll_iv key rand ediv old =
      ap (λ e. (success, some e))
        (reads (
          BleMessage.encryption (record {
            conn_handle = conn_handle;
            enabled = enabled;
            ll_key = take 16 ll_key;
            ll_iv = take 8 ll_iv;
            key = take 16 key;
            rand = take 8 rand;
            ediv = take 2 ediv;
          })))

  -- A number of a connection request that is zero, and a map of channels that is NULL, are not written,
  -- nor is their flag cleared: what is read is what the memory of the message says of them.
  pub connect_exact :
      (m : Message) (bdaddr : List ℕ) (addr_type address : ℕ) (channelmap : Option (List ℕ))
      (interval increment crc_init : ℕ) (old : ConnectParams)
      → let built =
          connect_to view
            (some m)
            (some bdaddr)
            addr_type
            address
            channelmap
            interval
            increment
            crc_init in
        let before = (view m).connect in
        (built.0 ≡ success)
        × (connect_to_parse view built.1 (some old) ≡ (
          success,
          some (record {
            bdaddr = take 6 bdaddr;
            addr_type = addr_type;
            access_address = or_before address before.access_address;
            channelmap = map_or_before channelmap before.channel_map;
            hop_interval = or_before interval before.hop_interval;
            hop_increment = or_before increment before.hop_increment;
            crc_init = or_before crc_init before.crc_init;
          }),
        ))
  unfolding IsView Holds connect_to connect_to_parse read_connect
  connect_exact m bdaddr addr_type address channelmap interval increment crc_init old =
      let before = (view m).connect in
      (
        refl,
        ap (λ c. (success, some (read_connect c)))
              (reads (
                BleMessage.connect (record {
                  bd_address = take 6 bdaddr;
                  addr_type = addr_type;
                  access_address = set_nonzero address before.access_address;
                  channel_map = set_map channelmap before.channel_map;
                  hop_interval = set_nonzero interval before.hop_interval;
                  hop_increment = set_nonzero increment before.hop_increment;
                  crc_init = set_nonzero crc_init before.crc_init;
                })))
            ∙ simp (
              nonzero-read address before.access_address,
              map-read channelmap before.channel_map,
              nonzero-read interval before.hop_interval,
              nonzero-read increment before.hop_increment,
              nonzero-read crc_init before.crc_init,
            ),
      )

  -- The size of a raw PDU to send is not written: its bytes are, and the parser gives as many of them
  -- as the memory of the message says. A PDU of more than 300 bytes is written past its array.
  pub send_raw_pdu_exact :
      (m : Message) (direction conn_handle address crc n : ℕ) (pdu : List ℕ) (encrypt : Bool)
      (old : PduParams)
      → (n ≤ 300
          → (made : Message) × (write_send_raw_pdu view
                (some m)
                direction
                conn_handle
                address
                (some pdu)
                (pos n)
                crc
                encrypt
              ≡ some (success, some made))
            × (send_raw_pdu_parse view (some made) (some old) ≡ (
              success,
              some (record {
                direction = direction;
                conn_handle = conn_handle;
                access_address = address;
                pdu = record {
                  size = (view m).send_raw_pdu.pdu.size;
                  bytes = memcpy n pdu (view m).send_raw_pdu.pdu.bytes;
                };
                crc = crc;
                encrypt = encrypt;
              }),
            )))
        × (300 < n
            → write_send_raw_pdu view
                (some m)
                direction
                conn_handle
                address
                (some pdu)
                (pos n)
                crc
                encrypt
              ≡ none)
  unfolding IsView Holds write_send_raw_pdu send_raw_pdu_parse
  send_raw_pdu_exact m direction conn_handle address crc n pdu encrypt old = (
    (λ fits.
        let cmd : SendRawPdu = record {
          direction = direction;
          conn_handle = conn_handle;
          access_address = address;
          pdu = record {
            size = (view m).send_raw_pdu.pdu.size;
            bytes = memcpy n pdu (view m).send_raw_pdu.pdu.bytes;
          };
          crc = crc;
          encrypt = encrypt;
        } in
        (
          ble_msg (BleMessage.send_raw_pdu cmd),
          if_within 300 n _ _ fits,
          ap
              (λ (c : SendRawPdu). (
                success,
                some (record {
                  direction = c.direction;
                  conn_handle = c.conn_handle;
                  access_address = c.access_address;
                  pdu = c.pdu;
                  crc = c.crc;
                  encrypt = c.encrypt;
                }),
              ))
              (reads (BleMessage.send_raw_pdu cmd)),
        )),
    (λ long. if_beyond 300 n _ _ long),
  )
