-- ===== src/Ble/Tests.antt =====
-- The theorems on a BLE message whose other members read as zero.
use whad_lib.Prelude.{
  ℕ, ◌≡◌, ◌≤◌, ◌<◌, refl, false, List, [], ◌∷◌, replicate, map, take, none, some, success, arith,
  pos, Gives,
}
use whad_lib.Protocol.Buffer.{Buffer, IsFull, memcpy}
use whad_lib.Protocol.Message.{Message, unset}
use whad_lib.Ble.Modes.{write_adv_mode, peripheral_mode, connect_to, write_send_raw_pdu}
use whad_lib.Ble.Parse.{
  AdvParams, adv_mode_parse, peripheral_mode_parse, ConnectParams, connect_to_parse, PduParams,
  send_raw_pdu_parse,
}
use whad_lib.Ble.Exact.{connect_exact, send_raw_pdu_exact, or_before, map_or_before}
use whad_lib.Ble.Advertising.{advertising_exact, seen_adv, shown}
use whad_lib.Ble.Sequence.{
  PrepseqParams, manual_trigger, connevt_trigger, contents_of, prepare_sequence_manual,
  prepare_sequence_conn_evt, get_trigger_type, prepare_sequence_manual_parse,
  prepare_sequence_conn_evt_parse,
}
use whad_lib.Ble.Sequences.{sequence_exact, seen_sequence, AllFit}
use whad_lib.Ble.ZeroView.{no_bytes, zero_view, zero_view-IsView}

abbrev flags_and_name : List ℕ
flags_and_name = 2 ∷ 1 ∷ 6 ∷ 3 ∷ 9 ∷ 119 ∷ 104 ∷ []

abbrev no_adv_params : AdvParams
no_adv_params = record { adv = no_bytes; scanrsp = no_bytes }

advertising_exact_example :
    let built =
      write_adv_mode zero_view
        (some unset)
        (some flags_and_name)
        (pos 7)
        (some (replicate 31 1))
        (pos 31) in
    let periph =
      peripheral_mode zero_view
        (some unset)
        (some flags_and_name)
        (pos 7)
        (some (replicate 31 1))
        (pos 31) in
    (built.0 ≡ success)
    × Gives seen_adv
        (adv_mode_parse zero_view built.1 (some no_adv_params))
        (shown 7 flags_and_name, shown 31 (replicate 31 1))
    × (periph.0 ≡ success)
    × Gives seen_adv
        (peripheral_mode_parse zero_view periph.1 (some no_adv_params))
        (shown 7 flags_and_name, shown 31 (replicate 31 1))
advertising_exact_example =
    advertising_exact zero_view zero_view-IsView unset flags_and_name (replicate 31 1) 7 31
      no_adv_params (omega arith) (omega arith) (omega arith) (omega arith)

-- The 31 bytes of the scan response are lost.
shown_full : shown 31 (replicate 31 1) ≡ replicate 31 0
unfolding shown
shown_full = refl

abbrev peer : List ℕ
peer = 17 ∷ 34 ∷ 51 ∷ 68 ∷ 85 ∷ 102 ∷ []

abbrev no_connect_params : ConnectParams
no_connect_params = record {
  bdaddr = [];
  addr_type = 0;
  access_address = 0;
  channelmap = [];
  hop_interval = 0;
  hop_increment = 0;
  crc_init = 0;
}

connect_exact_example :
    let built = connect_to zero_view (some unset) (some peer) 1 0 none 56 7 0 in
    let before = (zero_view unset).connect in
    (built.0 ≡ success)
    × (connect_to_parse zero_view built.1 (some no_connect_params) ≡ (
      success,
      some (record {
        bdaddr = take 6 peer;
        addr_type = 1;
        access_address = or_before 0 before.access_address;
        channelmap = map_or_before none before.channel_map;
        hop_interval = or_before 56 before.hop_interval;
        hop_increment = or_before 7 before.hop_increment;
        crc_init = or_before 0 before.crc_init;
      }),
    ))
connect_exact_example =
    connect_exact zero_view zero_view-IsView unset peer 1 0 none 56 7 0 no_connect_params

abbrev no_pdu_params : PduParams
no_pdu_params = record {
  direction = 0;
  conn_handle = 0;
  access_address = 0;
  pdu = no_bytes;
  crc = 0;
  encrypt = false;
}

send_raw_pdu_exact_example :
    (3 ≤ 300
      → (made : Message) × (write_send_raw_pdu zero_view
            (some unset)
            1
            1
            2864434397
            (some (3 ∷ 1 ∷ 18 ∷ []))
            (pos 3)
            0
            false
          ≡ some (success, some made))
        × (send_raw_pdu_parse zero_view (some made) (some no_pdu_params) ≡ (
          success,
          some (record {
            direction = 1;
            conn_handle = 1;
            access_address = 2864434397;
            pdu = record {
              size = (zero_view unset).send_raw_pdu.pdu.size;
              bytes = memcpy 3 (3 ∷ 1 ∷ 18 ∷ []) (zero_view unset).send_raw_pdu.pdu.bytes;
            };
            crc = 0;
            encrypt = false;
          }),
        )))
    × (300 < 3
        → write_send_raw_pdu zero_view
            (some unset)
            1
            1
            2864434397
            (some (3 ∷ 1 ∷ 18 ∷ []))
            (pos 3)
            0
            false
          ≡ none)
send_raw_pdu_exact_example =
    send_raw_pdu_exact zero_view zero_view-IsView unset 1 1 2864434397 0 3 (3 ∷ 1 ∷ 18 ∷ []) false
      no_pdu_params

abbrev two_packets : List Buffer
two_packets =
    record { size = 2; bytes = 10 ∷ 11 ∷ [] } ∷ record { size = 1; bytes = 12 ∷ 0 ∷ [] } ∷ []

two_packets-AllFit : AllFit two_packets
unfolding AllFit IsFull
two_packets-AllFit =
    (omega arith, omega arith, omega arith, (omega arith, omega arith, omega arith, tt))

abbrev no_sequence : PrepseqParams
no_sequence = record { id = 0; conn_evt = 0; direction = 0; packets = []; packet_count = 0 }

sequence_exact_example :
    ((made : Message) × (prepare_sequence_manual zero_view (some unset) 5 1 (some two_packets) 2
        ≡ some (success, some made))
      × (get_trigger_type zero_view (some made) (some connevt_trigger)
          ≡ (success, some manual_trigger))
      × Gives seen_sequence
          (prepare_sequence_manual_parse zero_view (some made) (some no_sequence))
          (5, 0, 1, map contents_of two_packets, 0))
    × ((made : Message) × (prepare_sequence_conn_evt zero_view
            (some unset)
            300
            5
            1
            (some two_packets)
            2
          ≡ some (success, some made))
        × (get_trigger_type zero_view (some made) (some connevt_trigger)
            ≡ (success, some connevt_trigger))
        × Gives seen_sequence
            (prepare_sequence_conn_evt_parse zero_view 0 (some made) (some no_sequence))
            (5, 300, 1, map contents_of two_packets, 0))
sequence_exact_example =
    sequence_exact zero_view zero_view-IsView unset 5 1 300 0 two_packets no_sequence
      connevt_trigger two_packets-AllFit (omega arith)
