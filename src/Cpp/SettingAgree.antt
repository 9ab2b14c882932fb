-- ===== src/Cpp/SettingAgree.antt =====
-- What the C functions of each class with one value read of what they wrote.
use whad_lib.Prelude.{◌∙◌, ◌+◌, ◌*◌, ℕ, ◌<◌, ◌^◌, refl, ap, Bool, false, some, success}
use whad_lib.Protocol.Dot15d4.{EdSample}
use whad_lib.Protocol.Phy.{LoraParams, Timestamp}
use whad_lib.Protocol.Ble.{BleMessage, Injected, Disconnected}
use whad_lib.Ble.Events
use whad_lib.Ble.Parse as BleParse
use whad_lib.Ble.View as BleReads
use whad_lib.Cpp.RadioClasses
use whad_lib.Cpp.PhyClasses
use whad_lib.Cpp.BleClasses
use whad_lib.Protocol.Message.{unset}
use whad_lib.Esb
use whad_lib.Unifying
use whad_lib.Dot15d4
use whad_lib.Phy
use whad_lib.Ble
use whad_lib.Esb.Exact as EsbExact
use whad_lib.Unifying.Exact as UnifyingExact
use whad_lib.Dot15d4.Exact as Dot15d4Exact
use whad_lib.Phy.Exact as PhyExact
use whad_lib.Phy.Time.{timestamp_exact, jammed_timestamp_lem}
use whad_lib.Phy.View as PhyReads
use whad_lib.Phy.Parse as PhyParse
use whad_lib.Protocol.Phy.{PhyMessage}
use whad_lib.Ble.Exact as BleExact
use whad_lib.Cpp.SettingKinds.{Views, AreViews, Number, Flag, number_calls, flag_calls}
use whad_lib.Cpp.SettingLaws.{Agree}

abbrev no_sample : EdSample
no_sample = record { sample = 0; timestamp = 0 }

abbrev no_lora : LoraParams
no_lora = record {
  bandwidth = 0;
  sf = 0;
  cr = 0;
  preamble_length = 0;
  enable_crc = false;
  explicit_mode = false;
  invert_iq = false;
}

module _ (v : Views) (are : AreViews v) where
  pub number_Agree : (n : Number) (x old : ℕ) → x < 2 ^ 32 → Agree (number_calls v n) x old x
  unfolding AreViews Agree Esb.write Unifying.write Dot15d4.write Phy.write Ble.write Esb.write_jam
      Esb.write_prx Esb.write_ptx Esb.write_jammed Unifying.write_jam Unifying.dongle_mode
      Unifying.keyboard_mode Unifying.mouse_mode Dot15d4.write_sniff Dot15d4.write_jam
      Dot15d4.energy_detect Dot15d4.end_device_mode Dot15d4.router_mode Dot15d4.coord_mode
      Dot15d4.mitm_mode Dot15d4.write_jammed Phy.set_fsk_mod Phy.set_4fsk_mod Phy.set_gfsk_mod
      Phy.set_msk_mod Phy.set_datarate Phy.set_endianness Phy.set_tx_power Phy.set_packet_size
      Phy.jam_mode Phy.sched_packet_sent Ble.write_disconnect Ble.write_hijack_master
      Ble.write_hijack_slave Ble.write_hijack_both Ble.prepare_sequence_trigger Ble.write_triggered
      Ble.write_desynchronized
  number_Agree Number.esb_jam_mode x old small =
      (_, refl, (EsbExact.channels-read v.esb are.0 unset x x old small).0)
  number_Agree Number.esb_prx_mode x old small =
      (_, refl, (EsbExact.channels-read v.esb are.0 unset x x old small).1)
  number_Agree Number.esb_ptx_mode x old small =
      (_, refl, (EsbExact.channels-read v.esb are.0 unset x x old small).2)
  number_Agree Number.esb_jammed x old small =
      (_, refl, (EsbExact.channels-read v.esb are.0 unset x x old small).3)
  number_Agree Number.unifying_jam_mode x old small =
      (_, refl, (UnifyingExact.modes-read v.unifying are.1 unset x x old small).0)
  number_Agree Number.unifying_dongle_mode x old small =
      (_, refl, (UnifyingExact.modes-read v.unifying are.1 unset x x old small).1)
  number_Agree Number.unifying_keyboard_mode x old small =
      (_, refl, (UnifyingExact.modes-read v.unifying are.1 unset x x old small).2)
  number_Agree Number.unifying_mouse_mode x old small =
      (_, refl, (UnifyingExact.modes-read v.unifying are.1 unset x x old small).3)
  number_Agree Number.unifying_jammed x old small =
      (_, refl, (UnifyingExact.modes-read v.unifying are.1 unset x x old small).0)
  number_Agree Number.dot15d4_sniff_mode x old small =
      (_, refl, (Dot15d4Exact.settings-read v.dot15d4 are.2 unset x x old no_sample small).0)
  number_Agree Number.dot15d4_jam_mode x old small =
      (_, refl, (Dot15d4Exact.settings-read v.dot15d4 are.2 unset x x old no_sample small).1)
  number_Agree Number.dot15d4_energy_detect x old small =
      (_, refl, (Dot15d4Exact.settings-read v.dot15d4 are.2 unset x x old no_sample small).2)
  number_Agree Number.dot15d4_end_device_mode x old small =
      (_, refl, (Dot15d4Exact.settings-read v.dot15d4 are.2 unset x x old no_sample small).3)
  number_Agree Number.dot15d4_router_mode x old small =
      (_, refl, (Dot15d4Exact.settings-read v.dot15d4 are.2 unset x x old no_sample small).4)
  number_Agree Number.dot15d4_coord_mode x old small =
      (_, refl, (Dot15d4Exact.settings-read v.dot15d4 are.2 unset x x old no_sample small).5)
  number_Agree Number.dot15d4_mitm_mode x old small =
      (_, refl, (Dot15d4Exact.settings-read v.dot15d4 are.2 unset x x old no_sample small).6)
  number_Agree Number.dot15d4_jammed x old small =
      (_, refl, (Dot15d4Exact.settings-read v.dot15d4 are.2 unset x x old no_sample small).7)
  number_Agree Number.phy_set_fsk_mod x old small =
      (_, refl, (PhyExact.commands-read v.phy are.3 unset x 0 false false no_lora no_lora).0)
  number_Agree Number.phy_set_4fsk_mod x old small =
      (_, refl, (PhyExact.commands-read v.phy are.3 unset x 0 false false no_lora no_lora).1)
  number_Agree Number.phy_set_gfsk_mod x old small =
      (_, refl, (PhyExact.commands-read v.phy are.3 unset x 0 false false no_lora no_lora).2)
  number_Agree Number.phy_set_msk_mod x old small =
      (_, refl, (PhyExact.commands-read v.phy are.3 unset x 0 false false no_lora no_lora).3)
  number_Agree Number.phy_set_datarate x old small =
      (_, refl, (PhyExact.commands-read v.phy are.3 unset x old false false no_lora no_lora).5)
  number_Agree Number.phy_set_endianness x old small =
      (_, refl, (PhyExact.commands-read v.phy are.3 unset x old false false no_lora no_lora).6)
  number_Agree Number.phy_set_tx_power x old small =
      (_, refl, (PhyExact.commands-read v.phy are.3 unset x old false false no_lora no_lora).7)
  number_Agree Number.phy_set_packet_size x old small =
      (_, refl, (PhyExact.commands-read v.phy are.3 unset x old false false no_lora no_lora).8)
  number_Agree Number.phy_jam_mode x old small =
      (_, refl, (PhyExact.commands-read v.phy are.3 unset x old false false no_lora no_lora).9)
  number_Agree Number.phy_scheduled_packet_sent x old small =
      (_, refl, (PhyExact.commands-read v.phy are.3 unset x old false false no_lora no_lora).10)
  number_Agree Number.ble_disconnect x old small =
      (_, refl, (BleExact.numbers-read v.ble are.4 unset x old false false).2)
  number_Agree Number.ble_hijack_master x old small =
      (_, refl, (BleExact.numbers-read v.ble are.4 unset x 0 false false).3)
  number_Agree Number.ble_hijack_slave x old small =
      (_, refl, (BleExact.numbers-read v.ble are.4 unset x 0 false false).4)
  number_Agree Number.ble_hijack_both x old small =
      (_, refl, (BleExact.numbers-read v.ble are.4 unset x 0 false false).5)
  number_Agree Number.ble_manual_trigger x old small =
      (_, refl, (BleExact.numbers-read v.ble are.4 unset x old false false).6)
  number_Agree Number.ble_sequence_triggered x old small =
      (_, refl, (BleExact.numbers-read v.ble are.4 unset x old false false).7)
  number_Agree Number.ble_desynchronized x old small =
      (_, refl, (BleExact.numbers-read v.ble are.4 unset x old false false).8)

  pub flag_Agree : (f : Flag) (x old : Bool) → Agree (flag_calls v f) x old x
  unfolding AreViews Agree Phy.write Phy.set_ask_mod Phy.set_qpsk_mod Phy.sniff_mode Ble.write
      Ble.write_scan_mode
  flag_Agree Flag.phy_set_ask_mod x old =
      (_, refl, (PhyExact.commands-read v.phy are.3 unset 0 0 x old no_lora no_lora).11)
  flag_Agree Flag.phy_set_qpsk_mod x old =
      (_, refl, (PhyExact.commands-read v.phy are.3 unset 0 0 x old no_lora no_lora).12)
  flag_Agree Flag.phy_sniff_mode x old =
      (_, refl, (PhyExact.commands-read v.phy are.3 unset 0 0 x old no_lora no_lora).13)
  flag_Agree Flag.ble_scan_mode x old =
      (_, refl, (BleExact.numbers-read v.ble are.4 unset 0 0 x old).9)

  pub lora_Agree : (x old : LoraParams) → Agree (PhyClasses.phy_set_lora_mod v.phy) x old x
  unfolding AreViews Agree Phy.write Phy.set_lora_mod
  lora_Agree x old = (_, refl, (PhyExact.commands-read v.phy are.3 unset 0 0 false false x old).14)

  pub sample_Agree :
      (x old : EdSample)
      → x.timestamp < 2 ^ 32
      → Agree (RadioClasses.dot15d4_energy_sample v.dot15d4) x old x
  unfolding AreViews Agree Dot15d4.write Dot15d4.energy_detect_sample
  sample_Agree x old small = (
    _,
    refl,
    (Dot15d4Exact.settings-read v.dot15d4 are.2 unset x.sample x.timestamp 0 old small).8,
  )

  pub time_Agree :
      (x old : Timestamp)
      → x.ts_usec < 1000000
      → x.ts_sec * 1000000 + x.ts_usec < 2 ^ 32
      → Agree (PhyClasses.phy_jammed v.phy) x old x
  unfolding AreViews PhyReads.IsView PhyReads.Holds Agree Phy.write Phy.write_jammed
      PhyParse.jammed_parse
  time_Agree x old small short = (
    _,
    refl,
    ap (λ t. (success, some (PhyParse.from_timestamp t)))
          (are.3 (PhyMessage.jammed (Phy.jammed_timestamp x.ts_sec x.ts_usec))
            ∙ jammed_timestamp_lem x.ts_sec x.ts_usec)
        ∙ ap (λ t. (success, some t)) ((timestamp_exact x.ts_sec x.ts_usec).1 (small, short)),
  )

  pub injected_Agree : (x old : Injected) → Agree (BleClasses.ble_injected v.ble) x old x
  unfolding AreViews BleReads.IsView BleReads.Holds Agree Ble.write Events.write_injected
      BleParse.injected_parse
  injected_Agree x old = (_, refl, ap (λ i. (success, some i)) (are.4 (BleMessage.injected x)))

  pub disconnected_Agree :
      (x old : Disconnected) → Agree (BleClasses.ble_disconnected v.ble) x old old
  unfolding Agree Ble.write Events.notify_disconnected BleParse.notify_disconnected_parse
  disconnected_Agree x old = (_, refl, refl)

  pub freq_Agree : (x old : ℕ) → Agree (PhyClasses.phy_set_freq v.phy) x old x
  unfolding AreViews Agree Phy.write Phy.write_freq
  freq_Agree x old =
      (_, refl, (PhyExact.commands-read v.phy are.3 unset x old false false no_lora no_lora).4)
