-- ===== src/Cpp/SettingKinds.antt =====
-- The classes whose objects hold one number or one flag, by their names, and how a message reads in each
-- of their domains.
use whad_lib.Prelude.{ℕ, Bool}
use whad_lib.Protocol.Message.{Message}
use whad_lib.Esb.View as EsbReads
use whad_lib.Unifying.View as UnifyingReads
use whad_lib.Dot15d4.View as Dot15d4Reads
use whad_lib.Phy.View as PhyReads
use whad_lib.Ble.View as BleReads
use whad_lib.Cpp.RadioClasses
use whad_lib.Cpp.PhyClasses
use whad_lib.Cpp.BleClasses
use whad_lib.Cpp.Setting.{Calls}

-- How a message reads in each domain.
pub record Views : Type 0 where
  pub esb : Message → EsbReads.EsbView
  pub unifying : Message → UnifyingReads.UnifyingView
  pub dot15d4 : Message → Dot15d4Reads.Dot15d4View
  pub phy : Message → PhyReads.PhyView
  pub ble : Message → BleReads.BleView

unfoldable pub AreViews : Views → Type 0
AreViews v =
    EsbReads.IsView v.esb
    × UnifyingReads.IsView v.unifying
    × Dot15d4Reads.IsView v.dot15d4
    × PhyReads.IsView v.phy
    × BleReads.IsView v.ble

-- The classes of one number whose second constructor takes a message of the domain and unpacks it.
pub data Number : Type 0 where
  esb_jam_mode esb_prx_mode esb_ptx_mode esb_jammed unifying_jam_mode unifying_dongle_mode
        unifying_keyboard_mode unifying_mouse_mode unifying_jammed dot15d4_sniff_mode
        dot15d4_jam_mode dot15d4_energy_detect dot15d4_end_device_mode dot15d4_router_mode
        dot15d4_coord_mode dot15d4_mitm_mode dot15d4_jammed phy_set_fsk_mod phy_set_4fsk_mod
        phy_set_gfsk_mod phy_set_msk_mod phy_set_datarate phy_set_endianness phy_set_tx_power
        phy_set_packet_size phy_jam_mode phy_scheduled_packet_sent ble_disconnect ble_hijack_master
        ble_hijack_slave ble_hijack_both ble_manual_trigger ble_sequence_triggered
        ble_desynchronized :
      Number

abbrev pub number_calls : Views → Number → Calls ℕ
number_calls v Number.esb_jam_mode = RadioClasses.esb_jam_mode v.esb
number_calls v Number.esb_prx_mode = RadioClasses.esb_prx_mode v.esb
number_calls v Number.esb_ptx_mode = RadioClasses.esb_ptx_mode v.esb
number_calls v Number.esb_jammed = RadioClasses.esb_jammed v.esb
number_calls v Number.unifying_jam_mode = RadioClasses.unifying_jam_mode v.unifying
number_calls v Number.unifying_dongle_mode = RadioClasses.unifying_dongle_mode v.unifying
number_calls v Number.unifying_keyboard_mode = RadioClasses.unifying_keyboard_mode v.unifying
number_calls v Number.unifying_mouse_mode = RadioClasses.unifying_mouse_mode v.unifying
number_calls v Number.unifying_jammed = RadioClasses.unifying_jammed v.unifying
number_calls v Number.dot15d4_sniff_mode = RadioClasses.dot15d4_sniff_mode v.dot15d4
number_calls v Number.dot15d4_jam_mode = RadioClasses.dot15d4_jam_mode v.dot15d4
number_calls v Number.dot15d4_energy_detect = RadioClasses.dot15d4_energy_detect v.dot15d4
number_calls v Number.dot15d4_end_device_mode = RadioClasses.dot15d4_end_device_mode v.dot15d4
number_calls v Number.dot15d4_router_mode = RadioClasses.dot15d4_router_mode v.dot15d4
number_calls v Number.dot15d4_coord_mode = RadioClasses.dot15d4_coord_mode v.dot15d4
number_calls v Number.dot15d4_mitm_mode = RadioClasses.dot15d4_mitm_mode v.dot15d4
number_calls v Number.dot15d4_jammed = RadioClasses.dot15d4_jammed v.dot15d4
number_calls v Number.phy_set_fsk_mod = PhyClasses.phy_set_fsk_mod v.phy
number_calls v Number.phy_set_4fsk_mod = PhyClasses.phy_set_4fsk_mod v.phy
number_calls v Number.phy_set_gfsk_mod = PhyClasses.phy_set_gfsk_mod v.phy
number_calls v Number.phy_set_msk_mod = PhyClasses.phy_set_msk_mod v.phy
number_calls v Number.phy_set_datarate = PhyClasses.phy_set_datarate v.phy
number_calls v Number.phy_set_endianness = PhyClasses.phy_set_endianness v.phy
number_calls v Number.phy_set_tx_power = PhyClasses.phy_set_tx_power v.phy
number_calls v Number.phy_set_packet_size = PhyClasses.phy_set_packet_size v.phy
number_calls v Number.phy_jam_mode = PhyClasses.phy_jam_mode v.phy
number_calls v Number.phy_scheduled_packet_sent = PhyClasses.phy_scheduled_packet_sent v.phy
number_calls v Number.ble_disconnect = BleClasses.ble_disconnect v.ble
number_calls v Number.ble_hijack_master = BleClasses.ble_hijack_master v.ble
number_calls v Number.ble_hijack_slave = BleClasses.ble_hijack_slave v.ble
number_calls v Number.ble_hijack_both = BleClasses.ble_hijack_both v.ble
number_calls v Number.ble_manual_trigger = BleClasses.ble_manual_trigger v.ble
number_calls v Number.ble_sequence_triggered = BleClasses.ble_sequence_triggered v.ble
number_calls v Number.ble_desynchronized = BleClasses.ble_desynchronized v.ble

-- The classes of one flag.
pub data Flag : Type 0 where
  phy_set_ask_mod phy_set_qpsk_mod phy_sniff_mode ble_scan_mode : Flag

abbrev pub flag_calls : Views → Flag → Calls Bool
flag_calls v Flag.phy_set_ask_mod = PhyClasses.phy_set_ask_mod v.phy
flag_calls v Flag.phy_set_qpsk_mod = PhyClasses.phy_set_qpsk_mod v.phy
flag_calls v Flag.phy_sniff_mode = PhyClasses.phy_sniff_mode v.phy
flag_calls v Flag.ble_scan_mode = BleClasses.ble_scan_mode v.ble
