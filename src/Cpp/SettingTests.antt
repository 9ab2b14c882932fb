-- ===== src/Cpp/SettingTests.antt =====
-- Messages that read as zero in the members that were not written, and the theorems on the classes with
-- one value.
use whad_lib.Prelude.{refl, true, false, none, arith}
use whad_lib.Protocol.Dot15d4.{EdSample}
use whad_lib.Protocol.Phy.{LoraParams, Timestamp}
use whad_lib.Protocol.Ble.{Injected, Hijacked, Disconnected}
use whad_lib.Esb.Tests as EsbTests
use whad_lib.Unifying.Tests as UnifyingTests
use whad_lib.Dot15d4.Tests as Dot15d4Tests
use whad_lib.Phy.Tests as PhyTests
use whad_lib.Ble.ZeroView as BleTests
use whad_lib.Cpp.{Heap}
use whad_lib.Cpp.Setting.{class_of, borrowing, not_unpacking}
use whad_lib.Cpp.RadioClasses
use whad_lib.Cpp.PhyClasses
use whad_lib.Cpp.BleClasses
use whad_lib.Cpp.SettingKinds.{Views, AreViews, Number, Flag, number_calls, flag_calls}
use whad_lib.Cpp.SettingLaws.{RoundTrip}
use whad_lib.Cpp.SettingTrips.{setting-RoundTrip, unread-RoundTrip}

abbrev zero_views : Views
zero_views = record {
  esb = EsbTests.zero_view;
  unifying = UnifyingTests.zero_view;
  dot15d4 = Dot15d4Tests.zero_view;
  phy = PhyTests.zero_view;
  ble = BleTests.zero_view;
}

zero_views-AreViews : AreViews zero_views
unfolding AreViews
zero_views-AreViews = (
  EsbTests.zero_view-IsView, UnifyingTests.zero_view-IsView, Dot15d4Tests.zero_view-IsView,
  PhyTests.zero_view-IsView, BleTests.zero_view-IsView,
)

abbrev heap : Heap
heap = record { next = 0; cells = λ _. none }

abbrev lora : LoraParams
lora = record {
  bandwidth = 125000;
  sf = 7;
  cr = 5;
  preamble_length = 8;
  enable_crc = true;
  explicit_mode = true;
  invert_iq = false;
}

abbrev sample : EdSample
sample = record { sample = 91; timestamp = 4000 }

abbrev no_sample : EdSample
no_sample = record { sample = 0; timestamp = 0 }

abbrev injected : Injected
injected = record { success = true; access_address = 2391391958; injection_attempts = 3 }

abbrev late : Timestamp
late = record { ts_sec = 12; ts_usec = 500 }

abbrev early : Timestamp
early = record { ts_sec = 0; ts_usec = 0 }

abbrev gone : Disconnected
gone = record { reason = 19; conn_handle = 1 }

abbrev stale_report : Disconnected
stale_report = record { reason = 48879; conn_handle = 57005 }

abbrev taken : Hijacked
taken = record { success = true; access_address = 2391391958 }

abbrev stale_taken : Hijacked
stale_taken = record { success = false; access_address = 3735928559 }

setting-RoundTrip_example :
    RoundTrip 42 heap 5 42 (class_of (number_calls zero_views Number.dot15d4_jammed))
    × RoundTrip 42 heap 5 42 (borrowing (PhyClasses.phy_set_freq zero_views.phy))
    × RoundTrip true heap false true (class_of (flag_calls zero_views Flag.phy_sniff_mode))
    × RoundTrip lora heap lora lora (class_of (PhyClasses.phy_set_lora_mod zero_views.phy))
    × RoundTrip sample heap no_sample sample
        (class_of (RadioClasses.dot15d4_energy_sample zero_views.dot15d4))
    × RoundTrip injected heap injected injected (class_of (BleClasses.ble_injected zero_views.ble))
    × RoundTrip late heap early late (class_of (PhyClasses.phy_jammed zero_views.phy))
    × RoundTrip 42 heap 5 42 (BleClasses.ble_delete_sequence zero_views.ble)
setting-RoundTrip_example =
    setting-RoundTrip zero_views zero_views-AreViews Number.dot15d4_jammed 42 5 Flag.phy_sniff_mode
      true false lora lora sample no_sample injected injected late early (omega arith) (omega arith)
      (omega arith) (omega arith) heap refl

unread-RoundTrip_example :
    RoundTrip gone heap stale_report stale_report
      (class_of (BleClasses.ble_disconnected zero_views.ble))
    × RoundTrip taken heap stale_taken
        (record { success = false; access_address = 0 })
        (not_unpacking (BleClasses.ble_hijacked zero_views.ble))
    × RoundTrip 7 heap 291 0 (not_unpacking (BleClasses.ble_jam_active_conn zero_views.ble))
    × RoundTrip 7 heap 291 35 (BleClasses.ble_triggered_class zero_views.ble)
unread-RoundTrip_example =
    unread-RoundTrip zero_views zero_views-AreViews gone stale_report taken stale_taken 7 291 heap
      refl
