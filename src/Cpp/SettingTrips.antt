-- ===== src/Cpp/SettingTrips.antt =====
-- What the classes with one value give back, in each domain.
use whad_lib.Prelude.{◌%◌, refl, success, ◌+◌, ◌*◌, ℕ, ◌≡◌, ◌<◌, ◌^◌, Bool, none}
use whad_lib.Protocol.Dot15d4.{EdSample}
use whad_lib.Protocol.Phy.{LoraParams, Timestamp}
use whad_lib.Protocol.Ble.{BleMessage, Injected, Hijacked, Disconnected}
use whad_lib.Protocol.Message.{ble_msg}
use whad_lib.Ble
use whad_lib.Ble.Events
use whad_lib.Ble.View as BleReads
use whad_lib.Cpp.RadioClasses
use whad_lib.Cpp.PhyClasses
use whad_lib.Cpp.BleClasses
use whad_lib.Cpp.Setting.{class_of, borrowing, not_unpacking}
use whad_lib.Cpp.{Heap}
use whad_lib.Cpp.SettingKinds.{Views, AreViews, Number, Flag, number_calls, flag_calls}
use whad_lib.Cpp.SettingLaws.{
  RoundTrip, object-RoundTrip, borrowing-RoundTrip, not_unpacking-RoundTrip, reading-RoundTrip,
}
use whad_lib.Cpp.SettingAgree.{
  number_Agree, flag_Agree, lora_Agree, sample_Agree, injected_Agree, disconnected_Agree,
  freq_Agree, time_Agree,
}

module _ (v : Views) (are : AreViews v) where
  delete-RoundTrip :
      (x old : ℕ) (h : Heap)
      → h.cells h.next ≡ none
      → RoundTrip x h old x (BleClasses.ble_delete_sequence v.ble)
  unfolding AreViews BleReads.IsView BleReads.Holds Ble.write Ble.prepare_sequence_delete
  delete-RoundTrip x old h free_next =
      reading-RoundTrip
        (record {
          pack = Ble.prepare_sequence_delete;
          unpack = λ m old. (success, old);
          prepare = λ old. old;
        })
        x old x h (λ m. (v.ble m).delete_seq) (ble_msg (BleMessage.delete_seq x)) free_next refl
        (are.4 (BleMessage.delete_seq x))

  -- For the 38 classes that Number and Flag name, and for SetFreq, SetLoraMod and Jammed of phy,
  -- EnergySample of dot15d4, and Injected and DeleteSequence of ble, on a heap whose next address is not
  -- live: an object that was created with memory at hand and packed yields the pointer to its message.
  -- The class, constructed from a wrapper of that pointer, has the value; destroying it leaves the heap
  -- as it is, and destroying the first object then gives back the heap as it was before. The numbers and
  -- the timestamp of the sample are in 32 bits; the time has less than a million microseconds and is less
  -- than 2^32 microseconds in all.
  pub setting-RoundTrip :
      (n : Number) (x old : ℕ) (f : Flag) (flag before : Bool) (lora lora_old : LoraParams)
      (sample sample_old : EdSample) (injected injected_old : Injected) (time time_old : Timestamp)
      → x < 2 ^ 32
      → sample.timestamp < 2 ^ 32
      → time.ts_usec < 1000000
      → time.ts_sec * 1000000 + time.ts_usec < 2 ^ 32
      → (h : Heap) → h.cells h.next ≡ none
      → RoundTrip x h old x (class_of (number_calls v n))
        × RoundTrip x h old x (borrowing (PhyClasses.phy_set_freq v.phy))
        × RoundTrip flag h before flag (class_of (flag_calls v f))
        × RoundTrip lora h lora_old lora (class_of (PhyClasses.phy_set_lora_mod v.phy))
        × RoundTrip sample h sample_old sample
            (class_of (RadioClasses.dot15d4_energy_sample v.dot15d4))
        × RoundTrip injected h injected_old injected (class_of (BleClasses.ble_injected v.ble))
        × RoundTrip time h time_old time (class_of (PhyClasses.phy_jammed v.phy))
        × RoundTrip x h old x (BleClasses.ble_delete_sequence v.ble)
  setting-RoundTrip n x old f flag before lora lora_old sample sample_old injected injected_old time
        time_old small small_sample small_time short_time h free_next =
      (
        object-RoundTrip (number_calls v n) x old x h free_next (number_Agree v are n x old small),
        borrowing-RoundTrip (PhyClasses.phy_set_freq v.phy) x old x h free_next
            (freq_Agree v are x old),
        object-RoundTrip (flag_calls v f) flag before flag h free_next
            (flag_Agree v are f flag before),
        object-RoundTrip (PhyClasses.phy_set_lora_mod v.phy) lora lora_old lora h free_next
            (lora_Agree v are lora lora_old),
        object-RoundTrip (RadioClasses.dot15d4_energy_sample v.dot15d4) sample sample_old sample h
            free_next (sample_Agree v are sample sample_old small_sample),
        object-RoundTrip (BleClasses.ble_injected v.ble) injected injected_old injected h free_next
            (injected_Agree v are injected injected_old),
        object-RoundTrip (PhyClasses.phy_jammed v.phy) time time_old time h free_next
            (time_Agree v are time time_old small_time short_time),
        delete-RoundTrip x old h free_next,
      )

  -- Disconnected, Hijacked, JamActiveConn and Triggered of ble, on a heap whose next address is not
  -- live: an object that was created with memory at hand and packed yields the pointer to its message,
  -- but the class, constructed from a wrapper of that pointer, takes nothing over from it. The handle and
  -- the reason of Disconnected, the flag of Hijacked and the eight bits of Triggered are what stood in
  -- their memory; the access address of Hijacked and of JamActiveConn is zero. Destroying both objects
  -- gives back the heap as it was before.
  pub unread-RoundTrip :
      (gone gone_old : Disconnected) (taken taken_old : Hijacked) (x old : ℕ) (h : Heap)
      → h.cells h.next ≡ none
      → RoundTrip gone h gone_old gone_old (class_of (BleClasses.ble_disconnected v.ble))
        × RoundTrip taken h taken_old
            (record { success = taken_old.success; access_address = 0 })
            (not_unpacking (BleClasses.ble_hijacked v.ble))
        × RoundTrip x h old 0 (not_unpacking (BleClasses.ble_jam_active_conn v.ble))
        × RoundTrip x h old (old % 2 ^ 8) (BleClasses.ble_triggered_class v.ble)
  unfolding Ble.write Events.write_hijacked Ble.jam_active_conn Ble.write_triggered
  unread-RoundTrip gone gone_old taken taken_old x old h free_next = (
    object-RoundTrip (BleClasses.ble_disconnected v.ble) gone gone_old gone_old h free_next
        (disconnected_Agree v are gone gone_old),
    not_unpacking-RoundTrip (BleClasses.ble_hijacked v.ble) taken taken_old h _ free_next refl,
    not_unpacking-RoundTrip (BleClasses.ble_jam_active_conn v.ble) x old h _ free_next refl,
    not_unpacking-RoundTrip (BleClasses.ble_triggered v.ble) (x % 2 ^ 8) old h _ free_next refl,
  )
