-- ===== src/Cpp/BleClasses.antt =====
-- The classes of src/cpp/domains/ble whose objects hold one value, by the C functions that they call.
use whad_lib.Prelude.{◌%◌, ◌^◌, success, ℕ, Bool}
use whad_lib.Protocol.Ble.{Hijacked, Injected, Disconnected}
use whad_lib.Protocol.Message.{Message}
use whad_lib.Ble
use whad_lib.Ble.Parse as BleParse
use whad_lib.Ble.Events
use whad_lib.Ble.View.{BleView}
use whad_lib.Cpp.Setting.{Calls, SettingClass, create, get_raw, not_unpacking, reading}

-- `HijackBase()`, the second base of five classes: the access address.
abbrev pub hijack_base : ℕ
hijack_base = 0

module _ (view : Message → BleView) where
  abbrev pub ble_disconnect : Calls ℕ
  ble_disconnect = record {
    pack = Ble.write_disconnect;
    unpack = BleParse.disconnect_parse view;
    prepare = λ old. old;
  }

  abbrev pub ble_hijack_master : Calls ℕ
  ble_hijack_master = record {
    pack = Ble.write_hijack_master;
    unpack = BleParse.hijack_master_parse view;
    prepare = λ _. hijack_base;
  }

  abbrev pub ble_hijack_slave : Calls ℕ
  ble_hijack_slave = record {
    pack = Ble.write_hijack_slave;
    unpack = BleParse.hijack_slave_parse view;
    prepare = λ _. hijack_base;
  }

  abbrev pub ble_hijack_both : Calls ℕ
  ble_hijack_both = record {
    pack = Ble.write_hijack_both;
    unpack = BleParse.hijack_both_parse view;
    prepare = λ _. hijack_base;
  }

  abbrev pub ble_jam_active_conn : Calls ℕ
  ble_jam_active_conn = record {
    pack = Ble.jam_active_conn;
    unpack = BleParse.jam_active_conn_parse view;
    prepare = λ _. hijack_base;
  }

  abbrev pub ble_sequence_triggered : Calls ℕ
  ble_sequence_triggered = record {
    pack = Ble.write_triggered;
    unpack = BleParse.triggered_parse view;
    prepare = λ old. old;
  }

  abbrev pub ble_manual_trigger : Calls ℕ
  ble_manual_trigger = record {
    pack = Ble.prepare_sequence_trigger;
    unpack = BleParse.prepare_sequence_trigger_parse view;
    prepare = λ old. old;
  }

  abbrev pub ble_desynchronized : Calls ℕ
  ble_desynchronized = record {
    pack = Ble.write_desynchronized;
    unpack = BleParse.desynchronized_parse view;
    prepare = λ old. old;
  }

  abbrev pub ble_scan_mode : Calls Bool
  ble_scan_mode = record {
    pack = Ble.write_scan_mode;
    unpack = BleParse.scan_mode_parse view;
    prepare = λ old. old;
  }

  abbrev pub ble_hijacked : Calls Hijacked
  ble_hijacked = record {
    pack = λ m v. Events.write_hijacked m v.access_address v.success;
    unpack = BleParse.hijacked_parse view;
    prepare = λ old. record old { access_address = hijack_base };
  }

  abbrev pub ble_injected : Calls Injected
  ble_injected = record {
    pack = λ m v. Events.write_injected m v.access_address v.injection_attempts v.success;
    unpack = BleParse.injected_parse view;
    prepare = λ old. old;
  }

  -- `unpack` reads into a local struct, of which only the status is used: the members stay as they
  -- were. The status does not depend on what the local struct holds.
  abbrev pub ble_disconnected : Calls Disconnected
  ble_disconnected = record {
    pack = λ m v. Events.notify_disconnected m v.conn_handle v.reason;
    unpack = λ m old. ((BleParse.notify_disconnected_parse view m old).0, old);
    prepare = λ old. old;
  }

  -- The class has no `unpack`: that of the sequences triggered, which is its like, stands in its place and
  -- is not called. The member is a `uint8_t`.
  abbrev pub ble_triggered : Calls ℕ
  ble_triggered = record {
    pack = Ble.write_triggered;
    unpack = BleParse.triggered_parse view;
    prepare = λ old. old % 2 ^ 8;
  }

  -- `Triggered(uint8_t id)`, which converts its argument.
  abbrev pub ble_triggered_class : SettingClass ℕ
  ble_triggered_class = record {
    create = λ memory id. create ble_triggered memory (id % 2 ^ 8);
    parse = (not_unpacking ble_triggered).parse;
    get_raw = get_raw ble_triggered;
  }

  -- The class has no `unpack`: its constructor from a message reads the member.
  abbrev pub ble_delete_sequence : SettingClass ℕ
  ble_delete_sequence =
      reading
        (record {
          pack = Ble.prepare_sequence_delete;
          unpack = λ m old. (success, old);
          prepare = λ old. old;
        })
        (λ m. (view m).delete_seq)
