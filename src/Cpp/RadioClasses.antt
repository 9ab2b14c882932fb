-- ===== src/Cpp/RadioClasses.antt =====
-- The classes of src/cpp/domains/esb, unifying and dot15d4 whose objects hold one value, by the C
-- functions that they call.
use whad_lib.Prelude.{ℕ}
use whad_lib.Protocol.Dot15d4.{EdSample}
use whad_lib.Protocol.Message.{Message}
use whad_lib.Esb
use whad_lib.Esb.View.{EsbView}
use whad_lib.Unifying
use whad_lib.Unifying.View.{UnifyingView}
use whad_lib.Dot15d4
use whad_lib.Dot15d4.View.{Dot15d4View}
use whad_lib.Cpp.Setting.{Calls}

module _ (view : Message → EsbView) where
  abbrev pub esb_jam_mode : Calls ℕ
  esb_jam_mode = record { pack = Esb.write_jam; unpack = Esb.jam_parse view; prepare = λ old. old }

  abbrev pub esb_prx_mode : Calls ℕ
  esb_prx_mode = record { pack = Esb.write_prx; unpack = Esb.prx_parse view; prepare = λ old. old }

  abbrev pub esb_ptx_mode : Calls ℕ
  esb_ptx_mode = record { pack = Esb.write_ptx; unpack = Esb.ptx_parse view; prepare = λ old. old }

  abbrev pub esb_jammed : Calls ℕ
  esb_jammed = record {
    pack = Esb.write_jammed;
    unpack = Esb.jammed_parse view;
    prepare = λ old. old;
  }

-- The class of jammed notifications packs and parses a jamming command.
module _ (view : Message → UnifyingView) where
  abbrev pub unifying_jam_mode : Calls ℕ
  unifying_jam_mode = record {
    pack = Unifying.write_jam;
    unpack = Unifying.jam_parse view;
    prepare = λ old. old;
  }

  abbrev pub unifying_dongle_mode : Calls ℕ
  unifying_dongle_mode = record {
    pack = Unifying.dongle_mode;
    unpack = Unifying.dongle_mode_parse view;
    prepare = λ old. old;
  }

  abbrev pub unifying_keyboard_mode : Calls ℕ
  unifying_keyboard_mode = record {
    pack = Unifying.keyboard_mode;
    unpack = Unifying.keyboard_mode_parse view;
    prepare = λ old. old;
  }

  abbrev pub unifying_mouse_mode : Calls ℕ
  unifying_mouse_mode = record {
    pack = Unifying.mouse_mode;
    unpack = Unifying.mouse_mode_parse view;
    prepare = λ old. old;
  }

  abbrev pub unifying_jammed : Calls ℕ
  unifying_jammed = record {
    pack = Unifying.write_jam;
    unpack = Unifying.jam_parse view;
    prepare = λ old. old;
  }

module _ (view : Message → Dot15d4View) where
  abbrev pub dot15d4_jam_mode : Calls ℕ
  dot15d4_jam_mode = record {
    pack = Dot15d4.write_jam;
    unpack = Dot15d4.jam_parse view;
    prepare = λ old. old;
  }

  abbrev pub dot15d4_sniff_mode : Calls ℕ
  dot15d4_sniff_mode = record {
    pack = Dot15d4.write_sniff;
    unpack = Dot15d4.sniff_parse view;
    prepare = λ old. old;
  }

  abbrev pub dot15d4_energy_detect : Calls ℕ
  dot15d4_energy_detect = record {
    pack = Dot15d4.energy_detect;
    unpack = Dot15d4.energy_detect_parse view;
    prepare = λ old. old;
  }

  abbrev pub dot15d4_end_device_mode : Calls ℕ
  dot15d4_end_device_mode = record {
    pack = Dot15d4.end_device_mode;
    unpack = Dot15d4.end_device_mode_parse view;
    prepare = λ old. old;
  }

  abbrev pub dot15d4_router_mode : Calls ℕ
  dot15d4_router_mode = record {
    pack = Dot15d4.router_mode;
    unpack = Dot15d4.router_mode_parse view;
    prepare = λ old. old;
  }

  abbrev pub dot15d4_coord_mode : Calls ℕ
  dot15d4_coord_mode = record {
    pack = Dot15d4.coord_mode;
    unpack = Dot15d4.coord_mode_parse view;
    prepare = λ old. old;
  }

  abbrev pub dot15d4_mitm_mode : Calls ℕ
  dot15d4_mitm_mode = record {
    pack = Dot15d4.mitm_mode;
    unpack = Dot15d4.mitm_mode_parse view;
    prepare = λ old. old;
  }

  abbrev pub dot15d4_jammed : Calls ℕ
  dot15d4_jammed = record {
    pack = Dot15d4.write_jammed;
    unpack = Dot15d4.jammed_parse view;
    prepare = λ old. old;
  }

  abbrev pub dot15d4_energy_sample : Calls EdSample
  dot15d4_energy_sample = record {
    pack = λ m s. Dot15d4.energy_detect_sample m s.timestamp s.sample;
    unpack = Dot15d4.energy_detect_sample_parse view;
    prepare = λ old. old;
  }
