-- ===== src/Cpp/PhyClasses.antt =====
-- The classes of src/cpp/domains/phy whose objects hold one value, by the C functions that they call.
use whad_lib.Prelude.{ℕ, Bool, Option, none, some}
use whad_lib.Protocol.Phy.{LoraParams, Timestamp}
use whad_lib.Protocol.Message.{Message}
use whad_lib.Phy
use whad_lib.Phy.Parse as PhyParse
use whad_lib.Phy.View.{PhyView}
use whad_lib.Cpp.{Heap}
use whad_lib.Cpp.Board.{Outcome, returned, thrown, undefined, target, or_old}
use whad_lib.Cpp.Setting.{Calls, Setting, get_raw}

-- `FskMod()`, the second base of four classes: the deviation.
abbrev pub fsk_mod : ℕ
fsk_mod = 0

-- `Timestamp()`.
abbrev pub new_timestamp : Timestamp
new_timestamp = record { ts_sec = 0; ts_usec = 0 }

module _ (view : Message → PhyView) where
  abbrev pub phy_set_fsk_mod : Calls ℕ
  phy_set_fsk_mod = record {
    pack = Phy.set_fsk_mod;
    unpack = PhyParse.set_fsk_mod_parse view;
    prepare = λ _. fsk_mod;
  }

  abbrev pub phy_set_4fsk_mod : Calls ℕ
  phy_set_4fsk_mod = record {
    pack = Phy.set_4fsk_mod;
    unpack = PhyParse.set_4fsk_mod_parse view;
    prepare = λ _. fsk_mod;
  }

  abbrev pub phy_set_gfsk_mod : Calls ℕ
  phy_set_gfsk_mod = record {
    pack = Phy.set_gfsk_mod;
    unpack = PhyParse.set_gfsk_mod_parse view;
    prepare = λ _. fsk_mod;
  }

  abbrev pub phy_set_msk_mod : Calls ℕ
  phy_set_msk_mod = record {
    pack = Phy.set_msk_mod;
    unpack = PhyParse.set_msk_mod_parse view;
    prepare = λ _. fsk_mod;
  }

  abbrev pub phy_set_freq : Calls ℕ
  phy_set_freq = record {
    pack = Phy.write_freq;
    unpack = PhyParse.set_freq_parse view;
    prepare = λ old. old;
  }

  abbrev pub phy_set_datarate : Calls ℕ
  phy_set_datarate = record {
    pack = Phy.set_datarate;
    unpack = PhyParse.set_datarate_parse view;
    prepare = λ old. old;
  }

  abbrev pub phy_set_endianness : Calls ℕ
  phy_set_endianness = record {
    pack = Phy.set_endianness;
    unpack = PhyParse.set_endianness_parse view;
    prepare = λ old. old;
  }

  abbrev pub phy_set_tx_power : Calls ℕ
  phy_set_tx_power = record {
    pack = Phy.set_tx_power;
    unpack = PhyParse.set_tx_power_parse view;
    prepare = λ old. old;
  }

  abbrev pub phy_set_packet_size : Calls ℕ
  phy_set_packet_size = record {
    pack = Phy.set_packet_size;
    unpack = PhyParse.set_packet_size_parse view;
    prepare = λ old. old;
  }

  abbrev pub phy_jam_mode : Calls ℕ
  phy_jam_mode = record {
    pack = Phy.jam_mode;
    unpack = PhyParse.jam_mode_parse view;
    prepare = λ old. old;
  }

  abbrev pub phy_scheduled_packet_sent : Calls ℕ
  phy_scheduled_packet_sent = record {
    pack = Phy.sched_packet_sent;
    unpack = PhyParse.sched_packet_sent_parse view;
    prepare = λ old. old;
  }

  abbrev pub phy_set_ask_mod : Calls Bool
  phy_set_ask_mod = record {
    pack = Phy.set_ask_mod;
    unpack = PhyParse.set_ask_mod_parse view;
    prepare = λ old. old;
  }

  abbrev pub phy_set_qpsk_mod : Calls Bool
  phy_set_qpsk_mod = record {
    pack = Phy.set_qpsk_mod;
    unpack = PhyParse.set_qpsk_mod_parse view;
    prepare = λ old. old;
  }

  abbrev pub phy_sniff_mode : Calls Bool
  phy_sniff_mode = record {
    pack = Phy.sniff_mode;
    unpack = PhyParse.sniff_mode_parse view;
    prepare = λ old. old;
  }

  abbrev pub phy_set_lora_mod : Calls LoraParams
  phy_set_lora_mod = record {
    pack = Phy.set_lora_mod;
    unpack = PhyParse.set_lora_mod_parse view;
    prepare = λ old. old;
  }

  abbrev pub phy_jammed : Calls Timestamp
  phy_jammed = record {
    pack = λ m t. Phy.write_jammed m t.ts_sec t.ts_usec;
    unpack = PhyParse.jammed_parse view;
    prepare = λ _. new_timestamp;
  }

  -- The end of `SetPacketSize::getSize`, on what `getRaw` returned.
  unfoldable pub size_read : Outcome (Option ℕ) → Outcome ℕ
  size_read (returned p h) = elim (target p h) [
    | none ↦ undefined
    | some m ↦ returned (or_old 0 (PhyParse.set_packet_size_parse view m (some 0)).1) h
  ]
  size_read (thrown h) = thrown h
  size_read undefined = undefined

  -- `SetPacketSize::getSize`, which reads the size out of the message that `getRaw` packs.
  unfoldable pub get_size : Setting ℕ → Heap → Outcome ℕ
  get_size o h = size_read (get_raw phy_set_packet_size o h)
