-- ===== src/Protocol/Phy.antt =====
-- whad/protocol/phy/phy.pb.h, and the parameter structs of inc/domains/phy.h. Enumerations are their
-- values.
use whad_lib.Prelude.{ℕ, Bool, List, Option, ℤ}
use whad_lib.Protocol.Buffer.{Buffer, Field}

-- `phy_SupportedFrequencyRanges_FrequencyRange` and `whad_phy_frequency_range_t`. The names are those
-- of the fields `start` and `end`.
pub record FrequencyRange : Type 0 where
  pub low : ℕ
  pub high : ℕ

-- `phy_SetLoRaModulationCmd` and `whad_phy_lora_params_t`.
pub record LoraParams : Type 0 where
  pub bandwidth : ℕ
  pub sf : ℕ
  pub cr : ℕ
  pub preamble_length : ℕ
  pub enable_crc : Bool
  pub explicit_mode : Bool
  pub invert_iq : Bool

-- `phy_PacketReceived`.
pub record PacketReceived : Type 0 where
  pub frequency : ℕ
  pub rssi : Field ℤ
  pub timestamp : Field ℕ
  pub packet : Buffer
  pub deviation : ℕ
  pub datarate : ℕ
  pub endian : ℕ
  pub modulation : ℕ
  pub syncword : Buffer

-- `phy_ScheduleSendCmd`.
pub record SchedSend : Type 0 where
  pub packet : Buffer
  pub timestamp : ℕ

-- `phy_SchedulePacketResp`.
pub record SchedResp : Type 0 where
  pub id : ℕ
  pub full : Field Bool

-- `whad_phy_timestamp_t`.
pub record Timestamp : Type 0 where
  pub ts_sec : ℕ
  pub ts_usec : ℕ

-- `whad_phy_sched_packet_t`.
pub record SchedPacket : Type 0 where
  pub packet : Buffer
  pub ts : Timestamp

-- `whad_phy_received_packet_t`.
pub record ReceivedPacket : Type 0 where
  pub freq : ℕ
  pub rssi : ℤ
  pub ts : Timestamp
  pub packet : Buffer

-- `whad_phy_scheduled_packet_t`.
pub record ScheduledPacket : Type 0 where
  pub id : ℕ
  pub full : Bool

-- `phy_Message`: the union with its tag. The ranges of frequencies are what the argument of the encoding
-- callback points to, if it is not NULL; no function of the library writes or reads raw packets and
-- monitoring reports, which are the bytes of their structs.
pub data PhyMessage : Type 0 where
  phy_unset : PhyMessage
  mod_ask : Bool → PhyMessage
  mod_fsk : ℕ → PhyMessage
  mod_gfsk : ℕ → PhyMessage
  mod_bpsk : PhyMessage
  mod_qpsk : Bool → PhyMessage
  mod_4fsk : ℕ → PhyMessage
  mod_msk : ℕ → PhyMessage
  get_supported_freq : PhyMessage
  set_freq : ℕ → PhyMessage
  datarate : ℕ → PhyMessage
  endianness : ℕ → PhyMessage
  tx_power : ℕ → PhyMessage
  packet_size : ℕ → PhyMessage
  sync_word : Buffer → PhyMessage
  sniff : Field Bool → PhyMessage
  send : Buffer → PhyMessage
  send_raw : PhyMessage
  start : PhyMessage
  stop : PhyMessage
  jam : ℕ → PhyMessage
  monitor : PhyMessage
  packet : PacketReceived → PhyMessage
  raw_packet : List ℕ → PhyMessage
  jammed : ℕ → PhyMessage
  monitor_report : List ℕ → PhyMessage
  supported_freq : Option (List FrequencyRange) → PhyMessage
  mod_lora : LoraParams → PhyMessage
  sched_send : SchedSend → PhyMessage
  sched_pkt_rsp : SchedResp → PhyMessage
  sched_pkt_sent : ℕ → PhyMessage
