-- ===== src/Protocol/Dot15d4.antt =====
-- whad/protocol/dot15d4/dot15d4.pb.h, and the parameter structs of inc/domains/dot15d4.h.
use whad_lib.Prelude.{ℕ, Bool, ℤ}
use whad_lib.Protocol.Buffer.{Buffer, Field}

-- `dot15d4_SetNodeAddressCmd` and `whad_dot15d4_address_t`.
pub record NodeAddress : Type 0 where
  pub address_type : ℕ
  pub address : ℕ

-- `dot15d4_SendCmd`.
pub record SendCmd : Type 0 where
  pub channel : ℕ
  pub packet : Buffer

-- `dot15d4_SendRawCmd` and `whad_dot15d4_send_params_t`.
pub record SendRawCmd : Type 0 where
  pub channel : ℕ
  pub packet : Buffer
  pub fcs : ℕ

-- `dot15d4_EnergyDetectionSample` and `whad_dot15d4_ed_sample_t`.
pub record EdSample : Type 0 where
  pub sample : ℕ
  pub timestamp : ℕ

-- `dot15d4_PduReceived`.
pub record PduReceived : Type 0 where
  pub channel : ℕ
  pub rssi : Field ℤ
  pub timestamp : Field ℕ
  pub fcs_validity : Field Bool
  pub packet : Buffer
  pub lqi : Field ℕ

-- `dot15d4_RawPduReceived` and `whad_dot15d4_recvd_packet_t`.
pub record RawPduReceived : Type 0 where
  pub channel : ℕ
  pub rssi : Field ℤ
  pub timestamp : Field ℕ
  pub fcs_validity : Field Bool
  pub packet : Buffer
  pub fcs : ℕ
  pub lqi : Field ℕ

-- `dot15d4_Message`: the union with its tag.
pub data Dot15d4Message : Type 0 where
  dot15d4_unset : Dot15d4Message
  set_node_addr : NodeAddress → Dot15d4Message
  sniff : ℕ → Dot15d4Message
  jam : ℕ → Dot15d4Message
  ed : ℕ → Dot15d4Message
  send : SendCmd → Dot15d4Message
  send_raw : SendRawCmd → Dot15d4Message
  end_device : ℕ → Dot15d4Message
  router : ℕ → Dot15d4Message
  coordinator : ℕ → Dot15d4Message
  start : Dot15d4Message
  stop : Dot15d4Message
  mitm : ℕ → Dot15d4Message
  jammed : ℕ → Dot15d4Message
  ed_sample : EdSample → Dot15d4Message
  raw_pdu : RawPduReceived → Dot15d4Message
  pdu : PduReceived → Dot15d4Message
