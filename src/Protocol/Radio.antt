-- ===== src/Protocol/Radio.antt =====
-- whad/protocol/esb/esb.pb.h and whad/protocol/unifying/unifying.pb.h, two domains whose messages have
-- the same structs. The parameter structs of inc/domains/esb.h and inc/domains/unifying.h have the
-- same fields as the messages; where a message has a 64-bit timestamp, they have one of 32 bits.
use whad_lib.Prelude.{ℕ, Bool, ℤ}
use whad_lib.Protocol.Buffer.{Buffer, Field}

-- `esb_SniffCmd` and `unifying_SniffCmd`.
pub record Sniff : Type 0 where
  pub channel : ℕ
  pub show_acks : Bool
  pub address : Buffer

-- `esb_SendCmd`, `esb_SendRawCmd` and their unifying copies.
pub record Send : Type 0 where
  pub channel : ℕ
  pub retr_count : ℕ
  pub packet : Buffer

-- `esb_RawPduReceived`, `esb_PduReceived` and their unifying copies.
pub record Received : Type 0 where
  pub channel : ℕ
  pub rssi : Field ℤ
  pub timestamp : Field ℕ
  pub crc_validity : Field Bool
  pub has_address : Bool
  pub address : Buffer
  pub packet : Buffer

-- `esb_Message`: the union with its tag.
pub data EsbMessage : Type 0 where
  esb_unset : EsbMessage
  set_node_addr : Buffer → EsbMessage
  sniff : Sniff → EsbMessage
  jam : ℕ → EsbMessage
  send : Send → EsbMessage
  send_raw : Send → EsbMessage
  prx : ℕ → EsbMessage
  ptx : ℕ → EsbMessage
  start : EsbMessage
  stop : EsbMessage
  jammed : ℕ → EsbMessage
  raw_pdu : Received → EsbMessage
  pdu : Received → EsbMessage

-- `unifying_Message`.
pub data UnifyingMessage : Type 0 where
  unifying_unset : UnifyingMessage
  set_node_addr : Buffer → UnifyingMessage
  sniff : Sniff → UnifyingMessage
  jam : ℕ → UnifyingMessage
  send : Send → UnifyingMessage
  send_raw : Send → UnifyingMessage
  dongle : ℕ → UnifyingMessage
  keyboard : ℕ → UnifyingMessage
  mouse : ℕ → UnifyingMessage
  start : UnifyingMessage
  stop : UnifyingMessage
  jammed : ℕ → UnifyingMessage
  raw_pdu : Received → UnifyingMessage
  pdu : Received → UnifyingMessage
  sniff_pairing : UnifyingMessage
