-- ===== src/Protocol/Message.antt =====
-- `Message` of whad/protocol/whad.pb.h, a tagged union with a member for each domain, with the structs
-- of the generic and the discovery messages.
use whad_lib.Prelude.{ℕ, List, ℤ}
use whad_lib.Protocol.Payload.{BoardMessage}
use whad_lib.Protocol.Ble.{BleMessage}
use whad_lib.Protocol.Dot15d4.{Dot15d4Message}
use whad_lib.Protocol.Phy.{PhyMessage}
use whad_lib.Protocol.Radio.{EsbMessage, UnifyingMessage}

-- `generic_Message` of whad/protocol/generic.pb.h: the union with its tag. The data of a text message
-- is what the encoding callback and its argument stand for, the characters of a string.
pub data GenericMessage : Type 0 where
  generic_unset : GenericMessage
  result : ℤ → GenericMessage
  cmd_result : ℤ → GenericMessage
  progress : ℕ → GenericMessage
  debug : ℕ → List ℕ → GenericMessage
  verbose : List ℕ → GenericMessage

-- The contents of a byte array of the device information: the size in use, and the array.
pub record Label : Type 0 where
  pub size : ℕ
  pub bytes : List ℕ

-- An entry of `whad_domain_desc_t`; the entry with the domain 0 ends an array of them.
pub record DomainDesc : Type 0 where
  pub domain : ℕ
  pub cap : ℕ
  pub supported_commands : ℕ

-- `discovery_DeviceInfoResp` of whad/protocol/device.pb.h. The capabilities are the argument of the
-- encoding callback.
pub record DeviceInfoResp : Type 0 where
  pub device_type : ℕ
  pub devid : List ℕ
  pub proto_min_ver : ℕ
  pub max_speed : ℕ
  pub fw_author : Label
  pub fw_url : Label
  pub fw_version_major : ℕ
  pub fw_version_minor : ℕ
  pub fw_version_rev : ℕ
  pub capabilities : List DomainDesc

-- `discovery_Message`: the union with its tag.
pub data DiscoveryMessage : Type 0 where
  discovery_unset : DiscoveryMessage
  reset_query : DiscoveryMessage
  ready_resp : DiscoveryMessage
  info_query : ℕ → DiscoveryMessage
  info_resp : DeviceInfoResp → DiscoveryMessage
  domain_query : ℕ → DiscoveryMessage
  domain_resp : ℕ → ℕ → DiscoveryMessage
  set_speed : ℕ → DiscoveryMessage

-- `Message`: the union of the domains with its tag.
pub data Message : Type 0 where
  unset : Message
  generic_msg : GenericMessage → Message
  discovery_msg : DiscoveryMessage → Message
  ble_msg : BleMessage → Message
  dot15d4_msg : Dot15d4Message → Message
  esb_msg : EsbMessage → Message
  unifying_msg : UnifyingMessage → Message
  phy_msg : PhyMessage → Message
  board_msg : BoardMessage → Message
