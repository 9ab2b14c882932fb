-- ===== src/Whad.antt =====
-- src/whad.c: messages over the transport, and what a message is about.
pub mod Deliver
use whad_lib.Prelude.{
  ℕ, ◌≡◌, ◌≤◌, Bool, true, false, List, ltb, if◌then◌else◌, length, Option, none, some, pos, Status,
  success, error, whad_none, is_success,
}
use whad_lib.Protocol.Message.{
  Message, unset, generic_msg, discovery_msg, ble_msg, dot15d4_msg, esb_msg, unifying_msg, phy_msg,
  board_msg,
}
use whad_lib.Transport
use whad_lib.Transport.{Transport, Config, max_encoded_message_size}

-- `whad_msgtype_t`.
pub data MsgType : Type 0 where
  unknown generic discovery domain : MsgType

-- `whad_domain_t` of inc/discovery.h.
pub data Domain : Type 0 where
  domain_none phy bt_classic btle dot15d4 sixlowpan esb logitech_unifying mosart ant ant_plus ant_fs
        board :
      Domain

unfoldable pub get_message_type : Message → MsgType
get_message_type (generic_msg _) = generic
get_message_type (discovery_msg _) = discovery
get_message_type (ble_msg _) = domain
get_message_type (esb_msg _) = domain
get_message_type (phy_msg _) = domain
get_message_type (unifying_msg _) = domain
get_message_type (dot15d4_msg _) = domain
get_message_type (board_msg _) = domain
get_message_type unset = unknown

unfoldable pub get_message_domain : Message → Domain
get_message_domain (ble_msg _) = btle
get_message_domain (esb_msg _) = esb
get_message_domain (phy_msg _) = phy
get_message_domain (unifying_msg _) = logitech_unifying
get_message_domain (dot15d4_msg _) = dot15d4
get_message_domain (board_msg _) = board
get_message_domain unset = domain_none
get_message_domain (generic_msg _) = domain_none
get_message_domain (discovery_msg _) = domain_none

-- `whad_init`.
unfoldable pub init : Config → Transport → Transport
init cfg t = Transport.init cfg t

-- Whether `whad_free_message_resources` hands the message to `whad_phy_message_free`.
unfoldable pub free_message_resources : Message → Bool
unfolding get_message_type get_message_domain
free_message_resources m = elim (get_message_type m) [
  | domain ↦ elim (get_message_domain m) [ phy ↦ true | _ ↦ false ]
  | _ ↦ false
]

-- nanopb, over `Message_fields`: `pb_encode` into a buffer of `WHAD_MESSAGE_MAX_SIZE` bytes, which
-- never writes past the buffer, and `pb_decode` of the bytes of a message.
pub record Nanopb : Type 0 where
  pub pb_encode : Message → Option (List ℕ)
  pub pb_decode : List ℕ → Option Message
  pub encode_fits :
      (m : Message) (bytes : List ℕ)
      → pb_encode m ≡ some bytes
      → length bytes ≤ max_encoded_message_size

-- The end of `whad_send_message`, on what `pb_encode` gave. The Boolean says whether
-- `whad_phy_message_free` was called on the message before it was sent.
unfoldable pub send_encoded : Message → Transport → Option (List ℕ) → Status × Bool × Transport
send_encoded m t none = (error, false, t)
send_encoded m t (some bytes) =
    if ltb 0 (length bytes) then (sent.0, free_message_resources m, sent.1) else (error, false, t)
  where
    sent : Status × Transport
    sent = Transport.send_message (some bytes) (pos (length bytes)) t

-- The end of `whad_get_message`, on what `pb_decode` gave; the option is what `*p_msg` is set to.
unfoldable pub decoded : Option Message → Status × Option Message
decoded none = (error, none)
decoded (some m) = (success, some m)

module _ (pb : Nanopb) where
  unfoldable pub send_message : Message → Transport → Status × Bool × Transport
  send_message m t = send_encoded m t (pb.pb_encode m)

  -- What `whad_get_message` makes of a reply of the transport.
  unfoldable pub read_reply : Transport.Reply → Status × Option Message
  read_reply reply =
      if is_success reply.status
      then if ltb 0 reply.size then decoded (pb.pb_decode reply.bytes) else (whad_none, none)
      else (error, none)

  unfoldable pub get_message : Transport → Status × Option Message × Transport
  unfolding read_reply
  get_message t =
      let (reply, t') = Transport.get_message max_encoded_message_size t in
      let (s, m) = read_reply reply in (s, m, t')
