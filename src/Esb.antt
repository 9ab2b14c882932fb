-- ===== src/Esb.antt =====
-- src/domains/esb.c: messages for an Enhanced ShockBurst device.
pub mod View
pub mod Exact
pub mod Tests
use whad_lib.Prelude.{
  ℕ, ◌%◌, ◌^◌, Bool, List, Option, ◌==◌, ltb, if◌then◌else◌, Status, success, error, build_with,
  build_from, parse_with,
}
use whad_lib.Protocol.Buffer.{Buffer, copy_buffer}
use whad_lib.Protocol.Radio.{Sniff, Send, Received, EsbMessage}
use whad_lib.Protocol.Message.{Message, esb_msg}
use whad_lib.Radio
use whad_lib.Radio.{
  write_address, read_address, read_sniff, read_send, write_received, read_received,
}
use whad_lib.Esb.View.{EsbView, which_msg}

-- `whad_esb_msgtype_t`, by value: 0 for `WHAD_ESB_UNKNOWN`, and the tags.
unfoldable pub get_message_type : Message → ℕ
get_message_type (esb_msg e) = which_msg e
get_message_type _ = 0

-- A function that fills no member of the union, or one it was given.
unfoldable pub write : EsbMessage → Option Message → Status × Option Message
write e = build_with (λ m. (success, esb_msg e))

unfoldable pub write_jam : Option Message → ℕ → Status × Option Message
write_jam m channel = write (EsbMessage.jam channel) m

unfoldable pub write_prx : Option Message → ℕ → Status × Option Message
write_prx m channel = write (EsbMessage.prx channel) m

unfoldable pub write_ptx : Option Message → ℕ → Status × Option Message
write_ptx m channel = write (EsbMessage.ptx channel) m

unfoldable pub write_start : Option Message → Status × Option Message
write_start m = write EsbMessage.start m

unfoldable pub write_stop : Option Message → Status × Option Message
write_stop m = write EsbMessage.stop m

unfoldable pub write_jammed : Option Message → ℕ → Status × Option Message
write_jammed m timestamp = write (EsbMessage.jammed timestamp) m

-- The functions that copy into an array keep what the rest of the array holds, and the parsers read
-- the member they expect, whatever the tags say: `view` is how a message reads.
module _ (view : Message → EsbView) where
  -- The tags are written before the size is checked.
  unfoldable pub set_node_address : Option Message → Option Buffer → Status × Option Message
  set_node_address = build_from (λ addr m.
      let (status, address) = write_address addr (view m).set_node_addr in
      (status, esb_msg (EsbMessage.set_node_addr address)))

  -- An address that is too long leaves the message alone.
  unfoldable pub write_sniff : Option Message → Option Buffer → ℕ → Bool → Status × Option Message
  write_sniff m p_addr channel show_ack =
      build_from
        (λ addr m. if ltb 5 addr.size then (error, m) else (
          success,
          esb_msg (EsbMessage.sniff (Radio.write_sniff channel show_ack addr (view m).sniff)),
        ))
        m p_addr

  unfoldable pub write_send : Option Message → ℕ → ℕ → Option Buffer → Status × Option Message
  write_send m channel retr_count p_packet =
      build_from
        (λ packet m. (
          success,
          esb_msg (EsbMessage.send (Radio.write_send channel retr_count packet (view m).send)),
        ))
        m p_packet

  unfoldable pub write_send_raw : Option Message → ℕ → ℕ → Option Buffer → Status × Option Message
  write_send_raw m channel retr_count p_packet =
      build_from
        (λ packet m. (
          success,
          esb_msg
              (EsbMessage.send_raw (Radio.write_send channel retr_count packet (view m).send_raw)),
        ))
        m p_packet

  unfoldable pub raw_pdu_received : Option Message → Option Received → Status × Option Message
  raw_pdu_received = build_from (λ p m.
      let (status, received) = write_received p (view m).raw_pdu in
      (status, esb_msg (EsbMessage.raw_pdu received)))

  unfoldable pub pdu_received : Option Message → Option Received → Status × Option Message
  pdu_received = build_from (λ p m.
      let (status, received) = write_received p (view m).pdu in
      (status, esb_msg (EsbMessage.pdu received)))

  -- These two look at the inner tag, and at no outer one.
  unfoldable pub set_node_address_parse : Option Message → Option Buffer → Status × Option Buffer
  set_node_address_parse = parse_with (λ m old.
      if (view m).which_msg == 1 then read_address (view m).set_node_addr old else (error, old))

  unfoldable pub sniff_parse : Option Message → Option Sniff → Status × Option Sniff
  sniff_parse =
      parse_with
        (λ m old. if (view m).which_msg == 2 then read_sniff (view m).sniff old else (error, old))

  unfoldable pub jam_parse : Option Message → Option ℕ → Status × Option ℕ
  jam_parse = parse_with (λ m old. (success, (view m).jam))

  unfoldable pub prx_parse : Option Message → Option ℕ → Status × Option ℕ
  prx_parse = parse_with (λ m old. (success, (view m).prx))

  unfoldable pub ptx_parse : Option Message → Option ℕ → Status × Option ℕ
  ptx_parse = parse_with (λ m old. (success, (view m).ptx))

  -- The 64-bit timestamp is cut to 32 bits.
  unfoldable pub jammed_parse : Option Message → Option ℕ → Status × Option ℕ
  jammed_parse = parse_with (λ m old. (success, (view m).jammed % 2 ^ 32))

  unfoldable pub send_parse : Option Message → Option Send → Status × Option Send
  send_parse = parse_with (λ m old. read_send (view m).send old)

  unfoldable pub send_raw_parse : Option Message → Option Send → Status × Option Send
  send_raw_parse = parse_with (λ m old. read_send (view m).send_raw old)

  unfoldable pub raw_pdu_received_parse :
      Option Message → Option Received → Status × Option Received
  raw_pdu_received_parse = parse_with (λ m old. read_received (view m).raw_pdu old)

  unfoldable pub pdu_received_parse : Option Message → Option Received → Status × Option Received
  pdu_received_parse = parse_with (λ m old. read_received (view m).pdu old)
