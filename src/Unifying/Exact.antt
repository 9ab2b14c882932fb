-- ===== src/Unifying/Exact.antt =====
-- Which unifying messages the functions make, and what their parsers make of them.
use whad_lib.Prelude.{
  ℕ, ◌≡◌, ◌≤◌, ◌<◌, ◌%◌, ◌^◌, refl, ap, ◌∙◌, Bool, true, some, success, error, arith, Status, Gives,
  Gives-subst,
}
use whad_lib.Protocol.Buffer.{Buffer, contents, IsFull}
use whad_lib.Protocol.Radio.{Sniff, Send, Received, UnifyingMessage}
use whad_lib.Protocol.Message.{Message, unifying_msg}
use whad_lib.Radio
use whad_lib.Radio.{
  write_address, read_address, read_sniff, read_send, write_received, read_received,
}
use whad_lib.Radio.Laws.{
  seen, seen_sniff, seen_send, IsPacket, write_address_long, address-read, if_within, if_beyond,
  received-read, sniff-read, send-read,
}
use whad_lib.Unifying.View.{UnifyingView, Holds, IsView}
use whad_lib.Unifying.{
  write, write_jam, dongle_mode, keyboard_mode, mouse_mode, write_jammed, set_node_address,
  write_sniff, write_send, write_send_raw, raw_pdu_received, pdu_received, set_node_address_parse,
  sniff_parse, jam_parse, dongle_mode_parse, keyboard_mode_parse, mouse_mode_parse, jammed_parse,
  send_parse, send_raw_parse, raw_pdu_received_parse, pdu_received_parse,
}

module _ (view : Message → UnifyingView) (reads : IsView view) where
  -- Whatever the message held before, the channel of each mode that has only a channel, and the
  -- timestamp of a jammed notification, are read as they were written.
  pub modes-read :
      (m : Message) (channel timestamp old : ℕ)
      → timestamp < 2 ^ 32
      → (jam_parse view (write_jam (some m) channel).1 (some old) ≡ (success, some channel))
        × (dongle_mode_parse view (dongle_mode (some m) channel).1 (some old)
            ≡ (success, some channel))
        × (keyboard_mode_parse view (keyboard_mode (some m) channel).1 (some old)
            ≡ (success, some channel))
        × (mouse_mode_parse view (mouse_mode (some m) channel).1 (some old)
            ≡ (success, some channel))
        × (jammed_parse view (write_jammed (some m) timestamp).1 (some old)
            ≡ (success, some timestamp))
  unfolding IsView Holds write write_jammed jammed_parse write_jam dongle_mode keyboard_mode
      mouse_mode jam_parse dongle_mode_parse keyboard_mode_parse mouse_mode_parse
  modes-read m channel timestamp old small = (
    ap (λ c. (success, some c)) (reads (UnifyingMessage.jam channel)).1,
    ap (λ c. (success, some c)) (reads (UnifyingMessage.dongle channel)).1,
    ap (λ c. (success, some c)) (reads (UnifyingMessage.keyboard channel)).1,
    ap (λ c. (success, some c)) (reads (UnifyingMessage.mouse channel)).1,
    ap (λ t. (success, some (t % 2 ^ 32))) (reads (UnifyingMessage.jammed timestamp)).1
        ∙ ap (λ t. (success, some t)) (omega arith),
  )

  set_node_address_parse-made :
      (a old : Buffer)
      → set_node_address_parse view
          (some (unifying_msg (UnifyingMessage.set_node_addr a)))
          (some old)
        ≡ ((Radio.read_address a old).0, some (Radio.read_address a old).1)
  unfolding IsView Holds set_node_address_parse
  set_node_address_parse-made a old =
      ap (λ x. let r = read_address x old in (r.0, some r.1))
        (reads (UnifyingMessage.set_node_addr a)).1

  sniff_parse-made :
      (a old : Sniff)
      → sniff_parse view (some (unifying_msg (UnifyingMessage.sniff a))) (some old)
        ≡ ((Radio.read_sniff a old).0, some (Radio.read_sniff a old).1)
  unfolding IsView Holds sniff_parse
  sniff_parse-made a old =
      ap (λ x. let r = read_sniff x old in (r.0, some r.1)) (reads (UnifyingMessage.sniff a)).1

  send_parse-made :
      (a old : Send)
      → send_parse view (some (unifying_msg (UnifyingMessage.send a))) (some old)
        ≡ ((Radio.read_send a old).0, some (Radio.read_send a old).1)
  unfolding IsView Holds send_parse
  send_parse-made a old =
      ap (λ x. let r = read_send x old in (r.0, some r.1)) (reads (UnifyingMessage.send a)).1

  send_raw_parse-made :
      (a old : Send)
      → send_raw_parse view (some (unifying_msg (UnifyingMessage.send_raw a))) (some old)
        ≡ ((Radio.read_send a old).0, some (Radio.read_send a old).1)
  unfolding IsView Holds send_raw_parse
  send_raw_parse-made a old =
      ap (λ x. let r = read_send x old in (r.0, some r.1)) (reads (UnifyingMessage.send_raw a)).1

  raw_pdu_received_parse-made :
      (a old : Received)
      → raw_pdu_received_parse view (some (unifying_msg (UnifyingMessage.raw_pdu a))) (some old)
        ≡ ((Radio.read_received a old).0, some (Radio.read_received a old).1)
  unfolding IsView Holds raw_pdu_received_parse
  raw_pdu_received_parse-made a old =
      ap (λ x. let r = read_received x old in (r.0, some r.1)) (reads (UnifyingMessage.raw_pdu a)).1

  pdu_received_parse-made :
      (a old : Received)
      → pdu_received_parse view (some (unifying_msg (UnifyingMessage.pdu a))) (some old)
        ≡ ((Radio.read_received a old).0, some (Radio.read_received a old).1)
  unfolding IsView Holds pdu_received_parse
  pdu_received_parse-made a old =
      ap (λ x. let r = read_received x old in (r.0, some r.1)) (reads (UnifyingMessage.pdu a)).1

  -- An address of at most five bytes is set and read back; a longer one makes an error, after the tags
  -- are written, and the message then holds the address that its memory happens to hold.
  pub node_address_exact :
      (m : Message) (addr old : Buffer)
      → IsFull addr
      → let built = set_node_address view (some m) (some addr) in
        (addr.size ≤ 5
          → (built.0 ≡ success)
            × Gives contents (set_node_address_parse view built.1 (some old)) (contents addr))
        × (5 < addr.size
            → built
              ≡ (error, some (unifying_msg (UnifyingMessage.set_node_addr (view m).set_node_addr))))
  unfolding set_node_address
  node_address_exact m addr old full = (
    (λ fits.
        let (written, status, same) = address-read addr (view m).set_node_addr old full fits in
        (
          written,
          Gives-subst contents (contents addr)
              (set_node_address_parse-made (write_address addr (view m).set_node_addr).1 old)
              (status, ap some same),
        )),
    (λ long.
        ap (λ r. (r.0, some (unifying_msg (UnifyingMessage.set_node_addr r.1))))
          (write_address_long addr (view m).set_node_addr long)),
  )

  write_sniff-short :
      (m : Message) (addr : Buffer) (channel : ℕ) (show_ack : Bool)
      → addr.size ≤ 5
      → write_sniff view (some m) (some addr) channel show_ack ≡ (
        success,
        some (
            unifying_msg
              (UnifyingMessage.sniff (Radio.write_sniff channel show_ack addr (view m).sniff))),
      )
  unfolding write_sniff
  write_sniff-short m addr channel show_ack fits =
      ap (λ (r : Status × Message). (r.0, some r.1)) (if_within 5 addr.size _ _ fits)

  -- The parameters of a sniffing command are read as they were given, whatever was there before; an
  -- address of more than five bytes makes an error that leaves the message alone.
  pub sniffer_exact :
      (m : Message) (addr : Buffer) (channel : ℕ) (show_ack : Bool) (old : Sniff)
      → IsFull addr
      → let built = write_sniff view (some m) (some addr) channel show_ack in
        (addr.size ≤ 5
          → (built.0 ≡ success)
            × Gives seen_sniff
                (sniff_parse view built.1 (some old))
                (channel, show_ack, contents addr))
        × (5 < addr.size → built ≡ (error, some m))
  unfolding write_sniff
  sniffer_exact m addr channel show_ack old full = (
    (λ fits.
        let (status, same) = sniff-read channel show_ack addr (view m).sniff old full fits in
        (
          ap (λ r. r.0) (write_sniff-short m addr channel show_ack fits),
          Gives-subst seen_sniff (channel, show_ack, contents addr)
              (ap (λ r. sniff_parse view r.1 (some old))
                  (write_sniff-short m addr channel show_ack fits)
                ∙ sniff_parse-made (Radio.write_sniff channel show_ack addr (view m).sniff) old)
              (status, ap some same),
        )),
    (λ long. ap (λ (r : Status × Message). (r.0, some r.1)) (if_beyond 5 addr.size _ _ long)),
  )

  -- A packet to send, at once or as it is, is read as it was given: the length check of the parser
  -- never fails.
  pub send_command_exact :
      (m : Message) (channel retr_count : ℕ) (packet : Buffer) (old : Send)
      → IsFull packet
      → packet.size < 256
      → let built = write_send view (some m) channel retr_count (some packet) in
        let raw = write_send_raw view (some m) channel retr_count (some packet) in
        (built.0 ≡ success)
        × Gives seen_send
            (send_parse view built.1 (some old))
            (channel, retr_count, contents packet)
        × (raw.0 ≡ success)
        × Gives seen_send
            (send_raw_parse view raw.1 (some old))
            (channel, retr_count, contents packet)
  unfolding write_send write_send_raw
  send_command_exact m channel retr_count packet old full small =
      let (status, same) = send-read channel retr_count packet (view m).send old full small in
      let (raw_status, raw_same) =
        send-read channel retr_count packet (view m).send_raw old full small in
      (
        refl,
        Gives-subst seen_send (channel, retr_count, contents packet)
            (send_parse-made (Radio.write_send channel retr_count packet (view m).send) old)
            (status, ap some same),
        refl,
        Gives-subst seen_send (channel, retr_count, contents packet)
            (send_raw_parse-made (Radio.write_send channel retr_count packet (view m).send_raw) old)
            (raw_status, ap some raw_same),
      )

  -- A packet received, raw or not, whose address is absent or has at most five bytes, is read as it was
  -- given: channel, payload, and each optional field or its absence. Neither what the message held
  -- before nor what the parameters held before shows.
  pub report_exact :
      (m : Message) (p old : Received)
      → IsPacket p
      → ((p.has_address ≡ true) → p.address.size ≤ 5)
      → let built = pdu_received view (some m) (some p) in
        let raw = raw_pdu_received view (some m) (some p) in
        (built.0 ≡ success)
        × Gives seen (pdu_received_parse view built.1 (some old)) (seen p)
        × (raw.0 ≡ success)
        × Gives seen (raw_pdu_received_parse view raw.1 (some old)) (seen p)
  unfolding pdu_received raw_pdu_received
  report_exact m p old packet fits =
      let (written, status, same) = received-read p (view m).pdu old packet fits in
      let (raw_written, raw_status, raw_same) = received-read p (view m).raw_pdu old packet fits in
      (
        written,
        Gives-subst seen (seen p) (pdu_received_parse-made (write_received p (view m).pdu).1 old)
            (status, ap some same),
        raw_written,
        Gives-subst seen (seen p)
            (raw_pdu_received_parse-made (write_received p (view m).raw_pdu).1 old)
            (raw_status, ap some raw_same),
      )
