-- ===== src/Dot15d4/Exact.antt =====
-- Which 802.15.4 commands the functions make, and what their parsers make of them.
use whad_lib.Prelude.{
  ℕ, ◌≡◌, ◌≤◌, ◌<◌, ◌%◌, ◌^◌, refl, ap, ap₂, ◌∙◌, List, Option, none, some, take, success, error,
  arith, Status, Gives, Gives-subst, ℤ, pos, negsuc, length,
}
use whad_lib.Protocol.Buffer.{Buffer, memcpy, copy_buffer, contents, IsFull}
use whad_lib.Protocol.Dot15d4.{NodeAddress, SendCmd, SendRawCmd, EdSample, Dot15d4Message}
use whad_lib.Protocol.Message.{Message, dot15d4_msg}
use whad_lib.Radio.Laws.{copied_twice, low_bits}
use whad_lib.Dot15d4.View.{Dot15d4View, Holds, Shares, IsView}
use whad_lib.Dot15d4.{
  set_node_address, write, write_sniff, write_jam, energy_detect, end_device_mode, router_mode,
  coord_mode, mitm_mode, write_jammed, energy_detect_sample, send_packet, read_send, write_send,
  write_send_raw, sniff_parse, jam_parse, energy_detect_parse, end_device_mode_parse,
  router_mode_parse, coord_mode_parse, mitm_mode_parse, jammed_parse, energy_detect_sample_parse,
  send_parse, send_raw_parse,
}

-- What a packet to send says.
unfoldable pub seen_send : SendRawCmd → ℕ × List ℕ × ℕ
seen_send s = (s.channel, contents s.packet, s.fcs)

send_packet_short :
    (channel n : ℕ) (packet : List ℕ) (old : SendCmd)
    → n ≤ 255
    → send_packet channel (pos n) packet old ≡ (
      success,
      record {
        channel = channel;
        packet = record { size = n; bytes = memcpy n packet old.packet.bytes };
      },
    )
unfolding send_packet
send_packet_short channel n packet old small = ground arith

send_packet_long :
    (channel n : ℕ) (packet : List ℕ) (old : SendCmd)
    → 255 < n
    → send_packet channel (pos n) packet old
      ≡ (error, record { channel = channel; packet = old.packet })
unfolding send_packet
send_packet_long channel n packet old long = ground arith

read_send_small :
    (channel fcs : ℕ) (packet : Buffer) (old : SendRawCmd)
    → packet.size ≤ 255
    → read_send channel fcs packet old
      ≡ (success, record { channel = channel; packet = copy_buffer packet old.packet; fcs = fcs })
unfolding read_send
read_send_small channel fcs packet old small = ground arith

-- A packet of at most 255 bytes, read after it was copied.
sent-read :
    (channel fcs n : ℕ) (packet before : List ℕ) (old : SendRawCmd)
    → n ≤ 255
    → n ≤ length packet
    → let r = read_send channel fcs (record { size = n; bytes = memcpy n packet before }) old in
      Gives seen_send (r.0, some r.1) (channel, take n packet, fcs)
unfolding seen_send copy_buffer contents IsFull
sent-read channel fcs n packet before old small full = (
  ap (λ r. r.0) done,
  ap (λ (r : Status × SendRawCmd). some (seen_send r.1)) done
      ∙ ap (λ c. some (channel, c, fcs))
          (copied_twice (record { size = n; bytes = packet }) (record { size = 0; bytes = before })
            old.packet full),
)
  where
    done : read_send channel fcs (record { size = n; bytes = memcpy n packet before }) old ≡ (
      success,
      record {
        channel = channel;
        packet = copy_buffer (record { size = n; bytes = memcpy n packet before }) old.packet;
        fcs = fcs;
      },
    )
    done =
        read_send_small channel fcs (record { size = n; bytes = memcpy n packet before }) old small

-- The condition is wrong: no address is ever accepted, and the message is left alone.
pub set_node_address_refused :
    (m : Option Message) (addr : NodeAddress) → set_node_address m (some addr) ≡ some (error, m)
unfolding set_node_address
set_node_address_refused none addr = refl
set_node_address_refused (some m) addr = refl

module _ (view : Message → Dot15d4View) (reads : IsView view) where
  -- Whatever the message held before, the channel of each mode, the role of a man in the middle, the
  -- timestamp of a jammed notification and an energy sample are read as they were written.
  pub settings-read :
      (m : Message) (value timestamp old : ℕ) (before : EdSample)
      → timestamp < 2 ^ 32
      → (sniff_parse view (write_sniff (some m) value).1 (some old) ≡ (success, some value))
        × (jam_parse view (write_jam (some m) value).1 (some old) ≡ (success, some value))
        × (energy_detect_parse view (energy_detect (some m) value).1 (some old)
            ≡ (success, some value))
        × (end_device_mode_parse view (end_device_mode (some m) value).1 (some old)
            ≡ (success, some value))
        × (router_mode_parse view (router_mode (some m) value).1 (some old) ≡ (success, some value))
        × (coord_mode_parse view (coord_mode (some m) value).1 (some old) ≡ (success, some value))
        × (mitm_mode_parse view (mitm_mode (some m) value).1 (some old) ≡ (success, some value))
        × (jammed_parse view (write_jammed (some m) timestamp).1 (some old)
            ≡ (success, some timestamp))
        × (energy_detect_sample_parse view
              (energy_detect_sample (some m) timestamp value).1
              (some before)
            ≡ (success, some (record { sample = value; timestamp = timestamp })))
  unfolding IsView Holds write write_jammed jammed_parse energy_detect_sample
      energy_detect_sample_parse write_sniff write_jam energy_detect end_device_mode router_mode
      coord_mode mitm_mode sniff_parse jam_parse energy_detect_parse end_device_mode_parse
      router_mode_parse coord_mode_parse mitm_mode_parse
  settings-read m value timestamp old before small = (
    ap (λ c. (success, some c)) (reads (Dot15d4Message.sniff value)).0.1,
    ap (λ c. (success, some c)) (reads (Dot15d4Message.jam value)).0.1,
    ap (λ c. (success, some c)) (reads (Dot15d4Message.ed value)).0.1,
    ap (λ c. (success, some c)) (reads (Dot15d4Message.end_device value)).0.1,
    ap (λ c. (success, some c)) (reads (Dot15d4Message.router value)).0.1,
    ap (λ c. (success, some c)) (reads (Dot15d4Message.coordinator value)).0.1,
    ap (λ c. (success, some c)) (reads (Dot15d4Message.mitm value)).0.1,
    ap (λ t. (success, some (t % 2 ^ 32))) (reads (Dot15d4Message.jammed timestamp)).0.1
        ∙ ap (λ t. (success, some t)) (low_bits timestamp small),
    ap
          (λ (s : EdSample).
            (success, some (record { sample = s.sample; timestamp = s.timestamp % 2 ^ 32 })))
          (reads (Dot15d4Message.ed_sample (record { sample = value; timestamp = timestamp }))).0.1
        ∙ ap (λ t. (success, some (record { sample = value; timestamp = t })))
            (low_bits timestamp small),
  )

  -- A length that is refused: the channel is written, and the packet is what the memory holds.
  unfoldable pub IsRefused : Message → ℕ → List ℕ → ℤ → Type 0
  IsRefused m channel packet n = write_send view (some m) channel (some packet) n ≡ (
    error,
    some (
        dot15d4_msg
          (Dot15d4Message.send (record { channel = channel; packet = (view m).send.packet }))),
  )

  -- A packet of 0 to 255 bytes is read as it was given, with no checksum; any other length makes an
  -- error, and then the message has the channel and the packet that its memory happens to hold.
  pub length_exact :
      (m : Message) (channel : ℕ) (packet : List ℕ) (old : SendRawCmd)
      → ((n : ℕ)
          → n ≤ 255
          → n ≤ length packet
          → let built = write_send view (some m) channel (some packet) (pos n) in
            (built.0 ≡ success)
            × Gives seen_send (send_parse view built.1 (some old)) (channel, take n packet, 0))
        × ((n : ℕ) → 255 < n → IsRefused m channel packet (pos n))
        × ((n : ℕ) → IsRefused m channel packet (negsuc n))
  unfolding IsRefused write_send send_packet send_parse IsView Holds
  length_exact m channel packet old = (
    (λ n small full.
        let written = send_packet_short channel n packet (view m).send small in
        let cmd = (send_packet channel (pos n) packet (view m).send).1 in
        (
          ap (λ r. r.0) written,
          Gives-subst seen_send (channel, take n packet, 0)
              (ap (λ (c : SendCmd). let r = read_send c.channel 0 c.packet old in (r.0, some r.1))
                ((reads (Dot15d4Message.send cmd)).0.1 ∙ ap (λ r. r.1) written))
              (sent-read channel 0 n packet (view m).send.packet.bytes old small full),
        )),
    (λ n long.
        ap (λ (r : Status × SendCmd). (r.0, some (dot15d4_msg (Dot15d4Message.send r.1))))
          (send_packet_long channel n packet (view m).send long)),
    (λ n. refl),
  )

  -- Whatever the pointers, the length and the checksum, a raw packet to send makes the message of a
  -- packet to send, and the checksum is lost. Read as a raw packet, a message for 0 to 255 bytes gives
  -- the channel and the bytes, with the checksum that its memory happens to hold.
  pub checksum_lost :
      (m : Option Message) (channel : ℕ) (p_packet : Option (List ℕ)) (n : ℤ) (fcs : ℕ)
      → (write_send_raw view m channel p_packet n fcs ≡ write_send view m channel p_packet n)
        × ((m : Message) (packet : List ℕ) (n : ℕ) (old : SendRawCmd)
            → n ≤ 255
            → n ≤ length packet
            → let built = write_send_raw view (some m) channel (some packet) (pos n) fcs in
              let cmd = (send_packet channel (pos n) packet (view m).send).1 in
              Gives seen_send (send_raw_parse view built.1 (some old)) (
                channel,
                take n packet,
                (view (dot15d4_msg (Dot15d4Message.send cmd))).send_raw.fcs,
              ))
  unfolding write_send_raw write_send send_raw_parse IsView Holds Shares
  checksum_lost m channel p_packet n fcs = (
    same_call m p_packet,
    (λ m packet n old small full.
        let cmd = (send_packet channel (pos n) packet (view m).send).1 in
        let v = view (dot15d4_msg (Dot15d4Message.send cmd)) in
        let (held_there, shared) = reads (Dot15d4Message.send cmd) in
        let written = ap (λ r. r.1) (send_packet_short channel n packet (view m).send small) in
        let is_sent = held_there.1 ∙ written in
        Gives-subst seen_send (channel, take n packet, v.send_raw.fcs)
          (ap₂ (λ c b. let r = read_send c v.send_raw.fcs b old in (r.0, some r.1))
            (shared.0 ∙ ap (λ c. c.channel) is_sent) (shared.1 ∙ ap (λ c. c.packet) is_sent))
          (sent-read channel v.send_raw.fcs n packet (view m).send.packet.bytes old small full)),
  )
    where
      same_call :
          (m : Option Message) (p_packet : Option (List ℕ))
          → write_send_raw view m channel p_packet n fcs ≡ write_send view m channel p_packet n
      same_call none p_packet = refl
      same_call (some m) none = refl
      same_call (some m) (some packet) = refl
