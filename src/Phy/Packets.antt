-- ===== src/Phy/Packets.antt =====
-- PHY packets, to send and received, as messages and as the parameters of the library.
use whad_lib.Prelude.{
  ℕ, ◌≡◌, ◌≤◌, ◌<◌, ◌+◌, ◌*◌, ◌^◌, refl, ap, ap₂, ◌∙◌, List, none, some, take, ltb, if◌then◌else◌,
  success, error, arith, Gives, Gives-subst, ℤ, pos, length,
}
use Prim.Native.Nat.{min}
use whad_lib.Protocol.Buffer.{Buffer, copy_buffer, contents, IsFull}
use whad_lib.Protocol.Phy.{
  PacketReceived, SchedSend, Timestamp, SchedPacket, ReceivedPacket, PhyMessage,
}
use whad_lib.Protocol.Message.{Message, phy_msg}
use whad_lib.Radio.Laws.{if_within, if_beyond, copied_twice, copy_buffer_size}
use whad_lib.Phy.View.{PhyView, Holds, IsView}
use whad_lib.Phy.Time.{timestamp_exact, packet_time}
use whad_lib.Phy.Parse.{
  set_sync_word_parse, send_parse, sched_packet_parse, packet_received_parse, read_packet,
  read_received, from_timestamp,
}
use whad_lib.Phy.{
  build_bytes, to_timestamp, set_sync_word, write_send, sched_packet, packet_received, Radio, clip,
  write_packet,
}

read_packet_small : (src old : Buffer) → src.size ≤ 255 → read_packet src old ≡ copy_buffer src old
unfolding read_packet
read_packet_small src old small = ground arith

-- What a packet received says.
unfoldable pub seen_received : ReceivedPacket → ℕ × ℤ × Timestamp × List ℕ
seen_received p = (p.freq, p.rssi, p.ts, contents p.packet)

clip_lem :
    (n : ℕ) (bytes : List ℕ)
    → clip (record { size = n; bytes = bytes }) ≡ record { size = min n 255; bytes = bytes }
unfolding clip
clip_lem n bytes = ground arith

read_whole :
    (src old : Buffer)
    → src.size ≤ 255
    → (if ltb src.size 256
        then copy_buffer src old
        else record { size = src.size; bytes = old.bytes })
      ≡ copy_buffer src old
read_whole src old small = ground arith

received-read :
    (radio : Radio) (s u n : ℕ) (payload : List ℕ) (word : Buffer) (mid : PacketReceived)
    (old : ReceivedPacket)
    → n ≤ length payload
    → seen_received
        (read_received (write_packet radio s u (record { size = n; bytes = payload }) word mid) old)
      ≡ (radio.frequency, radio.rssi, from_timestamp (to_timestamp s u), take (min n 255) payload)
unfolding seen_received read_received write_packet contents IsFull
received-read radio s u n payload word mid old full =
    ap₂ (λ t c. (radio.frequency, radio.rssi, t, c)) (packet_time s u)
      (ap
          (λ b. contents (
            if ltb (copy_buffer b mid.packet).size 256
            then copy_buffer (copy_buffer b mid.packet) old.packet
            else record { size = (copy_buffer b mid.packet).size; bytes = old.packet.bytes }))
          (clip_lem n payload)
        ∙ ap contents (
            read_whole (copy_buffer cut mid.packet) old.packet
              (omega (arith, copy_buffer_size cut mid.packet)))
        ∙ copied_twice cut mid.packet old.packet (omega arith))
  where
    cut : Buffer
    cut = record { size = min n 255; bytes = payload }

-- What a scheduled packet says.
unfoldable pub seen_sched : SchedPacket → List ℕ × Timestamp
seen_sched p = (contents p.packet, p.ts)

-- A packet of at most 255 bytes, read after it was copied.
packet-read :
    (src mid old : Buffer)
    → IsFull src
    → src.size ≤ 255
    → contents (read_packet (copy_buffer src mid) old) ≡ contents src
packet-read src mid old full small =
    ap contents
      (read_packet_small (copy_buffer src mid) old (omega (arith, copy_buffer_size src mid)))
    ∙ copied_twice src mid old full

module _ (view : Message → PhyView) (reads : IsView view) where
  -- A packet of at most 255 bytes, scheduled for a time that fits, is read as it was given, with its
  -- time; a longer one makes an error that leaves the message alone.
  pub sched_packet_exact :
      (m : Message) (bytes : List ℕ) (n ts_sec ts_usec : ℕ) (old : SchedPacket)
      → n ≤ length bytes
      → ts_usec < 1000000
      → ts_sec * 1000000 + ts_usec < 2 ^ 32
      → (n ≤ 255
          → (made : Message) × (sched_packet view (some m) (some bytes) (pos n) ts_sec ts_usec
              ≡ some (success, some made))
            × Gives seen_sched
                (sched_packet_parse view (some made) (some old))
                (take n bytes, record { ts_sec = ts_sec; ts_usec = ts_usec }))
        × (255 < n
            → sched_packet view (some m) (some bytes) (pos n) ts_sec ts_usec ≡ some (error, some m))
  unfolding sched_packet build_bytes sched_packet_parse IsView Holds seen_sched contents IsFull
  sched_packet_exact m bytes n s u old full small short = (
    (λ fits.
        let src : Buffer = record { size = n; bytes = bytes } in
        let cmd : SchedSend = record {
          packet = copy_buffer src (view m).sched_send.packet;
          timestamp = to_timestamp s u;
        } in
        (
          phy_msg (PhyMessage.sched_send cmd),
          ap some (if_within 255 n _ _ fits),
          Gives-subst seen_sched (take n bytes, record { ts_sec = s; ts_usec = u })
              (ap
                (λ (c : SchedSend). (
                  success,
                  some (record {
                    packet = read_packet c.packet old.packet;
                    ts = from_timestamp c.timestamp;
                  }),
                ))
                (reads (PhyMessage.sched_send cmd)))
              (
                refl,
                ap₂ (λ c t. some (c, t))
                    (packet-read src (view m).sched_send.packet old.packet full fits)
                    ((timestamp_exact s u).1 (small, short)),
              ),
        )),
    (λ long. ap some (if_beyond 255 n _ _ long)),
  )

  -- A synchronisation word of at most 10 bytes, and a packet to send of at most 255, are read as they
  -- were given; a longer one makes an error that leaves the message alone.
  pub bytes_exact :
      (m : Message) (bytes : List ℕ) (n : ℕ) (old : Buffer)
      → n ≤ length bytes
      → (n ≤ 10
          → (made : Message) × (set_sync_word view (some m) (some bytes) (pos n)
              ≡ some (success, some made))
            × Gives contents (set_sync_word_parse view (some made) (some old)) (take n bytes))
        × (10 < n → set_sync_word view (some m) (some bytes) (pos n) ≡ some (error, some m))
        × (n ≤ 255
            → (made : Message) × (write_send view (some m) (some bytes) (pos n)
                ≡ some (success, some made))
              × Gives contents (send_parse view (some made) (some old)) (take n bytes))
        × (255 < n → write_send view (some m) (some bytes) (pos n) ≡ some (error, some m))
  unfolding set_sync_word write_send build_bytes set_sync_word_parse send_parse IsView Holds
      contents IsFull
  bytes_exact m bytes n old full = (
    (λ fits.
        let src : Buffer = record { size = n; bytes = bytes } in
        let word : Buffer = copy_buffer src (view m).sync_word in
        (
          phy_msg (PhyMessage.sync_word word),
          ap some (if_within 10 n _ _ fits),
          Gives-subst contents (take n bytes)
              (ap (λ w. (success, some (copy_buffer w old))) (reads (PhyMessage.sync_word word)))
              (refl, ap some (copied_twice src (view m).sync_word old full)),
        )),
    (λ long. ap some (if_beyond 10 n _ _ long)),
    (λ fits.
        let src : Buffer = record { size = n; bytes = bytes } in
        let packet : Buffer = copy_buffer src (view m).send in
        (
          phy_msg (PhyMessage.send packet),
          ap some (if_within 255 n _ _ fits),
          Gives-subst contents (take n bytes)
              (ap (λ w. (success, some (read_packet w old))) (reads (PhyMessage.send packet)))
              (refl, ap some (packet-read src (view m).send old full fits)),
        )),
    (λ long. ap some (if_beyond 255 n _ _ long)),
  )

  -- A packet received, cut to 255 bytes, is read with its frequency, its RSSI and its time, which comes
  -- back as far as 32 bits hold it. The word has at most 8 bytes, the size of its array: the code does
  -- not check it, and writes past the array where it is longer.
  pub packet_received_exact :
      (m : Message) (radio : Radio) (ts_sec ts_usec n k : ℕ) (payload syncword : List ℕ)
      (old : ReceivedPacket)
      → n ≤ length payload
      → (k ≤ 8
          → (made : Message) × (packet_received view
                (some m)
                radio
                ts_sec
                ts_usec
                (some payload)
                (pos n)
                syncword
                (pos k)
              ≡ some (success, some made))
            × Gives seen_received (packet_received_parse view (some made) (some old)) (
              radio.frequency,
              radio.rssi,
              from_timestamp (to_timestamp ts_sec ts_usec),
              take (min n 255) payload,
            ))
        × (8 < k
            → packet_received view
                (some m)
                radio
                ts_sec
                ts_usec
                (some payload)
                (pos n)
                syncword
                (pos k)
              ≡ none)
  unfolding packet_received packet_received_parse IsView Holds
  packet_received_exact m radio s u n k payload syncword old full = (
    (λ fits.
        let src : Buffer = record { size = n; bytes = payload } in
        let word : Buffer = record { size = k; bytes = syncword } in
        let packet : PacketReceived = write_packet radio s u src word (view m).packet in
        (
          phy_msg (PhyMessage.packet packet),
          if_within 8 k _ _ fits,
          Gives-subst seen_received
              (
                radio.frequency,
                radio.rssi,
                from_timestamp (to_timestamp s u),
                take (min n 255) payload,
              )
              (ap (λ p. (success, some (read_received p old))) (reads (PhyMessage.packet packet)))
              (refl, ap some (received-read radio s u n payload word (view m).packet old full)),
        )),
    (λ long. if_beyond 8 k _ _ long),
  )
