-- ===== src/Dot15d4/Received.antt =====
-- The 802.15.4 packets received, as messages and as the parameters of the library.
use whad_lib.Prelude.{
  ℕ, ◌≡◌, ◌<◌, ◌^◌, refl, ap, ap₂, ◌∙◌, Bool, List, Option, some, success, arith, Gives,
  Gives-subst, ℤ,
}
use whad_lib.Protocol.Buffer.{Field, copy_field, contents, held, IsFull}
use whad_lib.Protocol.Dot15d4.{PduReceived, RawPduReceived, Dot15d4Message}
use whad_lib.Protocol.Message.{Message, dot15d4_msg}
use whad_lib.Radio.Laws.{copied_twice, field-read, timestamp-read}
use whad_lib.Dot15d4.View.{Dot15d4View, Holds, Shares, IsView}
use whad_lib.Dot15d4.{
  write_lqi, write_raw_pdu, write_pdu, read_pdu, raw_pdu_received, pdu_received,
  raw_pdu_received_parse, pdu_received_parse,
}

-- What a packet received says, but for its checksum and LQI.
unfoldable pub seen : RawPduReceived → ℕ × Option ℤ × Option ℕ × Option Bool × List ℕ
seen p = (p.channel, held p.rssi, held p.timestamp, held p.fcs_validity, contents p.packet)

unfoldable pub seen_raw :
    RawPduReceived → (ℕ × Option ℤ × Option ℕ × Option Bool × List ℕ) × (ℕ × Option ℕ)
seen_raw p = (seen p, (p.fcs, held p.lqi))

-- A packet received that the C types allow.
unfoldable pub IsPacket : RawPduReceived → Type 0
IsPacket p = IsFull p.packet × (p.timestamp.value < 2 ^ 32)

lqi-read : (f old : Field ℕ) → held (copy_field (write_lqi f) old) ≡ held f
unfolding write_lqi held copy_field
lqi-read f old = ground arith

pub seen-read :
    (p old : RawPduReceived) (mid : RawPduReceived) (fcs : ℕ)
    → IsPacket p
    → seen (read_pdu fcs (write_raw_pdu p mid) old) ≡ seen p
unfolding IsPacket seen read_pdu write_raw_pdu
seen-read p old mid fcs (full, recent) = simp (
  field-read p.rssi mid.rssi old.rssi,
  timestamp-read p.timestamp mid.timestamp old.timestamp recent,
  field-read p.fcs_validity mid.fcs_validity old.fcs_validity,
  copied_twice p.packet mid.packet old.packet full,
)

lqi_kept :
    (p old : RawPduReceived) (mid : RawPduReceived) (fcs : ℕ)
    → held (read_pdu fcs (write_raw_pdu p mid) old).lqi ≡ held p.lqi
unfolding read_pdu write_raw_pdu
lqi_kept p old mid fcs = lqi-read p.lqi old.lqi

raw-read :
    (p old : RawPduReceived) (mid : RawPduReceived)
    → IsPacket p
    → seen_raw (read_pdu p.fcs (write_raw_pdu p mid) old) ≡ seen_raw p
unfolding seen_raw read_pdu write_raw_pdu
raw-read p old mid packet =
    ap₂ (λ s l. (s, (p.fcs, l))) (seen-read p old mid p.fcs packet) (lqi_kept p old mid p.fcs)

-- Two raw packets that agree on the fields that the two structs share say the same.
pub seen-shared :
    (a b old : RawPduReceived) (fcs : ℕ)
    → a.channel ≡ b.channel
    → a.rssi ≡ b.rssi
    → a.timestamp ≡ b.timestamp
    → a.fcs_validity ≡ b.fcs_validity
    → a.packet ≡ b.packet
    → seen (read_pdu fcs a old) ≡ seen (read_pdu fcs b old)
unfolding seen read_pdu
seen-shared a b old fcs channel rssi timestamp validity packet =
    simp (channel, rssi, timestamp, validity, packet)

module _ (view : Message → Dot15d4View) (reads : IsView view) where
  -- A raw packet received is read as it was given, with its checksum and LQI: neither what the message
  -- held before nor what the parameters held before shows.
  pub raw_packet_exact :
      (m : Message) (p old : RawPduReceived)
      → IsPacket p
      → let built = raw_pdu_received view (some m) (some p) in
        (built.0 ≡ success)
        × Gives seen_raw (raw_pdu_received_parse view built.1 (some old)) (seen_raw p)
  unfolding IsView Holds raw_pdu_received raw_pdu_received_parse write_raw_pdu
  raw_packet_exact m p old packet =
      let made = write_raw_pdu p (view m).raw_pdu in
      (
        refl,
        Gives-subst seen_raw (seen_raw p)
            (ap (λ (x : RawPduReceived). (success, some (read_pdu x.fcs x old)))
              (reads (Dot15d4Message.raw_pdu made)).0.1)
            (refl, ap some (raw-read p old (view m).raw_pdu packet)),
      )

  -- The fields of a packet before the call, as those of a raw packet.
  with_fcs : PduReceived → RawPduReceived
  with_fcs p = record {
    channel = p.channel;
    rssi = p.rssi;
    timestamp = p.timestamp;
    fcs_validity = p.fcs_validity;
    packet = p.packet;
    fcs = 0;
    lqi = p.lqi;
  }

  -- A packet received is read as it was given, but for its LQI: the parser reads the member of raw
  -- packets, whose LQI stands elsewhere.
  pub packet_exact :
      (m : Message) (p old : RawPduReceived)
      → IsPacket p
      → let built = pdu_received view (some m) (some p) in
        (built.0 ≡ success) × Gives seen (pdu_received_parse view built.1 (some old)) (seen p)
  unfolding IsView Holds Shares pdu_received pdu_received_parse write_pdu write_raw_pdu with_fcs
  packet_exact m p old packet =
      let before = (view m).pdu in
      let made = write_pdu p before in
      let v = view (dot15d4_msg (Dot15d4Message.pdu made)) in
      let (held_there, shared) = reads (Dot15d4Message.pdu made) in
      let (_, _, channel, rssi, timestamp, validity, bytes) = shared in
      let same = held_there.1 in
      (
        refl,
        (
          refl,
          ap some (
              seen-shared v.raw_pdu (write_raw_pdu p (with_fcs before)) old old.fcs
                (channel ∙ ap (λ r. r.channel) same) (rssi ∙ ap (λ r. r.rssi) same)
                (timestamp ∙ ap (λ r. r.timestamp) same) (validity ∙ ap (λ r. r.fcs_validity) same)
                (bytes ∙ ap (λ r. r.packet) same)
              ∙ seen-read p old (with_fcs before) old.fcs packet),
        ),
      )
