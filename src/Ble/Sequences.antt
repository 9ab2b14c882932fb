-- ===== src/Ble/Sequences.antt =====
-- Prepared sequences of packets, as they are set and read back.
use whad_lib.Prelude.{
  ℕ, ◌≡◌, ◌≤◌, ◌<◌, refl, ap, ap₂, ◌∙◌, List, [], ◌∷◌, take, map, length, some, ltb, ◌==◌, ◌||◌,
  if◌then◌else◌, success, arith, Gives, Gives-subst,
}
use mathlib.Core.Option
use whad_lib.Protocol.Buffer.{Buffer, copy_buffer, contents, IsFull, contents-copy_buffer}
use whad_lib.Protocol.Ble.{BleMessage, Prepare, Trigger}
use whad_lib.Protocol.Message.{Message, ble_msg}
use whad_lib.Ble.View.{BleView, Holds, IsView}
use whad_lib.Ble.Sequence.{
  copy_packets, with_sequence, contents_of, prepare_sequence_manual, prepare_sequence_conn_evt,
  prepare_sequence_manual_parse, prepare_sequence_conn_evt_parse, get_trigger_type, trigger_type,
  event_of, PrepseqParams, TriggerType, manual_trigger, connevt_trigger,
}

-- Every packet has 1 to 255 bytes, and its array as many.
unfoldable pub AllFit : List Buffer → Type 0
AllFit [] = Unit
AllFit (p ∷ packets) = (0 < p.size) × (p.size < 256) × IsFull p × AllFit packets

-- The entries after the packets were copied.
copied : List Buffer → List Buffer → List Buffer
copied [] old = old
copied (p ∷ packets) [] = []
copied (p ∷ packets) (o ∷ old) = copy_buffer p o ∷ copied packets old

fits_test :
    {A : Type 0} (n : ℕ) (a b : A) → 0 < n → n < 256 → (if (n == 0) || ltb 255 n then a else b) ≡ b
fits_test n a b positive small = ground arith

all_copied :
    (packets old : List Buffer)
    → AllFit packets
    → length packets ≤ length old
    → copy_packets (length packets) packets old ≡ some (success, copied packets old)
unfolding copy_packets AllFit copied
all_copied [] old fit room = refl
all_copied (p ∷ packets) [] fit room = absurd (omega arith)
all_copied (p ∷ packets) (o ∷ old) (positive, small, full, fit) room =
    fits_test p.size _ _ positive small
    ∙ ap (Option.map (λ r. (r.0, copy_buffer p o ∷ r.1))) (all_copied packets old fit (omega arith))

copied-read :
    (packets old : List Buffer)
    → AllFit packets
    → length packets ≤ length old
    → map contents_of (take (length packets) (copied packets old)) ≡ map contents_of packets
unfolding copied AllFit contents_of contents
copied-read [] old fit room = refl
copied-read (p ∷ packets) [] fit room = absurd (omega arith)
copied-read (p ∷ packets) (o ∷ old) (positive, small, full, fit) room =
    ap₂ (λ c cs. c ∷ cs) (contents-copy_buffer p o full) (copied-read packets old fit (omega arith))

-- What the parameters of a sequence say.
unfoldable pub seen_sequence : PrepseqParams → ℕ × ℕ × ℕ × List (List ℕ) × ℕ
seen_sequence p = (p.id, p.conn_evt, p.direction, p.packets, p.packet_count)

module _ (view : Message → BleView) (reads : IsView view) where
  -- A sequence of packets of 1 to 255 bytes each, at most as many as the message has entries, for a
  -- manual trigger or a connection event, is read with its identifier, its direction, its event and its
  -- packets, and its trigger as what it is. The number of packets is read as zero.
  pub sequence_exact :
      (m : Message) (id direction event memory : ℕ) (packets : List Buffer) (old : PrepseqParams)
      (before : TriggerType)
      → AllFit packets
      → length packets ≤ length (view m).prepare.sequence
      → ((made : Message) × (prepare_sequence_manual view
              (some m)
              id
              direction
              (some packets)
              (length packets)
            ≡ some (success, some made))
          × (get_trigger_type view (some made) (some before) ≡ (success, some manual_trigger))
          × Gives seen_sequence
              (prepare_sequence_manual_parse view (some made) (some old))
              (id, 0, direction, map contents_of packets, 0))
        × ((made : Message) × (prepare_sequence_conn_evt view
                (some m)
                event
                id
                direction
                (some packets)
                (length packets)
              ≡ some (success, some made))
            × (get_trigger_type view (some made) (some before) ≡ (success, some connevt_trigger))
            × Gives seen_sequence
                (prepare_sequence_conn_evt_parse view memory (some made) (some old))
                (id, event, direction, map contents_of packets, 0))
  unfolding IsView Holds prepare_sequence_manual prepare_sequence_conn_evt with_sequence
      get_trigger_type trigger_type prepare_sequence_manual_parse prepare_sequence_conn_evt_parse
      event_of seen_sequence
  sequence_exact m id direction event memory packets old before fit room =
      let entries = (view m).prepare.sequence in
      let done = all_copied packets entries fit room in
      let same = copied-read packets entries fit room in
      (
        (
          ble_msg (BleMessage.prepare (prepared Trigger.manual)),
          ap (with_sequence Trigger.manual id direction (length packets)) done,
          ap (λ (p : Prepare). let r = trigger_type p.trigger before in (r.0, some r.1))
              (reads (BleMessage.prepare (prepared Trigger.manual))),
          Gives-subst seen_sequence (id, 0, direction, map contents_of packets, 0)
              (ap
                (λ (p : Prepare). (
                  success,
                  some (record {
                    id = p.id;
                    conn_evt = 0;
                    direction = p.direction;
                    packets = map contents_of (take p.sequence_count p.sequence);
                    packet_count = 0;
                  }),
                ))
                (reads (BleMessage.prepare (prepared Trigger.manual))))
              (refl, ap (λ cs. some (id, 0, direction, cs, 0)) same),
        ),
        (
          ble_msg (BleMessage.prepare (prepared (Trigger.connection_event event))),
          ap (with_sequence (Trigger.connection_event event) id direction (length packets)) done,
          ap (λ (p : Prepare). let r = trigger_type p.trigger before in (r.0, some r.1))
              (reads (BleMessage.prepare (prepared (Trigger.connection_event event)))),
          Gives-subst seen_sequence (id, event, direction, map contents_of packets, 0)
              (ap
                (λ (p : Prepare). (
                  success,
                  some (record {
                    id = p.id;
                    conn_evt = event_of memory p.trigger;
                    direction = p.direction;
                    packets = map contents_of (take p.sequence_count p.sequence);
                    packet_count = 0;
                  }),
                ))
                (reads (BleMessage.prepare (prepared (Trigger.connection_event event)))))
              (refl, ap (λ cs. some (id, event, direction, cs, 0)) same),
        ),
      )
    where
      prepared : Trigger → Prepare
      prepared t = record {
        trigger = t;
        id = id;
        direction = direction;
        sequence_count = length packets;
        sequence = copied packets (view m).prepare.sequence;
      }
