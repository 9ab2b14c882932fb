-- ===== src/Ble/Sequence.antt =====
-- src/domains/ble.c: prepared sequences of packets, with their triggers.
use whad_lib.Prelude.{
  ℕ, zero, suc, List, [], ◌∷◌, take, map, Option, none, some, ltb, ◌==◌, ◌||◌, if◌then◌else◌,
  Status, success, error, parse_with,
}
use whad_lib.Protocol.Buffer.{Buffer, copy_buffer}
use whad_lib.Protocol.Ble.{Reception, Trigger, BleMessage}
use whad_lib.Protocol.Message.{Message, ble_msg}
use mathlib.Core.Option
use whad_lib.Ble.View.{BleView}

-- `_whad_ble_sequence_copy_packets`, for `count` packets over the entries of the message. A packet of no
-- bytes or of more than 255 ends it with an error, its size written; `none` where the packets or the
-- entries run out.
unfoldable pub copy_packets : ℕ → List Buffer → List Buffer → Option (Status × List Buffer)
copy_packets zero packets old = some (success, old)
copy_packets (suc n) [] old = none
copy_packets (suc n) (p ∷ packets) [] = none
copy_packets (suc n) (p ∷ packets) (o ∷ old) =
    let rest = copy_packets n packets old in
    if (p.size == 0) || ltb 255 p.size
    then some (error, record { size = p.size; bytes = o.bytes } ∷ old)
    else Option.map (λ r. (r.0, copy_buffer p o ∷ r.1)) rest

-- The message with the sequence that was copied.
unfoldable pub with_sequence :
    Trigger → ℕ → ℕ → ℕ → Option (Status × List Buffer) → Option (Status × Option Message)
with_sequence trigger id direction count none = none
with_sequence trigger id direction count (some (status, sequence)) = some (
  status,
  some (
      ble_msg (
        BleMessage.prepare (record {
          trigger = trigger;
          id = id;
          direction = direction;
          sequence_count = count;
          sequence = sequence;
        }))),
)

-- `*p_trigger_type`: `BLE_PATTERN_TRIGGER`, `BLE_CONNEVT_TRIGGER` and `BLE_MANUAL_TRIGGER`.
pub data TriggerType : Type 0 where
  pattern_trigger connevt_trigger manual_trigger : TriggerType

unfoldable pub trigger_type : Trigger → TriggerType → Status × TriggerType
trigger_type Trigger.manual old = (success, manual_trigger)
trigger_type (Trigger.connection_event _) old = (success, connevt_trigger)
trigger_type (Trigger.reception _) old = (success, pattern_trigger)
trigger_type Trigger.trigger_unset old = (error, old)

-- `whad_ble_prepseq_params_t`, without the fields that no parser fills. `packets` are the first entries
-- of its array.
pub record PrepseqParams : Type 0 where
  pub id : ℕ
  pub conn_evt : ℕ
  pub direction : ℕ
  pub packets : List (List ℕ)
  pub packet_count : ℕ

unfoldable pub contents_of : Buffer → List ℕ
contents_of b = take b.size b.bytes

-- A trigger without an event of its own has the event that the memory of its union holds.
unfoldable pub event_of : ℕ → Trigger → ℕ
event_of memory (Trigger.connection_event e) = e
event_of memory _ = memory

-- `view` is how a message reads.
module _ (view : Message → BleView) where
  unfoldable pub prepare_sequence_manual :
      Option Message → ℕ → ℕ → Option (List Buffer) → ℕ → Option (Status × Option Message)
  prepare_sequence_manual none id direction p_packets count = some (error, none)
  prepare_sequence_manual (some m) id direction none count = some (error, some m)
  prepare_sequence_manual (some m) id direction (some packets) count =
      with_sequence Trigger.manual id direction count
        (copy_packets count packets (view m).prepare.sequence)

  unfoldable pub prepare_sequence_conn_evt :
      Option Message → ℕ → ℕ → ℕ → Option (List Buffer) → ℕ → Option (Status × Option Message)
  prepare_sequence_conn_evt none event id direction p_packets count = some (error, none)
  prepare_sequence_conn_evt (some m) event id direction none count = some (error, some m)
  prepare_sequence_conn_evt (some m) event id direction (some packets) count =
      with_sequence (Trigger.connection_event event) id direction count
        (copy_packets count packets (view m).prepare.sequence)

  unfoldable pub get_trigger_type :
      Option Message → Option TriggerType → Status × Option TriggerType
  get_trigger_type = parse_with (λ m old. trigger_type (view m).prepare.trigger old)

  -- The number of packets is left at zero.
  unfoldable pub prepare_sequence_manual_parse :
      Option Message → Option PrepseqParams → Status × Option PrepseqParams
  prepare_sequence_manual_parse = parse_with (λ m old. (
    success,
    record {
      id = (view m).prepare.id;
      conn_evt = 0;
      direction = (view m).prepare.direction;
      packets = map contents_of (take (view m).prepare.sequence_count (view m).prepare.sequence);
      packet_count = 0;
    },
  ))

  -- `memory` is what the union of the triggers reads as where another trigger was written.
  unfoldable pub prepare_sequence_conn_evt_parse :
      ℕ → Option Message → Option PrepseqParams → Status × Option PrepseqParams
  prepare_sequence_conn_evt_parse memory = parse_with (λ m old. (
    success,
    record {
      id = (view m).prepare.id;
      conn_evt = event_of memory (view m).prepare.trigger;
      direction = (view m).prepare.direction;
      packets = map contents_of (take (view m).prepare.sequence_count (view m).prepare.sequence);
      packet_count = 0;
    },
  ))

-- The packets are an error where they are not NULL. Where they are, a sequence of no packets is made, and
-- any other is read through NULL: `none`. A pattern of 1 to 254 bytes is written; any other length is an
-- error, after the identifier and the tag of the trigger. The offset is not written: `memory` is what the
-- trigger of the message reads as.
module _ (view : Message → BleView) (memory : Message → Reception) where
  unfoldable pub write_reception : ℕ → List ℕ → List ℕ → Reception → Reception
  write_reception n pattern mask old = record {
    pattern = copy_buffer (record { size = n; bytes = pattern }) old.pattern;
    mask = copy_buffer (record { size = n; bytes = mask }) old.mask;
    offset = old.offset;
  }

  unfoldable pub on_recv_no_packets :
      Message → List ℕ → List ℕ → ℕ → ℕ → ℕ → ℕ → Option (Status × Option Message)
  on_recv_no_packets m pattern mask length id direction count =
      if (length == 0) || ltb 254 length
      then some (
        error,
        some (
            ble_msg (
              BleMessage.prepare
                (record ((view m).prepare) { trigger = Trigger.reception (memory m); id = id }))),
      )
      else if count == 0
      then with_sequence (Trigger.reception (write_reception length pattern mask (memory m))) id
          direction 0 (copy_packets 0 [] (view m).prepare.sequence)
      else none

  -- The length 0 stands for any that is not positive.
  unfoldable pub prepare_sequence_on_recv :
      Option Message
      → Option (List ℕ)
      → Option (List ℕ)
      → ℕ
      → ℕ
      → ℕ
      → ℕ
      → Option (List Buffer)
      → ℕ
      → Option (Status × Option Message)
  prepare_sequence_on_recv none p_pattern p_mask length offset id direction p_packets count =
      some (error, none)
  prepare_sequence_on_recv (some m) none p_mask length offset id direction p_packets count =
      some (error, some m)
  prepare_sequence_on_recv (some m) (some pattern) none length offset id direction p_packets count =
      some (error, some m)
  prepare_sequence_on_recv (some m) (some pattern) (some mask) length offset id direction
        (some packets) count =
      some (error, some m)
  prepare_sequence_on_recv (some m) (some pattern) (some mask) length offset id direction none
        count =
      on_recv_no_packets m pattern mask length id direction count
