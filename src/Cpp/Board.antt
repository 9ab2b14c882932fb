-- ===== src/Cpp/Board.antt =====
-- The classes of inc/cpp/board and src/cpp/domains/board, which differ only in the C functions that
-- they call and in the struct of the value: here one class for each type of message.
use whad_lib.Prelude.{ℕ, Bool, Option, none, some, if◌then◌else◌, Status, is_success}
use mathlib.Core.Option
use whad_lib.Protocol.Kind.{Kind}
use whad_lib.Protocol.Message.{Message}
use whad_lib.Protocol.Payload.{Payload, zero_payload}
use whad_lib.Board.Codec
use whad_lib.Board.Codec.{MsgType}
use whad_lib.Cpp.{Heap, write, NanoPbMsg, new, wrap, destroy}

-- An object of the class of a type of message.
pub record Object (k : Kind) : Type 0 where
  pub base : NanoPbMsg
  pub request_id : ℕ
  pub value : Payload k

-- What a method does: it returns, it throws WhadMessageParsingError, or its behaviour is undefined.
pub data Outcome {ℓ} (A : Type ℓ) : Type ℓ where
  returned : A → Heap → Outcome A
  thrown : Heap → Outcome A
  undefined : Outcome A

-- What the C functions get for a `Message *`: NULL, or the live message; the outer `none` is a
-- pointer to an address that is not live.
unfoldable pub target : Option ℕ → Heap → Option (Option Message)
target none h = some none
target (some a) h = Option.map some (h.cells a)

-- The heap after a C function wrote through a `Message *`.
unfoldable pub store : Option ℕ → Option Message → Heap → Heap
store none m h = h
store (some a) m h = write a m h

unfoldable pub or_old {ℓ} : {A : Type ℓ} → A → Option A → A
or_old old none = old
or_old old (some x) = x

module _ (k : Kind) where
  -- `<Class>(uint32_t request_id)`.
  unfoldable pub create : Bool → ℕ → Heap → Object k × Heap
  create memory request_id h =
      let (base, h') = new memory h in
      (record { base = base; request_id = request_id; value = zero_payload k }, h')

  -- What `getValue` lets the caller do.
  unfoldable pub set_value : Payload k → Object k → Object k
  set_value v o = record { base = o.base; request_id = o.request_id; value = v }

  -- The end of `pack`, on what the C function returned.
  unfoldable pub packed : Object k → Heap → Status × Option Message → Outcome (Option ℕ)
  packed o h (status, m) =
      let h' = store o.base.p_nanopb_message m h in
      if is_success status then returned o.base.p_nanopb_message h' else thrown h'

  -- `getRaw`, which calls `pack` and returns the pointer.
  unfoldable pub get_raw : Object k → Heap → Outcome (Option ℕ)
  unfolding packed target
  get_raw o h = elim (target o.base.p_nanopb_message h) [
    | none ↦ undefined
    | some m ↦ packed o h (Codec.pack k m o.request_id (some o.value))
  ]

  -- The end of a constructor that throws: the base of the object is destroyed.
  unfoldable pub abandon : Option Heap → Outcome (Object k)
  abandon none = undefined
  abandon (some h) = thrown h

  -- The end of `unpack` in the constructor, on what the C function returned and wrote.
  unfoldable pub unpacked :
      Object k → Heap → Status × Option ℕ × Option (Payload k) → Outcome (Object k)
  unfolding abandon or_old
  unpacked o h (status, request_id, value) =
      if is_success status
      then returned
          (record {
            base = o.base;
            request_id = or_old o.request_id request_id;
            value = or_old o.value value;
          })
          h
      else abandon (destroy o.base h)

  -- `<Class>(BoardMsg &message)`. The base is the implicit copy of the argument, pointer and
  -- ownership; `object` holds what stood in the memory of the members, which the constructor does not
  -- initialise.
  unfoldable pub parse : NanoPbMsg → ℕ → Payload k → Heap → Outcome (Object k)
  unfolding unpacked target
  parse message rid old h =
      let o : Object k = record { base = message; request_id = rid; value = old } in
      elim (target message.p_nanopb_message h) [
        | none ↦ undefined
        | some m ↦ unpacked o h (Codec.unpack k m (some rid) (some old))
      ]

-- `BoardMsg(NanoPbMsg &)`, on the pointer that `getRaw` of the argument returned.
unfoldable pub board_msg_of : Option ℕ → NanoPbMsg
board_msg_of p = wrap p

-- `BoardMsg::getType`, on the message that `getRaw` returned.
unfoldable pub get_type : Option Message → MsgType
get_type p = Codec.get_message_type p
