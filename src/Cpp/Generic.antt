-- ===== src/Cpp/Generic.antt =====
-- The classes of src/cpp/generic.
use whad_lib.Prelude.{
  ℕ, ◌-◌, ◌%◌, ◌^◌, Bool, List, Option, none, some, ℤ, pos, negsuc, if◌then◌else◌, Status,
  is_success,
}
use whad_lib.Protocol.Message.{Message}
use whad_lib.Generic
use whad_lib.Cpp.{Heap, NanoPbMsg, new, wrap, destroy}
use whad_lib.Cpp.Board.{Outcome, returned, thrown, undefined, target, store, or_old}

-- The object of a class whose `pack` calls one function and does not look at its result.
pub record GenericMsg : Type 0 where
  pub base : NanoPbMsg
  pub pack_callback : Option Message → Status × Option Message

unfoldable pub create : (Option Message → Status × Option Message) → Bool → Heap → GenericMsg × Heap
create pack memory h =
    let (base, h') = new memory h in (record { base = base; pack_callback = pack }, h')

-- The conversion of an `int32_t` to `uint32_t`.
unfoldable pub to_unsigned : ℤ → ℕ
to_unsigned (pos n) = n % 2 ^ 32
to_unsigned (negsuc n) = 2 ^ 32 - 1 - n % 2 ^ 32

-- `CommandResult(ResultCode)`, and the classes of one code each.
unfoldable pub command_result : ℤ → Bool → Heap → GenericMsg × Heap
command_result code = create (λ m. Generic.write_cmd_result m code)

unfoldable pub debug : ℤ → List ℕ → Bool → Heap → GenericMsg × Heap
debug level message = create (λ m. Generic.debug_message m (to_unsigned level) message)

unfoldable pub progress : ℤ → Bool → Heap → GenericMsg × Heap
progress value = create (λ m. Generic.progress_message m (to_unsigned value))

unfoldable pub verbose : List ℕ → Bool → Heap → GenericMsg × Heap
verbose message = create (λ m. Generic.verbose_message m message)

-- The end of `getRaw`, on the message that the pointer leads to.
unfoldable pub packed : GenericMsg → Heap → Option (Option Message) → Outcome (Option ℕ)
packed o h none = undefined
packed o h (some m) =
    returned o.base.p_nanopb_message (store o.base.p_nanopb_message (o.pack_callback m).1 h)

-- `getRaw`: `pack`, and the pointer.
unfoldable pub get_raw : GenericMsg → Heap → Outcome (Option ℕ)
get_raw o h = packed o h (target o.base.p_nanopb_message h)

-- A command result that was parsed.
pub record CommandResult : Type 0 where
  pub base : NanoPbMsg
  pub code : ℤ

-- What the constructor comes to once its parameter is destroyed.
unfoldable pub finish : CommandResult → Status × Option ℤ → Option Heap → Outcome CommandResult
finish o reply none = undefined
finish o (status, code) (some h) =
    if is_success status
    then returned (record { base = o.base; code = or_old o.code code }) h
    else thrown h

-- `unpack`, on the message that the pointer leads to. The parameter is destroyed at the end, on a
-- throw as well.
unfoldable pub unpack : NanoPbMsg → Heap → Option (Option Message) → Outcome CommandResult
unpack message h none = undefined
unpack message h (some m) =
    finish (record { base = wrap message.p_nanopb_message; code = pos 1 })
      (Generic.cmd_result_parse m (some (pos 1))) (destroy message h)

-- What follows the destruction of the second copy.
unfoldable pub parse_rest : NanoPbMsg → Option Heap → Outcome CommandResult
parse_rest message none = undefined
parse_rest message (some h) = unpack message h (target message.p_nanopb_message h)

-- `CommandResult(NanoPbMsg message)`. The parameter is a copy of the caller's wrapper; it is copied
-- again for `GenericMsg(NanoPbMsg pMessage)`, whose own base borrows the pointer, and this second copy
-- is destroyed before `unpack`.
unfoldable pub parse : NanoPbMsg → Heap → Outcome CommandResult
parse message h = parse_rest message (destroy message h)

-- `GenericMsg::getType`, on the message that `getRaw` returned.
unfoldable pub get_type : Message → ℕ
get_type m = Generic.get_message_type m
