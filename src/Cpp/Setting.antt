-- ===== src/Cpp/Setting.antt =====
-- The classes of src/cpp/domains for the domains other than board whose objects hold one value: what
-- they share. They differ from those of the board domain: `pack` does not look at what the C function
-- returned.
use whad_lib.Prelude.{ℕ, Bool, true, false, Option, none, some, if◌then◌else◌, Status, error}
use whad_lib.Protocol.Message.{Message}
use whad_lib.Cpp.{Heap, NanoPbMsg, new, wrap, destroy}
use whad_lib.Cpp.Board.{Outcome, returned, thrown, undefined, target, store, or_old}

-- The C functions that `pack` and `unpack` of a class call, and what the default constructors of a second
-- base and of the members make of the memory of the value before `unpack` runs.
pub record Calls (A : Type 0) : Type 0 where
  pub pack : Option Message → A → Status × Option Message
  pub unpack : Option Message → Option A → Status × Option A
  pub prepare : A → A

-- An object of such a class.
pub record Setting (A : Type 0) : Type 0 where
  pub base : NanoPbMsg
  pub value : A

-- `status == WHAD_ERROR`.
unfoldable pub is_error : Status → Bool
is_error error = true
is_error _ = false

module _ {A : Type 0} (c : Calls A) where
  -- `<Class>(value)`.
  unfoldable pub create : Bool → A → Heap → Setting A × Heap
  create memory value h =
      let (base, h') = new memory h in (record { base = base; value = value }, h')

  -- The end of `getRaw`, on the message that the pointer leads to.
  unfoldable pub packed : Setting A → Heap → Option (Option Message) → Outcome (Option ℕ)
  packed o h none = undefined
  packed o h (some m) =
      returned o.base.p_nanopb_message (store o.base.p_nanopb_message (c.pack m o.value).1 h)

  -- `getRaw`: `pack`, and the pointer.
  unfoldable pub get_raw : Setting A → Heap → Outcome (Option ℕ)
  get_raw o h = packed o h (target o.base.p_nanopb_message h)

  -- The end of a constructor that throws: the base of the object is destroyed.
  unfoldable pub abandon : Option Heap → Outcome (Setting A)
  abandon none = undefined
  abandon (some h) = thrown h

  -- The end of `unpack` in the constructor, on what the C function returned and wrote.
  unfoldable pub unpacked : Setting A → Heap → Status × Option A → Outcome (Setting A)
  unpacked o h (status, value) =
      if is_error status
      then abandon (destroy o.base h)
      else returned (record { base = o.base; value = or_old o.value value }) h

  -- `unpack` in the constructor, on the message that the pointer leads to.
  unfoldable pub parse_at : Setting A → Heap → Option (Option Message) → Outcome (Setting A)
  parse_at o h none = undefined
  parse_at o h (some m) = unpacked o h (c.unpack m (some o.value))

  -- `<Class>(<Domain>Msg &message)`. The base is the implicit copy of the argument, pointer and
  -- ownership; `old` is what stood in the memory of the value before the constructors ran.
  unfoldable pub parse : NanoPbMsg → A → Heap → Outcome (Setting A)
  parse message old h =
      parse_at (record { base = message; value = c.prepare old }) h
        (target message.p_nanopb_message h)

  -- `<Class>(NanoPbMsg &message)`: the base borrows the pointer that `getRaw` of the argument returned.
  unfoldable pub parse_borrowed : NanoPbMsg → A → Heap → Outcome (Setting A)
  parse_borrowed message = parse (wrap message.p_nanopb_message)

-- The public methods of a class: its two constructors, and `getRaw`.
pub record SettingClass (A : Type 0) : Type 0 where
  pub create : Bool → A → Heap → Setting A × Heap
  pub parse : NanoPbMsg → A → Heap → Outcome (Setting A)
  pub get_raw : Setting A → Heap → Outcome (Option ℕ)

abbrev pub class_of : {A : Type 0} → Calls A → SettingClass A
class_of c = record { create = create c; parse = parse c; get_raw = get_raw c }

-- A class whose second constructor takes a `NanoPbMsg &`.
abbrev pub borrowing : {A : Type 0} → Calls A → SettingClass A
borrowing c = record { create = create c; parse = parse_borrowed c; get_raw = get_raw c }

-- A class whose second constructor does not call `unpack`: the value is what the constructors of the
-- bases and the members left in the memory.
abbrev pub not_unpacking : {A : Type 0} → Calls A → SettingClass A
not_unpacking c = record {
  create = create c;
  parse = λ message old h. returned (record { base = message; value = c.prepare old }) h;
  get_raw = get_raw c;
}

-- The constructor of a class without `unpack` that takes its value out of the member itself: a NULL
-- pointer is followed.
unfoldable pub read_member :
    {A : Type 0} → (Message → A) → NanoPbMsg → Heap → Option (Option Message) → Outcome (Setting A)
read_member read message h (some (some m)) = returned (record { base = message; value = read m }) h
read_member read message h _ = undefined

abbrev pub reading : {A : Type 0} → Calls A → (Message → A) → SettingClass A
reading c read = record {
  create = create c;
  parse = λ message old h. read_member read message h (target message.p_nanopb_message h);
  get_raw = get_raw c;
}
