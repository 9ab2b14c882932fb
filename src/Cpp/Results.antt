-- ===== src/Cpp/Results.antt =====
-- Command results from their construction to their destruction.
use whad_lib.Prelude.{
  ℕ, ◌≡◌, refl, ap, ◌∙◌, true, Option, none, some, ℤ, pos, negsuc, List, ◌<◌, Status, arith,
}
use whad_lib.Protocol.Message
use whad_lib.Protocol.Message.{Message, generic_msg, cmd_result, unset}
use mathlib.Core.Option
use whad_lib.Generic
use whad_lib.Cpp.{Heap, write, calloc, free, NanoPbMsg, new, wrap, destroy}
use whad_lib.Cpp.Board.{returned, undefined, target, store, or_old}
use whad_lib.Cpp.Generic.{
  create, debug, progress, verbose, to_unsigned, command_result, get_raw, packed, parse, parse_rest,
  unpack, finish,
}
use whad_lib.Cpp.Lifetime.{eq_self, target_live, write_here}

-- A command result that was created with memory at hand and packed yields the pointer to its message.
-- A command result that is parsed from a wrapper which borrows that pointer has the code, and the heap
-- stays as it is.
pub result-round_trip :
    (code : ℤ) (h : Heap)
    → (h' : Heap) × (get_raw (command_result code true h).0 (command_result code true h).1
        ≡ returned (some h.next) h')
      × (parse (wrap (some h.next)) h'
          ≡ returned (record { base = wrap (some h.next); code = code }) h')
unfolding command_result create new calloc get_raw packed store parse parse_rest unpack finish
    destroy wrap or_old Generic.write_cmd_result Generic.cmd_result_parse
result-round_trip code h = (
  after,
  ap (packed (command_result code true h).0 before)
      (target_live (some h.next) before h.next unset refl (simp (eq_self h.next))),
  ap (unpack (wrap (some h.next)) after)
      (target_live (some h.next) after h.next made refl (write_here h.next (some made) before)),
)
  where
    before : Heap
    before = (command_result code true h).1

    made : Message
    made = generic_msg (cmd_result code)

    after : Heap
    after = write h.next (some made) before

-- Passing a wrapper that owns a live message to the constructor is undefined: the message is freed
-- before it is parsed.
pub parse-use_after_free :
    (h : Heap) (a : ℕ) (m : Message)
    → h.cells a ≡ some m
    → parse (record { p_nanopb_message = some a; owns_message = true }) h ≡ undefined
unfolding parse parse_rest unpack destroy free target
parse-use_after_free h a m live =
    ap (λ d. parse_rest n d) (ap (Option.map (λ _. write a none h)) live)
    ∙ ap (λ c. unpack n (write a none h) (Option.map some c)) (write_here a none h)
  where
    n : NanoPbMsg
    n = record { p_nanopb_message = some a; owns_message = true }

to_unsigned-lt : (z : ℤ) → to_unsigned z < 4294967296
unfolding to_unsigned
to_unsigned-lt (pos n) = omega arith
to_unsigned-lt (negsuc n) = omega arith

get_raw-create :
    (pack : Option Message → Status × Option Message) (h : Heap)
    → get_raw (create pack true h).0 (create pack true h).1
      ≡ returned (some h.next) (write h.next (pack (some unset)).1 (create pack true h).1)
unfolding create new calloc get_raw packed store
get_raw-create pack h =
    ap (packed (create pack true h).0 (create pack true h).1)
      (target_live (some h.next) (create pack true h).1 h.next unset refl (simp (eq_self h.next)))

-- The message of a text or progress object that was created with memory at hand and packed: the level
-- and the value are the `int32_t` of the constructor read as a `uint32_t`, and the text is whole.
pub get_raw-texts :
    (level value : ℤ) (text : List ℕ) (h : Heap)
    → let made =
        λ (m : Message). returned (some h.next) (write h.next (some m) (verbose text true h).1) in
      (get_raw (debug level text true h).0 (debug level text true h).1
        ≡ made (generic_msg (Message.debug (to_unsigned level) text)))
      × (get_raw (progress value true h).0 (progress value true h).1
          ≡ made (generic_msg (Message.progress (to_unsigned value))))
      × (get_raw (verbose text true h).0 (verbose text true h).1
          ≡ made (generic_msg (Message.verbose text)))
      × (to_unsigned level < 4294967296)
      × (to_unsigned value < 4294967296)
unfolding debug progress verbose create new calloc Generic.debug_message Generic.progress_message
    Generic.verbose_message
get_raw-texts level value text h = (
  get_raw-create (λ m. Generic.debug_message m (to_unsigned level) text) h,
  get_raw-create (λ m. Generic.progress_message m (to_unsigned value)) h,
  get_raw-create (λ m. Generic.verbose_message m text) h,
  to_unsigned-lt level,
  to_unsigned-lt value,
)
