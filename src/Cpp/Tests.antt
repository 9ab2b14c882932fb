-- ===== src/Cpp/Tests.antt =====
-- Objects of two classes on a small heap, and the theorems on them.
use whad_lib.Prelude.{pos, ◌≡◌, ◌⊎◌, refl, true, none, some, success, arith}
use whad_lib.Protocol.Kind.{Kind}
use whad_lib.Protocol.Payload.{member}
use whad_lib.Protocol.Streams.{StorageReadLogRequest}
use whad_lib.Protocol.Message.{Message, board_msg}
use whad_lib.Board.Codec.{validate}
use whad_lib.Board.ValidateMore.{validate_storage_read_log}
use whad_lib.Board.WellFormed.{WellFormed}
use whad_lib.Cpp.{Heap, write, wrap, destroy}
use whad_lib.Cpp.Board.{Object, get_raw, parse, undefined, returned, thrown}
use whad_lib.Cpp.Generic.{command_result, get_raw as get_raw_generic, parse as parse_result}
use whad_lib.Cpp.Results.{result-round_trip, parse-use_after_free}
use whad_lib.Cpp.ClassLaws.{RoundTrip, board_class, class-RoundTrip}
use whad_lib.Cpp.Lifetime.{get_raw_exact, parse-double_free}

abbrev request : StorageReadLogRequest
request = record { cursor = 7; max_bytes = 900 }

abbrev old : StorageReadLogRequest
old = record { cursor = 0; max_bytes = 0 }

abbrev empty_heap : Heap
empty_heap = record { next = 0; cells = λ _. none }

class-RoundTrip_example :
    RoundTrip Kind.storage_read_log request empty_heap 42 5 old (board_class Kind.storage_read_log)
class-RoundTrip_example =
    class-RoundTrip Kind.storage_read_log request tt (omega arith) empty_heap refl 42 5 old

-- A heap with the message of the request.
abbrev packed : Message
packed = board_msg (record { request_id = 42; body = member Kind.storage_read_log request })

abbrev held_heap : Heap
held_heap = record { next = 1; cells = λ _. some packed }

valid_request : validate Kind.storage_read_log request ≡ success
unfolding validate validate_storage_read_log
valid_request = refl

parse-double_free_example :
    (o : Object Kind.storage_read_log) × (h' : Heap) × (parse Kind.storage_read_log
        (record { p_nanopb_message = some 0; owns_message = true })
        5
        old
        held_heap
      ≡ returned o held_heap)
    × (destroy o.base held_heap ≡ some h')
    × (destroy (record { p_nanopb_message = some 0; owns_message = true }) h' ≡ none)
parse-double_free_example =
    parse-double_free Kind.storage_read_log request valid_request held_heap 0 42 refl 5 old

abbrev object : Object Kind.storage_read_log
object = record {
  base = record { p_nanopb_message = some 0; owns_message = true };
  request_id = 42;
  value = request;
}

get_raw_exact_example :
    (WellFormed Kind.storage_read_log request
      × (get_raw Kind.storage_read_log object held_heap
          ≡ returned (some 0) (write 0 (some packed) held_heap)))
    ⊎ ((¬ (WellFormed Kind.storage_read_log request))
        × (get_raw Kind.storage_read_log object held_heap
            ≡ thrown (write 0 (some packed) held_heap)))
get_raw_exact_example = get_raw_exact Kind.storage_read_log object tt held_heap 0 packed refl refl

result-round_trip_example :
    (h' : Heap) × (get_raw_generic
        (command_result (pos 6) true empty_heap).0
        (command_result (pos 6) true empty_heap).1
      ≡ returned (some 0) h')
    × (parse_result (wrap (some 0)) h'
        ≡ returned (record { base = wrap (some 0); code = pos 6 }) h')
result-round_trip_example = result-round_trip (pos 6) empty_heap

parse-use_after_free_example :
    parse_result (record { p_nanopb_message = some 0; owns_message = true }) held_heap ≡ undefined
parse-use_after_free_example = parse-use_after_free held_heap 0 packed refl
