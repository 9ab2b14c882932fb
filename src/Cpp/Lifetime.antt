-- ===== src/Cpp/Lifetime.antt =====
-- Who releases a message: the objects of the classes, from their construction to their destruction.
use whad_lib.Prelude.{
  ℕ, ◌≡◌, ◌⊎◌, ◌==◌, refl, ap, ◌∙◌, Bool, true, false, Bool-cases, inl, inr, Option, none, some,
  success, is_success, arith,
}
use whad_lib.Protocol.Kind.{Kind}
use whad_lib.Protocol.Payload.{Payload, member}
use whad_lib.Protocol.Message.{Message, board_msg, unset}
use whad_lib.Board.Codec
use whad_lib.Board.Codec.{validate}
use whad_lib.Board.WellFormed.{WellFormed, In32Bits}
use whad_lib.Board.Conforms.{accepts_iff}
use whad_lib.Board.Laws.{
  pack_accepts, unpack_accepts, is_success-true, is_success-false, pack_error,
}
use whad_lib.Cpp.{Heap, write, calloc, free, NanoPbMsg, new, wrap, destroy}
use whad_lib.Cpp.Board.{
  Object, returned, thrown, undefined, target, store, or_old, create, set_value, packed, get_raw,
  unpacked, parse, board_msg_of,
}

pub eq_self : (n : ℕ) → (n == n) ≡ true
eq_self n = ground arith

pub write_here : (a : ℕ) (c : Option Message) (h : Heap) → (write a c h).cells a ≡ c
unfolding write
write_here a c h = simp (eq_self a)

pub target_live :
    (p : Option ℕ) (h : Heap) (a : ℕ) (m : Message)
    → p ≡ some a
    → h.cells a ≡ some m
    → target p h ≡ some (some m)
unfolding target
target_live p h a m at live = simp (at, live)

get_raw_live :
    (k : Kind) (o : Object k) (h : Heap) (m : Option Message)
    → target o.base.p_nanopb_message h ≡ some m
    → get_raw k o h ≡ packed k o h (Codec.pack k m o.request_id (some o.value))
unfolding get_raw
get_raw_live k o h m e =
    ap
      (λ t. elim t [
        | none ↦ undefined
        | some x ↦ packed k o h (Codec.pack k x o.request_id (some o.value))
      ])
      e

parse_live :
    (k : Kind) (n : NanoPbMsg) (rid : ℕ) (old : Payload k) (h : Heap) (m : Option Message)
    → target n.p_nanopb_message h ≡ some m
    → parse k n rid old h
      ≡ unpacked k
          (record { base = n; request_id = rid; value = old })
          h
          (Codec.unpack k m (some rid) (some old))
unfolding parse
parse_live k n rid old h m e =
    ap
      (λ t. elim t [
        | none ↦ undefined
        | some x ↦
            unpacked k (record { base = n; request_id = rid; value = old }) h
              (Codec.unpack k x (some rid) (some old))
      ])
      e

pub get_raw_accepts :
    (k : Kind) (o : Object k) (h : Heap) (a : ℕ) (m : Message)
    → o.base.p_nanopb_message ≡ some a
    → h.cells a ≡ some m
    → validate k o.value ≡ success
    → get_raw k o h
      ≡ returned (some a) (
          write a
            (some (board_msg (record { request_id = o.request_id; body = member k o.value })))
            h)
unfolding packed store
get_raw_accepts k o h a m at live ok =
    get_raw_live k o h (some m) (target_live o.base.p_nanopb_message h a m at live)
    ∙ ap (packed k o h) (pack_accepts k m o.request_id o.value ok)
    ∙ ap
        (λ p. returned p (
          store p (some (board_msg (record { request_id = o.request_id; body = member k o.value })))
            h))
        at

pub eq_true : (m n : ℕ) → (m == n) ≡ true → m ≡ n
eq_true m n e = ground arith

-- A value that the validator refuses: the message stays as it was.
pub get_raw_refuses :
    (k : Kind) (o : Object k) (h : Heap) (a : ℕ) (m : Message)
    → o.base.p_nanopb_message ≡ some a
    → h.cells a ≡ some m
    → is_success (validate k o.value) ≡ false
    → get_raw k o h ≡ thrown (write a (some m) h)
unfolding packed store
get_raw_refuses k o h a m at live bad =
    get_raw_live k o h (some m) (target_live o.base.p_nanopb_message h a m at live)
    ∙ ap (packed k o h) (pack_error k m o.request_id o.value bad)
    ∙ ap (λ p. thrown (store p (some m) h)) at

pub parse_accepts :
    (k : Kind) (h : Heap) (a id : ℕ) (v : Payload k) (rid : ℕ) (old : Payload k) (owns : Bool)
    → h.cells a ≡ some (board_msg (record { request_id = id; body = member k v }))
    → validate k v ≡ success
    → parse k (record { p_nanopb_message = some a; owns_message = owns }) rid old h
      ≡ returned
          (record {
            base = record { p_nanopb_message = some a; owns_message = owns };
            request_id = id;
            value = v;
          })
          h
unfolding unpacked or_old
parse_accepts k h a id v rid old owns live ok =
    parse_live k n rid old h (some m) (target_live (some a) h a m refl live)
    ∙ ap (unpacked k (record { base = n; request_id = rid; value = old }) h)
        (unpack_accepts k id v (some rid) old ok)
  where
    n : NanoPbMsg
    n = record { p_nanopb_message = some a; owns_message = owns }

    m : Message
    m = board_msg (record { request_id = id; body = member k v })

-- An object that was created with memory at hand, on a heap whose next address is not live, was given
-- a well-formed value and was packed yields the pointer to its message. The class, constructed from a wrapper of that pointer, has the
-- request identifier and the value; destroying it leaves the heap as it is, and destroying the first
-- object then gives back the heap as it was before.
pub object-round_trip :
    (k : Kind) (v : Payload k)
    → In32Bits k v
    → WellFormed k v
    → (h : Heap) → h.cells h.next ≡ none
    → (id rid : ℕ) (old : Payload k)
    → (h2 : Heap) × (h3 : Heap) × (get_raw k
          (set_value k v (create k true id h).0)
          (create k true id h).1
        ≡ returned (some h.next) h2)
      × (parse k (board_msg_of (some h.next)) rid old h2
          ≡ returned (record { base = board_msg_of (some h.next); request_id = id; value = v }) h2)
      × (destroy (board_msg_of (some h.next)) h2 ≡ some h2)
      × (destroy (create k true id h).0.base h2 ≡ some h3)
      × ((b : ℕ) → h3.cells b ≡ h.cells b)
unfolding create new calloc set_value board_msg_of wrap destroy free write
object-round_trip k v w f h free_next id rid old = (
  h2,
  write h.next none h2,
  get_raw_accepts k (set_value k v (create k true id h).0) (create k true id h).1 h.next unset refl
      (simp (eq_self h.next)) valid,
  parse_accepts k h2 h.next id v rid old false (simp (eq_self h.next)) valid,
  refl,
  simp (eq_self h.next),
  same,
)
  where
    valid : validate k v ≡ success
    valid = (accepts_iff k v w).1 f

    h2 : Heap
    h2 =
        write h.next (some (board_msg (record { request_id = id; body = member k v })))
          (create k true id h).1

    same : (b : ℕ) → (write h.next none h2).cells b ≡ h.cells b
    same b = elim (Bool-cases (b == h.next)) [
      | inl here ↦ simp (here, ap h.cells (eq_true b h.next here) ∙ free_next)
      | inr away ↦ simp (away)
    ]

-- A wrapper that owns a live message of a type, valid to the type's validator, is passed to the constructor of the class of the message: the object
-- holds the same pointer and owns it too, so that its destructor frees the message, and the
-- destructor of the wrapper frees it again, which is undefined.
pub parse-double_free :
    (k : Kind) (v : Payload k)
    → validate k v ≡ success
    → (h : Heap) (a id : ℕ)
    → h.cells a ≡ some (board_msg (record { request_id = id; body = member k v }))
    → (rid : ℕ) (old : Payload k)
    → (o : Object k) × (h' : Heap) × (parse k
          (record { p_nanopb_message = some a; owns_message = true })
          rid
          old
          h
        ≡ returned o h)
      × (destroy o.base h ≡ some h')
      × (destroy (record { p_nanopb_message = some a; owns_message = true }) h' ≡ none)
unfolding destroy free
parse-double_free k v ok h a id live rid old = (
  record {
    base = record { p_nanopb_message = some a; owns_message = true };
    request_id = id;
    value = v;
  },
  write a none h,
  parse_accepts k h a id v rid old true live ok,
  simp (live),
  simp (write_here a none h),
)

-- Packing an object whose message is live, the offset and count of a chunk being 32-bit numbers, either returns the pointer, with the well-formed value of
-- the object in the message, or throws on a value that is not well-formed, with the message as it
-- was.
pub get_raw_exact :
    (k : Kind) (o : Object k)
    → In32Bits k o.value
    → (h : Heap) (a : ℕ) (m : Message) → o.base.p_nanopb_message ≡ some a
    → h.cells a ≡ some m
    → (WellFormed k o.value
        × (get_raw k o h
            ≡ returned (some a) (
                write a
                  (some (board_msg (record { request_id = o.request_id; body = member k o.value })))
                  h)))
      ⊎ ((¬ (WellFormed k o.value)) × (get_raw k o h ≡ thrown (write a (some m) h)))
get_raw_exact k o w h a m at live = elim (Bool-cases (is_success (validate k o.value))) [
  | inl ok ↦
      let valid = is_success-true (validate k o.value) ok in
      inl ((accepts_iff k o.value w).0 valid, get_raw_accepts k o h a m at live valid)
  | inr bad ↦ inr (
    (λ f. is_success-false (validate k o.value) bad ((accepts_iff k o.value w).1 f)),
    get_raw_refuses k o h a m at live bad,
  )
]
