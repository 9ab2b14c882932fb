-- ===== src/Board/Laws.antt =====
-- Packing and parsing the messages of the Board domain.
use native.Mathlib.Decide.{ℕ_discrete}
use mathlib.Core.HLevel.{hedberg}
use mathlib.Core.Path.{subst_refl}
use mathlib.Core.Option
use whad_lib.Prelude.{
  ℕ, ◌≡◌, ◌≢◌, ◌⊎◌, refl, sym, ap, ◌∙◌, subst, true, false, Bool-cases, inl, inr, Option, none,
  some, ◌==◌, Status, success, error, whad_none, ringbuf_empty, ringbuf_full, is_success, arith,
}
use whad_lib.Protocol.Kind.{Kind, tag, tag_injective, of_tag, of_tag-tag}
use whad_lib.Protocol.Payload.{Payload, Body, no_body, member, which_msg, read}
use whad_lib.Protocol.Message.{Message, unset, board_msg}
use whad_lib.Whad.{get_message_domain}
use whad_lib.Board.Codec.{validate, validator, pack, unpack, unpack_board, deliver}

Kind-discrete : Discrete Kind
Kind-discrete j k = elim (ℕ_discrete (tag j) (tag k)) [
  | yes e ↦ yes (tag_injective j k e)
  | no ne ↦ no (λ e. ne (ap tag e))
]

-- Reading the member that the union holds gives its value.
pub read-member : (k : Kind) (v : Payload k) → read k (member k v) ≡ some v
unfolding read
read-member k v = go (ℕ_discrete (tag k) (tag k))
  where
    go :
        (d : Dec (tag k ≡ tag k))
        → (elim d [ yes e ↦ some (subst Payload (tag_injective k k e) v) | no _ ↦ none ]) ≡ some v
    go (yes e) = ap some (
        ap (λ p. subst Payload p v) (hedberg Kind-discrete k k (tag_injective k k e) refl)
        ∙ subst_refl Payload v)
    go (no ne) = absurd (ne refl)

pub is_success-true : (s : Status) → is_success s ≡ true → s ≡ success
is_success-true success e = refl
is_success-true error e = cc
is_success-true whad_none e = cc
is_success-true ringbuf_empty e = cc
is_success-true ringbuf_full e = cc

pub is_success-false : (s : Status) → is_success s ≡ false → s ≢ success
is_success-false success e h = cc
is_success-false error e h = cc
is_success-false whad_none e h = cc
is_success-false ringbuf_empty e h = cc
is_success-false ringbuf_full e h = cc

eq_self : (n : ℕ) → (n == n) ≡ true
eq_self n = ground arith

tag_pos : (k : Kind) → tag k ≢ 0
unfolding of_tag
tag_pos k h = absurd (none_ne_some (sym (ap of_tag h) ∙ of_tag-tag k))
  where
    none_ne_some : ◌≡◌ {A = Option Kind} none (some k) → ⊥
    none_ne_some e = cc

-- A member whose tag is that of a type is a member of this type.
pub tag-body :
    (k : Kind) (b : Body) → (which_msg b == tag k) ≡ true → (v : Payload k) × (b ≡ member k v)
tag-body k no_body e = absurd (tag_pos k (tag_zero (tag k) e))
  where
    tag_zero : (n : ℕ) → (0 == n) ≡ true → n ≡ 0
    tag_zero n h = ground arith
tag-body k (member j v) e =
    subst (λ x. (w : Payload x) × (member j v ≡ member x w))
      (tag_injective j k (eq_true (tag j) (tag k) e)) (v, refl)
  where
    eq_true : (m n : ℕ) → (m == n) ≡ true → m ≡ n
    eq_true m n h = ground arith

pub pack_accepts :
    (k : Kind) (m : Message) (id : ℕ) (v : Payload k)
    → validate k v ≡ success
    → pack k (some m) id (some v)
      ≡ (success, some (board_msg (record { request_id = id; body = member k v })))
unfolding pack validator
pack_accepts k m id v ok = simp (ok)

pub unpack_accepts :
    (k : Kind) (id : ℕ) (v : Payload k) (rid : Option ℕ) (old : Payload k)
    → validate k v ≡ success
    → unpack k (some (board_msg (record { request_id = id; body = member k v }))) rid (some old)
      ≡ (success, Option.map (λ _. id) rid, some v)
unfolding unpack unpack_board deliver validator get_message_domain
unpack_accepts k id v rid old ok = simp (eq_self (tag k), read-member k v, ok)

pub pack_error :
    (k : Kind) (m : Message) (id : ℕ) (v : Payload k)
    → is_success (validate k v) ≡ false
    → pack k (some m) id (some v) ≡ (error, some m)
unfolding pack validator
pack_error k m id v bad = simp (bad)

-- A packing that does not succeed leaves the message as it was, whatever pointers it is given.
pub pack_rejects :
    (k : Kind) (p : Option Message) (id : ℕ) (v : Option (Payload k))
    → (pack k p id v).0 ≢ success
    → (pack k p id v).1 ≡ p
unfolding pack
pack_rejects k none id v ne = refl
pack_rejects k (some m) id none ne = refl
pack_rejects k (some m) id (some v) ne = elim (Bool-cases (is_success (validate k v))) [
  | inl ok ↦ absurd (ne (ap (λ r. r.0) (pack_accepts k m id v (is_success-true (validate k v) ok))))
  | inr bad ↦ ap (λ r. r.1) (pack_error k m id v bad)
]

-- What a parse of a message comes to: an error that writes nothing, or the contents of a message of
-- the type whose validator accepts it.
UnpackCases : (k : Kind) → Message → Option ℕ → Payload k → Type 0
UnpackCases k m rid old =
    (unpack k (some m) rid (some old) ≡ (error, rid, some old))
    ⊎ ((id : ℕ) × (v : Payload k) × (m ≡ board_msg (record { request_id = id; body = member k v }))
        × (validate k v ≡ success)
        × (unpack k (some m) rid (some old) ≡ (success, Option.map (λ _. id) rid, some v)))

unpack_refuses :
    (k : Kind) (id : ℕ) (v : Payload k) (rid : Option ℕ) (old : Payload k)
    → is_success (validate k v) ≡ false
    → unpack k (some (board_msg (record { request_id = id; body = member k v }))) rid (some old)
      ≡ (error, rid, some old)
unfolding unpack unpack_board deliver validator get_message_domain
unpack_refuses k id v rid old bad = simp (eq_self (tag k), read-member k v, bad)

unpack-member_cases :
    (k : Kind) (id : ℕ) (v : Payload k) (rid : Option ℕ) (old : Payload k)
    → UnpackCases k (board_msg (record { request_id = id; body = member k v })) rid old
unfolding UnpackCases
unpack-member_cases k id v rid old = elim (Bool-cases (is_success (validate k v))) [
  | inl ok ↦
      let valid = is_success-true (validate k v) ok in
      inr (id, v, refl, valid, unpack_accepts k id v rid old valid)
  | inr bad ↦ inl (unpack_refuses k id v rid old bad)
]

unpack_cases : (k : Kind) (m : Message) (rid : Option ℕ) (old : Payload k) → UnpackCases k m rid old
unfolding UnpackCases unpack unpack_board get_message_domain
unpack_cases k unset rid old = inl refl
unpack_cases k (Message.generic_msg _) rid old = inl refl
unpack_cases k (Message.discovery_msg _) rid old = inl refl
unpack_cases k (Message.ble_msg _) rid old = inl refl
unpack_cases k (Message.dot15d4_msg _) rid old = inl refl
unpack_cases k (Message.esb_msg _) rid old = inl refl
unpack_cases k (Message.unifying_msg _) rid old = inl refl
unpack_cases k (Message.phy_msg _) rid old = inl refl
unpack_cases k (board_msg b) rid old = elim (Bool-cases (which_msg b.body == tag k)) [
  | inr bad ↦ inl (simp (bad))
  | inl same ↦
      let (v, e) = tag-body k b.body same in
      subst
        (λ x. UnpackCases k (board_msg (record { request_id = b.request_id; body = x })) rid old)
        (sym e) (unpack-member_cases k b.request_id v rid old)
]

-- A parse that does not succeed writes neither through `p_request_id` nor through `p_value`, whatever
-- pointers it is given.
pub unpack_rejects :
    (k : Kind) (p : Option Message) (rid : Option ℕ) (old : Option (Payload k))
    → (unpack k p rid old).0 ≢ success
    → ((unpack k p rid old).1 ≡ rid) × ((unpack k p rid old).2 ≡ old)
unfolding unpack unpack_board deliver UnpackCases
unpack_rejects k none rid old ne = (refl, refl)
unpack_rejects k (some m) rid none ne = (refl, refl)
unpack_rejects k (some m) rid (some old) ne = elim (unpack_cases k m rid old) [
  | inl e ↦ (ap (λ r. r.1) e, ap (λ r. r.2) e)
  | inr (_, _, _, _, e) ↦ absurd (ne (ap (λ r. r.0) e))
]

pub unpack_inverts :
    (k : Kind) (m : Message) (rid : Option ℕ) (old : Payload k)
    → (unpack k (some m) rid (some old)).0 ≡ success
    → (id : ℕ) × (v : Payload k) × (m ≡ board_msg (record { request_id = id; body = member k v }))
      × (validate k v ≡ success)
      × (unpack k (some m) rid (some old) ≡ (success, Option.map (λ _. id) rid, some v))
unfolding UnpackCases
unpack_inverts k m rid old ok = elim (unpack_cases k m rid old) [
  | inl e ↦ absurd (error_ne_success (sym (ap (λ r. r.0) e) ∙ ok))
  | inr found ↦ found
]
  where
    error_ne_success : error ≡ success → ⊥
    error_ne_success e = cc
