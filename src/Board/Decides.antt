-- ===== src/Board/Decides.antt =====
-- What the tests of the validators decide.
use whad_lib.Prelude.{
  ℕ, zero, suc, ◌≤◌, ◌<◌, ◌≡◌, ◌↔◌, ◌⊎◌, inl, inr, refl, Bool, true, false, List, [], ◌∷◌, take, ℤ,
  Status, success, arith, ◌==◌, Bool-cases, not, leb, ◌&&◌, is_success, error, whad_none,
  ringbuf_empty, ringbuf_full,
}
use whad_lib.Protocol.Pins.{LeaseToken}
use whad_lib.Protocol.Sensors.{SensorDescriptor}
use whad_lib.Protocol.Inputs.{ProfileMapping, RemoteProfile}
use whad_lib.Protocol.Runtime.{
  RuntimeOperation, update, open_pairing_window, clear_bonds, unknown_operation,
}
use whad_lib.Board.Validate.{
  require, return_if, has_nul, valid_string, valid_enum, valid_span, valid_names, validate_lease,
  validate_sensor_descriptor_value,
}
use whad_lib.Board.ValidateMore.{
  valid_mappings, validate_profile_mapping, validate_profile, validate_operation,
}
use whad_lib.Board.WellFormed.{
  InEnum, IsText, InSpan, IsLease, AllTexts, IsDescriptor, AllMappings, IsProfile, IsRelease,
  IsRuntimeOperation,
}

pub valid_enum_iff : (value : ℤ) (max : ℕ) → (valid_enum value 0 max ≡ true) ↔ InEnum value max
unfolding valid_enum
valid_enum_iff value max = ((λ h. ground arith), (λ h. ground arith))

has_nul→text :
    (text : List ℕ) (capacity : ℕ) → has_nul (take capacity text) ≡ true → IsText text capacity
unfolding has_nul
has_nul→text [] zero h = cc
has_nul→text (c ∷ text) zero h = cc
has_nul→text [] (suc n) h = cc
has_nul→text (c ∷ text) (suc n) h = elim (Bool-cases (c == 0)) [
  | inl here ↦ (0, omega arith, ground arith)
  | inr there ↦ let (i, lt, e) = has_nul→text text n (rw there at h) in (suc i, omega arith, e)
]

text→has_nul :
    (text : List ℕ) (capacity : ℕ) → IsText text capacity → has_nul (take capacity text) ≡ true
unfolding has_nul
text→has_nul text zero (i, lt, e) = absurd (omega arith)
text→has_nul [] (suc n) (i, lt, e) = cc
text→has_nul (c ∷ text) (suc n) (zero, lt, e) = ground arith
text→has_nul (c ∷ text) (suc n) (suc i, lt, e) =
    ground (arith, text→has_nul text n (i, omega arith, e))

pub valid_string_iff :
    (text : List ℕ) (capacity : ℕ) → (valid_string text capacity ≡ true) ↔ IsText text capacity
unfolding valid_string
valid_string_iff text capacity = (has_nul→text text capacity, text→has_nul text capacity)

pub valid_span_iff :
    (offset count total : ℕ)
    → offset < 4294967296
    → count < 4294967296
    → (valid_span offset count total ≡ true) ↔ InSpan offset count total
unfolding valid_span
valid_span_iff offset count total ho hc = ((λ h. ground arith), (λ h. ground arith))

pub leb_iff : (a b : ℕ) → (leb a b ≡ true) ↔ (a ≤ b)
leb_iff a b = ((λ h. ground arith), (λ h. ground arith))

-- Chains of tests.
module _ {P : Type 0} where
  pub require_last : {b : Bool} → (b ≡ true) ↔ P → (require b success ≡ success) ↔ P
  require_last {b = true} d = ((λ h. d.0 refl), (λ h. refl))
  require_last {b = false} d = ((λ h. cc), (λ h. cc (d.1 h)))

  pub require_iff :
      {Q : Type 0} {b : Bool} {rest : Status}
      → (b ≡ true) ↔ P
      → (rest ≡ success) ↔ Q
      → (require b rest ≡ success) ↔ (P × Q)
  require_iff {b = true} d e = ((λ h. (d.0 refl, e.0 h)), (λ h. e.1 h.1))
  require_iff {b = false} d e = ((λ h. cc), (λ h. cc (d.1 h.0)))

pub and_iff :
    {P Q : Type 0} {a b : Bool} → (a ≡ true) ↔ P → (b ≡ true) ↔ Q → ((a && b) ≡ true) ↔ (P × Q)
and_iff {a = true} d e = ((λ h. (d.0 refl, e.0 h)), (λ h. e.1 h.1))
and_iff {a = false} d e = ((λ h. cc), (λ h. cc (d.1 h.0)))

pub is_success_iff : {P : Type 0} (s : Status) → (s ≡ success) ↔ P → (is_success s ≡ true) ↔ P
is_success_iff success d = ((λ h. d.0 refl), (λ h. refl))
is_success_iff error d = ((λ h. cc), (λ h. cc (d.1 h)))
is_success_iff whad_none d = ((λ h. cc), (λ h. cc (d.1 h)))
is_success_iff ringbuf_empty d = ((λ h. cc), (λ h. cc (d.1 h)))
is_success_iff ringbuf_full d = ((λ h. cc), (λ h. cc (d.1 h)))

pub always : (success ≡ success) ↔ Unit {0}
always = ((λ h. tt), (λ h. refl))

pub IsLease-iff :
    (has : Bool) (l : LeaseToken)
    → (return_if has (validate_lease l) success ≡ success) ↔ IsLease has l
unfolding validate_lease
IsLease-iff false l = always
IsLease-iff true l = require_last (valid_enum_iff l.resource 6)

names_iff :
    (count : ℕ) (names : List (List ℕ)) → (valid_names count names ≡ true) ↔ AllTexts count names
unfolding valid_names
names_iff zero names = ((λ h. tt), (λ h. refl))
names_iff (suc count) [] = ((λ h. tt), (λ h. refl))
names_iff (suc count) (name ∷ names) = and_iff (valid_string_iff name 16) (names_iff count names)

pub IsDescriptor-iff :
    (has : Bool) (d : SensorDescriptor)
    → (return_if has (validate_sensor_descriptor_value d) success ≡ success) ↔ IsDescriptor has d
unfolding validate_sensor_descriptor_value
IsDescriptor-iff false d = always
IsDescriptor-iff true d = require_iff (valid_string_iff d.name 32) (
    require_iff (valid_string_iff d.unit 32) (
      require_iff (leb_iff d.component_names_count 10) (
        require_iff (names_iff d.component_names_count d.component_names)
          (require_last (leb_iff d.supported_rates_millihz_count 8)))))

mapping_iff :
    (m : ProfileMapping)
    → (validate_profile_mapping m ≡ success) ↔ (InEnum m.source 5 × InEnum m.action 4)
unfolding validate_profile_mapping
mapping_iff m = require_iff (valid_enum_iff m.source 5) (require_last (valid_enum_iff m.action 4))

mappings_iff :
    (count : ℕ) (ms : List ProfileMapping) → (valid_mappings count ms ≡ true) ↔ AllMappings count ms
unfolding valid_mappings
mappings_iff zero ms = ((λ h. tt), (λ h. refl))
mappings_iff (suc count) [] = ((λ h. tt), (λ h. refl))
mappings_iff (suc count) (m ∷ ms) =
    and_iff (is_success_iff (validate_profile_mapping m) (mapping_iff m)) (mappings_iff count ms)

pub IsProfile-iff :
    (has : Bool) (p : RemoteProfile)
    → (return_if has (validate_profile p) success ≡ success) ↔ IsProfile has p
unfolding validate_profile
IsProfile-iff false p = always
IsProfile-iff true p = require_iff (valid_string_iff p.name 32) (
    require_iff (leb_iff p.mappings_count 16)
      (require_last (mappings_iff p.mappings_count p.mappings)))

updated_runtime_iff :
    (has : Bool) (value : ℤ)
    → (require (not (has && not (valid_enum value 0 2))) success ≡ success)
      ↔ ((has ≡ false) ⊎ InEnum value 2)
updated_runtime_iff false value = ((λ h. inl refl), (λ h. refl))
updated_runtime_iff true value = elim (Bool-cases (valid_enum value 0 2)) [
  | inl valid ↦ ((λ h. inr ((valid_enum_iff value 2).0 valid)), (λ h. rw valid))
  | inr invalid ↦ (
    (λ h. cc (rw invalid at h)),
    (λ h. elim h [ inl unset ↦ cc | inr in_enum ↦ cc ((valid_enum_iff value 2).1 in_enum) ]),
  )
]

pub operation_iff : (o : RuntimeOperation) → (validate_operation o ≡ success) ↔ IsRuntimeOperation o
unfolding validate_operation
operation_iff (update u) = updated_runtime_iff u.has_persisted_runtime u.persisted_runtime
operation_iff (open_pairing_window _) = always
operation_iff (clear_bonds _) = always
operation_iff (unknown_operation _) = ((λ h. cc), (λ h. absurd h))

pub IsRelease-iff :
    (has : Bool) (l : LeaseToken) (resource : ℤ)
    → (return_if has (validate_lease l) (require (valid_enum resource 0 6) success) ≡ success)
      ↔ IsRelease has l resource
unfolding validate_lease
IsRelease-iff true l resource = require_last (valid_enum_iff l.resource 6)
IsRelease-iff false l resource = require_last (valid_enum_iff resource 6)
