-- ===== src/Discovery/Exact.antt =====
-- Which messages the discovery functions make and accept.
use whad_lib.Prelude.{
  ℕ, zero, suc, [], ◌∷◌, ◌≡◌, ◌≤◌, ◌%◌, refl, ap, ◌∙◌, List, ◌++◌, length, take, drop, replicate,
  some, success, error, arith,
}
use whad_lib.Protocol.Message.{Message}
use whad_lib.Discovery.{
  device_info_query, device_info_query_parse, domain_info_query, domain_info_query_parse,
  write_set_speed, set_speed_parse, write_discovery, label, strncpy,
}

-- Whatever the message held before, each parser gives back what the builder of its message was given,
-- and each refuses the messages of the other two, and then leaves its output alone.
pub parse-built :
    (m : Message) (value old : ℕ)
    → (device_info_query_parse (device_info_query (some m) value).1 (some old)
        ≡ (success, some value))
      × (domain_info_query_parse (domain_info_query (some m) value).1 (some old)
          ≡ (success, some value))
      × (set_speed_parse (write_set_speed (some m) value).1 (some old) ≡ (success, some value))
      × (device_info_query_parse (domain_info_query (some m) value).1 (some old)
          ≡ (error, some old))
      × (device_info_query_parse (write_set_speed (some m) value).1 (some old) ≡ (error, some old))
      × (domain_info_query_parse (device_info_query (some m) value).1 (some old)
          ≡ (error, some old))
      × (domain_info_query_parse (write_set_speed (some m) value).1 (some old) ≡ (error, some old))
      × (set_speed_parse (device_info_query (some m) value).1 (some old) ≡ (error, some old))
      × (set_speed_parse (domain_info_query (some m) value).1 (some old) ≡ (error, some old))
unfolding device_info_query domain_info_query write_set_speed write_discovery
    device_info_query_parse domain_info_query_parse set_speed_parse
parse-built m value old = (refl, refl, refl, refl, refl, refl, refl, refl, refl)

take-copied :
    (n : ℕ) (text fill rest : List ℕ)
    → length text ≤ n
    → take (length text) (take n (text ++ fill) ++ rest) ≡ text
take-copied n [] fill rest h = refl
take-copied zero (x ∷ text) fill rest h = absurd (omega arith)
take-copied (suc n) (x ∷ text) fill rest h =
    ap (λ t. x ∷ t) (take-copied n text fill rest (omega arith))

-- A string of at most `n` characters, where `n` is 63 for the author and 255 for the address, stands in
-- its array from the start on, and the size in use is its length.
pub label_fits :
    (n : ℕ) (text old : List ℕ)
    → length text ≤ n
    → n ≤ 255
    → let made = label n (some text) old in
      (made.size ≡ length text) × (take made.size made.bytes ≡ text)
unfolding label strncpy
label_fits n text old fits small = (
  short,
  ap (λ k. take k (strncpy n text old)) short
      ∙ take-copied n text (replicate n 0) (drop n old) fits,
)
  where
    short : length text % 65536 ≡ length text
    short = omega arith
