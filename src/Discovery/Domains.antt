-- ===== src/Discovery/Domains.antt =====
-- The array of the domains that a device supports.
use whad_lib.Prelude.{
  ℕ, ◌≡◌, Bool, true, false, Bool-cases, inl, inr, List, [], ◌∷◌, ◌++◌, Option, none, some, ◌==◌,
  if◌then◌else◌, arith, success, ap,
}
use whad_lib.Protocol.Message.{Message, DomainDesc, discovery_msg, domain_resp}
use whad_lib.Discovery.{
  is_domain_supported, get_supported_commands, domain_info_resp, write_discovery,
}

-- The entry of a domain, among the entries before the end.
pub find : ℕ → List DomainDesc → Option DomainDesc
find domain [] = none
find domain (c ∷ capabilities) =
    let rest = find domain capabilities in if c.domain == domain then some c else rest

abbrev pub AllNamed : List DomainDesc → Type 0
AllNamed [] = Unit
AllNamed (c ∷ capabilities) = ((c.domain == 0) ≡ false) × AllNamed capabilities

abbrev pub is_found : Option DomainDesc → Bool
is_found none = false
is_found (some _) = true

abbrev pub commands_of : Option DomainDesc → ℕ
commands_of none = 0
commands_of (some c) = c.supported_commands

-- On an array of entries with a domain, an entry without one, and anything behind it, both searches
-- end: the domain is supported if one of the entries before the end has it, and its commands are
-- those of the first such entry, or 0.
pub searches_lem :
    (entries : List DomainDesc) (end : DomainDesc) (rest : List DomainDesc) (domain : ℕ)
    → AllNamed entries
    → end.domain ≡ 0
    → (is_domain_supported (entries ++ (end ∷ rest)) domain ≡ some (is_found (find domain entries)))
      × (get_supported_commands domain (entries ++ (end ∷ rest))
          ≡ some (commands_of (find domain entries)))
unfolding is_domain_supported get_supported_commands find
searches_lem [] end rest domain named e = (simp (ended), simp (ended))
  where
    ended : (end.domain == 0) ≡ true
    ended = ground arith
searches_lem (c ∷ entries) end rest domain named e =
    let (supported, commands) = searches_lem entries end rest domain named.1 e in
    elim (Bool-cases (c.domain == domain)) [
      | inl here ↦ (simp (named.0, here), simp (named.0, here))
      | inr there ↦ (simp (named.0, there) supported, simp (named.0, there) commands)
    ]

-- On such an array, the answer to a query of a domain carries the commands of its first entry, or 0.
pub domain_info_resp_lem :
    (m : Message) (entries : List DomainDesc) (end : DomainDesc) (rest : List DomainDesc)
    (domain : ℕ)
    → AllNamed entries
    → end.domain ≡ 0
    → domain_info_resp (some m) domain (entries ++ (end ∷ rest))
      ≡ some
          (success, some (discovery_msg (domain_resp domain (commands_of (find domain entries)))))
unfolding domain_info_resp write_discovery
domain_info_resp_lem m entries end rest domain named e =
    ap
      (λ commands. elim commands [
        | none ↦ none
        | some c ↦ some (write_discovery (domain_resp domain c) (some m))
      ])
      (searches_lem entries end rest domain named e).1
