-- ===== src/Discovery/Tests.antt =====
-- A device with two domains, and the theorems on it.
use whad_lib.Prelude.{◌≡◌, refl, List, [], ◌∷◌, ◌++◌, some}
use whad_lib.Protocol.Message.{DomainDesc}
use whad_lib.Discovery.{is_domain_supported, get_supported_commands}
use whad_lib.Discovery.Domains.{searches_lem, find, is_found, commands_of}

abbrev entries : List DomainDesc
entries =
    record { domain = 1; cap = 7; supported_commands = 12 }
    ∷ record { domain = 5; cap = 2; supported_commands = 255 }
    ∷ []

abbrev end_entry : DomainDesc
end_entry = record { domain = 0; cap = 0; supported_commands = 0 }

searches_lem_example :
    (is_domain_supported (entries ++ (end_entry ∷ [])) 5 ≡ some (is_found (find 5 entries)))
    × (get_supported_commands 5 (entries ++ (end_entry ∷ [])) ≡ some (commands_of (find 5 entries)))
searches_lem_example = searches_lem entries end_entry [] 5 (refl, (refl, tt)) refl
