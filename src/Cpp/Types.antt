-- ===== src/Cpp/Types.antt =====
-- The two classifications of a message that the wrapper has.
use whad_lib.Prelude.{◌≡◌, ◌≢◌, ◌↔◌, refl}
use whad_lib.Protocol.Message.{Message}
use whad_lib.Whad
use whad_lib.Cpp.{domain_msg, domain_none, get_type, get_domain}

-- `getDomain` names a domain exactly for the messages that `getType` takes for those of a domain.
pub get_domain_iff : (m : Message) → (get_type m ≡ domain_msg) ↔ (get_domain m ≢ domain_none)
unfolding get_type get_domain Whad.get_message_type Whad.get_message_domain
get_domain_iff Message.unset = ((λ e. cc), (λ ne. absurd (ne refl)))
get_domain_iff (Message.generic_msg _) = ((λ e. cc), (λ ne. absurd (ne refl)))
get_domain_iff (Message.discovery_msg _) = ((λ e. cc), (λ ne. absurd (ne refl)))
get_domain_iff (Message.ble_msg _) = ((λ e d. cc), (λ ne. refl))
get_domain_iff (Message.dot15d4_msg _) = ((λ e d. cc), (λ ne. refl))
get_domain_iff (Message.esb_msg _) = ((λ e d. cc), (λ ne. refl))
get_domain_iff (Message.unifying_msg _) = ((λ e d. cc), (λ ne. refl))
get_domain_iff (Message.phy_msg _) = ((λ e d. cc), (λ ne. refl))
get_domain_iff (Message.board_msg _) = ((λ e d. cc), (λ ne. refl))
