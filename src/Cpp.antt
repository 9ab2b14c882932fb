-- ===== src/Cpp.antt =====
-- src/cpp/message.cpp and inc/cpp/message.hpp: the wrapper of a message and who releases it.
pub mod Board
pub mod BoardClasses
pub mod Types
pub mod Lifetime
pub mod ClassLaws
pub mod Generic
pub mod Results
pub mod Setting
pub mod SettingLaws
pub mod RadioClasses
pub mod PhyClasses
pub mod BleClasses
pub mod SettingKinds
pub mod ChannelMap
pub mod Channels
pub mod SettingAgree
pub mod SettingTrips
mod Tests
mod SettingTests
mod ChannelTests
use whad_lib.Prelude.{ℕ, ◌+◌, Bool, true, false, Option, none, some, ◌==◌, if◌then◌else◌}
use mathlib.Core.Option
use whad_lib.Protocol.Message.{Message, unset}
use whad_lib.Whad
use whad_lib.Whad.{
  unknown, generic, discovery, domain, Domain, btle, esb, phy, logitech_unifying, dot15d4, board,
}

-- The messages on the heap, by address: `none` is an address that holds no live message. `next` is an
-- address that was never given out.
pub record Heap : Type 0 where
  pub next : ℕ
  pub cells : ℕ → Option Message

unfoldable pub write : ℕ → Option Message → Heap → Heap
write a c h = record { next = h.next; cells = λ b. if b == a then c else h.cells b }

-- `calloc(1u, sizeof(Message))`, which fails when there is no memory.
unfoldable pub calloc : Bool → Heap → Option ℕ × Heap
calloc false h = (none, h)
calloc true h = (
  some h.next,
  record { next = h.next + 1; cells = λ b. if b == h.next then some unset else h.cells b },
)

-- `free` of an address; `none` where the address holds no live message, which C leaves undefined.
unfoldable pub free : ℕ → Heap → Option Heap
free a h = Option.map (λ _. write a none h) (h.cells a)

-- `whad::NanoPbMsg`.
pub record NanoPbMsg : Type 0 where
  pub p_nanopb_message : Option ℕ
  pub owns_message : Bool

-- `NanoPbMsg()`.
unfoldable pub new : Bool → Heap → NanoPbMsg × Heap
new memory h =
    let (p, h') = calloc memory h in (record { p_nanopb_message = p; owns_message = true }, h')

-- `NanoPbMsg(Message *)`.
unfoldable pub wrap : Option ℕ → NanoPbMsg
wrap p = record { p_nanopb_message = p; owns_message = false }

-- `~NanoPbMsg`; `none` where it frees an address that is not live.
unfoldable pub destroy : NanoPbMsg → Heap → Option Heap
destroy n h =
    if n.owns_message then elim n.p_nanopb_message [ none ↦ some h | some a ↦ free a h ] else some h

unfoldable pub disown : NanoPbMsg → NanoPbMsg
disown n = record { p_nanopb_message = n.p_nanopb_message; owns_message = false }

unfoldable pub get_message : NanoPbMsg → Option ℕ
get_message n = n.p_nanopb_message

-- `whad::MessageType`.
pub data MessageType : Type 0 where
  unknown_msg generic_msg discovery_msg domain_msg : MessageType

-- `whad::MessageDomain`.
pub data MessageDomain : Type 0 where
  domain_none domain_ble domain_esb domain_phy domain_unifying domain_dot15d4 domain_board :
      MessageDomain

-- `NanoPbMsg::getType`, on the message that the wrapper points to.
unfoldable pub get_type : Message → MessageType
get_type m = elim (Whad.get_message_type m) [
  | generic ↦ generic_msg
  | discovery ↦ discovery_msg
  | domain ↦ domain_msg
  | unknown ↦ unknown_msg
]

is_domain_msg : MessageType → Bool
is_domain_msg domain_msg = true
is_domain_msg _ = false

-- The switch of `NanoPbMsg::getDomain`.
domain_of : Domain → MessageDomain
domain_of btle = domain_ble
domain_of esb = domain_esb
domain_of phy = domain_phy
domain_of logitech_unifying = domain_unifying
domain_of dot15d4 = domain_dot15d4
domain_of board = domain_board
domain_of _ = domain_none

-- `NanoPbMsg::getDomain`.
unfoldable pub get_domain : Message → MessageDomain
unfolding get_type is_domain_msg domain_of
get_domain m =
    if is_domain_msg (get_type m) then domain_of (Whad.get_message_domain m) else domain_none
