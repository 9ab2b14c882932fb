-- ===== src/Discovery.antt =====
-- src/discovery.c and inc/discovery.h: what a device says of itself.
pub mod Domains
pub mod Exact
mod Tests
use whad_lib.Prelude.{
  ℕ, ◌+◌, ◌%◌, Bool, true, false, List, [], ◌∷◌, ◌++◌, length, take, drop, replicate, Option, none,
  some, ◌==◌, if◌then◌else◌, Status, success, error,
}
use whad_lib.Protocol.Message
use whad_lib.Protocol.Message.{
  Message, DiscoveryMessage, DeviceInfoResp, DomainDesc, Label, discovery_msg, discovery_unset,
  reset_query, ready_resp, info_query, info_resp, domain_query, domain_resp, set_speed,
}

-- `which_msg` of `discovery_Message`.
abbrev pub which_msg : DiscoveryMessage → ℕ
which_msg discovery_unset = 0
which_msg reset_query = 1
which_msg ready_resp = 2
which_msg (info_query _) = 3
which_msg (info_resp _) = 4
which_msg (domain_query _) = 5
which_msg (domain_resp _ _) = 6
which_msg (set_speed _) = 7

-- `whad_discovery_msgtype_t`, by value: 0 for `WHAD_DISCOVERY_UNKNOWN`, and the tags.
unfoldable pub get_message_type : Message → ℕ
get_message_type (discovery_msg d) = which_msg d
get_message_type _ = 0

-- The loops over an array of descriptors; `none` where they run past its end.
unfoldable pub is_domain_supported : List DomainDesc → ℕ → Option Bool
is_domain_supported [] domain = none
is_domain_supported (c ∷ capabilities) domain =
    let rest = is_domain_supported capabilities domain in
    if c.domain == 0 then some false else if c.domain == domain then some true else rest

unfoldable pub get_supported_commands : ℕ → List DomainDesc → Option ℕ
get_supported_commands domain [] = none
get_supported_commands domain (c ∷ capabilities) =
    let rest = get_supported_commands domain capabilities in
    if c.domain == 0 then some 0 else if c.domain == domain then some c.supported_commands else rest

-- Each function writes the message that `p_message` points to, unless it is NULL.
unfoldable pub write_discovery : DiscoveryMessage → Option Message → Status × Option Message
write_discovery d none = (error, none)
write_discovery d (some m) = (success, some (discovery_msg d))

unfoldable pub device_info_query : Option Message → ℕ → Status × Option Message
device_info_query m proto_version = write_discovery (info_query proto_version) m

unfoldable pub domain_info_query : Option Message → ℕ → Status × Option Message
domain_info_query m domain = write_discovery (domain_query domain) m

unfoldable pub device_reset : Option Message → Status × Option Message
device_reset m = write_discovery reset_query m

unfoldable pub write_ready_resp : Option Message → Status × Option Message
write_ready_resp m = write_discovery ready_resp m

unfoldable pub write_set_speed : Option Message → ℕ → Status × Option Message
write_set_speed m speed = write_discovery (set_speed speed) m

-- `none` where the array of descriptors does not end.
unfoldable pub domain_info_resp :
    Option Message → ℕ → List DomainDesc → Option (Status × Option Message)
domain_info_resp none domain capabilities = some (error, none)
domain_info_resp (some m) domain capabilities = elim (get_supported_commands domain capabilities) [
  | none ↦ none
  | some commands ↦ some (write_discovery (domain_resp domain commands) (some m))
]

-- `strncpy(dst, src, n)` of a string, into an array that holds `old`.
unfoldable pub strncpy : ℕ → List ℕ → List ℕ → List ℕ
strncpy n text old = take n (text ++ replicate n 0) ++ drop n old

-- A label of `whad_discovery_device_info_resp`: at most `n` characters are copied, and the size is the
-- length of the string, in 16 bits. The array held `old`.
unfoldable pub label : ℕ → Option (List ℕ) → List ℕ → Label
label n none old = record { size = 0; bytes = old }
label n (some text) old = record { size = length text % 65536; bytes = strncpy n text old }

-- The arrays of the message before the call, which the copies may leave in part.
pub record Arrays : Type 0 where
  pub devid : List ℕ
  pub fw_author : List ℕ
  pub fw_url : List ℕ

-- The strings may be NULL, except for the device identifier; the versions are the list's.
unfoldable pub device_info_resp :
    Option Message
    → Arrays
    → ℕ
    → List ℕ
    → ℕ
    → ℕ
    → Option (List ℕ)
    → Option (List ℕ)
    → ℕ
    → ℕ
    → ℕ
    → List DomainDesc
    → Status × Option Message
device_info_resp m old device_type devid proto_min_ver max_speed fw_author fw_url major minor rev
      capabilities =
    write_discovery
      (info_resp (record {
        device_type = device_type;
        devid = strncpy 15 devid old.devid;
        proto_min_ver = proto_min_ver;
        max_speed = max_speed;
        fw_author = label 63 fw_author old.fw_author;
        fw_url = label 255 fw_url old.fw_url;
        fw_version_major = major;
        fw_version_minor = minor;
        fw_version_rev = rev;
        capabilities = capabilities;
      }))
      m

-- The three parsers: the status, and the output afterwards.
unfoldable pub device_info_query_parse : Option Message → Option ℕ → Status × Option ℕ
device_info_query_parse none out = (error, out)
device_info_query_parse (some m) none = (error, none)
device_info_query_parse (some (discovery_msg (info_query version))) (some old) =
    (success, some version)
device_info_query_parse (some _) (some old) = (error, some old)

unfoldable pub domain_info_query_parse : Option Message → Option ℕ → Status × Option ℕ
domain_info_query_parse none out = (error, out)
domain_info_query_parse (some m) none = (error, none)
domain_info_query_parse (some (discovery_msg (domain_query domain))) (some old) =
    (success, some domain)
domain_info_query_parse (some _) (some old) = (error, some old)

unfoldable pub set_speed_parse : Option Message → Option ℕ → Status × Option ℕ
set_speed_parse none out = (error, out)
set_speed_parse (some m) none = (error, none)
set_speed_parse (some (discovery_msg (set_speed speed))) (some old) = (success, some speed)
set_speed_parse (some _) (some old) = (error, some old)
