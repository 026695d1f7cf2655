-- ===== src/Tests/Requests.antt =====
-- Runs of addon/src/captive_portal/utils/network_utils.py
use homeassistant_captive_po.Base.{
  ◌⊎◌, ◌++◌, ◌≡◌, Text, text_eq, codes, true, none, some, List, [], ◌∷◌, refl, ok, strip, lstrip,
  rstrip, is_space,
}
use homeassistant_captive_po.Network.{
  IpAddress, Request, without_separators, is_twelve_hex, validate_mac_address, get_client_ip,
}
use homeassistant_captive_po.Network.Mac.{IsPairs, digits_of, validate_mac_address_canonical}
use homeassistant_captive_po.Network.ClientIp.{IsClientIp, get_client_ip-IsClientIp}

abbrev plain_mac : Text
plain_mac = codes "0011.2233.AABB"

abbrev normal_mac : Text
normal_mac = codes "00:11:22:33:AA:BB"

validate_mac_address_canonical_example :
    IsPairs 5 normal_mac
    × ((digits_of plain_mac ≡ digits_of normal_mac)
        ⊎ (digits_of plain_mac ≡ digits_of normal_mac ++ 10 ∷ []))
    × (validate_mac_address (λ s. s) normal_mac ≡ ok normal_mac)
unfolding validate_mac_address without_separators is_twelve_hex
validate_mac_address_canonical_example =
    validate_mac_address_canonical (λ s. s) (λ s h. refl) plain_mac normal_mac refl

-- Every text is an address, and the peer is in every network.
abbrev any_address : IpAddress
any_address = record { is_address = λ _. true; in_network = λ _ _. some true }

abbrev forwarded : Request
forwarded = record {
  client_host = some (codes "10.0.0.1");
  x_forwarded_for = some (codes "10.9.9.9, 10.0.0.1");
  x_real_ip = none;
  x_mac_address = none;
  x_client_mac = none;
  client_mac_header = none;
  client_mac_query = none;
  user_agent = codes "test";
  root_path = [];
}

abbrev networks : List Text
networks = codes "10.0.0.0/8" ∷ []

get_client_ip-IsClientIp_example : IsClientIp any_address forwarded true networks (codes "10.9.9.9")
unfolding get_client_ip text_eq strip lstrip rstrip is_space
get_client_ip-IsClientIp_example = get_client_ip-IsClientIp any_address forwarded true networks
