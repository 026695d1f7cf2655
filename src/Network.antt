-- ===== src/Network.antt =====
-- addon/src/captive_portal/utils/network_utils.py and
-- addon/src/captive_portal/api/routes/guest_authorization/mac_address.py
--
-- `upper` is Python's `str.upper`; `IpAddress` is the part of the module `ipaddress` that is called.
pub mod Mac
pub mod ClientIp
use homeassistant_captive_po.Base.{
  ℕ, zero, suc, Text, text_eq, is_empty, strip, codes, Bool, true, false, not, ◌&&◌, ◌||◌, leb,
  ◌==◌, Option, none, some, List, [], ◌∷◌, Result, ok, err, length, select_where, if◌then◌else◌,
}

-- Whether a text is an address, and whether an address lies in a network; `none` is a ValueError.
pub record IpAddress : Type 0 where
  pub is_address : Text → Bool
  pub in_network : Text → Text → Option Bool

-- The headers and the peer that the guest handlers read.
pub record Request : Type 0 where
  pub client_host : Option Text
  pub x_forwarded_for : Option Text
  pub x_real_ip : Option Text
  pub x_mac_address : Option Text
  pub x_client_mac : Option Text
  pub client_mac_header : Option Text
  pub client_mac_query : Option Text
  pub user_agent : Text
  pub root_path : Text

-- Truth of an optional string.
abbrev pub present : Option Text → Option Text
present none = none
present (some []) = none
present (some (c ∷ s)) = some (c ∷ s)

-- `any(client_addr in ip_network(net) for net in trusted_networks)`: the first hit ends it, and a
-- ValueError before that leaves it.
unfoldable pub any_network : IpAddress → Text → List Text → Option Bool
any_network ips ip [] = some false
any_network ips ip (net ∷ nets) = elim (ips.in_network ip net) [
  | none ↦ none
  | some hit ↦ elim hit [ true ↦ some true | false ↦ any_network ips ip nets ]
]

-- Whether the headers of the connection are read, where proxies are trusted.
abbrev pub is_trusted : IpAddress → Text → List Text → Bool
is_trusted ips ip [] = true
is_trusted ips ip (net ∷ nets) =
    ips.is_address ip && (elim (any_network ips ip (net ∷ nets)) [ none ↦ false | some hit ↦ hit ])

-- xff.split(",")[0]
abbrev pub before_comma : Text → Text
before_comma [] = []
before_comma (c ∷ s) = if c == b',' then [] else c ∷ before_comma s

abbrev pub valid_or : IpAddress → Option Text → Text → Text
valid_or ips none fallback = fallback
valid_or ips (some ip) fallback = if ips.is_address ip then ip else fallback

abbrev pub stripped_first : Option Text → Option Text
stripped_first none = none
stripped_first (some xff) = some (strip (before_comma xff))

unfoldable pub get_client_ip : IpAddress → Request → Bool → List Text → Text
unfolding any_network
get_client_ip ips request trust_proxies trusted_networks = elim request.client_host [
  | none ↦ codes "unknown"
  | some direct_ip ↦
      if not trust_proxies || text_eq direct_ip (codes "unknown")
      then direct_ip
      else if not (is_trusted ips direct_ip trusted_networks)
      then direct_ip
      else valid_or ips (stripped_first (present request.x_forwarded_for))
          (valid_or ips (present request.x_real_ip) direct_ip)
]

-- mac.replace(":", "").replace("-", "").replace(".", "")
unfoldable pub without_separators : Text → Text
without_separators s = select_where (λ c. not (c == b':' || c == b'-' || c == b'.')) s

abbrev pub is_hex : ℕ → Bool
is_hex c = (leb b'0' c && leb c b'9') || (leb b'A' c && leb c b'F')

abbrev pub all_hex : Text → Bool
all_hex [] = true
all_hex (c ∷ s) = is_hex c && all_hex s

-- `^[0-9A-F]{12}$` of re.match, whose `$` also matches before a newline that ends the text.
abbrev pub trim_newline : Text → Text
trim_newline [] = []
trim_newline (c ∷ s) = if c == 10 && is_empty s then [] else c ∷ trim_newline s

unfoldable pub is_twelve_hex : Text → Bool
is_twelve_hex s = length (trim_newline s) == 12 && all_hex (trim_newline s)

-- ":".join of the slices cleaned[i : i + 2] for i in range(0, 12, 2)
abbrev pub octets : ℕ → Text → Text
octets zero s = []
octets (suc zero) (a ∷ b ∷ s) = a ∷ b ∷ []
octets (suc (suc n)) (a ∷ b ∷ s) = a ∷ b ∷ b':' ∷ octets (suc n) s
octets (suc n) s = s

pub data MacError : Type 0 where
  empty_mac bad_mac missing_mac : MacError

module _ (upper : Text → Text) where
  unfoldable pub validate_mac_address : Text → Result MacError Text
  unfolding without_separators is_twelve_hex
  validate_mac_address mac =
      if is_empty mac
      then err empty_mac
      else let cleaned = upper (without_separators mac) in
        if is_twelve_hex cleaned then ok (octets 6 cleaned) else err bad_mac

  -- The first header that is not empty, then the form's value, then the query's.
  abbrev first_present : Option Text → Option Text → Option Text
  first_present (some (c ∷ s)) other = some (c ∷ s)
  first_present _ other = other

  abbrev stripped : Option Text → Option Text
  stripped none = none
  stripped (some s) = some (strip s)

  abbrev validated : Option Text → Result MacError Text
  validated none = err missing_mac
  validated (some mac) = validate_mac_address mac

  unfoldable pub extract_mac_address : Request → Option Text → Result MacError Text
  extract_mac_address request form_mac = validated (
      present (
        first_present request.x_mac_address (
          first_present request.x_client_mac (
            first_present request.client_mac_header
              (first_present (stripped form_mac) request.client_mac_query)))))
