-- ===== src/Csrf.antt =====
-- The token of the guest's form: addon/src/captive_portal/security/hmac_csrf.py
--
-- Python's HMAC, Base64, `str` and `int` of an integer, `str.lower` and urllib's `urlparse` are
-- parameters. Time is in seconds, as `int(time.time())`.
pub mod Token
use homeassistant_captive_po.Base.{
  ℕ, zero, suc, ◌+◌, ◌-◌, Text, text_eq, is_empty, strip, codes, Bool, true, false, not, ◌&&◌, ◌||◌,
  ltb, ◌==◌, Option, none, some, List, [], ◌∷◌, ◌++◌, any_where, ℤ, pos, negsuc, select_where,
  length, if◌then◌else◌,
}
use homeassistant_captive_po.Cache.{starts_with}
use homeassistant_captive_po.Codes.{all_chars}

-- It returns, raises the HTTPException 403, or raises something else.
pub data CsrfOutcome : Type 0 where
  accepted forbidden raised : CsrfOutcome

-- s.rsplit(c, 1), where it has two parts.
abbrev pub rsplit_once : ℕ → Text → Option (Text × Text)
rsplit_once c [] = none
rsplit_once c (d ∷ s) = elim (rsplit_once c s) [
  | none ↦ if d == c then some ([], s) else none
  | some (a, b) ↦ some (d ∷ a, b)
]

-- s.partition(c), where c is in s.
abbrev pub partition : ℕ → Text → Option (Text × Text)
partition c [] = none
partition c (d ∷ s) =
    let rest = partition c s in
    if d == c then some ([], s) else elim rest [ none ↦ none | some (a, b) ↦ some (d ∷ a, b) ]

abbrev pub onto_first : ℕ → List Text → List Text
onto_first d [] = []
onto_first d (s ∷ l) = (d ∷ s) ∷ l

-- s.split(c)
abbrev pub split : ℕ → Text → List Text
split c [] = [] ∷ []
split c (d ∷ s) = let rest = split c s in if d == c then [] ∷ rest else onto_first d rest

-- `t in s`
abbrev pub contains : Text → Text → Bool
contains t [] = is_empty t
contains t (c ∷ s) = starts_with (c ∷ s) t || contains t s

abbrev pub is_ascii : Text → Bool
is_ascii s = all_chars (λ c. ltb c 128) s

-- hmac.compare_digest of two texts, none for its TypeError.
unfoldable pub compare_digest : Text → Text → Option Bool
compare_digest a b = if is_ascii a && is_ascii b then some (text_eq a b) else none

pub record SourceUrl : Type 0 where
  pub scheme : Text
  pub hostname : Option Text
  -- none where `parsed.port` raises ValueError
  pub port : Option (Option ℤ)

pub record CsrfRequest : Type 0 where
  pub is_get : Bool
  pub header_token : Option Text
  pub content_type : Text
  -- none where the form cannot be parsed or its field is no text
  pub form_token : Option Text
  pub query_token : Option Text
  pub origin : Option Text
  pub referer : Option Text
  pub url_hostname : Option Text
  pub url_port : Option ℤ
  pub host : Text

pub record HmacCsrfConfig : Type 0 where
  pub secret_key : Text
  pub max_age_seconds : ℕ
  pub check_origin : Bool

pub record Primitives : Type 0 where
  pub hexdigest : Text → Text → Text
  pub b64encode : Text → Text
  pub b64decode : Text → Option Text
  pub str_of : ℕ → Text
  pub int_of : Text → Option ℤ
  pub lower : Text → Text
  pub urlparse : Text → Option SourceUrl

abbrev pub present : Option Text → Option Text
present none = none
present (some []) = none
present (some (c ∷ s)) = some (c ∷ s)

abbrev has_form : Text → Bool
has_form content_type =
    contains (codes "application/x-www-form-urlencoded") content_type
    || contains (codes "multipart/form-data") content_type

abbrev query_token_of : CsrfRequest → Option Text
query_token_of request = if request.is_get then request.query_token else none

abbrev form_or_query : CsrfRequest → Option Text → Option Text
form_or_query request none = query_token_of request
form_or_query request (some token) = some token

unfoldable pub extract_request_token : CsrfRequest → Option Text
extract_request_token request = elim (present request.header_token) [
  | some token ↦ some token
  | none ↦
      form_or_query request (if has_form request.content_type then request.form_token else none)
]

abbrev pub int_eq : ℤ → ℤ → Bool
int_eq (pos a) (pos b) = a == b
int_eq (negsuc a) (negsuc b) = a == b
int_eq _ _ = false

abbrev pub port_eq : Option ℤ → Option ℤ → Bool
port_eq none none = true
port_eq (some a) (some b) = int_eq a b
port_eq _ _ = false

abbrev pub or_blank : Option Text → Text
or_blank none = []
or_blank (some s) = s

module _ (p : Primitives) where
  -- What follows the bracket, if it is a port.
  abbrev port_behind : Text → Option ℤ
  port_behind [] = none
  port_behind (c ∷ s) = if c == b':' then p.int_of s else none

  abbrev bracketed : Text → Option (Text × Text) → Text × Option ℤ
  bracketed host none = (host, none)
  bracketed host (some (hostname, rest)) = (hostname, port_behind rest)

  abbrev with_port : Text → Text → Option ℤ → Text × Option ℤ
  with_port host head none = (host, none)
  with_port host head (some port) = (head, some port)

  abbrev plain : Text → Option (Text × Text) → Text × Option ℤ
  plain host none = (host, none)
  plain host (some (head, tail)) =
      if any_where (λ c. c == b':') tail then (host, none) else with_port host head (p.int_of tail)

  abbrev lowered_host : Text → Text × Option ℤ
  lowered_host [] = ([], none)
  lowered_host (c ∷ s) =
      if c == b'['
      then bracketed (c ∷ s) (partition b']' s)
      else plain (c ∷ s) (partition b':' (c ∷ s))

  unfoldable pub parse_host_header : Text → Text × Option ℤ
  parse_host_header host = lowered_host (p.lower (strip host))

  abbrev request_host : CsrfRequest → Text × Option ℤ
  request_host request = elim (present request.url_hostname) [
    | none ↦ parse_host_header request.host
    | some hostname ↦ (p.lower hostname, request.url_port)
  ]

  abbrev default_port : Text → Option ℤ
  default_port scheme =
      if text_eq scheme (codes "http")
      then some (pos 80)
      else if text_eq scheme (codes "https")
      then some (pos 443)
      else none

  abbrev without_default : Text → Option ℤ → Option ℤ
  without_default scheme none = none
  without_default scheme (some port) =
      if port_eq (some port) (default_port scheme) then none else some port

  abbrev compared : Text → Text × Option ℤ → Text × Option ℤ → CsrfOutcome
  compared scheme (source, source_port) (hostname, port) =
      if text_eq source hostname
        && port_eq (without_default scheme source_port) (without_default scheme port)
      then accepted
      else forbidden

  abbrev source_checked : CsrfRequest → Option SourceUrl → CsrfOutcome
  source_checked request none = raised
  source_checked request (some url) = elim url.port [
    | none ↦ raised
    | some port ↦
        compared (p.lower url.scheme) (p.lower (or_blank url.hostname), port) (request_host request)
  ]

  -- The Origin, or else the Referer; a request without both passes.
  unfoldable pub validate_origin : CsrfRequest → CsrfOutcome
  unfolding parse_host_header
  validate_origin request = elim (present request.origin) [
    | some url ↦ source_checked request (p.urlparse url)
    | none ↦ elim (present request.referer) [
      | some url ↦ source_checked request (p.urlparse url)
      | none ↦ accepted
    ]
  ]

  unfoldable pub generate_token : HmacCsrfConfig → Text → ℕ → Text
  generate_token config nonce now =
      let payload = nonce ++ b':' ∷ p.str_of now in
      p.b64encode (payload ++ b'.' ∷ p.hexdigest config.secret_key payload)

  -- Whether a token of a time is of age; an instant before 0 is far in the past.
  abbrev pub is_of_age : ℕ → ℕ → ℤ → Bool
  is_of_age max_age now (pos t) = not (ltb now t) && not (ltb max_age (now - t))
  is_of_age max_age now (negsuc n) = not (ltb max_age (now + suc n))

  abbrev pub timestamp_checked : HmacCsrfConfig → ℕ → Option ℤ → CsrfOutcome
  timestamp_checked config now none = forbidden
  timestamp_checked config now (some t) =
      if is_of_age config.max_age_seconds now t then accepted else forbidden

  abbrev pub parts_checked : HmacCsrfConfig → ℕ → List Text → CsrfOutcome
  parts_checked config now (nonce ∷ timestamp ∷ []) =
      timestamp_checked config now (p.int_of timestamp)
  parts_checked config now _ = forbidden

  abbrev pub signature_checked : HmacCsrfConfig → ℕ → Text → Option Bool → CsrfOutcome
  signature_checked config now payload none = raised
  signature_checked config now payload (some false) = forbidden
  signature_checked config now payload (some true) = parts_checked config now (split b':' payload)

  abbrev pub split_checked : HmacCsrfConfig → ℕ → Option (Text × Text) → CsrfOutcome
  split_checked config now none = forbidden
  split_checked config now (some (payload, provided_sig)) =
      signature_checked config now payload
        (compare_digest provided_sig (p.hexdigest config.secret_key payload))

  abbrev pub token_checked : HmacCsrfConfig → ℕ → Option Text → CsrfOutcome
  token_checked config now none = forbidden
  token_checked config now (some decoded) = split_checked config now (rsplit_once b'.' decoded)

  abbrev pub origin_checked : CsrfOutcome → CsrfOutcome → CsrfOutcome
  origin_checked accepted later = later
  origin_checked outcome later = outcome

  unfoldable pub validate_token : HmacCsrfConfig → ℕ → CsrfRequest → CsrfOutcome
  unfolding validate_origin compare_digest extract_request_token
  validate_token config now request = elim (present (extract_request_token request)) [
    | none ↦ forbidden
    | some raw_token ↦
        origin_checked (if config.check_origin then validate_origin request else accepted)
          (token_checked config now (p.b64decode raw_token))
  ]
