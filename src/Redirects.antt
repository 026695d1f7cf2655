-- ===== src/Redirects.antt =====
-- `RedirectValidator` of addon/src/captive_portal/services/redirect_validator.py, and
-- `safe_redirect_destination` of api/routes/guest_authorization/redirects.py
--
-- `urlparse` is the function of urllib.parse, none where it raises ValueError; `lower` is str.lower.
pub mod Safe
use homeassistant_captive_po.Base.{
  ℕ, Text, text_eq, codes, is_empty, Bool, true, false, not, ◌&&◌, ◌||◌, ◌==◌, Option, none, some,
  List, [], ◌∷◌, ◌++◌, map, any_where, if◌then◌else◌,
}
use homeassistant_captive_po.Cache.{starts_with}

pub record UrlParts : Type 0 where
  pub scheme : Text
  pub netloc : Text

-- s.split(c)[0]
abbrev pub split_first : ℕ → Text → Text
split_first c [] = []
split_first c (d ∷ s) = let rest = split_first c s in if d == c then [] else d ∷ rest

-- url.replace("\\", "/")
abbrev pub forward_slashes : Text → Text
forward_slashes s = map (λ c. if c == 92 then b'/' else c) s

abbrev pub is_dangerous : Text → Bool
is_dangerous scheme =
    any_where (text_eq scheme)
      (codes "javascript" ∷ codes "data" ∷ codes "vbscript" ∷ codes "file" ∷ [])

abbrev pub is_http : Text → Bool
is_http scheme = any_where (text_eq scheme) (codes "http" ∷ codes "https" ∷ [])

module _ (urlparse : Text → Option UrlParts) (lower : Text → Text) where
  -- The tests after `urlparse`, of the replaced URL.
  unfoldable pub is_safe_parts : List Text → Text → UrlParts → Bool
  unfolding starts_with
  is_safe_parts allowed_domains url parsed =
      if is_dangerous (lower parsed.scheme)
      then false
      else if is_empty parsed.scheme && is_empty parsed.netloc
      then starts_with url (codes "/") && not (starts_with url (codes "//"))
      else if not (is_empty parsed.scheme)
          && (not (is_http (lower parsed.scheme)) || is_empty parsed.netloc)
      then false
      else not (is_empty parsed.netloc)
        && any_where (text_eq (split_first b':' (lower parsed.netloc))) allowed_domains

  -- None where the ValueError of `urlparse` leaves the method.
  unfoldable pub is_safe : List Text → Text → Option Bool
  unfolding starts_with is_safe_parts
  is_safe allowed_domains url =
      if is_empty url || starts_with url (codes "//")
      then some false
      else elim (urlparse (forward_slashes url)) [
        | none ↦ none
        | some parsed ↦ some (is_safe_parts allowed_domains (forward_slashes url) parsed)
      ]

  unfoldable pub safe_redirect_destination : Text → Option Text → List Text → Option Text
  unfolding is_safe
  safe_redirect_destination root_path none allowed_domains =
      some (root_path ++ codes "/guest/welcome")
  safe_redirect_destination root_path (some url) allowed_domains =
      if is_empty url
      then some (root_path ++ codes "/guest/welcome")
      else elim (is_safe allowed_domains url) [
        | none ↦ none
        | some safe ↦ some (if safe then url else root_path ++ codes "/guest/welcome")
      ]
