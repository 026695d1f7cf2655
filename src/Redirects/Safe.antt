-- ===== src/Redirects/Safe.antt =====
-- Where addon/src/captive_portal/services/redirect_validator.py lets a guest be sent.
use homeassistant_captive_po.Base.{
  ℕ, ◌≡◌, ◌⊎◌, inl, inr, Text, text_eq, codes, is_empty, Bool, true, false, ◌==◌, Option, none,
  some, List, [], ◌∷◌, ◌++◌, refl, ap, subst, arith, any_where, Bool-cases, Option-cases,
}
use homeassistant_captive_po.Cache.{starts_with}
use homeassistant_captive_po.Redirects.{
  UrlParts, split_first, forward_slashes, is_http, is_safe_parts, is_safe,
  safe_redirect_destination,
}

split_first-append :
    (c : ℕ) (s t : Text) → any_where (λ d. d == c) s ≡ false → split_first c (s ++ c ∷ t) ≡ s
split_first-append c [] t h = ground arith
split_first-append c (d ∷ s) t h = ground (arith, h, split_first-append c s t)

is_empty-append : (s : Text) (c : ℕ) (t : Text) → is_empty (s ++ c ∷ t) ≡ false
is_empty-append [] c t = refl
is_empty-append (d ∷ s) c t = refl

-- A path on this host.
abbrev pub IsLocal : Text → UrlParts → Type 0
IsLocal url parsed =
    (parsed.scheme ≡ [])
    × (parsed.netloc ≡ [])
    × (starts_with url (codes "/") ≡ true)
    × (starts_with url (codes "//") ≡ false)

module _ (urlparse : Text → Option UrlParts) (lower : Text → Text)
    (allowed_domains : List Text) where
  -- A host of the list, by HTTP where a scheme is named.
  abbrev pub IsListed : UrlParts → Type 0
  IsListed parsed =
      ((parsed.scheme ≡ []) ⊎ (is_http (lower parsed.scheme) ≡ true))
      × (any_where (text_eq (split_first b':' (lower parsed.netloc))) allowed_domains ≡ true)

  is_safe_parts-cases :
      (url : Text) (parsed : UrlParts)
      → is_safe_parts urlparse lower allowed_domains url parsed ≡ true
      → IsLocal url parsed ⊎ IsListed parsed
  unfolding is_safe_parts
  is_safe_parts-cases url parsed h = go parsed.scheme parsed.netloc refl refl
    where
      go :
          (scheme netloc : Text)
          → parsed.scheme ≡ scheme
          → parsed.netloc ≡ netloc
          → IsLocal url parsed ⊎ IsListed parsed
      go [] [] s n = inl (s, n, ground (arith, h, s, n), ground (arith, h, s, n))
      go [] (c ∷ cs) s n = inr (inl s, ground (arith, h, s, n))
      go (c ∷ cs) [] s n = absurd (ground (arith, h, s, n))
      go (c ∷ cs) (d ∷ ds) s n = inr (inr (ground (arith, h, s, n)), ground (arith, h, s, n))

  is_safe-cases :
      (url : Text)
      → is_safe urlparse lower allowed_domains url ≡ some true
      → (parsed : UrlParts) × (urlparse (forward_slashes url) ≡ some parsed)
        × (IsLocal (forward_slashes url) parsed ⊎ IsListed parsed)
  unfolding is_safe
  is_safe-cases url h = elim (Option-cases (urlparse (forward_slashes url))) [
    | inl e ↦ absurd (ground (arith, h, e))
    | inr (parsed, e) ↦
        (parsed, e, is_safe_parts-cases (forward_slashes url) parsed (ground (arith, h, e)))
  ]

  -- A guest is sent to the welcome page, or to the URL that was named. Of that URL, with its
  -- backslashes turned, the parts are known: it is a path on this host, one slash ahead, or its network
  -- location up to a colon is on the list and its scheme, where it has one, is http or https.
  pub safe_redirect_destination-cases :
      (root_path : Text) (continue_url : Option Text) (destination : Text)
      → safe_redirect_destination urlparse lower root_path continue_url allowed_domains
        ≡ some destination
      → (destination ≡ root_path ++ codes "/guest/welcome")
        ⊎ ((parsed : UrlParts) × (continue_url ≡ some destination)
            × (urlparse (forward_slashes destination) ≡ some parsed)
            × (IsLocal (forward_slashes destination) parsed ⊎ IsListed parsed))
  unfolding safe_redirect_destination is_safe
  safe_redirect_destination-cases root_path none destination h = inl (ground (arith, h))
  safe_redirect_destination-cases root_path (some url) destination h =
      elim (Bool-cases (is_empty url)) [
        | inl e ↦ inl (ground (arith, h, e))
        | inr e ↦ elim (Option-cases (is_safe urlparse lower allowed_domains url)) [
          | inl q ↦ absurd (ground (arith, h, e, q))
          | inr (b, q) ↦ go b q e
        ]
      ]
    where
      go :
          (b : Bool)
          → is_safe urlparse lower allowed_domains url ≡ some b
          → is_empty url ≡ false
          → (destination ≡ root_path ++ codes "/guest/welcome")
            ⊎ ((parsed : UrlParts) × (some url ≡ some destination)
                × (urlparse (forward_slashes destination) ≡ some parsed)
                × (IsLocal (forward_slashes destination) parsed ⊎ IsListed parsed))
      go false q e = inl (ground (arith, h, e, q))
      go true q e =
          let same : url ≡ destination = ground (arith, h, e, q) in
          let (parsed, parse, kinds) = is_safe-cases url q in
          inr (
            parsed,
            ap some same,
            subst (λ u. urlparse (forward_slashes u) ≡ some parsed) same parse,
            subst (λ u. IsLocal (forward_slashes u) parsed ⊎ IsListed parsed) same kinds,
          )

  -- The test reads a network location up to its first colon only: whatever host stands behind, as in
  -- `https://listed:x@host`, the URL passes if the part ahead is on the list.
  pub is_safe_parts-userinfo :
      (url scheme domain rest : Text)
      → lower scheme ≡ codes "https"
      → lower (domain ++ b':' ∷ rest) ≡ domain ++ b':' ∷ rest
      → any_where (λ c. c == b':') domain ≡ false
      → any_where (text_eq domain) allowed_domains ≡ true
      → is_safe_parts urlparse lower allowed_domains url
          (record { scheme = scheme; netloc = domain ++ b':' ∷ rest })
        ≡ true
  unfolding is_safe_parts text_eq
  is_safe_parts-userinfo url scheme domain rest l m n h =
      let host = split_first-append b':' domain rest n in
      rw (l, m, host, is_empty-append domain b':' rest)
        (elim (Bool-cases (is_empty scheme)) [ inl e ↦ rw (e, h) refl | inr e ↦ rw (e, h) refl ])
