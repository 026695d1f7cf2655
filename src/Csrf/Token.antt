-- ===== src/Csrf/Token.antt =====
-- Which tokens addon/src/captive_portal/security/hmac_csrf.py accepts.
use homeassistant_captive_po.Base.{
  ℕ, ◌-◌, ◌≡◌, ◌⊎◌, inl, inr, Text, text_eq, text_eq_iff, text_eq_refl, true, false, not, ◌&&◌, ltb,
  ◌==◌, Option, none, some, List, [], ◌∷◌, ◌++◌, any_where, ℤ, pos, refl, ap, sym, ◌∙◌, arith,
  if◌then◌else◌, Bool-cases, Option-cases,
}
use homeassistant_captive_po.Csrf.{
  CsrfOutcome, accepted, forbidden, raised, rsplit_once, split, is_ascii, compare_digest,
  CsrfRequest, HmacCsrfConfig, Primitives, present, extract_request_token, generate_token,
  is_of_age, parts_checked, split_checked, token_checked, validate_origin, origin_checked,
  validate_token,
}

rsplit_once-none : (c : ℕ) (s : Text) → any_where (λ d. d == c) s ≡ false → rsplit_once c s ≡ none
rsplit_once-none c [] h = refl
rsplit_once-none c (d ∷ s) h = ground (arith, h, rsplit_once-none c s)

-- The last separator is the one before a part that has none.
rsplit_once-append :
    (c : ℕ) (s t : Text)
    → any_where (λ d. d == c) t ≡ false
    → rsplit_once c (s ++ c ∷ t) ≡ some (s, t)
rsplit_once-append c [] t h = ground (arith, rsplit_once-none c t h)
rsplit_once-append c (d ∷ s) t h = rw (rsplit_once-append c s t h) refl

-- What was split is the two parts around the separator.
append-rsplit_once : (c : ℕ) (s a b : Text) → rsplit_once c s ≡ some (a, b) → s ≡ a ++ c ∷ b
append-rsplit_once c [] a b h = absurd (cc)
append-rsplit_once c (d ∷ s) a b h = elim (Option-cases (rsplit_once c s)) [
  | inl e ↦ elim (Bool-cases (d == c)) [
    | inl q ↦ ground (arith, h, e, q)
    | inr q ↦ absurd (ground (arith, h, e, q))
  ]
  | inr ((a', b'), e) ↦
      let k = append-rsplit_once c s a' b' e in
      let first : a ≡ d ∷ a' = ground (arith, h, e) in
      let last : b ≡ b' = ground (arith, h, e) in rw (first, last) (ap (λ l. d ∷ l) k)
]

split-none : (c : ℕ) (s : Text) → any_where (λ d. d == c) s ≡ false → split c s ≡ s ∷ []
split-none c [] h = refl
split-none c (d ∷ s) h = ground (arith, h, split-none c s)

split-append :
    (c : ℕ) (s t : Text)
    → any_where (λ d. d == c) s ≡ false
    → any_where (λ d. d == c) t ≡ false
    → split c (s ++ c ∷ t) ≡ s ∷ t ∷ []
split-append c [] t h k = ground (arith, split-none c t k)
split-append c (d ∷ s) t h k = ground (arith, h, split-append c s t)

module _ (p : Primitives) (config : HmacCsrfConfig) where
  -- What the code relies on: decoding undoes encoding, a digest is hexadecimal, and so is a nonce, and
  -- `int` undoes `str`, which has digits only.
  pub record IsFaithful (nonce : Text) (made : ℕ) : Type 0 where
    pub decoded :
        p.b64decode (generate_token p config nonce made)
        ≡ some (
            (nonce ++ b':' ∷ p.str_of made)
            ++ b'.' ∷ p.hexdigest config.secret_key (nonce ++ b':' ∷ p.str_of made))
    pub digest :
        (x : Text)
        → (any_where (λ c. c == b'.') (p.hexdigest config.secret_key x) ≡ false)
          × (is_ascii (p.hexdigest config.secret_key x) ≡ true)
    pub nonce_plain : any_where (λ c. c == b':') nonce ≡ false
    pub stamp_plain : any_where (λ c. c == b':') (p.str_of made) ≡ false
    pub stamp : p.int_of (p.str_of made) ≡ some (pos made)

  -- A token that was generated is accepted from then on for the maximum age and no longer, from a
  -- request whose origin passes.
  pub validate_token-generate_token :
      (nonce : Text) (made now : ℕ) (request : CsrfRequest)
      → IsFaithful nonce made
      → present (extract_request_token request) ≡ some (generate_token p config nonce made)
      → (if config.check_origin then validate_origin p request else accepted) ≡ accepted
      → validate_token p config now request ≡ (
          if not (ltb now made) && not (ltb config.max_age_seconds (now - made))
          then accepted
          else forbidden)
  unfolding validate_token compare_digest
  validate_token-generate_token nonce made now request f t o =
      let payload = nonce ++ b':' ∷ p.str_of made in
      let sig = p.hexdigest config.secret_key payload in
      let (no_dot, ascii) = f.digest payload in
      rw
        (
          t,
          validate_token,
          o,
          f.decoded,
          rsplit_once-append b'.' payload sig no_dot,
          ascii,
          text_eq_refl sig,
          split-append b':' nonce (p.str_of made) f.nonce_plain f.stamp_plain,
          f.stamp,
        )
        refl

  -- What an accepted token says, decoded.
  pub record IsSigned (now : ℕ) (decoded : Text) : Type 0 where
    pub payload : Text
    pub signed : decoded ≡ payload ++ b'.' ∷ p.hexdigest config.secret_key payload
    pub nonce : Text
    pub timestamp : Text
    pub parts : split b':' payload ≡ nonce ∷ timestamp ∷ []
    pub made : ℤ
    pub stamp : p.int_of timestamp ≡ some made
    pub of_age : is_of_age p config.max_age_seconds now made ≡ true

  parts_checked_inv :
      (now : ℕ) (payload decoded : Text)
      → decoded ≡ payload ++ b'.' ∷ p.hexdigest config.secret_key payload
      → parts_checked p config now (split b':' payload) ≡ accepted
      → IsSigned now decoded
  parts_checked_inv now payload decoded q h = go (split b':' payload) refl
    where
      go : (l : List Text) → split b':' payload ≡ l → IsSigned now decoded
      go [] e = absurd (ground (arith, h, e))
      go (a ∷ []) e = absurd (ground (arith, h, e))
      go (a ∷ b ∷ c ∷ l) e = absurd (ground (arith, h, e))
      go (a ∷ b ∷ []) e = elim (Option-cases (p.int_of b)) [
        | inl n ↦ absurd (ground (arith, h, e, n))
        | inr (t, n) ↦ record {
          payload = payload;
          signed = q;
          nonce = a;
          timestamp = b;
          parts = e;
          made = t;
          stamp = n;
          of_age = elim (Bool-cases (is_of_age p config.max_age_seconds now t)) [
            | inl y ↦ y
            | inr y ↦ absurd (ground (arith, h, e, n, y))
          ];
        }
      ]

  split_checked_inv :
      (now : ℕ) (decoded : Text)
      → split_checked p config now (rsplit_once b'.' decoded) ≡ accepted
      → IsSigned now decoded
  unfolding compare_digest
  split_checked_inv now decoded h = elim (Option-cases (rsplit_once b'.' decoded)) [
    | inl n ↦ absurd (ground (arith, h, n))
    | inr ((payload, sig), n) ↦
        let expected = p.hexdigest config.secret_key payload in
        elim (Bool-cases (is_ascii sig && is_ascii expected)) [
          | inr x ↦ absurd (ground (arith, h, n, x))
          | inl x ↦ elim (Bool-cases (text_eq sig expected)) [
            | inr y ↦ absurd (ground (arith, h, n, x, y))
            | inl y ↦
                let same : sig ≡ expected = (text_eq_iff sig expected).0 y in
                parts_checked_inv now payload decoded
                  (append-rsplit_once b'.' decoded payload sig n
                    ∙ ap (λ s. payload ++ b'.' ∷ s) same)
                  (ground (arith, h, n, x, y))
          ]
        ]
  ]

  origin_checked_inv :
      (a b : CsrfOutcome) → origin_checked p a b ≡ accepted → (a ≡ accepted) × (b ≡ accepted)
  origin_checked_inv accepted b h = (refl, h)
  origin_checked_inv forbidden b h = absurd (cc)
  origin_checked_inv raised b h = absurd (cc)

  token_checked_inv :
      (now : ℕ) (o : Option Text)
      → token_checked p config now o ≡ accepted
      → (decoded : Text) × (o ≡ some decoded)
        × (split_checked p config now (rsplit_once b'.' decoded) ≡ accepted)
  token_checked_inv now none h = absurd (cc)
  token_checked_inv now (some decoded) h = (decoded, refl, h)

  validate_token-raw :
      (now : ℕ) (request : CsrfRequest) (raw : Text)
      → present (extract_request_token request) ≡ some raw
      → validate_token p config now request
        ≡ origin_checked p
            (if config.check_origin then validate_origin p request else accepted)
            (token_checked p config now (p.b64decode raw))
  unfolding validate_token
  validate_token-raw now request raw n = rw (n, validate_token) refl

  -- An accepted request has a token that decodes to a payload and its HMAC under the server's key,
  -- whose timestamp is of age, and its origin passed if that is checked.
  pub validate_token-IsSigned :
      (now : ℕ) (request : CsrfRequest)
      → validate_token p config now request ≡ accepted
      → (raw : Text) × (decoded : Text) × (present (extract_request_token request) ≡ some raw)
        × (p.b64decode raw ≡ some decoded)
        × IsSigned now decoded
        × ((config.check_origin ≡ false) ⊎ (validate_origin p request ≡ accepted))
  unfolding validate_token
  validate_token-IsSigned now request h =
      elim (Option-cases (present (extract_request_token request))) [
        | inl n ↦ absurd (ground (arith, h, n))
        | inr (raw, n) ↦
            let passed : origin_checked p
                  (if config.check_origin then validate_origin p request else accepted)
                  (token_checked p config now (p.b64decode raw))
                ≡ accepted =
              sym (validate_token-raw now request raw n) ∙ h in
            let (origin, token) =
              origin_checked_inv
                (if config.check_origin then validate_origin p request else accepted) _ passed in
            let (decoded, m, k) = token_checked_inv now (p.b64decode raw) token in
            (
              raw,
              decoded,
              n,
              m,
              split_checked_inv now decoded k,
              elim (Bool-cases config.check_origin) [
                | inl y ↦ inr (ground (arith, origin, y))
                | inr y ↦ inl y
              ],
            )
      ]
