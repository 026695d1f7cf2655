-- ===== src/OpenApi/Retries.antt =====
-- How often addon/src/captive_portal/controllers/tp_omada/openapi_client.py asks and waits.
use homeassistant_captive_po.Base.{
  ℕ, zero, suc, ◌+◌, ◌≤◌, ◌≡◌, ◌≢◌, ◌⊎◌, inl, inr, Text, is_empty, Bool, true, false, not, ◌&&◌,
  leb, ◌==◌, Option, none, some, List, [], ◌∷◌, ◌++◌, Result, ok, err, ℤ, refl, ap, ◌∙◌, arith,
  Bool-cases, Option-cases,
}
use homeassistant_captive_po.Network.{present}
use homeassistant_captive_po.OpenApi.{
  TokenBody, TokenReply, token_connection_error, token_reply, Reply, connection_error, reply,
  Payload, payload, failed_payload, Failure, client_error, retry_exhausted, request_error, World,
  is_transient, is_auth_failure, backoff, Next, ends, again, cache_token_response, token_answered,
  request_token, has_fresh_token, or_missing, get_access_token, without_access, without_refresh,
  or_credentials, refresh_after_auth_failure, parse_payload, replied, with_token, request_once,
  refreshed, backed_off, handled,
}

-- The seconds of `n` waits from an attempt on.
abbrev pub waits : ℕ → ℕ → List ℕ
waits attempt zero = []
waits attempt (suc n) = backoff attempt ∷ waits (attempt + 1) n

pub append_nil : {A : Type 0} (l : List A) → l ++ [] ≡ l
append_nil [] = refl
append_nil (x ∷ l) = ap (λ m. x ∷ m) (append_nil l)

pub append_assoc : {A : Type 0} (l m n : List A) → (l ++ m) ++ n ≡ l ++ (m ++ n)
append_assoc [] m n = refl
append_assoc (x ∷ l) m n = ap (λ k. x ∷ k) (append_assoc l m n)

-- Nothing was asked for and nobody waited.
abbrev IsQuiet : {S : Type 0} → World S → World S → Type 0
IsQuiet w w' = (w'.requests ≡ w.requests) × (w'.sleeps ≡ w.sleeps)

-- The client's own failures of a step.
abbrev pub is_raised : Result Failure Text → Bool
is_raised (err retry_exhausted) = true
is_raised _ = false

module _ {S : Type 0} (post_token : Option Text → S → TokenReply × S) (send : Text → S → Reply × S)
    (clock : S → ℕ) (int_of : Text → Option ℤ) (margin : ℕ) where
  cache_token_response-IsQuiet :
      (body : Option TokenBody) (w : World S)
      → IsQuiet w (cache_token_response post_token send clock int_of margin body w).1
  unfolding cache_token_response
  cache_token_response-IsQuiet none w = (refl, refl)
  cache_token_response-IsQuiet (some body) w = (ground arith, ground arith)

  token_answered-IsQuiet :
      (r : TokenReply) (w : World S)
      → IsQuiet w (token_answered post_token send clock int_of margin r w).1
  token_answered-IsQuiet token_connection_error w = (refl, refl)
  token_answered-IsQuiet (token_reply status body) w = elim (Bool-cases (leb 400 status)) [
    | inl e ↦ rw e (refl, refl)
    | inr e ↦ rw e (cache_token_response-IsQuiet body w)
  ]

  request_token-IsQuiet :
      (o : Option Text) (w : World S)
      → IsQuiet w (request_token post_token send clock int_of margin o w).1
  unfolding request_token
  request_token-IsQuiet o w =
      token_answered-IsQuiet (post_token o w.controller).0
        (record w { controller = (post_token o w.controller).1 })

  -- A failure to get a token is the client's own error, and no request was sent.
  abbrev IsToken : World S → Result Failure Text × World S → Type 0
  IsToken w (r, w') = IsQuiet w w' × (r ≢ err request_error) × (r ≢ err retry_exhausted)

  abbrev is_own_error : Result {0, 0} Failure Unit → Bool
  is_own_error (ok _) = true
  is_own_error (err (client_error _)) = true
  is_own_error _ = false

  cache_token_response-is_own_error :
      (body : Option TokenBody) (w : World S)
      → is_own_error (cache_token_response post_token send clock int_of margin body w).0 ≡ true
  unfolding cache_token_response
  cache_token_response-is_own_error none w = refl
  cache_token_response-is_own_error (some body) w = ground arith

  request_token-is_own_error :
      (o : Option Text) (w : World S)
      → is_own_error (request_token post_token send clock int_of margin o w).0 ≡ true
  unfolding request_token
  request_token-is_own_error o w = go (post_token o w.controller).0
    where
      w' : World S
      w' = record w { controller = (post_token o w.controller).1 }

      go :
          (r : TokenReply)
          → is_own_error (token_answered post_token send clock int_of margin r w').0 ≡ true
      go token_connection_error = refl
      go (token_reply status body) = elim (Bool-cases (leb 400 status)) [
        | inl e ↦ rw e refl
        | inr e ↦ rw e (cache_token_response-is_own_error body w')
      ]

  or_missing-IsToken :
      (w : World S) (r : Result {0, 0} Failure Unit) (w' : World S)
      → IsQuiet w w'
      → is_own_error r ≡ true
      → IsToken w (or_missing post_token send clock int_of margin (r, w'))
  or_missing-IsToken w (err (client_error s)) w' q e =
      (q, (λ k. ground (arith, k)), λ k. ground (arith, k))
  or_missing-IsToken w (err retry_exhausted) w' q e = absurd (cc)
  or_missing-IsToken w (err request_error) w' q e = absurd (cc)
  or_missing-IsToken w (ok _) w' q e = elim (Option-cases w'.token_state.access_token) [
    | inl n ↦ rw n (q, (λ k. ground (arith, k)), λ k. ground (arith, k))
    | inr (access, n) ↦ elim (Bool-cases (is_empty access)) [
      | inl m ↦ rw (n, m) (q, (λ k. ground (arith, k)), λ k. ground (arith, k))
      | inr m ↦ rw (n, m) (q, (λ k. ground (arith, k)), λ k. ground (arith, k))
    ]
  ]

  get_access_token-IsToken :
      (w : World S) → IsToken w (get_access_token post_token send clock int_of margin w)
  unfolding get_access_token
  get_access_token-IsToken w = elim (Option-cases w.token_state.access_token) [
    | inl n ↦ rw (n, get_access_token) fetched
    | inr (access, n) ↦ elim (Bool-cases (has_fresh_token post_token send clock int_of margin w)) [
      | inl m ↦
          rw (n, get_access_token, m)
            ((refl, refl), (λ k. ground (arith, k)), λ k. ground (arith, k))
      | inr m ↦ rw (n, get_access_token, m) fetched
    ]
  ]
    where
      o : Option Text
      o = present w.token_state.refresh_token

      fetched : IsToken w (
          or_missing post_token send clock int_of margin
            (request_token post_token send clock int_of margin o w))
      fetched =
          or_missing-IsToken w (request_token post_token send clock int_of margin o w).0
            (request_token post_token send clock int_of margin o w).1 (request_token-IsQuiet o w)
            (request_token-is_own_error o w)

  refresh_after_auth_failure-IsQuiet :
      (w : World S) → IsQuiet w (refresh_after_auth_failure post_token send clock int_of margin w).1
  unfolding refresh_after_auth_failure
  refresh_after_auth_failure-IsQuiet w = elim (Option-cases (present w.token_state.refresh_token)) [
    | inl n ↦
        rw (n, refresh_after_auth_failure)
          (request_token-IsQuiet none (without_access post_token send clock int_of margin w))
    | inr (t, n) ↦
        let w₁ = without_access post_token send clock int_of margin w in
        rw (n, refresh_after_auth_failure)
          (go (request_token post_token send clock int_of margin (some t) w₁).0
            (request_token post_token send clock int_of margin (some t) w₁).1
            (request_token-IsQuiet (some t) w₁))
  ]
    where
      go :
          (r : Result {0, 0} Failure Unit) (w' : World S)
          → IsQuiet w w'
          → IsQuiet w (or_credentials post_token send clock int_of margin (r, w')).1
      go (ok _) w' q = q
      go (err e) w' (a, b) =
          let (c, d) =
            request_token-IsQuiet none (without_refresh post_token send clock int_of margin w') in
          (c ∙ a, d ∙ b)

  refresh_after_auth_failure-is_own_error :
      (w : World S)
      → is_own_error (refresh_after_auth_failure post_token send clock int_of margin w).0 ≡ true
  unfolding refresh_after_auth_failure
  refresh_after_auth_failure-is_own_error w =
      elim (Option-cases (present w.token_state.refresh_token)) [
        | inl n ↦
            rw (n, refresh_after_auth_failure)
              (request_token-is_own_error none
                (without_access post_token send clock int_of margin w))
        | inr (t, n) ↦
            let w₁ = without_access post_token send clock int_of margin w in
            rw (n, refresh_after_auth_failure)
              (go (request_token post_token send clock int_of margin (some t) w₁).0
                (request_token post_token send clock int_of margin (some t) w₁).1)
      ]
    where
      go :
          (r : Result {0, 0} Failure Unit) (w' : World S)
          → is_own_error (or_credentials post_token send clock int_of margin (r, w')).0 ≡ true
      go (ok _) w' = refl
      go (err e) w' =
          request_token-is_own_error none (without_refresh post_token send clock int_of margin w')

  replied-is_raised :
      (r : Reply) → is_raised (replied post_token send clock int_of margin r) ≡ false
  unfolding parse_payload
  replied-is_raised connection_error = refl
  replied-is_raised (reply status body) = elim (Bool-cases (leb 400 status)) [
    | inl e ↦ rw e refl
    | inr e ↦ rw e (go body)
  ]
    where
      go :
          (o : Option Payload)
          → is_raised (parse_payload post_token send clock int_of margin o) ≡ false
      go none = refl
      go (some (payload content)) = refl
      go (some (failed_payload code)) = refl

  -- One try sends one request at most.
  abbrev IsOnce : World S → Result Failure Text × World S → Type 0
  IsOnce w (r, w') = (w'.requests ≤ w.requests + 1) × (w'.sleeps ≡ w.sleeps) × (is_raised r ≡ false)

  with_token-IsOnce :
      (w : World S) (r : Result Failure Text) (w' : World S)
      → IsToken w (r, w')
      → IsOnce w (with_token post_token send clock int_of margin (r, w'))
  with_token-IsOnce w (ok access) w' ((a, b), _, _) =
      (omega (arith, a), b, replied-is_raised (send access w'.controller).0)
  with_token-IsOnce w (err (client_error s)) w' ((a, b), _, _) = (omega (arith, a), b, refl)
  with_token-IsOnce w (err retry_exhausted) w' (_, _, k) = absurd (k refl)
  with_token-IsOnce w (err request_error) w' (_, k, _) = absurd (k refl)

  pub request_once-IsOnce :
      (w : World S) → IsOnce w (request_once post_token send clock int_of margin w)
  unfolding request_once
  request_once-IsOnce w =
      with_token-IsOnce w (get_access_token post_token send clock int_of margin w).0
        (get_access_token post_token send clock int_of margin w).1 (get_access_token-IsToken w)

  -- What a handled try leaves: an answer, a second try with a new token, or the next try after a wait.
  abbrev pub IsHandled :
      World S → ℕ → Bool → Next post_token send clock int_of margin × World S → Type 0
  IsHandled w attempt retried (next, w') =
      (w'.requests ≤ w.requests + 1)
      × (((r : Result Failure Text) × (next ≡ ends r)
            × (w'.sleeps ≡ w.sleeps)
            × (r ≢ err request_error)
            × ((is_raised r ≡ false) ⊎ (attempt ≡ 3)))
          ⊎ (((next ≡ again attempt true) × (retried ≡ false) × (w'.sleeps ≡ w.sleeps))
              ⊎ ((next ≡ again (attempt + 1) retried)
                  × (attempt ≢ 3)
                  × (w'.sleeps ≡ w.sleeps ++ backoff attempt ∷ []))))

  backed_off-IsHandled :
      (w : World S) (attempt : ℕ) (retried : Bool) (w' : World S)
      → w'.requests ≤ w.requests + 1
      → w'.sleeps ≡ w.sleeps
      → IsHandled w attempt retried
          (backed_off post_token send clock int_of margin attempt retried w')
  backed_off-IsHandled w attempt retried w' le same = elim (Bool-cases (attempt == 3)) [
    | inl e ↦ rw e (le, inl (_, refl, same, (λ k. ground (arith, k)), inr (ground (arith, e))))
    | inr e ↦ rw e (
      le,
      inr (inr (refl, (λ k. ground (arith, e, k)), ap (λ l. l ++ backoff attempt ∷ []) same)),
    )
  ]

  refreshed-IsHandled :
      (w : World S) (attempt : ℕ) (w' : World S)
      → w'.requests ≤ w.requests + 1
      → w'.sleeps ≡ w.sleeps
      → IsHandled w attempt false (
          refreshed post_token send clock int_of margin attempt
            (refresh_after_auth_failure post_token send clock int_of margin w'))
  refreshed-IsHandled w attempt w' le same =
      go (refresh_after_auth_failure post_token send clock int_of margin w').0
        (refresh_after_auth_failure post_token send clock int_of margin w').1
        (refresh_after_auth_failure-IsQuiet w') (refresh_after_auth_failure-is_own_error w')
    where
      go :
          (r : Result {0, 0} Failure Unit) (v : World S)
          → IsQuiet w' v
          → is_own_error r ≡ true
          → IsHandled w attempt false (refreshed post_token send clock int_of margin attempt (r, v))
      go (ok _) v (a, b) e = (omega (arith, a, le), inr (inl (refl, refl, b ∙ same)))
      go (err (client_error s)) v (a, b) e =
          (omega (arith, a, le), inl (_, refl, b ∙ same, (λ k. ground (arith, k)), inl refl))
      go (err retry_exhausted) v q e = absurd (cc)
      go (err request_error) v q e = absurd (cc)

  pub handled-IsHandled :
      (w : World S) (attempt : ℕ) (retried : Bool) (r : Result Failure Text) (w' : World S)
      → IsOnce w (r, w')
      → IsHandled w attempt retried
          (handled post_token send clock int_of margin attempt retried (r, w'))
  unfolding handled
  handled-IsHandled w attempt retried (ok content) w' (le, same, _) =
      (le, inl (_, refl, same, (λ k. ground (arith, k)), inl refl))
  handled-IsHandled w attempt retried (err retry_exhausted) w' (_, _, k) = absurd (cc)
  handled-IsHandled w attempt retried (err request_error) w' (le, same, _) =
      backed_off-IsHandled w attempt retried w' le same
  handled-IsHandled w attempt retried (err (client_error s)) w' (le, same, _) =
      elim (Bool-cases (is_auth_failure s && not retried)) [
        | inl e ↦
            let first : retried ≡ false = ground (arith, e) in
            let own : is_auth_failure s ≡ true = ground (arith, e) in
            rw (first, handled, own) (refreshed-IsHandled w attempt w' le same)
        | inr e ↦ elim (Bool-cases (is_transient s)) [
          | inl t ↦ rw (handled, e, t) (backed_off-IsHandled w attempt retried w' le same)
          | inr t ↦ rw (handled, e, t) (le, inl (_, refl, same, (λ k. ground (arith, k)), inl refl))
        ]
      ]
