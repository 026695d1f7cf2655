-- ===== src/OpenApi.antt =====
-- The retries and the token cache of the controller's client:
-- addon/src/captive_portal/controllers/tp_omada/openapi_client.py
--
-- The controller is a parameter: a state, its answers to a token request and to an authenticated
-- request, and the monotonic clock in seconds. One caller at a time uses the client. A token answer's
-- `result` is an object, and so is a JSON payload: another raises an exception that is not
-- modelled. Requests for tokens are not counted. The loop runs on fuel, none where that ends.
pub mod Retries
pub mod Served
pub mod Runs
use homeassistant_captive_po.Base.{
  ℕ, zero, suc, ◌+◌, Text, is_empty, Bool, true, false, not, ◌&&◌, ◌||◌, ltb, leb, ◌==◌, Option,
  none, some, List, [], ◌∷◌, ◌++◌, Result, ok, err, ℤ, pos, negsuc, any_where, if◌then◌else◌,
}
use homeassistant_captive_po.Network.{present}

-- An absent expiresIn is 7200; none where int() raises.
pub record TokenBody : Type 0 where
  pub error_code_is_zero : Bool
  pub access_token : Option Text
  pub refresh_token : Option Text
  pub expires_in : Option ℤ

-- The body is none where it is no JSON.
pub data TokenReply : Type 0 where
  token_connection_error : TokenReply
  token_reply : ℕ → Option TokenBody → TokenReply

pub data ErrorCode : Type 0 where
  int_code : ℤ → ErrorCode
  str_code : Text → ErrorCode
  other_code : ErrorCode

-- A payload without an error, or with the errorCode.
pub data Payload : Type 0 where
  payload : Text → Payload
  failed_payload : ErrorCode → Payload

pub data Reply : Type 0 where
  connection_error : Reply
  reply : ℕ → Option Payload → Reply

-- OmadaClientError and OmadaAuthenticationError with the status code, OmadaRetryExhaustedError, and
-- httpx.RequestError.
pub data Failure : Type 0 where
  client_error : Option ℕ → Failure
  retry_exhausted request_error : Failure

pub record TokenState : Type 0 where
  pub access_token : Option Text
  pub refresh_token : Option Text
  pub expires_at_monotonic : ℕ

-- The token state, the controller, how many authenticated requests it was sent, and the seconds that were slept.
pub record World (S : Type 0) : Type 0 where
  pub token_state : TokenState
  pub controller : S
  pub requests : ℕ
  pub sleeps : List ℕ

abbrev pub is_filled : Option Text → Bool
is_filled none = false
is_filled (some s) = not (is_empty s)

-- max(expires_in, 1)
abbrev pub at_least_one : ℤ → ℕ
at_least_one (pos zero) = 1
at_least_one (pos (suc n)) = suc n
at_least_one (negsuc n) = 1

abbrev pub is_transient : Option ℕ → Bool
is_transient none = false
is_transient (some s) = any_where (λ t. s == t) (429 ∷ 500 ∷ 502 ∷ 503 ∷ 504 ∷ [])

abbrev pub is_auth_failure : Option ℕ → Bool
is_auth_failure none = false
is_auth_failure (some s) = s == 401 || s == 403

-- backoff_seconds[attempt]
abbrev pub backoff : ℕ → ℕ
backoff zero = 1
backoff (suc zero) = 2
backoff (suc (suc zero)) = 4
backoff _ = 8

module _ {S : Type 0} (post_token : Option Text → S → TokenReply × S) (send : Text → S → Reply × S)
    (clock : S → ℕ) (int_of : Text → Option ℤ) (refresh_margin_seconds : ℕ) where
  abbrev in_range : ℤ → ℕ
  in_range (pos n) = if leb 400 n && leb n 599 then n else 400
  in_range (negsuc n) = 400

  unfoldable pub status_code_from_error_code : ErrorCode → ℕ
  status_code_from_error_code (int_code c) = in_range c
  status_code_from_error_code (str_code s) = elim (int_of s) [ none ↦ 400 | some c ↦ in_range c ]
  status_code_from_error_code other_code = 400

  abbrev cached : TokenBody → Text → ℤ → World S → World S
  cached body access expires_in w = record w {
    token_state = record {
      access_token = some access;
      refresh_token = body.refresh_token;
      expires_at_monotonic = clock w.controller + at_least_one expires_in;
    };
  }

  unfoldable pub cache_token_response :
      Option TokenBody → World S → Result {0, 0} Failure Unit × World S
  cache_token_response none w = (err (client_error none), w)
  cache_token_response (some body) w =
      if not body.error_code_is_zero then (err (client_error none), w) else elim body.access_token [
        | none ↦ (err (client_error none), w)
        | some access ↦
            if is_empty access then (err (client_error none), w) else elim body.expires_in [
              | none ↦ (err (client_error none), w)
              | some expires_in ↦ (ok tt, cached body access expires_in w)
            ]
      ]

  abbrev token_answered : TokenReply → World S → Result {0, 0} Failure Unit × World S
  token_answered token_connection_error w = (err (client_error none), w)
  token_answered (token_reply status body) w =
      if leb 400 status then (err (client_error (some status)), w) else cache_token_response body w

  -- By a refresh token, or by the client's credentials.
  unfoldable pub request_token : Option Text → World S → Result {0, 0} Failure Unit × World S
  unfolding cache_token_response
  request_token refresh w =
      let (r, s) = post_token refresh w.controller in token_answered r (record w { controller = s })

  abbrev has_fresh_token : World S → Bool
  has_fresh_token w =
      is_filled w.token_state.access_token
      && ltb (clock w.controller + refresh_margin_seconds) w.token_state.expires_at_monotonic

  abbrev or_missing : Result {0, 0} Failure Unit × World S → Result Failure Text × World S
  or_missing (err e, w) = (err e, w)
  or_missing (ok _, w) = elim w.token_state.access_token [
    | none ↦ (err (client_error none), w)
    | some access ↦ (if is_empty access then err (client_error none) else ok access, w)
  ]

  unfoldable pub get_access_token : World S → Result Failure Text × World S
  unfolding request_token
  get_access_token w =
      let fetched = or_missing (request_token (present w.token_state.refresh_token) w) in
      elim w.token_state.access_token [
        | none ↦ fetched
        | some access ↦ if has_fresh_token w then (ok access, w) else fetched
      ]

  abbrev without_access : World S → World S
  without_access w = record w {
    token_state = record w.token_state { access_token = none; expires_at_monotonic = 0 };
  }

  abbrev without_refresh : World S → World S
  without_refresh w = record w { token_state = record w.token_state { refresh_token = none } }

  abbrev or_credentials :
      Result {0, 0} Failure Unit × World S → Result {0, 0} Failure Unit × World S
  or_credentials (ok t, w) = (ok t, w)
  or_credentials (err e, w) = request_token none (without_refresh w)

  unfoldable pub refresh_after_auth_failure : World S → Result {0, 0} Failure Unit × World S
  unfolding request_token
  refresh_after_auth_failure w =
      let w' = without_access w in
      elim (present w.token_state.refresh_token) [
        | some refresh ↦ or_credentials (request_token (some refresh) w')
        | none ↦ request_token none w'
      ]

  unfoldable pub parse_payload : Option Payload → Result Failure Text
  unfolding status_code_from_error_code
  parse_payload none = err (client_error none)
  parse_payload (some (payload content)) = ok content
  parse_payload (some (failed_payload code)) =
      err (client_error (some (status_code_from_error_code code)))

  abbrev replied : Reply → Result Failure Text
  replied connection_error = err request_error
  replied (reply status body) =
      if leb 400 status then err (client_error (some status)) else parse_payload body

  abbrev sent : Text → World S → Result Failure Text × World S
  sent access w =
      let (r, s) = send access w.controller in
      (replied r, record w { controller = s; requests = w.requests + 1 })

  abbrev with_token : Result Failure Text × World S → Result Failure Text × World S
  with_token (err e, w) = (err e, w)
  with_token (ok access, w) = sent access w

  unfoldable pub request_once : World S → Result Failure Text × World S
  unfolding get_access_token parse_payload
  request_once w = with_token (get_access_token w)

  abbrev pub slept : ℕ → World S → World S
  slept attempt w = record w { sleeps = w.sleeps ++ backoff attempt ∷ [] }

  -- What `except` does: return or raise, or go on with the next attempt.
  pub data Next : Type 0 where
    ends : Result Failure Text → Next
    again : ℕ → Bool → Next

  abbrev pub refreshed : ℕ → Result {0, 0} Failure Unit × World S → Next × World S
  refreshed attempt (err e, w) = (ends (err e), w)
  refreshed attempt (ok _, w) = (again attempt true, w)

  abbrev pub backed_off : ℕ → Bool → World S → Next × World S
  backed_off attempt auth_retried w =
      if attempt == 3
      then (ends (err retry_exhausted), w)
      else (again (attempt + 1) auth_retried, slept attempt w)

  unfoldable pub handled : ℕ → Bool → Result Failure Text × World S → Next × World S
  unfolding refresh_after_auth_failure
  handled attempt auth_retried (ok content, w) = (ends (ok content), w)
  handled attempt auth_retried (err retry_exhausted, w) = (ends (err retry_exhausted), w)
  handled attempt auth_retried (err request_error, w) = backed_off attempt auth_retried w
  handled attempt auth_retried (err (client_error status), w) =
      if is_auth_failure status && not auth_retried
      then refreshed attempt (refresh_after_auth_failure w)
      else if not (is_transient status)
      then (ends (err (client_error status)), w)
      else backed_off attempt auth_retried w

  unfoldable pub request_from : ℕ → ℕ → Bool → World S → Option (Result Failure Text × World S)
  unfolding request_once handled
  request_from zero attempt auth_retried w = none
  request_from (suc fuel) attempt auth_retried w =
      if ltb attempt 4
      then elim (handled attempt auth_retried (request_once w)).0 [
        | ends r ↦ some (r, (handled attempt auth_retried (request_once w)).1)
        | again attempt' auth_retried' ↦
            request_from fuel attempt' auth_retried'
              (handled attempt auth_retried (request_once w)).1
      ]
      else some (err retry_exhausted, w)

  -- Four attempts and one more after a refused token.
  unfoldable pub request : World S → Option (Result Failure Text × World S)
  unfolding request_from
  request w = request_from 5 0 false w
