-- ===== src/Tests/Tokens.antt =====
-- Runs of addon/src/captive_portal/security/: hmac_csrf.py, session_middleware.py and rate_limiter.py
use homeassistant_captive_po.Base.{
  List, ◌+◌, ◌-◌, ◌≡◌, ◌⊎◌, Text, codes, true, false, none, some, Option, [], ◌∷◌, refl, ℤ, pos,
  arith, text_eq,
}
use homeassistant_captive_po.Csrf.{
  compare_digest, CsrfRequest, HmacCsrfConfig, Primitives, accepted, present, extract_request_token,
  validate_origin, validate_token, generate_token,
}
use homeassistant_captive_po.Csrf.Token.{
  IsSigned, validate_token-generate_token, validate_token-IsSigned,
}
use homeassistant_captive_po.Sessions.{
  SessionData, AppState, dispatch, get, create, is_session_data_expired, update_activity,
  refresh_runtime_session_config,
}
use homeassistant_captive_po.Sessions.Lifetime.{here, next, log_in, run, IsLive, dispatch-IsLive}
use homeassistant_captive_po.RateLimiter.{new}
use homeassistant_captive_po.RateLimiter.Refines.{
  Call, attempt, forget, answers, specified_answers, answers-specified_answers,
}
use homeassistant_captive_po.Time.{minutes}
use homeassistant_captive_po.Samples.{noon, phone, wifi}

-- Numbers of one digit.
abbrev digit_of : Text → Option ℤ
digit_of [] = none
digit_of (c ∷ s) = some (pos (c - 48))

abbrev plain : Primitives
plain = record {
  hexdigest = λ key payload. key;
  b64encode = λ s. s;
  b64decode = λ s. some s;
  str_of = λ n. (n + 48) ∷ [];
  int_of = digit_of;
  lower = λ s. s;
  urlparse = λ s. none;
}

abbrev config : HmacCsrfConfig
config = record { secret_key = codes "ab"; max_age_seconds = 900; check_origin = true }

abbrev form : CsrfRequest
form = record {
  is_get = true;
  header_token = none;
  content_type = [];
  form_token = none;
  query_token = some (codes "cd:7.ab");
  origin = none;
  referer = none;
  url_hostname = none;
  url_port = none;
  host = [];
}

validate_token-generate_token_example : validate_token plain config 8 form ≡ accepted
unfolding generate_token extract_request_token validate_origin
validate_token-generate_token_example =
    validate_token-generate_token plain config (codes "cd") 7 8 form
      (record {
        decoded = refl;
        digest = λ x. (refl, refl);
        nonce_plain = refl;
        stamp_plain = refl;
        stamp = refl;
      })
      refl refl

validate_token-IsSigned_example :
    (raw : Text) × (decoded : Text) × (present (extract_request_token form) ≡ some raw)
    × (plain.b64decode raw ≡ some decoded)
    × IsSigned plain config 8 decoded
    × ((true ≡ false) ⊎ (validate_origin plain form ≡ accepted))
unfolding validate_token extract_request_token validate_origin compare_digest text_eq
validate_token-IsSigned_example = validate_token-IsSigned plain config 8 form refl

abbrev state : AppState
state = record {
  session_config = record { idle_minutes = 30; max_hours = 8 };
  session_store =
      (
        wifi,
        record {
          admin_id = 1;
          created_utc = noon;
          last_activity_utc = noon;
          expires_utc = noon + minutes 480;
          ip_address = none;
          user_agent = none;
        },
      )
      ∷ [];
}

-- The longest session is set to one hour, and another administrator logs in.
abbrev shorter : AppState
shorter = refresh_runtime_session_config 30 1 (noon + 1) (noon + 1) state

dispatch-IsLive_example :
    (s : SessionData) × (get wifi
        (run (log_in phone 2 none none) (noon + 2) (noon + 2) shorter).session_store
      ≡ some s)
    × (s.admin_id ≡ 1)
    × IsLive
        (noon + 1)
        1
        (run (log_in phone 2 none none) (noon + 2) (noon + 2) shorter).session_config
        (noon + 3)
        s
unfolding dispatch refresh_runtime_session_config get create is_session_data_expired text_eq
    update_activity
dispatch-IsLive_example =
    dispatch-IsLive 30 1 (noon + 1) (noon + 1) (noon + 2) state
      (run (log_in phone 2 none none) (noon + 2) (noon + 2) shorter) (omega arith)
      (next (log_in phone 2 none none) (noon + 2) (noon + 2) here (omega arith) (omega arith))
      (some wifi) (noon + 3) (noon + 3) wifi 1 refl

-- The cleanup of the first call reads the clock a microsecond later.
abbrev timed_calls : List Call
timed_calls =
    attempt phone noon (noon + 1)
    ∷ attempt phone (noon + 1) (noon + 2)
    ∷ forget phone
    ∷ attempt phone (noon + 2) (noon + 3)
    ∷ []

answers-specified_answers_example : answers (new 1 60 noon) timed_calls ≡ true ∷ false ∷ true ∷ []
unfolding specified_answers text_eq
answers-specified_answers_example =
    answers-specified_answers 1 60 noon timed_calls
      (omega arith, tt, (omega arith, (refl, tt), (omega arith, (refl, (refl, tt)), tt)))
