-- ===== src/Sessions.antt =====
-- The administrators' sessions: addon/src/captive_portal/security/session_middleware.py
--
-- The application keeps one configuration and one store, which the middleware, the login, the logout
-- and the settings share. A method's clock is its argument; one that reads it twice takes both times.
-- `a - timedelta < b` is written `a < b + timedelta`. The cookie's attributes are not modelled.
pub mod Lifetime
use homeassistant_captive_po.Base.{
  ℕ, ◌+◌, ◌*◌, Text, text_eq, is_empty, Bool, true, false, not, ◌||◌, ltb, Option, none, some, List,
  [], ◌∷◌, map, length, select_where, find_where, if◌then◌else◌,
}
use homeassistant_captive_po.Time.{DateTime, minutes}

pub record SessionConfig : Type 0 where
  pub idle_minutes : ℕ
  pub max_hours : ℕ

-- A UUID is a number: it is only passed on.
pub record SessionData : Type 0 where
  pub admin_id : ℕ
  pub created_utc : DateTime
  pub last_activity_utc : DateTime
  pub expires_utc : DateTime
  pub ip_address : Option Text
  pub user_agent : Option Text

-- The dictionary, in its order.
abbrev pub SessionStore : Type 0
SessionStore = List (Text × SessionData)

pub record AppState : Type 0 where
  pub session_config : SessionConfig
  pub session_store : SessionStore

abbrev pub hours : ℕ → ℕ
hours n = minutes (60 * n)

-- min(a, b)
abbrev pub earlier : DateTime → DateTime → DateTime
earlier a b = if ltb b a then b else a

unfoldable pub is_session_data_expired : SessionData → SessionConfig → DateTime → Bool
is_session_data_expired session config now =
    ltb (session.last_activity_utc + minutes config.idle_minutes) now
    || ltb (earlier session.expires_utc (session.created_utc + hours config.max_hours)) now

abbrev pub has_id : Text → Text × SessionData → Bool
has_id session_id (sid, _) = text_eq sid session_id

-- store[sid] = session
abbrev pub put : Text → SessionData → SessionStore → SessionStore
put sid session [] = (sid, session) ∷ []
put sid session (e ∷ es) =
    let rest = put sid session es in if has_id sid e then (sid, session) ∷ es else e ∷ rest

abbrev pub second : Option (Text × SessionData) → Option SessionData
second none = none
second (some (_, session)) = some session

unfoldable pub get : Text → SessionStore → Option SessionData
get session_id store = second (find_where (has_id session_id) store)

-- `session_id` is the token that is drawn.
unfoldable pub create :
    Text → ℕ → SessionConfig → Option Text → Option Text → DateTime → SessionStore → SessionStore
create session_id admin_id config ip_address user_agent now store =
    put session_id
      (record {
        admin_id = admin_id;
        created_utc = now;
        last_activity_utc = now;
        expires_utc = now + hours config.max_hours;
        ip_address = ip_address;
        user_agent = user_agent;
      })
      store

-- The session is changed in place.
abbrev pub touch : Text → DateTime → Text × SessionData → Text × SessionData
touch session_id now (sid, session) =
    if text_eq sid session_id
    then (sid, record session { last_activity_utc = now })
    else (sid, session)

unfoldable pub update_activity : Text → DateTime → SessionStore → SessionStore
update_activity session_id now store = map (touch session_id now) store

unfoldable pub delete : Text → SessionStore → SessionStore
delete session_id store = select_where (λ e. not (has_id session_id e)) store

abbrev pub is_live : SessionConfig → DateTime → Text × SessionData → Bool
is_live config now (_, session) = not (is_session_data_expired session config now)

unfoldable pub cleanup_expired : SessionConfig → DateTime → SessionStore → SessionStore
unfolding is_session_data_expired
cleanup_expired config now store = select_where (is_live config now) store

-- The session and administrator that a request is for, none without a live session.
abbrev pub found :
    Text → DateTime → DateTime → AppState → Option SessionData → Option (Text × ℕ) × AppState
found session_id now now' st none = (none, st)
found session_id now now' st (some session) =
    if is_session_data_expired session st.session_config now
    then (none, record st { session_store = delete session_id st.session_store })
    else (
      some (session_id, session.admin_id),
      record st { session_store = update_activity session_id now' st.session_store },
    )

unfoldable pub dispatch :
    Option Text → DateTime → DateTime → AppState → Option (Text × ℕ) × AppState
unfolding is_session_data_expired get update_activity delete
dispatch none now now' st = (none, st)
dispatch (some session_id) now now' st =
    if is_empty session_id
    then (none, st)
    else found session_id now now' st (get session_id st.session_store)

abbrev pub capped : ℕ → Text × SessionData → Text × SessionData
capped max_hours (sid, session) = (
  sid,
  record session {
    expires_utc = earlier session.expires_utc (session.created_utc + hours max_hours);
  },
)

unfoldable pub refresh_runtime_session_config : ℕ → ℕ → DateTime → DateTime → AppState → AppState
unfolding cleanup_expired
refresh_runtime_session_config idle_minutes max_hours now now' st =
    let saved : SessionConfig = record { idle_minutes = idle_minutes; max_hours = max_hours } in
    record {
      session_config = saved;
      session_store =
          cleanup_expired saved now'
            (map (capped max_hours) (cleanup_expired st.session_config now st.session_store));
    }
