-- ===== src/Sessions/Lifetime.antt =====
-- How long a session of addon/src/captive_portal/security/session_middleware.py is served.
use homeassistant_captive_po.Base.{
  ℕ, ◌+◌, ◌≤◌, ◌≡◌, ◌⊎◌, inl, inr, Text, text_eq, is_empty, false, Option, none, some, [], ◌∷◌, map,
  find_where, refl, subst, arith, All, All-select_where, find_where-All, Bool-cases, Option-cases,
}
use homeassistant_captive_po.Time.{DateTime, minutes}
use homeassistant_captive_po.Sessions.{
  SessionConfig, SessionData, SessionStore, AppState, hours, is_session_data_expired, has_id, put,
  get, create, touch, update_activity, delete, cleanup_expired, dispatch, capped, found,
  refresh_runtime_session_config,
}

-- What happens to the application's sessions.
pub data Operation : Type 0 where
  log_in : Text → ℕ → Option Text → Option Text → Operation
  visit : Option Text → Operation
  log_out : Text → Operation
  configure : ℕ → ℕ → Operation

abbrev pub run : Operation → DateTime → DateTime → AppState → AppState
run (log_in token admin_id ip_address user_agent) now now' st = record st {
  session_store =
      create token admin_id st.session_config ip_address user_agent now st.session_store;
}
run (visit cookie) now now' st = (dispatch cookie now now' st).1
run (log_out session_id) now now' st = record st {
  session_store = delete session_id st.session_store;
}
run (configure idle_minutes max_hours) now now' st =
    refresh_runtime_session_config idle_minutes max_hours now now' st

-- The states that operations lead to from a state at a time, while the clock does not go back.
pub data Steps (t : DateTime) (st : AppState) : DateTime → AppState → Type 0 where
  here : Steps t st t st
  next :
      {u : DateTime} {st' : AppState} (op : Operation) (now now' : DateTime)
      → Steps t st u st'
      → u ≤ now
      → now ≤ now'
      → Steps t st now' (run op now now' st')

-- A session from before `t` ends within `h` hours of its start.
abbrev IsCapped : DateTime → ℕ → Text × SessionData → Type 0
IsCapped t h (_, s) = (t ≤ s.created_utc) ⊎ (s.expires_utc ≤ s.created_utc + hours h)

module _ (t : DateTime) (h : ℕ) where
  put-IsCapped :
      (sid : Text) (s : SessionData) (store : SessionStore)
      → IsCapped t h (sid, s)
      → All (IsCapped t h) store
      → All (IsCapped t h) (put sid s store)
  put-IsCapped sid s [] c a = (c, tt)
  put-IsCapped sid s (e ∷ es) c (a, rest) = elim (Bool-cases (has_id sid e)) [
    | inl q ↦ rw q (c, rest)
    | inr q ↦ rw q (a, put-IsCapped sid s es c rest)
  ]

  touch-IsCapped :
      (sid : Text) (now : DateTime) (store : SessionStore)
      → All (IsCapped t h) store
      → All (IsCapped t h) (map (touch sid now) store)
  touch-IsCapped sid now [] a = tt
  touch-IsCapped sid now ((k, s) ∷ es) (a, rest) = elim (Bool-cases (text_eq k sid)) [
    | inl q ↦ rw q (a, touch-IsCapped sid now es rest)
    | inr q ↦ rw q (a, touch-IsCapped sid now es rest)
  ]

  -- Shortening to any other length keeps the cap.
  capped-IsCapped :
      (other : ℕ) (store : SessionStore)
      → All (IsCapped t h) store
      → All (IsCapped t h) (map (capped other) store)
  capped-IsCapped other [] a = tt
  capped-IsCapped other ((k, s) ∷ es) (a, rest) =
      ((elim a [ inl q ↦ inl q | inr q ↦ inr (ground (arith, q)) ]), capped-IsCapped other es rest)

  found-IsCapped :
      (sid : Text) (now now' : DateTime) (st : AppState) (o : Option SessionData)
      → All (IsCapped t h) st.session_store
      → All (IsCapped t h) (found sid now now' st o).1.session_store
  unfolding delete update_activity
  found-IsCapped sid now now' st none a = a
  found-IsCapped sid now now' st (some s) a =
      elim (Bool-cases (is_session_data_expired s st.session_config now)) [
        | inl e ↦ rw e (All-select_where (IsCapped t h) _ st.session_store a)
        | inr e ↦ rw e (touch-IsCapped sid now' st.session_store a)
      ]

  dispatch-IsCapped :
      (cookie : Option Text) (now now' : DateTime) (st : AppState)
      → All (IsCapped t h) st.session_store
      → All (IsCapped t h) (dispatch cookie now now' st).1.session_store
  unfolding dispatch
  dispatch-IsCapped none now now' st a = a
  dispatch-IsCapped (some sid) now now' st a = elim (Bool-cases (is_empty sid)) [
    | inl e ↦ rw (e, dispatch) a
    | inr e ↦ rw (e, dispatch) (found-IsCapped sid now now' st (get sid st.session_store) a)
  ]

  run-IsCapped :
      (op : Operation) (now now' : DateTime) (st : AppState)
      → t ≤ now
      → All (IsCapped t h) st.session_store
      → All (IsCapped t h) (run op now now' st).session_store
  unfolding create delete refresh_runtime_session_config cleanup_expired
  run-IsCapped (log_in token admin_id ip_address user_agent) now now' st le a =
      put-IsCapped token _ st.session_store (inl le) a
  run-IsCapped (visit cookie) now now' st le a = dispatch-IsCapped cookie now now' st a
  run-IsCapped (log_out sid) now now' st le a = All-select_where (IsCapped t h) _ st.session_store a
  run-IsCapped (configure idle other) now now' st le a =
      All-select_where (IsCapped t h) _ _
        (capped-IsCapped other _ (All-select_where (IsCapped t h) _ st.session_store a))

  steps-IsCapped :
      (st : AppState) (u : DateTime) (st' : AppState)
      → Steps t st u st'
      → All (IsCapped t h) st.session_store
      → (t ≤ u) × All (IsCapped t h) st'.session_store
  steps-IsCapped st u st' here a = (omega arith, a)
  steps-IsCapped st u st' (next op now now' s le le') a =
      let (before, b) = steps-IsCapped st _ _ s a in
      (omega arith, run-IsCapped op now now' _ (omega arith) b)

  -- Right after a change of the settings all sessions are capped.
  configured-IsCapped : (store : SessionStore) → All (IsCapped t h) (map (capped h) store)
  configured-IsCapped [] = tt
  configured-IsCapped ((k, s) ∷ es) = (inr (ground arith), configured-IsCapped es)

-- Who is served has a session that is neither idle nor too old.
dispatch_inv :
    (cookie : Option Text) (now now' : DateTime) (st : AppState) (sid : Text) (admin_id : ℕ)
    → (dispatch cookie now now' st).0 ≡ some (sid, admin_id)
    → (k : Text) × (s : SessionData) × (find_where (has_id sid) st.session_store ≡ some (k, s))
      × (s.admin_id ≡ admin_id)
      × (is_session_data_expired s st.session_config now ≡ false)
unfolding dispatch get
dispatch_inv none now now' st sid admin_id e = absurd (cc)
dispatch_inv (some token) now now' st sid admin_id e = elim (Bool-cases (is_empty token)) [
  | inl q ↦ absurd (ground (arith, e, q))
  | inr q ↦ elim (Option-cases (find_where (has_id token) st.session_store)) [
    | inl n ↦ absurd (ground (arith, e, q, n))
    | inr ((k, s), n) ↦ elim (Bool-cases (is_session_data_expired s st.session_config now)) [
      | inl x ↦ absurd (ground (arith, e, q, n, x))
      | inr x ↦
          let same : token ≡ sid = ground (arith, e, q, n, x) in
          let who : s.admin_id ≡ admin_id = ground (arith, e, q, n, x) in
          (k, s, subst (λ i. find_where (has_id i) st.session_store ≡ some (k, s)) same n, who, x)
    ]
  ]
]

-- Why a session is served at a time.
pub record IsLive (t : DateTime) (h : ℕ) (config : SessionConfig) (now : DateTime) (s : SessionData)
    : Type 0 where
  pub busy : now ≤ s.last_activity_utc + minutes config.idle_minutes
  pub young : now ≤ s.created_utc + hours config.max_hours
  pub unexpired : now ≤ s.expires_utc
  pub shortened : (t ≤ s.created_utc) ⊎ (now ≤ s.created_utc + hours h)

-- Once the longest session was set to `h` hours, no session from before is served longer than that,
-- whatever is set, and whoever logs in, later: a request is for an administrator only by a stored
-- session of that administrator that is within the idle time, the present longest time and its own end,
-- and that began after the setting or at most `h` hours ago.
pub dispatch-IsLive :
    (idle h : ℕ) (t done u : DateTime) (st st' : AppState)
    → t ≤ done
    → Steps done (refresh_runtime_session_config idle h t done st) u st'
    → (cookie : Option Text) (now now' : DateTime) (sid : Text) (admin_id : ℕ)
    → (dispatch cookie now now' st').0 ≡ some (sid, admin_id)
    → (s : SessionData) × (get sid st'.session_store ≡ some s)
      × (s.admin_id ≡ admin_id)
      × IsLive t h st'.session_config now s
unfolding get refresh_runtime_session_config cleanup_expired
dispatch-IsLive idle h t done u st st' le steps cookie now now' sid admin_id e =
    let (k, s, q, who, live) = dispatch_inv cookie now now' st' sid admin_id e in
    let (_, capped_all) =
      steps-IsCapped done h (refresh_runtime_session_config idle h t done st) u st' steps (
        All-select_where (IsCapped done h) _ _
          (configured-IsCapped done h (cleanup_expired st.session_config t st.session_store))) in
    let cap = find_where-All (IsCapped done h) (has_id sid) st'.session_store (k, s) capped_all q in
    let fresh : is_session_data_expired s st'.session_config now ≡ false = live in
    (
      s,
      rw q refl,
      who,
      record {
        busy = unfold is_session_data_expired in ground (arith, fresh);
        young = unfold is_session_data_expired in ground (arith, fresh);
        unexpired = unfold is_session_data_expired in ground (arith, fresh);
        shortened =
            unfold is_session_data_expired in
            elim cap [
              | inl c ↦ inl (omega (arith, c, le))
              | inr c ↦ inr (ground (arith, fresh, c))
            ];
      },
    )
