-- ===== src/RateLimiter/Window.antt =====
-- The rolling window of addon/src/captive_portal/security/rate_limiter.py.
use homeassistant_captive_po.Base.{
  ℕ, ◌+◌, ◌≤◌, ◌≡◌, ◌≢◌, Text, text_eq, text_eq_iff, ◌&&◌, ltb, List, [], ◌∷◌, refl, ◌∙◌, arith,
  length, select_where, length-append, select_where-append, if◌then◌else◌,
}
use homeassistant_captive_po.Time.{DateTime}
use homeassistant_captive_po.RateLimiter.{
  RateLimiter, attempts_of, is_recent, cleanup, lazy_cleanup, admit, is_allowed,
}

-- What is recent at a time was recent before.
recent-select :
    (now t window : ℕ) (l : List DateTime)
    → now ≤ t
    → select_where (is_recent t window) (select_where (is_recent now window) l)
      ≡ select_where (is_recent t window) l
recent-select now t window [] h = refl
recent-select now t window (x ∷ l) h = ground (arith, recent-select now t window l h)

-- The attempts of an address that a later call will count.
abbrev pub recent_of : Text → DateTime → RateLimiter → List DateTime
recent_of ip t r = select_where (is_recent t r.window_seconds) (attempts_of ip r)

module _ (ip : Text) (t : DateTime) (r : RateLimiter) where
  recent_of-cleanup : (now : DateTime) → now ≤ t → recent_of ip t (cleanup now r) ≡ recent_of ip t r
  unfolding cleanup
  recent_of-cleanup now h =
      ground (arith, recent-select now t r.window_seconds (attempts_of ip r) h)

  recent_of-lazy_cleanup :
      (now : DateTime) → now ≤ t → recent_of ip t (lazy_cleanup now now r) ≡ recent_of ip t r
  unfolding lazy_cleanup
  recent_of-lazy_cleanup now h = ground (arith, recent_of-cleanup now h)

  recent_of-admit :
      (caller : Text) (now : DateTime)
      → now ≤ t
      → length (recent_of ip t (admit caller now r).1)
        ≡ length (recent_of ip t r)
          + (if text_eq caller ip && (admit caller now r).0 && is_recent t r.window_seconds now
              then 1
              else 0)
  unfolding admit
  recent_of-admit caller now h =
      let l = attempts_of caller r in
      let recent = select_where (is_recent now r.window_seconds) l in
      let p = is_recent t r.window_seconds in
      ground (
        arith,
        text_eq_iff caller ip,
        recent-select now t r.window_seconds l h,
        select_where-append p recent (now ∷ []),
        length-append (select_where p recent) (select_where p (now ∷ [])),
      )

-- The settings never change.
pub settings-lazy_cleanup :
    (now now' : DateTime) (r : RateLimiter)
    → ((lazy_cleanup now now' r).window_seconds ≡ r.window_seconds)
      × ((lazy_cleanup now now' r).max_attempts ≡ r.max_attempts)
unfolding lazy_cleanup cleanup
settings-lazy_cleanup now now' r = ground arith

pub settings-is_allowed :
    (ip : Text) (now now' : DateTime) (r : RateLimiter)
    → ((is_allowed ip now now' r).1.window_seconds ≡ r.window_seconds)
      × ((is_allowed ip now now' r).1.max_attempts ≡ r.max_attempts)
unfolding is_allowed admit
settings-is_allowed ip now now' r = ground (arith, settings-lazy_cleanup now now' r)

-- What a call adds to the attempts that a later call will count.
pub recent_of-is_allowed :
    (ip : Text) (t : DateTime) (r : RateLimiter) (caller : Text) (now : DateTime)
    → now ≤ t
    → length (recent_of ip t (is_allowed caller now now r).1)
      ≡ length (recent_of ip t r)
        + (if text_eq caller ip
              && (is_allowed caller now now r).0
              && is_recent t r.window_seconds now
            then 1
            else 0)
unfolding is_allowed
recent_of-is_allowed ip t r caller now h =
    let (w, _) = settings-lazy_cleanup now now r in
    recent_of-admit ip t (lazy_cleanup now now r) caller now h
    ∙ rw (recent_of-lazy_cleanup ip t r now h, w)

admit_iff :
    (ip : Text) (now : DateTime) (r : RateLimiter)
    → (admit ip now r).0 ≡ ltb (length (recent_of ip now r)) r.max_attempts
unfolding admit
admit_iff ip now r = ground arith

-- A call is admitted exactly when fewer than the maximum are recorded in the window before it.
pub is_allowed_iff :
    (ip : Text) (now : DateTime) (r : RateLimiter)
    → (is_allowed ip now now r).0 ≡ ltb (length (recent_of ip now r)) r.max_attempts
unfolding is_allowed
is_allowed_iff ip now r =
    let (_, m) = settings-lazy_cleanup now now r in
    admit_iff ip now (lazy_cleanup now now r)
    ∙ rw (recent_of-lazy_cleanup ip now r now (omega arith), m)

-- A call from one address, admitted or not, changes nothing for another address: whether its next
-- call is admitted is the same as without that call.
pub is_allowed_others :
    (caller ip : Text) (now later : DateTime) (r : RateLimiter)
    → caller ≢ ip
    → now ≤ later
    → (is_allowed ip later later (is_allowed caller now now r).1).0
      ≡ (is_allowed ip later later r).0
is_allowed_others caller ip now later r other le =
    let r' = (is_allowed caller now now r).1 in
    let (w, m) = settings-is_allowed caller now now r in
    ground (
      arith,
      is_allowed_iff ip later r,
      is_allowed_iff ip later r',
      recent_of-is_allowed ip later r caller now le,
      text_eq_iff caller ip,
      m,
    )
