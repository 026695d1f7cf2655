-- ===== src/RateLimiter/Retry.antt =====
-- `get_retry_after_seconds` of addon/src/captive_portal/security/rate_limiter.py.
use homeassistant_captive_po.Base.{
  ℕ, ◌+◌, ◌≤◌, ◌<◌, ◌≡◌, Text, text_eq_refl, Bool, true, false, ltb, leb, Option, none, ap,
  count_where-select_where-le, some, List, [], ◌∷◌, refl, sym, subst, arith, length, select_where,
  count_where, length-select_where, All, All-mono, Bool-cases, inl, inr, select_where-All,
}
use homeassistant_captive_po.Time.{DateTime, seconds}
use homeassistant_captive_po.RateLimiter.{
  RateLimiter, attempts_of, is_recent, oldest, retry_after, lazy_cleanup, admit, is_allowed, new,
  get_retry_after_seconds,
}
use homeassistant_captive_po.RateLimiter.Attempts.{
  attempts_of-lazy_cleanup-All, is_allowed-All, length-is_allowed,
}
use homeassistant_captive_po.RateLimiter.Window.{settings-lazy_cleanup, settings-is_allowed}

-- The earliest timestamp is one of the list.
oldest-All {κ} :
    (P : DateTime → Type κ) (t : DateTime) (ts : List DateTime) → All P (t ∷ ts) → P (oldest t ts)
oldest-All P t [] h = h.0
oldest-All P t (u ∷ us) (ht, (hu, h)) = elim (Bool-cases (ltb u t)) [
  | inl e ↦ rw e (oldest-All P u us (hu, h))
  | inr e ↦ rw e (oldest-All P t us (ht, h))
]

-- Where the earliest fails a test, not all pass it.
oldest-count :
    (p : DateTime → Bool) (t : DateTime) (ts : List DateTime)
    → p (oldest t ts) ≡ false
    → count_where p (t ∷ ts) ≤ length ts
oldest-count p t [] h = ground arith
oldest-count p t (u ∷ us) h = elim (Bool-cases (ltb u t)) [
  | inl e ↦ ground (arith, oldest-count p u us, e)
  | inr e ↦ ground (arith, oldest-count p t us, e)
]

-- No address has more attempts recorded than allowed, and none in the future.
pub record IsBounded (now : DateTime) (r : RateLimiter) : Type 0 where
  pub few : (ip : Text) → length (attempts_of ip r) ≤ r.max_attempts
  pub past : (ip : Text) → All (λ ts. ts ≤ now) (attempts_of ip r)

pub new-IsBounded : (max window : ℕ) (now : DateTime) → IsBounded now (new max window now)
unfolding new
new-IsBounded max window now = record { few = λ ip. omega arith; past = λ ip. tt }

-- The seconds of an answer, none where it is None.
abbrev pub or_zero : Option ℕ → ℕ
or_zero none = 0
or_zero (some s) = s

-- What a refused address is told: seconds to wait, or None where an attempt has left the window since.
abbrev pub IsTold : ℕ → DateTime → DateTime → Option ℕ → Type 0
IsTold window now asked none = now < asked
IsTold window now asked (some s) = (1 ≤ s) × (s ≤ window + 1)

-- The wait of a full window ends when its first attempt leaves it.
retry_after_lem :
    (now asked : DateTime) (max window : ℕ) (l : List DateTime)
    → now ≤ asked
    → max ≤ length l
    → length l ≤ max
    → 0 < max
    → All (λ ts. ts ≤ now) l
    → All (λ ts. is_recent now window ts ≡ true) l
    → IsTold window now asked (retry_after asked window l)
      × ((t : DateTime)
          → asked + seconds (or_zero (retry_after asked window l)) ≤ t
          → count_where (is_recent t window) l < max)
retry_after_lem now asked max window [] le full few pos past recent =
    absurd (omega (arith, full, pos))
retry_after_lem now asked max window (x ∷ xs) le full few pos past recent =
    let o = oldest x xs in
    let p : o ≤ now = oldest-All (λ ts. ts ≤ now) x xs past in
    let q : is_recent now window o ≡ true =
      oldest-All (λ ts. is_recent now window ts ≡ true) x xs recent in
    elim (Bool-cases (leb (o + seconds window) asked)) [
      | inl e ↦ rw e (
        ground arith,
        λ t after. ground (arith, oldest-count (is_recent t window) x xs, few, after, e),
      )
      | inr e ↦ rw e (
        (omega arith, ground arith),
        λ t after. ground (arith, oldest-count (is_recent t window) x xs, few, after),
      )
    ]

-- A call leaves no address with more recorded attempts than the maximum and none later than the call,
-- if that was so at an earlier time.
pub is_allowed-IsBounded :
    (caller : Text) (before now now' : DateTime) (r : RateLimiter)
    → IsBounded before r
    → before ≤ now
    → IsBounded now (is_allowed caller now now' r).1
is_allowed-IsBounded caller before now now' r b le = record {
  few = λ ip.
      subst (λ n. length (attempts_of ip (is_allowed caller now now' r).1) ≤ n)
        (sym (settings-is_allowed caller now now' r).1)
        (length-is_allowed caller now now' r b.few ip);
  past =
      is_allowed-All (λ ts. ts ≤ now) caller now now' r (omega arith)
        (λ ip.
          All-mono (λ ts. ts ≤ before) (λ ts. ts ≤ now) (attempts_of ip r) (λ ts h. omega arith)
            (b.past ip));
}

-- What a refused call leaves for its address: a full window.
refused_full :
    (ip : Text) (now now' : DateTime) (r : RateLimiter)
    → (is_allowed ip now now' r).0 ≡ false
    → let r' = (is_allowed ip now now' r).1 in
      (r.max_attempts ≤ length (attempts_of ip r'))
      × All (λ ts. is_recent now r.window_seconds ts ≡ true) (attempts_of ip r')
unfolding is_allowed admit
refused_full ip now now' r h =
    let c = lazy_cleanup now now' r in
    let (w, m) = settings-lazy_cleanup now now' r in
    let l = select_where (is_recent now c.window_seconds) (attempts_of ip c) in
    let e : attempts_of ip (admit ip now c).1 ≡ l = ground (arith, text_eq_refl ip, h) in
    (
      ground (arith, e, m, h),
      subst (λ x. All (λ ts. is_recent now x ts ≡ true) (attempts_of ip (admit ip now c).1)) w
          (subst (All (λ ts. is_recent now c.window_seconds ts ≡ true)) (sym e)
            (select_where-All (is_recent now c.window_seconds) (attempts_of ip c))),
    )

-- A call is admitted if fewer than the maximum are recorded in its window, whatever a cleanup drops.
allowed_of_room :
    (ip : Text) (t t' : DateTime) (r : RateLimiter)
    → count_where (is_recent t r.window_seconds) (attempts_of ip r) < r.max_attempts
    → (is_allowed ip t t' r).0 ≡ true
unfolding is_allowed admit
allowed_of_room ip t t' r h =
    let c = lazy_cleanup t t' r in
    let (w, m) = settings-lazy_cleanup t t' r in
    let p = is_recent t r.window_seconds in
    let room : count_where p (attempts_of ip c) < r.max_attempts =
      attempts_of-lazy_cleanup-All (λ l. count_where p l < r.max_attempts) ip t t' r h
        (omega (
          arith,
          h,
          count_where-select_where-le p (is_recent t' r.window_seconds) (attempts_of ip r),
        )) in
    ground
      (arith, w, m, room, length-select_where (is_recent t c.window_seconds) (attempts_of ip c))

settings-retry :
    (ip : Text) (now : DateTime) (r : RateLimiter)
    → let r'' = (get_retry_after_seconds ip now r).1 in
      (r''.max_attempts ≡ r.max_attempts)
      × (r''.window_seconds ≡ r.window_seconds)
      × (attempts_of ip r'' ≡ attempts_of ip r)
unfolding get_retry_after_seconds
settings-retry ip now r = (refl, refl, ground (arith, text_eq_refl ip))

-- If at most `max_attempts` attempts of an address are recorded and none later than the call, and
-- `max_attempts` is not 0, then a refused address that asks afterwards is told to wait a
-- number of seconds that is at least 1 and at most the window and one second, or, if time has passed
-- since the refusal, not to wait; and its first call after that wait is admitted, whatever the clock
-- shows its cleanup.
pub retry_admitted :
    (ip : Text) (now now' asked : DateTime) (r : RateLimiter)
    → IsBounded now r
    → 0 < r.max_attempts
    → (is_allowed ip now now' r).0 ≡ false
    → now ≤ asked
    → let (answer, r'') = get_retry_after_seconds ip asked (is_allowed ip now now' r).1 in
      IsTold r.window_seconds now asked answer
      × ((wait : ℕ) (later' : DateTime)
          → (is_allowed ip (asked + seconds (or_zero answer) + wait) later' r'').0 ≡ true)
retry_admitted ip now now' asked r b pos h le =
    let r' = (is_allowed ip now now' r).1 in
    let b' = is_allowed-IsBounded ip now now now' r b (omega arith) in
    let (w, m) = settings-is_allowed ip now now' r in
    let (full, recent) = refused_full ip now now' r h in
    let (told, free) =
      retry_after_lem now asked r.max_attempts r.window_seconds (attempts_of ip r') le full
        (omega (arith, b'.few ip, m)) pos (b'.past ip) recent in
    let answered : (get_retry_after_seconds ip asked r').0
        ≡ retry_after asked r.window_seconds (attempts_of ip r') =
      unfold get_retry_after_seconds in ap (λ k. retry_after asked k (attempts_of ip r')) w in
    (
      subst (IsTold r.window_seconds now asked) (sym answered) told,
      λ wait later'.
          retried (asked + seconds (or_zero (get_retry_after_seconds ip asked r').0) + wait) later'
            (free _ (ground (arith, answered))),
    )
  where
    retried :
        (t t' : DateTime)
        → count_where (is_recent t r.window_seconds) (attempts_of ip (is_allowed ip now now' r).1)
          < r.max_attempts
        → (is_allowed ip t t' (get_retry_after_seconds ip asked (is_allowed ip now now' r).1).1).0
          ≡ true
    retried t t' lt =
        let r' = (is_allowed ip now now' r).1 in
        let (w, m) = settings-is_allowed ip now now' r in
        let (m', w', a) = settings-retry ip asked r' in
        allowed_of_room ip t t' (get_retry_after_seconds ip asked r').1 (rw (a, w', w, m', m) lt)
