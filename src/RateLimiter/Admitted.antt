-- ===== src/RateLimiter/Admitted.antt =====
-- How often addon/src/captive_portal/security/rate_limiter.py admits an address.
--
-- `cleanup` reads the clock again, so that it drops an attempt that leaves the window between the
-- two readings of a call; `skew` bounds the time between them.
use homeassistant_captive_po.Base.{
  subst, sym, ℕ, ◌+◌, ◌≤◌, ◌≡◌, Text, Bool, true, text_eq, text_eq_iff, ◌&&◌, ltb, List, [], ◌∷◌,
  refl, ◌∙◌, arith, length, select_where, count_where, count_where-append, if◌then◌else◌,
  Bool-cases, inl, inr,
}
use homeassistant_captive_po.Time.{DateTime, seconds}
use homeassistant_captive_po.RateLimiter.{
  RateLimiter, attempts_of, is_recent, cleanup, lazy_cleanup, admit, is_allowed, new,
}
use homeassistant_captive_po.RateLimiter.Window.{settings-lazy_cleanup, settings-is_allowed}

-- An address, and the clock's readings by is_allowed and by its cleanup.
abbrev pub TimedCall : Type 0
TimedCall = Text × DateTime × DateTime

-- The times at which an address was admitted, the last first, as a limiter serves calls of any
-- addresses.
unfoldable pub admitted : Text → RateLimiter → List DateTime → List TimedCall → List DateTime
admitted ip r acc [] = acc
admitted ip r acc ((caller, now, now') ∷ calls) =
    let (allowed, r') = is_allowed caller now now' r in
    admitted ip r' (if text_eq caller ip && allowed then now ∷ acc else acc) calls

-- The clock does not go back from call to call, and a call's readings are `skew` apart at most.
abbrev pub IsTimed : ℕ → DateTime → List TimedCall → Type 0
IsTimed skew start [] = Unit
IsTimed skew start ((_, now, now') ∷ calls) =
    (start ≤ now) × (now' ≤ now + skew) × IsTimed skew now calls

-- Whether a time lies in the window, less the skew, that ends at another.
abbrev pub lasts : ℕ → ℕ → DateTime → DateTime → Bool
lasts window skew now t = ltb (now + skew) (t + seconds window)

-- In the window, less the skew, that ends at each admission there are at most `max` admissions.
abbrev pub IsWithinWindow : ℕ → ℕ → ℕ → List DateTime → Type 0
IsWithinWindow max window skew [] = Unit
IsWithinWindow max window skew (t ∷ ts) =
    (count_where (lasts window skew t) (t ∷ ts) ≤ max) × IsWithinWindow max window skew ts

-- What has left the window by `now` does not last until `t`.
lasts-is_recent :
    (window skew now t : ℕ) (l : List DateTime)
    → now ≤ t + skew
    → count_where (lasts window skew t) (select_where (is_recent now window) l)
      ≡ count_where (lasts window skew t) l
lasts-is_recent window skew now t [] h = refl
lasts-is_recent window skew now t (x ∷ l) h = ground (arith, lasts-is_recent window skew now t l h)

lasts-length :
    (window skew now : ℕ) (l : List DateTime)
    → count_where (lasts window skew now) l ≤ length (select_where (is_recent now window) l)
lasts-length window skew now [] = omega arith
lasts-length window skew now (x ∷ l) = ground (arith, lasts-length window skew now l)

module _ (skew : ℕ) (ip : Text) (t : DateTime) (r : RateLimiter) where
  -- How many of the recorded attempts last.
  abbrev lasting : RateLimiter → ℕ
  lasting s = count_where (lasts r.window_seconds skew t) (attempts_of ip s)

  lasting-lazy_cleanup :
      (now now' : DateTime) → now' ≤ t + skew → lasting (lazy_cleanup now now' r) ≡ lasting r
  unfolding lazy_cleanup cleanup
  lasting-lazy_cleanup now now' h =
      ground (arith, lasts-is_recent r.window_seconds skew now' t (attempts_of ip r) h)

  lasting-admit :
      (caller : Text) (now : DateTime)
      → now ≤ t
      → lasting (admit caller now r).1
        ≡ lasting r
          + (if text_eq caller ip && (admit caller now r).0 && lasts r.window_seconds skew t now
              then 1
              else 0)
  unfolding admit
  lasting-admit caller now h =
      let l = attempts_of caller r in
      let recent = select_where (is_recent now r.window_seconds) l in
      ground (
        arith,
        text_eq_iff caller ip,
        lasts-is_recent r.window_seconds skew now t l (omega (arith, h)),
        count_where-append (lasts r.window_seconds skew t) recent (now ∷ []),
      )

  -- An admission finds room in the window.
  lasting-room : (admit ip t r).0 ≡ true → lasting r + 1 ≤ r.max_attempts
  unfolding admit
  lasting-room h = ground (arith, h, lasts-length r.window_seconds skew t (attempts_of ip r))

module _ (skew : ℕ) (ip : Text) (u : DateTime) (r : RateLimiter) (caller : Text)
    (now now' : DateTime) where
  lasting-is_allowed :
      now ≤ u
      → now' ≤ u + skew
      → lasting skew ip u r (is_allowed caller now now' r).1
        ≡ lasting skew ip u r r
          + (if text_eq caller ip
                && (is_allowed caller now now' r).0
                && lasts r.window_seconds skew u now
              then 1
              else 0)
  unfolding is_allowed
  lasting-is_allowed h h' =
      let (w, _) = settings-lazy_cleanup now now' r in
      subst
        (λ k.
          count_where (lasts k skew u)
            (attempts_of ip (admit caller now (lazy_cleanup now now' r)).1)
          ≡ count_where (lasts k skew u) (attempts_of ip (lazy_cleanup now now' r))
            + (if text_eq caller ip
                  && (admit caller now (lazy_cleanup now now' r)).0
                  && lasts k skew u now
                then 1
                else 0))
        w (lasting-admit skew ip u (lazy_cleanup now now' r) caller now h)
      ∙ rw (lasting-lazy_cleanup skew ip u r now now' h') refl

lasting-room_of_call :
    (skew : ℕ) (ip : Text) (now now' : DateTime) (r : RateLimiter)
    → now' ≤ now + skew
    → (is_allowed ip now now' r).0 ≡ true
    → lasting skew ip now r r + 1 ≤ r.max_attempts
unfolding is_allowed
lasting-room_of_call skew ip now now' r h e =
    let (w, m) = settings-lazy_cleanup now now' r in
    let room = lasting-room skew ip now (lazy_cleanup now now' r) e in
    subst (λ n. n + 1 ≤ r.max_attempts) (lasting-lazy_cleanup skew ip now r now now' h)
      (subst
        (λ k.
          count_where (lasts k skew now) (attempts_of ip (lazy_cleanup now now' r)) + 1
          ≤ r.max_attempts)
        w
        (subst
          (λ n. lasting skew ip now (lazy_cleanup now now' r) (lazy_cleanup now now' r) + 1 ≤ n) m
          room))

module _ (ip : Text) (max window skew : ℕ) where
  -- What was admitted and lasts is recorded.
  record IsRecorded (now : DateTime) (r : RateLimiter) (acc : List DateTime) : Type 0 where
    max_same : r.max_attempts ≡ max
    window_same : r.window_seconds ≡ window
    recorded :
        (t : DateTime)
        → now ≤ t
        → count_where (lasts window skew t) acc
          ≤ count_where (lasts window skew t) (attempts_of ip r)

  module _ (now : DateTime) (r : RateLimiter) (acc : List DateTime) (caller : Text)
      (t t' : DateTime) (i : IsRecorded now r acc) (le : now ≤ t) (le' : t' ≤ t + skew) where
    call-IsRecorded :
        IsRecorded t
          (is_allowed caller t t' r).1
          (if text_eq caller ip && (is_allowed caller t t' r).0 then t ∷ acc else acc)
    call-IsRecorded =
        let (w, m) = settings-is_allowed caller t t' r in
        record {
          max_same = m ∙ i.max_same;
          window_same = w ∙ i.window_same;
          recorded = λ u h.
              let grown =
                subst
                  (λ k.
                    count_where (lasts k skew u) (attempts_of ip (is_allowed caller t t' r).1)
                    ≡ count_where (lasts k skew u) (attempts_of ip r)
                      + (if text_eq caller ip && (is_allowed caller t t' r).0 && lasts k skew u t
                          then 1
                          else 0))
                  i.window_same
                  (lasting-is_allowed skew ip u r caller t t' h (omega (arith, h, le'))) in
              ground (arith, grown, i.recorded u (omega (arith, h, le)));
        }

    call-IsWithinWindow :
        IsWithinWindow max window skew acc
        → IsWithinWindow max window skew
            (if text_eq caller ip && (is_allowed caller t t' r).0 then t ∷ acc else acc)
    call-IsWithinWindow h = elim (Bool-cases (text_eq caller ip && (is_allowed caller t t' r).0)) [
      | inr e ↦ rw e h
      | inl e ↦
          let same : caller ≡ ip = (text_eq_iff caller ip).0 (ground (arith, e)) in
          let room =
            subst (λ c. (is_allowed c t t' r).0 ≡ true → lasting skew ip t r r + 1 ≤ r.max_attempts)
              (sym same) (lasting-room_of_call skew ip t t' r le') (ground (arith, e)) in
          let few : count_where (lasts window skew t) (attempts_of ip r) + 1 ≤ max =
            subst (λ n. count_where (lasts window skew t) (attempts_of ip r) + 1 ≤ n) i.max_same
              (subst (λ k. count_where (lasts k skew t) (attempts_of ip r) + 1 ≤ r.max_attempts)
                i.window_same room) in
          rw e (ground (arith, few, i.recorded t le), h)
    ]

  admitted_from :
      (now : DateTime) (r : RateLimiter) (acc : List DateTime) (calls : List TimedCall)
      → IsRecorded now r acc
      → IsWithinWindow max window skew acc
      → IsTimed skew now calls
      → IsWithinWindow max window skew (admitted ip r acc calls)
  unfolding admitted
  admitted_from now r acc [] i h o = h
  admitted_from now r acc ((caller, t, t') ∷ calls) i h (le, le', o) =
      admitted_from t (is_allowed caller t t' r).1 _ calls
        (call-IsRecorded now r acc caller t t' i le le')
        (call-IsWithinWindow now r acc caller t t' i le le' h) o

-- Whatever addresses call in whatever order, while the clock does not go back from call to call and the
-- cleanup of a call reads it at most `skew` after the call itself, an address is admitted at most
-- `max_attempts` times in each window of `window_seconds`, less that skew, that ends at an admission.
pub admitted-IsWithinWindow :
    (ip : Text) (max window skew : ℕ) (start : DateTime) (calls : List TimedCall)
    → IsTimed skew start calls
    → IsWithinWindow max window skew (admitted ip (new max window start) [] calls)
unfolding new
admitted-IsWithinWindow ip max window skew start calls o =
    admitted_from ip max window skew start (new max window start) [] calls
      (record { max_same = refl; window_same = refl; recorded = λ t le. omega arith }) tt o
