-- ===== src/RateLimiter/Refines.antt =====
-- The limiter of addon/src/captive_portal/security/rate_limiter.py against a log that is never cleaned.
use homeassistant_captive_po.Base.{
  ℕ, ◌≤◌, ◌≡◌, Text, text_eq, text_eq_iff, Bool, not, ◌&&◌, ltb, List, [], ◌∷◌, refl, ap, sym,
  subst, ◌∙◌, arith, length, select_where, count_where, ◌↔◌, true, false, All, All-mono, leb, ◌+◌,
  Option, if◌then◌else◌, Bool-cases, inl, inr,
}
use mathlib.Core.Path.{fun_ext}
use homeassistant_captive_po.Time.{DateTime, seconds}
use homeassistant_captive_po.RateLimiter.{
  RateLimiter, attempts_of, cleaned, cleanup, lazy_cleanup, admit, cleanup_interval_seconds,
  is_recent, is_allowed, clear, new,
}
use homeassistant_captive_po.RateLimiter.Attempts.{is_allowed-All}
use homeassistant_captive_po.RateLimiter.Window.{
  recent_of, settings-is_allowed, recent_of-is_allowed, is_allowed_iff,
}

-- An attempt, with the clock's readings by is_allowed and by its cleanup, or the clearing of an address.
pub data Call : Type 0 where
  attempt : Text → DateTime → DateTime → Call
  forget : Text → Call

-- What the limiter answers to the attempts.
unfoldable pub answers : RateLimiter → List Call → List Bool
answers r [] = []
answers r (attempt ip now now' ∷ calls) =
    let (allowed, r') = is_allowed ip now now' r in allowed ∷ answers r' calls
answers r (forget ip ∷ calls) = answers (clear ip r) calls

abbrev pub Log : Type 0
Log = List (Text × DateTime)

abbrev is_counted : Text → DateTime → ℕ → Text × DateTime → Bool
is_counted ip now window (caller, t) = text_eq caller ip && is_recent now window t

-- The specification: every admission is kept, and an attempt is admitted if fewer than the maximum of
-- the same address lie in the window.
abbrev pub is_admitted : ℕ → ℕ → Text → DateTime → Log → Bool
is_admitted max window ip now log = ltb (count_where (is_counted ip now window) log) max

unfoldable pub specified_answers : ℕ → ℕ → Log → List Call → List Bool
specified_answers max window log [] = []
specified_answers max window log (attempt ip now _ ∷ calls) =
    let allowed = is_admitted max window ip now log in
    allowed ∷ specified_answers max window (if allowed then (ip, now) ∷ log else log) calls
specified_answers max window log (forget ip ∷ calls) =
    specified_answers max window (select_where (λ (e : Text × DateTime). not (text_eq e.0 ip)) log)
      calls

-- The clock does not go back from call to call, and no earlier attempt leaves the window between the
-- two readings of a call. The attempts made are kept in `past`.
abbrev pub IsOrdered : ℕ → List DateTime → DateTime → List Call → Type 0
IsOrdered window past now [] = Unit
IsOrdered window past now (attempt _ t t' ∷ calls) =
    (now ≤ t)
    × All (λ u. is_recent t window u ≡ is_recent t' window u) past
    × IsOrdered window (t ∷ past) t calls
IsOrdered window past now (forget _ ∷ calls) = IsOrdered window past now calls

-- Each recorded attempt was made.
abbrev IsPast : List DateTime → RateLimiter → Type 0
IsPast past r =
    (p : DateTime → Bool)
    → All (λ u. p u ≡ true) past
    → (ip : Text) → All (λ u. p u ≡ true) (attempts_of ip r)

-- The log of one address is forgotten, that of the others is kept.
count_where-forget :
    (ip other : Text) (t : DateTime) (window : ℕ) (log : Log)
    → count_where
        (is_counted other t window)
        (select_where (λ (e : Text × DateTime). not (text_eq e.0 ip)) log)
      ≡ (if text_eq ip other then 0 else count_where (is_counted other t window) log)
count_where-forget ip other t window [] = ground arith
count_where-forget ip other t window ((k, u) ∷ log) = ground (
  arith,
  count_where-forget ip other t window log,
  text_eq_iff k ip,
  text_eq_iff ip other,
  text_eq_iff k other,
)

recent_of-clear :
    (ip other : Text) (t : DateTime) (r : RateLimiter)
    → length (recent_of other t (clear ip r))
      ≡ (if text_eq ip other then 0 else length (recent_of other t r))
unfolding clear
recent_of-clear ip other t r = ground arith

same_test : Bool → Bool → Bool
same_test true b = b
same_test false b = not b

same_test_iff : (a b : Bool) → (same_test a b ≡ true) ↔ (a ≡ b)
unfolding same_test
same_test_iff true true = ground arith
same_test_iff true false = ground arith
same_test_iff false true = ground arith
same_test_iff false false = ground arith

select_where-same {ℓ} :
    {A : Type ℓ} (p q : A → Bool) (xs : List A)
    → All (λ x. same_test (p x) (q x) ≡ true) xs
    → select_where p xs ≡ select_where q xs
select_where-same p q [] h = refl
select_where-same p q (x ∷ xs) (h, hs) =
    rw ((same_test_iff (p x) (q x)).0 h, select_where-same p q xs hs) refl

module _ (past : List DateTime) (r : RateLimiter) (before : IsPast past r) where
  -- The second reading makes no difference.
  is_allowed-now :
      (ip : Text) (now now' : DateTime)
      → All (λ u. is_recent now r.window_seconds u ≡ is_recent now' r.window_seconds u) past
      → is_allowed ip now now' r ≡ is_allowed ip now now r
  unfolding is_allowed lazy_cleanup cleanup
  is_allowed-now ip now now' h =
      let p = is_recent now r.window_seconds in
      let q = is_recent now' r.window_seconds in
      let same : (λ j. cleaned (select_where q (attempts_of j r)))
          ≡ (λ j. cleaned (select_where p (attempts_of j r))) =
        fun_ext (λ j. ap cleaned (
          sym (
            select_where-same p q (attempts_of j r) (
              before (λ u. same_test (p u) (q u))
                (All-mono (λ u. p u ≡ q u) (λ u. same_test (p u) (q u) ≡ true) past
                  (λ u e. (same_test_iff (p u) (q u)).1 e) h)
                j)))) in
      ap
        (λ (a : Text → Option (List DateTime)). admit ip now (
          if leb (r.last_cleanup + seconds cleanup_interval_seconds) now
          then record r { attempts = a; last_cleanup = now }
          else r))
        same

  is_allowed-IsPast : (ip : Text) (now : DateTime) → IsPast (now ∷ past) (is_allowed ip now now r).1
  is_allowed-IsPast ip now p (h, hs) = is_allowed-All (λ u. p u ≡ true) ip now now r h (before p hs)

  clear-IsPast : (ip : Text) → IsPast past (clear ip r)
  unfolding clear
  clear-IsPast ip p h j = elim (Bool-cases (text_eq ip j)) [
    | inl e ↦ rw e tt
    | inr e ↦ rw e (before p h j)
  ]

module _ (max window : ℕ) where
  -- The limiter holds as many recent attempts of each address as the log.
  record Simulates (now : DateTime) (r : RateLimiter) (log : Log) : Type 0 where
    max_same : r.max_attempts ≡ max
    window_same : r.window_seconds ≡ window
    counts :
        (ip : Text) (t : DateTime)
        → now ≤ t
        → length (recent_of ip t r) ≡ count_where (is_counted ip t window) log

  same_answer :
      (ip : Text) (now t : DateTime) (r : RateLimiter) (log : Log)
      → now ≤ t
      → Simulates now r log
      → (is_allowed ip t t r).0 ≡ is_admitted max window ip t log
  same_answer ip now t r log le s = is_allowed_iff ip t r ∙ rw (s.counts ip t le, s.max_same) refl

  attempt-Simulates :
      (ip : Text) (now t : DateTime) (r : RateLimiter) (log : Log)
      → now ≤ t
      → Simulates now r log
      → Simulates t
          (is_allowed ip t t r).1
          (if is_admitted max window ip t log then (ip, t) ∷ log else log)
  attempt-Simulates ip now t r log le s =
      let (w, m) = settings-is_allowed ip t t r in
      let same = same_answer ip now t r log le s in
      record {
        max_same = m ∙ s.max_same;
        window_same = w ∙ s.window_same;
        counts = λ other u le'. elim (Bool-cases (is_admitted max window ip t log)) [
          | inl e ↦ rw e (
              ground (
                arith,
                recent_of-is_allowed other u r ip t le',
                s.counts other u (omega arith),
                s.window_same,
                same,
                e,
              ))
          | inr e ↦ rw e (
              ground (
                arith,
                recent_of-is_allowed other u r ip t le',
                s.counts other u (omega arith),
                s.window_same,
                same,
                e,
              ))
        ];
      }

  answers_from :
      (past : List DateTime) (now : DateTime) (r : RateLimiter) (log : Log) (calls : List Call)
      → Simulates now r log
      → IsPast past r
      → IsOrdered window past now calls
      → answers r calls ≡ specified_answers max window log calls
  unfolding answers specified_answers
  answers_from past now r log [] s b o = refl
  answers_from past now r log (attempt ip t t' ∷ calls) s b (le, still, o) =
      rw
        (
          is_allowed-now past r b ip t t' (
              subst (λ w. All (λ u. is_recent t w u ≡ is_recent t' w u) past) (sym s.window_same)
                still),
          same_answer ip now t r log le s,
        )
        (ap (λ l. is_admitted max window ip t log ∷ l)
          (answers_from (t ∷ past) t (is_allowed ip t t r).1 _ calls
            (attempt-Simulates ip now t r log le s) (is_allowed-IsPast past r b ip t) o))
  answers_from past now r log (forget ip ∷ calls) s b o =
      answers_from past now (clear ip r) _ calls
        (record {
          max_same = unfold clear in s.max_same;
          window_same = unfold clear in s.window_same;
          counts = λ other t le.
              recent_of-clear ip other t r
              ∙ ap (λ n. if text_eq ip other then 0 else n) (s.counts other t le)
              ∙ (sym (count_where-forget ip other t window log));
        })
        (clear-IsPast past r b ip) o

-- To any attempts and clearings of any addresses, while the clock does not go back from call to call and
-- no earlier attempt leaves the window between the two readings of a call, the limiter, which drops
-- what left the window and now and then cleans all addresses, answers as the specification does, which
-- keeps every admission and counts those of the address in the window.
pub answers-specified_answers :
    (max window : ℕ) (start : DateTime) (calls : List Call)
    → IsOrdered window [] start calls
    → answers (new max window start) calls ≡ specified_answers max window [] calls
unfolding new
answers-specified_answers max window start calls o =
    answers_from max window [] start (new max window start) [] calls
      (record { max_same = refl; window_same = refl; counts = λ ip t le. refl }) (λ p h ip. tt) o
