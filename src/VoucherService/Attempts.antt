-- ===== src/VoucherService/Attempts.antt =====
-- The retries of `create` in addon/src/captive_portal/services/voucher_service.py.
use homeassistant_captive_po.Base.{
  ℕ, zero, suc, ◌+◌, ◌≤◌, ◌<◌, ◌≡◌, inl, inr, Text, true, none, some, List, [], ◌∷◌, ◌++◌, refl,
  arith, leb, ok, err, Result, is_some, Bool-cases, length, if◌then◌else◌, pos,
}
use homeassistant_captive_po.Time.{DateTime}
use homeassistant_captive_po.Models.Voucher.{Voucher}
use homeassistant_captive_po.Store.Database.{Database}
use homeassistant_captive_po.Store.VoucherRepository
use homeassistant_captive_po.Store.VoucherRepository.{get_by_code}
use homeassistant_captive_po.VoucherService.Create.{
  CreateOptions, CreateError, collision, index_error, new_voucher, backoff_ms, draw_code,
  generate_code, create_attempts, create,
}

pub length-draw_code : (choice : ℕ → ℕ) (i n : ℕ) → length (draw_code choice i n) ≡ n
unfolding draw_code
length-draw_code choice i zero = refl
length-draw_code choice i (suc n) = omega (arith, length-draw_code choice (i + 1) n)

-- The sleeps of `n` retries from an attempt on.
abbrev pub sleeps_from : ℕ → ℕ → List ℕ
sleeps_from attempt zero = []
sleeps_from attempt (suc n) = elim (backoff_ms attempt) [
  | none ↦ []
  | some ms ↦ ms ∷ sleeps_from (attempt + 1) n
]

-- The codes that the attempts from one up to another draw are all in the table.
abbrev pub AllTaken : (ℕ → ℕ → ℕ) → ℕ → Database → ℕ → ℕ → Type 0
AllTaken choice code_length db from to =
    (j : ℕ)
    → from ≤ j
    → j < to
    → is_some (get_by_code (draw_code (choice j) 0 code_length) db) ≡ true

-- The list of backoffs has five entries.
backoff_ms_below : (attempt : ℕ) → attempt < 5 → (ms : ℕ) × (backoff_ms attempt ≡ some ms)
backoff_ms_below zero h = (50, refl)
backoff_ms_below (suc zero) h = (100, refl)
backoff_ms_below (suc (suc zero)) h = (200, refl)
backoff_ms_below (suc (suc (suc zero))) h = (400, refl)
backoff_ms_below (suc (suc (suc (suc zero)))) h = (800, refl)
backoff_ms_below (suc (suc (suc (suc (suc n))))) h = absurd (omega arith)

module _ (choice : ℕ → ℕ → ℕ) (duration : ℕ) (options : CreateOptions) (code_length max_retries : ℕ)
    (now : DateTime) (db : Database) (in_range : (4 ≤ code_length) × (code_length ≤ 24)) where
  -- The code that is drawn at an attempt.
  abbrev drawn : ℕ → Text
  drawn attempt = draw_code (choice attempt) 0 code_length

  abbrev attempts : ℕ → ℕ → Result CreateError Voucher × List ℕ × Database
  attempts left attempt =
      create_attempts choice duration options code_length max_retries now left attempt db

  -- One attempt whose code is there already, with another to come.
  attempt-retry :
      (left attempt ms : ℕ)
      → is_some (get_by_code (drawn attempt) db) ≡ true
      → attempt + 1 < max_retries
      → backoff_ms attempt ≡ some ms
      → attempts (suc left) attempt
        ≡ (let (r, sleeps, db') = attempts left (attempt + 1) in (r, ms ∷ sleeps, db'))
  unfolding create_attempts generate_code VoucherRepository.add
  attempt-retry left attempt ms taken more e = ground arith

  attempt-fresh :
      (left attempt : ℕ)
      → get_by_code (drawn attempt) db ≡ none
      → attempts (suc left) attempt ≡ (
        ok (new_voucher (drawn attempt) duration options now),
        [],
        record db {
          vouchers = db.vouchers ++ new_voucher (drawn attempt) duration options now ∷ [];
        },
      )
  unfolding create_attempts generate_code VoucherRepository.add
  attempt-fresh left attempt free = ground arith

  attempt-last :
      (left attempt : ℕ)
      → is_some (get_by_code (drawn attempt) db) ≡ true
      → max_retries ≤ attempt + 1
      → attempts (suc left) attempt ≡ (err collision, [], db)
  unfolding create_attempts generate_code VoucherRepository.add
  attempt-last left attempt taken last = ground arith

  attempt-index_error :
      (left attempt : ℕ)
      → is_some (get_by_code (drawn attempt) db) ≡ true
      → attempt + 1 < max_retries
      → backoff_ms attempt ≡ none
      → attempts (suc left) attempt ≡ (err index_error, [], db)
  unfolding create_attempts generate_code VoucherRepository.add
  attempt-index_error left attempt taken more e = ground arith

  until_fresh :
      (k left attempt t : ℕ)
      → attempt + k ≡ t
      → attempt + left ≡ max_retries
      → t < max_retries
      → t ≤ 5
      → AllTaken choice code_length db attempt t
      → get_by_code (drawn t) db ≡ none
      → attempts left attempt ≡ (
        ok (new_voucher (drawn t) duration options now),
        sleeps_from attempt k,
        record db { vouchers = db.vouchers ++ new_voucher (drawn t) duration options now ∷ [] },
      )
  until_fresh k zero attempt t e m lt five taken free = absurd (omega arith)
  until_fresh zero (suc left) attempt t e m lt five taken free =
      let q : attempt ≡ t = omega arith in rw q (attempt-fresh left t free)
  until_fresh (suc k) (suc left) attempt t e m lt five taken free =
      let (ms, b) = backoff_ms_below attempt (omega arith) in
      let step =
        attempt-retry left attempt ms (taken attempt (omega arith) (omega arith)) (omega arith) b in
      let rest =
        until_fresh k left (attempt + 1) t (omega arith) (omega arith) lt five
          (λ j l u. taken j (omega arith) u) free in
      ground (arith, step, rest, b)

  until_last :
      (left attempt : ℕ)
      → attempt + suc left ≡ max_retries
      → max_retries ≤ 6
      → AllTaken choice code_length db attempt max_retries
      → attempts (suc left) attempt ≡ (err collision, sleeps_from attempt left, db)
  until_last zero attempt m six taken =
      attempt-last zero attempt (taken attempt (omega arith) (omega arith)) (omega arith)
  until_last (suc left) attempt m six taken =
      let (ms, b) = backoff_ms_below attempt (omega arith) in
      let step =
        attempt-retry (suc left) attempt ms (taken attempt (omega arith) (omega arith))
          (omega arith) b in
      let rest =
        until_last left (attempt + 1) (omega arith) six (λ j l u. taken j (omega arith) u) in
      ground (arith, step, rest, b)

  until_index_error :
      (k left attempt : ℕ)
      → attempt + k ≡ 5
      → attempt + left ≡ max_retries
      → 6 < max_retries
      → AllTaken choice code_length db attempt 6
      → attempts left attempt ≡ (err index_error, sleeps_from attempt k, db)
  until_index_error k zero attempt e m seven taken = absurd (omega arith)
  until_index_error zero (suc left) attempt e m seven taken =
      let q : attempt ≡ 5 = omega arith in
      attempt-index_error left attempt (taken attempt (omega arith) (omega arith)) (omega arith)
        (rw q)
  until_index_error (suc k) (suc left) attempt e m seven taken =
      let (ms, b) = backoff_ms_below attempt (omega arith) in
      let step =
        attempt-retry left attempt ms (taken attempt (omega arith) (omega arith)) (omega arith) b in
      let rest =
        until_index_error k left (attempt + 1) (omega arith) (omega arith) seven
          (λ j l u. taken j (omega arith) u) in
      ground (arith, step, rest, b)

-- A created voucher: the first attempt whose code is not in the table gives the voucher its code, if
-- that is one of the first six attempts; the earlier attempts slept 50, 100, 200, 400, 800 ms.
pub create_first_fresh :
    (choice : ℕ → ℕ → ℕ) (duration : ℕ) (options : CreateOptions) (code_length max_retries k : ℕ)
    (now : DateTime) (db : Database) (in_range : (4 ≤ code_length) × (code_length ≤ 24))
    → k < max_retries
    → k ≤ 5
    → AllTaken choice code_length db 0 k
    → get_by_code (draw_code (choice k) 0 code_length) db ≡ none
    → let v = new_voucher (draw_code (choice k) 0 code_length) (suc duration) options now in
      (create choice (pos (suc duration)) options code_length max_retries now db
        ≡ (ok v, sleeps_from 0 k, record db { vouchers = db.vouchers ++ v ∷ [] }))
      × (length v.code ≡ code_length)
unfolding create
create_first_fresh choice duration options code_length max_retries k now db in_range lt five taken
      free =
    (
      until_fresh choice (suc duration) options code_length max_retries now db in_range k
          max_retries 0 k (omega arith) (omega arith) lt five taken free,
      length-draw_code (choice k) 0 code_length,
    )

-- Where every attempt draws a code of the table, `create` raises and changes nothing: with up to six
-- attempts it raises VoucherCollisionError, with more it raises IndexError after the sixth, since
-- the list of backoffs has five entries.
pub create-AllTaken :
    (choice : ℕ → ℕ → ℕ) (duration : ℕ) (options : CreateOptions) (code_length retries : ℕ)
    (now : DateTime) (db : Database) (in_range : (4 ≤ code_length) × (code_length ≤ 24))
    → AllTaken choice code_length db 0 (suc retries)
    → create choice (pos (suc duration)) options code_length (suc retries) now db ≡ (
        if leb retries 5
        then (err collision, sleeps_from 0 retries, db)
        else (err index_error, sleeps_from 0 5, db))
unfolding create
create-AllTaken choice duration options code_length retries now db in_range taken =
    elim (Bool-cases (leb retries 5)) [
      | inl e ↦ rw e (
          until_last choice (suc duration) options code_length (suc retries) now db in_range retries
            0 (omega arith) (ground arith) taken)
      | inr e ↦
          let many : 6 < suc retries = ground arith in
          rw e (
            until_index_error choice (suc duration) options code_length (suc retries) now db
              in_range 5 (suc retries) 0 (omega arith) (omega arith) many
              (λ j l u. taken j l (omega arith)))
    ]
