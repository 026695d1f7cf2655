-- ===== src/VoucherService/Create.antt =====
-- `_generate_code` and `create` of addon/src/captive_portal/services/voucher_service.py
use homeassistant_captive_po.Base.{
  ℕ, zero, suc, ◌+◌, Text, codes, true, false, ltb, leb, ◌&&◌, Option, none, some, List, [], ◌∷◌,
  Result, ok, err, ℤ, positive?, if◌then◌else◌,
}
use homeassistant_captive_po.Time.{DateTime}
use homeassistant_captive_po.Models.Voucher.{Voucher, unused}
use homeassistant_captive_po.Store.Database.{Database}
use homeassistant_captive_po.Store.VoucherRepository

-- `index_error` is Python's IndexError on `backoff_ms[attempt]`.
pub data CreateError : Type 0 where
  bad_duration bad_length collision index_error : CreateError

-- string.ascii_uppercase + string.digits
abbrev pub alphabet : Text
alphabet = codes "ABCDEFGHIJKLMNOPQRSTUVWXYZ0123456789"

abbrev pub nth : Text → ℕ → ℕ
nth [] i = 0
nth (c ∷ cs) zero = c
nth (c ∷ cs) (suc i) = nth cs i

-- The arguments of `create` that it copies into the voucher.
pub record CreateOptions : Type 0 where
  pub booking_ref : Option Text
  pub up_kbps : Option ℕ
  pub down_kbps : Option ℕ
  pub allowed_vlans : Option (List ℕ)
  pub max_devices : ℕ

abbrev pub new_voucher : Text → ℕ → CreateOptions → DateTime → Voucher
new_voucher code duration options now = record {
  code = code;
  created_utc = now;
  duration_minutes = duration;
  up_kbps = options.up_kbps;
  down_kbps = options.down_kbps;
  status = unused;
  booking_ref = options.booking_ref;
  redeemed_count = 0;
  last_redeemed_utc = none;
  activated_utc = none;
  allowed_vlans = options.allowed_vlans;
  max_devices = options.max_devices;
  status_changed_utc = none;
}

-- Milliseconds; `none` past the end of the list.
abbrev pub backoff_ms : ℕ → Option ℕ
backoff_ms zero = some 50
backoff_ms (suc zero) = some 100
backoff_ms (suc (suc zero)) = some 200
backoff_ms (suc (suc (suc zero))) = some 400
backoff_ms (suc (suc (suc (suc zero)))) = some 800
backoff_ms (suc (suc (suc (suc (suc _))))) = none

-- `n` characters, each the element of the alphabet that `secrets.choice` draws: `choice i` is the
-- index that it picks for position i.
unfoldable pub draw_code : (ℕ → ℕ) → ℕ → ℕ → Text
draw_code choice i zero = []
draw_code choice i (suc n) = nth alphabet (choice i) ∷ draw_code choice (i + 1) n

unfoldable pub generate_code : (ℕ → ℕ) → ℕ → Option Text
unfolding draw_code
generate_code choice length =
    if leb 4 length && leb length 24 then some (draw_code choice 0 length) else none

-- A call's result, the milliseconds that it slept, and the database.
abbrev pub CreateResult : Type 0
CreateResult = Result CreateError Voucher × List ℕ × Database

abbrev pub slept : ℕ → CreateResult → CreateResult
slept ms (r, sleeps, db) = (r, ms ∷ sleeps, db)

-- `secrets.choice` at each attempt and position is the parameter `choice`.
module _ (choice : ℕ → ℕ → ℕ) (duration : ℕ) (options : CreateOptions) (code_length max_retries : ℕ)
    (now : DateTime) where
  -- The rounds of `for attempt in range(max_retries)` that are left, and the attempt's number.
  unfoldable pub create_attempts : ℕ → ℕ → Database → CreateResult
  create_attempts zero attempt db = (err collision, [], db)
  create_attempts (suc left) attempt db = elim (generate_code (choice attempt) code_length) [
    | none ↦ (err bad_length, [], db)
    | some code ↦ elim (VoucherRepository.add (new_voucher code duration options now) db) [
      | some db' ↦ (ok (new_voucher code duration options now), [], db')
      -- the session is rolled back; `attempt < max_retries - 1`
      | none ↦ elim (ltb (attempt + 1) max_retries) [
        | true ↦ elim (backoff_ms attempt) [
          | some ms ↦ slept ms (create_attempts left (attempt + 1) db)
          | none ↦ (err index_error, [], db)
        ]
        | false ↦ (err collision, [], db)
      ]
    ]
  ]

unfoldable pub create : (ℕ → ℕ → ℕ) → ℤ → CreateOptions → ℕ → ℕ → DateTime → Database → CreateResult
unfolding create_attempts
create choice duration_minutes options code_length max_retries now db =
    elim (positive? duration_minutes) [
      | none ↦ (err bad_duration, [], db)
      | some duration ↦
          create_attempts choice duration options code_length max_retries now max_retries 0 db
    ]
