-- ===== src/OpenApi/Runs.antt =====
-- What the loop of addon/src/captive_portal/controllers/tp_omada/openapi_client.py does after each try.
use homeassistant_captive_po.Base.{
  ℕ, zero, suc, ◌+◌, ◌≤◌, ◌≡◌, ◌≢◌, ◌⊎◌, Text, Bool, true, false, not, ◌&&◌, ◌||◌, ◌==◌, Option,
  some, [], ◌∷◌, ◌++◌, Result, ok, err, ℤ, any_where,
}
use homeassistant_captive_po.OpenApi.{
  TokenReply, Reply, Failure, client_error, request_error, retry_exhausted, World, Next,
  request_once, refresh_after_auth_failure, request_from,
}
use homeassistant_captive_po.OpenApi.Served.{after}

-- A try that is worth repeating after a wait.
abbrev pub passes : Failure → Bool
passes request_error = true
passes (client_error (some s)) = any_where (λ t. s == t) (429 ∷ 500 ∷ 502 ∷ 503 ∷ 504 ∷ [])
passes _ = false

-- A try whose token was refused.
abbrev pub is_refused : Failure → Bool
is_refused (client_error (some s)) = s == 401 || s == 403
is_refused _ = false

-- The seconds of the first, the second and the third wait.
abbrev pub wait_of : ℕ → ℕ
wait_of zero = 1
wait_of (suc zero) = 2
wait_of _ = 4

abbrev pub Outcome : Type 0 → Type 0
Outcome S = Result Failure Text × World S

module _ {S : Type 0} where
  abbrev pub IsOutcome : Outcome S → Result Failure Text → World S → Type 0
  IsOutcome (r, w') answer v = (r ≡ answer) × (w' ≡ v)

  -- The new token is had, or its failure is the outcome.
  abbrev pub Renews : (World S → Type 0) → Result {0, 0} Failure Unit × World S → Outcome S → Type 0
  Renews next (ok _, v) out = next v
  Renews next (err f, v) out = IsOutcome out (err f) v

  -- What follows a try that ended in a state: `next` is what follows from an attempt on.
  abbrev pub Follows :
      (ℕ → Bool → World S → Type 0)
      → Result {0, 0} Failure Unit × World S
      → ℕ
      → Bool
      → Result Failure Text
      → World S
      → Outcome S
      → Type 0
  Follows next renewal attempt retried (ok content) v out = IsOutcome out (ok content) v
  Follows next renewal attempt retried (err e) v out =
      (((is_refused e && not retried) ≡ true) × Renews (λ u. next attempt true u) renewal out)
      ⊎ (((is_refused e && not retried) ≡ false)
          × (((passes e ≡ true)
                × (attempt ≢ 3)
                × next (attempt + 1) retried
                    (record v { sleeps = v.sleeps ++ wait_of attempt ∷ [] }))
              ⊎ (((passes e ≡ true) × (attempt ≡ 3) × IsOutcome out (err retry_exhausted) v)
                  ⊎ ((passes e ≡ false) × IsOutcome out (err e) v))))

module _ {S : Type 0} (post_token : Option Text → S → TokenReply × S) (send : Text → S → Reply × S)
    (clock : S → ℕ) (int_of : Text → Option ℤ) (margin : ℕ) where
  -- A run of `n` tries at most: each try, and what follows it.
  abbrev pub Runs : ℕ → ℕ → Bool → World S → Outcome S → Type 0
  Runs zero attempt retried w out = ⊥
  Runs (suc n) attempt retried w out =
      (r : Result Failure Text) × (v : World S) × (request_once post_token send clock int_of margin
          w
        ≡ (r, v))
      × Follows (λ a b u. Runs n a b u out)
          (refresh_after_auth_failure post_token send clock int_of margin v) attempt retried r v out

  module _ (n : ℕ)
      (ih : (a : ℕ) (b : Bool) (u : World S) (out : Outcome S)
        → a ≤ 3
        → request_from post_token send clock int_of margin n a b u ≡ some out
        → Runs n a b u out)
      (attempt : ℕ) (retried : Bool) (le : attempt ≤ 3) where
    -- What the try's handling goes on with.
    abbrev GoesOn : Next post_token send clock int_of margin × World S → Outcome S → Type 0
    GoesOn p out = after post_token send clock int_of margin attempt retried n p.0 p.1 ≡ some out

    abbrev After : Result Failure Text → World S → Outcome S → Type 0
    After r v out =
        Follows (λ a b u. Runs n a b u out)
          (refresh_after_auth_failure post_token send clock int_of margin v) attempt retried r v out
