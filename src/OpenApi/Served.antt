-- ===== src/OpenApi/Served.antt =====
-- The loop of addon/src/captive_portal/controllers/tp_omada/openapi_client.py ends.
use homeassistant_captive_po.Base.{
  ℕ, zero, suc, ◌+◌, ◌-◌, ◌≤◌, ◌≡◌, ◌≢◌, ◌⊎◌, inl, inr, Text, Bool, true, false, ltb, Option, some,
  [], ◌∷◌, ◌++◌, Result, err, ℤ, refl, ap, sym, subst, ◌∙◌, arith, if◌then◌else◌, Bool-cases,
}
use homeassistant_captive_po.OpenApi.{
  TokenReply, Reply, Failure, request_error, World, backoff, Next, ends, again, request_once,
  handled, request_from, request,
}
use homeassistant_captive_po.OpenApi.Retries.{
  waits, append_nil, append_assoc, is_raised, IsHandled, request_once-IsOnce, handled-IsHandled,
}

-- The tries that are left from an attempt on.
abbrev pub tries_left : ℕ → Bool → ℕ
tries_left attempt auth_retried = (4 - attempt) + (if auth_retried then 0 else 1)

module _ {S : Type 0} where
  -- A call sent as many requests as it had tries at most, waited the first seconds of the back-off, all
  -- of them where it gives up, and let no connection error through.
  pub record IsServed (attempt : ℕ) (auth_retried : Bool) (w : World S) (r : Result Failure Text)
      (w' : World S) : Type 0 where
    pub sends : w'.requests ≤ w.requests + tries_left attempt auth_retried
    pub count : ℕ
    pub bound : attempt + count ≤ 3
    pub waited : w'.sleeps ≡ w.sleeps ++ waits attempt count
    pub caught : r ≢ err request_error
    pub given_up : (is_raised r ≡ false) ⊎ (attempt + count ≡ 3)

module _ {S : Type 0} (post_token : Option Text → S → TokenReply × S) (send : Text → S → Reply × S)
    (clock : S → ℕ) (int_of : Text → Option ℤ) (margin : ℕ) where
  unfoldable pub after :
      (attempt : ℕ) (auth_retried : Bool) (fuel : ℕ)
      → Next post_token send clock int_of margin
      → World S
      → Option (Result Failure Text × World S)
  after attempt auth_retried fuel (ends r) w = some (r, w)
  after attempt auth_retried fuel (again a b) w =
      request_from post_token send clock int_of margin fuel a b w

  pub request_from-step :
      (fuel attempt : ℕ) (auth_retried : Bool) (w : World S)
      → attempt ≤ 3
      → request_from post_token send clock int_of margin (suc fuel) attempt auth_retried w
        ≡ after attempt auth_retried fuel
            (handled post_token send clock int_of margin attempt auth_retried
              (request_once post_token send clock int_of margin w)).0
            (handled post_token send clock int_of margin attempt auth_retried
              (request_once post_token send clock int_of margin w)).1
  unfolding request_from after
  request_from-step fuel attempt auth_retried w le =
      let lt : ltb attempt 4 ≡ true = ground (arith, le) in
      rw lt (
        go (
          handled post_token send clock int_of margin attempt auth_retried
            (request_once post_token send clock int_of margin w)))
    where
      go :
          (p : Next post_token send clock int_of margin × World S)
          → (elim p.0 [
            | ends r ↦ some (r, p.1)
            | again a b ↦ request_from post_token send clock int_of margin fuel a b p.1
          ])
            ≡ after attempt auth_retried fuel p.0 p.1
      go (ends r, v) = refl
      go (again a b, v) = refl

  Serves : ℕ → Bool → World S → Option (Result Failure Text × World S) → Type 0
  Serves attempt auth_retried w o =
      (r : Result Failure Text) × (w' : World S) × (o ≡ some (r, w'))
      × IsServed attempt auth_retried w r w'

  -- The last try ends, and each further one has less left.
  after-Serves :
      (fuel attempt : ℕ) (auth_retried : Bool) (w : World S)
      → attempt ≤ 3
      → tries_left attempt auth_retried ≤ suc fuel
      → ((a : ℕ) (b : Bool) (v : World S)
          → a ≤ 3
          → tries_left a b ≤ fuel
          → Serves a b v (request_from post_token send clock int_of margin fuel a b v))
      → (next : Next post_token send clock int_of margin) (v : World S)
      → IsHandled post_token send clock int_of margin w attempt auth_retried (next, v)
      → Serves attempt auth_retried w (after attempt auth_retried fuel next v)
  unfolding after Serves
  after-Serves fuel attempt auth_retried w le tries ih next v
        (sends, inl (r, e, same, caught, given)) =
      rw e (
        r,
        v,
        refl,
        record {
          sends = elim (Bool-cases auth_retried) [
            | inl b ↦ rw b (omega (arith, sends, le))
            | inr b ↦ rw b (omega (arith, sends, le))
          ];
          count = 0;
          bound = omega (arith, le);
          waited = same ∙ sym (append_nil w.sleeps);
          caught = caught;
          given_up = elim given [ inl g ↦ inl g | inr g ↦ inr (omega (arith, g)) ];
        },
      )
  after-Serves fuel attempt auth_retried w le tries ih next v (sends, inr (inl (e, first, same))) =
      rw e (
        let tries' : tries_left attempt false ≤ suc fuel =
          subst (λ b. tries_left attempt b ≤ suc fuel) first tries in
        let less : tries_left attempt true ≤ fuel = omega (arith, tries') in
        let (r, w', q, s) = ih attempt true v le less in
        let sent : w'.requests ≤ v.requests + ((4 - attempt) + 0) = s.sends in
        let within : w'.requests ≤ w.requests + ((4 - attempt) + 1) = omega (arith, sent, sends) in
        (
          r,
          w',
          q,
          record {
            sends = subst (λ b. w'.requests ≤ w.requests + tries_left attempt b) (sym first) within;
            count = s.count;
            bound = s.bound;
            waited = s.waited ∙ ap (λ l. l ++ waits attempt s.count) same;
            caught = s.caught;
            given_up = s.given_up;
          },
        ))
  after-Serves fuel attempt auth_retried w le tries ih next v (sends, inr (inr (e, more, slept))) =
      rw e (
        let few : attempt ≤ 2 = ground (arith, le, more) in
        let (r, w', q, s) =
          ih (attempt + 1) auth_retried v (omega (arith, few)) (omega (arith, few, tries)) in
        (
          r,
          w',
          q,
          record {
            sends = omega (arith, s.sends, sends, few);
            count = suc s.count;
            bound = omega (arith, s.bound);
            waited =
                s.waited
                ∙ ap (λ l. l ++ waits (attempt + 1) s.count) slept
                ∙ append_assoc w.sleeps (backoff attempt ∷ []) (waits (attempt + 1) s.count);
            caught = s.caught;
            given_up = elim s.given_up [ inl g ↦ inl g | inr g ↦ inr (omega (arith, g)) ];
          },
        ))

  request_from-Serves :
      (fuel attempt : ℕ) (auth_retried : Bool) (w : World S)
      → attempt ≤ 3
      → tries_left attempt auth_retried ≤ fuel
      → Serves attempt auth_retried w
          (request_from post_token send clock int_of margin fuel attempt auth_retried w)
  unfolding Serves
  request_from-Serves zero attempt auth_retried w le tries = absurd (omega (arith, le, tries))
  request_from-Serves (suc fuel) attempt auth_retried w le tries =
      let once = request_once post_token send clock int_of margin w in
      let next = handled post_token send clock int_of margin attempt auth_retried once in
      rw (request_from-step fuel attempt auth_retried w le) (
        after-Serves fuel attempt auth_retried w le tries
          (λ a b v le' tries'. request_from-Serves fuel a b v le' tries') next.0 next.1
          (handled-IsHandled post_token send clock int_of margin w attempt auth_retried once.0
            once.1 (request_once-IsOnce post_token send clock int_of margin w)))

  -- A request ends, whatever the controller answers: it sends at most five authenticated requests, four and one more after a
  -- refused token, waits 1, 2 and 4 seconds or the first of these, gives up as exhausted only after all
  -- of them, and never raises a connection error.
  pub request-IsServed :
      (w : World S)
      → (r : Result Failure Text) × (w' : World S) × (request post_token send clock int_of margin w
          ≡ some (r, w'))
        × IsServed 0 false w r w'
  unfolding request Serves
  request-IsServed w = request_from-Serves 5 0 false w (omega arith) (omega arith)
