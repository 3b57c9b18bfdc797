-- ===== src/Upstream/Retries.antt =====
-- The retries as a relation between worlds, and that the loop runs one of them and ends.
use Prim.Native.Nat.{ℕ, zero, suc, ◌+◌, ◌≤◌, ◌<◌}
use native.Mathlib.Numerals.{add-one}
use prelay_server.Base.{
  ◌≡◌, ◌⊎◌, refl, Option, some, Bool, true, false, arith, ltb, Bool-cases, inl, inr, ◌&&◌,
}
use prelay_server.Errors.{AppError, is_retryable_upstream}
use prelay_server.Upstream.{Outcome, ok, err, UpstreamPolicy, retry_loop, retry_with_policy}

abbrev pub can_retry : {T : Type 0} → Outcome T → Bool
can_retry (ok response) = false
can_retry (err error) = is_retryable_upstream error

module _ {T W : Type 0} (sleep : ℕ → W → W) (policy : UpstreamPolicy)
    (request : W → Outcome T × W) where
  -- `Retried n w r w'`: n requests, the first at w, each but the last with a retryable error and
  -- followed by the pause; the last gives r and leaves w'.
  pub data Retried : ℕ → W → Outcome T → W → Type 0 where
    last : {w w' : W} {r : Outcome T} → request w ≡ (r, w') → Retried 1 w r w'
    again :
        {n : ℕ} {w w' w'' : W} {r : Outcome T} {error : AppError}
        → request w ≡ (err error, w')
        → is_retryable_upstream error ≡ true
        → Retried n (sleep policy.retry_backoff w') r w''
        → Retried (suc n) w r w''

  abbrev pub Ended : Option (Outcome T × W) → ℕ → W → Type 0
  Ended result bound w =
      (n : ℕ) × (r : Outcome T) × (w' : W) × (result ≡ some (r, w'))
      × Retried n w r w'
      × (n ≤ bound)
      × ((can_retry r ≡ false) ⊎ (n ≡ bound))

  -- One round: its answer ends the loop, or the rounds after it do.
  round_ends :
      (rounds attempt : ℕ) (w : W)
      → attempt + rounds ≡ policy.max_retries
      → ((w' : W)
          → 0 < rounds
          → Ended (retry_loop sleep policy request rounds (attempt + 1) w') rounds w')
      → (answer : Outcome T × W) → request w ≡ answer
      → Ended (retry_loop sleep policy request (suc rounds) attempt w) (suc rounds) w
  unfolding retry_loop
  round_ends rounds attempt w h rest (ok response, w') e =
      (1, ok response, w', ground arith, last e, omega arith, inl refl)
  round_ends rounds attempt w h rest (err error, w') e =
      elim (Bool-cases (is_retryable_upstream error && ltb attempt policy.max_retries)) [
        | inl more ↦
            let (n, r, w'', found, run, few, all) =
              rest (sleep policy.retry_backoff w') (ground arith) in
            (
              suc n,
              r,
              w'',
              ground arith,
              again e (ground arith) run,
              omega arith,
              ground (arith, all),
            )
        | inr stop ↦ (1, err error, w', ground arith, last e, omega arith, ground arith)
      ]

  retry_loop_ends :
      (rounds attempt : ℕ) (w : W)
      → attempt + rounds ≡ policy.max_retries
      → Ended (retry_loop sleep policy request (suc rounds) attempt w) (suc rounds) w
  retry_loop_ends zero attempt w h =
      round_ends zero attempt w h (λ w' p. elim p [ ]) (request w) refl
  retry_loop_ends (suc rounds) attempt w h =
      round_ends (suc rounds) attempt w h
        (λ w' _. retry_loop_ends rounds (attempt + 1) w' (omega arith)) (request w) refl

  -- The retries always end with an outcome, never at the `unreachable!`: after at most
  -- `max_retries + 1` requests, each but the last a retryable error, and with a retryable error
  -- only after all of them.
  pub retry_with_policy_ends :
      (w : W) → Ended (retry_with_policy sleep policy request w) (policy.max_retries + 1) w
  unfolding retry_with_policy
  retry_with_policy_ends w = rw add-one (retry_loop_ends policy.max_retries 0 w (omega arith))
