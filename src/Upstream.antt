-- ===== src/Upstream.antt =====
-- The upstream client's policy and retries, src/outbound/client.rs. The request and the pause are
-- arguments, functions of a state of the world that the program does not own.
pub mod Retries
use Prim.Native.Nat.{ℕ, zero, suc, ◌+◌}
use prelay_server.Base.{Option, none, some, Bool, true, false, if◌then◌else◌, ltb, ◌&&◌}
use prelay_server.Errors.{AppError, is_retryable_upstream}

-- `Result<T, AppError>`.
pub data Outcome (T : Type 0) : Type 0 where
  ok : T → Outcome T
  err : AppError → Outcome T

-- Times are nanoseconds.
pub record UpstreamPolicy : Type 0 where
  pub connect_timeout : ℕ
  pub read_timeout : ℕ
  pub max_retries : ℕ
  pub retry_backoff : ℕ
  pub max_candidates : Option ℕ

-- `UpstreamPolicy::default()`.
abbrev pub default_policy : UpstreamPolicy
default_policy = record {
  connect_timeout = 10000000000;
  read_timeout = 300000000000;
  max_retries = 0;
  retry_backoff = 250000000;
  max_candidates = none;
}

module _ {T W : Type 0} (sleep : ℕ → W → W) (policy : UpstreamPolicy) where
  -- The `for` loop over `attempt`, with the rounds that are left; `none` is the `unreachable!`
  -- behind the loop.
  pub retry_loop : (W → Outcome T × W) → ℕ → ℕ → W → Option (Outcome T × W)
  retry_loop request zero attempt w = none
  retry_loop request (suc rounds) attempt w =
      let (outcome, w') = request w in
      elim outcome [
        | ok response ↦ some (ok response, w')
        | err error ↦
            let again = retry_loop request rounds (attempt + 1) (sleep policy.retry_backoff w') in
            if is_retryable_upstream error && ltb attempt policy.max_retries
            then again
            else some (err error, w')
      ]

  unfoldable pub retry_with_policy : (W → Outcome T × W) → W → Option (Outcome T × W)
  unfolding retry_loop
  retry_with_policy request w = retry_loop request (policy.max_retries + 1) 0 w
