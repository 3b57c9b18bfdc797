-- ===== src/Candidates.antt =====
-- The candidate loop of a request, src/inbound/v1/candidates.rs. A state is the shared cooldown
-- table with the world around it, so that an attempt, a pause or a reading of the clock may come
-- with changes that other requests make to the table or the time that passes.
pub mod Order
pub mod Outcomes
use prelay_server.Base.{
  ℕ, String, Option, none, some, List, [], ◌∷◌, ◌++◌, Bool, true, false, if◌then◌else◌, take,
}
use prelay_server.Base.Assoc.{get}
use prelay_server.Errors.{AppError, is_failoverable_upstream}
use prelay_server.Failover.{FailoverRegistry, rest, clear, resting, rest_base}
use prelay_server.Providers.{ProviderConfig, UpstreamProtocol}
use prelay_server.Upstream.{Outcome, ok, err, UpstreamPolicy, retry_with_policy}

pub record ResolvedEndpointProvider : Type 0 where
  pub provider : ProviderConfig
  pub model_upstream : String
  pub upstream_protocol : UpstreamProtocol

abbrev unwrap_error : Option AppError → AppError → AppError
unwrap_error none e = e
unwrap_error (some e) _ = e

-- `take(max_candidates.unwrap_or(usize::MAX))`.
unfoldable pub limit {ℓ} : {A : Type ℓ} → Option ℕ → List A → List A
limit none xs = xs
limit (some n) xs = take n xs

-- `now` reads the clock.
module _ {W : Type 0} (now : W → ℕ × W) where
  -- `failover.resting(id)`: the clock is read only where there is an entry.
  pub resting_now : String → FailoverRegistry × W → Bool × (FailoverRegistry × W)
  resting_now id (rests, w) = elim (get id rests) [
    | none ↦ (false, (rests, w))
    | some entry ↦ let (t, w') = now w in let (rests', b) = resting id t rests in (b, (rests', w'))
  ]

  -- The ready and the resting ones, each in their order.
  pub partition_candidates : List ResolvedEndpointProvider → FailoverRegistry × W → record {
    ready : List ResolvedEndpointProvider;
    rested : List ResolvedEndpointProvider;
    after : FailoverRegistry × W;
  }
  partition_candidates [] s = record { ready = []; rested = []; after = s }
  partition_candidates (c ∷ cs) s =
      let (b, s') = resting_now c.provider.id s in
      let parts = partition_candidates cs s' in
      record {
        ready = if b then parts.ready else c ∷ parts.ready;
        rested = if b then c ∷ parts.rested else parts.rested;
        after = parts.after;
      }

  unfoldable pub order_candidates :
      List ResolvedEndpointProvider
      → FailoverRegistry × W
      → List ResolvedEndpointProvider × (FailoverRegistry × W)
  unfolding partition_candidates resting_now
  order_candidates candidates s =
      let parts = partition_candidates candidates s in (parts.ready ++ parts.rested, parts.after)

  -- A candidate that failed over rests by the kind of its error.
  pub rest_failed : String → AppError → FailoverRegistry × W → FailoverRegistry × W
  rest_failed id error (rests, w) = elim (rest_base error) [
    | none ↦ (rests, w)
    | some base ↦ let (t, w') = now w in ((rest id base t rests).0, w')
  ]

-- `attempt` sends the request to a candidate.
module _ {T W : Type 0} (now : W → ℕ × W) (sleep : ℕ → FailoverRegistry × W → FailoverRegistry × W)
    (policy : UpstreamPolicy)
    (attempt : ResolvedEndpointProvider → FailoverRegistry × W → Outcome T × (FailoverRegistry × W))
    (no_candidate_error : AppError) where
  -- The loop; `none` is a panic of the retries.
  pub candidate_loop :
      List ResolvedEndpointProvider
      → Option AppError
      → FailoverRegistry × W
      → Option (Outcome (T × String) × (FailoverRegistry × W))
  candidate_loop [] last_upstream_error s =
      some (err (unwrap_error last_upstream_error no_candidate_error), s)
  candidate_loop (c ∷ cs) last_upstream_error s =
      elim (retry_with_policy sleep policy (attempt c) s) [
        | none ↦ none
        | some (ok response, (rests, w)) ↦
            some (ok (response, c.provider.id), (clear c.provider.id rests, w))
        | some (err error, s') ↦
            let next = candidate_loop cs (some error) (rest_failed now c.provider.id error s') in
            if is_failoverable_upstream error then next else some (err error, s')
      ]

  unfoldable pub run_endpoint_model_candidates :
      List ResolvedEndpointProvider
      → FailoverRegistry × W
      → Option (Outcome (T × String) × (FailoverRegistry × W))
  unfolding candidate_loop rest_failed
  run_endpoint_model_candidates candidates s =
      let (ordered, s') = order_candidates now candidates s in
      candidate_loop (limit policy.max_candidates ordered) none s'
