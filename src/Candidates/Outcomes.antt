-- ===== src/Candidates/Outcomes.antt =====
-- What a request's run over its candidates ends with.
use prelay_server.Base.{
  ℕ, ◌≡◌, refl, ap, Bool-cases, inl, inr, String, Option, none, some, List, [], ◌∷◌, ◌++◌, true,
  false,
}
use prelay_server.Errors.{AppError, is_failoverable_upstream}
use prelay_server.Failover.{FailoverRegistry, clear}
use prelay_server.Upstream.{Outcome, ok, err, UpstreamPolicy, retry_with_policy}
use prelay_server.Upstream.Retries.{retry_with_policy_ends}
use prelay_server.Candidates.{
  ResolvedEndpointProvider, order_candidates, rest_failed, candidate_loop, limit, unwrap_error,
  run_endpoint_model_candidates,
}

abbrev pub State : Type 0 → Type 0
State W = FailoverRegistry × W

module _ {T W : Type 0} (now : W → ℕ × W) (sleep : ℕ → FailoverRegistry × W → FailoverRegistry × W)
    (policy : UpstreamPolicy)
    (attempt : ResolvedEndpointProvider → FailoverRegistry × W → Outcome T × (FailoverRegistry × W))
    (no_candidate_error : AppError) where
  abbrev tried : ResolvedEndpointProvider → State W → Option (Outcome T × State W)
  tried c s = retry_with_policy sleep policy (attempt c) s

  -- `Passed cs s last s' last'`: each candidate of cs in turn failed in a way that moves on, and
  -- was rested; the last such error before was `last`, and is `last'` after.
  pub data Passed
      : List ResolvedEndpointProvider
        → State W
        → Option AppError
        → State W
        → Option AppError
        → Type 0 where
    stop : {s : State W} {e : Option AppError} → Passed [] s e s e
    pass :
        {c : ResolvedEndpointProvider} {cs : List ResolvedEndpointProvider} {s s' s'' : State W}
        {last last' : Option AppError} {error : AppError}
        → tried c s ≡ some (err error, s')
        → is_failoverable_upstream error ≡ true
        → Passed cs (rest_failed now c.provider.id error s') (some error) s'' last'
        → Passed (c ∷ cs) s last s'' last'

  -- The three ways in which a run over candidates ends.
  pub data Ending (cs : List ResolvedEndpointProvider) (s : State W) (last : Option AppError)
      : Option (Outcome (T × String) × State W) → Type 0 where
    answered :
        (before after : List ResolvedEndpointProvider) (c : ResolvedEndpointProvider) (s' : State W)
        (last' : Option AppError) (response : T) (rests : FailoverRegistry) (w : W)
        → cs ≡ before ++ c ∷ after
        → Passed before s last s' last'
        → tried c s' ≡ some (ok response, (rests, w))
        → Ending cs s last (some (ok (response, c.provider.id), (clear c.provider.id rests, w)))
    refused :
        (before after : List ResolvedEndpointProvider) (c : ResolvedEndpointProvider)
        (s' s'' : State W) (last' : Option AppError) (error : AppError)
        → cs ≡ before ++ c ∷ after
        → Passed before s last s' last'
        → tried c s' ≡ some (err error, s'')
        → is_failoverable_upstream error ≡ false
        → Ending cs s last (some (err error, s''))
    exhausted :
        (s' : State W) (last' : Option AppError)
        → Passed cs s last s' last'
        → Ending cs s last (some (err (unwrap_error last' no_candidate_error), s'))

  extend :
      (c : ResolvedEndpointProvider) (cs : List ResolvedEndpointProvider) (s s' : State W)
      (last : Option AppError) (error : AppError) {result : Option (Outcome (T × String) × State W)}
      → tried c s ≡ some (err error, s')
      → is_failoverable_upstream error ≡ true
      → Ending cs (rest_failed now c.provider.id error s') (some error) result
      → Ending (c ∷ cs) s last result
  extend c cs s s' last error e f (answered before after d t last' response rests w split run got) =
      answered (c ∷ before) after d t last' response rests w (ap (◌∷◌ c) split) (pass e f run) got
  extend c cs s s' last error e f (refused before after d t t' last' error' split run got no_more) =
      refused (c ∷ before) after d t t' last' error' (ap (◌∷◌ c) split) (pass e f run) got no_more
  extend c cs s s' last error e f (exhausted t last' run) = exhausted t last' (pass e f run)

  abbrev loop :
      List ResolvedEndpointProvider
      → Option AppError
      → State W
      → Option (Outcome (T × String) × State W)
  loop = candidate_loop now sleep policy attempt no_candidate_error

  -- One candidate's outcome ends the loop, or the candidates after it do.
  candidate_ends :
      (c : ResolvedEndpointProvider) (cs : List ResolvedEndpointProvider) (last : Option AppError)
      (s : State W)
      → ((error : AppError) (s' : State W) → Ending cs s' (some error) (loop cs (some error) s'))
      → (answer : Outcome T × State W) → tried c s ≡ some answer
      → Ending (c ∷ cs) s last (loop (c ∷ cs) last s)
  unfolding candidate_loop
  candidate_ends c cs last s rest (ok response, (rests, w)) e =
      rw (e, candidate_loop) (answered [] cs c s last response rests w refl stop e)
  candidate_ends c cs last s rest (err error, s') e =
      elim (Bool-cases (is_failoverable_upstream error)) [
        | inl f ↦
            rw (e, f, candidate_loop)
              (extend c cs s s' last error e f
                (rest error (rest_failed now c.provider.id error s')))
        | inr f ↦ rw (e, f, candidate_loop) (refused [] cs c s s' last error refl stop e f)
      ]

  candidate_loop-Ending :
      (cs : List ResolvedEndpointProvider) (last : Option AppError) (s : State W)
      → Ending cs s last (loop cs last s)
  candidate_loop-Ending [] last s = unfold candidate_loop in exhausted s last stop
  candidate_loop-Ending (c ∷ cs) last s =
      let (_, outcome, s', e, _, _, _) = retry_with_policy_ends sleep policy (attempt c) s in
      candidate_ends c cs last s (λ error t. candidate_loop-Ending cs (some error) t) (outcome, s')
        e

  -- A run over a request's candidates never panics. It answers with the first candidate in the
  -- order that succeeds, and clears that candidate's failures; or it stops at the first error that
  -- is not the upstream's; or, when each of the candidates failed over, it ends with the last of
  -- their errors, or with the given one if there was no candidate.
  pub run_endpoint_model_candidates-Ending :
      (cs : List ResolvedEndpointProvider) (s : State W)
      → let (ordered, s') = order_candidates now cs s in
        Ending
          (limit policy.max_candidates ordered)
          s'
          none
          (run_endpoint_model_candidates now sleep policy attempt no_candidate_error cs s)
  unfolding run_endpoint_model_candidates
  run_endpoint_model_candidates-Ending cs s =
      let (ordered, s') = order_candidates now cs s in
      candidate_loop-Ending (limit policy.max_candidates ordered) none s'
