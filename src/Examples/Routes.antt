-- ===== src/Examples/Routes.antt =====
-- Cooldowns, retries and candidates at concrete input.
use prelay_server.Base.{
  ℕ, ◌+◌, ◌≡◌, ◌⊎◌, min, refl, String, Option, none, some, List, [], ◌∷◌, true, false,
  if◌then◌else◌, ltb, is_empty, map, length,
}
use prelay_server.Base.Assoc.{get, insert}
use prelay_server.Errors.{upstream, bad_request}
use prelay_server.Failover.{FailoverRegistry, rest, rest_duration, next_consecutive, nanos, u32_max}
use prelay_server.Failover.Backoff.{is_resting, rest_all, done, rest-rest_all}
use prelay_server.Catalog.{ProviderCatalog}
use prelay_server.Providers.{
  ProviderConfig, UpstreamProtocol, ProviderSpec, limited, upstream_for_downstream,
  supports_downstream, contains_protocol, protocol_supports_downstream, default_overrides,
  from_provider_type_and_overrides, from_capability_value, resolved_upstream_protocols,
}
use prelay_server.Providers.Routing.{upstream_for_downstream_lem, resolved_upstream_protocols_lem}
use prelay_server.Upstream.{Outcome, ok, err, UpstreamPolicy, default_policy, retry_with_policy}
use prelay_server.Upstream.Retries.{Ended, retry_with_policy_ends}
use prelay_server.Candidates.{
  ResolvedEndpointProvider, order_candidates, limit, run_endpoint_model_candidates,
}
use prelay_server.Candidates.Outcomes.{Ending, run_endpoint_model_candidates-Ending}

abbrev two_rests : FailoverRegistry
two_rests =
    ("a", record { until = 20; consecutive = 1 })
    ∷ ("b", record { until = 4; consecutive = 2 })
    ∷ []

fresh_a : is_resting "a" 1 [] ≡ false
unfolding is_resting get
fresh_a = refl

second_time : is_resting "a" 2 (rest_all "a" (nanos 60) [] (rest "a" (nanos 60) 1 []).0) ≡ true
unfolding is_resting rest_all rest rest_duration next_consecutive get insert
second_time = refl

rest-rest_all_example :
    (rest "a" (nanos 60) 2 (rest_all "a" (nanos 60) [] (rest "a" (nanos 60) 1 []).0)).1
    ≡ rest_duration (nanos 60) (min (length {A = ℕ} [] + 2) u32_max)
rest-rest_all_example = rest-rest_all "a" (nanos 60) 1 2 [] [] fresh_a done second_time

abbrev chat_spec : ProviderSpec
chat_spec = record {
  supported_protocols = UpstreamProtocol.chat_completions ∷ [];
  capabilities = limited;
}

upstream_for_downstream_lem_example :
    ((upstream_for_downstream chat_spec "responses" ≡ none)
      × (supports_downstream chat_spec "responses" ≡ false))
    ⊎ ((p : UpstreamProtocol) × (upstream_for_downstream chat_spec "responses" ≡ some p)
        × (supports_downstream chat_spec "responses" ≡ true)
        × (contains_protocol p chat_spec.supported_protocols ≡ true)
        × (protocol_supports_downstream p "responses" ≡ true))
upstream_for_downstream_lem_example = upstream_for_downstream_lem chat_spec "responses"

abbrev no_catalog : Option ProviderCatalog
no_catalog = none

resolved_upstream_protocols_lem_example :
    let spec = from_provider_type_and_overrides no_catalog "qwen" default_overrides in
    (map from_capability_value (resolved_upstream_protocols no_catalog "qwen")
      ≡ map some spec.supported_protocols)
    × (is_empty spec.supported_protocols ≡ false)
resolved_upstream_protocols_lem_example =
    resolved_upstream_protocols_lem no_catalog "qwen" default_overrides

-- A world that counts the requests, and answers the second one.
abbrev second_answers : FailoverRegistry × ℕ → Outcome String × (FailoverRegistry × ℕ)
second_answers (rests, n) =
    (if ltb n 1 then err (upstream (some 503) "busy") else ok "answer", (rests, n + 1))

abbrev no_sleep : ℕ → FailoverRegistry × ℕ → FailoverRegistry × ℕ
no_sleep duration w = w

abbrev two_retries : UpstreamPolicy
two_retries = record default_policy { max_retries = 2 }

retry_with_policy_ends_example :
    Ended no_sleep two_retries second_answers
      (retry_with_policy no_sleep two_retries second_answers ([], 0))
      (two_retries.max_retries + 1)
      ([], 0)
retry_with_policy_ends_example = retry_with_policy_ends no_sleep two_retries second_answers ([], 0)

abbrev provider : String → ProviderConfig
provider id = record {
  id = id;
  name = id;
  provider_type = "openai";
  base_url = "https://example.com";
  api_key = "k";
  token = "t";
  capabilities_json = none;
  models = "m" ∷ [];
  created_at = "now";
}

abbrev candidate : String → ResolvedEndpointProvider
candidate id = record {
  provider = provider id;
  model_upstream = "m";
  upstream_protocol = UpstreamProtocol.responses;
}

abbrev candidates : List ResolvedEndpointProvider
candidates = candidate "a" ∷ candidate "b" ∷ []

abbrev clock : ℕ → ℕ × ℕ
clock w = (5, w)

abbrev attempt_b :
    ResolvedEndpointProvider → FailoverRegistry × ℕ → Outcome String × (FailoverRegistry × ℕ)
attempt_b c s = second_answers s

run_endpoint_model_candidates-Ending_example :
    let (ordered, s') = order_candidates clock candidates (two_rests, 0) in
    Ending clock no_sleep default_policy attempt_b
      (bad_request "no candidate")
      (limit none ordered)
      s'
      none
      (run_endpoint_model_candidates clock no_sleep default_policy attempt_b
        (bad_request "no candidate")
        candidates
        (two_rests, 0))
run_endpoint_model_candidates-Ending_example =
    run_endpoint_model_candidates-Ending clock no_sleep default_policy attempt_b
      (bad_request "no candidate") candidates (two_rests, 0)
