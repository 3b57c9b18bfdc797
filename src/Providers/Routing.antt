-- ===== src/Providers/Routing.antt =====
-- Which upstream protocol serves a request, and that the capabilities' two views agree.
use prelay_server.Base.{
  ◌≡◌, ◌⊎◌, inl, inr, Option-cases, ◌&&◌, refl, String, Option, none, some, List, [], ◌∷◌, true,
  false, ◌||◌, str_eq, eq_iff, map, arith, is_empty,
}
use prelay_server.Catalog.{ProviderCatalog}
use prelay_server.Providers.{
  UpstreamProtocol, ProviderSpec, ProviderCapabilityOverrides, image_generations,
  protocol_supports_downstream, supports_downstream, upstream_for_downstream, any_supports,
  contains_protocol, protocol_eq, from_capability_value, capability_value,
  resolved_upstream_protocols, from_provider_type_and_overrides, type_spec,
  provider_supported_protocols,
}

-- The protocols of a list that serve a downstream protocol.
any_supports-contains :
    (d : String) (ps : List UpstreamProtocol)
    → any_supports ps d ≡ (
        (protocol_supports_downstream UpstreamProtocol.responses d
          && contains_protocol UpstreamProtocol.responses ps)
        || ((protocol_supports_downstream UpstreamProtocol.chat_completions d
              && contains_protocol UpstreamProtocol.chat_completions ps)
            || (protocol_supports_downstream image_generations d
                && contains_protocol image_generations ps)))
unfolding any_supports contains_protocol protocol_eq
any_supports-contains d [] = ground arith
any_supports-contains d (p ∷ ps) = ground (arith, any_supports-contains d ps)

str_eq_comm : (s t : String) → str_eq s t ≡ str_eq t s
str_eq_comm s t = ground (arith, eq_iff s t, eq_iff t s)

-- What each protocol serves, by the tests that the preference makes.
protocol_tests :
    (d : String)
    → (protocol_supports_downstream UpstreamProtocol.responses d ≡ str_eq d "responses")
      × (protocol_supports_downstream UpstreamProtocol.chat_completions d
          ≡ (str_eq d "responses" || str_eq d "chat_completions"))
      × (protocol_supports_downstream image_generations d ≡ str_eq d "images_generations")
unfolding protocol_supports_downstream
protocol_tests d =
    rw
      (
        ← str_eq_comm "responses" d,
        ← str_eq_comm "chat_completions" d,
        ← str_eq_comm "images_generations" d,
      )
      (ground arith, ground arith, ground arith)

-- The names of the three protocols differ.
names_differ :
    (d : String)
    → (str_eq d "responses" ≡ true
        → (str_eq d "chat_completions" ≡ false) × (str_eq d "images_generations" ≡ false))
      × (str_eq d "chat_completions" ≡ true → str_eq d "images_generations" ≡ false)
names_differ d = (
  λ h. let e = (eq_iff d "responses").0 h in rw e (refl, refl),
  λ h. let e = (eq_iff d "chat_completions").0 h in rw e refl,
)

-- A request is routed to a protocol exactly when the provider supports its own protocol, and then
-- to one that the provider has and that serves the request.
pub upstream_for_downstream_lem :
    (spec : ProviderSpec) (d : String)
    → ((upstream_for_downstream spec d ≡ none) × (supports_downstream spec d ≡ false))
      ⊎ ((p : UpstreamProtocol) × (upstream_for_downstream spec d ≡ some p)
          × (supports_downstream spec d ≡ true)
          × (contains_protocol p spec.supported_protocols ≡ true)
          × (protocol_supports_downstream p d ≡ true))
unfolding upstream_for_downstream supports_downstream
upstream_for_downstream_lem spec d =
    let tests = protocol_tests d in
    let any = any_supports-contains d spec.supported_protocols in
    let differ = names_differ d in
    elim (Option-cases (upstream_for_downstream spec d)) [
      | inl h ↦ inl (h, ground (arith, tests, any, differ))
      | inr (p, h) ↦ inr (
        p,
        h,
        ground (arith, tests, any, differ),
        ground arith,
        ground (arith, tests, any, differ),
      )
    ]

-- The names of the protocols read back.
from_capability_value-capability_value :
    (p : UpstreamProtocol) → from_capability_value (capability_value p) ≡ some p
unfolding from_capability_value capability_value
from_capability_value-capability_value UpstreamProtocol.responses = refl
from_capability_value-capability_value UpstreamProtocol.chat_completions = refl
from_capability_value-capability_value image_generations = refl

read_back :
    (ps : List UpstreamProtocol) → map from_capability_value (map capability_value ps) ≡ map some ps
read_back [] = refl
read_back (p ∷ ps) = simp (read_back ps, from_capability_value-capability_value)

supported-nonempty :
    (t : String) (p : UpstreamProtocol) → is_empty (provider_supported_protocols t p) ≡ false
unfolding provider_supported_protocols
supported-nonempty t p = ground arith

type_spec-nonempty : (t : String) → is_empty (type_spec t).supported_protocols ≡ false
unfolding type_spec
type_spec-nonempty t = ground (
  arith,
  supported-nonempty t UpstreamProtocol.responses,
  supported-nonempty t UpstreamProtocol.chat_completions,
)

-- The protocol names of a provider type, which the management views show, read back as the
-- protocols that requests are routed by, whatever the provider's own overrides are; there is always
-- one.
pub resolved_upstream_protocols_lem :
    (catalog : Option ProviderCatalog) (provider_type : String)
    (overrides : ProviderCapabilityOverrides)
    → let spec = from_provider_type_and_overrides catalog provider_type overrides in
      (map from_capability_value (resolved_upstream_protocols catalog provider_type)
        ≡ map some spec.supported_protocols)
      × (is_empty spec.supported_protocols ≡ false)
unfolding resolved_upstream_protocols from_provider_type_and_overrides
resolved_upstream_protocols_lem catalog provider_type overrides =
    (read_back _, ground (arith, type_spec-nonempty provider_type))
