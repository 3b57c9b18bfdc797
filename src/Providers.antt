-- ===== src/Providers.antt =====
-- Provider configurations and what they can do: src/domain/registry.rs,
-- and src/codec/providers/spec/capabilities.rs.
-- The JSON reader of the capability overrides is an argument (`parse_overrides`).
pub mod Routing
use Prim.Native.Nat.{ℕ}
use mathlib.Core.Int.{ℤ}
use prelay_server.Base.{
  String, Option, none, some, List, [], ◌∷◌, Bool, true, false, if◌then◌else◌, ◌||◌, str_eq, map,
  is_empty, contains_str, and_then, unwrap_or,
}
use prelay_server.Base.Assoc.{get}
use prelay_server.Catalog.{ProviderProtocol, images_generations, CatalogProvider, ProviderCatalog}

pub data UpstreamProtocol : Type 0 where
  responses chat_completions image_generations : UpstreamProtocol

pub record ProviderConfig : Type 0 where
  pub id : String
  pub name : String
  pub provider_type : String
  pub base_url : String
  pub api_key : String
  pub token : String
  pub capabilities_json : Option String
  pub models : List String
  pub created_at : String

pub record ProviderProtocolBaseUrls : Type 0 where
  pub responses : Option String
  pub openai : Option String
  pub images_generations : Option String

pub record ProviderCapabilityOverrides : Type 0 where
  pub upstream_protocols : Option (List String)
  pub protocol_base_urls : Option ProviderProtocolBaseUrls
  pub tool_calls : Option Bool
  pub reasoning : Option Bool
  pub tool_choice : Option Bool
  pub parallel_tool_calls : Option Bool
  pub system_messages : Option Bool
  pub structured_outputs : Option Bool
  pub streaming_usage : Option Bool
  pub max_context_tokens : Option ℤ
  pub max_output_tokens : Option ℤ

-- `ProviderCapabilityOverrides::default()`.
abbrev pub default_overrides : ProviderCapabilityOverrides
default_overrides = record {
  upstream_protocols = none;
  protocol_base_urls = none;
  tool_calls = none;
  reasoning = none;
  tool_choice = none;
  parallel_tool_calls = none;
  system_messages = none;
  structured_outputs = none;
  streaming_usage = none;
  max_context_tokens = none;
  max_output_tokens = none;
}

unfoldable pub provides_model : ProviderConfig → String → Bool
provides_model provider model_id = contains_str model_id provider.models

abbrev or_option {ℓ} : {A : Type ℓ} → Option A → Option A → Option A
or_option none d = d
or_option (some a) d = some a

unfoldable pub capability_overrides :
    (String → Option ProviderCapabilityOverrides) → ProviderConfig → ProviderCapabilityOverrides
capability_overrides parse_overrides provider =
    unwrap_or (and_then provider.capabilities_json parse_overrides) default_overrides

unfoldable pub downstream_protocols : UpstreamProtocol → List String
downstream_protocols UpstreamProtocol.responses = "responses" ∷ []
downstream_protocols UpstreamProtocol.chat_completions = "responses" ∷ "chat_completions" ∷ []
downstream_protocols image_generations = "images_generations" ∷ []

unfoldable pub protocol_supports_downstream : UpstreamProtocol → String → Bool
unfolding downstream_protocols contains_str
protocol_supports_downstream protocol downstream_protocol =
    contains_str downstream_protocol (downstream_protocols protocol)

unfoldable pub from_capability_value : String → Option UpstreamProtocol
from_capability_value value =
    if str_eq value "responses"
    then some UpstreamProtocol.responses
    else if str_eq value "openai"
    then some UpstreamProtocol.chat_completions
    else if str_eq value "images_generations"
    then some image_generations
    else none

unfoldable pub capability_value : UpstreamProtocol → String
capability_value UpstreamProtocol.responses = "responses"
capability_value UpstreamProtocol.chat_completions = "openai"
capability_value image_generations = "images_generations"

unfoldable pub from_catalog : ProviderProtocol → UpstreamProtocol
from_catalog ProviderProtocol.responses = UpstreamProtocol.responses
from_catalog ProviderProtocol.chat_completions = UpstreamProtocol.chat_completions
from_catalog images_generations = image_generations

pub record ProviderCapabilities : Type 0 where
  pub tool_calls : Bool
  pub reasoning : Bool
  pub tool_choice : Bool
  pub parallel_tool_calls : Bool
  pub system_messages : Bool
  pub structured_outputs : Bool
  pub streaming_usage : Bool
  pub max_context_tokens : Option ℤ
  pub max_output_tokens : Option ℤ

unfoldable pub limited : ProviderCapabilities
limited = record {
  tool_calls = false;
  reasoning = false;
  tool_choice = false;
  parallel_tool_calls = false;
  system_messages = true;
  structured_outputs = false;
  streaming_usage = false;
  max_context_tokens = none;
  max_output_tokens = none;
}

unfoldable pub with_overrides :
    ProviderCapabilities → ProviderCapabilityOverrides → ProviderCapabilities
with_overrides c overrides = record {
  tool_calls = unwrap_or overrides.tool_calls c.tool_calls;
  reasoning = unwrap_or overrides.reasoning c.reasoning;
  tool_choice = unwrap_or overrides.tool_choice c.tool_choice;
  parallel_tool_calls = unwrap_or overrides.parallel_tool_calls c.parallel_tool_calls;
  system_messages = unwrap_or overrides.system_messages c.system_messages;
  structured_outputs = unwrap_or overrides.structured_outputs c.structured_outputs;
  streaming_usage = unwrap_or overrides.streaming_usage c.streaming_usage;
  max_context_tokens = or_option overrides.max_context_tokens c.max_context_tokens;
  max_output_tokens = or_option overrides.max_output_tokens c.max_output_tokens;
}

pub record ProviderSpec : Type 0 where
  pub supported_protocols : List UpstreamProtocol
  pub capabilities : ProviderCapabilities

unfoldable pub provider_supported_protocols : String → UpstreamProtocol → List UpstreamProtocol
provider_supported_protocols provider_type default_protocol =
    if contains_str provider_type
      ("kimi_coding" ∷ "zhipu_coding_openai" ∷ "minimax_token_openai" ∷ "deepseek" ∷ "zhipu" ∷ [])
    then UpstreamProtocol.chat_completions ∷ []
    else if contains_str provider_type
        ("qwen" ∷ "qwen_responses" ∷ "minimax" ∷ "minimax_responses" ∷ "gotoken" ∷ [])
    then UpstreamProtocol.responses ∷ UpstreamProtocol.chat_completions ∷ []
    else default_protocol ∷ []

-- The two families of provider types that the `match` on the type lists.
abbrev responses_types : List String
responses_types =
    "openai" ∷ "responses_compatible" ∷ "qwen_responses" ∷ "minimax_responses" ∷ "gotoken" ∷ []

abbrev chat_types : List String
chat_types =
    "openai_compatible" ∷ "kimi" ∷ "deepseek" ∷ "qwen" ∷ "kimi_coding" ∷ "zai_coding_openai"
    ∷ "zhipu_coding_openai" ∷ "minimax_token_openai" ∷ "bailian_coding_openai"
    ∷ "bailian_token_openai" ∷ []

-- What the provider type alone says.
unfoldable pub type_spec : String → ProviderSpec
type_spec provider_type =
    if contains_str provider_type responses_types
    then record {
      supported_protocols = provider_supported_protocols provider_type UpstreamProtocol.responses;
      capabilities = record {
        tool_calls = true;
        reasoning = true;
        tool_choice = true;
        parallel_tool_calls = true;
        system_messages = true;
        structured_outputs = true;
        streaming_usage = true;
        max_context_tokens = none;
        max_output_tokens = none;
      };
    }
    else if contains_str provider_type chat_types
    then record {
      supported_protocols =
          provider_supported_protocols provider_type UpstreamProtocol.chat_completions;
      capabilities = record {
        tool_calls = true;
        reasoning = false;
        tool_choice = true;
        parallel_tool_calls = true;
        system_messages = true;
        structured_outputs = false;
        streaming_usage = false;
        max_context_tokens = none;
        max_output_tokens = none;
      };
    }
    else record {
      supported_protocols = UpstreamProtocol.chat_completions ∷ [];
      capabilities = limited;
    }

-- The protocols that the catalog lists for the type, if it lists any.
unfoldable pub catalog_protocols : Option ProviderCatalog → String → List UpstreamProtocol
catalog_protocols none provider_type = []
catalog_protocols (some catalog) provider_type = elim (get provider_type catalog.providers) [
  | none ↦ []
  | some provider ↦ map from_catalog provider.protocols
]

unfoldable pub from_provider_type_and_overrides :
    Option ProviderCatalog → String → ProviderCapabilityOverrides → ProviderSpec
from_provider_type_and_overrides catalog provider_type overrides =
    let spec = type_spec provider_type in
    let protocols = catalog_protocols catalog provider_type in
    record {
      supported_protocols = if is_empty protocols then spec.supported_protocols else protocols;
      capabilities = with_overrides spec.capabilities overrides;
    }

unfoldable pub from_provider_config :
    (String → Option ProviderCapabilityOverrides)
    → Option ProviderCatalog
    → ProviderConfig
    → ProviderSpec
from_provider_config parse_overrides catalog provider =
    from_provider_type_and_overrides catalog provider.provider_type
      (capability_overrides parse_overrides provider)

unfoldable pub protocol_eq : UpstreamProtocol → UpstreamProtocol → Bool
protocol_eq UpstreamProtocol.responses UpstreamProtocol.responses = true
protocol_eq UpstreamProtocol.chat_completions UpstreamProtocol.chat_completions = true
protocol_eq image_generations image_generations = true
protocol_eq _ _ = false

unfoldable pub contains_protocol : UpstreamProtocol → List UpstreamProtocol → Bool
contains_protocol p [] = false
contains_protocol p (x ∷ xs) = protocol_eq x p || contains_protocol p xs

any_supports : List UpstreamProtocol → String → Bool
any_supports [] d = false
any_supports (p ∷ ps) d = protocol_supports_downstream p d || any_supports ps d

unfoldable pub supports_downstream : ProviderSpec → String → Bool
unfolding any_supports
supports_downstream spec downstream_protocol =
    any_supports spec.supported_protocols downstream_protocol

abbrev preference : String → List UpstreamProtocol
preference downstream_protocol =
    if str_eq downstream_protocol "responses"
    then UpstreamProtocol.responses ∷ UpstreamProtocol.chat_completions ∷ []
    else if str_eq downstream_protocol "chat_completions"
    then UpstreamProtocol.chat_completions ∷ []
    else if str_eq downstream_protocol "images_generations"
    then image_generations ∷ []
    else []

find_supported : List UpstreamProtocol → List UpstreamProtocol → Option UpstreamProtocol
find_supported [] supported = none
find_supported (p ∷ ps) supported =
    if contains_protocol p supported then some p else find_supported ps supported

unfoldable pub upstream_for_downstream : ProviderSpec → String → Option UpstreamProtocol
unfolding find_supported
upstream_for_downstream spec downstream_protocol =
    find_supported (preference downstream_protocol) spec.supported_protocols

unfoldable pub resolved_upstream_protocols : Option ProviderCatalog → String → List String
resolved_upstream_protocols catalog provider_type =
    map capability_value
      (from_provider_type_and_overrides catalog provider_type default_overrides).supported_protocols
