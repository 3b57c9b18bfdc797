-- ===== src/Catalog.antt =====
-- The provider catalog: src/domain/catalog/mod.rs. The authentication scheme is an enumeration of
-- the protocol crate, of which the catalog only keeps the name. An HTTP header's name is its text
-- in lower case, as `HeaderName` holds it, and a `BTreeMap` is an association list.
pub mod Models
pub mod Accepted
pub mod Entries
pub mod Loading
pub mod Queries
pub mod Order
pub mod Consistency
pub mod Loaded
use prelay_server.Base.{ℕ, String, Option, List, [], ◌∷◌, Bool}

-- The protocols that the catalog's files name.
pub data ProviderProtocol : Type 0 where
  responses chat_completions images_generations : ProviderProtocol

pub record ProviderCatalogError : Type 0 where
  pub message : String

-- How loading stops: with an error, or at an `expect`.
pub data Failure : Type 0 where
  catalog_error : ProviderCatalogError → Failure
  panicked : String → Failure

pub record CatalogTruncationPolicy : Type 0 where
  pub mode : String
  pub limit : ℕ

pub record RawLanguageModel : Type 0 where
  pub id : String
  pub display_name : String
  pub description : Option String
  pub reasoning_efforts : Option (List String)
  pub default_reasoning_effort : Option String
  pub context_window : Option ℕ
  pub max_context_window : Option ℕ
  pub effective_context_window_percent : Option ℕ
  pub input_modalities : Option (List String)
  pub supports_parallel_tool_calls : Option Bool
  pub supports_reasoning_summaries : Option Bool
  pub supports_image_detail_original : Option Bool
  pub support_verbosity : Option Bool
  pub default_verbosity : Option String
  pub apply_patch_tool_type : Option String
  pub web_search_tool_type : Option String
  pub supports_search_tool : Option Bool
  pub truncation_policy : Option CatalogTruncationPolicy
  pub reasoning_summary_format : Option String
  pub default_reasoning_summary : Option String
  pub shell_type : Option String
  pub visibility : Option String
  pub supported_in_api : Option Bool
  pub priority : Option ℕ
  pub base_instructions : Option String
  pub experimental_supported_tools : Option (List String)
  pub minimal_client_version : Option String

pub record RawImageGenerationModel : Type 0 where
  pub id : String
  pub display_name : String
  pub description : Option String
  pub input_modalities : Option (List String)
  pub output_modalities : Option (List String)
  pub sizes : Option (List String)
  pub quality_options : Option (List String)
  pub background_options : Option (List String)
  pub output_formats : Option (List String)
  pub supports_editing : Option Bool
  pub supports_mask : Option Bool
  pub supports_reference_images : Option Bool
  pub visibility : Option String
  pub supported_in_api : Option Bool
  pub priority : Option ℕ

pub record RawRequestHeaderSource : Type 0 where
  pub source : String

pub data RawRequestHeaderValue : Type 0 where
  literal : String → RawRequestHeaderValue
  source : RawRequestHeaderSource → RawRequestHeaderValue

pub record RawProvider : Type 0 where
  pub id : String
  pub name : String
  pub auth_scheme : String
  pub base_url : String
  pub protocols : List ProviderProtocol
  pub protocol_base_urls : List (String × String)
  pub request_headers : List (String × RawRequestHeaderValue)
  pub language_models : List String
  pub image_generation_models : List String
  pub upstream_model_names : List (String × String)
  pub proxy_url : Option String

pub data CatalogRequestHeaderValue : Type 0 where
  literal : String → CatalogRequestHeaderValue
  session_id : CatalogRequestHeaderValue

pub record CatalogRequestHeader : Type 0 where
  pub name : String
  pub value : CatalogRequestHeaderValue

pub record CatalogProvider : Type 0 where
  pub id : String
  pub name : String
  pub auth_scheme : String
  pub base_url : String
  pub protocols : List ProviderProtocol
  pub protocol_base_urls : List (ProviderProtocol × String)
  pub request_headers : List CatalogRequestHeader
  pub language_models : List String
  pub image_generation_models : List String
  pub upstream_model_names : List (String × String)
  pub proxy_url : Option String

pub record CatalogLanguageModel : Type 0 where
  pub id : String
  pub display_name : String
  pub description : Option String
  pub reasoning_efforts : Option (List String)
  pub default_reasoning_effort : Option String
  pub context_window : Option ℕ
  pub max_context_window : Option ℕ
  pub effective_context_window_percent : Option ℕ
  pub input_modalities : Option (List String)
  pub supports_parallel_tool_calls : Option Bool
  pub supports_reasoning_summaries : Option Bool
  pub supports_image_detail_original : Option Bool
  pub support_verbosity : Option Bool
  pub default_verbosity : Option String
  pub apply_patch_tool_type : Option String
  pub web_search_tool_type : Option String
  pub supports_search_tool : Option Bool
  pub truncation_policy : Option CatalogTruncationPolicy
  pub reasoning_summary_format : Option String
  pub default_reasoning_summary : Option String
  pub shell_type : Option String
  pub visibility : Option String
  pub supported_in_api : Option Bool
  pub priority : Option ℕ
  pub base_instructions : Option String
  pub experimental_supported_tools : Option (List String)
  pub minimal_client_version : Option String

pub record CatalogImageGenerationModel : Type 0 where
  pub id : String
  pub display_name : String
  pub description : Option String
  pub input_modalities : Option (List String)
  pub output_modalities : Option (List String)
  pub sizes : Option (List String)
  pub quality_options : Option (List String)
  pub background_options : Option (List String)
  pub output_formats : Option (List String)
  pub supports_editing : Option Bool
  pub supports_mask : Option Bool
  pub supports_reference_images : Option Bool
  pub visibility : Option String
  pub supported_in_api : Option Bool
  pub priority : Option ℕ

pub record ProviderCatalog : Type 0 where
  pub language_models : List (String × CatalogLanguageModel)
  pub image_generation_models : List (String × CatalogImageGenerationModel)
  pub providers : List (String × CatalogProvider)

abbrev pub reasoning_efforts : List String
reasoning_efforts = "none" ∷ "minimal" ∷ "low" ∷ "medium" ∷ "high" ∷ "xhigh" ∷ "max" ∷ []

abbrev pub input_modalities : List String
input_modalities = "text" ∷ "image" ∷ []

abbrev pub output_modalities : List String
output_modalities = "image" ∷ []
