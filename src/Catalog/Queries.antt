-- ===== src/Catalog/Queries.antt =====
-- What the rest of the server asks of a loaded catalog: the queries of src/domain/catalog/mod.rs.
use prelay_server.Base.{String, Option, none, some, List, [], Bool, ◌||◌, contains_str, is_some}
use prelay_server.Base.Assoc.{get}
use prelay_server.Catalog.{
  CatalogLanguageModel, CatalogImageGenerationModel, CatalogProvider, CatalogRequestHeader,
  ProviderCatalog,
}
use prelay_server.Catalog.Models.{is_some_and}

unfoldable pub language_model : ProviderCatalog → String → Option CatalogLanguageModel
unfolding get
language_model catalog model_id = get model_id catalog.language_models

unfoldable pub image_generation_model :
    ProviderCatalog → String → Option CatalogImageGenerationModel
unfolding get
image_generation_model catalog model_id = get model_id catalog.image_generation_models

unfoldable pub provider : ProviderCatalog → String → Option CatalogProvider
unfolding get
provider catalog provider_id = get provider_id catalog.providers

unfoldable pub model_display_name : ProviderCatalog → String → String
unfolding language_model image_generation_model
model_display_name catalog model_id = elim (language_model catalog model_id) [
  | some model ↦ model.display_name
  | none ↦ elim (image_generation_model catalog model_id) [
    | some model ↦ model.display_name
    | none ↦ model_id
  ]
]

unfoldable pub model_exists : ProviderCatalog → String → Bool
unfolding get
model_exists catalog model_id =
    is_some (get model_id catalog.language_models)
    || is_some (get model_id catalog.image_generation_models)

unfoldable pub provider_proxy_url : ProviderCatalog → String → Option String
unfolding provider
provider_proxy_url catalog provider_id = elim (provider catalog provider_id) [
  | none ↦ none
  | some entry ↦ entry.proxy_url
]

unfoldable pub provider_request_headers : ProviderCatalog → String → List CatalogRequestHeader
unfolding provider
provider_request_headers catalog provider_id = elim (provider catalog provider_id) [
  | none ↦ []
  | some entry ↦ entry.request_headers
]

unfoldable pub provider_supports_language_model : ProviderCatalog → String → String → Bool
unfolding provider contains_str
provider_supports_language_model catalog provider_id model_id =
    is_some_and (provider catalog provider_id)
      (λ entry. contains_str model_id entry.language_models)

unfoldable pub provider_supports_image_generation_model : ProviderCatalog → String → String → Bool
unfolding provider contains_str
provider_supports_image_generation_model catalog provider_id model_id =
    is_some_and (provider catalog provider_id)
      (λ entry. contains_str model_id entry.image_generation_models)

unfoldable pub provider_upstream_model : ProviderCatalog → String → String → String
unfolding provider get
provider_upstream_model catalog provider_id model_id = elim (provider catalog provider_id) [
  | none ↦ model_id
  | some entry ↦ elim (get model_id entry.upstream_model_names) [
    | none ↦ model_id
    | some name ↦ name
  ]
]
