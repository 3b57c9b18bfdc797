-- ===== src/Catalog/Loaded.antt =====
-- What a loaded catalog satisfies, src/domain/catalog/loading.rs and src/domain/catalog/mod.rs.
use mathlib.Core.Path.{subst}
use prelay_server.Base.{
  ℕ, ◌≡◌, ◌≢◌, refl, String, str_eq, eq_iff, some, List, [], ◌∷◌, true, false, not, ◌||◌, ◌&&◌,
  arith, is_empty, map, All, contains_str, Distinct, Option-cases, inl, inr, Bool-cases, is_some,
}
use prelay_server.Base.Assoc.{get, insert, All-insert, All-get}
use prelay_server.Result.{ok, refuse_if, after, ok_inj}
use prelay_server.Catalog.{
  ProviderProtocol, images_generations, RawProvider, CatalogLanguageModel,
  CatalogImageGenerationModel, CatalogProvider, ProviderCatalog,
}
use prelay_server.Catalog.Entries.{
  Parsers, required_value, contains_protocol, position, validate_protocols,
  validate_provider_model_references, validate_request_headers, validate_upstream_model_names,
  validate_protocol_base_urls, validate_proxy_url,
}
use prelay_server.Catalog.Order.{Ascending, validate_protocols-Ascending}
use prelay_server.Catalog.Consistency.{
  IsHeader, IsProxy, required_value_lem, validate_proxy_url-IsProxy, names_of, IsAddress, Renames,
  validate_provider_model_references_lem, validate_request_headers_lem,
  validate_upstream_model_names-Renames, validate_protocol_base_urls_lem,
}
use prelay_server.Catalog.Queries.{provider, provider_supports_language_model, model_exists}
use prelay_server.Catalog.Loading.{
  Files, provider_of, add_providers, load_language_models, load_image_generation_models,
  load_providers, parse_document, load,
}

-- The names of a provider's models are different, and each has an entry.
abbrev pub Refers {ℓ} : {T : Type ℓ} → List (String × T) → List String → Type 0
Refers models ids = Distinct ids × All (λ m. is_some (get m models) ≡ true) ids

-- A provider of a catalog with these models; `rank` is the place of a protocol in the fixed order.
pub record IsEntry (parsers : Parsers) (rank : ProviderProtocol → ℕ)
    (languages : List (String × CatalogLanguageModel))
    (images : List (String × CatalogImageGenerationModel)) (p : CatalogProvider) : Type 0 where
  pub id_given : p.id ≢ ""
  pub name_given : p.name ≢ ""
  pub base_url_given : p.base_url ≢ ""
  pub has_protocol : is_empty p.protocols ≡ false
  pub in_order : Ascending (map rank p.protocols)
  pub addresses : All (IsAddress p.protocols) p.protocol_base_urls
  pub headers : All (IsHeader parsers) p.request_headers
  pub header_names : Distinct (names_of p.request_headers)
  pub language_models : Refers languages p.language_models
  pub image_models : Refers images p.image_generation_models
  pub image_protocol :
      (is_empty p.image_generation_models || contains_protocol images_generations p.protocols)
      ≡ true
  pub renamed : Renames p.language_models p.image_generation_models p.upstream_model_names
  pub proxy : IsProxy parsers p.proxy_url

module _ (parsers : Parsers) (ordered : List ProviderProtocol) (rank : ProviderProtocol → ℕ)
    (ranked : (p : ProviderProtocol) → position ordered p ≡ some (rank p))
    (languages : List (String × CatalogLanguageModel))
    (images : List (String × CatalogImageGenerationModel)) where
  provider_of-IsEntry :
      (raw : RawProvider) (p : CatalogProvider)
      → provider_of parsers ordered languages images raw ≡ ok p
      → IsEntry parsers rank languages images p
  unfolding provider_of
  provider_of-IsEntry raw p h = after (required_value "供应商 ID" raw.id) _ h λ id identified h.
      after (required_value "供应商名称" raw.name) _ h λ name called h.
        after (required_value "供应商默认 URL" raw.base_url) _ h λ base_url located h.
          after (validate_protocols ordered id raw.protocols) _ h λ _ protocols h.
            after (validate_protocol_base_urls ordered id raw base_url) _ h λ urls addresses h.
              after (validate_request_headers parsers id raw) _ h λ headers named h.
                after (validate_provider_model_references id "语言模型" raw.language_models languages) _
                  h
                  λ _ language h.
                    after
                      (validate_provider_model_references id "图像生成模型" raw.image_generation_models
                        images)
                      _ h
                      λ _ image h.
                        after (validate_upstream_model_names id raw) _ h λ names renamed h.
                          after (validate_proxy_url parsers id raw.proxy_url) _ h λ proxy proxied h.
                            after
                              (refuse_if
                                (not (is_empty raw.image_generation_models)
                                  && not (contains_protocol images_generations raw.protocols))
                                _)
                              _ h
                              λ _ declared h.
                                subst (IsEntry parsers rank languages images) (ok_inj h) (record {
                                  id_given = required_value_lem "供应商 ID" raw.id id identified;
                                  name_given = required_value_lem "供应商名称" raw.name name called;
                                  base_url_given =
                                      required_value_lem "供应商默认 URL" raw.base_url base_url located;
                                  has_protocol =
                                      ((validate_protocols-Ascending ordered rank ranked id
                                          raw.protocols).0.0
                                        protocols).0;
                                  in_order =
                                      ((validate_protocols-Ascending ordered rank ranked id
                                          raw.protocols).0.0
                                        protocols).1;
                                  addresses =
                                      validate_protocol_base_urls_lem ordered id raw base_url urls
                                        addresses;
                                  headers =
                                      (validate_request_headers_lem parsers id raw headers named).0;
                                  header_names =
                                      (validate_request_headers_lem parsers id raw headers named).1;
                                  language_models =
                                      validate_provider_model_references_lem id "语言模型"
                                        raw.language_models languages language;
                                  image_models =
                                      validate_provider_model_references_lem id "图像生成模型"
                                        raw.image_generation_models images image;
                                  image_protocol = ground (arith, declared);
                                  renamed =
                                      validate_upstream_model_names-Renames id raw names renamed;
                                  proxy =
                                      validate_proxy_url-IsProxy parsers id raw.proxy_url proxy
                                        proxied;
                                })

  -- The entries of a table of providers, each under its own name.
  abbrev pub IsTable : String × CatalogProvider → Type 0
  IsTable (id, p) = (p.id ≡ id) × IsEntry parsers rank languages images p

  add_providers-IsTable :
      (providers : List (String × CatalogProvider)) (raw : List RawProvider)
      (result : List (String × CatalogProvider))
      → All IsTable providers
      → add_providers parsers ordered languages images providers raw ≡ ok result
      → All IsTable result
  unfolding add_providers
  add_providers-IsTable providers [] result all h = subst (All IsTable) (ok_inj h) all
  add_providers-IsTable providers (raw ∷ rest) result all h =
      after (provider_of parsers ordered languages images raw) _ h λ p valid h.
        after (refuse_if (is_some (get p.id providers)) _) _ h λ _ _ h.
          add_providers-IsTable (insert p.id p providers) rest result
            (All-insert IsTable p.id p providers (refl, provider_of-IsEntry raw p valid) all) h

All-contains :
    (P : String → Type 0) (m : String) (ids : List String)
    → All P ids
    → contains_str m ids ≡ true
    → P m
unfolding contains_str
All-contains P m [] all h = cc
All-contains P m (x ∷ xs) all h = elim (Bool-cases (str_eq x m)) [
  | inl same ↦ subst P ((eq_iff x m).0 same) all.0
  | inr other ↦ All-contains P m xs all.1 (ground (arith, h, other))
]

module _ (files : Files) (parsers : Parsers) (ordered : List ProviderProtocol)
    (rank : ProviderProtocol → ℕ)
    (ranked : (p : ProviderProtocol) → position ordered p ≡ some (rank p))
    (directory : files.FilePath) (catalog : ProviderCatalog) where
  -- If every protocol has a place in the fixed order: in a catalog that loads, each provider stands
  -- under its own id. Its id, its name and its default URL are not empty. It has protocols, in the
  -- fixed order and each once; its other URLs are not empty and are for those protocols only. Its
  -- request headers have different names, which the library gives and authentication does not use,
  -- and each has the session's id for a value or a text that is not empty and that the library takes.
  -- The models that it lists are different and all have an entry in the catalog; it has the images
  -- protocol if it lists image models; only models that it lists are renamed, and no new name is
  -- empty. A proxy's address, if there is one, is read by the library as one for http or https.
  pub load-IsTable :
      load files parsers ordered directory ≡ ok catalog
      → All
          (IsTable parsers ordered rank ranked catalog.language_models
            catalog.image_generation_models)
          catalog.providers
  unfolding load load_providers
  load-IsTable h =
      let models = files.join directory "models" in
      after
        (load_language_models files (files.join models "language.toml")
          (files.join models "instructions"))
        _ h
        λ languages _ h.
          after (load_image_generation_models files (files.join models "image-generation.toml")) _ h
            λ images _ h.
              after
                (load_providers files parsers ordered (files.join directory "providers.toml")
                  languages images)
                _ h
                λ providers listed h.
                  after
                    (parse_document files files.providers (files.join directory "providers.toml")) _
                    listed
                    λ document _ added.
                      subst
                        (λ c.
                          All
                            (IsTable parsers ordered rank ranked c.language_models
                              c.image_generation_models)
                            c.providers)
                        (ok_inj h)
                        (add_providers-IsTable parsers ordered rank ranked languages images []
                          document providers tt added)

  -- A language model that a loaded catalog's provider supports is one that the catalog has.
  pub provider_supports_language_model-exists :
      (provider_id model_id : String)
      → load files parsers ordered directory ≡ ok catalog
      → provider_supports_language_model catalog provider_id model_id ≡ true
      → model_exists catalog model_id ≡ true
  unfolding provider_supports_language_model model_exists provider
  provider_supports_language_model-exists provider_id model_id h supported =
      elim (Option-cases (get provider_id catalog.providers)) [
        | inl missing ↦ ground (arith, supported, missing)
        | inr (p, found) ↦
            let table = load-IsTable h in
            let (_, entry) =
              All-get
                (IsTable parsers ordered rank ranked catalog.language_models
                  catalog.image_generation_models)
                provider_id p catalog.providers table found in
            ground (
              arith,
              All-contains (λ m. is_some (get m catalog.language_models) ≡ true) model_id
                  p.language_models entry.language_models.1 (ground (arith, supported, found)),
            )
      ]
