-- ===== src/Catalog/Loading.antt =====
-- Loading the catalog from its files: src/domain/catalog/loading.rs and `ProviderCatalog::load` of
-- src/domain/catalog/mod.rs. The file system and the TOML reader are arguments.
use prelay_server.Base.{
  String, Option, none, some, List, [], ◌∷◌, Bool, true, false, not, ◌&&◌, if◌then◌else◌, is_empty,
  is_some,
}
use prelay_server.Base.Assoc.{get, insert}
use prelay_server.Result.{Result, ok, err, refuse_if, ◌>>=◌, ◌>>◌}
use prelay_server.Catalog.{
  ProviderProtocol, images_generations, Failure, RawLanguageModel, RawImageGenerationModel,
  RawProvider, CatalogLanguageModel, CatalogImageGenerationModel, CatalogProvider, ProviderCatalog,
}
use prelay_server.Catalog.Models.{
  error, concat, is_blank, is_some_and, validate_language_model, validate_image_generation_model,
}
use prelay_server.Catalog.Entries.{
  Parsers, required_value, contains_protocol, validate_protocols, validate_protocol_base_urls,
  validate_request_headers, validate_provider_model_references, validate_upstream_model_names,
  validate_proxy_url,
}

-- `fs::read_to_string`: an error has a text, and tells whether the file is missing.
pub data Reading : Type 0 where
  contents : String → Reading
  unreadable : Bool → String → Reading

-- What loading uses of the file system and of `toml::from_str`.
pub record Files : Type 1 where
  pub FilePath : Type 0
  pub join : FilePath → String → FilePath
  pub display : FilePath → String
  pub read_to_string : FilePath → Reading
  pub language_models : String → Result String (List RawLanguageModel)
  pub image_generation_models : String → Result String (List RawImageGenerationModel)
  pub providers : String → Result String (List RawProvider)

unfoldable pub image_generation_model_of :
    RawImageGenerationModel → String → String → CatalogImageGenerationModel
image_generation_model_of model id display_name = record {
  id = id;
  display_name = display_name;
  description = model.description;
  input_modalities = model.input_modalities;
  output_modalities = model.output_modalities;
  sizes = model.sizes;
  quality_options = model.quality_options;
  background_options = model.background_options;
  output_formats = model.output_formats;
  supports_editing = model.supports_editing;
  supports_mask = model.supports_mask;
  supports_reference_images = model.supports_reference_images;
  visibility = model.visibility;
  supported_in_api = model.supported_in_api;
  priority = model.priority;
}

unfoldable pub add_image_generation_models :
    List (String × CatalogImageGenerationModel)
    → List RawImageGenerationModel
    → Result Failure (List (String × CatalogImageGenerationModel))
unfolding required_value validate_image_generation_model image_generation_model_of get insert
add_image_generation_models models [] = ok models
add_image_generation_models models (model ∷ rest) = do
  id ← required_value "图像生成模型 ID" model.id
  display_name ← required_value "图像生成模型显示名称" model.display_name
  validate_image_generation_model id model
  refuse_if (is_some (get id models)) (error ("图像生成模型 ID 重复: " ∷ id ∷ []))
  add_image_generation_models (insert id (image_generation_model_of model id display_name) models)
      rest

-- One turn of the loop of `load_providers`: the entry that is put into the map.
unfoldable pub provider_of :
    Parsers
    → List ProviderProtocol
    → List (String × CatalogLanguageModel)
    → List (String × CatalogImageGenerationModel)
    → RawProvider
    → Result Failure CatalogProvider
unfolding required_value validate_protocols validate_protocol_base_urls validate_request_headers
    validate_provider_model_references validate_upstream_model_names validate_proxy_url
    contains_protocol
provider_of parsers ordered language_models image_generation_models provider = do
  id ← required_value "供应商 ID" provider.id
  name ← required_value "供应商名称" provider.name
  base_url ← required_value "供应商默认 URL" provider.base_url
  validate_protocols ordered id provider.protocols
  protocol_base_urls ← validate_protocol_base_urls ordered id provider base_url
  request_headers ← validate_request_headers parsers id provider
  validate_provider_model_references id "语言模型" provider.language_models language_models
  validate_provider_model_references id "图像生成模型" provider.image_generation_models
      image_generation_models
  upstream_model_names ← validate_upstream_model_names id provider
  proxy_url ← validate_proxy_url parsers id provider.proxy_url
  refuse_if
      (not (is_empty provider.image_generation_models)
        && not (contains_protocol images_generations provider.protocols))
      (error ("供应商 " ∷ id ∷ " 引用了图像生成模型但未声明 images_generations 协议" ∷ []))
  ok (record {
    id = id;
    name = name;
    auth_scheme = provider.auth_scheme;
    base_url = base_url;
    protocols = provider.protocols;
    protocol_base_urls = protocol_base_urls;
    request_headers = request_headers;
    language_models = provider.language_models;
    image_generation_models = provider.image_generation_models;
    upstream_model_names = upstream_model_names;
    proxy_url = proxy_url;
  })

unfoldable pub add_providers :
    Parsers
    → List ProviderProtocol
    → List (String × CatalogLanguageModel)
    → List (String × CatalogImageGenerationModel)
    → List (String × CatalogProvider)
    → List RawProvider
    → Result Failure (List (String × CatalogProvider))
unfolding provider_of get insert
add_providers parsers ordered language_models image_generation_models providers [] = ok providers
add_providers parsers ordered language_models image_generation_models providers (raw ∷ rest) = do
  entry ← provider_of parsers ordered language_models image_generation_models raw
  refuse_if (is_some (get entry.id providers)) (error ("供应商 ID 重复: " ∷ entry.id ∷ []))
  add_providers parsers ordered language_models image_generation_models
      (insert entry.id entry providers) rest

module _ (files : Files) where
  open files use {FilePath, join, display, read_to_string}

  unfoldable pub parse_document :
      {T : Type 0} → (String → Result String (List T)) → FilePath → Result Failure (List T)
  unfolding is_blank
  parse_document from_str path = elim (read_to_string path) [
    | unreadable missing e ↦ err (error ("无法读取 " ∷ display path ∷ ": " ∷ e ∷ []))
    | contents text ↦ if is_blank text then ok [] else elim (from_str text) [
      | ok document ↦ ok document
      | err e ↦ err (error ("无法解析 " ∷ display path ∷ ": " ∷ e ∷ []))
    ]
  ]

  unfoldable pub read_instruction_template : FilePath → Result Failure (Option String)
  unfolding is_blank
  read_instruction_template path = elim (read_to_string path) [
    | contents text ↦ if is_blank text then ok none else ok (some text)
    | unreadable true e ↦ ok none
    | unreadable false e ↦ err (error ("无法读取 " ∷ display path ∷ ": " ∷ e ∷ []))
  ]

  or_default : FilePath → Option String → Option String → Result Failure (Option String)
  unfolding read_instruction_template
  or_default instructions_directory configured (some text) = ok (some text)
  or_default instructions_directory configured none = do
    found ← read_instruction_template (join instructions_directory "_default.md")
    ok (elim found [ some text ↦ some text | none ↦ configured ])

  unfoldable pub resolve_base_instructions :
      FilePath → String → Option String → Result Failure (Option String)
  unfolding or_default read_instruction_template is_blank
  resolve_base_instructions instructions_directory model_id configured =
      if is_some_and configured (λ value. not (is_blank value)) then ok configured else do
        found ←
            read_instruction_template (join instructions_directory (concat (model_id ∷ ".md" ∷ [])))
        or_default instructions_directory configured found

  unfoldable pub language_model_of :
      RawLanguageModel → String → String → Option String → CatalogLanguageModel
  language_model_of model id display_name base_instructions = record {
    id = id;
    display_name = display_name;
    description = model.description;
    reasoning_efforts = model.reasoning_efforts;
    default_reasoning_effort = model.default_reasoning_effort;
    context_window = model.context_window;
    max_context_window = model.max_context_window;
    effective_context_window_percent = model.effective_context_window_percent;
    input_modalities = model.input_modalities;
    supports_parallel_tool_calls = model.supports_parallel_tool_calls;
    supports_reasoning_summaries = model.supports_reasoning_summaries;
    supports_image_detail_original = model.supports_image_detail_original;
    support_verbosity = model.support_verbosity;
    default_verbosity = model.default_verbosity;
    apply_patch_tool_type = model.apply_patch_tool_type;
    web_search_tool_type = model.web_search_tool_type;
    supports_search_tool = model.supports_search_tool;
    truncation_policy = model.truncation_policy;
    reasoning_summary_format = model.reasoning_summary_format;
    default_reasoning_summary = model.default_reasoning_summary;
    shell_type = model.shell_type;
    visibility = model.visibility;
    supported_in_api = model.supported_in_api;
    priority = model.priority;
    base_instructions = base_instructions;
    experimental_supported_tools = model.experimental_supported_tools;
    minimal_client_version = model.minimal_client_version;
  }

  unfoldable pub add_language_models :
      FilePath
      → List (String × CatalogLanguageModel)
      → List RawLanguageModel
      → Result Failure (List (String × CatalogLanguageModel))
  unfolding required_value validate_language_model resolve_base_instructions language_model_of get
      insert
  add_language_models instructions_directory models [] = ok models
  add_language_models instructions_directory models (model ∷ rest) = do
    id ← required_value "语言模型 ID" model.id
    display_name ← required_value "语言模型显示名称" model.display_name
    validate_language_model id model
    refuse_if (is_some (get id models)) (error ("语言模型 ID 重复: " ∷ id ∷ []))
    base_instructions ← resolve_base_instructions instructions_directory id model.base_instructions
    add_language_models instructions_directory
        (insert id (language_model_of model id display_name base_instructions) models) rest

  unfoldable pub load_language_models :
      FilePath → FilePath → Result Failure (List (String × CatalogLanguageModel))
  unfolding parse_document add_language_models
  load_language_models path instructions_directory = do
    document ← parse_document files.language_models path
    add_language_models instructions_directory [] document

  unfoldable pub load_image_generation_models :
      FilePath → Result Failure (List (String × CatalogImageGenerationModel))
  unfolding parse_document add_image_generation_models
  load_image_generation_models path = do
    document ← parse_document files.image_generation_models path
    add_image_generation_models [] document

  unfoldable pub load_providers :
      Parsers
      → List ProviderProtocol
      → FilePath
      → List (String × CatalogLanguageModel)
      → List (String × CatalogImageGenerationModel)
      → Result Failure (List (String × CatalogProvider))
  unfolding parse_document add_providers
  load_providers parsers ordered path language_models image_generation_models = do
    document ← parse_document files.providers path
    add_providers parsers ordered language_models image_generation_models [] document

  unfoldable pub load : Parsers → List ProviderProtocol → FilePath → Result Failure ProviderCatalog
  unfolding load_language_models load_image_generation_models load_providers
  load parsers ordered directory = do
    let models_directory = join directory "models"
    language_models ←
        load_language_models (join models_directory "language.toml")
          (join models_directory "instructions")
    image_generation_models ←
        load_image_generation_models (join models_directory "image-generation.toml")
    providers ←
        load_providers parsers ordered (join directory "providers.toml") language_models
          image_generation_models
    ok (record {
      language_models = language_models;
      image_generation_models = image_generation_models;
      providers = providers;
    })
