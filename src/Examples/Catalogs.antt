-- ===== src/Examples/Catalogs.antt =====
-- The catalog at concrete input.
use prelay_server.Base.{
  ℕ, ◌≡◌, ◌↔◌, refl, String, str_eq, none, some, List, [], ◌∷◌, true, false, is_empty, map, All,
  if◌then◌else◌,
}
use prelay_server.Result.{ok, err}
use prelay_server.Catalog.{
  ProviderProtocol, responses, chat_completions, images_generations, RawLanguageModel, RawProvider,
  RawRequestHeaderValue, ProviderCatalog,
}
use prelay_server.Catalog.Models.{concat, is_blank, validate_language_model}
use prelay_server.Catalog.Accepted.{IsLanguageModel, validate_language_model-IsLanguageModel}
use prelay_server.Catalog.Entries.{Parsers, position, validate_protocols}
use prelay_server.Catalog.Order.{Ascending, Answers, validate_protocols-Ascending}
use prelay_server.Catalog.Loading.{Files, contents, unreadable, load}
use prelay_server.Catalog.Queries.{provider_supports_language_model, model_exists}
use prelay_server.Catalog.Loaded.{IsTable, load-IsTable, provider_supports_language_model-exists}

abbrev luna : RawLanguageModel
luna = record {
  id = " luna ";
  display_name = "Luna";
  description = none;
  reasoning_efforts = some ("low" ∷ "high" ∷ []);
  default_reasoning_effort = some "high";
  context_window = some 1000;
  max_context_window = some 2000;
  effective_context_window_percent = some 95;
  input_modalities = some ("text" ∷ []);
  supports_parallel_tool_calls = none;
  supports_reasoning_summaries = none;
  supports_image_detail_original = none;
  support_verbosity = none;
  default_verbosity = none;
  apply_patch_tool_type = none;
  web_search_tool_type = none;
  supports_search_tool = none;
  truncation_policy = some (record { mode = "tokens"; limit = 10 });
  reasoning_summary_format = none;
  default_reasoning_summary = none;
  shell_type = none;
  visibility = none;
  supported_in_api = none;
  priority = none;
  base_instructions = none;
  experimental_supported_tools = none;
  minimal_client_version = none;
}

validate_language_model-IsLanguageModel_example :
    (validate_language_model "luna" luna ≡ ok tt) ↔ IsLanguageModel luna
validate_language_model-IsLanguageModel_example =
    validate_language_model-IsLanguageModel "luna" luna

luna_is_accepted : validate_language_model "luna" luna ≡ ok tt
unfolding validate_language_model is_blank
luna_is_accepted = refl

abbrev ordered : List ProviderProtocol
ordered = responses ∷ chat_completions ∷ images_generations ∷ []

abbrev rank : ProviderProtocol → ℕ
rank responses = 0
rank chat_completions = 1
rank images_generations = 2

ranked : (p : ProviderProtocol) → position ordered p ≡ some (rank p)
unfolding position
ranked responses = refl
ranked chat_completions = refl
ranked images_generations = refl

validate_protocols-Ascending_example :
    ((validate_protocols ordered "p" (responses ∷ images_generations ∷ []) ≡ ok tt) ↔ (
      (is_empty (responses ∷ images_generations ∷ []) ≡ false)
      × Ascending (map rank (responses ∷ images_generations ∷ []))))
    × Answers (validate_protocols ordered "p" (responses ∷ images_generations ∷ []))
validate_protocols-Ascending_example =
    validate_protocols-Ascending ordered rank ranked "p" (responses ∷ images_generations ∷ [])

abbrev parsers : Parsers
parsers = record {
  header_name = λ name. if str_eq name "X-Team" then some "x-team" else none;
  is_header_value = λ value. true;
  url_scheme = λ value. some "http";
}

abbrev raw_provider : RawProvider
raw_provider = record {
  id = "p";
  name = "P";
  auth_scheme = "bearer";
  base_url = "http://p";
  protocols = responses ∷ chat_completions ∷ [];
  protocol_base_urls = ("chat_completions", "http://p/chat") ∷ [];
  request_headers = (" X-Team", RawRequestHeaderValue.literal "a") ∷ [];
  language_models = "luna" ∷ [];
  image_generation_models = [];
  upstream_model_names = ("luna", "luna-2") ∷ [];
  proxy_url = some " ";
}

-- A directory with a file of models, one of providers, and no instructions.
abbrev files : Files
files = record {
  FilePath = String;
  join = λ directory name. concat (directory ∷ "/" ∷ name ∷ []);
  display = λ path. path;
  read_to_string = λ path.
      if str_eq path "c/models/language.toml"
      then contents "[[models]]"
      else if str_eq path "c/models/image-generation.toml"
      then contents ""
      else if str_eq path "c/providers.toml"
      then contents "[[providers]]"
      else unreadable true "not found";
  language_models = λ text. ok (luna ∷ []);
  image_generation_models = λ text. err "unexpected";
  providers = λ text. ok (raw_provider ∷ []);
}

-- The catalog that is loaded, or an empty one.
abbrev loaded : ProviderCatalog
loaded = elim (load files parsers ordered "c") [
  | ok catalog ↦ catalog
  | err failure ↦ record { language_models = []; image_generation_models = []; providers = [] }
]

loads : load files parsers ordered "c" ≡ ok loaded
unfolding load
loads = refl

load-IsTable_example :
    All
      (IsTable parsers ordered rank ranked loaded.language_models loaded.image_generation_models)
      loaded.providers
load-IsTable_example = load-IsTable files parsers ordered rank ranked "c" loaded loads

supports_luna : provider_supports_language_model loaded "p" "luna" ≡ true
unfolding load provider_supports_language_model
supports_luna = refl

provider_supports_language_model-exists_example : model_exists loaded "luna" ≡ true
provider_supports_language_model-exists_example =
    provider_supports_language_model-exists files parsers ordered rank ranked "c" loaded "p" "luna"
      loads supports_luna
