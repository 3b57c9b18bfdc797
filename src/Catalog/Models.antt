-- ===== src/Catalog/Models.antt =====
-- Which models the catalog accepts: the model half of src/domain/catalog/validation.rs.
use Prim.Native.String.{◌++◌ as str_append}
use prelay_server.Base.{
  ℕ, String, str_eq, Option, none, some, List, [], ◌∷◌, Bool, false, not, ◌||◌, ltb, ◌==◌, length,
  is_empty, contains_str, hash_set, str_trim,
}
use prelay_server.Result.{Result, ok, refuse_if, ◌>>◌}
use prelay_server.Catalog.{
  Failure, catalog_error, RawLanguageModel, RawImageGenerationModel, reasoning_efforts,
  input_modalities, output_modalities,
}

abbrev pub concat : List String → String
concat [] = ""
concat (s ∷ ss) = str_append s (concat ss)

-- `ProviderCatalogError(format!(...))`.
abbrev pub error : List String → Failure
error parts = catalog_error (record { message = concat parts })

abbrev pub is_some_and {ℓ} : {A : Type ℓ} → Option A → (A → Bool) → Bool
is_some_and none p = false
is_some_and (some a) p = p a

abbrev pub any {ℓ} : {A : Type ℓ} → List A → (A → Bool) → Bool
any [] p = false
any (x ∷ xs) p = p x || any xs p

unfoldable pub is_blank : String → Bool
unfolding str_trim
is_blank value = str_eq (str_trim value) ""

-- A set of the values has fewer of them than the list.
unfoldable pub has_repeats : List String → Bool
unfolding hash_set
has_repeats values = not (length (hash_set values) == length values)

-- `Result<(), ProviderCatalogError>`.
abbrev pub Checked : Type 0
Checked = Result Failure (Unit {0})

unfoldable pub validate_context_window : String → Option ℕ → Option ℕ → Checked
validate_context_window model_id context_window max_context_window = do
  refuse_if (is_some_and context_window (λ window. window == 0))
      (error ("语言模型 " ∷ model_id ∷ " 的上下文窗口必须大于零" ∷ []))
  refuse_if
      (is_some_and max_context_window (λ maximum. maximum == 0)
        || is_some_and max_context_window
            (λ maximum. is_some_and context_window (λ current. ltb maximum current)))
      (error ("语言模型 " ∷ model_id ∷ " 的最大上下文窗口无效" ∷ []))

unfoldable pub validate_modalities : String → String → Option (List String) → List String → Checked
unfolding contains_str
validate_modalities model_id label none allowed = ok tt
validate_modalities model_id label (some modalities) allowed =
    refuse_if (has_repeats modalities || any modalities (λ value. not (contains_str value allowed)))
      (error ("模型 " ∷ model_id ∷ " 的" ∷ label ∷ "模态无效" ∷ []))

unfoldable pub validate_nonempty_values : String → String → Option (List String) → Checked
validate_nonempty_values model_id label none = ok tt
validate_nonempty_values model_id label (some values) =
    refuse_if (any values is_blank || has_repeats values)
      (error ("图像生成模型 " ∷ model_id ∷ " 的" ∷ label ∷ "配置无效" ∷ []))

unfoldable pub validate_default_effort : String → Option (List String) → Option String → Checked
unfolding contains_str
validate_default_effort model_id efforts (some default_effort) =
    refuse_if
      (not (contains_str default_effort reasoning_efforts)
        || not (is_some_and efforts (contains_str default_effort)))
      (error ("语言模型 " ∷ model_id ∷ " 的默认思考档位无效" ∷ []))
validate_default_effort model_id efforts none =
    refuse_if (is_some_and efforts (λ values. not (is_empty values)))
      (error ("语言模型 " ∷ model_id ∷ " 配置思考档位时必须指定默认值" ∷ []))

unfoldable pub validate_reasoning : String → Option (List String) → Option String → Checked
unfolding contains_str
validate_reasoning model_id efforts default_effort = do
  refuse_if
      (is_some_and efforts (λ values.
        has_repeats values || any values (λ effort. not (contains_str effort reasoning_efforts))))
      (error ("语言模型 " ∷ model_id ∷ " 的思考档位无效" ∷ []))
  validate_default_effort model_id efforts default_effort

unfoldable pub validate_language_model : String → RawLanguageModel → Checked
unfolding validate_context_window validate_modalities validate_reasoning validate_default_effort
    has_repeats
validate_language_model model_id model = do
  validate_context_window model_id model.context_window model.max_context_window
  refuse_if
      (is_some_and model.effective_context_window_percent
        (λ percent. percent == 0 || ltb 100 percent))
      (error ("语言模型 " ∷ model_id ∷ " 的有效上下文比例无效" ∷ []))
  refuse_if
      (is_some_and model.truncation_policy (λ policy. is_blank policy.mode || policy.limit == 0))
      (error ("语言模型 " ∷ model_id ∷ " 的截断策略无效" ∷ []))
  validate_modalities model_id "输入" model.input_modalities input_modalities
  validate_reasoning model_id model.reasoning_efforts model.default_reasoning_effort

unfoldable pub validate_image_generation_model : String → RawImageGenerationModel → Checked
unfolding validate_modalities validate_nonempty_values has_repeats
validate_image_generation_model model_id model = do
  validate_modalities model_id "输入" model.input_modalities input_modalities
  validate_modalities model_id "输出" model.output_modalities output_modalities
  validate_nonempty_values model_id "尺寸" model.sizes
  validate_nonempty_values model_id "质量" model.quality_options
  validate_nonempty_values model_id "背景" model.background_options
  validate_nonempty_values model_id "输出格式" model.output_formats
