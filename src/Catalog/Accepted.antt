-- ===== src/Catalog/Accepted.antt =====
-- Which models the catalog accepts, src/domain/catalog/validation.rs: the checks against what they ask for.
use prelay_server.Base.{
  ℕ, ◌≤◌, ◌<◌, ◌≡◌, ◌↔◌, refl, String, eq_iff, Option, none, some, List, [], ◌∷◌, true, false, not,
  ◌||◌, ltb, ◌==◌, arith, All, contains_str, Distinct, length-hash_set-Distinct,
}
use prelay_server.Result.{ok, refuse_if, both}
use prelay_server.Catalog.{
  Failure, RawLanguageModel, RawImageGenerationModel, CatalogTruncationPolicy, reasoning_efforts,
  input_modalities, output_modalities,
}
use prelay_server.Catalog.Models.{
  any, is_some_and, is_blank, has_repeats, validate_context_window, validate_modalities,
  validate_nonempty_values, validate_default_effort, validate_reasoning, validate_language_model,
  validate_image_generation_model,
}

-- A condition on a setting that may be missing.
abbrev pub Every {ℓ} : {A : Type ℓ} → (A → Type 0) → Option A → Type 0
Every P none = Unit
Every P (some a) = P a

-- Different values, all of them allowed ones.
abbrev pub IsChoice : List String → List String → Type 0
IsChoice allowed values = Distinct values × All (λ v. contains_str v allowed ≡ true) values

-- Different values, none of them blank.
abbrev pub IsListing : List String → Type 0
IsListing values = Distinct values × All (λ v. is_blank v ≡ false) values

-- A default is one of the efforts, and is given when there is an effort.
abbrev pub IsDefault : Option (List String) → Option String → Type 0
IsDefault efforts none = Every (λ values. values ≡ []) efforts
IsDefault none (some d) = ⊥
IsDefault (some values) (some d) = contains_str d values ≡ true

-- What the catalog asks of a language model.
pub record IsLanguageModel (m : RawLanguageModel) : Type 0 where
  pub window : Every (λ n. 0 < n) m.context_window
  pub max_window : Every (λ n. 0 < n) m.max_context_window
  pub within : Every (λ n. Every (λ k. k ≤ n) m.context_window) m.max_context_window
  pub percent : Every (λ n. (0 < n) × (n ≤ 100)) m.effective_context_window_percent
  pub truncation : Every (λ p. (is_blank p.mode ≡ false) × (0 < p.limit)) m.truncation_policy
  pub inputs : Every (IsChoice input_modalities) m.input_modalities
  pub efforts : Every (IsChoice reasoning_efforts) m.reasoning_efforts
  pub default_effort : IsDefault m.reasoning_efforts m.default_reasoning_effort

-- What the catalog asks of a model that generates images.
pub record IsImageGenerationModel (m : RawImageGenerationModel) : Type 0 where
  pub inputs : Every (IsChoice input_modalities) m.input_modalities
  pub outputs : Every (IsChoice output_modalities) m.output_modalities
  pub sizes : Every IsListing m.sizes
  pub qualities : Every IsListing m.quality_options
  pub backgrounds : Every IsListing m.background_options
  pub formats : Every IsListing m.output_formats

has_repeats-Distinct : (values : List String) → (has_repeats values ≡ false) ↔ Distinct values
unfolding has_repeats
has_repeats-Distinct values = ground (arith, length-hash_set-Distinct values)

pub any-not_contained :
    (allowed values : List String)
    → (any values (λ v. not (contains_str v allowed)) ≡ false)
      ↔ All (λ v. contains_str v allowed ≡ true) values
any-not_contained allowed [] = (λ h. tt, λ h. refl)
any-not_contained allowed (v ∷ vs) = ground (arith, any-not_contained allowed vs)

any-is_blank :
    (values : List String) → (any values is_blank ≡ false) ↔ All (λ v. is_blank v ≡ false) values
any-is_blank [] = (λ h. tt, λ h. refl)
any-is_blank (v ∷ vs) = ground (arith, any-is_blank vs)

context_window_lem :
    (id : String) (window max : Option ℕ)
    → (validate_context_window id window max ≡ ok tt) ↔ (
        Every (λ n. 0 < n) window
        × Every (λ n. 0 < n) max
        × Every (λ n. Every (λ k. k ≤ n) window) max)
unfolding validate_context_window
context_window_lem id none none = ground arith
context_window_lem id none (some m) = ground arith
context_window_lem id (some w) none = ground arith
context_window_lem id (some w) (some m) = ground arith

modalities_lem :
    (id label : String) (modalities : Option (List String)) (allowed : List String)
    → (validate_modalities id label modalities allowed ≡ ok tt)
      ↔ Every (IsChoice allowed) modalities
unfolding validate_modalities
modalities_lem id label none allowed = (λ h. tt, λ h. refl)
modalities_lem id label (some values) allowed =
    ground (arith, has_repeats-Distinct values, any-not_contained allowed values)

nonempty_values_lem :
    (id label : String) (values : Option (List String))
    → (validate_nonempty_values id label values ≡ ok tt) ↔ Every IsListing values
unfolding validate_nonempty_values
nonempty_values_lem id label none = (λ h. tt, λ h. refl)
nonempty_values_lem id label (some values) =
    ground (arith, has_repeats-Distinct values, any-is_blank values)

contained-allowed :
    (d : String) (allowed values : List String)
    → All (λ v. contains_str v allowed ≡ true) values
    → contains_str d values ≡ true
    → contains_str d allowed ≡ true
unfolding contains_str
contained-allowed d allowed [] all h = cc
contained-allowed d allowed (v ∷ vs) all h =
    ground (arith, eq_iff v d, contained-allowed d allowed vs all.1)

reasoning_lem :
    (id : String) (efforts : Option (List String)) (default_effort : Option String)
    → (validate_reasoning id efforts default_effort ≡ ok tt)
      ↔ (Every (IsChoice reasoning_efforts) efforts × IsDefault efforts default_effort)
unfolding validate_reasoning validate_default_effort
reasoning_lem id none none = ground arith
reasoning_lem id none (some d) = ground arith
reasoning_lem id (some []) none = ground (arith, has_repeats-Distinct [])
reasoning_lem id (some (v ∷ vs)) none = ground arith
reasoning_lem id (some values) (some d) = ground (
  arith,
  has_repeats-Distinct values,
  any-not_contained reasoning_efforts values,
  contained-allowed d reasoning_efforts values,
)

percent_lem :
    (e : Failure) (percent : Option ℕ)
    → (refuse_if (is_some_and percent (λ n. n == 0 || ltb 100 n)) e ≡ ok tt)
      ↔ Every (λ n. (0 < n) × (n ≤ 100)) percent
percent_lem e none = ground arith
percent_lem e (some n) = ground arith

truncation_lem :
    (e : Failure) (policy : Option CatalogTruncationPolicy)
    → (refuse_if (is_some_and policy (λ p. is_blank p.mode || p.limit == 0)) e ≡ ok tt)
      ↔ Every (λ p. (is_blank p.mode ≡ false) × (0 < p.limit)) policy
truncation_lem e none = ground arith
truncation_lem e (some p) = ground arith

-- A language model is accepted exactly when, of what it gives: its context window and its largest
-- window are positive, and the first is not above the second; its percentage is from 1 to 100; its
-- truncation policy has a mode that is not blank and a positive limit; its input modalities are
-- different known ones, and its efforts too; and its default effort is one of its efforts, and is
-- given when there is an effort.
pub validate_language_model-IsLanguageModel :
    (id : String) (m : RawLanguageModel)
    → (validate_language_model id m ≡ ok tt) ↔ IsLanguageModel m
unfolding validate_language_model
validate_language_model-IsLanguageModel id m =
    let (accepted, settled) =
      both (validate_context_window id m.context_window m.max_context_window) _
        (context_window_lem id m.context_window m.max_context_window)
        (both _ _ (percent_lem _ m.effective_context_window_percent) (
          both _ _ (truncation_lem _ m.truncation_policy) (
            both _ _ (modalities_lem id "输入" m.input_modalities input_modalities)
              (reasoning_lem id m.reasoning_efforts m.default_reasoning_effort)))) in
    (
      λ h.
          let (
            (window, max_window, within),
            (percent, (truncation, (inputs, (efforts, default)))),
          ) =
            accepted h in
          record {
            window = window;
            max_window = max_window;
            within = within;
            percent = percent;
            truncation = truncation;
            inputs = inputs;
            efforts = efforts;
            default_effort = default;
          },
      λ v. settled (
        (v.window, v.max_window, v.within),
        (v.percent, (v.truncation, (v.inputs, (v.efforts, v.default_effort)))),
      ),
    )

-- An image model is accepted exactly when its modalities are different known ones and each of its
-- lists of sizes, qualities, backgrounds and formats has different values of which none is blank.
pub validate_image_generation_model-IsImageGenerationModel :
    (id : String) (m : RawImageGenerationModel)
    → (validate_image_generation_model id m ≡ ok tt) ↔ IsImageGenerationModel m
unfolding validate_image_generation_model
validate_image_generation_model-IsImageGenerationModel id m =
    let (accepted, settled) =
      both (validate_modalities id "输入" m.input_modalities input_modalities) _
        (modalities_lem id "输入" m.input_modalities input_modalities)
        (both _ _ (modalities_lem id "输出" m.output_modalities output_modalities) (
          both _ _ (nonempty_values_lem id "尺寸" m.sizes) (
            both _ _ (nonempty_values_lem id "质量" m.quality_options) (
              both _ _ (nonempty_values_lem id "背景" m.background_options)
                (nonempty_values_lem id "输出格式" m.output_formats))))) in
    (
      λ h.
          let (inputs, (outputs, (sizes, (qualities, (backgrounds, formats))))) = accepted h in
          record {
            inputs = inputs;
            outputs = outputs;
            sizes = sizes;
            qualities = qualities;
            backgrounds = backgrounds;
            formats = formats;
          },
      λ v. settled (v.inputs, (v.outputs, (v.sizes, (v.qualities, (v.backgrounds, v.formats))))),
    )
