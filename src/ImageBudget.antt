-- ===== src/ImageBudget.antt =====
-- The budget of images in a request, src/inbound/v1/responses/image_budget.rs. The policy is an
-- argument; reading it from the environment is not modelled.
pub mod Slots
pub mod Trees
pub mod Removal
pub mod Trimming
pub mod Outcomes
use prelay_server.Base.{
  ℕ, zero, suc, ◌+◌, ◌-◌, Option, none, some, List, [], ◌∷◌, ◌++◌, Bool, false, not, ◌||◌,
  if◌then◌else◌, leb, ◌==◌, length, take,
}
use prelay_server.Text.{Bytes, codes, text_eq}
use prelay_server.Values.{
  Value, null, bool, number, string, array, object, Items, empty_array, item, Fields, empty_object,
  field, get_field, get,
}

pub record ImageBudgetPolicy : Type 0 where
  pub enabled : Bool
  pub keep_last : ℕ
  pub max_bytes : ℕ

pub record ImageBudgetReport : Type 0 where
  pub total_bytes : ℕ
  pub remaining_bytes : ℕ
  pub dropped_images : ℕ

pub data ImageBudgetOutcome : Type 0 where
  disabled : ImageBudgetOutcome
  within_budget : ImageBudgetReport → ImageBudgetOutcome
  trimmed : Value → ImageBudgetReport → ImageBudgetOutcome
  cannot_meet_budget : ImageBudgetReport → ImageBudgetOutcome

pub data PathSegment : Type 0 where
  key : Bytes → PathSegment
  index : ℕ → PathSegment

pub record ImageSlot : Type 0 where
  pub path : List PathSegment
  pub bytes : ℕ

-- `value.and_then(Value::as_str) == Some(text)`.
abbrev pub is_text : Option Value → Bytes → Bool
is_text (some (string s)) text = text_eq s text
is_text _ text = false

unfoldable pub is_image : Fields → Bool
is_image fields = is_text (get_field (codes "type") fields) (codes "input_image")

abbrev text_length : Option Value → ℕ
text_length (some (string s)) = length s
text_length _ = 0

abbrev url_length : Option Value → ℕ
url_length (some (string url)) = length url
url_length (some (object fields)) = text_length (get_field (codes "url") fields)
url_length _ = 0

unfoldable pub image_body_bytes : Fields → ℕ
image_body_bytes part = url_length (get_field (codes "image_url") part)

unfoldable mutual
  unfolding is_image image_body_bytes

  pub collect_images_in_value : Value → List PathSegment → List ImageSlot
  collect_images_in_value (object fields) path =
      let children = collect_fields fields path in
      if is_image fields
      then record { path = path; bytes = image_body_bytes fields } ∷ []
      else children
  collect_images_in_value (array items) path = collect_items items 0 path
  collect_images_in_value null path = []
  collect_images_in_value (bool b) path = []
  collect_images_in_value (number n) path = []
  collect_images_in_value (string s) path = []

  pub collect_items : Items → ℕ → List PathSegment → List ImageSlot
  collect_items empty_array i path = []
  collect_items (item value items) i path =
      collect_images_in_value value (path ++ index i ∷ []) ++ collect_items items (i + 1) path

  pub collect_fields : Fields → List PathSegment → List ImageSlot
  collect_fields empty_object path = []
  collect_fields (field k value fields) path =
      collect_images_in_value value (path ++ key k ∷ []) ++ collect_fields fields path

abbrev collect_in : Option Value → List ImageSlot
collect_in none = []
collect_in (some input) = collect_images_in_value input []

unfoldable pub collect_images : Value → List ImageSlot
collect_images payload = collect_in (get (codes "input") payload)

abbrev with_value {ℓ κ} : {A : Type ℓ} {B : Type κ} → (A → B) → Option A → Option B
with_value f none = none
with_value f (some a) = some (f a)

-- The value at a path replaced by another, if there is one.
unfoldable mutual
  pub replace_at : List PathSegment → Value → Value → Option Value
  replace_at [] new value = some new
  replace_at (key k ∷ path) new (object fields) =
      with_value object (replace_field k path new fields)
  replace_at (index i ∷ path) new (array items) = with_value array (replace_item i path new items)
  replace_at (key k ∷ path) new null = none
  replace_at (key k ∷ path) new (bool b) = none
  replace_at (key k ∷ path) new (number n) = none
  replace_at (key k ∷ path) new (string s) = none
  replace_at (key k ∷ path) new (array items) = none
  replace_at (index i ∷ path) new null = none
  replace_at (index i ∷ path) new (bool b) = none
  replace_at (index i ∷ path) new (number n) = none
  replace_at (index i ∷ path) new (string s) = none
  replace_at (index i ∷ path) new (object fields) = none

  pub replace_field : Bytes → List PathSegment → Value → Fields → Option Fields
  replace_field k path new empty_object = none
  replace_field k path new (field j value fields) =
      let here = with_value (λ v. field j v fields) (replace_at path new value) in
      let later = with_value (field j value) (replace_field k path new fields) in
      if text_eq j k then here else later

  pub replace_item : ℕ → List PathSegment → Value → Items → Option Items
  replace_item i path new empty_array = none
  replace_item zero path new (item value items) =
      with_value (λ v. item v items) (replace_at path new value)
  replace_item (suc i) path new (item value items) =
      with_value (item value) (replace_item i path new items)

abbrev pub total_of : List ImageSlot → ℕ
total_of [] = 0
total_of (image ∷ images) = image.bytes + total_of images

-- The text that stands for an image, by the number of images that are kept, is an argument.
module _ (placeholder_text : ℕ → Bytes) where
  abbrev pub placeholder : ℕ → Value
  placeholder keep_last = object (
      field (codes "type") (string (codes "input_text"))
        (field (codes "text") (string (placeholder_text keep_last)) empty_object))

  unfoldable pub replace_with_placeholder : Value → ImageSlot → ℕ → Option Value
  replace_with_placeholder payload slot keep_last =
      replace_at (key (codes "input") ∷ slot.path) (placeholder keep_last) payload

  pub record Pruned : Type 0 where
    pub payload : Value
    pub remaining_bytes : ℕ
    pub dropped : ℕ

  abbrev pub after_drop : ImageSlot → Pruned → Option Value → Pruned
  after_drop image p none = p
  after_drop image p (some payload) = record {
    payload = payload;
    remaining_bytes = p.remaining_bytes - image.bytes;
    dropped = p.dropped + 1;
  }

  -- The loop over the images that may go.
  pub drop_loop : ImageBudgetPolicy → List ImageSlot → Pruned → Pruned
  drop_loop policy [] p = p
  drop_loop policy (image ∷ images) p =
      let rest =
        drop_loop policy images
          (after_drop image p (replace_with_placeholder p.payload image policy.keep_last)) in
      if leb p.remaining_bytes policy.max_bytes then p else rest

  abbrev pub report : ℕ → ℕ → ℕ → ImageBudgetReport
  report total remaining dropped = record {
    total_bytes = total;
    remaining_bytes = remaining;
    dropped_images = dropped;
  }

  -- What comes of the loop.
  unfoldable pub settled : ImageBudgetPolicy → ℕ → Pruned → ImageBudgetOutcome
  settled policy total p =
      if p.dropped == 0 || not (leb p.remaining_bytes policy.max_bytes)
      then cannot_meet_budget (report total p.remaining_bytes p.dropped)
      else trimmed p.payload (report total p.remaining_bytes p.dropped)

  unfoldable pub apply : Value → ImageBudgetPolicy → ImageBudgetOutcome
  unfolding drop_loop
  apply payload policy =
      let images = collect_images payload in
      let total = total_of images in
      let droppable = length images - policy.keep_last in
      if not policy.enabled
      then disabled
      else if leb total policy.max_bytes
      then within_budget (report total total 0)
      else if droppable == 0
      then cannot_meet_budget (report total total 0)
      else settled policy total (
          drop_loop policy (take droppable images)
            (record { payload = payload; remaining_bytes = total; dropped = 0 }))
