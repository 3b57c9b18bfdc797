-- ===== src/Examples/Budgets.antt =====
-- The budget of images at concrete input.
use prelay_server.Base.{ℕ, ◌≡◌, ◌<◌, refl, true}
use prelay_server.Text.{Bytes, codes, text_eq}
use prelay_server.Values.{
  Value, string, array, object, empty_array, item, empty_object, field, get_field,
}
use prelay_server.ImageBudget.{
  ImageBudgetPolicy, placeholder, collect_images, collect_images_in_value, replace_at,
  replace_with_placeholder, total_of, report, settled, apply,
}
use prelay_server.ImageBudget.Trees.{UniqueKeys}
use prelay_server.ImageBudget.Trimming.{UniqueInput}
use prelay_server.ImageBudget.Outcomes.{IsTrimmed, kept_images, apply-IsTrimmed, apply-refuses}

abbrev left_out : ℕ → Bytes
left_out keep_last = codes "left out"

abbrev image_of : Bytes → Value
image_of url = object (
    field (codes "type") (string (codes "input_image"))
      (field (codes "image_url") (string url) empty_object))

abbrev request_of : Value → Value → Value
request_of first second = object (
    field (codes "input")
      (array (item first (item (string (codes "hi")) (item second empty_array)))) empty_object)

abbrev two_images : Value
two_images = request_of (image_of (codes "aaaa")) (image_of (codes "bbb"))

abbrev keep_one : ℕ → ImageBudgetPolicy
keep_one max_bytes = record { enabled = true; keep_last = 1; max_bytes = max_bytes }

two_images-UniqueInput : UniqueInput two_images
unfolding UniqueKeys get_field text_eq
two_images-UniqueInput =
    (((refl, tt), tt, (tt, tt, tt)), (tt, (((refl, tt), tt, (tt, tt, tt)), tt)))

apply-IsTrimmed_example :
    ((keep_one 5).enabled ≡ true)
    × (5 < total_of (collect_images two_images))
    × IsTrimmed
        (keep_one 5)
        two_images
        (request_of (placeholder left_out 1) (image_of (codes "bbb")))
        (report left_out 7 3 1)
unfolding apply collect_images collect_images_in_value replace_with_placeholder replace_at settled
    get_field text_eq
apply-IsTrimmed_example =
    apply-IsTrimmed left_out two_images
      (request_of (placeholder left_out 1) (image_of (codes "bbb"))) (keep_one 5)
      (report left_out 7 3 1) two_images-UniqueInput refl

apply-refuses_example :
    ((keep_one 2).enabled ≡ true)
    × (2 < total_of (kept_images (keep_one 2) (collect_images two_images)))
unfolding apply collect_images collect_images_in_value replace_with_placeholder replace_at settled
    get_field text_eq
apply-refuses_example =
    apply-refuses left_out two_images (keep_one 2) (report left_out 7 3 1) two_images-UniqueInput
      refl
