-- ===== src/ImageBudget/Slots.antt =====
-- The images of a value with their paths from the value, src/inbound/v1/responses/image_budget.rs.
use mathlib.Core.List.{append-nil, append_assoc, map-append}
use prelay_server.Base.{
  ℕ, ◌+◌, ◌≡◌, refl, sym, ap, ◌∙◌, List, [], ◌∷◌, ◌++◌, if◌then◌else◌, map, arith,
}
use prelay_server.Values.{
  Value, null, bool, number, string, array, object, Items, empty_array, item, Fields, empty_object,
  field,
}
use prelay_server.ImageBudget.{
  PathSegment, key, index, ImageSlot, is_image, image_body_bytes, collect_images_in_value,
  collect_items, collect_fields,
}

abbrev pub under : PathSegment → ImageSlot → ImageSlot
under segment slot = record { path = segment ∷ slot.path; bytes = slot.bytes }

abbrev behind : List PathSegment → ImageSlot → ImageSlot
behind path slot = record { path = path ++ slot.path; bytes = slot.bytes }

unfoldable mutual
  pub slots : Value → List ImageSlot
  slots (object fields) =
      let children = slots_of_fields fields in
      if is_image fields
      then record { path = []; bytes = image_body_bytes fields } ∷ []
      else children
  slots (array items) = slots_of_items items 0
  slots null = []
  slots (bool b) = []
  slots (number n) = []
  slots (string s) = []

  pub slots_of_items : Items → ℕ → List ImageSlot
  slots_of_items empty_array i = []
  slots_of_items (item value items) i =
      map (under (index i)) (slots value) ++ slots_of_items items (i + 1)

  pub slots_of_fields : Fields → List ImageSlot
  slots_of_fields empty_object = []
  slots_of_fields (field k value fields) =
      map (under (key k)) (slots value) ++ slots_of_fields fields

map-under :
    (path : List PathSegment) (segment : PathSegment) (found : List ImageSlot)
    → map (behind (path ++ segment ∷ [])) found ≡ map (behind path) (map (under segment) found)
map-under path segment [] = refl
map-under path segment (slot ∷ found) =
    ground (arith, map-under path segment found, append_assoc path (segment ∷ []) slot.path)

mutual
  unfolding collect_images_in_value slots

  collect_value-slots :
      (value : Value) (path : List PathSegment)
      → collect_images_in_value value path ≡ map (behind path) (slots value)
  collect_value-slots (object fields) path =
      ground (arith, collect_fields-slots fields path, append-nil path)
  collect_value-slots (array items) path = collect_items-slots items 0 path
  collect_value-slots null path = refl
  collect_value-slots (bool b) path = refl
  collect_value-slots (number n) path = refl
  collect_value-slots (string s) path = refl

  collect_items-slots :
      (items : Items) (i : ℕ) (path : List PathSegment)
      → collect_items items i path ≡ map (behind path) (slots_of_items items i)
  collect_items-slots empty_array i path = refl
  collect_items-slots (item value items) i path =
      rw
        (
          collect_value-slots value (path ++ index i ∷ []),
          collect_items-slots items (i + 1) path,
          map-under path (index i) (slots value),
        )
        (sym (
          map-append (behind path) (map (under (index i)) (slots value))
            (slots_of_items items (i + 1))))

  collect_fields-slots :
      (fields : Fields) (path : List PathSegment)
      → collect_fields fields path ≡ map (behind path) (slots_of_fields fields)
  collect_fields-slots empty_object path = refl
  collect_fields-slots (field k value fields) path =
      rw
        (
          collect_value-slots value (path ++ key k ∷ []),
          collect_fields-slots fields path,
          map-under path (key k) (slots value),
        )
        (sym
          (map-append (behind path) (map (under (key k)) (slots value)) (slots_of_fields fields)))

map-behind_nil : (found : List ImageSlot) → map (behind []) found ≡ found
map-behind_nil [] = refl
map-behind_nil (slot ∷ found) = ap (λ rest. slot ∷ rest) (map-behind_nil found)

-- Collecting with an empty path.
pub collect-slots : (value : Value) → collect_images_in_value value [] ≡ slots value
collect-slots value = collect_value-slots value [] ∙ map-behind_nil (slots value)
