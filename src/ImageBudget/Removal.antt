-- ===== src/ImageBudget/Removal.antt =====
-- That replacing the first image of a value removes just it, src/inbound/v1/responses/image_budget.rs.
use prelay_server.Base.{
  ℕ, suc, ◌+◌, ◌≡◌, refl, ap, ◌∙◌, sym, inl, inr, some, List, [], ◌∷◌, true, false, arith,
  Bool-cases,
}
use prelay_server.Text.{Bytes, codes, text_eq}
use prelay_server.Values.{
  Value, null, bool, number, string, array, object, Items, empty_array, item, Fields, empty_object,
  field, get_field,
}
use prelay_server.ImageBudget.{
  PathSegment, key, index, ImageSlot, is_text, is_image, replace_at, replace_field, replace_item,
}
use prelay_server.ImageBudget.Slots.{slots, slots_of_items, slots_of_fields}
use prelay_server.ImageBudget.Trees.{
  Absent, UniqueKeys, UniqueItems, UniqueFields, IsTree, is_text-tree, Slots-cases, head_or, tail,
}
use prelay_server.Text.Equality.{text_eq_refl}

module _ (new : Value) (new_slots : slots new ≡ []) (new_keys : UniqueKeys new)
    (new_tree : IsTree new) where
  -- The value at the path is replaced, and what remains has the rest of the images.
  abbrev pub Removes : Value → List PathSegment → List ImageSlot → Type 0
  Removes value path rest =
      (value' : Value) × (replace_at path new value ≡ some value')
      × (slots value' ≡ rest)
      × UniqueKeys value'
      × IsTree value'

  abbrev RemovesItem : Items → ℕ → List PathSegment → List ImageSlot → Type 0
  RemovesItem items i path rest =
      (j : ℕ) × (p : List PathSegment) × (items' : Items) × (path ≡ index (i + j) ∷ p)
      × (replace_item j p new items ≡ some items')
      × (slots_of_items items' i ≡ rest)
      × UniqueItems items'

  -- The keys that are absent stay so, and no text comes into a field.
  abbrev Keeps : Fields → Fields → Type 0
  Keeps fields fields' =
      ((j : Bytes) → Absent j fields → Absent j fields')
      × ((name text : Bytes)
          → is_text (get_field name fields) text ≡ false
          → is_text (get_field name fields') text ≡ false)

  abbrev RemovesField : Fields → List PathSegment → List ImageSlot → Type 0
  RemovesField fields path rest =
      (k : Bytes) × (p : List PathSegment) × (fields' : Fields) × (path ≡ key k ∷ p)
      × (replace_field k p new fields ≡ some fields')
      × (slots_of_fields fields' ≡ rest)
      × UniqueFields fields'
      × Keeps fields fields'
      × ((j : Bytes) → Absent j fields → text_eq j k ≡ false)

  item_here :
      (value : Value) (items : Items) (i : ℕ) (slot first : ImageSlot)
      (rest others : List ImageSlot)
      → slots value ≡ first ∷ others
      → slots_of_items (item value items) i ≡ slot ∷ rest
      → UniqueItems items
      → Removes value first.path others
      → RemovesItem (item value items) i slot.path rest
  unfolding slots UniqueKeys replace_at
  item_here value items i slot first rest others here e u (value', replaced, left, unique, tree) =
      let e' = rw here at e in
      (
        0,
        first.path,
        item value' items,
        sym (ap (λ (found : List ImageSlot). (head_or slot found).path) e')
            ∙ ap (λ (n : ℕ). index n ∷ first.path)
                (let zero_later : i ≡ i + 0 = omega arith in zero_later),
        rw replaced refl,
        rw left (ap tail e'),
        (unique, u),
      )

  item_later :
      (value : Value) (items : Items) (i : ℕ) (slot : ImageSlot) (rest : List ImageSlot)
      → slots value ≡ []
      → UniqueKeys value
      → RemovesItem items (i + 1) slot.path rest
      → RemovesItem (item value items) i slot.path rest
  unfolding slots UniqueKeys replace_at
  item_later value items i slot rest none_here u (j, p, items', path, replaced, left, unique) = (
    suc j,
    p,
    item value items',
    path ∙ ap (λ (n : ℕ). index n ∷ p) (let same : i + 1 + j ≡ i + suc j = omega arith in same),
    rw replaced refl,
    rw none_here left,
    (u, unique),
  )

  field_here :
      (k : Bytes) (value : Value) (fields : Fields) (slot first : ImageSlot)
      (rest others : List ImageSlot)
      → slots value ≡ first ∷ others
      → slots_of_fields (field k value fields) ≡ slot ∷ rest
      → Absent k fields
      → UniqueFields fields
      → Removes value first.path others
      → RemovesField (field k value fields) slot.path rest
  unfolding slots UniqueKeys replace_at get_field
  field_here k value fields slot first rest others here e absent u
        (value', replaced, left, unique, tree) =
      let e' = rw here at e in
      (
        k,
        first.path,
        field k value' fields,
        sym (ap (λ (found : List ImageSlot). (head_or slot found).path) e'),
        rw (text_eq_refl k) (rw replaced refl),
        rw left (ap tail e'),
        (absent, unique, u),
        (λ j a. a, λ name text h. ground (arith, h, is_text-tree value' text tree)),
        λ j a. a.0,
      )

  field_later :
      (k : Bytes) (value : Value) (fields : Fields) (slot : ImageSlot) (rest : List ImageSlot)
      → slots value ≡ []
      → Absent k fields
      → UniqueKeys value
      → RemovesField fields slot.path rest
      → RemovesField (field k value fields) slot.path rest
  unfolding slots UniqueKeys replace_at get_field
  field_later k value fields slot rest none_here absent u
        (j, p, fields', path, replaced, left, unique, keeps, other) =
      (
        j,
        p,
        field k value fields',
        path,
        rw (other k absent) (rw replaced refl),
        rw none_here left,
        (keeps.0 k absent, u, unique),
        (λ m a. (a.0, keeps.0 m a.1), λ name text h. ground (arith, h, keeps.1 name text)),
        λ m a. other m a.1,
      )

  object_here :
      (fields : Fields) (slot : ImageSlot) (rest : List ImageSlot)
      → is_image fields ≡ true
      → slots (object fields) ≡ slot ∷ rest
      → Removes (object fields) slot.path rest
  unfolding slots replace_at
  object_here fields slot rest image e =
      let e' = rw image at e in
      let path : [] ≡ slot.path = ap (λ (found : List ImageSlot). (head_or slot found).path) e' in
      (new, rw (← path) refl, new_slots ∙ ap tail e', new_keys, new_tree)

  object_inside :
      (fields : Fields) (slot : ImageSlot) (rest : List ImageSlot)
      → is_image fields ≡ false
      → RemovesField fields slot.path rest
      → Removes (object fields) slot.path rest
  unfolding slots replace_at UniqueKeys is_image
  object_inside fields slot rest not_image (k, p, fields', path, replaced, left, unique, keeps, _) =
      (
        object fields',
        rw path (rw replaced refl),
        rw (keeps.1 (codes "type") (codes "input_image") not_image) left,
        unique,
        tt,
      )

  array_inside :
      (items : Items) (slot : ImageSlot) (rest : List ImageSlot)
      → RemovesItem items 0 slot.path rest
      → Removes (array items) slot.path rest
  unfolding slots replace_at UniqueKeys
  array_inside items slot rest (j, p, items', path, replaced, left, unique) =
      (array items', rw path (ground (arith, replaced)), left, unique, tt)

  mutual
    unfolding slots UniqueKeys

    value-Removes :
        (value : Value) (slot : ImageSlot) (rest : List ImageSlot)
        → slots value ≡ slot ∷ rest
        → UniqueKeys value
        → Removes value slot.path rest
    value-Removes (object fields) slot rest e u = elim (Bool-cases (is_image fields)) [
      | inl image ↦ object_here fields slot rest image e
      | inr not_image ↦
          object_inside fields slot rest not_image
            (fields-RemovesField fields slot rest (rw not_image at e) u)
    ]
    value-Removes (array items) slot rest e u =
        array_inside items slot rest (items-RemovesItem items 0 slot rest e u)
    value-Removes null slot rest e u = absurd (ground arith)
    value-Removes (bool b) slot rest e u = absurd (ground arith)
    value-Removes (number n) slot rest e u = absurd (ground arith)
    value-Removes (string s) slot rest e u = absurd (ground arith)

    items-RemovesItem :
        (items : Items) (i : ℕ) (slot : ImageSlot) (rest : List ImageSlot)
        → slots_of_items items i ≡ slot ∷ rest
        → UniqueItems items
        → RemovesItem items i slot.path rest
    items-RemovesItem empty_array i slot rest e u = absurd (ground arith)
    items-RemovesItem (item value items) i slot rest e u = elim (Slots-cases (slots value)) [
      | inl none_here ↦
          item_later value items i slot rest none_here u.0
            (items-RemovesItem items (i + 1) slot rest (rw none_here at e) u.1)
      | inr (first, others, here) ↦
          item_here value items i slot first rest others here e u.1
            (value-Removes value first others here u.0)
    ]

    fields-RemovesField :
        (fields : Fields) (slot : ImageSlot) (rest : List ImageSlot)
        → slots_of_fields fields ≡ slot ∷ rest
        → UniqueFields fields
        → RemovesField fields slot.path rest
    fields-RemovesField empty_object slot rest e u = absurd (ground arith)
    fields-RemovesField (field k value fields) slot rest e u = elim (Slots-cases (slots value)) [
      | inl none_here ↦
          field_later k value fields slot rest none_here u.0 u.1
            (fields-RemovesField fields slot rest (rw none_here at e) u.2)
      | inr (first, others, here) ↦
          field_here k value fields slot first rest others here e u.0 u.2
            (value-Removes value first others here u.1)
    ]

  -- Replacing at the path of the first image leaves the other images, at their paths.
  pub replace_at-Removes :
      (value : Value) (slot : ImageSlot) (rest : List ImageSlot)
      → slots value ≡ slot ∷ rest
      → UniqueKeys value
      → Removes value slot.path rest
  replace_at-Removes value slot rest e u = value-Removes value slot rest e u

  -- The same at a field of an object.
  pub replace_field-get :
      (k : Bytes) (path : List PathSegment) (fields : Fields) (value value' : Value)
      → get_field k fields ≡ some value
      → replace_at path new value ≡ some value'
      → (fields' : Fields) × (replace_field k path new fields ≡ some fields')
        × (get_field k fields' ≡ some value')
  unfolding get_field replace_at
  replace_field-get k path empty_object value value' g r = absurd (ground arith)
  replace_field-get k path (field j v fields) value value' g r = elim (Bool-cases (text_eq j k)) [
    | inl same ↦
        let here : v ≡ value = ground (arith, g) in
        let r' : replace_at path new v ≡ some value' = ap (replace_at path new) here ∙ r in
        (field j value' fields, rw same (rw r' refl), rw same refl)
    | inr other ↦
        let (fields', replaced, found) =
          replace_field-get k path fields value value' (rw other at g) r in
        (field j v fields', rw other (rw replaced refl), rw other found)
  ]
