-- ===== src/ImageBudget/Trimming.antt =====
-- What the budget does to a request, src/inbound/v1/responses/image_budget.rs.
use prelay_server.Base.{
  ℕ, ◌+◌, ◌-◌, ◌≤◌, ◌≡◌, refl, ap, ◌∙◌, sym, ◌⊎◌, inl, inr, Option, none, some, List, [], ◌∷◌, ◌++◌,
  leb, length, arith, Bool-cases, Option-cases,
}
use prelay_server.Text.{Bytes, codes, text_eq}
use prelay_server.Values.{Value, null, bool, number, string, array, object, get_field, get}
use prelay_server.ImageBudget.{
  ImageBudgetPolicy, ImageSlot, is_image, collect_images, replace_at, placeholder,
  replace_with_placeholder, Pruned, drop_loop, total_of,
}
use prelay_server.ImageBudget.Slots.{slots, collect-slots}
use prelay_server.ImageBudget.Trees.{UniqueKeys}
use prelay_server.ImageBudget.Removal.{replace_at-Removes, replace_field-get}

-- The input of a request has no object with a key twice.
abbrev UniqueIn : Option Value → Type 0
UniqueIn none = Unit
UniqueIn (some input) = UniqueKeys input

abbrev pub UniqueInput : Value → Type 0
UniqueInput payload = UniqueIn (get (codes "input") payload)

module _ (placeholder_text : ℕ → Bytes) where
  slots-placeholder : (n : ℕ) → slots (placeholder placeholder_text n) ≡ []
  unfolding slots text_eq get_field is_image
  slots-placeholder n = refl

  placeholder-UniqueKeys : (n : ℕ) → UniqueKeys (placeholder placeholder_text n)
  unfolding UniqueKeys text_eq
  placeholder-UniqueKeys n = ((refl, tt), tt, (tt, tt, tt))

  -- A request from which the first image is gone.
  abbrev RemovesFirst : Value → ImageSlot → ℕ → List ImageSlot → Type 0
  RemovesFirst payload slot n rest =
      (payload' : Value) × (replace_with_placeholder placeholder_text payload slot n
        ≡ some payload')
      × (collect_images payload' ≡ rest)
      × UniqueInput payload'

  replace_with_placeholder-RemovesFirst :
      (payload : Value) (slot : ImageSlot) (n : ℕ) (rest : List ImageSlot)
      → collect_images payload ≡ slot ∷ rest
      → UniqueInput payload
      → RemovesFirst payload slot n rest
  unfolding collect_images replace_with_placeholder replace_at
  replace_with_placeholder-RemovesFirst (object fields) slot n rest e u =
      elim (Option-cases (get_field (codes "input") fields)) [
        | inl nothing ↦ absurd (ground arith)
        | inr (input, found) ↦
            let (input', replaced, left, unique, _) =
              replace_at-Removes (placeholder placeholder_text n) (slots-placeholder n)
                (placeholder-UniqueKeys n) tt input slot rest
                (sym (collect-slots input) ∙ rw found at e) (rw found at u) in
            let (fields', at_field, get') =
              replace_field-get (placeholder placeholder_text n) (slots-placeholder n)
                (placeholder-UniqueKeys n) tt (codes "input") slot.path fields input input' found
                replaced in
            (
              object fields',
              rw at_field refl,
              rw get' (collect-slots input' ∙ left),
              rw get' unique,
            )
      ]
  replace_with_placeholder-RemovesFirst null slot n rest e u = absurd (ground arith)
  replace_with_placeholder-RemovesFirst (bool b) slot n rest e u = absurd (ground arith)
  replace_with_placeholder-RemovesFirst (number m) slot n rest e u = absurd (ground arith)
  replace_with_placeholder-RemovesFirst (string s) slot n rest e u = absurd (ground arith)
  replace_with_placeholder-RemovesFirst (array items) slot n rest e u = absurd (ground arith)

  -- Where the loop stops: some of the images are gone, and those that are left and those that were
  -- never to go are the images of the request.
  abbrev pub Stops :
      ImageBudgetPolicy → List ImageSlot → List ImageSlot → ℕ → Pruned placeholder_text → Type 0
  Stops policy images kept dropped q =
      (gone : List ImageSlot) × (left : List ImageSlot) × (images ≡ gone ++ left)
      × (collect_images q.payload ≡ left ++ kept)
      × (q.remaining_bytes ≡ total_of (left ++ kept))
      × (q.dropped ≡ dropped + length gone)
      × ((left ≡ []) ⊎ (q.remaining_bytes ≤ policy.max_bytes))

  Stops-more :
      (policy : ImageBudgetPolicy) (image : ImageSlot) (images kept : List ImageSlot) (dropped : ℕ)
      (q : Pruned placeholder_text)
      → Stops policy images kept (dropped + 1) q
      → Stops policy (image ∷ images) kept dropped q
  Stops-more policy image images kept dropped q (gone, left, split, collected, bytes, count, why) =
      (
        image ∷ gone,
        left,
        ap (λ rest. image ∷ rest) split,
        collected,
        bytes,
        omega (arith, count),
        why,
      )

  pub drop_loop-Stops :
      (policy : ImageBudgetPolicy) (images kept : List ImageSlot) (p : Pruned placeholder_text)
      → collect_images p.payload ≡ images ++ kept
      → p.remaining_bytes ≡ total_of (images ++ kept)
      → UniqueInput p.payload
      → Stops policy images kept p.dropped (drop_loop placeholder_text policy images p)
  unfolding drop_loop
  drop_loop-Stops policy [] kept p c b u = ([], [], refl, c, b, omega arith, inl refl)
  drop_loop-Stops policy (image ∷ images) kept p c b u =
      let (payload', replaced, left, unique) =
        replace_with_placeholder-RemovesFirst p.payload image policy.keep_last (images ++ kept) c
          u in
      let next : Pruned placeholder_text = record {
        payload = payload';
        remaining_bytes = p.remaining_bytes - image.bytes;
        dropped = p.dropped + 1;
      } in
      elim (Bool-cases (leb p.remaining_bytes policy.max_bytes)) [
        | inl enough ↦ rw enough ([], image ∷ images, refl, c, b, omega arith, inr (ground arith))
        | inr more ↦ rw more (
            rw replaced (
              Stops-more policy image images kept p.dropped
                (drop_loop placeholder_text policy images next)
                (drop_loop-Stops policy images kept next left (omega (arith, b)) unique)))
      ]
