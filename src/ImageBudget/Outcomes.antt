-- ===== src/ImageBudget/Outcomes.antt =====
-- What a request is sent with, and when it is refused, src/inbound/v1/responses/image_budget.rs.
use mathlib.Core.List.{append_assoc}
use prelay_server.Base.{
  ℕ, ◌+◌, ◌-◌, ◌≤◌, ◌<◌, ◌≡◌, ap, ◌∙◌, sym, ◌⊎◌, inl, inr, List, [], ◌∷◌, ◌++◌, true, false, not,
  ◌||◌, leb, ◌==◌, length, length-append, length-drop, take, drop, take-append-drop, arith,
  if-cases,
}
use prelay_server.Text.{Bytes}
use prelay_server.Values.{Value}
use prelay_server.ImageBudget.{
  ImageBudgetPolicy, ImageBudgetReport, trimmed, cannot_meet_budget, ImageSlot, collect_images,
  Pruned, drop_loop, total_of, report, settled, apply,
}
use prelay_server.ImageBudget.Trimming.{UniqueInput, Stops, drop_loop-Stops}

-- The images that are never to go.
abbrev pub kept_images : ImageBudgetPolicy → List ImageSlot → List ImageSlot
kept_images policy images = drop (length images - policy.keep_last) images

-- A request whose oldest images are gone: the others are at their places, they fit the budget, as
-- the report tells, and the last ones are among them.
abbrev pub IsTrimmed : ImageBudgetPolicy → Value → Value → ImageBudgetReport → Type 0
IsTrimmed policy payload pruned r =
    (gone : List ImageSlot) × (collect_images payload ≡ gone ++ collect_images pruned)
    × (r.dropped_images ≡ length gone)
    × (r.total_bytes ≡ total_of (collect_images payload))
    × (r.remaining_bytes ≡ total_of (collect_images pruned))
    × (r.remaining_bytes ≤ policy.max_bytes)
    × (policy.keep_last ≤ length (collect_images pruned))

total_of-append : (xs ys : List ImageSlot) → total_of (xs ++ ys) ≡ total_of xs + total_of ys
total_of-append [] ys = omega arith
total_of-append (x ∷ xs) ys = omega (arith, total_of-append xs ys)

over_budget :
    (most remaining dropped : ℕ) (gone left kept : List ImageSlot)
    → most < total_of gone + total_of left + total_of kept
    → remaining ≡ total_of (left ++ kept)
    → dropped ≡ 0 + length gone
    → (left ≡ []) ⊎ (remaining ≤ most)
    → (dropped == 0 || not (leb remaining most)) ≡ true
    → most < total_of kept
over_budget most remaining dropped [] left kept over bytes count (inl e) refused =
    omega (arith, ap total_of e)
over_budget most remaining dropped [] left kept over bytes count (inr fits) refused =
    absurd (omega (arith, total_of-append left kept))
over_budget most remaining dropped (g ∷ gone) left kept over bytes count (inl e) refused =
    let more : most < remaining = ground (arith, refused, count) in
    omega (arith, total_of-append left kept, ap total_of e)
over_budget most remaining dropped (g ∷ gone) left kept over bytes count (inr fits) refused =
    absurd (ground (arith, refused, count))

module _ (placeholder_text : ℕ → Bytes) where
  abbrev after_loop : Value → ImageBudgetPolicy → Pruned placeholder_text
  after_loop payload policy =
      let images = collect_images payload in
      drop_loop placeholder_text policy (take (length images - policy.keep_last) images)
        (record { payload = payload; remaining_bytes = total_of images; dropped = 0 })

  after_loop-Stops :
      (payload : Value) (policy : ImageBudgetPolicy)
      → UniqueInput payload
      → Stops placeholder_text policy
          (take (length (collect_images payload) - policy.keep_last) (collect_images payload))
          (kept_images policy (collect_images payload))
          0
          (after_loop payload policy)
  after_loop-Stops payload policy u =
      let images = collect_images payload in
      let n = length images - policy.keep_last in
      drop_loop-Stops placeholder_text policy (take n images) (drop n images)
        (record { payload = payload; remaining_bytes = total_of images; dropped = 0 })
        (sym (take-append-drop n images)) (ap total_of (sym (take-append-drop n images))) u

  settled-IsTrimmed :
      (payload pruned : Value) (policy : ImageBudgetPolicy) (r : ImageBudgetReport)
      → UniqueInput payload
      → (length (collect_images payload) - policy.keep_last == 0) ≡ false
      → settled placeholder_text policy
          (total_of (collect_images payload))
          (after_loop payload policy)
        ≡ trimmed pruned r
      → IsTrimmed policy payload pruned r
  unfolding settled
  settled-IsTrimmed payload pruned policy r u some_may_go h =
      let images = collect_images payload in
      let n = length images - policy.keep_last in
      let positive : 1 ≤ n = ground (arith, some_may_go) in
      let q = after_loop payload policy in
      let (gone, left, split, collected, bytes, count, why) = after_loop-Stops payload policy u in
      elim (if-cases (q.dropped == 0 || not (leb q.remaining_bytes policy.max_bytes)) _ _ h) [
        | inl (_, h) ↦ absurd (ground arith)
        | inr (fits, h) ↦
            let same : q.payload ≡ pruned = ground (arith, h) in
            let reported : report placeholder_text (total_of images) q.remaining_bytes q.dropped
                ≡ r =
              ground (arith, h) in
            let rest : collect_images pruned ≡ left ++ drop n images =
              ap collect_images (sym same) ∙ collected in
            (
              gone,
              sym (take-append-drop n images)
                  ∙ ap (λ (a : List ImageSlot). a ++ drop n images) split
                  ∙ append_assoc gone left (drop n images)
                  ∙ ap (λ (a : List ImageSlot). gone ++ a) (sym rest),
              ground (arith, reported, count),
              ground (arith, reported),
              ap (λ (r : ImageBudgetReport). r.remaining_bytes) (sym reported)
                  ∙ bytes
                  ∙ ap total_of (sym rest),
              ground (arith, reported, fits),
              omega (
                arith,
                ap length rest,
                length-append left (drop n images),
                length-drop n images,
                positive,
              ),
            )
      ]

  settled-refuses :
      (payload : Value) (policy : ImageBudgetPolicy) (r : ImageBudgetReport)
      → UniqueInput payload
      → policy.max_bytes < total_of (collect_images payload)
      → settled placeholder_text policy
          (total_of (collect_images payload))
          (after_loop payload policy)
        ≡ cannot_meet_budget r
      → policy.max_bytes < total_of (kept_images policy (collect_images payload))
  unfolding settled
  settled-refuses payload policy r u over h =
      let images = collect_images payload in
      let n = length images - policy.keep_last in
      let q = after_loop payload policy in
      let (gone, left, split, collected, bytes, count, why) = after_loop-Stops payload policy u in
      elim (if-cases (q.dropped == 0 || not (leb q.remaining_bytes policy.max_bytes)) _ _ h) [
        | inr (_, h) ↦ absurd (ground arith)
        | inl (refused, h) ↦
            over_budget policy.max_bytes q.remaining_bytes q.dropped gone left (drop n images)
              (let e : total_of images ≡ total_of (take n images ++ drop n images) =
                  ap total_of (sym (take-append-drop n images)) in
                omega (
                  arith,
                  e,
                  total_of-append (take n images) (drop n images),
                  total_of-append gone left,
                  ap total_of split,
                ))
              bytes count why refused
      ]

  -- A request is sent with images left out only if the budget is on and they did not fit: some of the oldest
  -- images are gone, those that are left are at their places and fit the budget, as the report
  -- tells, and the last ones, as many as are to be kept, are among them.
  pub apply-IsTrimmed :
      (payload pruned : Value) (policy : ImageBudgetPolicy) (r : ImageBudgetReport)
      → UniqueInput payload
      → apply placeholder_text payload policy ≡ trimmed pruned r
      → (policy.enabled ≡ true)
        × (policy.max_bytes < total_of (collect_images payload))
        × IsTrimmed policy payload pruned r
  unfolding apply
  apply-IsTrimmed payload pruned policy r u h =
      let images = collect_images payload in
      elim (if-cases (not policy.enabled) _ _ h) [
        | inl (_, h) ↦ absurd (ground arith)
        | inr (on, h) ↦ elim (if-cases (leb (total_of images) policy.max_bytes) _ _ h) [
          | inl (_, h) ↦ absurd (ground arith)
          | inr (over, h) ↦ elim (if-cases (length images - policy.keep_last == 0) _ _ h) [
            | inl (_, h) ↦ absurd (ground arith)
            | inr (some_may_go, h) ↦ (
              ground arith,
              ground arith,
              settled-IsTrimmed payload pruned policy r u some_may_go h,
            )
          ]
        ]
      ]

  -- A request is refused only if the images that are to be kept alone do not fit the budget.
  pub apply-refuses :
      (payload : Value) (policy : ImageBudgetPolicy) (r : ImageBudgetReport)
      → UniqueInput payload
      → apply placeholder_text payload policy ≡ cannot_meet_budget r
      → (policy.enabled ≡ true)
        × (policy.max_bytes < total_of (kept_images policy (collect_images payload)))
  unfolding apply
  apply-refuses payload policy r u h =
      let images = collect_images payload in
      elim (if-cases (not policy.enabled) _ _ h) [
        | inl (_, h) ↦ absurd (ground arith)
        | inr (on, h) ↦ elim (if-cases (leb (total_of images) policy.max_bytes) _ _ h) [
          | inl (_, h) ↦ absurd (ground arith)
          | inr (over, h) ↦ elim (if-cases (length images - policy.keep_last == 0) _ _ h) [
            | inl (none_may_go, _) ↦
                let zero_dropped : length images - policy.keep_last ≡ 0 =
                  ground (arith, none_may_go) in
                (ground arith, rw zero_dropped (ground (arith, over)))
            | inr (_, h) ↦
                (ground arith, settled-refuses payload policy r u (ground (arith, over)) h)
          ]
        ]
      ]
