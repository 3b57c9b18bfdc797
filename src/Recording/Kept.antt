-- ===== src/Recording/Kept.antt =====
-- What the operations of a recording do to its open rollout.
use mathlib.Core.Path.{subst}
use prelay_server.Base.{
  ℕ, ◌≡◌, refl, sym, ◌∙◌, ◌⊎◌, String, Option, none, some, [], ◌∷◌, ◌++◌, Bool, true, false, not,
  ◌||◌, ◌&&◌, if◌then◌else◌, arith, Bool-cases, inl, inr, is_empty, map,
}
use prelay_server.Recording.Calls.{
  StoreCall, Connections, RolloutStatus, failed, completed, StreamSession, InternalResponse,
  content,
}
use prelay_server.Recording.Session.{response_from_stream_session}
use prelay_server.Recording.State.{
  Item, chunk, broken, StreamRecordState, append_all, captured, stats_snapshot, error_events, call,
  write_rollout, finalize_rollout, save_stream_response_state, save_session,
  save_stream_state_if_ready, record_final_usage, record_stream_error, observe_error,
  observe_content, observe_item, stream_completed, record_stream_end, record_downstream_disconnect,
}
use prelay_server.Recording.Forwarding.{Now, at_time}
use prelay_server.Recording.Finished.{
  Ending, succeeded, broke, left, Grows, Grows-append, IsOpen, IsDone, Grows-IsFinished,
  settle_rollout-Outcome, finalize_rollout_inserted, finalize_rollout_done, finalize_rollout_open,
}

module _ {W C D S X : Type 0} (io : Connections W C D S X) (rollout : W) where
  abbrev pub State : Type 0
  State = StreamRecordState W C S X

  -- A recording whose activity is in the store has its rollout still, or has finished it.
  unfoldable pub Kept : State → Type 0
  Kept s = (s.inserted ≡ false) ⊎ (IsOpen rollout s ⊎ IsDone io rollout s)

  -- It has finished it.
  unfoldable pub Closed : State → Type 0
  Closed s = (s.inserted ≡ false) ⊎ IsDone io rollout s

  -- What both are about is the same, and no call of the store is gone.
  unfoldable pub Same : State → State → Type 0
  Same s s' =
      (s'.inserted ≡ s.inserted)
      × (s'.rollout_finalized ≡ s.rollout_finalized)
      × (s'.rollout ≡ s.rollout)
      × Grows s.store s'.store

  Closed-Kept : (s : State) → Closed s → Kept s
  unfolding Kept Closed
  Closed-Kept s (inl absent) = inl absent
  Closed-Kept s (inr done) = inr (inr done)

  Same-Done : (s s' : State) → Same s s' → IsDone io rollout s → IsDone io rollout s'
  unfolding Same
  Same-Done s s' (inserted, finalized, held, grows) (flag, finished) =
      (finalized ∙ flag, Grows-IsFinished io rollout s.store s'.store grows finished)

  Same-Kept : (s s' : State) → Same s s' → Kept s → Kept s'
  unfolding Kept Same
  Same-Kept s s' (inserted, finalized, held, grows) (inl absent) = inl (inserted ∙ absent)
  Same-Kept s s' (inserted, finalized, held, grows) (inr (inl (flag, own))) =
      inr (inl (finalized ∙ flag, held ∙ own))
  Same-Kept s s' same (inr (inr done)) = inr (inr (Same-Done s s' same done))

  Same-Closed : (s s' : State) → Same s s' → Closed s → Closed s'
  unfolding Closed Same
  Same-Closed s s' (inserted, finalized, held, grows) (inl absent) = inl (inserted ∙ absent)
  Same-Closed s s' same (inr done) = inr (Same-Done s s' same done)

  write_rollout-IsDone :
      (status : RolloutStatus) (http_status : Option ℕ) (code message : Option String) (s : State)
      → Ending status http_status code message
      → s.inserted ≡ true
      → IsDone io rollout (write_rollout io status http_status code message rollout s)
  unfolding write_rollout
  write_rollout-IsDone status http_status code message s ending h =
      let (capture, events) = captured io s.content_capture (stats_snapshot io s) in
      let drafts = map content events ++ error_events code message http_status in
      let (last, append_failed) = append_all io drafts rollout in
      (
        refl,
        record {
          events = events;
          status = status;
          http_status = http_status;
          code = code;
          message = message;
          ending = ending;
          outcome =
              settle_rollout-Outcome io append_failed _
                (record s { rollout = none; content_capture = capture }) h;
        },
      )

  finalize_rollout-Closed :
      (status : RolloutStatus) (http_status : Option ℕ) (code message : Option String) (s : State)
      → Ending status http_status code message
      → Kept s
      → Closed (finalize_rollout io status http_status code message s)
  unfolding Kept Closed
  finalize_rollout-Closed status http_status code message s ending (inl absent) =
      inl (finalize_rollout_inserted io status http_status code message s ∙ absent)
  finalize_rollout-Closed status http_status code message s ending (inr (inl (flag, own))) =
      elim (Bool-cases s.inserted) [
        | inl kept ↦ inr (
            subst (IsDone io rollout)
              (sym (finalize_rollout_open io rollout status http_status code message s (flag, own)))
              (write_rollout-IsDone status http_status code message s ending kept))
        | inr absent ↦ inl (finalize_rollout_inserted io status http_status code message s ∙ absent)
      ]
  finalize_rollout-Closed status http_status code message s ending (inr (inr (flag, finished))) =
      inr (
        subst (IsDone io rollout)
          (sym (finalize_rollout_done io status http_status code message s flag)) (flag, finished))

  Same-refl : (s : State) → Same s s
  unfolding Same
  Same-refl s = (refl, refl, refl, λ c h. h)

  choose_Same : (b : Bool) (s t u : State) → Same s t → Same s u → Same s (if b then t else u)
  choose_Same true s t u ht hu = ht
  choose_Same false s t u ht hu = hu

  -- One more call of the store.
  called_Same : (c : StoreCall S X) (s : State) → Same s (call io c s)
  unfolding Same
  called_Same c s = (refl, refl, refl, Grows-append s.store (c ∷ []))

  save_response-Same :
      (session : StreamSession X) (response : Option InternalResponse) (s : State)
      → Same s (save_stream_response_state io session response s)
  unfolding save_stream_response_state Same
  save_response-Same session none s = Same-refl s
  save_response-Same session (some response) s = (refl, refl, refl, Grows-append s.store (_ ∷ []))

  save_session-Same : (session : StreamSession X) (s : State) → Same s (save_session io session s)
  unfolding save_session Same
  save_session-Same session s =
      choose_Same (not (stats_snapshot io s).completed) s _ _ (Same-refl s) (
        choose_Same (is_empty (stats_snapshot io s).response_output_items) s _ _
          (refl, refl, refl, λ c h. h)
          (save_response-Same session (response_from_stream_session session (stats_snapshot io s))
            s))

  save_held-Same :
      (held : Option (StreamSession X)) (s : State)
      → Same s (elim held [ none ↦ s | some session ↦ save_session io session s ])
  save_held-Same none s = Same-refl s
  save_held-Same (some session) s = save_session-Same session s

  save_stream_state_if_ready-Same : (s : State) → Same s (save_stream_state_if_ready io s)
  unfolding save_stream_state_if_ready
  save_stream_state_if_ready-Same s = save_held-Same s.session s

  record_final_usage-Same : (s : State) → Same s (record_final_usage io s)
  unfolding record_final_usage Same
  record_final_usage-Same s =
      choose_Same (s.usage_recorded || not (stats_snapshot io s).final_usage_seen) s _ _
        (Same-refl s) (refl, refl, refl, Grows-append s.store (_ ∷ []))

  -- The marks of a failure are not what it depends on.
  marked_Kept :
      (s : State) (c : StoreCall S X) (session : Option (StreamSession X)) (fails : Bool)
      → Kept s
      → Kept (record s { store = s.store ++ c ∷ []; session = session; failed = fails })
  marked_Kept s c session fails h =
      Same-Kept s _ (unfold Same in (refl, refl, refl, Grows-append s.store (c ∷ []))) h

  record_stream_error-Closed :
      (message : String) (s : State) → Kept s → Closed (record_stream_error io message s)
  unfolding record_stream_error
  record_stream_error-Closed message s h =
      finalize_rollout-Closed failed (some 502) (some "stream_error") (some message) _
        (broke message) (marked_Kept s _ none true h)

  pub choose_Closed : (b : Bool) (t u : State) → Closed t → Closed u → Closed (if b then t else u)
  choose_Closed true t u ht hu = ht
  choose_Closed false t u ht hu = hu

  pub not_inserted : (s : State) → s.inserted ≡ false → Closed s
  unfolding Closed
  not_inserted s h = inl h

  observe_error-Closed :
      (message : String) (s : State) → Kept s → Closed (observe_error io (broken message) s)
  unfolding observe_error
  observe_error-Closed message s h = elim (Bool-cases s.inserted) [
    | inl kept ↦ subst Closed (sym (simp kept)) (
        choose_Closed s.failed _ _
          (finalize_rollout-Closed failed (some 502) (some "stream_error") (some message) s
            (broke message) h)
          (record_stream_error-Closed message s h))
    | inr absent ↦ subst Closed (sym (simp absent)) (not_inserted s absent)
  ]

  observe_content-Same : (next : Item) (s : State) → Same s (observe_content io next s)
  unfolding observe_content Same
  observe_content-Same (broken message) s = Same-refl s
  observe_content-Same (chunk bytes) s =
      elim s.content_capture
        as (λ held. Same s (elim held [
          | none ↦ s
          | some capture ↦ record s { content_capture = some (io.observe_chunk capture bytes) }
        ])) [ none ↦ Same-refl s | some capture ↦ (refl, refl, refl, λ c h. h) ]

  then-Same : (s t u : State) → Same s t → Same t u → Same s u
  unfolding Same
  then-Same s t u (inserted, finalized, held, grows) (inserted', finalized', held', grows') =
      (inserted' ∙ inserted, finalized' ∙ finalized, held' ∙ held, λ c h. grows' c (grows c h))

  -- What follows the error's part of `observe_item`.
  observe_rest-Same :
      (next : Item) (s : State)
      → let s' = observe_content io next s in
        Same s (
          if s'.inserted && not s'.failed
          then save_stream_state_if_ready io (record_final_usage io s')
          else s')
  observe_rest-Same next s =
      let s' = observe_content io next s in
      let used = record_final_usage io s' in
      let content = observe_content-Same next s in
      choose_Same _ s _ _
        (then-Same s s' _ content
          (then-Same s' used _ (record_final_usage-Same s') (save_stream_state_if_ready-Same used)))
        content

  pub observe_item-Kept : (next : Item) (s : State) → Kept s → Kept (observe_item io next s)
  unfolding observe_item
  observe_item-Kept (broken message) s h =
      let s' = observe_error io (broken message) s in
      Same-Kept s' _ (observe_rest-Same (broken message) s')
        (Closed-Kept s' (observe_error-Closed message s h))
  observe_item-Kept (chunk bytes) s h =
      unfold observe_error in Same-Kept s _ (observe_rest-Same (chunk bytes) s) h

  pub observe_item-Closed :
      (message : String) (s : State) → Kept s → Closed (observe_item io (broken message) s)
  unfolding observe_item
  observe_item-Closed message s h =
      let s' = observe_error io (broken message) s in
      Same-Closed s' _ (observe_rest-Same (broken message) s') (observe_error-Closed message s h)

  choose_Kept : (b : Bool) (t u : State) → Kept t → Kept u → Kept (if b then t else u)
  choose_Kept true t u ht hu = ht
  choose_Kept false t u ht hu = hu

  unless_inserted :
      (b : Bool) (t u : State) → (b ≡ true → Closed t) → Closed u → Closed (if b then t else u)
  unless_inserted true t u ht hu = ht refl
  unless_inserted false t u ht hu = hu

  pub record_stream_end-Closed : (s : State) → Kept s → Closed (record_stream_end io s)
  unfolding record_stream_end
  record_stream_end-Closed s h =
      let s' = save_stream_state_if_ready io s in
      let kept = Same-Kept s s' (save_stream_state_if_ready-Same s) h in
      unless_inserted (not s.inserted) s _ (λ absent. not_inserted s (ground (arith, absent)))
        (choose_Closed s.failed _ _
          (finalize_rollout-Closed failed (some 502) (some "stream_error")
            (some "upstream stream failed") s (broke "upstream stream failed") h)
          (choose_Closed (not (stream_completed io s)) _ _
            (record_stream_error-Closed "upstream stream ended before a completion event" s h)
            (finalize_rollout-Closed completed (some 200) none none _ succeeded
              (marked_Kept s' _ s'.session s'.failed kept))))

  pub record_downstream_disconnect-Closed :
      (s : State) → Kept s → Closed (record_downstream_disconnect io s)
  unfolding record_downstream_disconnect
  record_downstream_disconnect-Closed s h =
      finalize_rollout-Closed failed (some 499) (some "downstream_disconnect")
        (some "downstream client disconnected") _ left
        (choose_Kept s.failed _ _ h (marked_Kept s _ none true h))

  pub at_time-Kept : (now : Now) (s : State) → Kept s → Kept (at_time io now s)
  unfolding Kept
  at_time-Kept now s h = h
