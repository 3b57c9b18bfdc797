-- ===== src/Recording/Budget.antt =====
-- The calls that a recording makes, against what is left in its state to pay for them.
use prelay_server.Base.{
  ℕ, ◌+◌, ◌≤◌, ◌≡◌, refl, String, Option, none, some, List, [], ◌∷◌, ◌++◌, Bool, true, false,
  if◌then◌else◌, arith,
}
use prelay_server.Recording.Calls.{
  StoreCall, start_stream, insert_stream_result, update_stream_activity, complete_stream,
  save_response_state, Connections, RolloutStatus, failed, completed, StreamSession,
  ResponseStateInsert, InternalResponse, Written, written, unwritten,
}
use prelay_server.Recording.State.{
  Item, chunk, broken, StreamRecordState, call, update_of, mark_rollout_incomplete, settle_rollout,
  write_rollout, finalize_rollout, save_stream_state_if_ready, save_session,
  save_stream_response_state, stats_snapshot, record_final_usage, record_stream_error,
  observe_error, observe_content, observe_item, record_stream_end, record_downstream_disconnect,
  captured,
}

module _ {S X : Type 0} where
  abbrev pub opens : StoreCall S X → ℕ
  opens (start_stream log summary) = 1
  opens (insert_stream_result log summary) = 1
  opens _ = 0

  abbrev pub closes : StoreCall S X → ℕ
  closes (complete_stream summary) = 1
  closes (insert_stream_result log summary) = 1
  closes _ = 0

  abbrev pub saves : StoreCall S X → ℕ
  saves (save_response_state insert) = 1
  saves _ = 0

  unfoldable pub total : (StoreCall S X → ℕ) → List (StoreCall S X) → ℕ
  total weight [] = 0
  total weight (c ∷ calls) = weight c + total weight calls

  pub total-append :
      (weight : StoreCall S X → ℕ) (calls : List (StoreCall S X)) (c : StoreCall S X)
      → total weight (calls ++ c ∷ []) ≡ total weight calls + weight c
  unfolding total
  total-append weight [] c = omega arith
  total-append weight (d ∷ calls) c = omega (arith, total-append weight calls c)

abbrev pub held_count : {A : Type 0} → Option A → ℕ
held_count none = 0
held_count (some a) = 1

module _ {W C D S X : Type 0} (io : Connections W C D S X) where
  abbrev pub State : Type 0
  State = StreamRecordState W C S X

  -- The calls that were made and those that can still be made, of the three kinds: that open an
  -- activity, that close its rollout, and that save the response.
  abbrev pub opened : State → ℕ
  opened s = total opens s.store + held_count s.log

  abbrev pub closed : State → ℕ
  closed s = total closes s.store + held_count s.rollout

  abbrev pub saved : State → ℕ
  saved s = total saves s.store + held_count s.session

  unfoldable pub NoMore : State → State → Type 0
  NoMore s s' = (opened s' ≤ opened s) × (closed s' ≤ closed s) × (saved s' ≤ saved s)

  pub choose-NoMore :
      (b : Bool) (s t u : State) → NoMore s t → NoMore s u → NoMore s (if b then t else u)
  choose-NoMore true s t u ht hu = ht
  choose-NoMore false s t u ht hu = hu

  pub same-NoMore : (s : State) → NoMore s s
  unfolding NoMore
  same-NoMore s = ground arith

  pub then-NoMore : (s t u : State) → NoMore s t → NoMore t u → NoMore s u
  unfolding NoMore
  then-NoMore s t u first second = ground (arith, first, second)

  call-NoMore :
      (c : StoreCall S X) (s : State)
      → opens c ≡ 0
      → closes c ≡ 0
      → saves c ≡ 0
      → NoMore s (call io c s)
  unfolding NoMore
  call-NoMore c s h h' h'' = ground (
    arith,
    total-append opens s.store c,
    total-append closes s.store c,
    total-append saves s.store c,
  )

  -- The same, with a close that is left over.
  abbrev OneLess : State → State → Type 0
  OneLess s s' = (opened s' ≤ opened s) × (closed s' + 1 ≤ closed s) × (saved s' ≤ saved s)

  take_rollout-OneLess :
      (rollout : W) (capture : Option C) (s : State)
      → s.rollout ≡ some rollout
      → OneLess s (record s { rollout = none; content_capture = capture })
  take_rollout-OneLess rollout capture s h = ground (arith, h)

  then-OneLess : (s t u : State) → OneLess s t → NoMore t u → OneLess s u
  unfolding NoMore
  then-OneLess s t u first second = ground (arith, first, second)

  OneLess-NoMore : (s t : State) → OneLess s t → NoMore s t
  unfolding NoMore
  OneLess-NoMore s t h = ground (arith, h)

  complete_stream-NoMore :
      (summary : S) (s t : State) → OneLess s t → NoMore s (call io (complete_stream summary) t)
  unfolding NoMore
  complete_stream-NoMore summary s t h =
      let c : StoreCall S X = complete_stream summary in
      ground (
        arith,
        h,
        total-append opens t.store c,
        total-append closes t.store c,
        total-append saves t.store c,
      )

  settle_rollout-NoMore :
      (append_failed : Bool) (result : Written S) (s t : State)
      → OneLess s t
      → NoMore s (settle_rollout io append_failed result t)
  unfolding settle_rollout mark_rollout_incomplete
  settle_rollout-NoMore append_failed (unwritten error) s t h = OneLess-NoMore s t h
  settle_rollout-NoMore true (written summary) s t h =
      let incomplete = mark_rollout_incomplete io t in
      choose-NoMore t.inserted s _ t
        (complete_stream-NoMore summary s incomplete
          (then-OneLess s t incomplete h (call-NoMore _ t refl refl refl)))
        (OneLess-NoMore s t h)
  settle_rollout-NoMore false (written summary) s t h =
      choose-NoMore t.inserted s _ t (complete_stream-NoMore summary s t h) (OneLess-NoMore s t h)

  finalize_held :
      (status : RolloutStatus) (http_status : Option ℕ) (code message : Option String) (s : State)
      (held : Option W)
      → s.rollout ≡ held
      → NoMore s (elim held [
        | none ↦ s
        | some rollout ↦ write_rollout io status http_status code message rollout s
      ])
  unfolding NoMore write_rollout
  finalize_held status http_status code message s none h = same-NoMore s
  finalize_held status http_status code message s (some rollout) h =
      settle_rollout-NoMore _ _ s _
        (take_rollout-OneLess rollout (captured io s.content_capture (stats_snapshot io s)).0 s h)

  finalize_rollout-NoMore :
      (status : RolloutStatus) (http_status : Option ℕ) (code message : Option String) (s : State)
      → NoMore s (finalize_rollout io status http_status code message s)
  unfolding finalize_rollout
  finalize_rollout-NoMore status http_status code message s =
      choose-NoMore s.rollout_finalized s s _ (same-NoMore s)
        (finalize_held status http_status code message s s.rollout refl)

  save_response_state-NoMore :
      (insert : ResponseStateInsert X) (session : StreamSession X) (s : State)
      → s.session ≡ some session
      → NoMore s (call io (save_response_state insert) (record s { session = none }))
  unfolding NoMore
  save_response_state-NoMore insert session s h =
      let c : StoreCall S X = save_response_state insert in
      ground (
        arith,
        h,
        total-append opens s.store c,
        total-append closes s.store c,
        total-append saves s.store c,
      )

  drop_session-NoMore : (s : State) → NoMore s (record s { session = none })
  unfolding NoMore
  drop_session-NoMore s = ground arith

  save_stream_response_state-NoMore :
      (session : StreamSession X) (response : Option InternalResponse) (s : State)
      → s.session ≡ some session
      → NoMore s (save_stream_response_state io session response s)
  unfolding save_stream_response_state
  save_stream_response_state-NoMore session none s h = same-NoMore s
  save_stream_response_state-NoMore session (some response) s h =
      save_response_state-NoMore _ session s h

  save_held :
      (held : Option (StreamSession X)) (s : State)
      → s.session ≡ held
      → NoMore s (elim held [ none ↦ s | some session ↦ save_session io session s ])
  unfolding save_session
  save_held none s h = same-NoMore s
  save_held (some session) s h = choose-NoMore _ s s _ (same-NoMore s) (
      choose-NoMore _ s _ _ (drop_session-NoMore s)
        (save_stream_response_state-NoMore session _ s h))

  save_stream_state_if_ready-NoMore : (s : State) → NoMore s (save_stream_state_if_ready io s)
  unfolding save_stream_state_if_ready
  save_stream_state_if_ready-NoMore s = save_held s.session s refl

  record_final_usage-NoMore : (s : State) → NoMore s (record_final_usage io s)
  unfolding NoMore record_final_usage
  record_final_usage-NoMore s =
      choose-NoMore _ s s _ (same-NoMore s)
        (call-NoMore _ (record s { usage_recorded = true }) refl refl refl)

  fail-NoMore : (s : State) → NoMore s (record s { failed = true; session = none })
  unfolding NoMore
  fail-NoMore s = ground arith

  record_stream_error-NoMore :
      (message : String) (s : State) → NoMore s (record_stream_error io message s)
  unfolding record_stream_error
  record_stream_error-NoMore message s =
      let s' = record s { failed = true; session = none } in
      let c =
        update_stream_activity
          (update_of io "failed" 502 (some "stream_error") (some message) s') in
      then-NoMore s s' _ (fail-NoMore s) (
        then-NoMore s' (call io c s') _ (call-NoMore c s' refl refl refl) (
          finalize_rollout-NoMore failed (some 502) (some "stream_error") (some message)
            (call io c s')))

  observe_error-NoMore : (next : Item) (s : State) → NoMore s (observe_error io next s)
  unfolding observe_error
  observe_error-NoMore (chunk bytes) s = same-NoMore s
  observe_error-NoMore (broken message) s =
      choose-NoMore s.inserted s _ s
        (choose-NoMore s.failed s _ _
          (finalize_rollout-NoMore failed (some 502) (some "stream_error") (some message) s)
          (record_stream_error-NoMore message s))
        (same-NoMore s)

  observe_content-NoMore : (next : Item) (s : State) → NoMore s (observe_content io next s)
  unfolding NoMore observe_content
  observe_content-NoMore (broken message) s = same-NoMore s
  observe_content-NoMore (chunk bytes) s = ground arith

  pub observe_item-NoMore : (next : Item) (s : State) → NoMore s (observe_item io next s)
  unfolding observe_item
  observe_item-NoMore next s =
      let seen = observe_error io next s in
      let s' = observe_content io next seen in
      let used = record_final_usage io s' in
      let before =
        then-NoMore s seen s' (observe_error-NoMore next s) (observe_content-NoMore next seen) in
      choose-NoMore _ s _ s'
        (then-NoMore s s' _ before (
          then-NoMore s' used _ (record_final_usage-NoMore s')
            (save_stream_state_if_ready-NoMore used)))
        before

  pub record_stream_end-NoMore : (s : State) → NoMore s (record_stream_end io s)
  unfolding record_stream_end
  record_stream_end-NoMore s =
      let s' = save_stream_state_if_ready io s in
      let c = update_stream_activity (update_of io "success" 200 none none s') in
      choose-NoMore _ s s _ (same-NoMore s) (
        choose-NoMore s.failed s _ _
          (finalize_rollout-NoMore failed (some 502) (some "stream_error")
            (some "upstream stream failed") s)
          (choose-NoMore _ s _ _
            (record_stream_error-NoMore "upstream stream ended before a completion event" s)
            (then-NoMore s s' _ (save_stream_state_if_ready-NoMore s) (
              then-NoMore s' (call io c s') _ (call-NoMore c s' refl refl refl)
                (finalize_rollout-NoMore completed (some 200) none none (call io c s'))))))

  pub record_downstream_disconnect-NoMore :
      (s : State) → NoMore s (record_downstream_disconnect io s)
  unfolding record_downstream_disconnect
  record_downstream_disconnect-NoMore s =
      let t = record s { failed = true; session = none } in
      let c = update_stream_activity (
        update_of io "failed" 499 (some "downstream_disconnect")
          (some "downstream client disconnected") t) in
      then-NoMore s (if s.failed then s else call io c t) _
        (choose-NoMore s.failed s s _ (same-NoMore s)
          (then-NoMore s t _ (fail-NoMore s) (call-NoMore c t refl refl refl)))
        (finalize_rollout-NoMore failed (some 499) (some "downstream_disconnect")
          (some "downstream client disconnected") (if s.failed then s else call io c t))
