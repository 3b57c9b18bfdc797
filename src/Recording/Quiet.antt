-- ===== src/Recording/Quiet.antt =====
-- The operations of a recording that report no success, and the one that may.
use prelay_server.Base.{
  ℕ, ◌+◌, ◌≡◌, ◌⊎◌, inl, inr, refl, String, str_eq, Option, none, some, Bool, true, false, not,
  if◌then◌else◌, arith, ◌∙◌,
}
use prelay_server.Recording.Calls.{
  StoreCall, update_stream_activity, complete_stream, Connections, RolloutStatus, failed, completed,
  Written, written, unwritten, StreamSession, InternalResponse,
}
use prelay_server.Recording.State.{
  Item, chunk, broken, StreamRecordState, call, update_of, mark_rollout_incomplete, settle_rollout,
  write_rollout, finalize_rollout, save_stream_response_state, save_session,
  save_stream_state_if_ready, record_final_usage, record_stream_error, observe_error,
  observe_content, stats_snapshot, captured, observe_item, stream_completed, record_stream_end,
  record_downstream_disconnect,
}
use prelay_server.Recording.Budget.{total, total-append}

abbrev pub successes : {S X : Type 0} → StoreCall S X → ℕ
successes (update_stream_activity update) = if str_eq update.status "success" then 1 else 0
successes _ = 0

module _ {W C D S X : Type 0} (io : Connections W C D S X) where
  abbrev pub State : Type 0
  State = StreamRecordState W C S X

  abbrev pub reported : State → ℕ
  reported s = total successes s.store

  -- A step that reports no success.
  unfoldable pub Quiet : State → State → Type 0
  Quiet s s' = reported s' ≡ reported s

  pub same-Quiet : (s : State) → Quiet s s
  unfolding Quiet
  same-Quiet s = refl

  pub then-Quiet : (s t u : State) → Quiet s t → Quiet t u → Quiet s u
  unfolding Quiet
  then-Quiet s t u first second = second ∙ first

  choose-Quiet : (b : Bool) (s t u : State) → Quiet s t → Quiet s u → Quiet s (if b then t else u)
  choose-Quiet true s t u ht hu = ht
  choose-Quiet false s t u ht hu = hu

  pub call-Quiet :
      (c : StoreCall S X) (s t : State) → successes c ≡ 0 → Quiet s t → Quiet s (call io c t)
  unfolding Quiet
  call-Quiet c s t h same = ground (arith, total-append successes t.store c, h, same)

  failing :
      (http_status : ℕ) (code message : Option String) (s : State)
      → successes {S = S} {X = X}
          (update_stream_activity (update_of io "failed" http_status code message s))
        ≡ 0
  unfolding update_of
  failing http_status code message s = refl

  settle_rollout-Quiet :
      (append_failed : Bool) (result : Written S) (s t : State)
      → Quiet s t
      → Quiet s (settle_rollout io append_failed result t)
  unfolding settle_rollout mark_rollout_incomplete
  settle_rollout-Quiet append_failed (unwritten error) s t h = h
  settle_rollout-Quiet true (written summary) s t h =
      choose-Quiet t.inserted s _ t
        (call-Quiet (complete_stream summary) s (mark_rollout_incomplete io t) refl
          (call-Quiet _ s t (failing 502 _ _ t) h))
        h
  settle_rollout-Quiet false (written summary) s t h =
      choose-Quiet t.inserted s _ t (call-Quiet (complete_stream summary) s t refl h) h

  finalize_held-Quiet :
      (status : RolloutStatus) (http_status : Option ℕ) (code message : Option String) (s t : State)
      (held : Option W)
      → Quiet s t
      → Quiet s (elim held [
        | none ↦ t
        | some rollout ↦ write_rollout io status http_status code message rollout t
      ])
  unfolding Quiet write_rollout
  finalize_held-Quiet status http_status code message s t none h = h
  finalize_held-Quiet status http_status code message s t (some rollout) h =
      unfold Quiet in
      settle_rollout-Quiet _ _ s
        (record t {
          rollout = none;
          content_capture = (captured io t.content_capture (stats_snapshot io t)).0;
        })
        h

  finalize_rollout-Quiet :
      (status : RolloutStatus) (http_status : Option ℕ) (code message : Option String) (s t : State)
      → Quiet s t
      → Quiet s (finalize_rollout io status http_status code message t)
  unfolding finalize_rollout
  finalize_rollout-Quiet status http_status code message s t h =
      choose-Quiet t.rollout_finalized s t _ h
        (finalize_held-Quiet status http_status code message s t t.rollout h)

  marked_Quiet :
      (s : State) (session : Option (StreamSession X)) (fails used : Bool)
      → Quiet s (record s { session = session; failed = fails; usage_recorded = used })
  unfolding Quiet
  marked_Quiet s session fails used = refl

  save_response-Quiet :
      (session : StreamSession X) (response : Option InternalResponse) (s : State)
      → Quiet s (save_stream_response_state io session response s)
  unfolding save_stream_response_state
  save_response-Quiet session none s = same-Quiet s
  save_response-Quiet session (some response) s =
      call-Quiet _ s (record s { session = none }) refl
        (marked_Quiet s none s.failed s.usage_recorded)

  save_session-Quiet : (session : StreamSession X) (s : State) → Quiet s (save_session io session s)
  unfolding save_session
  save_session-Quiet session s = choose-Quiet _ s s _ (same-Quiet s) (
      choose-Quiet _ s _ _ (marked_Quiet s none s.failed s.usage_recorded)
        (save_response-Quiet session _ s))

  save_held-Quiet :
      (held : Option (StreamSession X)) (s : State)
      → Quiet s (elim held [ none ↦ s | some session ↦ save_session io session s ])
  save_held-Quiet none s = same-Quiet s
  save_held-Quiet (some session) s = save_session-Quiet session s

  save_stream_state_if_ready-Quiet : (s : State) → Quiet s (save_stream_state_if_ready io s)
  unfolding save_stream_state_if_ready
  save_stream_state_if_ready-Quiet s = save_held-Quiet s.session s

  silent :
      (s : State)
      → successes {S = S} {X = X} (update_stream_activity (update_of io "" 200 none none s)) ≡ 0
  unfolding update_of
  silent s = refl

  record_final_usage-Quiet : (s : State) → Quiet s (record_final_usage io s)
  unfolding record_final_usage
  record_final_usage-Quiet s = choose-Quiet _ s s _ (same-Quiet s) (
      call-Quiet _ s (record s { usage_recorded = true }) (silent s)
        (marked_Quiet s s.session s.failed true))

  record_stream_error-Quiet :
      (message : String) (s : State) → Quiet s (record_stream_error io message s)
  unfolding record_stream_error
  record_stream_error-Quiet message s =
      let s' = record s { failed = true; session = none } in
      finalize_rollout-Quiet failed (some 502) (some "stream_error") (some message) s _ (
        call-Quiet _ s s' (failing 502 (some "stream_error") (some message) s')
          (marked_Quiet s none true s.usage_recorded))

  observe_error-Quiet : (next : Item) (s : State) → Quiet s (observe_error io next s)
  unfolding observe_error
  observe_error-Quiet (chunk bytes) s = same-Quiet s
  observe_error-Quiet (broken message) s =
      choose-Quiet s.inserted s _ s
        (choose-Quiet s.failed s _ _
          (finalize_rollout-Quiet failed (some 502) (some "stream_error") (some message) s s
            (same-Quiet s))
          (record_stream_error-Quiet message s))
        (same-Quiet s)

  observe_content-Quiet : (next : Item) (s : State) → Quiet s (observe_content io next s)
  unfolding observe_content Quiet
  observe_content-Quiet (broken message) s = refl
  observe_content-Quiet (chunk bytes) s = ground arith

  pub observe_item-Quiet : (next : Item) (s : State) → Quiet s (observe_item io next s)
  unfolding observe_item
  observe_item-Quiet next s =
      let seen = observe_error io next s in
      let s' = observe_content io next seen in
      let used = record_final_usage io s' in
      let before =
        then-Quiet s seen s' (observe_error-Quiet next s) (observe_content-Quiet next seen) in
      choose-Quiet _ s _ s'
        (then-Quiet s s' _ before (
          then-Quiet s' used _ (record_final_usage-Quiet s')
            (save_stream_state_if_ready-Quiet used)))
        before

  pub record_downstream_disconnect-Quiet : (s : State) → Quiet s (record_downstream_disconnect io s)
  unfolding record_downstream_disconnect
  record_downstream_disconnect-Quiet s =
      let t = record s { failed = true; session = none } in
      finalize_rollout-Quiet failed (some 499) (some "downstream_disconnect")
        (some "downstream client disconnected") s _
        (choose-Quiet s.failed s s _ (same-Quiet s) (
          call-Quiet _ s t
            (failing 499 (some "downstream_disconnect") (some "downstream client disconnected") t)
            (marked_Quiet s none true s.usage_recorded)))

  succeeding :
      (s : State)
      → successes {S = S} {X = X} (update_stream_activity (update_of io "success" 200 none none s))
        ≡ 1
  unfolding update_of
  succeeding s = refl

  pick_end :
      (kept broke done : Bool) (s a b c : State)
      → Quiet s a
      → Quiet s b
      → reported c ≡ reported s + 1
      → let end = if not kept then s else (if broke then a else (if not done then b else c)) in
        Quiet s end
        ⊎ ((kept ≡ true) × (broke ≡ false) × (done ≡ true) × (reported end ≡ reported s + 1))
  pick_end false broke done s a b c ha hb hc = inl (same-Quiet s)
  pick_end true true done s a b c ha hb hc = inl ha
  pick_end true false false s a b c ha hb hc = inl hb
  pick_end true false true s a b c ha hb hc = inr (refl, refl, refl, hc)

  -- What is recorded of a stream that succeeds.
  success-reported :
      (s : State)
      → let s' = save_stream_state_if_ready io s in
        let c = update_stream_activity (update_of io "success" 200 none none s') in
        reported (finalize_rollout io completed (some 200) none none (call io c s'))
        ≡ reported s + 1
  unfolding Quiet
  success-reported s =
      let s' = save_stream_state_if_ready io s in
      let c : StoreCall S X = update_stream_activity (update_of io "success" 200 none none s') in
      ground (
        arith,
        save_stream_state_if_ready-Quiet s,
        finalize_rollout-Quiet completed (some 200) none none (call io c s') (call io c s')
            (same-Quiet (call io c s')),
        total-append successes s'.store c,
        succeeding s',
      )

  pub record_stream_end_cases :
      (s : State)
      → Quiet s (record_stream_end io s)
        ⊎ ((s.inserted ≡ true)
            × (s.failed ≡ false)
            × (stream_completed io s ≡ true)
            × (reported (record_stream_end io s) ≡ reported s + 1))
  unfolding record_stream_end
  record_stream_end_cases s =
      pick_end s.inserted s.failed (stream_completed io s) s _ _ _
        (finalize_rollout-Quiet failed (some 502) (some "stream_error")
          (some "upstream stream failed") s s (same-Quiet s))
        (record_stream_error-Quiet "upstream stream ended before a completion event" s)
        (success-reported s)
