-- ===== src/Recording/Success.antt =====
-- When a recording reports success.
use prelay_server.Base.{
  ◌+◌, ◌≡◌, ◌⊎◌, inl, inr, refl, Option, none, some, List, [], ◌∷◌, Bool, true, false, ap, not,
  ◌||◌, if◌then◌else◌, arith, ◌∙◌,
}
use prelay_server.Storage.{StorageError}
use prelay_server.Recording.Calls.{
  start_stream, insert_stream_result, Connections, Written, written, unwritten, ActivityInsert,
}
use prelay_server.Recording.State.{
  Item, is_err, started_log, empty_log, StreamRecordState, call, settle_start, start_log, start,
  observe_item, stream_completed, record_stream_end, record_downstream_disconnect, settle_insert,
  insert_empty, record_empty, record_empty_stream,
}
use prelay_server.Recording.Forwarding.{
  Now, at_time, Arrival, item, ended, deadline, forward_loop, forward_recorded_stream, after_first,
  prepare_stream_with_log_id,
}
use prelay_server.Recording.Quiet.{
  reported, Quiet, same-Quiet, then-Quiet, call-Quiet, observe_item-Quiet,
  record_downstream_disconnect-Quiet, record_stream_end_cases,
}

module _ {W C D S X : Type 0} (io : Connections W C D S X) where
  abbrev State : Type 0
  State = StreamRecordState W C S X

  -- From s to s': no success is reported; or one is, and s' is what the end of the stream makes of a
  -- state whose activity is in the store, that has not failed, and whose stream is complete.
  unfoldable pub Reports : State → State → Type 0
  Reports s s' =
      (reported io s' ≡ reported io s)
      ⊎ ((t : State) × (s' ≡ record_stream_end io t)
          × (t.inserted ≡ true)
          × (t.failed ≡ false)
          × (stream_completed io t ≡ true)
          × (reported io s' ≡ reported io s + 1))

  Quiet-Reports : (s s' : State) → Quiet io s s' → Reports s s'
  unfolding Quiet Reports
  Quiet-Reports s s' h = inl h

  then-Reports : (s t u : State) → Quiet io s t → Reports t u → Reports s u
  unfolding Quiet Reports
  then-Reports s t u first (inl second) = inl (second ∙ first)
  then-Reports s t u first (inr (v, e, kept, running, complete, one)) =
      inr (v, e, kept, running, complete, one ∙ ap (λ n. n + 1) first)

  choose-Reports :
      (b : Bool) (s : State) (p q : State × Bool)
      → Reports s p.0
      → Reports s q.0
      → Reports s (if b then p else q).0
  choose-Reports true s p q hp hq = hp
  choose-Reports false s p q hp hq = hq

  at_time-Quiet : (now : Now) (s : State) → Quiet io s (at_time io now s)
  unfolding Quiet
  at_time-Quiet now s = refl

  record_stream_end-Reports : (s : State) → Reports s (record_stream_end io s)
  unfolding Reports Quiet
  record_stream_end-Reports s = elim (record_stream_end_cases io s) [
    | inl quiet ↦ inl quiet
    | inr (kept, running, complete, one) ↦ inr (s, refl, kept, running, complete, one)
  ]

  ended-Reports :
      (draining : Bool) (s : State)
      → Reports s (if draining then record_downstream_disconnect io s else record_stream_end io s)
  ended-Reports true s = Quiet-Reports s _ (record_downstream_disconnect-Quiet io s)
  ended-Reports false s = record_stream_end-Reports s

  forward_loop-Reports :
      (draining : Bool) (s : State) (arrivals : List Arrival)
      → Reports s (forward_loop io draining s arrivals).0
  unfolding forward_loop
  forward_loop-Reports draining s [] = Quiet-Reports s s (same-Quiet io s)
  forward_loop-Reports draining s (item now next received ∷ arrivals) =
      let t = at_time io now s in
      let s' = observe_item io next t in
      let first = then-Quiet io s t s' (at_time-Quiet now s) (observe_item-Quiet io next t) in
      let rest = forward_loop io (draining || not received) s' arrivals in
      choose-Reports (is_err next) s (s', true) rest (Quiet-Reports s s' first)
        (then-Reports s s' rest.0 first
          (forward_loop-Reports (draining || not received) s' arrivals))
  forward_loop-Reports draining s (ended now ∷ arrivals) =
      then-Reports s (at_time io now s) _ (at_time-Quiet now s)
        (ended-Reports draining (at_time io now s))
  forward_loop-Reports true s (deadline now ∷ arrivals) =
      then-Reports s (at_time io now s) _ (at_time-Quiet now s)
        (Quiet-Reports _ _ (record_downstream_disconnect-Quiet io (at_time io now s)))
  forward_loop-Reports false s (deadline now ∷ arrivals) = forward_loop-Reports false s arrivals

  settle_start-Quiet :
      (answer : Option StorageError) (s : State) → Quiet io s (settle_start io answer s).0
  unfolding Quiet settle_start
  settle_start-Quiet none s = refl
  settle_start-Quiet (some error) s = ground arith

  start_log-Quiet :
      (next : Item) (log : ActivityInsert) (rollout : Option W) (s : State)
      → Quiet io s (start_log io next log rollout s).0
  unfolding start_log
  start_log-Quiet next log none s = unfold Quiet in refl
  start_log-Quiet next log (some rollout) s =
      let c = start_stream (started_log next s.elapsed_ms log) (io.summary rollout) in
      let t = record s { log = none; failed = s.failed || is_err next } in
      then-Quiet io s (call io c t) _ (call-Quiet io c s t refl (unfold Quiet in refl))
        (settle_start-Quiet (io.answer s.store c) (call io c t))

  start_held-Quiet :
      (next : Item) (held : Option ActivityInsert) (s : State)
      → Quiet io s
          (elim held as (λ held. State × Option StorageError) [
            | none ↦ (s, none)
            | some log ↦ start_log io next log s.rollout s
          ]).0
  start_held-Quiet next none s = same-Quiet io s
  start_held-Quiet next (some log) s = start_log-Quiet next log s.rollout s

  start-Quiet : (next : Item) (s : State) → Quiet io s (start io next s).0
  unfolding start
  start-Quiet next s = start_held-Quiet next s.log s

  settle_insert-Quiet :
      (answer : Option StorageError) (s : State) → Quiet io s (settle_insert io answer s).0
  unfolding Quiet settle_insert
  settle_insert-Quiet none s = refl
  settle_insert-Quiet (some error) s = ground arith

  insert_empty-Quiet :
      (log : ActivityInsert) (result : Written S) (s t : State)
      → Quiet io s t
      → Quiet io s (insert_empty io log result t).0
  unfolding insert_empty
  insert_empty-Quiet log (unwritten error) s t h = unfold Quiet in ground (arith, h)
  insert_empty-Quiet log (written summary) s t h =
      let c = insert_stream_result log summary in
      then-Quiet io s (call io c t) _ (call-Quiet io c s t refl h)
        (settle_insert-Quiet (io.answer t.store c) (call io c t))

  record_empty-Quiet :
      (log : ActivityInsert) (rollout : Option W) (s : State)
      → Quiet io s (record_empty io log rollout s).0
  unfolding record_empty
  record_empty-Quiet log none s = unfold Quiet in ground arith
  record_empty-Quiet log (some rollout) s =
      insert_empty-Quiet (empty_log s.elapsed_ms log) _ s (record s { log = none; rollout = none })
        (unfold Quiet in refl)

  record_empty_held-Quiet :
      (held : Option ActivityInsert) (s : State)
      → Quiet io s
          (elim held as (λ held. State × Option StorageError) [
            | none ↦ (s, none)
            | some log ↦ record_empty io log s.rollout s
          ]).0
  record_empty_held-Quiet none s = same-Quiet io s
  record_empty_held-Quiet (some log) s = record_empty-Quiet log s.rollout s

  record_empty_stream-Quiet : (s : State) → Quiet io s (record_empty_stream io s).0
  unfolding record_empty_stream
  record_empty_stream-Quiet s = record_empty_held-Quiet s.log s

  answered-Reports :
      (answer : Option StorageError) (s t : State) (p : State × Bool)
      → Reports s t
      → Reports s p.0
      → Reports s
          (elim answer as (λ a. State × Bool × Option StorageError) [
            | some error ↦ (t, true, some error)
            | none ↦ (p.0, p.1, none)
          ]).0
  answered-Reports none s t p ht hp = hp
  answered-Reports (some error) s t p ht hp = ht

  -- Whatever a stream gives, whenever the client leaves it, and whatever the store answers, a
  -- recording reports no success; or it reports one, as what the end of the stream makes of a state
  -- whose activity is in the store, that has not failed, and whose stream is complete.
  pub prepare_stream_with_log_id-Reports :
      (s : State) (arrivals : List Arrival) → Reports s (prepare_stream_with_log_id io s arrivals).0
  unfolding prepare_stream_with_log_id after_first forward_recorded_stream
  prepare_stream_with_log_id-Reports s [] = Quiet-Reports s s (same-Quiet io s)
  prepare_stream_with_log_id-Reports s (item now first received ∷ arrivals) =
      let t = at_time io now s in
      let (s', answer) = start io first t in
      let seen = observe_item io first s' in
      let begun = then-Quiet io s t s' (at_time-Quiet now s) (start-Quiet first t) in
      let watched = then-Quiet io s s' seen begun (observe_item-Quiet io first s') in
      let loop = forward_loop io (not received) seen arrivals in
      answered-Reports answer s s' (if is_err first then (seen, true) else loop)
        (Quiet-Reports s s' begun)
        (choose-Reports (is_err first) s (seen, true) loop (Quiet-Reports s seen watched)
          (then-Reports s seen loop.0 watched (forward_loop-Reports (not received) seen arrivals)))
  prepare_stream_with_log_id-Reports s (ended now ∷ arrivals) =
      let t = at_time io now s in
      Quiet-Reports s _ (then-Quiet io s t _ (at_time-Quiet now s) (record_empty_stream-Quiet t))
  prepare_stream_with_log_id-Reports s (deadline now ∷ arrivals) =
      prepare_stream_with_log_id-Reports s arrivals
