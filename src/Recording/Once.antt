-- ===== src/Recording/Once.antt =====
-- How often a recording makes the calls that are made once for a stream.
use prelay_server.Base.{
  ◌≤◌, ◌≡◌, refl, Option, none, some, List, [], ◌∷◌, Bool, true, false, not, ◌||◌, if◌then◌else◌,
  arith,
}
use prelay_server.Storage.{StorageError}
use prelay_server.Recording.Calls.{
  StoreCall, start_stream, insert_stream_result, Connections, Written, written, unwritten,
  ActivityInsert,
}
use prelay_server.Recording.State.{
  Item, is_err, StreamRecordState, call, settle_start, start, observe_item, start_log,
  settle_insert, insert_empty, record_empty, record_empty_stream, started_log,
}
use prelay_server.Recording.Forwarding.{
  Now, at_time, Arrival, item, ended, deadline, forward_loop, forward_recorded_stream, after_first,
  prepare_stream_with_log_id,
}
use prelay_server.Recording.Budget.{
  opens, closes, saves, total, total-append, held_count, NoMore, choose-NoMore, same-NoMore,
  then-NoMore, observe_item-NoMore, record_stream_end-NoMore, record_downstream_disconnect-NoMore,
}

module _ {W C D S X : Type 0} (io : Connections W C D S X) where
  abbrev State : Type 0
  State = StreamRecordState W C S X

  -- A log that is used up pays for one call that opens.
  opening-NoMore :
      (summary : S) (written_log log : ActivityInsert) (fails : Bool) (s : State)
      → s.log ≡ some log
      → NoMore io s
          (call io (start_stream written_log summary) (record s { log = none; failed = fails }))
  unfolding NoMore
  opening-NoMore summary written_log log fails s h =
      let c : StoreCall S X = start_stream written_log summary in
      ground (
        arith,
        h,
        total-append opens s.store c,
        total-append closes s.store c,
        total-append saves s.store c,
      )

  inserting-NoMore :
      (summary : S) (written_log log : ActivityInsert) (rollout : W) (s : State)
      → s.log ≡ some log
      → s.rollout ≡ some rollout
      → NoMore io s (
          call io
            (insert_stream_result written_log summary)
            (record s { log = none; rollout = none }))
  unfolding NoMore
  inserting-NoMore summary written_log log rollout s hl hr =
      let c : StoreCall S X = insert_stream_result written_log summary in
      ground (
        arith,
        hl,
        hr,
        total-append opens s.store c,
        total-append closes s.store c,
        total-append saves s.store c,
      )

  settle_start-NoMore :
      (answer : Option StorageError) (s : State) → NoMore io s (settle_start io answer s).0
  unfolding NoMore settle_start
  settle_start-NoMore none s = ground arith
  settle_start-NoMore (some error) s = ground arith

  start_log-NoMore :
      (next : Item) (log : ActivityInsert) (rollout : Option W) (s : State)
      → s.log ≡ some log
      → NoMore io s (start_log io next log rollout s).0
  unfolding start_log
  start_log-NoMore next log none s h = unfold NoMore in ground arith
  start_log-NoMore next log (some rollout) s h =
      let c = start_stream (started_log next s.elapsed_ms log) (io.summary rollout) in
      let t = call io c (record s { log = none; failed = s.failed || is_err next }) in
      then-NoMore io s t (settle_start io (io.answer s.store c) t).0
        (opening-NoMore (io.summary rollout) _ log _ s h)
        (settle_start-NoMore (io.answer s.store c) t)

  start_held :
      (next : Item) (held : Option ActivityInsert) (s : State)
      → s.log ≡ held
      → NoMore io s
          (elim held as (λ held. State × Option StorageError) [
            | none ↦ (s, none)
            | some log ↦ start_log io next log s.rollout s
          ]).0
  start_held next none s h = same-NoMore io s
  start_held next (some log) s h = start_log-NoMore next log s.rollout s h

  start-NoMore : (next : Item) (s : State) → NoMore io s (start io next s).0
  unfolding start
  start-NoMore next s = start_held next s.log s refl

  settle_insert-NoMore :
      (answer : Option StorageError) (s : State) → NoMore io s (settle_insert io answer s).0
  unfolding NoMore settle_insert
  settle_insert-NoMore none s = ground arith
  settle_insert-NoMore (some error) s = ground arith

  insert_empty-NoMore :
      (written_log log : ActivityInsert) (rollout : W) (result : Written S) (s : State)
      → s.log ≡ some log
      → s.rollout ≡ some rollout
      → NoMore io s (insert_empty io written_log result (record s { log = none; rollout = none })).0
  unfolding insert_empty
  insert_empty-NoMore written_log log rollout (unwritten error) s hl hr =
      unfold NoMore in ground arith
  insert_empty-NoMore written_log log rollout (written summary) s hl hr =
      let s' = record s { log = none; rollout = none } in
      let c = insert_stream_result written_log summary in
      let answer = io.answer s.store c in
      then-NoMore io s (call io c s') (settle_insert io answer (call io c s')).0
        (inserting-NoMore summary written_log log rollout s hl hr)
        (settle_insert-NoMore answer (call io c s'))

  record_empty-NoMore :
      (log : ActivityInsert) (rollout : Option W) (s : State)
      → s.log ≡ some log
      → s.rollout ≡ rollout
      → NoMore io s (record_empty io log rollout s).0
  unfolding record_empty
  record_empty-NoMore log none s hl hr = unfold NoMore in ground arith
  record_empty-NoMore log (some rollout) s hl hr = insert_empty-NoMore _ log rollout _ s hl hr

  record_empty_held :
      (held : Option ActivityInsert) (s : State)
      → s.log ≡ held
      → NoMore io s
          (elim held as (λ held. State × Option StorageError) [
            | none ↦ (s, none)
            | some log ↦ record_empty io log s.rollout s
          ]).0
  record_empty_held none s h = same-NoMore io s
  record_empty_held (some log) s h = record_empty-NoMore log s.rollout s h refl

  record_empty_stream-NoMore : (s : State) → NoMore io s (record_empty_stream io s).0
  unfolding record_empty_stream
  record_empty_stream-NoMore s = record_empty_held s.log s refl

  choose_first :
      (b : Bool) (s : State) (p q : State × Bool)
      → NoMore io s p.0
      → NoMore io s q.0
      → NoMore io s (if b then p else q).0
  choose_first true s p q hp hq = hp
  choose_first false s p q hp hq = hq

  at_time-NoMore : (now : Now) (s : State) → NoMore io s (at_time io now s)
  unfolding NoMore
  at_time-NoMore now s = ground arith

  forward_loop-NoMore :
      (draining : Bool) (s : State) (arrivals : List Arrival)
      → NoMore io s (forward_loop io draining s arrivals).0
  unfolding forward_loop
  forward_loop-NoMore draining s [] = same-NoMore io s
  forward_loop-NoMore draining s (item now next received ∷ arrivals) =
      let t = at_time io now s in
      let s' = observe_item io next t in
      let first = then-NoMore io s t s' (at_time-NoMore now s) (observe_item-NoMore io next t) in
      choose_first (is_err next) s (s', true)
        (forward_loop io (draining || not received) s' arrivals) first
        (then-NoMore io s s' _ first (forward_loop-NoMore (draining || not received) s' arrivals))
  forward_loop-NoMore draining s (ended now ∷ arrivals) =
      let t = at_time io now s in
      then-NoMore io s t _ (at_time-NoMore now s) (
        choose-NoMore io draining t _ _ (record_downstream_disconnect-NoMore io t)
          (record_stream_end-NoMore io t))
  forward_loop-NoMore true s (deadline now ∷ arrivals) =
      let t = at_time io now s in
      then-NoMore io s t _ (at_time-NoMore now s) (record_downstream_disconnect-NoMore io t)
  forward_loop-NoMore false s (deadline now ∷ arrivals) = forward_loop-NoMore false s arrivals

  answered_NoMore :
      (answer : Option StorageError) (s t u : State) (returned : Bool)
      → NoMore io s t
      → NoMore io s u
      → NoMore io s
          (elim answer as (λ a. State × Bool × Option StorageError) [
            | some error ↦ (t, true, some error)
            | none ↦ (u, returned, none)
          ]).0
  answered_NoMore none s t u returned ht hu = hu
  answered_NoMore (some error) s t u returned ht hu = ht

  prepare-NoMore :
      (s : State) (arrivals : List Arrival)
      → NoMore io s (prepare_stream_with_log_id io s arrivals).0
  unfolding prepare_stream_with_log_id after_first forward_recorded_stream
  prepare-NoMore s [] = same-NoMore io s
  prepare-NoMore s (item now first received ∷ arrivals) =
      let t = at_time io now s in
      let (s', answer) = start io first t in
      let seen = observe_item io first s' in
      let begun = then-NoMore io s t s' (at_time-NoMore now s) (start-NoMore first t) in
      let watched = then-NoMore io s s' seen begun (observe_item-NoMore io first s') in
      let loop = forward_loop io (not received) seen arrivals in
      answered_NoMore answer s s' _ _ begun (
        choose_first (is_err first) s (seen, true) loop watched
          (then-NoMore io s seen loop.0 watched (forward_loop-NoMore (not received) seen arrivals)))
  prepare-NoMore s (ended now ∷ arrivals) =
      let t = at_time io now s in
      then-NoMore io s t _ (at_time-NoMore now s) (record_empty_stream-NoMore t)
  prepare-NoMore s (deadline now ∷ arrivals) = prepare-NoMore s arrivals

  at_most_once : {A : Type 0} (held : Option A) → held_count held ≤ 1
  at_most_once none = omega arith
  at_most_once (some a) = omega arith

  -- Whatever a stream gives, whenever the client leaves it, and whatever the store answers, a
  -- recording that has made no call makes at most one that opens its activity, at most one that
  -- closes the activity's rollout, and at most one that saves the response.
  pub prepare_stream_with_log_id_once :
      (s : State) (arrivals : List Arrival)
      → s.store ≡ []
      → let s' = (prepare_stream_with_log_id io s arrivals).0 in
        (total opens s'.store ≤ 1) × (total closes s'.store ≤ 1) × (total saves s'.store ≤ 1)
  unfolding NoMore total
  prepare_stream_with_log_id_once s arrivals h = ground (
    arith,
    h,
    prepare-NoMore s arrivals,
    at_most_once s.log,
    at_most_once s.rollout,
    at_most_once s.session,
  )
