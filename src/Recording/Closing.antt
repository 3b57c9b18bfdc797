-- ===== src/Recording/Closing.antt =====
-- That the rollout of a recorded stream is closed however the stream ends.
use prelay_server.Base.{
  ◌≡◌, refl, inl, inr, Option, none, some, List, [], ◌∷◌, Bool, true, false, not, ◌||◌,
  if◌then◌else◌, arith,
}
use prelay_server.Storage.{StorageError}
use prelay_server.Recording.Calls.{Connections}
use prelay_server.Recording.State.{
  Item, chunk, broken, is_err, StreamRecordState, start, observe_item,
}
use prelay_server.Recording.Forwarding.{
  Arrival, item, ended, deadline, at_time, forward_loop, forward_recorded_stream, after_first,
  prepare_stream_with_log_id,
}
use prelay_server.Recording.Finished.{IsFinished, IsOpen}
use prelay_server.Recording.Kept.{
  Kept, Closed, choose_Closed, not_inserted, observe_item-Kept, observe_item-Closed,
  record_stream_end-Closed, record_downstream_disconnect-Closed, at_time-Kept,
}
use prelay_server.Recording.Starting.{start-Begun, record_empty_stream-Closed}

module _ {W C D S X : Type 0} (io : Connections W C D S X) (opened : W) where
  abbrev State : Type 0
  State = StreamRecordState W C S X

  -- What a loop's result is to be.
  abbrev Settles : State × Bool → Type 0
  Settles (s, returned) = returned ≡ true → Closed io opened s

  choose_Settles :
      (b : Bool) (p q : State × Bool)
      → (b ≡ true → Settles p)
      → Settles q
      → Settles (if b then p else q)
  choose_Settles true p q hp hq = hp refl
  choose_Settles false p q hp hq = hq

  broken-Closed :
      (next : Item) (s : State)
      → Kept io opened s
      → is_err next ≡ true
      → Closed io opened (observe_item io next s)
  broken-Closed (chunk bytes) s h e = cc
  broken-Closed (broken message) s h e = observe_item-Closed io opened message s h

  forward_loop-Settles :
      (draining : Bool) (s : State) (arrivals : List Arrival)
      → Kept io opened s
      → Settles (forward_loop io draining s arrivals)
  unfolding forward_loop
  forward_loop-Settles draining s [] h = λ returned. cc
  forward_loop-Settles draining s (item now next received ∷ arrivals) h =
      let t = at_time io now s in
      let kept = at_time-Kept io opened now s h in
      let s' = observe_item io next t in
      choose_Settles (is_err next) (s', true)
        (forward_loop io (draining || not received) s' arrivals)
        (λ failing returned. broken-Closed next t kept failing)
        (forward_loop-Settles (draining || not received) s' arrivals
          (observe_item-Kept io opened next t kept))
  forward_loop-Settles draining s (ended now ∷ arrivals) h =
      let t = at_time io now s in
      let kept = at_time-Kept io opened now s h in
      λ returned.
        choose_Closed io opened draining _ _ (record_downstream_disconnect-Closed io opened t kept)
          (record_stream_end-Closed io opened t kept)
  forward_loop-Settles true s (deadline now ∷ arrivals) h = λ returned.
      record_downstream_disconnect-Closed io opened (at_time io now s)
        (at_time-Kept io opened now s h)
  forward_loop-Settles false s (deadline now ∷ arrivals) h = forward_loop-Settles false s arrivals h

  answered_Settles :
      (answer : Option StorageError) (s : State) (p : State × Bool)
      → ((error : StorageError) → answer ≡ some error → Closed io opened s)
      → Settles p
      → let result = elim answer as (λ a. State × Bool × Option StorageError) [
        | some error ↦ (s, true, some error)
        | none ↦ (p.0, p.1, none)
      ] in
        Settles (result.0, result.1)
  answered_Settles none s p hs hp = hp
  answered_Settles (some error) s p hs hp = λ returned. hs error refl

  prepare-Settles :
      (s : State) (arrivals : List Arrival)
      → s.inserted ≡ false
      → IsOpen opened s
      → let (s', returned, answer) = prepare_stream_with_log_id io s arrivals in
        Settles (s', returned)
  unfolding prepare_stream_with_log_id after_first forward_recorded_stream
  prepare-Settles s [] h ready = λ returned. cc
  prepare-Settles s (item now first received ∷ arrivals) h ready =
      let t = at_time io now s in
      let (s', answer) = start io first t in
      let (kept, refused) = start-Begun io opened first t h ready in
      let seen = observe_item io first s' in
      let loop = forward_loop io (not received) seen arrivals in
      answered_Settles answer s' (if is_err first then (seen, true) else loop)
        (λ error e. not_inserted io opened s' (refused error e))
        (choose_Settles (is_err first) (seen, true) loop
          (λ failing returned. broken-Closed first s' kept failing)
          (forward_loop-Settles (not received) seen arrivals
            (observe_item-Kept io opened first s' kept)))
  prepare-Settles s (ended now ∷ arrivals) h ready =
      λ returned. record_empty_stream-Closed io opened (at_time io now s) h ready
  prepare-Settles s (deadline now ∷ arrivals) h ready = prepare-Settles s arrivals h ready

  -- However a recorded stream goes, with a failing store or a failing writer too: take a recording
  -- that starts with its rollout at hand, and with its activity not in the store. If it returns
  -- with the activity in the store, then it holds the rollout for finished. The rollout's end is
  -- one of four: success with 200, partial if an append fails, a stream error with 502 and a
  -- message, a client that left with 499, or an empty stream with 502. What the writer makes of
  -- this end, after some content and the end's error event, if it has an error, were appended to
  -- the rollout, is either a failure, or a summary with which the store was called to complete the
  -- activity or to insert one.
  pub prepare_stream_with_log_id-Closed :
      (s : State) (arrivals : List Arrival)
      → s.inserted ≡ false
      → s.rollout_finalized ≡ false
      → s.rollout ≡ some opened
      → (prepare_stream_with_log_id io s arrivals).1 ≡ true
      → (prepare_stream_with_log_id io s arrivals).0.inserted ≡ true
      → ((prepare_stream_with_log_id io s arrivals).0.rollout_finalized ≡ true)
        × IsFinished io opened (prepare_stream_with_log_id io s arrivals).0.store
  unfolding Closed
  prepare_stream_with_log_id-Closed s arrivals h flag own returned kept =
      elim (prepare-Settles s arrivals h (flag, own) returned) [
        | inl absent ↦ absurd (ground (arith, absent, kept))
        | inr done ↦ done
      ]
