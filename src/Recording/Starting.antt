-- ===== src/Recording/Starting.antt =====
-- What the start of a recorded stream, or an empty one, leaves of its rollout.
use mathlib.Core.Path.{subst}
use prelay_server.Base.{
  ◌≡◌, refl, sym, ◌⊎◌, inl, inr, String, Option, none, some, [], true, false, ◌||◌,
}
use prelay_server.Storage.{StorageError}
use prelay_server.Recording.Calls.{
  start_stream, insert_stream_result, Connections, Written, written, unwritten, ActivityInsert,
  failed, required, best_effort,
}
use prelay_server.Recording.State.{
  Item, is_err, StreamRecordState, append_all, error_events, final_rollout_status, call,
  started_log, empty_log, unless_best_effort, settle_start, settle_insert, insert_empty,
  record_empty, record_empty_stream, start_log, start,
}
use prelay_server.Recording.Finished.{came_empty, Has, Has-last, Outcome, IsOpen}
use prelay_server.Recording.Kept.{Kept, Closed, not_inserted}

module _ {W C D S X : Type 0} (io : Connections W C D S X) (opened : W) where
  abbrev State : Type 0
  State = StreamRecordState W C S X

  -- What `start` leaves of a recording whose activity is not in the store.
  abbrev pub Begun : State × Option StorageError → Type 0
  Begun (s, answer) =
      Kept io opened s × ((error : StorageError) → answer ≡ some error → s.inserted ≡ false)

  settle_start-Begun :
      (answer : Option StorageError) (s : State)
      → s.inserted ≡ false
      → IsOpen opened s
      → Begun (settle_start io answer s)
  unfolding Kept settle_start
  settle_start-Begun none s h ready = (inr (inl ready), λ error e. cc)
  settle_start-Begun (some error) s h ready =
      elim s.mode
        as (λ mode. Begun (elim mode [
          | required ↦ (s, some error)
          | best_effort ↦ (record s { failed = true }, none)
        ])) [ required ↦ (inl h, λ e answered. h) | best_effort ↦ (inl h, λ e answered. cc) ]

  start_log-Begun :
      (next : Item) (log : ActivityInsert) (s : State)
      → s.inserted ≡ false
      → IsOpen opened s
      → Begun (start_log io next log (some opened) s)
  unfolding start_log
  start_log-Begun next log s h ready =
      let c = start_stream (started_log next s.elapsed_ms log) (io.summary opened) in
      settle_start-Begun (io.answer s.store c)
        (call io c (record s { log = none; failed = s.failed || is_err next })) h ready

  start_held-Begun :
      (next : Item) (held : Option ActivityInsert) (s : State)
      → s.inserted ≡ false
      → IsOpen opened s
      → Begun (elim held as (λ held. State × Option StorageError) [
        | none ↦ (s, none)
        | some log ↦ start_log io next log (some opened) s
      ])
  start_held-Begun next none s h ready = unfold Kept in (inl h, λ error e. h)
  start_held-Begun next (some log) s h ready = start_log-Begun next log s h ready

  pub start-Begun :
      (next : Item) (s : State) → s.inserted ≡ false → IsOpen opened s → Begun (start io next s)
  unfolding start
  start-Begun next s h (flag, own) =
      subst
        (λ held. Begun (elim s.log as (λ log. State × Option StorageError) [
          | none ↦ (s, none)
          | some log ↦ start_log io next log held s
        ]))
        (sym own) (start_held-Begun next s.log s h (flag, own))

  unless_best_effort_cases :
      (P : State × Option StorageError → Type 0) (error : StorageError) (s : State)
      → ((answer : Option StorageError) → P (s, answer))
      → P (unless_best_effort io s error)
  unless_best_effort_cases P error s h =
      elim s.mode
        as (λ mode. P (elim mode [ required ↦ (s, some error) | best_effort ↦ (s, none) ])) [
          | required ↦ h (some error)
          | best_effort ↦ h none
        ]

  -- Either no activity is inserted, or one with what was written of its rollout.
  abbrev Inserts : Written S → State × Option StorageError → Type 0
  Inserts result (s, answer) =
      (s.inserted ≡ false) ⊎ ((s.rollout_finalized ≡ true) × Outcome result s.store)

  settle_insert-Inserts :
      (log : ActivityInsert) (summary : S) (answer : Option StorageError) (s : State)
      → s.inserted ≡ false
      → Has (insert_stream_result log summary) s.store
      → Inserts (written summary) (settle_insert io answer s)
  unfolding settle_insert
  settle_insert-Inserts log summary none s h has = inr (refl, inr (log, has))
  settle_insert-Inserts log summary (some error) s h has =
      unless_best_effort_cases (Inserts (written summary)) error s (λ answer. inl h)

  insert_empty-cases :
      (log : ActivityInsert) (result : Written S) (s : State)
      → s.inserted ≡ false
      → Inserts result (insert_empty io log result s)
  unfolding insert_empty
  insert_empty-cases log (unwritten error) s h =
      unless_best_effort_cases (Inserts (unwritten error)) (StorageError.rollout error) s
        (λ answer. inl h)
  insert_empty-cases log (written summary) s h =
      let c = insert_stream_result log summary in
      settle_insert-Inserts log summary (io.answer s.store c) (call io c s) h (Has-last s.store c)

  -- The end of an empty stream comes with the activity.
  record_empty-Closed :
      (log : ActivityInsert) (s : State)
      → s.inserted ≡ false
      → Closed io opened (record_empty io log (some opened) s).0
  unfolding Closed record_empty append_all final_rollout_status
  record_empty-Closed log s h =
      let code : Option String = some "empty_stream" in
      let message : Option String = some "upstream stream finished without chunks" in
      let (last, append_failed) = append_all io (error_events code message (some 502)) opened in
      let result = io.finish_with last failed (some 502) code message in
      elim (insert_empty-cases (empty_log s.elapsed_ms log) result
        (record s { log = none; rollout = none }) h) [
          | inl absent ↦ inl absent
          | inr (flag, outcome) ↦ inr (
            flag,
            record {
              events = [];
              status = failed;
              http_status = some 502;
              code = code;
              message = message;
              ending = came_empty;
              outcome = outcome;
            },
          )
        ]

  record_empty_held-Closed :
      (held : Option ActivityInsert) (s : State)
      → s.inserted ≡ false
      → Closed io opened
          (elim held as (λ held. State × Option StorageError) [
            | none ↦ (s, none)
            | some log ↦ record_empty io log (some opened) s
          ]).0
  record_empty_held-Closed none s h = not_inserted io opened s h
  record_empty_held-Closed (some log) s h = record_empty-Closed log s h

  pub record_empty_stream-Closed :
      (s : State)
      → s.inserted ≡ false
      → IsOpen opened s
      → Closed io opened (record_empty_stream io s).0
  unfolding record_empty_stream
  record_empty_stream-Closed s h (flag, own) =
      subst
        (λ held.
          Closed io opened
            (elim s.log as (λ log. State × Option StorageError) [
              | none ↦ (s, none)
              | some log ↦ record_empty io log held s
            ]).0)
        (sym own) (record_empty_held-Closed s.log s h)
