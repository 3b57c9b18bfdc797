-- ===== src/Recording/State.antt =====
-- The state of one recording and its operations, src/service/recording/state.rs. `elapsed_ms` is the
-- time since the start and `stats` the shared statistics, as they are when an operation runs; the
-- store is the calls that were made of it.
use prelay_server.Base.{
  ℕ, String, Option, none, some, List, [], ◌∷◌, ◌++◌, Bool, true, false, not, ◌&&◌, ◌||◌,
  if◌then◌else◌, is_empty, map,
}
use prelay_server.Stream.Events.{StreamStatsSnapshot, no_stats}
use prelay_server.Storage.{StorageError}
use prelay_server.Recording.Calls.{
  ActivityInsert, StreamActivityUpdate, RolloutStatus, completed, failed, partial, RecordingMode,
  required, best_effort, ContentDraft, content, error_event, StreamSession, StoreCall, start_stream,
  insert_stream_result, update_stream_activity, complete_stream, save_response_state, Connections,
  Written, written, unwritten, InternalResponse,
}
use prelay_server.Recording.Session.{response_from_stream_session}

-- What the stream gives: a chunk, or an error's message.
pub data Item : Type 0 where
  chunk : List ℕ → Item
  broken : String → Item

pub record StreamRecordState (W C S X : Type 0) : Type 0 where
  pub store : List (StoreCall S X)
  pub log : Option ActivityInsert
  pub elapsed_ms : ℕ
  pub stats : Option StreamStatsSnapshot
  pub content_capture : Option C
  pub rollout : Option W
  pub session : Option (StreamSession X)
  pub mode : RecordingMode
  pub upstream_request_id : Option String
  pub inserted : Bool
  pub failed : Bool
  pub usage_recorded : Bool
  pub rollout_finalized : Bool

abbrev or_no_stats : Option StreamStatsSnapshot → StreamStatsSnapshot
or_no_stats none = no_stats
or_no_stats (some snapshot) = snapshot

unfoldable pub final_rollout_status : RolloutStatus → Bool → RolloutStatus
final_rollout_status completed append_failed = if append_failed then partial else completed
final_rollout_status status append_failed = status

-- What `start` makes of the log for the first item.
unfoldable pub started_log : Item → ℕ → ActivityInsert → ActivityInsert
started_log (chunk bytes) first_token_ms log = record log {
  latency_ms = first_token_ms;
  status = "streaming";
  first_token_ms = some first_token_ms;
}
started_log (broken message) first_token_ms log = record log {
  latency_ms = first_token_ms;
  status = "failed";
  http_status = 502;
  error_code = some "stream_error";
  error_message = some message;
  first_token_ms = none;
}

-- What `record_empty_stream` makes of the log.
abbrev pub empty_log : ℕ → ActivityInsert → ActivityInsert
empty_log latency_ms log = record log {
  status = "failed";
  http_status = 502;
  latency_ms = latency_ms;
  error_code = some "empty_stream";
  error_message = some "upstream stream finished without chunks";
}

abbrev pub is_err : Item → Bool
is_err (chunk bytes) = false
is_err (broken message) = true

abbrev pub error_events :
    {D : Type 0} → Option String → Option String → Option ℕ → List (ContentDraft D)
error_events code none http_status = []
error_events code (some message) http_status =
    error_event (record { code = code; message = message; http_status = http_status }) ∷ []

module _ {W C D S X : Type 0} (io : Connections W C D S X) where
  abbrev pub State : Type 0
  State = StreamRecordState W C S X

  abbrev pub stats_snapshot : State → StreamStatsSnapshot
  stats_snapshot s = or_no_stats s.stats

  -- A call of the store, its answer ignored.
  abbrev pub call : StoreCall S X → State → State
  call c s = record s { store = s.store ++ c ∷ [] }

  -- The update with the tokens that the snapshot holds.
  unfoldable pub update_of :
      String → ℕ → Option String → Option String → State → StreamActivityUpdate
  update_of status http_status code message s =
      let snapshot = stats_snapshot s in
      record {
        status = status;
        http_status = http_status;
        error_code = code;
        error_message = message;
        input_tokens = snapshot.input_tokens;
        output_tokens = snapshot.output_tokens;
        reasoning_tokens = none;
        cache_read_tokens = snapshot.cache_read_tokens;
        cache_write_tokens = snapshot.cache_write_tokens;
        latency_ms = s.elapsed_ms;
        tool_call_count = some snapshot.tool_call_count;
        upstream_request_id = s.upstream_request_id;
      }

  abbrev update_stream_log : StreamActivityUpdate → State → State
  update_stream_log update s = call (update_stream_activity update) s

  unfoldable pub mark_rollout_incomplete : State → State
  mark_rollout_incomplete s =
      update_stream_log
        (update_of "failed" 502 (some "activity_rollout_incomplete")
          (some "activity rollout body could not be fully written") s)
        s

  -- The `for` loop over the events, and whether one of them failed.
  unfoldable pub append_all : List (ContentDraft D) → W → W × Bool
  append_all [] rollout = (rollout, false)
  append_all (event ∷ events) rollout =
      let (rollout', append_failed) = io.append_content rollout event in
      let (last, later_failed) = append_all events rollout' in (last, append_failed || later_failed)

  -- What follows `finish_with`.
  unfoldable pub settle_rollout : Bool → Written S → State → State
  unfolding mark_rollout_incomplete
  settle_rollout append_failed (written summary) s =
      if s.inserted
      then call (complete_stream summary) (if append_failed then mark_rollout_incomplete s else s)
      else s
  settle_rollout append_failed (unwritten error) s = s

  unfoldable pub captured : Option C → StreamStatsSnapshot → Option C × List D
  captured none snapshot = (none, io.events_from_snapshot snapshot)
  captured (some capture) snapshot =
      let done = io.finish_capture capture in (some done, io.events_from_capture done)

  unfoldable pub write_rollout :
      RolloutStatus → Option ℕ → Option String → Option String → W → State → State
  unfolding append_all settle_rollout captured
  write_rollout status http_status code message rollout s =
      let (capture, events) = captured s.content_capture (stats_snapshot s) in
      let (rollout', append_failed) =
        append_all (map content events ++ error_events code message http_status) rollout in
      let result =
        io.finish_with rollout' (final_rollout_status status append_failed) http_status code
          message in
      record (settle_rollout append_failed result
        (record s { rollout = none; content_capture = capture })) { rollout_finalized = true }

  unfoldable pub finalize_rollout :
      RolloutStatus → Option ℕ → Option String → Option String → State → State
  unfolding write_rollout
  finalize_rollout status http_status code message s =
      if s.rollout_finalized then s else elim s.rollout [
        | none ↦ s
        | some rollout ↦ write_rollout status http_status code message rollout s
      ]

  -- The answer of the store to `start_stream`.
  unfoldable pub settle_start : Option StorageError → State → State × Option StorageError
  settle_start none s = (record s { inserted = true }, none)
  settle_start (some error) s = elim s.mode [
    | required ↦ (s, some error)
    | best_effort ↦ (record s { failed = true }, none)
  ]

  -- `start` with the log that it takes, and the rollout.
  unfoldable pub start_log : Item → ActivityInsert → Option W → State → State × Option StorageError
  unfolding settle_start
  start_log item log none s = (
    record s { log = none; failed = s.failed || is_err item },
    some (StorageError.rollout "stream recording has no rollout writer"),
  )
  start_log item log (some rollout) s =
      let c = start_stream (started_log item s.elapsed_ms log) (io.summary rollout) in
      settle_start (io.answer s.store c)
        (call c (record s { log = none; failed = s.failed || is_err item }))

  unfoldable pub start : Item → State → State × Option StorageError
  unfolding start_log
  start item s = elim s.log [ none ↦ (s, none) | some log ↦ start_log item log s.rollout s ]

  -- `save_stream_response_state`, where there is a response.
  unfoldable pub save_stream_response_state :
      StreamSession X → Option InternalResponse → State → State
  save_stream_response_state session none s = s
  save_stream_response_state session (some response) s =
      call
        (save_response_state (record {
          session = session;
          upstream_response_id = (stats_snapshot s).upstream_response_id;
          response_items = (stats_snapshot s).response_output_items;
          response = response;
        }))
        (record s { session = none })

  unfoldable pub save_session : StreamSession X → State → State
  unfolding save_stream_response_state
  save_session session s =
      let snapshot = stats_snapshot s in
      if not snapshot.completed
      then s
      else if is_empty snapshot.response_output_items
      then record s { session = none }
      else save_stream_response_state session (response_from_stream_session session snapshot) s

  unfoldable pub save_stream_state_if_ready : State → State
  unfolding save_session
  save_stream_state_if_ready s = elim s.session [ none ↦ s | some session ↦ save_session session s ]

  unfoldable pub record_final_usage : State → State
  record_final_usage s =
      if s.usage_recorded || not (stats_snapshot s).final_usage_seen
      then s
      else update_stream_log (update_of "" 200 none none s) (record s { usage_recorded = true })

  unfoldable pub record_stream_error : String → State → State
  unfolding finalize_rollout
  record_stream_error message s =
      let s' = record s { failed = true; session = none } in
      finalize_rollout failed (some 502) (some "stream_error") (some message)
        (update_stream_log (update_of "failed" 502 (some "stream_error") (some message) s') s')

  -- The part of `observe_item` before the chunk is captured.
  unfoldable pub observe_error : Item → State → State
  unfolding record_stream_error
  observe_error (chunk bytes) s = s
  observe_error (broken message) s =
      if s.inserted
      then (if s.failed
          then finalize_rollout failed (some 502) (some "stream_error") (some message) s
          else record_stream_error message s)
      else s

  unfoldable pub observe_content : Item → State → State
  observe_content (broken message) s = s
  observe_content (chunk bytes) s = elim s.content_capture [
    | none ↦ s
    | some capture ↦ record s { content_capture = some (io.observe_chunk capture bytes) }
  ]

  unfoldable pub observe_item : Item → State → State
  unfolding observe_error observe_content record_final_usage save_stream_state_if_ready
  observe_item item s =
      let s' = observe_content item (observe_error item s) in
      if s'.inserted && not s'.failed
      then save_stream_state_if_ready (record_final_usage s')
      else s'

  unfoldable pub stream_completed : State → Bool
  stream_completed s = elim s.content_capture [
    | none ↦ (stats_snapshot s).completed
    | some capture ↦ io.is_completed capture
  ]

  unfoldable pub record_stream_end : State → State
  unfolding finalize_rollout record_stream_error save_stream_state_if_ready stream_completed
  record_stream_end s =
      if not s.inserted
      then s
      else if s.failed
      then finalize_rollout failed (some 502) (some "stream_error") (some "upstream stream failed")
          s
      else if not (stream_completed s)
      then record_stream_error "upstream stream ended before a completion event" s
      else let s' = save_stream_state_if_ready s in
        finalize_rollout completed (some 200) none none
          (update_stream_log (update_of "success" 200 none none s') s')

  unfoldable pub record_downstream_disconnect : State → State
  unfolding finalize_rollout
  record_downstream_disconnect s =
      let gone = some "downstream_disconnect" in
      let message = some "downstream client disconnected" in
      let s' =
        if s.failed
        then s
        else let s'' = record s { failed = true; session = none } in
          update_stream_log (update_of "failed" 499 gone message s'') s'' in
      finalize_rollout failed (some 499) gone message s'

  -- A failure of the store or the writer, by the recording's mode.
  abbrev pub unless_best_effort : State → StorageError → State × Option StorageError
  unless_best_effort s error = elim s.mode [ required ↦ (s, some error) | best_effort ↦ (s, none) ]

  -- The answer of the store to `insert_stream_result`.
  unfoldable pub settle_insert : Option StorageError → State → State × Option StorageError
  settle_insert none s =
      (record s { inserted = true; failed = true; rollout_finalized = true }, none)
  settle_insert (some error) s = unless_best_effort s error

  unfoldable pub insert_empty : ActivityInsert → Written S → State → State × Option StorageError
  unfolding settle_insert
  insert_empty log (unwritten error) s = unless_best_effort s (StorageError.rollout error)
  insert_empty log (written summary) s =
      let c = insert_stream_result log summary in settle_insert (io.answer s.store c) (call c s)

  -- `record_empty_stream` with the log that it takes, and the rollout.
  unfoldable pub record_empty : ActivityInsert → Option W → State → State × Option StorageError
  unfolding insert_empty
  record_empty log none s =
      unless_best_effort (record s { log = none; rollout = none })
        (StorageError.rollout "empty stream recording has no rollout writer")
  record_empty log (some rollout) s =
      let event = error_event (record {
        code = some "empty_stream";
        message = "upstream stream finished without chunks";
        http_status = some 502;
      }) in
      let (rollout', append_failed) = io.append_content rollout event in
      insert_empty (empty_log s.elapsed_ms log)
        (io.finish_with rollout' failed (some 502) (some "empty_stream")
          (some "upstream stream finished without chunks"))
        (record s { log = none; rollout = none })

  unfoldable pub record_empty_stream : State → State × Option StorageError
  unfolding record_empty
  record_empty_stream s = elim s.log [ none ↦ (s, none) | some log ↦ record_empty log s.rollout s ]
