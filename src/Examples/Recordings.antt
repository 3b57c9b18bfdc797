-- ===== src/Examples/Recordings.antt =====
-- A recorded stream at concrete input.
use prelay_server.Base.{ℕ, suc, ◌≤◌, ◌≡◌, refl, none, some, List, [], ◌∷◌, true, false}
use prelay_server.Text.{codes}
use prelay_server.Stream.Events.{no_stats}
use prelay_server.Recording.Calls.{ActivityInsert, Connections, written, required}
use prelay_server.Recording.State.{
  StreamRecordState, chunk, start, start_log, settle_start, started_log, observe_item,
  observe_error, observe_content, record_final_usage, save_stream_state_if_ready, record_stream_end,
  stream_completed, finalize_rollout, write_rollout, append_all, settle_rollout, captured,
}
use prelay_server.Recording.Forwarding.{
  Now, Arrival, item, ended, after_first, forward_recorded_stream, forward_loop,
  prepare_stream_with_log_id,
}
use prelay_server.Recording.Budget.{opens, closes, saves, total}
use prelay_server.Recording.Success.{Reports, prepare_stream_with_log_id-Reports}
use prelay_server.Recording.Once.{prepare_stream_with_log_id_once}
use prelay_server.Recording.Finished.{IsFinished}
use prelay_server.Recording.Closing.{prepare_stream_with_log_id-Closed}

-- A store that takes every call, and a writer that counts what is appended to it.
abbrev working : Connections ℕ ℕ ℕ ℕ ℕ
working = record {
  answer = λ before c. none;
  summary = λ w. w;
  append_content = λ w draft. (suc w, false);
  finish_with = λ w status http_status code message. written w;
  observe_chunk = λ c bytes. suc c;
  finish_capture = λ c. c;
  is_completed = λ c. false;
  events_from_capture = λ c. c ∷ [];
  events_from_snapshot = λ s. 0 ∷ [];
}

abbrev log : ActivityInsert
log = record {
  protocol_in = "responses";
  protocol_out = "responses";
  protocol_upstream = "openai";
  endpoint_name = "e";
  provider_id = "p";
  provider_name = "P";
  provider_type = "openai";
  model_requested = "m";
  model_upstream = "m";
  status = "pending";
  http_status = 200;
  error_code = none;
  error_message = none;
  is_streaming = true;
  input_tokens = none;
  output_tokens = none;
  reasoning_tokens = none;
  cache_read_tokens = none;
  cache_write_tokens = none;
  latency_ms = 0;
  upstream_latency_ms = none;
  first_token_ms = none;
  tool_call_count = none;
  upstream_request_id = none;
}

abbrev fresh : StreamRecordState ℕ ℕ ℕ ℕ
fresh = record {
  store = [];
  log = some log;
  elapsed_ms = 0;
  stats = some no_stats;
  content_capture = none;
  rollout = some 0;
  session = none;
  mode = required;
  upstream_request_id = none;
  inserted = false;
  failed = false;
  usage_recorded = false;
  rollout_finalized = false;
}

abbrev at_ms : ℕ → Now
at_ms ms = record { elapsed_ms = ms; snapshot = record no_stats { completed = true } }

abbrev a_stream : List Arrival
a_stream = item (at_ms 5) (chunk (codes "data")) true ∷ ended (at_ms 9) ∷ []

returns : (prepare_stream_with_log_id working fresh a_stream).1 ≡ true
unfolding prepare_stream_with_log_id after_first forward_recorded_stream forward_loop start
    start_log settle_start started_log observe_item observe_error observe_content record_final_usage
    save_stream_state_if_ready record_stream_end stream_completed finalize_rollout write_rollout
    append_all settle_rollout captured
returns = refl

starts : (prepare_stream_with_log_id working fresh a_stream).0.inserted ≡ true
unfolding prepare_stream_with_log_id after_first forward_recorded_stream forward_loop start
    start_log settle_start started_log observe_item observe_error observe_content record_final_usage
    save_stream_state_if_ready record_stream_end stream_completed finalize_rollout write_rollout
    append_all settle_rollout captured
starts = refl

prepare_stream_with_log_id_once_example :
    let s' = (prepare_stream_with_log_id working fresh a_stream).0 in
    (total opens s'.store ≤ 1) × (total closes s'.store ≤ 1) × (total saves s'.store ≤ 1)
prepare_stream_with_log_id_once_example =
    prepare_stream_with_log_id_once working fresh a_stream refl

prepare_stream_with_log_id-Closed_example :
    ((prepare_stream_with_log_id working fresh a_stream).0.rollout_finalized ≡ true)
    × IsFinished working 0 (prepare_stream_with_log_id working fresh a_stream).0.store
prepare_stream_with_log_id-Closed_example =
    prepare_stream_with_log_id-Closed working 0 fresh a_stream refl refl refl returns starts

prepare_stream_with_log_id-Reports_example :
    Reports working fresh (prepare_stream_with_log_id working fresh a_stream).0
prepare_stream_with_log_id-Reports_example =
    prepare_stream_with_log_id-Reports working fresh a_stream
