-- ===== src/Recording/Calls.antt =====
-- What a recording sends to the stores, src/domain/stats.rs, src/service/recording/options.rs, and
-- the calls of src/service/activity.rs that it makes. Recording passes the JSON values of a request
-- on unread: they are of the type `X`; `S` is the summary of a rollout.
use prelay_server.Base.{ℕ, String, Option, List, Bool}
use prelay_server.Storage.{StorageError}
use prelay_server.Text.{Text}
use prelay_server.Stream.Events.{OutputItem, StreamStatsSnapshot}

pub record ActivityInsert : Type 0 where
  pub protocol_in : String
  pub protocol_out : String
  pub protocol_upstream : String
  pub endpoint_name : String
  pub provider_id : String
  pub provider_name : String
  pub provider_type : String
  pub model_requested : String
  pub model_upstream : String
  pub status : String
  pub http_status : ℕ
  pub error_code : Option String
  pub error_message : Option String
  pub is_streaming : Bool
  pub input_tokens : Option ℕ
  pub output_tokens : Option ℕ
  pub reasoning_tokens : Option ℕ
  pub cache_read_tokens : Option ℕ
  pub cache_write_tokens : Option ℕ
  pub latency_ms : ℕ
  pub upstream_latency_ms : Option ℕ
  pub first_token_ms : Option ℕ
  pub tool_call_count : Option ℕ
  pub upstream_request_id : Option String

pub record StreamActivityUpdate : Type 0 where
  pub status : String
  pub http_status : ℕ
  pub error_code : Option String
  pub error_message : Option String
  pub input_tokens : Option ℕ
  pub output_tokens : Option ℕ
  pub reasoning_tokens : Option ℕ
  pub cache_read_tokens : Option ℕ
  pub cache_write_tokens : Option ℕ
  pub latency_ms : ℕ
  pub tool_call_count : Option ℕ
  pub upstream_request_id : Option String

pub data RolloutStatus : Type 0 where
  writing completed failed partial : RolloutStatus

pub data RecordingMode : Type 0 where
  required best_effort : RecordingMode

pub record ConversationError : Type 0 where
  pub code : Option String
  pub message : String
  pub http_status : Option ℕ

-- What is appended to a rollout: an event of the content, or an error.
pub data ContentDraft (D : Type 0) : Type 0 where
  content : D → ContentDraft D
  error_event : ConversationError → ContentDraft D

pub record StreamSession (X : Type 0) : Type 0 where
  pub previous_response_id : Option Text
  pub conversation_id : Text
  pub provider_id : Text
  pub model : Text
  pub input_messages : List X
  pub request_items : List X
  pub response_id : Text

pub data InternalOutputItem : Type 0 where
  message : Text → InternalOutputItem
  function_tool_call : Text → Text → Text → InternalOutputItem

pub record InternalResponse : Type 0 where
  pub id : Text
  pub model : Text
  pub output : List InternalOutputItem
  pub input_tokens : Option ℕ
  pub output_tokens : Option ℕ
  pub reasoning_tokens : Option ℕ
  pub cache_read_tokens : Option ℕ
  pub cache_write_tokens : Option ℕ

pub record ResponseStateInsert (X : Type 0) : Type 0 where
  pub session : StreamSession X
  pub upstream_response_id : Option Text
  pub response_items : List OutputItem
  pub response : InternalResponse

-- The calls of the activity store, for the identity and the activity of one stream.
pub data StoreCall (S X : Type 0) : Type 0 where
  start_stream : ActivityInsert → S → StoreCall S X
  insert_stream_result : ActivityInsert → S → StoreCall S X
  update_stream_activity : StreamActivityUpdate → StoreCall S X
  complete_stream : S → StoreCall S X
  save_response_state : ResponseStateInsert X → StoreCall S X

-- What the end of a rollout gives.
pub data Written (S : Type 0) : Type 0 where
  written : S → Written S
  unwritten : String → Written S

-- What a recording is connected to: the activity store, which answers a call by what was called
-- before, a rollout's writer `W`, and the capture `C` of a stream's content.
pub record Connections (W C D S X : Type 0) : Type 0 where
  pub answer : List (StoreCall S X) → StoreCall S X → Option StorageError
  pub summary : W → S
  -- Whether the event could not be written, with the writer after it.
  pub append_content : W → ContentDraft D → W × Bool
  pub finish_with : W → RolloutStatus → Option ℕ → Option String → Option String → Written S
  pub observe_chunk : C → List ℕ → C
  pub finish_capture : C → C
  pub is_completed : C → Bool
  pub events_from_capture : C → List D
  pub events_from_snapshot : StreamStatsSnapshot → List D
