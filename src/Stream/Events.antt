-- ===== src/Stream/Events.antt =====
-- Events and statistics of a stream, src/codec/bridge/stream/events.rs. The snapshot's mutex makes
-- each event atomic. A count of tokens is not negative, and the count of tool calls does not reach
-- the end of its type.
pub mod Folding
use prelay_server.Base.{
  ℕ, ◌+◌, Option, none, some, List, [], ◌∷◌, ◌++◌, Bool, true, false, if◌then◌else◌, leb, ◌||◌,
  ◌&&◌, not, is_empty, map, is_some,
}
use prelay_server.Base.OrderedMap.{update_entry, entry_or}
use prelay_server.Text.{Text, text_eq, codes}

pub data InternalFinishReason : Type 0 where
  stop length tool_use content_filter error unknown : InternalFinishReason

pub record StreamUsage : Type 0 where
  pub input_tokens : Option ℕ
  pub output_tokens : Option ℕ
  pub total_tokens : Option ℕ
  pub cache_read_tokens : Option ℕ
  pub cache_write_tokens : Option ℕ

-- `StreamUsage::default()`.
abbrev pub no_usage : StreamUsage
no_usage = record {
  input_tokens = none;
  output_tokens = none;
  total_tokens = none;
  cache_read_tokens = none;
  cache_write_tokens = none;
}

pub record ChatToolCallDelta : Type 0 where
  pub index : ℕ
  pub id : Option Text
  pub name : Option Text
  pub arguments : Option Text

pub data InternalStreamEvent : Type 0 where
  text_delta : Text → InternalStreamEvent
  reasoning_delta : Text → InternalStreamEvent
  tool_call_delta : ChatToolCallDelta → InternalStreamEvent
  -- The index, the id, the name and the arguments.
  tool_call_done : ℕ → Text → Text → Text → InternalStreamEvent
  usage : StreamUsage → InternalStreamEvent
  finished : InternalFinishReason → InternalStreamEvent

pub record CapturedToolCall : Type 0 where
  pub id : Text
  pub name : Text
  pub arguments : Text
  pub done : Bool

abbrev pub no_call : CapturedToolCall
no_call = record { id = []; name = []; arguments = []; done = false }

-- An item of a response's `output`, a message with its text or a function call with its id, name
-- and arguments.
pub data OutputItem : Type 0 where
  message : Text → OutputItem
  function_call : Text → Text → Text → OutputItem

pub record StreamStatsSnapshot : Type 0 where
  pub input_tokens : Option ℕ
  pub output_tokens : Option ℕ
  pub total_tokens : Option ℕ
  pub cache_read_tokens : Option ℕ
  pub cache_write_tokens : Option ℕ
  pub upstream_response_id : Option Text
  pub response_output_items : List OutputItem
  pub tool_call_count : ℕ
  pub output_text : Text
  pub reasoning_text : Text
  pub completed : Bool
  pub final_usage_seen : Bool
  pub tool_calls : List (ℕ × CapturedToolCall)

-- `StreamStatsSnapshot::default()`.
abbrev pub no_stats : StreamStatsSnapshot
no_stats = record {
  input_tokens = none;
  output_tokens = none;
  total_tokens = none;
  cache_read_tokens = none;
  cache_write_tokens = none;
  upstream_response_id = none;
  response_output_items = [];
  tool_call_count = 0;
  output_text = [];
  reasoning_text = [];
  completed = false;
  final_usage_seen = false;
  tool_calls = [];
}

abbrev pub i64_max : ℕ
i64_max = 9223372036854775807

abbrev u64_to_i64 : Option ℕ → Option ℕ
u64_to_i64 none = none
u64_to_i64 (some value) = if leb value i64_max then some value else none

-- The new text, if it is given and not empty.
abbrev non_empty_or : Option Text → Text → Text
non_empty_or none old = old
non_empty_or (some new) old = if is_empty new then old else new

abbrev or_empty : Option Text → Text
or_empty none = []
or_empty (some text) = text

-- What `ToolCallDone` does to its entry.
pub apply_done : Text → Text → Text → CapturedToolCall → CapturedToolCall
apply_done id name arguments call = record {
  id = if is_empty id then call.id else id;
  name = if is_empty name then call.name else name;
  arguments =
      if not (is_empty arguments) || is_empty call.arguments then arguments else call.arguments;
  done = true;
}

-- What `ToolCallDelta` does to its entry.
pub apply_delta : ChatToolCallDelta → CapturedToolCall → CapturedToolCall
apply_delta delta call = record call {
  id = non_empty_or delta.id call.id;
  name = non_empty_or delta.name call.name;
  arguments = call.arguments ++ or_empty delta.arguments;
}

pub record_event : StreamStatsSnapshot → InternalStreamEvent → StreamStatsSnapshot
record_event s (tool_call_done index id name arguments) = record s {
  tool_call_count =
      if (entry_or index no_call s.tool_calls).done
      then s.tool_call_count
      else s.tool_call_count + 1;
  tool_calls = update_entry index no_call (apply_done id name arguments) s.tool_calls;
}
record_event s (usage u) = record s {
  input_tokens = u64_to_i64 u.input_tokens;
  output_tokens = u64_to_i64 u.output_tokens;
  total_tokens = u64_to_i64 u.total_tokens;
  cache_read_tokens = u64_to_i64 u.cache_read_tokens;
  cache_write_tokens = u64_to_i64 u.cache_write_tokens;
  final_usage_seen =
      is_some u.input_tokens
      || (is_some u.output_tokens
          || (is_some u.total_tokens
              || (is_some u.cache_read_tokens || is_some u.cache_write_tokens)));
}
record_event s (text_delta delta) = record s { output_text = s.output_text ++ delta }
record_event s (reasoning_delta delta) = record s { reasoning_text = s.reasoning_text ++ delta }
record_event s (finished reason) = record s { completed = true }
record_event s (tool_call_delta delta) = record s {
  tool_calls = update_entry delta.index no_call (apply_delta delta) s.tool_calls;
}

abbrev call_fields : CapturedToolCall → Text × Text × Text
call_fields call = (call.id, call.name, call.arguments)

pub captured_calls : List (ℕ × CapturedToolCall) → List (Text × Text × Text)
captured_calls [] = []
captured_calls ((j, call) ∷ calls) = call_fields call ∷ captured_calls calls

unfoldable pub completed_calls : List (ℕ × CapturedToolCall) → List (Text × Text × Text)
completed_calls [] = []
completed_calls ((j, call) ∷ calls) =
    let rest = completed_calls calls in if call.done then call_fields call ∷ rest else rest

unfoldable pub captured_tool_calls : StreamStatsSnapshot → List (Text × Text × Text)
unfolding captured_calls
captured_tool_calls s = captured_calls s.tool_calls

unfoldable pub completed_tool_calls : StreamStatsSnapshot → List (Text × Text × Text)
unfolding completed_calls
completed_tool_calls s = completed_calls s.tool_calls

abbrev one_of : Text → List Text → Bool
one_of reason [] = false
one_of reason (name ∷ names) = text_eq reason name || one_of reason names

unfoldable pub internal_finish_reason_from_str : Option Text → InternalFinishReason
internal_finish_reason_from_str none = unknown
internal_finish_reason_from_str (some reason) =
    if one_of reason (codes "stop" ∷ codes "end_turn" ∷ codes "stop_sequence" ∷ [])
    then stop
    else if one_of reason (codes "length" ∷ codes "max_tokens" ∷ [])
    then length
    else if one_of reason (codes "tool_calls" ∷ codes "tool_use" ∷ [])
    then tool_use
    else if text_eq reason (codes "content_filter")
    then content_filter
    else if text_eq reason (codes "error")
    then error
    else unknown

pub record ChatToolCallState : Type 0 where
  pub id : Text
  pub name : Text
  pub arguments : Text
  pub added : Bool
  pub done : Bool

abbrev pub new_call : ChatToolCallState
new_call = record { id = []; name = []; arguments = []; added = false; done = false }

pub record ChatSseEvent : Type 0 where
  pub text_delta : Option Text
  pub reasoning_delta : Option Text
  pub tool_call_deltas : List ChatToolCallDelta
  pub finish_reason : Option InternalFinishReason
  pub usage : Option StreamUsage

abbrev optional {ℓ κ} : {A : Type ℓ} {B : Type κ} → (A → B) → Option A → List B
optional f none = []
optional f (some a) = f a ∷ []

unfoldable pub to_internal_events : ChatSseEvent → List InternalStreamEvent
to_internal_events e =
    optional InternalStreamEvent.text_delta e.text_delta
    ++ (optional InternalStreamEvent.reasoning_delta e.reasoning_delta
        ++ (map tool_call_delta e.tool_call_deltas
            ++ (optional InternalStreamEvent.usage e.usage ++ optional finished e.finish_reason)))
