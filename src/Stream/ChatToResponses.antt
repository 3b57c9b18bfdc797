-- ===== src/Stream/ChatToResponses.antt =====
-- The decoder that turns a chat completion stream into a Responses stream,
-- src/codec/bridge/stream/decode/chat_to_responses.rs. The shared statistics are a part of the
-- state; the decoding of one event's text is an argument.
pub mod Completion
pub mod Content
pub mod Output
pub mod Pending
use prelay_server.Base.{
  ℕ, Option, none, some, List, [], ◌∷◌, ◌++◌, Bool, true, false, if◌then◌else◌, is_empty, ◌||◌,
}
use prelay_server.Base.OrderedMap.{update_entry, entry_or}
use prelay_server.Text.{Bytes, Text, from_utf8, strip_prefix, join_lines, trim, text_eq, codes}
use prelay_server.Stream.Events.{
  InternalStreamEvent, text_delta, tool_call_delta, tool_call_done, usage, finished,
  InternalFinishReason, stop, StreamUsage, no_usage, StreamStatsSnapshot, record_event, OutputItem,
  message, function_call, ChatToolCallDelta, ChatToolCallState, new_call, ChatSseEvent,
  to_internal_events,
}
use prelay_server.Stream.Events.Folding.{record_events}
use prelay_server.Stream.Frames.{
  Frame, responses_text_delta_sse, responses_function_call_added_sse,
  responses_function_call_arguments_delta_sse, responses_tool_call_done_sse,
  responses_completed_sse_with_usage,
}
use prelay_server.Stream.Decoder.{push_lines, push_chunks}

-- The decoder's fields but for the line buffer.
pub record Core : Type 0 where
  pub data_lines : List Text
  pub tool_calls : List (ℕ × ChatToolCallState)
  pub response_id : Text
  pub completed : Bool
  pub usage : Option StreamUsage
  pub finish_reason : Option InternalFinishReason
  pub stats : Option StreamStatsSnapshot

-- The line buffer, and the rest.
abbrev pub Decoder : Type 0
Decoder = Bytes × Core

-- `new`, with the statistics of `set_stats`.
abbrev pub new : Text → Option StreamStatsSnapshot → Decoder
new response_id stats = (
  [],
  record {
    data_lines = [];
    tool_calls = [];
    response_id = response_id;
    completed = false;
    usage = none;
    finish_reason = none;
    stats = stats;
  },
)

abbrev record_in :
    Option StreamStatsSnapshot → List InternalStreamEvent → Option StreamStatsSnapshot
record_in none es = none
record_in (some stats) es = some (record_events stats es)

abbrev if_given : Option Text → Text → Text
if_given none old = old
if_given (some new) old = new

abbrev or_empty : Option Text → Text
or_empty none = []
or_empty (some text) = text

-- A call with the id and the name of a delta.
named : ChatToolCallDelta → ChatToolCallState → ChatToolCallState
named delta call = record call {
  id = if_given delta.id call.id;
  name = if_given delta.name call.name;
}

-- What a delta does to its call.
called : ChatToolCallDelta → ChatToolCallState → ChatToolCallState
unfolding named
called delta call = record (named delta call) {
  added = true;
  arguments = call.arguments ++ or_empty delta.arguments;
}

arguments_frames : ℕ → ChatToolCallState → Option Text → List Frame
arguments_frames index call none = []
arguments_frames index call (some arguments) =
    responses_function_call_arguments_delta_sse index call arguments ∷ []

tool_call_delta_to_responses_sse : ChatToolCallDelta → Core → Core × List Frame
unfolding called arguments_frames
tool_call_delta_to_responses_sse delta core =
    let call = entry_or delta.index new_call core.tool_calls in
    let added =
      if call.added
      then []
      else responses_function_call_added_sse delta.index (named delta call) ∷ [] in
    (
      record core { tool_calls = update_entry delta.index new_call (called delta) core.tool_calls },
      added ++ arguments_frames delta.index (named delta call) delta.arguments,
    )

internal_event_to_responses_sse : InternalStreamEvent → Core → Core × List Frame
unfolding tool_call_delta_to_responses_sse
internal_event_to_responses_sse (text_delta delta) core =
    (core, responses_text_delta_sse delta ∷ [])
internal_event_to_responses_sse (tool_call_delta delta) core =
    tool_call_delta_to_responses_sse delta core
internal_event_to_responses_sse (finished reason) core =
    (record core { finish_reason = some reason }, [])
internal_event_to_responses_sse _ core = (core, [])

-- The usage that an event brings is kept.
keep_usage : InternalStreamEvent → Core → Core
keep_usage (InternalStreamEvent.usage u) core = record core { usage = some u }
keep_usage _ core = core

record_internal_event : InternalStreamEvent → Core → Core
record_internal_event e core = record core { stats = record_in core.stats (e ∷ []) }

-- The `for` loop over the events of one SSE event.
pub process_events : List InternalStreamEvent → Core → Core × List Frame
unfolding keep_usage record_internal_event internal_event_to_responses_sse
process_events [] core = (core, [])
process_events (e ∷ es) core =
    let (core', out) =
      internal_event_to_responses_sse e (record_internal_event e (keep_usage e core)) in
    let (last, outs) = process_events es core' in (last, out ++ outs)

-- The calls that are not done yet: each is marked, and gives an event and two frames.
record Finished : Type 0 where
  calls : List (ℕ × ChatToolCallState)
  events : List InternalStreamEvent
  frames : List Frame

finish_calls : List (ℕ × ChatToolCallState) → Finished
finish_calls [] = record { calls = []; events = []; frames = [] }
finish_calls ((index, call) ∷ calls) =
    let rest = finish_calls calls in
    if call.done then record rest { calls = (index, call) ∷ rest.calls } else record {
      calls = (index, record call { done = true }) ∷ rest.calls;
      events = tool_call_done index call.id call.name call.arguments ∷ rest.events;
      frames = responses_tool_call_done_sse index call ++ rest.frames;
    }

call_items : List (ℕ × ChatToolCallState) → List OutputItem
call_items [] = []
call_items ((index, call) ∷ calls) =
    let rest = call_items calls in
    if is_empty call.id || is_empty call.name
    then rest
    else function_call call.id call.name call.arguments ∷ rest

abbrev output_text_of : Option StreamStatsSnapshot → Text
output_text_of none = []
output_text_of (some stats) = stats.output_text

response_output_items : Core → List OutputItem
unfolding call_items
response_output_items core =
    let text = output_text_of core.stats in
    (if is_empty text then [] else message text ∷ []) ++ call_items core.tool_calls

abbrev with_items : Option StreamStatsSnapshot → List OutputItem → Option StreamStatsSnapshot
with_items none items = none
with_items (some stats) items =
    some (record stats { upstream_response_id = none; response_output_items = items })

record_response_id : Core → Core
record_response_id core = record core { stats = with_items core.stats (response_output_items core) }

abbrev usage_or_default : Option StreamUsage → StreamUsage
usage_or_default none = no_usage
usage_or_default (some u) = u

abbrev reason_or_stop : Option InternalFinishReason → InternalFinishReason
reason_or_stop none = stop
reason_or_stop (some reason) = reason

-- The usage event that is recorded here gives no frame.
pub finish_response : Core → Core × List Frame
unfolding finish_calls record_response_id response_output_items
finish_response core =
    let done = finish_calls core.tool_calls in
    let events =
      done.events
      ++ (InternalStreamEvent.usage (usage_or_default core.usage)
          ∷ finished (reason_or_stop core.finish_reason)
          ∷ []) in
    let core' =
      record_response_id
        (record core { tool_calls = done.calls; stats = record_in core.stats events }) in
    (
      core',
      done.frames
          ++ responses_completed_sse_with_usage core'.usage core'.response_id
              (response_output_items core')
            ∷ [],
    )

module _ (decode_chat_sse_event : Text → Option ChatSseEvent) where
  -- `flush_event` with the lines of an event, one at least.
  flush_data : Text → Core → Core × List Frame
  flush_data data_text core =
      if core.completed
      then (core, [])
      else if text_eq (trim data_text) (codes "[DONE]")
      then finish_response (record core { completed = true })
      else elim (decode_chat_sse_event data_text) [
        | none ↦ (core, [])
        | some event ↦ process_events (to_internal_events event) core
      ]

  flush_event : Core → Core × List Frame
  flush_event core =
      if is_empty core.data_lines
      then (core, [])
      else flush_data (join_lines core.data_lines) (record core { data_lines = [] })

  -- A line of text: what follows `data:`, and one space, is kept.
  process_text : Text → Core → Core
  process_text line core = elim (strip_prefix (codes "data:") line) [
    | none ↦ core
    | some rest ↦ record core {
      data_lines = core.data_lines ++ if_given (strip_prefix (codes " ") rest) rest ∷ [];
    }
  ]

  pub process_line : Core → Bytes → Core × List Frame
  process_line core [] = flush_event core
  process_line core (b ∷ line) = elim (from_utf8 (b ∷ line)) [
    | none ↦ (core, [])
    | some text ↦ (process_text text core, [])
  ]

  unfoldable pub push_chunk : Decoder → Bytes → Decoder × List Frame
  push_chunk = push_lines process_line

  -- A line that has no newline is taken at the end, with the event that it completes.
  finish_line : Decoder → Core × List Frame
  finish_line ([], core) = (core, [])
  finish_line (b ∷ line, core) =
      let (core', out) = process_line core (b ∷ line) in
      let (core'', outs) = flush_event core' in (core'', out ++ outs)

  pub finish : Decoder → Decoder × List Frame
  finish decoder =
      let (core, out) = finish_line decoder in
      if core.completed
      then (([], core), out)
      else let (core', outs) = finish_response (record core { completed = true }) in
        (([], core'), out ++ outs)

  -- A whole stream, chunk by chunk and to its end.
  unfoldable pub run : Decoder → List Bytes → Decoder × List Frame
  run decoder chunks =
      let (decoder', out) = push_chunks process_line decoder chunks in
      let (last, outs) = finish decoder' in (last, out ++ outs)
