-- ===== src/Stream/ChatStats.antt =====
-- The decoder that passes a chat stream on and keeps statistics of it,
-- src/codec/bridge/stream/decode/chat_stats.rs. The shared statistics are a part of the state; the
-- decoding of one event's text is an argument.
pub mod Passing
use prelay_server.Base.{
  ℕ, Option, none, some, List, [], ◌∷◌, ◌++◌, Bool, true, false, if◌then◌else◌, is_empty,
}
use prelay_server.Base.OrderedMap.{update_entry}
use prelay_server.Text.{Bytes, Text, from_utf8, strip_prefix, join_lines, trim, text_eq, codes}
use prelay_server.Stream.Events.{
  InternalStreamEvent, tool_call_delta, tool_call_done, finished, stop, StreamStatsSnapshot,
  ChatToolCallDelta, ChatToolCallState, new_call, ChatSseEvent, to_internal_events,
}
use prelay_server.Stream.Events.Folding.{record_events}
use prelay_server.Stream.Lines.{drain_lines}

-- The decoder's fields but for the line buffer.
pub record Core : Type 0 where
  pub data_lines : List Text
  pub tool_calls : List (ℕ × ChatToolCallState)
  pub completed : Bool
  pub stats : Option StreamStatsSnapshot

-- The line buffer, and the rest.
abbrev pub Decoder : Type 0
Decoder = Bytes × Core

-- `default`, with the statistics of `set_stats`.
abbrev pub default : Option StreamStatsSnapshot → Decoder
default stats = ([], record { data_lines = []; tool_calls = []; completed = false; stats = stats })

abbrev pub record_all :
    Option StreamStatsSnapshot → List InternalStreamEvent → Option StreamStatsSnapshot
record_all none es = none
record_all (some stats) es = some (record_events stats es)

abbrev if_given : Option Text → Text → Text
if_given none old = old
if_given (some new) old = new

abbrev or_empty : Option Text → Text
or_empty none = []
or_empty (some text) = text

-- What a delta does to its call.
called : ChatToolCallDelta → ChatToolCallState → ChatToolCallState
called delta call = record call {
  id = if_given delta.id call.id;
  name = if_given delta.name call.name;
  arguments = call.arguments ++ or_empty delta.arguments;
}

keep_call : InternalStreamEvent → Core → Core
unfolding called
keep_call (tool_call_delta delta) core = record core {
  tool_calls = update_entry delta.index new_call (called delta) core.tool_calls;
}
keep_call _ core = core

-- The `for` loop over the events of one SSE event.
pub process_events : List InternalStreamEvent → Core → Core
unfolding keep_call
process_events [] core = core
process_events (e ∷ es) core =
    let kept = keep_call e core in
    process_events es (record kept { stats = record_all kept.stats (e ∷ []) })

-- The calls that are not done yet: each is marked, and gives an event.
finish_calls :
    List (ℕ × ChatToolCallState) → List (ℕ × ChatToolCallState) × List InternalStreamEvent
finish_calls [] = ([], [])
finish_calls ((index, call) ∷ calls) =
    let (rest, events) = finish_calls calls in
    if call.done then ((index, call) ∷ rest, events) else (
      (index, record call { done = true }) ∷ rest,
      tool_call_done index call.id call.name call.arguments ∷ events,
    )

pub complete : Core → Core
unfolding finish_calls
complete core =
    if core.completed
    then core
    else let (calls, done_events) = finish_calls core.tool_calls in
      record core {
        completed = true;
        tool_calls = calls;
        stats = record_all core.stats (done_events ++ finished stop ∷ []);
      }

module _ (decode_chat_sse_event : Text → Option ChatSseEvent) where
  -- `flush_event` with the lines of an event, one at least.
  flush_data : Text → Core → Core
  flush_data payload core =
      if text_eq (trim payload) (codes "[DONE]")
      then complete core
      else elim (decode_chat_sse_event payload) [
        | none ↦ core
        | some event ↦ process_events (to_internal_events event) core
      ]

  pub flush_event : Core → Core
  unfolding flush_data
  flush_event core =
      if is_empty core.data_lines
      then core
      else flush_data (join_lines core.data_lines) (record core { data_lines = [] })

  -- A line of text: what follows `data:`, and one space, is kept.
  process_text : Text → Core → Core
  process_text line core = elim (strip_prefix (codes "data:") line) [
    | none ↦ core
    | some rest ↦ record core {
      data_lines = core.data_lines ++ if_given (strip_prefix (codes " ") rest) rest ∷ [];
    }
  ]

  pub process_line : Core → Bytes → Core
  unfolding process_text
  process_line core [] = flush_event core
  process_line core (b ∷ line) = elim (from_utf8 (b ∷ line)) [
    | none ↦ core
    | some text ↦ process_text text core
  ]

  -- The `for` loop over the lines of a chunk.
  pub process_all : Core → List Bytes → Core
  process_all core [] = core
  process_all core (line ∷ lines) = process_all (process_line core line) lines

  unfoldable pub push_chunk : Decoder → Bytes → Decoder × List Bytes
  push_chunk (line_buffer, core) chunk =
      let (lines, rest) = drain_lines (line_buffer ++ chunk) in
      ((rest, process_all core lines), chunk ∷ [])

  -- A line that has no newline is taken at the end.
  pub finish_line : Decoder → Core
  finish_line ([], core) = core
  finish_line (b ∷ line, core) = process_line core (b ∷ line)

  pub finish : Decoder → Decoder × List Bytes
  unfolding finish_line
  finish decoder =
      let core = flush_event (finish_line decoder) in
      (([], if core.completed then core else complete core), [])

  unfoldable pub push_chunks : Decoder → List Bytes → Decoder × List Bytes
  push_chunks decoder [] = (decoder, [])
  push_chunks decoder (chunk ∷ chunks) =
      let (decoder', out) = push_chunk decoder chunk in
      let (last, outs) = push_chunks decoder' chunks in (last, out ++ outs)

  -- A whole stream, chunk by chunk and to its end.
  unfoldable pub run : Decoder → List Bytes → Decoder × List Bytes
  run decoder chunks =
      let (decoder', out) = push_chunks decoder chunks in
      let (last, outs) = finish decoder' in (last, out ++ outs)
