-- ===== src/Examples/Streams.antt =====
-- Stream decoders at concrete input.
use prelay_server.Stream.Frames.{Frame}
use prelay_server.Base.{
  false, String, map, if◌then◌else◌, ◌≡◌, refl, Option, none, some, List, [], ◌∷◌, ◌++◌, true, ◌||◌,
}
use prelay_server.Text.{Bytes, Text, codes}
use prelay_server.Stream.Events.{
  ChatSseEvent, no_stats, InternalStreamEvent, text_delta, finished, stop, completed_tool_calls,
  completed_calls,
}
use prelay_server.Stream.Events.Folding.{
  record_events, record_events_lem, text_of, reasoning_of, has_finished, IsCounted,
}
use prelay_server.Stream.Pipeline.{StreamState, chunk, failed, ok}
use prelay_server.Stream.Pipeline.Polling.{Yields, expected, poll-Yields, run-Yields}
use prelay_server.Stream.Lines.{drain_lines}
use prelay_server.Stream.Lines.Chunks.{split_lines, drain_lines-split}
use prelay_server.Stream.Decoder.{push_chunks, push_lines, flatten, push_chunks-flatten}
use prelay_server.Stream.ChatToResponses.{Decoder, new, process_line, push_chunk, run, finish}
use prelay_server.Stream.ChatToResponses.Completion.{completions, run-completions}
use prelay_server.Stream.ChatToResponses.Content.{frame_text, completed_items}
use prelay_server.Stream.ChatToResponses.Output.{Sent, run-Sent}
use prelay_server.Stream.ChatToResponses.Pending.{finish-data_lines}

-- A decoder of events that reads a greeting in each.
abbrev greet : Text → Option ChatSseEvent
greet data_text = some (record {
  text_delta = some (codes "hi");
  reasoning_delta = none;
  tool_call_deltas = [];
  finish_reason = none;
  usage = none;
})

abbrev two_chunks : List Bytes
two_chunks = codes "data: 1" ∷ (b'\r' ∷ b'\n' ∷ b'\n' ∷ codes "data: [DONE]") ∷ []

abbrev fresh : Decoder
fresh = new (codes "resp_1") (some no_stats)

run-completions_example :
    let ((buffer, core), out) = run greet fresh two_chunks in
    (completions out ≡ (if fresh.1.completed then 0 else 1))
    × ((if fresh.1.completed then out else []) ≡ [])
    × (core.completed ≡ true)
run-completions_example = run-completions greet fresh two_chunks

nothing-Sent : Sent fresh.1 []
unfolding frame_text completed_items
nothing-Sent = (no_stats, refl, refl, refl, refl)

run-Sent_example : let ((buffer, core), out) = run greet fresh two_chunks in Sent core ([] ++ out)
run-Sent_example = run-Sent greet fresh two_chunks [] nothing-Sent

push_chunks-flatten_example :
    push_chunks (process_line greet) ([], fresh.1) two_chunks
    ≡ push_lines (process_line greet) ([], fresh.1) (flatten two_chunks)
push_chunks-flatten_example = push_chunks-flatten (process_line greet) fresh.1 two_chunks

drain_lines-split_example :
    drain_lines (codes "data: 1" ++ b'\r' ∷ b'\n' ∷ codes "da")
    ≡ split_lines [] (codes "data: 1" ++ b'\r' ∷ b'\n' ∷ codes "da")
drain_lines-split_example = drain_lines-split (codes "data: 1" ++ b'\r' ∷ b'\n' ∷ codes "da")

abbrev some_events : List InternalStreamEvent
some_events = text_delta (codes "hi") ∷ finished stop ∷ []

record_events_lem_example :
    let after = record_events no_stats some_events in
    (after.output_text ≡ no_stats.output_text ++ text_of some_events)
    × (after.reasoning_text ≡ no_stats.reasoning_text ++ reasoning_of some_events)
    × (after.completed ≡ (no_stats.completed || has_finished some_events))
record_events_lem_example = record_events_lem some_events no_stats

no_stats-IsCounted : IsCounted no_stats
unfolding completed_tool_calls completed_calls
no_stats-IsCounted = refl

finish-data_lines_example :
    (finish greet ([], record fresh.1 { data_lines = codes "1" ∷ [] })).1
    ≡ (finish greet ([], fresh.1)).1
finish-data_lines_example = finish-data_lines greet fresh.1 (codes "1" ∷ [])

poll-Yields_example :
    let s : StreamState Decoder Frame String = record {
      upstream = chunk (codes "data: 1") ∷ failed "reset" ∷ [];
      decoder = fresh;
      pending = [];
      upstream_done = false;
    } in
    Yields (push_chunk greet) (finish greet) s (expected (push_chunk greet) (finish greet) s)
poll-Yields_example = poll-Yields (push_chunk greet) (finish greet) (record {
  upstream = chunk (codes "data: 1") ∷ failed "reset" ∷ [];
  decoder = fresh;
  pending = [];
  upstream_done = false;
})

run-Yields_example :
    Yields {E = String}
      (push_chunk greet)
      (finish greet)
      (record {
        upstream = map chunk two_chunks;
        decoder = fresh;
        pending = [];
        upstream_done = false;
      })
      (map ok (run greet fresh two_chunks).1)
run-Yields_example = run-Yields greet fresh two_chunks
