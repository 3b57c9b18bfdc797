-- ===== src/Examples/Captures.antt =====
-- The capture of a raw stream at concrete input.
use prelay_server.Base.{
  ◌≡◌, refl, str_eq, none, some, List, [], ◌∷◌, false, if◌then◌else◌, is_whitespace, Option, true,
}
use prelay_server.Json.{Json}
use prelay_server.Text.{Bytes, Text, codes, join_lines}
use prelay_server.Stream.Lines.{first_line, strip_cr}
use prelay_server.Stream.Decoder.{flatten}
use prelay_server.Stream.Events.{ChatSseEvent, no_stats}
use prelay_server.Stream.ChatStats.{run, default}
use prelay_server.Stream.ChatStats.Passing.{is_shown, run_lem}
use prelay_server.Capture.{
  new, chat_completions, is_done, observe_chunk, observe_line, line_data, finish,
}
use prelay_server.Capture.Chunks.{observe_chunks, observe_chunks-flatten}
use prelay_server.Capture.Events.{sse_events}
use prelay_server.Capture.Reading.{concat_map, content_of, reasoning_of, any_event, finish-chat}

-- A reader that takes any text for the content of a delta.
abbrev plain : Json
plain = record {
  Value = Text;
  from_str = λ text. some text;
  get = λ key value. none;
  pointer = λ path value. if str_eq path "/choices/0/delta/content" then some value else none;
  as_str = λ value. some value;
  as_u64 = λ value. none;
  as_array = λ value. none;
  is_null = λ value. false;
}

-- An event over two chunks, another one, and the end mark without its blank line.
abbrev three_chunks : List Bytes
three_chunks = codes "data: a" ∷ codes "b\n\ndata:c\r\n\r\nda" ∷ codes "ta: [DONE]" ∷ []

observe_chunks-flatten_example :
    observe_chunks plain (new chat_completions) three_chunks
    ≡ observe_chunk plain (new chat_completions) (flatten three_chunks)
observe_chunks-flatten_example = observe_chunks-flatten plain (new chat_completions) three_chunks

finish-chat_example :
    let s = finish plain (observe_chunks plain (new chat_completions) three_chunks) in
    let es = sse_events plain (flatten three_chunks) in
    (s.output_text ≡ concat_map (content_of plain) es)
    × (s.reasoning_text ≡ concat_map (reasoning_of plain) es)
    × (s.completed ≡ any_event is_done es)
finish-chat_example = finish-chat plain three_chunks

three_events :
    sse_events plain (flatten three_chunks) ≡ codes "ab" ∷ codes "c" ∷ codes "[DONE]" ∷ []
unfolding sse_events flatten strip_cr line_data join_lines is_whitespace
three_events = refl

captured_text :
    (finish plain (observe_chunks plain (new chat_completions) three_chunks)).output_text
    ≡ codes "abc"
unfolding finish observe_chunks observe_chunk observe_line first_line strip_cr
captured_text = refl

-- A decoder of events that finds the data as the content.
abbrev echo : Text → Option ChatSseEvent
echo payload = some (record {
  text_delta = some payload;
  reasoning_delta = none;
  tool_call_deltas = [];
  finish_reason = none;
  usage = none;
})

run_lem_example :
    let (last, out) = run echo (default (some no_stats)) three_chunks in
    (flatten out ≡ flatten three_chunks)
    × (last ≡ (run echo (default (some no_stats)) (flatten three_chunks ∷ [])).0)
    × (last.1.completed ≡ true)
    × (is_shown last.1.stats ≡ true)
run_lem_example = run_lem echo (some no_stats) three_chunks
