-- ===== src/Stream/ChatToResponses/Completion.antt =====
-- The completion event of a converted stream.
use prelay_server.Base.{
  if◌then◌else◌, ℕ, ◌+◌, ◌≡◌, refl, Option, List, [], ◌∷◌, ◌++◌, Bool, true, false, arith,
  Bool-cases, Option-cases, inl, inr,
}
use prelay_server.Text.{Bytes, Text, from_utf8, join_lines}
use prelay_server.Stream.Events.{
  StreamUsage, OutputItem, ChatSseEvent, InternalStreamEvent, text_delta, tool_call_delta,
  ChatToolCallState, to_internal_events,
}
use prelay_server.Stream.Frames.{
  Frame, responses_tool_call_done_sse, responses_text_delta_sse, responses_function_call_added_sse,
  responses_function_call_arguments_delta_sse, responses_completed_sse_with_usage,
}
use prelay_server.Stream.Lines.{drain_lines}
use prelay_server.Stream.Decoder.{process_lines, push_lines, push_chunks}
use prelay_server.Stream.ChatToResponses.{
  Core, Decoder, keep_usage, record_internal_event, internal_event_to_responses_sse, process_events,
  finish_calls, finish_response, flush_data, flush_event, process_line, process_text, finish_line,
  finish, run, tool_call_delta_to_responses_sse, record_response_id, arguments_frames,
}

-- How many of the frames complete the response.
unfoldable pub completions : List Frame → ℕ
completions [] = 0
completions (Frame.completed usage id items ∷ frames) = completions frames + 1
completions (_ ∷ frames) = completions frames

abbrev pub flag : Bool → ℕ
flag true = 1
flag false = 0

completions-append : (xs ys : List Frame) → completions (xs ++ ys) ≡ completions xs + completions ys
unfolding completions
completions-append [] ys = omega arith
completions-append (Frame.completed usage id items ∷ xs) ys =
    omega (arith, completions-append xs ys)
completions-append (Frame.output_text_delta d ∷ xs) ys = completions-append xs ys
completions-append (_ ∷ xs) ys = completions-append xs ys

-- A step completes the stream with the completion frame that it sends, and sends nothing once the
-- stream is complete.
abbrev Completes : Core → Core × List Frame → Type 0
Completes core (core', out) =
    (flag core.completed + completions out ≡ flag core'.completed)
    × (core.completed ≡ true → out ≡ [])

then-Completes :
    (a b c : Core) (xs ys : List Frame)
    → Completes a (b, xs)
    → Completes b (c, ys)
    → Completes a (c, xs ++ ys)
then-Completes a b c xs ys (first, quiet) (second, later) = (
  omega (arith, completions-append xs ys, first, second),
  λ h.
      let none_yet = quiet h in
      ground (arith, none_yet, later (unfold completions in ground arith)),
)

one_event :
    (e : InternalStreamEvent) (core : Core)
    → let (core', out) =
        internal_event_to_responses_sse e (record_internal_event e (keep_usage e core)) in
      (completions out ≡ 0) × (core'.completed ≡ core.completed)
unfolding internal_event_to_responses_sse record_internal_event keep_usage completions
    tool_call_delta_to_responses_sse arguments_frames responses_text_delta_sse
    responses_function_call_added_sse responses_function_call_arguments_delta_sse
one_event (text_delta delta) core = (refl, refl)
one_event (tool_call_delta delta) core = ground (arith)
one_event _ core = (refl, refl)

pub process_events-completions :
    (es : List InternalStreamEvent) (core : Core)
    → (completions (process_events es core).1 ≡ 0)
      × ((process_events es core).0.completed ≡ core.completed)
unfolding process_events
process_events-completions [] core = (unfold completions in refl, refl)
process_events-completions (e ∷ es) core =
    let (core', out) =
      internal_event_to_responses_sse e (record_internal_event e (keep_usage e core)) in
    ground (
      arith,
      one_event e core,
      process_events-completions es core',
      completions-append out (process_events es core').1,
    )

finish_calls-completions :
    (calls : List (ℕ × ChatToolCallState)) → completions (finish_calls calls).frames ≡ 0
unfolding finish_calls completions responses_tool_call_done_sse
finish_calls-completions [] = refl
finish_calls-completions ((index, call) ∷ calls) = ground (arith, finish_calls-completions calls)

one_completion :
    (usage : Option StreamUsage) (id : Text) (items : List OutputItem)
    → completions (responses_completed_sse_with_usage usage id items ∷ []) ≡ 1
unfolding completions responses_completed_sse_with_usage
one_completion usage id items = omega arith

pub finish_response-completions :
    (core : Core)
    → (completions (finish_response core).1 ≡ 1)
      × ((finish_response core).0.completed ≡ core.completed)
unfolding finish_response record_response_id
finish_response-completions core = (
  omega (
    arith,
    completions-append (finish_calls core.tool_calls).frames
        (responses_completed_sse_with_usage core.usage core.response_id _ ∷ []),
    finish_calls-completions core.tool_calls,
    one_completion core.usage core.response_id _,
  ),
  refl,
)

module _ (decode : Text → Option ChatSseEvent) where
  nothing-Completes : (core : Core) → Completes core (core, [])
  nothing-Completes core = (unfold completions in omega arith, λ h. refl)

  flush_data-Completes :
      (data_text : Text) (core : Core) → Completes core (flush_data decode data_text core)
  unfolding flush_data
  flush_data-Completes data_text core = elim (Bool-cases core.completed) [
    | inl complete ↦ rw (complete, flush_data) (unfold completions in ground arith)
    | inr open_still ↦ elim (Option-cases (decode data_text)) [
      | inl other ↦ ground (
        arith,
        finish_response-completions (record core { completed = true }),
        nothing-Completes core,
      )
      | inr (event, good) ↦ ground (
        arith,
        finish_response-completions (record core { completed = true }),
        process_events-completions (to_internal_events event) core,
      )
    ]
  ]

  flush_event-Completes : (core : Core) → Completes core (flush_event decode core)
  unfolding flush_event
  flush_event-Completes core = ground (
    arith,
    nothing-Completes core,
    flush_data-Completes (join_lines core.data_lines) (record core { data_lines = [] }),
  )

  process_text-Completes :
      (text : Text) (core : Core) → Completes core (process_text decode text core, [])
  unfolding process_text
  process_text-Completes text core = (unfold completions in ground arith, λ h. refl)

  process_line-Completes :
      (core : Core) (line : Bytes) → Completes core (process_line decode core line)
  unfolding process_line
  process_line-Completes core [] = flush_event-Completes core
  process_line-Completes core (b ∷ line) = elim (Option-cases (from_utf8 (b ∷ line))) [
    | inl bad ↦ rw (bad, process_line) (nothing-Completes core)
    | inr (text, good) ↦ rw (good, process_line) (process_text-Completes text core)
  ]

  process_lines-Completes :
      (core : Core) (lines : List Bytes)
      → Completes core (process_lines (process_line decode) core lines)
  unfolding process_lines
  process_lines-Completes core [] = nothing-Completes core
  process_lines-Completes core (line ∷ lines) =
      let (core', out) = process_line decode core line in
      let (last, outs) = process_lines (process_line decode) core' lines in
      then-Completes core core' last out outs (process_line-Completes core line)
        (process_lines-Completes core' lines)

  push_chunks-Completes :
      (decoder : Decoder) (chunks : List Bytes)
      → let ((buffer, core), out) = push_chunks (process_line decode) decoder chunks in
        Completes decoder.1 (core, out)
  unfolding push_chunks
  push_chunks-Completes decoder [] = nothing-Completes decoder.1
  push_chunks-Completes (buffer, core) (chunk ∷ chunks) =
      let (decoder', out) = push_lines (process_line decode) (buffer, core) chunk in
      let (last, outs) = push_chunks (process_line decode) decoder' chunks in
      then-Completes core decoder'.1 last.1 out outs
        (unfold push_lines in process_lines-Completes core (drain_lines (buffer ++ chunk)).0)
        (push_chunks-Completes decoder' chunks)

  finish_line-Completes : (decoder : Decoder) → Completes decoder.1 (finish_line decode decoder)
  unfolding finish_line
  finish_line-Completes ([], core) = nothing-Completes core
  finish_line-Completes (b ∷ line, core) =
      let (core', out) = process_line decode core (b ∷ line) in
      let (core'', outs) = flush_event decode core' in
      then-Completes core core' core'' out outs (process_line-Completes core (b ∷ line))
        (flush_event-Completes core')

  finish-Completes :
      (decoder : Decoder)
      → let ((buffer, core), out) = finish decode decoder in
        Completes decoder.1 (core, out) × (core.completed ≡ true)
  unfolding finish
  finish-Completes decoder =
      let (core, out) = finish_line decode decoder in
      let done = record core { completed = true } in
      let (core', outs) = finish_response done in
      let (count, closed) = finish_response-completions done in
      elim (Bool-cases core.completed) [
        | inl complete ↦ rw (complete, finish) (finish_line-Completes decoder, complete)
        | inr open_still ↦
            rw (open_still, finish)
              (
                then-Completes decoder.1 core core' out outs (finish_line-Completes decoder)
                    (ground (arith, count, closed), λ h. cc),
                closed,
              )
      ]

  -- However the bytes of a stream come in chunks, and whatever they are, a decoder that has not
  -- completed sends exactly one completion event over the chunks and the end of the stream; one that
  -- had completed sends nothing more; and either is complete at the end.
  pub run-completions :
      (decoder : Decoder) (chunks : List Bytes)
      → let ((buffer, core), out) = run decode decoder chunks in
        (completions out ≡ (if decoder.1.completed then 0 else 1))
        × ((if decoder.1.completed then out else []) ≡ [])
        × (core.completed ≡ true)
  unfolding run
  run-completions decoder chunks =
      let (decoder', out) = push_chunks (process_line decode) decoder chunks in
      let (last, outs) = finish decode decoder' in
      let (ended, complete) = finish-Completes decoder' in
      let (counted, quiet) =
        then-Completes decoder.1 decoder'.1 last.1 out outs (push_chunks-Completes decoder chunks)
          ended in
      (ground (arith, counted, complete), ground (arith, quiet), complete)
