-- ===== src/Stream/ChatToResponses/Content.antt =====
-- The text that goes out by the steps of a converted stream, and the text that the statistics keep.
use mathlib.Core.List.{append_assoc, append-nil}
use mathlib.Core.Path.{ap₂, subst}
use prelay_server.Base.{
  ℕ, ◌≡◌, refl, ◌∙◌, ap, sym, Option, none, some, List, [], ◌∷◌, ◌++◌, true, arith, is_empty,
}
use prelay_server.Text.{Text}
use prelay_server.Stream.Events.{
  StreamUsage, InternalFinishReason, InternalStreamEvent, text_delta, tool_call_delta, usage,
  finished, ChatToolCallState, StreamStatsSnapshot, OutputItem, message, record_event,
}
use prelay_server.Stream.Events.Folding.{record_events, record_events_lem, text_of, text_of-append}
use prelay_server.Stream.Frames.{
  Frame, output_text_delta, responses_tool_call_done_sse, responses_text_delta_sse,
  responses_function_call_added_sse, responses_function_call_arguments_delta_sse,
  responses_completed_sse_with_usage,
}
use prelay_server.Stream.ChatToResponses.{
  Core, keep_usage, record_internal_event, internal_event_to_responses_sse, process_events,
  finish_calls, finish_response, tool_call_delta_to_responses_sse, record_response_id,
  arguments_frames, response_output_items, call_items, output_text_of, usage_or_default,
  reason_or_stop,
}

is_empty-nil : (text : Text) → is_empty text ≡ true → text ≡ []
is_empty-nil [] h = refl
is_empty-nil (c ∷ text) h = cc

-- The text of the deltas that go out.
unfoldable pub frame_text : List Frame → Text
frame_text [] = []
frame_text (output_text_delta delta ∷ frames) = delta ++ frame_text frames
frame_text (_ ∷ frames) = frame_text frames

-- The outputs of the completion events.
unfoldable pub completed_items : List Frame → List (List OutputItem)
completed_items [] = []
completed_items (Frame.completed u id items ∷ frames) = items ∷ completed_items frames
completed_items (_ ∷ frames) = completed_items frames

-- The text of the messages of an output.
unfoldable pub message_text : List OutputItem → Text
message_text [] = []
message_text (message text ∷ items) = text ++ message_text items
message_text (_ ∷ items) = message_text items

pub frames-append :
    (xs ys : List Frame)
    → (frame_text (xs ++ ys) ≡ frame_text xs ++ frame_text ys)
      × (completed_items (xs ++ ys) ≡ completed_items xs ++ completed_items ys)
unfolding frame_text completed_items
frames-append [] ys = (refl, refl)
frames-append (output_text_delta delta ∷ xs) ys =
    let (text, items) = frames-append xs ys in
    (ap (◌++◌ delta) text ∙ sym (append_assoc delta (frame_text xs) (frame_text ys)), items)
frames-append (Frame.completed u id output ∷ xs) ys =
    let (text, items) = frames-append xs ys in (text, ap (◌∷◌ output) items)
frames-append (_ ∷ xs) ys = frames-append xs ys

one_event :
    (e : InternalStreamEvent) (core : Core) (s : StreamStatsSnapshot)
    → core.stats ≡ some s
    → let (core', out) =
        internal_event_to_responses_sse e (record_internal_event e (keep_usage e core)) in
      (core'.stats ≡ some (record_event s e))
      × (frame_text out ≡ text_of (e ∷ []))
      × (completed_items out ≡ [])
unfolding internal_event_to_responses_sse record_internal_event keep_usage
    tool_call_delta_to_responses_sse arguments_frames responses_text_delta_sse
    responses_function_call_added_sse responses_function_call_arguments_delta_sse frame_text
    completed_items text_of record_events
one_event (text_delta delta) core s h = ground arith
one_event (tool_call_delta delta) core s h = ground arith
one_event _ core s h = ground arith

pub process_events-text :
    (es : List InternalStreamEvent) (core : Core) (s : StreamStatsSnapshot)
    → core.stats ≡ some s
    → let (core', out) = process_events es core in
      (core'.stats ≡ some (record_events s es))
      × (frame_text out ≡ text_of es)
      × (completed_items out ≡ [])
unfolding process_events record_events
process_events-text [] core s h = unfold text_of frame_text completed_items in (h, refl, refl)
process_events-text (e ∷ es) core s h =
    let (core', out) =
      internal_event_to_responses_sse e (record_internal_event e (keep_usage e core)) in
    let (stats, text, none_yet) = one_event e core s h in
    let (stats', text', none_later) = process_events-text es core' (record_event s e) stats in
    let (texts, items) = frames-append out (process_events es core').1 in
    (
      stats',
      texts ∙ ap₂ ◌++◌ text text' ∙ sym (text_of-append (e ∷ []) es),
      items ∙ ap₂ ◌++◌ none_yet none_later,
    )

finish_calls-text :
    (calls : List (ℕ × ChatToolCallState))
    → (frame_text (finish_calls calls).frames ≡ [])
      × (completed_items (finish_calls calls).frames ≡ [])
      × (text_of (finish_calls calls).events ≡ [])
unfolding finish_calls frame_text completed_items text_of responses_tool_call_done_sse
finish_calls-text [] = (refl, refl, refl)
finish_calls-text ((index, call) ∷ calls) = ground (arith, finish_calls-text calls)

call_items-text : (calls : List (ℕ × ChatToolCallState)) → message_text (call_items calls) ≡ []
unfolding call_items message_text
call_items-text [] = refl
call_items-text ((index, call) ∷ calls) = ground (arith, call_items-text calls)

response_output_items-text :
    (core : Core) → message_text (response_output_items core) ≡ output_text_of core.stats
unfolding response_output_items message_text
response_output_items-text core = ground (
  arith,
  call_items-text core.tool_calls,
  append-nil (output_text_of core.stats),
  is_empty-nil (output_text_of core.stats),
)

completed_frame :
    (u : Option StreamUsage) (id : Text) (items : List OutputItem)
    → let frames = responses_completed_sse_with_usage u id items ∷ [] in
      (frame_text frames ≡ []) × (completed_items frames ≡ items ∷ [])
unfolding responses_completed_sse_with_usage frame_text completed_items
completed_frame u id items = (refl, refl)

-- The last two events of a response carry no text.
last_events :
    (u : StreamUsage) (reason : InternalFinishReason)
    → text_of (usage u ∷ finished reason ∷ []) ≡ []
unfolding text_of
last_events u reason = refl

-- What the completion of a response leaves: the same text, with an output that holds it, sent once.
abbrev IsFinished : StreamStatsSnapshot → Core × List Frame → Type 0
IsFinished s (core', out) =
    (s' : StreamStatsSnapshot) × (core'.stats ≡ some s')
    × (s'.output_text ≡ s.output_text)
    × (frame_text out ≡ [])
    × (completed_items out ≡ s'.response_output_items ∷ [])
    × (message_text s'.response_output_items ≡ s'.output_text)

finish_response-some :
    (core : Core) (s : StreamStatsSnapshot)
    → IsFinished s (finish_response (record core { stats = some s }))
unfolding finish_response record_response_id
finish_response-some core s =
    let done = finish_calls core.tool_calls in
    let ends =
      usage (usage_or_default core.usage) ∷ finished (reason_or_stop core.finish_reason) ∷ [] in
    let t = record_events s (done.events ++ ends) in
    let items = response_output_items (record core { tool_calls = done.calls; stats = some t }) in
    let s' = record t { upstream_response_id = none; response_output_items = items } in
    let (quiet, no_items, no_text) = finish_calls-text core.tool_calls in
    let last = responses_completed_sse_with_usage core.usage core.response_id items ∷ [] in
    let (text, outputs) = completed_frame core.usage core.response_id items in
    let (texts, all_outputs) = frames-append done.frames last in
    (
      s',
      refl,
      (record_events_lem (done.events ++ ends) s).0
          ∙ ap (◌++◌ s.output_text) (
              text_of-append done.events ends
              ∙ ap₂ ◌++◌ no_text
                  (last_events (usage_or_default core.usage) (reason_or_stop core.finish_reason)))
          ∙ append-nil s.output_text,
      texts ∙ ap₂ ◌++◌ quiet text,
      all_outputs ∙ ap₂ ◌++◌ no_items outputs,
      response_output_items-text (record core { tool_calls = done.calls; stats = some t }),
    )

pub finish_response-text :
    (core : Core) (s : StreamStatsSnapshot)
    → core.stats ≡ some s
    → IsFinished s (finish_response core)
finish_response-text core s h =
    subst (λ core'. IsFinished s (finish_response core'))
      (ap (λ stats. record core { stats = stats }) (sym h)) (finish_response-some core s)
