-- ===== src/Stream/ChatToResponses/Output.antt =====
-- The text that a converted stream sends, keeps and reports.
use mathlib.Core.List.{append_assoc, append-nil}
use mathlib.Core.Path.{ap₂, subst}
use prelay_server.Base.{
  if◌then◌else◌, arith, ◌≡◌, ◌⊎◌, refl, ◌∙◌, sym, Option, some, List, [], ◌∷◌, ◌++◌, true, false,
  is_empty, Bool-cases, Option-cases, inl, inr,
}
use prelay_server.Text.{Bytes, Text, from_utf8, strip_prefix, join_lines, trim, text_eq, codes}
use prelay_server.Stream.Events.{
  InternalStreamEvent, StreamStatsSnapshot, ChatSseEvent, to_internal_events,
}
use prelay_server.Stream.Events.Folding.{record_events, record_events_lem}
use prelay_server.Stream.Frames.{Frame}
use prelay_server.Stream.Lines.{drain_lines}
use prelay_server.Stream.Decoder.{process_lines, push_lines, push_chunks}
use prelay_server.Stream.ChatToResponses.{
  Core, Decoder, process_events, finish_response, flush_data, flush_event, process_line,
  process_text, finish_line, finish, run,
}
use prelay_server.Stream.ChatToResponses.Completion.{
  process_events-completions, finish_response-completions,
}
use prelay_server.Stream.ChatToResponses.Content.{
  frame_text, completed_items, message_text, frames-append, process_events-text,
  finish_response-text,
}

-- What was sent up to here, against the state: the statistics hold the text of the deltas, and once
-- the stream is complete, one completion event with an output that holds the same text.
abbrev pub Sent : Core → List Frame → Type 0
Sent core out =
    (s : StreamStatsSnapshot) × (core.stats ≡ some s)
    × (s.output_text ≡ frame_text out)
    × (completed_items out ≡ (if core.completed then s.response_output_items ∷ [] else []))
    × ((if core.completed then message_text s.response_output_items else frame_text out)
        ≡ frame_text out)

abbrev Extends : Core → Core × List Frame → Type 0
Extends core (core', out) = (before : List Frame) → Sent core before → Sent core' (before ++ out)

then-Extends :
    (a b c : Core) (xs ys : List Frame)
    → Extends a (b, xs)
    → Extends b (c, ys)
    → Extends a (c, xs ++ ys)
then-Extends a b c xs ys first second before sent =
    subst (Sent c) (append_assoc before xs ys) (second (before ++ xs) (first before sent))

nothing-Extends : (core : Core) → Extends core (core, [])
nothing-Extends core before sent = subst (Sent core) (sym (append-nil before)) sent

process_events-Extends :
    (es : List InternalStreamEvent) (core : Core)
    → core.completed ≡ false
    → Extends core (process_events es core)
process_events-Extends es core running before (s, stats, text, outputs, last) =
    let (core', out) = process_events es core in
    let (stats', text', none_later) = process_events-text es core s stats in
    let same = (process_events-completions es core).1 in
    let (texts, all) = frames-append before out in
    (
      record_events s es,
      stats',
      (record_events_lem es s).0 ∙ ap₂ ◌++◌ text (sym text') ∙ sym texts,
      ground (arith, all, outputs, running, same, none_later),
      ground (arith, running, same),
    )

finish_response-Extends :
    (core : Core)
    → core.completed ≡ false
    → Extends core (finish_response (record core { completed = true }))
finish_response-Extends core running before (s, stats, text, outputs, last) =
    let done = record core { completed = true } in
    let (core', out) = finish_response done in
    let (s', stats', text', quiet, one, whole) = finish_response-text done s stats in
    let same = (finish_response-completions done).1 in
    let (texts, all) = frames-append before out in
    let sent_text : frame_text (before ++ out) ≡ s'.output_text =
      texts ∙ ap₂ ◌++◌ (sym text) quiet ∙ append-nil s.output_text ∙ sym text' in
    (
      s',
      stats',
      sym sent_text,
      ground (arith, all, outputs, running, same, one),
      ground (arith, same, whole, sent_text),
    )

module _ (decode : Text → Option ChatSseEvent) where
  flush_data-cases :
      (data_text : Text) (core : Core)
      → (flush_data decode data_text core ≡ (core, []))
        ⊎ ((core.completed ≡ false)
            × (flush_data decode data_text core
                ≡ finish_response (record core { completed = true })))
        ⊎ ((event : ChatSseEvent) × (core.completed ≡ false)
            × (flush_data decode data_text core ≡ process_events (to_internal_events event) core))
  unfolding flush_data
  flush_data-cases data_text core = elim (Bool-cases core.completed) [
    | inl complete ↦ inl (rw (complete, flush_data) refl)
    | inr running ↦ elim (Bool-cases (text_eq (trim data_text) (codes "[DONE]"))) [
      | inl is_done ↦ inr (inl (running, rw (running, is_done, flush_data) refl))
      | inr other ↦ elim (Option-cases (decode data_text)) [
        | inl bad ↦ inl (simp (running, other, bad))
        | inr (event, good) ↦ inr (inr (event, running, simp (running, other, good)))
      ]
    ]
  ]

  flush_data-Extends :
      (data_text : Text) (core : Core) → Extends core (flush_data decode data_text core)
  flush_data-Extends data_text core = elim (flush_data-cases data_text core) [
    | inl same ↦ subst (Extends core) (sym same) (nothing-Extends core)
    | inr (inl (running, same)) ↦
        subst (Extends core) (sym same) (finish_response-Extends core running)
    | inr (inr (event, running, same)) ↦
        subst (Extends core) (sym same)
          (process_events-Extends (to_internal_events event) core running)
  ]

  flush_event-Extends : (core : Core) → Extends core (flush_event decode core)
  unfolding flush_event
  flush_event-Extends core = elim (Bool-cases (is_empty core.data_lines)) [
    | inl empty ↦
        let same : flush_event decode core ≡ (core, []) = simp empty in
        subst (Extends core) (sym same) (nothing-Extends core)
    | inr lines ↦
        let text = join_lines core.data_lines in
        let same : flush_event decode core
            ≡ flush_data decode text (record core { data_lines = [] }) =
          simp lines in
        subst (Extends core) (sym same) (flush_data-Extends text (record core { data_lines = [] }))
  ]

  process_text-Extends :
      (text : Text) (core : Core) → Extends core (process_text decode text core, [])
  unfolding process_text
  process_text-Extends text core = elim (Option-cases (strip_prefix (codes "data:") text)) [
    | inl other ↦ rw (other, process_text) (nothing-Extends core)
    | inr (rest, starts) ↦ rw (starts, process_text) (nothing-Extends core)
  ]

  process_line-Extends : (core : Core) (line : Bytes) → Extends core (process_line decode core line)
  unfolding process_line
  process_line-Extends core [] = flush_event-Extends core
  process_line-Extends core (b ∷ line) = elim (Option-cases (from_utf8 (b ∷ line))) [
    | inl bad ↦ rw (bad, process_line) (nothing-Extends core)
    | inr (text, good) ↦ rw (good, process_line) (process_text-Extends text core)
  ]

  process_lines-Extends :
      (core : Core) (lines : List Bytes)
      → Extends core (process_lines (process_line decode) core lines)
  unfolding process_lines
  process_lines-Extends core [] = nothing-Extends core
  process_lines-Extends core (line ∷ lines) =
      let (core', out) = process_line decode core line in
      let (last, outs) = process_lines (process_line decode) core' lines in
      then-Extends core core' last out outs (process_line-Extends core line)
        (process_lines-Extends core' lines)

  push_chunks-Extends :
      (decoder : Decoder) (chunks : List Bytes)
      → let ((buffer, core), out) = push_chunks (process_line decode) decoder chunks in
        Extends decoder.1 (core, out)
  unfolding push_chunks
  push_chunks-Extends decoder [] = nothing-Extends decoder.1
  push_chunks-Extends (buffer, core) (chunk ∷ chunks) =
      let (decoder', out) = push_lines (process_line decode) (buffer, core) chunk in
      let (last, outs) = push_chunks (process_line decode) decoder' chunks in
      then-Extends core decoder'.1 last.1 out outs
        (unfold push_lines in process_lines-Extends core (drain_lines (buffer ++ chunk)).0)
        (push_chunks-Extends decoder' chunks)

  finish_line-Extends : (decoder : Decoder) → Extends decoder.1 (finish_line decode decoder)
  unfolding finish_line
  finish_line-Extends ([], core) = nothing-Extends core
  finish_line-Extends (b ∷ line, core) =
      let (core', out) = process_line decode core (b ∷ line) in
      let (core'', outs) = flush_event decode core' in
      then-Extends core core' core'' out outs (process_line-Extends core (b ∷ line))
        (flush_event-Extends core')

  finish-Extends :
      (decoder : Decoder)
      → let ((buffer, core), out) = finish decode decoder in Extends decoder.1 (core, out)
  unfolding finish
  finish-Extends decoder =
      let (core, out) = finish_line decode decoder in
      let (core', outs) = finish_response (record core { completed = true }) in
      elim (Bool-cases core.completed) [
        | inl complete ↦ rw (complete, finish) (finish_line-Extends decoder)
        | inr running ↦
            rw (running, finish)
              (then-Extends decoder.1 core core' out outs (finish_line-Extends decoder)
                (finish_response-Extends core running))
      ]

  -- However the bytes of a stream come in chunks, and whatever they are, if what was sent before
  -- agrees with the decoder's statistics, so does what was sent after the chunks and the end of the
  -- stream: the statistics hold the text of all the deltas that were sent, and the one completion
  -- event lists the output that the statistics keep, whose message is that text.
  pub run-Sent :
      (decoder : Decoder) (chunks : List Bytes) (before : List Frame)
      → Sent decoder.1 before
      → let ((buffer, core), out) = run decode decoder chunks in Sent core (before ++ out)
  unfolding run
  run-Sent decoder chunks before =
      let (decoder', out) = push_chunks (process_line decode) decoder chunks in
      let (last, outs) = finish decode decoder' in
      then-Extends decoder.1 decoder'.1 last.1 out outs (push_chunks-Extends decoder chunks)
        (finish-Extends decoder') before
