-- ===== src/Stream/ChatStats/Passing.antt =====
-- That the decoder of src/codec/bridge/stream/decode/chat_stats.rs passes a stream on unchanged and
-- ends with complete statistics.
use mathlib.Core.List.{append-nil}
use prelay_server.Base.{
  ◌≡◌, refl, sym, ap, ◌∙◌, Option, none, some, List, [], ◌∷◌, ◌++◌, Bool, true, false, not, ◌||◌,
  arith, if◌then◌else◌,
}
use prelay_server.Text.{Bytes, Text, join_lines, text_eq, trim, codes}
use prelay_server.Stream.Lines.{drain_lines}
use prelay_server.Stream.Decoder as Lines
use prelay_server.Stream.Decoder.{flatten}
use prelay_server.Stream.Events.{
  InternalStreamEvent, tool_call_delta, finished, stop, StreamStatsSnapshot, ChatSseEvent,
  to_internal_events,
}
use prelay_server.Stream.Events.Folding.{record_events_lem, has_finished}
use prelay_server.Stream.ChatStats.{
  Core, Decoder, default, record_all, keep_call, process_events, finish_calls, complete, flush_data,
  flush_event, process_text, process_line, process_all, push_chunk, finish_line, finish,
  push_chunks, run,
}

-- Statistics that show a finished stream, if there are any.
abbrev pub is_shown : Option StreamStatsSnapshot → Bool
is_shown none = true
is_shown (some stats) = stats.completed

-- A decoder that has completed has said so in the statistics.
abbrev IsShown : Core → Type 0
IsShown core = (not core.completed || is_shown core.stats) ≡ true

is_shown-record_all :
    (stats : Option StreamStatsSnapshot) (es : List InternalStreamEvent)
    → is_shown (record_all stats es) ≡ (is_shown stats || has_finished es)
is_shown-record_all none es = refl
is_shown-record_all (some stats) es = (record_events_lem es stats).2

keep_call_lem :
    (e : InternalStreamEvent) (core : Core)
    → ((keep_call e core).completed ≡ core.completed) × ((keep_call e core).stats ≡ core.stats)
unfolding keep_call
keep_call_lem (tool_call_delta delta) core = (refl, refl)
keep_call_lem _ core = (refl, refl)

process_events-IsShown :
    (es : List InternalStreamEvent) (core : Core) → IsShown core → IsShown (process_events es core)
unfolding process_events
process_events-IsShown [] core h = h
process_events-IsShown (e ∷ es) core h =
    let kept = keep_call e core in
    let next : Core = record kept { stats = record_all kept.stats (e ∷ []) } in
    process_events-IsShown es next
      (ground (arith, keep_call_lem e core, is_shown-record_all kept.stats (e ∷ []), h))

has_finished-last : (es : List InternalStreamEvent) → has_finished (es ++ finished stop ∷ []) ≡ true
unfolding has_finished
has_finished-last [] = refl
has_finished-last (finished reason ∷ es) = refl
has_finished-last (_ ∷ es) = has_finished-last es

complete-IsShown :
    (core : Core) → IsShown core → IsShown (complete core) × ((complete core).completed ≡ true)
unfolding complete
complete-IsShown core h =
    let (calls, events) = finish_calls core.tool_calls in
    ground (
      arith,
      h,
      is_shown-record_all core.stats (events ++ finished stop ∷ []),
      has_finished-last events,
    )

module _ (decode : Text → Option ChatSseEvent) where
  flush_data-IsShown :
      (payload : Text) (core : Core) → IsShown core → IsShown (flush_data decode payload core)
  unfolding flush_data
  flush_data-IsShown payload core h =
      elim (text_eq (trim payload) (codes "[DONE]"))
        as (λ done. IsShown (
          if done then complete core else elim (decode payload) [
            | none ↦ core
            | some event ↦ process_events (to_internal_events event) core
          ])) [
            | true ↦ (complete-IsShown core h).0
            | false ↦
                elim (decode payload)
                  as (λ found. IsShown (elim found [
                    | none ↦ core
                    | some event ↦ process_events (to_internal_events event) core
                  ])) [
                    | none ↦ h
                    | some event ↦ process_events-IsShown (to_internal_events event) core h
                  ]
          ]

  flush_event-IsShown : (core : Core) → IsShown core → IsShown (flush_event decode core)
  unfolding flush_event
  flush_event-IsShown core h = ground (
    arith,
    h,
    flush_data-IsShown (join_lines core.data_lines) (record core { data_lines = [] }) h,
  )

  process_line-IsShown :
      (core : Core) (line : Bytes) → IsShown core → IsShown (process_line decode core line)
  unfolding process_line process_text
  process_line-IsShown core [] h = flush_event-IsShown core h
  process_line-IsShown core (b ∷ line) h = ground arith

  process_all-IsShown :
      (core : Core) (lines : List Bytes) → IsShown core → IsShown (process_all decode core lines)
  unfolding process_all
  process_all-IsShown core [] h = h
  process_all-IsShown core (line ∷ lines) h =
      process_all-IsShown (process_line decode core line) lines (process_line-IsShown core line h)

  line_step : Core → Bytes → Core × List Bytes
  line_step core line = (process_line decode core line, [])

  process_all-step :
      (core : Core) (lines : List Bytes)
      → (Lines.process_lines line_step core lines).0 ≡ process_all decode core lines
  unfolding Lines.process_lines process_all line_step
  process_all-step core [] = refl
  process_all-step core (line ∷ lines) = process_all-step (process_line decode core line) lines

  push_chunk-step :
      (s : Decoder) (chunk : Bytes)
      → (Lines.push_lines line_step s chunk).0 ≡ (push_chunk decode s chunk).0
  unfolding Lines.push_lines push_chunk
  push_chunk-step (line_buffer, core) chunk =
      let (lines, rest) = drain_lines (line_buffer ++ chunk) in
      ap (λ c. (rest, c)) (process_all-step core lines)

  push_chunks-step :
      (s : Decoder) (chunks : List Bytes)
      → (Lines.push_chunks line_step s chunks).0 ≡ (push_chunks decode s chunks).0
  unfolding Lines.push_chunks push_chunks
  push_chunks-step s [] = refl
  push_chunks-step s (chunk ∷ chunks) =
      push_chunks-step (Lines.push_lines line_step s chunk).0 chunks
      ∙ ap (λ t. (push_chunks decode t chunks).0) (push_chunk-step s chunk)

  -- After chunks the decoder is where one chunk with all of their bytes takes it.
  push_chunks-flatten :
      (core : Core) (chunks : List Bytes)
      → (push_chunks decode ([], core) chunks).0
        ≡ (push_chunks decode ([], core) (flatten chunks ∷ [])).0
  push_chunks-flatten core chunks =
      sym (push_chunks-step ([], core) chunks)
      ∙ ap (λ p. p.0) (Lines.push_chunks-flatten line_step core chunks)
      ∙ push_chunk-step ([], core) (flatten chunks)
      ∙ unfold push_chunks in refl

  push_chunks-IsShown :
      (s : Decoder) (chunks : List Bytes) → IsShown s.1 → IsShown (push_chunks decode s chunks).0.1
  unfolding push_chunks push_chunk
  push_chunks-IsShown s [] h = h
  push_chunks-IsShown s (chunk ∷ chunks) h =
      let (lines, rest) = drain_lines (s.0 ++ chunk) in
      push_chunks-IsShown (rest, process_all decode s.1 lines) chunks
        (process_all-IsShown s.1 lines h)

  finish_line-IsShown : (s : Decoder) → IsShown s.1 → IsShown (finish_line decode s)
  unfolding finish_line
  finish_line-IsShown ([], core) h = h
  finish_line-IsShown (b ∷ line, core) h = process_line-IsShown core (b ∷ line) h

  finish-IsShown :
      (s : Decoder)
      → IsShown s.1
      → ((finish decode s).0.1.completed ≡ true) × (is_shown (finish decode s).0.1.stats ≡ true)
  unfolding finish
  finish-IsShown s h =
      let core = flush_event decode (finish_line decode s) in
      let shown : IsShown core =
        flush_event-IsShown (finish_line decode s) (finish_line-IsShown s h) in
      ground (arith, shown, complete-IsShown core shown)

  finish-nothing : (s : Decoder) → (finish decode s).1 ≡ []
  unfolding finish
  finish-nothing s = refl

  passed : (s : Decoder) (chunks : List Bytes) → (push_chunks decode s chunks).1 ≡ chunks
  unfolding push_chunks push_chunk
  passed s [] = refl
  passed s (chunk ∷ chunks) = ap (λ l. chunk ∷ l) (passed (push_chunk decode s chunk).0 chunks)

  -- However a stream comes in chunks, the decoder passes on its bytes and no others; it ends where one
  -- chunk with all the bytes would take it, and is complete then, as the statistics show if there
  -- are any.
  pub run_lem :
      (stats : Option StreamStatsSnapshot) (chunks : List Bytes)
      → let (last, out) = run decode (default stats) chunks in
        (flatten out ≡ flatten chunks)
        × (last ≡ (run decode (default stats) (flatten chunks ∷ [])).0)
        × (last.1.completed ≡ true)
        × (is_shown last.1.stats ≡ true)
  unfolding run
  run_lem stats chunks =
      let core = (default stats).1 in
      let (done, shown) =
        finish-IsShown (push_chunks decode (default stats) chunks).0
          (push_chunks-IsShown (default stats) chunks refl) in
      (
        ap flatten (
            ap (λ l. (push_chunks decode (default stats) chunks).1 ++ l)
              (finish-nothing (push_chunks decode (default stats) chunks).0)
            ∙ append-nil (push_chunks decode (default stats) chunks).1
            ∙ passed (default stats) chunks),
        ap (λ s. (finish decode s).0) (push_chunks-flatten core chunks),
        done,
        shown,
      )
