-- ===== src/Stream/Events/Folding.antt =====
-- What the statistics hold after any events.
use prelay_server.Base.{
  ap, ◌∙◌, ℕ, ◌+◌, ◌≡◌, refl, sym, List, [], ◌∷◌, ◌++◌, Bool, true, false, if◌then◌else◌, arith,
  length, ◌||◌,
}
use mathlib.Core.List.{append_assoc, append-nil}
use prelay_server.Base.OrderedMap.{update_entry, entry_or}
use prelay_server.Text.{Text}
use prelay_server.Stream.Events.{
  InternalStreamEvent, text_delta, reasoning_delta, tool_call_delta, tool_call_done, usage,
  finished, StreamStatsSnapshot, CapturedToolCall, record_event, no_call, apply_done, apply_delta,
  completed_calls, completed_tool_calls, ChatToolCallDelta,
}

unfoldable pub record_events : StreamStatsSnapshot → List InternalStreamEvent → StreamStatsSnapshot
record_events s [] = s
record_events s (e ∷ es) = record_events (record_event s e) es

-- The text that the events carry.
unfoldable pub text_of : List InternalStreamEvent → Text
text_of [] = []
text_of (text_delta delta ∷ es) = delta ++ text_of es
text_of (_ ∷ es) = text_of es

unfoldable pub reasoning_of : List InternalStreamEvent → Text
reasoning_of [] = []
reasoning_of (reasoning_delta delta ∷ es) = delta ++ reasoning_of es
reasoning_of (_ ∷ es) = reasoning_of es

unfoldable pub has_finished : List InternalStreamEvent → Bool
has_finished [] = false
has_finished (finished reason ∷ es) = true
has_finished (_ ∷ es) = has_finished es

pub text_of-append :
    (xs ys : List InternalStreamEvent) → text_of (xs ++ ys) ≡ text_of xs ++ text_of ys
unfolding text_of
text_of-append [] ys = refl
text_of-append (text_delta delta ∷ xs) ys =
    ap (◌++◌ delta) (text_of-append xs ys) ∙ sym (append_assoc delta (text_of xs) (text_of ys))
text_of-append (_ ∷ xs) ys = text_of-append xs ys

update_done :
    (index : ℕ) (id name arguments : Text) (calls : List (ℕ × CapturedToolCall))
    → length (completed_calls (update_entry index no_call (apply_done id name arguments) calls))
      ≡ length (completed_calls calls) + (if (entry_or index no_call calls).done then 0 else 1)
unfolding update_entry completed_calls entry_or apply_done
update_done index id name arguments [] = refl
update_done index id name arguments ((j, call) ∷ calls) =
    ground (arith, update_done index id name arguments calls)

update_delta :
    (delta : ChatToolCallDelta) (calls : List (ℕ × CapturedToolCall))
    → length (completed_calls (update_entry delta.index no_call (apply_delta delta) calls))
      ≡ length (completed_calls calls)
unfolding update_entry completed_calls apply_delta
update_delta delta [] = refl
update_delta delta ((j, call) ∷ calls) = ground (arith, update_delta delta calls)

-- The number of tool calls that the statistics count is the number of those they list as done.
abbrev pub IsCounted : StreamStatsSnapshot → Type 0
IsCounted s = s.tool_call_count ≡ length (completed_tool_calls s)

record_event-IsCounted :
    (s : StreamStatsSnapshot) (e : InternalStreamEvent) → IsCounted s → IsCounted (record_event s e)
unfolding record_event completed_tool_calls
record_event-IsCounted s (tool_call_done index id name arguments) h =
    ground (arith, update_done index id name arguments s.tool_calls)
record_event-IsCounted s (tool_call_delta delta) h = rw (update_delta delta s.tool_calls) h
record_event-IsCounted s (text_delta delta) h = h
record_event-IsCounted s (reasoning_delta delta) h = h
record_event-IsCounted s (usage u) h = h
record_event-IsCounted s (finished reason) h = h

one_event :
    (s : StreamStatsSnapshot) (e : InternalStreamEvent)
    → ((record_event s e).output_text ≡ s.output_text ++ text_of (e ∷ []))
      × ((record_event s e).reasoning_text ≡ s.reasoning_text ++ reasoning_of (e ∷ []))
      × ((record_event s e).completed ≡ (s.completed || has_finished (e ∷ [])))
unfolding record_event text_of reasoning_of has_finished
one_event s (text_delta delta) = ground (arith, append-nil delta, append-nil s.reasoning_text)
one_event s (reasoning_delta delta) = ground (arith, append-nil delta, append-nil s.output_text)
one_event s (finished reason) =
    ground (arith, append-nil s.output_text, append-nil s.reasoning_text)
one_event s _ = ground (arith, append-nil s.output_text, append-nil s.reasoning_text)

of_cons :
    (e : InternalStreamEvent) (es : List InternalStreamEvent)
    → (text_of (e ∷ es) ≡ text_of (e ∷ []) ++ text_of es)
      × (reasoning_of (e ∷ es) ≡ reasoning_of (e ∷ []) ++ reasoning_of es)
      × (has_finished (e ∷ es) ≡ (has_finished (e ∷ []) || has_finished es))
unfolding text_of reasoning_of has_finished
of_cons (text_delta delta) es = ground (arith, append-nil delta)
of_cons (reasoning_delta delta) es = ground (arith, append-nil delta)
of_cons _ es = ground arith

-- After any events the statistics hold the whole text and reasoning that the events carried, in
-- their order; they are complete exactly if the stream was or an event finished it.
pub record_events_lem :
    (es : List InternalStreamEvent) (s : StreamStatsSnapshot)
    → let after = record_events s es in
      (after.output_text ≡ s.output_text ++ text_of es)
      × (after.reasoning_text ≡ s.reasoning_text ++ reasoning_of es)
      × (after.completed ≡ (s.completed || has_finished es))
unfolding record_events
record_events_lem [] s =
    unfold text_of reasoning_of has_finished in
    (sym (append-nil s.output_text), sym (append-nil s.reasoning_text), ground arith)
record_events_lem (e ∷ es) s =
    let (text, reasoning, complete) = record_events_lem es (record_event s e) in
    let one = one_event s e in
    let cons = of_cons e es in
    (
      ground (arith, text, one, cons, append_assoc s.output_text (text_of (e ∷ [])) (text_of es)),
      ground (
        arith,
        reasoning,
        one,
        cons,
        append_assoc s.reasoning_text (reasoning_of (e ∷ [])) (reasoning_of es),
      ),
      ground (arith, complete, one, cons),
    )

-- If the statistics count as many tool calls as they list as done, they do so after any events.
pub record_events-IsCounted :
    (es : List InternalStreamEvent) (s : StreamStatsSnapshot)
    → IsCounted s
    → IsCounted (record_events s es)
unfolding record_events
record_events-IsCounted [] s h = h
record_events-IsCounted (e ∷ es) s h =
    record_events-IsCounted es (record_event s e) (record_event-IsCounted s e h)
