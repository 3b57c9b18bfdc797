-- ===== src/Capture/Events.antt =====
-- The events of a whole stream, and that a capture takes them one after the other,
-- src/domain/activity/stream.rs.
use mathlib.Core.List.{append-nil}
use prelay_server.Base.{ℕ, ◌≡◌, refl, sym, ap, ◌∙◌, Option, none, some, List, [], ◌∷◌, ◌++◌, arith}
use prelay_server.Json.{Json}
use prelay_server.Text.{Bytes, Text, join_lines}
use prelay_server.Stream.Lines.Chunks.{split_lines}
use prelay_server.Stream.Decoder.{flatten}
use prelay_server.Capture.{
  RawStreamContentCapture, RawStreamProtocol, chat_completions, image_generation, new, joined,
  line_data, flush_chat, flush_image, flush_data, flush_event, observe_line, observe_last, finish,
}
use prelay_server.Capture.Chunks.{
  observe_lines, observe_chunks, holding, observe_chunk-read, observe_chunks-flatten,
  observe_lines-holding, observe_lines-append,
}

abbrev list_of {ℓ} : {A : Type ℓ} → Option A → List A
list_of none = []
list_of (some a) = a ∷ []

abbrev last_line : Bytes → List Bytes
last_line [] = []
last_line (b ∷ line) = (b ∷ line) ∷ []

abbrev waiting : List Text → RawStreamContentCapture → RawStreamContentCapture
waiting ds s = record s { data_lines = ds }

-- A state without data lines, and the protocol that it keeps.
IsIdle : RawStreamProtocol → RawStreamContentCapture → Type 0
IsIdle p s = (s.protocol ≡ p) × (s.data_lines ≡ [])

module _ (json : Json) where
  open json use {from_str}

  -- The events that lines make, behind lines of data without a blank line so far; and those that are
  -- left at the end.
  unfoldable pub events : List Text → List Bytes → List Text × List Text
  events pending [] = ([], pending)
  events pending ([] ∷ lines) =
      let (later, rest) = events [] lines in (list_of (joined pending) ++ later, rest)
  events pending ((b ∷ line) ∷ lines) =
      events (pending ++ list_of (line_data json (b ∷ line))) lines

  -- The events of a whole stream, the one that its end cuts off included.
  unfoldable pub sse_events : Bytes → List Text
  unfolding events split_lines
  sse_events bytes =
      let (lines, rest) = split_lines [] bytes in
      let (complete, pending) = events [] (lines ++ last_line rest) in
      complete ++ list_of (joined pending)

  unfoldable pub flush_all :
      RawStreamProtocol → RawStreamContentCapture → List Text → RawStreamContentCapture
  flush_all p s [] = s
  flush_all p s (e ∷ es) = flush_all p (flush_data json p s e) es

  flush_data-kept :
      (p : RawStreamProtocol) (s : RawStreamContentCapture) (e : Text)
      → ((flush_data json p s e).protocol ≡ s.protocol)
        × ((flush_data json p s e).data_lines ≡ s.data_lines)
  unfolding flush_data flush_chat flush_image
  flush_data-kept chat_completions s e = ground arith
  flush_data-kept image_generation s e = ground arith

  flush_event-some :
      (s : RawStreamContentCapture) (ds : List Text) (e : Text)
      → joined ds ≡ some e
      → flush_event json (waiting ds s) ≡ flush_data json s.protocol (waiting [] s) e
  unfolding flush_event
  flush_event-some s ds e h = rw (h, flush_event) refl

  flush_all-append :
      (p : RawStreamProtocol) (s : RawStreamContentCapture) (xs ys : List Text)
      → flush_all p s (xs ++ ys) ≡ flush_all p (flush_all p s xs) ys
  unfolding flush_all
  flush_all-append p s [] ys = refl
  flush_all-append p s (x ∷ xs) ys = flush_all-append p (flush_data json p s x) xs ys

  -- A state without data lines is itself when its data lines are dropped.
  idle_lem :
      (p : RawStreamProtocol) (s : RawStreamContentCapture) (e : Text)
      → IsIdle p s
      → IsIdle p (flush_data json p s e)
        × (flush_data json s.protocol (waiting [] s) e ≡ waiting [] (flush_data json p s e))
  unfolding IsIdle
  idle_lem p s e idle =
      let (kept, none_left) = flush_data-kept p s e in
      let after = flush_data json p s e in
      let empty : after.data_lines ≡ [] = none_left ∙ idle.1 in
      (
        (kept ∙ idle.0, empty),
        ap (λ q. flush_data json q (waiting [] s) e) idle.0
            ∙ ap (λ ds. flush_data json p (waiting ds s) e) (sym idle.1)
            ∙ ap (λ ds. waiting ds after) empty,
      )

  observe_line-data :
      (s : RawStreamContentCapture) (ds : List Text) (b : ℕ) (line : Bytes)
      → observe_line json (waiting ds s) (b ∷ line)
        ≡ waiting (ds ++ list_of (line_data json (b ∷ line))) s
  unfolding observe_line
  observe_line-data s ds b line =
      elim (line_data json (b ∷ line))
        as (λ o.
          ◌≡◌ {A = RawStreamContentCapture}
            (elim o [
              | none ↦ waiting ds s
              | some payload ↦ record (waiting ds s) { data_lines = ds ++ payload ∷ [] }
            ])
            (waiting (ds ++ list_of o) s)) [
              | none ↦ ap (λ l. waiting l s) (sym (append-nil ds))
              | some payload ↦ refl
            ]

  observe_line-blank :
      (s : RawStreamContentCapture) → observe_line json (waiting [] s) [] ≡ waiting [] s
  unfolding observe_line flush_event
  observe_line-blank s = refl

  observe_line-flush : (s : RawStreamContentCapture) → observe_line json s [] ≡ flush_event json s
  unfolding observe_line
  observe_line-flush s = refl

  observe_lines-events :
      (p : RawStreamProtocol) (s : RawStreamContentCapture) (ds : List Text) (lines : List Bytes)
      → IsIdle p s
      → observe_lines json (waiting ds s) lines
        ≡ waiting (events ds lines).1 (flush_all p s (events ds lines).0)
  unfolding observe_lines events flush_all
  observe_lines-events p s ds [] idle = refl
  observe_lines-events p s [] ([] ∷ lines) idle =
      ap (λ t. observe_lines json t lines) (observe_line-blank s)
      ∙ observe_lines-events p s [] lines idle
  observe_lines-events p s (d ∷ ds) ([] ∷ lines) idle =
      let e = join_lines (d ∷ ds) in
      let (still, same) = idle_lem p s e idle in
      ap (λ t. observe_lines json t lines)
        (observe_line-flush (waiting (d ∷ ds) s) ∙ flush_event-some s (d ∷ ds) e refl ∙ same)
      ∙ observe_lines-events p (flush_data json p s e) [] lines still
  observe_lines-events p s ds ((b ∷ line) ∷ lines) idle =
      ap (λ t. observe_lines json t lines) (observe_line-data s ds b line)
      ∙ observe_lines-events p s (ds ++ list_of (line_data json (b ∷ line))) lines idle

  flush_event-pending :
      (p : RawStreamProtocol) (s : RawStreamContentCapture) (ds : List Text)
      → IsIdle p s
      → flush_event json (waiting ds s) ≡ flush_all p s (list_of (joined ds))
  unfolding flush_all IsIdle
  flush_event-pending p s [] idle = unfold flush_event in ap (λ ds. waiting ds s) (sym idle.1)
  flush_event-pending p s (d ∷ ds) idle =
      let e = join_lines (d ∷ ds) in
      flush_event-some s (d ∷ ds) e refl
      ∙ ap (λ q. flush_data json q (waiting [] s) e) idle.0
      ∙ ap (λ l. flush_data json p (waiting l s) e) (sym idle.1)

  flush_all-IsIdle :
      (p : RawStreamProtocol) (s : RawStreamContentCapture) (es : List Text)
      → IsIdle p s
      → IsIdle p (flush_all p s es)
  unfolding flush_all
  flush_all-IsIdle p s [] idle = idle
  flush_all-IsIdle p s (e ∷ es) idle =
      flush_all-IsIdle p (flush_data json p s e) es (idle_lem p s e idle).0

  finish-holding :
      (s : RawStreamContentCapture) (rest : Bytes)
      → finish json (holding rest (holding [] s))
        ≡ flush_event json (observe_lines json (holding [] s) (last_line rest))
  unfolding finish observe_last observe_lines
  finish-holding s [] = refl
  finish-holding s (b ∷ line) = refl

  -- At the end of a stream, however it came in chunks, a new capture has taken the stream's events
  -- one after the other, the last one also if no blank line ends it.
  pub finish-sse_events :
      (p : RawStreamProtocol) (chunks : List Bytes)
      → finish json (observe_chunks json (new p) chunks)
        ≡ flush_all p (new p) (sse_events (flatten chunks))
  unfolding sse_events
  finish-sse_events p chunks =
      let bytes = flatten chunks in
      let (lines, rest) = split_lines [] bytes in
      let (complete, pending) = events [] (lines ++ last_line rest) in
      let idle : IsIdle p (new p) = unfold IsIdle in (refl, refl) in
      let taken = flush_all p (new p) complete in
      let read_all = observe_lines json (new p) lines in
      ap (finish json)
        (observe_chunks-flatten json (new p) chunks ∙ observe_chunk-read json (new p) bytes)
      ∙ ap (λ t. finish json (holding rest t)) (sym (observe_lines-holding json (new p) lines))
      ∙ finish-holding read_all rest
      ∙ ap (λ t. flush_event json (observe_lines json t (last_line rest)))
          (observe_lines-holding json (new p) lines)
      ∙ ap (flush_event json) (
          sym (observe_lines-append json (new p) lines (last_line rest))
          ∙ observe_lines-events p (new p) [] (lines ++ last_line rest) idle)
      ∙ flush_event-pending p taken pending (flush_all-IsIdle p (new p) complete idle)
      ∙ sym (flush_all-append p (new p) complete (list_of (joined pending)))
