-- ===== src/Capture/Reading.antt =====
-- What a capture holds at the end of a stream, src/domain/activity/stream.rs, told from the stream's
-- events.
use mathlib.Core.List.{append_assoc, append-nil}
use prelay_server.Base.{
  String, ◌≡◌, refl, sym, ap, ◌∙◌, List, [], ◌∷◌, ◌++◌, Bool, false, ◌||◌, arith, inl, inr,
  Bool-cases, if◌then◌else◌, unwrap_or,
}
use prelay_server.Json.{Json}
use prelay_server.Text.{Bytes, Text}
use prelay_server.Stream.Decoder.{flatten}
use prelay_server.Capture.{
  RawStreamContentCapture, chat_completions, image_generation, new, is_done, is_image_completed,
  text_at, flush_chat, flush_image, flush_data, finish,
}
use prelay_server.Capture.Chunks.{observe_chunks}
use prelay_server.Capture.Events.{sse_events, flush_all, finish-sse_events}

abbrev pub concat_map : (Text → Text) → List Text → Text
concat_map f [] = []
concat_map f (x ∷ xs) = f x ++ concat_map f xs

abbrev pub any_event : (Text → Bool) → List Text → Bool
any_event p [] = false
any_event p (x ∷ xs) = p x || any_event p xs

module _ (json : Json) where
  open json use {from_str}

  -- The text that a chat event adds, at a path of its JSON value; the end mark adds none.
  abbrev pub added_at : String → Text → Text
  added_at path e = if is_done e then [] else unwrap_or (text_at json path (from_str e)) []

  abbrev pub content_of : Text → Text
  content_of = added_at "/choices/0/delta/content"

  abbrev pub reasoning_of : Text → Text
  reasoning_of = added_at "/choices/0/delta/reasoning_content"

  flush_chat_lem :
      (s : RawStreamContentCapture) (e : Text)
      → let t = flush_data json chat_completions s e in
        (t.output_text ≡ s.output_text ++ content_of e)
        × (t.reasoning_text ≡ s.reasoning_text ++ reasoning_of e)
        × (t.completed ≡ (is_done e || s.completed))
  unfolding flush_data flush_chat
  flush_chat_lem s e = elim (Bool-cases (is_done e)) [
    | inl done ↦ ground (arith, append-nil s.output_text, append-nil s.reasoning_text)
    | inr more ↦ ground arith
  ]

  flush_all-chat :
      (s : RawStreamContentCapture) (es : List Text)
      → let t = flush_all json chat_completions s es in
        (t.output_text ≡ s.output_text ++ concat_map content_of es)
        × (t.reasoning_text ≡ s.reasoning_text ++ concat_map reasoning_of es)
        × (t.completed ≡ (any_event is_done es || s.completed))
  unfolding flush_all
  flush_all-chat s [] = (sym (append-nil s.output_text), sym (append-nil s.reasoning_text), refl)
  flush_all-chat s (e ∷ es) =
      let (text, reasoning, done) = flush_chat_lem s e in
      let (texts, reasonings, dones) = flush_all-chat (flush_data json chat_completions s e) es in
      (
        texts
            ∙ ap (λ l. l ++ concat_map content_of es) text
            ∙ append_assoc s.output_text (content_of e) (concat_map content_of es),
        reasonings
            ∙ ap (λ l. l ++ concat_map reasoning_of es) reasoning
            ∙ append_assoc s.reasoning_text (reasoning_of e) (concat_map reasoning_of es),
        ground (arith, done, dones),
      )

  flush_all-image :
      (s : RawStreamContentCapture) (es : List Text)
      → (flush_all json image_generation s es).completed
        ≡ (any_event (is_image_completed json) es || s.completed)
  unfolding flush_all flush_data flush_image
  flush_all-image s [] = refl
  flush_all-image s (e ∷ es) =
      ground (arith, flush_all-image (flush_data json image_generation s e) es)

  -- A capture of a chat stream ends with the contents of the stream's events one after the other, with
  -- their reasoning likewise, and it is complete exactly if one of the events is the end mark; however
  -- the bytes came in chunks.
  pub finish-chat :
      (chunks : List Bytes)
      → let s = finish json (observe_chunks json (new chat_completions) chunks) in
        let es = sse_events json (flatten chunks) in
        (s.output_text ≡ concat_map content_of es)
        × (s.reasoning_text ≡ concat_map reasoning_of es)
        × (s.completed ≡ any_event is_done es)
  finish-chat chunks =
      let es = sse_events json (flatten chunks) in
      let (text, reasoning, done) = flush_all-chat (new chat_completions) es in
      let same = finish-sse_events json chat_completions chunks in
      (
        ap (λ t. t.output_text) same ∙ text,
        ap (λ t. t.reasoning_text) same ∙ reasoning,
        ap (λ t. t.completed) same ∙ ground (arith, done),
      )

  -- A capture of an image stream is complete exactly if one of the stream's events says so.
  pub finish-image :
      (chunks : List Bytes)
      → (finish json (observe_chunks json (new image_generation) chunks)).completed
        ≡ any_event (is_image_completed json) (sse_events json (flatten chunks))
  finish-image chunks =
      let es = sse_events json (flatten chunks) in
      let done = flush_all-image (new image_generation) es in
      ap (λ t. t.completed) (finish-sse_events json image_generation chunks) ∙ ground (arith, done)
