-- ===== src/Rollout/Threads.antt =====
-- The state of a thread from its events, `ThreadState::from_events` of src/store/rollout/cache.rs. The
-- format and the stamp of the file are not kept.
pub mod Referring
use prelay_server.Base.{
  ℕ, zero, suc, ◌+◌, String, str_eq, Option, none, some, List, [], ◌∷◌, if◌then◌else◌,
}
use prelay_server.Base.Assoc.{insert}
use prelay_server.Result.{Result, ok, ◌>>=◌}
use prelay_server.Text.{Bytes}
use prelay_server.Rollout.{
  RolloutError, WindowState, ContentHash, ContentEventBody, Encoding, is_content_event, item_id,
  item_ref_key, push_ref,
}
use prelay_server.Rollout.Writer.{append_hash, event_identity}
use prelay_server.Rollout.Reading.{Decoding, ConversationEvent}
use prelay_server.Rollout.Beginning.{ThreadState}

-- What the loop over a thread's events gathers.
pub record Indexed : Type 0 where
  pub window : Option WindowState
  pub event_refs : List (Bytes × List ℕ)
  pub item_refs : List (String × ℕ)
  pub content_event_count : ℕ

abbrev pub nothing_indexed : Indexed
nothing_indexed = record { window = none; event_refs = []; item_refs = []; content_event_count = 0 }

abbrev zeros : ℕ → Bytes
zeros zero = []
zeros (suc n) = 0 ∷ zeros n

-- `ContentHash::default`.
abbrev pub no_content : ContentHash
no_content = record { count = 0; digest = zeros 32 }

abbrev pub with_body :
    {B : Type 0} → String → ℕ → Option (ContentEventBody B) → List (String × ℕ) → List (String × ℕ)
with_body event_type seq none items = items
with_body event_type seq (some body) items = elim (item_id body) [
  | none ↦ items
  | some id ↦ insert (item_ref_key event_type id) seq items
]

-- `ThreadState::empty`.
abbrev pub empty_thread : String → ThreadState
empty_thread relative_path = record {
  relative_path = relative_path;
  line_count = 0;
  seq = 0;
  window = none;
  content = no_content;
  event_refs = [];
  item_refs = [];
  content_event_count = 0;
}

module _ (encoding : Encoding) where
  open encoding use {V, B, window_of}

  -- `ContentHash::from_events`.
  content_of : List (ConversationEvent V) → ContentHash → Result RolloutError ContentHash
  content_of [] chain = ok chain
  content_of (event ∷ events) chain =
      let appended =
        append_hash encoding chain event.event_type event.payload >>= content_of events in
      let skipped = content_of events chain in
      if is_content_event event.event_type then appended else skipped

  module _ (decoding : Decoding V B) where
    open decoding use {content_body}

    abbrev pub with_identity : ConversationEvent V → Indexed → Bytes → Result RolloutError Indexed
    with_identity event found identity = ok (record found {
      event_refs = push_ref identity event.seq found.event_refs;
      content_event_count = found.content_event_count + 1;
      item_refs =
          with_body event.event_type event.seq (content_body event.event_type event.payload)
            found.item_refs;
    })

    pub index_event : ConversationEvent V → Indexed → Result RolloutError Indexed
    index_event event found =
        if str_eq event.event_type "window"
        then ok (record found { window = window_of event.payload; event_refs = [] })
        else if is_content_event event.event_type
        then event_identity encoding event.event_type event.payload >>= with_identity event found
        else ok found

    pub index_events : List (ConversationEvent V) → Indexed → Result RolloutError Indexed
    unfolding index_event
    index_events [] found = ok found
    index_events (event ∷ events) found = index_event event found >>= index_events events

    unfoldable pub from_events :
        String → List (ConversationEvent V) → ℕ → ℕ → Result RolloutError ThreadState
    unfolding index_events content_of
    from_events relative_path events line_count seq = do
      found ← index_events events nothing_indexed
      content ← content_of events no_content
      ok (record {
        relative_path = relative_path;
        line_count = line_count;
        seq = seq;
        window = found.window;
        content = content;
        event_refs = found.event_refs;
        item_refs = found.item_refs;
        content_event_count = found.content_event_count;
      })
