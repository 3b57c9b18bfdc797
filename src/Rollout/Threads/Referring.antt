-- ===== src/Rollout/Threads/Referring.antt =====
-- That the state of a thread refers to its events only, src/store/rollout/cache.rs.
use mathlib.Core.Path.{subst}
use prelay_server.Base.{
  ℕ, ◌≤◌, ◌≡◌, String, str_eq, Option, none, some, List, [], ◌∷◌, true, false, if◌then◌else◌,
}
use prelay_server.Base.Assoc.{insert, All-insert}
use prelay_server.Result.{ok, ◌>>=◌, after, ok_inj}
use prelay_server.Rollout.{Encoding, ContentEventBody, item_id, item_ref_key, is_content_event}
use prelay_server.Rollout.References.{ItemsWithin, EventsWithin, EventsWithin-push_ref}
use prelay_server.Rollout.Writer.{event_identity}
use prelay_server.Rollout.Reading.{Decoding, ConversationEvent}
use prelay_server.Rollout.Reading.Sequence.{NumberedUpTo}
use prelay_server.Rollout.Beginning.{ThreadState}
use prelay_server.Rollout.Threads.{
  Indexed, nothing_indexed, no_content, with_body, content_of, with_identity, index_event,
  index_events, from_events,
}

abbrev pub Refers : ℕ → Indexed → Type 0
Refers n found = ItemsWithin n found.item_refs × EventsWithin n found.event_refs

abbrev pub RefersWithin : ThreadState → Type 0
RefersWithin state = ItemsWithin state.seq state.item_refs × EventsWithin state.seq state.event_refs

with_body-ItemsWithin :
    {B : Type 0} (n seq : ℕ) (event_type : String) (body : Option (ContentEventBody B))
    (items : List (String × ℕ))
    → seq ≤ n
    → ItemsWithin n items
    → ItemsWithin n (with_body event_type seq body items)
with_body-ItemsWithin n seq event_type none items le h = h
with_body-ItemsWithin n seq event_type (some body) items le h =
    elim (item_id body)
      as (λ id.
        ItemsWithin n
          (elim id [ none ↦ items | some id ↦ insert (item_ref_key event_type id) seq items ])) [
            | none ↦ h
            | some id ↦ All-insert (λ (k, m). m ≤ n) (item_ref_key event_type id) seq items le h
          ]

module _ (encoding : Encoding) where
  open encoding use {V, B}

  module _ (decoding : Decoding V B) (n : ℕ) where
    index_event-Refers :
        (event : ConversationEvent V) (before found : Indexed)
        → event.seq ≤ n
        → Refers n before
        → index_event encoding decoding event before ≡ ok found
        → Refers n found
    unfolding index_event
    index_event-Refers event before found le r h =
        elim (str_eq event.event_type "window")
            as (λ b.
              (if b
                  then ok
                      (record before { window = encoding.window_of event.payload; event_refs = [] })
                  else if is_content_event event.event_type
                  then event_identity encoding event.event_type event.payload
                    >>= with_identity encoding decoding event before
                  else ok before)
                ≡ ok found
              → Refers n found) [
                | true ↦ λ h. subst (Refers n) (ok_inj h) (r.0, tt)
                | false ↦
                    elim (is_content_event event.event_type)
                      as (λ b.
                        (if b
                            then event_identity encoding event.event_type event.payload
                              >>= with_identity encoding decoding event before
                            else ok before)
                          ≡ ok found
                        → Refers n found) [
                          | true ↦ λ h.
                              after (event_identity encoding event.event_type event.payload) _ h
                                λ identity _ h. subst (Refers n) (ok_inj h) (
                                  with_body-ItemsWithin n event.seq event.event_type
                                      (decoding.content_body event.event_type event.payload)
                                      before.item_refs le r.0,
                                  EventsWithin-push_ref n event.seq identity before.event_refs le
                                      r.1,
                                )
                          | false ↦ λ h. subst (Refers n) (ok_inj h) r
                        ]
              ]
          h

    index_events-Refers :
        (events : List (ConversationEvent V)) (before found : Indexed)
        → NumberedUpTo n events
        → Refers n before
        → index_events encoding decoding events before ≡ ok found
        → Refers n found
    unfolding index_events
    index_events-Refers [] before found le r h = subst (Refers n) (ok_inj h) r
    index_events-Refers (event ∷ events) before found le r h =
        after (index_event encoding decoding event before) _ h λ next e h.
          index_events-Refers events next found le.1 (index_event-Refers event before next le.0 r e)
            h

    pub from_events-RefersWithin :
        (path : String) (events : List (ConversationEvent V)) (line_count : ℕ) (state : ThreadState)
        → NumberedUpTo n events
        → from_events encoding decoding path events line_count n ≡ ok state
        → RefersWithin state
    unfolding from_events
    from_events-RefersWithin path events line_count state le h =
        after (index_events encoding decoding events nothing_indexed) _ h λ found e h.
          after (content_of encoding events no_content) _ h λ content _ h.
            subst RefersWithin (ok_inj h)
              (index_events-Refers events nothing_indexed found le (tt, tt) e)
