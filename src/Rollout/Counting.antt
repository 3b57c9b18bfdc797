-- ===== src/Rollout/Counting.antt =====
-- That a rollout's writer counts its lines, events and bytes, and refers to events that it has
-- numbered: src/store/rollout/writer.rs.
use prelay_server.Base.{ℕ, ◌≤◌, String, str_eq, Option, none, some, true, false}
use prelay_server.Base.Assoc.{All-insert}
use prelay_server.Result.{ok, err}
use prelay_server.Recording.Calls.{RolloutStatus}
use prelay_server.Rollout.{Encoding, ContentDraft, ControlBody, turn_end, item_key, RolloutSummary}
use prelay_server.Rollout.Writer.{
  Writer, Outcome, write_event, kept, append_content, ignored, enter_window, append_control,
  summary_with_status, synced, after_end, finish_with,
}
use prelay_server.Rollout.References.{IsCounted}
use prelay_server.Rollout.Events.{Sound, choose, write_event-Sound}

module _ (encoding : Encoding) where
  open encoding use {V, B, F}

  pub kept-Sound :
      (metas first : ℕ) (key : Option String) (o : Outcome encoding ℕ)
      → Sound encoding metas first o
      → Sound encoding metas first (kept encoding key o)
  kept-Sound metas first key (err e, w) c = c
  kept-Sound metas first none (ok n, w) c = c
  kept-Sound metas first (some key) (ok n, w) c = (
    c.0,
    record {
      lines = c.1.lines;
      last = c.1.last;
      bytes = c.1.bytes;
      events = c.1.events;
      items = All-insert (λ (k, m). m ≤ w.seq) key n w.item_refs c.0 c.1.items;
      refs = c.1.refs;
    },
  )

  pub Sound-IsCounted :
      (metas first : ℕ) (o : Outcome encoding ℕ)
      → Sound encoding metas first o
      → IsCounted metas first o.1
  Sound-IsCounted metas first (err e, w) c = c
  Sound-IsCounted metas first (ok n, w) c = c.1

  pub append_content-Sound :
      (metas first : ℕ) (draft : ContentDraft B) (w : Writer encoding)
      → IsCounted metas first w
      → Sound encoding metas first (append_content encoding draft w)
  unfolding append_content
  append_content-Sound metas first draft w c =
      elim (encoding.draft_event_parts draft)
        as (λ parts. Sound encoding metas first (elim parts [
          | err e ↦ (err e, w)
          | ok (event_type, payload) ↦
              kept encoding (item_key event_type draft)
                (write_event encoding event_type payload true w)
        ])) [
          | err e ↦ c
          | ok (event_type, payload) ↦
              kept-Sound metas first (item_key event_type draft)
                (write_event encoding event_type payload true w)
                (write_event-Sound encoding metas first event_type payload true w c)
        ]

  enter_window-IsCounted :
      (metas first : ℕ) (event_type : String) (payload : V) (w : Writer encoding)
      → IsCounted metas first w
      → IsCounted metas first (enter_window encoding event_type payload w)
  unfolding enter_window
  enter_window-IsCounted metas first event_type payload w c =
      choose encoding (IsCounted metas first) (str_eq event_type "window") _ w
        (record {
          lines = c.lines;
          last = c.last;
          bytes = c.bytes;
          events = c.events;
          items = c.items;
          refs = tt;
        })
        c

  ignored-IsCounted :
      (metas first : ℕ) (o : Outcome encoding ℕ)
      → Sound encoding metas first o
      → IsCounted metas first (ignored encoding o).1
  ignored-IsCounted metas first (err e, w) c = c
  ignored-IsCounted metas first (ok n, w) c = c.1

  pub append_control-IsCounted :
      (metas first : ℕ) (body : ControlBody) (w : Writer encoding)
      → IsCounted metas first w
      → IsCounted metas first (append_control encoding body w).1
  unfolding append_control
  append_control-IsCounted metas first body w c =
      elim (encoding.event_parts body)
        as (λ parts.
          let o : Outcome encoding (Unit {0}) = elim parts [
            | err e ↦ (err e, w)
            | ok (event_type, payload) ↦ ignored encoding (
                write_event encoding event_type payload false
                  (enter_window encoding event_type payload w))
          ] in
          IsCounted metas first o.1) [
            | err e ↦ c
            | ok (event_type, payload) ↦
                let entered = enter_window encoding event_type payload w in
                ignored-IsCounted metas first
                  (write_event encoding event_type payload false entered)
                  (write_event-Sound encoding metas first event_type payload false entered
                    (enter_window-IsCounted metas first event_type payload w c))
          ]

  after_end-IsCounted :
      (metas first : ℕ) (status : RolloutStatus) (o : Outcome encoding (Unit {0}))
      → IsCounted metas first o.1
      → IsCounted metas first (after_end encoding status o).1
  unfolding after_end
  after_end-IsCounted metas first status (err e, w) c = c
  after_end-IsCounted metas first status (ok done, w) c =
      elim (synced encoding w.file)
        as (λ failed.
          let o : Outcome encoding RolloutSummary = elim failed [
            | some e ↦ (err e, record w { file = none })
            | none ↦ (
              ok (summary_with_status encoding status w),
              record w { file = none; status = status; finished = true },
            )
          ] in
          IsCounted metas first o.1) [
            | some e ↦ record {
              lines = c.lines;
              last = c.last;
              bytes = c.bytes;
              events = c.events;
              items = c.items;
              refs = c.refs;
            }
            | none ↦ record {
              lines = c.lines;
              last = c.last;
              bytes = c.bytes;
              events = c.events;
              items = c.items;
              refs = c.refs;
            }
          ]

  pub finish_with-IsCounted :
      (metas first : ℕ) (status : RolloutStatus) (http_status : Option ℕ)
      (error_code : Option String) (w : Writer encoding)
      → IsCounted metas first w
      → IsCounted metas first (finish_with encoding status http_status error_code w).1
  unfolding finish_with
  finish_with-IsCounted metas first status http_status error_code w c =
      choose encoding (λ (o : Outcome encoding RolloutSummary). IsCounted metas first o.1)
        w.finished _ _ c
        (after_end-IsCounted metas first status
          (append_control encoding (turn_end status http_status error_code) w)
          (append_control-IsCounted metas first (turn_end status http_status error_code) w c))
