-- ===== src/Rollout/Events.antt =====
-- That writing one event keeps a rollout's counts, src/store/rollout/writer.rs.
use prelay_server.Base.{
  ℕ, ◌+◌, ◌≤◌, refl, String, Option, none, some, [], ◌∷◌, ◌++◌, Bool, true, false, arith,
  length-append, if◌then◌else◌, ◌&&◌,
}
use prelay_server.Result.{Result, ok, err}
use prelay_server.Text.{Bytes}
use prelay_server.Rollout.{RolloutError, ContentHash, Encoding, is_content_event, push_ref}
use prelay_server.Rollout.Writer.{
  Writer, Outcome, event_identity, after_write, write_line, indexed, after_line, numbered, hashed,
  write_event,
}
use prelay_server.Rollout.References.{
  IsCounted, ItemsWithin-suc, EventsWithin-suc, EventsWithin-push_ref,
}

module _ (encoding : Encoding) where
  open encoding use {V, B, F}

  -- A line that is written counts as one of the writer's own until it is counted as an event.
  abbrev pub WroteLine : ℕ → ℕ → Outcome encoding (Unit {0}) → Type 0
  WroteLine metas first (ok done, w) = IsCounted (metas + 1) first w
  WroteLine metas first (err e, w) = IsCounted metas first w

  after_write-WroteLine :
      (metas first : ℕ) (line : Bytes) (written : Option RolloutError × F) (w : Writer encoding)
      → IsCounted metas first w
      → WroteLine metas first (after_write encoding line written w)
  unfolding after_write
  after_write-WroteLine metas first line (some e, f) w c = record {
    lines = c.lines;
    last = c.last;
    bytes = c.bytes;
    events = c.events;
    items = c.items;
    refs = c.refs;
  }
  after_write-WroteLine metas first line (none, f) w c = record {
    lines = omega (arith, c.lines);
    last = refl;
    bytes = omega (arith, c.bytes, length-append w.hasher line);
    events = c.events;
    items = c.items;
    refs = c.refs;
  }

  pub write_line-WroteLine :
      (metas first : ℕ) (line : Bytes) (w : Writer encoding)
      → IsCounted metas first w
      → WroteLine metas first (write_line encoding line w)
  unfolding write_line
  write_line-WroteLine metas first line w c =
      elim w.file
        as (λ file. WroteLine metas first (elim file [
          | none ↦ (err (RolloutError.invalid_path "rollout file is closed"), w)
          | some f ↦ after_write encoding line (encoding.write_all f line) w
        ])) [
          | none ↦ c
          | some f ↦ after_write-WroteLine metas first line (encoding.write_all f line) w c
        ]

  -- A number that is returned is one that the writer has given.
  abbrev pub Sound : ℕ → ℕ → Outcome encoding ℕ → Type 0
  Sound metas first (ok n, w) = (n ≤ w.seq) × IsCounted metas first w
  Sound metas first (err e, w) = IsCounted metas first w

  pub choose :
      {A : Type 0} (P : A → Type 0) (test : Bool) (x y : A) → P x → P y → P (if test then x else y)
  choose P true x y px py = px
  choose P false x y px py = py

  entered-Sound :
      (metas first : ℕ) (w : Writer encoding)
      → IsCounted metas first w
      → (found : Result RolloutError Bytes)
      → Sound metas first (elim found [
        | err e ↦ (err e, w)
        | ok identity ↦ (
          ok w.seq,
          record w {
            event_refs = push_ref identity w.seq w.event_refs;
            content_event_count = w.content_event_count + 1;
          },
        )
      ])
  entered-Sound metas first w c (err e) = c
  entered-Sound metas first w c (ok identity) = (
    omega arith,
    record {
      lines = c.lines;
      last = c.last;
      bytes = c.bytes;
      events = c.events;
      items = c.items;
      refs = EventsWithin-push_ref w.seq w.seq identity w.event_refs (omega arith) c.refs;
    },
  )

  indexed-Sound :
      (metas first : ℕ) (event_type : String) (payload : V) (content : Bool) (w : Writer encoding)
      → IsCounted metas first w
      → Sound metas first (indexed encoding event_type payload content w)
  unfolding indexed
  indexed-Sound metas first event_type payload content w c =
      choose (Sound metas first) (content && is_content_event event_type) _ (ok w.seq, w)
        (entered-Sound metas first w c (event_identity encoding event_type payload))
        (omega arith, c)

  -- A writer whose last number is not counted as an event yet.
  uncounted :
      (metas first : ℕ) (w : Writer encoding)
      → IsCounted metas (first + 1) w
      → IsCounted metas first w
  uncounted metas first w c = record {
    lines = c.lines;
    last = c.last;
    bytes = c.bytes;
    events = omega (arith, c.events);
    items = c.items;
    refs = c.refs;
  }

  after_line-Sound :
      (metas first : ℕ) (event_type : String) (payload : V) (content : Bool)
      (o : Outcome encoding (Unit {0}))
      → WroteLine metas (first + 1) o
      → Sound metas first (after_line encoding event_type payload content o)
  unfolding after_line
  after_line-Sound metas first event_type payload content (err e, w) c = uncounted metas first w c
  after_line-Sound metas first event_type payload content (ok done, w) c =
      indexed-Sound metas first event_type payload content
        (record w { event_count = w.event_count + 1 })
        (record {
          lines = omega (arith, c.lines);
          last = c.last;
          bytes = c.bytes;
          events = omega (arith, c.events);
          items = c.items;
          refs = c.refs;
        })

  numbered-Sound :
      (metas first : ℕ) (event_type : String) (payload : V) (content : Bool) (w : Writer encoding)
      → IsCounted metas (first + 1) w
      → Sound metas first (numbered encoding event_type payload content w)
  unfolding numbered
  numbered-Sound metas first event_type payload content w c =
      elim (encoding.to_vec w.seq (encoding.readable_time w.seq) event_type payload)
        as (λ line. Sound metas first (elim line [
          | err e ↦ (err e, w)
          | ok line ↦
              after_line encoding event_type payload content
                (write_line encoding (line ++ b'\n' ∷ []) w)
        ])) [
          | err e ↦ uncounted metas first w c
          | ok line ↦
              after_line-Sound metas first event_type payload content
                (write_line encoding (line ++ b'\n' ∷ []) w)
                (write_line-WroteLine metas (first + 1) (line ++ b'\n' ∷ []) w c)
        ]

  -- The writer with the next number.
  next_number :
      (metas first : ℕ) (w : Writer encoding) (hash : ContentHash)
      → IsCounted metas first w
      → IsCounted metas (first + 1) (record w { content = hash; seq = w.seq + 1 })
  next_number metas first w hash c = record {
    lines = c.lines;
    last = c.last;
    bytes = c.bytes;
    events = omega (arith, c.events);
    items = ItemsWithin-suc w.seq w.item_refs c.items;
    refs = EventsWithin-suc w.seq w.event_refs c.refs;
  }

  -- `write_event` keeps the counts, also when it fails half way.
  pub write_event-Sound :
      (metas first : ℕ) (event_type : String) (payload : V) (content : Bool) (w : Writer encoding)
      → IsCounted metas first w
      → Sound metas first (write_event encoding event_type payload content w)
  unfolding write_event
  write_event-Sound metas first event_type payload content w c =
      choose (Sound metas first) w.finished _ _ c
        (elim (hashed encoding content w.content event_type payload)
          as (λ hash. Sound metas first (elim hash [
            | err e ↦ (err e, w)
            | ok hash ↦
                numbered encoding event_type payload content
                  (record w { content = hash; seq = w.seq + 1 })
          ])) [
            | err e ↦ c
            | ok hash ↦
                numbered-Sound metas first event_type payload content
                  (record w { content = hash; seq = w.seq + 1 }) (next_number metas first w hash c)
          ])
