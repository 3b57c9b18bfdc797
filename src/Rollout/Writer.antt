-- ===== src/Rollout/Writer.antt =====
-- The operations of the writer, src/store/rollout/writer.rs.
use prelay_server.Base.{
  ℕ, ◌+◌, String, str_eq, Option, none, some, List, [], ◌∷◌, ◌++◌, Bool, true, false, if◌then◌else◌,
  ◌&&◌, length, and_then,
}
use prelay_server.Base.Assoc.{get}
use prelay_server.Result.{Result, ok, err}
use prelay_server.Text.{Bytes}
use prelay_server.Recording.Calls.{RolloutStatus}
use prelay_server.Rollout.{
  RolloutError, invalid_path, ContentDraft, ControlBody, turn_end, context, ContentHash, Encoding,
  RolloutWriter, RolloutSummary, is_content_event, item_key, refs_of, push_ref, occurrences,
  get_ref, with_item, or_else,
}

module _ (encoding : Encoding) where
  open encoding use {
    V, B, F, draft_event_parts, event_parts, canonical_event, chain_digest, sha256, window_of,
    readable_time, to_vec, meta, write_all, sync,
  }

  abbrev pub Writer : Type 0
  Writer = RolloutWriter F

  abbrev pub Outcome : Type 0 → Type 0
  Outcome A = Result RolloutError A × Writer

  unfoldable pub append_hash : ContentHash → String → V → Result RolloutError ContentHash
  append_hash hash event_type payload = elim (canonical_event event_type payload) [
    | err e ↦ err e
    | ok canonical ↦
        ok (record { count = hash.count + 1; digest = chain_digest hash.digest canonical })
  ]

  unfoldable pub event_identity : String → V → Result RolloutError Bytes
  event_identity event_type payload = elim (canonical_event event_type payload) [
    | err e ↦ err e
    | ok canonical ↦ ok (sha256 canonical)
  ]

  unfoldable pub after_write : Bytes → Option RolloutError × F → Writer → Outcome (Unit {0})
  after_write line (some e, f) w = (err e, record w { file = some f })
  after_write line (none, f) w = (
    ok tt,
    record w {
      file = some f;
      hasher = w.hasher ++ line;
      byte_size = w.byte_size + length line;
      line_count = w.line_count + 1;
      end_line = w.line_count + 1;
    },
  )

  unfoldable pub write_line : Bytes → Writer → Outcome (Unit {0})
  write_line line w = elim w.file [
    | none ↦ (err (invalid_path "rollout file is closed"), w)
    | some f ↦ after_write line (write_all f line) w
  ]

  -- The end of `write_event`, behind the line.
  unfoldable pub indexed : String → V → Bool → Writer → Outcome ℕ
  indexed event_type payload content w =
      if content && is_content_event event_type
      then elim (event_identity event_type payload) [
        | err e ↦ (err e, w)
        | ok identity ↦ (
          ok w.seq,
          record w {
            event_refs = push_ref identity w.seq w.event_refs;
            content_event_count = w.content_event_count + 1;
          },
        )
      ]
      else (ok w.seq, w)

  unfoldable pub after_line : String → V → Bool → Outcome (Unit {0}) → Outcome ℕ
  after_line event_type payload content (err e, w) = (err e, w)
  after_line event_type payload content (ok done, w) =
      indexed event_type payload content (record w { event_count = w.event_count + 1 })

  -- The part of `write_event` behind the new number.
  unfoldable pub numbered : String → V → Bool → Writer → Outcome ℕ
  numbered event_type payload content w =
      elim (to_vec w.seq (readable_time w.seq) event_type payload) [
        | err e ↦ (err e, w)
        | ok line ↦ after_line event_type payload content (write_line (line ++ b'\n' ∷ []) w)
      ]

  unfoldable pub hashed : Bool → ContentHash → String → V → Result RolloutError ContentHash
  hashed true hash event_type payload = append_hash hash event_type payload
  hashed false hash event_type payload = ok hash

  unfoldable pub write_event : String → V → Bool → Writer → Outcome ℕ
  write_event event_type payload content w =
      if w.finished
      then (err (invalid_path "rollout is already finished"), w)
      else elim (hashed content w.content event_type payload) [
        | err e ↦ (err e, w)
        | ok hash ↦
            numbered event_type payload content (record w { content = hash; seq = w.seq + 1 })
      ]

  unfoldable pub write_meta : Writer → Outcome (Unit {0})
  write_meta w = elim meta [ err e ↦ (err e, w) | ok line ↦ write_line (line ++ b'\n' ∷ []) w ]

  abbrev pub kept : Option String → Outcome ℕ → Outcome ℕ
  kept key (err e, w) = (err e, w)
  kept key (ok seq, w) = (ok seq, with_item key seq w)

  unfoldable pub append_content : ContentDraft B → Writer → Outcome ℕ
  append_content draft w = elim (draft_event_parts draft) [
    | err e ↦ (err e, w)
    | ok (event_type, payload) ↦
        kept (item_key event_type draft) (write_event event_type payload true w)
  ]

  abbrev pub ignored : Outcome ℕ → Outcome (Unit {0})
  ignored (err e, w) = (err e, w)
  ignored (ok seq, w) = (ok tt, w)

  -- A new window forgets the events of the one before.
  unfoldable pub enter_window : String → V → Writer → Writer
  enter_window event_type payload w =
      if str_eq event_type "window"
      then record w { window_state = window_of payload; event_refs = [] }
      else w

  unfoldable pub append_control : ControlBody → Writer → Outcome (Unit {0})
  append_control body w = elim (event_parts body) [
    | err e ↦ (err e, w)
    | ok (event_type, payload) ↦
        ignored (write_event event_type payload false (enter_window event_type payload w))
  ]

  unfoldable pub seq_of : Option ℕ → String → V → Writer → Outcome ℕ
  seq_of (some seq) event_type payload w = (ok seq, w)
  seq_of none event_type payload w = write_event event_type payload true w

  unfoldable pub existing_seq : Option String → Bytes → List Bytes → Writer → Option ℕ
  existing_seq key identity seen w =
      or_else (and_then key (λ k. get k w.item_refs))
        (get_ref (occurrences identity seen) (refs_of identity w.event_refs))

  -- What is done with a draft's number, after its item is noted.
  abbrev pub noted :
      Option String → (ℕ → Writer → Outcome (Unit {0})) → Outcome ℕ → Outcome (Unit {0})
  noted key rest (err e, w) = (err e, w)
  noted key rest (ok seq, w) = rest seq (with_item key seq w)

  -- The loop over the drafts, with the identities that came and the numbers so far.
  unfoldable pub request_loop :
      List Bytes → List ℕ → List (ContentDraft B) → Writer → Outcome (Unit {0})
  request_loop seen refs [] w = append_control (context refs) w
  request_loop seen refs (draft ∷ drafts) w = elim (draft_event_parts draft) [
    | err e ↦ (err e, w)
    | ok (event_type, payload) ↦ elim (event_identity event_type payload) [
      | err e ↦ (err e, w)
      | ok identity ↦
          let key = item_key event_type draft in
          noted key (λ seq v. request_loop (identity ∷ seen) (refs ++ seq ∷ []) drafts v)
            (seq_of (existing_seq key identity seen w) event_type payload w)
    ]
  ]

  unfoldable pub append_request_events : List (ContentDraft B) → Writer → Outcome (Unit {0})
  append_request_events drafts w = request_loop [] [] drafts w

  abbrev pub summary_with_status : RolloutStatus → Writer → RolloutSummary
  summary_with_status status w = record {
    status = status;
    start_line = w.start_line;
    end_line = w.end_line;
    event_count = w.event_count;
    byte_size = w.byte_size;
    sha256 = sha256 w.hasher;
  }

  abbrev pub synced : Option F → Option RolloutError
  synced none = none
  synced (some f) = sync f

  unfoldable pub after_end : RolloutStatus → Outcome (Unit {0}) → Outcome RolloutSummary
  after_end status (err e, w) = (err e, w)
  after_end status (ok done, w) = elim (synced w.file) [
    | some e ↦ (err e, record w { file = none })
    | none ↦ (
      ok (summary_with_status status w),
      record w { file = none; status = status; finished = true },
    )
  ]

  unfoldable pub finish_with :
      RolloutStatus → Option ℕ → Option String → Writer → Outcome RolloutSummary
  finish_with status http_status error_code w =
      if w.finished
      then (ok (summary_with_status w.status w), w)
      else after_end status (append_control (turn_end status http_status error_code) w)
