-- ===== src/Rollout/Requests.antt =====
-- The events of a request, and the calls that follow: src/store/rollout/writer.rs.
use prelay_server.Base.{
  ℕ, ◌≡◌, refl, ap, ◌∙◌, String, Option, none, some, List, [], ◌∷◌, ◌++◌, Bool, true, arith,
  and_then,
}
use prelay_server.Base.Assoc.{get}
use prelay_server.Result.{ok, err}
use prelay_server.Text.{Bytes}
use prelay_server.Recording.Calls.{RolloutStatus}
use prelay_server.Rollout.{
  Encoding, ContentDraft, context, item_key, refs_of, get_ref, with_item, occurrences, or_else,
  invalid_path,
}
use prelay_server.Rollout.Writer.{
  Writer, Outcome, event_identity, write_event, kept, append_content, seq_of, existing_seq, noted,
  request_loop, append_request_events, summary_with_status, finish_with,
}
use prelay_server.Rollout.References.{
  IsCounted, refs_of-Within, Found, get_ref-Found, first-Found, get-Found,
}
use prelay_server.Rollout.Events.{Sound, write_event-Sound}
use prelay_server.Rollout.Counting.{
  kept-Sound, append_content-Sound, append_control-IsCounted, finish_with-IsCounted,
  Sound-IsCounted,
}

module _ (encoding : Encoding) where
  open encoding use {V, B, F}

  existing_seq-Found :
      (metas first : ℕ) (key : Option String) (identity : Bytes) (seen : List Bytes)
      (w : Writer encoding)
      → IsCounted metas first w
      → Found w.seq (existing_seq encoding key identity seen w)
  unfolding existing_seq
  existing_seq-Found metas first key identity seen w c =
      let by_identity =
        get_ref-Found w.seq (occurrences identity seen) (refs_of identity w.event_refs)
          (refs_of-Within w.seq identity w.event_refs c.refs) in
      elim key
        as (λ key. Found w.seq (
          or_else (and_then key (λ k. get k w.item_refs))
            (get_ref (occurrences identity seen) (refs_of identity w.event_refs)))) [
              | none ↦ by_identity
              | some k ↦
                  first-Found w.seq (get k w.item_refs) _ (get-Found w.seq k w.item_refs c.items)
                    by_identity
            ]

  seq_of-Sound :
      (metas first : ℕ) (existing : Option ℕ) (event_type : String) (payload : V)
      (w : Writer encoding)
      → Found w.seq existing
      → IsCounted metas first w
      → Sound encoding metas first (seq_of encoding existing event_type payload w)
  unfolding seq_of
  seq_of-Sound metas first (some n) event_type payload w found c = (found, c)
  seq_of-Sound metas first none event_type payload w found c =
      write_event-Sound encoding metas first event_type payload true w c

  noted-IsCounted :
      (metas first : ℕ) (key : Option String)
      (rest : ℕ → Writer encoding → Outcome encoding (Unit {0})) (o : Outcome encoding ℕ)
      → ((n : ℕ) (v : Writer encoding)
          → IsCounted metas first v
          → IsCounted metas first (rest n v).1)
      → Sound encoding metas first o
      → IsCounted metas first (noted encoding key rest o).1
  noted-IsCounted metas first key rest (err e, w) keeps c = c
  noted-IsCounted metas first none rest (ok n, w) keeps c = keeps n w c.1
  noted-IsCounted metas first (some key) rest (ok n, w) keeps c =
      keeps n (with_item (some key) n w) (kept-Sound encoding metas first (some key) (ok n, w) c).1

  request_loop-IsCounted :
      (metas first : ℕ) (drafts : List (ContentDraft B)) (seen : List Bytes) (refs : List ℕ)
      (w : Writer encoding)
      → IsCounted metas first w
      → IsCounted metas first (request_loop encoding seen refs drafts w).1
  unfolding request_loop
  request_loop-IsCounted metas first [] seen refs w c =
      append_control-IsCounted encoding metas first (context refs) w c
  request_loop-IsCounted metas first (draft ∷ drafts) seen refs w c =
      let later = request_loop-IsCounted metas first drafts in
      elim (encoding.draft_event_parts draft)
        as (λ parts.
          let o : Outcome encoding (Unit {0}) = elim parts [
            | err e ↦ (err e, w)
            | ok (event_type, payload) ↦ elim (event_identity encoding event_type payload) [
              | err e ↦ (err e, w)
              | ok identity ↦
                  let key = item_key event_type draft in
                  noted encoding key
                    (λ n v. request_loop encoding (identity ∷ seen) (refs ++ n ∷ []) drafts v)
                    (seq_of encoding (existing_seq encoding key identity seen w) event_type payload
                      w)
            ]
          ] in
          IsCounted metas first o.1) [
            | err e ↦ c
            | ok (event_type, payload) ↦
                let key = item_key event_type draft in
                elim (event_identity encoding event_type payload)
                  as (λ found.
                    let o : Outcome encoding (Unit {0}) = elim found [
                      | err e ↦ (err e, w)
                      | ok identity ↦
                          noted encoding key
                            (λ n v.
                              request_loop encoding (identity ∷ seen) (refs ++ n ∷ []) drafts v)
                            (seq_of encoding (existing_seq encoding key identity seen w) event_type
                              payload w)
                    ] in
                    IsCounted metas first o.1) [
                      | err e ↦ c
                      | ok identity ↦
                          noted-IsCounted metas first key
                            (λ n v.
                              request_loop encoding (identity ∷ seen) (refs ++ n ∷ []) drafts v)
                            (seq_of encoding (existing_seq encoding key identity seen w) event_type
                              payload w)
                            (λ n v. later (identity ∷ seen) (refs ++ n ∷ []) v)
                            (seq_of-Sound metas first (existing_seq encoding key identity seen w)
                              event_type payload w
                              (existing_seq-Found metas first key identity seen w c) c)
                    ]
          ]

  -- The calls that the server makes to a writer that has begun.
  pub data Call : Type 0 where
    append : ContentDraft B → Call
    finish : RolloutStatus → Option ℕ → Option String → Call

  unfoldable pub perform : Call → Writer encoding → Writer encoding
  perform (append draft) w = (append_content encoding draft w).1
  perform (finish status http_status error_code) w =
      (finish_with encoding status http_status error_code w).1

  unfoldable pub performs : List Call → Writer encoding → Writer encoding
  performs [] w = w
  performs (call ∷ calls) w = performs calls (perform call w)

  pub calls-IsCounted :
      (metas first : ℕ) (calls : List Call) (w : Writer encoding)
      → IsCounted metas first w
      → IsCounted metas first (performs calls w)
  unfolding performs perform
  calls-IsCounted metas first [] w c = c
  calls-IsCounted metas first (append draft ∷ calls) w c =
      let o = append_content encoding draft w in
      calls-IsCounted metas first calls o.1 (
        Sound-IsCounted encoding metas first o
          (append_content-Sound encoding metas first draft w c))
  calls-IsCounted metas first (finish status http_status error_code ∷ calls) w c =
      calls-IsCounted metas first calls (finish_with encoding status http_status error_code w).1
        (finish_with-IsCounted encoding metas first status http_status error_code w c)

  -- If a writer's counts are right when it begins, they are so after the events of its request and
  -- any calls, whichever of them fail: its lines are its events and those of its own, its bytes are
  -- those that were hashed, and each reference is to an event that has a number.
  pub performs-IsCounted :
      (metas first : ℕ) (drafts : List (ContentDraft B)) (calls : List Call) (w : Writer encoding)
      → IsCounted metas first w
      → IsCounted metas first (performs calls (append_request_events encoding drafts w).1)
  unfolding append_request_events
  performs-IsCounted metas first drafts calls w c =
      calls-IsCounted metas first calls (append_request_events encoding drafts w).1
        (request_loop-IsCounted metas first drafts [] [] w c)

  write_event-finished :
      (event_type : String) (payload : V) (content : Bool) (w : Writer encoding)
      → w.finished ≡ true
      → write_event encoding event_type payload content w
        ≡ (err (invalid_path "rollout is already finished"), w)
  unfolding write_event
  write_event-finished event_type payload content w done = ground (arith, done)

  append_content-finished :
      (draft : ContentDraft B) (w : Writer encoding)
      → w.finished ≡ true
      → (append_content encoding draft w).1 ≡ w
  unfolding append_content
  append_content-finished draft w done =
      elim (encoding.draft_event_parts draft)
        as (λ parts.
          let o : Outcome encoding ℕ = elim parts [
            | err e ↦ (err e, w)
            | ok (event_type, payload) ↦
                kept encoding (item_key event_type draft)
                  (write_event encoding event_type payload true w)
          ] in
          o.1 ≡ w) [
            | err e ↦ refl
            | ok (event_type, payload) ↦
                ap (λ o. (kept encoding (item_key event_type draft) o).1)
                  (write_event-finished event_type payload true w done)
          ]

  finish_with-finished :
      (status : RolloutStatus) (http_status : Option ℕ) (error_code : Option String)
      (w : Writer encoding)
      → w.finished ≡ true
      → finish_with encoding status http_status error_code w
        ≡ (ok (summary_with_status encoding w.status w), w)
  unfolding finish_with
  finish_with-finished status http_status error_code w done = ground (arith, done)

  -- A writer that is finished stays as it is, whatever is asked of it.
  pub performs_finished :
      (calls : List Call) (w : Writer encoding) → w.finished ≡ true → performs calls w ≡ w
  unfolding performs perform
  performs_finished [] w done = refl
  performs_finished (append draft ∷ calls) w done =
      ap (performs calls) (append_content-finished draft w done) ∙ performs_finished calls w done
  performs_finished (finish status http_status error_code ∷ calls) w done =
      ap (performs calls)
        (ap (λ o. o.1) (finish_with-finished status http_status error_code w done))
      ∙ performs_finished calls w done
