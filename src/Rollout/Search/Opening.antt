-- ===== src/Rollout/Search/Opening.antt =====
-- That what is found on the disk can be written to, src/store/rollout/read.rs and writer.rs.
use mathlib.Core.Path.{subst}
use prelay_server.Base.{
  ◌≡◌, refl, String, str_eq, List, [], ◌∷◌, Bool, true, false, ◌&&◌, if◌then◌else◌,
}
use prelay_server.Result.{Result, ok, err, ◌>>=◌}
use prelay_server.Rollout.{RolloutError, Encoding, ContentDraft}
use prelay_server.Rollout.References.{IsCounted}
use prelay_server.Rollout.Writer.{Writer}
use prelay_server.Rollout.Requests.{Call, performs}
use prelay_server.Rollout.Reading.{Decoding, ConversationEvent, ParsedConversation}
use prelay_server.Rollout.Threads.{from_events}
use prelay_server.Rollout.Threads.Referring.{RefersWithin, from_events-RefersWithin}
use prelay_server.Rollout.Beginning.{ThreadState, SessionContext, TurnContext, is_empty, begin}
use prelay_server.Rollout.Beginning.Counts.{metas_of, begin-IsCounted}
use prelay_server.Rollout.Search.{
  Disk, ThreadCandidate, missing, corrupt, events, recovered_indexes, base_path,
  recovered_thread_path, read_thread_candidate, loaded, settled, recovered_loop, after_base,
  load_thread_source,
}
use prelay_server.Rollout.Search.Candidates.{
  IsNumbered, CandidateNumbered, read_thread_candidate-Numbered,
}

abbrev LoadedWithin : {E : Type 0} → Result RolloutError (ThreadState × E) → Type 0
LoadedWithin (ok (state, e)) = RefersWithin state
LoadedWithin (err e) = Unit

module _ (encoding : Encoding) where
  open encoding use {V, B, F}

  module _ (decoding : Decoding V B) (disk : Disk) where
    open disk use {D}

    loaded-Within :
        (path : String) (parsed : ParsedConversation V)
        → IsNumbered parsed
        → LoadedWithin (loaded encoding decoding disk path parsed)
    unfolding loaded
    loaded-Within path parsed h = from_state _ refl
      where
        from_state :
            (state : Result RolloutError ThreadState)
            → from_events encoding decoding path parsed.events parsed.line_count parsed.last_seq
              ≡ state
            → LoadedWithin (state >>= λ state. ok (state, parsed.events))
        from_state (ok state) e =
            from_events-RefersWithin encoding decoding parsed.last_seq path parsed.events
              parsed.line_count state h e
        from_state (err e) _ = tt

    settled-Within :
        (path unused : String) (candidate : Result RolloutError (ThreadCandidate V)) (d : D)
        (next : D → Result RolloutError (ThreadState × List (ConversationEvent V)) × D)
        → CandidateNumbered candidate
        → ((d : D) → LoadedWithin (next d).0)
        → LoadedWithin (settled encoding decoding disk path unused (candidate, d) next).0
    settled-Within path unused (err e) d next h ih = tt
    settled-Within path unused (ok missing) d next h ih = (tt, tt)
    settled-Within path unused (ok corrupt) d next h ih = ih d
    settled-Within path unused (ok (events parsed)) d next h ih = loaded-Within path parsed h

    recovered_loop-Within :
        (base_missing : Bool) (indexes : List String) (identity_id thread_id : String) (d : D)
        → LoadedWithin
            (recovered_loop encoding decoding disk base_missing indexes identity_id thread_id d).0
    unfolding recovered_loop
    recovered_loop-Within base_missing [] identity_id thread_id d = tt
    recovered_loop-Within base_missing (index ∷ indexes) identity_id thread_id d =
        let candidate = recovered_thread_path identity_id thread_id index in
        let unused =
          (if base_missing && str_eq index "1"
            then base_path identity_id thread_id
            else candidate) in
        let (read, d') = read_thread_candidate encoding decoding disk candidate d in
        settled-Within candidate unused read d'
          (recovered_loop encoding decoding disk base_missing indexes identity_id thread_id)
          (read_thread_candidate-Numbered encoding decoding disk candidate d)
          (recovered_loop-Within base_missing indexes identity_id thread_id)

    after_base-Within :
        (identity_id thread_id : String) (candidate : Result RolloutError (ThreadCandidate V))
        (d : D)
        → CandidateNumbered candidate
        → LoadedWithin (after_base encoding decoding disk identity_id thread_id (candidate, d)).0
    after_base-Within identity_id thread_id (err e) d h = tt
    after_base-Within identity_id thread_id (ok missing) d h =
        recovered_loop-Within true recovered_indexes identity_id thread_id d
    after_base-Within identity_id thread_id (ok corrupt) d h =
        recovered_loop-Within false recovered_indexes identity_id thread_id d
    after_base-Within identity_id thread_id (ok (events parsed)) d h =
        loaded-Within (base_path identity_id thread_id) parsed h

    load_thread_source-Within :
        (identity_id thread_id : String) (d : D)
        → LoadedWithin (load_thread_source encoding decoding disk identity_id thread_id d).0
    unfolding load_thread_source
    load_thread_source-Within identity_id thread_id d =
        let (read, d') =
          read_thread_candidate encoding decoding disk (base_path identity_id thread_id) d in
        after_base-Within identity_id thread_id read d' (
          read_thread_candidate-Numbered encoding decoding disk (base_path identity_id thread_id) d)

    -- Whatever the disk holds: if a thread is found there and a turn on it begins, then after any
    -- calls on the writer its lines are a file's first line, if the thread was empty, and its own
    -- events, its bytes are those that were hashed, and each reference, to an event of the file
    -- too, is to an event that has a number.
    pub load_thread_source-begin-IsCounted :
        (identity_id turn_id : String) (session : SessionContext) (context : TurnContext)
        (drafts : List (ContentDraft B)) (file : F) (calls : List (Call encoding)) (d d' : D)
        (state : ThreadState) (read : List (ConversationEvent V)) (w : Writer encoding)
        → load_thread_source encoding decoding disk identity_id session.thread_id d
          ≡ (ok (state, read), d')
        → begin encoding identity_id turn_id session context drafts state file ≡ (ok tt, w)
        → IsCounted (metas_of (is_empty state)) state.seq (performs encoding calls w)
    load_thread_source-begin-IsCounted identity_id turn_id session context drafts file calls d d'
          state read w l b =
        let within =
          subst
            (λ (o : Result RolloutError (ThreadState × List (ConversationEvent V)) × D).
              LoadedWithin o.0)
            l (load_thread_source-Within identity_id session.thread_id d) in
        begin-IsCounted encoding identity_id turn_id session context drafts state file calls w
          within.0 within.1 b
