-- ===== src/Recording/Finished.antt =====
-- What it is for a recording to have finished its rollout, told from the writer and the store.
use prelay_server.Base.{
  ℕ, ◌≡◌, refl, ◌⊎◌, inl, inr, String, Option, none, some, List, [], ◌∷◌, ◌++◌, Bool, true, false,
  arith, map, ap, ◌∙◌, Bool-cases, Option-cases,
}
use prelay_server.Recording.Calls.{
  ActivityInsert, StoreCall, complete_stream, insert_stream_result, Connections, RolloutStatus,
  Written, written, unwritten, content, completed, failed,
}
use prelay_server.Recording.State.{
  StreamRecordState, append_all, error_events, final_rollout_status, mark_rollout_incomplete,
  settle_rollout, write_rollout, finalize_rollout,
}

-- The store was called so.
abbrev pub Has : {A : Type 0} → A → List A → Type 0
Has c [] = ⊥
Has c (x ∷ xs) = (x ≡ c) ⊎ Has c xs

abbrev pub Grows : {A : Type 0} → List A → List A → Type 0
Grows {A = A} xs ys = (c : A) → Has c xs → Has c ys

pub Grows-append : {A : Type 0} (xs ys : List A) → Grows xs (xs ++ ys)
Grows-append [] ys c h = elim h [ ]
Grows-append (x ∷ xs) ys c (inl here) = inl here
Grows-append (x ∷ xs) ys c (inr later) = inr (Grows-append xs ys c later)

pub Has-last : {A : Type 0} (xs : List A) (c : A) → Has c (xs ++ c ∷ [])
Has-last [] c = inl refl
Has-last (x ∷ xs) c = inr (Has-last xs c)

-- What the store is told of a rollout's end: a summary that was written completes the activity, or
-- comes with the activity; where none was written there is nothing to tell.
abbrev pub Outcome : {S X : Type 0} → Written S → List (StoreCall S X) → Type 0
Outcome (unwritten error) store = Unit
Outcome (written summary) store =
    Has (complete_stream summary) store
    ⊎ ((log : ActivityInsert) × Has (insert_stream_result log summary) store)

-- The rollout is not finished, and at hand.
abbrev pub IsOpen : {W C S X : Type 0} → W → StreamRecordState W C S X → Type 0
IsOpen rollout s = (s.rollout_finalized ≡ false) × (s.rollout ≡ some rollout)

-- The ways a rollout ends: its status, HTTP status, code and message.
pub data Ending : RolloutStatus → Option ℕ → Option String → Option String → Type 0 where
  succeeded : Ending completed (some 200) none none
  broke : (message : String) → Ending failed (some 502) (some "stream_error") (some message)
  left :
      Ending failed
        (some 499)
        (some "downstream_disconnect")
        (some "downstream client disconnected")
  came_empty :
      Ending failed
        (some 502)
        (some "empty_stream")
        (some "upstream stream finished without chunks")

module _ {W C D S X : Type 0} (io : Connections W C D S X) where
  -- The rollout's writer has appended content, and an error's event if the rollout ended with an
  -- error; it was then finished, and the store knows what came of it.
  pub record IsFinished (rollout : W) (store : List (StoreCall S X)) : Type 0 where
    pub events : List D
    pub status : RolloutStatus
    pub http_status : Option ℕ
    pub code : Option String
    pub message : Option String
    pub ending : Ending status http_status code message
    pub outcome :
        let drafts = map content events ++ error_events code message http_status in
        let (last, append_failed) = append_all io drafts rollout in
        Outcome
          (io.finish_with last (final_rollout_status status append_failed) http_status code message)
          store

  abbrev pub IsDone : W → StreamRecordState W C S X → Type 0
  IsDone rollout s = (s.rollout_finalized ≡ true) × IsFinished rollout s.store

  Grows-Outcome :
      (result : Written S) (before after : List (StoreCall S X))
      → Grows before after
      → Outcome result before
      → Outcome result after
  Grows-Outcome (unwritten error) before after grows h = tt
  Grows-Outcome (written summary) before after grows (inl completes) = inl (grows _ completes)
  Grows-Outcome (written summary) before after grows (inr (log, comes)) = inr (log, grows _ comes)

  pub Grows-IsFinished :
      (rollout : W) (before after : List (StoreCall S X))
      → Grows before after
      → IsFinished rollout before
      → IsFinished rollout after
  Grows-IsFinished rollout before after grows h = record {
    events = h.events;
    status = h.status;
    http_status = h.http_status;
    code = h.code;
    message = h.message;
    ending = h.ending;
    outcome = Grows-Outcome _ before after grows h.outcome;
  }

  pub settle_rollout-Outcome :
      (append_failed : Bool) (result : Written S) (s : StreamRecordState W C S X)
      → s.inserted ≡ true
      → Outcome result (settle_rollout io append_failed result s).store
  unfolding settle_rollout
  settle_rollout-Outcome append_failed (unwritten error) s h = tt
  settle_rollout-Outcome append_failed (written summary) s h =
      inl (rw h (Has-last _ (complete_stream summary)))

  settle_rollout_inserted :
      (append_failed : Bool) (result : Written S) (s : StreamRecordState W C S X)
      → (settle_rollout io append_failed result s).inserted ≡ s.inserted
  unfolding settle_rollout mark_rollout_incomplete
  settle_rollout_inserted append_failed (unwritten error) s = refl
  settle_rollout_inserted append_failed (written summary) s = ground arith

  write_rollout_inserted :
      (status : RolloutStatus) (http_status : Option ℕ) (code message : Option String) (rollout : W)
      (s : StreamRecordState W C S X)
      → (write_rollout io status http_status code message rollout s).inserted ≡ s.inserted
  unfolding write_rollout
  write_rollout_inserted status http_status code message rollout s =
      settle_rollout_inserted _ _ (record s { rollout = none; content_capture = _ })

  pub finalize_rollout_done :
      (status : RolloutStatus) (http_status : Option ℕ) (code message : Option String)
      (s : StreamRecordState W C S X)
      → s.rollout_finalized ≡ true
      → finalize_rollout io status http_status code message s ≡ s
  unfolding finalize_rollout
  finalize_rollout_done status http_status code message s flag = simp flag

  pub finalize_rollout_open :
      (rollout : W) (status : RolloutStatus) (http_status : Option ℕ) (code message : Option String)
      (s : StreamRecordState W C S X)
      → IsOpen rollout s
      → finalize_rollout io status http_status code message s
        ≡ write_rollout io status http_status code message rollout s
  unfolding finalize_rollout
  finalize_rollout_open rollout status http_status code message s (flag, held) = simp (flag, held)

  pub finalize_rollout_inserted :
      (status : RolloutStatus) (http_status : Option ℕ) (code message : Option String)
      (s : StreamRecordState W C S X)
      → (finalize_rollout io status http_status code message s).inserted ≡ s.inserted
  unfolding finalize_rollout
  finalize_rollout_inserted status http_status code message s =
      elim (Bool-cases s.rollout_finalized) [
        | inl flag ↦ simp flag
        | inr unfinished ↦ elim (Option-cases s.rollout) [
          | inl gone ↦ simp (unfinished, gone)
          | inr (rollout, held) ↦
              ap (λ t. t.inserted)
                (finalize_rollout_open rollout status http_status code message s (unfinished, held))
              ∙ write_rollout_inserted status http_status code message rollout s
        ]
      ]
