-- ===== src/Rollout/Beginning/Counts.antt =====
-- That a rollout's writer begins with its counts right, src/store/rollout/writer.rs.
use mathlib.Core.Path.{subst}
use prelay_server.Base.{
  ℕ, ◌+◌, ◌≡◌, refl, String, List, [], ◌∷◌, Bool, true, false, not, ◌||◌, if◌then◌else◌, ◌++◌,
  arith,
}
use prelay_server.Result.{ok, err}
use prelay_server.Rollout.{RolloutError, ContentDraft, window, turn, Encoding}
use prelay_server.Rollout.References.{ItemsWithin, EventsWithin, IsCounted}
use prelay_server.Rollout.Writer.{Writer, Outcome, write_line, write_meta, append_control}
use prelay_server.Rollout.Events.{WroteLine, write_line-WroteLine}
use prelay_server.Rollout.Counting.{append_control-IsCounted}
use prelay_server.Rollout.Requests.{Call, performs, performs-IsCounted, calls-IsCounted}
use prelay_server.Rollout.Beginning.{
  ThreadState, SessionContext, TurnContext, is_safe_path_segment, is_empty, needs_window,
  first_events, opened, and_next, begin_file, begin_window, begin,
}

-- The lines of a writer's own that are no events, by whether the thread is empty.
abbrev pub metas_of : Bool → ℕ
metas_of true = 1
metas_of false = 0

module _ (encoding : Encoding) where
  open encoding use {V, B, F}

  -- What holds of the writer when a step succeeds.
  abbrev Succeeds : (Writer encoding → Type 0) → Outcome encoding (Unit {0}) → Type 0
  Succeeds P (ok done, w) = P w
  Succeeds P (err e, w) = Unit

  and_next-Succeeds :
      (P Q : Writer encoding → Type 0) (o : Outcome encoding (Unit {0}))
      (rest : Writer encoding → Outcome encoding (Unit {0}))
      → Succeeds P o
      → ((w : Writer encoding) → P w → Succeeds Q (rest w))
      → Succeeds Q (and_next encoding o rest)
  and_next-Succeeds P Q (ok done, w) rest h later = later w h
  and_next-Succeeds P Q (err e, w) rest h later = tt

  IsCounted-Succeeds :
      (metas first : ℕ) (o : Outcome encoding (Unit {0}))
      → IsCounted metas first o.1
      → Succeeds (IsCounted metas first) o
  IsCounted-Succeeds metas first (ok done, w) c = c
  IsCounted-Succeeds metas first (err e, w) c = tt

  line-Succeeds :
      (metas first : ℕ) (o : Outcome encoding (Unit {0}))
      → WroteLine encoding metas first o
      → Succeeds (IsCounted (metas + 1) first) o
  line-Succeeds metas first (ok done, w) c = c
  line-Succeeds metas first (err e, w) c = tt

  write_meta-Succeeds :
      (first : ℕ) (w : Writer encoding)
      → IsCounted 0 first w
      → Succeeds (IsCounted 1 first) (write_meta encoding w)
  unfolding write_meta
  write_meta-Succeeds first w c =
      elim encoding.meta
        as (λ meta.
          let o : Outcome encoding (Unit {0}) = elim meta [
            | err e ↦ (err e, w)
            | ok line ↦ write_line encoding (line ++ b'\n' ∷ []) w
          ] in
          Succeeds (IsCounted 1 first) o) [
            | err e ↦ tt
            | ok line ↦
                line-Succeeds 0 first (write_line encoding (line ++ b'\n' ∷ []) w)
                  (write_line-WroteLine encoding 0 first (line ++ b'\n' ∷ []) w c)
          ]

  begin_file-Succeeds :
      (empty : Bool) (first : ℕ) (w : Writer encoding)
      → IsCounted 0 first w
      → Succeeds (IsCounted (metas_of empty) first) (begin_file encoding empty w)
  unfolding begin_file
  begin_file-Succeeds true first w c = write_meta-Succeeds first w c
  begin_file-Succeeds false first w c = c

  begin_window-IsCounted :
      (needed : Bool) (session : SessionContext) (metas first : ℕ) (w : Writer encoding)
      → IsCounted metas first w
      → IsCounted metas first (begin_window encoding needed session w).1
  unfolding begin_window
  begin_window-IsCounted true session metas first w c =
      append_control-IsCounted encoding metas first
        (window (record { window_id = session.window_id; generation = session.generation })) w c
  begin_window-IsCounted false session metas first w c = c

  started-IsCounted :
      (state : ThreadState) (file : F)
      → ItemsWithin state.seq state.item_refs
      → EventsWithin state.seq state.event_refs
      → IsCounted 0 state.seq (opened state file)
  started-IsCounted state file items refs = record {
    lines = omega arith;
    last = refl;
    bytes = refl;
    events = omega arith;
    items = items;
    refs = refs;
  }

  guarded-Succeeds :
      (P : Writer encoding → Type 0) (unsafe : Bool) (e : RolloutError) (w : Writer encoding)
      (o : Outcome encoding (Unit {0}))
      → Succeeds P o
      → Succeeds P (if unsafe then (err e, w) else o)
  guarded-Succeeds P true e w o h = tt
  guarded-Succeeds P false e w o h = h

  first_events-Succeeds :
      (empty needed : Bool) (turn_id : String) (session : SessionContext) (context : TurnContext)
      (drafts : List (ContentDraft B)) (first : ℕ) (w : Writer encoding)
      → IsCounted 0 first w
      → Succeeds
          (IsCounted (metas_of empty) first)
          (first_events encoding empty needed turn_id session context drafts w)
  unfolding first_events performs
  first_events-Succeeds empty needed turn_id session context drafts first w c =
      let metas = metas_of empty in
      let P = IsCounted metas first in
      let body = turn turn_id context.activity_id context.model_requested context.model_upstream in
      and_next-Succeeds P P (begin_file encoding empty w) _ (begin_file-Succeeds empty first w c)
        (λ w c.
          and_next-Succeeds P P (begin_window encoding (empty || needed) session w) _
            (IsCounted-Succeeds metas first _
              (begin_window-IsCounted (empty || needed) session metas first w c))
            (λ w c.
              and_next-Succeeds P P (append_control encoding body w) _
                (IsCounted-Succeeds metas first _
                  (append_control-IsCounted encoding metas first body w c))
                (λ w c.
                  IsCounted-Succeeds metas first _
                    (performs-IsCounted encoding metas first drafts [] w c))))

  begin-Succeeds :
      (identity_id turn_id : String) (session : SessionContext) (context : TurnContext)
      (drafts : List (ContentDraft B)) (state : ThreadState) (file : F)
      → ItemsWithin state.seq state.item_refs
      → EventsWithin state.seq state.event_refs
      → Succeeds
          (IsCounted (metas_of (is_empty state)) state.seq)
          (begin encoding identity_id turn_id session context drafts state file)
  unfolding begin
  begin-Succeeds identity_id turn_id session context drafts state file items refs =
      let w = opened state file in
      let P = IsCounted (metas_of (is_empty state)) state.seq in
      guarded-Succeeds P (not (is_safe_path_segment identity_id)) _ w _ (
        guarded-Succeeds P (not (is_safe_path_segment session.thread_id)) _ w _ (
          first_events-Succeeds (is_empty state) (needs_window state session) turn_id session
            context drafts state.seq w (started-IsCounted state file items refs)))

  -- When beginning a turn on a thread whose references are to its events succeeds, then after any
  -- calls on the writer its lines are a file's first line, if the thread was empty, and its own
  -- events, its bytes are those that were hashed, and each reference is to an event that has a
  -- number.
  pub begin-IsCounted :
      (identity_id turn_id : String) (session : SessionContext) (context : TurnContext)
      (drafts : List (ContentDraft B)) (state : ThreadState) (file : F)
      (calls : List (Call encoding)) (w : Writer encoding)
      → ItemsWithin state.seq state.item_refs
      → EventsWithin state.seq state.event_refs
      → begin encoding identity_id turn_id session context drafts state file ≡ (ok tt, w)
      → IsCounted (metas_of (is_empty state)) state.seq (performs encoding calls w)
  begin-IsCounted identity_id turn_id session context drafts state file calls w items refs e =
      calls-IsCounted encoding (metas_of (is_empty state)) state.seq calls w (
        subst (Succeeds (IsCounted (metas_of (is_empty state)) state.seq)) e
          (begin-Succeeds identity_id turn_id session context drafts state file items refs))
