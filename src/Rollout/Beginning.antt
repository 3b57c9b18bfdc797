-- ===== src/Rollout/Beginning.antt =====
-- How a rollout's writer begins: `begin` of src/store/rollout/writer.rs behind the lookup of the
-- thread, whose state is an argument, as is the file that is opened; with `ThreadState` of
-- src/store/rollout/cache.rs and the check of path segments in src/store/rollout/support.rs.
use Prim.Native.Char.{code}
use Prim.Native.String.{len, ◌++◌ as str_append}
use Prim.Native.String as String
use prelay_server.Base.{
  ℕ, ◌+◌, String, str_eq, Option, none, some, List, [], ◌∷◌, Bool, true, false, not, ◌||◌, ◌&&◌,
  if◌then◌else◌, ltb, leb, ◌==◌, is_some,
}
use prelay_server.Result.{ok, err}
use prelay_server.Text.{Bytes}
use prelay_server.Recording.Calls.{writing}
use prelay_server.Rollout.{
  RolloutError, invalid_path, WindowState, ContentDraft, window, turn, ContentHash, Encoding,
  RolloutWriter,
}
use prelay_server.Rollout.Writer.{
  Writer, Outcome, write_line, write_meta, append_control, append_request_events,
}
pub mod Counts

-- The fields of a thread's state that a writer takes over.
pub record ThreadState : Type 0 where
  pub relative_path : String
  pub line_count : ℕ
  pub seq : ℕ
  pub window : Option WindowState
  pub content : ContentHash
  pub event_refs : List (Bytes × List ℕ)
  pub item_refs : List (String × ℕ)
  pub content_event_count : ℕ

pub record SessionContext : Type 0 where
  pub thread_id : String
  pub window_id : Option String
  pub generation : ℕ

pub record TurnContext : Type 0 where
  pub activity_id : String
  pub model_requested : String
  pub model_upstream : String

is_segment_char : ℕ → Bool
is_segment_char c =
    (leb b'0' c && leb c b'9')
    || ((leb b'A' c && leb c b'Z') || ((leb b'a' c && leb c b'z') || (c == b'-' || c == b'_')))

all_chars : (ℕ → Bool) → String → Bool
all_chars p String.[] = true
all_chars p (String.◌∷◌ c s) = p (code c) && all_chars p s

unfoldable pub is_safe_path_segment : String → Bool
unfolding all_chars is_segment_char
is_safe_path_segment value =
    not (str_eq value "") && (leb (len value) 128 && all_chars is_segment_char value)

abbrev same_id : Option String → Option String → Bool
same_id none none = true
same_id (some a) (some b) = str_eq a b
same_id _ _ = false

unfoldable pub is_empty : ThreadState → Bool
is_empty state = state.line_count == 0

unfoldable pub window_changed : ThreadState → SessionContext → Bool
unfolding is_empty
window_changed state session = elim state.window [
  | some known ↦
      not (known.generation == session.generation)
      || not (same_id known.window_id session.window_id)
  | none ↦ not (is_empty state) && (ltb 0 session.generation || is_some session.window_id)
]

needs_window : ThreadState → SessionContext → Bool
unfolding window_changed
needs_window state session = not (is_some state.window) || window_changed state session

abbrev pub opened : {F : Type 0} → ThreadState → F → RolloutWriter F
opened state file = record {
  file = some file;
  hasher = [];
  seq = state.seq;
  line_count = state.line_count;
  start_line = state.line_count + 1;
  end_line = state.line_count;
  byte_size = 0;
  event_count = 0;
  content = state.content;
  event_refs = state.event_refs;
  item_refs = state.item_refs;
  content_event_count = state.content_event_count;
  window_state = state.window;
  status = writing;
  finished = false;
}

module _ (encoding : Encoding) where
  open encoding use {V, B, F}

  -- `?` on a step that changes the writer.
  abbrev and_next :
      Outcome encoding (Unit {0})
      → (Writer encoding → Outcome encoding (Unit {0}))
      → Outcome encoding (Unit {0})
  and_next (ok done, w) rest = rest w
  and_next (err e, w) rest = (err e, w)

  begin_file : Bool → Writer encoding → Outcome encoding (Unit {0})
  begin_file empty w = if empty then write_meta encoding w else (ok tt, w)

  begin_window : Bool → SessionContext → Writer encoding → Outcome encoding (Unit {0})
  begin_window needed session w =
      if needed
      then append_control encoding
          (window (record { window_id = session.window_id; generation = session.generation })) w
      else (ok tt, w)

  -- The first events of a turn, whose id is new.
  first_events :
      Bool
      → Bool
      → String
      → SessionContext
      → TurnContext
      → List (ContentDraft B)
      → Writer encoding
      → Outcome encoding (Unit {0})
  unfolding begin_file begin_window
  first_events empty needed turn_id session context drafts w = and_next (begin_file empty w) (λ w.
      and_next (begin_window (empty || needed) session w) (λ w.
        and_next
          (append_control encoding
            (turn turn_id context.activity_id context.model_requested context.model_upstream) w)
          (append_request_events encoding drafts)))

  unfoldable pub begin :
      String
      → String
      → SessionContext
      → TurnContext
      → List (ContentDraft B)
      → ThreadState
      → F
      → Outcome encoding (Unit {0})
  unfolding first_events is_safe_path_segment needs_window
  begin identity_id turn_id session context drafts state file =
      let w = opened state file in
      if not (is_safe_path_segment identity_id)
      then (
        err (invalid_path (str_append "identity id is not a safe path segment: " identity_id)),
        w,
      )
      else if not (is_safe_path_segment session.thread_id)
      then (
        err (invalid_path (str_append "thread id is not a safe path segment: " session.thread_id)),
        w,
      )
      else first_events (is_empty state) (needs_window state session) turn_id session context drafts
          w
