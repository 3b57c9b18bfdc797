-- ===== src/Examples/Rollouts.antt =====
-- A rollout's writer at concrete input.
use prelay_server.Base.{◌≡◌, refl, none, some, [], ◌∷◌, ◌++◌, true, false, arith}
use prelay_server.Result.{ok, err}
use prelay_server.Text.{Bytes, codes}
use prelay_server.Recording.Calls.{completed, writing}
use prelay_server.Rollout.{
  Encoding, RolloutWriter, ContentDraft, message, invalid_path, get_ref, refs_of, is_content_event,
}
use prelay_server.Rollout.References.{IsCounted}
use prelay_server.Base.Assoc.{get}
use prelay_server.Rollout.Writer.{
  write_meta, write_line, after_write, append_control, write_event, enter_window, hashed, numbered,
  after_line, indexed, append_request_events, request_loop, event_identity, seq_of, existing_seq,
  append_hash,
}
use prelay_server.Rollout.Beginning.{ThreadState, SessionContext, TurnContext, begin}
use prelay_server.Rollout.Requests.{append, finish, performs, performs-IsCounted, performs_finished}

-- An encoding in which a payload is its text, and a file takes everything.
abbrev pub plain_text : Encoding
plain_text = record {
  V = Bytes;
  B = Bytes;
  F = Bytes;
  draft_event_parts = λ draft. ok ("message", codes "hello");
  event_parts = λ body. ok ("control", []);
  canonical_event = λ event_type payload. ok payload;
  chain_digest = λ digest canonical. digest ++ canonical;
  sha256 = λ bytes. bytes;
  window_of = λ payload. none;
  readable_time = λ n. "now";
  to_vec = λ n time event_type payload. ok payload;
  meta = ok [];
  write_all = λ file line. (none, file ++ line);
  sync = λ file. none;
}

abbrev opened : RolloutWriter Bytes
opened = record {
  file = some [];
  hasher = [];
  seq = 7;
  line_count = 8;
  start_line = 9;
  end_line = 8;
  byte_size = 0;
  event_count = 0;
  content = record { count = 0; digest = [] };
  event_refs = [];
  item_refs = [];
  content_event_count = 0;
  window_state = none;
  status = writing;
  finished = false;
}

opened-IsCounted : IsCounted 0 7 opened
opened-IsCounted = record {
  lines = refl;
  last = refl;
  bytes = refl;
  events = omega arith;
  items = tt;
  refs = tt;
}

abbrev pub greeting : ContentDraft Bytes
greeting = record { body = message (codes "hello"); item_id = some "i" }

performs-IsCounted_example : IsCounted 0 7 (
    performs plain_text
      (append greeting ∷ finish completed none none ∷ [])
      (append_request_events plain_text (greeting ∷ greeting ∷ []) opened).1)
performs-IsCounted_example =
    performs-IsCounted plain_text 0 7 (greeting ∷ greeting ∷ [])
      (append greeting ∷ finish completed none none ∷ []) opened opened-IsCounted

performs_finished_example :
    performs plain_text (append greeting ∷ []) (record opened { finished = true })
    ≡ record opened { finished = true }
performs_finished_example =
    performs_finished plain_text (append greeting ∷ []) (record opened { finished = true }) refl

abbrev new_thread : ThreadState
new_thread = record {
  relative_path = "identity_1/thread-1.jsonl";
  line_count = 0;
  seq = 0;
  window = none;
  content = record { count = 0; digest = [] };
  event_refs = [];
  item_refs = [];
  content_event_count = 0;
}

abbrev pub session : SessionContext
session = record { thread_id = "thread-1"; window_id = none; generation = 0 }

abbrev pub context : TurnContext
context = record { activity_id = "a"; model_requested = "m"; model_upstream = "u" }

abbrev begun : RolloutWriter Bytes
begun = (begin plain_text "identity_1" "turn_1" session context (greeting ∷ []) new_thread []).1

begun_begins :
    begin plain_text "identity_1" "turn_1" session context (greeting ∷ []) new_thread []
    ≡ (ok tt, begun)
unfolding begin write_meta write_line after_write append_control write_event enter_window hashed
    numbered after_line indexed append_request_events request_loop event_identity seq_of
    existing_seq append_hash get get_ref refs_of is_content_event
begun_begins = refl

begin_unsafe :
    (begin plain_text "../other" "turn_1" session context [] new_thread []).0
    ≡ err (invalid_path "identity id is not a safe path segment: ../other")
unfolding begin
begin_unsafe = refl
