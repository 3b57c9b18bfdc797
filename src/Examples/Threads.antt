-- ===== src/Examples/Threads.antt =====
-- Reading rollouts and going on with them at concrete input.
use prelay_server.Base.{
  ℕ, ◌≡◌, refl, ap, String, Option, none, some, List, [], ◌∷◌, ◌++◌, true, take, length, arith,
}
use prelay_server.Base.Assoc.{get, insert, get-insert_self}
use prelay_server.Result.{ok, err}
use prelay_server.Text.{Bytes, codes, strip_prefix, text_eq}
use prelay_server.Stream.Lines.{strip_cr}
use prelay_server.Rollout.Threads.{from_events, no_content}
use prelay_server.Rollout.Writer.{
  write_line, after_write, append_control, write_event, enter_window, hashed, numbered, after_line,
  indexed, append_request_events, request_loop, event_identity, seq_of, existing_seq, append_hash,
}
use prelay_server.Recording.Calls.{completed}
use prelay_server.Rollout.{
  RolloutError, io, RolloutWriter, get_ref, refs_of, is_content_event, push_ref,
}
use prelay_server.Rollout.References.{IsCounted}
use prelay_server.Rollout.Reading.{
  Decoding, ParsedConversation, legacy, parse_conversation_contents, completed_contents, read_slice,
  slice_of, text_lines, read_header, parse_lines, parse_event_line, select_lines,
}
use prelay_server.Rollout.Reading.Slices.{IsRead, read_slice-IsRead}
use prelay_server.Rollout.Search.{
  Disk, FileRead, contents, not_found, read_thread_events, load_thread_source,
  read_thread_candidate, valid_length, loaded,
}
use prelay_server.Rollout.Search.Repair.{IsLawful, read_thread_events-repairs}
use prelay_server.Rollout.Search.Opening.{load_thread_source-begin-IsCounted}
use prelay_server.Rollout.Beginning.{ThreadState, begin, is_empty}
use prelay_server.Rollout.Requests.{append, finish, performs}
use prelay_server.Examples.Rollouts.{plain_text, session, context, greeting}

-- Each line is an event with its length as its number.
abbrev line_events : Decoding Bytes Bytes
line_events = record {
  from_str = λ line. ok line;
  get = λ name value. none;
  as_str = λ value. none;
  as_u64 = λ value. none;
  to_meta = λ value. err "no header";
  to_stored_line = λ value.
      ok (record { seq = length value; time = "now"; event_type = "message"; payload = value });
  null = [];
  number = λ n. n ∷ [];
  object = λ fields. [];
  is_stored_line = λ line. true;
  content_body = λ event_type payload. none;
}

abbrev file_read : Option Bytes → FileRead
file_read none = not_found
file_read (some bytes) = contents bytes

abbrev cut :
    String → ℕ → List (String × Bytes) → Option Bytes → Option RolloutError × List (String × Bytes)
cut path n files none = (some (io "no file"), files)
cut path n files (some bytes) = (none, insert path (take n bytes) files)

abbrev memory : Disk
memory = record {
  D = List (String × Bytes);
  read_to_string = λ files path. file_read (get path files);
  truncate = λ path n files. cut path n files (get path files);
  metadata = λ files path. none;
}

cut_lem :
    (path : String) (n : ℕ) (bytes : Bytes) (d d' : List (String × Bytes)) (o : Option Bytes)
    → file_read o ≡ contents bytes
    → cut path n d o ≡ (none, d')
    → file_read (get path d') ≡ contents (take n bytes)
cut_lem path n bytes d d' none h k = absurd (ground arith)
cut_lem path n bytes d d' (some b) h k =
    let e : b ≡ bytes = ground arith in
    let f : insert path (take n b) d ≡ d' =
      ap (λ (p : Option RolloutError × List (String × Bytes)). p.1) k in
    rw (← f) (rw (get-insert_self path (take n b) d) (ap (λ (b : Bytes). contents (take n b)) e))

memory-IsLawful : IsLawful memory
memory-IsLawful = record { truncated = λ path n bytes d d'. cut_lem path n bytes d d' (get path d) }

abbrev path : String
path = "identity_1/thread-1.jsonl"

abbrev torn_file : List (String × Bytes)
torn_file = (path, codes "one\n" ++ codes "tw") ∷ []

abbrev one_line : ParsedConversation Bytes
one_line = record {
  format = legacy;
  meta = none;
  events = record { seq = 3; time = "now"; event_type = "message"; payload = codes "one" } ∷ [];
  line_count = 1;
  last_seq = 3;
}

read_thread_events-repairs_example :
    (read_thread_events plain_text line_events memory path torn_file
      ≡ (ok (some one_line), (path, codes "one\n") ∷ []))
    × (read_thread_events plain_text line_events memory path ((path, codes "one\n") ∷ [])
        ≡ (ok (some one_line), (path, codes "one\n") ∷ []))
unfolding get insert completed_contents parse_conversation_contents read_header parse_lines
    text_lines parse_event_line strip_cr
read_thread_events-repairs_example =
    read_thread_events-repairs plain_text line_events memory path (codes "one\n") (codes "tw")
      torn_file ((path, codes "one\n") ∷ []) one_line memory-IsLawful refl refl (omega arith)
      (λ e. ground (arith, e)) refl refl

read_slice-IsRead_example :
    IsRead line_events
      (λ bytes. bytes)
      (codes "one\ntwo\n")
      2
      2
      (slice_of line_events
        (λ bytes. bytes)
        (codes "two\n")
        (record { seq = 3; time = "now"; event_type = "message"; payload = codes "two" } ∷ []))
unfolding read_slice select_lines completed_contents text_lines parse_event_line strip_cr
read_slice-IsRead_example =
    read_slice-IsRead line_events (λ bytes. bytes) path (codes "one\ntwo\n") 2 2
      (slice_of line_events (λ bytes. bytes) (codes "two\n")
        (record { seq = 3; time = "now"; event_type = "message"; payload = codes "two" } ∷ []))
      refl

abbrev known_thread : ThreadState
known_thread = record {
  relative_path = path;
  line_count = 1;
  seq = 3;
  window = none;
  content = record { count = 1; digest = no_content.digest ++ codes "one" };
  event_refs = (codes "one", 3 ∷ []) ∷ [];
  item_refs = [];
  content_event_count = 1;
}

abbrev resumed : RolloutWriter Bytes
resumed =
    (begin plain_text "identity_1" "turn_1" session context (greeting ∷ []) known_thread
      (codes "one\n")).1

known_loads :
    load_thread_source plain_text line_events memory "identity_1" "thread-1" torn_file
    ≡ (ok (known_thread, one_line.events), (path, codes "one\n") ∷ [])
unfolding load_thread_source read_thread_candidate strip_prefix text_eq get insert
    completed_contents valid_length loaded from_events event_identity append_hash is_content_event
    push_ref parse_conversation_contents read_header parse_lines text_lines parse_event_line
    strip_cr
known_loads = refl

resumed_begins :
    begin plain_text "identity_1" "turn_1" session context
      (greeting ∷ [])
      known_thread
      (codes "one\n")
    ≡ (ok tt, resumed)
unfolding begin write_line after_write append_control write_event enter_window hashed numbered
    after_line indexed append_request_events request_loop event_identity seq_of existing_seq
    append_hash get get_ref refs_of is_content_event text_eq
resumed_begins = refl

load_thread_source-begin-IsCounted_example :
    IsCounted 0 3 (performs plain_text (append greeting ∷ finish completed none none ∷ []) resumed)
unfolding is_empty
load_thread_source-begin-IsCounted_example =
    load_thread_source-begin-IsCounted plain_text line_events memory "identity_1" "turn_1" session
      context (greeting ∷ []) (codes "one\n") (append greeting ∷ finish completed none none ∷ [])
      torn_file ((path, codes "one\n") ∷ []) known_thread one_line.events resumed known_loads
      resumed_begins
