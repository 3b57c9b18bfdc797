-- ===== src/Rollout/Reading.antt =====
-- Reading a conversation's file, src/store/rollout/read.rs. A file's contents are its bytes, and
-- numbers and paths are left out of the errors' texts. What the JSON library makes of a line is the
-- interface `Decoding`.
pub mod Sequence
pub mod Slices
use Prim.Native.Nat.{max}
use prelay_server.Base.{
  ℕ, zero, suc, ◌+◌, ◌-◌, String, str_eq, Option, none, some, List, [], ◌∷◌, ◌++◌, Bool, true,
  false, not, ◌||◌, ◌&&◌, if◌then◌else◌, ltb, ◌==◌, length, take, drop, is_empty, and_then,
}
use prelay_server.Result.{Result, ok, err, ◌>>=◌, ◌>>◌, refuse_if}
use prelay_server.Text.{Bytes, strip_prefix, codes}
use prelay_server.Stream.Lines.Chunks.{split_lines}
use prelay_server.Rollout.{RolloutError, serialize, invalid_path, partial_line, ContentEventBody}

pub data ConversationFormat : Type 0 where
  legacy v1 : ConversationFormat

-- The fields of a header that are checked.
pub record ConversationMeta : Type 0 where
  pub kind : String
  pub thread_id : String

pub record StoredLine (V : Type 0) : Type 0 where
  pub seq : ℕ
  pub time : String
  pub event_type : String
  pub payload : V

pub record ConversationEvent (V : Type 0) : Type 0 where
  pub seq : ℕ
  pub time : String
  pub event_type : String
  pub payload : V

pub record ParsedConversation (V : Type 0) : Type 0 where
  pub format : ConversationFormat
  pub meta : Option ConversationMeta
  pub events : List (ConversationEvent V)
  pub line_count : ℕ
  pub last_seq : ℕ

pub record RolloutFile (V : Type 0) : Type 0 where
  pub format : ConversationFormat
  pub meta : Option ConversationMeta
  pub line_count : ℕ
  pub event_count : ℕ
  pub byte_size : ℕ
  pub sha256 : Bytes
  pub events : List (ConversationEvent V)

pub record RolloutSlice (V : Type 0) : Type 0 where
  pub event_count : ℕ
  pub byte_size : ℕ
  pub sha256 : Bytes
  pub events : List (ConversationEvent V)

-- `serde_json` on values: reading, its accessors, the conversions to the types of a file, and the
-- values that are built. The last two tell whether a line is a stored line, and what body of an
-- event a type and a payload make.
pub record Decoding (V B : Type 0) : Type 0 where
  pub from_str : Bytes → Result String V
  pub get : String → V → Option V
  pub as_str : V → Option String
  pub as_u64 : V → Option ℕ
  pub to_meta : V → Result String ConversationMeta
  pub to_stored_line : V → Result String (StoredLine V)
  pub null : V
  pub number : ℕ → V
  pub object : List (String × V) → V
  pub is_stored_line : Bytes → Bool
  pub content_body : String → V → Option (ContentEventBody B)

-- `?` on an error of the JSON library.
abbrev pub json {ℓ} : {A : Type ℓ} → Result String A → Result RolloutError A
json (ok a) = ok a
json (err e) = err (serialize e)

-- `str::lines`: what follows the last newline is a line unless it is empty.
unfoldable pub text_lines : Bytes → List Bytes
unfolding split_lines
text_lines contents =
    let (lines, rest) = split_lines [] contents in
    if is_empty rest then lines else lines ++ rest ∷ []

unfoldable pub ends_with_newline : Bytes → Bool
ends_with_newline [] = false
ends_with_newline (b ∷ []) = b == b'\n'
ends_with_newline (b ∷ c ∷ bs) = ends_with_newline (c ∷ bs)

unfoldable pub completed_contents : Bytes → Bool
unfolding ends_with_newline
completed_contents contents = ends_with_newline contents || is_empty contents

contains : Bytes → Bytes → Bool
contains part [] = elim (strip_prefix part []) [ none ↦ false | some rest ↦ true ]
contains part (b ∷ bs) = elim (strip_prefix part (b ∷ bs)) [
  | none ↦ contains part bs
  | some rest ↦ true
]

abbrev or_value {ℓ} : {A : Type ℓ} → Option A → A → A
or_value none a = a
or_value (some b) a = b

abbrev is_ok {ℓ} : {E : Type 0} {A : Type ℓ} → Result E A → Bool
is_ok (ok a) = true
is_ok (err e) = false

module _ {V B : Type 0} (decoding : Decoding V B) (sha256 : Bytes → Bytes) where
  open decoding use {
    from_str, get, as_str, as_u64, to_meta, to_stored_line, null, number, object, is_stored_line,
  }

  abbrev is : Option String → String → Bool
  is none s = false
  is (some t) s = str_eq t s

  is_meta : V → Bool
  is_meta value = is (and_then (get "type" value) as_str) "meta"

  -- A field of an object as `json!` takes it: `null` if it is not there.
  abbrev cloned : String → V → V
  cloned name value = or_value (get name value) null

  event_of : String → V → StoredLine V → Result RolloutError (Option (ConversationEvent V))
  event_of event_type payload line = ok (
      some
        (record { seq = line.seq; time = line.time; event_type = event_type; payload = payload }))

  normalize_event : StoredLine V → Result RolloutError (Option (ConversationEvent V))
  unfolding event_of
  normalize_event line =
      if str_eq line.event_type "session_meta" || str_eq line.event_type "media"
      then ok none
      else if str_eq line.event_type "window_start"
      then event_of "window"
          (object (
            ("window_id", cloned "window_id" line.payload)
            ∷ ("generation", or_value (get "generation" line.payload) (number 0))
            ∷ []))
          line
      else if str_eq line.event_type "session_end"
      then event_of "turn_end"
          (object (
            ("status", cloned "status" line.payload)
            ∷ ("http_status", cloned "http_status" line.payload)
            ∷ ("error_code", cloned "error_code" line.payload)
            ∷ []))
          line
      else if str_eq line.event_type "meta"
      then err (invalid_path "conversation header must be the first line")
      else event_of line.event_type line.payload line

  unfoldable pub parse_event_line : Bytes → Result RolloutError (Option (ConversationEvent V))
  unfolding is_meta normalize_event
  parse_event_line line = do
    value ← json (from_str line)
    let stored = json (to_stored_line value) >>= normalize_event
    if is_meta value then ok none else stored

  abbrev pub Events : Type 0
  Events = Result RolloutError (List (ConversationEvent V) × ℕ)

  -- A line that is parsed, before the rest of the loop, with the greatest number so far.
  abbrev pub with_line : Option (ConversationEvent V) → ℕ → (ℕ → Events) → Events
  with_line none last_seq rest = rest last_seq
  with_line (some event) last_seq rest =
      rest (max last_seq event.seq) >>= λ (events, last). ok (event ∷ events, last)

  -- The loop over the lines behind the header.
  unfoldable pub parse_lines : List Bytes → ℕ → Events
  parse_lines [] last_seq = ok ([], last_seq)
  parse_lines (line ∷ lines) last_seq =
      parse_event_line line >>= λ parsed. with_line parsed last_seq (parse_lines lines)

  abbrev is_version : Option ℕ → Bool
  is_version none = false
  is_version (some v) = v == 1

  check_header :
      V
      → List Bytes
      → Result RolloutError (ConversationFormat × Option ConversationMeta × List Bytes)
  check_header value lines = do
    refuse_if (not (is_version (and_then (get "v" value) as_u64)))
        (invalid_path "unsupported conversation file version")
    parsed ← json (to_meta value)
    refuse_if (not (str_eq parsed.kind "meta") || str_eq parsed.thread_id "")
        (invalid_path "invalid conversation file header")
    ok (v1, some parsed, lines)

  unfoldable pub read_header :
      List Bytes → Result RolloutError (ConversationFormat × Option ConversationMeta × List Bytes)
  unfolding check_header is_meta
  read_header [] = ok (legacy, none, [])
  read_header (first ∷ lines) = do
    value ← json (from_str first)
    if is_meta value then check_header value lines else ok (legacy, none, first ∷ lines)

  unfoldable pub parse_conversation_contents : Bytes → Result RolloutError (ParsedConversation V)
  parse_conversation_contents contents = do
    let lines = text_lines contents
    (format, meta, rest) ← read_header lines
    (events, last_seq) ← parse_lines rest 0
    ok (record {
      format = format;
      meta = meta;
      events = events;
      line_count = length lines;
      last_seq = last_seq;
    })

  prefix_lines : List Bytes → ℕ
  unfolding contains
  prefix_lines [] = 0
  prefix_lines (line ∷ lines) =
      let later = prefix_lines lines in
      if (if contains (codes "\"type\":\"meta\"") line
        then is_ok (from_str line)
        else is_stored_line line)
      then later + 1
      else 0

  unfoldable pub valid_prefix_lines : Bytes → ℕ
  unfolding prefix_lines
  valid_prefix_lines contents = prefix_lines (text_lines contents)

  -- Behind reading the file at a path.
  unfoldable pub read_verified : String → Bytes → Result RolloutError (RolloutFile V)
  read_verified path contents = do
    refuse_if (not (completed_contents contents)) (partial_line path (valid_prefix_lines contents))
    parsed ← parse_conversation_contents contents
    ok (record {
      format = parsed.format;
      meta = parsed.meta;
      line_count = parsed.line_count;
      event_count = length parsed.events;
      byte_size = length contents;
      sha256 = sha256 contents;
      events = parsed.events;
    })

  -- The loop over the selected lines: their bytes, each with its newline, and their events.
  unfoldable pub select_lines :
      List Bytes → Result RolloutError (Bytes × List (ConversationEvent V))
  select_lines [] = ok ([], [])
  select_lines (line ∷ lines) = do
    parsed ← parse_event_line line
    (bytes, events) ← select_lines lines
    ok (line ++ b'\n' ∷ bytes, elim parsed [ none ↦ events | some event ↦ event ∷ events ])

  abbrev pub slice_of : Bytes → List (ConversationEvent V) → RolloutSlice V
  slice_of bytes events = record {
    event_count = length events;
    byte_size = length bytes;
    sha256 = sha256 bytes;
    events = events;
  }

  abbrev pub empty_slice : RolloutSlice V
  empty_slice = slice_of [] []

  -- Behind reading the file.
  unfoldable pub read_slice : String → Bytes → ℕ → ℕ → Result RolloutError (RolloutSlice V)
  read_slice path contents start_line end_line =
      let lines = text_lines contents in
      let invalid : Result RolloutError (RolloutSlice V) =
        err (invalid_path "invalid rollout line range") in
      if not (completed_contents contents)
      then err (partial_line path (valid_prefix_lines contents))
      else if start_line == 0
      then (if end_line == 0 then ok empty_slice else invalid)
      else if ltb end_line start_line
      then (if start_line == end_line + 1 && not (ltb (length lines + 1) start_line)
          then ok empty_slice
          else invalid)
      else if ltb (length lines) end_line || ltb (length lines + 1) start_line
      then err (invalid_path "rollout line range exceeds the lines")
      else select_lines (take (end_line + 1 - start_line) (drop (start_line - 1) lines))
        >>= λ (bytes, events). ok (slice_of bytes events)
