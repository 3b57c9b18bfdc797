-- ===== src/Rollout/Search.antt =====
-- The search for a thread's file, `load_thread_source` of src/store/rollout/read.rs, with the check
-- of paths in src/store/rollout/mod.rs. The disk is an interface, and paths are relative.
pub mod Candidates
pub mod Opening
pub mod Repair
use Prim.Native.String.{◌++◌ as str_append}
use prelay_server.Base.{
  ℕ, zero, suc, ◌+◌, ◌-◌, String, str_eq, Option, none, some, List, [], ◌∷◌, Bool, true, false,
  ◌||◌, ◌&&◌, ◌++◌, if◌then◌else◌, ◌==◌, length, take, is_empty,
}
use prelay_server.Base.Assoc.{insert}
use prelay_server.Result.{Result, ok, err, ◌>>=◌, ◌>>◌, refuse_if}
use prelay_server.Text.{Bytes, Text, strip_prefix, codes, text_eq}
use prelay_server.Rollout.{
  RolloutError, io, serialize, invalid_path, WindowState, ContentHash, ContentEventBody, Encoding,
  is_content_event, item_id, item_ref_key, push_ref,
}
use prelay_server.Rollout.Writer.{append_hash, event_identity}
use prelay_server.Rollout.Reading.{
  Decoding, ConversationEvent, ParsedConversation, completed_contents, parse_conversation_contents,
}
use prelay_server.Rollout.Beginning.{ThreadState}
use prelay_server.Rollout.Threads.{empty_thread, from_events}

split_slash : Text → Text → List Text
split_slash segment [] = segment ∷ []
split_slash segment (c ∷ cs) =
    let rest = split_slash [] cs in
    let longer = split_slash (segment ++ c ∷ []) cs in if c == b'/' then segment ∷ rest else longer

is_unsafe_segment : Text → Bool
is_unsafe_segment segment =
    is_empty segment || (text_eq segment (codes ".") || text_eq segment (codes ".."))

any {ℓ} : {A : Type ℓ} → (A → Bool) → List A → Bool
any p [] = false
any p (x ∷ xs) = p x || any p xs

abbrev starts_with : Text → Text → Bool
starts_with prefix text = elim (strip_prefix prefix text) [ none ↦ false | some rest ↦ true ]

-- The test of `checked_absolute_path`; on Unix a path is absolute if it starts with a slash.
unfoldable pub is_bad_path : String → Bool
unfolding split_slash is_unsafe_segment any
is_bad_path relative =
    let text = codes relative in
    is_empty text
    || (starts_with (codes "/") text
        || (starts_with (codes "\\") text
            || (any (λ c. c == b'\\') text
                || (any (λ c. c == b':') text || any is_unsafe_segment (split_slash [] text)))))

-- What `read_to_string` gives.
pub data FileRead : Type 0 where
  contents : Bytes → FileRead
  not_found : FileRead
  failed : RolloutError → FileRead

-- The file system, whose state is a `D`; `truncate` opens a file, sets its length and syncs it.
pub record Disk : Type 1 where
  pub D : Type 0
  pub read_to_string : D → String → FileRead
  pub truncate : String → ℕ → D → Option RolloutError × D
  pub metadata : D → String → Option RolloutError

pub data ThreadCandidate (V : Type 0) : Type 0 where
  missing corrupt : ThreadCandidate V
  events : ParsedConversation V → ThreadCandidate V

-- `contents.rfind('\n').map_or(0, |index| index + 1)`.
unfoldable pub valid_length : Bytes → ℕ
valid_length [] = 0
valid_length (b ∷ bs) =
    let later = valid_length bs in if later == 0 then (if b == b'\n' then 1 else 0) else later + 1

abbrev pub recovered_indexes : List String
recovered_indexes = "1" ∷ "2" ∷ "3" ∷ "4" ∷ "5" ∷ "6" ∷ "7" ∷ "8" ∷ "9" ∷ "10" ∷ []

unfoldable pub base_path : String → String → String
base_path identity_id thread_id =
    str_append identity_id (str_append "/" (str_append thread_id ".jsonl"))

unfoldable pub recovered_thread_path : String → String → String → String
recovered_thread_path identity_id thread_id index = str_append identity_id (
    str_append "/" (
      str_append thread_id (
        if str_eq index "1"
        then ".recovered.jsonl"
        else str_append ".recovered-" (str_append index ".jsonl"))))

module _ (encoding : Encoding) where
  open encoding use {V, B}

  module _ (decoding : Decoding V B) where
    module _ (disk : Disk) where
      open disk use {D, read_to_string, truncate, metadata}

      abbrev pub DiskOutcome : Type 0 → Type 0
      DiskOutcome A = Result RolloutError A × D

      abbrev pub repaired :
          ParsedConversation V
          → Option RolloutError × D
          → DiskOutcome (Option (ParsedConversation V))
      repaired parsed (some e, d) = (err e, d)
      repaired parsed (none, d) = (ok (some parsed), d)

      -- A file whose last line is incomplete is read up to it, and cut there.
      pub repair : String → Bytes → D → DiskOutcome (Option (ParsedConversation V))
      repair path bytes d =
          let valid = valid_length bytes in
          elim (parse_conversation_contents decoding encoding.sha256 (take valid bytes)) [
            | err e ↦ (err e, d)
            | ok parsed ↦ repaired parsed (truncate path valid d)
          ]

      unfoldable pub read_thread_events : String → D → DiskOutcome (Option (ParsedConversation V))
      unfolding repair
      read_thread_events path d = elim (read_to_string d path) [
        | not_found ↦ (ok none, d)
        | failed e ↦ (err e, d)
        | contents bytes ↦
            if completed_contents bytes
            then (
              parse_conversation_contents decoding encoding.sha256 bytes >>= λ parsed.
                  ok (some parsed),
              d,
            )
            else repair path bytes d
      ]

      abbrev pub candidate_of :
          String → DiskOutcome (Option (ParsedConversation V)) → DiskOutcome (ThreadCandidate V)
      candidate_of path (ok none, d) = (ok missing, d)
      candidate_of path (ok (some parsed), d) = elim (metadata d path) [
        | some e ↦ (err e, d)
        | none ↦ (ok (events parsed), d)
      ]
      candidate_of path (err (serialize message), d) = (ok corrupt, d)
      candidate_of path (err e, d) = (err e, d)

      unfoldable pub read_thread_candidate : String → D → DiskOutcome (ThreadCandidate V)
      unfolding read_thread_events is_bad_path
      read_thread_candidate relative d =
          if is_bad_path relative
          then (err (invalid_path relative), d)
          else candidate_of relative (read_thread_events relative d)

      abbrev pub Loaded : Type 0
      Loaded = ThreadState × List (ConversationEvent V)

      unfoldable pub loaded : String → ParsedConversation V → Result RolloutError Loaded
      loaded path parsed =
          from_events encoding decoding path parsed.events parsed.line_count parsed.last_seq
          >>= λ state. ok (state, parsed.events)

      -- What to do with a candidate: where it is missing, the thread is empty, at the path that is
      -- given for it; where it is corrupt, the search goes on.
      abbrev pub settled :
          String
          → String
          → DiskOutcome (ThreadCandidate V)
          → (D → DiskOutcome Loaded)
          → DiskOutcome Loaded
      settled path unused (err e, d) next = (err e, d)
      settled path unused (ok missing, d) next = (ok (empty_thread unused, []), d)
      settled path unused (ok corrupt, d) next = next d
      settled path unused (ok (events parsed), d) next = (loaded path parsed, d)

      -- The loops over the recovered segments, behind a base that is missing or corrupt.
      pub recovered_loop : Bool → List String → String → String → D → DiskOutcome Loaded
      unfolding recovered_thread_path base_path
      recovered_loop base_missing [] identity_id thread_id d =
          (err (invalid_path "thread has too many corrupt segments"), d)
      recovered_loop base_missing (index ∷ indexes) identity_id thread_id d =
          let candidate = recovered_thread_path identity_id thread_id index in
          let unused =
            (if base_missing && str_eq index "1"
              then base_path identity_id thread_id
              else candidate) in
          settled candidate unused (read_thread_candidate candidate d)
            (recovered_loop base_missing indexes identity_id thread_id)

      abbrev pub after_base : String → String → DiskOutcome (ThreadCandidate V) → DiskOutcome Loaded
      after_base identity_id thread_id (err e, d) = (err e, d)
      after_base identity_id thread_id (ok missing, d) =
          recovered_loop true recovered_indexes identity_id thread_id d
      after_base identity_id thread_id (ok corrupt, d) =
          recovered_loop false recovered_indexes identity_id thread_id d
      after_base identity_id thread_id (ok (events parsed), d) =
          (loaded (base_path identity_id thread_id) parsed, d)

      unfoldable pub load_thread_source : String → String → D → DiskOutcome Loaded
      unfolding recovered_loop base_path
      load_thread_source identity_id thread_id d =
          after_base identity_id thread_id
            (read_thread_candidate (base_path identity_id thread_id) d)
