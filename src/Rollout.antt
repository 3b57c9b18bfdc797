-- ===== src/Rollout.antt =====
-- The writer of a conversation's rollout, src/store/rollout/writer.rs with src/store/rollout/support.rs.
-- Serialization, hashing and the file are the interface `Encoding`; the hasher is the list of the
-- bytes that it has taken. The steps of `finish_with` behind the last event, which put the thread
-- into the cache and write the index, are not modelled.
pub mod Writer
pub mod References
pub mod Events
pub mod Requests
pub mod Reading
pub mod Threads
pub mod Search
pub mod Beginning
pub mod Counting
use Prim.Native.String.{◌++◌ as str_append}
use prelay_server.Base.{
  ℕ, zero, suc, ◌+◌, String, str_eq, Option, none, some, List, [], ◌∷◌, ◌++◌, Bool, true, false,
  if◌then◌else◌, ◌||◌, ◌&&◌, length, and_then,
}
use prelay_server.Base.Assoc.{get, insert}
use prelay_server.Result.{Result, ok, err}
use prelay_server.Text.{Bytes, text_eq}
use prelay_server.Recording.Calls.{RolloutStatus, writing}

pub data RolloutError : Type 0 where
  io serialize invalid_path : String → RolloutError
  partial_line : String → ℕ → RolloutError

pub record WindowState : Type 0 where
  pub window_id : Option String
  pub generation : ℕ

-- A body that is a tool's call or result has its id.
pub data ContentEventBody (B : Type 0) : Type 0 where
  message : B → ContentEventBody B
  reasoning : B → ContentEventBody B
  tool_call : String → B → ContentEventBody B
  tool_result : String → B → ContentEventBody B
  usage : B → ContentEventBody B
  error : B → ContentEventBody B

pub record ContentDraft (B : Type 0) : Type 0 where
  pub body : ContentEventBody B
  pub item_id : Option String

-- The bodies of the events that the writer makes itself; a turn has its id, its activity's, its model
-- and the upstream's.
pub data ControlBody : Type 0 where
  window : WindowState → ControlBody
  turn : String → String → String → String → ControlBody
  turn_end : RolloutStatus → Option ℕ → Option String → ControlBody
  context : List ℕ → ControlBody

pub record ContentHash : Type 0 where
  pub count : ℕ
  pub digest : Bytes

-- What the writer uses of the JSON library, of SHA-256, of the clock, by the number of an event, and
-- of a file; a write that fails tells why.
pub record Encoding : Type 1 where
  pub V : Type 0
  pub B : Type 0
  pub F : Type 0
  pub draft_event_parts : ContentDraft B → Result RolloutError (String × V)
  pub event_parts : ControlBody → Result RolloutError (String × V)
  pub canonical_event : String → V → Result RolloutError Bytes
  pub chain_digest : Bytes → Bytes → Bytes
  pub sha256 : Bytes → Bytes
  pub window_of : V → Option WindowState
  pub readable_time : ℕ → String
  pub to_vec : ℕ → String → String → V → Result RolloutError Bytes
  pub meta : Result RolloutError Bytes
  pub write_all : F → Bytes → Option RolloutError × F
  pub sync : F → Option RolloutError

pub record RolloutWriter (F : Type 0) : Type 0 where
  pub file : Option F
  pub hasher : Bytes
  pub seq : ℕ
  pub line_count : ℕ
  pub start_line : ℕ
  pub end_line : ℕ
  pub byte_size : ℕ
  pub event_count : ℕ
  pub content : ContentHash
  pub event_refs : List (Bytes × List ℕ)
  pub item_refs : List (String × ℕ)
  pub content_event_count : ℕ
  pub window_state : Option WindowState
  pub status : RolloutStatus
  pub finished : Bool

-- The fields of a summary that change.
pub record RolloutSummary : Type 0 where
  pub status : RolloutStatus
  pub start_line : ℕ
  pub end_line : ℕ
  pub event_count : ℕ
  pub byte_size : ℕ
  pub sha256 : Bytes

unfoldable pub is_content_event : String → Bool
is_content_event event_type =
    str_eq event_type "message"
    || (str_eq event_type "reasoning"
        || (str_eq event_type "tool_call" || str_eq event_type "tool_result"))

abbrev pub item_id : {B : Type 0} → ContentEventBody B → Option String
item_id (tool_call id b) = some id
item_id (tool_result id b) = some id
item_id _ = none

abbrev pub or_else {ℓ} : {A : Type ℓ} → Option A → Option A → Option A
or_else none later = later
or_else (some a) later = some a

unfoldable pub item_ref_key : String → String → String
item_ref_key event_type id = str_append event_type (str_append ":" id)

-- The key under which a draft's item is kept, if it has one.
abbrev pub item_key : {B : Type 0} → String → ContentDraft B → Option String
item_key event_type draft =
    and_then (or_else (item_id draft.body) draft.item_id) (λ id. some (item_ref_key event_type id))

-- The table of the events by their identity.
unfoldable pub refs_of : Bytes → List (Bytes × List ℕ) → List ℕ
refs_of identity [] = []
refs_of identity ((k, refs) ∷ table) =
    let later = refs_of identity table in if text_eq k identity then refs else later

unfoldable pub push_ref : Bytes → ℕ → List (Bytes × List ℕ) → List (Bytes × List ℕ)
push_ref identity n [] = (identity, n ∷ []) ∷ []
push_ref identity n ((k, refs) ∷ table) =
    let later = push_ref identity n table in
    if text_eq k identity then (k, refs ++ n ∷ []) ∷ table else (k, refs) ∷ later

-- How often an identity came in a list of them.
unfoldable pub occurrences : Bytes → List Bytes → ℕ
occurrences identity [] = 0
occurrences identity (k ∷ seen) =
    let later = occurrences identity seen in if text_eq k identity then later + 1 else later

unfoldable pub get_ref : ℕ → List ℕ → Option ℕ
get_ref n [] = none
get_ref zero (r ∷ refs) = some r
get_ref (suc n) (r ∷ refs) = get_ref n refs

abbrev pub with_item : {F : Type 0} → Option String → ℕ → RolloutWriter F → RolloutWriter F
with_item none seq w = w
with_item (some key) seq w = record w { item_refs = insert key seq w.item_refs }
