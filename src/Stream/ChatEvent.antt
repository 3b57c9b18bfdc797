-- ===== src/Stream/ChatEvent.antt =====
-- Decoding one chat completion event, src/codec/bridge/stream/decode/chat_event.rs, over any JSON
-- library.
use prelay_server.Base.{Option, none, some, List, [], ◌∷◌, if◌then◌else◌, is_empty}
use prelay_server.Json.{Json}
use prelay_server.Text.{Text}
use prelay_server.Stream.Events.{
  ChatSseEvent, ChatToolCallDelta, StreamUsage, InternalFinishReason,
  internal_finish_reason_from_str,
}

infixl 5 ◌>>=◌
abbrev ◌>>=◌ {ℓ κ} : {A : Type ℓ} {B : Type κ} → Option A → (A → Option B) → Option B
none >>= f = none
some a >>= f = f a

abbrev or_else {ℓ} : {A : Type ℓ} → Option A → Option A → Option A
or_else none other = other
or_else (some a) other = some a

abbrev first {ℓ} : {A : Type ℓ} → List A → Option A
first [] = none
first (x ∷ xs) = some x

abbrev list_of {ℓ} : {A : Type ℓ} → Option (List A) → List A
list_of none = []
list_of (some xs) = xs

abbrev non_empty : Text → Option Text
non_empty text = if is_empty text then none else some text

filter_map {ℓ κ} : {A : Type ℓ} {B : Type κ} → (A → Option B) → List A → List B
filter_map f [] = []
filter_map f (x ∷ xs) = let rest = filter_map f xs in elim (f x) [ none ↦ rest | some y ↦ y ∷ rest ]

module _ (json : Json) where
  open json use {Value, from_str, get, pointer, as_str, as_u64, as_array, is_null}

  decode_usage : Value → StreamUsage
  decode_usage usage = record {
    input_tokens = or_else (get "prompt_tokens" usage) (get "input_tokens" usage) >>= as_u64;
    output_tokens = or_else (get "completion_tokens" usage) (get "output_tokens" usage) >>= as_u64;
    total_tokens = get "total_tokens" usage >>= as_u64;
    cache_read_tokens =
        or_else (pointer "/prompt_tokens_details/cached_tokens" usage) (
          or_else (pointer "/input_tokens_details/cached_tokens" usage)
            (get "cache_read_input_tokens" usage))
        >>= as_u64;
    cache_write_tokens =
        or_else (pointer "/prompt_tokens_details/cache_write_tokens" usage) (
          or_else (pointer "/input_tokens_details/cache_write_tokens" usage)
            (get "cache_creation_input_tokens" usage))
        >>= as_u64;
  }

  decode_chat_tool_call_delta : Value → Option ChatToolCallDelta
  decode_chat_tool_call_delta value = do
    index ← get "index" value >>= as_u64
    let function = get "function" value
    some (record {
      index = index;
      id = get "id" value >>= as_str;
      name = function >>= get "name" >>= as_str;
      arguments = function >>= get "arguments" >>= as_str;
    })

  -- The reason of a choice, if it is a text that is not empty; a null or another value is none.
  decode_finish_reason : Value → Option InternalFinishReason
  decode_finish_reason choice = do
    finish_reason ← get "finish_reason" choice
    reason ← if is_null finish_reason then none else as_str finish_reason >>= non_empty
    some (internal_finish_reason_from_str (some reason))

  decode_choice : Value → Option StreamUsage → ChatSseEvent
  decode_choice choice usage =
      let delta = get "delta" choice in
      record {
        text_delta =
            or_else (delta >>= get "content" >>= as_str) (delta >>= get "refusal" >>= as_str);
        reasoning_delta = delta >>= get "reasoning_content" >>= as_str >>= non_empty;
        tool_call_deltas =
            filter_map decode_chat_tool_call_delta
              (list_of (delta >>= get "tool_calls" >>= as_array));
        finish_reason = decode_finish_reason choice;
        usage = usage;
      }

  abbrev only_usage : StreamUsage → ChatSseEvent
  only_usage usage = record {
    text_delta = none;
    reasoning_delta = none;
    tool_call_deltas = [];
    finish_reason = none;
    usage = some usage;
  }

  unfoldable pub decode_chat_sse_event : Text → Option ChatSseEvent
  unfolding decode_usage decode_choice decode_finish_reason decode_chat_tool_call_delta filter_map
  decode_chat_sse_event text = do
    value ← from_str text
    let usage : Option StreamUsage = get "usage" value >>= λ u. some (decode_usage u)
    elim (get "choices" value >>= as_array >>= first) [
      | none ↦ usage >>= λ u. some (only_usage u)
      | some choice ↦ some (decode_choice choice usage)
    ]
