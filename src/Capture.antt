-- ===== src/Capture.antt =====
-- The capture of what a raw stream says, src/domain/activity/stream.rs, over any JSON reader. An
-- index is a number below 2 ^ 64, as `usize` is on the machines that the server runs on.
pub mod Chunks
pub mod Events
pub mod Reading
use prelay_server.Base.{
  ℕ, zero, suc, String, Option, none, some, List, [], ◌∷◌, ◌++◌, Bool, true, false, if◌then◌else◌,
  length, map, and_then, unwrap_or,
}
use prelay_server.Base.OrderedMap.{update_entry}
use prelay_server.Json.{Json}
use prelay_server.Text.{
  Bytes, Text, from_utf8, trim, trim_start, strip_prefix, join_lines, text_eq, codes,
}
use prelay_server.Stream.Lines.{first_line, strip_cr}

pub data RawStreamProtocol : Type 0 where
  chat_completions image_generation : RawStreamProtocol

pub record CapturedToolCall : Type 0 where
  pub id : Text
  pub name : Text
  pub arguments : Text

pub record RawStreamContentCapture : Type 0 where
  pub protocol : RawStreamProtocol
  pub line_buffer : Bytes
  pub data_lines : List Text
  pub output_text : Text
  pub reasoning_text : Text
  pub tool_calls : List (ℕ × CapturedToolCall)
  pub completed : Bool

abbrev pub new : RawStreamProtocol → RawStreamContentCapture
new protocol = record {
  protocol = protocol;
  line_buffer = [];
  data_lines = [];
  output_text = [];
  reasoning_text = [];
  tool_calls = [];
  completed = false;
}

-- `CapturedToolCall::default()`.
abbrev pub no_call : CapturedToolCall
no_call = record { id = []; name = []; arguments = [] }

unfoldable pub captured_tool_calls : RawStreamContentCapture → List (Text × Text × Text)
captured_tool_calls s = map (λ (index, call). (call.id, call.name, call.arguments)) s.tool_calls

abbrev pub is_done : Text → Bool
is_done payload = text_eq (trim payload) (codes "[DONE]")

-- The data that an event's lines make, if it has any.
abbrev pub joined : List Text → Option Text
joined [] = none
joined (line ∷ lines) = some (join_lines (line ∷ lines))

module _ (json : Json) where
  open json use {Value, from_str, get, pointer, as_str, as_u64, as_array}

  -- A text at a path of the value, if there is a value.
  abbrev pub text_at : String → Option Value → Option Text
  text_at path value = and_then (and_then value (pointer path)) as_str

  updated_call : Value → CapturedToolCall → CapturedToolCall
  updated_call value call = record {
    id = unwrap_or (and_then (get "id" value) as_str) call.id;
    name = unwrap_or (text_at "/function/name" (some value)) call.name;
    arguments = call.arguments ++ unwrap_or (text_at "/function/arguments" (some value)) [];
  }

  unfoldable pub observe_chat_tool_call :
      List (ℕ × CapturedToolCall) → Value → List (ℕ × CapturedToolCall)
  unfolding updated_call update_entry
  observe_chat_tool_call calls value =
      update_entry (unwrap_or (and_then (get "index" value) as_u64) 0) no_call (updated_call value)
        calls

  unfoldable pub observe_chat_tool_calls :
      List (ℕ × CapturedToolCall) → List Value → List (ℕ × CapturedToolCall)
  unfolding observe_chat_tool_call
  observe_chat_tool_calls calls [] = calls
  observe_chat_tool_calls calls (value ∷ values) =
      observe_chat_tool_calls (observe_chat_tool_call calls value) values

  abbrev pub is_image_completed : Text → Bool
  is_image_completed payload =
      text_eq (unwrap_or (and_then (and_then (from_str payload) (get "type")) as_str) [])
        (codes "image_generation.completed")

  unfoldable pub flush_chat : RawStreamContentCapture → Text → RawStreamContentCapture
  unfolding trim text_eq observe_chat_tool_calls
  flush_chat s payload =
      let value = from_str payload in
      if is_done payload then record s { completed = true } else record s {
        output_text = s.output_text ++ unwrap_or (text_at "/choices/0/delta/content" value) [];
        reasoning_text =
            s.reasoning_text ++ unwrap_or (text_at "/choices/0/delta/reasoning_content" value) [];
        tool_calls = observe_chat_tool_calls s.tool_calls (
            unwrap_or (and_then (and_then value (pointer "/choices/0/delta/tool_calls")) as_array)
              []);
      }

  unfoldable pub flush_image : RawStreamContentCapture → Text → RawStreamContentCapture
  unfolding text_eq
  flush_image s payload = if is_image_completed payload then record s { completed = true } else s

  unfoldable pub flush_data :
      RawStreamProtocol → RawStreamContentCapture → Text → RawStreamContentCapture
  unfolding flush_chat flush_image
  flush_data chat_completions s payload = flush_chat s payload
  flush_data image_generation s payload = flush_image s payload

  unfoldable pub flush_event : RawStreamContentCapture → RawStreamContentCapture
  unfolding flush_data join_lines
  flush_event s = elim (joined s.data_lines) [
    | none ↦ s
    | some payload ↦ flush_data s.protocol (record s { data_lines = [] }) payload
  ]

  -- The data of a line that is not empty, if it is text and has any.
  unfoldable pub line_data : Bytes → Option Text
  unfolding from_utf8 strip_prefix trim_start
  line_data line =
      and_then (and_then (from_utf8 line) (strip_prefix (codes "data:")))
        (λ payload. some (trim_start payload))

  unfoldable pub observe_line : RawStreamContentCapture → Bytes → RawStreamContentCapture
  unfolding flush_event line_data
  observe_line s [] = flush_event s
  observe_line s (b ∷ line) = elim (line_data (b ∷ line)) [
    | none ↦ s
    | some payload ↦ record s { data_lines = s.data_lines ++ payload ∷ [] }
  ]

  -- The `while` loop, which takes a line or ends at each turn.
  unfoldable pub observe_loop : ℕ → RawStreamContentCapture → Bytes → RawStreamContentCapture
  observe_loop zero s chunk = s
  observe_loop (suc fuel) s [] = s
  observe_loop (suc fuel) s (b ∷ bs) = elim (first_line (b ∷ bs)) [
    | none ↦ record s { line_buffer = s.line_buffer ++ b ∷ bs }
    | some (line, rest) ↦
        observe_loop fuel
          (observe_line (record s { line_buffer = [] }) (strip_cr (s.line_buffer ++ line))) rest
  ]

  unfoldable pub observe_chunk : RawStreamContentCapture → Bytes → RawStreamContentCapture
  unfolding observe_loop
  observe_chunk s chunk = observe_loop (length chunk) s chunk

  unfoldable pub observe_last : RawStreamContentCapture → Bytes → RawStreamContentCapture
  unfolding observe_line
  observe_last s [] = s
  observe_last s (b ∷ line) = observe_line (record s { line_buffer = [] }) (b ∷ line)

  unfoldable pub finish : RawStreamContentCapture → RawStreamContentCapture
  unfolding observe_last flush_event
  finish s = flush_event (observe_last s s.line_buffer)
