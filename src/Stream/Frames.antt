-- ===== src/Stream/Frames.antt =====
-- The events that go out in the Responses format, src/codec/bridge/stream/encode/responses.rs. A
-- frame keeps what varies in the event's JSON, and leaves out its fixed keys and its text form.
use prelay_server.Base.{ℕ, Option, List, [], ◌∷◌}
use prelay_server.Text.{Text}
use prelay_server.Stream.Events.{StreamUsage, ChatToolCallState, OutputItem}

pub data Frame : Type 0 where
  output_text_delta : Text → Frame
  -- The index, the id and the name.
  output_item_added : ℕ → Text → Text → Frame
  -- The index, the id and the delta.
  function_call_arguments_delta : ℕ → Text → Text → Frame
  -- The index, the id, the name and the arguments, of this and the next one.
  function_call_arguments_done : ℕ → Text → Text → Text → Frame
  output_item_done : ℕ → Text → Text → Text → Frame
  -- The usage, the response's id and its output.
  completed : Option StreamUsage → Text → List OutputItem → Frame

unfoldable pub responses_text_delta_sse : Text → Frame
responses_text_delta_sse delta = output_text_delta delta

unfoldable pub responses_function_call_added_sse : ℕ → ChatToolCallState → Frame
responses_function_call_added_sse index call = output_item_added index call.id call.name

unfoldable pub responses_function_call_arguments_delta_sse : ℕ → ChatToolCallState → Text → Frame
responses_function_call_arguments_delta_sse index call delta =
    function_call_arguments_delta index call.id delta

unfoldable pub responses_tool_call_done_sse : ℕ → ChatToolCallState → List Frame
responses_tool_call_done_sse index call =
    function_call_arguments_done index call.id call.name call.arguments
    ∷ output_item_done index call.id call.name call.arguments
    ∷ []

unfoldable pub responses_completed_sse_with_usage :
    Option StreamUsage → Text → List OutputItem → Frame
responses_completed_sse_with_usage usage response_id output = completed usage response_id output
