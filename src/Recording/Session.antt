-- ===== src/Recording/Session.antt =====
-- The response that is saved of a completed stream, src/service/recording/state/session.rs.
use prelay_server.Base.{Option, none, some, List, [], ◌∷◌, ◌++◌, if◌then◌else◌, is_empty, ◌||◌}
use prelay_server.Text.{Text, trim}
use prelay_server.Stream.Events.{StreamStatsSnapshot, completed_tool_calls}
use prelay_server.Recording.Calls.{
  StreamSession, InternalOutputItem, message, function_tool_call, InternalResponse,
}

abbrev call_items : List (Text × Text × Text) → List InternalOutputItem
call_items [] = []
call_items ((id, name, arguments) ∷ calls) =
    let rest = call_items calls in
    if is_empty id || is_empty name then rest else function_tool_call id name arguments ∷ rest

unfoldable pub response_from_stream_session :
    {X : Type 0} → StreamSession X → StreamStatsSnapshot → Option InternalResponse
response_from_stream_session session snapshot =
    if snapshot.completed
    then (if is_empty (trim session.response_id)
        then none
        else some (record {
          id = session.response_id;
          model = session.model;
          output =
              (if is_empty snapshot.output_text then [] else message snapshot.output_text ∷ [])
              ++ call_items (completed_tool_calls snapshot);
          input_tokens = snapshot.input_tokens;
          output_tokens = snapshot.output_tokens;
          reasoning_tokens = none;
          cache_read_tokens = snapshot.cache_read_tokens;
          cache_write_tokens = snapshot.cache_write_tokens;
        }))
    else none
