-- ===== src/Examples/Rewrites.antt =====
-- The rewriting of response ids at concrete input.
use prelay_server.Base.{
  ◌≡◌, refl, String, Option, some, none, List, [], ◌∷◌, ◌++◌, map, if◌then◌else◌,
}
use prelay_server.Text.{Bytes, Text, codes, text_eq, from_utf8, strip_prefix, join_lines}
use prelay_server.Values.{Value, string, object, field, empty_object, get_field}
use prelay_server.Stream.Decoder.{flatten}
use prelay_server.Stream.Lines.{strip_cr}
use prelay_server.Stream.Pipeline.{Received, chunk, failed, Polled}
use prelay_server.Stream.Pipeline.Polling.{Yields}
use prelay_server.ResponseIds.{
  rewrite_event, rewrite_value, rewrite_response_ids, push_chunk, finish, split_lines, data_payload,
  line_ending, set_field, value_eq, with_id, with_response_id,
}
use prelay_server.ResponseIds.Passing.{sse_events, chunks_of, errors_of, bytes_of, failures_of}
use prelay_server.ResponseIds.Streams.{rewrite_response_ids-Yields}
use prelay_server.ResponseIds.Paths.{get_path}
use prelay_server.ResponseIds.Ids.{IdsChanged, rewrite_value-IdsChanged}

-- `{"response_id":s}`.
abbrev completed : Bytes → Value
completed s = object (field (codes "response_id") (string s) empty_object)

-- It reads one text, and prints objects of the shape above without their braces.
abbrev from_str : Text → Option Value
from_str text = if text_eq text (codes "{}") then some (completed (codes "upstream")) else none

abbrev to_string : Value → Bytes
to_string (object (field k (string s) fields)) = k ++ codes ":" ++ s
to_string value = []

abbrev upstream : List (Received String)
upstream =
    chunk (codes "id: 1\ndata: {")
    ∷ failed "reset"
    ∷ chunk (codes "}\r\n\r\ndata: [DO")
    ∷ chunk (codes "NE]")
    ∷ []

rewrites_data_line :
    rewrite_event from_str to_string (codes "local") (codes "id: 1\ndata: {}\r\n\r\n")
    ≡ codes "id: 1\ndata: response_id:local\r\n\r\n"
unfolding rewrite_event split_lines data_payload line_ending from_utf8 strip_prefix join_lines
    text_eq rewrite_value with_response_id get_field set_field value_eq strip_cr
rewrites_data_line = refl

splits_events :
    sse_events (bytes_of upstream) ≡ codes "id: 1\ndata: {}\r\n\r\n" ∷ codes "data: [DONE]" ∷ []
unfolding sse_events bytes_of strip_cr
splits_events = refl

abbrev nested : Value
nested = object (
    field (codes "response") (object (field (codes "id") (string (codes "upstream")) empty_object))
      (field (codes "id") (string (codes "item")) empty_object))

rewrites_nested_id :
    get_path (codes "response" ∷ codes "id" ∷ []) (rewrite_value (codes "local") nested)
    ≡ some (string (codes "local"))
unfolding get_path rewrite_value with_id with_response_id text_eq get_field set_field
rewrites_nested_id = refl

rewrite_response_ids-Yields_example :
    (polled : List (Polled Bytes String)) × Yields
      (push_chunk from_str to_string)
      (finish from_str to_string)
      (rewrite_response_ids upstream (codes "local"))
      polled
    × (chunks_of polled
        ≡ map (rewrite_event from_str to_string (codes "local")) (sse_events (bytes_of upstream)))
    × (flatten (sse_events (bytes_of upstream)) ≡ bytes_of upstream)
    × (errors_of polled ≡ failures_of upstream)
rewrite_response_ids-Yields_example =
    rewrite_response_ids-Yields from_str to_string upstream (codes "local")

rewrite_value-IdsChanged_example :
    IdsChanged
      (codes "local")
      (codes "response" ∷ codes "id" ∷ [])
      (get_path (codes "response" ∷ codes "id" ∷ []) nested)
      (get_path (codes "response" ∷ codes "id" ∷ []) (rewrite_value (codes "local") nested))
rewrite_value-IdsChanged_example =
    rewrite_value-IdsChanged (codes "local") (codes "response" ∷ codes "id" ∷ []) nested refl
