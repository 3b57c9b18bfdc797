-- ===== src/Examples/Heads.antt =====
-- The check of a stream's head at concrete input.
use prelay_server.Base.{◌≡◌, ◌↔◌, refl, String, some, none, [], ◌∷◌, ◌++◌, List}
use prelay_server.Errors.{upstream_invalid_response}
use prelay_server.Result.{ok, err}
use prelay_server.Text.{codes, strip_prefix, trim}
use prelay_server.Stream.Pipeline.{Received, chunk, failed}
use prelay_server.Stream.Head.{
  Messages, is_page, page_type, verify_upstream_sse_head, upstream_bytes_stream,
}
use prelay_server.Stream.Head.Verdict.{
  empties, substance, HeadOf, TakesAtMost, verify_upstream_sse_head-HeadOf,
  upstream_bytes_stream-substance, verify_upstream_sse_head-TakesAtMost,
}

abbrev fixed_messages : Messages String
fixed_messages = record {
  page_type = λ content_type. "page";
  html_body_message = λ bytes. "body";
  connection = λ error. error;
}

-- Two empty chunks, an event in two chunks with an empty one between, and a failure.
abbrev slow_start : List (Received String)
slow_start =
    chunk []
    ∷ chunk []
    ∷ chunk (codes "data:")
    ∷ chunk []
    ∷ chunk (codes " 1")
    ∷ failed "reset"
    ∷ []

abbrev behind_head : List (Received String)
behind_head = chunk [] ∷ chunk (codes " 1") ∷ failed "reset" ∷ []

accepts_slow_start :
    verify_upstream_sse_head fixed_messages (some (codes "text/event-stream")) slow_start
    ≡ (ok (codes "data:"), behind_head)
unfolding verify_upstream_sse_head is_page strip_prefix trim
accepts_slow_start = refl

refuses_page :
    (verify_upstream_sse_head fixed_messages
      (some (codes " Text/HTML; charset=utf-8"))
      slow_start).0
    ≡ err (upstream_invalid_response "page")
unfolding verify_upstream_sse_head strip_prefix trim
refuses_page = refl

refuses_body :
    (verify_upstream_sse_head fixed_messages none (chunk (codes " \n<!doctype html>") ∷ [])).0
    ≡ err (upstream_invalid_response "body")
unfolding verify_upstream_sse_head is_page strip_prefix trim
refuses_body = refl

refuses_empty_chunks :
    (verify_upstream_sse_head fixed_messages none (empties 33 ++ slow_start)).0
    ≡ err (upstream_invalid_response "上游持续返回空数据而不是事件流")
unfolding verify_upstream_sse_head
refuses_empty_chunks = refl

verify_upstream_sse_head-HeadOf_example :
    (verify_upstream_sse_head fixed_messages none slow_start ≡ (ok (codes "data:"), behind_head))
    ↔ ((page_type none ≡ none) × HeadOf 32 slow_start (codes "data:") behind_head)
verify_upstream_sse_head-HeadOf_example =
    verify_upstream_sse_head-HeadOf fixed_messages none slow_start (codes "data:") behind_head

upstream_bytes_stream-substance_example :
    substance (upstream_bytes_stream (some (codes "data:")) behind_head) ≡ substance slow_start
upstream_bytes_stream-substance_example =
    upstream_bytes_stream-substance fixed_messages (some (codes "text/event-stream")) slow_start
      (codes "data:") behind_head accepts_slow_start

verify_upstream_sse_head-TakesAtMost_example :
    TakesAtMost 33 (empties 40) (verify_upstream_sse_head fixed_messages none (empties 40)).1
verify_upstream_sse_head-TakesAtMost_example =
    verify_upstream_sse_head-TakesAtMost fixed_messages none (empties 40)
