-- ===== src/Stream/Head.antt =====
-- The check of an upstream stream's head, src/codec/bridge/stream/verify.rs, and the stream with
-- its head put back, `upstream_bytes_stream` of src/codec/bridge/stream/pipeline.rs. What the
-- response still gives is a list; an empty list is its end. The texts of the errors that quote the
-- response are arguments.
pub mod Verdict
use Prim.Native.Nat.{ℕ, zero, suc}
use prelay_server.Base.{
  String, Option, none, some, List, [], ◌∷◌, Bool, true, false, ◌||◌, ◌&&◌, ◌+◌, if◌then◌else◌,
  ◌==◌, ltb, leb, map, is_some,
}
use prelay_server.Text.{Bytes, Text, trim, strip_prefix, codes}
use prelay_server.Errors.{AppError, upstream, upstream_invalid_response}
use prelay_server.Result.{Result, ok, err}
use prelay_server.Stream.Pipeline.{Received, chunk, failed}

abbrev pub max_empty_chunks : ℕ
max_empty_chunks = 32

-- The errors' texts: for a page by its content type, for a page by its first chunk, and for a
-- connection that fails.
pub record Messages (E : Type 0) : Type 0 where
  pub page_type : Text → String
  pub html_body_message : Bytes → String
  pub connection : E → String

is_ascii_whitespace : ℕ → Bool
is_ascii_whitespace b = b == 0x20 || (b == 0x09 || (b == 0x0a || (b == 0x0c || b == 0x0d)))

trim_ascii_start : Bytes → Bytes
trim_ascii_start [] = []
trim_ascii_start (b ∷ bs) =
    let rest = trim_ascii_start bs in if is_ascii_whitespace b then rest else b ∷ bs

to_ascii_lowercase : Text → Text
to_ascii_lowercase = map (λ c. if leb b'A' c && leb c b'Z' then c + 32 else c)

-- The body begins as a page does.
unfoldable pub is_page : Bytes → Bool
unfolding trim_ascii_start is_ascii_whitespace
is_page bytes = is_some (strip_prefix (b'<' ∷ []) (trim_ascii_start bytes))

-- The content type, in lower case, if it is a page's.
unfoldable pub page_type : Option Text → Option Text
unfolding to_ascii_lowercase
page_type none = none
page_type (some value) =
    let content_type = to_ascii_lowercase (trim value) in
    if is_some (strip_prefix (codes "text/html") content_type)
      || is_some (strip_prefix (codes "application/xhtml") content_type)
    then some content_type
    else none

module _ {E : Type 0} (messages : Messages E) where
  abbrev pub Checked : Type 0
  Checked = Result AppError Bytes × List (Received E)

  -- The loop, behind a number of empty chunks.
  pub head_loop : ℕ → List (Received E) → Checked
  head_loop empty_chunks [] = (err (upstream_invalid_response "上游返回了空响应"), [])
  head_loop empty_chunks (failed error ∷ rest) =
      (err (upstream none (messages.connection error)), rest)
  head_loop empty_chunks (chunk [] ∷ rest) =
      let later = head_loop (empty_chunks + 1) rest in
      if ltb max_empty_chunks (empty_chunks + 1)
      then (err (upstream_invalid_response "上游持续返回空数据而不是事件流"), rest)
      else later
  head_loop empty_chunks (chunk (b ∷ bs) ∷ rest) =
      if is_page (b ∷ bs)
      then (err (upstream_invalid_response (messages.html_body_message (b ∷ bs))), rest)
      else (ok (b ∷ bs), rest)

  unfoldable pub verify_upstream_sse_head : Option Text → List (Received E) → Checked
  unfolding head_loop page_type
  verify_upstream_sse_head content_type received = elim (page_type content_type) [
    | some page ↦ (err (upstream_invalid_response (messages.page_type page)), received)
    | none ↦ head_loop 0 received
  ]

unfoldable pub upstream_bytes_stream :
    {E : Type 0} → Option Bytes → List (Received E) → List (Received E)
upstream_bytes_stream (some head) response = chunk head ∷ response
upstream_bytes_stream none response = response
