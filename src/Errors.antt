-- ===== src/Errors.antt =====
-- The application error and its HTTP face, src/error.rs. Messages are strings, the payload of
-- `Internal` (`anyhow::Error`) is kept as its text, and the protocol error codes are the ones that
-- `http_status_for` lists (their own crate is a submodule).
use prelay_server.Base.{ℕ, String, Option, none, some, Bool, true, false, leb, ◌==◌, ◌&&◌, ◌||◌}

pub data ProtocolErrorCode : Type 0 where
  not_found client_update_unavailable extension_catalog_unavailable : ProtocolErrorCode
  extension_content_invalid extension_not_found extension_version_not_found : ProtocolErrorCode
  invalid_provider_sharing provider_sharing_not_allowed provider_not_visible : ProtocolErrorCode
  provider_not_usable provider_route_unavailable invalid_credential internal : ProtocolErrorCode
  extension_install_unsupported identity_already_registered validation_failed : ProtocolErrorCode

pub record OpenAiError : Type 0 where
  pub status : ℕ
  pub error_type : String
  pub code : String
  pub param : Option String
  pub message : String

pub data AppError : Type 0 where
  not_found : String → AppError
  unauthorized : AppError
  bad_request : String → AppError
  payload_too_large : String → AppError
  upstream : Option ℕ → String → AppError
  upstream_invalid_response : String → AppError
  protocol : ProtocolErrorCode → String → AppError
  open_ai : OpenAiError → AppError
  internal : String → AppError

unfoldable pub http_status_for : ProtocolErrorCode → ℕ
http_status_for ProtocolErrorCode.not_found = 404
http_status_for ProtocolErrorCode.client_update_unavailable = 404
http_status_for ProtocolErrorCode.extension_catalog_unavailable = 503
http_status_for ProtocolErrorCode.extension_content_invalid = 422
http_status_for ProtocolErrorCode.extension_not_found = 404
http_status_for ProtocolErrorCode.extension_version_not_found = 404
http_status_for ProtocolErrorCode.invalid_provider_sharing = 400
http_status_for ProtocolErrorCode.provider_sharing_not_allowed = 403
http_status_for ProtocolErrorCode.provider_not_visible = 404
http_status_for ProtocolErrorCode.provider_not_usable = 422
http_status_for ProtocolErrorCode.provider_route_unavailable = 503
http_status_for ProtocolErrorCode.invalid_credential = 401
http_status_for ProtocolErrorCode.internal = 500
http_status_for ProtocolErrorCode.extension_install_unsupported = 400
http_status_for ProtocolErrorCode.identity_already_registered = 400
http_status_for ProtocolErrorCode.validation_failed = 400

-- The value of the `error` key of the response body.
pub data ErrorBody : Type 0 where
  text : String → ErrorBody
  coded : ProtocolErrorCode → String → ErrorBody
  open_ai : OpenAiError → ErrorBody

abbrev or_bad_gateway : Option ℕ → ℕ
or_bad_gateway none = 502
or_bad_gateway (some status) = status

-- The message that a protocol error shows: the one of an internal error is replaced.
abbrev public_message : ProtocolErrorCode → String → String
public_message ProtocolErrorCode.internal message = "Internal server error"
public_message _ message = message

unfoldable pub into_response : AppError → ℕ × ErrorBody
unfolding http_status_for
into_response (AppError.not_found message) = (404, text message)
into_response unauthorized = (401, text "Invalid or missing token")
into_response (bad_request message) = (400, text message)
into_response (payload_too_large message) = (413, text message)
into_response (upstream status message) = (or_bad_gateway status, text message)
into_response (upstream_invalid_response message) = (502, text message)
into_response (protocol code message) =
    (http_status_for code, coded code (public_message code message))
into_response (AppError.open_ai e) = (e.status, ErrorBody.open_ai e)
into_response (AppError.internal error) = (500, text "Internal server error")

-- The statuses 408, 429 and 500 to 599.
abbrev pub is_transient : ℕ → Bool
is_transient status = status == 408 || (status == 429 || (leb 500 status && leb status 599))

unfoldable pub is_retryable_upstream : AppError → Bool
is_retryable_upstream (upstream none message) = true
is_retryable_upstream (upstream (some status) message) = is_transient status
is_retryable_upstream _ = false

unfoldable pub is_failoverable_upstream : AppError → Bool
is_failoverable_upstream (upstream status message) = true
is_failoverable_upstream (upstream_invalid_response message) = true
is_failoverable_upstream _ = false
