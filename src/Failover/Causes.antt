-- ===== src/Failover/Causes.antt =====
-- How the classes of an error relate: what is retried, what moves on to the next candidate, and
-- what rests the provider.
use prelay_server.Base.{◌≡◌, ◌⊎◌, String, none, some, true, false, arith}
use prelay_server.Errors.{
  AppError, is_retryable_upstream, is_failoverable_upstream, into_response, protocol, internal,
  ProtocolErrorCode,
}
use prelay_server.Failover.{rest_base, nanos}

-- An error does not rest the provider, and then it is not retried either; or it starts at a rest of
-- one minute and moves on to the next candidate; or it starts at five minutes, moves on, and is not
-- retried at the same one.
pub rest_base_lem :
    (e : AppError)
    → ((rest_base e ≡ none) × (is_retryable_upstream e ≡ false))
      ⊎ ((rest_base e ≡ some (nanos 60)) × (is_failoverable_upstream e ≡ true))
      ⊎ ((rest_base e ≡ some (nanos 300))
          × (is_failoverable_upstream e ≡ true)
          × (is_retryable_upstream e ≡ false))
unfolding is_retryable_upstream is_failoverable_upstream rest_base
rest_base_lem e = ground arith

-- The response to an internal error, of either kind, has status 500 and does not depend on the
-- error's text.
pub into_response-internal :
    (message other : String)
    → (into_response (internal message) ≡ into_response (internal other))
      × (into_response (protocol ProtocolErrorCode.internal message)
          ≡ into_response (protocol ProtocolErrorCode.internal other))
      × ((into_response (internal message)).0 ≡ 500)
      × ((into_response (protocol ProtocolErrorCode.internal message)).0 ≡ 500)
unfolding into_response
into_response-internal message other = (cc, cc, cc, cc)
