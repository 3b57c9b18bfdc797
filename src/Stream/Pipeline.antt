-- ===== src/Stream/Pipeline.antt =====
-- The stream that goes to the client, src/codec/bridge/stream/pipeline.rs: it is polled, and polls
-- the upstream while it has nothing pending. What the upstream gives is a list.
pub mod Polling
use prelay_server.Base.{Option, none, some, List, [], ◌∷◌, Bool, true, false, if◌then◌else◌}
use prelay_server.Text.{Bytes}

pub data Received (E : Type 0) : Type 0 where
  chunk : Bytes → Received E
  failed : E → Received E

pub data Polled (O E : Type 0) : Type 0 where
  ok : O → Polled O E
  err : E → Polled O E

pub record StreamState (D O E : Type 0) : Type 0 where
  pub upstream : List (Received E)
  pub decoder : D
  pub pending : List O
  pub upstream_done : Bool

-- `state.pending.pop_front()`, and what to do when nothing is pending.
abbrev pub pop_front :
    {D O E : Type 0}
    → List O
    → StreamState D O E
    → Option (Polled O E × StreamState D O E)
    → Option (Polled O E × StreamState D O E)
pop_front [] s otherwise = otherwise
pop_front (out ∷ pending) s otherwise = some (ok out, record s { pending = pending })

module _ {D O E : Type 0} (push_chunk : D → Bytes → D × List O) (finish : D → D × List O) where
  -- The loop where nothing is pending and the upstream is not done.
  unfoldable pub poll_upstream : List (Received E) → D → Option (Polled O E × StreamState D O E)
  poll_upstream [] decoder =
      let (decoder', out) = finish decoder in
      pop_front out
        (record { upstream = []; decoder = decoder'; pending = out; upstream_done = true }) none
  poll_upstream (failed error ∷ upstream) decoder = some (
    err error,
    record { upstream = upstream; decoder = decoder; pending = []; upstream_done = false },
  )
  poll_upstream (chunk bytes ∷ upstream) decoder =
      let (decoder', out) = push_chunk decoder bytes in
      let rest = poll_upstream upstream decoder' in
      pop_front out
        (record { upstream = upstream; decoder = decoder'; pending = out; upstream_done = false })
        rest

  -- One poll of the stream.
  unfoldable pub poll : StreamState D O E → Option (Polled O E × StreamState D O E)
  unfolding poll_upstream
  poll s =
      pop_front s.pending s (if s.upstream_done then none else poll_upstream s.upstream s.decoder)
