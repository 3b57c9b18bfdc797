-- ===== src/Recording/Forwarding.antt =====
-- The course of one recorded stream, src/service/recording/state/forwarding.rs. What the tasks
-- around it do is a list of arrivals.
use prelay_server.Base.{
  ℕ, Option, none, some, List, [], ◌∷◌, Bool, true, false, not, ◌||◌, if◌then◌else◌,
}
use prelay_server.Stream.Events.{StreamStatsSnapshot}
use prelay_server.Storage.{StorageError}
use prelay_server.Recording.Calls.{Connections}
use prelay_server.Recording.State.{
  Item, is_err, StreamRecordState, start, observe_item, record_stream_end,
  record_downstream_disconnect, record_empty_stream,
}

-- What the clock and the shared statistics show when something arrives.
pub record Now : Type 0 where
  pub elapsed_ms : ℕ
  pub snapshot : StreamStatsSnapshot

-- An item of the stream, and whether the client takes it; the end of the stream; or that the drain
-- deadline passes before either.
pub data Arrival : Type 0 where
  item : Now → Item → Bool → Arrival
  ended : Now → Arrival
  deadline : Now → Arrival

module _ {W C D S X : Type 0} (io : Connections W C D S X) where
  abbrev pub State : Type 0
  State = StreamRecordState W C S X

  abbrev shown : Option StreamStatsSnapshot → StreamStatsSnapshot → Option StreamStatsSnapshot
  shown none snapshot = none
  shown (some old) snapshot = some snapshot

  abbrev pub at_time : Now → State → State
  at_time now s = record s { elapsed_ms = now.elapsed_ms; stats = shown s.stats now.snapshot }

  -- The loop; `draining` is that the client is gone, and the result also says whether it returned.
  -- The deadline exists only while draining.
  unfoldable pub forward_loop : Bool → State → List Arrival → State × Bool
  forward_loop draining s [] = (s, false)
  forward_loop draining s (item now next received ∷ arrivals) =
      let s' = observe_item io next (at_time now s) in
      let rest = forward_loop (draining || not received) s' arrivals in
      if is_err next then (s', true) else rest
  forward_loop draining s (ended now ∷ arrivals) = (
    if draining
        then record_downstream_disconnect io (at_time now s)
        else record_stream_end io (at_time now s),
    true,
  )
  forward_loop draining s (deadline now ∷ arrivals) =
      let rest = forward_loop draining s arrivals in
      if draining then (record_downstream_disconnect io (at_time now s), true) else rest

  -- `forward_recorded_stream`: the first item was observed before.
  unfoldable pub forward_recorded_stream : Item → Bool → State → List Arrival → State × Bool
  forward_recorded_stream first received s arrivals =
      let rest = forward_loop (not received) s arrivals in if is_err first then (s, true) else rest

  -- What becomes of a stream whose first item arrives, from `prepare_stream_with_log_id` on.
  unfoldable pub after_first :
      Item → Bool → State → List Arrival → State × Bool × Option StorageError
  after_first first received s arrivals =
      let (s', answer) = start io first s in
      let (last, returned) =
        forward_recorded_stream first received (observe_item io first s') arrivals in
      elim answer [ some error ↦ (s', true, some error) | none ↦ (last, returned, none) ]

  -- A stream from the start: what it gives first, and what arrives then.
  unfoldable pub prepare_stream_with_log_id :
      State → List Arrival → State × Bool × Option StorageError
  prepare_stream_with_log_id s [] = (s, false, none)
  prepare_stream_with_log_id s (item now first received ∷ arrivals) =
      after_first first received (at_time now s) arrivals
  prepare_stream_with_log_id s (ended now ∷ arrivals) =
      let (s', answer) = record_empty_stream io (at_time now s) in (s', true, answer)
  prepare_stream_with_log_id s (deadline now ∷ arrivals) = prepare_stream_with_log_id s arrivals
