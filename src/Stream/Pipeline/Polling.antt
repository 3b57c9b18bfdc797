-- ===== src/Stream/Pipeline/Polling.antt =====
-- What a client gets that polls a stream to its end.
use mathlib.Core.List.{append_assoc, append-nil, map-append}
use mathlib.Core.Path.{subst}
use prelay_server.Base.{
  ◌≡◌, refl, ◌∙◌, ap, sym, Option, none, some, List, [], ◌∷◌, ◌++◌, Bool, true, false,
  if◌then◌else◌, map, ◌⊎◌, inl, inr,
}
use prelay_server.Text.{Bytes, Text}
use prelay_server.Stream.Events.{ChatSseEvent}
use prelay_server.Stream.Decoder.{push_chunks}
use prelay_server.Stream.ChatToResponses.{Decoder, push_chunk, finish, run, process_line}
use prelay_server.Stream.Pipeline.{
  Received, chunk, failed, Polled, ok, err, StreamState, pop_front, poll_upstream, poll,
}

module _ {D O E : Type 0} (push : D → Bytes → D × List O) (close : D → D × List O) where
  -- All that comes of the upstream: what the decoder makes of each chunk, each error in its place,
  -- and what the decoder makes of the end.
  unfoldable pub outputs : List (Received E) → D → List (Polled O E)
  outputs [] decoder = map ok (close decoder).1
  outputs (failed error ∷ upstream) decoder = err error ∷ outputs upstream decoder
  outputs (chunk bytes ∷ upstream) decoder =
      let (decoder', out) = push decoder bytes in map ok out ++ outputs upstream decoder'

  abbrev later : StreamState D O E → List (Polled O E)
  later s = if s.upstream_done then [] else outputs s.upstream s.decoder

  -- What a client is to get from a state on.
  abbrev pub expected : StreamState D O E → List (Polled O E)
  expected s = map ok s.pending ++ later s

  -- Polls until the first `None`.
  pub data Yields : StreamState D O E → List (Polled O E) → Type 0 where
    ended : {s : StreamState D O E} → poll push close s ≡ none → Yields s []
    next :
        {s s' : StreamState D O E} {out : Polled O E} {outs : List (Polled O E)}
        → poll push close s ≡ some (out, s')
        → Yields s' outs
        → Yields s (out ∷ outs)

  abbrev Head : Option (Polled O E × StreamState D O E) → List (Polled O E) → Type 0
  Head polled outs =
      ((polled ≡ none) × (outs ≡ []))
      ⊎ ((out : Polled O E) × (s : StreamState D O E) × (polled ≡ some (out, s))
          × (outs ≡ out ∷ expected s))

  pop_front-Head :
      (pending : List O) (s : StreamState D O E)
      (otherwise : Option (Polled O E × StreamState D O E))
      → Head otherwise (later s)
      → Head (pop_front pending s otherwise) (map ok pending ++ later s)
  pop_front-Head [] s otherwise h = h
  pop_front-Head (out ∷ pending) s otherwise h =
      inr (ok out, record s { pending = pending }, refl, refl)

  poll_upstream-Head :
      (upstream : List (Received E)) (decoder : D)
      → Head (poll_upstream push close upstream decoder) (outputs upstream decoder)
  unfolding poll_upstream outputs
  poll_upstream-Head [] decoder =
      let (decoder', out) = close decoder in
      subst (Head (poll_upstream push close [] decoder)) (append-nil (map ok out)) (
        pop_front-Head out
          (record { upstream = []; decoder = decoder'; pending = out; upstream_done = true }) none
          (inl (refl, refl)))
  poll_upstream-Head (failed error ∷ upstream) decoder = inr (
    err error,
    (record { upstream = upstream; decoder = decoder; pending = []; upstream_done = false }),
    refl,
    refl,
  )
  poll_upstream-Head (chunk bytes ∷ upstream) decoder =
      let (decoder', out) = push decoder bytes in
      pop_front-Head out
        (record { upstream = upstream; decoder = decoder'; pending = out; upstream_done = false })
        (poll_upstream push close upstream decoder') (poll_upstream-Head upstream decoder')

  unless_done :
      (b : Bool) (polled : Option (Polled O E × StreamState D O E)) (outs : List (Polled O E))
      → Head polled outs
      → Head (if b then none else polled) (if b then [] else outs)
  unless_done true polled outs h = inl (refl, refl)
  unless_done false polled outs h = h

  poll-Head : (s : StreamState D O E) → Head (poll push close s) (expected s)
  unfolding poll
  poll-Head s =
      pop_front-Head s.pending s
        (if s.upstream_done then none else poll_upstream push close s.upstream s.decoder)
        (unless_done s.upstream_done _ _ (poll_upstream-Head s.upstream s.decoder))

  expected-Yields :
      (outs : List (Polled O E)) (s : StreamState D O E) → expected s ≡ outs → Yields s outs
  expected-Yields [] s h = elim (poll-Head s) [
    | inl (stop, none_left) ↦ ended stop
    | inr (out, s', more, e) ↦ cc
  ]
  expected-Yields (out ∷ outs) s h = elim (poll-Head s) [
    | inl (stop, none_left) ↦ cc
    | inr (found, s', more, e) ↦
        let same : expected s' ≡ outs = cc in
        let first : found ≡ out = cc in
        subst (λ o. Yields s (o ∷ outs)) first (next more (expected-Yields outs s' same))
  ]

  -- A client that polls the stream to its end gets, in this order: what is pending, what the decoder
  -- makes of each chunk of the upstream, with each error of the upstream in its place, and what the
  -- decoder makes of the end; then the stream is over.
  pub poll-Yields : (s : StreamState D O E) → Yields s (expected s)
  poll-Yields s = expected-Yields (expected s) s refl

module _ {E : Type 0} (decode : Text → Option ChatSseEvent) where
  outputs-run :
      (decoder : Decoder) (chunks : List Bytes)
      → outputs {E = E} (push_chunk decode) (finish decode) (map chunk chunks) decoder
        ≡ map ok (run decode decoder chunks).1
  unfolding outputs run push_chunks push_chunk
  outputs-run decoder [] = refl
  outputs-run decoder (bytes ∷ chunks) =
      let (decoder', out) = push_chunk decode decoder bytes in
      let (last, outs) = push_chunks (process_line decode) decoder' chunks in
      ap (◌++◌ (map ok out)) (outputs-run decoder' chunks)
      ∙ sym (map-append ok out (outs ++ (finish decode last).1))
      ∙ ap (map ok) (sym (append_assoc out outs (finish decode last).1))

  -- Of an upstream without an error, the client gets the frames of the decoder's run over the
  -- chunks and the end.
  pub run-Yields :
      (decoder : Decoder) (chunks : List Bytes)
      → Yields {E = E}
          (push_chunk decode)
          (finish decode)
          (record {
            upstream = map chunk chunks;
            decoder = decoder;
            pending = [];
            upstream_done = false;
          })
          (map ok (run decode decoder chunks).1)
  run-Yields decoder chunks =
      expected-Yields (push_chunk decode) (finish decode) (map ok (run decode decoder chunks).1) _
        (outputs-run decoder chunks)
