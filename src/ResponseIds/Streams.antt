-- ===== src/ResponseIds/Streams.antt =====
-- What a client gets of a rewritten stream, src/inbound/v1/responses/stream_rewrite.rs.
use mathlib.Core.List.{append_assoc, map-append, append-nil}
use prelay_server.Base.{
  ◌≡◌, refl, sym, ap, ◌∙◌, Option, List, [], ◌∷◌, ◌++◌, is_empty, map, Bool-cases, inl, inr,
}
use prelay_server.Text.{Bytes, Text}
use prelay_server.Values.{Value}
use prelay_server.Stream.Decoder.{flatten}
use prelay_server.Stream.Pipeline.{Received, chunk, failed, Polled, ok}
use prelay_server.Stream.Pipeline.Polling.{outputs, Yields, poll-Yields}
use prelay_server.ResponseIds.{
  rewrite_event, ResponseIdRewriter, new, push_chunk, finish, rewrite_response_ids,
}
use prelay_server.ResponseIds.Splitting.{Partial, nothing_read, split}
use prelay_server.ResponseIds.Passing.{
  split-append, IsReached, split-IsReached, with_last, sse_events, flatten-sse_events, chunks_of,
  errors_of, bytes_of, failures_of, chunks_of-map_ok, errors_of-map_ok, push_chunk-split,
}

map-with_last :
    (f : Bytes → Bytes) (xs : List Bytes) (events : List Bytes) (p : Partial)
    → map f xs ++ map f (with_last (events, p)) ≡ map f (with_last (xs ++ events, p))
map-with_last f xs events p = elim (Bool-cases (is_empty p.event)) [
  | inl none_left ↦ rw none_left (sym (map-append f xs events))
  | inr left ↦ rw left (
      sym (map-append f xs (events ++ p.event ∷ []))
      ∙ ap (map f) (sym (append_assoc xs events (p.event ∷ []))))
]

module _ (from_str : Text → Option Value) (to_string : Value → Bytes) where
  chunks_of-finish :
      (E : Type 0) (r : ResponseIdRewriter) (p : Partial)
      → p.event ≡ r.event_buffer
      → chunks_of {E = E} (map ok (finish from_str to_string r).1)
        ≡ map (rewrite_event from_str to_string r.local_id) (with_last ([], p))
  unfolding finish chunks_of
  chunks_of-finish _ r p same = elim (Bool-cases (is_empty r.event_buffer)) [
    | inl none_left ↦ rw (same, none_left) refl
    | inr left ↦ rw (same, left) refl
  ]

  chunks_of-outputs :
      {E : Type 0} (upstream : List (Received E)) (r : ResponseIdRewriter) (p : Partial)
      → IsReached p
      → p.event ≡ r.event_buffer
      → chunks_of (outputs (push_chunk from_str to_string) (finish from_str to_string) upstream r)
        ≡ map
            (rewrite_event from_str to_string r.local_id)
            (with_last (split p (bytes_of upstream)))
  unfolding outputs bytes_of chunks_of split
  chunks_of-outputs [] r p reached same = chunks_of-finish _ r p same
  chunks_of-outputs (failed e ∷ upstream) r p reached same =
      chunks_of-outputs upstream r p reached same
  chunks_of-outputs (chunk bytes ∷ upstream) r p reached same =
      let (events, last) = split p bytes in
      let ih =
        chunks_of-outputs upstream (record r { event_buffer = last.event }) last
          (split-IsReached p bytes reached) refl in
      let f = rewrite_event from_str to_string r.local_id in
      rw (push_chunk-split from_str to_string r p bytes reached same) (
        chunks_of-map_ok (map f events) _
        ∙ ap (λ (a : List Bytes). map f events ++ a) ih
        ∙ map-with_last f events (split last (bytes_of upstream)).0
            (split last (bytes_of upstream)).1
        ∙ ap (λ (s : List Bytes × Partial). map f (with_last s))
            (sym (split-append p bytes (bytes_of upstream))))

  errors_of-outputs :
      {E : Type 0} (upstream : List (Received E)) (r : ResponseIdRewriter)
      → errors_of (outputs (push_chunk from_str to_string) (finish from_str to_string) upstream r)
        ≡ failures_of upstream
  unfolding outputs failures_of errors_of
  errors_of-outputs [] r =
      ap errors_of (sym (append-nil (map ok (finish from_str to_string r).1)))
      ∙ errors_of-map_ok (finish from_str to_string r).1 []
  errors_of-outputs (failed e ∷ upstream) r = ap (◌∷◌ e) (errors_of-outputs upstream r)
  errors_of-outputs (chunk bytes ∷ upstream) r =
      let (r', out) = push_chunk from_str to_string r bytes in
      errors_of-map_ok out _ ∙ errors_of-outputs upstream r'

  -- A client that polls the rewritten stream to its end gets, each in a chunk of its own, the events
  -- of the bytes that came of the upstream, rewritten one by one, in their order and however the
  -- bytes came in chunks; the events one after the other are those bytes. It also gets the errors of
  -- the upstream, in their order.
  pub rewrite_response_ids-Yields :
      {E : Type 0} (upstream : List (Received E)) (local_id : Bytes)
      → (polled : List (Polled Bytes E)) × Yields
          (push_chunk from_str to_string)
          (finish from_str to_string)
          (rewrite_response_ids upstream local_id)
          polled
        × (chunks_of polled
            ≡ map (rewrite_event from_str to_string local_id) (sse_events (bytes_of upstream)))
        × (flatten (sse_events (bytes_of upstream)) ≡ bytes_of upstream)
        × (errors_of polled ≡ failures_of upstream)
  unfolding rewrite_response_ids sse_events new
  rewrite_response_ids-Yields upstream local_id = (
    _,
    poll-Yields (push_chunk from_str to_string) (finish from_str to_string)
        (rewrite_response_ids upstream local_id),
    chunks_of-outputs upstream (new local_id) nothing_read refl refl,
    flatten-sse_events (bytes_of upstream),
    errors_of-outputs upstream (new local_id),
  )
