-- ===== src/ResponseIds/Passing.antt =====
-- That a stream's events are rewritten one by one, however they come in chunks,
-- src/inbound/v1/responses/stream_rewrite.rs.
use mathlib.Core.List.{append-nil, append_assoc}
use prelay_server.Base.{
  ℕ, zero, suc, ◌≤◌, ◌≡◌, refl, sym, ap, ◌∙◌, Option, none, some, List, [], ◌∷◌, ◌++◌, ◌&&◌,
  if◌then◌else◌, ◌==◌, is_empty, length, length-drop, take, drop, map, arith, Bool-cases, inl, inr,
  Option-cases,
}
use prelay_server.Text.{Bytes, Text}
use prelay_server.Values.{Value}
use prelay_server.Stream.Lines.{strip_cr}
use prelay_server.Stream.Decoder.{flatten}
use prelay_server.Stream.Pipeline.{Received, chunk, failed, Polled, ok, err}
use prelay_server.ResponseIds.{event_end, rewrite_event, push_loop, ResponseIdRewriter, push_chunk}
use prelay_server.ResponseIds.Splitting.{
  Partial, nothing_read, split, event_end_from-none, event_end_from-some,
}

pub split-append :
    (p : Partial) (xs ys : Bytes)
    → split p (xs ++ ys)
      ≡ ((split p xs).0 ++ (split (split p xs).1 ys).0, (split (split p xs).1 ys).1)
unfolding split
split-append p [] ys = refl
split-append p (b ∷ xs) ys = elim (Bool-cases (b == b'\n' && is_empty (strip_cr p.line))) [
  | inl ends ↦ rw ends (rw (split-append nothing_read xs ys) refl)
  | inr more ↦ rw more (
      rw
        (split-append
          (record {
            event = p.event ++ b ∷ [];
            line = (if b == b'\n' then [] else p.line ++ b ∷ []);
          })
          xs ys)
        refl)
]

flatten-split :
    (p : Partial) (bytes : Bytes)
    → flatten (split p bytes).0 ++ (split p bytes).1.event ≡ p.event ++ bytes
unfolding split flatten
flatten-split p [] = sym (append-nil p.event)
flatten-split p (b ∷ bs) = elim (Bool-cases (b == b'\n' && is_empty (strip_cr p.line))) [
  | inl ends ↦ rw ends (
      append_assoc (p.event ++ b ∷ []) (flatten (split nothing_read bs).0)
        (split nothing_read bs).1.event
      ∙ ap (λ (a : Bytes). (p.event ++ b ∷ []) ++ a) (flatten-split nothing_read bs)
      ∙ append_assoc p.event (b ∷ []) bs)
  | inr more ↦ rw more (
      flatten-split
        (record { event = p.event ++ b ∷ []; line = (if b == b'\n' then [] else p.line ++ b ∷ []) })
        bs
      ∙ append_assoc p.event (b ∷ []) bs)
]

-- Reading what is read of an event gives it again.
abbrev pub IsReached : Partial → Type 0
IsReached p = split nothing_read p.event ≡ ([], p)

pub split-IsReached : (p : Partial) (xs : Bytes) → IsReached p → IsReached (split p xs).1
unfolding split
split-IsReached p [] h = h
split-IsReached p (b ∷ xs) h = elim (Bool-cases (b == b'\n' && is_empty (strip_cr p.line))) [
  | inl ends ↦ rw ends (split-IsReached nothing_read xs refl)
  | inr more ↦
      let next : Partial = record {
        event = p.event ++ b ∷ [];
        line = (if b == b'\n' then [] else p.line ++ b ∷ []);
      } in
      rw more (
        split-IsReached next xs
          (split-append nothing_read p.event (b ∷ []) ∙ (rw h (rw more refl))))
]

-- All events of a stream; what follows the last blank line is one too unless it is empty.
abbrev pub with_last : List Bytes × Partial → List Bytes
with_last (events, p) = if is_empty p.event then events else events ++ p.event ∷ []

unfoldable pub sse_events : Bytes → List Bytes
unfolding split
sse_events bytes = with_last (split nothing_read bytes)

flatten-append :
    (events : List Bytes) (e : Bytes) → flatten (events ++ e ∷ []) ≡ flatten events ++ e
unfolding flatten
flatten-append [] e = append-nil e
flatten-append (x ∷ events) e =
    ap (λ (a : Bytes). x ++ a) (flatten-append events e) ∙ sym (append_assoc x (flatten events) e)

flatten-with_last :
    (events : List Bytes) (e : Bytes)
    → flatten (if is_empty e then events else events ++ e ∷ []) ≡ flatten events ++ e
flatten-with_last events [] = sym (append-nil (flatten events))
flatten-with_last events (b ∷ bs) = flatten-append events (b ∷ bs)

pub flatten-sse_events : (bytes : Bytes) → flatten (sse_events bytes) ≡ bytes
unfolding sse_events
flatten-sse_events bytes =
    flatten-with_last (split nothing_read bytes).0 (split nothing_read bytes).1.event
    ∙ flatten-split nothing_read bytes

event_end-none :
    (buffer : Bytes)
    → event_end buffer ≡ none
    → ((split nothing_read buffer).0 ≡ []) × ((split nothing_read buffer).1.event ≡ buffer)
unfolding event_end
event_end-none buffer h = event_end_from-none nothing_read 0 buffer h

event_end-some :
    (buffer : Bytes) (n : ℕ)
    → event_end buffer ≡ some n
    → (k : ℕ) × (n ≡ suc k)
      × (suc k ≤ length buffer)
      × ((split nothing_read buffer).0
          ≡ take (suc k) buffer ∷ (split nothing_read (drop (suc k) buffer)).0)
      × ((split nothing_read buffer).1 ≡ (split nothing_read (drop (suc k) buffer)).1)
unfolding event_end
event_end-some buffer n h =
    let (k, e, le, events, last) = event_end_from-some nothing_read 0 buffer n h in
    (k, omega (arith, e), le, events, last)

-- What a client gets, without the errors, and the errors alone.
unfoldable pub chunks_of : {E : Type 0} → List (Polled Bytes E) → List Bytes
chunks_of [] = []
chunks_of (ok bytes ∷ polled) = bytes ∷ chunks_of polled
chunks_of (err e ∷ polled) = chunks_of polled

unfoldable pub errors_of : {E : Type 0} → List (Polled Bytes E) → List E
errors_of [] = []
errors_of (ok bytes ∷ polled) = errors_of polled
errors_of (err e ∷ polled) = e ∷ errors_of polled

-- What an upstream gives, likewise.
unfoldable pub bytes_of : {E : Type 0} → List (Received E) → Bytes
bytes_of [] = []
bytes_of (chunk bytes ∷ upstream) = bytes ++ bytes_of upstream
bytes_of (failed e ∷ upstream) = bytes_of upstream

unfoldable pub failures_of : {E : Type 0} → List (Received E) → List E
failures_of [] = []
failures_of (chunk bytes ∷ upstream) = failures_of upstream
failures_of (failed e ∷ upstream) = e ∷ failures_of upstream

pub chunks_of-map_ok :
    {E : Type 0} (xs : List Bytes) (polled : List (Polled Bytes E))
    → chunks_of (map ok xs ++ polled) ≡ xs ++ chunks_of polled
unfolding chunks_of
chunks_of-map_ok [] polled = refl
chunks_of-map_ok (x ∷ xs) polled = ap (◌∷◌ x) (chunks_of-map_ok xs polled)

pub errors_of-map_ok :
    {E : Type 0} (xs : List Bytes) (polled : List (Polled Bytes E))
    → errors_of (map ok xs ++ polled) ≡ errors_of polled
unfolding errors_of
errors_of-map_ok [] polled = refl
errors_of-map_ok (x ∷ xs) polled = errors_of-map_ok xs polled

module _ (from_str : Text → Option Value) (to_string : Value → Bytes) where
  push_loop-split :
      (fuel : ℕ) (local_id : Bytes) (output : List Bytes) (buffer : Bytes)
      → length buffer ≤ fuel
      → push_loop from_str to_string fuel local_id output buffer ≡ (
        output ++ map (rewrite_event from_str to_string local_id) (split nothing_read buffer).0,
        (split nothing_read buffer).1.event,
      )
  unfolding push_loop
  push_loop-split zero local_id output [] h = unfold split in rw append-nil refl
  push_loop-split zero local_id output (b ∷ bs) h = absurd (omega arith)
  push_loop-split (suc fuel) local_id output buffer h = elim (Option-cases (event_end buffer)) [
    | inl stop ↦
        let (events, rest) = event_end-none buffer stop in
        rw (events, rest, append-nil, push_loop, stop) refl
    | inr (n, found) ↦
        let (k, e, le, events, last) = event_end-some buffer n found in
        let first = rewrite_event from_str to_string local_id (take (suc k) buffer) in
        let ih =
          push_loop-split fuel local_id (output ++ first ∷ []) (drop (suc k) buffer)
            (omega (arith, length-drop (suc k) buffer, le, h)) in
        rw (push_loop, found, e, events, last)
          (ih
            ∙ ap (λ (a : List Bytes). (a, (split nothing_read (drop (suc k) buffer)).1.event))
                (append_assoc output (first ∷ []) (
                  map (rewrite_event from_str to_string local_id)
                    (split nothing_read (drop (suc k) buffer)).0)))
  ]

  pub push_chunk-split :
      (r : ResponseIdRewriter) (p : Partial) (bytes : Bytes)
      → IsReached p
      → p.event ≡ r.event_buffer
      → push_chunk from_str to_string r bytes ≡ (
        record r { event_buffer = (split p bytes).1.event },
        map (rewrite_event from_str to_string r.local_id) (split p bytes).0,
      )
  unfolding push_chunk
  push_chunk-split r p bytes reached same =
      let read : split nothing_read (r.event_buffer ++ bytes) ≡ split p bytes =
        rw (sym same) (split-append nothing_read p.event bytes ∙ rw reached refl) in
      rw
        (push_loop-split (length (r.event_buffer ++ bytes)) r.local_id [] (r.event_buffer ++ bytes)
          (omega arith))
        (rw read refl)
