-- ===== src/Stream/Head/Verdict.antt =====
-- Which heads are accepted, src/codec/bridge/stream/verify.rs.
use Prim.Native.Nat.{ℕ, zero, suc, ◌≤◌, ◌+◌}
use prelay_server.Base.{
  ◌≡◌, refl, ap, ◌≢◌, ◌↔◌, length, lt→ltb, le→ltb_false, Option, none, some, List, [], ◌∷◌, ◌++◌,
  true, false, if◌then◌else◌, arith, inl, inr, Option-cases,
}
use prelay_server.Text.{Bytes, Text}
use prelay_server.Errors.{AppError, upstream_invalid_response}
use prelay_server.Result.{Result, ok, err}
use prelay_server.Stream.Pipeline.{Received, chunk, failed}
use prelay_server.Stream.Head.{
  Messages, max_empty_chunks, is_page, page_type, head_loop, verify_upstream_sse_head,
  upstream_bytes_stream,
}

-- Empty chunks.
abbrev pub empties : {E : Type 0} → ℕ → List (Received E)
empties zero = []
empties (suc n) = chunk [] ∷ empties n

-- What is received but for the empty chunks.
abbrev pub substance : {E : Type 0} → List (Received E) → List (Received E)
substance [] = []
substance (chunk [] ∷ received) = substance received
substance (chunk (b ∷ bs) ∷ received) = chunk (b ∷ bs) ∷ substance received
substance (failed e ∷ received) = failed e ∷ substance received

-- A head with what comes before it and behind it.
abbrev pub HeadOf : {E : Type 0} → ℕ → List (Received E) → Bytes → List (Received E) → Type 0
HeadOf most received head rest =
    (k : ℕ) × (k ≤ most)
    × (received ≡ empties k ++ chunk head ∷ rest)
    × (head ≢ [])
    × (is_page head ≡ false)

-- What is taken before the rest, and how much of it.
abbrev pub TakesAtMost : {E : Type 0} → ℕ → List (Received E) → List (Received E) → Type 0
TakesAtMost {E} most received rest =
    (taken : List (Received E)) × (received ≡ taken ++ rest) × (length taken ≤ most)

module _ {E : Type 0} (messages : Messages E) where
  head_loop-HeadOf :
      (n most : ℕ) (received : List (Received E)) (head : Bytes) (rest : List (Received E))
      → n + most ≡ max_empty_chunks
      → head_loop messages n received ≡ (ok head, rest)
      → HeadOf most received head rest
  unfolding head_loop
  head_loop-HeadOf n most [] head rest s h = absurd (ground arith)
  head_loop-HeadOf n most (failed e ∷ received) head rest s h = absurd (ground arith)
  head_loop-HeadOf n zero (chunk [] ∷ received) head rest s h = absurd (ground arith)
  head_loop-HeadOf n (suc most) (chunk [] ∷ received) head rest s h =
      let (k, le, e, ne, page) =
        head_loop-HeadOf (n + 1) most received head rest (omega arith) (ground arith) in
      (suc k, omega arith, cc, ne, page)
  head_loop-HeadOf n most (chunk (b ∷ bs) ∷ received) head rest s h =
      (0, omega arith, ground arith, ground arith, ground arith)

  head_loop-found :
      (n k : ℕ) (head : Bytes) (rest : List (Received E))
      → n + k ≤ max_empty_chunks
      → head ≢ []
      → is_page head ≡ false
      → head_loop messages n (empties k ++ chunk head ∷ rest) ≡ (ok head, rest)
  unfolding head_loop
  head_loop-found n zero [] rest le ne page = absurd (ne refl)
  head_loop-found n zero (b ∷ bs) rest le ne page = rw page
  head_loop-found n (suc k) head rest le ne page =
      ground (arith, head_loop-found (n + 1) k head rest)

  -- The check accepts a head and leaves the rest exactly when the content type is no page's, and
  -- the response gives 32 empty chunks at most, the head, which is not empty and does not begin as
  -- a page, and the rest.
  pub verify_upstream_sse_head-HeadOf :
      (content_type : Option Text) (received : List (Received E)) (head : Bytes)
      (rest : List (Received E))
      → (verify_upstream_sse_head messages content_type received ≡ (ok head, rest))
        ↔ ((page_type content_type ≡ none) × HeadOf max_empty_chunks received head rest)
  unfolding verify_upstream_sse_head
  verify_upstream_sse_head-HeadOf content_type received head rest =
      elim (Option-cases (page_type content_type)) [
        | inl none_of ↦ (
          λ h. (
            none_of,
            head_loop-HeadOf 0 max_empty_chunks received head rest refl
                (ground (arith, none_of, h)),
          ),
          λ (e, (k, le, split, ne, page)).
              rw (e, verify_upstream_sse_head, split)
                (head_loop-found 0 k head rest (omega arith) ne page),
        )
        | inr (page, found) ↦ (λ h. absurd (ground arith), λ h. absurd (ground (arith, h.0)))
      ]

  substance-empties :
      (k : ℕ) (received : List (Received E))
      → substance (empties k ++ received) ≡ substance received
  substance-empties zero received = refl
  substance-empties (suc k) received = substance-empties k received

  -- When a head is accepted, the stream that goes on with the head put back before the rest gives
  -- all that the response gave, in its order, but for empty chunks.
  pub upstream_bytes_stream-substance :
      (content_type : Option Text) (received : List (Received E)) (head : Bytes)
      (rest : List (Received E))
      → verify_upstream_sse_head messages content_type received ≡ (ok head, rest)
      → substance (upstream_bytes_stream (some head) rest) ≡ substance received
  unfolding upstream_bytes_stream
  upstream_bytes_stream-substance content_type received head rest h =
      let (_, (k, _, split, _, _)) =
        (verify_upstream_sse_head-HeadOf content_type received head rest).0 h in
      rw (split, substance-empties k (chunk head ∷ rest))

  head_loop-TakesAtMost :
      (n most : ℕ) (received : List (Received E))
      → n + most ≡ max_empty_chunks
      → TakesAtMost (most + 1) received (head_loop messages n received).1
  unfolding head_loop
  head_loop-TakesAtMost n most [] s = ([], refl, omega arith)
  head_loop-TakesAtMost n most (failed e ∷ received) s = (failed e ∷ [], refl, omega arith)
  head_loop-TakesAtMost n zero (chunk [] ∷ received) s =
      rw (lt→ltb max_empty_chunks (n + 1) (omega arith)) (chunk [] ∷ [], refl, omega arith)
  head_loop-TakesAtMost n (suc most) (chunk [] ∷ received) s =
      let (taken, split, le) = head_loop-TakesAtMost (n + 1) most received (omega arith) in
      rw (le→ltb_false max_empty_chunks (n + 1) (omega arith))
        (chunk [] ∷ taken, ap (λ r. chunk [] ∷ r) split, omega arith)
  head_loop-TakesAtMost n most (chunk (b ∷ bs) ∷ received) s =
      elim (is_page (b ∷ bs))
        as (λ page. TakesAtMost (most + 1) (chunk (b ∷ bs) ∷ received) (
          let o : Result AppError Bytes × List (Received E) =
            (if page
              then (err (upstream_invalid_response (messages.html_body_message (b ∷ bs))), received)
              else (ok (b ∷ bs), received)) in
          o.1)) [
            | true ↦ (chunk (b ∷ bs) ∷ [], refl, omega arith)
            | false ↦ (chunk (b ∷ bs) ∷ [], refl, omega arith)
          ]

  -- The check comes to its verdict, an error too, after 33 chunks at most, and leaves the rest of
  -- the response as it is.
  pub verify_upstream_sse_head-TakesAtMost :
      (content_type : Option Text) (received : List (Received E))
      → TakesAtMost
          (max_empty_chunks + 1)
          received
          (verify_upstream_sse_head messages content_type received).1
  unfolding verify_upstream_sse_head
  verify_upstream_sse_head-TakesAtMost content_type received =
      elim (page_type content_type)
        as (λ page. TakesAtMost (max_empty_chunks + 1) received (
          let o : Result AppError Bytes × List (Received E) = elim page [
            | some page ↦ (err (upstream_invalid_response (messages.page_type page)), received)
            | none ↦ head_loop messages 0 received
          ] in
          o.1)) [
            | some page ↦ ([], refl, omega arith)
            | none ↦ head_loop-TakesAtMost 0 max_empty_chunks received refl
          ]
