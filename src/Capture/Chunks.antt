-- ===== src/Capture/Chunks.antt =====
-- That the capture of a stream does not depend on how its bytes come in chunks,
-- src/domain/activity/stream.rs.
use prelay_server.Base.{
  ℕ, zero, suc, ◌≤◌, ◌≡◌, refl, sym, ap, ◌∙◌, List, [], ◌∷◌, ◌++◌, arith, length, inl, inr,
  Option-cases,
}
use prelay_server.Json.{Json}
use prelay_server.Text.{Bytes}
use prelay_server.Stream.Lines.{first_line, strip_cr}
use prelay_server.Stream.Lines.Chunks.{split_lines, first_line-some, first_line-none, split-append}
use prelay_server.Stream.Decoder.{flatten}
use prelay_server.Capture.{
  RawStreamContentCapture, RawStreamProtocol, chat_completions, image_generation, joined, line_data,
  flush_chat, flush_image, flush_data, flush_event, observe_line, observe_loop, observe_chunk,
}

-- A state that holds these bytes of an unfinished line.
abbrev pub holding : Bytes → RawStreamContentCapture → RawStreamContentCapture
holding bytes s = record s { line_buffer = bytes }

module _ (json : Json) where
  unfoldable pub observe_lines : RawStreamContentCapture → List Bytes → RawStreamContentCapture
  observe_lines s [] = s
  observe_lines s (line ∷ lines) = observe_lines (observe_line json s line) lines

  unfoldable pub observe_chunks : RawStreamContentCapture → List Bytes → RawStreamContentCapture
  observe_chunks s [] = s
  observe_chunks s (chunk ∷ chunks) = observe_chunks (observe_chunk json s chunk) chunks

  flush_data-line_buffer :
      (p : RawStreamProtocol) (s : RawStreamContentCapture) (payload : List ℕ)
      → (flush_data json p s payload).line_buffer ≡ s.line_buffer
  unfolding flush_data flush_chat flush_image
  flush_data-line_buffer chat_completions s payload = ground arith
  flush_data-line_buffer image_generation s payload = ground arith

  flush_event-line_buffer :
      (s : RawStreamContentCapture) → (flush_event json s).line_buffer ≡ s.line_buffer
  unfolding flush_event
  flush_event-line_buffer s = elim (Option-cases (joined s.data_lines)) [
    | inl e ↦ ground (arith, e)
    | inr (payload, e) ↦
        ground (arith, e, flush_data-line_buffer s.protocol (record s { data_lines = [] }) payload)
  ]

  observe_line-line_buffer :
      (s : RawStreamContentCapture) (line : Bytes)
      → (observe_line json s line).line_buffer ≡ s.line_buffer
  unfolding observe_line
  observe_line-line_buffer s [] = flush_event-line_buffer s
  observe_line-line_buffer s (b ∷ line) = ground (arith, Option-cases (line_data json (b ∷ line)))

  observe_lines-line_buffer :
      (s : RawStreamContentCapture) (lines : List Bytes)
      → (observe_lines s lines).line_buffer ≡ s.line_buffer
  unfolding observe_lines
  observe_lines-line_buffer s [] = refl
  observe_lines-line_buffer s (line ∷ lines) =
      observe_lines-line_buffer (observe_line json s line) lines ∙ observe_line-line_buffer s line

  pub observe_lines-append :
      (s : RawStreamContentCapture) (xs ys : List Bytes)
      → observe_lines s (xs ++ ys) ≡ observe_lines (observe_lines s xs) ys
  unfolding observe_lines
  observe_lines-append s [] ys = refl
  observe_lines-append s (x ∷ xs) ys = observe_lines-append (observe_line json s x) xs ys

  -- What observing a chunk comes to: the complete lines, read byte by byte, and the rest.
  abbrev pub read : RawStreamContentCapture → Bytes → RawStreamContentCapture
  read s chunk =
      let (lines, rest) = split_lines s.line_buffer chunk in
      holding rest (observe_lines (holding [] s) lines)

  observe_line-holding :
      (s : RawStreamContentCapture) (line : Bytes)
      → holding [] (observe_line json (holding [] s) line) ≡ observe_line json (holding [] s) line
  observe_line-holding s line =
      ap (λ bytes. holding bytes (observe_line json (holding [] s) line))
        (sym (observe_line-line_buffer (holding [] s) line))

  observe_loop-read :
      (fuel : ℕ) (s : RawStreamContentCapture) (chunk : Bytes)
      → length chunk ≤ fuel
      → observe_loop json fuel s chunk ≡ read s chunk
  unfolding observe_loop observe_lines
  observe_loop-read zero s [] h = unfold split_lines in refl
  observe_loop-read zero s (b ∷ bs) h = absurd (omega arith)
  observe_loop-read (suc fuel) s [] h = unfold split_lines in refl
  observe_loop-read (suc fuel) s (b ∷ bs) h = elim (Option-cases (first_line (b ∷ bs))) [
    | inl stop ↦ rw (stop, observe_loop, first_line-none s.line_buffer (b ∷ bs) stop) refl
    | inr ((line, rest), more) ↦
        let (split, shorter) = first_line-some s.line_buffer (b ∷ bs) line rest more in
        let turned = observe_line json (holding [] s) (strip_cr (s.line_buffer ++ line)) in
        let emptied : turned.line_buffer ≡ [] =
          observe_line-line_buffer (holding [] s) (strip_cr (s.line_buffer ++ line)) in
        let later = observe_loop-read fuel turned rest (omega (arith, shorter, h)) in
        rw (more, observe_loop, split)
          (later
            ∙ ap
                (λ bytes.
                  holding (split_lines bytes rest).1
                    (observe_lines (holding [] turned) (split_lines bytes rest).0))
                emptied
            ∙ ap (λ t. holding (split_lines [] rest).1 (observe_lines t (split_lines [] rest).0))
                (ap (λ bytes. holding bytes turned) (sym emptied)))
  ]

  -- Observing a chunk hands the lines that it completes to `observe_line`, each with what was kept of
  -- it before, and keeps what follows the last newline.
  pub observe_chunk-read :
      (s : RawStreamContentCapture) (chunk : Bytes) → observe_chunk json s chunk ≡ read s chunk
  unfolding observe_chunk
  observe_chunk-read s chunk = observe_loop-read (length chunk) s chunk (omega arith)

  pub observe_lines-holding :
      (s : RawStreamContentCapture) (lines : List Bytes)
      → holding [] (observe_lines (holding [] s) lines) ≡ observe_lines (holding [] s) lines
  observe_lines-holding s lines =
      ap (λ bytes. holding bytes (observe_lines (holding [] s) lines))
        (sym (observe_lines-line_buffer (holding [] s) lines))

  read-append :
      (s : RawStreamContentCapture) (xs ys : Bytes) → read s (xs ++ ys) ≡ read (read s xs) ys
  read-append s xs ys =
      let (lines, kept) = split_lines s.line_buffer xs in
      let (more, rest) = split_lines kept ys in
      ap (λ (ls, r). holding r (observe_lines (holding [] s) ls)) (split-append s.line_buffer xs ys)
      ∙ ap (holding rest) (
          observe_lines-append (holding [] s) lines more
          ∙ ap (λ t. observe_lines t more) (sym (observe_lines-holding s lines)))

  -- The capture depends on the bytes of the stream alone, and not on how they came in chunks.
  pub observe_chunks-flatten :
      (s : RawStreamContentCapture) (chunks : List Bytes)
      → observe_chunks s chunks ≡ observe_chunk json s (flatten chunks)
  unfolding observe_chunks flatten
  observe_chunks-flatten s [] = unfold observe_lines split_lines in sym (observe_chunk-read s [])
  observe_chunks-flatten s (chunk ∷ chunks) =
      observe_chunks-flatten (observe_chunk json s chunk) chunks
      ∙ observe_chunk-read (observe_chunk json s chunk) (flatten chunks)
      ∙ ap (λ t. read t (flatten chunks)) (observe_chunk-read s chunk)
      ∙ sym (read-append s chunk (flatten chunks))
      ∙ sym (observe_chunk-read s (chunk ++ flatten chunks))
