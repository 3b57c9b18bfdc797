-- ===== src/Stream/Decoder.antt =====
-- What the event stream decoders have in common: they keep the bytes of an unfinished line, and
-- hand each finished line to a step of their own.
use mathlib.Core.List.{append-nil, append_assoc}
use prelay_server.Base.{◌≡◌, refl, List, [], ◌∷◌, ◌++◌, arith}
use prelay_server.Text.{Bytes}
use prelay_server.Stream.Lines.{drain_lines}
use prelay_server.Stream.Lines.Chunks.{drain_lines-append, drain_lines-rest, drain_lines-nil}

unfoldable pub flatten : List Bytes → Bytes
flatten [] = []
flatten (c ∷ cs) = c ++ flatten cs

module _ {C O : Type 0} (process_line : C → Bytes → C × List O) where
  unfoldable pub process_lines : C → List Bytes → C × List O
  process_lines core [] = (core, [])
  process_lines core (line ∷ lines) =
      let (core', out) = process_line core line in
      let (last, outs) = process_lines core' lines in (last, out ++ outs)

  -- `push_chunk`: the line buffer and the rest of the state, and what goes out.
  unfoldable pub push_lines : Bytes × C → Bytes → (Bytes × C) × List O
  push_lines (line_buffer, core) chunk =
      let (lines, rest) = drain_lines (line_buffer ++ chunk) in
      let (core', out) = process_lines core lines in ((rest, core'), out)

  unfoldable pub push_chunks : Bytes × C → List Bytes → (Bytes × C) × List O
  push_chunks s [] = (s, [])
  push_chunks s (chunk ∷ chunks) =
      let (s', out) = push_lines s chunk in
      let (last, outs) = push_chunks s' chunks in (last, out ++ outs)

  process_lines-append :
      (core : C) (xs ys : List Bytes)
      → process_lines core (xs ++ ys) ≡ (
        (process_lines (process_lines core xs).0 ys).0,
        (process_lines core xs).1 ++ (process_lines (process_lines core xs).0 ys).1,
      )
  unfolding process_lines
  process_lines-append core [] ys = refl
  process_lines-append core (x ∷ xs) ys =
      let rest = process_lines-append (process_line core x).0 xs ys in
      ground (
        arith,
        rest,
        append_assoc (process_line core x).1 (process_lines (process_line core x).0 xs).1
            (process_lines (process_lines (process_line core x).0 xs).0 ys).1,
      )

  push_lines-append :
      (buffer : Bytes) (core : C) (xs ys : Bytes)
      → push_lines (buffer, core) (xs ++ ys) ≡ (
        (push_lines (push_lines (buffer, core) xs).0 ys).0,
        (push_lines (buffer, core) xs).1 ++ (push_lines (push_lines (buffer, core) xs).0 ys).1,
      )
  unfolding push_lines
  push_lines-append buffer core xs ys =
      let (lines, rest) = drain_lines (buffer ++ xs) in
      ground (
        arith,
        append_assoc buffer xs ys,
        drain_lines-append (buffer ++ xs) ys,
        process_lines-append core lines (drain_lines (rest ++ ys)).0,
      )

  -- A buffer that holds no finished line.
  abbrev pub IsPartial : Bytes → Type 0
  IsPartial buffer = drain_lines buffer ≡ ([], buffer)

  push_lines-IsPartial : (s : Bytes × C) (chunk : Bytes) → IsPartial (push_lines s chunk).0.0
  unfolding push_lines
  push_lines-IsPartial (buffer, core) chunk = drain_lines-rest (buffer ++ chunk)

  push_chunks_partial :
      (buffer : Bytes) (core : C) (chunks : List Bytes)
      → IsPartial buffer
      → push_chunks (buffer, core) chunks ≡ push_lines (buffer, core) (flatten chunks)
  unfolding push_chunks flatten
  push_chunks_partial buffer core [] h =
      unfold push_lines process_lines in ground (arith, append-nil buffer, h)
  push_chunks_partial buffer core (chunk ∷ chunks) h =
      let s' = (push_lines (buffer, core) chunk).0 in
      ground (
        arith,
        push_lines-append buffer core chunk (flatten chunks),
        push_chunks_partial s'.0 s'.1 chunks (push_lines-IsPartial (buffer, core) chunk),
      )

  -- For a decoder that starts with an empty line buffer, its state and its whole output depend on the
  -- bytes alone, and not on how they came in chunks.
  pub push_chunks-flatten :
      (core : C) (chunks : List Bytes)
      → push_chunks ([], core) chunks ≡ push_lines ([], core) (flatten chunks)
  push_chunks-flatten core chunks = push_chunks_partial [] core chunks drain_lines-nil
