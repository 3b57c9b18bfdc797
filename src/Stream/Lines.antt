-- ===== src/Stream/Lines.antt =====
-- Lines of an event stream, src/codec/bridge/stream/sse.rs.
pub mod Chunks
use Prim.Native.Nat.{ℕ, zero, suc, ◌+◌, ◌≤◌, ◌<◌}
use prelay_server.Base.{
  ◌≡◌, refl, sym, ap, Option, none, some, List, [], ◌∷◌, ◌++◌, Bool, true, false, if◌then◌else◌,
  ◌==◌, arith, length, map, ◌∙◌, length-append,
}
use prelay_server.Text.{Bytes}

-- The bytes before the first newline, and those behind it.
unfoldable pub first_line : Bytes → Option (Bytes × Bytes)
first_line [] = none
first_line (b ∷ bs) =
    let found = first_line bs in
    if b == b'\n'
    then some ([], bs)
    else elim found [ none ↦ none | some (line, rest) ↦ some (b ∷ line, rest) ]

-- `pop` of a last carriage return.
unfoldable pub strip_cr : Bytes → Bytes
strip_cr [] = []
strip_cr (b ∷ []) = if b == b'\r' then [] else b ∷ []
strip_cr (b ∷ c ∷ bs) = b ∷ strip_cr (c ∷ bs)

-- The `while let` loop, with as many rounds as there are bytes at most.
pub drain_loop : ℕ → List Bytes → Bytes → List Bytes × Bytes
drain_loop zero lines buffer = (lines, buffer)
drain_loop (suc fuel) lines buffer = elim (first_line buffer) [
  | none ↦ (lines, buffer)
  | some (line, rest) ↦ drain_loop fuel (lines ++ strip_cr line ∷ []) rest
]

-- The complete lines and what the buffer keeps.
unfoldable pub drain_lines : Bytes → List Bytes × Bytes
unfolding drain_loop first_line strip_cr
drain_lines buffer = drain_loop (length buffer) [] buffer
