-- ===== src/Stream/Lines/Chunks.antt =====
-- That the lines of a stream do not depend on how its bytes come in chunks.
use Prim.Native.Nat.{ℕ, zero, suc, ◌≤◌, ◌<◌}
use mathlib.Core.List.{append-nil, append_assoc}
use prelay_server.Base.{
  ◌≡◌, refl, sym, ap, none, some, List, [], ◌∷◌, ◌++◌, if◌then◌else◌, ◌==◌, arith, length, ◌∙◌,
  Bool-cases, inl, inr, Option-cases,
}
use prelay_server.Text.{Bytes}
use prelay_server.Stream.Lines.{first_line, strip_cr, drain_loop, drain_lines}

-- The same, byte by byte: `line` is what came since the last newline.
unfoldable pub split_lines : Bytes → Bytes → List Bytes × Bytes
split_lines line [] = ([], line)
split_lines line (b ∷ bs) =
    let (lines, rest) = split_lines (if b == b'\n' then [] else line ++ b ∷ []) bs in
    (if b == b'\n' then strip_cr line ∷ lines else lines, rest)

pub first_line-some :
    (line buffer found rest : Bytes)
    → first_line buffer ≡ some (found, rest)
    → (split_lines line buffer
        ≡ (strip_cr (line ++ found) ∷ (split_lines [] rest).0, (split_lines [] rest).1))
      × (length rest < length buffer)
unfolding first_line split_lines
first_line-some line [] found rest e = cc
first_line-some line (b ∷ bs) found rest e = elim (Bool-cases (b == b'\n')) [
  | inl nl ↦ ground (arith, append-nil line)
  | inr other ↦ elim (Option-cases (first_line bs)) [
    | inl stop ↦ ground arith
    | inr ((tail, after), more) ↦
        let ih = first_line-some (line ++ b ∷ []) bs tail after more in
        ground (arith, ih, append_assoc line (b ∷ []) tail)
  ]
]

pub first_line-none :
    (line buffer : Bytes)
    → first_line buffer ≡ none
    → split_lines line buffer ≡ ([], line ++ buffer)
unfolding first_line split_lines
first_line-none line [] e = rw append-nil
first_line-none line (b ∷ bs) e = ground (
  arith,
  first_line-none (line ++ b ∷ []) bs,
  Option-cases (first_line bs),
  append_assoc line (b ∷ []) bs,
)

drain_loop-split :
    (fuel : ℕ) (lines : List Bytes) (buffer : Bytes)
    → length buffer ≤ fuel
    → drain_loop fuel lines buffer ≡ (lines ++ (split_lines [] buffer).0, (split_lines [] buffer).1)
unfolding drain_loop
drain_loop-split zero lines [] h = unfold split_lines in rw append-nil
drain_loop-split zero lines (b ∷ bs) h = absurd (omega arith)
drain_loop-split (suc fuel) lines buffer h = elim (Option-cases (first_line buffer)) [
  | inl stop ↦
      rw (stop, drain_loop, first_line-none [] buffer stop)
        (ap (λ l. (l, buffer)) (sym (append-nil lines)))
  | inr ((line, rest), more) ↦
      let (split, shorter) = first_line-some [] buffer line rest more in
      rw (more, drain_loop, split)
        (drain_loop-split fuel (lines ++ strip_cr line ∷ []) rest (omega arith)
          ∙ ap (λ l. (l, (split_lines [] rest).1))
              (append_assoc lines (strip_cr line ∷ []) (split_lines [] rest).0))
]

pub split-append :
    (line xs ys : Bytes)
    → split_lines line (xs ++ ys) ≡ (
      (split_lines line xs).0 ++ (split_lines (split_lines line xs).1 ys).0,
      (split_lines (split_lines line xs).1 ys).1,
    )
unfolding split_lines
split-append line [] ys = refl
split-append line (b ∷ xs) ys =
    ground (arith, split-append [] xs ys, split-append (line ++ b ∷ []) xs ys)

-- Searching the buffer again and again for a newline gives the lines of the byte by byte reading: each
-- ends before its newline and loses one carriage return at its end, and what follows the last
-- newline is kept.
pub drain_lines-split : (buffer : Bytes) → drain_lines buffer ≡ split_lines [] buffer
unfolding drain_lines
drain_lines-split buffer = drain_loop-split (length buffer) [] buffer (omega arith)

-- What is left after the last newline has no line in it.
split-rest :
    (line xs : Bytes)
    → split_lines [] line ≡ ([], line)
    → split_lines [] (split_lines line xs).1 ≡ ([], (split_lines line xs).1)
unfolding split_lines
split-rest line [] h = h
split-rest line (b ∷ xs) h = elim (Bool-cases (b == b'\n')) [
  | inl nl ↦ rw nl (split-rest [] xs refl)
  | inr other ↦
      rw other (split-rest (line ++ b ∷ []) xs (ground (arith, split-append [] line (b ∷ []), h)))
]

pub drain_lines-append :
    (xs ys : Bytes)
    → drain_lines (xs ++ ys) ≡ (
      (drain_lines xs).0 ++ (drain_lines ((drain_lines xs).1 ++ ys)).0,
      (drain_lines ((drain_lines xs).1 ++ ys)).1,
    )
unfolding split_lines
drain_lines-append xs ys =
    let rest = (split_lines [] xs).1 in
    rw (drain_lines-split (xs ++ ys), drain_lines-split xs, drain_lines-split (rest ++ ys))
      (ground (arith, split-append [] xs ys, split-append [] rest ys, split-rest [] xs refl))

-- What the buffer keeps holds no finished line.
pub drain_lines-rest : (xs : Bytes) → drain_lines (drain_lines xs).1 ≡ ([], (drain_lines xs).1)
drain_lines-rest xs =
    rw (drain_lines-split xs, drain_lines-split (split_lines [] xs).1)
      (split-rest [] xs (unfold split_lines in refl))

pub drain_lines-nil : drain_lines [] ≡ ([], [])
unfolding drain_lines
drain_lines-nil = refl
