-- ===== src/Rollout/Reading/Slices.antt =====
-- Which ranges of a conversation's lines can be read, src/store/rollout/read.rs.
use mathlib.Core.Path.{subst}
use prelay_server.Base.{
  if-cases, ℕ, ◌+◌, ◌-◌, ◌≤◌, ◌≡◌, refl, ap, ◌⊎◌, inl, inr, String, Option, none, some, List, [],
  ◌∷◌, ◌++◌, true, not, ◌&&◌, ◌||◌, if◌then◌else◌, ltb, ◌==◌, arith, length, take, drop,
}
use prelay_server.Result.{Result, ok, ◌>>=◌, after, ok_inj}
use prelay_server.Text.{Bytes}
use prelay_server.Rollout.{RolloutError}
use prelay_server.Rollout.Reading.{
  Decoding, ConversationEvent, RolloutSlice, text_lines, completed_contents, parse_event_line,
  select_lines, slice_of, read_slice,
}

-- The bytes of lines with their newlines.
abbrev pub bytes_of : List Bytes → Bytes
bytes_of [] = []
bytes_of (line ∷ lines) = line ++ b'\n' ∷ bytes_of lines

-- A range of a number of lines that names some of them, or none at a place between them.
abbrev pub IsRange : ℕ → ℕ → ℕ → Type 0
IsRange lines start_line end_line =
    ((start_line ≡ 0) × (end_line ≡ 0))
    ⊎ ((1 ≤ start_line) × (start_line ≤ end_line + 1) × (end_line ≤ lines))

abbrev pub selected : List Bytes → ℕ → ℕ → List Bytes
selected lines start_line end_line =
    if start_line == 0 then [] else take (end_line + 1 - start_line) (drop (start_line - 1) lines)

module _ {V B : Type 0} (decoding : Decoding V B) (sha256 : Bytes → Bytes) where
  -- The selected lines as a slice: their bytes, and no more events than lines.
  abbrev pub IsSliceOf : List Bytes → RolloutSlice V → Type 0
  IsSliceOf lines slice =
      (slice.byte_size ≡ length (bytes_of lines))
      × (slice.sha256 ≡ sha256 (bytes_of lines))
      × (slice.event_count ≡ length slice.events)
      × (slice.event_count ≤ length lines)

  abbrev Selects : List Bytes → Bytes × List (ConversationEvent V) → Type 0
  Selects lines (bytes, events) = (bytes ≡ bytes_of lines) × (length events ≤ length lines)

  Selects-line :
      (line : Bytes) (lines : List Bytes) (parsed : Option (ConversationEvent V)) (bytes : Bytes)
      (events : List (ConversationEvent V))
      → Selects lines (bytes, events)
      → Selects
          (line ∷ lines)
          (line ++ b'\n' ∷ bytes, elim parsed [ none ↦ events | some event ↦ event ∷ events ])
  Selects-line line lines none bytes events s = (ap (λ b. line ++ b'\n' ∷ b) s.0, omega arith)
  Selects-line line lines (some event) bytes events s =
      (ap (λ b. line ++ b'\n' ∷ b) s.0, omega arith)

  select_lines-Selects :
      (lines : List Bytes) (out : Bytes × List (ConversationEvent V))
      → select_lines decoding sha256 lines ≡ ok out
      → Selects lines out
  unfolding select_lines
  select_lines-Selects [] out h = subst (Selects []) (ok_inj h) (refl, omega arith)
  select_lines-Selects (line ∷ lines) out h =
      after (parse_event_line decoding sha256 line) _ h λ parsed _ h.
        after (select_lines decoding sha256 lines) _ h λ (bytes, events) e h.
          subst (Selects (line ∷ lines)) (ok_inj h) (
            Selects-line line lines parsed bytes events
              (select_lines-Selects lines (bytes, events) e))

  empty-IsSliceOf :
      (lines : List Bytes) (slice : RolloutSlice V)
      → lines ≡ []
      → ◌≡◌ {A = Result RolloutError (RolloutSlice V)}
          (ok (slice_of decoding sha256 [] []))
          (ok slice)
      → IsSliceOf lines slice
  empty-IsSliceOf lines slice e h =
      subst (IsSliceOf lines) (ok_inj h) (rw e (refl, refl, refl, omega arith))

  select_lines-IsSliceOf :
      (lines : List Bytes) (slice : RolloutSlice V)
      → (select_lines decoding sha256 lines >>= λ (bytes, events).
          ok (slice_of decoding sha256 bytes events))
        ≡ ok slice
      → IsSliceOf lines slice
  select_lines-IsSliceOf lines slice h =
      after (select_lines decoding sha256 lines) _ h λ (bytes, events) e h.
        let (same, le) = select_lines-Selects lines (bytes, events) e in
        subst (IsSliceOf lines) (ok_inj h)
          (ap (λ (b : Bytes). length b) same, ap sha256 same, refl, le)

  abbrev pub IsRead : Bytes → ℕ → ℕ → RolloutSlice V → Type 0
  IsRead contents start_line end_line slice =
      (completed_contents contents ≡ true)
      × IsRange (length (text_lines contents)) start_line end_line
      × IsSliceOf (selected (text_lines contents) start_line end_line) slice

  -- A slice that is read is of a file whose lines are complete, and of a range in it: `0..0`, or
  -- from a line to one not before its predecessor and not behind the last. It has the bytes of
  -- just the lines of the range, with their newlines, their digest, and no more events than lines.
  pub read_slice-IsRead :
      (path : String) (contents : Bytes) (start_line end_line : ℕ) (slice : RolloutSlice V)
      → read_slice decoding sha256 path contents start_line end_line ≡ ok slice
      → IsRead contents start_line end_line slice
  unfolding read_slice
  read_slice-IsRead path contents start_line end_line slice h =
      let lines = text_lines contents in
      elim (if-cases (not (completed_contents contents)) _ _ h) [
        | inl (_, h) ↦ absurd (ground arith)
        | inr (c, h) ↦ elim (if-cases (start_line == 0) _ _ h) [
          | inl (z, h) ↦ elim (if-cases (end_line == 0) _ _ h) [
            | inl (y, h) ↦ (
              ground arith,
              inl (ground arith, ground arith),
              empty-IsSliceOf (selected lines start_line end_line) slice (rw z refl) h,
            )
            | inr (_, h) ↦ absurd (ground arith)
          ]
          | inr (p, h) ↦ elim (if-cases (ltb end_line start_line) _ _ h) [
            | inl (lt, h) ↦
                elim (if-cases
                  (start_line == end_line + 1 && not (ltb (length lines + 1) start_line)) _ _ h) [
                    | inl (e, h) ↦ (
                      ground arith,
                      inr (ground arith, ground arith, ground arith),
                      empty-IsSliceOf (selected lines start_line end_line) slice
                          (let none_left : end_line + 1 - start_line ≡ 0 = ground arith in
                            rw p (rw none_left refl))
                          h,
                    )
                    | inr (_, h) ↦ absurd (ground arith)
                  ]
            | inr (le, h) ↦
                elim (if-cases (ltb (length lines) end_line || ltb (length lines + 1) start_line) _
                  _ h) [
                    | inl (_, h) ↦ absurd (ground arith)
                    | inr (w, h) ↦ (
                      ground arith,
                      inr (ground arith, ground arith, ground arith),
                      rw p (
                          select_lines-IsSliceOf
                            (take (end_line + 1 - start_line) (drop (start_line - 1) lines)) slice
                            h),
                    )
                  ]
          ]
        ]
      ]
