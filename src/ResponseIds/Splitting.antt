-- ===== src/ResponseIds/Splitting.antt =====
-- The events of a stream, byte by byte, src/inbound/v1/responses/stream_rewrite.rs.
use mathlib.Core.List.{append-nil, append_assoc}
use prelay_server.Base.{
  ℕ, suc, ◌+◌, ◌≤◌, ◌≡◌, refl, sym, ap, ◌∙◌, none, some, List, [], ◌∷◌, ◌++◌, ◌&&◌, if◌then◌else◌,
  ◌==◌, is_empty, length, take, drop, arith, Bool-cases, inl, inr,
}
use prelay_server.Text.{Bytes}
use prelay_server.Stream.Lines.{strip_cr}
use prelay_server.ResponseIds.{event_end_from}

-- What has been read of an event, and of its last line.
pub record Partial : Type 0 where
  pub event : Bytes
  pub line : Bytes

abbrev pub nothing_read : Partial
nothing_read = record { event = []; line = [] }

-- The events that end, each with the blank line that ends it, and what is read of the next one.
unfoldable pub split : Partial → Bytes → List Bytes × Partial
split p [] = ([], p)
split p (b ∷ bs) =
    let event = p.event ++ b ∷ [] in
    let ends = b == b'\n' && is_empty (strip_cr p.line) in
    let line = (if b == b'\n' then [] else p.line ++ b ∷ []) in
    let (events, last) =
      split (if ends then nothing_read else record { event = event; line = line }) bs in
    (if ends then event ∷ events else events, last)

pub event_end_from-none :
    (p : Partial) (i : ℕ) (bytes : Bytes)
    → event_end_from p.line i bytes ≡ none
    → ((split p bytes).0 ≡ []) × ((split p bytes).1.event ≡ p.event ++ bytes)
unfolding split event_end_from
event_end_from-none p i [] h = (refl, sym (append-nil p.event))
event_end_from-none p i (b ∷ bs) h = elim (Bool-cases (b == b'\n')) [
  | inl newline ↦ elim (Bool-cases (is_empty (strip_cr p.line))) [
    | inl blank ↦ absurd (ground arith)
    | inr more ↦
        let ih =
          event_end_from-none (record { event = p.event ++ b ∷ []; line = [] }) (i + 1) bs
            (ground (arith, h, newline, more)) in
        rw (newline, more) (ih.0, ih.1 ∙ append_assoc p.event (b ∷ []) bs)
  ]
  | inr other ↦
      let ih =
        event_end_from-none (record { event = p.event ++ b ∷ []; line = p.line ++ b ∷ [] }) (i + 1)
          bs (ground (arith, h, other)) in
      rw other (ih.0, ih.1 ∙ append_assoc p.event (b ∷ []) bs)
]

pub event_end_from-some :
    (p : Partial) (i : ℕ) (bytes : Bytes) (n : ℕ)
    → event_end_from p.line i bytes ≡ some n
    → (k : ℕ) × (n ≡ i + suc k)
      × (suc k ≤ length bytes)
      × ((split p bytes).0
          ≡ (p.event ++ take (suc k) bytes) ∷ (split nothing_read (drop (suc k) bytes)).0)
      × ((split p bytes).1 ≡ (split nothing_read (drop (suc k) bytes)).1)
unfolding split event_end_from
event_end_from-some p i [] n h = absurd (ground arith)
event_end_from-some p i (b ∷ bs) n h = elim (Bool-cases (b == b'\n')) [
  | inl newline ↦ elim (Bool-cases (is_empty (strip_cr p.line))) [
    | inl blank ↦ (
      0,
      ground (arith, h, newline, blank),
      omega arith,
      rw (newline, blank) refl,
      rw (newline, blank) refl,
    )
    | inr more ↦
        let (k, e, le, events, last) =
          event_end_from-some (record { event = p.event ++ b ∷ []; line = [] }) (i + 1) bs n
            (ground (arith, h, newline, more)) in
        (
          suc k,
          omega (arith, e),
          omega (arith, le),
          rw (newline, more)
              (events
                ∙ ap (λ (a : Bytes). a ∷ (split nothing_read (drop (suc k) bs)).0)
                    (append_assoc p.event (b ∷ []) (take (suc k) bs))),
          rw (newline, more) last,
        )
  ]
  | inr other ↦
      let (k, e, le, events, last) =
        event_end_from-some (record { event = p.event ++ b ∷ []; line = p.line ++ b ∷ [] }) (i + 1)
          bs n (ground (arith, h, other)) in
      (
        suc k,
        omega (arith, e),
        omega (arith, le),
        rw other (
            events
            ∙ ap (λ (a : Bytes). a ∷ (split nothing_read (drop (suc k) bs)).0)
                (append_assoc p.event (b ∷ []) (take (suc k) bs))),
        rw other last,
      )
]
