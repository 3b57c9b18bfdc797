-- ===== src/Rollout/References.antt =====
-- What a rollout's writer counts and refers to, src/store/rollout/writer.rs.
use prelay_server.Base.{
  ℕ, zero, suc, ◌+◌, ◌≤◌, ◌≡◌, String, str_eq, Option, none, some, List, [], ◌∷◌, ◌++◌, true, false,
  arith, length, All, if◌then◌else◌, All-append,
}
use prelay_server.Base.Assoc.{get}
use prelay_server.Text.{Bytes, text_eq}
use prelay_server.Rollout.{RolloutWriter, push_ref, refs_of, get_ref, or_else}

abbrev pub Within : ℕ → List ℕ → Type 0
Within n = All (λ m. m ≤ n)

abbrev pub ItemsWithin : ℕ → List (String × ℕ) → Type 0
ItemsWithin n = All (λ (k, m). m ≤ n)

abbrev pub EventsWithin : ℕ → List (Bytes × List ℕ) → Type 0
EventsWithin n = All (λ (k, refs). Within n refs)

-- A writer that began before event `first + 1`, behind `metas` lines of its own that are no events:
-- its lines are those and its events; the last line and the bytes are counted; and no reference is
-- to an event that has no number yet.
pub record IsCounted {F : Type 0} (metas first : ℕ) (w : RolloutWriter F) : Type 0 where
  pub lines : w.line_count + 1 ≡ w.start_line + (metas + w.event_count)
  pub last : w.end_line ≡ w.line_count
  pub bytes : w.byte_size ≡ length w.hasher
  pub events : first + w.event_count ≤ w.seq
  pub items : ItemsWithin w.seq w.item_refs
  pub refs : EventsWithin w.seq w.event_refs

pub Within-suc : (n : ℕ) (ms : List ℕ) → Within n ms → Within (n + 1) ms
Within-suc n [] h = tt
Within-suc n (m ∷ ms) h = (omega arith, Within-suc n ms h.1)

pub ItemsWithin-suc :
    (n : ℕ) (items : List (String × ℕ)) → ItemsWithin n items → ItemsWithin (n + 1) items
ItemsWithin-suc n [] h = tt
ItemsWithin-suc n ((k, m) ∷ items) h = (omega (arith, h.0), ItemsWithin-suc n items h.1)

pub EventsWithin-suc :
    (n : ℕ) (table : List (Bytes × List ℕ)) → EventsWithin n table → EventsWithin (n + 1) table
EventsWithin-suc n [] h = tt
EventsWithin-suc n ((k, refs) ∷ table) h = (Within-suc n refs h.0, EventsWithin-suc n table h.1)

pub EventsWithin-push_ref :
    (n m : ℕ) (identity : Bytes) (table : List (Bytes × List ℕ))
    → m ≤ n
    → EventsWithin n table
    → EventsWithin n (push_ref identity m table)
unfolding push_ref
EventsWithin-push_ref n m identity [] le h = ((le, tt), tt)
EventsWithin-push_ref n m identity ((k, refs) ∷ table) le h =
    elim (text_eq k identity)
      as (λ same.
        EventsWithin n
          (if same then (k, refs ++ m ∷ []) ∷ table else (k, refs) ∷ push_ref identity m table)) [
            | true ↦ (All-append (λ r. r ≤ n) refs (m ∷ []) h.0 (le, tt), h.1)
            | false ↦ (h.0, EventsWithin-push_ref n m identity table le h.1)
          ]

pub refs_of-Within :
    (n : ℕ) (identity : Bytes) (table : List (Bytes × List ℕ))
    → EventsWithin n table
    → Within n (refs_of identity table)
unfolding refs_of
refs_of-Within n identity [] h = tt
refs_of-Within n identity ((k, refs) ∷ table) h =
    elim (text_eq k identity)
      as (λ same. Within n (if same then refs else refs_of identity table)) [
        | true ↦ h.0
        | false ↦ refs_of-Within n identity table h.1
      ]

-- A reference that is found is to an event with a number.
abbrev pub Found : ℕ → Option ℕ → Type 0
Found n none = Unit
Found n (some m) = m ≤ n

pub get_ref-Found : (n i : ℕ) (refs : List ℕ) → Within n refs → Found n (get_ref i refs)
unfolding get_ref
get_ref-Found n i [] h = tt
get_ref-Found n zero (r ∷ refs) h = h.0
get_ref-Found n (suc i) (r ∷ refs) h = get_ref-Found n i refs h.1

pub first-Found :
    (n : ℕ) (o later : Option ℕ) → Found n o → Found n later → Found n (or_else o later)
first-Found n none later h k = k
first-Found n (some m) later h k = h

pub get-Found :
    (n : ℕ) (k : String) (items : List (String × ℕ)) → ItemsWithin n items → Found n (get k items)
unfolding get
get-Found n k [] h = tt
get-Found n k ((j, m) ∷ items) h =
    elim (str_eq j k) as (λ same. Found n (if same then some m else get k items)) [
      | true ↦ h.0
      | false ↦ get-Found n k items h.1
    ]
