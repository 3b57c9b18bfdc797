-- ===== src/ResponseIds/Ids.antt =====
-- What the rewriting of a value changes, `rewrite_value` of
-- src/inbound/v1/responses/stream_rewrite.rs.
use mathlib.Core.Path.{subst}
use prelay_server.Base.{
  ◌≡◌, refl, sym, ap, ◌∙◌, Option, none, some, List, [], ◌∷◌, Bool, true, false, ◌&&◌, ◌||◌, ◌⊎◌,
  if◌then◌else◌, Bool-cases, inl, inr, arith, and_then,
}
use prelay_server.Text.{Bytes, text_eq, codes}
use prelay_server.Values.{Value, null, bool, number, string, array, object, Fields, get_field}
use prelay_server.ResponseIds.{
  set_field, is_string, with_id, with_response, with_response_id, rewrite_value,
}
use prelay_server.ResponseIds.Paths.{
  get_field-set_field_other, get_field-set_field_same, get_path, in_response, is_whole,
  is_response_id, changed, not_a_string, get_path-renamed,
}
use prelay_server.Text.Equality.{text_eq_sound, text_eq_sym}

no_object : Option Value → Bool
no_object (some (object fields)) = false
no_object _ = true

below_no_object :
    (o : Option Value) (n : Bytes) (path : List Bytes)
    → no_object o ≡ true
    → and_then o (get_path (n ∷ path)) ≡ none
unfolding no_object get_path
below_no_object none n path h = refl
below_no_object (some null) n path h = refl
below_no_object (some (bool b)) n path h = refl
below_no_object (some (number m)) n path h = refl
below_no_object (some (string s)) n path h = refl
below_no_object (some (array items)) n path h = refl
below_no_object (some (object fields)) n path h = absurd (ground arith)

module _ (local_id m n : Bytes) (path : List Bytes) (fields : Fields) where
  -- What a change of the response's id alone shows along a path into the response.
  abbrev ResponseChanged : Fields → Type 0
  ResponseChanged after = get_path (m ∷ n ∷ path) (object after) ≡ (
      if in_response (m ∷ n ∷ path) && is_string (get_path (m ∷ n ∷ path) (object fields))
      then some (string local_id)
      else get_path (m ∷ n ∷ path) (object fields))

  fields-ResponseChanged :
      no_object (get_field (codes "response") fields) ≡ true → ResponseChanged fields
  unfolding get_path
  fields-ResponseChanged h = elim (Bool-cases (text_eq m (codes "response"))) [
    | inl same ↦
        let nothing = below_no_object (get_field (codes "response") fields) n path h in
        rw (text_eq_sound m (codes "response") same, nothing)
          (sym (not_a_string (in_response (codes "response" ∷ n ∷ path)) local_id none refl))
    | inr other ↦ rw other refl
  ]

  set_field-ResponseChanged :
      (response : Fields)
      → get_field (codes "response") fields ≡ some (object response)
      → ResponseChanged (set_field (codes "response") (object (with_id local_id response)) fields)
  unfolding get_path with_id
  set_field-ResponseChanged response e = elim (Bool-cases (text_eq m (codes "response"))) [
    | inl same ↦
        let inside = get_path-renamed (codes "id") local_id n path response in
        let found =
          get_field-set_field_same (codes "response") (object (with_id local_id response))
            (object response) fields e in
        rw (same, text_eq_sound m (codes "response") same, e, found) inside
    | inr other ↦
        let kept =
          get_field-set_field_other (codes "response") (object (with_id local_id response)) m fields
            (text_eq_sym (codes "response") m ∙ other) in
        rw (other, kept) refl
  ]

with_response-cases :
    (local_id : Bytes) (o : Option Value) (fields : Fields)
    → ((response : Fields) × (o ≡ some (object response)))
      ⊎ ((no_object o ≡ true) × (with_response local_id o fields ≡ fields))
unfolding no_object
with_response-cases local_id none fields = inr (refl, refl)
with_response-cases local_id (some null) fields = inr (refl, refl)
with_response-cases local_id (some (bool b)) fields = inr (refl, refl)
with_response-cases local_id (some (number n)) fields = inr (refl, refl)
with_response-cases local_id (some (string s)) fields = inr (refl, refl)
with_response-cases local_id (some (array items)) fields = inr (refl, refl)
with_response-cases local_id (some (object response)) fields = inl (response, refl)

abbrev responded : Bytes → Fields → Fields
responded local_id fields = with_response local_id (get_field (codes "response") fields) fields

responded_below :
    (local_id m n : Bytes) (path : List Bytes) (fields : Fields)
    → ResponseChanged local_id m n path fields (responded local_id fields)
responded_below local_id m n path fields =
    elim (with_response-cases local_id (get_field (codes "response") fields) fields) [
      | inl (response, e) ↦ rw e (set_field-ResponseChanged local_id m n path fields response e)
      | inr (none_there, same) ↦
          subst (ResponseChanged local_id m n path fields) (sym same)
            (fields-ResponseChanged local_id m n path fields none_there)
    ]

responded_other :
    (local_id m : Bytes) (fields : Fields)
    → text_eq m (codes "response") ≡ false
    → get_field m (responded local_id fields) ≡ get_field m fields
responded_other local_id m fields h =
    elim (with_response-cases local_id (get_field (codes "response") fields) fields) [
      | inl (response, e) ↦ rw e (
          get_field-set_field_other (codes "response") (object (with_id local_id response)) m fields
            (text_eq_sym (codes "response") m ∙ h))
      | inr (none_there, same) ↦ ap (get_field m) same
    ]

either_id :
    (first second : Bool) (local_id : Bytes) (before : Option Value)
    → (let between = (if second && is_string before then some (string local_id) else before) in
        if first && is_string between then some (string local_id) else between)
      ≡ (if (first || second) && is_string before then some (string local_id) else before)
either_id false second local_id before = refl
either_id true false local_id before = refl
either_id true true local_id before = elim (Bool-cases (is_string before)) [
  | inl is ↦ rw is refl
  | inr is_not ↦ rw (is_not, is_not) refl
]

abbrev pub IdsChanged : Bytes → List Bytes → Option Value → Option Value → Type 0
IdsChanged local_id path before after =
    after ≡ (if is_response_id path && is_string before then some (string local_id) else before)

object-IdsChanged :
    (local_id m : Bytes) (path : List Bytes) (fields : Fields)
    → is_whole (m ∷ path) ≡ false
    → IdsChanged local_id
        (m ∷ path)
        (get_path (m ∷ path) (object fields))
        (get_path (m ∷ path) (object (with_response_id local_id (responded local_id fields))))
unfolding get_path with_response_id
object-IdsChanged local_id m [] fields h =
    get_path-renamed (codes "response_id") local_id m [] (responded local_id fields)
    ∙ ap (λ (o : Option Value). changed (codes "response_id") local_id (m ∷ []) (and_then o some))
        (responded_other local_id m fields h)
    ∙ rw h (
        either_id (text_eq m (codes "response_id")) false local_id
          (and_then (get_field m fields) some))
object-IdsChanged local_id m (n ∷ path) fields h =
    get_path-renamed (codes "response_id") local_id m (n ∷ path) (responded local_id fields)
    ∙ ap (changed (codes "response_id") local_id (m ∷ n ∷ path))
        (responded_below local_id m n path fields)
    ∙ either_id false (in_response (m ∷ n ∷ path)) local_id
        (get_path (m ∷ n ∷ path) (object fields))

-- Along a path of keys that leads into a value, but not just to its `response`, the rewritten value
-- has the local id where the path is `response_id` or `response.id` and leads to a string, and else
-- what the value had there.
pub rewrite_value-IdsChanged :
    (local_id : Bytes) (path : List Bytes) (value : Value)
    → is_whole path ≡ false
    → IdsChanged local_id path (get_path path value) (get_path path (rewrite_value local_id value))
unfolding rewrite_value get_path
rewrite_value-IdsChanged local_id [] value h = absurd (ground arith)
rewrite_value-IdsChanged local_id (m ∷ path) (object fields) h =
    object-IdsChanged local_id m path fields h
rewrite_value-IdsChanged local_id (m ∷ path) null h =
    sym (not_a_string (is_response_id (m ∷ path)) local_id none refl)
rewrite_value-IdsChanged local_id (m ∷ path) (bool b) h =
    sym (not_a_string (is_response_id (m ∷ path)) local_id none refl)
rewrite_value-IdsChanged local_id (m ∷ path) (number n) h =
    sym (not_a_string (is_response_id (m ∷ path)) local_id none refl)
rewrite_value-IdsChanged local_id (m ∷ path) (string s) h =
    sym (not_a_string (is_response_id (m ∷ path)) local_id none refl)
rewrite_value-IdsChanged local_id (m ∷ path) (array items) h =
    sym (not_a_string (is_response_id (m ∷ path)) local_id none refl)
