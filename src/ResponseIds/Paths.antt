-- ===== src/ResponseIds/Paths.antt =====
-- Paths of keys into a value, and a change of fields at one key as a path shows it, for
-- src/inbound/v1/responses/stream_rewrite.rs.
use prelay_server.Base.{
  ◌≡◌, refl, sym, ap, ◌∙◌, Option, none, some, List, [], ◌∷◌, Bool, true, false, ◌&&◌, ◌||◌,
  if◌then◌else◌, Bool-cases, inl, inr, arith, and_then,
}
use prelay_server.Text.{Bytes, text_eq, codes}
use prelay_server.Values.{
  Value, null, bool, number, string, array, object, Fields, empty_object, field, get_field, get,
}
use prelay_server.ResponseIds.{set_field, is_string}
use prelay_server.Text.Equality.{text_eq_sound, text_eq_sym}

pub get_field-set_field_other :
    (key : Bytes) (value : Value) (other : Bytes) (fields : Fields)
    → text_eq key other ≡ false
    → get_field other (set_field key value fields) ≡ get_field other fields
unfolding get_field set_field
get_field-set_field_other key value other empty_object h = refl
get_field-set_field_other key value other (field k old fields) h =
    elim (Bool-cases (text_eq k key)) [
      | inl here ↦ rw (here, text_eq_sound k key here, h) refl
      | inr there ↦ rw (there, get_field-set_field_other key value other fields h) refl
    ]

pub get_field-set_field_same :
    (key : Bytes) (value old : Value) (fields : Fields)
    → get_field key fields ≡ some old
    → get_field key (set_field key value fields) ≡ some value
unfolding get_field set_field
get_field-set_field_same key value old empty_object h = absurd (ground arith)
get_field-set_field_same key value old (field k first fields) h =
    elim (Bool-cases (text_eq k key)) [
      | inl here ↦ rw (here, here) refl
      | inr there ↦
          rw (there, there) (get_field-set_field_same key value old fields (rw there at h))
    ]

-- `Value::get` along a path of keys.
unfoldable pub get_path : List Bytes → Value → Option Value
get_path [] value = some value
get_path (key ∷ path) value = and_then (get key value) (get_path path)

abbrev pub is_at : Bytes → List Bytes → Bool
is_at key (k ∷ []) = text_eq k key
is_at key _ = false

abbrev pub in_response : List Bytes → Bool
in_response (key ∷ path) = text_eq key (codes "response") && is_at (codes "id") path
in_response [] = false

-- The paths to the whole value, and to the whole of its response.
abbrev pub is_whole : List Bytes → Bool
is_whole [] = true
is_whole path = is_at (codes "response") path

-- The two places that hold the id of the response.
abbrev pub is_response_id : List Bytes → Bool
is_response_id path = is_at (codes "response_id") path || in_response path

is_string-some : (o : Option Value) → is_string o ≡ true → (s : Bytes) × (o ≡ some (string s))
is_string-some (some (string s)) h = (s, refl)
is_string-some none h = absurd (ground arith)
is_string-some (some null) h = absurd (ground arith)
is_string-some (some (bool b)) h = absurd (ground arith)
is_string-some (some (number n)) h = absurd (ground arith)
is_string-some (some (array items)) h = absurd (ground arith)
is_string-some (some (object fields)) h = absurd (ground arith)

and_then-some : (o : Option Value) → and_then o some ≡ o
and_then-some none = refl
and_then-some (some value) = refl

-- What a change of the fields at one key shows along a path.
abbrev pub changed : Bytes → Bytes → List Bytes → Option Value → Option Value
changed key local_id path before =
    if is_at key path && is_string before then some (string local_id) else before

-- There is nothing below a string, be it this or that one.
and_then_below :
    (test : Bool) (local_id : Bytes) (o : Option Value) (n : Bytes) (path : List Bytes)
    → and_then (if test && is_string o then some (string local_id) else o) (get_path (n ∷ path))
      ≡ and_then o (get_path (n ∷ path))
unfolding get_path
and_then_below false local_id o n path = refl
and_then_below true local_id none n path = refl
and_then_below true local_id (some null) n path = refl
and_then_below true local_id (some (bool b)) n path = refl
and_then_below true local_id (some (number m)) n path = refl
and_then_below true local_id (some (string s)) n path = refl
and_then_below true local_id (some (array items)) n path = refl
and_then_below true local_id (some (object fields)) n path = refl

module _ (key local_id : Bytes) where
  abbrev pub renamed : Fields → Fields
  renamed fields =
      if is_string (get_field key fields) then set_field key (string local_id) fields else fields

  get_field-renamed :
      (m : Bytes) (fields : Fields)
      → get_field m (renamed fields) ≡ (
          if text_eq m key && is_string (get_field m fields)
          then some (string local_id)
          else get_field m fields)
  get_field-renamed m fields = elim (Bool-cases (is_string (get_field key fields))) [
    | inl is ↦ elim (Bool-cases (text_eq m key)) [
      | inl same ↦
          let (s, e) = is_string-some (get_field key fields) is in
          rw (same, text_eq_sound m key same, is)
            (get_field-set_field_same key (string local_id) (string s) fields e)
      | inr other ↦
          rw (is, other)
            (get_field-set_field_other key (string local_id) m fields (text_eq_sym key m ∙ other))
    ]
    | inr is_not ↦ elim (Bool-cases (text_eq m key)) [
      | inl same ↦ rw (same, text_eq_sound m key same, is_not) refl
      | inr other ↦ rw (is_not, other) refl
    ]
  ]

  pub get_path-renamed :
      (m : Bytes) (path : List Bytes) (fields : Fields)
      → get_path (m ∷ path) (object (renamed fields))
        ≡ changed key local_id (m ∷ path) (get_path (m ∷ path) (object fields))
  unfolding get_path
  get_path-renamed m [] fields =
      and_then-some (get_field m (renamed fields))
      ∙ get_field-renamed m fields
      ∙ ap (changed key local_id (m ∷ [])) (sym (and_then-some (get_field m fields)))
  get_path-renamed m (n ∷ path) fields =
      ap (λ (o : Option Value). and_then o (get_path (n ∷ path))) (get_field-renamed m fields)
      ∙ and_then_below (text_eq m key) local_id (get_field m fields) n path

pub not_a_string :
    (test : Bool) (local_id : Bytes) (o : Option Value)
    → is_string o ≡ false
    → (if test && is_string o then some (string local_id) else o) ≡ o
not_a_string false local_id o h = refl
not_a_string true local_id o h = rw h refl
