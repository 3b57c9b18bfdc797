-- ===== src/ResponseIds.antt =====
-- The rewriting of response ids in an event stream, src/inbound/v1/responses/stream_rewrite.rs. Reading
-- and printing JSON values are arguments.
pub mod Splitting
pub mod Passing
pub mod Streams
pub mod Paths
pub mod Ids
use prelay_server.Base.{
  ℕ, zero, suc, ◌+◌, Option, none, some, List, [], ◌∷◌, ◌++◌, Bool, true, false, not, ◌||◌, ◌&&◌,
  if◌then◌else◌, ◌==◌, is_empty, length, take, drop, and_then, unwrap_or,
}
use prelay_server.Text.{Bytes, Text, codes, from_utf8, strip_prefix, join_lines, text_eq}
use prelay_server.Values.{
  Value, null, bool, number, string, array, object, Items, empty_array, item, Fields, empty_object,
  field, get_field, get,
}
use prelay_server.Stream.Lines.{strip_cr}
use prelay_server.Stream.Pipeline.{Received, StreamState}

-- The place behind the first blank line, from a line that has begun and a place.
pub event_end_from : Bytes → ℕ → Bytes → Option ℕ
event_end_from line i [] = none
event_end_from line i (b ∷ bs) = elim (b == b'\n') [
  | true ↦ elim (is_empty (strip_cr line)) [
    | true ↦ some (i + 1)
    | false ↦ event_end_from [] (i + 1) bs
  ]
  | false ↦ event_end_from (line ++ b ∷ []) (i + 1) bs
]

unfoldable pub event_end : Bytes → Option ℕ
unfolding event_end_from strip_cr
event_end buffer = event_end_from [] 0 buffer

-- Lines with their newlines.
lines_from : Bytes → Bytes → List Bytes
lines_from line [] = if is_empty line then [] else line ∷ []
lines_from line (b ∷ bs) =
    let next = lines_from (if b == b'\n' then [] else line ++ b ∷ []) bs in
    if b == b'\n' then (line ++ b ∷ []) ∷ next else next

unfoldable pub split_lines : Bytes → List Bytes
unfolding lines_from
split_lines event = lines_from [] event

strip_newline : Bytes → Bytes
strip_newline [] = []
strip_newline (b ∷ []) = if b == b'\n' then [] else b ∷ []
strip_newline (b ∷ c ∷ bs) = b ∷ strip_newline (c ∷ bs)

unfoldable pub data_payload : Bytes → Option Text
unfolding strip_newline
data_payload line = and_then (from_utf8 (strip_cr (strip_newline line))) (λ text.
    and_then (strip_prefix (codes "data:") text)
      (λ payload. some (unwrap_or (strip_prefix (codes " ") payload) payload)))

ends_with : Bytes → Bytes → Bool
ends_with suffix [] = text_eq suffix []
ends_with suffix (b ∷ bs) = text_eq suffix (b ∷ bs) || ends_with suffix bs

unfoldable pub line_ending : Bytes → Bytes
unfolding ends_with
line_ending line =
    if ends_with (codes "\r\n") line
    then codes "\r\n"
    else if ends_with (codes "\n") line
    then codes "\n"
    else []

-- `Map::insert` at a key that is there.
unfoldable pub set_field : Bytes → Value → Fields → Fields
set_field k value empty_object = empty_object
set_field k value (field j old fields) =
    let later = set_field k value fields in
    if text_eq j k then field j value fields else field j old later

abbrev pub is_string : Option Value → Bool
is_string (some (string s)) = true
is_string _ = false

unfoldable pub with_id : Bytes → Fields → Fields
with_id local_id response =
    if is_string (get_field (codes "id") response)
    then set_field (codes "id") (string local_id) response
    else response

abbrev pub with_response : Bytes → Option Value → Fields → Fields
with_response local_id (some (object response)) fields =
    set_field (codes "response") (object (with_id local_id response)) fields
with_response local_id _ fields = fields

unfoldable pub with_response_id : Bytes → Fields → Fields
with_response_id local_id fields =
    if is_string (get_field (codes "response_id") fields)
    then set_field (codes "response_id") (string local_id) fields
    else fields

unfoldable pub rewrite_value : Bytes → Value → Value
unfolding with_response_id with_id
rewrite_value local_id (object fields) = object (
    with_response_id local_id (with_response local_id (get_field (codes "response") fields) fields))
rewrite_value local_id value = value

unfoldable mutual
  pub value_eq : Value → Value → Bool
  value_eq null null = true
  value_eq (bool true) (bool true) = true
  value_eq (bool false) (bool false) = true
  value_eq (number n) (number m) = text_eq n m
  value_eq (string s) (string t) = text_eq s t
  value_eq (array xs) (array ys) = items_eq xs ys
  value_eq (object fs) (object gs) = fields_eq fs gs
  value_eq _ _ = false

  pub items_eq : Items → Items → Bool
  items_eq empty_array empty_array = true
  items_eq (item x xs) (item y ys) = value_eq x y && items_eq xs ys
  items_eq _ _ = false

  pub fields_eq : Fields → Fields → Bool
  fields_eq empty_object empty_object = true
  fields_eq (field k v fs) (field j w gs) = text_eq k j && (value_eq v w && fields_eq fs gs)
  fields_eq _ _ = false

pub record ResponseIdRewriter : Type 0 where
  pub event_buffer : Bytes
  pub local_id : Bytes

unfoldable pub new : Bytes → ResponseIdRewriter
new local_id = record { event_buffer = []; local_id = local_id }

module _ (from_str : Text → Option Value) (to_string : Value → Bytes) where
  payloads : List Bytes → List Text
  payloads [] = []
  payloads (line ∷ lines) = elim (data_payload line) [
    | none ↦ payloads lines
    | some payload ↦ payload ∷ payloads lines
  ]

  -- The lines of an event with the value in place of its first data line, and no other.
  rebuilt : Bytes → Bool → List Bytes → Bytes
  rebuilt serialized written [] = []
  rebuilt serialized written (line ∷ lines) = elim (data_payload line) [
    | none ↦ line ++ rebuilt serialized written lines
    | some payload ↦
        let rest = rebuilt serialized true lines in
        if written then rest else codes "data: " ++ serialized ++ line_ending line ++ rest
  ]

  abbrev if_changed : Bytes → Bytes → List Bytes → Option Value → Bytes
  if_changed local_id event lines none = event
  if_changed local_id event lines (some original) =
      let value = rewrite_value local_id original in
      if value_eq value original then event else rebuilt (to_string value) false lines

  unfoldable pub rewrite_event : Bytes → Bytes → Bytes
  unfolding payloads rebuilt
  rewrite_event local_id event =
      let lines = split_lines event in
      let data_lines = payloads lines in
      if is_empty data_lines
      then event
      else if_changed local_id event lines (from_str (join_lines data_lines))

  -- The `while let` loop of `push_chunk`, with as many rounds as there are bytes at most.
  pub push_loop : ℕ → Bytes → List Bytes → Bytes → List Bytes × Bytes
  push_loop zero local_id output buffer = (output, buffer)
  push_loop (suc fuel) local_id output buffer = elim (event_end buffer) [
    | none ↦ (output, buffer)
    | some n ↦
        push_loop fuel local_id (output ++ rewrite_event local_id (take n buffer) ∷ [])
          (drop n buffer)
  ]

  unfoldable pub push_chunk : ResponseIdRewriter → Bytes → ResponseIdRewriter × List Bytes
  unfolding push_loop
  push_chunk r chunk =
      let buffer = r.event_buffer ++ chunk in
      let (output, rest) = push_loop (length buffer) r.local_id [] buffer in
      (record r { event_buffer = rest }, output)

  unfoldable pub finish : ResponseIdRewriter → ResponseIdRewriter × List Bytes
  finish r =
      if is_empty r.event_buffer
      then (r, [])
      else (record r { event_buffer = [] }, rewrite_event r.local_id r.event_buffer ∷ [])

-- The stream is polled as the others are, with `push_chunk` and `finish` of this one.
unfoldable pub rewrite_response_ids :
    {E : Type 0} → List (Received E) → Bytes → StreamState ResponseIdRewriter Bytes E
rewrite_response_ids upstream local_id = record {
  upstream = upstream;
  decoder = new local_id;
  pending = [];
  upstream_done = false;
}
