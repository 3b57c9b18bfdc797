-- ===== src/ThreadCache/Capacity.antt =====
-- The size of the index, and what is read back from it.
use prelay_server.Base.{
  ℕ, ◌+◌, ◌-◌, ◌≤◌, ◌<◌, ◌≡◌, refl, ap, ◌∙◌, String, none, some, List, [], ◌∷◌, Bool, true, false,
  if◌then◌else◌, arith, length, eq_iff, leb, inl, inr, Option-cases,
}
use prelay_server.Base.Assoc.{insert, remove, get-insert_self}
use prelay_server.Base.Assoc
use prelay_server.ThreadCache.{
  ThreadEntry, ThreadIndex, contains_key, get, oldest_after, tick, evict, room, insert_thread,
}

module _ {V : Type 0} where
  length-insert :
      (k : String) (v : V) (m : List (String × V)) → length (insert k v m) ≤ length m + 1
  unfolding insert
  length-insert k v [] = omega arith
  length-insert k v ((j, w) ∷ m) = ground (arith, length-insert k v m)

  length-insert_held :
      (k : String) (v w : V) (m : List (String × V))
      → Assoc.get k m ≡ some w
      → length (insert k v m) ≡ length m
  unfolding insert Assoc.get
  length-insert_held k v w [] h = cc
  length-insert_held k v w ((j, u) ∷ m) h = ground (arith, length-insert_held k v w m)

  length-remove : (k : String) (m : List (String × V)) → length (remove k m) ≤ length m
  unfolding remove
  length-remove k [] = omega arith
  length-remove k ((j, w) ∷ m) = ground (arith, length-remove k m)

  length-remove_held :
      (k : String) (w : V) (m : List (String × V))
      → Assoc.get k m ≡ some w
      → length (remove k m) < length m
  unfolding remove Assoc.get
  length-remove_held k w [] h = cc
  length-remove_held k w ((j, u) ∷ m) h =
      ground (arith, length-remove k m, length-remove_held k w m)

module _ {T : Type 0} where
  oldest_held :
      (key : String) (entry : ThreadEntry T) (entries : List (String × ThreadEntry T))
      → contains_key (oldest_after (key, entry) entries) ((key, entry) ∷ entries) ≡ true
  unfolding oldest_after Assoc.get
  oldest_held key entry [] = ground (arith, eq_iff key key)
  oldest_held key entry ((key', entry') ∷ entries) =
      ground (arith, oldest_held key entry entries, oldest_held key' entry' entries)

  evict-length :
      (entries : List (String × ThreadEntry T)) → length (evict entries) ≤ length entries - 1
  unfolding evict
  evict-length [] = omega arith
  evict-length ((key, entry) ∷ entries) =
      elim (Option-cases (Assoc.get (oldest_after (key, entry) entries) ((key, entry) ∷ entries))) [
        | inl absent ↦ absurd (ground (arith, oldest_held key entry entries, absent))
        | inr (held, found) ↦
            let less =
              length-remove_held (oldest_after (key, entry) entries) held ((key, entry) ∷ entries)
                found in
            omega (arith, less)
      ]

  room_for :
      (full : Bool) (max : ℕ) (entries : List (String × ThreadEntry T))
      → leb max (length entries) ≡ full
      → 1 ≤ max
      → length entries ≤ max
      → length (if full then evict entries else entries) + 1 ≤ max
  room_for true max entries e some_room fits =
      ground (arith, e, evict-length entries, some_room, fits)
  room_for false max entries e some_room fits = ground (arith, e)

  room_absent :
      (key : String) (index : ThreadIndex T)
      → 1 ≤ index.max_entries
      → length index.entries ≤ index.max_entries
      → Assoc.get key index.entries ≡ none
      → length (room key index) + 1 ≤ index.max_entries
  room_absent key index some_room fits absent =
      let full = leb index.max_entries (length index.entries) in
      let kept : room key index ≡ (if full then evict index.entries else index.entries) =
        unfold room in ground (arith, absent) in
      rw kept (room_for full index.max_entries index.entries refl some_room fits)

  -- An index that may hold a thread, and holds no more than it may, does so after any insertion.
  pub insert_thread-length :
      (key : String) (state : T) (index : ThreadIndex T)
      → 1 ≤ index.max_entries
      → length index.entries ≤ index.max_entries
      → length (insert_thread key state index).entries ≤ index.max_entries
  unfolding insert_thread
  insert_thread-length key state index some_room fits =
      let entry : ThreadEntry T = record { state = state; last_used = tick index.clock } in
      elim (Option-cases (Assoc.get key index.entries)) [
        | inl absent ↦
            let free = room_absent key index some_room fits absent in
            omega (arith, length-insert key entry (room key index), free)
        | inr (held, found) ↦
            let kept : room key index ≡ index.entries = unfold room in ground (arith, found) in
            rw (kept, length-insert_held key entry held index.entries found) fits
      ]

  get_held :
      (key : String) (index : ThreadIndex T) (entry : ThreadEntry T)
      → Assoc.get key index.entries ≡ some entry
      → ((get key index).1 ≡ some entry.state)
        × ((get key index).0.entries
            ≡ insert key (record entry { last_used = tick index.clock }) index.entries)
  unfolding get
  get_held key index entry h = ground (arith, h)

  -- What is inserted is read back, whatever it displaced; reading it again gives the same.
  pub get-insert_thread :
      (key : String) (state : T) (index : ThreadIndex T)
      → let (again, found) = get key (insert_thread key state index) in
        (found ≡ some state) × ((get key again).1 ≡ some state)
  get-insert_thread key state index =
      let inserted = insert_thread key state index in
      let entry : ThreadEntry T = record { state = state; last_used = tick index.clock } in
      let (found, kept) =
        get_held key inserted entry
          (unfold insert_thread in get-insert_self key entry (room key index)) in
      let entry' : ThreadEntry T = record entry { last_used = tick inserted.clock } in
      let (again, _) =
        get_held key (get key inserted).0 entry'
          (ap (Assoc.get key) kept ∙ get-insert_self key entry' inserted.entries) in
      (found, again)
