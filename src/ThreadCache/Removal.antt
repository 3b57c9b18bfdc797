-- ===== src/ThreadCache/Removal.antt =====
-- What is left of the index after threads were removed by their paths.
use mathlib.Core.Path.{subst}
use prelay_server.Base.{
  ℕ, ◌≡◌, refl, sym, ap, ◌∙◌, String, str_eq, eq_iff, Option, none, some, List, [], ◌∷◌, Bool, true,
  false, not, ◌&&◌, if◌then◌else◌, arith, All, Bool-cases, inl, inr, leb, length,
}
use prelay_server.Base.Assoc
use prelay_server.Base.Assoc.{insert, remove}
use prelay_server.Base.{contains_str}
use prelay_server.ThreadCache.{
  ThreadEntry, ThreadIndex, tick, contains_key, with_limit, get, evict, oldest_after, room,
  insert_thread, retain_paths, remove_paths,
}

-- The keys of the entries are different, as in a hash map.
abbrev pub IsMap : {V : Type 0} → List (String × V) → Type 0
IsMap [] = Unit
IsMap ((key, v) ∷ m) = (Assoc.get key m ≡ none) × IsMap m

module _ {V : Type 0} where
  insert-IsMap : (key : String) (v : V) (m : List (String × V)) → IsMap m → IsMap (insert key v m)
  unfolding insert
  insert-IsMap key v [] h = (unfold Assoc.get in refl, tt)
  insert-IsMap key v ((j, w) ∷ m) h = elim (Bool-cases (str_eq j key)) [
    | inl same ↦ rw same (subst (λ k. Assoc.get k m ≡ none) ((eq_iff j key).0 same) h.0, h.1)
    | inr other ↦ rw other (
      ground (arith, Assoc.get-insert key j v m, eq_iff key j, eq_iff j key, other, h.0),
      insert-IsMap key v m h.1,
    )
  ]

  remove-IsMap : (key : String) (m : List (String × V)) → IsMap m → IsMap (remove key m)
  unfolding remove
  remove-IsMap key [] h = tt
  remove-IsMap key ((j, w) ∷ m) h = elim (Bool-cases (str_eq j key)) [
    | inl same ↦ rw same (remove-IsMap key m h.1)
    | inr other ↦ rw other (ground (arith, Assoc.get-remove key j m, h.0), remove-IsMap key m h.1)
  ]

module _ {T : Type 0} where
  evict-IsMap : (m : List (String × ThreadEntry T)) → IsMap m → IsMap (evict m)
  unfolding evict
  evict-IsMap [] h = tt
  evict-IsMap (first ∷ m) h = remove-IsMap (oldest_after first m) (first ∷ m) h

  choose-IsMap :
      (b : Bool) (m n : List (String × ThreadEntry T))
      → IsMap m
      → IsMap n
      → IsMap (if b then m else n)
  choose-IsMap true m n hm hn = hm
  choose-IsMap false m n hm hn = hn

  room-IsMap : (key : String) (index : ThreadIndex T) → IsMap index.entries → IsMap (room key index)
  unfolding room
  room-IsMap key index h =
      choose-IsMap
        (leb index.max_entries (length index.entries) && not (contains_key key index.entries)) _ _
        (evict-IsMap index.entries h) h

  -- What `get` gives when the entry of its key is found or missing.
  abbrev got : String → ThreadIndex T → Option (ThreadEntry T) → ThreadIndex T × Option T
  got key index found = elim found [
    | none ↦ (record index { clock = tick index.clock }, none)
    | some entry ↦ (
      record index {
        clock = tick index.clock;
        entries = insert key (record entry { last_used = tick index.clock }) index.entries;
      },
      some entry.state,
    )
  ]

  got-IsMap :
      (key : String) (index : ThreadIndex T) (found : Option (ThreadEntry T))
      → IsMap index.entries
      → IsMap (got key index found).0.entries
  got-IsMap key index none h = h
  got-IsMap key index (some entry) h = insert-IsMap key _ index.entries h

  get-IsMap :
      (key : String) (index : ThreadIndex T) → IsMap index.entries → IsMap (get key index).0.entries
  unfolding get
  get-IsMap key index h = got-IsMap key index (Assoc.get key index.entries) h

  -- A state, from an entry that is held.
  abbrev state_of : Option (ThreadEntry T) → Option T
  state_of none = none
  state_of (some entry) = some entry.state

  got-state_of :
      (key : String) (index : ThreadIndex T) (found : Option (ThreadEntry T))
      → (got key index found).1 ≡ state_of found
  got-state_of key index none = refl
  got-state_of key index (some entry) = refl

  get-state_of :
      (key : String) (index : ThreadIndex T)
      → (get key index).1 ≡ state_of (Assoc.get key index.entries)
  unfolding get
  get-state_of key index = got-state_of key index (Assoc.get key index.entries)

module _ {T : Type 0} (relative_path : T → String) where
  abbrev pub Unlisted : List String → String × ThreadEntry T → Type 0
  Unlisted paths (key, entry) = contains_str (relative_path entry.state) paths ≡ false

  -- A state whose path is not listed.
  abbrev pub unlisted : List String → Option T → Option T
  unlisted paths none = none
  unlisted paths (some state) =
      if contains_str (relative_path state) paths then none else some state

  retain_paths-Unlisted :
      (paths : List String) (entries : List (String × ThreadEntry T))
      → All (Unlisted paths) (retain_paths relative_path paths entries)
  unfolding retain_paths
  retain_paths-Unlisted paths [] = tt
  retain_paths-Unlisted paths ((key, entry) ∷ entries) =
      elim (Bool-cases (contains_str (relative_path entry.state) paths)) [
        | inl listed ↦ rw listed (retain_paths-Unlisted paths entries)
        | inr free ↦ rw free (free, retain_paths-Unlisted paths entries)
      ]

  state_of-retain_paths :
      (key : String) (paths : List String) (entries : List (String × ThreadEntry T))
      → IsMap entries
      → state_of (Assoc.get key (retain_paths relative_path paths entries))
        ≡ unlisted paths (state_of (Assoc.get key entries))
  unfolding retain_paths Assoc.get
  state_of-retain_paths key paths [] h = refl
  state_of-retain_paths key paths ((j, entry) ∷ entries) h =
      ground (arith, state_of-retain_paths key paths entries h.1, eq_iff j key, h.0)

  missing-retain_paths :
      (key : String) (paths : List String) (entries : List (String × ThreadEntry T))
      → Assoc.get key entries ≡ none
      → Assoc.get key (retain_paths relative_path paths entries) ≡ none
  unfolding retain_paths Assoc.get
  missing-retain_paths key paths [] h = refl
  missing-retain_paths key paths ((j, entry) ∷ entries) h =
      ground (arith, h, missing-retain_paths key paths entries)

  retain_paths-IsMap :
      (paths : List String) (entries : List (String × ThreadEntry T))
      → IsMap entries
      → IsMap (retain_paths relative_path paths entries)
  unfolding retain_paths
  retain_paths-IsMap paths [] h = tt
  retain_paths-IsMap paths ((key, entry) ∷ entries) h =
      elim (Bool-cases (contains_str (relative_path entry.state) paths)) [
        | inl listed ↦ rw listed (retain_paths-IsMap paths entries h.1)
        | inr free ↦
            rw free
              (missing-retain_paths key paths entries h.0, retain_paths-IsMap paths entries h.1)
      ]

  -- An index as it was made, and then used.
  pub data Reached : ThreadIndex T → Type 0 where
    made : (max_entries : ℕ) → Reached (with_limit max_entries)
    asked : {index : ThreadIndex T} (key : String) → Reached index → Reached (get key index).0
    filled :
        {index : ThreadIndex T} (key : String) (state : T)
        → Reached index
        → Reached (insert_thread key state index)
    emptied :
        {index : ThreadIndex T} (paths : List String)
        → Reached index
        → Reached (remove_paths relative_path paths index)

  Reached-IsMap : (index : ThreadIndex T) → Reached index → IsMap index.entries
  unfolding with_limit insert_thread remove_paths
  Reached-IsMap _ (made max_entries) = tt
  Reached-IsMap _ (asked {index = index} key before) =
      get-IsMap key index (Reached-IsMap index before)
  Reached-IsMap _ (filled {index = index} key state before) =
      insert-IsMap key _ (room key index) (room-IsMap key index (Reached-IsMap index before))
  Reached-IsMap _ (emptied {index = index} paths before) =
      retain_paths-IsMap paths index.entries (Reached-IsMap index before)

  -- For an index that its operations have made from a new one: after a removal, no entry has one of
  -- the paths, and asking for any key gives the thread's state that it gave before the removal if its
  -- path is not one of them, and else nothing.
  pub get-remove_paths :
      (key : String) (paths : List String) (index : ThreadIndex T)
      → Reached index
      → All (Unlisted paths) (remove_paths relative_path paths index).entries
        × ((get key (remove_paths relative_path paths index)).1 ≡ unlisted paths (get key index).1)
  unfolding remove_paths
  get-remove_paths key paths index reached = (
    retain_paths-Unlisted paths index.entries,
    get-state_of key _
        ∙ state_of-retain_paths key paths index.entries (Reached-IsMap index reached)
        ∙ ap (unlisted paths) (sym (get-state_of key index)),
  )
