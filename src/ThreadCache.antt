-- ===== src/ThreadCache.antt =====
-- The index of threads that are held in memory, the `ThreadIndex` of src/store/rollout/cache.rs. A
-- thread's state is of any type `T`, and the entries are in an order in which the map iterates.
pub mod Capacity
pub mod Removal
use prelay_server.Base.{
  ℕ, ◌+◌, ◌%◌, ◌^◌, String, Option, none, some, List, [], ◌∷◌, Bool, true, false, not, ◌&&◌, ◌||◌,
  if◌then◌else◌, leb, ltb, length, str_eq,
}
use prelay_server.Base.{contains_str}
use prelay_server.Base.Assoc.{insert, remove}
use prelay_server.Base.Assoc

pub record ThreadEntry (T : Type 0) : Type 0 where
  pub state : T
  pub last_used : ℕ

pub record ThreadIndex (T : Type 0) : Type 0 where
  pub entries : List (String × ThreadEntry T)
  pub clock : ℕ
  pub max_entries : ℕ

-- `u64::wrapping_add(1)`.
abbrev pub tick : ℕ → ℕ
tick clock = (clock + 1) % 2 ^ 64

module _ {T : Type 0} where
  unfoldable pub with_limit : ℕ → ThreadIndex T
  with_limit max_entries = record { entries = []; clock = 0; max_entries = max_entries }

  abbrev pub contains_key : String → List (String × ThreadEntry T) → Bool
  contains_key key entries = elim (Assoc.get key entries) [ none ↦ false | some entry ↦ true ]

  unfoldable pub get : String → ThreadIndex T → ThreadIndex T × Option T
  get key index =
      let clock = tick index.clock in
      elim (Assoc.get key index.entries) [
        | none ↦ (record index { clock = clock }, none)
        | some entry ↦ (
          record index {
            clock = clock;
            entries = insert key (record entry { last_used = clock }) index.entries;
          },
          some entry.state,
        )
      ]

  -- `min_by_key` over the entries, after a first one.
  oldest_after : String × ThreadEntry T → List (String × ThreadEntry T) → String
  oldest_after (key, entry) [] = key
  oldest_after (key, entry) ((key', entry') ∷ entries) =
      let older = oldest_after (key', entry') entries in
      let same = oldest_after (key, entry) entries in
      if ltb entry'.last_used entry.last_used then older else same

  evict : List (String × ThreadEntry T) → List (String × ThreadEntry T)
  unfolding oldest_after
  evict [] = []
  evict (first ∷ entries) = remove (oldest_after first entries) (first ∷ entries)

  -- The entries with room for a key.
  room : String → ThreadIndex T → List (String × ThreadEntry T)
  unfolding evict
  room key index =
      if leb index.max_entries (length index.entries) && not (contains_key key index.entries)
      then evict index.entries
      else index.entries

  unfoldable pub insert_thread : String → T → ThreadIndex T → ThreadIndex T
  unfolding room
  insert_thread key state index =
      let clock = tick index.clock in
      record index {
        clock = clock;
        entries = insert key (record { state = state; last_used = clock }) (room key index);
      }

  -- `retain`, by the paths of the entries' states.
  retain_paths :
      (T → String) → List String → List (String × ThreadEntry T) → List (String × ThreadEntry T)
  retain_paths relative_path paths [] = []
  retain_paths relative_path paths ((key, entry) ∷ entries) =
      let rest = retain_paths relative_path paths entries in
      if contains_str (relative_path entry.state) paths then rest else (key, entry) ∷ rest

  unfoldable pub remove_paths : (T → String) → List String → ThreadIndex T → ThreadIndex T
  unfolding retain_paths
  remove_paths relative_path paths index = record index {
    entries = retain_paths relative_path paths index.entries;
  }
