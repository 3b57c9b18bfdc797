-- ===== src/Examples/Caches.antt =====
-- The thread index at concrete input.
use prelay_server.Base.{◌≤◌, ◌≡◌, refl, String, some, none, [], ◌∷◌, arith, length, All}
use prelay_server.Base.Assoc
use prelay_server.Base.{contains_str}
use prelay_server.ThreadCache.{ThreadIndex, get, with_limit, insert_thread, remove_paths}
use prelay_server.ThreadCache.Removal.{
  Unlisted, unlisted, Reached, made, asked, filled, get-remove_paths,
}
use prelay_server.ThreadCache.Capacity.{insert_thread-length, get-insert_thread}

abbrev full_index : ThreadIndex String
full_index = record {
  entries =
      ("a", record { state = "a.jsonl"; last_used = 3 })
      ∷ ("b", record { state = "b.jsonl"; last_used = 2 })
      ∷ [];
  clock = 3;
  max_entries = 2;
}

insert_thread-length_example :
    length (insert_thread "c" "c.jsonl" full_index).entries ≤ full_index.max_entries
insert_thread-length_example =
    insert_thread-length "c" "c.jsonl" full_index (omega arith) (omega arith)

get-insert_thread_example :
    let (again, found) = get "c" (insert_thread "c" "c.jsonl" full_index) in
    (found ≡ some "c.jsonl") × ((get "c" again).1 ≡ some "c.jsonl")
get-insert_thread_example = get-insert_thread "c" "c.jsonl" full_index

abbrev path_of : String → String
path_of path = path

abbrev used_index : ThreadIndex String
used_index = (get "a" (insert_thread "b" "b.jsonl" (insert_thread "a" "a.jsonl" (with_limit 2)))).0

used_index-Reached : Reached path_of used_index
used_index-Reached = asked "a" (filled "b" "b.jsonl" (filled "a" "a.jsonl" (made 2)))

keeps_b :
    ((get "b" (remove_paths path_of ("a.jsonl" ∷ []) used_index)).1 ≡ some "b.jsonl")
    × ((get "a" (remove_paths path_of ("a.jsonl" ∷ []) used_index)).1 ≡ none)
unfolding get insert_thread with_limit remove_paths Assoc.get Assoc.insert contains_str
keeps_b = (refl, refl)

get-remove_paths_example :
    All
      (Unlisted path_of ("a.jsonl" ∷ []))
      (remove_paths path_of ("a.jsonl" ∷ []) used_index).entries
    × ((get "b" (remove_paths path_of ("a.jsonl" ∷ []) used_index)).1
        ≡ unlisted path_of ("a.jsonl" ∷ []) (get "b" used_index).1)
get-remove_paths_example =
    get-remove_paths path_of "b" ("a.jsonl" ∷ []) used_index used_index-Reached
