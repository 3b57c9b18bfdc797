-- ===== src/Failover/Backoff.antt =====
-- Who rests, for how long, and what a failure, a success and a look at the table change.
use Prim.Native.Nat.{ℕ, suc, ◌+◌, ◌-◌, ◌*◌, ◌^◌, ◌≤◌, ◌<◌, min}
use native.Mathlib.Nat.{pow-succ'}
use prelay_server.Base.{
  ◌≡◌, String, none, some, List, [], ◌∷◌, Bool, true, false, if◌then◌else◌, ltb, ap, str_eq, eq_iff,
  arith, length,
}
use prelay_server.Base.Assoc.{get, insert, get-insert, get-remove, get-insert_self}
use prelay_server.Failover.{
  u32_max, FailoverRegistry, RestEntry, rest, clear, resting, rest_duration, next_consecutive,
  max_rest,
}

-- Whether a provider rests at `now` by the table, with no change of the table.
unfoldable pub is_resting : String → ℕ → FailoverRegistry → Bool
is_resting id now rests = elim (get id rests) [ none ↦ false | some entry ↦ ltb now entry.until ]

-- Looking at the table answers by the entry's end, and drops an entry that has run out only:
-- what any provider's answer is, then or later, does not change.
pub resting_lem :
    (id other : String) (now later : ℕ) (rests : FailoverRegistry)
    → now ≤ later
    → ((resting id now rests).1 ≡ is_resting id now rests)
      × (is_resting other later (resting id now rests).0 ≡ is_resting other later rests)
unfolding resting is_resting
resting_lem id other now later rests h = ground (arith, get-remove id other rests, eq_iff id other)

is_resting-insert :
    (id other : String) (later : ℕ) (entry : RestEntry) (rests : FailoverRegistry)
    → is_resting other later (insert id entry rests)
      ≡ (if str_eq id other then ltb later entry.until else is_resting other later rests)
unfolding is_resting
is_resting-insert id other later entry rests = ground (arith, get-insert id other entry rests)

-- The entry that a failure writes.
abbrev next_entry : String → ℕ → ℕ → FailoverRegistry → RestEntry
next_entry id base now rests =
    let consecutive = next_consecutive (get id rests) now in
    record { until = now + rest_duration base consecutive; consecutive = consecutive }

-- A failure rests the provider for at most ten minutes, and exactly until then; the others' entries
-- stay.
rest_lem :
    (id other : String) (base now later : ℕ) (rests : FailoverRegistry)
    → let (after, duration) = rest id base now rests in
      (duration ≤ max_rest)
      × (is_resting id later after ≡ ltb later (now + duration))
      × (is_resting other later after
          ≡ (if str_eq id other then ltb later (now + duration) else is_resting other later rests))
unfolding rest rest_duration
rest_lem id other base now later rests =
    let entry = next_entry id base now rests in
    ground (
      arith,
      is_resting-insert id id later entry rests,
      is_resting-insert id other later entry rests,
      eq_iff id id,
      eq_iff id other,
    )

-- A success forgets the provider's failures, and nobody else's.
pub clear_lem :
    (id other : String) (later : ℕ) (rests : FailoverRegistry)
    → is_resting other later (clear id rests)
      ≡ (if str_eq id other then false else is_resting other later rests)
unfolding clear is_resting
clear_lem id other later rests = ground (arith, get-remove id other rests)

shift_more :
    (base failures : ℕ)
    → failures < 10
    → base * 2 ^ min (suc (suc failures) - 1) 10 ≡ 2 * (base * 2 ^ min (suc failures - 1) 10)
shift_more base failures h =
    let e : min (suc (suc failures) - 1) 10 ≡ suc failures = omega arith in
    let f : min (suc failures - 1) 10 ≡ failures = omega arith in rw (e, f, pow-succ') (grind arith)

shift_cap :
    (base failures : ℕ)
    → 10 ≤ failures
    → base * 2 ^ min (suc (suc failures) - 1) 10 ≡ base * 2 ^ min (suc failures - 1) 10
shift_cap base failures h =
    let e : min (suc (suc failures) - 1) 10 ≡ 10 = omega arith in
    let f : min (suc failures - 1) 10 ≡ 10 = omega arith in rw (e, f)

-- One more failure in a run doubles the rest, up to ten minutes and to ten doublings.
pub rest_duration_doubles :
    (base failures : ℕ)
    → rest_duration base (suc (suc failures)) ≡ (
        if ltb failures 10
        then min (2 * rest_duration base (suc failures)) max_rest
        else rest_duration base (suc failures))
unfolding rest_duration
rest_duration_doubles base failures =
    ground (arith, shift_more base failures, shift_cap base failures)

next_of_resting :
    (id : String) (now : ℕ) (rests : FailoverRegistry) (entry : RestEntry)
    → get id rests ≡ some entry
    → is_resting id now rests ≡ true
    → next_consecutive (get id rests) now ≡ min (entry.consecutive + 1) u32_max
unfolding is_resting next_consecutive
next_of_resting id now rests entry e r = ground arith

next_of_rested :
    (id : String) (now : ℕ) (rests : FailoverRegistry)
    → is_resting id now rests ≡ false
    → next_consecutive (get id rests) now ≡ 1
unfolding is_resting next_consecutive
next_of_rested id now rests r = ground arith

get-rest :
    (id : String) (base now : ℕ) (rests : FailoverRegistry)
    → get id (rest id base now rests).0 ≡ some (next_entry id base now rests)
unfolding rest
get-rest id base now rests = get-insert_self id (next_entry id base now rests) rests

module _ (id : String) (base : ℕ) where
  -- Failures at the given times, one after the other.
  unfoldable pub rest_all : List ℕ → FailoverRegistry → FailoverRegistry
  rest_all [] rests = rests
  rest_all (now ∷ times) rests = rest_all times (rest id base now rests).0

  -- Each failure comes while the provider still rests from the one before.
  pub data IsRun : List ℕ → FailoverRegistry → Type 0 where
    done : {rests : FailoverRegistry} → IsRun [] rests
    again :
        {now : ℕ} {times : List ℕ} {rests : FailoverRegistry}
        → is_resting id now rests ≡ true
        → IsRun times (rest id base now rests).0
        → IsRun (now ∷ times) rests

  count_after :
      (times : List ℕ) (rests : FailoverRegistry) (entry : RestEntry)
      → get id rests ≡ some entry
      → entry.consecutive ≤ u32_max
      → IsRun times rests
      → (last : RestEntry) × (get id (rest_all times rests) ≡ some last)
        × (last.consecutive ≡ min (entry.consecutive + length times) u32_max)
  unfolding rest_all
  count_after [] rests entry e h done = (entry, e, omega arith)
  count_after (now ∷ times) rests entry e h (again r run) =
      let step = next_of_resting id now rests entry e r in
      let (last, found, counted) =
        count_after times (rest id base now rests).0 (next_entry id base now rests)
          (get-rest id base now rests) (omega (arith, step)) run in
      (last, found, omega (arith, step, counted))

  -- A provider that was not resting fails at `first`, at `times` and at `now`, each time while it
  -- still rests from the failure before: the last rest is the one of that many failures.
  pub rest-rest_all :
      (first now : ℕ) (times : List ℕ) (rests : FailoverRegistry)
      → is_resting id first rests ≡ false
      → IsRun times (rest id base first rests).0
      → is_resting id now (rest_all times (rest id base first rests).0) ≡ true
      → (rest id base now (rest_all times (rest id base first rests).0)).1
        ≡ rest_duration base (min (length times + 2) u32_max)
  unfolding rest
  rest-rest_all first now times rests fresh run r =
      let start = next_of_rested id first rests fresh in
      let (last, found, counted) =
        count_after times (rest id base first rests).0 (next_entry id base first rests)
          (get-rest id base first rests) (omega (arith, start)) run in
      let step =
        next_of_resting id now (rest_all times (rest id base first rests).0) last found r in
      ap (rest_duration base) (omega (arith, start, counted, step))
