-- ===== src/Failover.antt =====
-- The failure cooldown table, src/service/failover.rs. A duration and an instant are numbers of
-- nanoseconds; the clock's reading is an argument of each operation, which the mutex makes atomic.
pub mod Backoff
pub mod Causes
use Prim.Native.Nat.{ℕ, suc, ◌+◌, ◌-◌, ◌*◌, ◌^◌, min}
use prelay_server.Base.{
  String, Option, none, some, List, [], Bool, true, false, if◌then◌else◌, ltb, leb, ◌==◌, ◌&&◌,
}
use prelay_server.Base.Assoc.{get, insert, remove}
use prelay_server.Errors.{AppError, upstream, upstream_invalid_response, is_transient}

abbrev pub nanos : ℕ → ℕ
nanos secs = secs * 1000000000

abbrev pub max_rest : ℕ
max_rest = nanos 600

abbrev pub u32_max : ℕ
u32_max = 4294967295

-- `Duration::MAX`: `u64::MAX` seconds and 999,999,999 nanoseconds.
abbrev pub duration_max : ℕ
duration_max = 18446744073709551615 * 1000000000 + 999999999

abbrev rest_base_status : ℕ → Option ℕ
rest_base_status status =
    if leb 401 status && leb status 403
    then some (nanos 300)
    else if is_transient status
    then some (nanos 60)
    else none

unfoldable pub rest_base : AppError → Option ℕ
rest_base (upstream none message) = some (nanos 60)
rest_base (upstream (some status) message) = rest_base_status status
rest_base (upstream_invalid_response message) = some (nanos 60)
rest_base _ = none

pub record RestEntry : Type 0 where
  pub until : ℕ
  pub consecutive : ℕ

abbrev pub FailoverRegistry : Type 0
FailoverRegistry = List (String × RestEntry)

-- `FailoverRegistry::default()`.
abbrev pub empty_registry : FailoverRegistry
empty_registry = []

-- The length of the current run of failures, this one included.
unfoldable pub next_consecutive : Option RestEntry → ℕ → ℕ
next_consecutive none now = 1
next_consecutive (some entry) now =
    if ltb now entry.until then min (entry.consecutive + 1) u32_max else 1

unfoldable pub rest_duration : ℕ → ℕ → ℕ
rest_duration base consecutive =
    min (min (base * 2 ^ min (consecutive - 1) 10) duration_max) max_rest

unfoldable pub rest : String → ℕ → ℕ → FailoverRegistry → FailoverRegistry × ℕ
rest provider_id base now rests =
    let consecutive = next_consecutive (get provider_id rests) now in
    let duration = rest_duration base consecutive in
    (
      insert provider_id (record { until = now + duration; consecutive = consecutive }) rests,
      duration,
    )

unfoldable pub clear : String → FailoverRegistry → FailoverRegistry
clear provider_id rests = remove provider_id rests

resting_entry : Option RestEntry → String → ℕ → FailoverRegistry → FailoverRegistry × Bool
resting_entry none provider_id now rests = (rests, false)
resting_entry (some entry) provider_id now rests =
    if ltb now entry.until then (rests, true) else (remove provider_id rests, false)

unfoldable pub resting : String → ℕ → FailoverRegistry → FailoverRegistry × Bool
unfolding resting_entry
resting provider_id now rests = resting_entry (get provider_id rests) provider_id now rests
