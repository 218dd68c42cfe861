-- ===== src/Manager.antt =====
-- SessionManager.cpp: the sessions by id, in shards, and the sessions by nickname. A session is
-- named by its index in the pool. Each operation runs under the mutex that it takes; the mutex is
-- explicit only for the nicknames, where one operation calls another.
pub mod Shards
pub mod Visits
pub mod Nicknames
use server_application.Common.{
  ℕ, zero, suc, ◌+◌, ◌-◌, ◌*◌, ◌%◌, ◌^◌, Bool, true, false, not, ◌&&◌, Option, none, some, List, [],
  ◌∷◌, ◌++◌, ltb, ◌==◌, if◌then◌else◌, length, get_elem?, set, select, Text, ℤ, pos, negsuc, int_eq,
  Map, lookup, insert, erase,
}
use server_application.Common.{text_key, int_key}

abbrev pub Bucket : Type 0
Bucket = Map ℤ ℕ

pub record Manager : Type 0 where
  pub buckets : List Bucket
  pub nickname_index : Map Text ℕ

-- `session_id % shard_count_`, with the `int` converted to `size_t` first.
unfoldable pub get_shard : ℕ → ℤ → ℕ
get_shard shard_count (pos n) = n % shard_count
get_shard shard_count (negsuc n) = (2 ^ 64 - suc n) % shard_count

unfoldable pub new_buckets : ℕ → List Bucket
new_buckets zero = []
new_buckets (suc n) = [] ∷ new_buckets n

unfoldable pub new_manager : ℕ → Manager
unfolding new_buckets
new_manager shard_count = record { buckets = new_buckets shard_count; nickname_index = [] }

abbrev pub bucket_or_empty : Option Bucket → Bucket
bucket_or_empty none = []
bucket_or_empty (some b) = b

-- `session_buckets_[get_shard(id)]`.
unfoldable pub bucket_of : List Bucket → ℤ → Bucket
bucket_of buckets id = bucket_or_empty (get_elem? buckets (get_shard (length buckets) id))

unfoldable pub put_bucket : List Bucket → ℤ → Bucket → List Bucket
put_bucket buckets id b = set buckets (get_shard (length buckets) id) b

unfoldable pub find_session : Manager → ℤ → Option ℕ
unfolding bucket_of
find_session m id = lookup id (bucket_of m.buckets id)

-- The session that was replaced, if it is another generation and not closed.
unfoldable pub replaced : (ℕ → ℕ) → (ℕ → Bool) → ℕ → Option ℕ → Option ℕ
replaced generation is_closed r none = none
replaced generation is_closed r (some prev) =
    if not (generation prev == generation r) && not (is_closed prev) then some prev else none

-- The new table, and the session that the caller of add_session closes.
unfoldable pub add_session : (ℕ → ℕ) → (ℕ → Bool) → Manager → ℤ → ℕ → Manager × Option ℕ
unfolding bucket_of put_bucket replaced
add_session generation is_closed m id r =
    let bucket = bucket_of m.buckets id in
    (
      record m { buckets = put_bucket m.buckets id (insert id r bucket) },
      replaced generation is_closed r (lookup id bucket),
    )

unfoldable pub remove_session : Manager → ℤ → Manager × Option ℕ
unfolding bucket_of put_bucket
remove_session m id =
    let bucket = bucket_of m.buckets id in
    (record m { buckets = put_bucket m.buckets id (erase id bucket) }, lookup id bucket)

unfoldable pub flatten : List Bucket → List (ℤ × ℕ)
flatten [] = []
flatten (b ∷ bs) = b ++ flatten bs

unfoldable pub refs : List (ℤ × ℕ) → List ℕ
refs [] = []
refs ((id, r) ∷ es) = r ∷ refs es

-- The copy that for_each_session makes of the tables, shard by shard.
unfoldable pub copied : Manager → List (ℤ × ℕ)
unfolding flatten
copied m = flatten m.buckets

-- The sessions in the order in which for_each_session calls its argument.
unfoldable pub for_each_session : Manager → List ℕ
unfolding refs
for_each_session m = refs (copied m)

unfoldable pub total : List Bucket → ℕ
total [] = 0
total (b ∷ bs) = length b + total bs

unfoldable pub session_count : Manager → ℕ
unfolding total
session_count m = total m.buckets

-- The sessions that cleanup_inactive_sessions closes after it has released the mutexes.
unfoldable pub inactive_sessions : (ℕ → ℕ) → Manager → ℕ → ℕ → List ℕ
inactive_sessions last_alive m now max_idle_time =
    select (λ r. ltb max_idle_time (now - last_alive r)) (for_each_session m)

-- What an operation on the nicknames does from a state of nickname_mutex_ (true: held): nothing is
-- returned when a thread waits for a mutex that it holds itself.
abbrev pub Locking : Type 0 → Type 0
Locking A = Bool → Map Text ℕ → Option (A × Bool × Map Text ℕ)

abbrev pub unlocked : {A : Type 0} → Option (A × Bool × Map Text ℕ) → Option (A × Bool × Map Text ℕ)
unlocked none = none
unlocked (some (a, held, index)) = some (a, false, index)

unfoldable pub under_nickname_mutex : {A : Type 0} → Locking A → Locking A
under_nickname_mutex body true index = none
under_nickname_mutex body false index = unlocked (body true index)

-- `lock()` of a weak_ptr; `alive r` when the session still exists.
unfoldable pub lock_weak : (ℕ → Bool) → Option ℕ → Option ℕ
lock_weak alive none = none
lock_weak alive (some r) = if alive r then some r else none

unfoldable pub other_than : ℕ → Option ℕ → Option ℕ
other_than r none = none
other_than r (some prev) = if prev == r then none else some prev

-- The result is the session that register_nickname writes to and closes.
unfoldable pub register_nickname : (ℕ → Bool) → Text → ℕ → Locking (Option ℕ)
unfolding under_nickname_mutex lock_weak other_than
register_nickname alive nickname r = under_nickname_mutex (λ held index.
    some (other_than r (lock_weak alive (lookup nickname index)), held, insert nickname r index))

unfoldable pub find_session_by_nickname : (ℕ → Bool) → Text → Locking (Option ℕ)
unfolding under_nickname_mutex lock_weak
find_session_by_nickname alive nickname =
    under_nickname_mutex (λ held index. some (lock_weak alive (lookup nickname index), held, index))

unfoldable pub without_expired : (ℕ → Bool) → Map Text ℕ → Map Text ℕ
without_expired alive [] = []
without_expired alive ((name, r) ∷ index) =
    let rest = without_expired alive index in if alive r then (name, r) ∷ rest else rest

unfoldable pub cleanup_expired_nicknames : (ℕ → Bool) → Locking Unit
unfolding under_nickname_mutex without_expired
cleanup_expired_nicknames alive =
    under_nickname_mutex (λ held index. some (tt, held, without_expired alive index))

is_owner : (ℕ → Bool) → ℕ → Option ℕ → Bool
is_owner alive r none = false
is_owner alive r (some owner) = alive owner && (owner == r)

unfoldable pub unregister_nickname : (ℕ → Bool) → Text → ℕ → Locking Unit
unfolding under_nickname_mutex is_owner cleanup_expired_nicknames
unregister_nickname alive nickname r = under_nickname_mutex (λ held index.
    cleanup_expired_nicknames alive held
      (if is_owner alive r (lookup nickname index) then erase nickname index else index))
