-- ===== src/Router.antt =====
-- DBmwRouter.cpp and DBmwRouter.h: the requests to the DB middleware that wait for an answer. The
-- operations run on the strand one after another; a timer that expires is a call of its own.
-- Whether the injected send function throws is an argument of each operation that sends.
pub mod Decimal
pub mod RequestIds
pub mod Calls
pub mod Moves
pub mod Invariant
pub mod Requests
pub mod Attempts
pub mod Callbacks
pub mod Answers
use server_application.Common.{
  ℕ, zero, suc, ◌+◌, ◌-◌, ◌*◌, ◌/◌, ◌%◌, ◌^◌, Bool, true, false, not, ◌&&◌, ◌||◌, Option, none,
  some, List, [], ◌∷◌, ◌++◌, ltb, leb, ◌==◌, if◌then◌else◌, is_empty, Text, codes, text_eq,
  text_key, ℤ, pos, negsuc, minus_one, Map, lookup, insert, erase,
}
use server_application.Json.{Json}

pub record Pending (J : Type 0) : Type 0 where
  pub request_json : J
  pub secure : Bool
  pub retries : ℕ
  pub max_retries : ℕ
  pub timeout_ms : ℕ
  pub session_id : ℤ
  pub on_ok : Bool  -- whether the callback is set
  pub on_error : Bool
  pub use_callbacks : Bool

pub record Metrics : Type 0 where
  pub sent : ℕ
  pub ok : ℕ
  pub timed_out : ℕ
  pub retried : ℕ
  pub failed : ℕ

pub record Router (J : Type 0) : Type 0 where
  pub pending : Map Text (Pending J)
  pub req_seq : ℕ
  pub metrics : Metrics
  pub send_json_fn : Bool  -- whether the function is set
  pub send_secure_json_fn : Bool
  pub handlers : List Text  -- the types with a handler
  pub pid : ℕ

-- What an operation does outside the router.
pub data Effect (J : Type 0) : Type 0 where
  sends : Bool → J → Effect J
  arms : Text → ℕ → Effect J
  schedules_retry : Text → Effect J
  resolves : Text → J → Effect J
  calls_ok : Text → J → Effect J
  calls_error : Text → J → Effect J
  calls_handler : Text → J → Effect J
  marks_authed : Effect J
  notes_heartbeat_ack : Effect J

-- `fetch_add(1)` on an `atomic<uint64_t>`.
abbrev pub bump : ℕ → ℕ
bump n = (n + 1) % 2 ^ 64

-- `std::to_string`; a number has at most as many digits as its value plus one.
decimal_digits : ℕ → ℕ → Text
decimal_digits zero n = []
decimal_digits (suc fuel) n =
    let front = decimal_digits fuel (n / 10) in
    if ltb n 10 then (48 + n) ∷ [] else front ++ (48 + n % 10) ∷ []

unfoldable pub decimal : ℕ → Text
unfolding decimal_digits
decimal n = decimal_digits (suc n) n

abbrev pub is_digit : ℕ → Bool
is_digit c = leb 48 c && leb c 57

unfoldable pub leading_digits : Text → Text
leading_digits [] = []
leading_digits (c ∷ cs) = let rest = leading_digits cs in if is_digit c then c ∷ rest else []

unfoldable pub number_from : ℕ → Text → ℕ
number_from acc [] = acc
number_from acc (c ∷ cs) = number_from (acc * 10 + (c - 48)) cs

-- `std::stoi` throws when the number is no int.
unfoldable pub extract_session_id_from_req : Text → ℤ
unfolding leading_digits number_from
extract_session_id_from_req req_id =
    let digits = leading_digits req_id in
    let n = number_from 0 digits in
    if is_empty digits then minus_one else if ltb n (2 ^ 31) then pos n else minus_one

unfoldable pub req_id_of : ℕ → ℤ → ℕ → Text
unfolding decimal
req_id_of pid (pos n) seq = decimal n ++ 95 ∷ decimal seq
req_id_of pid (negsuc n) seq = codes "srv-" ++ decimal pid ++ 45 ∷ decimal seq

unfoldable pub make_req_id : {J : Type 0} → Router J → ℤ → Router J × Text
make_req_id r session_id =
    (record r { req_seq = bump r.req_seq }, req_id_of r.pid session_id (bump r.req_seq))

abbrev pub count_sent : Metrics → Metrics
count_sent m = record m { sent = bump m.sent }

abbrev pub count_end : Bool → Metrics → Metrics
count_end true m = record m { ok = bump m.ok }
count_end false m = record m { failed = bump m.failed }

-- `pending_.emplace`: an entry that is there stays.
abbrev pub emplace : {J : Type 0} → Text → Pending J → Map Text (Pending J) → Map Text (Pending J)
emplace id p pending = elim (lookup id pending) [ none ↦ insert id p pending | some _ ↦ pending ]

unfoldable pub send_pending :
    {J : Type 0} → Bool → Router J → Text → Pending J → Router J × List (Effect J)
send_pending throws r req_id p =
    let is_set = (if p.secure then r.send_secure_json_fn else r.send_json_fn) in
    if is_set && throws then (r, schedules_retry req_id ∷ []) else (
      record r { metrics = count_sent r.metrics },
      if is_set then sends p.secure p.request_json ∷ [] else [],
    )

-- Also what the 500 ms timer of schedule_retry calls.
unfoldable pub send_now_locked : {J : Type 0} → Bool → Router J → Text → Router J × List (Effect J)
unfolding send_pending
send_now_locked throws r req_id = elim (lookup req_id r.pending) [
  | none ↦ (r, [])
  | some p ↦ send_pending throws r req_id p
]

unfoldable pub arm_timeout_locked : {J : Type 0} → Router J → Text → List (Effect J)
arm_timeout_locked r req_id = elim (lookup req_id r.pending) [
  | none ↦ []
  | some p ↦ arms req_id p.timeout_ms ∷ []
]

-- The end of send_request and of send_request_cb on the strand.
unfoldable pub start_request :
    {J : Type 0} → Bool → Router J → Text → Pending J → Router J × List (Effect J)
unfolding send_now_locked arm_timeout_locked
start_request throws r req_id p =
    let (r', sent) =
      send_now_locked throws (record r { pending = emplace req_id p r.pending }) req_id in
    (r', sent ++ arm_timeout_locked r' req_id)

unfoldable pub fulfill_and_erase_locked :
    {J : Type 0} → Router J → Text → J → Bool → Router J × List (Effect J)
fulfill_and_erase_locked r req_id result success = elim (lookup req_id r.pending) [
  | none ↦ (r, [])
  | some p ↦ (
    record r { pending = erase req_id r.pending; metrics = count_end success r.metrics },
    resolves req_id result ∷ [],
  )
]
