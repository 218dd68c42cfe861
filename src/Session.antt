-- ===== src/Session.antt =====
-- Session.h and Session.cpp: one client connection. A time is the count of a `steady_clock` time
-- point in nanoseconds, 0 for a default one, and is an argument of each operation that reads the
-- clock. The 2048 bytes of `data_` and the socket object are left out.
pub mod Life
pub mod Queues
pub mod Udp
pub mod Writes
pub mod Backlog
pub mod RateLimit
pub mod Race
use server_application.Common.{
  ℕ, zero, suc, ◌+◌, ◌-◌, ◌*◌, ◌/◌, ◌%◌, ◌^◌, min, Bool, true, false, not, ◌&&◌, ◌||◌, Option, none,
  some, List, [], ◌∷◌, ◌++◌, ltb, leb, ◌==◌, if◌then◌else◌, length, pop, is_empty, Text, ℤ, pos,
  minus_one,
}
use server_application.Framing.{Buffer, empty_buffer, clear}

pub data SessionState : Type 0 where
  handshaking handshaked login_wait ready closed_state : SessionState

pub data LifeState : Type 0 where
  idle active closing closed_life released : LifeState

pub record Endpoint : Type 0 where
  pub address : Text
  pub port : ℕ

-- What `config.value(key, default)` returns for the keys that the modelled code reads.
pub record Config : Type 0 where
  pub max_task_queue : ℕ
  pub max_write_queue_size : ℕ
  pub write_queue_overflow_limit : ℕ
  pub udp_token_ttl_seconds : ℕ
  pub total_limit_per_sec : ℕ
  pub max_udp_packet_size : ℕ
  pub max_zone_count : ℕ
  pub zone_max_sessions_count : ℕ

-- The one task that is ever queued: the lambda of do_read that starts a read.
pub data Task : Type 0 where
  read_some : Task

pub record Session : Type 0 where
  pub session_id : ℤ
  pub nickname : Text
  pub line_buffer : Text
  pub message : Text
  pub read_pending : Bool
  pub task_queue : List Task
  pub task_running : Bool
  pub msg_buf : Buffer
  pub write_queue : List Text
  pub write_in_progress : Bool
  pub write_queue_overflow_count : ℕ
  pub closed : Bool
  pub nickname_registered : Bool
  pub last_alive_time : ℕ
  pub state : SessionState
  pub udp_endpoint : Option Endpoint
  pub udp_ep_update_time : ℕ
  pub last_udp_alive_time : ℕ
  pub udp_token : Text
  pub udp_token_issued : ℕ
  pub udp_token_ttl_sec : ℕ
  pub udp_packet_count : ℕ
  pub udp_packet_window : ℕ
  pub zone_id : ℤ
  pub zone : Option ℤ  -- the id of the zone that the weak pointer names
  pub generation : ℕ  -- uint64_t
  pub life : LifeState
  pub udp_tokens : ℕ
  pub last_udp_token_refill : ℕ
  pub login_timer_armed : Bool
  pub socket_open : Bool

abbrev pub max_tokens : ℕ
max_tokens = 120

abbrev pub refill_rate_per_sec : ℕ
refill_rate_per_sec = 60

abbrev pub u64 : ℕ → ℕ
u64 n = n % 2 ^ 64

-- The constructor, with the members' initialisers.
unfoldable pub new_session : ℤ → ℕ → Session
unfolding empty_buffer
new_session id now = record {
  session_id = id;
  nickname = [];
  line_buffer = [];
  message = [];
  read_pending = false;
  task_queue = [];
  task_running = false;
  msg_buf = empty_buffer;
  write_queue = [];
  write_in_progress = false;
  write_queue_overflow_count = 0;
  closed = false;
  nickname_registered = false;
  last_alive_time = now;
  state = handshaking;
  udp_endpoint = none;
  udp_ep_update_time = 0;
  last_udp_alive_time = 0;
  udp_token = [];
  udp_token_issued = 0;
  udp_token_ttl_sec = 300;
  udp_packet_count = 0;
  udp_packet_window = 0;
  zone_id = pos 0;
  zone = none;
  generation = 0;
  life = idle;
  udp_tokens = max_tokens;
  last_udp_token_refill = now;
  login_timer_armed = false;
  socket_open = false;
}

-- `life_state_.compare_exchange_strong(expected, desired)` on the life cycle.
abbrev pub life_eq : LifeState → LifeState → Bool
life_eq idle idle = true
life_eq active active = true
life_eq closing closing = true
life_eq closed_life closed_life = true
life_eq released released = true
life_eq _ _ = false

abbrev pub exchange : LifeState → LifeState → LifeState → LifeState × Bool
exchange expected desired current =
    if life_eq current expected then (desired, true) else (current, false)

unfoldable pub try_activate : LifeState → LifeState × Bool
try_activate l = exchange idle active l

-- The two exchanges of try_close.
abbrev pub close_active : LifeState → LifeState × Bool
close_active l = exchange active closing l

abbrev pub close_idle : LifeState → LifeState × Bool
close_idle l = exchange idle closing l

unfoldable pub try_close : LifeState → LifeState × Bool
try_close l = let (l', won) = close_active l in if won then (l', true) else close_idle l'

unfoldable pub set_active : Bool → LifeState → LifeState
unfolding try_activate
set_active true l = (try_activate l).0
set_active false l = (exchange active idle l).0

unfoldable pub is_active : Session → Bool
is_active s = life_eq s.life active

-- Session::reset, for a socket that was just accepted.
unfoldable pub reset : Session → ℤ → ℕ → Session
unfolding clear
reset s id now = record s {
  socket_open = true;
  login_timer_armed = false;
  session_id = id;
  nickname = [];
  line_buffer = [];
  message = [];
  closed = false;
  read_pending = false;
  task_running = false;
  task_queue = [];
  write_queue = [];
  state = handshaking;
  udp_endpoint = none;
  udp_ep_update_time = 0;
  last_udp_alive_time = 0;
  udp_token = [];
  udp_packet_count = 0;
  udp_packet_window = 0;
  zone_id = pos 0;
  last_alive_time = now;
  nickname_registered = false;
  msg_buf = clear s.msg_buf;
  generation = u64 (s.generation + 1);
  udp_token_issued = 0;
  udp_token_ttl_sec = 300;
}

unfoldable pub cleanup : Session → Session
cleanup s = record s {
  nickname = [];
  line_buffer = [];
  message = [];
  udp_endpoint = none;
  udp_ep_update_time = 0;
  last_udp_alive_time = 0;
  udp_token = [];
  udp_packet_count = 0;
  udp_packet_window = 0;
  zone = none;
  zone_id = minus_one;
  task_queue = [];
  write_queue = [];
  login_timer_armed = false;
  generation = u64 (s.generation + 1);
  closed = false;
  read_pending = false;
  task_running = false;
  nickname_registered = false;
  life = idle;
}

-- Session::close_session up to the call of DataHandler::remove_session: `none` for a second close.
unfoldable pub begin_close : Session → Option Session
unfolding try_close
begin_close s =
    let (l, won) = try_close s.life in
    if won
    then some (record s {
      life = closed_life;
      state = closed_state;
      login_timer_armed = false;
      socket_open = false;
    })
    else none

unfoldable pub on_nickname_registered : Session → Session
on_nickname_registered s = record s {
  nickname_registered = true;
  state = ready;
  login_timer_armed = false;
}

unfoldable pub update_alive_time : Session → ℕ → Session
update_alive_time s now = record s { last_alive_time = now }
