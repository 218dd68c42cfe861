-- ===== src/Server.antt =====
-- DataHandler.cpp and the rest of Session.cpp, over the parts together: one state for the pool, the
-- manager, the zones and the UDP side. A handler is a function on that state, and the handlers run
-- one after another. The clock is read once in a call: `now`. A session is named by its index in the
-- pool, which never drops one, so no weak pointer to a session expires.
pub mod Sessions
pub mod Login
pub mod Messages
pub mod Flood
pub mod Packets
pub mod Datagrams
pub mod Books
pub mod Closing
pub mod Opening
pub mod Upkeep
pub mod Serving
pub mod Quiet
pub mod Run
pub mod Trace
pub mod Nicknames
pub mod Lingering
pub mod Strangers
pub mod Blocking
pub mod Keepalive
pub mod Buffers
pub mod Draining
pub mod Registration
use server_application.Common.{
  ℕ, zero, suc, ◌+◌, ◌-◌, ◌%◌, ◌^◌, ◌≡◌, ◌↔◌, Bool, true, false, not, ◌&&◌, Option, none, some,
  List, [], ◌∷◌, ◌++◌, arith, ltb, ◌==◌, if◌then◌else◌, length, get_elem?, select, is_empty, Key,
  Text, text_eq, text_eq_iff, ℤ, pos, negsuc, minus_one, is_nonneg, int_eq, Map, lookup, insert,
  erase,
}
use server_application.Session
use server_application.Session.{
  Session, Endpoint, Config, SessionState, handshaking, login_wait, begin_close, cleanup,
  closed_state,
}
use server_application.Session.Queues
use server_application.Session.Udp.{clear_udp_token}
use server_application.Pool
use server_application.Pool.{Pool, modify, new_pool}
use server_application.Manager
use server_application.Manager.{Manager, new_manager}
use server_application.Zones.{Zones, new_zones, leave_zone}
use server_application.Limiter.{Shard, new_limiter}

pub endpoint_eq : Endpoint → Endpoint → Bool
endpoint_eq a b = text_eq a.address b.address && (a.port == b.port)

pub endpoint_eq_iff : (a b : Endpoint) → (endpoint_eq a b ≡ true) ↔ (a ≡ b)
unfolding endpoint_eq
endpoint_eq_iff a b = (
  λ h. ground (arith, text_eq_iff a.address b.address),
  λ h. ground (arith, text_eq_iff a.address b.address),
)

instance abbrev pub endpoint_key : Key Endpoint
endpoint_key = record { same = endpoint_eq; same_iff = endpoint_eq_iff }

pub record BadUdpInfo : Type 0 where
  pub fail_count : ℕ
  pub first_fail_time : ℕ

-- What the server does outside its own state: an asynchronous write with the generation that it
-- captures, a read, the login timer, a datagram, a request for a user's record.
pub data Output : Type 0 where
  starts_write : ℕ → ℕ → Text → Output
  starts_read : ℕ → Output
  arms_login_timer : ℕ → Output
  sends_udp : Endpoint → Text → Output
  requests_user_info : ℕ → Text → Output

pub record ServerState : Type 0 where
  pub session_counter : ℕ  -- the connections accepted so far
  pub pool : Pool
  pub manager : Manager
  pub zones : Zones
  pub udp_endpoint_to_session : Map Endpoint ℕ
  pub udp_global_limiter : List Shard
  pub udp_total_packet_count : ℕ
  pub udp_total_packet_window : ℕ
  pub bad_udp_map : Map Endpoint BadUdpInfo
  pub output : List Output

-- What main makes: `shards` is `max(4, hardware_concurrency() * 2)`.
unfoldable pub new_server : Config → ℕ → ℕ → ℕ → ℕ → ServerState
new_server c shards pool_size max_size now = record {
  session_counter = 0;
  pool = new_pool pool_size max_size now;
  manager = new_manager shards;
  zones = new_zones c.max_zone_count c.zone_max_sessions_count;
  udp_endpoint_to_session = [];
  udp_global_limiter = new_limiter shards;
  udp_total_packet_count = 0;
  udp_total_packet_window = 0;
  bad_udp_map = [];
  output = [];
}

-- Stands for the session of a pointer that the pool did not make. There is none.
abbrev pub no_session : Session
unfolding Session.new_session
no_session = record (Session.new_session minus_one 0) { life = Session.released }

-- `r->member`: what is read through a pointer.
abbrev pub get_session : List Session → ℕ → Session
get_session [] r = no_session
get_session (s ∷ ss) zero = s
get_session (s ∷ ss) (suc r) = get_session ss r

abbrev pub session_of : ServerState → ℕ → Session
session_of w r = get_session w.pool.sessions r

-- A call of a method of one session.
unfoldable pub on_session : ℕ → (Session → Session) → ServerState → ServerState
on_session r f w = record w { pool = record w.pool { sessions = modify r f w.pool.sessions } }

unfoldable pub emit : Output → ServerState → ServerState
emit o w = record w { output = w.output ++ o ∷ [] }

-- An entry of the endpoint map goes only if it names this session.
unfoldable pub erase_if_owner : ℕ → Option Endpoint → Map Endpoint ℕ → Map Endpoint ℕ
erase_if_owner r none m = m
erase_if_owner r (some ep) m = elim (lookup ep m) [
  | none ↦ m
  | some owner ↦ if owner == r then erase ep m else m
]

-- DataHandler::remove_session for a session that the manager gave back.
unfoldable pub retire_session : ℕ → ServerState → ServerState
unfolding on_session erase_if_owner
retire_session r w =
    let s = session_of w r in
    let cleared = clear_udp_token s in
    let (zones, left) = leave_zone w.zones cleared in
    record w {
      udp_endpoint_to_session = erase_if_owner r s.udp_endpoint w.udp_endpoint_to_session;
      zones = zones;
      pool = Pool.release (record w.pool { sessions = modify r (λ _. left) w.pool.sessions }) r;
    }

-- DataHandler::remove_session.
unfoldable pub remove_session : ℤ → ServerState → ServerState
unfolding retire_session
remove_session id w =
    let (m, found) = Manager.remove_session w.manager id in
    elim found [
      | none ↦ record w { manager = m }
      | some r ↦ retire_session r (record w { manager = m })
    ]

-- Session::close_session. Nothing happens when another close won.
unfoldable pub close_session : ℕ → ServerState → ServerState
unfolding remove_session on_session
close_session r w = elim (begin_close (session_of w r)) [
  | none ↦ w
  | some s ↦ on_session r cleanup (remove_session s.session_id (on_session r (λ _. s) w))
]

unfoldable pub close_all : List ℕ → ServerState → ServerState
close_all [] w = w
close_all (r ∷ rs) w = close_all rs (close_session r w)

unfoldable pub emit_write : ℕ → Option (ℕ × Text) → ServerState → ServerState
unfolding emit
emit_write r none w = w
emit_write r (some (generation, msg)) w = emit (starts_write r generation msg) w

unfoldable pub close_if : Bool → ℕ → ServerState → ServerState
close_if true r w = close_session r w
close_if false r w = w

-- Session::post_write: the lambda runs at once.
unfoldable pub post_write : Config → ℕ → Text → ServerState → ServerState
unfolding on_session emit_write close_if
post_write c r msg w =
    let (s, close, started) = Queues.post_write c (session_of w r) msg in
    close_if close r (emit_write r started (on_session r (λ _. s) w))

-- The completion handler of a write of do_write_queue, which captured `generation`.
unfoldable pub on_written : ℕ → ℕ → Bool → ServerState → ServerState
unfolding on_session emit_write close_if
on_written r generation failed w =
    let (s, close, started) = Queues.on_written (session_of w r) generation failed in
    close_if close r (emit_write r started (on_session r (λ _. s) w))

unfoldable pub write_all : Config → Text → List ℕ → ServerState → ServerState
write_all c msg [] w = w
write_all c msg (r ∷ rs) w = write_all c msg rs (post_write c r msg w)

-- Who a broadcast reaches: the copy is made before the first write.
unfoldable pub is_receiver : ℤ → Session → Bool
is_receiver sender_session_id s =
    not (int_eq s.session_id sender_session_id) && not (is_empty s.nickname)

unfoldable pub receivers : (Session → Bool) → ServerState → List ℕ
receivers wanted w = select (λ r. wanted (session_of w r)) (Manager.for_each_session w.manager)

unfoldable pub broadcast : Config → Text → ℤ → ServerState → ServerState
unfolding receivers is_receiver
broadcast c msg sender_session_id w =
    write_all c msg (receivers (is_receiver sender_session_id) w) w

unfoldable pub broadcast_zone_tcp : Config → Text → ℤ → ℤ → ServerState → ServerState
unfolding receivers is_receiver
broadcast_zone_tcp c msg zone_id sender_session_id w =
    write_all c msg (receivers (λ s. is_receiver sender_session_id s && int_eq s.zone_id zone_id) w)
      w

unfoldable pub broadcast_strict : Config → Text → ServerState → ServerState
broadcast_strict c msg w = write_all c msg (Manager.for_each_session w.manager) w
