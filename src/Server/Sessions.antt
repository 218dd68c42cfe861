-- ===== src/Server/Sessions.antt =====
-- What Session.cpp, SessionManager.cpp and Server.cpp do with a session in the whole server: the end
-- of one that idles or never logs in, a connection that is accepted, the start of a read.
use server_application.Common.{
  ℕ, ◌+◌, ◌-◌, ◌*◌, ◌%◌, ◌^◌, Bool, true, false, ◌&&◌, Option, none, some, List, [], ◌∷◌, ltb,
  if◌then◌else◌, length, take, codes, ℤ, pos, negsuc, Map, erase,
}
use server_application.Session.{
  Session, Endpoint, Config, SessionState, handshaking, login_wait, closed_state, Task, read_some,
}
use server_application.Session.Queues.{post_task, try_acquire_read}
use server_application.Session.Udp.{clear_udp_token, ns_per_sec}
use server_application.Pool
use server_application.Manager
use server_application.Server.{
  ServerState, starts_read, arms_login_timer, session_of, on_session, emit, close_session,
  close_all, close_if, post_write, receivers, endpoint_key,
}

-- DataHandler::add_session and SessionManager::add_session, which closes what it replaced.
unfoldable pub close_found : Option ℕ → ServerState → ServerState
close_found none w = w
close_found (some r) w = close_session r w

unfoldable pub add_session : ℕ → ServerState → ServerState
unfolding close_found
add_session r w =
    let (m, replaced) =
      Manager.add_session (λ i. (session_of w i).generation) (λ i. (session_of w i).closed)
        w.manager (session_of w r).session_id r in
    close_found replaced (record w { manager = m })

abbrev pub keepalive_timeout : ℕ
keepalive_timeout = 60 * ns_per_sec

-- DataHandler::do_keepalive_check.
unfoldable pub is_silent : ℕ → Session → Bool
is_silent now s = s.nickname_registered && ltb keepalive_timeout (now - s.last_alive_time)

unfoldable pub do_keepalive_check : ℕ → ServerState → ServerState
unfolding is_silent receivers
do_keepalive_check now w = close_all (receivers (is_silent now) w) w

-- SessionManager::cleanup_inactive_sessions, with the five minutes of start_cleanup_loop.
unfoldable pub cleanup_inactive_sessions : ℕ → ServerState → ServerState
cleanup_inactive_sessions now w =
    close_all
      (Manager.inactive_sessions (λ r. (session_of w r).last_alive_time) w.manager now
        (300 * ns_per_sec))
      w

-- DataHandler::expire_stale_udp_endpoints for one session: an idle one is only logged.
unfoldable pub forget_endpoint : Option Endpoint → Map Endpoint ℕ → Map Endpoint ℕ
forget_endpoint none m = m
forget_endpoint (some ep) m = erase ep m

unfoldable pub expire_one : ℕ → ServerState → ServerState
unfolding on_session forget_endpoint
expire_one r w =
    let s = session_of w r in
    let cleared = on_session r (λ s. clear_udp_token (record s { udp_endpoint = none })) w in
    if s.closed
    then record cleared {
      udp_endpoint_to_session = forget_endpoint s.udp_endpoint w.udp_endpoint_to_session;
    }
    else w

unfoldable pub expire_all : List ℕ → ServerState → ServerState
unfolding expire_one
expire_all [] w = w
expire_all (r ∷ rs) w = expire_all rs (expire_one r w)

unfoldable pub expire_stale_udp_endpoints : ServerState → ServerState
unfolding expire_all
expire_stale_udp_endpoints w = expire_all (Manager.for_each_session w.manager) w

-- DataHandler::cleanup_unauth_sessions: the oldest first. `sort` leaves open the order of equal times;
-- here the one that was found first comes first.
unfoldable pub is_unauth : Session → Bool
is_unauth s = elim s.state [ handshaking ↦ true | login_wait ↦ true | _ ↦ false ]

unfoldable pub insert_by : (ℕ → ℕ) → ℕ → List ℕ → List ℕ
insert_by key r [] = r ∷ []
insert_by key r (x ∷ xs) = if ltb (key x) (key r) then x ∷ insert_by key r xs else r ∷ x ∷ xs

unfoldable pub sort_by : (ℕ → ℕ) → List ℕ → List ℕ
unfolding insert_by
sort_by key [] = []
sort_by key (r ∷ rs) = insert_by key r (sort_by key rs)

unfoldable pub cleanup_unauth_sessions : ℕ → ServerState → ServerState
unfolding is_unauth receivers sort_by
cleanup_unauth_sessions max_unauth w =
    let unauth = receivers is_unauth w in
    let oldest_first = sort_by (λ r. (session_of w r).last_alive_time) unauth in
    if ltb max_unauth (length unauth)
    then close_all (take (length unauth - max_unauth) oldest_first) w
    else w

-- Session::do_read, as far as the read that it starts.
unfoldable pub is_closed_state : SessionState → Bool
is_closed_state closed_state = true
is_closed_state _ = false

unfoldable pub emit_read : ℕ → Option Task → ServerState → ServerState
unfolding emit
emit_read r none w = w
emit_read r (some read_some) w = emit (starts_read r) w

unfoldable pub do_read : Config → ℕ → ServerState → ServerState
unfolding on_session is_closed_state emit_read
do_read c r w =
    let (reading, acquired) = try_acquire_read (session_of w r) in
    let (s, started, close) = post_task c reading read_some in
    let posted = close_if close r (emit_read r started (on_session r (λ _. s) w)) in
    if is_closed_state (session_of w r).state
    then w
    else if acquired
    then posted
    else on_session r (λ _. reading) w

unfoldable pub start_login_timeout : ℕ → ServerState → ServerState
unfolding on_session emit is_closed_state
start_login_timeout r w =
    if is_closed_state (session_of w r).state
    then w
    else emit (arms_login_timer r) (on_session r (λ s. record s { login_timer_armed = true }) w)

-- The login timer has expired, and was not cancelled.
unfoldable pub on_login_timeout : Config → ℕ → ServerState → ServerState
on_login_timeout c r w =
    let notice =
      codes
        "{\"type\":\"notice\",\"msg\":\"Your connection has been terminated due to a login timeout.\"}\n" in
    if (session_of w r).nickname_registered then w else close_session r (post_write c r notice w)

unfoldable pub start : Config → ℕ → ServerState → ServerState
unfolding do_read start_login_timeout
start c r w = start_login_timeout r (do_read c r w)

-- `session_counter_.fetch_add(1)` on an `atomic<int>`, which wraps around.
unfoldable pub int_of : ℕ → ℤ
int_of n = let m = n % 2 ^ 32 in if ltb m (2 ^ 31) then pos m else negsuc (2 ^ 32 - 1 - m)

abbrev pub max_unauth_sessions : ℕ
max_unauth_sessions = 100

-- What Server::start_accept does with a session that it got.
unfoldable pub welcome : Config → ℕ → ServerState → ServerState
unfolding add_session cleanup_unauth_sessions start
welcome c r w = start c r (cleanup_unauth_sessions max_unauth_sessions (add_session r w))

unfoldable pub accept_as : Config → ℤ → ℕ → ServerState → ServerState
unfolding welcome
accept_as c id now w =
    let (p, got) = Pool.acquire w.pool id now in
    let counted = record w { session_counter = w.session_counter + 1; pool = p } in
    elim got [ none ↦ counted | some r ↦ welcome c r counted ]

-- Server::start_accept, when a connection came.
unfoldable pub on_accept : Config → ℕ → ServerState → ServerState
unfolding int_of accept_as
on_accept c now w = accept_as c (int_of w.session_counter) now w
