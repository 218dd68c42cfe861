-- ===== src/Server/Run.antt =====
-- Runs of the server: connections, messages, datagrams, timers and completion handlers in any order.
use server_application.Common.{
  ℕ, zero, suc, ◌^◌, ◌<◌, ◌≤◌, ◌≡◌, ◌≢◌, ◌⊎◌, inl, inr, refl, sym, subst, ap, ◌∙◌, Bool, true, none,
  some, List, [], ◌∷◌, ◌++◌, arith, length, ◌==◌, lookup, Text, ℤ, minus_one, int_eq, int_eq_iff,
  Bool-cases,
}
use server_application.Json.{Codec}
use server_application.Session.{Session, Config, Endpoint, new_session}
use server_application.Pool.{Pool, fill, new_pool, contains}
use server_application.Pool.Leases.{count, started, started-Inv}
use server_application.Manager.{new_manager, find_session, bucket_of, new_buckets, get_shard}
use server_application.Manager.Shards.{length-new_buckets, bucket_of-new}
use server_application.Server.{ServerState, get_session, new_server, close_session, on_written}
use server_application.Server.Sessions.{
  do_keepalive_check, cleanup_inactive_sessions, expire_stale_udp_endpoints, do_read,
  on_login_timeout, on_accept,
}
use server_application.Server.Login.{on_user_info_ok, on_request_error}
use server_application.Server.Messages.{on_message, next_task}
use server_application.Server.Datagrams.{on_datagram}
use server_application.Server.Books.{
  IsSound, IsHeld, IsIssued, Keeps-IsSound, found, id_of, id-choose,
}
use server_application.Server.Opening.Acquire.{get_session-snoc}
use server_application.Server.Closing.Calls.{close_session-IsSound}
use server_application.Server.Upkeep.Timers.{
  do_keepalive_check-IsSound, cleanup_inactive_sessions-IsSound, expire_stale_udp_endpoints-IsSound,
  do_read-IsSound, on_login_timeout-IsSound, on_accept-IsSound, on_written-IsSound,
  next_task-IsSound,
}
use server_application.Server.Serving.{on_user_info_ok-IsSound, on_request_error-IsSound}
use server_application.Server.Serving.Handlers.{on_message-IsSound}
use server_application.Server.Quiet.Datagrams.{on_datagram-Keeps}

pub data Event (J : Type 0) : Type 0 where
  accepts : ℕ → Event J
  message : Bool → ℕ → ℕ → Text → Event J
  user_info : ℕ → Text → J → Event J
  user_info_error : ℕ → J → Event J
  datagram : ℕ → Text → ℕ → Bool → Text → Endpoint → Event J
  reads : ℕ → Event J
  runs_task : ℕ → Event J
  written : ℕ → ℕ → Bool → Event J
  closes : ℕ → Event J
  login_timeout : ℕ → Event J
  keepalive_check : ℕ → Event J
  inactive_check : ℕ → Event J
  udp_expiry : Event J

module _ {J : Type 0} (codec : Codec J) (c : Config) (refill_of : ℕ → ℕ) where
  unfoldable pub serve : Event J → ServerState → ServerState
  serve (accepts now) w = on_accept c now w
  serve (message db_connected now r text) w = on_message codec c db_connected now r text w
  serve (user_info r nickname j) w = on_user_info_ok codec c r nickname j w
  serve (user_info_error r j) w = on_request_error codec c r j w
  serve (datagram thread token now failed text from) w =
      on_datagram codec c refill_of thread token now failed text from w
  serve (reads r) w = do_read c r w
  serve (runs_task r) w = next_task r w
  serve (written r generation failed) w = on_written r generation failed w
  serve (closes r) w = close_session r w
  serve (login_timeout r) w = on_login_timeout c r w
  serve (keepalive_check now) w = do_keepalive_check now w
  serve (inactive_check now) w = cleanup_inactive_sessions now w
  serve udp_expiry w = expire_stale_udp_endpoints w

  unfoldable pub serve_all : List (Event J) → ServerState → ServerState
  serve_all [] w = w
  serve_all (e ∷ es) w = serve_all es (serve e w)

  -- What an event needs: an id that is not used yet, and a session that was not closed before its
  -- message or the answer to its login came.
  abbrev pub IsReady : Event J → ServerState → Type 0
  IsReady (accepts now) w = w.session_counter < 2 ^ 31
  IsReady (message db_connected now r text) w = IsHeld w r
  IsReady (user_info r nickname j) w = IsHeld w r
  IsReady _ w = Unit {0}

  abbrev pub AreReady : List (Event J) → ServerState → Type 0
  AreReady [] w = Unit {0}
  AreReady (e ∷ es) w = IsReady e w × AreReady es (serve e w)

  serve-IsSound : (e : Event J) (w : ServerState) → IsReady e w → IsSound w → IsSound (serve e w)
  unfolding serve
  serve-IsSound (accepts now) w h v = on_accept-IsSound c now w h v
  serve-IsSound (message db_connected now r text) w h v =
      on_message-IsSound codec c db_connected now r text w v h
  serve-IsSound (user_info r nickname j) w h v = on_user_info_ok-IsSound codec c r nickname j w v h
  serve-IsSound (user_info_error r j) w h v = on_request_error-IsSound codec c r j w v
  serve-IsSound (datagram thread token now failed text from) w h v =
      Keeps-IsSound (on_datagram-Keeps codec c refill_of thread token now failed text from w) v
  serve-IsSound (reads r) w h v = do_read-IsSound c r w v
  serve-IsSound (runs_task r) w h v = next_task-IsSound r w v
  serve-IsSound (written r generation failed) w h v = on_written-IsSound r generation failed w v
  serve-IsSound (closes r) w h v = close_session-IsSound r w v
  serve-IsSound (login_timeout r) w h v = on_login_timeout-IsSound c r w v
  serve-IsSound (keepalive_check now) w h v = do_keepalive_check-IsSound now w v
  serve-IsSound (inactive_check now) w h v = cleanup_inactive_sessions-IsSound now w v
  serve-IsSound udp_expiry w h v = expire_stale_udp_endpoints-IsSound w v

  pub serve_all-IsSound :
      (es : List (Event J)) (w : ServerState) → AreReady es w → IsSound w → IsSound (serve_all es w)
  unfolding serve_all
  serve_all-IsSound [] w h v = v
  serve_all-IsSound (e ∷ es) w h v = serve_all-IsSound es _ (h.1) (serve-IsSound e w (h.0) v)

snoc_id :
    (ss : List Session) (s : Session) (i : ℕ)
    → s.session_id ≡ minus_one
    → (get_session ss i).session_id ≡ minus_one
    → (get_session (ss ++ s ∷ []) i).session_id ≡ minus_one
snoc_id ss s i h k =
    ap (λ (t : Session). t.session_id) (get_session-snoc ss s i)
    ∙ id-choose (length ss == i) s (get_session ss i) minus_one h k

nothing_found : (shards : ℕ) (id : ℤ) → find_session (new_manager shards) id ≡ none
unfolding find_session new_manager bucket_of lookup
nothing_found shards id = rw (bucket_of-new shards (get_shard (length (new_buckets shards)) id))

found_nothing : (shards : ℕ) (id : ℤ) (r : ℕ) → find_session (new_manager shards) id ≡ some r → ⊥
found_nothing shards id r e = cc (nothing_found shards id, e)

waits_once :
    (pool_size max_size now r : ℕ)
    → r < length (new_pool pool_size max_size now).sessions
    → count r (new_pool pool_size max_size now).reusable ≡ 1
unfolding started
waits_once pool_size max_size now r h =
    ground (arith, (started-Inv pool_size max_size now).partition r)

waits_not :
    (pool_size max_size now r : ℕ)
    → length (new_pool pool_size max_size now).sessions ≤ r
    → count r (new_pool pool_size max_size now).reusable ≡ 0
unfolding started
waits_not pool_size max_size now r h =
    ground (arith, (started-Inv pool_size max_size now).partition r)

all_waiting :
    (pool_size max_size now r : ℕ)
    → contains r (new_pool pool_size max_size now).available ≡ true
    → count r (new_pool pool_size max_size now).reusable ≡ 1
unfolding started
all_waiting pool_size max_size now r h = (started-Inv pool_size max_size now).waiting r h

-- A new pool: every session without an id.
get_session-fill :
    (n now : ℕ) (p : Pool)
    → ((r : ℕ) → (get_session p.sessions r).session_id ≡ minus_one)
    → (r : ℕ) → (get_session (fill n now p).sessions r).session_id ≡ minus_one
unfolding fill new_session
get_session-fill zero now p h r = h r
get_session-fill (suc n) now p h r =
    get_session-fill n now _ (λ i. snoc_id p.sessions (new_session minus_one now) i refl (h i)) r

-- A server that was just made: nothing is held.
pub new_server-IsSound :
    (c : Config) (shards pool_size max_size now : ℕ)
    → 0 < shards
    → IsSound (new_server c shards pool_size max_size now)
unfolding new_server new_pool new_manager
new_server-IsSound c shards pool_size max_size now h =
    let w = new_server c shards pool_size max_size now in
    let ids : (r : ℕ) → id_of w r ≡ minus_one =
      λ r. get_session-fill pool_size now _ (λ i. refl) r in
    record {
      shards = rw (length-new_buckets shards) h;
      partition =
          λ r range. inl (waits_once pool_size max_size now r range, nothing_found shards _);
      outside = λ r range. waits_not pool_size max_size now r range;
      named = λ id r e. absurd (found_nothing shards id r e);
      waiting = λ r e. all_waiting pool_size max_size now r e;
      issued = λ r. subst (IsIssued 0) (sym (ids r)) refl;
    }

-- The server, with at least one shard, after a run of events from its start, each message of a read
-- an event by itself, where no answer to a login and no message comes for a session that was closed
-- before, and fewer than 2 ^ 31 connections were made: every session of the pool either waits in the
-- queue of free sessions exactly once and is known to the manager under no id, or it does not wait
-- and is known under its own id and under no other.
pub each_session_accounted :
    {J : Type 0} (codec : Codec J) (c : Config) (refill_of : ℕ → ℕ)
    (shards pool_size max_size start : ℕ) (es : List (Event J)) (r : ℕ) (id : ℤ)
    → 0 < shards
    → AreReady codec c refill_of es (new_server c shards pool_size max_size start)
    → r
      < length
          (serve_all codec c refill_of es
            (new_server c shards pool_size max_size start)).pool.sessions
    → let w = serve_all codec c refill_of es (new_server c shards pool_size max_size start) in
      ((count r w.pool.reusable ≡ 1) × (found w id ≢ some r))
      ⊎ ((count r w.pool.reusable ≡ 0)
          × (found w (id_of w r) ≡ some r)
          × ((id_of w r ≡ id) ⊎ (found w id ≢ some r)))
each_session_accounted codec c refill_of shards pool_size max_size start es r id h ready range =
    let w0 = new_server c shards pool_size max_size start in
    let w = serve_all codec c refill_of es w0 in
    let v =
      serve_all-IsSound codec c refill_of es w0 ready
        (new_server-IsSound c shards pool_size max_size start h) in
    elim (v.partition r range) [
      | inl (waits, absent) ↦ inl (waits, λ e. cc (absent, ap (found w) ((v.named id r e).0), e))
      | inr (taken, known) ↦ inr (
        taken,
        known,
        elim (Bool-cases (int_eq (id_of w r) id)) [
          | inl same ↦ inl ((int_eq_iff (id_of w r) id).0 same)
          | inr other ↦ inr (λ e. cc (other, (int_eq_iff (id_of w r) id).1 ((v.named id r e).0)))
        ],
      )
    ]
