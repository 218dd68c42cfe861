-- ===== src/Server/Trace/Stale.antt =====
-- A write that was in flight when its session was closed: its completion handler carries the generation
-- that do_write_queue captured, and the close and the next acquire count the generation on.
use server_application.Common.{
  ℕ, ◌+◌, ◌^◌, ◌<◌, ◌≡◌, ◌≢◌, refl, ap, ◌∙◌, Bool, false, none, arith, lt→ltb, length, ℤ,
}
use server_application.Session.{Session, cleanup, reset, u64}
use server_application.Session.Life.{IsOpen}
use server_application.Session.Queues.{on_written}
use server_application.Session.Udp.{clear_udp_token}
use server_application.Pool.{Pool, modify, prepare, retire, contains}
use server_application.Pool.Leases.{length-modify}
use server_application.Zones.{Zones, leave_zone}
use server_application.Server.{
  ServerState, get_session, session_of, on_session, close_session, retire_session,
}
use server_application.Server.Closing.{not_waiting, release-fresh}
use server_application.Server.Books.{IsSound, IsHeld, get_session-modify}
use server_application.Server.Trace.{ending, on_session-size}
use server_application.Server.Trace.Close.{closing_state, closed_session, in_pool, its_state}

get_session-modify_self :
    (p : Pool) (r : ℕ) (f : Session → Session)
    → r < length p.sessions
    → get_session (modify r f p.sessions) r ≡ f (get_session p.sessions r)
get_session-modify_self p r f h =
    get_session-modify r r f p.sessions ∙ rw (lt→ltb _ _ h) (ground arith)

leave_zone-generation :
    (zones : Zones) (s : Session)
    → (leave_zone zones (clear_udp_token s)).1.generation ≡ s.generation
unfolding leave_zone clear_udp_token
leave_zone-generation zones s = ground arith

-- release retires a session that does not wait.
retire_session-generation :
    (r : ℕ) (u : ServerState)
    → r < length u.pool.sessions
    → contains r u.pool.available ≡ false
    → (session_of (retire_session r u) r).generation ≡ u64 ((session_of u r).generation + 1)
unfolding retire_session retire cleanup
retire_session-generation r u h e =
    let left = (leave_zone u.zones (clear_udp_token (session_of u r))).1 in
    let put : Pool = record u.pool { sessions = modify r (λ _. left) u.pool.sessions } in
    let size : r < length put.sessions =
      omega (arith, length-modify r (λ _. left) u.pool.sessions, h) in
    ap (λ (p : Pool). (get_session p.sessions r).generation) (release-fresh put r size e)
    ∙ ap (λ (s : Session). s.generation) (get_session-modify_self put r retire size)
    ∙ ap (λ (s : Session). u64 (s.generation + 1)) (get_session-modify_self u.pool r (λ _. left) h)
    ∙ ap (λ n. u64 (n + 1)) (leave_zone-generation u.zones (session_of u r))

-- A close counts the generation of its session on by two.
close_session-generation :
    (r : ℕ) (w : ServerState)
    → IsSound w
    → IsHeld w r
    → IsOpen (session_of w r).life
    → (session_of (close_session r w) r).generation
      ≡ u64 (u64 ((session_of w r).generation + 1) + 1)
unfolding cleanup on_session
close_session-generation r w v held o =
    let there = in_pool r w v held o in
    let retired =
      retire_session-generation r (closing_state r w)
        (omega (arith, on_session-size r (λ _. ending (session_of w r)) w, there))
        (not_waiting r w v held) in
    ap (λ (s : Session). s.generation) (closed_session r w v held o)
    ∙ ap (λ n. u64 (n + 1))
        (retired ∙ ap (λ (s : Session). u64 (s.generation + 1)) (its_state r w v held o))

prepare-generation :
    (id : ℤ) (now : ℕ) (s : Session)
    → (prepare id now s).generation ≡ u64 (u64 (s.generation + 1) + 1)
unfolding prepare reset cleanup
prepare-generation id now s = refl

ignored :
    (s : Session) (generation : ℕ) (failed : Bool)
    → generation ≢ s.generation
    → on_written s generation failed ≡ (s, false, none)
unfolding on_written
ignored s generation failed h = ground arith

-- A write that was in flight when its session was closed ends, with or without an error: the handler
-- does nothing, neither on the session object that waits for the next client nor on the one that
-- acquire has prepared for it. The generation that it captured before the close is not the
-- object's any more.
pub stale_write_ignored :
    (r : ℕ) (w : ServerState) (id : ℤ) (now : ℕ) (failed : Bool)
    → IsSound w
    → IsHeld w r
    → IsOpen (session_of w r).life
    → (session_of w r).generation < 2 ^ 64
    → let captured = (session_of w r).generation in
      let waiting = session_of (close_session r w) r in
      let reused = prepare id now waiting in
      (on_written waiting captured failed ≡ (waiting, false, none))
      × (on_written reused captured failed ≡ (reused, false, none))
stale_write_ignored r w id now failed v held o small =
    let waiting = session_of (close_session r w) r in
    let by_close = close_session-generation r w v held o in
    let by_acquire = prepare-generation id now waiting in
    (
      ignored waiting _ failed (λ e. omega (arith, e, by_close, small)),
      ignored (prepare id now waiting) _ failed
          (λ e. omega (arith, e, by_close, by_acquire, small)),
    )
