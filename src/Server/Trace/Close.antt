-- ===== src/Server/Trace/Close.antt =====
-- close_session for a session that is held, and what is left of it.
use server_application.Common.{
  ℕ, ◌<◌, ◌≡◌, ◌≢◌, ◌⊎◌, refl, sym, subst, ap, ◌∙◌, true, false, none, some, [], arith, length,
  int_key, is_nonneg, lookup, insert, Bool-cases, inl, inr,
}
use server_application.Session.{Session, cleanup, idle}
use server_application.Session.Life.{IsOpen}
use server_application.Session.Udp.{clear_udp_token}
use server_application.Pool.{modify}
use server_application.Pool.Leases.{count}
use server_application.Manager
use server_application.Zones.{Zones, leave_zone}
use server_application.Server.{
  ServerState, session_of, on_session, close_session, retire_session, erase_if_owner, endpoint_key,
}
use server_application.Server.Closing.Calls.{Retires-ends}
use server_application.Server.Closing.Calls.{close_session-Retires, close_session_begun}
use server_application.Server.Books.{IsSound, IsHeld, found, id_of, on_session-Keeps}
use server_application.Server.Trace.{
  begin_close-ending, ending, entry, erase_if_owner-gone, leave_zone-member, on_session-size,
  remove_session-found, retire_session-other, retire_session-size, session_of-other,
  session_of_self, zone_member,
}

-- The server while a session of it is being closed.
abbrev pub closing_state : ℕ → ServerState → ServerState
closing_state r w =
    let put = on_session r (λ _. ending (session_of w r)) w in
    record put { manager = (Manager.remove_session put.manager (id_of w r)).0 }

-- A close of a session that is held, in one equation.
close_session_held :
    (r : ℕ) (w : ServerState)
    → IsSound w
    → IsHeld w r
    → IsOpen (session_of w r).life
    → close_session r w ≡ on_session r cleanup (retire_session r (closing_state r w))
close_session_held r w v held o =
    let k = on_session-Keeps r (λ _. ending (session_of w r)) w refl in
    close_session_begun r w (ending (session_of w r)) (begin_close-ending (session_of w r) o)
    ∙ ap (on_session r cleanup) (
        remove_session-found r (id_of w r) (on_session r (λ _. ending (session_of w r)) w)
          (k.finds (id_of w r) ∙ held.1))

retired_zones :
    (r : ℕ) (u : ServerState)
    → (on_session r cleanup (retire_session r u)).zones
      ≡ (leave_zone u.zones (clear_udp_token (session_of u r))).0
unfolding on_session retire_session
retired_zones r u = refl

leave_zone-member_cleared :
    (zones : Zones) (s : Session)
    → is_nonneg s.zone_id ≡ true
    → zone_member (leave_zone zones (clear_udp_token s)).0 s.zone_id s.session_id ≡ none
unfolding clear_udp_token
leave_zone-member_cleared zones s h = leave_zone-member zones (clear_udp_token s) h

module _ (r : ℕ) (w : ServerState) (v : IsSound w) (held : IsHeld w r)
    (o : IsOpen (session_of w r).life) where
  pub in_pool : r < length w.pool.sessions
  in_pool = (v.named (id_of w r) r (held.1)).1

  -- What retire_session reads is the session that ends.
  pub its_state : session_of (closing_state r w) r ≡ ending (session_of w r)
  its_state = session_of_self r (λ _. ending (session_of w r)) w in_pool

  retire_in_pool : r < length (retire_session r (closing_state r w)).pool.sessions
  retire_in_pool = omega (
    arith,
    retire_session-size r (closing_state r w),
    on_session-size r (λ _. ending (session_of w r)) w,
    in_pool,
  )

  pub closed_session :
      session_of (close_session r w) r
      ≡ cleanup (session_of (retire_session r (closing_state r w)) r)
  closed_session =
      ap (λ (u : ServerState). session_of u r) (close_session_held r w v held o)
      ∙ session_of_self r cleanup (retire_session r (closing_state r w)) retire_in_pool

  lease_ended :
      (found (close_session r w) (id_of w r) ≡ none)
      × (count r (close_session r w).pool.reusable ≡ 1)
  lease_ended =
      Retires-ends r
        (close_session-Retires r w (ending (session_of w r)) v held
          (begin_close-ending (session_of w r) o))
        v held

  other_sessions : (i : ℕ) → r ≢ i → session_of (close_session r w) i ≡ session_of w i
  other_sessions i n =
      ap (λ (u : ServerState). session_of u i) (close_session_held r w v held o)
      ∙ session_of-other r i cleanup (retire_session r (closing_state r w)) n
      ∙ retire_session-other r i (closing_state r w) n
      ∙ session_of-other r i (λ _. ending (session_of w r)) w n

  endpoint_gone :
      entry (session_of w r).udp_endpoint (close_session r w).udp_endpoint_to_session ≢ some r
  unfolding on_session erase_if_owner retire_session modify
  endpoint_gone = rw (close_session_held r w v held o) (
      subst
        (λ (s : Session).
          entry (session_of w r).udp_endpoint
            (erase_if_owner r s.udp_endpoint w.udp_endpoint_to_session)
          ≢ some r)
        (sym its_state)
        (erase_if_owner-gone r (session_of w r).udp_endpoint w.udp_endpoint_to_session))

  zone_left :
      is_nonneg (session_of w r).zone_id ≡ true
      → zone_member (close_session r w).zones (session_of w r).zone_id (id_of w r) ≡ none
  unfolding leave_zone zone_member lookup insert clear_udp_token on_session
  zone_left h =
      ap (λ (u : ServerState). zone_member u.zones (session_of w r).zone_id (id_of w r))
        (close_session_held r w v held o)
      ∙ ap (λ (z : Zones). zone_member z (session_of w r).zone_id (id_of w r))
          (retired_zones r (closing_state r w))
      ∙ ap
          (λ (s : Session).
            zone_member (leave_zone w.zones (clear_udp_token s)).0 (session_of w r).zone_id
              (id_of w r))
          its_state
      ∙ leave_zone-member_cleared w.zones (ending (session_of w r)) h

-- A close of a session that the manager knows, in a server whose books are in order: afterwards the
-- manager knows no session under its id, the session waits in the queue of free sessions exactly
-- once, its own UDP endpoint does not lead to it, its zone (if it has one) has no member under its
-- id, it has no nickname, no endpoint and no token, it can be opened again, and every other session
-- is as it was.
pub close_leaves_no_trace :
    (r : ℕ) (w : ServerState) (i : ℕ)
    → IsSound w
    → IsHeld w r
    → IsOpen (session_of w r).life
    → r ≢ i
    → let w' = close_session r w in
      (found w' (id_of w r) ≡ none)
      × (count r w'.pool.reusable ≡ 1)
      × (entry (session_of w r).udp_endpoint w'.udp_endpoint_to_session ≢ some r)
      × ((is_nonneg (session_of w r).zone_id ≡ false)
          ⊎ (zone_member w'.zones (session_of w r).zone_id (id_of w r) ≡ none))
      × ((session_of w' r).nickname ≡ [])
      × ((session_of w' r).udp_endpoint ≡ none)
      × ((session_of w' r).udp_token ≡ [])
      × ((session_of w' r).life ≡ idle)
      × (session_of w' i ≡ session_of w i)
unfolding cleanup
close_leaves_no_trace r w i v held o n =
    let cleaned = closed_session r w v held o in
    let ended = lease_ended r w v held o in
    (
      ended.0,
      ended.1,
      endpoint_gone r w v held o,
      elim (Bool-cases (is_nonneg (session_of w r).zone_id)) [
        | inl e ↦ inr (zone_left r w v held o e)
        | inr e ↦ inl e
      ],
      ap (λ (s : Session). s.nickname) cleaned,
      ap (λ (s : Session). s.udp_endpoint) cleaned,
      ap (λ (s : Session). s.udp_token) cleaned,
      ap (λ (s : Session). s.life) cleaned,
      other_sessions r w v held o i n,
    )
