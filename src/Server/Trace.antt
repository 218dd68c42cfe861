-- ===== src/Server/Trace.antt =====
-- What a close leaves behind of a session that was in use.
pub mod Close
pub mod Stale
use server_application.Common.{
  ℕ, ◌<◌, ◌≡◌, ◌≢◌, ◌⊎◌, refl, sym, subst, ap, ◌∙◌, true, false, Option, none, some, [], arith,
  lt→ltb, length, ℤ, int_key, is_nonneg, Map, lookup, lookup-erase, same_self, insert,
  lookup-insert_self, Bool-cases, Option-cases, inl, inr,
}
use server_application.Session.{
  Session, Endpoint, begin_close, cleanup, idle, closed_life, closed_state,
}
use server_application.Session.Life.{IsOpen}
use server_application.Session.Udp.{clear_udp_token}
use server_application.Pool.{Pool, modify, retire, release}
use server_application.Pool.Leases.{count, length-modify}
use server_application.Manager
use server_application.Zones.{Zone, Zones, get_zone, remove_from_zone, leave_zone}
use server_application.Server.{
  ServerState, get_session, session_of, on_session, close_session, remove_session, retire_session,
  erase_if_owner, endpoint_key,
}
use server_application.Server.Closing.{removed_is_found}
use server_application.Server.Closing.Calls.{Retires-ends}
use server_application.Server.Closing.Calls.{close_session-Retires, close_session_begun}
use server_application.Server.Books.{
  IsSound, IsHeld, found, id_of, get_session-modify, on_session-Keeps,
}

-- Whom the endpoint map names for an endpoint that a session may have.
abbrev pub entry : Option Endpoint → Map Endpoint ℕ → Option ℕ
entry none m = none
entry (some ep) m = lookup ep m

erase_if_owner-gone :
    (r : ℕ) (o : Option Endpoint) (m : Map Endpoint ℕ) → entry o (erase_if_owner r o m) ≢ some r
unfolding erase_if_owner
erase_if_owner-gone r none m e = cc e
erase_if_owner-gone r (some ep) m e = ground (arith, lookup-erase ep ep m, same_self ep)

-- Who stands under an id in a zone.
unfoldable pub zone_member : Zones → ℤ → ℤ → Option ℕ
zone_member zones zone_id id = elim (get_zone zones zone_id) [
  | none ↦ none
  | some z ↦ lookup id z.sessions
]

leave_zone_absent :
    (zones : Zones) (s : Session) → lookup s.zone_id zones ≡ none → (leave_zone zones s).0 ≡ zones
unfolding leave_zone
leave_zone_absent zones s e = ground (arith, e)

leave_zone_there :
    (zones : Zones) (s : Session) (z : Zone)
    → is_nonneg s.zone_id ≡ true
    → lookup s.zone_id zones ≡ some z
    → (leave_zone zones s).0 ≡ insert s.zone_id (remove_from_zone z s.session_id) zones
unfolding leave_zone
leave_zone_there zones s z h e = ground (arith, e)

leave_zone-member :
    (zones : Zones) (s : Session)
    → is_nonneg s.zone_id ≡ true
    → zone_member (leave_zone zones s).0 s.zone_id s.session_id ≡ none
unfolding zone_member get_zone remove_from_zone
leave_zone-member zones s h = elim (Option-cases (lookup s.zone_id zones)) [
  | inl e ↦ rw (leave_zone_absent zones s e) (rw (e, zone_member))
  | inr (z, e) ↦ rw (leave_zone_there zones s z h e) (
      rw (lookup-insert_self s.zone_id (remove_from_zone z s.session_id) zones, zone_member)
        (lookup-erase s.session_id s.session_id z.sessions ∙ rw (same_self s.session_id)))
]

-- The session while it is being closed.
abbrev pub ending : Session → Session
ending s = record s {
  life = closed_life;
  state = closed_state;
  login_timer_armed = false;
  socket_open = false;
}

pub remove_session-found :
    (r : ℕ) (id : ℤ) (w : ServerState)
    → found w id ≡ some r
    → remove_session id w
      ≡ retire_session r (record w { manager = (Manager.remove_session w.manager id).0 })
unfolding remove_session
remove_session-found r id w e = rw (removed_is_found w.manager id ∙ e, remove_session)

pub begin_close-ending : (s : Session) → IsOpen s.life → begin_close s ≡ some (ending s)
unfolding begin_close
begin_close-ending s (inl h) = ground arith
begin_close-ending s (inr h) = ground arith

pub session_of_self :
    (r : ℕ) (f : Session → Session) (w : ServerState)
    → r < length w.pool.sessions
    → session_of (on_session r f w) r ≡ f (session_of w r)
unfolding on_session
session_of_self r f w h =
    get_session-modify r r f w.pool.sessions ∙ rw (lt→ltb _ _ h) (ground arith)

pub session_of-other :
    (r i : ℕ) (f : Session → Session) (w : ServerState)
    → r ≢ i
    → session_of (on_session r f w) i ≡ session_of w i
unfolding on_session
session_of-other r i f w n = get_session-modify r i f w.pool.sessions ∙ ground arith

-- Where release and retire_session leave the sessions.
release-size : (p : Pool) (r : ℕ) → length (release p r).sessions ≡ length p.sessions
unfolding release
release-size p r = ground (arith, length-modify r retire p.sessions)

release-other :
    (p : Pool) (r i : ℕ) → r ≢ i → get_session (release p r).sessions i ≡ get_session p.sessions i
unfolding release
release-other p r i n = ground (arith, get_session-modify r i retire p.sessions)

pub retire_session-other :
    (r i : ℕ) (w : ServerState) → r ≢ i → session_of (retire_session r w) i ≡ session_of w i
unfolding retire_session
retire_session-other r i w n =
    let left = (leave_zone w.zones (clear_udp_token (session_of w r))).1 in
    release-other (record w.pool { sessions = modify r (λ _. left) w.pool.sessions }) r i n
    ∙ get_session-modify r i (λ _. left) w.pool.sessions
    ∙ ground arith

retire_session-size :
    (r : ℕ) (w : ServerState) → length (retire_session r w).pool.sessions ≡ length w.pool.sessions
unfolding retire_session
retire_session-size r w =
    let left = (leave_zone w.zones (clear_udp_token (session_of w r))).1 in
    release-size (record w.pool { sessions = modify r (λ _. left) w.pool.sessions }) r
    ∙ length-modify r (λ _. left) w.pool.sessions

pub on_session-size :
    (r : ℕ) (f : Session → Session) (w : ServerState)
    → length (on_session r f w).pool.sessions ≡ length w.pool.sessions
unfolding on_session
on_session-size r f w = length-modify r f w.pool.sessions
