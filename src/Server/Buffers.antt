-- ===== src/Server/Buffers.antt =====
-- What a handler leaves in the buffers of received bytes: no operation of the server but a read adds to
-- one.
pub mod Writes
use server_application.Common.{
  ℕ, zero, suc, ◌<◌, ◌≤◌, ◌≡◌, ◌⊎◌, inl, inr, refl, ap, Bool, true, false, Option, Option-cases,
  none, some, List, [], ◌∷◌, arith, length, if◌then◌else◌, Text, ℤ,
}
use server_application.Framing.{Buffer, clear}
use server_application.Session.{Session, Config, new_session, begin_close, cleanup}
use server_application.Session.Queues
use server_application.Session.Udp.{clear_udp_token}
use server_application.Pool.{modify, release, retire}
use server_application.Pool
use server_application.Manager
use server_application.Manager.{other_than}
use server_application.Zones
use server_application.Zones.{leave_zone}
use server_application.Server.{
  ServerState, Output, get_session, session_of, on_session, emit, retire_session, remove_session,
  close_session, emit_write, close_if, post_write, write_all, broadcast, broadcast_zone_tcp,
}
use server_application.Server.Sessions.{close_found, add_session}
use server_application.Server.Login.{evict, register_nickname, assign_session_to_zone}

abbrev pub bytes_of : Session → ℕ
bytes_of s = length s.msg_buf.bytes

abbrev pub buffered : ServerState → ℕ → ℕ
buffered w i = bytes_of (session_of w i)

-- No buffer is longer.
pub record Shrinks (u w : ServerState) : Type 0 where
  pub shrinks : (i : ℕ) → buffered w i ≤ buffered u i

-- The sessions are the same.
pub same_sessions :
    {u w w' : ServerState} → w'.pool.sessions ≡ w.pool.sessions → Shrinks u w → Shrinks u w'
same_sessions e v = record {
  shrinks =
      λ i. omega (arith, v.shrinks i, ap (λ (ss : List Session). bytes_of (get_session ss i)) e);
}

modify-bytes :
    (r i : ℕ) (f : Session → Session) (ss : List Session)
    → bytes_of (f (get_session ss r)) ≤ bytes_of (get_session ss r)
    → bytes_of (get_session (modify r f ss) i) ≤ bytes_of (get_session ss i)
unfolding modify
modify-bytes r i f [] h = omega arith
modify-bytes zero zero f (s ∷ ss) h = h
modify-bytes zero (suc i) f (s ∷ ss) h = omega arith
modify-bytes (suc r) zero f (s ∷ ss) h = omega arith
modify-bytes (suc r) (suc i) f (s ∷ ss) h = modify-bytes r i f ss h

pub modify_self :
    (r : ℕ) (f : Session → Session) (ss : List Session)
    → 0 < bytes_of (get_session ss r)
    → get_session (modify r f ss) r ≡ f (get_session ss r)
unfolding modify new_session
modify_self r f [] h = absurd (omega (arith, h))
modify_self zero f (s ∷ ss) h = refl
modify_self (suc r) f (s ∷ ss) h = modify_self r f ss h

-- The steps that touch no more than one session.
enqueue_write-bytes :
    (c : Config) (s : Session) (msg : Text) → (Queues.enqueue_write c s msg).0.msg_buf ≡ s.msg_buf
unfolding Queues.enqueue_write
enqueue_write-bytes c s msg = ground arith

do_write_queue-bytes : (s : Session) → (Queues.do_write_queue s).0.msg_buf ≡ s.msg_buf
unfolding Queues.do_write_queue
do_write_queue-bytes s = ground arith

post_write-bytes :
    (c : Config) (s : Session) (msg : Text) → (Queues.post_write c s msg).0.msg_buf ≡ s.msg_buf
unfolding Queues.post_write
post_write-bytes c s msg = ground (
  arith,
  enqueue_write-bytes c s msg,
  do_write_queue-bytes (record (Queues.enqueue_write c s msg).0 { write_in_progress = true }),
)

leave_zone-bytes : (zones : Zones.Zones) (s : Session) → (leave_zone zones s).1.msg_buf ≡ s.msg_buf
unfolding leave_zone
leave_zone-bytes zones s = ground arith

assign_session_to_zone-bytes :
    (zones : Zones.Zones) (s : Session) (r : ℕ) (zone_id : ℤ)
    → (Zones.assign_session_to_zone zones s r zone_id).1.msg_buf ≡ s.msg_buf
unfolding Zones.assign_session_to_zone
assign_session_to_zone-bytes zones s r zone_id = ground arith

begin_close-bytes : (s t : Session) → begin_close s ≡ some t → t.msg_buf ≡ s.msg_buf
unfolding begin_close
begin_close-bytes s t e = ground arith

cleanup-bytes : (s : Session) → bytes_of (cleanup s) ≤ bytes_of s
unfolding cleanup clear
cleanup-bytes s = omega arith

retire-bytes : (s : Session) → bytes_of (retire s) ≤ bytes_of s
unfolding retire cleanup clear
retire-bytes s = omega arith

release-sessions :
    (p : Pool.Pool) (r : ℕ)
    → ((release p r).sessions ≡ p.sessions) ⊎ ((release p r).sessions ≡ modify r retire p.sessions)
unfolding release
release-sessions p r = ground arith

release-bytes :
    (p : Pool.Pool) (r i : ℕ)
    → bytes_of (get_session (release p r).sessions i) ≤ bytes_of (get_session p.sessions i)
release-bytes p r i = elim (release-sessions p r) [
  | inl e ↦ rw e (omega arith)
  | inr e ↦ rw e (modify-bytes r i retire p.sessions (retire-bytes _))
]

module _ (u : ServerState) where
  pub on_session-Shrinks :
      (r : ℕ) (f : Session → Session) (w : ServerState)
      → bytes_of (f (session_of w r)) ≤ buffered w r
      → Shrinks u w
      → Shrinks u (on_session r f w)
  unfolding on_session
  on_session-Shrinks r f w h v = record {
    shrinks = λ i. omega (arith, modify-bytes r i f w.pool.sessions h, v.shrinks i);
  }

  pub if-Shrinks :
      (b : Bool) (x y : ServerState) → Shrinks u x → Shrinks u y → Shrinks u (if b then x else y)
  if-Shrinks true x y h k = h
  if-Shrinks false x y h k = k

  retire_session-Shrinks : (r : ℕ) (w : ServerState) → Shrinks u w → Shrinks u (retire_session r w)
  unfolding retire_session clear_udp_token
  retire_session-Shrinks r w v =
      let s = session_of w r in
      let left = (leave_zone w.zones (clear_udp_token s)).1 in
      let same =
        ap (λ (b : Buffer). length b.bytes) (leave_zone-bytes w.zones (clear_udp_token s)) in
      record {
        shrinks = λ i. omega (
          arith,
          release-bytes (record w.pool { sessions = modify r (λ _. left) w.pool.sessions }) r i,
          modify-bytes r i (λ _. left) w.pool.sessions (omega (arith, same)),
          v.shrinks i,
        );
      }

  remove_session-Shrinks :
      (id : ℤ) (w : ServerState) → Shrinks u w → Shrinks u (remove_session id w)
  unfolding remove_session
  remove_session-Shrinks id w v = elim (Option-cases (Manager.remove_session w.manager id).1) [
    | inl e ↦ rw (e, remove_session) (same_sessions {w = w} refl v)
    | inr (r, e) ↦
        rw (e, remove_session) (retire_session-Shrinks r _ (same_sessions {w = w} refl v))
  ]

  pub close_session-Shrinks :
      (r : ℕ) (w : ServerState) → Shrinks u w → Shrinks u (close_session r w)
  unfolding close_session
  close_session-Shrinks r w v = elim (Option-cases (begin_close (session_of w r))) [
    | inl e ↦ rw (e, close_session) v
    | inr (s, e) ↦
        rw (e, close_session)
          (on_session-Shrinks r cleanup _ (cleanup-bytes _) (
            remove_session-Shrinks s.session_id _ (
              on_session-Shrinks r (λ _. s) w
                (omega (arith, ap (λ (b : Buffer). length b.bytes) (begin_close-bytes _ s e))) v)))
  ]

  pub emit-Shrinks : (o : Output) (w : ServerState) → Shrinks u w → Shrinks u (emit o w)
  unfolding emit
  emit-Shrinks o w v = same_sessions {w = w} refl v
