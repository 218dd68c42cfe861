-- ===== src/Server/Buffers/Writes.antt =====
-- Writes, broadcasts and logins add to no buffer of received bytes.
use server_application.Common.{
  ℕ, refl, ap, Bool, true, false, Option, none, some, List, [], ◌∷◌, arith, length, Text, ℤ,
}
use server_application.Framing.{Buffer}
use server_application.Session.{Config}
use server_application.Manager
use server_application.Manager.{other_than}
use server_application.Zones
use server_application.Zones.{leave_zone}
use server_application.Server.{
  ServerState, session_of, emit_write, close_if, post_write, write_all, broadcast,
  broadcast_zone_tcp,
}
use server_application.Server.Sessions.{close_found, add_session}
use server_application.Server.Login.{evict, register_nickname, assign_session_to_zone}
use server_application.Server.Buffers.{
  Shrinks, assign_session_to_zone-bytes, close_session-Shrinks, emit-Shrinks, on_session-Shrinks,
  post_write-bytes, same_sessions,
}

module _ (u : ServerState) where
  emit_write-Shrinks :
      (r : ℕ) (o : Option (ℕ × Text)) (w : ServerState) → Shrinks u w → Shrinks u (emit_write r o w)
  unfolding emit_write
  emit_write-Shrinks r none w v = v
  emit_write-Shrinks r (some (generation, msg)) w v = emit-Shrinks u _ w v

  close_if-Shrinks : (b : Bool) (r : ℕ) (w : ServerState) → Shrinks u w → Shrinks u (close_if b r w)
  unfolding close_if
  close_if-Shrinks true r w v = close_session-Shrinks u r w v
  close_if-Shrinks false r w v = v

  pub post_write-Shrinks :
      (c : Config) (r : ℕ) (msg : Text) (w : ServerState)
      → Shrinks u w
      → Shrinks u (post_write c r msg w)
  unfolding post_write
  post_write-Shrinks c r msg w v = close_if-Shrinks _ r _ (
      emit_write-Shrinks r _ _ (
        on_session-Shrinks u r _ w
          (omega
            (arith, ap (λ (b : Buffer). length b.bytes) (post_write-bytes c (session_of w r) msg)))
          v))

  write_all-Shrinks :
      (c : Config) (msg : Text) (rs : List ℕ) (w : ServerState)
      → Shrinks u w
      → Shrinks u (write_all c msg rs w)
  unfolding write_all
  write_all-Shrinks c msg [] w v = v
  write_all-Shrinks c msg (r ∷ rs) w v =
      write_all-Shrinks c msg rs _ (post_write-Shrinks c r msg w v)

  pub broadcast-Shrinks :
      (c : Config) (msg : Text) (id : ℤ) (w : ServerState)
      → Shrinks u w
      → Shrinks u (broadcast c msg id w)
  unfolding broadcast
  broadcast-Shrinks c msg id w v = write_all-Shrinks c msg _ w v

  pub broadcast_zone_tcp-Shrinks :
      (c : Config) (msg : Text) (zone_id id : ℤ) (w : ServerState)
      → Shrinks u w
      → Shrinks u (broadcast_zone_tcp c msg zone_id id w)
  unfolding broadcast_zone_tcp
  broadcast_zone_tcp-Shrinks c msg zone_id id w v = write_all-Shrinks c msg _ w v

  close_found-Shrinks : (o : Option ℕ) (w : ServerState) → Shrinks u w → Shrinks u (close_found o w)
  unfolding close_found
  close_found-Shrinks none w v = v
  close_found-Shrinks (some r) w v = close_session-Shrinks u r w v

  pub add_session-Shrinks : (r : ℕ) (w : ServerState) → Shrinks u w → Shrinks u (add_session r w)
  unfolding add_session
  add_session-Shrinks r w v =
      let (m, replaced) =
        Manager.add_session (λ i. (session_of w i).generation) (λ i. (session_of w i).closed)
          w.manager (session_of w r).session_id r in
      close_found-Shrinks replaced (record w { manager = m }) (same_sessions {w = w} refl v)

  pub evict-Shrinks :
      (c : Config) (reason : Text) (o : Option ℕ) (w : ServerState)
      → Shrinks u w
      → Shrinks u (evict c reason o w)
  unfolding evict
  evict-Shrinks c reason none w v = v
  evict-Shrinks c reason (some r) w v =
      close_session-Shrinks u r _ (post_write-Shrinks c r reason w v)

  pub register_nickname-Shrinks :
      (c : Config) (nickname : Text) (r : ℕ) (w : ServerState)
      → Shrinks u w
      → Shrinks u (register_nickname c nickname r w)
  unfolding register_nickname Manager.register_nickname
  register_nickname-Shrinks c nickname r w v = same_sessions refl (evict-Shrinks c _ _ w v)

  pub assign_session_to_zone-Shrinks :
      (r : ℕ) (zone_id : ℤ) (w : ServerState)
      → Shrinks u w
      → Shrinks u (assign_session_to_zone r zone_id w)
  unfolding assign_session_to_zone
  assign_session_to_zone-Shrinks r zone_id w v =
      let (zones, s) = Zones.assign_session_to_zone w.zones (session_of w r) r zone_id in
      let same =
        ap (λ (b : Buffer). length b.bytes)
          (assign_session_to_zone-bytes w.zones (session_of w r) r zone_id) in
      same_sessions refl (on_session-Shrinks u r (λ _. s) w (omega (arith, same)) v)
