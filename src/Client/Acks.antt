-- ===== src/Client/Acks.antt =====
-- The callbacks in Handlers/DBmw, which DBmwRouter calls for two types of messages, and the heartbeats that
-- are answered.
use server_application.Common.{
  ℕ, zero, suc, ◌+◌, ◌<◌, ◌≡◌, refl, ap, ◌∙◌, Bool, true, false, none, List, [], arith, codes, Text,
  text_eq, if◌then◌else◌,
}
use server_application.Framing.{Bytes}
use server_application.Client.{
  Client, Action, mark_authed, note_heartbeat_ack, start, stop, on_heartbeat, count_heartbeat,
  send_secure_json, send_with_timer, send_framed, lose_connection, close_socket, schedule_reconnect,
  flush_write_queue,
}

-- OnServerLoginAck; `result` is the text under "result". Another result than OK starts again at once.
unfoldable pub on_server_login_ack : Text → Bool → Client → Client × List Action
on_server_login_ack result same_port c =
    if text_eq result (codes "OK")
    then (mark_authed true c, [])
    else start same_port (stop (mark_authed false c))

-- OnServerKeepAliveAck.
unfoldable pub on_server_keepalive_ack : Client → Client
on_server_keepalive_ack c = note_heartbeat_ack c

-- The connection is up and the login was acknowledged.
pub record IsServing (c : Client) : Type 0 where
  pub up : c.connected ≡ true
  pub known : c.authed ≡ true
  pub going : c.stopping ≡ false

module _ (keepalive : Text → Bytes) where
  -- A heartbeat that is answered before the next one.
  unfoldable pub answered_heartbeats : ℕ → Client → Client
  unfolding on_server_keepalive_ack
  answered_heartbeats zero c = c
  answered_heartbeats (suc n) c =
      on_server_keepalive_ack (on_heartbeat keepalive (answered_heartbeats n c)).0

  sent_keeps :
      (c : Client)
      → let c' = (send_secure_json c none keepalive).0 in
        (c'.connected ≡ c.connected)
        × (c'.authed ≡ c.authed)
        × (c'.stopping ≡ c.stopping)
        × (c'.missed_heartbeat ≡ c.missed_heartbeat)
  unfolding send_secure_json send_with_timer send_framed flush_write_queue
  sent_keeps c = ground arith

  beat_counts :
      (c : Client)
      → IsServing c
      → c.missed_heartbeat < 2
      → (on_heartbeat keepalive c).0 ≡ (
          let c' = (send_secure_json c none keepalive).0 in
          record c' { missed_heartbeat = c'.missed_heartbeat + 1 })
  unfolding on_heartbeat count_heartbeat
  beat_counts c s few = ground (arith, s.up, s.known, s.going, few, sent_keeps c)

  beat_serves :
      (c : Client)
      → IsServing c
      → c.missed_heartbeat < 2
      → IsServing (on_heartbeat keepalive c).0
        × ((on_heartbeat keepalive c).0.missed_heartbeat ≡ c.missed_heartbeat + 1)
  beat_serves c s few =
      let same = sent_keeps c in
      rw (beat_counts c s few) (
        record { up = same.0 ∙ s.up; known = same.1 ∙ s.known; going = same.2 ∙ s.going },
        ap (λ n. n + 1) (same.3),
      )

  beat_closes :
      (c : Client)
      → IsServing c
      → c.missed_heartbeat ≡ 2
      → (on_heartbeat keepalive c).0.connected ≡ false
  unfolding on_heartbeat count_heartbeat lose_connection close_socket schedule_reconnect
  beat_closes c s e = ground (arith, s.up, s.known, s.going, e, sent_keeps c)

  answered_heartbeats_keep :
      (n : ℕ) (c : Client)
      → IsServing c
      → c.missed_heartbeat ≡ 0
      → IsServing (answered_heartbeats n c) × ((answered_heartbeats n c).missed_heartbeat ≡ 0)
  unfolding answered_heartbeats on_server_keepalive_ack note_heartbeat_ack
  answered_heartbeats_keep zero c s e = (s, e)
  answered_heartbeats_keep (suc n) c s e =
      let before = answered_heartbeats_keep n c s e in
      let step = beat_serves (answered_heartbeats n c) (before.0) (omega (arith, before.1)) in
      (record { up = step.0.up; known = step.0.known; going = step.0.going }, refl)

  acknowledged :
      (same_port : Bool) (c : Client)
      → c.connected ≡ true
      → c.stopping ≡ false
      → IsServing (on_server_login_ack (codes "OK") same_port c).0
  unfolding on_server_login_ack mark_authed text_eq
  acknowledged same_port c up going = record { up = up; known = refl; going = going }

  acknowledged_missed :
      (same_port : Bool) (c : Client)
      → (on_server_login_ack (codes "OK") same_port c).0.missed_heartbeat ≡ c.missed_heartbeat
  unfolding on_server_login_ack mark_authed text_eq
  acknowledged_missed same_port c = refl

  -- A connection that missed no heartbeat and whose login is acknowledged with the result OK stays up
  -- and logged in through any number of heartbeats that are each answered before the next is due; it
  -- stays up through two heartbeats that are not answered, and the third closes it.
  pub heartbeats_need_answers :
      (n : ℕ) (same_port : Bool) (c : Client)
      → c.connected ≡ true
      → c.stopping ≡ false
      → c.missed_heartbeat ≡ 0
      → let known = (on_server_login_ack (codes "OK") same_port c).0 in
        let beat : Client → Client = λ d. (on_heartbeat keepalive d).0 in
        IsServing (answered_heartbeats n known)
        × IsServing (beat (beat known))
        × ((beat (beat (beat known))).connected ≡ false)
  heartbeats_need_answers n same_port c up going e =
      let s = acknowledged same_port c up going in
      let none_missed = acknowledged_missed same_port c ∙ e in
      let first = beat_serves _ s (omega (arith, none_missed)) in
      let second = beat_serves _ (first.0) (omega (arith, none_missed, first.1)) in
      (
        (answered_heartbeats_keep n _ s none_missed).0,
        second.0,
        beat_closes _ (second.0) (omega (arith, none_missed, first.1, second.1)),
      )
