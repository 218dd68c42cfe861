-- ===== src/Client/Reconnect.antt =====
-- How DBMiddlewareClient.cpp waits before it connects again, and what its heartbeats do after that.
use server_application.Common.{
  ℕ, zero, suc, ◌+◌, ◌*◌, ◌^◌, min, ◌≤◌, ◌≡◌, refl, ap, ◌∙◌, true, false, [], ◌∷◌, arith, Text,
}
use server_application.Framing.{Bytes}
use server_application.Client.{
  Client, on_connect, on_heartbeat, count_heartbeat, mark_authed, schedule_reconnect,
  lose_connection, send_framed, send_secure_json, send_with_timer, server_send_login, close_socket,
  arms_reconnect, flush_write_queue,
}

power_suc : (a b : ℕ) → b ≡ suc a → 2 ^ b ≡ 2 ^ a * 2
power_suc a b e = rw e (omega arith)

min_double : (x y : ℕ) → y ≡ x * 2 → min (min x 30 * 2) 30 ≡ min y 30
min_double x y e = omega arith

next_delay :
    (c : Client)
    → c.stopping ≡ false
    → (schedule_reconnect c).0.reconnect_sec ≡ min (c.reconnect_sec * 2) 30
unfolding schedule_reconnect
next_delay c going = rw going

module _ (login : Text → Bytes) where
  -- Attempts to connect that fail one after another.
  unfoldable pub fails : Client → ℕ → Client
  fails c zero = c
  fails c (suc n) = (on_connect login true (fails c n)).0

  fails-stopping : (c : Client) (n : ℕ) → (fails c n).stopping ≡ c.stopping
  unfolding fails on_connect schedule_reconnect
  fails-stopping c zero = refl
  fails-stopping c (suc n) = ground (arith, fails-stopping c n)

  fails-delay :
      (c : Client) (n : ℕ)
      → c.stopping ≡ false
      → c.reconnect_sec ≡ 2
      → (fails c n).reconnect_sec ≡ min (2 ^ (n + 1)) 30
  unfolding fails on_connect schedule_reconnect
  fails-delay c zero going two = two
  fails-delay c (suc n) going two =
      let going' = fails-stopping c n ∙ going in
      next_delay (fails c n) going'
      ∙ ap (λ d. min (d * 2) 30) (fails-delay c n going two)
      ∙ min_double (2 ^ (n + 1)) (2 ^ (suc n + 1)) (power_suc (n + 1) (suc n + 1) (omega arith))

  -- After a connection (whose delay is 2 s), if the client is not being stopped, the attempt that
  -- fails after n failed ones is followed by a wait of 2^(n+2) s, but never longer than 30 s.
  pub backoff_doubles :
      (c : Client) (n : ℕ)
      → c.stopping ≡ false
      → c.reconnect_sec ≡ 2
      → (on_connect login true (fails c n)).1 ≡ arms_reconnect (min (2 ^ (n + 2)) 30) ∷ []
  unfolding fails on_connect schedule_reconnect
  backoff_doubles c n going two =
      let going' = fails-stopping c n ∙ going in
      let delay : min ((fails c n).reconnect_sec * 2) 30 ≡ min (2 ^ (n + 2)) 30 =
        rw (fails-delay c n going two)
          (min_double (2 ^ (n + 1)) (2 ^ (n + 2)) (power_suc (n + 1) (n + 2) (omega arith))) in
      rw (going', schedule_reconnect, delay)

module _ (login keepalive : Text → Bytes) where
  -- A connection that is made, authenticated, and then comes to its first heartbeat.
  unfoldable pub round : Client → Client
  round c = (on_heartbeat keepalive (mark_authed true (on_connect login false c).0)).0

  unfoldable pub rounds : Client → ℕ → Client
  rounds c zero = c
  rounds c (suc n) = round (rounds c n)

  round_closes :
      (c : Client)
      → c.stopping ≡ false
      → 2 ≤ c.missed_heartbeat
      → ((round c).connected ≡ false)
        × ((round c).missed_heartbeat ≡ c.missed_heartbeat + 1)
        × ((round c).stopping ≡ false)
  unfolding round on_connect on_heartbeat count_heartbeat mark_authed send_secure_json
      server_send_login send_with_timer lose_connection close_socket schedule_reconnect send_framed
      flush_write_queue
  round_closes c going missed = ground arith

  -- The count of missed heartbeats outlives the connection: once it has reached 2 in a client that
  -- is not being stopped, each connection that is made, authenticated, and comes to its first
  -- heartbeat with no acknowledgement before is closed there, however often that is repeated.
  pub heartbeat_never_recovers :
      (c : Client) (n : ℕ)
      → c.stopping ≡ false
      → 2 ≤ c.missed_heartbeat
      → ((rounds c (suc n)).connected ≡ false)
        × ((rounds c (suc n)).missed_heartbeat ≡ c.missed_heartbeat + suc n)
        × ((rounds c (suc n)).stopping ≡ false)
  unfolding rounds
  heartbeat_never_recovers c zero going missed =
      let r = round_closes c going missed in (r.0, r.1 ∙ omega arith, r.2)
  heartbeat_never_recovers c (suc n) going missed =
      let before = heartbeat_never_recovers c n going missed in
      let r = round_closes (rounds c (suc n)) (before.2) (omega (arith, before.1)) in
      (r.0, r.1 ∙ omega (arith, before.1), r.2)
