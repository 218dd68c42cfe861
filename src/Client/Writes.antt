-- ===== src/Client/Writes.antt =====
-- The write queue of DBMiddlewareClient.cpp across a write error.
use server_application.Common.{
  ◌+◌, ◌≡◌, refl, ap, Bool, true, false, ◌&&◌, Option, none, some, List, [], ◌∷◌, ◌++◌, arith, Text,
  is_empty, if◌then◌else◌, leb, All, All-append,
}
use server_application.Framing.{Bytes, frame, receive}
use server_application.Client.{
  Client, Action, starts_read, starts_write, start, stop, do_connect, on_connect, on_read,
  read_done, on_heartbeat, mark_authed, note_heartbeat_ack, schedule_reconnect, lose_connection,
  send_framed, send_json, send_secure_json, send_with_timer, server_send_login, request_expired,
  close_socket, with_request_id, on_written, deliveries, count_heartbeat, heartbeat_miss_limit,
}

-- What can happen while no write is in flight.
pub data Event : Type 0 where
  starts : Event
  stops : Event
  reconnect_timer : Event
  connect_ends : Bool → Event
  read_ends : Option Bytes → Event
  handlers_return : Event
  sends : Bytes → Event
  sends_json : Option Text → (Text → Bytes) → Event
  sends_secure_json : Option Text → (Text → Bytes) → Event
  heartbeat : Event
  heartbeat_acked : Event
  authenticated : Bool → Event
  request_times_out : Text → Event

module _ (same_port : Bool) (login keepalive : Text → Bytes) where
  unfoldable pub step : Client → Event → Client × List Action
  step c starts = start same_port c
  step c stops = (stop c, [])
  step c reconnect_timer = (c, do_connect same_port c)
  step c (connect_ends failed) = on_connect login failed c
  step c (read_ends chunk) = on_read chunk c
  step c handlers_return = read_done c
  step c (sends body) = send_framed c body
  step c (sends_json id dump) = send_json c id dump
  step c (sends_secure_json id dump) = send_secure_json c id dump
  step c heartbeat = on_heartbeat keepalive c
  step c heartbeat_acked = (note_heartbeat_ack c, [])
  step c (authenticated v) = (mark_authed v c, [])
  step c (request_times_out id) = (request_expired c id, [])

  unfoldable pub run : Client → List Event → Client × List Action
  run c [] = (c, [])
  run c (e ∷ es) = let (c', now) = step c e in let (last, later) = run c' es in (last, now ++ later)

unfoldable pub is_write : Action → Bool
is_write (starts_write b) = true
is_write _ = false

-- No write starts.
abbrev pub IsQuiet : Action → Type 0
IsQuiet a = is_write a ≡ false

-- A queue that is not empty, and nobody who writes it: nobody who writes it.
Stuck : Client × List Action → Type 0
Stuck r = (is_empty r.0.write_queue ≡ false) × All IsQuiet r.1

snoc_nonempty : (q : List Bytes) (b : Bytes) → is_empty (q ++ b ∷ []) ≡ false
snoc_nonempty [] b = refl
snoc_nonempty (x ∷ q) b = refl

send_framed-Stuck :
    (c : Client) (body : Bytes) → is_empty c.write_queue ≡ false → Stuck (send_framed c body)
unfolding Stuck send_framed
send_framed-Stuck c body h = ground (arith, snoc_nonempty c.write_queue (frame body))

with_request_id-queue :
    (c : Client) (id : Option Text) → (with_request_id c id).0.write_queue ≡ c.write_queue
unfolding with_request_id
with_request_id-queue c none = refl
with_request_id-queue c (some id) = refl

send_with_timer-Stuck :
    (c : Client) (id : Option Text) (dump : Text → Bytes) (prefix : Bytes)
    → is_empty c.write_queue ≡ false
    → Stuck (send_with_timer c id dump prefix)
unfolding Stuck send_with_timer is_write
send_with_timer-Stuck c id dump prefix h =
    let named = with_request_id c id in
    let sent =
      send_framed-Stuck named.0 (prefix ++ dump named.1) (rw (with_request_id-queue c id) h) in
    (
      sent.0,
      All-append IsQuiet (send_framed named.0 (prefix ++ dump named.1)).1 _ (sent.1) (refl, tt),
    )

lose_connection-Stuck : (c : Client) → is_empty c.write_queue ≡ false → Stuck (lose_connection c)
unfolding Stuck lose_connection close_socket schedule_reconnect is_write
lose_connection-Stuck c h = ground arith

do_connect-IsQuiet : (same_port : Bool) (c : Client) → All IsQuiet (do_connect same_port c)
unfolding do_connect is_write
do_connect-IsQuiet same_port c = ground arith

server_send_login-Stuck :
    (login : Text → Bytes) (c : Client)
    → is_empty c.write_queue ≡ false
    → Stuck (server_send_login login c)
unfolding Stuck server_send_login send_secure_json
server_send_login-Stuck login c h =
    ground
      (arith, send_with_timer-Stuck (record c { server_login_sent = true }) none login c.secret h)

schedule_reconnect-Stuck :
    (c : Client) → is_empty c.write_queue ≡ false → Stuck (schedule_reconnect c)
unfolding Stuck schedule_reconnect is_write
schedule_reconnect-Stuck c h = ground arith

abbrev connected_client : Client → Client
connected_client c = record c {
  socket_open = true;
  connected = true;
  reconnect_sec = 2;
  server_login_sent = false;
  authed = false;
}

on_connect-Stuck :
    (login : Text → Bytes) (failed : Bool) (c : Client)
    → is_empty c.write_queue ≡ false
    → Stuck (on_connect login failed c)
unfolding Stuck on_connect is_write
on_connect-Stuck login true c h = schedule_reconnect-Stuck c h
on_connect-Stuck login false c h =
    let sent = server_send_login-Stuck login (connected_client c) h in
    (
      sent.0,
      All-append IsQuiet (server_send_login login (connected_client c)).1 _ (sent.1)
          (refl, (refl, tt)),
    )

Stuck-if : (b : Bool) (r t : Client × List Action) → Stuck r → Stuck t → Stuck (if b then r else t)
Stuck-if true r t x y = x
Stuck-if false r t x y = y

count_heartbeat-Stuck : (r : Client × List Action) → Stuck r → Stuck (count_heartbeat r)
unfolding Stuck count_heartbeat is_write
count_heartbeat-Stuck (sent, actions) s =
    let counted : Client = record sent { missed_heartbeat = sent.missed_heartbeat + 1 } in
    let lost = lose_connection-Stuck counted (s.0) in
    Stuck-if (leb heartbeat_miss_limit counted.missed_heartbeat) _ _
      (lost.0, All-append IsQuiet actions (lose_connection counted).1 (s.1) (lost.1))
      (s.0, All-append IsQuiet actions _ (s.1) (refl, tt))

on_heartbeat-Stuck :
    (keepalive : Text → Bytes) (c : Client)
    → is_empty c.write_queue ≡ false
    → Stuck (on_heartbeat keepalive c)
unfolding on_heartbeat Stuck is_write send_secure_json
on_heartbeat-Stuck keepalive c h =
    Stuck-if c.stopping _ _ (h, tt)
      (Stuck-if (c.connected && c.authed) _ _
        (count_heartbeat-Stuck (send_secure_json c none keepalive)
          (send_with_timer-Stuck c none keepalive c.secret h))
        (h, (refl, tt)))

deliveries-IsQuiet : (ms : List Bytes) → All IsQuiet (deliveries ms)
unfolding deliveries is_write
deliveries-IsQuiet [] = tt
deliveries-IsQuiet (m ∷ ms) = (refl, deliveries-IsQuiet ms)

on_read-Stuck :
    (chunk : Option Bytes) (c : Client) → is_empty c.write_queue ≡ false → Stuck (on_read chunk c)
unfolding Stuck on_read is_write
on_read-Stuck none c h = lose_connection-Stuck c h
on_read-Stuck (some chunk) c h = (h, deliveries-IsQuiet (receive c.msg_buf chunk).0)

read_done-Stuck : (c : Client) → is_empty c.write_queue ≡ false → Stuck (read_done c)
unfolding Stuck read_done is_write
read_done-Stuck c h =
    Stuck-if c.msg_buf.last_clear_by_invalid_length _ _ (lose_connection-Stuck c h)
      (h, next_read c.connected)
  where
    next_read : (b : Bool) → All IsQuiet (if b then starts_read ∷ [] else [])
    next_read true = (refl, tt)
    next_read false = tt

module _ (same_port : Bool) (login keepalive : Text → Bytes) where
  step-Stuck :
      (c : Client) (e : Event)
      → is_empty c.write_queue ≡ false
      → Stuck (step same_port login keepalive c e)
  unfolding Stuck step start stop close_socket mark_authed note_heartbeat_ack request_expired
      send_json send_secure_json
  step-Stuck c starts h = (h, do_connect-IsQuiet same_port (record c { stopping = false }))
  step-Stuck c stops h = (h, tt)
  step-Stuck c reconnect_timer h = (h, do_connect-IsQuiet same_port c)
  step-Stuck c (connect_ends failed) h = on_connect-Stuck login failed c h
  step-Stuck c (read_ends chunk) h = on_read-Stuck chunk c h
  step-Stuck c handlers_return h = read_done-Stuck c h
  step-Stuck c (sends body) h = send_framed-Stuck c body h
  step-Stuck c (sends_json id dump) h = send_with_timer-Stuck c id dump [] h
  step-Stuck c (sends_secure_json id dump) h = send_with_timer-Stuck c id dump c.secret h
  step-Stuck c heartbeat h = on_heartbeat-Stuck keepalive c h
  step-Stuck c heartbeat_acked h = (h, tt)
  step-Stuck c (authenticated v) h = (h, tt)
  step-Stuck c (request_times_out id) h = (h, tt)

  run-Stuck :
      (es : List Event) (c : Client)
      → is_empty c.write_queue ≡ false
      → Stuck (run same_port login keepalive c es)
  unfolding Stuck run
  run-Stuck [] c h = (h, tt)
  run-Stuck (e ∷ es) c h =
      let now = step-Stuck c e h in
      let later = run-Stuck es (step same_port login keepalive c e).0 (now.0) in
      (later.0, All-append IsQuiet (step same_port login keepalive c e).1 _ (now.1) (later.1))

  -- A write that fails leaves its frame in the queue; after that, in any history of timers,
  -- connects, reads, sends, heartbeats, stops and starts (no write is in flight that could end), no
  -- write ever starts again.
  pub never_writes_again :
      (c : Client) (front : Bytes) (queue : List Bytes) (es : List Event)
      → c.write_queue ≡ front ∷ queue
      → All IsQuiet (run same_port login keepalive (on_written true c).0 es).1
  unfolding on_written Stuck
  never_writes_again c front queue es e =
      let lost = lose_connection-Stuck c (ap is_empty e) in
      (run-Stuck es (lose_connection c).0 (lost.0)).1
