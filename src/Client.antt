-- ===== src/Client.antt =====
-- DBMiddlewareClient.cpp and DBMiddleWareClient.h: the connection to the DB middleware. The operations run
-- on the strand; the end of an asynchronous operation and an expired timer are calls of their own.
pub mod Acks
pub mod Reconnect
pub mod Writes
use server_application.Common.{
  ℕ, zero, suc, ◌+◌, ◌*◌, ◌%◌, ◌^◌, min, Bool, true, false, not, ◌&&◌, ◌||◌, Option, none, some,
  List, [], ◌∷◌, ◌++◌, leb, if◌then◌else◌, ◌||◌, pop, is_empty, Text, codes, text_key, Map, insert,
  erase,
}
use server_application.Framing.{Bytes, Buffer, frame, receive}
use server_application.Router.{decimal, bump}

pub record Client : Type 0 where
  pub secret : Bytes
  pub socket_open : Bool
  pub connected : Bool
  pub stopping : Bool
  pub server_login_sent : Bool
  pub authed : Bool
  pub missed_heartbeat : ℕ
  pub msg_buf : Buffer
  pub write_queue : List Bytes
  pub write_in_progress : Bool
  pub reconnect_sec : ℕ
  pub timeout_count : ℕ
  pub request_timers : Map Text (Unit {0})
  pub counter : ℕ  -- the static counter of generate_request_id

abbrev pub heartbeat_miss_limit : ℕ
heartbeat_miss_limit = 3

abbrev pub reconnect_sec_max : ℕ
reconnect_sec_max = 30

pub data Action : Type 0 where
  connects : Action
  starts_read : Action
  starts_write : Bytes → Action
  arms_reconnect : ℕ → Action
  arms_heartbeat : Action
  arms_request : Text → Action
  delivers : Bytes → Action

-- `port_ == tcp_port` aborts for good.
unfoldable pub do_connect : Bool → Client → List Action
do_connect same_port c = if c.stopping || same_port then [] else connects ∷ []

unfoldable pub start : Bool → Client → Client × List Action
unfolding do_connect
start same_port c =
    let started = record c { stopping = false } in (started, do_connect same_port started)

unfoldable pub close_socket : Client → Client
close_socket c = record c { socket_open = false; connected = false }

-- The timers that are cancelled call back with an error, which does nothing.
unfoldable pub stop : Client → Client
unfolding close_socket
stop c = close_socket (record c { stopping = true })

unfoldable pub schedule_reconnect : Client → Client × List Action
schedule_reconnect c =
    let delay = min (c.reconnect_sec * 2) reconnect_sec_max in
    if c.stopping
    then (record c { connected = false }, [])
    else (record c { connected = false; reconnect_sec = delay }, arms_reconnect delay ∷ [])

unfoldable pub lose_connection : Client → Client × List Action
unfolding close_socket schedule_reconnect
lose_connection c = schedule_reconnect (close_socket c)

unfoldable pub flush_write_queue : Client → Client × List Action
flush_write_queue c = elim c.write_queue [
  | [] ↦ (record c { write_in_progress = false }, [])
  | front ∷ rest ↦ (c, starts_write front ∷ [])
]

unfoldable pub on_written : Bool → Client → Client × List Action
unfolding flush_write_queue lose_connection
on_written failed c =
    let next = flush_write_queue (record c { write_queue = pop c.write_queue }) in
    if failed then lose_connection c else next

unfoldable pub send_framed : Client → Bytes → Client × List Action
unfolding flush_write_queue
send_framed c body =
    let queued = record c { write_queue = c.write_queue ++ frame body ∷ [] } in
    let begun = flush_write_queue (record queued { write_in_progress = true }) in
    if not c.connected
    then (c, [])
    else if is_empty c.write_queue && not c.write_in_progress
    then begun
    else (queued, [])

-- The request id of a JSON value, made when it has none.
unfoldable pub with_request_id : Client → Option Text → Client × Text
with_request_id c (some id) = (c, id)
with_request_id c none =
    (record c { counter = bump c.counter }, codes "req_" ++ decimal (bump c.counter))

-- send_json and send_secure_json, which puts the secret in front: `dump` is the text of the value with
-- the request id that it gets. That send_framed throws is left out: it only hands over to the strand.
unfoldable pub send_with_timer :
    Client → Option Text → (Text → Bytes) → Bytes → Client × List Action
unfolding with_request_id send_framed
send_with_timer c request_id dump prefix =
    let (named, id) = with_request_id c request_id in
    let (sent, actions) = send_framed named (prefix ++ dump id) in
    (
      record sent { request_timers = insert id tt sent.request_timers },
      actions ++ arms_request id ∷ [],
    )

unfoldable pub send_json : Client → Option Text → (Text → Bytes) → Client × List Action
unfolding send_with_timer
send_json c request_id dump = send_with_timer c request_id dump []

unfoldable pub send_secure_json : Client → Option Text → (Text → Bytes) → Client × List Action
unfolding send_with_timer
send_secure_json c request_id dump = send_with_timer c request_id dump c.secret

-- The five seconds of a request are over. Nothing cancels its timer.
unfoldable pub request_expired : Client → Text → Client
request_expired c id = record c {
  timeout_count = c.timeout_count + 1;
  request_timers = erase id c.request_timers;
}

-- `login` is the text of the login message with its request id.
unfoldable pub server_send_login : (Text → Bytes) → Client → Client × List Action
unfolding send_secure_json
server_send_login login c =
    let sent = send_secure_json (record c { server_login_sent = true }) none login in
    if c.server_login_sent then (c, []) else sent

-- The end of async_connect, or of async_resolve when it fails.
unfoldable pub on_connect : (Text → Bytes) → Bool → Client → Client × List Action
unfolding schedule_reconnect server_send_login
on_connect login failed c =
    let fresh = record c {
      socket_open = true;
      connected = true;
      reconnect_sec = 2;
      server_login_sent = false;
      authed = false;
    } in
    let (sent, actions) = server_send_login login fresh in
    if failed then schedule_reconnect c else (sent, actions ++ starts_read ∷ arms_heartbeat ∷ [])

unfoldable pub note_heartbeat_ack : Client → Client
note_heartbeat_ack c = record c { missed_heartbeat = 0 }

unfoldable pub mark_authed : Bool → Client → Client
mark_authed v c = record c { authed = v }

-- Behind the send of a heartbeat: one more is not acknowledged.
unfoldable pub count_heartbeat : Client × List Action → Client × List Action
unfolding lose_connection
count_heartbeat (sent, actions) =
    let counted = record sent { missed_heartbeat = sent.missed_heartbeat + 1 } in
    let (lost, reconnect) = lose_connection counted in
    if leb heartbeat_miss_limit counted.missed_heartbeat
    then (lost, actions ++ reconnect)
    else (counted, actions ++ arms_heartbeat ∷ [])

-- The heartbeat timer has expired; `keepalive` is the text of the message with its request id.
unfoldable pub on_heartbeat : (Text → Bytes) → Client → Client × List Action
unfolding send_secure_json count_heartbeat
on_heartbeat keepalive c =
    let beat = count_heartbeat (send_secure_json c none keepalive) in
    if c.stopping
    then (c, [])
    else if c.connected && c.authed
    then beat
    else (c, arms_heartbeat ∷ [])

unfoldable pub deliveries : List Bytes → List Action
deliveries [] = []
deliveries (m ∷ ms) = delivers m ∷ deliveries ms

-- The end of a read: `none` for an error. The handlers of the messages run before read_done.
unfoldable pub on_read : Option Bytes → Client → Client × List Action
unfolding lose_connection deliveries
on_read none c = lose_connection c
on_read (some chunk) c =
    let (messages, buffer) = receive c.msg_buf chunk in
    (record c { msg_buf = buffer }, deliveries messages)

-- What follows when the handlers have returned: the rest of the callback of the read, and do_read_some.
unfoldable pub read_done : Client → Client × List Action
unfolding lose_connection
read_done c =
    if c.msg_buf.last_clear_by_invalid_length
    then lose_connection c
    else (c, if c.connected then starts_read ∷ [] else [])
