-- ===== src/Server/Upkeep.antt =====
-- The operations on sessions, writes, reads and timers keep the books of the server.
pub mod Timers
use server_application.Common.{
  ℕ, ◌<◌, ◌≡◌, ◌≢◌, refl, ◌∙◌, Bool, true, false, Option, none, some, List, [], ◌∷◌, ◌++◌, arith,
  lt→ltb, if◌then◌else◌, Text, pop, ℤ, pos, inl, inr, ◌%◌, ◌^◌, Option-cases,
}
use server_application.Session.{Session, Config, Task, read_some}
use server_application.Session.Queues
use server_application.Session.Queues.{
  enqueue_write, do_write_queue, post_task, run_next_task, try_acquire_read,
}
use server_application.Session.Udp.{clear_udp_token}
use server_application.Pool.{acquire}
use server_application.Manager
use server_application.Server.Opening.Acquire.{accepted-IsSound, refused-IsSound}
use server_application.Server.{
  ServerState, Output, session_of, emit, emit_write, close_if, close_all, on_written, post_write,
  write_all, broadcast, broadcast_zone_tcp,
}
use server_application.Server.Messages.{emit_next, next_task}
use server_application.Server.Sessions.{
  do_keepalive_check, cleanup_inactive_sessions, expire_one, expire_all, expire_stale_udp_endpoints,
  cleanup_unauth_sessions, emit_read, on_accept, accept_as, welcome, int_of, do_read,
  start_login_timeout, on_login_timeout, start,
}
use server_application.Server.Books.{
  IsSound, IsHeld, Keeps, Keeps-refl, Keeps-trans, Keeps-IsSound, id_of, on_session-Keeps,
}
use server_application.Server.Closing.Calls.{Keeps-IsHeld}
use server_application.Server.Closing.Calls.{close_session-IsSound, close_session-IsHeld}

pub emit-Keeps : (o : Output) (w : ServerState) → Keeps w (emit o w)
unfolding emit
emit-Keeps o w = record {
  tables = refl;
  finds = λ id. refl;
  reusable = refl;
  available = refl;
  counter = refl;
  size = refl;
  ids = λ r. refl;
}

pub if-IsSound :
    (b : Bool) (u w : ServerState) → IsSound u → IsSound w → IsSound (if b then u else w)
if-IsSound true u w h k = h
if-IsSound false u w h k = k

pub close_if-IsSound : (b : Bool) (r : ℕ) (w : ServerState) → IsSound w → IsSound (close_if b r w)
unfolding close_if
close_if-IsSound true r w v = close_session-IsSound r w v
close_if-IsSound false r w v = v

pub close_if-IsHeld :
    (b : Bool) (r i : ℕ) (w : ServerState)
    → IsSound w
    → r ≢ i
    → IsHeld w i
    → IsHeld (close_if b r w) i
unfolding close_if
close_if-IsHeld true r i w v n held = close_session-IsHeld r i w v n held
close_if-IsHeld false r i w v n held = held

pub close_all-IsSound : (rs : List ℕ) (w : ServerState) → IsSound w → IsSound (close_all rs w)
unfolding close_all
close_all-IsSound [] w v = v
close_all-IsSound (r ∷ rs) w v = close_all-IsSound rs _ (close_session-IsSound r w v)

emit_write-Keeps : (r : ℕ) (o : Option (ℕ × Text)) (w : ServerState) → Keeps w (emit_write r o w)
unfolding emit_write
emit_write-Keeps r none w = Keeps-refl w
emit_write-Keeps r (some (generation, msg)) w = emit-Keeps _ w

enqueue_write_id :
    (c : Config) (s : Session) (msg : Text) → (enqueue_write c s msg).0.session_id ≡ s.session_id
unfolding enqueue_write
enqueue_write_id c s msg = ground arith

do_write_queue_id : (s : Session) → (do_write_queue s).0.session_id ≡ s.session_id
unfolding do_write_queue
do_write_queue_id s = ground arith

post_write_id :
    (c : Config) (s : Session) (msg : Text)
    → (Queues.post_write c s msg).0.session_id ≡ s.session_id
unfolding Queues.post_write
post_write_id c s msg = ground (
  arith,
  enqueue_write_id c s msg,
  do_write_queue_id (record (enqueue_write c s msg).0 { write_in_progress = true }),
)

pub post_write-IsSound :
    (c : Config) (r : ℕ) (msg : Text) (w : ServerState) → IsSound w → IsSound (post_write c r msg w)
unfolding post_write
post_write-IsSound c r msg w v =
    let s = (Queues.post_write c (session_of w r) msg).0 in
    let kept = on_session-Keeps r (λ _. s) w (post_write_id c (session_of w r) msg) in
    close_if-IsSound _ r _ (Keeps-IsSound (emit_write-Keeps r _ _) (Keeps-IsSound kept v))

pub write_all-IsSound :
    (c : Config) (msg : Text) (rs : List ℕ) (w : ServerState)
    → IsSound w
    → IsSound (write_all c msg rs w)
unfolding write_all
write_all-IsSound c msg [] w v = v
write_all-IsSound c msg (r ∷ rs) w v = write_all-IsSound c msg rs _ (post_write-IsSound c r msg w v)

pub broadcast-IsSound :
    (c : Config) (msg : Text) (id : ℤ) (w : ServerState)
    → IsSound w
    → IsSound (broadcast c msg id w)
unfolding broadcast
broadcast-IsSound c msg id w v = write_all-IsSound c msg _ w v

pub broadcast_zone_tcp-IsSound :
    (c : Config) (msg : Text) (zone_id id : ℤ) (w : ServerState)
    → IsSound w
    → IsSound (broadcast_zone_tcp c msg zone_id id w)
unfolding broadcast_zone_tcp
broadcast_zone_tcp-IsSound c msg zone_id id w v = write_all-IsSound c msg _ w v
