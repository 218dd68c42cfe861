-- ===== src/Server/Upkeep/Timers.antt =====
-- Timers, reads and completion handlers keep the books.
use server_application.Common.{
  ℕ, ◌<◌, ◌≡◌, ◌≢◌, refl, ◌∙◌, Bool, true, false, Option, none, some, List, [], ◌∷◌, ◌++◌, arith,
  lt→ltb, if◌then◌else◌, Text, pop, pos, inl, inr, ◌%◌, ◌^◌, Option-cases,
}
use server_application.Session.{Session, Config, Task, read_some}
use server_application.Session.Queues
use server_application.Session.Queues.{
  enqueue_write, do_write_queue, post_task, run_next_task, try_acquire_read,
}
use server_application.Session.Udp.{clear_udp_token}
use server_application.Pool.{acquire}
use server_application.Manager
use server_application.Server.Opening.Acquire.{accepted-IsSound, refused-IsSound}
use server_application.Server.{ServerState, session_of, on_written, post_write}
use server_application.Server.Messages.{emit_next, next_task}
use server_application.Server.Sessions.{
  do_keepalive_check, cleanup_inactive_sessions, expire_one, expire_all, expire_stale_udp_endpoints,
  cleanup_unauth_sessions, emit_read, on_accept, accept_as, welcome, int_of, do_read,
  start_login_timeout, on_login_timeout, start,
}
use server_application.Server.Books.{
  IsSound, IsHeld, Keeps, Keeps-refl, Keeps-trans, Keeps-IsSound, id_of, on_session-Keeps,
}
use server_application.Server.Closing.Calls.{Keeps-IsHeld}
use server_application.Server.Closing.Calls.{close_session-IsSound}
use server_application.Server.Upkeep.{
  close_all-IsSound, close_if-IsHeld, close_if-IsSound, do_write_queue_id, emit-Keeps,
  emit_write-Keeps, if-IsSound, post_write-IsSound, post_write_id,
}

pub do_keepalive_check-IsSound :
    (now : ℕ) (w : ServerState) → IsSound w → IsSound (do_keepalive_check now w)
unfolding do_keepalive_check
do_keepalive_check-IsSound now w v = close_all-IsSound _ w v

pub cleanup_inactive_sessions-IsSound :
    (now : ℕ) (w : ServerState) → IsSound w → IsSound (cleanup_inactive_sessions now w)
unfolding cleanup_inactive_sessions
cleanup_inactive_sessions-IsSound now w v = close_all-IsSound _ w v

pub cleanup_unauth_sessions-IsSound :
    (n : ℕ) (w : ServerState) → IsSound w → IsSound (cleanup_unauth_sessions n w)
unfolding cleanup_unauth_sessions
cleanup_unauth_sessions-IsSound n w v = if-IsSound _ _ _ (close_all-IsSound _ w v) v

run_next_task_id : (s : Session) → (run_next_task s).0.session_id ≡ s.session_id
unfolding run_next_task
run_next_task_id s = ground arith

post_task_id : (c : Config) (s : Session) (t : Task) → (post_task c s t).0.session_id ≡ s.session_id
unfolding post_task
post_task_id c s t = ground (
  arith,
  run_next_task_id (record s { task_queue = s.task_queue ++ t ∷ []; task_running = true }),
)

try_acquire_read_id : (s : Session) → (try_acquire_read s).0.session_id ≡ s.session_id
unfolding try_acquire_read
try_acquire_read_id s = refl

emit_read-Keeps : (r : ℕ) (o : Option Task) (w : ServerState) → Keeps w (emit_read r o w)
unfolding emit_read
emit_read-Keeps r none w = Keeps-refl w
emit_read-Keeps r (some read_some) w = emit-Keeps _ w

pub do_read-IsSound : (c : Config) (r : ℕ) (w : ServerState) → IsSound w → IsSound (do_read c r w)
unfolding do_read
do_read-IsSound c r w v =
    let reading = (try_acquire_read (session_of w r)).0 in
    let s = (post_task c reading read_some).0 in
    let kept =
      on_session-Keeps r (λ _. s) w (post_task_id c reading read_some ∙ try_acquire_read_id _) in
    if-IsSound _ _ _ v (
      if-IsSound _ _ _
        (close_if-IsSound _ r _ (Keeps-IsSound (emit_read-Keeps r _ _) (Keeps-IsSound kept v)))
        (Keeps-IsSound (on_session-Keeps r (λ _. reading) w (try_acquire_read_id _)) v))

pub start_login_timeout-IsSound :
    (r : ℕ) (w : ServerState) → IsSound w → IsSound (start_login_timeout r w)
unfolding start_login_timeout
start_login_timeout-IsSound r w v =
    if-IsSound _ _ _ v
      (Keeps-IsSound (emit-Keeps _ _) (Keeps-IsSound (on_session-Keeps r _ w refl) v))

pub start-IsSound : (c : Config) (r : ℕ) (w : ServerState) → IsSound w → IsSound (start c r w)
unfolding start
start-IsSound c r w v = start_login_timeout-IsSound r _ (do_read-IsSound c r w v)

pub on_login_timeout-IsSound :
    (c : Config) (r : ℕ) (w : ServerState) → IsSound w → IsSound (on_login_timeout c r w)
unfolding on_login_timeout
on_login_timeout-IsSound c r w v =
    if-IsSound _ _ _ v (close_session-IsSound r _ (post_write-IsSound c r _ w v))

forget-Keeps : (w w' : ServerState) (b : Bool) → Keeps w w' → Keeps w (if b then w' else w)
forget-Keeps w w' true k = k
forget-Keeps w w' false k = Keeps-refl w

expire_one-Keeps : (r : ℕ) (w : ServerState) → Keeps w (expire_one r w)
unfolding expire_one clear_udp_token
expire_one-Keeps r w =
    let k = on_session-Keeps r (λ s. clear_udp_token (record s { udp_endpoint = none })) w refl in
    forget-Keeps w _ (session_of w r).closed (record {
      tables = k.tables;
      finds = k.finds;
      reusable = k.reusable;
      available = k.available;
      counter = k.counter;
      size = k.size;
      ids = k.ids;
    })

expire_all-Keeps : (rs : List ℕ) (w : ServerState) → Keeps w (expire_all rs w)
unfolding expire_all
expire_all-Keeps [] w = Keeps-refl w
expire_all-Keeps (r ∷ rs) w = Keeps-trans (expire_one-Keeps r w) (expire_all-Keeps rs _)

pub expire_stale_udp_endpoints-IsSound :
    (w : ServerState) → IsSound w → IsSound (expire_stale_udp_endpoints w)
unfolding expire_stale_udp_endpoints
expire_stale_udp_endpoints-IsSound w v =
    Keeps-IsSound (expire_all-Keeps (Manager.for_each_session w.manager) w) v

int_of_small : (n : ℕ) → n < 2 ^ 31 → int_of n ≡ pos n
unfolding int_of
int_of_small n h = let same : n % 2 ^ 32 ≡ n = omega arith in rw (same, lt→ltb _ _ h)

accept_as-IsSound :
    (c : Config) (now : ℕ) (w : ServerState)
    → IsSound w
    → IsSound (accept_as c (pos w.session_counter) now w)
unfolding accept_as welcome
accept_as-IsSound c now w v = elim (Option-cases (acquire w.pool (pos w.session_counter) now).1) [
  | inl e ↦ rw (e, accept_as) (refused-IsSound w now v e)
  | inr (r, e) ↦
      rw (e, accept_as)
        (start-IsSound c r _
          (cleanup_unauth_sessions-IsSound _ _ ((accepted-IsSound w now r v e).0)))
]

-- Server::start_accept, while the ids have not wrapped around.
pub on_accept-IsSound :
    (c : Config) (now : ℕ) (w : ServerState)
    → w.session_counter < 2 ^ 31
    → IsSound w
    → IsSound (on_accept c now w)
unfolding on_accept
on_accept-IsSound c now w h v = rw (int_of_small w.session_counter h) (accept_as-IsSound c now w v)

-- Work for another session leaves a session that is held where it is.
pub post_write-IsHeld :
    (c : Config) (r i : ℕ) (msg : Text) (w : ServerState)
    → IsSound w
    → r ≢ i
    → IsHeld w i
    → IsHeld (post_write c r msg w) i
unfolding post_write
post_write-IsHeld c r i msg w v n held =
    let s = (Queues.post_write c (session_of w r) msg).0 in
    let kept = on_session-Keeps r (λ _. s) w (post_write_id c (session_of w r) msg) in
    let written = Keeps-trans kept (emit_write-Keeps r _ _) in
    close_if-IsHeld _ r i _ (Keeps-IsSound written v) n (Keeps-IsHeld i written held)

on_written_id :
    (s : Session) (generation : ℕ) (failed : Bool)
    → (Queues.on_written s generation failed).0.session_id ≡ s.session_id
unfolding Queues.on_written
on_written_id s generation failed =
    ground (arith, do_write_queue_id (record s { write_queue = pop s.write_queue }))

pub on_written-IsSound :
    (r generation : ℕ) (failed : Bool) (w : ServerState)
    → IsSound w
    → IsSound (on_written r generation failed w)
unfolding on_written
on_written-IsSound r generation failed w v =
    let s = (Queues.on_written (session_of w r) generation failed).0 in
    let kept = on_session-Keeps r (λ _. s) w (on_written_id (session_of w r) generation failed) in
    close_if-IsSound _ r _ (Keeps-IsSound (emit_write-Keeps r _ _) (Keeps-IsSound kept v))

emit_next-Keeps :
    (r : ℕ) (s : Session) (o : Option Task) (w : ServerState)
    → s.session_id ≡ id_of w r
    → Keeps w (emit_next r (s, o) w)
unfolding emit_next
emit_next-Keeps r s none w h = on_session-Keeps r _ w h
emit_next-Keeps r s (some read_some) w h = Keeps-trans (on_session-Keeps r _ w h) (emit-Keeps _ _)

pub next_task-IsSound : (r : ℕ) (w : ServerState) → IsSound w → IsSound (next_task r w)
unfolding next_task
next_task-IsSound r w v =
    Keeps-IsSound (emit_next-Keeps r _ _ w (run_next_task_id (session_of w r))) v
