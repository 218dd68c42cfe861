-- ===== src/Session/Queues.antt =====
-- The write queue, the task queue and the read flag of Session.cpp.
use server_application.Common.{
  ℕ, ◌+◌, Bool, true, false, not, Option, none, some, [], ◌∷◌, ◌++◌, leb, ◌==◌, if◌then◌else◌,
  length, pop, is_empty, Text,
}
use server_application.Session.{closed_state, Config, Task, Session}

-- enqueue_write: the session, and whether it asks for close_session. A full queue loses its front.
unfoldable pub enqueue_write : Config → Session → Text → Session × Bool
enqueue_write c s msg =
    let full = record s {
      write_queue = pop s.write_queue;
      write_queue_overflow_count = s.write_queue_overflow_count + 1;
    } in
    if leb c.max_write_queue_size (length s.write_queue)
    then (if leb c.write_queue_overflow_limit full.write_queue_overflow_count
        then (full, true)
        else (record full { write_queue = full.write_queue ++ msg ∷ [] }, false))
    else (
      record s { write_queue_overflow_count = 0; write_queue = s.write_queue ++ msg ∷ [] },
      false,
    )

-- do_write_queue: the message whose asynchronous write starts, with the generation it captures.
unfoldable pub do_write_queue : Session → Session × Option (ℕ × Text)
do_write_queue s = elim s.state [
  | closed_state ↦ (s, none)
  | _ ↦ elim s.write_queue [
    | [] ↦ (record s { write_in_progress = false }, none)
    | msg ∷ _ ↦ (s, some (s.generation, msg))
  ]
]

-- The lambda of post_write. What enqueue_write closes has no write to start: its queue was not
-- empty before.
unfoldable pub post_write : Config → Session → Text → Session × Bool × Option (ℕ × Text)
unfolding enqueue_write do_write_queue
post_write c s msg =
    let (s', close) = enqueue_write c s msg in
    if is_empty s.write_queue
    then (let (s'', started) = do_write_queue (record s' { write_in_progress = true }) in
        (s'', close, started))
    else (s', close, none)

-- The completion handler of a write that captured `generation`; `failed` is its error code.
unfoldable pub on_written : Session → ℕ → Bool → Session × Bool × Option (ℕ × Text)
unfolding do_write_queue
on_written s generation failed =
    let (s', started) = do_write_queue (record s { write_queue = pop s.write_queue }) in
    if not (generation == s.generation)
    then (s, false, none)
    else if failed
    then (s, true, none)
    else (s', false, started)

-- post_task and run_next_task: the session, the task that starts, and whether to close.
unfoldable pub run_next_task : Session → Session × Option Task
run_next_task s = elim s.task_queue [
  | [] ↦ (record s { task_running = false }, none)
  | fn ∷ rest ↦ (record s { task_queue = rest }, some fn)
]

unfoldable pub post_task : Config → Session → Task → Session × Option Task × Bool
unfolding run_next_task
post_task c s fn =
    let queued = record s { task_queue = s.task_queue ++ fn ∷ [] } in
    let (next, started) = run_next_task (record queued { task_running = true }) in
    if leb c.max_task_queue (length s.task_queue)
    then (s, none, true)
    else if s.task_running
    then (queued, none, false)
    else (next, started, false)

unfoldable pub try_acquire_read : Session → Session × Bool
try_acquire_read s = (record s { read_pending = true }, not s.read_pending)

unfoldable pub release_read : Session → Session
release_read s = record s { read_pending = false }
