-- ===== src/Session/Backlog.antt =====
-- What a full write queue loses.
use server_application.Common.{
  ◌+◌, ◌≤◌, ◌<◌, ◌≡◌, ◌≢◌, Bool, true, false, none, some, List, [], ◌∷◌, ◌++◌, arith, leb, length,
  length-append, pop, if◌then◌else◌, Text,
}
use server_application.Session.Writes.{length-pop}
use server_application.Session.{Session, Config, closed_state}
use server_application.Session.Queues.{enqueue_write, post_write, on_written}

-- The queue's front is the message in flight. When a post to a session that is not closed finds the
-- queue full, with at least three messages in it and the allowed overflows not reached, that front
-- is dropped and no write starts; the end of the write drops the next message too and starts the
-- write of the third: the second is not in the queue any more and was never written.
pub overflow_skips_message :
    (c : Config) (s : Session) (sent lost next msg : Text) (q : List Text)
    → s.state ≢ closed_state
    → s.write_queue ≡ sent ∷ lost ∷ next ∷ q
    → c.max_write_queue_size ≤ length s.write_queue
    → s.write_queue_overflow_count + 1 < c.write_queue_overflow_limit
    → let posted = post_write c s msg in
      let written = on_written posted.0 s.generation false in
      (posted.1 ≡ false)
      × (posted.2 ≡ none)
      × (written.2 ≡ some (s.generation, next))
      × (written.0.write_queue ≡ next ∷ q ++ msg ∷ [])
unfolding post_write on_written
overflow_skips_message c s sent lost next msg q serving e full below = ground arith

-- Messages that arrive while no write completes; it stops when the session is to be closed.
unfoldable pub flood : Config → Session → List Text → Session × Bool
flood c s [] = (s, false)
flood c s (msg ∷ msgs) =
    let (s', close) = enqueue_write c s msg in
    let rest = flood c s' msgs in if close then (s', true) else rest

enqueue_full :
    (c : Config) (s : Session) (msg : Text)
    → 0 < c.max_write_queue_size
    → length s.write_queue ≡ c.max_write_queue_size
    → let r = enqueue_write c s msg in
      (r.1 ≡ leb c.write_queue_overflow_limit (s.write_queue_overflow_count + 1))
      × (r.0.write_queue_overflow_count ≡ s.write_queue_overflow_count + 1)
      × (r.1 ≡ false → length r.0.write_queue ≡ c.max_write_queue_size)
unfolding enqueue_write
enqueue_full c s msg room full =
    ground (arith, length-append (pop s.write_queue) (msg ∷ []), length-pop s.write_queue)

-- A peer that takes nothing: with the queue at its limit, which is not 0, and fewer overflows in a
-- row than allowed, the session is to be closed within a run of messages exactly if the overflows
-- before and these messages together reach the allowed number.
pub flood_closes :
    (c : Config) (s : Session) (msgs : List Text)
    → 0 < c.max_write_queue_size
    → length s.write_queue ≡ c.max_write_queue_size
    → s.write_queue_overflow_count < c.write_queue_overflow_limit
    → (flood c s msgs).1
      ≡ leb c.write_queue_overflow_limit (s.write_queue_overflow_count + length msgs)
unfolding flood
flood_closes c s [] room full below = ground arith
flood_closes c s (msg ∷ msgs) room full below =
    let one = enqueue_full c s msg room full in
    ground (arith, one, flood_closes c (enqueue_write c s msg).0 msgs room)
