-- ===== src/Examples/ServerRuns/WriteRuns.antt =====
-- A session that is closed and handed on while a write of it is in flight.
use server_application.Common.{
  ◌<◌, ◌^◌, ◌≡◌, refl, inl, true, false, none, arith, pos, lookup, insert,
}
use server_application.Session.{idle}
use server_application.Session.Queues
use server_application.Session.Queues.{do_write_queue, try_acquire_read, post_task}
use server_application.Pool
use server_application.Pool.{prepare}
use server_application.Manager
use server_application.Server.{
  ServerState, session_of, close_session, post_write, close_if, on_session, emit_write, emit,
  new_server,
}
use server_application.Server.Sessions.{on_accept}
use server_application.Server.Books.{IsHeld}
use server_application.Server.Upkeep.{post_write-IsSound}
use server_application.Server.Run.{serve, serve_all}
use server_application.Server.Trace.Stale.{stale_write_ignored}
use server_application.Examples.SessionRuns.{small}
use server_application.Examples.ServerRuns.{ana, welcomed, welcomed-IsSound}

-- Session 0 writes.
abbrev writing : ServerState
writing = post_write small 0 ana welcomed

in_flight : (session_of writing 0).write_in_progress ≡ true
unfolding serve_all serve on_accept Pool.acquire new_server Pool.new_pool Manager.for_each_session
    Manager.copied Manager.add_session lookup Manager.new_manager Manager.get_shard Pool.modify
    Pool.prepare insert try_acquire_read close_if post_task post_write Queues.post_write
    do_write_queue on_session emit_write emit
in_flight = refl

writing-IsHeld : IsHeld writing 0
unfolding serve_all serve on_accept Pool.acquire new_server Pool.new_pool Manager.for_each_session
    Manager.copied Manager.add_session lookup Manager.new_manager Manager.get_shard Pool.modify
    Pool.prepare insert try_acquire_read close_if post_task post_write Queues.post_write
    do_write_queue on_session emit_write emit Manager.find_session
writing-IsHeld = (refl, refl)

writing-IsOpen : (session_of writing 0).life ≡ idle
unfolding serve_all serve on_accept Pool.acquire new_server Pool.new_pool Manager.for_each_session
    Manager.copied Manager.add_session lookup Manager.new_manager Manager.get_shard Pool.modify
    Pool.prepare insert try_acquire_read close_if post_task post_write Queues.post_write
    do_write_queue on_session emit_write emit
writing-IsOpen = refl

small_generation : (session_of writing 0).generation < 2 ^ 64
unfolding serve_all serve on_accept Pool.acquire new_server Pool.new_pool Manager.for_each_session
    Manager.copied Manager.add_session lookup Manager.new_manager Manager.get_shard Pool.modify
    Pool.prepare insert try_acquire_read close_if post_task post_write Queues.post_write
    do_write_queue on_session emit_write emit
small_generation = omega arith

stale_write_ignored_example :
    let captured = (session_of writing 0).generation in
    let waiting = session_of (close_session 0 writing) 0 in
    let reused = prepare (pos 8) 20 waiting in
    (Queues.on_written waiting captured true ≡ (waiting, false, none))
    × (Queues.on_written reused captured true ≡ (reused, false, none))
stale_write_ignored_example =
    stale_write_ignored 0 writing (pos 8) 20 true
      (post_write-IsSound small 0 ana welcomed welcomed-IsSound) writing-IsHeld (inl writing-IsOpen)
      small_generation
