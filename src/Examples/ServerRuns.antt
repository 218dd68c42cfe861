-- ===== src/Examples/ServerRuns.antt =====
-- Runs of the server: clients that come, log in and go.
pub mod UdpRuns
pub mod WriteRuns
use server_application.Common.{
  ◌≤◌, ◌+◌, All, ℕ, zero, suc, ◌/◌, ◌^◌, ◌<◌, ◌≡◌, ◌≢◌, ◌⊎◌, inl, refl, true, false, none, some,
  List, [], ◌∷◌, arith, ap, length, lookup, insert, codes, text_eq, Text, pos,
}
use server_application.Session.{Session, Config, Endpoint, idle, begin_close}
use server_application.Session
use server_application.Pool
use server_application.Manager
use server_application.Session.Queues.{run_next_task, try_acquire_read, post_task}
use server_application.Pool.Leases.{count}
use server_application.Manager.{other_than}
use server_application.Server.{
  endpoint_key, ServerState, session_of, new_server, remove_session, retire_session, on_session,
  close_session, close_all, close_if,
}
use server_application.Server.Sessions.{do_read, on_accept}
use server_application.Server.Messages.{on_message, keepalive_handler, after_handler, next_task}
use server_application.Server.Login.{find_by_nickname, take_nickname, nothing_found}
use server_application.Server.Packets.{session_by_endpoint, is_bound}
use server_application.Server.Datagrams.{Fields, fields_of, on_datagram}
use server_application.Server.Books.{IsSound, IsHeld, found, id_of}
use server_application.Server.Sessions.{do_keepalive_check}
use server_application.Server.Books.{Keeps, Keeps-IsSound, on_session-Keeps}
use server_application.Server.Closing.Calls.{Keeps-IsHeld}
use server_application.Server.Keepalive.{is_overdue, keepalive_closes_silent}
use server_application.Server.Run.{
  Event, accepts, message, closes, serve, serve_all, AreReady, new_server-IsSound,
  serve_all-IsSound, each_session_accounted,
}
use server_application.Server.Trace.Close.{close_leaves_no_trace}
use server_application.Server.Nicknames.{nicknames_outlive_sessions}
use server_application.Server.Lingering.{late_login_revives}
use server_application.Server.Strangers.{stranger_gets_one_reply, Reflects}
use server_application.Session.Udp.{check_udp_rate_limit}
use server_application.Server.Packets.{
  take_token, check_packet, passed, endpoint_mismatch, invalid_token,
}
use server_application.Server.Datagrams.{admit}
use server_application.Server.Flood.{is_blocked_udp}
use server_application.Server.Blocking.{receive_all, IsBad, blocked_endpoint_is_answered}
use server_application.Server.Registration.{register_then_packet}
use server_application.Framing.{append, frame, big_endian, clear}
use server_application.Server.Messages.{take_messages}
use server_application.Server.Buffers.{buffered}
use server_application.Server.Draining.Loop.{take_messages_enough}
use server_application.Examples.SessionRuns.{small}
use server_application.Examples.TextCodec.{codec, dump, object, string}

abbrev ana : Text
ana = codes "ana"

abbrev started : ServerState
started = new_server small 1 2 2 1000

-- A client came: session 0 is held.
abbrev refill : ℕ → ℕ
refill n = n / 1000000000

abbrev comes : List (Event Text)
comes = accepts 2000 ∷ []

abbrev welcomed : ServerState
welcomed = serve_all codec small refill comes started

none_came : started.session_counter < 2 ^ 31
unfolding new_server
none_came = omega arith

pub welcomed-IsSound : IsSound welcomed
welcomed-IsSound =
    serve_all-IsSound codec small refill comes started (none_came, tt)
      (new_server-IsSound small 1 2 2 1000 (omega arith))

pub welcomed-IsHeld : IsHeld welcomed 0
unfolding serve_all serve on_accept Pool.acquire new_server Pool.new_pool Manager.for_each_session
    Manager.copied Manager.add_session lookup Manager.new_manager Manager.get_shard Pool.modify
    Pool.prepare insert try_acquire_read close_if post_task Manager.find_session
welcomed-IsHeld = (refl, refl)

welcomed-IsOpen : (session_of welcomed 0).life ≡ idle
unfolding serve_all serve on_accept Pool.acquire new_server Pool.new_pool Manager.for_each_session
    Manager.copied Manager.add_session lookup Manager.new_manager Manager.get_shard Pool.modify
    Pool.prepare insert try_acquire_read close_if post_task
welcomed-IsOpen = refl

nobody_named : other_than 0 (find_by_nickname ana welcomed) ≡ none
unfolding serve_all serve on_accept Pool.acquire new_server Pool.new_pool Manager.for_each_session
    Manager.copied Manager.add_session lookup Manager.new_manager Manager.get_shard Pool.modify
    Pool.prepare insert try_acquire_read close_if post_task find_by_nickname nothing_found
    Manager.find_session_by_nickname other_than
nobody_named = refl

close_leaves_no_trace_example : count 0 (close_session 0 welcomed).pool.reusable ≡ 1
close_leaves_no_trace_example =
    (close_leaves_no_trace 0 welcomed 1 welcomed-IsSound welcomed-IsHeld (inl welcomed-IsOpen)
      (λ e. absurd (ground arith))).1

-- The client has a nickname.
abbrev named : ServerState
named = on_session 0 (λ s. record s { nickname_registered = true }) welcomed

named-Keeps : Keeps welcomed named
named-Keeps = on_session-Keeps 0 (λ s. record s { nickname_registered = true }) welcomed refl

named-IsOpen : (session_of named 0).life ≡ idle
unfolding serve_all serve on_accept Pool.acquire new_server Pool.new_pool Manager.for_each_session
    Manager.copied Manager.add_session lookup Manager.new_manager Manager.get_shard Pool.modify
    Pool.prepare insert try_acquire_read close_if post_task on_session
named-IsOpen = refl

keepalive_closes_silent_example :
    ((is_overdue 70000000000 (session_of named 0) ≡ true)
      × (found (do_keepalive_check 70000000000 named) (id_of named 0) ≡ none))
    ⊎ ((is_overdue 70000000000 (session_of named 0) ≡ false)
        × IsHeld (do_keepalive_check 70000000000 named) 0)
keepalive_closes_silent_example =
    keepalive_closes_silent 70000000000 0 named (Keeps-IsSound named-Keeps welcomed-IsSound)
      (Keeps-IsHeld 0 named-Keeps welcomed-IsHeld) (inl named-IsOpen)

late_login_revives_example :
    (found (take_nickname codec small 0 ana (close_session 0 welcomed)) (id_of welcomed 0) ≡ some 0)
    × (count 0 (take_nickname codec small 0 ana (close_session 0 welcomed)).pool.reusable ≡ 1)
    × ¬ IsSound (take_nickname codec small 0 ana (close_session 0 welcomed))
late_login_revives_example =
    late_login_revives codec small ana 0 welcomed welcomed-IsSound welcomed-IsHeld
      (inl welcomed-IsOpen) nobody_named

abbrev logged_in : ServerState
logged_in = take_nickname codec small 0 ana welcomed

nicknames_outlive_sessions_example :
    (find_by_nickname ana (close_all (0 ∷ 1 ∷ []) logged_in) ≡ some 0)
    × (find_by_nickname ana (on_accept small 3000 (close_all (0 ∷ 1 ∷ []) logged_in)) ≡ some 0)
nicknames_outlive_sessions_example =
    nicknames_outlive_sessions codec small 0 ana welcomed (0 ∷ 1 ∷ []) 3000

abbrev keepalive : Text
keepalive = object ((codes "type", string (codes "keepalive")) ∷ [])

abbrev visit : List (Event Text)
visit = accepts 2000 ∷ message true 3000 0 (dump keepalive) ∷ closes 0 ∷ []

abbrev left : ServerState
left = serve_all codec small refill visit started

visit-AreReady : AreReady codec small refill visit started
unfolding serve_all
visit-AreReady = (none_came, (welcomed-IsHeld, (tt, tt)))

in_pool : 0 < length left.pool.sessions
unfolding serve_all serve on_accept Pool.acquire new_server Pool.new_pool Manager.for_each_session
    Manager.copied Manager.add_session lookup Manager.new_manager Manager.get_shard Pool.modify
    Pool.prepare insert try_acquire_read close_if post_task on_message Pool.discard close_session
    begin_close Session.cleanup Pool.release text_eq keepalive_handler after_handler next_task
    run_next_task do_read remove_session retire_session on_session Session.update_alive_time
    Manager.remove_session Pool.contains
in_pool = omega arith

each_session_accounted_example :
    ((count 0 left.pool.reusable ≡ 1) × (found left (pos 0) ≢ some 0))
    ⊎ ((count 0 left.pool.reusable ≡ 0)
        × (found left (id_of left 0) ≡ some 0)
        × ((id_of left 0 ≡ pos 0) ⊎ (found left (pos 0) ≢ some 0)))
each_session_accounted_example =
    each_session_accounted codec small refill 1 2 2 1000 visit 0 (pos 0) (omega arith)
      visit-AreReady in_pool

abbrev stranger : Endpoint
stranger = record { address = codes "10.0.0.9"; port = 4000 }

abbrev claim : Text
claim = object (
    (codes "type", string (codes "broadcast_udp"))
    ∷ (codes "nickname", string ana)
    ∷ (codes "token", string ana)
    ∷ [])

abbrev claimed : Fields
claimed = record { nickname = ana; type = codes "broadcast_udp"; token = ana }

claim-fields : fields_of codec small refill claim ≡ some claimed
unfolding fields_of lookup text_eq
claim-fields = refl

unknown : session_by_endpoint stranger welcomed ≡ none
unfolding serve_all serve on_accept Pool.acquire new_server Pool.new_pool Manager.for_each_session
    Manager.copied Manager.add_session lookup Manager.new_manager Manager.get_shard Pool.modify
    Pool.prepare insert try_acquire_read close_if post_task session_by_endpoint
unknown = refl

unbound : (i : ℕ) → is_bound stranger (session_of welcomed i).udp_endpoint ≡ false
unfolding serve_all serve on_accept Pool.acquire new_server Pool.new_pool Manager.for_each_session
    Manager.copied Manager.add_session lookup Manager.new_manager Manager.get_shard Pool.modify
    Pool.prepare insert try_acquire_read close_if post_task is_bound
unbound zero = refl
unbound (suc zero) = refl
unbound (suc (suc i)) = refl

stranger_gets_one_reply_example :
    Reflects stranger welcomed
      (on_datagram codec small refill 0 ana 3000 false (dump claim) stranger welcomed)
unfolding text_eq
stranger_gets_one_reply_example =
    stranger_gets_one_reply codec small refill stranger 0 ana 3000 false (dump claim) claim claimed
      welcomed refl claim-fields refl unknown unbound

-- A keepalive message has arrived.
abbrev arrived : ServerState
arrived =
    on_session 0 (λ s. record s { msg_buf = append s.msg_buf (frame (dump keepalive)) }) welcomed

arrived-buffered : buffered arrived 0 < 60
unfolding serve_all serve on_accept Pool.acquire new_server Pool.new_pool Manager.for_each_session
    Manager.copied Manager.add_session lookup Manager.new_manager Manager.get_shard Pool.modify
    Pool.prepare insert try_acquire_read close_if post_task Manager.find_session on_session append
    frame clear big_endian
arrived-buffered = omega arith

take_messages_enough_example :
    take_messages codec small 60 true 3000 0 arrived
    ≡ take_messages codec small 70 true 3000 0 arrived
take_messages_enough_example =
    take_messages_enough codec small true 3000 0 60 70 arrived arrived-buffered
      (omega (arith, arrived-buffered))
