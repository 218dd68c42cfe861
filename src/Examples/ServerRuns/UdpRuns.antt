-- ===== src/Examples/ServerRuns/UdpRuns.antt =====
-- Datagrams that are no JSON, and a registration.
use server_application.Common.{
  ◌≤◌, ◌++◌, All, ℕ, ◌<◌, ◌≡◌, ◌≢◌, ◌⊎◌, refl, true, none, some, List, [], ◌∷◌, arith, ap, length,
  lookup, insert, codes, Text,
}
use server_application.Session.{Endpoint}
use server_application.Pool
use server_application.Manager
use server_application.Session.Queues.{try_acquire_read, post_task}
use server_application.Manager.{other_than}
use server_application.Server.{endpoint_key, ServerState, session_of, new_server, close_if}
use server_application.Server.Sessions.{on_accept}
use server_application.Server.Packets.{session_by_endpoint, is_bound}
use server_application.Server.Run.{serve, serve_all}
use server_application.Session.Udp.{check_udp_rate_limit}
use server_application.Server.Packets.{
  take_token, check_packet, passed, endpoint_mismatch, invalid_token,
}
use server_application.Server.Datagrams.{admit}
use server_application.Server.Flood.{is_blocked_udp}
use server_application.Server.Blocking.{
  receive_all, IsBad, complaints, blocked_endpoint_is_answered,
}
use server_application.Server.Registration.{register_then_packet}
use server_application.Examples.SessionRuns.{small}
use server_application.Examples.TextCodec.{codec, object, string}
use server_application.Examples.ServerRuns.{ana, refill, started, stranger, welcomed}

-- Ten datagrams of one byte that is no JSON.
abbrev noise : List (ℕ × Text)
noise =
    (2001, 9 ∷ [])
    ∷ (2002, 9 ∷ [])
    ∷ (2003, 9 ∷ [])
    ∷ (2004, 9 ∷ [])
    ∷ (2005, 9 ∷ [])
    ∷ (2006, 9 ∷ [])
    ∷ (2007, 9 ∷ [])
    ∷ (2008, 9 ∷ [])
    ∷ (2009, 9 ∷ [])
    ∷ []

noise-IsBad : (now : ℕ) → now ≤ 3000 → IsBad codec small refill stranger 2000 (now, 9 ∷ [])
noise-IsBad now h = record {
  soon = omega (arith, h);
  some_bytes = refl;
  fits = refl;
  no_json = refl;
}

noise_lem : All (IsBad codec small refill stranger 2000) ((2000, 9 ∷ []) ∷ noise)
noise_lem = (
  noise-IsBad 2000 (omega arith),
  (
    noise-IsBad 2001 (omega arith),
    (
      noise-IsBad 2002 (omega arith),
      (
        noise-IsBad 2003 (omega arith),
        (
          noise-IsBad 2004 (omega arith),
          (
            noise-IsBad 2005 (omega arith),
            (
              noise-IsBad 2006 (omega arith),
              (
                noise-IsBad 2007 (omega arith),
                (noise-IsBad 2008 (omega arith), (noise-IsBad 2009 (omega arith), tt)),
              ),
            ),
          ),
        ),
      ),
    ),
  ),
)

abbrev flooded : ServerState
flooded = receive_all codec small refill stranger ((2000, 9 ∷ []) ∷ noise) started

no_failure : lookup stranger started.bad_udp_map ≡ none
unfolding new_server lookup
no_failure = refl

blocked_endpoint_is_answered_example :
    ((is_blocked_udp 2009 stranger flooded.bad_udp_map).1 ≡ true)
    × (flooded.output ≡ started.output ++ complaints codec small refill stranger 10)
blocked_endpoint_is_answered_example =
    blocked_endpoint_is_answered codec small refill stranger 2000 2009 (9 ∷ []) noise started
      noise_lem no_failure (omega arith) (omega arith)

abbrev elsewhere : Endpoint
elsewhere = record { address = codes "10.0.0.9"; port = 4001 }

abbrev ticket : Text
ticket = codes "xyz123"

abbrev request : Text
request =
    object ((codes "type", string (codes "udp_register")) ∷ (codes "nickname", string ana) ∷ [])

abbrev registered : ServerState
registered =
    admit codec small refill ticket 3000 0
      (record { nickname = ana; type = codes "udp_register"; token = [] }) request stranger welcomed

welcomed_in_pool : 0 < length welcomed.pool.sessions
unfolding serve_all serve on_accept Pool.acquire new_server Pool.new_pool Manager.for_each_session
    Manager.copied Manager.add_session lookup Manager.new_manager Manager.get_shard Pool.modify
    Pool.prepare insert try_acquire_read close_if post_task Manager.find_session
welcomed_in_pool = omega arith

may_send : (take_token codec small refill 0 3000 welcomed).1 ≡ true
unfolding serve_all serve on_accept Pool.acquire new_server Pool.new_pool Manager.for_each_session
    Manager.copied Manager.add_session lookup Manager.new_manager Manager.get_shard Pool.modify
    Pool.prepare insert try_acquire_read close_if post_task Manager.find_session take_token
    check_udp_rate_limit
may_send = refl

moved : stranger ≢ elsewhere
moved = λ e. absurd (omega (arith, ap (λ (ep : Endpoint). ep.port) e))

guessed : ticket ≢ ana
guessed = λ e. absurd (omega (arith, ap length e))

register_then_packet_example :
    (check_packet (session_of registered 0) ticket stranger 4000 ≡ passed)
    × (check_packet (session_of registered 0) ticket elsewhere 4000 ≡ endpoint_mismatch)
    × (check_packet (session_of registered 0) ana stranger 4000 ≡ invalid_token)
    × ((is_bound stranger (session_of welcomed 0).udp_endpoint ≡ true)
        ⊎ (session_by_endpoint stranger registered ≡ some 0))
register_then_packet_example =
    register_then_packet codec small refill ticket ana [] ana 3000 4000 0 request stranger elsewhere
      welcomed welcomed_in_pool may_send refl (omega arith) (omega arith) moved refl guessed
