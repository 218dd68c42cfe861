-- ===== src/Server/Packets.antt =====
-- UDPManager.cpp, the UDP part of DataHandler.cpp and MessageDispatcher.cpp, and UDPMessageHandlers/: a datagram
-- from the socket to the handler of its type. What is sent is an output; a send that fails is only
-- logged by the source.
use server_application.Common.{
  ℕ, ◌+◌, ◌-◌, ◌/◌, ◌%◌, ◌^◌, Bool, true, false, not, ◌&&◌, ◌||◌, Option, none, some, List, [], ◌∷◌,
  ◌++◌, leb, ◌==◌, if◌then◌else◌, is_empty, Text, codes, text_eq, Map, lookup, insert, erase,
}
use server_application.Json.{Codec}
use server_application.Session.{Session, Endpoint, Config}
use server_application.Session.Udp.{
  set_udp_endpoint, update_udp_alive_time, set_udp_token, is_udp_token_valid, check_udp_rate_limit,
  ns_per_sec,
}
use server_application.Manager
use server_application.Zones.{get_zone, visit_zone}
use server_application.Server.{
  ServerState, sends_udp, session_of, on_session, emit, erase_if_owner, endpoint_eq, endpoint_key,
}

-- DataHandler::getSessionByEndpoint.
unfoldable pub session_by_endpoint : Endpoint → ServerState → Option ℕ
session_by_endpoint ep w = lookup ep w.udp_endpoint_to_session

-- The packets of the current second.
unfoldable pub count_packet : ℕ → ServerState → ServerState
count_packet now w =
    let fresh =
      w.udp_total_packet_window == 0 || leb 1 ((now - w.udp_total_packet_window) / ns_per_sec) in
    record w {
      udp_total_packet_window = if fresh then now else w.udp_total_packet_window;
      udp_total_packet_count = ((if fresh then 0 else w.udp_total_packet_count) + 1) % 2 ^ 64;
    }

-- What the checks of a packet that is not a registration find.
pub data Check : Type 0 where
  passed token_required invalid_token token_expired endpoint_mismatch : Check

unfoldable pub is_bound : Endpoint → Option Endpoint → Bool
is_bound from none = false
is_bound from (some ep) = endpoint_eq ep from

unfoldable pub check_packet : Session → Text → Endpoint → ℕ → Check
unfolding is_bound
check_packet s token from now =
    if is_empty token
    then token_required
    else if not (text_eq s.udp_token token)
    then invalid_token
    else if not (is_udp_token_valid s now)
    then token_expired
    else if is_bound from s.udp_endpoint
    then passed
    else endpoint_mismatch

-- The endpoint map after a session moved to an endpoint: its old entry goes if it is the session's,
-- the new one replaces any other.
unfoldable pub rebind : ℕ → Option Endpoint → Endpoint → Map Endpoint ℕ → Map Endpoint ℕ
unfolding erase_if_owner
rebind r previous from m =
    let left = erase_if_owner r previous m in
    let freed : Map Endpoint ℕ = elim (lookup from left) [
      | none ↦ left
      | some owner ↦ if owner == r then left else erase from left
    ] in
    insert from r freed

unfoldable pub register_endpoint : ℕ → Endpoint → ℕ → ServerState → ServerState
unfolding rebind is_bound on_session
register_endpoint r from now w =
    let s = session_of w r in
    let moved = record w {
      udp_endpoint_to_session = rebind r s.udp_endpoint from w.udp_endpoint_to_session;
    } in
    if is_bound from s.udp_endpoint
    then w
    else on_session r (λ s. set_udp_endpoint s from now) moved

-- A datagram to each of the sessions that has an endpoint and another nickname than the sender.
unfoldable pub send_found : Text → Option Endpoint → ServerState → ServerState
unfolding emit
send_found text none w = w
send_found text (some ep) w = emit (sends_udp ep text) w

unfoldable pub is_target : Text → Bool → Session → Bool
is_target sender named_only s =
    not (text_eq s.nickname sender) && not (named_only && is_empty s.nickname)

unfoldable pub send_to : Text → Text → Bool → List ℕ → ServerState → ServerState
unfolding send_found is_target
send_to text sender named_only [] w = w
send_to text sender named_only (r ∷ rs) w =
    let s = session_of w r in
    send_to text sender named_only rs
      (if is_target sender named_only s then send_found text s.udp_endpoint w else w)

module _ {J : Type 0} (codec : Codec J) (c : Config) (refill_of : ℕ → ℕ) where
  open codec use {json, dump, parse}

  unfoldable pub reply : Endpoint → Map Text J → ServerState → ServerState
  unfolding emit
  reply ep entries w = emit (sends_udp ep (dump (json.object entries))) w

  unfoldable pub udp_error : Text → Text → Map Text J
  udp_error code msg =
      (codes "type", json.string (codes "udp_error"))
      ∷ (codes "code", json.string code)
      ∷ (codes "msg", json.string msg)
      ∷ []

  -- Session::checkUdpRateLimit of a session of the server.
  unfoldable pub take_token : ℕ → ℕ → ServerState → ServerState × Bool
  unfolding on_session
  take_token r now w =
      let (s, allowed) = check_udp_rate_limit refill_of (session_of w r) now in
      (on_session r (λ _. s) w, allowed)

  -- Udp_handler.
  unfoldable pub udp_handler : J → Endpoint → ServerState → ServerState
  unfolding reply
  udp_handler j from w = elim (json.value j (codes "msg") []) [
    | none ↦ w
    | some msg ↦ elim (json.value j (codes "nickname") (codes "anonymity")) [
      | none ↦ w
      | some nickname ↦
          reply from
            ((codes "type", json.string (codes "udp_reply"))
              ∷ (codes "msg", json.string (codes "Echo(UDP): " ++ msg))
              ∷ (codes "nickname", json.string nickname)
              ∷ [])
            w
    ]
  ]

  -- Udpregister_handler; `token` is what generate_random_token makes.
  unfoldable pub udp_register_handler : Text → ℕ → ℕ → J → Endpoint → ServerState → ServerState
  unfolding reply on_session
  udp_register_handler token now r j from w =
      let registered =
        on_session r
          (λ s. set_udp_token c (update_udp_alive_time (set_udp_endpoint s from now) now) token now)
          w in
      elim (json.value j (codes "nickname") (codes "anonymity")) [
        | none ↦ registered
        | some nickname ↦
            reply from
              ((codes "type", json.string (codes "udp_register_ack"))
                ∷ (codes "msg", json.string (codes "UDP 인증 토큰 발급 및 endpoint registered"))
                ∷ (codes "token", json.string token)
                ∷ (codes "nickname", json.string nickname)
                ∷ [])
              registered
      ]

  -- What udp_broadcast sends of a datagram.
  unfoldable pub broadcast_text : J → Option Text
  broadcast_text j = elim (json.value j (codes "type") []) [
    | none ↦ none
    | some type ↦ elim (json.value j (codes "nickname") []) [
      | none ↦ none
      | some nickname ↦ elim (json.value j (codes "msg") []) [
        | none ↦ none
        | some msg ↦ some (
            dump (
              json.object (
                (codes "type", json.string type)
                ∷ (codes "nickname", json.string nickname)
                ∷ (codes "msg", json.string msg)
                ∷ [])))
      ]
    ]
  ]

  unfoldable pub send_broadcast : Option Text → Text → ServerState → ServerState
  unfolding send_to
  send_broadcast none sender w = w
  send_broadcast (some out) sender w =
      send_to out sender true (Manager.for_each_session w.manager) w

  -- DataHandler::udp_broadcast; what is posted to the strand runs at once. The text that it parses for
  -- each receiver is one that Udpbroadcast_handler dumped.
  unfoldable pub udp_broadcast : Text → Text → ServerState → ServerState
  unfolding send_broadcast broadcast_text
  udp_broadcast text sender w = elim (parse text) [
    | none ↦ w
    | some j ↦ send_broadcast (broadcast_text j) sender w
  ]

  -- Udpbroadcast_handler.
  unfoldable pub udp_broadcast_handler : J → ServerState → ServerState
  unfolding udp_broadcast
  udp_broadcast_handler j w = elim (json.value j (codes "nickname") []) [
    | none ↦ w
    | some sender ↦ udp_broadcast (dump j) sender w
  ]

  unfoldable pub zone_text : Text → Text → Text
  zone_text nickname msg = dump (
      json.object (
        (codes "type", json.string (codes "broadcast_udp_zone"))
        ∷ (codes "nickname", json.string nickname)
        ∷ (codes "msg", json.string msg)
        ∷ []))

  -- Udpbroadcastzone_handler.
  unfoldable pub udp_broadcast_zone_handler : ℕ → J → ServerState → ServerState
  unfolding send_to get_zone zone_text
  udp_broadcast_zone_handler r j w =
      let s = session_of w r in
      elim (get_zone w.zones s.zone_id) [
        | none ↦ w
        | some z ↦ elim (json.value j (codes "msg") []) [
          | none ↦ w
          | some msg ↦
              send_to (zone_text s.nickname msg) s.nickname false (visit_zone (λ _. true) z).1 w
        ]
      ]

  -- MessageDispatcher::dispatch_udp_parsed, whose handlers' exceptions are logged.
  unfoldable pub dispatch_udp_parsed :
      Text → Text → ℕ → ℕ → J → Endpoint → ServerState → ServerState
  unfolding emit
  dispatch_udp_parsed type token now r j from w =
      if text_eq type (codes "udp")
      then udp_handler j from w
      else if text_eq type (codes "broadcast_udp")
      then udp_broadcast_handler j w
      else if text_eq type (codes "udp_register")
      then udp_register_handler token now r j from w
      else if text_eq type (codes "broadcast_udp_zone")
      then udp_broadcast_zone_handler r j w
      else emit (sends_udp from (codes "{\"type\":\"error\",\"msg\":\"Unknown UDP type\"}")) w
