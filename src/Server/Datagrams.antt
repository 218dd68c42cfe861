-- ===== src/Server/Datagrams.antt =====
-- DataHandler::on_udp_receive and the receive callback of UDPManager.cpp: the checks that a datagram goes through
-- before its handler runs.
use server_application.Common.{
  ℕ, ◌/◌, Bool, true, ◌||◌, Option, none, some, [], ◌∷◌, ltb, if◌then◌else◌, length, is_empty, Text,
  codes, text_eq,
}
use server_application.Json.{Codec}
use server_application.Session.{Endpoint, Config}
use server_application.Session.Udp.{update_udp_alive_time, clear_udp_token, ns_per_sec}
use server_application.Limiter.{sharded_udp_rate_limit}
use server_application.Server.{ServerState, session_of, on_session}
use server_application.Server.Login.{find_by_nickname}
use server_application.Server.Flood.{register_bad_udp_packet, is_blocked_udp}
use server_application.Server.Packets.{
  session_by_endpoint, count_packet, Check, passed, token_required, invalid_token, token_expired,
  endpoint_mismatch, check_packet, register_endpoint, reply, udp_error, take_token,
  dispatch_udp_parsed,
}

-- What on_udp_receive reads of a datagram.
pub record Fields : Type 0 where
  pub nickname : Text
  pub type : Text
  pub token : Text

module _ {J : Type 0} (codec : Codec J) (c : Config) (refill_of : ℕ → ℕ) where
  open codec use {json, parse}

  -- Nothing when `value` throws.
  unfoldable pub fields_of : J → Option Fields
  fields_of j = elim (json.value j (codes "nickname") []) [
    | none ↦ none
    | some nickname ↦ elim (json.value j (codes "type") []) [
      | none ↦ none
      | some type ↦ elim (json.value j (codes "token") []) [
        | none ↦ none
        | some token ↦ some (record { nickname = nickname; type = type; token = token })
      ]
    ]
  ]

  abbrev pub is_register : Text → Bool
  is_register type = text_eq type (codes "udp_register")

  -- The answer to a packet that a check refuses. An expired token is forgotten.
  unfoldable pub refuse : Check → ℕ → Endpoint → ServerState → ServerState
  unfolding reply udp_error on_session
  refuse passed r from w = w
  refuse token_required r from w =
      reply codec c refill_of from
        (udp_error codec c refill_of (codes "TOKEN_REQUIRED") (codes "UDP token is required")) w
  refuse invalid_token r from w =
      reply codec c refill_of from
        (udp_error codec c refill_of (codes "INVALID_TOKEN") (codes "Invalid UDP token")) w
  refuse token_expired r from w = on_session r clear_udp_token (
      reply codec c refill_of from
        (udp_error codec c refill_of (codes "UDP_TOKEN_EXPIRED")
          (codes "UDP token expired, please udp_register again"))
        w)
  refuse endpoint_mismatch r from w =
      reply codec c refill_of from
        (udp_error codec c refill_of (codes "ENDPOINT_MISMATCH")
          (codes "Endpoint mismatch; please udp_register again"))
        w

  -- A packet that passed the checks and the rate limit.
  unfoldable pub deliver : Text → ℕ → ℕ → Fields → J → Endpoint → ServerState → ServerState
  unfolding register_endpoint on_session dispatch_udp_parsed
  deliver token now r f j from w =
      let placed = if is_register f.type then register_endpoint r from now w else w in
      dispatch_udp_parsed codec c refill_of f.type token now r j from
        (on_session r (λ s. update_udp_alive_time s now) placed)

  unfoldable pub limited : Text → ℕ → ℕ → Fields → J → Endpoint → ServerState → ServerState
  unfolding take_token deliver reply udp_error
  limited token now r f j from w =
      let (charged, allowed) = take_token codec c refill_of r now w in
      if allowed
      then deliver token now r f j from charged
      else reply codec c refill_of from
          (udp_error codec c refill_of (codes "RATE_LIMIT") (codes "UDP rate limit exceeded"))
          charged

  unfoldable pub checked : Check → Text → ℕ → ℕ → Fields → J → Endpoint → ServerState → ServerState
  unfolding refuse limited
  checked passed token now r f j from w = limited token now r f j from w
  checked refused token now r f j from w = refuse refused r from w

  -- The checks of token and endpoint are for every type but udp_register.
  unfoldable pub admit : Text → ℕ → ℕ → Fields → J → Endpoint → ServerState → ServerState
  unfolding check_packet limited checked
  admit token now r f j from w =
      if is_register f.type
      then limited token now r f j from w
      else checked (check_packet (session_of w r) f.token from now) token now r f j from w

  -- A nickname that nobody has is ignored.
  unfoldable pub admit_found :
      Option ℕ → Text → ℕ → Fields → J → Endpoint → ServerState → ServerState
  unfolding admit
  admit_found none token now f j from w = w
  admit_found (some r) token now f j from w = admit token now r f j from w

  -- A datagram whose JSON is `j`.
  unfoldable pub on_json : Text → ℕ → J → Endpoint → ServerState → ServerState
  unfolding fields_of admit_found find_by_nickname
  on_json token now j from w = elim (fields_of j) [
    | none ↦ w
    | some f ↦
        if is_empty f.nickname
        then w
        else admit_found (find_by_nickname f.nickname w) token now f j from w
  ]

  unfoldable pub invalid_json : Endpoint → ServerState → ServerState
  unfolding reply
  invalid_json from w =
      reply codec c refill_of from
        ((codes "type", json.string (codes "error"))
          ∷ (codes "msg", json.string (codes "Invalid JSON"))
          ∷ [])
        w

  unfoldable pub parsed_packet : Option J → Text → ℕ → Endpoint → ServerState → ServerState
  unfolding on_json invalid_json
  parsed_packet none token now from w = invalid_json from w
  parsed_packet (some j) token now from w = on_json token now j from w

  -- DataHandler::on_udp_receive; `thread` is the hash of the calling thread, modulo the shards.
  unfoldable pub on_udp_receive : ℕ → Text → ℕ → Text → Endpoint → ServerState → ServerState
  unfolding count_packet parsed_packet
  on_udp_receive thread token now text from w =
      let (limiter, allowed) =
        sharded_udp_rate_limit c.total_limit_per_sec thread (now / ns_per_sec)
          w.udp_global_limiter in
      let limited = record w { udp_global_limiter = limiter } in
      if allowed
      then parsed_packet (parse text) token now from (count_packet now limited)
      else limited

  -- The answer to a datagram that is no JSON, and its count: a blocked endpoint is only logged.
  unfoldable pub bad_packet : ℕ → Endpoint → ServerState → ServerState
  unfolding reply
  bad_packet now from w =
      let replied =
        reply codec c refill_of from
          ((codes "type", json.string (codes "udp_error"))
            ∷ (codes "error", json.string (codes "Invalid JSON format"))
            ∷ [])
          w in
      record replied {
        bad_udp_map = (is_blocked_udp now from (register_bad_udp_packet now from w.bad_udp_map)).0;
      }

  unfoldable pub too_fast : Endpoint → ServerState → ServerState
  unfolding reply
  too_fast from w =
      reply codec c refill_of from
        ((codes "type", json.string (codes "udp_error"))
          ∷ (codes "error", json.string (codes "너무 빠르게 UDP 메시지를 보내고 있습니다."))
          ∷ [])
        w

  unfoldable pub check_found : Option ℕ → ℕ → ServerState → ServerState × Bool
  unfolding take_token
  check_found none now w = (w, true)
  check_found (some r) now w = take_token codec c refill_of r now w

  -- The rate limit of UDPManager, for an endpoint that a session is bound to.
  unfoldable pub check_bound : ℕ → Endpoint → ServerState → ServerState × Bool
  unfolding check_found session_by_endpoint
  check_bound now from w = check_found (session_by_endpoint from w) now w

  unfoldable pub serve_datagram :
      Option J → ℕ → Text → ℕ → Text → Endpoint → ServerState → ServerState
  unfolding bad_packet too_fast check_bound on_udp_receive
  serve_datagram none thread token now text from w = bad_packet now from w
  serve_datagram (some j) thread token now text from w =
      let (charged, allowed) = check_bound now from w in
      if allowed then on_udp_receive thread token now text from charged else too_fast from charged

  -- The callback of UDPManager::start_receive, which starts the next receive on every path; `failed` is
  -- its error code.
  unfoldable pub on_datagram : ℕ → Text → ℕ → Bool → Text → Endpoint → ServerState → ServerState
  unfolding serve_datagram
  on_datagram thread token now failed text from w =
      if failed || is_empty text || ltb c.max_udp_packet_size (length text)
      then w
      else serve_datagram (parse text) thread token now text from w
