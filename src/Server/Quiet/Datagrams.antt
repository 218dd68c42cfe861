-- ===== src/Server/Quiet/Datagrams.antt =====
-- The steps of on_udp_receive and of the UDP receive callback keep the books.
use server_application.Common.{
  ℕ, ◌/◌, refl, Bool, Option, none, some, List, Text, inl, inr, Option-cases,
}
use server_application.Json.{Codec}
use server_application.Session.{Config, Endpoint}
use server_application.Session.Udp.{update_udp_alive_time, clear_udp_token, ns_per_sec}
use server_application.Limiter.{Shard, sharded_udp_rate_limit}
use server_application.Server.{ServerState, session_of, emit}
use server_application.Server.Login.{find_by_nickname}
use server_application.Server.Packets.{
  count_packet, reply, Check, passed, token_required, invalid_token, token_expired,
  endpoint_mismatch, check_packet, session_by_endpoint,
}
use server_application.Server.Datagrams.{
  Fields, fields_of, refuse, checked, deliver, limited, admit, admit_found, on_json, invalid_json,
  parsed_packet, on_udp_receive, check_found, serve_datagram, bad_packet, too_fast, check_bound,
  on_datagram, is_register,
}
use server_application.Server.Books.{Keeps, Keeps-refl, Keeps-trans, on_session-Keeps}
use server_application.Server.Quiet.{
  dispatch_udp_parsed-Keeps, if-Keeps, register_endpoint-Keeps, reply-Keeps, take_token-Keeps,
}

module _ {J : Type 0} (codec : Codec J) (c : Config) (refill_of : ℕ → ℕ) where
  refuse-Keeps :
      (check : Check) (r : ℕ) (from : Endpoint) (w : ServerState)
      → Keeps w (refuse codec c refill_of check r from w)
  unfolding refuse clear_udp_token
  refuse-Keeps passed r from w = Keeps-refl w
  refuse-Keeps token_required r from w = reply-Keeps codec c refill_of from _ w
  refuse-Keeps invalid_token r from w = reply-Keeps codec c refill_of from _ w
  refuse-Keeps token_expired r from w =
      Keeps-trans (reply-Keeps codec c refill_of from _ w)
        (on_session-Keeps r clear_udp_token _ refl)
  refuse-Keeps endpoint_mismatch r from w = reply-Keeps codec c refill_of from _ w

  deliver-Keeps :
      (token : Text) (now r : ℕ) (f : Fields) (j : J) (from : Endpoint) (w : ServerState)
      → Keeps w (deliver codec c refill_of token now r f j from w)
  unfolding deliver update_udp_alive_time
  deliver-Keeps token now r f j from w =
      let placed =
        if-Keeps (is_register codec c refill_of f.type) _ _ (register_endpoint-Keeps r from now w)
          (Keeps-refl w) in
      Keeps-trans placed (
        Keeps-trans (on_session-Keeps r (λ s. update_udp_alive_time s now) _ refl)
          (dispatch_udp_parsed-Keeps codec c refill_of f.type token now r j from _))

  limited-Keeps :
      (token : Text) (now r : ℕ) (f : Fields) (j : J) (from : Endpoint) (w : ServerState)
      → Keeps w (limited codec c refill_of token now r f j from w)
  unfolding limited
  limited-Keeps token now r f j from w = Keeps-trans (take_token-Keeps codec c refill_of r now w) (
      if-Keeps _ _ _ (deliver-Keeps token now r f j from _)
        (reply-Keeps codec c refill_of from _ _))

  checked-Keeps :
      (check : Check) (token : Text) (now r : ℕ) (f : Fields) (j : J) (from : Endpoint)
      (w : ServerState)
      → Keeps w (checked codec c refill_of check token now r f j from w)
  unfolding checked
  checked-Keeps passed token now r f j from w = limited-Keeps token now r f j from w
  checked-Keeps token_required token now r f j from w = refuse-Keeps token_required r from w
  checked-Keeps invalid_token token now r f j from w = refuse-Keeps invalid_token r from w
  checked-Keeps token_expired token now r f j from w = refuse-Keeps token_expired r from w
  checked-Keeps endpoint_mismatch token now r f j from w = refuse-Keeps endpoint_mismatch r from w

  admit-Keeps :
      (token : Text) (now r : ℕ) (f : Fields) (j : J) (from : Endpoint) (w : ServerState)
      → Keeps w (admit codec c refill_of token now r f j from w)
  unfolding admit
  admit-Keeps token now r f j from w =
      if-Keeps _ _ _ (limited-Keeps token now r f j from w)
        (checked-Keeps (check_packet (session_of w r) f.token from now) token now r f j from w)

  admit_found-Keeps :
      (o : Option ℕ) (token : Text) (now : ℕ) (f : Fields) (j : J) (from : Endpoint)
      (w : ServerState)
      → Keeps w (admit_found codec c refill_of o token now f j from w)
  unfolding admit_found
  admit_found-Keeps none token now f j from w = Keeps-refl w
  admit_found-Keeps (some r) token now f j from w = admit-Keeps token now r f j from w

  on_json-Keeps :
      (token : Text) (now : ℕ) (j : J) (from : Endpoint) (w : ServerState)
      → Keeps w (on_json codec c refill_of token now j from w)
  unfolding on_json
  on_json-Keeps token now j from w = elim (Option-cases (fields_of codec c refill_of j)) [
    | inl e ↦ rw (e, on_json) (Keeps-refl w)
    | inr (f, e) ↦
        rw (e, on_json)
          (if-Keeps _ _ _ (Keeps-refl w)
            (admit_found-Keeps (find_by_nickname f.nickname w) token now f j from w))
  ]

  limiter-Keeps :
      (limiter : List Shard) (w : ServerState) → Keeps w (record w { udp_global_limiter = limiter })
  limiter-Keeps limiter w = record {
    tables = refl;
    finds = λ id. refl;
    reusable = refl;
    available = refl;
    counter = refl;
    size = refl;
    ids = λ r. refl;
  }

  count_packet-Keeps : (now : ℕ) (w : ServerState) → Keeps w (count_packet now w)
  unfolding count_packet
  count_packet-Keeps now w = record {
    tables = refl;
    finds = λ id. refl;
    reusable = refl;
    available = refl;
    counter = refl;
    size = refl;
    ids = λ r. refl;
  }

  parsed_packet-Keeps :
      (o : Option J) (token : Text) (now : ℕ) (from : Endpoint) (w : ServerState)
      → Keeps w (parsed_packet codec c refill_of o token now from w)
  unfolding parsed_packet invalid_json
  parsed_packet-Keeps none token now from w = reply-Keeps codec c refill_of from _ w
  parsed_packet-Keeps (some j) token now from w = on_json-Keeps token now j from w

  on_udp_receive-Keeps :
      (thread : ℕ) (token : Text) (now : ℕ) (text : Text) (from : Endpoint) (w : ServerState)
      → Keeps w (on_udp_receive codec c refill_of thread token now text from w)
  unfolding on_udp_receive invalid_json
  on_udp_receive-Keeps thread token now text from w =
      let limiter =
        (sharded_udp_rate_limit c.total_limit_per_sec thread (now / ns_per_sec)
          w.udp_global_limiter).0 in
      let limited = limiter-Keeps limiter w in
      let counted = Keeps-trans limited (count_packet-Keeps now _) in
      if-Keeps _ _ _ (Keeps-trans counted (parsed_packet-Keeps (codec.parse text) token now from _))
        limited

  bad_packet-Keeps :
      (now : ℕ) (from : Endpoint) (w : ServerState)
      → Keeps w (bad_packet codec c refill_of now from w)
  unfolding bad_packet emit reply
  bad_packet-Keeps now from w = record {
    tables = refl;
    finds = λ id. refl;
    reusable = refl;
    available = refl;
    counter = refl;
    size = refl;
    ids = λ r. refl;
  }

  check_found-Keeps :
      (o : Option ℕ) (now : ℕ) (w : ServerState) → Keeps w (check_found codec c refill_of o now w).0
  unfolding check_found
  check_found-Keeps none now w = Keeps-refl w
  check_found-Keeps (some r) now w = take_token-Keeps codec c refill_of r now w

  serve_datagram-Keeps :
      (o : Option J) (thread : ℕ) (token : Text) (now : ℕ) (text : Text) (from : Endpoint)
      (w : ServerState)
      → Keeps w (serve_datagram codec c refill_of o thread token now text from w)
  unfolding serve_datagram check_bound too_fast
  serve_datagram-Keeps none thread token now text from w = bad_packet-Keeps now from w
  serve_datagram-Keeps (some j) thread token now text from w =
      Keeps-trans (check_found-Keeps (session_by_endpoint from w) now w) (
        if-Keeps _ _ _ (on_udp_receive-Keeps thread token now text from _)
          (reply-Keeps codec c refill_of from _ _))

  pub on_datagram-Keeps :
      (thread : ℕ) (token : Text) (now : ℕ) (failed : Bool) (text : Text) (from : Endpoint)
      (w : ServerState)
      → Keeps w (on_datagram codec c refill_of thread token now failed text from w)
  unfolding on_datagram
  on_datagram-Keeps thread token now failed text from w =
      if-Keeps _ _ _ (Keeps-refl w)
        (serve_datagram-Keeps (codec.parse text) thread token now text from w)
