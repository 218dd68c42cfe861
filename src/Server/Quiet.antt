-- ===== src/Server/Quiet.antt =====
-- A datagram, whatever it is, keeps the books of the server: it accepts, closes and renames nothing.
pub mod Datagrams
use server_application.Common.{
  ℕ, ◌/◌, ◌≡◌, refl, Bool, true, false, Option, none, some, List, [], ◌∷◌, arith, if◌then◌else◌,
  Text, Map, codes, inl, inr, Option-cases,
}
use server_application.Json.{Codec}
use server_application.Session.{Session, Config, Endpoint}
use server_application.Session.Udp.{
  check_udp_rate_limit, set_udp_endpoint, set_udp_token, update_udp_alive_time, clear_udp_token,
  ns_per_sec,
}
use server_application.Manager
use server_application.Limiter.{Shard, sharded_udp_rate_limit}
use server_application.Zones.{get_zone, visit_zone}
use server_application.Server.{ServerState, session_of, emit}
use server_application.Server.Login.{find_by_nickname}
use server_application.Server.Packets.{
  count_packet, register_endpoint, reply, take_token, udp_handler, udp_register_handler, send_found,
  is_target, send_to, send_broadcast, zone_text, udp_broadcast, udp_broadcast_handler,
  udp_broadcast_zone_handler, dispatch_udp_parsed, Check, passed, token_required, invalid_token,
  token_expired, endpoint_mismatch, check_packet, session_by_endpoint,
}
use server_application.Server.Datagrams.{
  Fields, fields_of, refuse, checked, deliver, limited, admit, admit_found, on_json, invalid_json,
  parsed_packet, on_udp_receive, check_found, serve_datagram, bad_packet, too_fast, check_bound,
  on_datagram, is_register,
}
use server_application.Server.Books.{Keeps, Keeps-refl, Keeps-trans, on_session-Keeps}
use server_application.Server.Upkeep.{emit-Keeps}

if-Keeps :
    {w : ServerState} (b : Bool) (u v : ServerState)
    → Keeps w u
    → Keeps w v
    → Keeps w (if b then u else v)
if-Keeps true u v h k = h
if-Keeps false u v h k = k

pub register_endpoint-Keeps :
    (r : ℕ) (from : Endpoint) (now : ℕ) (w : ServerState) → Keeps w (register_endpoint r from now w)
unfolding register_endpoint set_udp_endpoint
register_endpoint-Keeps r from now w =
    let k = on_session-Keeps r (λ s. set_udp_endpoint s from now) w refl in
    if-Keeps _ _ _ (Keeps-refl w) (record {
      tables = k.tables;
      finds = k.finds;
      reusable = k.reusable;
      available = k.available;
      counter = k.counter;
      size = k.size;
      ids = k.ids;
    })

send_found-Keeps :
    (text : Text) (ep : Option Endpoint) (w : ServerState) → Keeps w (send_found text ep w)
unfolding send_found
send_found-Keeps text none w = Keeps-refl w
send_found-Keeps text (some ep) w = emit-Keeps _ w

send_to-Keeps :
    (text sender : Text) (named_only : Bool) (rs : List ℕ) (w : ServerState)
    → Keeps w (send_to text sender named_only rs w)
unfolding send_to
send_to-Keeps text sender named_only [] w = Keeps-refl w
send_to-Keeps text sender named_only (r ∷ rs) w =
    Keeps-trans
      (if-Keeps (is_target sender named_only (session_of w r)) _ _
        (send_found-Keeps text (session_of w r).udp_endpoint w) (Keeps-refl w))
      (send_to-Keeps text sender named_only rs _)

check_udp_rate_limit_id :
    (refill_of : ℕ → ℕ) (s : Session) (now : ℕ)
    → (check_udp_rate_limit refill_of s now).0.session_id ≡ s.session_id
unfolding check_udp_rate_limit
check_udp_rate_limit_id refill_of s now = ground arith

module _ {J : Type 0} (codec : Codec J) (c : Config) (refill_of : ℕ → ℕ) where
  reply-Keeps :
      (ep : Endpoint) (entries : Map Text J) (w : ServerState)
      → Keeps w (reply codec c refill_of ep entries w)
  unfolding reply
  reply-Keeps ep entries w = emit-Keeps _ w

  pub take_token-Keeps :
      (r now : ℕ) (w : ServerState) → Keeps w (take_token codec c refill_of r now w).0
  unfolding take_token
  take_token-Keeps r now w = on_session-Keeps r _ w (check_udp_rate_limit_id refill_of _ now)

  udp_handler-Keeps :
      (j : J) (from : Endpoint) (w : ServerState) → Keeps w (udp_handler codec c refill_of j from w)
  unfolding udp_handler
  udp_handler-Keeps j from w = elim (Option-cases (codec.json.value j (codes "msg") [])) [
    | inl e ↦ rw (e, udp_handler) (Keeps-refl w)
    | inr (msg, e) ↦
        elim (Option-cases (codec.json.value j (codes "nickname") (codes "anonymity"))) [
          | inl f ↦ rw (e, udp_handler, f) (Keeps-refl w)
          | inr (nickname, f) ↦ rw (e, udp_handler, f) (reply-Keeps from _ w)
        ]
  ]

  udp_register_handler-Keeps :
      (token : Text) (now r : ℕ) (j : J) (from : Endpoint) (w : ServerState)
      → Keeps w (udp_register_handler codec c refill_of token now r j from w)
  unfolding udp_register_handler set_udp_token set_udp_endpoint update_udp_alive_time
  udp_register_handler-Keeps token now r j from w =
      let k =
        on_session-Keeps r
          (λ s. set_udp_token c (update_udp_alive_time (set_udp_endpoint s from now) now) token now)
          w refl in
      elim (Option-cases (codec.json.value j (codes "nickname") (codes "anonymity"))) [
        | inl e ↦ rw (e, udp_register_handler) k
        | inr (nickname, e) ↦ rw (e, udp_register_handler) (Keeps-trans k (reply-Keeps from _ _))
      ]

  send_broadcast-Keeps :
      (out : Option Text) (sender : Text) (w : ServerState)
      → Keeps w (send_broadcast codec c refill_of out sender w)
  unfolding send_broadcast
  send_broadcast-Keeps none sender w = Keeps-refl w
  send_broadcast-Keeps (some out) sender w =
      send_to-Keeps out sender true (Manager.for_each_session w.manager) w

  udp_broadcast_handler-Keeps :
      (j : J) (w : ServerState) → Keeps w (udp_broadcast_handler codec c refill_of j w)
  unfolding udp_broadcast_handler udp_broadcast
  udp_broadcast_handler-Keeps j w = elim (Option-cases (codec.json.value j (codes "nickname") [])) [
    | inl e ↦ rw (e, udp_broadcast_handler) (Keeps-refl w)
    | inr (sender, e) ↦
        rw (e, udp_broadcast_handler)
          (rw (codec.parse-dump j, udp_broadcast) (send_broadcast-Keeps _ sender w))
  ]

  udp_broadcast_zone_handler-Keeps :
      (r : ℕ) (j : J) (w : ServerState)
      → Keeps w (udp_broadcast_zone_handler codec c refill_of r j w)
  unfolding udp_broadcast_zone_handler
  udp_broadcast_zone_handler-Keeps r j w =
      elim (Option-cases (get_zone w.zones (session_of w r).zone_id)) [
        | inl e ↦ rw (e, udp_broadcast_zone_handler) (Keeps-refl w)
        | inr (z, e) ↦ elim (Option-cases (codec.json.value j (codes "msg") [])) [
          | inl f ↦ rw (e, udp_broadcast_zone_handler, f) (Keeps-refl w)
          | inr (msg, f) ↦
              rw (e, udp_broadcast_zone_handler, f)
                (send_to-Keeps (zone_text codec c refill_of (session_of w r).nickname msg)
                  (session_of w r).nickname false (visit_zone (λ _. true) z).1 w)
        ]
      ]

  dispatch_udp_parsed-Keeps :
      (type token : Text) (now r : ℕ) (j : J) (from : Endpoint) (w : ServerState)
      → Keeps w (dispatch_udp_parsed codec c refill_of type token now r j from w)
  unfolding dispatch_udp_parsed
  dispatch_udp_parsed-Keeps type token now r j from w =
      if-Keeps _ _ _ (udp_handler-Keeps j from w) (
        if-Keeps _ _ _ (udp_broadcast_handler-Keeps j w) (
          if-Keeps _ _ _ (udp_register_handler-Keeps token now r j from w)
            (if-Keeps _ _ _ (udp_broadcast_zone_handler-Keeps r j w) (emit-Keeps _ w))))
