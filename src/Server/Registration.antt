-- ===== src/Server/Registration.antt =====
-- A udp_register datagram: register_endpoint, Udpregister_handler, and the checks of the packets that
-- follow.
use server_application.Common.{
  ℕ, ◌-◌, ◌/◌, ◌<◌, ◌≤◌, ◌≡◌, ◌≢◌, ◌⊎◌, inl, inr, refl, ap, ◌∙◌, true, false, Bool-cases,
  Option-cases, Option, some, arith, length, codes, text_eq, text_eq_iff, is_empty, Text, lookup,
  lookup-insert_self,
}
use server_application.Json.{Codec}
use server_application.Session.{Session, Config, Endpoint}
use server_application.Session.Udp.{
  set_udp_endpoint, update_udp_alive_time, set_udp_token, is_udp_token_valid, check_udp_rate_limit,
  ns_per_sec,
}
use server_application.Server.{
  ServerState, endpoint_eq, endpoint_eq_iff, endpoint_key, session_of, on_session, emit,
}
use server_application.Server.Packets.{
  passed, invalid_token, endpoint_mismatch, is_bound, check_packet, rebind, register_endpoint,
  reply, take_token, session_by_endpoint, udp_register_handler, dispatch_udp_parsed,
}
use server_application.Server.Datagrams.{Fields, deliver, limited, admit}
use server_application.Server.Quiet.{register_endpoint-Keeps, take_token-Keeps}
use server_application.Server.Trace.{session_of_self, on_session-size}

-- What a registration leaves of a session.
abbrev bound : Config → Text → ℕ → Endpoint → Session → Session
bound c token now from s =
    set_udp_token c (update_udp_alive_time (set_udp_endpoint s from now) now) token now

endpoint_eq_self : (ep : Endpoint) → endpoint_eq ep ep ≡ true
endpoint_eq_self ep = (endpoint_eq_iff ep ep).1 refl

text_eq_self : (t : Text) → text_eq t t ≡ true
text_eq_self t = (text_eq_iff t t).1 refl

text_eq-other : (s t : Text) → s ≢ t → text_eq s t ≡ false
text_eq-other s t n = ground (arith, text_eq_iff s t)

endpoint_eq-other : (a b : Endpoint) → a ≢ b → endpoint_eq a b ≡ false
endpoint_eq-other a b n = ground (arith, endpoint_eq_iff a b)

module _ (c : Config) (token : Text) (now later : ℕ) (from : Endpoint) (s : Session)
    (given : is_empty token ≡ false) (ticking : 0 < now)
    (young : (later - now) / ns_per_sec ≤ c.udp_token_ttl_seconds) where
  valid : is_udp_token_valid (bound c token now from s) later ≡ true
  unfolding is_udp_token_valid set_udp_token set_udp_endpoint update_udp_alive_time
  valid = rw given (ground (arith, ticking, young))

  pub check_packet-bound : check_packet (bound c token now from s) token from later ≡ passed
  unfolding check_packet set_udp_token set_udp_endpoint update_udp_alive_time is_bound
  check_packet-bound = rw (given, text_eq_self token, valid, endpoint_eq_self from) refl

  pub check_packet-moved :
      (other : Endpoint)
      → from ≢ other
      → check_packet (bound c token now from s) token other later ≡ endpoint_mismatch
  unfolding check_packet set_udp_token set_udp_endpoint update_udp_alive_time is_bound
  check_packet-moved other n =
      rw (given, text_eq_self token, valid, endpoint_eq-other from other n) refl

  pub check_packet-guessed :
      (guess : Text)
      → is_empty guess ≡ false
      → token ≢ guess
      → check_packet (bound c token now from s) guess from later ≡ invalid_token
  unfolding check_packet set_udp_token set_udp_endpoint update_udp_alive_time
  check_packet-guessed guess h n = rw (h, text_eq-other token guess n) refl

rebind-lookup :
    (r : ℕ) (previous : Option Endpoint) (from : Endpoint) (w : ServerState)
    → lookup from (rebind r previous from w.udp_endpoint_to_session) ≡ some r
unfolding rebind
rebind-lookup r previous from w = lookup-insert_self from r _

register_endpoint-lookup :
    (r : ℕ) (from : Endpoint) (now : ℕ) (w : ServerState)
    → is_bound from (session_of w r).udp_endpoint ≡ false
    → lookup from (register_endpoint r from now w).udp_endpoint_to_session ≡ some r
unfolding register_endpoint on_session
register_endpoint-lookup r from now w e = rw (e, register_endpoint) (rebind-lookup r _ from w)

module _ {J : Type 0} (codec : Codec J) (c : Config) (refill_of : ℕ → ℕ) where
  udp_register_handler-bound :
      (token : Text) (now r : ℕ) (j : J) (from : Endpoint) (w : ServerState)
      → r < length w.pool.sessions
      → session_of (udp_register_handler codec c refill_of token now r j from w) r
        ≡ bound c token now from (session_of w r)
  unfolding udp_register_handler reply emit
  udp_register_handler-bound token now r j from w h =
      let registered = session_of_self r (bound c token now from) w h in
      elim (Option-cases (codec.json.value j (codes "nickname") (codes "anonymity"))) [
        | inl e ↦ rw (e, udp_register_handler) registered
        | inr (nickname, e) ↦ rw (e, udp_register_handler) registered
      ]

  udp_register_handler-endpoints :
      (token : Text) (now r : ℕ) (j : J) (from : Endpoint) (w : ServerState)
      → (udp_register_handler codec c refill_of token now r j from w).udp_endpoint_to_session
        ≡ w.udp_endpoint_to_session
  unfolding udp_register_handler reply emit on_session
  udp_register_handler-endpoints token now r j from w =
      elim (Option-cases (codec.json.value j (codes "nickname") (codes "anonymity"))) [
        | inl e ↦ rw (e, udp_register_handler) refl
        | inr (nickname, e) ↦ rw (e, udp_register_handler) refl
      ]

  -- A registration, as the checks see it.
  abbrev registration : Text → Text → Fields
  registration nickname old = record {
    nickname = nickname;
    type = codes "udp_register";
    token = old;
  }

  admit-registration :
      (token nickname old : Text) (now r : ℕ) (j : J) (from : Endpoint) (w : ServerState)
      → (take_token codec c refill_of r now w).1 ≡ true
      → admit codec c refill_of token now r (registration nickname old) j from w
        ≡ udp_register_handler codec c refill_of token now r j from (
            on_session r
              (λ s. update_udp_alive_time s now)
              (register_endpoint r from now (take_token codec c refill_of r now w).0))
  unfolding admit limited deliver dispatch_udp_parsed text_eq
  admit-registration token nickname old now r j from w e = rw e refl

  -- What the handler finds.
  abbrev placed : ℕ → ℕ → Endpoint → ServerState → ServerState
  placed now r from w =
      on_session r (λ s. update_udp_alive_time s now)
        (register_endpoint r from now (take_token codec c refill_of r now w).0)

  placed-size :
      (now r : ℕ) (from : Endpoint) (w : ServerState)
      → length (placed now r from w).pool.sessions ≡ length w.pool.sessions
  placed-size now r from w =
      on_session-size r (λ s. update_udp_alive_time s now) _
      ∙ (register_endpoint-Keeps r from now _).size
      ∙ (take_token-Keeps codec c refill_of r now w).size

  registered-session :
      (token nickname old : Text) (now r : ℕ) (j : J) (from : Endpoint) (w : ServerState)
      → r < length w.pool.sessions
      → (take_token codec c refill_of r now w).1 ≡ true
      → session_of (admit codec c refill_of token now r (registration nickname old) j from w) r
        ≡ bound c token now from (session_of (placed now r from w) r)
  registered-session token nickname old now r j from w h e =
      ap (λ (u : ServerState). session_of u r)
        (admit-registration token nickname old now r j from w e)
      ∙ udp_register_handler-bound token now r j from _ (omega (arith, h, placed-size now r from w))

  check_udp_rate_limit_endpoint :
      (s : Session) (now : ℕ)
      → (check_udp_rate_limit refill_of s now).0.udp_endpoint ≡ s.udp_endpoint
  unfolding check_udp_rate_limit
  check_udp_rate_limit_endpoint s now = ground arith

  charged-endpoint :
      (now r : ℕ) (w : ServerState)
      → r < length w.pool.sessions
      → (session_of (take_token codec c refill_of r now w).0 r).udp_endpoint
        ≡ (session_of w r).udp_endpoint
  unfolding take_token
  charged-endpoint now r w h =
      ap (λ (s : Session). s.udp_endpoint)
        (session_of_self r (λ _. (check_udp_rate_limit refill_of (session_of w r) now).0) w h)
      ∙ check_udp_rate_limit_endpoint (session_of w r) now

  registered-endpoint :
      (token nickname old : Text) (now r : ℕ) (j : J) (from : Endpoint) (w : ServerState)
      → r < length w.pool.sessions
      → (take_token codec c refill_of r now w).1 ≡ true
      → is_bound from (session_of w r).udp_endpoint ≡ false
      → session_by_endpoint from
          (admit codec c refill_of token now r (registration nickname old) j from w)
        ≡ some r
  unfolding session_by_endpoint on_session
  registered-endpoint token nickname old now r j from w h e new =
      ap (λ (u : ServerState). lookup from u.udp_endpoint_to_session)
        (admit-registration token nickname old now r j from w e)
      ∙ ap (lookup from) (udp_register_handler-endpoints token now r j from (placed now r from w))
      ∙ register_endpoint-lookup r from now _
          (ap (is_bound from) (charged-endpoint now r w h) ∙ new)

  -- A udp_register that names a session's nickname and that its rate limit lets through, from any
  -- endpoint, with any token in it: afterwards a packet from this endpoint with the token that the
  -- registration made passes the checks of token and endpoint until the token is too old; the same
  -- token from another endpoint is refused as an endpoint mismatch, and another token from this
  -- endpoint as invalid. Unless the session was bound to this endpoint already, the endpoint now leads
  -- to the session.
  pub register_then_packet :
      (token nickname old guess : Text) (now later r : ℕ) (j : J) (from other : Endpoint)
      (w : ServerState)
      → r < length w.pool.sessions
      → (take_token codec c refill_of r now w).1 ≡ true
      → is_empty token ≡ false
      → 0 < now
      → (later - now) / ns_per_sec ≤ c.udp_token_ttl_seconds
      → from ≢ other
      → is_empty guess ≡ false
      → token ≢ guess
      → let w' = admit codec c refill_of token now r (registration nickname old) j from w in
        (check_packet (session_of w' r) token from later ≡ passed)
        × (check_packet (session_of w' r) token other later ≡ endpoint_mismatch)
        × (check_packet (session_of w' r) guess from later ≡ invalid_token)
        × ((is_bound from (session_of w r).udp_endpoint ≡ true)
            ⊎ (session_by_endpoint from w' ≡ some r))
  register_then_packet token nickname old guess now later r j from other w h e given ticking young n
        asked m =
      let mine = registered-session token nickname old now r j from w h e in
      let s = session_of (placed now r from w) r in
      (
        ap (λ t. check_packet t token from later) mine
            ∙ check_packet-bound c token now later from s given ticking young,
        ap (λ t. check_packet t token other later) mine
            ∙ check_packet-moved c token now later from s given ticking young other n,
        ap (λ t. check_packet t guess from later) mine
            ∙ check_packet-guessed c token now later from s given ticking young guess asked m,
        elim (Bool-cases (is_bound from (session_of w r).udp_endpoint)) [
          | inl same ↦ inl same
          | inr new ↦ inr (registered-endpoint token nickname old now r j from w h e new)
        ],
      )
