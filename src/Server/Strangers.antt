-- ===== src/Server/Strangers.antt =====
-- A datagram from an endpoint that no session is bound to, and that is no registration.
use server_application.Common.{
  ℕ, ◌/◌, ◌≡◌, ◌⊎◌, refl, ap, ◌∙◌, Bool, true, false, Option, none, some, List, [], ◌∷◌, ◌++◌,
  arith, if◌then◌else◌, is_empty, Text, Map, inl, inr,
}
use server_application.Json.{Codec}
use server_application.Session.{Session, Config, Endpoint}
use server_application.Session.Udp.{clear_udp_token, ns_per_sec}
use server_application.Limiter.{sharded_udp_rate_limit}
use server_application.Server.{
  ServerState, Output, sends_udp, get_session, session_of, on_session, emit,
}
use server_application.Server.Login.{find_by_nickname}
use server_application.Server.Packets.{
  session_by_endpoint, count_packet, Check, passed, token_required, invalid_token, token_expired,
  endpoint_mismatch, check_packet, is_bound, reply,
}
use server_application.Server.Datagrams.{
  Fields, fields_of, is_register, refuse, checked, admit, admit_found, on_json, parsed_packet,
  on_udp_receive, check_found, check_bound, serve_datagram, on_datagram,
}
use server_application.Server.Books.{get_session-modify}

abbrev tokens_of : ServerState → ℕ → ℕ
tokens_of w i = (session_of w i).udp_tokens

-- At most one datagram goes out, back to where the packet came from; no endpoint is bound, and no
-- session is charged.
pub record Reflects (from : Endpoint) (w w' : ServerState) : Type 0 where
  pub replies :
      (w'.output ≡ w.output) ⊎ ((text : Text) × (w'.output ≡ w.output ++ sends_udp from text ∷ []))
  pub bindings : w'.udp_endpoint_to_session ≡ w.udp_endpoint_to_session
  pub charges : (i : ℕ) → tokens_of w' i ≡ tokens_of w i

nothing_sent : (from : Endpoint) (w : ServerState) → Reflects from w w
nothing_sent from w = record { replies = inl refl; bindings = refl; charges = λ i. refl }

-- What is the same in both states, for a step before the reply.
record Silent (w w' : ServerState) : Type 0 where
  output : w'.output ≡ w.output
  bindings : w'.udp_endpoint_to_session ≡ w.udp_endpoint_to_session
  sessions : w'.pool.sessions ≡ w.pool.sessions

Silent-Reflects :
    {u v w : ServerState} (from : Endpoint) → Silent u v → Reflects from v w → Reflects from u w
Silent-Reflects from s k = record {
  replies = elim (k.replies) [
    | inl e ↦ inl (e ∙ s.output)
    | inr (text, e) ↦
        inr (text, e ∙ ap (λ (o : List Output). o ++ sends_udp from text ∷ []) s.output)
  ];
  bindings = k.bindings ∙ s.bindings;
  charges = λ i. k.charges i ∙ ap (λ (ss : List Session). (get_session ss i).udp_tokens) s.sessions;
}

if-Reflects :
    (b : Bool) (from : Endpoint) (w u v : ServerState)
    → Reflects from w u
    → Reflects from w v
    → Reflects from w (if b then u else v)
if-Reflects true from w u v h k = h
if-Reflects false from w u v h k = k

tokens-choose :
    (b : Bool) (s t : Session)
    → s.udp_tokens ≡ t.udp_tokens
    → (if b then s else t).udp_tokens ≡ t.udp_tokens
tokens-choose true s t h = h
tokens-choose false s t h = refl

clear_udp_token_tokens : (s : Session) → (clear_udp_token s).udp_tokens ≡ s.udp_tokens
unfolding clear_udp_token
clear_udp_token_tokens s = refl

-- A packet from an endpoint that is not the session's does not pass.
check_packet-unbound :
    (s : Session) (token : Text) (from : Endpoint) (now : ℕ)
    → is_bound from s.udp_endpoint ≡ false
    → check_packet s token from now ≡ passed
    → ⊥
unfolding check_packet
check_packet-unbound s token from now h e = ground arith

module _ {J : Type 0} (codec : Codec J) (c : Config) (refill_of : ℕ → ℕ) (from : Endpoint) where
  reply-Reflects :
      (entries : Map Text J) (w : ServerState)
      → Reflects from w (reply codec c refill_of from entries w)
  unfolding reply emit
  reply-Reflects entries w = record {
    replies = inr (_, refl);
    bindings = refl;
    charges = λ i. refl;
  }

  refuse-Reflects :
      (check : Check) (r : ℕ) (w : ServerState)
      → Reflects from w (refuse codec c refill_of check r from w)
  unfolding refuse reply emit on_session
  refuse-Reflects passed r w = nothing_sent from w
  refuse-Reflects token_required r w = reply-Reflects _ w
  refuse-Reflects invalid_token r w = reply-Reflects _ w
  refuse-Reflects endpoint_mismatch r w = reply-Reflects _ w
  refuse-Reflects token_expired r w = record {
    replies = inr (_, refl);
    bindings = refl;
    charges = λ i.
        ap (λ (s : Session). s.udp_tokens) (get_session-modify r i clear_udp_token w.pool.sessions)
        ∙ tokens-choose _ (clear_udp_token (session_of w i)) (session_of w i)
            (clear_udp_token_tokens (session_of w i));
  }

  checked-Reflects :
      (check : Check) (token : Text) (now r : ℕ) (f : Fields) (j : J) (w : ServerState)
      → (check ≡ passed → ⊥)
      → Reflects from w (checked codec c refill_of check token now r f j from w)
  unfolding checked
  checked-Reflects passed token now r f j w n = absurd (n refl)
  checked-Reflects token_required token now r f j w n = refuse-Reflects token_required r w
  checked-Reflects invalid_token token now r f j w n = refuse-Reflects invalid_token r w
  checked-Reflects token_expired token now r f j w n = refuse-Reflects token_expired r w
  checked-Reflects endpoint_mismatch token now r f j w n = refuse-Reflects endpoint_mismatch r w

  module _ (f : Fields) (plain : is_register codec c refill_of f.type ≡ false) where
    admit-Reflects :
        (token : Text) (now r : ℕ) (j : J) (w : ServerState)
        → is_bound from (session_of w r).udp_endpoint ≡ false
        → Reflects from w (admit codec c refill_of token now r f j from w)
    unfolding admit
    admit-Reflects token now r j w h = rw plain (
        checked-Reflects (check_packet (session_of w r) f.token from now) token now r f j w
          (check_packet-unbound (session_of w r) f.token from now h))

    admit_found-Reflects :
        (o : Option ℕ) (token : Text) (now : ℕ) (j : J) (w : ServerState)
        → ((i : ℕ) → is_bound from (session_of w i).udp_endpoint ≡ false)
        → Reflects from w (admit_found codec c refill_of o token now f j from w)
    unfolding admit_found
    admit_found-Reflects none token now j w h = nothing_sent from w
    admit_found-Reflects (some r) token now j w h = admit-Reflects token now r j w (h r)

    on_json-Reflects :
        (token : Text) (now : ℕ) (j : J) (w : ServerState)
        → fields_of codec c refill_of j ≡ some f
        → ((i : ℕ) → is_bound from (session_of w i).udp_endpoint ≡ false)
        → Reflects from w (on_json codec c refill_of token now j from w)
    unfolding on_json
    on_json-Reflects token now j w e h =
        rw (e, on_json)
          (if-Reflects (is_empty f.nickname) from w _ _ (nothing_sent from w)
            (admit_found-Reflects (find_by_nickname f.nickname w) token now j w h))

    on_udp_receive-Reflects :
        (thread : ℕ) (token : Text) (now : ℕ) (text : Text) (j : J) (w : ServerState)
        → codec.parse text ≡ some j
        → fields_of codec c refill_of j ≡ some f
        → ((i : ℕ) → is_bound from (session_of w i).udp_endpoint ≡ false)
        → Reflects from w (on_udp_receive codec c refill_of thread token now text from w)
    unfolding on_udp_receive parsed_packet count_packet
    on_udp_receive-Reflects thread token now text j w p e h =
        let limiter =
          (sharded_udp_rate_limit c.total_limit_per_sec thread (now / ns_per_sec)
            w.udp_global_limiter).0 in
        let limited = record w { udp_global_limiter = limiter } in
        let same : Silent w limited = record { output = refl; bindings = refl; sessions = refl } in
        let counted : Silent w (count_packet now limited) = record {
          output = refl;
          bindings = refl;
          sessions = refl;
        } in
        rw p (
          if-Reflects _ from w _ _
            (Silent-Reflects from counted
              (on_json-Reflects token now j (count_packet now limited) e h))
            (Silent-Reflects from same (nothing_sent from limited)))

    serve_datagram-Reflects :
        (thread : ℕ) (token : Text) (now : ℕ) (text : Text) (j : J) (w : ServerState)
        → codec.parse text ≡ some j
        → fields_of codec c refill_of j ≡ some f
        → session_by_endpoint from w ≡ none
        → ((i : ℕ) → is_bound from (session_of w i).udp_endpoint ≡ false)
        → Reflects from w (serve_datagram codec c refill_of (some j) thread token now text from w)
    unfolding serve_datagram check_bound
    serve_datagram-Reflects thread token now text j w p e nobody h =
        rw (nobody, check_found) (on_udp_receive-Reflects thread token now text j w p e h)

-- A datagram that is no udp_register, from an endpoint that the endpoint map does not have and that
-- no session is bound to, is answered by at most one datagram, and that goes back to this endpoint,
-- whatever nickname and token it names; it binds no endpoint, and no session pays a rate token for
-- it.
pub stranger_gets_one_reply :
    {J : Type 0} (codec : Codec J) (c : Config) (refill_of : ℕ → ℕ) (from : Endpoint) (thread : ℕ)
    (token : Text) (now : ℕ) (failed : Bool) (text : Text) (j : J) (f : Fields) (w : ServerState)
    → codec.parse text ≡ some j
    → fields_of codec c refill_of j ≡ some f
    → is_register codec c refill_of f.type ≡ false
    → session_by_endpoint from w ≡ none
    → ((i : ℕ) → is_bound from (session_of w i).udp_endpoint ≡ false)
    → Reflects from w (on_datagram codec c refill_of thread token now failed text from w)
unfolding on_datagram
stranger_gets_one_reply codec c refill_of from thread token now failed text j f w p e plain nobody
      h =
    rw p (
      if-Reflects _ from w _ _ (nothing_sent from w) (
        serve_datagram-Reflects codec c refill_of from f plain thread token now text j w p e nobody
          h))
