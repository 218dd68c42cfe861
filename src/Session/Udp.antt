-- ===== src/Session/Udp.antt =====
-- The UDP side of Session.h and Session.cpp: endpoint, token and rate limit.
use server_application.Common.{
  ℕ, ◌+◌, ◌-◌, ◌/◌, min, Bool, true, false, ◌||◌, some, [], ltb, leb, ◌==◌, if◌then◌else◌, is_empty,
  Text,
}
use server_application.Session.{Session, Endpoint, Config, max_tokens}

unfoldable pub set_udp_endpoint : Session → Endpoint → ℕ → Session
set_udp_endpoint s ep now = record s { udp_endpoint = some ep; udp_ep_update_time = now }

unfoldable pub update_udp_alive_time : Session → ℕ → Session
update_udp_alive_time s now = record s { last_udp_alive_time = now }

unfoldable pub set_udp_token : Config → Session → Text → ℕ → Session
set_udp_token c s token now = record s {
  udp_token = token;
  udp_token_issued = now;
  udp_token_ttl_sec = c.udp_token_ttl_seconds;
}

unfoldable pub clear_udp_token : Session → Session
clear_udp_token s = record s { udp_token = []; udp_token_issued = 0 }

abbrev pub ns_per_sec : ℕ
ns_per_sec = 1000000000

abbrev pub ns_per_ms : ℕ
ns_per_ms = 1000000

-- The age is a whole number of seconds, rounded down.
unfoldable pub is_udp_token_valid : Session → ℕ → Bool
is_udp_token_valid s now =
    if is_empty s.udp_token || s.udp_token_issued == 0
    then false
    else leb ((now - s.udp_token_issued) / ns_per_sec) s.udp_token_ttl_sec

-- checkUdpRateLimit. `refill_of` is `static_cast<int>((elapsed / 1000.0) * 60)`, in floating point.
module _ (refill_of : ℕ → ℕ) where
  refilled : Session → ℕ → Session
  refilled s now =
      let refill = refill_of ((now - s.last_udp_token_refill) / ns_per_ms) in
      if ltb 0 refill
      then record s {
        udp_tokens = min (s.udp_tokens + refill) max_tokens;
        last_udp_token_refill = now;
      }
      else s

  unfoldable pub check_udp_rate_limit : Session → ℕ → Session × Bool
  unfolding refilled
  check_udp_rate_limit s now =
      let s' = refilled s now in
      if ltb 0 s'.udp_tokens
      then (record s' { udp_tokens = s'.udp_tokens - 1 }, true)
      else (s', false)
