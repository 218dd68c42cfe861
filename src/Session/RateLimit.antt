-- ===== src/Session/RateLimit.antt =====
-- Session::checkUdpRateLimit: a bucket of 120 tokens that refills at 60 a second.
use server_application.Common.{
  ℕ, suc, ◌+◌, ◌-◌, ◌*◌, ◌/◌, ◌≤◌, ◌<◌, ◌≡◌, true, List, [], ◌∷◌, arith, if◌then◌else◌,
}
use server_application.Session.{Session, max_tokens, refill_rate_per_sec}
use server_application.Session.Udp.{check_udp_rate_limit, ns_per_ms, ns_per_sec}

-- The checks of a session in order, and how many of them let the packet through.
unfoldable pub admitted : (ℕ → ℕ) → Session → List ℕ → ℕ × Session
admitted refill_of s [] = (0, s)
admitted refill_of s (now ∷ times) =
    let (s', ok) = check_udp_rate_limit refill_of s now in
    let (n, last) = admitted refill_of s' times in (if ok then suc n else n, last)

-- The times do not fall, and none is later than `stop`.
abbrev pub IsClock : ℕ → List ℕ → ℕ → Type 0
IsClock from [] stop = from ≤ stop
IsClock from (t ∷ ts) stop = (from ≤ t) × IsClock t ts stop

-- The product is rounded towards zero; it is never more than the exact one.
abbrev pub NeverOver : (ℕ → ℕ) → Type 0
NeverOver refill_of = (ms : ℕ) → 1000 * refill_of ms ≤ refill_rate_per_sec * ms

module _ (refill_of : ℕ → ℕ) where
  -- One check pays for what it admits out of the tokens and the time since the last refill.
  check_pays :
      (s : Session) (now : ℕ)
      → s.last_udp_token_refill ≤ now
      → NeverOver refill_of
      → let r = check_udp_rate_limit refill_of s now in
        ((if r.1 then 1 else 0) * ns_per_sec
            + r.0.udp_tokens * ns_per_sec
            + refill_rate_per_sec * s.last_udp_token_refill
          ≤ s.udp_tokens * ns_per_sec + refill_rate_per_sec * r.0.last_udp_token_refill)
        × (s.last_udp_token_refill ≤ r.0.last_udp_token_refill)
        × (r.0.last_udp_token_refill ≤ now)
  unfolding check_udp_rate_limit
  check_pays s now h over = ground (arith, over ((now - s.last_udp_token_refill) / ns_per_ms))

  tokens_capped :
      (s : Session) (now : ℕ)
      → s.udp_tokens ≤ max_tokens
      → (check_udp_rate_limit refill_of s now).0.udp_tokens ≤ max_tokens
  unfolding check_udp_rate_limit
  tokens_capped s now h = ground arith

  admitted_pays :
      (s : Session) (times : List ℕ) (from stop : ℕ)
      → s.last_udp_token_refill ≤ from
      → IsClock from times stop
      → NeverOver refill_of
      → let r = admitted refill_of s times in
        (r.0 * ns_per_sec
            + r.1.udp_tokens * ns_per_sec
            + refill_rate_per_sec * s.last_udp_token_refill
          ≤ s.udp_tokens * ns_per_sec + refill_rate_per_sec * r.1.last_udp_token_refill)
        × (r.1.last_udp_token_refill ≤ stop)
  unfolding admitted
  admitted_pays s [] from stop h c over = omega arith
  admitted_pays s (now ∷ times) from stop h c over =
      let (paid, _, before) = check_pays s now (omega arith) over in
      let rest =
        admitted_pays (check_udp_rate_limit refill_of s now).0 times now stop before c.1 over in
      ground (arith, paid, rest)

  -- Over any run of checks at times that do not fall, with the refill never above 60 a second: the
  -- packets let through are at most the tokens at the start and 60 for each second from the last
  -- refill to the end, whatever the pattern of arrival.
  pub admitted_bounded :
      (s : Session) (times : List ℕ) (from stop : ℕ)
      → s.last_udp_token_refill ≤ from
      → IsClock from times stop
      → NeverOver refill_of
      → (admitted refill_of s times).0 * ns_per_sec
        ≤ s.udp_tokens * ns_per_sec + refill_rate_per_sec * (stop - s.last_udp_token_refill)
  admitted_bounded s times from stop h c over =
      omega (arith, admitted_pays s times from stop h c over)

  admitted_capped :
      (s : Session) (times : List ℕ)
      → s.udp_tokens ≤ max_tokens
      → (admitted refill_of s times).1.udp_tokens ≤ max_tokens
  unfolding admitted
  admitted_capped s [] h = h
  admitted_capped s (now ∷ times) h =
      admitted_capped (check_udp_rate_limit refill_of s now).0 times (tokens_capped s now h)

  -- After any run of checks on a session with at most 120 tokens, a check after a pause that is long
  -- enough for one token lets the packet through, leaves fewer than 120 tokens, and moves the refill
  -- time to now.
  pub check_after_pause :
      (s : Session) (times : List ℕ) (now : ℕ)
      → 0 < refill_of ((now - (admitted refill_of s times).1.last_udp_token_refill) / ns_per_ms)
      → s.udp_tokens ≤ max_tokens
      → let r = check_udp_rate_limit refill_of (admitted refill_of s times).1 now in
        (r.1 ≡ true) × (r.0.udp_tokens < max_tokens) × (r.0.last_udp_token_refill ≡ now)
  unfolding check_udp_rate_limit
  check_after_pause s times now h cap = ground (arith, admitted_capped s times cap)
