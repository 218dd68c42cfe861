-- ===== src/Limiter.antt =====
-- UdpRateLimiterShard and sharded_udp_rate_limit of Utility.h: the limit on UDP packets of the whole server,
-- counted for each thread. A shard is one entry of each of the two vectors. The definitions of this file
-- are of a call that no other call overlaps; Limiter/Steps.antt has a call's atomic operations one by one.
pub mod Second
pub mod Steps
pub mod Overlap
pub mod Moves
pub mod Bound
pub mod Alone
use server_application.Common.{
  ℕ, zero, suc, ◌+◌, ◌%◌, ◌^◌, ◌≤◌, ◌<◌, ◌≡◌, ◌≢◌, refl, ◌∙◌, Bool, true, false, List, [], ◌∷◌,
  arith, leb, ◌==◌, if◌then◌else◌, length, is_empty, Bool-cases, inl, inr,
}

pub record Shard : Type 0 where
  pub packets : ℕ  -- size_t
  pub window_sec : ℕ

-- The shards that the constructor makes.
unfoldable pub new_limiter : ℕ → List Shard
new_limiter zero = []
new_limiter (suc n) = record { packets = 0; window_sec = 0 } ∷ new_limiter n

-- What a call does to its shard: the load, the exchange, the store and the addition, with no other call in
-- between.
unfoldable pub count_packet : ℕ → Shard → Shard
count_packet now s = record {
  packets = ((if s.window_sec == now then s.packets else 0) + 1) % 2 ^ 64;
  window_sec = now;
}

unfoldable pub count_in : ℕ → ℕ → List Shard → List Shard
unfolding count_packet
count_in idx now [] = []
count_in zero now (s ∷ ss) = count_packet now s ∷ ss
count_in (suc idx) now (s ∷ ss) = s ∷ count_in idx now ss

-- The sum of `size_t` values.
unfoldable pub total_packets : List Shard → ℕ
total_packets [] = 0
total_packets (s ∷ ss) = (s.packets + total_packets ss) % 2 ^ 64

-- `idx` is the hash of the calling thread, modulo the number of shards.
unfoldable pub sharded_udp_rate_limit : ℕ → ℕ → ℕ → List Shard → List Shard × Bool
unfolding count_in total_packets
sharded_udp_rate_limit limit_per_sec idx now limiter =
    let counted = count_in idx now limiter in
    if is_empty limiter
    then (limiter, true)
    else (counted, leb (total_packets counted) limit_per_sec)
