-- ===== src/Limiter/Second.antt =====
-- Calls of sharded_udp_rate_limit (Utility.h) that do not overlap: what the limit promises within a second,
-- and what an idle thread's shard does to the others.
use server_application.Common.{
  ℕ, zero, suc, ◌+◌, ◌-◌, ◌^◌, ◌≤◌, ◌<◌, ◌≡◌, ◌≢◌, refl, ap, ◌∙◌, false, Option, none, some, List,
  [], ◌∷◌, arith, leb, ◌==◌, if◌then◌else◌, length, All, get_elem?,
}
use server_application.Limiter.{
  Shard, count_packet, count_in, total_packets, sharded_udp_rate_limit,
}

-- The packets of all shards, and of those whose window is the second `now`.
unfoldable pub plain_total : List Shard → ℕ
plain_total [] = 0
plain_total (s ∷ ss) = s.packets + plain_total ss

unfoldable pub current : ℕ → List Shard → ℕ
current now [] = 0
current now (s ∷ ss) = (if s.window_sec == now then s.packets else 0) + current now ss

current-plain_total : (now : ℕ) (ss : List Shard) → current now ss ≤ plain_total ss
unfolding current plain_total
current-plain_total now [] = omega arith
current-plain_total now (s ∷ ss) = ground (arith, current-plain_total now ss)

total_packets-plain_total :
    (ss : List Shard) → plain_total ss < 2 ^ 64 → total_packets ss ≡ plain_total ss
unfolding total_packets plain_total
total_packets-plain_total [] h = refl
total_packets-plain_total (s ∷ ss) h = omega (arith, total_packets-plain_total ss (omega arith))

pub count_in-step :
    (idx now : ℕ) (ss : List Shard)
    → idx < length ss
    → plain_total ss + 1 < 2 ^ 64
    → (current now (count_in idx now ss) ≡ current now ss + 1)
      × (plain_total (count_in idx now ss) ≤ plain_total ss + 1)
      × (length (count_in idx now ss) ≡ length ss)
unfolding count_in count_packet current plain_total
count_in-step idx now [] h small = absurd (omega arith)
count_in-step zero now (s ∷ ss) h small = ground arith
count_in-step (suc idx) now (s ∷ ss) h small = ground (arith, count_in-step idx now ss)

-- Calls one after the other, each with its shard and its time, and how many let their packet through.
unfoldable pub let_through : ℕ → List (ℕ × ℕ) → List Shard → ℕ
let_through limit [] limiter = 0
let_through limit ((idx, now) ∷ calls) limiter =
    let (limiter', ok) = sharded_udp_rate_limit limit idx now limiter in
    let rest = let_through limit calls limiter' in if ok then suc rest else rest

pub call_eq :
    (limit idx now : ℕ) (ss : List Shard)
    → idx < length ss
    → plain_total ss + 1 < 2 ^ 64
    → sharded_udp_rate_limit limit idx now ss
      ≡ (count_in idx now ss, leb (plain_total (count_in idx now ss)) limit)
unfolding sharded_udp_rate_limit
call_eq limit idx now [] h small = absurd (omega arith)
call_eq limit idx now (s ∷ ss) h small =
    let counted = count_in-step idx now (s ∷ ss) h small in
    ap (λ n. (count_in idx now (s ∷ ss), leb n limit))
      (total_packets-plain_total (count_in idx now (s ∷ ss)) (omega (arith, counted.1)))

-- Calls of existing shards in the second `now`.
abbrev InSecond : ℕ → ℕ → ℕ × ℕ → Type 0
InSecond count now call = (call.0 < count) × (call.1 ≡ now)

one_more :
    (total limit before rest : ℕ)
    → before < total
    → rest ≤ limit - (before + 1)
    → (if leb total limit then suc rest else rest) ≤ limit - before
one_more total limit before rest h r = ground arith

let_through-current :
    (limit now : ℕ) (calls : List (ℕ × ℕ)) (ss : List Shard)
    → All (InSecond (length ss) now) calls
    → plain_total ss + length calls < 2 ^ 64
    → let_through limit calls ss ≤ limit - current now ss
unfolding let_through
let_through-current limit now [] ss ok small = omega arith
let_through-current limit now ((idx, t) ∷ calls) ss ok small =
    let counted = count_in-step idx now ss ok.0.0 (omega arith) in
    let more =
      let_through-current limit now calls (count_in idx now ss) (rw (counted.2) (ok.1))
        (omega (arith, counted.1)) in
    let bound = current-plain_total now (count_in idx now ss) in
    rw (ok.0.1) (
      rw (call_eq limit idx now ss ok.0.0 (omega arith)) (
        one_more (plain_total (count_in idx now ss)) limit (current now ss) _
          (omega (arith, bound, counted.0)) (omega (arith, more, counted.0))))

-- In a second in which no shard has counted yet, calls of sharded_udp_rate_limit that do not overlap,
-- one after the other from whatever threads, let at most `limit` packets through (as long as the
-- counts stay below 2^64).
second_is_limited :
    (limit now : ℕ) (calls : List (ℕ × ℕ)) (ss : List Shard)
    → All (InSecond (length ss) now) calls
    → current now ss ≡ 0
    → plain_total ss + length calls < 2 ^ 64
    → let_through limit calls ss ≤ limit
second_is_limited limit now calls ss ok new small =
    omega (arith, let_through-current limit now calls ss ok small)

-- Calls of existing shards other than `j`, at any time.
abbrev pub Elsewhere : ℕ → ℕ → ℕ × ℕ → Type 0
Elsewhere count j call = (call.0 < count) × (call.0 ≢ j)

shard_stays :
    (idx now j : ℕ) (ss : List Shard) → idx ≢ j → get_elem? (count_in idx now ss) j ≡ get_elem? ss j
unfolding count_in
shard_stays idx now j [] h = refl
shard_stays zero now zero (s ∷ ss) h = absurd (h refl)
shard_stays zero now (suc j) (s ∷ ss) h = refl
shard_stays (suc idx) now zero (s ∷ ss) h = refl
shard_stays (suc idx) now (suc j) (s ∷ ss) h = shard_stays idx now j ss (λ e. h (ap suc e))

packets_of : Option Shard → ℕ
packets_of none = 0
packets_of (some s) = s.packets

stands_for : {o : Option Shard} {s : Shard} → o ≡ some s → packets_of o ≡ s.packets
unfolding packets_of
stands_for e = ap packets_of e

shard-plain_total : (j : ℕ) (ss : List Shard) → packets_of (get_elem? ss j) ≤ plain_total ss
unfolding packets_of plain_total
shard-plain_total j [] = omega arith
shard-plain_total zero (s ∷ ss) = omega arith
shard-plain_total (suc j) (s ∷ ss) = omega (arith, shard-plain_total j ss)

-- The counts of all shards are added up, whatever their second: once a shard has counted more packets
-- than the limit and its thread makes no more calls, no call of the other threads lets a packet through,
-- at any later time (as long as the counts stay below 2^64).
pub idle_shard_blocks :
    (limit j : ℕ) (s : Shard) (calls : List (ℕ × ℕ)) (ss : List Shard)
    → get_elem? ss j ≡ some s
    → limit < s.packets
    → All (Elsewhere (length ss) j) calls
    → plain_total ss + length calls < 2 ^ 64
    → let_through limit calls ss ≡ 0
unfolding let_through
idle_shard_blocks limit j s [] ss e over ok small = refl
idle_shard_blocks limit j s ((idx, t) ∷ calls) ss e over ok small =
    let counted = count_in-step idx t ss ok.0.0 (omega arith) in
    let kept = shard_stays idx t j ss ok.0.1 ∙ e in
    let many : s.packets ≤ plain_total (count_in idx t ss) =
      omega (arith, stands_for kept, shard-plain_total j (count_in idx t ss)) in
    let refused : leb (plain_total (count_in idx t ss)) limit ≡ false = ground arith in
    rw (call_eq limit idx t ss ok.0.0 (omega arith)) (
      rw refused (
        idle_shard_blocks limit j s calls (count_in idx t ss) kept over (rw (counted.2) (ok.1))
          (omega (arith, counted.1))))
