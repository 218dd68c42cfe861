-- ===== src/Limiter/Bound.antt =====
-- How many packets overlapping calls of sharded_udp_rate_limit (Utility.h) let through in a second.
use server_application.Common.{
  ℕ, ◌+◌, ◌-◌, ◌^◌, ◌≤◌, ◌<◌, ◌≡◌, refl, ◌∙◌, List, [], ◌∷◌, arith, length, All, get_elem?,
}
use server_application.Limiter.{Shard}
use server_application.Limiter.Second.{plain_total}
use server_application.Limiter.Steps.{UdpCall, loads_window, window_of, interleave, passed}
use server_application.Limiter.Overlap.{open_phase, opens, waiting, Stands, IsGood}
use server_application.Limiter.Moves.{Follows, advance_at-Follows}

record Inv (limit now base total : ℕ) (ss : List Shard) (cs : List UdpCall) : Type 0 where
  good : All (IsGood now ss) cs
  counted : plain_total ss + waiting cs ≡ total
  behind : opens limit ss cs + base ≤ plain_total ss
  within : opens limit ss cs ≤ limit - base

Follows-Inv :
    (limit now base total : ℕ) (ss ss' : List Shard) (cs cs' : List UdpCall)
    → Inv limit now base total ss cs
    → Follows limit now ss cs ss' cs'
    → Inv limit now base total ss' cs'
Follows-Inv limit now base total ss ss' cs cs' v f = record {
  good = f.good;
  counted = f.counted ∙ v.counted;
  behind = ground (arith, f.opened, f.grows.total_before, v.behind);
  within = ground (arith, f.opened, f.grows.total_before, v.behind, v.within);
}

interleave-Inv :
    (limit now base total : ℕ) (schedule : List ℕ) (ss : List Shard) (cs : List UdpCall)
    → total < 2 ^ 64
    → Inv limit now base total ss cs
    → Inv limit now base total
        (interleave limit schedule ss cs).0
        (interleave limit schedule ss cs).1
unfolding interleave
interleave-Inv limit now base total [] ss cs small v = v
interleave-Inv limit now base total (i ∷ schedule) ss cs small v =
    interleave-Inv limit now base total schedule _ _ small (
      Follows-Inv limit now base total ss _ cs _ v
        (advance_at-Follows limit now ss cs i v.good (omega (arith, v.counted, small))))

passed-opens : (limit : ℕ) (ss : List Shard) (cs : List UdpCall) → passed cs ≤ opens limit ss cs
unfolding passed opens open_phase
passed-opens limit ss [] = omega arith
passed-opens limit ss (c ∷ cs) = ground (arith, passed-opens limit ss cs)

-- A shard that is there and has been switched to the second `now`.
abbrev pub IsSwitched : ℕ → List Shard → ℕ → Type 0
IsSwitched now ss idx = (idx < length ss) × (window_of (get_elem? ss idx) ≡ now)

-- Calls that begin in the second `now`, each with its shard.
unfoldable pub beginning : ℕ → List ℕ → List UdpCall
beginning now [] = []
beginning now (idx ∷ more) =
    record { idx = idx; now_sec = now; phase = loads_window } ∷ beginning now more

beginning-Inv :
    (limit now : ℕ) (idxs : List ℕ) (ss : List Shard)
    → All (IsSwitched now ss) idxs
    → All (IsGood now ss) (beginning now idxs)
      × (waiting (beginning now idxs) ≡ length idxs)
      × (opens limit ss (beginning now idxs) ≡ 0)
unfolding beginning opens open_phase Stands
beginning-Inv limit now [] ss a = (tt, refl, refl)
beginning-Inv limit now (idx ∷ more) ss a =
    let b = beginning-Inv limit now more ss a.1 in
    (
      (record { there = a.0.0; in_second = refl; switched = a.0.1; stands = tt }, b.0),
      omega (arith, b.1),
      omega (arith, b.2),
    )

-- Any number of calls of sharded_udp_rate_limit begin in one second, on shards that have been switched
-- to this second already (so that no call resets a count); shards that none of them uses may be of any
-- second. However their loads and additions are interleaved, and at any point of it, the calls that
-- have let their packet through are at most as many as the limit leaves above the counts of all
-- shards at the start (as long as the counts stay below 2^64).
pub overlapping_calls_are_limited :
    (limit now : ℕ) (idxs schedule : List ℕ) (ss : List Shard)
    → All (IsSwitched now ss) idxs
    → plain_total ss + length idxs < 2 ^ 64
    → passed (interleave limit schedule ss (beginning now idxs)).1 ≤ limit - plain_total ss
overlapping_calls_are_limited limit now idxs schedule ss switched small =
    let b = beginning-Inv limit now idxs ss switched in
    let v : Inv limit now (plain_total ss) (plain_total ss + length idxs) ss (beginning now idxs) =
      record {
        good = b.0;
        counted = omega (arith, b.1);
        behind = omega (arith, b.2);
        within = omega (arith, b.2);
      } in
    let w =
      interleave-Inv limit now (plain_total ss) (plain_total ss + length idxs) schedule ss
        (beginning now idxs) small v in
    omega
      (arith, passed-opens limit _ (interleave limit schedule ss (beginning now idxs)).1, w.within)
