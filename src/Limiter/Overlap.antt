-- ===== src/Limiter/Overlap.antt =====
-- What the limit of sharded_udp_rate_limit (Utility.h) promises when calls overlap.
use server_application.Common.{
  ℕ, zero, suc, ◌+◌, ◌-◌, ◌^◌, ◌≤◌, ◌<◌, ◌≡◌, ◌∙◌, refl, List, [], ◌∷◌, arith, leb, if◌then◌else◌,
  length, get_elem?,
}
use server_application.Limiter.{Shard}
use server_application.Limiter.Second.{plain_total}
use server_application.Limiter.Steps.{
  UdpCall, Phase, loads_window, swaps_window, stores_zero, adds_one, loads_count, returned,
  window_of, packets_of, on_shard, add_one,
}

-- The packets of the shards from the one at `i` on.
unfoldable pub rest : ℕ → List Shard → ℕ
unfolding plain_total
rest zero ss = plain_total ss
rest (suc i) [] = 0
rest (suc i) (s ∷ ss) = rest i ss

-- Calls that can still let their packet through, or have done so.
unfoldable pub open_phase : ℕ → List Shard → Phase → ℕ
open_phase limit ss (loads_count i total) = if leb (total + rest i ss) limit then 1 else 0
open_phase limit ss (returned ok) = if ok then 1 else 0
open_phase limit ss _ = 0

unfoldable pub opens : ℕ → List Shard → List UdpCall → ℕ
opens limit ss [] = 0
opens limit ss (c ∷ cs) = open_phase limit ss c.phase + opens limit ss cs

-- Calls that have not counted their packet.
abbrev pub waits : Phase → ℕ
waits (loads_count i total) = 0
waits (returned ok) = 0
waits _ = 1

abbrev pub waiting : List UdpCall → ℕ
waiting [] = 0
waiting (c ∷ cs) = waits c.phase + waiting cs

-- Where a call may stand when it finds no window of another second.
unfoldable pub Stands : List Shard → Phase → Type 0
Stands ss (swaps_window old) = ⊥
Stands ss stores_zero = ⊥
Stands ss (loads_count i total) = total + rest i ss ≤ plain_total ss
Stands ss _ = Unit

pub record IsGood (now : ℕ) (ss : List Shard) (c : UdpCall) : Type 0 where
  pub there : c.idx < length ss
  pub in_second : c.now_sec ≡ now
  pub switched : window_of (get_elem? ss c.idx) ≡ now
  pub stands : Stands ss c.phase

-- What a step does to the shards.
pub record Grows (ss ss' : List Shard) : Type 0 where
  pub size : length ss' ≡ length ss
  pub windows : (i : ℕ) → window_of (get_elem? ss' i) ≡ window_of (get_elem? ss i)
  pub total_before : plain_total ss ≤ plain_total ss'
  pub from : (i : ℕ) → rest i ss ≤ rest i ss'
  pub to : (i : ℕ) → rest i ss' + plain_total ss ≤ rest i ss + plain_total ss'

pub Grows-same : (ss : List Shard) → Grows ss ss
Grows-same ss = record {
  size = refl;
  windows = λ i. refl;
  total_before = omega arith;
  from = λ i. omega arith;
  to = λ i. omega arith;
}

pub rest-packets :
    (i : ℕ) (ss : List Shard)
    → i < length ss
    → rest i ss ≡ packets_of (get_elem? ss i) + rest (suc i) ss
unfolding rest plain_total
rest-packets i [] h = absurd (omega arith)
rest-packets zero (s ∷ ss) h = refl
rest-packets (suc i) (s ∷ ss) h = rest-packets i ss (omega arith)

pub rest_past : (i : ℕ) (ss : List Shard) → length ss ≤ i → rest i ss ≡ 0
unfolding rest plain_total
rest_past zero [] h = refl
rest_past (suc i) [] h = refl
rest_past zero (s ∷ ss) h = absurd (omega arith)
rest_past (suc i) (s ∷ ss) h = rest_past i ss (omega arith)

pub add_one-total :
    (idx : ℕ) (ss : List Shard)
    → idx < length ss
    → plain_total ss + 1 < 2 ^ 64
    → plain_total (on_shard idx add_one ss) ≡ plain_total ss + 1
unfolding on_shard plain_total
add_one-total idx [] h small = absurd (omega arith)
add_one-total zero (s ∷ ss) h small = omega arith
add_one-total (suc idx) (s ∷ ss) h small =
    omega (arith, add_one-total idx ss (omega arith) (omega arith))

add_one-rest :
    (idx i : ℕ) (ss : List Shard)
    → idx < length ss
    → plain_total ss + 1 < 2 ^ 64
    → (rest i ss ≤ rest i (on_shard idx add_one ss))
      × (rest i (on_shard idx add_one ss) ≤ rest i ss + 1)
unfolding on_shard rest plain_total
add_one-rest idx zero ss h small = omega (arith, add_one-total idx ss h small)
add_one-rest idx (suc i) [] h small = absurd (omega arith)
add_one-rest zero (suc i) (s ∷ ss) h small = omega arith
add_one-rest (suc idx) (suc i) (s ∷ ss) h small = add_one-rest idx i ss (omega arith) (omega arith)

length-on_shard :
    (idx : ℕ) (f : Shard → Shard) (ss : List Shard) → length (on_shard idx f ss) ≡ length ss
unfolding on_shard
length-on_shard idx f [] = refl
length-on_shard zero f (s ∷ ss) = refl
length-on_shard (suc idx) f (s ∷ ss) = omega (arith, length-on_shard idx f ss)

add_one-window_of :
    (idx : ℕ) (ss : List Shard) (i : ℕ)
    → window_of (get_elem? (on_shard idx add_one ss) i) ≡ window_of (get_elem? ss i)
unfolding on_shard
add_one-window_of idx [] i = refl
add_one-window_of zero (s ∷ ss) zero = refl
add_one-window_of zero (s ∷ ss) (suc i) = refl
add_one-window_of (suc idx) (s ∷ ss) zero = refl
add_one-window_of (suc idx) (s ∷ ss) (suc i) = add_one-window_of idx ss i

pub add_one-Grows :
    (idx : ℕ) (ss : List Shard)
    → idx < length ss
    → plain_total ss + 1 < 2 ^ 64
    → Grows ss (on_shard idx add_one ss)
add_one-Grows idx ss h small = record {
  size = length-on_shard idx add_one ss;
  windows = add_one-window_of idx ss;
  total_before = omega (arith, add_one-total idx ss h small);
  from = λ i. (add_one-rest idx i ss h small).0;
  to = λ i. omega (arith, add_one-total idx ss h small, (add_one-rest idx i ss h small).1);
}

-- Calls that do not move.
Grows-Stands : (ss ss' : List Shard) (p : Phase) → Grows ss ss' → Stands ss p → Stands ss' p
unfolding Stands
Grows-Stands ss ss' loads_window g h = tt
Grows-Stands ss ss' (swaps_window old) g h = h
Grows-Stands ss ss' stores_zero g h = h
Grows-Stands ss ss' adds_one g h = tt
Grows-Stands ss ss' (loads_count i total) g h = omega (arith, h, g.to i)
Grows-Stands ss ss' (returned ok) g h = tt

pub Grows-IsGood :
    (now : ℕ) (ss ss' : List Shard) (c : UdpCall)
    → Grows ss ss'
    → IsGood now ss c
    → IsGood now ss' c
Grows-IsGood now ss ss' c g good = record {
  there = omega (arith, good.there, g.size);
  in_second = good.in_second;
  switched = g.windows c.idx ∙ good.switched;
  stands = Grows-Stands ss ss' c.phase g good.stands;
}

pub Grows-open_phase :
    (limit : ℕ) (ss ss' : List Shard) (p : Phase)
    → Grows ss ss'
    → open_phase limit ss' p ≤ open_phase limit ss p
unfolding open_phase
Grows-open_phase limit ss ss' loads_window g = omega arith
Grows-open_phase limit ss ss' (swaps_window old) g = omega arith
Grows-open_phase limit ss ss' stores_zero g = omega arith
Grows-open_phase limit ss ss' adds_one g = omega arith
Grows-open_phase limit ss ss' (loads_count i total) g = ground (arith, g.from i)
Grows-open_phase limit ss ss' (returned ok) g = omega arith

-- How many packets a step lets through at most.
abbrev pub room : ℕ → List Shard → List Shard → ℕ
room limit ss ss' = if leb (plain_total ss') limit then plain_total ss' - plain_total ss else 0

pub record Moved (limit : ℕ) (ss : List Shard) (p : Phase) (ss' : List Shard) (p' : Phase)
    : Type 0 where
  pub grows : Grows ss ss'
  pub stands : Stands ss' p'
  pub counted : plain_total ss' + waits p' ≡ plain_total ss + waits p
  pub opened : open_phase limit ss' p' ≤ open_phase limit ss p + room limit ss ss'
