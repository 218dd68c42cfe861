-- ===== src/Limiter/Steps.antt =====
-- Calls of sharded_udp_rate_limit (Utility.h) that overlap: each load, compare_exchange_strong, store and
-- fetch_add is a step of its own, and a schedule says which call moves next.
use server_application.Common.{
  ℕ, zero, suc, ◌+◌, ◌%◌, ◌^◌, Bool, true, Option, none, some, List, [], ◌∷◌, ltb, leb, ◌==◌,
  if◌then◌else◌, length, is_empty, get_elem?,
}
use server_application.Limiter.{Shard}

-- Where a call stands: the next atomic operation that it makes, with its local variables.
pub data Phase : Type 0 where
  loads_window : Phase
  swaps_window : ℕ → Phase  -- old_sec
  stores_zero : Phase
  adds_one : Phase
  loads_count : ℕ → ℕ → Phase  -- i and total
  returned : Bool → Phase

pub record UdpCall : Type 0 where
  pub idx : ℕ
  pub now_sec : ℕ
  pub phase : Phase

abbrev pub window_of : Option Shard → ℕ
window_of none = 0
window_of (some s) = s.window_sec

abbrev pub packets_of : Option Shard → ℕ
packets_of none = 0
packets_of (some s) = s.packets

unfoldable pub on_shard : ℕ → (Shard → Shard) → List Shard → List Shard
on_shard idx f [] = []
on_shard zero f (s ∷ ss) = f s ∷ ss
on_shard (suc idx) f (s ∷ ss) = s ∷ on_shard idx f ss

abbrev pub add_one : Shard → Shard
add_one s = record s { packets = (s.packets + 1) % 2 ^ 64 }

-- One atomic operation of one call, and the local work up to the next one.
unfoldable pub advance : ℕ → List Shard → ℕ → ℕ → Phase → List Shard × Phase
unfolding on_shard
advance limit ss idx now loads_window =
    let old = window_of (get_elem? ss idx) in
    (ss, if is_empty ss then returned true else if now == old then adds_one else swaps_window old)
advance limit ss idx now (swaps_window old) =
    let switched = on_shard idx (λ s. record s { window_sec = now }) ss in
    if window_of (get_elem? ss idx) == old then (switched, stores_zero) else (ss, adds_one)
advance limit ss idx now stores_zero = (on_shard idx (λ s. record s { packets = 0 }) ss, adds_one)
advance limit ss idx now adds_one = (on_shard idx add_one ss, loads_count 0 0)
advance limit ss idx now (loads_count i total) =
    let more = (total + packets_of (get_elem? ss i)) % 2 ^ 64 in
    (ss, if ltb i (length ss) then loads_count (suc i) more else returned (leb total limit))
advance limit ss idx now (returned ok) = (ss, returned ok)

unfoldable pub advance_at : ℕ → List Shard → List UdpCall → ℕ → List Shard × List UdpCall
unfolding advance
advance_at limit ss [] i = (ss, [])
advance_at limit ss (c ∷ cs) zero =
    let (ss', phase) = advance limit ss c.idx c.now_sec c.phase in
    (ss', record c { phase = phase } ∷ cs)
advance_at limit ss (c ∷ cs) (suc i) = let (ss', cs') = advance_at limit ss cs i in (ss', c ∷ cs')

unfoldable pub interleave : ℕ → List ℕ → List Shard → List UdpCall → List Shard × List UdpCall
unfolding advance_at
interleave limit [] ss cs = (ss, cs)
interleave limit (i ∷ schedule) ss cs =
    let (ss', cs') = advance_at limit ss cs i in interleave limit schedule ss' cs'

-- How many calls have let their packet through.
unfoldable pub passed : List UdpCall → ℕ
passed [] = 0
passed (c ∷ cs) = elim c.phase [ returned true ↦ suc (passed cs) | _ ↦ passed cs ]
