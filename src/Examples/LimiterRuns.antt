-- ===== src/Examples/LimiterRuns.antt =====
-- The UDP limit of Utility.h: calls that overlap within a second, and an idle shard.
use server_application.Common.{ℕ, ◌≤◌, ◌≡◌, refl, List, [], ◌∷◌, arith}
use server_application.Limiter.{Shard}
use server_application.Limiter.Second.{let_through, idle_shard_blocks, plain_total}
use server_application.Limiter.Steps.{interleave, advance_at, advance, on_shard, passed}
use server_application.Limiter.Bound.{beginning, overlapping_calls_are_limited}

-- Two shards that have been switched to the second 9, one that has not, and three calls.
abbrev switched_limiter : List Shard
switched_limiter =
    record { packets = 1; window_sec = 9 }
    ∷ record { packets = 0; window_sec = 9 }
    ∷ record { packets = 0; window_sec = 4 }
    ∷ []

abbrev three_calls : List ℕ
three_calls = 0 ∷ 1 ∷ 0 ∷ []

-- The calls take turns.
abbrev in_turn : List ℕ
in_turn = 0 ∷ 1 ∷ 2 ∷ 0 ∷ 1 ∷ 2 ∷ 0 ∷ 1 ∷ 2 ∷ 0 ∷ 1 ∷ 2 ∷ 0 ∷ 1 ∷ 2 ∷ []

overlapping_calls_are_limited_example :
    passed (interleave 3 in_turn switched_limiter (beginning 9 three_calls)).1 ≤ 2
unfolding plain_total
overlapping_calls_are_limited_example =
    overlapping_calls_are_limited 3 9 three_calls in_turn switched_limiter
      ((omega arith, refl), ((omega arith, refl), ((omega arith, refl), tt))) (omega arith)

-- In the first moments of a second this is not so. With a limit of one packet, the first call has
-- exchanged the shard's second and not yet stored the zero when the second call counts its packet and
-- passes; the zero then erases that count, and the first call passes too.
lost_count :
    passed
      (interleave 1
        (0 ∷ 0 ∷ 1 ∷ 1 ∷ 1 ∷ 1 ∷ 0 ∷ 0 ∷ 0 ∷ 0 ∷ [])
        (record { packets = 0; window_sec = 8 } ∷ [])
        (beginning 9 (0 ∷ 0 ∷ []))).1
    ≡ 2
unfolding interleave advance_at advance on_shard passed beginning
lost_count = refl

abbrev busy_shard : Shard
busy_shard = record { packets = 5; window_sec = 3 }

abbrev idle_limiter : List Shard
idle_limiter = record { packets = 0; window_sec = 0 } ∷ busy_shard ∷ []

abbrev later_calls : List (ℕ × ℕ)
later_calls = (0, 100) ∷ (0, 200) ∷ []

idle_shard_blocks_example : let_through 4 later_calls idle_limiter ≡ 0
unfolding plain_total
idle_shard_blocks_example =
    idle_shard_blocks 4 1 busy_shard later_calls idle_limiter refl (omega arith)
      ((omega arith, λ e. ground arith), ((omega arith, λ e. ground arith), tt)) (omega arith)
