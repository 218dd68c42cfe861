-- ===== src/Examples/PoolRuns.antt =====
-- Histories of a pool of SessionPool.cpp with one session and room for no more.
use server_application.Common.{◌≡◌, ◌<◌, ◌≤◌, refl, false, List, [], ◌∷◌, arith, length, pos}
use server_application.Session.{Session, new_session}
use server_application.Pool.{acquire, release, new_pool, contains, prepare, modify, discard}
use server_application.Pool.Leases.{
  Call, acquires, releases, step, run, started, count, acquire_exclusive, acquire_refuses,
}
use server_application.Pool.Reuse.{prepare_isolates}

abbrev one_round : List Call
one_round = acquires (pos 1) 5 ∷ releases 0 ∷ []

acquire_exclusive_example :
    let before = run (started 1 1 0) one_round in
    let after = step before (acquires (pos 2) 9) in
    (contains 0 before.held ≡ false)
    × (count 0 after.held ≡ 1)
    × (count 0 after.pool.reusable ≡ 0)
    × (0 < length after.pool.sessions)
unfolding run step started acquire release new_pool contains modify discard
acquire_exclusive_example = acquire_exclusive 1 1 0 one_round (pos 2) 9 0 refl

acquire_refuses_example :
    (count 0 (run (started 1 1 0) (acquires (pos 1) 5 ∷ [])).held ≡ 1)
    × ((run (started 1 1 0) (acquires (pos 1) 5 ∷ [])).pool.max_size
        ≤ length (run (started 1 1 0) (acquires (pos 1) 5 ∷ [])).pool.sessions)
unfolding run step started acquire release new_pool modify
acquire_refuses_example =
    acquire_refuses 1 1 0 (acquires (pos 1) 5 ∷ []) (pos 2) 9 0 refl (omega arith)

abbrev left_behind : Session
left_behind = record (new_session (pos 7) 3) {
  nickname = 97 ∷ [];
  write_queue = (98 ∷ []) ∷ [];
  udp_token = 99 ∷ [];
  zone_id = pos 4;
}

prepare_isolates_example :
    prepare (pos 8) 20 left_behind ≡ prepare (pos 8) 20 (new_session (pos 1) 3)
unfolding new_session
prepare_isolates_example = prepare_isolates left_behind (new_session (pos 1) 3) (pos 8) 20 (record {
  generation = refl;
  overflow_count = refl;
  in_progress = refl;
  tokens = refl;
  refill_time = refl;
  flag = refl;
})
