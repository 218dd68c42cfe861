-- ===== src/Examples/SessionRuns.antt =====
-- Sessions of Session.cpp: closes, writes, overflows and the rate limit.
use server_application.Common.{
  ℕ, ◌+◌, ◌*◌, ◌-◌, ◌/◌, ◌≤◌, ◌≡◌, refl, true, false, none, some, List, [], ◌∷◌, ◌++◌, ◌⊎◌, inl,
  inr, arith, pop, pos, Text,
}
use server_application.Session.{
  Session, Config, new_session, idle, closing, closed_life, closed_state, refill_rate_per_sec,
}
use server_application.Session.Udp.{ns_per_sec}
use server_application.Session.Queues.{enqueue_write, do_write_queue, post_write, on_written}
use server_application.Session.Race.{race, race_one_winner, starting, wins, move, move_at}
use server_application.Session.RateLimit.{admitted, admitted_bounded, NeverOver}
use server_application.Session.Writes.{post, complete, step, run, fresh, run_in_order}
use server_application.Session.Backlog.{overflow_skips_message, flood, flood_closes}

abbrev pub small : Config
small = record {
  max_task_queue = 2;
  max_write_queue_size = 3;
  write_queue_overflow_limit = 2;
  udp_token_ttl_seconds = 300;
  total_limit_per_sec = 200;
  max_udp_packet_size = 1200;
  max_zone_count = 10;
  zone_max_sessions_count = 100;
}

abbrev first_session : Session
first_session = new_session (pos 1) 0

abbrev text_a : Text
text_a = 97 ∷ []

abbrev text_b : Text
text_b = 98 ∷ []

abbrev text_c : Text
text_c = 99 ∷ []

abbrev text_d : Text
text_d = 100 ∷ []

abbrev closed_session : Session
closed_session = record first_session {
  life = closed_life;
  state = closed_state;
  login_timer_armed = false;
  socket_open = false;
}

race_one_winner_example :
    (wins (race (1 ∷ 0 ∷ 1 ∷ 0 ∷ []) (record { life = idle; threads = starting 2 })).threads ≡ 1)
    × ((race (1 ∷ 0 ∷ 1 ∷ 0 ∷ []) (record { life = idle; threads = starting 2 })).life ≡ closing)
unfolding race starting move move_at
race_one_winner_example =
    race_one_winner idle 2 (1 ∷ 0 ∷ 1 ∷ 0 ∷ []) (inl refl) (omega arith) (inr refl, (inl refl, tt))

abbrev refill_rounded_down : ℕ → ℕ
refill_rounded_down ms = ms * 60 / 1000

refill_rounded_down-NeverOver : NeverOver refill_rounded_down
refill_rounded_down-NeverOver ms = omega arith

admitted_bounded_example :
    (admitted refill_rounded_down first_session (5 ∷ 5 ∷ 40000000 ∷ [])).0 * ns_per_sec
    ≤ first_session.udp_tokens * ns_per_sec
      + refill_rate_per_sec * (50000000 - first_session.last_udp_token_refill)
unfolding new_session
admitted_bounded_example =
    admitted_bounded refill_rounded_down first_session (5 ∷ 5 ∷ 40000000 ∷ []) 0 50000000
      (omega arith) (omega arith, (omega arith, (omega arith, omega arith)))
      refill_rounded_down-NeverOver

abbrev full_session : Session
full_session = record first_session {
  write_queue = text_a ∷ text_b ∷ text_c ∷ [];
  write_in_progress = true;
}

run_in_order_example :
    let l = run small (fresh first_session) (post text_a ∷ post text_b ∷ complete ∷ []) in
    (l.started ++ pop l.session.write_queue ≡ l.posted)
    × ((l.session.write_queue ≡ []) × (l.in_flight ≡ none)
        ⊎ ((m : Text) × (q : List Text) × (l.session.write_queue ≡ m ∷ q)
            × (l.in_flight ≡ some (l.session.generation, m))))
unfolding run fresh step new_session post_write enqueue_write do_write_queue on_written
run_in_order_example =
    run_in_order small first_session (post text_a ∷ post text_b ∷ complete ∷ []) (λ e. ground arith)
      refl refl

overflow_skips_message_example :
    let posted = post_write small full_session text_d in
    let written = on_written posted.0 full_session.generation false in
    (posted.1 ≡ false)
    × (posted.2 ≡ none)
    × (written.2 ≡ some (full_session.generation, text_c))
    × (written.0.write_queue ≡ text_c ∷ [] ++ text_d ∷ [])
unfolding new_session
overflow_skips_message_example =
    overflow_skips_message small full_session text_a text_b text_c text_d [] (λ e. ground arith)
      refl (omega arith) (omega arith)

flood_closes_example : (flood small full_session (text_d ∷ text_d ∷ [])).1 ≡ true
unfolding new_session
flood_closes_example =
    flood_closes small full_session (text_d ∷ text_d ∷ []) (omega arith) refl (omega arith)
