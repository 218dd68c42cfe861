-- ===== src/Limiter/Moves.antt =====
-- What one atomic step of a call of sharded_udp_rate_limit (Utility.h) does to the counts, and to the calls
-- that can still let their packet through.
use server_application.Common.{
  ℕ, zero, suc, ◌+◌, ◌%◌, ◌^◌, ◌≤◌, ◌<◌, ◌≡◌, refl, sym, ◌∙◌, true, List, [], ◌∷◌, arith, ltb, leb,
  ◌==◌, if◌then◌else◌, length, All, get_elem?, Bool-cases, inl, inr, is_empty,
}
use server_application.Limiter.{Shard}
use server_application.Limiter.Second.{plain_total}
use server_application.Limiter.Steps.{
  UdpCall, Phase, loads_window, swaps_window, stores_zero, adds_one, loads_count, returned,
  window_of, packets_of, on_shard, add_one, advance, advance_at,
}
use server_application.Limiter.Overlap.{
  rest, open_phase, opens, waits, waiting, Stands, IsGood, Grows, room, Moved, Grows-same,
  Grows-IsGood, Grows-open_phase, rest-packets, rest_past, add_one-total, add_one-Grows,
}

adds_one-Moved :
    (limit idx : ℕ) (ss : List Shard)
    → idx < length ss
    → plain_total ss + 1 < 2 ^ 64
    → Moved limit ss adds_one (on_shard idx add_one ss) (loads_count 0 0)
unfolding Stands open_phase rest
adds_one-Moved limit idx ss h small = record {
  grows = add_one-Grows idx ss h small;
  stands = omega arith;
  counted = omega (arith, add_one-total idx ss h small);
  opened = ground (arith, add_one-total idx ss h small);
}

unchanged-Moved :
    (limit : ℕ) (ss : List Shard) (p p' : Phase)
    → Stands ss p'
    → waits p' ≡ waits p
    → open_phase limit ss p' ≤ open_phase limit ss p
    → Moved limit ss p ss p'
unchanged-Moved limit ss p p' s w o = record {
  grows = Grows-same ss;
  stands = s;
  counted = omega (arith, w);
  opened = omega (arith, o);
}

next_count-Moved :
    (limit i total : ℕ) (ss : List Shard)
    → plain_total ss < 2 ^ 64
    → total + rest i ss ≤ plain_total ss
    → i < length ss
    → Moved limit ss
        (loads_count i total)
        ss
        (loads_count (suc i) ((total + packets_of (get_elem? ss i)) % 2 ^ 64))
unfolding Stands open_phase
next_count-Moved limit i total ss small h inside =
    let more : (total + packets_of (get_elem? ss i)) % 2 ^ 64 + rest (suc i) ss
        ≡ total + rest i ss =
      omega (arith, rest-packets i ss inside, h, small) in
    unchanged-Moved limit ss (loads_count i total)
      (loads_count (suc i) ((total + packets_of (get_elem? ss i)) % 2 ^ 64))
      (omega (arith, more, h)) refl (rw more (omega arith))

last_count-Moved :
    (limit i total : ℕ) (ss : List Shard)
    → length ss ≤ i
    → Moved limit ss (loads_count i total) ss (returned (leb total limit))
unfolding Stands open_phase
last_count-Moved limit i total ss outside =
    unchanged-Moved limit ss (loads_count i total) (returned (leb total limit)) tt refl
      (ground (arith, rest_past i ss outside))

loads_count-Moved :
    (limit now idx i total : ℕ) (ss : List Shard)
    → plain_total ss < 2 ^ 64
    → total + rest i ss ≤ plain_total ss
    → Moved limit ss
        (loads_count i total)
        (advance limit ss idx now (loads_count i total)).0
        (advance limit ss idx now (loads_count i total)).1
unfolding advance
loads_count-Moved limit now idx i total ss small h = elim (Bool-cases (ltb i (length ss))) [
  | inl inside ↦ rw inside (next_count-Moved limit i total ss small h (ground arith))
  | inr outside ↦ rw outside (last_count-Moved limit i total ss (ground arith))
]

-- A call whose shard has been switched goes on to count.
no_switch :
    (now old : ℕ) (ss : List Shard) (idx : ℕ)
    → idx < length ss
    → old ≡ now
    → (if is_empty ss then returned true else if now == old then adds_one else swaps_window old)
      ≡ adds_one
no_switch now old [] idx h e = absurd (omega arith)
no_switch now old (s ∷ ss) idx h e = ground arith

loads_window-Moved :
    (limit now idx : ℕ) (ss : List Shard)
    → idx < length ss
    → window_of (get_elem? ss idx) ≡ now
    → Moved limit ss loads_window
        (advance limit ss idx now loads_window).0
        (advance limit ss idx now loads_window).1
unfolding advance Stands open_phase
loads_window-Moved limit now idx ss h e =
    rw (no_switch now (window_of (get_elem? ss idx)) ss idx h e)
      (unchanged-Moved limit ss loads_window adds_one tt refl (omega arith))

advance-Moved :
    (limit now idx : ℕ) (ss : List Shard) (p : Phase)
    → idx < length ss
    → window_of (get_elem? ss idx) ≡ now
    → plain_total ss + waits p < 2 ^ 64
    → Stands ss p
    → Moved limit ss p (advance limit ss idx now p).0 (advance limit ss idx now p).1
unfolding advance Stands open_phase
advance-Moved limit now idx ss loads_window h e small s = loads_window-Moved limit now idx ss h e
advance-Moved limit now idx ss (swaps_window old) h e small s = absurd s
advance-Moved limit now idx ss stores_zero h e small s = absurd s
advance-Moved limit now idx ss adds_one h e small s = adds_one-Moved limit idx ss h small
advance-Moved limit now idx ss (loads_count i total) h e small s =
    loads_count-Moved limit now idx i total ss (omega arith) s
advance-Moved limit now idx ss (returned ok) h e small s =
    unchanged-Moved limit ss (returned ok) (returned ok) s refl (omega arith)

-- A state of shards and calls, and the one that follows.
pub record Follows (limit now : ℕ) (ss : List Shard) (cs : List UdpCall) (ss' : List Shard)
    (cs' : List UdpCall) : Type 0 where
  pub grows : Grows ss ss'
  pub good : All (IsGood now ss') cs'
  pub counted : plain_total ss' + waiting cs' ≡ plain_total ss + waiting cs
  pub opened : opens limit ss' cs' ≤ opens limit ss cs + room limit ss ss'

All-IsGood :
    (now : ℕ) (ss ss' : List Shard) (cs : List UdpCall)
    → Grows ss ss'
    → All (IsGood now ss) cs
    → All (IsGood now ss') cs
All-IsGood now ss ss' [] g a = tt
All-IsGood now ss ss' (c ∷ cs) g a =
    (Grows-IsGood now ss ss' c g a.0, All-IsGood now ss ss' cs g a.1)

all-opens :
    (limit : ℕ) (ss ss' : List Shard) (cs : List UdpCall)
    → Grows ss ss'
    → opens limit ss' cs ≤ opens limit ss cs
unfolding opens
all-opens limit ss ss' [] g = omega arith
all-opens limit ss ss' (c ∷ cs) g =
    omega (arith, Grows-open_phase limit ss ss' c.phase g, all-opens limit ss ss' cs g)

pub advance_at-Follows :
    (limit now : ℕ) (ss : List Shard) (cs : List UdpCall) (i : ℕ)
    → All (IsGood now ss) cs
    → plain_total ss + waiting cs < 2 ^ 64
    → Follows limit now ss cs (advance_at limit ss cs i).0 (advance_at limit ss cs i).1
unfolding advance_at opens
advance_at-Follows limit now ss [] i g small = record {
  grows = Grows-same ss;
  good = tt;
  counted = refl;
  opened = omega arith;
}
advance_at-Follows limit now ss (c ∷ cs) zero g small =
    let ss' = (advance limit ss c.idx c.now_sec c.phase).0 in
    let m =
      advance-Moved limit c.now_sec c.idx ss c.phase g.0.there (g.0.switched ∙ sym g.0.in_second)
        (omega arith) g.0.stands in
    let moved : IsGood now ss' (record c { phase = (advance limit ss c.idx c.now_sec c.phase).1 }) =
      record {
        there = omega (arith, g.0.there, m.grows.size);
        in_second = g.0.in_second;
        switched = m.grows.windows c.idx ∙ g.0.switched;
        stands = m.stands;
      } in
    record {
      grows = m.grows;
      good = (moved, All-IsGood now ss ss' cs m.grows g.1);
      counted = omega (arith, m.counted);
      opened = omega (arith, m.opened, all-opens limit ss ss' cs m.grows);
    }
advance_at-Follows limit now ss (c ∷ cs) (suc i) g small =
    let f = advance_at-Follows limit now ss cs i g.1 (omega arith) in
    record {
      grows = f.grows;
      good = (Grows-IsGood now ss (advance_at limit ss cs i).0 c f.grows g.0, f.good);
      counted = omega (arith, f.counted);
      opened =
          omega (
            arith,
            f.opened,
            Grows-open_phase limit ss (advance_at limit ss cs i).0 c.phase f.grows,
          );
    }
