-- ===== src/Limiter/Alone.antt =====
-- A call of sharded_udp_rate_limit (Utility.h) that no other call overlaps, atomic step by atomic step.
use server_application.Common.{
  ℕ, zero, suc, ◌+◌, ◌%◌, ◌^◌, ◌≤◌, ◌<◌, ◌≡◌, refl, ap, ◌∙◌, sym, Bool, true, false, List, [], ◌∷◌,
  arith, ltb, leb, ◌==◌, length, get_elem?, Bool-cases, inl, inr,
}
use server_application.Limiter.{Shard, count_packet, count_in, sharded_udp_rate_limit}
use server_application.Limiter.Second.{plain_total, call_eq, count_in-step}
use server_application.Limiter.Steps.{
  Phase, loads_window, swaps_window, stores_zero, adds_one, loads_count, returned, window_of,
  packets_of, on_shard, add_one, advance,
}
use server_application.Limiter.Overlap.{rest, rest-packets, rest_past}

-- The next `n` atomic operations of the call.
unfoldable pub advance_by : ℕ → ℕ → ℕ → ℕ → List Shard × Phase → List Shard × Phase
unfolding advance
advance_by zero limit idx now (ss, p) = (ss, p)
advance_by (suc n) limit idx now (ss, p) = advance_by n limit idx now (advance limit ss idx now p)

returned_stays :
    (n limit idx now : ℕ) (ss : List Shard) (ok : Bool)
    → advance_by n limit idx now (ss, returned ok) ≡ (ss, returned ok)
unfolding advance_by advance
returned_stays zero limit idx now ss ok = refl
returned_stays (suc n) limit idx now ss ok = returned_stays n limit idx now ss ok

-- The loop that adds the counts up: behind the last shard, and from any shard on.
loop_ends :
    (n limit idx now i total : ℕ) (ss : List Shard)
    → length ss ≤ i
    → advance_by (suc n) limit idx now (ss, loads_count i total)
      ≡ (ss, returned (leb (total + rest i ss) limit))
unfolding advance_by advance
loop_ends n limit idx now i total ss past =
    let outside : ltb i (length ss) ≡ false = ground arith in
    let all : total ≡ total + rest i ss = omega (arith, rest_past i ss past) in
    rw outside (
      returned_stays n limit idx now ss (leb total limit)
      ∙ ap (λ t. (ss, returned (leb t limit))) all)

loop_goes_on :
    (n limit idx now i total : ℕ) (ss : List Shard)
    → i < length ss
    → total + rest i ss < 2 ^ 64
    → let more = (total + packets_of (get_elem? ss i)) % 2 ^ 64 in
      (advance_by (suc n) limit idx now (ss, loads_count i total)
        ≡ advance_by n limit idx now (ss, loads_count (suc i) more))
      × (more + rest (suc i) ss ≡ total + rest i ss)
unfolding advance_by advance
loop_goes_on n limit idx now i total ss there small =
    let inside : ltb i (length ss) ≡ true = ground arith in
    (rw inside refl, omega (arith, rest-packets i ss there, small))

counts_end :
    (n limit idx now i total : ℕ) (ss : List Shard)
    → length ss ≤ n + i
    → total + rest i ss < 2 ^ 64
    → advance_by (suc n) limit idx now (ss, loads_count i total)
      ≡ (ss, returned (leb (total + rest i ss) limit))
counts_end zero limit idx now i total ss h small =
    loop_ends zero limit idx now i total ss (omega arith)
counts_end (suc n) limit idx now i total ss h small = elim (Bool-cases (ltb i (length ss))) [
  | inl inside ↦
      let (once, more) = loop_goes_on (suc n) limit idx now i total ss (ground arith) small in
      once
      ∙ counts_end n limit idx now (suc i) _ ss (omega arith) (omega (arith, more, small))
      ∙ ap (λ t. (ss, returned (leb t limit))) more
  | inr outside ↦ loop_ends (suc n) limit idx now i total ss (ground arith)
]

switched : ℕ → Shard → Shard
switched now s = record s { window_sec = now }

emptied : Shard → Shard
emptied s = record s { packets = 0 }

count_in-same :
    (idx now : ℕ) (ss : List Shard)
    → idx < length ss
    → window_of (get_elem? ss idx) ≡ now
    → on_shard idx add_one ss ≡ count_in idx now ss
unfolding count_in count_packet on_shard
count_in-same idx now [] h e = absurd (omega arith)
count_in-same zero now (s ∷ ss) h e = ground arith
count_in-same (suc idx) now (s ∷ ss) h e =
    ap (λ t. s ∷ t) (count_in-same idx now ss (omega arith) e)

count_in-new :
    (idx now : ℕ) (ss : List Shard)
    → idx < length ss
    → (now == window_of (get_elem? ss idx)) ≡ false
    → on_shard idx add_one (on_shard idx emptied (on_shard idx (switched now) ss))
      ≡ count_in idx now ss
unfolding count_in count_packet on_shard switched emptied
count_in-new idx now [] h e = absurd (omega arith)
count_in-new zero now (s ∷ ss) h e = ground arith
count_in-new (suc idx) now (s ∷ ss) h e = ap (λ t. s ∷ t) (count_in-new idx now ss (omega arith) e)

from_add :
    (n limit idx now : ℕ) (ss counted : List Shard)
    → on_shard idx add_one ss ≡ counted
    → length counted ≤ n
    → plain_total counted < 2 ^ 64
    → advance_by (suc (suc n)) limit idx now (ss, adds_one)
      ≡ (counted, returned (leb (plain_total counted) limit))
unfolding advance_by advance rest
from_add n limit idx now ss counted e h small =
    let sum : 0 + plain_total counted ≡ plain_total counted = omega arith in
    ap (λ t. advance_by (suc n) limit idx now (t, loads_count 0 0)) e
    ∙ counts_end n limit idx now 0 0 counted (omega arith) (omega arith)
    ∙ ap (λ t. (counted, returned (leb t limit))) sum

same_number : (n : ℕ) → (n == n) ≡ true
same_number n = ground arith

as_number : (m n : ℕ) → (m == n) ≡ true → n ≡ m
as_number m n e = ground arith

loads_same :
    (limit idx now : ℕ) (ss : List Shard)
    → idx < length ss
    → (now == window_of (get_elem? ss idx)) ≡ true
    → advance limit ss idx now loads_window ≡ (ss, adds_one)
unfolding advance
loads_same limit idx now [] h e = absurd (omega arith)
loads_same limit idx now (s ∷ ss) h e = rw e refl

loads_other :
    (limit idx now : ℕ) (ss : List Shard)
    → idx < length ss
    → (now == window_of (get_elem? ss idx)) ≡ false
    → advance limit ss idx now loads_window ≡ (ss, swaps_window (window_of (get_elem? ss idx)))
unfolding advance
loads_other limit idx now [] h e = absurd (omega arith)
loads_other limit idx now (s ∷ ss) h e = rw e refl

swap_wins :
    (limit idx now : ℕ) (ss : List Shard)
    → advance limit ss idx now (swaps_window (window_of (get_elem? ss idx)))
      ≡ (on_shard idx (switched now) ss, stores_zero)
unfolding advance switched
swap_wins limit idx now ss = rw (same_number (window_of (get_elem? ss idx))) refl

store_empties :
    (limit idx now : ℕ) (ss : List Shard)
    → advance limit ss idx now stores_zero ≡ (on_shard idx emptied ss, adds_one)
unfolding advance emptied
store_empties limit idx now ss = refl

-- One more step, which is known.
one_step :
    (n limit idx now : ℕ) (ss ss' : List Shard) (p p' : Phase) (end : List Shard × Phase)
    → advance limit ss idx now p ≡ (ss', p')
    → advance_by n limit idx now (ss', p') ≡ end
    → advance_by (suc n) limit idx now (ss, p) ≡ end
unfolding advance_by
one_step n limit idx now ss ss' p p' end e f = ap (advance_by n limit idx now) e ∙ f

-- The answer of the steps is the answer of the call.
answered :
    (limit idx now : ℕ) (ss : List Shard)
    → idx < length ss
    → plain_total ss + 1 < 2 ^ 64
    → ◌≡◌ {A = List Shard × Phase}
        (count_in idx now ss, returned (leb (plain_total (count_in idx now ss)) limit))
        (
          (sharded_udp_rate_limit limit idx now ss).0,
          returned (sharded_udp_rate_limit limit idx now ss).1,
        )
answered limit idx now ss h small =
    sym (ap (λ (a : List Shard × Bool). (a.0, returned a.1)) (call_eq limit idx now ss h small))

-- Five steps more than there are shards end a call that no other call overlaps, with the counts and
-- the answer of sharded_udp_rate_limit (as long as the counts stay below 2^64).
alone_lem :
    (n limit idx now : ℕ) (ss : List Shard)
    → idx < length ss
    → length ss ≤ n
    → plain_total ss + 1 < 2 ^ 64
    → advance_by (suc (suc (suc (suc (suc n))))) limit idx now (ss, loads_window) ≡ (
      (sharded_udp_rate_limit limit idx now ss).0,
      returned (sharded_udp_rate_limit limit idx now ss).1,
    )
alone_lem n limit idx now ss h few small =
    let counted = count_in-step idx now ss h small in
    elim (Bool-cases (now == window_of (get_elem? ss idx))) [
      | inl e ↦
          one_step (suc (suc (suc (suc n)))) limit idx now ss ss loads_window adds_one _
            (loads_same limit idx now ss h e)
            (from_add (suc (suc n)) limit idx now ss (count_in idx now ss)
              (count_in-same idx now ss h (as_number now _ e)) (omega (arith, counted.2, few))
              (omega (arith, counted.1)))
          ∙ answered limit idx now ss h small
      | inr e ↦
          one_step (suc (suc (suc (suc n)))) limit idx now ss ss loads_window _ _
            (loads_other limit idx now ss h e)
            (one_step (suc (suc (suc n))) limit idx now ss (on_shard idx (switched now) ss) _
              stores_zero _ (swap_wins limit idx now ss)
              (one_step (suc (suc n)) limit idx now (on_shard idx (switched now) ss) _ stores_zero
                adds_one _ (store_empties limit idx now (on_shard idx (switched now) ss))
                (from_add n limit idx now _ (count_in idx now ss) (count_in-new idx now ss h e)
                  (omega (arith, counted.2, few)) (omega (arith, counted.1)))))
          ∙ answered limit idx now ss h small
    ]
