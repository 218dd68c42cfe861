-- ===== src/Pool/Reuse.antt =====
-- What a new client inherits from the session object's last one.
use server_application.Common.{
  ℕ, zero, suc, ◌≡◌, refl, inl, inr, Bool-cases, false, List, [], ◌∷◌, arith, leb, length, ℤ, All,
  All-append, minus_one,
}
use server_application.Session.{Session, is_active, new_session}
use server_application.Pool.{
  Pool, modify, fill, new_pool, prepare, retire, acquire, release, count_active,
}
use server_application.Pool.Leases.{Call, acquires, releases, Leases, step, run, started}

-- The members that neither reset nor cleanup sets to a fixed value.
pub record SameResidue (s t : Session) : Type 0 where
  pub generation : s.generation ≡ t.generation
  pub overflow_count : s.write_queue_overflow_count ≡ t.write_queue_overflow_count
  pub in_progress : s.write_in_progress ≡ t.write_in_progress
  pub tokens : s.udp_tokens ≡ t.udp_tokens
  pub refill_time : s.last_udp_token_refill ≡ t.last_udp_token_refill
  pub flag : s.msg_buf.last_clear_by_invalid_length ≡ t.msg_buf.last_clear_by_invalid_length

-- Two session objects that agree on the generation, the write queue's two counters, the rate
-- limit's two and the buffer's flag are the same session once acquire has prepared them for a
-- client, whatever names, tokens, endpoints, zones, queues and bytes of the last client they held.
pub prepare_isolates :
    (s t : Session) (id : ℤ) (now : ℕ) → SameResidue s t → prepare id now s ≡ prepare id now t
unfolding prepare
prepare_isolates s t id now r = ground (arith, r.generation)

abbrev IsInactive : Session → Type 0
IsInactive s = is_active s ≡ false

prepare-IsInactive : (id : ℤ) (now : ℕ) (s : Session) → IsInactive (prepare id now s)
unfolding prepare is_active
prepare-IsInactive id now s = refl

retire-IsInactive : (s : Session) → IsInactive (retire s)
unfolding retire is_active
retire-IsInactive s = refl

modify-IsInactive :
    (i : ℕ) (f : Session → Session) (ss : List Session)
    → ((s : Session) → IsInactive (f s))
    → All IsInactive ss
    → All IsInactive (modify i f ss)
unfolding modify
modify-IsInactive i f [] h a = tt
modify-IsInactive zero f (s ∷ ss) h a = (h s, a.1)
modify-IsInactive (suc i) f (s ∷ ss) h a = (a.0, modify-IsInactive i f ss h a.1)

acquire-IsInactive :
    (p : Pool) (queue : List ℕ) (id : ℤ) (now : ℕ)
    → p.reusable ≡ queue
    → All IsInactive p.sessions
    → All IsInactive (acquire p id now).0.sessions
unfolding acquire
acquire-IsInactive p [] id now e a = elim (Bool-cases (leb p.max_size (length p.sessions))) [
  | inl full ↦ rw (e, acquire, full) a
  | inr room ↦
      rw (e, acquire, room)
        (All-append IsInactive p.sessions _ a
          (prepare-IsInactive id now (new_session minus_one now), tt))
]
acquire-IsInactive p (idx ∷ rest) id now e a =
    rw (e, acquire)
      (modify-IsInactive idx (prepare id now) p.sessions (prepare-IsInactive id now) a)

release-IsInactive :
    (p : Pool) (idx : ℕ) → All IsInactive p.sessions → All IsInactive (release p idx).sessions
unfolding release
release-IsInactive p idx a =
    ground (arith, a, modify-IsInactive idx retire p.sessions retire-IsInactive a)

step-IsInactive :
    (l : Leases) (c : Call)
    → All IsInactive l.pool.sessions
    → All IsInactive (step l c).pool.sessions
unfolding step
step-IsInactive l (acquires id now) a = acquire-IsInactive l.pool l.pool.reusable id now refl a
step-IsInactive l (releases idx) a = ground (arith, a, release-IsInactive l.pool idx a)

run-IsInactive :
    (l : Leases) (cs : List Call)
    → All IsInactive l.pool.sessions
    → All IsInactive (run l cs).pool.sessions
unfolding run
run-IsInactive l [] a = a
run-IsInactive l (c ∷ cs) a = run-IsInactive (step l c) cs (step-IsInactive l c a)

fill-IsInactive :
    (n now : ℕ) (p : Pool) → All IsInactive p.sessions → All IsInactive (fill n now p).sessions
unfolding fill is_active
fill-IsInactive zero now p a = a
fill-IsInactive (suc n) now p a =
    fill-IsInactive n now _ (All-append IsInactive p.sessions _ a (refl, tt))

inactive-count : (ss : List Session) → All IsInactive ss → count_active ss ≡ 0
unfolding count_active
inactive-count [] a = refl
inactive-count (s ∷ ss) a = rw (a.0) (omega (arith, inactive-count ss a.1))

-- After any history of acquires and releases on a new pool, however many sessions are in use,
-- count_active reports none: acquire activates a session and then runs cleanup on it, which makes
-- it Idle again.
count_active_zero :
    (pool_size max_size start : ℕ) (cs : List Call)
    → count_active (run (started pool_size max_size start) cs).pool.sessions ≡ 0
unfolding started new_pool
count_active_zero pool_size max_size start cs =
    inactive-count _ (run-IsInactive _ cs (fill-IsInactive pool_size start _ tt))
