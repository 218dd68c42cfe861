-- ===== src/Pool/Leases.antt =====
-- Who holds which session: a lease begins with acquire and ends with release.
use server_application.Common.{
  ℕ, zero, suc, ◌+◌, ◌-◌, ◌≤◌, ◌<◌, ◌≡◌, refl, ap, true, false, ◌||◌, Option, none, some, List, [],
  ◌∷◌, ◌++◌, arith, ltb, ◌==◌, if◌then◌else◌, length, length-append, ℤ, minus_one,
}
use server_application.Session.{Session, new_session}
use server_application.Pool.{
  Pool, contains, discard, modify, fill, new_pool, acquire, release, prepare, retire,
}

abbrev pub count : ℕ → List ℕ → ℕ
count i [] = 0
count i (x ∷ xs) = (if x == i then 1 else 0) + count i xs

-- Ends one lease.
unfoldable pub drop_lease : ℕ → List ℕ → List ℕ
drop_lease i [] = []
drop_lease i (x ∷ xs) = if x == i then xs else x ∷ drop_lease i xs

pub data Call : Type 0 where
  acquires : ℤ → ℕ → Call
  releases : ℕ → Call

pub record Leases : Type 0 where
  pub pool : Pool
  pub held : List ℕ

lease : List ℕ → Option ℕ → List ℕ
lease held none = held
lease held (some idx) = idx ∷ held

-- A caller can only release a session that it got from the pool: one that is held, or, by mistake,
-- one that is back already.
unfoldable pub step : Leases → Call → Leases
unfolding lease
step l (acquires id now) =
    let (p, got) = acquire l.pool id now in record { pool = p; held = lease l.held got }
step l (releases idx) =
    if contains idx l.held || contains idx l.pool.available
    then record { pool = release l.pool idx; held = drop_lease idx l.held }
    else l

unfoldable pub run : Leases → List Call → Leases
run l [] = l
run l (c ∷ cs) = run (step l c) cs

pub count-append : (i : ℕ) (xs ys : List ℕ) → count i (xs ++ ys) ≡ count i xs + count i ys
count-append i [] ys = omega arith
count-append i (x ∷ xs) ys = omega (arith, count-append i xs ys)

pub contains_iff_count : (i : ℕ) (xs : List ℕ) → contains i xs ≡ ltb 0 (count i xs)
unfolding contains
contains_iff_count i [] = refl
contains_iff_count i (x ∷ xs) = ground (arith, contains_iff_count i xs)

count-drop_lease :
    (i j : ℕ) (xs : List ℕ)
    → count j (drop_lease i xs)
      ≡ (if contains i xs then (if i == j then count j xs - 1 else count j xs) else count j xs)
unfolding drop_lease contains
count-drop_lease i j [] = refl
count-drop_lease i j (x ∷ xs) = ground (arith, count-drop_lease i j xs, contains_iff_count i xs)

pub contains-discard :
    (i j : ℕ) (xs : List ℕ) → contains j (discard i xs) ≡ (if i == j then false else contains j xs)
unfolding contains discard
contains-discard i j [] = ground arith
contains-discard i j (x ∷ xs) = ground (arith, contains-discard i j xs)

pub length-modify :
    (i : ℕ) (f : Session → Session) (ss : List Session) → length (modify i f ss) ≡ length ss
unfolding modify
length-modify i f [] = refl
length-modify zero f (s ∷ ss) = refl
length-modify (suc i) f (s ∷ ss) = ap suc (length-modify i f ss)

-- Each session of the pool is either waiting in the queue or held once, and nothing else is; the set
-- holds only what waits.
pub record Inv (l : Leases) : Type 0 where
  pub partition :
      (i : ℕ)
      → count i l.pool.reusable + count i l.held ≡ (if ltb i (length l.pool.sessions) then 1 else 0)
  pub waiting : (i : ℕ) → contains i l.pool.available ≡ true → count i l.pool.reusable ≡ 1

pub length-snoc : (ss : List Session) (s : Session) → length (ss ++ s ∷ []) ≡ suc (length ss)
length-snoc ss s = omega (arith, length-append ss (s ∷ []))

acquire-Inv :
    (l : Leases) (queue : List ℕ) (id : ℤ) (now : ℕ)
    → l.pool.reusable ≡ queue
    → Inv l
    → Inv (step l (acquires id now))
unfolding step acquire
acquire-Inv l [] id now e v = record {
  partition = λ i. ground (
    arith,
    v.partition i,
    length-snoc l.pool.sessions (prepare id now (new_session minus_one now)),
  );
  waiting = λ i h. ground (arith, v.waiting i);
}
acquire-Inv l (idx ∷ rest) id now e v = record {
  partition =
      λ i. ground (arith, v.partition i, length-modify idx (prepare id now) l.pool.sessions);
  waiting =
      λ i h. ground (arith, v.waiting i, v.partition i, contains-discard idx i l.pool.available);
}

release-Inv : (l : Leases) (idx : ℕ) → Inv l → Inv (step l (releases idx))
unfolding step release contains
release-Inv l idx v = record {
  partition = λ i. ground (
    arith,
    v.partition i,
    v.partition idx,
    v.waiting idx,
    v.waiting i,
    contains_iff_count idx l.held,
    contains_iff_count idx l.pool.available,
    count-drop_lease idx i l.held,
    count-append i l.pool.reusable (idx ∷ []),
    length-modify idx retire l.pool.sessions,
  );
  waiting = λ i h. ground (
    arith,
    v.partition i,
    v.partition idx,
    v.waiting idx,
    v.waiting i,
    contains_iff_count idx l.held,
    count-append i l.pool.reusable (idx ∷ []),
  );
}

step-Inv : (l : Leases) (c : Call) → Inv l → Inv (step l c)
step-Inv l (acquires id now) v = acquire-Inv l l.pool.reusable id now refl v
step-Inv l (releases idx) v = release-Inv l idx v

run-Inv : (l : Leases) (cs : List Call) → Inv l → Inv (run l cs)
unfolding run
run-Inv l [] v = v
run-Inv l (c ∷ cs) v = run-Inv (step l c) cs (step-Inv l c v)

unfoldable pub started : ℕ → ℕ → ℕ → Leases
started pool_size max_size now = record { pool = new_pool pool_size max_size now; held = [] }

fill-Inv :
    (n now : ℕ) (p : Pool)
    → ((i : ℕ) → count i p.reusable ≡ (if ltb i (length p.sessions) then 1 else 0))
    → p.available ≡ []
    → Inv (record { pool = fill n now p; held = [] })
unfolding fill contains
fill-Inv zero now p h e = record {
  partition = λ i. omega (arith, h i);
  waiting = λ i q. ground (arith, e);
}
fill-Inv (suc n) now p h e =
    fill-Inv n now _
      (λ i. ground (
        arith,
        h i,
        count-append i p.reusable (length p.sessions ∷ []),
        length-snoc p.sessions (new_session minus_one now),
      ))
      e

pub started-Inv : (pool_size max_size now : ℕ) → Inv (started pool_size max_size now)
unfolding started new_pool
started-Inv pool_size max_size now = fill-Inv pool_size now _ (λ i. ground arith) refl

acquired-exclusive :
    (l : Leases) (id : ℤ) (now idx : ℕ)
    → Inv l
    → (acquire l.pool id now).1 ≡ some idx
    → (contains idx l.held ≡ false)
      × (count idx (step l (acquires id now)).held ≡ 1)
      × (count idx (step l (acquires id now)).pool.reusable ≡ 0)
      × (idx < length (step l (acquires id now)).pool.sessions)
unfolding step
acquired-exclusive l id now idx v e =
    ground (arith, (step-Inv l (acquires id now) v).partition idx, contains_iff_count idx l.held)

-- After any history of acquires and releases on a new pool, a session that acquire hands out was
-- held by nobody, is held once afterwards, is part of the pool, and does not wait in the queue any
-- more.
pub acquire_exclusive :
    (pool_size max_size start : ℕ) (cs : List Call) (id : ℤ) (now idx : ℕ)
    → (acquire (run (started pool_size max_size start) cs).pool id now).1 ≡ some idx
    → let before = run (started pool_size max_size start) cs in
      let after = step before (acquires id now) in
      (contains idx before.held ≡ false)
      × (count idx after.held ≡ 1)
      × (count idx after.pool.reusable ≡ 0)
      × (idx < length after.pool.sessions)
acquire_exclusive pool_size max_size start cs id now idx e =
    acquired-exclusive _ id now idx (run-Inv _ cs (started-Inv pool_size max_size start)) e

-- After any history of acquires and releases on a new pool, acquire refuses only when every session
-- of the pool is held and the pool has its maximum size.
pub acquire_refuses :
    (pool_size max_size start : ℕ) (cs : List Call) (id : ℤ) (now i : ℕ)
    → (acquire (run (started pool_size max_size start) cs).pool id now).1 ≡ none
    → i < length (run (started pool_size max_size start) cs).pool.sessions
    → (count i (run (started pool_size max_size start) cs).held ≡ 1)
      × ((run (started pool_size max_size start) cs).pool.max_size
          ≤ length (run (started pool_size max_size start) cs).pool.sessions)
unfolding acquire
acquire_refuses pool_size max_size start cs id now i e h =
    ground (arith, (run-Inv _ cs (started-Inv pool_size max_size start)).partition i)
