-- ===== src/Server/Opening/Acquire.antt =====
-- SessionPool::acquire, and Server::start_accept over it, keep the books.
use server_application.Common.{
  ℕ, zero, suc, ◌+◌, ◌≤◌, ◌<◌, ◌≡◌, inl, inr, refl, sym, subst, ap, ◌∙◌, Bool, true, false, Option,
  none, some, List, [], ◌∷◌, ◌++◌, arith, ltb, lt→ltb, leb, ◌==◌, if◌then◌else◌, length, ℤ, pos,
  minus_one, Bool-cases,
}
use server_application.Session.{Session, new_session}
use server_application.Pool.{Pool, modify, contains, discard, prepare, acquire}
use server_application.Pool.Leases.{count, length-modify, length-snoc, contains-discard}
use server_application.Manager.{replaced}
use server_application.Manager.Shards.{find-add_session}
use server_application.Server.{ServerState, get_session}
use server_application.Server.Sessions.{add_session}
use server_application.Server.Books.{IsSound, IsHeld, found, id_of, get_session-modify}
use server_application.Server.Opening.{
  Accepts, Accepts-IsHeld, Accepts-IsSound, IsIssued-suc, Opens, add_session_alone, added,
  added_replaces, added_tables, closed_of, generation_of, not_found_yet, o, replaced-none,
}

-- The session that acquire hands out, before the manager has it.
prepare_id : (id : ℤ) (now : ℕ) (s : Session) → (prepare id now s).session_id ≡ id
unfolding prepare
prepare_id id now s = refl

-- What the invariant says of the pool alone.
record IsTidy (p : Pool) : Type 0 where
  at_most_once : (r : ℕ) → count r p.reusable ≤ 1
  in_range : (r : ℕ) → length p.sessions ≤ r → count r p.reusable ≡ 0
  waiting : (r : ℕ) → contains r p.available ≡ true → count r p.reusable ≡ 1

IsSound-IsTidy : (w : ServerState) → IsSound w → IsTidy w.pool
IsSound-IsTidy w v = record {
  at_most_once = λ r. elim (Bool-cases (ltb r (length w.pool.sessions))) [
    | inl e ↦ elim (v.partition r (ground arith)) [
      | inl (waits, absent) ↦ omega (arith, waits)
      | inr (taken, known) ↦ omega (arith, taken)
    ]
    | inr e ↦ let none_waits = v.outside r (ground arith) in omega (arith, none_waits)
  ];
  in_range = v.outside;
  waiting = v.waiting;
}

pub get_session-snoc :
    (ss : List Session) (s : Session) (i : ℕ)
    → get_session (ss ++ s ∷ []) i ≡ (if length ss == i then s else get_session ss i)
get_session-snoc [] s zero = refl
get_session-snoc [] s (suc i) = ground arith
get_session-snoc (x ∷ ss) s zero = ground arith
get_session-snoc (x ∷ ss) s (suc i) = ground (arith, get_session-snoc ss s i)

pub id-if :
    (b : Bool) (s t : Session) (id : ℤ)
    → s.session_id ≡ id
    → (if b then s else t).session_id ≡ (if b then id else t.session_id)
id-if true s t id h = h
id-if false s t id h = refl

id_of-modify :
    (r i : ℕ) (id : ℤ) (f : Session → Session) (ss : List Session)
    → (f (get_session ss i)).session_id ≡ id
    → r < length ss
    → (get_session (modify r f ss) i).session_id
      ≡ (if r == i then id else (get_session ss i).session_id)
id_of-modify r i id f ss h range =
    let in_list : ltb r (length ss) ≡ true = lt→ltb _ _ range in
    ap (λ (s : Session). s.session_id) (get_session-modify r i f ss)
    ∙ id-if _ (f (get_session ss i)) (get_session ss i) id h
    ∙ elim (Bool-cases (r == i)) [ inl e ↦ rw (e, in_list) | inr e ↦ rw e ]

acquire-Opens_old :
    (p : Pool) (id : ℤ) (now r : ℕ) (rest : List ℕ)
    → IsTidy p
    → p.reusable ≡ r ∷ rest
    → Opens r id p (record p {
      reusable = rest;
      available = discard r p.available;
      sessions = modify r (prepare id now) p.sessions;
    })
acquire-Opens_old p id now r rest t e =
    let size = length-modify r (prepare id now) p.sessions in
    record {
      queue = λ i. ground (arith, t.at_most_once r);
      available = λ i h. ground (arith, contains-discard r i p.available);
      fresh = λ h. ground (arith, t.at_most_once r);
      mine = ground (arith, t.in_range r, size);
      grows = omega (arith, size);
      others = λ i n h. omega (arith, size);
      ids = λ i.
          id_of-modify r i id (prepare id now) p.sessions (prepare_id id now _)
            (ground (arith, t.in_range r));
    }

acquire-Opens_new :
    (p : Pool) (id : ℤ) (now : ℕ)
    → IsTidy p
    → p.reusable ≡ []
    → Opens
        (length p.sessions)
        id
        p
        (record p { sessions = p.sessions ++ prepare id now (new_session minus_one now) ∷ [] })
acquire-Opens_new p id now t e =
    let s = prepare id now (new_session minus_one now) in
    let size = length-snoc p.sessions s in
    record {
      queue = λ i. ground (arith, t.in_range i);
      available = λ i h. ground (arith, t.waiting i);
      fresh = λ h. ground arith;
      mine = omega (arith, size);
      grows = omega (arith, size);
      others = λ i n h. ground (arith, size);
      ids = λ i.
          ap (λ (s : Session). s.session_id) (get_session-snoc p.sessions s i)
          ∙ id-if (length p.sessions == i) s (get_session p.sessions i) id (prepare_id id now _);
    }

abbrev grown : Pool → ℤ → ℕ → Pool
grown p id now = record p {
  sessions = p.sessions ++ prepare id now (new_session minus_one now) ∷ [];
}

abbrev reused : Pool → ℤ → ℕ → ℕ → List ℕ → Pool
reused p id now r rest = record p {
  reusable = rest;
  available = discard r p.available;
  sessions = modify r (prepare id now) p.sessions;
}

acquire_empty :
    (p : Pool) (id : ℤ) (now : ℕ)
    → p.reusable ≡ []
    → acquire p id now ≡ (
        if leb p.max_size (length p.sessions)
        then (p, none)
        else (grown p id now, some (length p.sessions)))
unfolding acquire
acquire_empty p id now e = ground arith

acquire_cons :
    (p : Pool) (id : ℤ) (now r : ℕ) (rest : List ℕ)
    → p.reusable ≡ r ∷ rest
    → acquire p id now ≡ (reused p id now r rest, some r)
unfolding acquire
acquire_cons p id now r rest e = rw (e, acquire)

-- The pool that acquire leaves, and the session that it gives.
acquire-Opens :
    (p : Pool) (queue : List ℕ) (id : ℤ) (now r : ℕ)
    → p.reusable ≡ queue
    → IsTidy p
    → (acquire p id now).1 ≡ some r
    → Opens r id p (acquire p id now).0
acquire-Opens p [] id now r e t h = elim (Bool-cases (leb p.max_size (length p.sessions))) [
  | inl full ↦
      let refused : (acquire p id now).1 ≡ none = rw (acquire_empty p id now e, full) in
      cc (h, refused)
  | inr more ↦
      let made : acquire p id now ≡ (grown p id now, some (length p.sessions)) =
        rw (acquire_empty p id now e, more) in
      let same : length p.sessions ≡ r = cc (h, ap (λ (x : Pool × Option ℕ). x.1) made) in
      subst (λ x. Opens r id p x) (sym (ap (λ (x : Pool × Option ℕ). x.0) made))
        (subst (λ i. Opens i id p (grown p id now)) same (acquire-Opens_new p id now t e))
]
acquire-Opens p (idx ∷ rest) id now r e t h =
    let made = acquire_cons p id now idx rest e in
    let same : idx ≡ r = cc (h, ap (λ (x : Pool × Option ℕ). x.1) made) in
    subst (λ x. Opens r id p x) (sym (ap (λ (x : Pool × Option ℕ). x.0) made))
      (subst (λ i. Opens i id p (reused p id now idx rest)) same
        (acquire-Opens_old p id now idx rest t e))

-- The connection is in the manager.
acquired-Accepts :
    (r : ℕ) (w : ServerState) (q : Pool)
    → IsSound w
    → Opens r (pos w.session_counter) w.pool q
    → Accepts r w (add_session r (record w { session_counter = w.session_counter + 1; pool = q }))
acquired-Accepts r w q v o =
    let w1 = record w { session_counter = w.session_counter + 1; pool = q } in
    let own : id_of w1 r ≡ pos w.session_counter = ground (arith, o.ids r) in
    let alone : (added w1 r).1 ≡ none =
      added_replaces w1 r
      ∙ ap (λ id. replaced (generation_of w1) (closed_of w1) r (found w id)) own
      ∙ ap (replaced (generation_of w1) (closed_of w1) r) (not_found_yet w v)
      ∙ replaced-none (generation_of w1) (closed_of w1) r in
    rw (add_session_alone w1 r alone) (record {
      tables = added_tables w1 r;
      finds = λ id.
          find-add_session (generation_of w1) (closed_of w1) w.manager (id_of w1 r) id r (v.shards)
          ∙ rw own;
      counter = refl;
      opens = o;
    })

-- After Server::start_accept got a session from the pool and the manager has it, the books are in
-- order and the session is held.
pub accepted-IsSound :
    (w : ServerState) (now r : ℕ)
    → IsSound w
    → (acquire w.pool (pos w.session_counter) now).1 ≡ some r
    → let q = (acquire w.pool (pos w.session_counter) now).0 in
      let w' = add_session r (record w { session_counter = w.session_counter + 1; pool = q }) in
      IsSound w' × IsHeld w' r
accepted-IsSound w now r v e =
    let o =
      acquire-Opens w.pool w.pool.reusable (pos w.session_counter) now r refl (IsSound-IsTidy w v)
        e in
    let a = acquired-Accepts r w (acquire w.pool (pos w.session_counter) now).0 v o in
    (Accepts-IsSound r a v, Accepts-IsHeld r a v)

acquire-none :
    (p : Pool) (queue : List ℕ) (id : ℤ) (now : ℕ)
    → p.reusable ≡ queue
    → (acquire p id now).1 ≡ none
    → (acquire p id now).0 ≡ p
acquire-none p [] id now e h = elim (Bool-cases (leb p.max_size (length p.sessions))) [
  | inl full ↦ rw (acquire_empty p id now e, full)
  | inr more ↦
      let made : (acquire p id now).1 ≡ some (length p.sessions) =
        rw (acquire_empty p id now e, more) in
      absurd (ground (arith, made))
]
acquire-none p (idx ∷ rest) id now e h =
    let made : (acquire p id now).1 ≡ some idx = rw (acquire_cons p id now idx rest e) in
    absurd (ground (arith, made))

-- A connection for which the pool had no session only takes an id.
pub refused-IsSound :
    (w : ServerState) (now : ℕ)
    → IsSound w
    → (acquire w.pool (pos w.session_counter) now).1 ≡ none
    → IsSound (record w {
      session_counter = w.session_counter + 1;
      pool = (acquire w.pool (pos w.session_counter) now).0;
    })
refused-IsSound w now v e =
    subst (λ q. IsSound (record w { session_counter = w.session_counter + 1; pool = q }))
      (sym (acquire-none w.pool w.pool.reusable (pos w.session_counter) now refl e))
      (record {
        shards = v.shards;
        partition = v.partition;
        outside = v.outside;
        named = v.named;
        waiting = v.waiting;
        issued = λ r. IsIssued-suc w.session_counter (id_of w r) (v.issued r);
      })
