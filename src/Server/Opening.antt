-- ===== src/Server/Opening.antt =====
-- A session that comes into the manager: one that was accepted, and one that logs in.
pub mod Acquire
use server_application.Common.{
  ℕ, zero, suc, ◌+◌, ◌≤◌, ◌<◌, ◌≡◌, ◌≢◌, ◌⊎◌, inl, inr, refl, sym, subst, ap, ◌∙◌, Bool, true,
  false, Option, none, some, List, [], ◌∷◌, ◌++◌, arith, ltb, lt→ltb, leb, ◌==◌, if◌then◌else◌,
  length, ℤ, pos, negsuc, int_eq, int_eq_iff, minus_one, Bool-cases, Option-cases,
}
use server_application.Session.{Session, new_session}
use server_application.Pool.{Pool, modify, contains, discard, prepare, acquire}
use server_application.Pool.Leases.{count, length-modify, length-snoc, contains-discard}
use server_application.Manager
use server_application.Manager.{find_session, replaced}
use server_application.Manager.Shards.{find-add_session, length-put_bucket, int_eq_self}
use server_application.Server.{ServerState, get_session, session_of}
use server_application.Server.Sessions.{add_session}
use server_application.Server.Books.{
  IsSound, Keeps, IsFree, IsHeld, IsIssued, found, id_of, get_session-modify,
}

abbrev pub generation_of : ServerState → ℕ → ℕ
generation_of w i = (session_of w i).generation

abbrev pub closed_of : ServerState → ℕ → Bool
closed_of w i = (session_of w i).closed

abbrev pub added : ServerState → ℕ → Manager.Manager × Option ℕ
added w r = Manager.add_session (generation_of w) (closed_of w) w.manager (id_of w r) r

pub added_replaces :
    (w : ServerState) (r : ℕ)
    → (added w r).1 ≡ replaced (generation_of w) (closed_of w) r (found w (id_of w r))
unfolding Manager.add_session find_session
added_replaces w r = refl

added_tables : (w : ServerState) (r : ℕ) → length (added w r).0.buckets ≡ length w.manager.buckets
unfolding Manager.add_session
added_tables w r = length-put_bucket w.manager.buckets (id_of w r) _

pub add_session_alone :
    (w : ServerState) (r : ℕ)
    → (added w r).1 ≡ none
    → add_session r w ≡ record w { manager = (added w r).0 }
unfolding add_session
add_session_alone w r e = rw (e, add_session)

replaced_self :
    (generation : ℕ → ℕ) (is_closed : ℕ → Bool) (r : ℕ)
    → replaced generation is_closed r (some r) ≡ none
unfolding replaced
replaced_self generation is_closed r = ground arith

pub replaced-none :
    (generation : ℕ → ℕ) (is_closed : ℕ → Bool) (r : ℕ)
    → replaced generation is_closed r none ≡ none
unfolding replaced
replaced-none generation is_closed r = refl

-- add_session for a session that is in the manager changes nothing that the books say.
pub add_session-Keeps :
    (r : ℕ) (w : ServerState) → IsSound w → IsHeld w r → Keeps w (add_session r w)
add_session-Keeps r w v held =
    let alone : (added w r).1 ≡ none =
      added_replaces w r
      ∙ ap (replaced (generation_of w) (closed_of w) r) (held.1)
      ∙ replaced_self (generation_of w) (closed_of w) r in
    rw (add_session_alone w r alone) (record {
      tables = added_tables w r;
      finds = λ j.
          find-add_session (generation_of w) (closed_of w) w.manager (id_of w r) j r (v.shards)
          ∙ elim (Bool-cases (int_eq (id_of w r) j)) [
            | inl e ↦ rw e (sym (held.1) ∙ ap (found w) ((int_eq_iff (id_of w r) j).0 e))
            | inr e ↦ rw e
          ];
      reusable = refl;
      available = refl;
      counter = refl;
      size = refl;
      ids = λ i. refl;
    })

-- What acquire does to a pool whose sessions are all free or held.
pub record Opens (r : ℕ) (id : ℤ) (p q : Pool) : Type 0 where
  pub queue : (i : ℕ) → count i q.reusable ≡ (if r == i then 0 else count i p.reusable)
  pub available :
      (i : ℕ) → contains i q.available ≡ true → (contains i p.available ≡ true) × (r ≢ i)
  pub fresh : r < length p.sessions → count r p.reusable ≡ 1
  pub mine : r < length q.sessions
  pub grows : length p.sessions ≤ length q.sessions
  pub others : (i : ℕ) → r ≢ i → i < length q.sessions → i < length p.sessions
  pub ids :
      (i : ℕ)
      → (get_session q.sessions i).session_id
        ≡ (if r == i then id else (get_session p.sessions i).session_id)

-- What an accepted connection does to the books.
pub record Accepts (r : ℕ) (w w' : ServerState) : Type 0 where
  pub tables : length w'.manager.buckets ≡ length w.manager.buckets
  pub finds :
      (id : ℤ) → found w' id ≡ (if int_eq (pos w.session_counter) id then some r else found w id)
  pub counter : w'.session_counter ≡ w.session_counter + 1
  pub opens : Opens r (pos w.session_counter) w.pool w'.pool

IsIssued-ne : (n : ℕ) (id : ℤ) → IsIssued n id → int_eq (pos n) id ≡ false
IsIssued-ne n (pos k) h = ground arith
IsIssued-ne n (negsuc k) h = refl

IsIssued-suc : (n : ℕ) (id : ℤ) → IsIssued n id → IsIssued (n + 1) id
IsIssued-suc n (pos k) h = omega arith
IsIssued-suc n (negsuc k) h = h

pub not_found_yet : (w : ServerState) → IsSound w → found w (pos w.session_counter) ≡ none
not_found_yet w v = elim (Option-cases (found w (pos w.session_counter))) [
  | inl e ↦ e
  | inr (r, e) ↦
      let own = (v.named (pos w.session_counter) r e).0 in
      let issued : IsIssued w.session_counter (pos w.session_counter) =
        subst (IsIssued w.session_counter) own (v.issued r) in
      absurd (omega (arith, issued))
]

module _ {w w' : ServerState} (r : ℕ) (k : Accepts r w w') (v : IsSound w) where
  o : Opens r (pos w.session_counter) w.pool w'.pool
  o = k.opens

  found_old : (i : ℕ) → r ≢ i → found w' (id_of w' i) ≡ found w (id_of w i)
  found_old i n =
      let other : (r == i) ≡ false = ground arith in
      let same : id_of w' i ≡ id_of w i = o.ids i ∙ rw other in
      rw same (k.finds (id_of w i) ∙ rw (IsIssued-ne w.session_counter (id_of w i) (v.issued i)))

  queue_old : (i : ℕ) → r ≢ i → count i w'.pool.reusable ≡ count i w.pool.reusable
  queue_old i n = ground (arith, o.queue i)

  own_id : id_of w' r ≡ pos w.session_counter
  own_id = ground (arith, o.ids r)

  Accepts-IsHeld : IsHeld w' r
  Accepts-IsHeld = (
    ground (arith, o.queue r),
    rw own_id (k.finds (pos w.session_counter) ∙ rw (int_eq_self (pos w.session_counter))),
  )

  Accepts-partition : (i : ℕ) → i < length w'.pool.sessions → IsFree w' i ⊎ IsHeld w' i
  Accepts-partition i h = elim (Bool-cases (r == i)) [
    | inl e ↦ let same : r ≡ i = ground arith in inr (subst (IsHeld w') same Accepts-IsHeld)
    | inr e ↦
        let other : r ≢ i = ground arith in
        elim (v.partition i (o.others i other h)) [
          | inl (waits, absent) ↦ inl (queue_old i other ∙ waits, found_old i other ∙ absent)
          | inr (taken, known) ↦ inr (queue_old i other ∙ taken, found_old i other ∙ known)
        ]
  ]

  not_fresh : (id : ℤ) (i : ℕ) → found w id ≡ some i → r ≢ i
  not_fresh id i h same =
      let (own, range) = v.named id i h in
      elim (v.partition i range) [
        | inl (waits, absent) ↦ cc (absent, ap (found w) own, h)
        | inr (taken, known) ↦
            let free : count i w.pool.reusable ≡ 1 =
              subst (λ j. count j w.pool.reusable ≡ 1) same (o.fresh (rw same range)) in
            absurd (omega (arith, taken, free))
      ]

  Accepts-named :
      (id : ℤ) (i : ℕ) → found w' id ≡ some i → (id_of w' i ≡ id) × (i < length w'.pool.sessions)
  Accepts-named id i h = elim (Bool-cases (int_eq (pos w.session_counter) id)) [
    | inl e ↦
        let same : r ≡ i = ground (arith, k.finds id) in
        subst (λ j. (id_of w' j ≡ id) × (j < length w'.pool.sessions)) same
          (own_id ∙ (int_eq_iff (pos w.session_counter) id).0 e, o.mine)
    | inr e ↦
        let old = v.named id i (ground (arith, k.finds id)) in
        let new = not_fresh id i (ground (arith, k.finds id)) in
        let other : (r == i) ≡ false = ground arith in
        (o.ids i ∙ rw other (old.0), omega (arith, old.1, o.grows))
  ]

  IsIssued-now : (i : ℕ) → IsIssued (w.session_counter + 1) (id_of w' i)
  IsIssued-now i =
      subst (IsIssued (w.session_counter + 1)) (sym (o.ids i)) (elim (Bool-cases (r == i)) [
        | inl e ↦ rw e (omega arith)
        | inr e ↦ rw e (IsIssued-suc w.session_counter (id_of w i) (v.issued i))
      ])

  pub Accepts-IsSound : IsSound w'
  Accepts-IsSound = record {
    shards = ground (arith, v.shards, k.tables);
    partition = Accepts-partition;
    outside = λ i h. ground (arith, o.mine, o.queue i, v.outside i, o.grows);
    named = Accepts-named;
    waiting = λ i h. let (old, other) = o.available i h in queue_old i other ∙ v.waiting i old;
    issued = λ i. subst (λ n. IsIssued n (id_of w' i)) (sym (k.counter)) (IsIssued-now i);
  }
