-- ===== src/Server/Closing.antt =====
-- Session::close_session from end to end keeps the books of the server.
pub mod Calls
use server_application.Common.{
  ℕ, zero, suc, ◌+◌, ◌<◌, ◌≡◌, ◌≢◌, ◌⊎◌, inl, inr, refl, sym, subst, ap, ◌∙◌, Bool, true, false,
  Option, none, some, List, [], ◌∷◌, ◌++◌, arith, lt→ltb, ◌==◌, if◌then◌else◌, length, ℤ, int_eq,
  int_eq_iff, Bool-cases, Option-cases,
}
use server_application.Session.{Session, begin_close, cleanup}
use server_application.Session.Udp.{clear_udp_token}
use server_application.Pool.{Pool, modify, contains, release, retire}
use server_application.Pool.Leases.{count, count-append, length-modify}
use server_application.Manager
use server_application.Manager.{find_session}
use server_application.Manager.Shards.{find-remove_session, length-put_bucket, int_eq_self}
use server_application.Zones.{Zones, leave_zone}
use server_application.Server.{
  ServerState, no_session, get_session, session_of, on_session, close_session, remove_session,
  retire_session,
}
use server_application.Server.Books.{
  IsSound, Keeps, Keeps-refl, Keeps-trans, Keeps-IsSound, IsFree, IsHeld, found, id_of, modify-ids,
  on_session-Keeps,
}

-- What a close does to the books when the session was held: it is forgotten and waits in the queue.
pub record Retires (r : ℕ) (w w' : ServerState) : Type 0 where
  pub tables : length w'.manager.buckets ≡ length w.manager.buckets
  pub finds : (id : ℤ) → found w' id ≡ (if int_eq (id_of w r) id then none else found w id)
  pub reusable : w'.pool.reusable ≡ w.pool.reusable ++ r ∷ []
  pub available : w'.pool.available ≡ r ∷ w.pool.available
  pub counter : w'.session_counter ≡ w.session_counter
  pub size : length w'.pool.sessions ≡ length w.pool.sessions
  pub ids : (i : ℕ) → id_of w' i ≡ id_of w i

if-none : (b : Bool) (o : Option ℕ) → o ≡ none → (if b then none else o) ≡ none
if-none true o h = refl
if-none false o h = h

module _ {w w' : ServerState} (r : ℕ) (k : Retires r w w') (v : IsSound w) (held : IsHeld w r) where
  waits-again :
      (i : ℕ) → count i w'.pool.reusable ≡ count i w.pool.reusable + (if r == i then 1 else 0)
  waits-again i = rw (k.reusable) (count-append i w.pool.reusable (r ∷ []) ∙ omega arith)

  -- Another session that is held is found as before.
  found_other : (i : ℕ) → r ≢ i → found w (id_of w i) ≡ some i → found w' (id_of w' i) ≡ some i
  found_other i n h = elim (Bool-cases (int_eq (id_of w r) (id_of w i))) [
    | inl e ↦
        let same : id_of w r ≡ id_of w i = (int_eq_iff (id_of w r) (id_of w i)).0 e in
        let twice : some r ≡ some i = sym (held.1) ∙ ap (found w) same ∙ h in absurd (n (cc twice))
    | inr e ↦ rw (k.ids i) (k.finds (id_of w i) ∙ rw e h)
  ]

  Retires-partition : (i : ℕ) → i < length w.pool.sessions → IsFree w' i ⊎ IsHeld w' i
  Retires-partition i h = elim (Bool-cases (r == i)) [
    | inl e ↦
        let same : r ≡ i = ground arith in
        inl (
          waits-again i ∙ rw (e, sym same) (omega (arith, held.0)),
          rw (k.ids i) (k.finds (id_of w i) ∙ rw (sym same, int_eq_self (id_of w r))),
        )
    | inr e ↦ elim (v.partition i h) [
      | inl (waits, absent) ↦ inl (
        waits-again i ∙ rw e (omega (arith, waits)),
        rw (k.ids i) (k.finds (id_of w i) ∙ if-none _ _ absent),
      )
      | inr (taken, known) ↦
          inr (waits-again i ∙ rw e (omega (arith, taken)), found_other i (ground arith) known)
    ]
  ]

  Retires-named :
      (id : ℤ) (i : ℕ) → found w' id ≡ some i → (id_of w' i ≡ id) × (i < length w'.pool.sessions)
  Retires-named id i h = elim (Bool-cases (int_eq (id_of w r) id)) [
    | inl e ↦ absurd (ground (arith, k.finds id))
    | inr e ↦
        let old = v.named id i (ground (arith, k.finds id)) in
        (k.ids i ∙ old.0, rw (k.size) (old.1))
  ]

  old_member :
      (i : ℕ)
      → (r == i) ≡ false
      → contains i w'.pool.available ≡ true
      → contains i w.pool.available ≡ true
  unfolding contains
  old_member i e h = ground (arith, k.available)

  pub Retires-IsSound : IsSound w'
  Retires-IsSound = record {
    shards = ground (arith, v.shards, k.tables);
    partition = λ i h. Retires-partition i (omega (arith, k.size));
    outside = λ i h.
        let mine = (v.named (id_of w r) r (held.1)).1 in
        ground (arith, waits-again i, v.outside i, k.size);
    named = Retires-named;
    waiting = λ i h. elim (Bool-cases (r == i)) [
      | inl e ↦
          let same : r ≡ i = ground arith in
          waits-again i ∙ rw (e, sym same) (omega (arith, held.0))
      | inr e ↦ waits-again i ∙ rw e (omega (arith, v.waiting i (old_member i e h)))
    ];
    issued = λ i. rw (k.ids i, k.counter) (v.issued i);
  }

pub begin_close_id : (s t : Session) → begin_close s ≡ some t → t.session_id ≡ s.session_id
unfolding begin_close
begin_close_id s t e = ground arith

leave_zone_id : (zones : Zones) (s : Session) → (leave_zone zones s).1.session_id ≡ s.session_id
unfolding leave_zone
leave_zone_id zones s = ground arith

cleanup_id : (s : Session) → (cleanup s).session_id ≡ s.session_id
unfolding cleanup
cleanup_id s = refl

clear_udp_token_id : (s : Session) → (clear_udp_token s).session_id ≡ s.session_id
unfolding clear_udp_token
clear_udp_token_id s = refl

retire_id : (s : Session) → (retire s).session_id ≡ s.session_id
unfolding retire
retire_id s = refl

pub not_waiting :
    (r : ℕ) (w : ServerState) → IsSound w → IsHeld w r → contains r w.pool.available ≡ false
not_waiting r w v held = elim (Bool-cases (contains r w.pool.available)) [
  | inl e ↦ absurd (omega (arith, v.waiting r e, held.0))
  | inr e ↦ e
]

-- The pool after a release of a session that does not wait.
pub release-fresh :
    (p : Pool) (r : ℕ)
    → r < length p.sessions
    → contains r p.available ≡ false
    → release p r ≡ record p {
      sessions = modify r retire p.sessions;
      reusable = p.reusable ++ r ∷ [];
      available = r ∷ p.available;
    }
unfolding release
release-fresh p r h e = rw (lt→ltb _ _ h, e)

retire_session-Retires :
    (r : ℕ) (w : ServerState) (m : Manager.Manager)
    → r < length w.pool.sessions
    → contains r w.pool.available ≡ false
    → length m.buckets ≡ length w.manager.buckets
    → ((id : ℤ) → find_session m id ≡ (if int_eq (id_of w r) id then none else found w id))
    → Retires r w (retire_session r (record w { manager = m }))
unfolding retire_session
retire_session-Retires r w m h e tables finds =
    let ss = w.pool.sessions in
    let left = (leave_zone w.zones (clear_udp_token (get_session ss r))).1 in
    let same : left.session_id ≡ (get_session ss r).session_id =
      leave_zone_id w.zones _ ∙ clear_udp_token_id _ in
    let put = modify r (λ _. left) ss in
    let sizes : length put ≡ length ss = length-modify r _ ss in
    let freed = release-fresh (record w.pool { sessions = put }) r (omega (arith, sizes)) e in
    record {
      tables = tables;
      finds = finds;
      reusable = ap (λ (p : Pool). p.reusable) freed;
      available = ap (λ (p : Pool). p.available) freed;
      counter = refl;
      size = ap (λ (p : Pool). length p.sessions) freed ∙ length-modify r retire put ∙ sizes;
      ids = λ i.
          ap (λ (p : Pool). (get_session p.sessions i).session_id) freed
          ∙ modify-ids r i retire put (retire_id _)
          ∙ modify-ids r i (λ _. left) ss same;
    }

-- Manager.remove_session as a find and a table without the id.
pub removed_is_found :
    (m : Manager.Manager) (id : ℤ) → (Manager.remove_session m id).1 ≡ find_session m id
unfolding Manager.remove_session find_session
removed_is_found m id = refl

removed_tables :
    (m : Manager.Manager) (id : ℤ)
    → length (Manager.remove_session m id).0.buckets ≡ length m.buckets
unfolding Manager.remove_session
removed_tables m id = length-put_bucket m.buckets id _

-- What remove_session does with an id that the manager has, and with one that it has not.
remove_session-Retires :
    (r : ℕ) (w : ServerState) → IsSound w → IsHeld w r → Retires r w (remove_session (id_of w r) w)
unfolding remove_session
remove_session-Retires r w v held =
    let id = id_of w r in
    rw (removed_is_found w.manager id ∙ held.1, remove_session)
      (retire_session-Retires r w (Manager.remove_session w.manager id).0
        ((v.named id r (held.1)).1) (not_waiting r w v held) (removed_tables w.manager id)
        (λ j. find-remove_session w.manager id j (v.shards)))

remove_session-Keeps :
    (id : ℤ) (w : ServerState) → IsSound w → found w id ≡ none → Keeps w (remove_session id w)
unfolding remove_session
remove_session-Keeps id w v absent =
    rw (removed_is_found w.manager id ∙ absent, remove_session)
      (record {
        tables = removed_tables w.manager id;
        finds = λ j.
            find-remove_session w.manager id j (v.shards) ∙ elim (Bool-cases (int_eq id j)) [
              | inl e ↦ rw e (sym absent ∙ ap (found w) ((int_eq_iff id j).0 e))
              | inr e ↦ rw e
            ];
        reusable = refl;
        available = refl;
        counter = refl;
        size = refl;
        ids = λ i. refl;
      })
