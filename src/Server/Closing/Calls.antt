-- ===== src/Server/Closing/Calls.antt =====
-- Session::close_session for any session, however often it is called.
use server_application.Common.{
  ℕ, zero, suc, ◌<◌, ◌≡◌, ◌≢◌, ◌⊎◌, inl, inr, sym, subst, ap, ◌∙◌, false, none, some, List, [], ◌∷◌,
  ◌++◌, arith, ◌==◌, length, Option-cases,
}
use server_application.Session.{Session, begin_close, cleanup}
use server_application.Pool.Leases.{count}
use server_application.Manager.Shards.{int_eq_self}
use server_application.Server.{
  ServerState, no_session, get_session, session_of, on_session, close_session, remove_session,
}
use server_application.Server.Books.{
  IsSound, Keeps, Keeps-refl, Keeps-trans, Keeps-IsSound, IsHeld, found, id_of, on_session-Keeps,
}
use server_application.Server.Closing.{
  Retires, Retires-IsSound, begin_close_id, cleanup_id, found_other, remove_session-Keeps,
  remove_session-Retires, waits-again,
}

pub begin_close_range :
    (r : ℕ) (ss : List Session) (t : Session)
    → begin_close (get_session ss r) ≡ some t
    → r < length ss
unfolding begin_close no_session
begin_close_range r [] t e = ground arith
begin_close_range zero (s ∷ ss) t e = omega arith
begin_close_range (suc r) (s ∷ ss) t e = omega (arith, begin_close_range r ss t e)

pub close_session_refused :
    (r : ℕ) (w : ServerState) → begin_close (session_of w r) ≡ none → close_session r w ≡ w
unfolding close_session
close_session_refused r w e = rw (close_session, e)

pub close_session_begun :
    (r : ℕ) (w : ServerState) (t : Session)
    → begin_close (session_of w r) ≡ some t
    → close_session r w
      ≡ on_session r cleanup (remove_session t.session_id (on_session r (λ _. t) w))
unfolding close_session
close_session_begun r w t e = rw (close_session, e)

-- What a close of one session does to the books: nothing, or it ends a lease.
unfoldable pub Closes : ℕ → ServerState → ServerState → Type 0
Closes r w w' = Keeps w w' ⊎ (IsHeld w r × Retires r w w')

Keeps-Retires : {u v w : ServerState} (r : ℕ) → Keeps u v → Retires r v w → Retires r u w
Keeps-Retires r h k = record {
  tables = k.tables ∙ h.tables;
  finds = λ id. k.finds id ∙ rw (h.ids r, h.finds id);
  reusable = k.reusable ∙ ap (λ (xs : List ℕ). xs ++ r ∷ []) h.reusable;
  available = k.available ∙ ap (λ (xs : List ℕ). r ∷ xs) h.available;
  counter = k.counter ∙ h.counter;
  size = k.size ∙ h.size;
  ids = λ i. k.ids i ∙ h.ids i;
}

Retires-Keeps : {u v w : ServerState} (r : ℕ) → Retires r u v → Keeps v w → Retires r u w
Retires-Keeps r h k = record {
  tables = k.tables ∙ h.tables;
  finds = λ id. k.finds id ∙ h.finds id;
  reusable = k.reusable ∙ h.reusable;
  available = k.available ∙ h.available;
  counter = k.counter ∙ h.counter;
  size = k.size ∙ h.size;
  ids = λ i. k.ids i ∙ h.ids i;
}

pub Keeps-IsHeld : {u v : ServerState} (r : ℕ) → Keeps u v → IsHeld u r → IsHeld v r
Keeps-IsHeld {u} {v} r k held =
    (ap (count r) (k.reusable) ∙ held.0, rw (k.ids r) (k.finds (id_of u r) ∙ held.1))

Keeps-IsHeld_back : {u v : ServerState} (r : ℕ) → Keeps u v → IsHeld v r → IsHeld u r
Keeps-IsHeld_back {u} {v} r k held = (
  sym (ap (count r) (k.reusable)) ∙ held.0,
  sym (k.finds (id_of u r)) ∙ ap (found v) (sym (k.ids r)) ∙ held.1,
)

-- A close between two steps that keep the books.
Closes-Keeps : {u v w z : ServerState} (r : ℕ) → Keeps u v → Closes r v w → Keeps w z → Closes r u z
unfolding Closes
Closes-Keeps r h (inl k) l = inl (Keeps-trans h (Keeps-trans k l))
Closes-Keeps r h (inr (held, k)) l =
    inr (Keeps-IsHeld_back r h held, Retires-Keeps r (Keeps-Retires r h k) l)

remove_session-Closes :
    (r : ℕ) (w : ServerState)
    → IsSound w
    → r < length w.pool.sessions
    → Closes r w (remove_session (id_of w r) w)
unfolding Closes
remove_session-Closes r w v h = elim (v.partition r h) [
  | inl (waits, absent) ↦ inl (remove_session-Keeps (id_of w r) w v absent)
  | inr held ↦ inr (held, remove_session-Retires r w v held)
]

pub close_session-Closes : (r : ℕ) (w : ServerState) → IsSound w → Closes r w (close_session r w)
unfolding Closes
close_session-Closes r w v = elim (Option-cases (begin_close (session_of w r))) [
  | inl e ↦ inl (rw (close_session_refused r w e) (Keeps-refl w))
  | inr (t, e) ↦
      let same : t.session_id ≡ id_of w r = begin_close_id _ t e in
      let k = on_session-Keeps r (λ _. t) w same in
      let put = on_session r (λ _. t) w in
      let named : t.session_id ≡ id_of put r = same ∙ sym (k.ids r) in
      let removed =
        remove_session-Closes r put (Keeps-IsSound k v)
          (omega (arith, begin_close_range r w.pool.sessions t e, k.size)) in
      rw (close_session_begun r w t e) (
        Closes-Keeps r k (subst (λ id. Closes r put (remove_session id put)) (sym named) removed)
          (on_session-Keeps r cleanup (remove_session t.session_id put) (cleanup_id _)))
]

Closes-IsSound : (r : ℕ) (u v : ServerState) → IsSound u → Closes r u v → IsSound v
unfolding Closes
Closes-IsSound r u v sound (inl k) = Keeps-IsSound k sound
Closes-IsSound r u v sound (inr (held, k)) = Retires-IsSound r k sound held

-- close_session keeps the books, whatever session it is called for and however often.
pub close_session-IsSound : (r : ℕ) (w : ServerState) → IsSound w → IsSound (close_session r w)
close_session-IsSound r w v = Closes-IsSound r w _ v (close_session-Closes r w v)

Closes-IsHeld :
    (r i : ℕ) (u v : ServerState) → IsSound u → Closes r u v → r ≢ i → IsHeld u i → IsHeld v i
unfolding Closes
Closes-IsHeld r i u v sound (inl k) n mine = Keeps-IsHeld i k mine
Closes-IsHeld r i u v sound (inr (held, k)) n mine =
    let other : (r == i) ≡ false = ground arith in
    (
      waits-again r k sound held i ∙ rw other (omega (arith, mine.0)),
      found_other r k sound held i n (mine.1),
    )

-- A session that is held stays so when another is closed.
pub close_session-IsHeld :
    (r i : ℕ) (w : ServerState) → IsSound w → r ≢ i → IsHeld w i → IsHeld (close_session r w) i
close_session-IsHeld r i w v n held = Closes-IsHeld r i w _ v (close_session-Closes r w v) n held

-- A close that is accepted ends the lease of a session that is held.
pub close_session-Retires :
    (r : ℕ) (w : ServerState) (t : Session)
    → IsSound w
    → IsHeld w r
    → begin_close (session_of w r) ≡ some t
    → Retires r w (close_session r w)
close_session-Retires r w t v held e =
    let same : t.session_id ≡ id_of w r = begin_close_id _ t e in
    let k = on_session-Keeps r (λ _. t) w same in
    let put = on_session r (λ _. t) w in
    let named : t.session_id ≡ id_of put r = same ∙ sym (k.ids r) in
    let removed = remove_session-Retires r put (Keeps-IsSound k v) (Keeps-IsHeld r k held) in
    rw (close_session_begun r w t e) (
      Retires-Keeps r
        (Keeps-Retires r k
          (subst (λ id. Retires r put (remove_session id put)) (sym named) removed))
        (on_session-Keeps r cleanup (remove_session t.session_id put) (cleanup_id _)))

pub Retires-ends :
    {w w' : ServerState} (r : ℕ)
    → Retires r w w'
    → IsSound w
    → IsHeld w r
    → (found w' (id_of w r) ≡ none) × (count r w'.pool.reusable ≡ 1)
Retires-ends {w} r k v held = (
  k.finds (id_of w r) ∙ rw (int_eq_self (id_of w r)),
  waits-again r k v held r ∙ ground (arith, held.0),
)
