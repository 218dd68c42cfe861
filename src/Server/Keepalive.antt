-- ===== src/Server/Keepalive.antt =====
-- DataHandler::do_keepalive_check: whom it closes, and whom it does not.
use server_application.Common.{
  ℕ, zero, suc, ◌<◌, ◌≡◌, ◌≢◌, ◌⊎◌, inl, inr, refl, sym, ap, ◌∙◌, Bool, true, false, Bool-cases,
  Option-cases, none, some, List, [], ◌∷◌, ◌++◌, arith, ◌==◌, ◌-◌, ◌*◌, ◌&&◌, ltb, length,
  get_elem?, select, lookup, ℤ, int_key, subst, if◌then◌else◌,
}
use server_application.Session.{Session, begin_close, cleanup}
use server_application.Session.Udp.{ns_per_sec}
use server_application.Session.Life.{IsOpen}
use server_application.Pool.{contains}
use server_application.Manager
use server_application.Manager.{
  Manager, Bucket, find_session, bucket_of, bucket_or_empty, get_shard, flatten, refs, copied,
  for_each_session,
}
use server_application.Server.{
  ServerState, session_of, on_session, remove_session, close_session, close_all, receivers,
}
use server_application.Server.Sessions.{is_silent, do_keepalive_check}
use server_application.Server.Books.{IsSound, IsHeld, Keeps-IsSound, on_session-Keeps, found, id_of}
use server_application.Server.Closing.{removed_is_found, begin_close_id}
use server_application.Server.Closing.Calls.{
  Closes, begin_close_range, close_session_refused, close_session_begun, close_session-Closes,
  close_session-IsSound, close_session-IsHeld, close_session-Retires, Retires-ends,
}
use server_application.Server.Trace.{
  session_of-other, retire_session-other, remove_session-found, begin_close-ending,
}

-- What the loop over the sessions visits.
refs-found : (id : ℤ) (r : ℕ) (b : Bucket) → lookup id b ≡ some r → contains r (refs b) ≡ true
unfolding lookup refs contains
refs-found id r [] e = ground arith
refs-found id r ((j, s) ∷ b) e = ground (arith, refs-found id r b)

refs-append_left :
    (r : ℕ) (b c : Bucket) → contains r (refs b) ≡ true → contains r (refs (b ++ c)) ≡ true
unfolding refs contains
refs-append_left r [] c e = ground arith
refs-append_left r ((j, s) ∷ b) c e = ground (arith, refs-append_left r b c)

refs-append_right :
    (r : ℕ) (b c : Bucket) → contains r (refs c) ≡ true → contains r (refs (b ++ c)) ≡ true
unfolding refs contains
refs-append_right r [] c e = e
refs-append_right r ((j, s) ∷ b) c e = ground (arith, refs-append_right r b c e)

flatten-found :
    (r k : ℕ) (bs : List Bucket)
    → contains r (refs (bucket_or_empty (get_elem? bs k))) ≡ true
    → contains r (refs (flatten bs)) ≡ true
unfolding flatten
flatten-found r k [] e = e
flatten-found r zero (b ∷ bs) e = refs-append_left r b (flatten bs) e
flatten-found r (suc k) (b ∷ bs) e = refs-append_right r b (flatten bs) (flatten-found r k bs e)

found-visited :
    (m : Manager) (id : ℤ) (r : ℕ)
    → find_session m id ≡ some r
    → contains r (for_each_session m) ≡ true
unfolding find_session bucket_of for_each_session copied
found-visited m id r e =
    flatten-found r (get_shard (length m.buckets) id) m.buckets (refs-found id r _ e)

in_head_or_tail :
    (r x : ℕ) (xs : List ℕ) → contains r (x ∷ xs) ≡ true → (x ≡ r) ⊎ (contains r xs ≡ true)
unfolding contains
in_head_or_tail r x xs e = ground (arith, e)

contains-head : (r : ℕ) (xs : List ℕ) → contains r (r ∷ xs) ≡ true
unfolding contains
contains-head r xs = ground arith

contains-tail : (r x : ℕ) (xs : List ℕ) → contains r xs ≡ true → contains r (x ∷ xs) ≡ true
unfolding contains
contains-tail r x xs e = ground (arith, e)

select-contains :
    (p : ℕ → Bool) (r : ℕ) (xs : List ℕ)
    → p r ≡ true
    → contains r xs ≡ true
    → contains r (select p xs) ≡ true
select-contains p r [] h e = e
select-contains p r (x ∷ xs) h e = elim (Bool-cases (p x)) [
  | inl kept ↦ rw kept (elim (in_head_or_tail r x xs e) [
    | inl same ↦ rw same (contains-head r (select p xs))
    | inr later ↦ contains-tail r x (select p xs) (select-contains p r xs h later)
  ])
  | inr dropped ↦ rw dropped (elim (in_head_or_tail r x xs e) [
    | inl same ↦ absurd (cc (h, ap p same, dropped))
    | inr later ↦ select-contains p r xs h later
  ])
]

select-holds : (p : ℕ → Bool) (r : ℕ) (xs : List ℕ) → contains r (select p xs) ≡ true → p r ≡ true
unfolding contains
select-holds p r [] e = absurd (ground (arith, e))
select-holds p r (x ∷ xs) e =
    let chosen : Bool → List ℕ = λ b. if b then x ∷ select p xs else select p xs in
    elim (Bool-cases (p x)) [
      | inl kept ↦
          elim (in_head_or_tail r x (select p xs)
            (ap (λ b. contains r (chosen b)) (sym kept) ∙ e)) [
              | inl same ↦ sym (ap p same) ∙ kept
              | inr later ↦ select-holds p r xs later
            ]
      | inr dropped ↦ select-holds p r xs (ap (λ b. contains r (chosen b)) (sym dropped) ∙ e)
    ]

-- What a close leaves of the other sessions.
remove_session-other :
    (r i : ℕ) (w : ServerState)
    → IsSound w
    → r < length w.pool.sessions
    → r ≢ i
    → session_of (remove_session (id_of w r) w) i ≡ session_of w i
unfolding remove_session
remove_session-other r i w v range n = elim (v.partition r range) [
  | inl (waits, absent) ↦ rw (removed_is_found w.manager (id_of w r) ∙ absent, remove_session) refl
  | inr (taken, known) ↦
      ap (λ (u : ServerState). session_of u i) (remove_session-found r (id_of w r) w known)
      ∙ retire_session-other r i
          (record w { manager = (Manager.remove_session w.manager (id_of w r)).0 }) n
]

close_session-other :
    (r i : ℕ) (w : ServerState)
    → IsSound w
    → r ≢ i
    → session_of (close_session r w) i ≡ session_of w i
close_session-other r i w v n = elim (Option-cases (begin_close (session_of w r))) [
  | inl e ↦ ap (λ (u : ServerState). session_of u i) (close_session_refused r w e)
  | inr (t, e) ↦
      let put = on_session r (λ _. t) w in
      let same = begin_close_id _ t e in
      let k = on_session-Keeps r (λ _. t) w same in
      let range = begin_close_range r w.pool.sessions t e in
      ap (λ (u : ServerState). session_of u i) (close_session_begun r w t e)
      ∙ session_of-other r i cleanup (remove_session t.session_id put) n
      ∙ ap (λ id. session_of (remove_session id put) i) (same ∙ sym (k.ids r))
      ∙ remove_session-other r i put (Keeps-IsSound k v) (omega (arith, range, k.size)) n
      ∙ session_of-other r i (λ _. t) w n
]

-- A session that the manager does not know stays unknown.
close_session-absent :
    (r : ℕ) (id : ℤ) (w : ServerState)
    → IsSound w
    → found w id ≡ none
    → found (close_session r w) id ≡ none
unfolding Closes
close_session-absent r id w v e = elim (close_session-Closes r w v) [
  | inl k ↦ k.finds id ∙ e
  | inr (held, k) ↦ k.finds id ∙ ground (arith, e)
]

close_all-absent :
    (rs : List ℕ) (id : ℤ) (w : ServerState)
    → IsSound w
    → found w id ≡ none
    → found (close_all rs w) id ≡ none
unfolding close_all
close_all-absent [] id w v e = e
close_all-absent (r ∷ rs) id w v e =
    close_all-absent rs id _ (close_session-IsSound r w v) (close_session-absent r id w v e)

close_all-closes :
    (rs : List ℕ) (i : ℕ) (w : ServerState)
    → IsSound w
    → IsHeld w i
    → IsOpen (session_of w i).life
    → contains i rs ≡ true
    → found (close_all rs w) (id_of w i) ≡ none
unfolding close_all contains
close_all-closes [] i w v held o e = absurd (ground (arith, e))
close_all-closes (r ∷ rs) i w v held o e = elim (Bool-cases (r == i)) [
  | inl same ↦
      let it : r ≡ i = ground (arith, same) in
      let ended =
        Retires-ends i (close_session-Retires i w _ v held (begin_close-ending (session_of w i) o))
          v held in
      close_all-absent rs (id_of w i) _ (close_session-IsSound r w v)
        (ap (λ k. found (close_session k w) (id_of w i)) it ∙ ended.0)
  | inr other ↦
      let n : r ≢ i = ground (arith, other) in
      let later : contains i rs ≡ true = ground (arith, other, e) in
      let state = close_session-other r i w v n in
      ap (found (close_all rs (close_session r w))) (sym (ap (λ (s : Session). s.session_id) state))
      ∙ close_all-closes rs i (close_session r w) (close_session-IsSound r w v)
          (close_session-IsHeld r i w v n held)
          (subst (λ (s : Session). IsOpen s.life) (sym state) o) later
]

close_all-spares :
    (rs : List ℕ) (i : ℕ) (w : ServerState)
    → IsSound w
    → IsHeld w i
    → (contains i rs ≡ false)
    → IsHeld (close_all rs w) i
unfolding close_all contains
close_all-spares [] i w v held e = held
close_all-spares (r ∷ rs) i w v held e =
    let n : r ≢ i = ground (arith, e) in
    let later : contains i rs ≡ false = ground (arith, e) in
    close_all-spares rs i _ (close_session-IsSound r w v) (close_session-IsHeld r i w v n held)
      later

-- A nickname, and no sign of life for more than a minute.
abbrev pub is_overdue : ℕ → Session → Bool
is_overdue now s = s.nickname_registered && ltb (60 * ns_per_sec) (now - s.last_alive_time)

-- In a server whose books are in order, a keepalive check and a session that the manager knows and that
-- can be closed: if the session has a nickname and its last sign of life is more than a minute old,
-- the manager does not know its id afterwards; otherwise the session is held as before.
pub keepalive_closes_silent :
    (now i : ℕ) (w : ServerState)
    → IsSound w
    → IsHeld w i
    → IsOpen (session_of w i).life
    → ((is_overdue now (session_of w i) ≡ true)
        × (found (do_keepalive_check now w) (id_of w i) ≡ none))
      ⊎ ((is_overdue now (session_of w i) ≡ false) × IsHeld (do_keepalive_check now w) i)
unfolding do_keepalive_check receivers is_silent
keepalive_closes_silent now i w v held o = elim (Bool-cases (is_overdue now (session_of w i))) [
  | inl silent ↦ inl (
    silent,
    close_all-closes _ i w v held o (
        select-contains (λ r. is_silent now (session_of w r)) i _ silent
          (found-visited w.manager (id_of w i) i (held.1))),
  )
  | inr lively ↦ inr (
    lively,
    close_all-spares _ i w v held (elim (Bool-cases (contains i (receivers (is_silent now) w))) [
      | inl chosen ↦
          absurd (cc (lively, select-holds (λ r. is_silent now (session_of w r)) i _ chosen))
      | inr spared ↦ spared
    ]),
  )
]
