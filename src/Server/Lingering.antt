-- ===== src/Server/Lingering.antt =====
-- What a login that was under way does with the session that was closed meanwhile.
use server_application.Common.{
  ℕ, ◌≡◌, refl, sym, ap, ◌∙◌, Option, none, some, arith, Text, text_key, ℤ, Map, lookup, insert,
  inl, inr,
}
use server_application.Json.{Codec}
use server_application.Session.{Session, Config, on_nickname_registered}
use server_application.Session.Life.{IsOpen}
use server_application.Pool.Leases.{count}
use server_application.Manager
use server_application.Manager.{find_session, other_than, replaced}
use server_application.Manager.Shards.{find-add_session, int_eq_self}
use server_application.Server.{ServerState, session_of, on_session, close_session}
use server_application.Server.Nicknames.{close_session-find}
use server_application.Server.Login.{
  find_by_nickname, evict, duplicate_login, logged_in_elsewhere, register_nickname, take_nickname,
}
use server_application.Server.Books.{IsSound, IsHeld, found, id_of, on_session-Keeps}
use server_application.Server.Closing.Calls.{Retires-ends}
use server_application.Server.Closing.Calls.{close_session-IsSound, close_session-Retires}
use server_application.Server.Trace.{begin_close-ending, ending}
use server_application.Server.Opening.{
  added, added_replaces, add_session_alone, generation_of, closed_of, replaced-none,
}

evict_nobody :
    (c : Config) (reason : Text) (o : Option ℕ) (w : ServerState)
    → o ≡ none
    → evict c reason o w ≡ w
unfolding evict
evict_nobody c reason none w e = refl
evict_nobody c reason (some r) w e = absurd (ground arith)

-- The part of a login that follows the answer of the DB middleware, for a session that the manager
-- does not know and a nickname that nobody else has.
register_alone :
    (c : Config) (nickname : Text) (r : ℕ) (w : ServerState)
    → other_than r (find_by_nickname nickname w) ≡ none
    → register_nickname c nickname r w ≡ record w {
      manager = record w.manager { nickname_index = insert nickname r w.manager.nickname_index };
    }
unfolding register_nickname Manager.register_nickname find_by_nickname lookup
    Manager.find_session_by_nickname
register_alone c nickname r w e =
    ap
      (λ (u : ServerState). record u {
        manager = record u.manager { nickname_index = insert nickname r w.manager.nickname_index };
      })
      (evict_nobody c logged_in_elsewhere _ w e)

not_both :
    (r : ℕ) (id : ℤ) (w : ServerState)
    → IsSound w
    → found w id ≡ some r
    → count r w.pool.reusable ≡ 1
    → ⊥
not_both r id w v known waits =
    let (own, range) = v.named id r known in
    elim (v.partition r range) [
      | inl (once, absent) ↦ cc (absent, ap (found w) own, known)
      | inr (never, here) ↦ omega (arith, never, waits)
    ]

abbrev registered : Map Text ℕ → ServerState → ServerState
registered index u = record u { manager = record u.manager { nickname_index = index } }

abbrev known_again : ℕ → ServerState → ServerState
known_again r w = record w { manager = (added w r).0 }

known_again-nicknames :
    (nickname : Text) (r : ℕ) (w : ServerState)
    → find_by_nickname nickname (known_again r w) ≡ find_by_nickname nickname w
unfolding find_by_nickname Manager.add_session
known_again-nicknames nickname r w = refl

not_replaced : (r : ℕ) (w : ServerState) → found w (id_of w r) ≡ none → (added w r).1 ≡ none
not_replaced r w e =
    added_replaces w r
    ∙ ap (replaced (generation_of w) (closed_of w) r) e
    ∙ replaced-none (generation_of w) (closed_of w) r

module _ {J : Type 0} (codec : Codec J) (c : Config) (nickname : Text) (r : ℕ)
    (w : ServerState) where
  abbrev named : Session → Session
  named s = on_nickname_registered (record s { nickname = nickname })

  taken :
      found w (id_of w r) ≡ none
      → other_than r (find_by_nickname nickname w) ≡ none
      → take_nickname codec c r nickname w
        ≡ on_session r named
            (registered (insert nickname r (added w r).0.nickname_index) (known_again r w))
  unfolding take_nickname
  taken absent alone =
      let u = known_again r w in
      let nobody : other_than r (find_by_nickname nickname u) ≡ none =
        ap (other_than r) (known_again-nicknames nickname r w) ∙ alone in
      ap
        (λ (z : ServerState). on_session r named (
          register_nickname c nickname r
            (evict c duplicate_login (other_than r (find_by_nickname nickname z)) z)))
        (add_session_alone w r (not_replaced r w absent))
      ∙ ap (λ (z : ServerState). on_session r named (register_nickname c nickname r z))
          (evict_nobody c duplicate_login (other_than r (find_by_nickname nickname u)) u nobody)
      ∙ ap (on_session r named) (register_alone c nickname r u nobody)

  named_id : (s : Session) → (named s).session_id ≡ s.session_id
  unfolding on_nickname_registered
  named_id s = refl

  registered-found :
      (index : Map Text ℕ) (u : ServerState) (id : ℤ) → found (registered index u) id ≡ found u id
  unfolding find_session
  registered-found index u id = refl

  revived :
      IsSound w
      → found w (id_of w r) ≡ none
      → other_than r (find_by_nickname nickname w) ≡ none
      → (found (take_nickname codec c r nickname w) (id_of w r) ≡ some r)
        × (count r (take_nickname codec c r nickname w).pool.reusable ≡ count r w.pool.reusable)
  revived v absent alone =
      let index = insert nickname r (added w r).0.nickname_index in
      let k =
        on_session-Keeps r named (registered index (known_again r w)) (named_id (session_of w r)) in
      rw (taken absent alone) (
        k.finds (id_of w r)
            ∙ registered-found index (known_again r w) (id_of w r)
            ∙ find-add_session (generation_of w) (closed_of w) w.manager (id_of w r) (id_of w r) r
                (v.shards)
            ∙ rw (int_eq_self (id_of w r)),
        ap (count r) (k.reusable),
      )

-- A login whose answer comes after its session was closed, for a nickname that no other session has:
-- the manager knows the session again, under the id of the connection that is gone, while it waits in
-- the queue of free sessions for the next client. The books are not in order any more.
pub late_login_revives :
    {J : Type 0} (codec : Codec J) (c : Config) (nickname : Text) (r : ℕ) (w : ServerState)
    → IsSound w
    → IsHeld w r
    → IsOpen (session_of w r).life
    → other_than r (find_by_nickname nickname w) ≡ none
    → let w' = take_nickname codec c r nickname (close_session r w) in
      (found w' (id_of w r) ≡ some r) × (count r w'.pool.reusable ≡ 1) × ¬ IsSound w'
late_login_revives codec c nickname r w v held o alone =
    let k =
      close_session-Retires r w (ending (session_of w r)) v held
        (begin_close-ending (session_of w r) o) in
    let u = close_session r w in
    let ended = Retires-ends r k v held in
    let absent : found u (id_of u r) ≡ none = ap (found u) (k.ids r) ∙ ended.0 in
    let nobody : other_than r (find_by_nickname nickname u) ≡ none =
      ap (other_than r) (close_session-find r nickname w) ∙ alone in
    let (known, waits) = revived codec c nickname r u (close_session-IsSound r w v) absent nobody in
    let under : found (take_nickname codec c r nickname u) (id_of w r) ≡ some r =
      ap (found (take_nickname codec c r nickname u)) (sym (k.ids r)) ∙ known in
    (under, waits ∙ ended.1, λ sound. not_both r (id_of w r) _ sound under (waits ∙ ended.1))
