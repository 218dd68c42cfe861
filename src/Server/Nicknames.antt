-- ===== src/Server/Nicknames.antt =====
-- What a login, a close and the next accept do with the index of nicknames
-- (SessionManager::nickname_index_).
use server_application.Common.{
  ℕ, ◌+◌, ◌≡◌, refl, ap, ◌∙◌, Bool, true, false, Option, none, some, List, [], ◌∷◌, Text, text_key,
  ℤ, Map, lookup, Option-cases, take, ◌-◌, inl, inr, lookup-insert_self, ltb, length, if◌then◌else◌,
}
use server_application.Json.{Codec}
use server_application.Session.{Session, Config, Task, read_some, begin_close, cleanup}
use server_application.Session.Queues.{try_acquire_read, post_task}
use server_application.Pool
use server_application.Manager
use server_application.Manager.{other_than}
use server_application.Server.{
  ServerState, session_of, on_session, close_session, close_all, close_if, remove_session,
  retire_session, emit, Output, arms_login_timer, receivers,
}
use server_application.Server.Sessions.{
  close_found, max_unauth_sessions, is_unauth, sort_by, int_of, add_session,
  cleanup_unauth_sessions, emit_read, do_read, start_login_timeout, start, welcome, accept_as,
  on_accept, is_closed_state,
}
use server_application.Server.Login.{
  find_by_nickname, evict, register_nickname, take_nickname, duplicate_login,
}
use server_application.Server.Closing.Calls.{close_session_refused, close_session_begun}

abbrev nicknames : ServerState → Map Text ℕ
nicknames w = w.manager.nickname_index

on_session-nicknames :
    (r : ℕ) (f : Session → Session) (w : ServerState) → nicknames (on_session r f w) ≡ nicknames w
unfolding on_session
on_session-nicknames r f w = refl

retire_session-nicknames : (r : ℕ) (w : ServerState) → nicknames (retire_session r w) ≡ nicknames w
unfolding retire_session
retire_session-nicknames r w = refl

manager-nicknames :
    (m : Manager.Manager) (id : ℤ)
    → (Manager.remove_session m id).0.nickname_index ≡ m.nickname_index
unfolding Manager.remove_session
manager-nicknames m id = refl

remove_session-nicknames :
    (id : ℤ) (w : ServerState) → nicknames (remove_session id w) ≡ nicknames w
unfolding remove_session
remove_session-nicknames id w = elim (Option-cases (Manager.remove_session w.manager id).1) [
  | inl e ↦ rw (e, remove_session) (manager-nicknames w.manager id)
  | inr (r, e) ↦
      rw (e, remove_session)
        (retire_session-nicknames r (record w { manager = (Manager.remove_session w.manager id).0 })
          ∙ manager-nicknames w.manager id)
]

close_session-nicknames : (r : ℕ) (w : ServerState) → nicknames (close_session r w) ≡ nicknames w
close_session-nicknames r w = elim (Option-cases (begin_close (session_of w r))) [
  | inl e ↦ rw (close_session_refused r w e)
  | inr (t, e) ↦ rw (close_session_begun r w t e) (
      on_session-nicknames r cleanup _
      ∙ remove_session-nicknames t.session_id _
      ∙ on_session-nicknames r _ w)
]

pub close_session-find :
    (r : ℕ) (nickname : Text) (w : ServerState)
    → find_by_nickname nickname (close_session r w) ≡ find_by_nickname nickname w
unfolding find_by_nickname
close_session-find r nickname w = rw (close_session-nicknames r w)

close_all-nicknames : (rs : List ℕ) (w : ServerState) → nicknames (close_all rs w) ≡ nicknames w
unfolding close_all
close_all-nicknames [] w = refl
close_all-nicknames (r ∷ rs) w = close_all-nicknames rs _ ∙ close_session-nicknames r w

Kept : ServerState → ServerState → Type 0
Kept w w' = nicknames w' ≡ nicknames w

same : (w : ServerState) → Kept w w
unfolding Kept
same w = refl

Kept-if : (b : Bool) (w t u : ServerState) → Kept w t → Kept w u → Kept w (if b then t else u)
Kept-if true w t u x y = x
Kept-if false w t u x y = y

close_found-Kept : (o : Option ℕ) (w : ServerState) → Kept w (close_found o w)
unfolding Kept close_found
close_found-Kept none w = refl
close_found-Kept (some r) w = close_session-nicknames r w

add_session-Kept : (r : ℕ) (w : ServerState) → Kept w (add_session r w)
unfolding Kept add_session Manager.add_session
add_session-Kept r w = close_found-Kept _ _

close_all-Kept : (rs : List ℕ) (w : ServerState) → Kept w (close_all rs w)
unfolding Kept
close_all-Kept rs w = close_all-nicknames rs w

cleanup_unauth_sessions-Kept : (n : ℕ) (w : ServerState) → Kept w (cleanup_unauth_sessions n w)
unfolding cleanup_unauth_sessions
cleanup_unauth_sessions-Kept n w =
    let unauth = receivers is_unauth w in
    let oldest = sort_by (λ r. (session_of w r).last_alive_time) unauth in
    let ended = close_all (take (length unauth - n) oldest) w in
    Kept-if (ltb n (length unauth)) w ended w (close_all-Kept (take (length unauth - n) oldest) w)
      (same w)

emit_read-Kept : (r : ℕ) (o : Option Task) (w : ServerState) → Kept w (emit_read r o w)
unfolding Kept emit_read emit
emit_read-Kept r none w = refl
emit_read-Kept r (some read_some) w = refl

close_if-Kept : (b : Bool) (r : ℕ) (w : ServerState) → Kept w (close_if b r w)
unfolding Kept close_if
close_if-Kept true r w = close_session-nicknames r w
close_if-Kept false r w = refl

Kept-trans : (w t u : ServerState) → Kept w t → Kept t u → Kept w u
unfolding Kept
Kept-trans w t u x y = y ∙ x

on_session-Kept : (r : ℕ) (f : Session → Session) (w : ServerState) → Kept w (on_session r f w)
unfolding Kept
on_session-Kept r f w = on_session-nicknames r f w

emit-Kept : (o : Output) (w : ServerState) → Kept w (emit o w)
unfolding Kept emit
emit-Kept o w = refl

do_read-Kept : (c : Config) (r : ℕ) (w : ServerState) → Kept w (do_read c r w)
unfolding do_read
do_read-Kept c r w =
    let reading = (try_acquire_read (session_of w r)).0 in
    let posted = post_task c reading read_some in
    let put = on_session r (λ _. posted.0) w in
    let begun = emit_read r posted.1 put in
    Kept-if (is_closed_state (session_of w r).state) w w _ (same w) (
      Kept-if (try_acquire_read (session_of w r)).1 w (close_if posted.2 r begun)
        (on_session r (λ _. reading) w)
        (Kept-trans w begun (close_if posted.2 r begun)
          (Kept-trans w put begun (on_session-Kept r (λ _. posted.0) w)
            (emit_read-Kept r posted.1 put))
          (close_if-Kept posted.2 r begun))
        (on_session-Kept r (λ _. reading) w))

start_login_timeout-Kept : (r : ℕ) (w : ServerState) → Kept w (start_login_timeout r w)
unfolding start_login_timeout
start_login_timeout-Kept r w =
    let armed = on_session r (λ s. record s { login_timer_armed = true }) w in
    Kept-if (is_closed_state (session_of w r).state) w w (emit (arms_login_timer r) armed) (same w)
      (Kept-trans w armed (emit (arms_login_timer r) armed)
        (on_session-Kept r (λ s. record s { login_timer_armed = true }) w)
        (emit-Kept (arms_login_timer r) armed))

welcome-Kept : (c : Config) (r : ℕ) (w : ServerState) → Kept w (welcome c r w)
unfolding welcome start
welcome-Kept c r w =
    let known = add_session r w in
    let fewer = cleanup_unauth_sessions max_unauth_sessions known in
    let reading = do_read c r fewer in
    Kept-trans w known _ (add_session-Kept r w) (
      Kept-trans known fewer _ (cleanup_unauth_sessions-Kept max_unauth_sessions known)
        (Kept-trans fewer reading _ (do_read-Kept c r fewer) (start_login_timeout-Kept r reading)))

got-Kept :
    (c : Config) (o : Option ℕ) (w : ServerState)
    → Kept w (elim o [ none ↦ w | some r ↦ welcome c r w ])
got-Kept c none w = same w
got-Kept c (some r) w = welcome-Kept c r w

on_accept-Kept : (c : Config) (now : ℕ) (w : ServerState) → Kept w (on_accept c now w)
unfolding Kept on_accept accept_as
on_accept-Kept c now w =
    let (p, got) = Pool.acquire w.pool (int_of w.session_counter) now in
    got-Kept c got (record w { session_counter = w.session_counter + 1; pool = p })

-- What the index says of a nickname that was registered last for the session object `r`.
written :
    (nickname : Text) (r : ℕ) (w w' : ServerState)
    → lookup nickname (nicknames w) ≡ some r
    → Kept w w'
    → find_by_nickname nickname w' ≡ some r
unfolding find_by_nickname Manager.find_session_by_nickname Manager.lock_weak Kept
written nickname r w w' e k =
    ap (λ o. Manager.lock_weak (λ _. true) o) (ap (λ m. lookup nickname m) k ∙ e)

take_nickname-written :
    {J : Type 0} (codec : Codec J) (c : Config) (r : ℕ) (nickname : Text) (w : ServerState)
    → lookup nickname (nicknames (take_nickname codec c r nickname w)) ≡ some r
unfolding take_nickname register_nickname Manager.register_nickname on_session
take_nickname-written codec c r nickname w =
    let known = add_session r w in
    let alone = evict c duplicate_login (other_than r (find_by_nickname nickname known)) known in
    lookup-insert_self nickname r alone.manager.nickname_index

-- A login writes the nickname into the index for the session object `r`. However many sessions are
-- closed after it, `r` among them or not, the nickname leads to `r`, and so it does when the next
-- client has been accepted, even if that client is given `r`.
pub nicknames_outlive_sessions :
    {J : Type 0} (codec : Codec J) (c : Config) (r : ℕ) (nickname : Text) (w : ServerState)
    (rs : List ℕ) (now : ℕ)
    → let ended = close_all rs (take_nickname codec c r nickname w) in
      (find_by_nickname nickname ended ≡ some r)
      × (find_by_nickname nickname (on_accept c now ended) ≡ some r)
nicknames_outlive_sessions codec c r nickname w rs now =
    let entered = take_nickname codec c r nickname w in
    let known = take_nickname-written codec c r nickname w in
    let ended = close_all-Kept rs entered in
    let next = on_accept-Kept c now (close_all rs entered) in
    (
      written nickname r entered (close_all rs entered) known ended,
      written nickname r entered (on_accept c now (close_all rs entered)) known
          (Kept-trans entered (close_all rs entered) _ ended next),
    )
