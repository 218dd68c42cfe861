-- ===== src/Server/Serving.antt =====
-- The handlers of messages keep the books of the server, as long as a login completes for a session
-- that is still held.
pub mod Handlers
use server_application.Common.{text_key}
use server_application.Common.{
  ℕ, ◌≡◌, ◌≢◌, refl, Bool, true, false, Option, none, some, [], arith, if◌then◌else◌, is_nonpos,
  Text, codes, ℤ, minus_one, Map, insert, inl, inr, Option-cases,
}
use server_application.Json.{Codec}
use server_application.Session.{Session, Config, update_alive_time, on_nickname_registered}
use server_application.Manager
use server_application.Manager.{other_than, find_session}
use server_application.Zones
use server_application.Server.{ServerState, session_of}
use server_application.Server.Login.{
  evict, register_nickname, assign_session_to_zone, take_nickname, enter, on_user_info_ok, settle,
  begin, on_request_error, find_by_nickname, complete_fail, complete_success, logged_in_elsewhere,
}
use server_application.Server.Messages.{
  Handled, handled, thrown, leave_unknown, login_as, login_handler, logout_handler, chat_handler,
  chat_in_zone, speak_in_zone, chatzone_handler, keepalive_handler, MessageType, login, logout,
  chat, chat_zone, keepalive, message_type, run_handler, after_handler, dispatch_type, dispatch,
  on_message,
}
use server_application.Server.Books.{IsSound, IsHeld, Keeps, Keeps-IsSound, on_session-Keeps}
use server_application.Server.Closing.Calls.{close_session-IsSound, close_session-IsHeld}
use server_application.Server.Opening.{add_session-Keeps}
use server_application.Server.Upkeep.{
  emit-Keeps, if-IsSound, post_write-IsSound, broadcast-IsSound, broadcast_zone_tcp-IsSound,
}
use server_application.Server.Upkeep.Timers.{post_write-IsHeld}

evict-IsSound :
    (c : Config) (reason : Text) (o : Option ℕ) (w : ServerState)
    → IsSound w
    → IsSound (evict c reason o w)
unfolding evict
evict-IsSound c reason none w v = v
evict-IsSound c reason (some r) w v = close_session-IsSound r _ (post_write-IsSound c r reason w v)

other_than_ne : (r : ℕ) (o : Option ℕ) (i : ℕ) → other_than r o ≡ some i → i ≢ r
unfolding other_than
other_than_ne r none i e = ground arith
other_than_ne r (some p) i e = ground arith

evict-IsHeld :
    (c : Config) (reason : Text) (o : Option ℕ) (r : ℕ) (w : ServerState)
    → IsSound w
    → ((i : ℕ) → o ≡ some i → i ≢ r)
    → IsHeld w r
    → IsHeld (evict c reason o w) r
unfolding evict
evict-IsHeld c reason none r w v n held = held
evict-IsHeld c reason (some i) r w v n held =
    close_session-IsHeld i r _ (post_write-IsSound c i reason w v) (n i refl)
      (post_write-IsHeld c i r reason w v (n i refl) held)

-- The nicknames are no part of the books.
named_as : Map Text ℕ → ServerState → ServerState
named_as index w = record w { manager = record w.manager { nickname_index = index } }

named_as-Keeps : (index : Map Text ℕ) (w : ServerState) → Keeps w (named_as index w)
unfolding named_as find_session
named_as-Keeps index w = record {
  tables = refl;
  finds = λ id. refl;
  reusable = refl;
  available = refl;
  counter = refl;
  size = refl;
  ids = λ i. refl;
}

register_nickname-IsSound :
    (c : Config) (nickname : Text) (r : ℕ) (w : ServerState)
    → IsSound w
    → IsSound (register_nickname c nickname r w)
unfolding register_nickname Manager.register_nickname named_as
register_nickname-IsSound c nickname r w v =
    Keeps-IsSound (named_as-Keeps (insert nickname r w.manager.nickname_index) _)
      (evict-IsSound c logged_in_elsewhere _ w v)

assign_session_to_zone_id :
    (zones : Zones.Zones) (s : Session) (r : ℕ) (zone_id : ℤ)
    → (Zones.assign_session_to_zone zones s r zone_id).1.session_id ≡ s.session_id
unfolding Zones.assign_session_to_zone
assign_session_to_zone_id zones s r zone_id = ground arith

assign_session_to_zone-IsSound :
    (r : ℕ) (zone_id : ℤ) (w : ServerState)
    → IsSound w
    → IsSound (assign_session_to_zone r zone_id w)
unfolding assign_session_to_zone
assign_session_to_zone-IsSound r zone_id w v =
    let k = on_session-Keeps r _ w (assign_session_to_zone_id w.zones (session_of w r) r zone_id) in
    Keeps-IsSound {w = w}
      (record {
        tables = k.tables;
        finds = k.finds;
        reusable = k.reusable;
        available = k.available;
        counter = k.counter;
        size = k.size;
        ids = k.ids;
      })
      v

on_nickname_registered_id : (s : Session) → (on_nickname_registered s).session_id ≡ s.session_id
unfolding on_nickname_registered
on_nickname_registered_id s = refl

module _ {J : Type 0} (codec : Codec J) (c : Config) where
  take_nickname-IsSound :
      (r : ℕ) (nickname : Text) (w : ServerState)
      → IsSound w
      → IsHeld w r
      → IsSound (take_nickname codec c r nickname w)
  unfolding take_nickname
  take_nickname-IsSound r nickname w v held =
      let known = Keeps-IsSound (add_session-Keeps r w v held) v in
      Keeps-IsSound (on_session-Keeps r _ _ (on_nickname_registered_id _))
        (register_nickname-IsSound c nickname r _ (evict-IsSound c _ _ _ known))

  complete_success-IsSound :
      (r : ℕ) (nickname : Text) (w : ServerState)
      → IsSound w
      → IsSound (complete_success codec c r nickname w)
  unfolding complete_success
  complete_success-IsSound r nickname w v = post_write-IsSound c r _ w v

  complete_fail-IsSound :
      (r : ℕ) (reason : Text) (w : ServerState)
      → IsSound w
      → IsSound (complete_fail codec c r reason w)
  unfolding complete_fail
  complete_fail-IsSound r reason w v = post_write-IsSound c r _ w v

  enter-IsSound :
      (r : ℕ) (nickname : Text) (w : ServerState)
      → IsSound w
      → IsHeld w r
      → IsSound (enter codec c r nickname w)
  unfolding enter
  enter-IsSound r nickname w v held = complete_success-IsSound r nickname _ (
      broadcast-IsSound c _ _ _
        (assign_session_to_zone-IsSound r _ _ (take_nickname-IsSound r nickname w v held)))

  settle-IsSound :
      (r : ℕ) (nickname : Text) (code : Option ℤ) (w : ServerState)
      → IsSound w
      → IsHeld w r
      → IsSound (settle codec c r nickname code w)
  unfolding settle
  settle-IsSound r nickname none w v held = v
  settle-IsSound r nickname (some code) w v held =
      if-IsSound _ _ _ (enter-IsSound r nickname w v held) (complete_fail-IsSound r _ w v)

  pub on_user_info_ok-IsSound :
      (r : ℕ) (nickname : Text) (j : J) (w : ServerState)
      → IsSound w
      → IsHeld w r
      → IsSound (on_user_info_ok codec c r nickname j w)
  unfolding on_user_info_ok
  on_user_info_ok-IsSound r nickname j w v held =
      settle-IsSound r nickname (codec.int_value j (codes "code") minus_one) w v held

  pub on_request_error-IsSound :
      (r : ℕ) (j : J) (w : ServerState) → IsSound w → IsSound (on_request_error codec c r j w)
  unfolding on_request_error
  on_request_error-IsSound r j w v =
      elim (Option-cases (codec.json.value j (codes "msg") (codes "timeout"))) [
        | inl e ↦ rw (e, on_request_error) v
        | inr (reason, e) ↦ rw (e, on_request_error) (complete_fail-IsSound r reason w v)
      ]

  begin-IsSound :
      (db_connected : Bool) (r : ℕ) (nickname : Text) (w : ServerState)
      → IsSound w
      → IsHeld w r
      → IsSound (begin codec c db_connected r nickname w)
  unfolding begin
  begin-IsSound db_connected r nickname w v held =
      if-IsSound _ _ _ (Keeps-IsSound (emit-Keeps _ w) v)
        (on_user_info_ok-IsSound r nickname _ w v held)

  leave_unknown-IsSound :
      (r : ℕ) (w : ServerState) → IsSound w → IsSound (leave_unknown codec c r w)
  unfolding leave_unknown
  leave_unknown-IsSound r w v = close_session-IsSound r _ (post_write-IsSound c r _ w v)

  login_as-IsSound :
      (db_connected : Bool) (r : ℕ) (nickname : Text) (w : ServerState)
      → IsSound w
      → IsHeld w r
      → IsSound (login_as codec c db_connected r nickname w)
  unfolding login_as
  login_as-IsSound db_connected r nickname w v held =
      let prev = other_than r (find_by_nickname nickname w) in
      if-IsSound _ _ _ (post_write-IsSound c r _ w v) (
        if-IsSound _ _ _ (leave_unknown-IsSound r w v) (
          begin-IsSound db_connected r nickname _ (evict-IsSound c _ prev w v)
            (evict-IsHeld c _ prev r w v (other_than_ne r (find_by_nickname nickname w)) held)))
