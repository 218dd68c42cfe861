-- ===== src/Server/Draining.antt =====
-- What a message leaves in the buffers of received bytes, and the loop over the messages of one read.
pub mod Loop
use server_application.Common.{
  ℕ, zero, suc, ◌+◌, ◌<◌, ◌≤◌, ◌≡◌, inl, inr, refl, ap, Bool, true, false, Option, Option-cases,
  none, some, [], arith, if◌then◌else◌, codes, Text, ℤ, minus_one, is_nonpos,
}
use server_application.Json.{Codec}
use server_application.Framing.{extract_message}
use server_application.Framing.Extract.{extract_message-Outcome, Outcome-some}
use server_application.Session.{Session, Config, on_nickname_registered, update_alive_time}
use server_application.Manager.{other_than}
use server_application.Server.{ServerState, session_of, on_session}
use server_application.Server.Login.{
  find_by_nickname, complete_success, complete_fail, take_nickname, enter, settle, on_user_info_ok,
  begin,
}
use server_application.Server.Messages.{
  Handled, handled, thrown, MessageType, login, logout, chat, chat_zone, keepalive, message_type,
  leave_unknown, login_as, login_handler, logout_handler, chat_handler, chat_in_zone, speak_in_zone,
  chatzone_handler, keepalive_handler, run_handler, after_handler, dispatch_type, dispatch,
  on_message, take_messages,
}
use server_application.Server.Buffers.{
  buffered, bytes_of, Shrinks, modify_self, emit-Shrinks, on_session-Shrinks, if-Shrinks,
  close_session-Shrinks,
}
use server_application.Server.Buffers.Writes.{
  post_write-Shrinks, broadcast-Shrinks, broadcast_zone_tcp-Shrinks, add_session-Shrinks,
  evict-Shrinks, register_nickname-Shrinks, assign_session_to_zone-Shrinks,
}

on_nickname_registered-bytes : (s : Session) → bytes_of (on_nickname_registered s) ≡ bytes_of s
unfolding on_nickname_registered
on_nickname_registered-bytes s = refl

module _ {J : Type 0} (codec : Codec J) (c : Config) (u : ServerState) where
  take_nickname-Shrinks :
      (r : ℕ) (nickname : Text) (w : ServerState)
      → Shrinks u w
      → Shrinks u (take_nickname codec c r nickname w)
  unfolding take_nickname
  take_nickname-Shrinks r nickname w v =
      let known = add_session-Shrinks u r w v in
      on_session-Shrinks u r _ _ (omega (arith, on_nickname_registered-bytes _))
        (register_nickname-Shrinks u c nickname r _ (evict-Shrinks u c _ _ _ known))

  complete_success-Shrinks :
      (r : ℕ) (nickname : Text) (w : ServerState)
      → Shrinks u w
      → Shrinks u (complete_success codec c r nickname w)
  unfolding complete_success
  complete_success-Shrinks r nickname w v = post_write-Shrinks u c r _ w v

  complete_fail-Shrinks :
      (r : ℕ) (reason : Text) (w : ServerState)
      → Shrinks u w
      → Shrinks u (complete_fail codec c r reason w)
  unfolding complete_fail
  complete_fail-Shrinks r reason w v = post_write-Shrinks u c r _ w v

  enter-Shrinks :
      (r : ℕ) (nickname : Text) (w : ServerState)
      → Shrinks u w
      → Shrinks u (enter codec c r nickname w)
  unfolding enter
  enter-Shrinks r nickname w v = complete_success-Shrinks r nickname _ (
      broadcast-Shrinks u c _ _ _
        (assign_session_to_zone-Shrinks u r _ _ (take_nickname-Shrinks r nickname w v)))

  settle-Shrinks :
      (r : ℕ) (nickname : Text) (code : Option ℤ) (w : ServerState)
      → Shrinks u w
      → Shrinks u (settle codec c r nickname code w)
  unfolding settle
  settle-Shrinks r nickname none w v = v
  settle-Shrinks r nickname (some code) w v =
      if-Shrinks u _ _ _ (enter-Shrinks r nickname w v) (complete_fail-Shrinks r _ w v)

  on_user_info_ok-Shrinks :
      (r : ℕ) (nickname : Text) (j : J) (w : ServerState)
      → Shrinks u w
      → Shrinks u (on_user_info_ok codec c r nickname j w)
  unfolding on_user_info_ok
  on_user_info_ok-Shrinks r nickname j w v =
      settle-Shrinks r nickname (codec.int_value j (codes "code") minus_one) w v

  begin-Shrinks :
      (db_connected : Bool) (r : ℕ) (nickname : Text) (w : ServerState)
      → Shrinks u w
      → Shrinks u (begin codec c db_connected r nickname w)
  unfolding begin
  begin-Shrinks db_connected r nickname w v =
      if-Shrinks u _ _ _ (emit-Shrinks u _ w v) (on_user_info_ok-Shrinks r nickname _ w v)

  leave_unknown-Shrinks :
      (r : ℕ) (w : ServerState) → Shrinks u w → Shrinks u (leave_unknown codec c r w)
  unfolding leave_unknown
  leave_unknown-Shrinks r w v = close_session-Shrinks u r _ (post_write-Shrinks u c r _ w v)

  login_as-Shrinks :
      (db_connected : Bool) (r : ℕ) (nickname : Text) (w : ServerState)
      → Shrinks u w
      → Shrinks u (login_as codec c db_connected r nickname w)
  unfolding login_as
  login_as-Shrinks db_connected r nickname w v =
      let prev = other_than r (find_by_nickname nickname w) in
      if-Shrinks u _ _ _ (post_write-Shrinks u c r _ w v) (
        if-Shrinks u _ _ _ (leave_unknown-Shrinks r w v)
          (begin-Shrinks db_connected r nickname _ (evict-Shrinks u c _ prev w v)))

  -- The state that a handler ends in.
  abbrev Ends : Handled → Type 0
  Ends (handled w) = Shrinks u w
  Ends (thrown w) = Shrinks u w

  if-Ends : (b : Bool) (g h : Handled) → Ends g → Ends h → Ends (if b then g else h)
  if-Ends true g h x y = x
  if-Ends false g h x y = y

  login_handler-Ends :
      (db_connected : Bool) (r : ℕ) (j : J) (w : ServerState)
      → Shrinks u w
      → Ends (login_handler codec c db_connected r j w)
  unfolding login_handler
  login_handler-Ends db_connected r j w v =
      elim (Option-cases (codec.json.value j (codes "nickname") (codes "anonymity"))) [
        | inl e ↦ rw (e, login_handler) v
        | inr (nickname, e) ↦ rw (e, login_handler) (login_as-Shrinks db_connected r nickname w v)
      ]

  logout_handler-Ends : (r : ℕ) (w : ServerState) → Shrinks u w → Ends (logout_handler codec c r w)
  unfolding logout_handler
  logout_handler-Ends r w v =
      if-Ends _ (handled _) (handled _) (leave_unknown-Shrinks r w v)
        (close_session-Shrinks u r _ (broadcast-Shrinks u c _ _ w v))

  chat_handler-Ends :
      (r : ℕ) (j : J) (w : ServerState) → Shrinks u w → Ends (chat_handler codec c r j w)
  unfolding chat_handler
  chat_handler-Ends r j w v = elim (Option-cases (codec.json.value j (codes "msg") [])) [
    | inl e ↦ rw (e, chat_handler) v
    | inr (msg, e) ↦
        rw (e, chat_handler) (post_write-Shrinks u c r _ _ (broadcast-Shrinks u c _ _ w v))
  ]

  chat_in_zone-Shrinks :
      (r : ℕ) (msg : Text) (w : ServerState)
      → Shrinks u w
      → Shrinks u (chat_in_zone codec c r msg w)
  unfolding chat_in_zone
  chat_in_zone-Shrinks r msg w v =
      if-Shrinks u _ _ _ (post_write-Shrinks u c r _ w v)
        (post_write-Shrinks u c r _ _ (broadcast_zone_tcp-Shrinks u c _ _ _ w v))

  speak_in_zone-Ends :
      (r : ℕ) (msg : Option Text) (w : ServerState)
      → Shrinks u w
      → Ends (speak_in_zone codec c r msg w)
  unfolding speak_in_zone
  speak_in_zone-Ends r none w v = v
  speak_in_zone-Ends r (some msg) w v = chat_in_zone-Shrinks r msg w v

  chatzone_handler-Ends :
      (r : ℕ) (j : J) (w : ServerState) → Shrinks u w → Ends (chatzone_handler codec c r j w)
  unfolding chatzone_handler
  chatzone_handler-Ends r j w v =
      if-Ends (is_nonpos (session_of w r).zone_id) (handled _) _ (post_write-Shrinks u c r _ w v)
        (speak_in_zone-Ends r (codec.json.value j (codes "msg") []) w v)

  keepalive_handler-Ends :
      (now r : ℕ) (w : ServerState) → Shrinks u w → Ends (keepalive_handler codec c now r w)
  unfolding keepalive_handler update_alive_time
  keepalive_handler-Ends now r w v = on_session-Shrinks u r _ w (omega arith) v

  run_handler-Ends :
      (type : MessageType) (db_connected : Bool) (now r : ℕ) (j : J) (w : ServerState)
      → Shrinks u w
      → Ends (run_handler codec c type db_connected now r j w)
  unfolding run_handler
  run_handler-Ends login db_connected now r j w v = login_handler-Ends db_connected r j w v
  run_handler-Ends logout db_connected now r j w v = logout_handler-Ends r w v
  run_handler-Ends chat db_connected now r j w v = chat_handler-Ends r j w v
  run_handler-Ends chat_zone db_connected now r j w v = chatzone_handler-Ends r j w v
  run_handler-Ends keepalive db_connected now r j w v = keepalive_handler-Ends now r w v

  after_handler-Shrinks : (r : ℕ) (h : Handled) → Ends h → Shrinks u (after_handler codec c r h)
  unfolding after_handler
  after_handler-Shrinks r (handled w) v = v
  after_handler-Shrinks r (thrown w) v = post_write-Shrinks u c r _ w v

  dispatch_type-Shrinks :
      (type : Option MessageType) (db_connected : Bool) (now r : ℕ) (j : J) (w : ServerState)
      → Shrinks u w
      → Shrinks u (dispatch_type codec c type db_connected now r j w)
  unfolding dispatch_type
  dispatch_type-Shrinks none db_connected now r j w v =
      close_session-Shrinks u r _ (post_write-Shrinks u c r _ w v)
  dispatch_type-Shrinks (some type) db_connected now r j w v =
      after_handler-Shrinks r _ (run_handler-Ends type db_connected now r j w v)

  dispatch-Shrinks :
      (db_connected : Bool) (now r : ℕ) (j : J) (w : ServerState)
      → Shrinks u w
      → Shrinks u (dispatch codec c db_connected now r j w)
  unfolding dispatch
  dispatch-Shrinks db_connected now r j w v =
      elim (Option-cases (codec.json.value j (codes "type") [])) [
        | inl e ↦ rw (e, dispatch) (close_session-Shrinks u r w v)
        | inr (type, e) ↦
            rw (e, dispatch)
              (if-Shrinks u _ _ _ (post_write-Shrinks u c r _ w v)
                (dispatch_type-Shrinks (message_type type) db_connected now r j w v))
      ]

  on_message-Shrinks :
      (db_connected : Bool) (now r : ℕ) (text : Text) (w : ServerState)
      → Shrinks u w
      → Shrinks u (on_message codec c db_connected now r text w)
  unfolding on_message
  on_message-Shrinks db_connected now r text w v = elim (Option-cases (codec.parse text)) [
    | inl e ↦ rw (e, on_message) (post_write-Shrinks u c r _ w v)
    | inr (j, e) ↦ rw (e, on_message) (dispatch-Shrinks db_connected now r j w v)
  ]
