-- ===== src/Server/Serving/Handlers.antt =====
-- The handlers of messages and MessageDispatcher::dispatch keep the books.
use server_application.Common.{text_key}
use server_application.Common.{
  ℕ, refl, Bool, true, false, Option, none, some, [], if◌then◌else◌, is_nonpos, Text, codes, inl,
  inr, Option-cases,
}
use server_application.Json.{Codec}
use server_application.Session.{Config, update_alive_time}
use server_application.Server.{ServerState, session_of}
use server_application.Server.Messages.{
  Handled, handled, thrown, login_handler, logout_handler, chat_handler, chat_in_zone,
  speak_in_zone, chatzone_handler, keepalive_handler, MessageType, login, logout, chat, chat_zone,
  keepalive, message_type, run_handler, after_handler, dispatch_type, dispatch, on_message,
}
use server_application.Server.Books.{IsSound, IsHeld, Keeps-IsSound, on_session-Keeps}
use server_application.Server.Closing.Calls.{close_session-IsSound}
use server_application.Server.Upkeep.{
  if-IsSound, post_write-IsSound, broadcast-IsSound, broadcast_zone_tcp-IsSound,
}
use server_application.Server.Serving.{leave_unknown-IsSound, login_as-IsSound}

module _ {J : Type 0} (codec : Codec J) (c : Config) where
  -- The state that a handler ends in.
  abbrev Ends : Handled → Type 0
  Ends (handled w) = IsSound w
  Ends (thrown w) = IsSound w

  if-Ends : (b : Bool) (g h : Handled) → Ends g → Ends h → Ends (if b then g else h)
  if-Ends true g h x y = x
  if-Ends false g h x y = y

  login_handler-Ends :
      (db_connected : Bool) (r : ℕ) (j : J) (w : ServerState)
      → IsSound w
      → IsHeld w r
      → Ends (login_handler codec c db_connected r j w)
  unfolding login_handler
  login_handler-Ends db_connected r j w v held =
      elim (Option-cases (codec.json.value j (codes "nickname") (codes "anonymity"))) [
        | inl e ↦ rw (e, login_handler) v
        | inr (nickname, e) ↦
            rw (e, login_handler) (login_as-IsSound codec c db_connected r nickname w v held)
      ]

  logout_handler-Ends : (r : ℕ) (w : ServerState) → IsSound w → Ends (logout_handler codec c r w)
  unfolding logout_handler
  logout_handler-Ends r w v =
      if-Ends _ (handled _) (handled _) (leave_unknown-IsSound codec c r w v)
        (close_session-IsSound r _ (broadcast-IsSound c _ _ w v))

  chat_handler-Ends :
      (r : ℕ) (j : J) (w : ServerState) → IsSound w → Ends (chat_handler codec c r j w)
  unfolding chat_handler
  chat_handler-Ends r j w v = elim (Option-cases (codec.json.value j (codes "msg") [])) [
    | inl e ↦ rw (e, chat_handler) v
    | inr (msg, e) ↦ rw (e, chat_handler) (post_write-IsSound c r _ _ (broadcast-IsSound c _ _ w v))
  ]

  chat_in_zone-IsSound :
      (r : ℕ) (msg : Text) (w : ServerState) → IsSound w → IsSound (chat_in_zone codec c r msg w)
  unfolding chat_in_zone
  chat_in_zone-IsSound r msg w v =
      if-IsSound _ _ _ (post_write-IsSound c r _ w v)
        (post_write-IsSound c r _ _ (broadcast_zone_tcp-IsSound c _ _ _ w v))

  speak_in_zone-Ends :
      (r : ℕ) (msg : Option Text) (w : ServerState)
      → IsSound w
      → Ends (speak_in_zone codec c r msg w)
  unfolding speak_in_zone
  speak_in_zone-Ends r none w v = v
  speak_in_zone-Ends r (some msg) w v = chat_in_zone-IsSound r msg w v

  chatzone_handler-Ends :
      (r : ℕ) (j : J) (w : ServerState) → IsSound w → Ends (chatzone_handler codec c r j w)
  unfolding chatzone_handler
  chatzone_handler-Ends r j w v =
      if-Ends (is_nonpos (session_of w r).zone_id) (handled _) _ (post_write-IsSound c r _ w v)
        (speak_in_zone-Ends r (codec.json.value j (codes "msg") []) w v)

  keepalive_handler-Ends :
      (now r : ℕ) (w : ServerState) → IsSound w → Ends (keepalive_handler codec c now r w)
  unfolding keepalive_handler update_alive_time
  keepalive_handler-Ends now r w v = Keeps-IsSound (on_session-Keeps r _ w refl) v

  run_handler-Ends :
      (type : MessageType) (db_connected : Bool) (now r : ℕ) (j : J) (w : ServerState)
      → IsSound w
      → IsHeld w r
      → Ends (run_handler codec c type db_connected now r j w)
  unfolding run_handler
  run_handler-Ends login db_connected now r j w v held =
      login_handler-Ends db_connected r j w v held
  run_handler-Ends logout db_connected now r j w v held = logout_handler-Ends r w v
  run_handler-Ends chat db_connected now r j w v held = chat_handler-Ends r j w v
  run_handler-Ends chat_zone db_connected now r j w v held = chatzone_handler-Ends r j w v
  run_handler-Ends keepalive db_connected now r j w v held = keepalive_handler-Ends now r w v

  after_handler-IsSound : (r : ℕ) (h : Handled) → Ends h → IsSound (after_handler codec c r h)
  unfolding after_handler
  after_handler-IsSound r (handled w) v = v
  after_handler-IsSound r (thrown w) v = post_write-IsSound c r _ w v

  dispatch_type-IsSound :
      (type : Option MessageType) (db_connected : Bool) (now r : ℕ) (j : J) (w : ServerState)
      → IsSound w
      → IsHeld w r
      → IsSound (dispatch_type codec c type db_connected now r j w)
  unfolding dispatch_type
  dispatch_type-IsSound none db_connected now r j w v held =
      close_session-IsSound r _ (post_write-IsSound c r _ w v)
  dispatch_type-IsSound (some type) db_connected now r j w v held =
      after_handler-IsSound r _ (run_handler-Ends type db_connected now r j w v held)

  pub dispatch-IsSound :
      (db_connected : Bool) (now r : ℕ) (j : J) (w : ServerState)
      → IsSound w
      → IsHeld w r
      → IsSound (dispatch codec c db_connected now r j w)
  unfolding dispatch
  dispatch-IsSound db_connected now r j w v held =
      elim (Option-cases (codec.json.value j (codes "type") [])) [
        | inl e ↦ rw (e, dispatch) (close_session-IsSound r w v)
        | inr (type, e) ↦
            rw (e, dispatch)
              (if-IsSound _ _ _ (post_write-IsSound c r _ w v)
                (dispatch_type-IsSound (message_type type) db_connected now r j w v held))
      ]

  pub on_message-IsSound :
      (db_connected : Bool) (now r : ℕ) (text : Text) (w : ServerState)
      → IsSound w
      → IsHeld w r
      → IsSound (on_message codec c db_connected now r text w)
  unfolding on_message
  on_message-IsSound db_connected now r text w v held = elim (Option-cases (codec.parse text)) [
    | inl e ↦ rw (e, on_message) (post_write-IsSound c r _ w v)
    | inr (j, e) ↦ rw (e, on_message) (dispatch-IsSound db_connected now r j w v held)
  ]
