-- ===== src/Server/Messages.antt =====
-- MessageDispatcher.cpp and MessageHandlers/: a TCP message, from its type to what its handler does; and the
-- read callback of Session.cpp, which cuts the messages off the buffer. `value` of the JSON library
-- may throw a type_error; nothing else that a handler calls throws.
use server_application.Common.{
  ℕ, zero, suc, Bool, Option, none, some, [], ◌∷◌, ◌++◌, if◌then◌else◌, length, is_empty, is_nonpos,
  Text, codes, text_eq,
}
use server_application.Json.{Codec}
use server_application.Framing.{Bytes, extract_message, append}
use server_application.Session.{Session, Config, Task, read_some, update_alive_time}
use server_application.Session.Queues.{release_read, run_next_task}
use server_application.Manager.{other_than}
use server_application.Server.{
  ServerState, starts_read, session_of, on_session, emit, close_session, post_write, broadcast,
  broadcast_zone_tcp,
}
use server_application.Server.Sessions.{do_read}
use server_application.Server.Login.{
  newline, find_by_nickname, evict, duplicate_login, message, notice, begin,
}

-- The end of a handler: `thrown` for a type_error.
pub data Handled : Type 0 where
  handled : ServerState → Handled
  thrown : ServerState → Handled

-- The table of handlers that the constructor of MessageDispatcher fills.
pub data MessageType : Type 0 where
  login logout chat chat_zone keepalive : MessageType

unfoldable pub message_type : Text → Option MessageType
message_type type =
    if text_eq type (codes "login")
    then some login
    else if text_eq type (codes "logout")
    then some logout
    else if text_eq type (codes "chat")
    then some chat
    else if text_eq type (codes "chat_zone")
    then some chat_zone
    else if text_eq type (codes "keepalive")
    then some keepalive
    else none

abbrev pub not_logged_in : Text
not_logged_in = codes "{\"type\":\"logout\",\"msg\":\"You are not logged in.\"}\n"

unfoldable pub emit_next : ℕ → Session × Option Task → ServerState → ServerState
unfolding on_session emit
emit_next r (s, none) w = on_session r (λ _. s) w
emit_next r (s, some read_some) w = emit (starts_read r) (on_session r (λ _. s) w)

unfoldable pub next_task : ℕ → ServerState → ServerState
unfolding emit_next
next_task r w = emit_next r (run_next_task (session_of w r)) w

module _ {J : Type 0} (codec : Codec J) (c : Config) where
  open codec use {json, dump, parse}

  unfoldable pub leave_unknown : ℕ → ServerState → ServerState
  leave_unknown r w = close_session r (post_write c r not_logged_in w)

  unfoldable pub login_as : Bool → ℕ → Text → ServerState → ServerState
  unfolding evict begin leave_unknown find_by_nickname
  login_as db_connected r nickname w =
      let prev = other_than r (find_by_nickname nickname w) in
      if is_empty nickname
      then post_write c r (codes "{\"type\":\"error\",\"msg\":\"nickname required\"}") w
      else if text_eq nickname (codes "quit")
      then leave_unknown r w
      else begin codec c db_connected r nickname (evict c (duplicate_login ++ newline) prev w)

  unfoldable pub login_handler : Bool → ℕ → J → ServerState → Handled
  unfolding login_as
  login_handler db_connected r j w = elim (json.value j (codes "nickname") (codes "anonymity")) [
    | none ↦ thrown w
    | some nickname ↦ handled (login_as db_connected r nickname w)
  ]

  unfoldable pub logout_handler : ℕ → ServerState → Handled
  unfolding notice leave_unknown
  logout_handler r w =
      let s = session_of w r in
      if is_empty s.nickname
      then handled (leave_unknown r w)
      else handled (
          close_session r
            (broadcast c (notice codec c (s.nickname ++ codes " has left.")) s.session_id w))

  unfoldable pub chat_text : Text → Text → Text → Text
  chat_text type from msg =
      dump (
        json.object (
          (codes "type", json.string type)
          ∷ (codes "from", json.string from)
          ∷ (codes "msg", json.string msg)
          ∷ []))
      ++ newline

  unfoldable pub chat_handler : ℕ → J → ServerState → Handled
  unfolding chat_text notice
  chat_handler r j w =
      let s = session_of w r in
      elim (json.value j (codes "msg") []) [
        | none ↦ thrown w
        | some msg ↦ handled (
            post_write c r (notice codec c (msg ++ codes " 'Message sent completed.' "))
              (broadcast c (chat_text (codes "chat") s.nickname msg) s.session_id w))
      ]

  unfoldable pub chat_in_zone : ℕ → Text → ServerState → ServerState
  unfolding chat_text notice message
  chat_in_zone r msg w =
      let s = session_of w r in
      if is_empty msg
      then post_write c r
          (message codec c (codes "error") (codes "msg") (codes "empty message") newline) w
      else post_write c r (notice codec c (msg ++ codes " 'Message tcp_zone_sent completed.' ")) (
          broadcast_zone_tcp c (chat_text (codes "chat_zone") s.nickname msg) s.zone_id s.session_id
            w)

  unfoldable pub speak_in_zone : ℕ → Option Text → ServerState → Handled
  unfolding chat_in_zone
  speak_in_zone r none w = thrown w
  speak_in_zone r (some msg) w = handled (chat_in_zone r msg w)

  unfoldable pub chatzone_handler : ℕ → J → ServerState → Handled
  unfolding speak_in_zone message
  chatzone_handler r j w =
      if is_nonpos (session_of w r).zone_id
      then handled (
          post_write c r
            (message codec c (codes "error") (codes "msg") (codes "not in any zone") newline) w)
      else speak_in_zone r (json.value j (codes "msg") []) w

  unfoldable pub keepalive_handler : ℕ → ℕ → ServerState → Handled
  unfolding on_session
  keepalive_handler now r w = handled (on_session r (λ s. update_alive_time s now) w)

  unfoldable pub run_handler : MessageType → Bool → ℕ → ℕ → J → ServerState → Handled
  run_handler login db_connected now r j w = login_handler db_connected r j w
  run_handler logout db_connected now r j w = logout_handler r w
  run_handler chat db_connected now r j w = chat_handler r j w
  run_handler chat_zone db_connected now r j w = chatzone_handler r j w
  run_handler keepalive db_connected now r j w = keepalive_handler now r w

  -- A type_error of a handler is answered.
  unfoldable pub after_handler : ℕ → Handled → ServerState
  after_handler r (handled w) = w
  after_handler r (thrown w) =
      post_write c r (codes "{\"type\":\"error\",\"msg\":\"Invalid JSON field type\"}\n") w

  unfoldable pub dispatch_type : Option MessageType → Bool → ℕ → ℕ → J → ServerState → ServerState
  unfolding after_handler run_handler
  dispatch_type none db_connected now r j w =
      close_session r
        (post_write c r (codes "{\"type\":\"error\",\"msg\":\"Unknown message type\"}\n") w)
  dispatch_type (some type) db_connected now r j w =
      after_handler r (run_handler type db_connected now r j w)

  -- MessageDispatcher::dispatch. A value that is no object, or a type that is no text, throws before
  -- the handler.
  unfoldable pub dispatch : Bool → ℕ → ℕ → J → ServerState → ServerState
  unfolding dispatch_type message_type
  dispatch db_connected now r j w = elim (json.value j (codes "type") []) [
    | none ↦ close_session r w
    | some type ↦
        if is_empty type
        then post_write c r (codes "{\"type\":\"error\",\"msg\":\"Missing message type field\"}\n")
            w
        else dispatch_type (message_type type) db_connected now r j w
  ]

  unfoldable pub on_message : Bool → ℕ → ℕ → Text → ServerState → ServerState
  unfolding dispatch message
  on_message db_connected now r text w = elim (parse text) [
    | none ↦
        post_write c r
          (message codec c (codes "error") (codes "msg") (codes "Invalid JSON format") newline) w
    | some j ↦ dispatch db_connected now r j w
  ]

  -- The loop over the messages in the buffer. Each message that is cut off makes the buffer shorter, so
  -- a round more than it has bytes is enough.
  unfoldable pub take_messages : ℕ → Bool → ℕ → ℕ → ServerState → ServerState
  unfolding on_message on_session
  take_messages zero db_connected now r w = w
  take_messages (suc fuel) db_connected now r w =
      let (buffer, got) = extract_message (session_of w r).msg_buf in
      let cut = on_session r (λ s. record s { msg_buf = buffer }) w in
      elim got [
        | none ↦ cut
        | some text ↦ take_messages fuel db_connected now r (on_message db_connected now r text cut)
      ]

  -- What a read ends with.
  pub data ReadResult : Type 0 where
    received : Bytes → ReadResult
    eof connection_reset operation_aborted read_failed : ReadResult

  unfoldable pub say_goodbye : ℕ → ServerState → ServerState
  unfolding notice
  say_goodbye r w =
      let s = session_of w r in
      broadcast c (notice codec c (s.nickname ++ codes " has left.")) s.session_id w

  unfoldable pub on_received : Bool → ℕ → ℕ → Bytes → ServerState → ServerState
  unfolding take_messages on_session next_task
  on_received db_connected now r chunk w =
      let fed = on_session r (λ s. record s { msg_buf = append s.msg_buf chunk }) w in
      let drained =
        take_messages (suc (length (session_of fed r).msg_buf.bytes)) db_connected now r fed in
      if (session_of drained r).msg_buf.last_clear_by_invalid_length
      then close_session r drained
      else next_task r (do_read c r drained)

  -- The callback of the read in Session::do_read.
  unfoldable pub on_read : Bool → ℕ → ℕ → ReadResult → ServerState → ServerState
  unfolding on_received say_goodbye next_task on_session
  on_read db_connected now r result w =
      let free = on_session r release_read w in
      elim result [
        | received chunk ↦ on_received db_connected now r chunk free
        | eof ↦ next_task r (close_session r (say_goodbye r free))
        | connection_reset ↦ next_task r (
            close_session r
              (if is_empty (session_of free r).nickname then free else say_goodbye r free))
        | operation_aborted ↦ next_task r free
        | read_failed ↦ next_task r (close_session r free)
      ]
