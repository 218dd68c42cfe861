-- ===== src/Server/Login.antt =====
-- UseCases/LoginFlow.cpp: a login from the request for the user's record to the answer to the client.
-- `sess_` is a weak pointer that always locks, and the objects of AppContext are there, but for the
-- link to the DB middleware: `db_connected` when the router and a connected client are. The object that the
-- request waits in is the pair of a session and a nickname.
use server_application.Common.{
  ℕ, Bool, true, false, Option, none, some, List, [], ◌∷◌, ◌++◌, if◌then◌else◌, Text, codes, ℤ, pos,
  minus_one, int_eq,
}
use server_application.Json.{Codec}
use server_application.Session.{Config, on_nickname_registered}
use server_application.Manager
use server_application.Manager.{other_than}
use server_application.Zones
use server_application.Server.{
  ServerState, requests_user_info, session_of, on_session, emit, close_session, post_write,
  broadcast,
}
use server_application.Server.Sessions.{add_session}

abbrev pub newline : Text
newline = 10 ∷ []

unfoldable pub nothing_found : Option (Option ℕ × Bool × List (Text × ℕ)) → Option ℕ
nothing_found none = none
nothing_found (some (found, held, index)) = found

-- SessionManager::find_session_by_nickname from a free mutex.
unfoldable pub find_by_nickname : Text → ServerState → Option ℕ
unfolding nothing_found
find_by_nickname nickname w =
    nothing_found
      (Manager.find_session_by_nickname (λ _. true) nickname false w.manager.nickname_index)

-- Another session is told why, and closed.
unfoldable pub evict : Config → Text → Option ℕ → ServerState → ServerState
evict c reason none w = w
evict c reason (some prev) w = close_session prev (post_write c prev reason w)

abbrev pub duplicate_login : Text
duplicate_login = codes "{\"type\":\"error\",\"msg\":\"Duplicate login ban\"}"

abbrev pub logged_in_elsewhere : Text
logged_in_elsewhere = codes "{\"type\":\"error\",\"msg\":\"다른 곳에서 로그인되어 기존 연결이 종료됩니다.\"}\n"

-- SessionManager::register_nickname, with the eviction that it makes before the index is written.
unfoldable pub register_nickname : Config → Text → ℕ → ServerState → ServerState
unfolding evict
register_nickname c nickname r w =
    elim (Manager.register_nickname (λ _. true) nickname r false w.manager.nickname_index) [
      | none ↦ w
      | some (displaced, held, index) ↦
          let evicted = evict c logged_in_elsewhere displaced w in
          record evicted { manager = record evicted.manager { nickname_index = index } }
    ]

-- DataHandler::assign_session_to_zone.
unfoldable pub assign_session_to_zone : ℕ → ℤ → ServerState → ServerState
unfolding on_session
assign_session_to_zone r zone_id w =
    let (zones, s) = Zones.assign_session_to_zone w.zones (session_of w r) r zone_id in
    on_session r (λ _. s) (record w { zones = zones })

abbrev pub default_zone : ℤ
default_zone = pos 1

module _ {J : Type 0} (codec : Codec J) (c : Config) where
  open codec use {json, dump, int_value, boolean}

  unfoldable pub message : Text → Text → Text → Text → Text
  message type key value rest =
      dump (json.object ((codes "type", json.string type) ∷ (key, json.string value) ∷ [])) ++ rest

  unfoldable pub notice : Text → Text
  unfolding message
  notice msg = message (codes "notice") (codes "msg") msg newline

  unfoldable pub complete_success : ℕ → Text → ServerState → ServerState
  unfolding message
  complete_success r nickname w =
      post_write c r (message (codes "login_success") (codes "nickname") nickname newline) w

  unfoldable pub login_failure : Text → Text
  login_failure reason =
      dump (
        json.object (
          (codes "type", json.string (codes "login_result"))
          ∷ (codes "ok", boolean false)
          ∷ (codes "error", json.string reason)
          ∷ []))
      ++ newline

  unfoldable pub complete_fail : ℕ → Text → ServerState → ServerState
  unfolding login_failure
  complete_fail r reason w = post_write c r (login_failure reason) w

  -- on_user_info_ok up to the nickname: the session is in the manager, another session of the
  -- nickname is gone.
  unfoldable pub take_nickname : ℕ → Text → ServerState → ServerState
  take_nickname r nickname w =
      let known = add_session r w in
      let alone = evict c duplicate_login (other_than r (find_by_nickname nickname known)) known in
      on_session r (λ s. on_nickname_registered (record s { nickname = nickname }))
        (register_nickname c nickname r alone)

  unfoldable pub enter : ℕ → Text → ServerState → ServerState
  unfolding take_nickname assign_session_to_zone complete_success notice
  enter r nickname w =
      let placed = assign_session_to_zone r default_zone (take_nickname r nickname w) in
      complete_success r nickname (
        broadcast c (notice (nickname ++ codes " has entered.")) (session_of placed r).session_id
          placed)

  -- A code that is not zero refuses; `value` may throw, which ends the callback.
  unfoldable pub settle : ℕ → Text → Option ℤ → ServerState → ServerState
  unfolding enter complete_fail
  settle r nickname none w = w
  settle r nickname (some code) w =
      if int_eq code (pos 0) then enter r nickname w else complete_fail r (codes "user_not_found") w

  -- LoginFlow::on_user_info_ok.
  unfoldable pub on_user_info_ok : ℕ → Text → J → ServerState → ServerState
  unfolding settle
  on_user_info_ok r nickname j w = settle r nickname (int_value j (codes "code") minus_one) w

  -- The answer that stands in for the DB middleware's.
  unfoldable pub bypass : Text → J
  bypass nickname = json.object (
      (codes "type", json.string (codes "db_query_result"))
      ∷ (codes "api", json.string (codes "request_user_info"))
      ∷ (codes "code", json.number (pos 0))
      ∷ (codes "data", json.object ((codes "nickname", json.string nickname) ∷ []))
      ∷ [])

  -- LoginFlow::begin and LoginFlow::request_user_info.
  unfoldable pub begin : Bool → ℕ → Text → ServerState → ServerState
  unfolding bypass on_user_info_ok emit
  begin db_connected r nickname w =
      if db_connected
      then emit (requests_user_info r nickname) w
      else on_user_info_ok r nickname (bypass nickname) w

  -- The error callback: the text under "msg" of the answer.
  unfoldable pub on_request_error : ℕ → J → ServerState → ServerState
  unfolding complete_fail
  on_request_error r j w = elim (json.value j (codes "msg") (codes "timeout")) [
    | none ↦ w
    | some reason ↦ complete_fail r reason w
  ]
