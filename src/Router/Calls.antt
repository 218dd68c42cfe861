-- ===== src/Router/Calls.antt =====
-- The entry points of DBmwRouter.cpp over JSON: send_request, send_request_cb, the expiry of a request's
-- timer, and handle for JSON and for protobuf.
use server_application.Common.{
  ℕ, ◌+◌, Bool, true, false, not, ◌&&◌, ◌||◌, Option, none, some, List, [], ◌∷◌, ◌++◌, ltb,
  if◌then◌else◌, is_empty, Text, codes, text_eq, text_key, ℤ, negsuc, minus_one, Map, lookup,
  insert,
}
use server_application.Json.{Json}
use server_application.Router.{
  Pending, Router, Effect, calls_ok, calls_error, calls_handler, marks_authed, notes_heartbeat_ack,
  bump, make_req_id, start_request, send_now_locked, arm_timeout_locked, fulfill_and_erase_locked,
}

unfoldable pub is_answer : Text → Bool
is_answer type =
    text_eq type (codes "db_query_result")
    || text_eq type (codes "db_error")
    || text_eq type (codes "dbmw_error")
    || text_eq type (codes "db_error_msg")

unfoldable pub has_type : Text → List Text → Bool
has_type type [] = false
has_type type (t ∷ ts) = text_eq t type || has_type type ts

unfoldable pub callback : {J : Type 0} → Text → J → Bool → Pending J → List (Effect J)
callback req_id j ok p =
    if not p.use_callbacks
    then []
    else if ok
    then (if p.on_ok then calls_ok req_id j ∷ [] else [])
    else (if p.on_error then calls_error req_id j ∷ [] else [])

-- What the code reads of a `wire::Envelope`, whose class is generated.
pub data Envelope : Type 0 where
  server_login_ack : Text → Envelope
  keepalive_ack : Envelope
  db_query_result : Text → ℤ → Text → Text → Envelope
  error_msg : ℤ → Text → Text → Envelope
  other : Envelope

module _ {J : Type 0} (json : Json J) where
  unfoldable pub request_for : Text → Text → J → J
  request_for api req_id payload =
      json.merged
        ((codes "type", json.string (codes "db_query"))
          ∷ (codes "api", json.string api)
          ∷ (codes "req_id", json.string req_id)
          ∷ [])
        payload

  unfoldable pub send_request :
      Bool → Router J → Text → J → Bool → ℕ → ℕ → ℤ → Router J × Text × List (Effect J)
  unfolding make_req_id start_request request_for
  send_request throws r api payload secure timeout_ms max_retries session_id =
      let (r', req_id) = make_req_id r session_id in
      let p : Pending J = record {
        request_json = request_for api req_id payload;
        secure = secure;
        retries = 0;
        max_retries = max_retries;
        timeout_ms = timeout_ms;
        session_id = session_id;
        on_ok = false;
        on_error = false;
        use_callbacks = false;
      } in
      let (r'', effects) = start_request throws r' req_id p in (r'', req_id, effects)

  not_set_error : Text → J
  not_set_error req_id = json.object (
      (codes "type", json.string (codes "error"))
      ∷ (codes "code", json.number minus_one)
      ∷ (codes "msg", json.string (codes "send function not set"))
      ∷ (codes "req_id", json.string req_id)
      ∷ [])

  unfoldable pub send_request_cb :
      Bool
      → Router J
      → Text
      → J
      → Bool
      → ℕ
      → ℕ
      → ℤ
      → Bool
      → Bool
      → Router J × Text × List (Effect J)
  unfolding make_req_id start_request request_for not_set_error
  send_request_cb throws r api payload secure timeout_ms max_retries session_id on_ok on_error =
      let (r', req_id) = make_req_id r session_id in
      let p : Pending J = record {
        request_json = request_for api req_id payload;
        secure = secure;
        retries = 0;
        max_retries = max_retries;
        timeout_ms = timeout_ms;
        session_id = session_id;
        on_ok = on_ok;
        on_error = on_error;
        use_callbacks = true;
      } in
      let (r'', effects) = start_request throws r' req_id p in
      if not secure && not r'.send_json_fn || secure && not r'.send_secure_json_fn
      then (r', req_id, if on_error then calls_error req_id (not_set_error req_id) ∷ [] else [])
      else (r'', req_id, effects)

  unfoldable pub timeout_error : Text → J
  timeout_error req_id = json.object (
      (codes "type", json.string (codes "error"))
      ∷ (codes "code", json.number (negsuc 109))
      ∷ (codes "msg", json.string (codes "timeout"))
      ∷ (codes "req_id", json.string req_id)
      ∷ [])

  -- The timer of a request has expired.
  unfoldable pub expire_pending : Bool → Router J → Text → Pending J → Router J × List (Effect J)
  unfolding send_now_locked arm_timeout_locked fulfill_and_erase_locked timeout_error
  expire_pending throws r req_id p =
      let again = record r {
        pending = insert req_id (record p { retries = p.retries + 1 }) r.pending;
        metrics = record r.metrics { retried = bump r.metrics.retried };
      } in
      let (sent, effects) = send_now_locked throws again req_id in
      let over = record r { metrics = record r.metrics { timed_out = bump r.metrics.timed_out } } in
      if ltb p.retries p.max_retries
      then (sent, effects ++ arm_timeout_locked sent req_id)
      else fulfill_and_erase_locked over req_id (timeout_error req_id) false

  unfoldable pub expire : Bool → Router J → Text → Router J × List (Effect J)
  unfolding expire_pending
  expire throws r req_id = elim (lookup req_id r.pending) [
    | none ↦ (r, [])
    | some p ↦ expire_pending throws r req_id p
  ]

  unfoldable pub answer_request : Router J → Text → J → Bool → Router J × List (Effect J)
  unfolding callback fulfill_and_erase_locked
  answer_request r req_id j ok = elim (lookup req_id r.pending) [
    | none ↦ (r, [])
    | some p ↦
        let (r', ended) = fulfill_and_erase_locked r req_id j ok in
        (r', ended ++ callback req_id j ok p)
  ]

  unfoldable pub route : Router J → Text → J → Router J × List (Effect J)
  unfolding has_type
  route r type j = (r, if has_type type r.handlers then calls_handler type j ∷ [] else [])

  unfoldable pub answer_or_route : Router J → Text → J → Text → Router J × List (Effect J)
  unfolding answer_request route
  answer_or_route r type j req_id =
      if is_empty req_id
      then route r type j
      else answer_request r req_id j (text_eq type (codes "db_query_result"))

  unfoldable pub handle_type : Router J → J → Text → Option (Router J × List (Effect J))
  unfolding is_answer route answer_or_route
  handle_type r j type =
      let routed = some (route r type j) in
      let answered : Option (Router J × List (Effect J)) = elim (json.value j (codes "req_id") []) [
        | none ↦ none
        | some req_id ↦ some (answer_or_route r type j req_id)
      ] in
      if is_answer type then answered else routed

  -- Nothing when `value` throws.
  unfoldable pub handle : Router J → J → Option (Router J × List (Effect J))
  unfolding handle_type
  handle r j = elim (json.value j (codes "type") []) [
    | none ↦ none
    | some type ↦ handle_type r j type
  ]

  abbrev pub query_result_entries : Text → ℤ → Text → Text → Map Text J
  query_result_entries api code req_id data_json =
      (codes "type", json.string (codes "db_query_result"))
      ∷ (codes "api", json.string api)
      ∷ (codes "code", json.number code)
      ∷ (codes "req_id", json.string req_id)
      ∷ (codes "data", json.string data_json)
      ∷ []

  unfoldable pub query_result : Text → ℤ → Text → Text → J
  query_result api code req_id data_json =
      json.object (query_result_entries api code req_id data_json)

  abbrev pub error_message_entries : ℤ → Text → Text → Map Text J
  error_message_entries code req_id msg =
      (codes "type", json.string (codes "db_error"))
      ∷ (codes "code", json.number code)
      ∷ (codes "req_id", json.string req_id)
      ∷ (codes "msg", json.string msg)
      ∷ []

  unfoldable pub error_message : ℤ → Text → Text → J
  error_message code req_id msg = json.object (error_message_entries code req_id msg)

  -- The overload for protobuf; `has_client` when `db_client.lock()` gives the client.
  unfoldable pub handle_envelope : Bool → Router J → Envelope → Option (Router J × List (Effect J))
  unfolding handle query_result error_message
  handle_envelope has_client r (server_login_ack result) =
      some (r, if text_eq result (codes "ok") && has_client then marks_authed ∷ [] else [])
  handle_envelope has_client r keepalive_ack =
      some (r, if has_client then notes_heartbeat_ack ∷ [] else [])
  handle_envelope has_client r (db_query_result api code req_id data_json) =
      handle r (query_result api code req_id data_json)
  handle_envelope has_client r (error_msg code req_id msg) =
      handle r (error_message code req_id msg)
  handle_envelope has_client r other = some (r, [])
