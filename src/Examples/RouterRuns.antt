-- ===== src/Examples/RouterRuns.antt =====
-- Requests of DBmwRouter.cpp: one that is answered twice, one that is never answered.
use server_application.Common.{
  ◌+◌, ◌≤◌, ◌≡◌, refl, Bool, true, false, Option, none, some, List, [], ◌∷◌, arith, pos, Text, Map,
  lookup, text_key, present, minus_one, text_eq,
}
use server_application.Json.{Json}
use server_application.Router.{Router, Pending, resolves, bump}
use server_application.Router.Calls.{
  expire, timeout_error, answer_request, handle_envelope, db_query_result, error_msg, query_result,
  error_message,
}
use server_application.Router.Moves.{results, accounted}
use server_application.Router.Requests.{
  Event, requests, requests_cb, answers, expires, run, accepted_all, IsFresh, requests_accounted,
  one_result_each,
}
use server_application.Router.Attempts.{expire_all, unanswered_request_ends}
use server_application.Router.Callbacks.{callbacks, may_call_all, callbacks_need_answers}
use server_application.Router.Answers.{handle_envelope-answer}

-- A value is its text, if it is one, and what `value` gives for a key and a default.
abbrev Value : Type 0
Value = Option Text × (Text → Text → Option Text)

abbrev text_value : Text → Value
text_value t = (some t, λ k d. none)

abbrev entry_value : Option Value → Text → Option Text
entry_value none d = some d
entry_value (some v) d = v.0

abbrev object_value : Map Text Value → Value
object_value entries = (none, λ k d. entry_value (lookup k entries) d)

abbrev value_of : Value → Text → Text → Option Text
value_of v key default = v.1 key default

value_of-object :
    (entries : Map Text Value) (key default t : Text)
    → lookup key entries ≡ some (text_value t)
    → value_of (object_value entries) key default ≡ some t
value_of-object entries key default t e = rw e

abbrev values : Json Value
values = record {
  string = text_value;
  number = λ z. (none, λ k d. none);
  object = object_value;
  merged = λ entries payload. object_value entries;
  value = value_of;
  value-object = value_of-object;
}

abbrev no_payload : Value
no_payload = (none, λ k d. none)

abbrev new_router : Router Value
new_router = record {
  pending = [];
  req_seq = 0;
  metrics = record { sent = 0; ok = 0; timed_out = 0; retried = 0; failed = 0 };
  send_json_fn = true;
  send_secure_json_fn = false;
  handlers = [];
  pid = 77;
}

new_router-IsFresh : IsFresh new_router
new_router-IsFresh = record {
  none_pending = refl;
  no_ids = refl;
  none_ok = refl;
  none_failed = refl;
}

-- "5_1"
abbrev first_id : Text
first_id = 53 ∷ 95 ∷ 49 ∷ []

abbrev history : List (Event Value × Bool)
history =
    (requests [] no_payload false 2000 1 (pos 5), false)
    ∷ (answers first_id no_payload true, false)
    ∷ (answers first_id no_payload false, false)
    ∷ (requests_cb [] no_payload true 2000 1 minus_one true true, false)
    ∷ []

requests_accounted_example :
    accounted (run values new_router history).0 ≡ accepted_all values new_router history
requests_accounted_example =
    requests_accounted values new_router history new_router-IsFresh (omega arith)

one_result_each_example :
    results first_id (run values new_router history).1
      + present first_id (run values new_router history).0.pending
    ≤ 1
one_result_each_example =
    one_result_each values new_router history first_id new_router-IsFresh (omega arith)

abbrev waiting_request : Pending Value
waiting_request = record {
  request_json = no_payload;
  secure = false;
  retries = 0;
  max_retries = 1;
  timeout_ms = 2000;
  session_id = pos 5;
  on_ok = true;
  on_error = true;
  use_callbacks = true;
}

abbrev waiting_router : Router Value
waiting_router = record new_router { pending = (first_id, waiting_request) ∷ [] }

unanswered_request_ends_example :
    let waiting = expire_all values waiting_router first_id (true ∷ []) in
    let ended = expire values false waiting first_id in
    (lookup first_id waiting.pending ≡ some (record waiting_request { retries = 1 }))
    × (lookup first_id ended.0.pending ≡ none)
    × (ended.1 ≡ resolves first_id (timeout_error values first_id) ∷ [])
    × (ended.0.metrics.failed ≡ bump waiting.metrics.failed)
    × (ended.0.metrics.timed_out ≡ bump waiting.metrics.timed_out)
unfolding lookup text_eq
unanswered_request_ends_example =
    unanswered_request_ends values waiting_router first_id waiting_request (true ∷ []) false refl
      (omega arith)

abbrev tired_request : Pending Value
tired_request = record waiting_request { retries = 1 }

abbrev tired_router : Router Value
tired_router = record new_router { pending = (first_id, tired_request) ∷ [] }

-- A request with both callbacks, whose two attempts are lost, and an answer that comes too late.
abbrev lost : List (Event Value × Bool)
lost =
    (requests_cb [] no_payload false 5000 1 (pos 1) true true, false)
    ∷ (expires first_id, false)
    ∷ (expires first_id, false)
    ∷ (answers first_id no_payload true, false)
    ∷ []

callbacks_need_answers_example :
    callbacks (run values new_router lost).1 ≤ may_call_all values new_router lost
callbacks_need_answers_example = callbacks_need_answers values new_router lost

handle_envelope-answer_example :
    (handle_envelope values true tired_router (db_query_result [] (pos 0) first_id [])
      ≡ some (
          answer_request values tired_router first_id
            (query_result values [] (pos 0) first_id [])
            true))
    × (handle_envelope values true tired_router (error_msg (pos 0) first_id [])
        ≡ some (
            answer_request values tired_router first_id
              (error_message values (pos 0) first_id [])
              false))
handle_envelope-answer_example =
    handle_envelope-answer values true tired_router [] first_id [] (pos 0) refl
