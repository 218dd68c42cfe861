-- ===== src/Router/Callbacks.antt =====
-- Which calls of DBmwRouter.cpp call a callback of send_request_cb.
use server_application.Common.{
  ℕ, suc, ◌+◌, ◌≤◌, ◌≡◌, Bool, false, not, ◌&&◌, ◌||◌, List, [], ◌∷◌, ◌++◌, arith, if◌then◌else◌,
  ltb, Text, text_key, lookup, ℤ, Option-cases, Bool-cases, inl, inr,
}
use server_application.Json.{Json}
use server_application.Router.{
  Router, Pending, Effect, sends, arms, schedules_retry, resolves, calls_ok, calls_error,
  calls_handler, marks_authed, notes_heartbeat_ack, send_now_locked, send_pending,
  arm_timeout_locked, fulfill_and_erase_locked, start_request, make_req_id,
}
use server_application.Router.Calls.{
  expire, expire_pending, answer_request, callback, send_request, send_request_cb,
}
use server_application.Router.Requests.{
  Event, requests, requests_cb, answers, expires, retries_send, step, run,
}

-- How often a callback is called.
unfoldable pub callbacks : {J : Type 0} → List (Effect J) → ℕ
callbacks [] = 0
callbacks (calls_ok id j ∷ es) = suc (callbacks es)
callbacks (calls_error id j ∷ es) = suc (callbacks es)
callbacks (_ ∷ es) = callbacks es

module _ {J : Type 0} where
  callbacks-append : (xs ys : List (Effect J)) → callbacks (xs ++ ys) ≡ callbacks xs + callbacks ys
  unfolding callbacks
  callbacks-append [] ys = omega arith
  callbacks-append (calls_ok t j ∷ xs) ys = omega (arith, callbacks-append xs ys)
  callbacks-append (calls_error t j ∷ xs) ys = omega (arith, callbacks-append xs ys)
  callbacks-append (sends b j ∷ xs) ys = callbacks-append xs ys
  callbacks-append (arms t n ∷ xs) ys = callbacks-append xs ys
  callbacks-append (schedules_retry t ∷ xs) ys = callbacks-append xs ys
  callbacks-append (resolves t j ∷ xs) ys = callbacks-append xs ys
  callbacks-append (calls_handler t j ∷ xs) ys = callbacks-append xs ys
  callbacks-append (marks_authed ∷ xs) ys = callbacks-append xs ys
  callbacks-append (notes_heartbeat_ack ∷ xs) ys = callbacks-append xs ys

  send_pending-callbacks :
      (throws : Bool) (r : Router J) (id : Text) (p : Pending J)
      → callbacks (send_pending throws r id p).1 ≡ 0
  unfolding send_pending callbacks
  send_pending-callbacks throws r id p = ground arith

  send_now_locked-callbacks :
      (throws : Bool) (r : Router J) (id : Text) → callbacks (send_now_locked throws r id).1 ≡ 0
  unfolding send_now_locked callbacks
  send_now_locked-callbacks throws r id = elim (Option-cases (lookup id r.pending)) [
    | inl e ↦ rw (e, send_now_locked)
    | inr (p, e) ↦ rw (e, send_now_locked) (send_pending-callbacks throws r id p)
  ]

  arm_timeout_locked-callbacks :
      (r : Router J) (id : Text) → callbacks (arm_timeout_locked r id) ≡ 0
  unfolding arm_timeout_locked callbacks
  arm_timeout_locked-callbacks r id = ground arith

  fulfill_and_erase_locked-callbacks :
      (r : Router J) (id : Text) (j : J) (ok : Bool)
      → callbacks (fulfill_and_erase_locked r id j ok).1 ≡ 0
  unfolding fulfill_and_erase_locked callbacks
  fulfill_and_erase_locked-callbacks r id j ok = ground arith

  sent-callbacks :
      (throws : Bool) (r : Router J) (id : Text)
      → callbacks
          ((send_now_locked throws r id).1 ++ arm_timeout_locked (send_now_locked throws r id).0 id)
        ≡ 0
  sent-callbacks throws r id = omega (
    arith,
    callbacks-append (send_now_locked throws r id).1
        (arm_timeout_locked (send_now_locked throws r id).0 id),
    send_now_locked-callbacks throws r id,
    arm_timeout_locked-callbacks (send_now_locked throws r id).0 id,
  )

  start_request-callbacks :
      (throws : Bool) (r : Router J) (id : Text) (p : Pending J)
      → callbacks (start_request throws r id p).1 ≡ 0
  unfolding start_request
  start_request-callbacks throws r id p = sent-callbacks throws _ id

  callback-once :
      (id : Text) (j : J) (ok : Bool) (p : Pending J) → callbacks (callback id j ok p) ≤ 1
  unfolding callback callbacks
  callback-once id j ok p = ground arith

module _ {J : Type 0} (json : Json J) where
  expire-callbacks :
      (throws : Bool) (r : Router J) (id : Text) → callbacks (expire json throws r id).1 ≡ 0
  unfolding expire expire_pending callbacks
  expire-callbacks throws r id = elim (Option-cases (lookup id r.pending)) [
    | inl e ↦ rw (e, expire)
    | inr (p, e) ↦
        rw (e, expire)
          (elim (Bool-cases (ltb p.retries p.max_retries)) [
            | inl more ↦ rw (more, expire_pending) (sent-callbacks throws _ id)
            | inr over ↦ rw (over, expire_pending) (fulfill_and_erase_locked-callbacks _ id _ false)
          ])
  ]

  answer_request-callbacks :
      (r : Router J) (id : Text) (j : J) (ok : Bool)
      → callbacks (answer_request json r id j ok).1 ≤ 1
  unfolding answer_request callbacks
  answer_request-callbacks r id j ok = elim (Option-cases (lookup id r.pending)) [
    | inl e ↦ rw (e, answer_request) (omega arith)
    | inr (p, e) ↦
        rw (e, answer_request)
          (omega (
            arith,
            callbacks-append (fulfill_and_erase_locked r id j ok).1 (callback id j ok p),
            fulfill_and_erase_locked-callbacks r id j ok,
            callback-once id j ok p,
          ))
  ]

  -- How many callbacks an event may call: one for an answer, one for a send_request_cb whose send
  -- function is not set, none for the rest.
  unfoldable pub may_call : Router J → Event J × Bool → ℕ
  may_call r (requests api payload secure timeout_ms max_retries id, throws) = 0
  may_call r (requests_cb api payload secure timeout_ms max_retries id on_ok on_error, throws) =
      if (if secure then r.send_secure_json_fn else r.send_json_fn) then 0 else 1
  may_call r (answers id j ok, throws) = 1
  may_call r (expires id, throws) = 0
  may_call r (retries_send id, throws) = 0

  unfoldable pub may_call_all : Router J → List (Event J × Bool) → ℕ
  may_call_all r [] = 0
  may_call_all r (e ∷ es) = may_call r e + may_call_all (step json r e).0 es

  unset :
      (secure a b : Bool) → (not secure && not a || secure && not b) ≡ not (if secure then b else a)
  unset secure a b = ground arith

  refused-callbacks :
      (id : Text) (j : J) (on_error : Bool)
      → callbacks (if on_error then calls_error id j ∷ [] else []) ≤ 1
  unfolding callbacks
  refused-callbacks id j on_error = ground arith

  send_request_cb-callbacks :
      (throws : Bool) (r : Router J) (api : Text) (payload : J) (secure : Bool)
      (timeout_ms max_retries : ℕ) (s : ℤ) (on_ok on_error : Bool)
      → callbacks
          (send_request_cb json throws r api payload secure timeout_ms max_retries s on_ok
            on_error).2
        ≤ (if (if secure then r.send_secure_json_fn else r.send_json_fn) then 0 else 1)
  unfolding send_request_cb make_req_id
  send_request_cb-callbacks throws r api payload secure timeout_ms max_retries s on_ok on_error =
      elim (Bool-cases (if secure then r.send_secure_json_fn else r.send_json_fn)) [
        | inl is_set ↦
            rw (unset secure r.send_json_fn r.send_secure_json_fn, is_set)
              (omega
                (arith, start_request-callbacks throws (make_req_id r s).0 (make_req_id r s).1 _))
        | inr not_set ↦
            rw (unset secure r.send_json_fn r.send_secure_json_fn, not_set)
              (refused-callbacks _ _ on_error)
      ]

  step-callbacks : (r : Router J) (e : Event J × Bool) → callbacks (step json r e).1 ≤ may_call r e
  unfolding step may_call send_request
  step-callbacks r (requests api payload secure timeout_ms max_retries s, throws) =
      omega (arith, start_request-callbacks throws (make_req_id r s).0 (make_req_id r s).1 _)
  step-callbacks r
        (requests_cb api payload secure timeout_ms max_retries s on_ok on_error, throws) =
      send_request_cb-callbacks throws r api payload secure timeout_ms max_retries s on_ok on_error
  step-callbacks r (answers id j ok, throws) = answer_request-callbacks r id j ok
  step-callbacks r (expires id, throws) = omega (arith, expire-callbacks throws r id)
  step-callbacks r (retries_send id, throws) = omega (arith, send_now_locked-callbacks throws r id)

  -- In any history of a router, on_ok and on_error together are called at most as often as an answer
  -- came or a send_request_cb found its send function not set; a timer that expires, a retry and a
  -- request that is sent allow no call.
  pub callbacks_need_answers :
      (r : Router J) (es : List (Event J × Bool)) → callbacks (run json r es).1 ≤ may_call_all r es
  unfolding run may_call_all callbacks
  callbacks_need_answers r [] = omega arith
  callbacks_need_answers r (e ∷ es) = omega (
    arith,
    callbacks-append (step json r e).1 (run json (step json r e).0 es).1,
    step-callbacks r e,
    callbacks_need_answers (step json r e).0 es,
  )
