-- ===== src/Router/Requests.antt =====
-- Whole histories of a DBmwRouter: its counters, and that no request gets two results.
use server_application.Common.{
  ℕ, suc, ◌+◌, ◌^◌, ◌≤◌, ◌<◌, ◌≡◌, refl, sym, Bool, not, ◌&&◌, ◌||◌, List, [], ◌∷◌, ◌++◌, arith,
  if◌then◌else◌, length, Text, text_key, ℤ, Bool-cases, inl, inr, present, append_assoc, append-nil,
}
use server_application.Json.{Json}
use server_application.Router.{Router, Effect, send_now_locked, make_req_id, calls_error}
use server_application.Router.Calls.{expire, answer_request, send_request, send_request_cb}
use server_application.Router.Moves.{
  results, Keeps, accounted, send_now_locked-Keeps, answer_request-Move, expire-Move,
}
use server_application.Router.Invariant.{
  Inv, Keeps-Inv, make_req_id-Inv, Move-Inv, later-Inv, started-Inv,
}

-- What happens on the router's strand.
pub data Event (J : Type 0) : Type 0 where
  requests : Text → J → Bool → ℕ → ℕ → ℤ → Event J
  requests_cb : Text → J → Bool → ℕ → ℕ → ℤ → Bool → Bool → Event J
  answers : Text → J → Bool → Event J
  expires : Text → Event J
  retries_send : Text → Event J

module _ {J : Type 0} (json : Json J) where
  -- Whether the send function throws is decided anew at each event.
  unfoldable pub step : Router J → Event J × Bool → Router J × List (Effect J)
  step r (requests api payload secure timeout_ms max_retries id, throws) =
      let x = send_request json throws r api payload secure timeout_ms max_retries id in (x.0, x.2)
  step r (requests_cb api payload secure timeout_ms max_retries id on_ok on_error, throws) =
      let x =
        send_request_cb json throws r api payload secure timeout_ms max_retries id on_ok on_error in
      (x.0, x.2)
  step r (answers id j ok, throws) = answer_request json r id j ok
  step r (expires id, throws) = expire json throws r id
  step r (retries_send id, throws) = send_now_locked throws r id

  unfoldable pub run : Router J → List (Event J × Bool) → Router J × List (Effect J)
  run r [] = (r, [])
  run r (e ∷ es) = let (r', now) = step r e in let (last, later) = run r' es in (last, now ++ later)

-- A router that no request has used.
pub record IsFresh {J : Type 0} (r : Router J) : Type 0 where
  pub none_pending : r.pending ≡ []
  pub no_ids : r.req_seq ≡ 0
  pub none_ok : r.metrics.ok ≡ 0
  pub none_failed : r.metrics.failed ≡ 0

module _ {J : Type 0} (json : Json J) where
  -- Whether an event puts a request in the table.
  unfoldable pub accepted : Router J → Event J × Bool → ℕ
  accepted r (requests api payload secure timeout_ms max_retries id, throws) = 1
  accepted r (requests_cb api payload secure timeout_ms max_retries id on_ok on_error, throws) =
      if (if secure then r.send_secure_json_fn else r.send_json_fn) then 1 else 0
  accepted r (answers id j ok, throws) = 0
  accepted r (expires id, throws) = 0
  accepted r (retries_send id, throws) = 0

  unfoldable pub accepted_all : Router J → List (Event J × Bool) → ℕ
  accepted_all r [] = 0
  accepted_all r (e ∷ es) = accepted r e + accepted_all (step json r e).0 es

  unset :
      (secure a b : Bool) → (not secure && not a || secure && not b) ≡ not (if secure then b else a)
  unset secure a b = ground arith

  only_error-Keeps :
      (r : Router J) (id : Text) (j : J) (on_error : Bool)
      → Keeps r r (if on_error then calls_error id j ∷ [] else [])
  unfolding Keeps results
  only_error-Keeps r id j on_error = (λ k. refl, refl, refl, refl, refl, refl, λ k. ground arith)

  requests_cb-Inv :
      (throws : Bool) (r : Router J) (api : Text) (payload : J) (secure : Bool)
      (timeout_ms max_retries : ℕ) (s : ℤ) (on_ok on_error : Bool) (n requested : ℕ)
      (es : List (Effect J))
      → suc n < 2 ^ 64
      → Inv r n requested es
      → Inv
          (send_request_cb json throws r api payload secure timeout_ms max_retries s on_ok
            on_error).0
          (suc n)
          (requested
            + (if (if secure then r.send_secure_json_fn else r.send_json_fn) then 1 else 0))
          (es
            ++ (send_request_cb json throws r api payload secure timeout_ms max_retries s on_ok
                on_error).2)
  unfolding send_request_cb make_req_id
  requests_cb-Inv throws r api payload secure timeout_ms max_retries s on_ok on_error n requested es
        h v =
      elim (Bool-cases (if secure then r.send_secure_json_fn else r.send_json_fn)) [
        | inl is_set ↦
            let e : requested + 1 ≡ suc requested = omega arith in
            rw (unset secure r.send_json_fn r.send_secure_json_fn, is_set, e)
              (started-Inv throws r s _ n requested es h v)
        | inr not_set ↦
            let e : requested + 0 ≡ requested = omega arith in
            rw (unset secure r.send_json_fn r.send_secure_json_fn, not_set, e)
              (Keeps-Inv _ _ _ _ es _ (only_error-Keeps (make_req_id r s).0 _ _ on_error)
                (make_req_id-Inv r n requested es s h v).0)
      ]

  step-Inv :
      (r : Router J) (e : Event J × Bool) (n requested : ℕ) (es : List (Effect J))
      → suc n < 2 ^ 64
      → Inv r n requested es
      → Inv (step json r e).0 (suc n) (requested + accepted r e) (es ++ (step json r e).1)
  unfolding step accepted send_request
  step-Inv r (requests api payload secure timeout_ms max_retries s, throws) n requested es h v =
      let e : requested + 1 ≡ suc requested = omega arith in
      rw e (started-Inv throws r s _ n requested es h v)
  step-Inv r (requests_cb api payload secure timeout_ms max_retries s on_ok on_error, throws) n
        requested es h v =
      requests_cb-Inv throws r api payload secure timeout_ms max_retries s on_ok on_error n
        requested es h v
  step-Inv r (answers id j ok, throws) n requested es h v =
      let e : requested + 0 ≡ requested = omega arith in
      rw e (
        Move-Inv _ _ _ _ es _ h (answer_request-Move json r id j ok) (later-Inv r n requested es v))
  step-Inv r (expires id, throws) n requested es h v =
      let e : requested + 0 ≡ requested = omega arith in
      rw e (Move-Inv _ _ _ _ es _ h (expire-Move json throws r id) (later-Inv r n requested es v))
  step-Inv r (retries_send id, throws) n requested es h v =
      let e : requested + 0 ≡ requested = omega arith in
      rw e (
        Keeps-Inv _ _ _ _ es _ (send_now_locked-Keeps throws r id).0 (later-Inv r n requested es v))

  run-Inv :
      (events : List (Event J × Bool)) (r : Router J) (n requested : ℕ) (es : List (Effect J))
      → n + length events < 2 ^ 64
      → Inv r n requested es
      → Inv
          (run json r events).0
          (n + length events)
          (requested + accepted_all r events)
          (es ++ (run json r events).1)
  unfolding run accepted_all
  run-Inv [] r n requested es h v = rw (append-nil es) (
      let a : n + 0 ≡ n = omega arith in
      let b : requested + 0 ≡ requested = omega arith in rw (a, b) v)
  run-Inv (e ∷ events) r n requested es h v =
      let one = step-Inv r e n requested es (omega arith) v in
      let rest =
        run-Inv events (step json r e).0 (suc n) (requested + accepted r e)
          (es ++ (step json r e).1) (omega arith) one in
      let count : suc n + length events ≡ n + suc (length events) = omega arith in
      let sum : requested + accepted r e + accepted_all (step json r e).0 events
          ≡ requested + (accepted r e + accepted_all (step json r e).0 events) =
        omega arith in
      rw
        (
          sym count,
          sym sum,
          sym (append_assoc es (step json r e).1 (run json (step json r e).0 events).1),
        )
        rest

  fresh-Inv : (r : Router J) → IsFresh r → Inv r 0 0 []
  unfolding accounted results
  fresh-Inv r f = record {
    once = λ id. inl (rw f.none_pending);
    numbered = omega (arith, f.no_ids);
    balance = rw f.none_pending (omega (arith, f.none_ok, f.none_failed));
    bounded = omega arith;
  }

  -- A router that starts unused, after any history of fewer than 2^64 requests, answers, expired
  -- timers and repeated sends, the send function throwing or not: the requests that ended well, those
  -- that ended badly and those that still wait are together all that were accepted.
  pub requests_accounted :
      (r : Router J) (events : List (Event J × Bool))
      → IsFresh r
      → length events < 2 ^ 64
      → accounted (run json r events).0 ≡ accepted_all r events
  requests_accounted r events f h =
      let start : 0 + length events ≡ length events = omega arith in
      let v = run-Inv events r 0 0 [] (omega arith) (fresh-Inv r f) in omega (arith, v.balance)

  -- A router that starts unused, after any history of fewer than 2^64 requests, answers, expired
  -- timers and repeated sends: no request id was given a result twice, and none that was given one
  -- still waits, so that an answer that comes late or twice gives no result.
  pub one_result_each :
      (r : Router J) (events : List (Event J × Bool)) (id : Text)
      → IsFresh r
      → length events < 2 ^ 64
      → results id (run json r events).1 + present id (run json r events).0.pending ≤ 1
  one_result_each r events id f h =
      let v = run-Inv events r 0 0 [] (omega arith) (fresh-Inv r f) in ground (arith, v.once id)
